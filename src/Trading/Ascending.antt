-- ===== src/Trading/Ascending.antt =====
-- trading/src/execution/order_book.rs: the two sides of the book stay well formed.
use actix_pura.Prelude.{
  ◌≡◌, ◌≢◌, String, some, List, [], ◌∷◌, ◌++◌, arith, All, All-append, String-discrete, if_pos,
  if_neg, inl, inr, Bool-cases,
}
use actix_pura.Prelude.Int.{ℤ, ◌≤ℤ◌, ◌<ℤ◌, ltb_ℤ, eq_ℤ, eq_ℤ→eq, ltb_ℤ→lt, gt_of_tests}
use actix_pura.Trading.Order.{Order, PriceOps}
use actix_pura.Trading.Levels.{Levels, push_at, without_id, keep_level, remove_at}
use actix_pura.Trading.Book.{OrderBook}

module _ {P : Type 0} (f : PriceOps P) where
  -- An order that stands at its own price, in the right level.
  abbrev pub StandsAt : ℤ → Order P → Type 0
  StandsAt k o = (p : P) × (o.price ≡ some p) × (f.to_key p ≡ k)

  -- The keys ascend strictly from above `i`, and each level holds orders of its price, at least
  -- one.
  abbrev pub Above : ℤ → Levels P → Type 0
  Above i [] = Unit
  Above i ((k, os) ∷ l) = (i <ℤ k) × (os ≢ []) × All (StandsAt k) os × Above k l

  abbrev pub IsBook : Levels P → Type 0
  IsBook [] = Unit
  IsBook ((k, os) ∷ l) = (os ≢ []) × All (StandsAt k) os × Above k l

  pub Above-mono : (i j : ℤ) (l : Levels P) → j ≤ℤ i → Above i l → Above j l
  Above-mono i j [] h a = tt
  Above-mono i j ((k, os) ∷ l) h a = (omega arith, a.1, a.2, a.3)

  pub Above-IsBook : (i : ℤ) (l : Levels P) → Above i l → IsBook l
  Above-IsBook i [] a = tt
  Above-IsBook i ((k, os) ∷ l) a = (a.1, a.2, a.3)

  snoc-ne-nil : (os : List (Order P)) (o : Order P) → os ++ o ∷ [] ≢ []
  snoc-ne-nil [] o h = cc
  snoc-ne-nil (x ∷ os) o h = cc

  push-Above :
      (i k : ℤ) (o : Order P) (l : Levels P)
      → i <ℤ k
      → StandsAt k o
      → Above i l
      → Above i (push_at k o l)
  unfolding push_at
  push-Above i k o [] h s a = (h, (λ e. cc), (s, tt), tt)
  push-Above i k o ((j, os) ∷ l) h s a = elim (Bool-cases (eq_ℤ k j)) [
    | inl e ↦ rw e (
      a.0,
      snoc-ne-nil os o,
      All-append (StandsAt j) os (o ∷ []) a.2 (rw (← eq_ℤ→eq k j e) s, tt),
      a.3,
    )
    | inr ne ↦ elim (Bool-cases (ltb_ℤ k j)) [
      | inl below ↦ rw (ne, below) (h, (λ q. cc), (s, tt), (ltb_ℤ→lt k j below, a.1, a.2, a.3))
      | inr above ↦
          rw (ne, above) (a.0, a.1, a.2, push-Above j k o l (gt_of_tests k j ne above) s a.3)
    ]
  ]

  pub push-IsBook :
      (k : ℤ) (o : Order P) (l : Levels P) → StandsAt k o → IsBook l → IsBook (push_at k o l)
  unfolding push_at
  push-IsBook k o [] s a = ((λ e. cc), (s, tt), tt)
  push-IsBook k o ((j, os) ∷ l) s a = elim (Bool-cases (eq_ℤ k j)) [
    | inl e ↦ rw e (
      snoc-ne-nil os o,
      All-append (StandsAt j) os (o ∷ []) a.1 (rw (← eq_ℤ→eq k j e) s, tt),
      a.2,
    )
    | inr ne ↦ elim (Bool-cases (ltb_ℤ k j)) [
      | inl below ↦ rw (ne, below) ((λ q. cc), (s, tt), (ltb_ℤ→lt k j below, a.0, a.1, a.2))
      | inr above ↦ rw (ne, above) (a.0, a.1, push-Above j k o l (gt_of_tests k j ne above) s a.2)
    ]
  ]

  without_id-All :
      (k : ℤ) (i : String) (os : List (Order P))
      → All (StandsAt k) os
      → All (StandsAt k) (without_id i os)
  unfolding without_id
  without_id-All k i [] a = tt
  without_id-All k i (o ∷ os) a = elim (String-discrete o.order_id i) [
    | yes p ↦ rw (if_pos _ p) (without_id-All k i os a.1)
    | no p ↦ rw (if_neg _ p) (a.0, without_id-All k i os a.1)
  ]

  keep-Above :
      (i k : ℤ) (os : List (Order P)) (l : Levels P)
      → i <ℤ k
      → All (StandsAt k) os
      → Above k l
      → Above i (keep_level k os l)
  keep-Above i k [] l h s a = Above-mono k i l (omega arith) a
  keep-Above i k (o ∷ os) l h s a = (h, (λ e. cc), s, a)

  remove-Above : (b k : ℤ) (i : String) (l : Levels P) → Above b l → Above b (remove_at k i l)
  unfolding remove_at
  remove-Above b k i [] a = tt
  remove-Above b k i ((j, os) ∷ l) a = elim (Bool-cases (eq_ℤ k j)) [
    | inl e ↦ rw e (keep-Above b j (without_id i os) l a.0 (without_id-All j i os a.2) a.3)
    | inr ne ↦ rw ne (a.0, a.1, a.2, remove-Above j k i l a.3)
  ]

  keep-IsBook :
      (k : ℤ) (os : List (Order P)) (l : Levels P)
      → All (StandsAt k) os
      → Above k l
      → IsBook (keep_level k os l)
  keep-IsBook k [] l s a = Above-IsBook k l a
  keep-IsBook k (o ∷ os) l s a = ((λ e. cc), s, a)

  pub remove-IsBook : (k : ℤ) (i : String) (l : Levels P) → IsBook l → IsBook (remove_at k i l)
  unfolding remove_at
  remove-IsBook k i [] a = tt
  remove-IsBook k i ((j, os) ∷ l) a = elim (Bool-cases (eq_ℤ k j)) [
    | inl e ↦ rw e (keep-IsBook j (without_id i os) l (without_id-All j i os a.1) a.2)
    | inr ne ↦ rw ne (a.0, a.1, remove-Above j k i l a.2)
  ]

  -- Both sides are well formed.
  pub record IsValid (b : OrderBook P) : Type 0 where
    pub buys : IsBook b.buy_orders
    pub sells : IsBook b.sell_orders
