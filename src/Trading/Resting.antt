-- ===== src/Trading/Resting.antt =====
-- trading/src/execution/order_book.rs: the orders of one side of the book under their index, and
-- what a removal leaves of them.
use actix_pura.Prelude.{
  ◌≡◌, ◌≢◌, sym, ap, ◌∙◌, String, false, some, none, List, [], ◌∷◌, arith, All, ◌⊎◌, inl, inr,
  Bool-cases, String-discrete, if_pos, if_neg, unwrap_or,
}
use actix_pura.Prelude.Dict.{lookup, remove, lookup-remove}
use actix_pura.Prelude.Int.{ℤ, pos, ◌≤ℤ◌, eq_ℤ, eq_ℤ→eq, lt→ne_ℤ, eq_ℤ_refl}
use actix_pura.Trading.Order.{Order, OrderSide, PriceOps}
use actix_pura.Trading.Levels.{Levels, orders_at, without_id, keep_level, remove_at}
use actix_pura.Trading.Ascending.{Above, IsBook, Above-IsBook}

ne_of_test : (a b : ℤ) → eq_ℤ a b ≡ false → a ≢ b
ne_of_test a b h q = ground (arith, eq_ℤ_refl a)

module _ {P : Type 0} (f : PriceOps P) where
  -- The key at which `remove_order` looks for an order.
  abbrev pub key_of : Order P → ℤ
  key_of o = f.to_key (unwrap_or f.zero_price o.price)

  -- An order of the level `k` which the index would remove from just there.
  abbrev pub RestsAt : List (String × Order P) → OrderSide → ℤ → Order P → Type 0
  RestsAt d s k m =
      (pos 0 ≤ℤ m.filled_quantity)
      × ((o : Order P) × (lookup m.order_id d ≡ some o) × (o.side ≡ s) × (key_of o ≡ k))

  abbrev pub AllRest : List (String × Order P) → OrderSide → Levels P → Type 0
  AllRest d s [] = Unit
  AllRest d s ((k, os) ∷ l) = All (RestsAt d s k) os × AllRest d s l

  pub at-AllRest :
      (d : List (String × Order P)) (s : OrderSide) (k : ℤ) (l : Levels P)
      → AllRest d s l
      → All (RestsAt d s k) (orders_at k l)
  unfolding orders_at
  at-AllRest d s k [] a = tt
  at-AllRest d s k ((j, os) ∷ l) a = elim (Bool-cases (eq_ℤ k j)) [
    | inl e ↦ rw (e, eq_ℤ→eq k j e) a.0
    | inr ne ↦ rw ne (at-AllRest d s k l a.1)
  ]

  other-RestsAt :
      (d : List (String × Order P)) (s : OrderSide) (k : ℤ) (i : String) (m : Order P)
      → m.order_id ≢ i
      → RestsAt d s k m
      → RestsAt (remove i d) s k m
  other-RestsAt d s k i m ne (z, (o, e, side, key)) = (
    z,
    (
      o,
      lookup-remove i m.order_id d
          ∙ if_neg (String-discrete i m.order_id) (λ q. ne (sym q)) none _
          ∙ e,
      side,
      key,
    ),
  )

  without_id-RestsAt :
      (d : List (String × Order P)) (s : OrderSide) (k : ℤ) (i : String) (os : List (Order P))
      → All (RestsAt d s k) os
      → All (RestsAt (remove i d) s k) (without_id i os)
  unfolding without_id
  without_id-RestsAt d s k i [] a = tt
  without_id-RestsAt d s k i (m ∷ os) a = elim (String-discrete m.order_id i) [
    | yes p ↦ rw (if_pos _ p) (without_id-RestsAt d s k i os a.1)
    | no p ↦ rw (if_neg _ p) (other-RestsAt d s k i m p a.0, without_id-RestsAt d s k i os a.1)
  ]

  -- An identifier that the index has elsewhere is not that of an order in the level.
  apart :
      (d : List (String × Order P)) (s : OrderSide) (k : ℤ) (i : String) {o : Order P} (m : Order P)
      → lookup i d ≡ some o
      → (o.side ≢ s) ⊎ (key_of o ≢ k)
      → RestsAt d s k m
      → m.order_id ≢ i
  apart d s k i {o} m e away (z, (o', e', side, key)) q =
      let same : o' ≡ o = cc in
      elim away [
        | inl other ↦ other (ap (λ x. x.side) (sym same) ∙ side)
        | inr other ↦ other (ap key_of (sym same) ∙ key)
      ]

  apart-RestsAt :
      (d : List (String × Order P)) (s : OrderSide) (k : ℤ) (i : String) {o : Order P}
      (os : List (Order P))
      → lookup i d ≡ some o
      → (o.side ≢ s) ⊎ (key_of o ≢ k)
      → All (RestsAt d s k) os
      → All (RestsAt (remove i d) s k) os
  apart-RestsAt d s k i [] e away a = tt
  apart-RestsAt d s k i (m ∷ os) e away a = (
    other-RestsAt d s k i m (apart d s k i m e away a.0) a.0,
    apart-RestsAt d s k i os e away a.1,
  )

  pub side-AllRest :
      (d : List (String × Order P)) (s : OrderSide) (i : String) {o : Order P} (l : Levels P)
      → lookup i d ≡ some o
      → o.side ≢ s
      → AllRest d s l
      → AllRest (remove i d) s l
  side-AllRest d s i [] e away a = tt
  side-AllRest d s i ((k, os) ∷ l) e away a =
      (apart-RestsAt d s k i os e (inl away) a.0, side-AllRest d s i l e away a.1)

  Above-AllRest :
      (d : List (String × Order P)) (s : OrderSide) (i : String) {o : Order P} (j : ℤ)
      (l : Levels P)
      → lookup i d ≡ some o
      → key_of o ≤ℤ j
      → Above f j l
      → AllRest d s l
      → AllRest (remove i d) s l
  Above-AllRest d s i j [] e h v a = tt
  Above-AllRest d s i {o} j ((k, os) ∷ l) e h v a = (
    apart-RestsAt d s k i os e
        (inr (λ q. ne_of_test (key_of o) k (lt→ne_ℤ (key_of o) k (omega arith)) q)) a.0,
    Above-AllRest d s i k l e (omega arith) v.3 a.1,
  )

  keep-AllRest :
      (d : List (String × Order P)) (s : OrderSide) (k : ℤ) (os : List (Order P)) (l : Levels P)
      → All (RestsAt d s k) os
      → AllRest d s l
      → AllRest d s (keep_level k os l)
  keep-AllRest d s k [] l h a = a
  keep-AllRest d s k (o ∷ os) l h a = (h, a)

  pub remove-AllRest :
      (d : List (String × Order P)) (s : OrderSide) (k : ℤ) (i : String) {o : Order P}
      (l : Levels P)
      → lookup i d ≡ some o
      → key_of o ≡ k
      → IsBook f l
      → AllRest d s l
      → AllRest (remove i d) s (remove_at k i l)
  unfolding remove_at
  remove-AllRest d s k i [] e key v a = tt
  remove-AllRest d s k i ((j, os) ∷ l) e key v a = elim (Bool-cases (eq_ℤ k j)) [
    | inl eq ↦ rw eq (
        keep-AllRest (remove i d) s j (without_id i os) l (without_id-RestsAt d s j i os a.0)
          (Above-AllRest d s i j l e (rw (key, eq_ℤ→eq k j eq) (omega arith)) v.2 a.1))
    | inr ne ↦ rw ne (
      apart-RestsAt d s j i os e (inr (λ q. ne_of_test k j ne (sym key ∙ q))) a.0,
      remove-AllRest d s k i l e key (Above-IsBook f j l v.2) a.1,
    )
  ]
