-- ===== src/Trading/Ending.antt =====
-- trading/src/execution/matcher.rs: the loop of a market order ends, as each round takes an order
-- out of the book.
use actix_pura.Prelude.{
  ℕ, zero, suc, ◌≤◌, ◌<◌, ◌≡◌, refl, sym, ◌∙◌, String, Bool, ◌&&◌, true, false, some, none, List,
  [], ◌∷◌, arith, All, ◌⊎◌, inl, inr, Bool-cases, Option-cases,
}
use actix_pura.Prelude.Int.{ℤ, pos, ◌≤ℤ◌, ◌-ℤ◌, ◌+ℤ◌, leb_ℤ, ltb_ℤ, int_laws}
use actix_pura.Trading.Order.{
  Order, OrderSide, buy, sell, PriceOps, is_active, remaining_quantity, update_status,
  update_filled_quantity,
}
use actix_pura.Trading.Levels.{orders_at}
use actix_pura.Trading.Book.{
  OrderBook, side_levels, remove_order, get_buy_orders_at_price, get_sell_orders_at_price,
}
use actix_pura.Trading.Matcher.{
  Matching, trade, traded, put_back, market_sweep, match_market, best_against, orders_against,
}
use actix_pura.Trading.Resting.{RestsAt, at-AllRest}
use actix_pura.Trading.Taking.{
  opposite, size, IsResting, size-remove_first, remove_order-IsResting, size-remove_order,
  first_taken,
}

pub List-cases {ℓ} : {A : Type ℓ} (l : List A) → (l ≡ []) ⊎ ((x : A) × (xs : List A) × (l ≡ x ∷ xs))
List-cases [] = inl refl
List-cases (x ∷ xs) = inr (x, xs, refl)

-- An order of the quantity `c` has nothing left once it has traded all that was left of it.
pub traded_in_full : (c f : ℤ) → pos 0 ≤ℤ f → leb_ℤ (c -ℤ (f +ℤ (f +ℤ (c -ℤ f)))) (pos 0) ≡ true
traded_in_full c f h =
    let le : c -ℤ (f +ℤ (f +ℤ (c -ℤ f))) ≤ℤ pos 0 = omega int_laws in ground arith

module _ {P : Type 0} (f : PriceOps P) (now : ℕ) (uuid : ℕ → String) where
  trade_side :
      (m : Order P) (p : P) (t : Matching P) → (trade f now uuid m p t).order.side ≡ t.order.side
  unfolding trade update_filled_quantity update_status
  trade_side m p t = refl

  -- An order that is traded in full does not come back.
  pub trade_takes :
      (m : Order P) (p : P) (t : Matching P)
      → pos 0 ≤ℤ m.filled_quantity
      → ((trade f now uuid m p t).remaining_qty ≤ℤ pos 0)
        ⊎ ((trade f now uuid m p t).book ≡ (remove_order f m.order_id t.book).1)
  unfolding trade put_back traded update_filled_quantity update_status remaining_quantity
  trade_takes m p t h = elim (Bool-cases (leb_ℤ t.remaining_qty (remaining_quantity m))) [
    | inl less ↦ inl (rw less (omega int_laws))
    | inr more ↦ inr (rw more (rw (traded_in_full m.quantity m.filled_quantity h) refl))
  ]

  -- The result of a sweep over the orders of the side `s`: all is traded, or fewer than `n` orders
  -- are left on that side.
  abbrev Swept : OrderSide → ℕ → Matching P → Matching P → Type 0
  Swept s n t t' =
      (t'.order.side ≡ t.order.side)
      × ((t'.remaining_qty ≤ℤ pos 0) ⊎ (IsResting f s t'.book × (size (side_levels s t'.book) < n)))

  sweep_first :
      (s : OrderSide) (n : ℕ) (m : Order P) (ms : List (Order P)) (p : P) (t : Matching P)
      → pos 0 ≤ℤ m.filled_quantity
      → (let t1 = trade f now uuid m p t in
          IsResting f s t1.book
          → size (side_levels s t1.book) < n
          → Swept s n t1 (market_sweep f now uuid ms p t1))
      → IsResting f s t.book
      → size (side_levels s (remove_order f m.order_id t.book).1) < n
      → Swept s n t (market_sweep f now uuid (m ∷ ms) p t)
  unfolding market_sweep
  sweep_first s n m ms p t h rest r less =
      let t1 = trade f now uuid m p t in
      elim (Bool-cases (leb_ℤ t1.remaining_qty (pos 0))) [
        | inl over ↦ rw over (trade_side m p t, inl (ground arith))
        | inr more ↦ elim (trade_takes m p t h) [
          | inl over ↦ ground arith
          | inr same ↦
              let (side, out) =
                rest (rw same (remove_order-IsResting f s m.order_id t.book r)) (rw same less) in
              rw more (side ∙ trade_side m p t, out)
        ]
      ]

  sweep_lem :
      (s : OrderSide) (n : ℕ) (ms : List (Order P)) (p : P) (t : Matching P)
      → All (λ m. pos 0 ≤ℤ m.filled_quantity) ms
      → IsResting f s t.book
      → size (side_levels s t.book) < n
      → Swept s n t (market_sweep f now uuid ms p t)
  unfolding market_sweep
  sweep_lem s n [] p t h r less = (refl, inr (r, less))
  sweep_lem s n (m ∷ ms) p t h r less =
      sweep_first s n m ms p t h.0 (sweep_lem s n ms p (trade f now uuid m p t) h.1) r
        (omega (arith, size-remove_order f s m.order_id t.book))

  pub against_at :
      (s : OrderSide) (p : P) (b : OrderBook P)
      → orders_against f now uuid s p b ≡ orders_at (f.to_key p) (side_levels (opposite s) b)
  unfolding get_sell_orders_at_price get_buy_orders_at_price
  against_at buy p b = refl
  against_at sell p b = refl

  market_over :
      (k : ℕ) (t : Matching P)
      → 0 < k
      → t.remaining_qty ≤ℤ pos 0
      → match_market f now uuid k t ≡ some t
  unfolding match_market
  market_over zero t k h = absurd (omega arith)
  market_over (suc k) t _ h = ground arith

  filled_of_rests :
      (d : List (String × Order P)) (s : OrderSide) (k : ℤ) (ms : List (Order P))
      → All (RestsAt f d s k) ms
      → All (λ m. pos 0 ≤ℤ m.filled_quantity) ms
  filled_of_rests d s k [] a = tt
  filled_of_rests d s k (m ∷ ms) a = (a.0.0, filled_of_rests d s k ms a.1)

  -- One round, in which there are orders at the best price.
  round :
      (s : OrderSide) (p : P) (m : Order P) (ms : List (Order P)) (t : Matching P)
      → t.order.side ≡ s
      → IsResting f (opposite s) t.book
      → orders_against f now uuid s p t.book ≡ m ∷ ms
      → Swept
          (opposite s)
          (size (side_levels (opposite s) t.book))
          t
          (market_sweep f now uuid (m ∷ ms) p t)
  round s p m ms t side r e =
      let at_key = sym (against_at s p t.book) ∙ e in
      let there : All (RestsAt f t.book.orders_by_id (opposite s) (f.to_key p)) (m ∷ ms) =
        rw at_key at (
          at-AllRest f t.book.orders_by_id (opposite s) (f.to_key p)
            (side_levels (opposite s) t.book) r.rests) in
      let filled = filled_of_rests t.book.orders_by_id (opposite s) (f.to_key p) (m ∷ ms) there in
      sweep_first (opposite s) _ m ms p t filled.0
        (sweep_lem (opposite s) _ ms p (trade f now uuid m p t) filled.1) r
        (first_taken f (opposite s) (f.to_key p) t.book r at_key)

  goes_on : Matching P → Bool
  goes_on t = ltb_ℤ (pos 0) t.remaining_qty && is_active t.order

  market_stops :
      (k : ℕ) (t : Matching P)
      → ((goes_on t ≡ false) ⊎ (best_against f now uuid t.order.side t.book ≡ none))
      → match_market f now uuid (suc k) t ≡ some t
  unfolding match_market goes_on
  market_stops k t h = ground arith

  market_without :
      (k : ℕ) (p : P) (t : Matching P)
      → best_against f now uuid t.order.side t.book ≡ some p
      → orders_against f now uuid t.order.side p t.book ≡ []
      → match_market f now uuid (suc k) t ≡ some t
  unfolding match_market
  market_without k p t best empty = ground arith

  market_round :
      (k : ℕ) (p : P) (m : Order P) (ms : List (Order P)) (t : Matching P)
      → goes_on t ≡ true
      → best_against f now uuid t.order.side t.book ≡ some p
      → orders_against f now uuid t.order.side p t.book ≡ m ∷ ms
      → match_market f now uuid (suc k) t
        ≡ match_market f now uuid k (market_sweep f now uuid (m ∷ ms) p t)
  unfolding match_market goes_on
  market_round k p m ms t more best first = rw (more, best, first) refl

  some_rest :
      (s : OrderSide) (p : P) (m : Order P) (ms : List (Order P)) (t : Matching P)
      → orders_against f now uuid s p t.book ≡ m ∷ ms
      → 0 < size (side_levels (opposite s) t.book)
  some_rest s p m ms t e = omega (
    arith,
    size-remove_first (f.to_key p) (side_levels (opposite s) t.book)
        (sym (against_at s p t.book) ∙ e),
  )

  Ends : ℕ → Matching P → Type 0
  Ends k t = (t' : Matching P) × (match_market f now uuid k t ≡ some t')

  Swept-Ends :
      (k : ℕ) (t t' : Matching P)
      → Swept (opposite t.order.side) (size (side_levels (opposite t.order.side) t.book)) t t'
      → size (side_levels (opposite t.order.side) t.book) ≤ k
      → 0 < k
      → (IsResting f (opposite t'.order.side) t'.book
          → size (side_levels (opposite t'.order.side) t'.book) < k
          → Ends k t')
      → Ends k t'
  unfolding Ends
  Swept-Ends k t t' (side, inl over) h room again = (t', market_over k t' room over)
  Swept-Ends k t t' (side, inr (r, less)) h room again = again (rw side r) (rw side (omega arith))

  -- A market order ends with a result when it is given more rounds than there are orders on the
  -- other side, if that side rests where the index has it.
  pub match_market_ends :
      (k : ℕ) (t : Matching P)
      → IsResting f (opposite t.order.side) t.book
      → size (side_levels (opposite t.order.side) t.book) < k
      → (t' : Matching P) × (match_market f now uuid k t ≡ some t')
  unfolding Ends
  match_market_ends zero t r h = absurd (omega arith)
  match_market_ends (suc k) t r h =
      let s = t.order.side in
      elim (Bool-cases (goes_on t)) [
        | inr over ↦ (t, market_stops k t (inl over))
        | inl more ↦ elim (Option-cases (best_against f now uuid s t.book)) [
          | inl e ↦ (t, market_stops k t (inr e))
          | inr (p, e) ↦ elim (List-cases (orders_against f now uuid s p t.book)) [
            | inl q ↦ (t, market_without k p t e q)
            | inr (m, ms, q) ↦
                let (t', ends) =
                  Swept-Ends k t _ (round s p m ms t refl r q) (omega arith)
                    (omega (arith, some_rest s p m ms t q)) (match_market_ends k _) in
                (t', market_round k p m ms t more e q ∙ ends)
          ]
        ]
      ]
