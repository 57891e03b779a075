-- ===== src/Trading/Pricing.antt =====
-- trading/src/execution/matcher.rs and order_book.rs: at what prices an order trades.
use actix_pura.Prelude.{
  ℕ, ◌≡◌, refl, ◌∙◌, String, false, some, List, [], ◌∷◌, arith, All, All-append, inl, inr,
  Bool-cases, ◌||◌, not,
}
use actix_pura.Prelude.Int.{ℤ, pos, ◌+ℤ◌, ◌≤ℤ◌, ◌<ℤ◌, leb_ℤ, min_ℤ, int_laws}
use actix_pura.Trading.Order.{
  Order, OrderSide, buy, sell, PriceOps, is_active, update_filled_quantity, update_status,
  remaining_quantity,
}
use actix_pura.Trading.Levels.{Levels, orders_from, orders_upto}
use actix_pura.Trading.Book.{OrderBook, get_matching_sell_orders, get_matching_buy_orders}
use actix_pura.Trading.Ascending.{StandsAt, IsBook, IsValid, Above-IsBook}
use actix_pura.Trading.Matcher.{
  Matching, add_execution, add_updated_order, create_execution_record, record_of, trade,
  limit_sweep, matching_against, match_limit,
}

module _ {P : Type 0} (f : PriceOps P) where
  -- A price that an order of the side `s` with the limit `k` may trade at.
  abbrev pub Within : OrderSide → ℤ → ℤ → Type 0
  Within OrderSide.buy k j = j ≤ℤ k
  Within OrderSide.sell k j = k ≤ℤ j

  -- An order with a price that is within the limit.
  abbrev pub Offers : OrderSide → ℤ → Order P → Type 0
  Offers s k m = (q : P) × (m.price ≡ some q) × Within s k (f.to_key q)

  stands-Offers :
      (s : OrderSide) (k j : ℤ) (os : List (Order P))
      → Within s k j
      → All (StandsAt f j) os
      → All (Offers s k) os
  stands-Offers s k j [] w a = tt
  stands-Offers s k j (m ∷ os) w ((q, e, at_key), a) =
      ((q, e, rw at_key w), stands-Offers s k j os w a)

  upto-Offers : (k : ℤ) (l : Levels P) → IsBook f l → All (Offers buy k) (orders_upto k l)
  unfolding orders_upto
  upto-Offers k [] v = tt
  upto-Offers k ((j, os) ∷ l) v = elim (Bool-cases (leb_ℤ j k)) [
    | inl cheap ↦ rw cheap (
        All-append (Offers buy k) os _ (stands-Offers buy k j os (ground arith) v.1)
          (upto-Offers k l (Above-IsBook f j l v.2)))
    | inr dear ↦ rw dear (upto-Offers k l (Above-IsBook f j l v.2))
  ]

  from-Offers : (k : ℤ) (l : Levels P) → IsBook f l → All (Offers sell k) (orders_from k l)
  unfolding orders_from
  from-Offers k [] v = tt
  from-Offers k ((j, os) ∷ l) v = elim (Bool-cases (leb_ℤ k j)) [
    | inl high ↦ rw high (
        All-append (Offers sell k) os _ (stands-Offers sell k j os (ground arith) v.1)
          (from-Offers k l (Above-IsBook f j l v.2)))
    | inr low ↦ rw low (from-Offers k l (Above-IsBook f j l v.2))
  ]

module _ {P : Type 0} (f : PriceOps P) (now : ℕ) (uuid : ℕ → String) where
  abbrev pub AllWithin : OrderSide → ℤ → Matching P → Type 0
  AllWithin s k t = All (λ e. Within f s k (f.to_key e.price)) t.result.executions

  against-Offers :
      (s : OrderSide) (p : P) (b : OrderBook P)
      → IsValid f b
      → All (Offers f s (f.to_key p)) (matching_against f now uuid s p b)
  unfolding get_matching_sell_orders get_matching_buy_orders
  against-Offers buy p b v = upto-Offers f (f.to_key p) b.sell_orders v.sells
  against-Offers sell p b v = from-Offers f (f.to_key p) b.buy_orders v.buys

  record_price :
      (s : OrderSide) (n : ℕ) (o m : Order P) (p : P) (q : ℤ)
      → (record_of f now uuid s n o m p q).price ≡ p
  unfolding create_execution_record
  record_price buy n o m p q = refl
  record_price sell n o m p q = refl

  trade-AllWithin :
      (s : OrderSide) (k : ℤ) (m : Order P) (p : P) (t : Matching P)
      → Within f s k (f.to_key p)
      → AllWithin s k t
      → AllWithin s k (trade f now uuid m p t)
  unfolding trade add_execution add_updated_order
  trade-AllWithin s k m p t w a =
      All-append (λ e. Within f s k (f.to_key e.price)) t.result.executions _ a
        (rw (record_price t.order.side _ t.order m p _) w, tt)

  limit_sweep_step :
      (m : Order P) (ms : List (Order P)) (t : Matching P) (q : P)
      → (leb_ℤ t.remaining_qty (pos 0) || not (is_active t.order)) ≡ false
      → m.price ≡ some q
      → limit_sweep f now uuid (m ∷ ms) t ≡ limit_sweep f now uuid ms (trade f now uuid m q t)
  unfolding limit_sweep
  limit_sweep_step m ms t q more e = ground arith

  limit_sweep_lem :
      (s : OrderSide) (k : ℤ) (ms : List (Order P)) (t : Matching P)
      → All (Offers f s k) ms
      → AllWithin s k t
      → (t' : Matching P) × (limit_sweep f now uuid ms t ≡ some t') × AllWithin s k t'
  unfolding limit_sweep
  limit_sweep_lem s k [] t o a = (t, refl, a)
  limit_sweep_lem s k (m ∷ ms) t ((q, e, w), o) a =
      elim (Bool-cases (leb_ℤ t.remaining_qty (pos 0) || not (is_active t.order))) [
        | inl over ↦ (t, rw over, a)
        | inr more ↦
            let (t', ends, within) =
              limit_sweep_lem s k ms (trade f now uuid m q t) o (trade-AllWithin s k m q t w a) in
            (t', limit_sweep_step m ms t q more e ∙ ends, within)
      ]

  -- On a well-formed book the matching of a limit order, with no execution so far, never meets an
  -- order without a price, so it ends with a result, and each of its executions is at a price whose
  -- key, in cents cut off after the point, the key of the limit allows: not above it for a buy
  -- order, not below it for a sell order. The price itself may be worse than the limit by less than
  -- a cent.
  pub match_limit_within :
      (p : P) (b : OrderBook P) (t : Matching P)
      → IsValid f b
      → t.book ≡ b
      → t.result.executions ≡ []
      → (t' : Matching P) × (match_limit f now uuid p t ≡ some t')
        × AllWithin t.order.side (f.to_key p) t'
  unfolding match_limit
  match_limit_within p b t v same fresh =
      limit_sweep_lem t.order.side (f.to_key p) _ t
        (against-Offers t.order.side p t.book (rw same v)) (rw fresh tt)

  -- An order that was filled before has more filled after a trade than before it and the trade
  -- together.
  pub trade_overcounts :
      (m : Order P) (p : P) (t : Matching P)
      → pos 0 <ℤ t.order.filled_quantity
      → let q = min_ℤ t.remaining_qty (remaining_quantity m) in
        t.order.filled_quantity +ℤ q <ℤ (trade f now uuid m p t).order.filled_quantity
  unfolding trade update_filled_quantity update_status
  trade_overcounts m p t h = omega int_laws
