-- ===== src/Trading/Continuous.antt =====
-- trading/src/execution/matcher.rs: `continuous_match`, which lets the best orders of both sides
-- trade with each other while their prices cross.
use actix_pura.Prelude.{
  ℕ, zero, suc, ◌≡◌, String, Option, none, some, List, ◌∷◌, if◌then◌else◌, if_both, length, ap,
  Option-cases, inl, inr,
}
use actix_pura.Prelude.Int.{pos, leb_ℤ, min_ℤ}
use actix_pura.Trading.Order.{Order, PriceOps, remaining_quantity}
use actix_pura.Trading.Book.{
  OrderBook, remove_order, best_buy_price, best_sell_price, get_buy_orders_at_price,
  get_sell_orders_at_price,
}
use actix_pura.Trading.Matcher.{
  MatchResult, no_matches, add_execution, add_updated_order, create_execution_record, traded,
  put_back,
}
use actix_pura.Trading.Ascending.{IsValid}
use actix_pura.Trading.Upkeep.{add_order-IsValid, remove_order-IsValid}

module _ {P : Type 0} (f : PriceOps P) (now : ℕ) (uuid : ℕ → String) where
  -- The first orders of two levels, with the price of the sale.
  abbrev pub first_pair : P → List (Order P) → List (Order P) → Option (P × Order P × Order P)
  first_pair q (o ∷ _) (m ∷ _) = some (q, o, m)
  first_pair q _ _ = none

  -- The orders that a round lets trade, if the best prices cross.
  unfoldable pub crossing : OrderBook P → Option (P × Order P × Order P)
  crossing b = elim (best_buy_price f b) [
    | none ↦ none
    | some p ↦ elim (best_sell_price f b) [
      | none ↦ none
      | some q ↦
          if f.at_least p q
          then first_pair q (get_buy_orders_at_price f p b) (get_sell_orders_at_price f q b)
          else none
    ]
  ]

  -- The trade of the buy order `o` and the sell order `m` at the price `q`.
  unfoldable pub exchange :
      P → Order P → Order P → OrderBook P → MatchResult P → OrderBook P × MatchResult P
  exchange q o m b r =
      let b' = (remove_order f m.order_id (remove_order f o.order_id b).1).1 in
      let n = min_ℤ (remaining_quantity o) (remaining_quantity m) in
      let e = create_execution_record f now uuid (length r.executions) o m q n in
      let o' = traded f now uuid n o in
      let m' = traded f now uuid n m in
      (
        put_back f now uuid m' (put_back f now uuid o' b'),
        add_updated_order m' (add_updated_order o' (add_execution e r)),
      )

  -- One round of the loop, or `none` when it ends.
  unfoldable pub continuous_round :
      OrderBook P → MatchResult P → Option (OrderBook P × MatchResult P)
  continuous_round b r = elim (crossing b) [
    | none ↦ none
    | some (q, o, m) ↦ some (exchange q o m b r)
  ]

  -- `continuous_match`; `none` when the fuel runs out.
  unfoldable pub continuous_loop :
      ℕ → OrderBook P → MatchResult P → Option (OrderBook P × MatchResult P)
  continuous_loop zero b r = none
  continuous_loop (suc k) b r =
      let again = λ (b' : OrderBook P) (r' : MatchResult P). continuous_loop k b' r' in
      elim (continuous_round b r) [ none ↦ some (b, r) | some (b', r') ↦ again b' r' ]

  unfoldable pub continuous_match : ℕ → OrderBook P → Option (OrderBook P × MatchResult P)
  continuous_match k b = continuous_loop k b no_matches

  put_back-IsValid :
      (m : Order P) (b : OrderBook P) → IsValid f b → IsValid f (put_back f now uuid m b)
  unfolding put_back
  put_back-IsValid m b v =
      if_both (IsValid f) (leb_ℤ (remaining_quantity m) (pos 0)) v (add_order-IsValid f m b v)

  exchange-IsValid :
      (q : P) (o m : Order P) (b : OrderBook P) (r : MatchResult P)
      → IsValid f b
      → IsValid f (exchange q o m b r).0
  unfolding exchange
  exchange-IsValid q o m b r v = put_back-IsValid _ _ (
      put_back-IsValid _ _
        (remove_order-IsValid f m.order_id _ (remove_order-IsValid f o.order_id b v)))

  -- A state that some number of rounds reaches from a book.
  pub data Rounds (b : OrderBook P) (r : MatchResult P) : OrderBook P → MatchResult P → Type 0 where
    here : Rounds b r b r
    next :
        {b' b'' : OrderBook P} {r' r'' : MatchResult P}
        → Rounds b r b' r'
        → continuous_round b' r' ≡ some (b'', r'')
        → Rounds b r b'' r''

  round-IsValid :
      (b : OrderBook P) (r : MatchResult P) {b' : OrderBook P} {r' : MatchResult P}
      → continuous_round b r ≡ some (b', r')
      → IsValid f b
      → IsValid f b'
  unfolding continuous_round
  round-IsValid b r {b'} {r'} e v = elim (Option-cases (crossing b)) [
    | inl idle ↦ cc
    | inr ((q, o, m), found) ↦
        let done : exchange q o m b r ≡ (b', r') = cc in
        let same : (exchange q o m b r).0 ≡ b' = ap (λ x. x.0) done in
        rw (← same) (exchange-IsValid q o m b r v)
  ]

  -- However many rounds of continuous matching have run, both sides of a book that was well formed
  -- are still so.
  pub Rounds-IsValid :
      {b : OrderBook P} {r : MatchResult P} {b' : OrderBook P} {r' : MatchResult P}
      → IsValid f b
      → Rounds b r b' r'
      → IsValid f b'
  Rounds-IsValid v here = v
  Rounds-IsValid v (next {b' = k} {r' = q} s e) = round-IsValid k q e (Rounds-IsValid v s)
