-- ===== src/Trading/Filling.antt =====
-- trading/src/execution/matcher.rs: every order gets a result, and no more than it asks for.
use actix_pura.Prelude.{ℕ, ◌<◌, ◌≡◌, refl, String, Option, some, inl, inr, Bool-cases}
use actix_pura.Prelude.Int.{pos, ◌≤ℤ◌}
use actix_pura.Trading.Order.{Order, OrderType, PriceOps, is_active, remaining_quantity}
use actix_pura.Trading.Book.{OrderBook, side_levels}
use actix_pura.Trading.Matcher.{
  MatchResult, Matching, match_by_type, match_order, no_matches, settle,
}
use actix_pura.Trading.Executing.{total_executed, matching_start, match_order-executed}
use actix_pura.Trading.Pricing.{match_limit_within}
use actix_pura.Trading.Taking.{IsResting, size, opposite}
use actix_pura.Trading.Ending.{match_market_ends}

module _ {P : Type 0} (f : PriceOps P) (now : ℕ) (uuid : ℕ → String) where
  match_by_type_ends :
      (k : ℕ) (t : OrderType) (p : Option P) (b : OrderBook P) (o : Order P)
      → IsResting f (opposite o.side) b
      → size (side_levels (opposite o.side) b) < k
      → (s : Matching P) × (match_by_type f now uuid k t p (matching_start f now uuid b o) ≡ some s)
  unfolding match_by_type
  match_by_type_ends k OrderType.market p b o r h =
      match_market_ends f now uuid k (matching_start f now uuid b o) r h
  match_by_type_ends k OrderType.limit (some p) b o r h =
      let (s, e, _) =
        match_limit_within f now uuid p b (matching_start f now uuid b o) r.valid refl refl in
      (s, e)
  match_by_type_ends k _ _ b o r h = (matching_start f now uuid b o, refl)

  match_order_defined :
      (k : ℕ) (b : OrderBook P) (o : Order P) {s : Matching P}
      → match_by_type f now uuid k o.order_type o.price (matching_start f now uuid b o) ≡ some s
      → (x : MatchResult P × OrderBook P × Order P) × (match_order f now uuid k b o ≡ some x)
  unfolding match_order
  match_order_defined k b o {s} e = elim (Bool-cases (is_active o)) [
    | inl active ↦ (settle f now uuid s, rw (active, e) refl)
    | inr idle ↦ ((no_matches, b, o), rw idle refl)
  ]

  -- An order of any type that meets a side of the book which rests where the index has it gets a
  -- result, when a market order is given more rounds than there are orders on that side; and no
  -- more is executed for it than remained of it, which was not negative.
  pub match_order_ends :
      (k : ℕ) (b : OrderBook P) (o : Order P)
      → IsResting f (opposite o.side) b
      → pos 0 ≤ℤ remaining_quantity o
      → size (side_levels (opposite o.side) b) < k
      → (r : MatchResult P) × (b' : OrderBook P) × (o' : Order P) × (match_order f now uuid k b o
          ≡ some (r, b', o'))
        × (total_executed r.executions ≤ℤ remaining_quantity o)
  match_order_ends k b o r h room =
      let (s, e) = match_by_type_ends k o.order_type o.price b o r room in
      let ((x, b', o'), result) = match_order_defined k b o e in
      (x, b', o', result, match_order-executed f now uuid k b o h result)
