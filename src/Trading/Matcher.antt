-- ===== src/Trading/Matcher.antt =====
-- trading/src/execution/matcher.rs: the matching of an order with the book. A time is read where
-- the source reads the clock, and stands still within one call; `uuid n` is the identifier that is
-- drawn for the execution which finds `n` others in the result.
use actix_pura.Prelude.{
  ℕ, zero, suc, String, Bool, true, false, Option, none, some, List, [], ◌∷◌, ◌++◌, if◌then◌else◌,
  is_empty, not, ◌&&◌, ◌||◌, length,
}
use actix_pura.Prelude.Int.{ℤ, pos, ◌+ℤ◌, ◌-ℤ◌, ltb_ℤ, leb_ℤ, min_ℤ}
use actix_pura.Trading.Order.{
  Order, OrderSide, OrderStatus, OrderType, PriceOps, buy, is_active, update_status,
  update_filled_quantity, remaining_quantity,
}
use actix_pura.Trading.Book.{
  OrderBook, add_order, remove_order, best_buy_price, best_sell_price, get_buy_orders_at_price,
  get_sell_orders_at_price, get_matching_buy_orders, get_matching_sell_orders,
}

-- `Execution` of trading/src/models/execution.rs.
pub record Execution (P : Type 0) : Type 0 where
  pub execution_id : String
  pub order_id : String
  pub counter_order_id : Option String
  pub symbol : String
  pub price : P
  pub quantity : ℤ
  pub side : OrderSide
  pub buyer_account_id : Option String
  pub seller_account_id : Option String
  pub executed_at : ℕ

pub record MatchResult (P : Type 0) : Type 0 where
  pub executions : List (Execution P)
  pub updated_orders : List (Order P)

-- The variables of a matching loop.
pub record Matching (P : Type 0) : Type 0 where
  pub book : OrderBook P
  pub order : Order P
  pub remaining_qty : ℤ
  pub result : MatchResult P

abbrev pub is_limit : OrderType → Bool
is_limit OrderType.limit = true
is_limit _ = false

module _ {P : Type 0} where
  abbrev pub no_matches : MatchResult P
  no_matches = record { executions = []; updated_orders = [] }

  unfoldable pub add_updated_order : Order P → MatchResult P → MatchResult P
  add_updated_order o r = record r { updated_orders = r.updated_orders ++ o ∷ [] }

  unfoldable pub add_execution : Execution P → MatchResult P → MatchResult P
  add_execution e r = record r { executions = r.executions ++ e ∷ [] }

  unfoldable pub has_matches : MatchResult P → Bool
  has_matches r = not (is_empty r.executions)

  unfoldable pub merge : MatchResult P → MatchResult P → MatchResult P
  merge r s = record {
    executions = r.executions ++ s.executions;
    updated_orders = r.updated_orders ++ s.updated_orders;
  }

module _ {P : Type 0} (f : PriceOps P) (now : ℕ) (uuid : ℕ → String) where
  -- `create_execution_record`, of the buyer's order and the seller's.
  unfoldable pub create_execution_record : ℕ → Order P → Order P → P → ℤ → Execution P
  create_execution_record n b s p q = record {
    execution_id = uuid n;
    order_id = b.order_id;
    counter_order_id = some s.order_id;
    symbol = b.symbol;
    price = p;
    quantity = q;
    side = buy;
    buyer_account_id = some b.account_id;
    seller_account_id = some s.account_id;
    executed_at = now;
  }

  -- The record of a trade between the order that comes in and one of the book.
  abbrev pub record_of : OrderSide → ℕ → Order P → Order P → P → ℤ → Execution P
  record_of OrderSide.buy n o m p q = create_execution_record n o m p q
  record_of OrderSide.sell n o m p q = create_execution_record n m o p q

  -- `if remaining <= 0.0 { Filled } else { PartiallyFilled }`
  abbrev pub after_trade : ℤ → OrderStatus
  after_trade r = if leb_ℤ r (pos 0) then OrderStatus.filled else OrderStatus.partially_filled

  -- An order of the book after it has traded `q`. The matcher hands `filled_quantity + q` to
  -- `update_filled_quantity`, which adds it.
  unfoldable pub traded : ℤ → Order P → Order P
  traded q m =
      let m' = update_filled_quantity (m.filled_quantity +ℤ q) now m in
      update_status (after_trade (remaining_quantity m')) now m'

  -- What is left of it goes back into the book.
  unfoldable pub put_back : Order P → OrderBook P → OrderBook P
  put_back m b = if leb_ℤ (remaining_quantity m) (pos 0) then b else (add_order f m b).1

  -- The body of the four loops, for one order `m` of the book and the price `p`.
  unfoldable pub trade : Order P → P → Matching P → Matching P
  trade m p s =
      let q = min_ℤ s.remaining_qty (remaining_quantity m) in
      let e = record_of s.order.side (length s.result.executions) s.order m p q in
      let o = update_filled_quantity (s.order.filled_quantity +ℤ q) now s.order in
      let left = s.remaining_qty -ℤ q in
      let m' = traded q m in
      record {
        book = put_back m' (remove_order f m.order_id s.book).1;
        order = update_status (after_trade left) now o;
        remaining_qty = left;
        result = add_updated_order m' (add_execution e s.result);
      }

  -- The `for` loop of a market order: it ends when nothing remains.
  unfoldable pub market_sweep : List (Order P) → P → Matching P → Matching P
  market_sweep [] p s = s
  market_sweep (m ∷ ms) p s =
      let s' = trade m p s in
      let rest = market_sweep ms p s' in if leb_ℤ s'.remaining_qty (pos 0) then s' else rest

  -- The best price on the other side, and the orders that the source looks up at it.
  abbrev pub best_against : OrderSide → OrderBook P → Option P
  best_against OrderSide.buy b = best_sell_price f b
  best_against OrderSide.sell b = best_buy_price f b

  abbrev pub orders_against : OrderSide → P → OrderBook P → List (Order P)
  orders_against OrderSide.buy p b = get_sell_orders_at_price f p b
  orders_against OrderSide.sell p b = get_buy_orders_at_price f p b

  -- `match_market_buy_order` and `match_market_sell_order`; `none` when the fuel runs out.
  unfoldable pub match_market : ℕ → Matching P → Option (Matching P)
  match_market zero s = none
  match_market (suc k) s =
      let again = λ (ms : List (Order P)) (p : P). match_market k (market_sweep ms p s) in
      if ltb_ℤ (pos 0) s.remaining_qty && is_active s.order
      then elim (best_against s.order.side s.book) [
        | none ↦ some s
        | some p ↦ elim (orders_against s.order.side p s.book) [
          | [] ↦ some s
          | m ∷ ms ↦ again (m ∷ ms) p
        ]
      ]
      else some s

  -- The `for` loop of a limit order, at the price of each order of the book; `none` is the panic
  -- of `unwrap` at an order without a price.
  unfoldable pub limit_sweep : List (Order P) → Matching P → Option (Matching P)
  limit_sweep [] s = some s
  limit_sweep (m ∷ ms) s =
      let rest = λ (p : P). limit_sweep ms (trade m p s) in
      if leb_ℤ s.remaining_qty (pos 0) || not (is_active s.order)
      then some s
      else elim m.price [ none ↦ none | some p ↦ rest p ]

  abbrev pub matching_against : OrderSide → P → OrderBook P → List (Order P)
  matching_against OrderSide.buy p b = get_matching_sell_orders f p b
  matching_against OrderSide.sell p b = get_matching_buy_orders f p b

  -- `match_limit_buy_order` and `match_limit_sell_order`
  unfoldable pub match_limit : P → Matching P → Option (Matching P)
  match_limit p s = limit_sweep (matching_against s.order.side p s.book) s

  -- The `match` on the type of the order.
  unfoldable pub match_by_type : ℕ → OrderType → Option P → Matching P → Option (Matching P)
  match_by_type k OrderType.market p s = match_market k s
  match_by_type k OrderType.limit (some p) s = match_limit p s
  match_by_type k _ _ s = some s

  -- What is left of the order: into the book, or cancelled.
  unfoldable pub settle : Matching P → MatchResult P × OrderBook P × Order P
  settle s =
      let o = update_status OrderStatus.cancelled now s.order in
      if is_active s.order && ltb_ℤ (pos 0) (remaining_quantity s.order)
      then (if is_limit s.order.order_type
          then (s.result, (add_order f s.order s.book).1, s.order)
          else (add_updated_order o s.result, s.book, o))
      else (s.result, s.book, s.order)

  -- `match_order`: the result, the book and the order.
  unfoldable pub match_order :
      ℕ → OrderBook P → Order P → Option (MatchResult P × OrderBook P × Order P)
  match_order k b o =
      let s : Matching P = record {
        book = b;
        order = o;
        remaining_qty = remaining_quantity o;
        result = no_matches;
      } in
      if is_active o
      then elim (match_by_type k o.order_type o.price s) [
        | none ↦ none
        | some s' ↦ some (settle s')
      ]
      else some (no_matches, b, o)
