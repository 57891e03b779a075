-- ===== src/Trading/Book.antt =====
-- trading/src/execution/order_book.rs: the order book of one symbol.
use actix_pura.Prelude.{
  ℕ, String, Bool, true, false, Option, none, some, List, [], ◌∷◌, if◌then◌else◌, String-discrete,
  ite, length, unwrap_or, filter, ◌&&◌,
}
use mathlib.Core.List.{reverse}
use mathlib.Core.Option
use actix_pura.Prelude.Dict.{lookup, insert, remove}
use actix_pura.Prelude.Int.{ℤ, pos, ◌+ℤ◌}
use actix_pura.Trading.Order.{
  Order, OrderSide, OrderStatus, PriceOps, is_active, update_status, update_filled_quantity,
}
use actix_pura.Trading.Levels.{
  Levels, push_at, orders_at, remove_at, first_key, last_key, orders_from, orders_upto,
  total_remaining,
}

pub record OrderBook (P : Type 0) : Type 0 where
  pub symbol : String
  pub buy_orders : Levels P
  pub sell_orders : Levels P
  pub orders_by_id : List (String × Order P)

pub record OrderBookSummary (P : Type 0) : Type 0 where
  pub symbol : String
  pub buy_orders_count : ℕ
  pub sell_orders_count : ℕ
  pub best_buy_price : Option P
  pub best_sell_price : Option P
  pub buy_volume : ℤ
  pub sell_volume : ℤ

abbrev pub is_buy : OrderSide → Bool
is_buy OrderSide.buy = true
is_buy OrderSide.sell = false

abbrev pub is_sell : OrderSide → Bool
is_sell OrderSide.buy = false
is_sell OrderSide.sell = true

module _ {P : Type 0} where
  unfoldable pub empty_book : String → OrderBook P
  empty_book s = record { symbol = s; buy_orders = []; sell_orders = []; orders_by_id = [] }

  -- One side of the book, read and replaced.
  abbrev pub side_levels : OrderSide → OrderBook P → Levels P
  side_levels OrderSide.buy b = b.buy_orders
  side_levels OrderSide.sell b = b.sell_orders

  abbrev pub set_side : OrderSide → Levels P → OrderBook P → OrderBook P
  set_side OrderSide.buy l b = record b { buy_orders = l }
  set_side OrderSide.sell l b = record b { sell_orders = l }

  unfoldable pub values : List (String × Order P) → List (Order P)
  values [] = []
  values ((_, o) ∷ d) = o ∷ values d

  -- `get_all_active_orders`, `get_active_buy_orders` and `get_active_sell_orders`
  unfoldable pub get_all_active_orders : OrderBook P → List (Order P)
  get_all_active_orders b = filter is_active (values b.orders_by_id)

  unfoldable pub get_active_buy_orders : OrderBook P → List (Order P)
  get_active_buy_orders b = filter (λ o. is_active o && is_buy o.side) (values b.orders_by_id)

  unfoldable pub get_active_sell_orders : OrderBook P → List (Order P)
  get_active_sell_orders b = filter (λ o. is_active o && is_sell o.side) (values b.orders_by_id)

  unfoldable pub buy_volume : OrderBook P → ℤ
  buy_volume b = total_remaining (get_active_buy_orders b)

  unfoldable pub sell_volume : OrderBook P → ℤ
  sell_volume b = total_remaining (get_active_sell_orders b)

  unfoldable pub clear : OrderBook P → OrderBook P
  clear b = record b { buy_orders = []; sell_orders = []; orders_by_id = [] }

module _ {P : Type 0} (f : PriceOps P) where
  -- `matches!(order.price, Some(price) if price > 0.0)`, with the price.
  abbrev pub good_price : Option P → Option P
  good_price none = none
  good_price (some p) = if f.is_positive p then some p else none

  -- The order under its price, if it has one.
  abbrev pub place : Option P → Order P → OrderBook P → OrderBook P
  place none o b = b
  place (some p) o b = set_side o.side (push_at (f.to_key p) o (side_levels o.side b)) b

  -- `add_order`
  unfoldable pub add_order : Order P → OrderBook P → Bool × OrderBook P
  add_order o b =
      let b' = place (good_price o.price) o b in
      ite (String-discrete o.symbol b.symbol)
        (if is_active o
          then (true, record b' { orders_by_id = insert o.order_id o b'.orders_by_id })
          else (false, b))
        (false, b)

  -- `remove_order`
  unfoldable pub remove_order : String → OrderBook P → Option (Order P) × OrderBook P
  remove_order i b = elim (lookup i b.orders_by_id) [
    | none ↦ (none, b)
    | some o ↦ (
      some o,
      let k = f.to_key (unwrap_or f.zero_price o.price) in
          let b' = record b { orders_by_id = remove i b.orders_by_id } in
          set_side o.side (remove_at k i (side_levels o.side b')) b',
    )
  ]

  -- The order with a new status and, if given, more of it filled.
  abbrev pub updated : OrderStatus → Option ℤ → ℕ → Order P → Order P
  updated s none now o = update_status s now o
  updated s (some q) now o = update_filled_quantity q now (update_status s now o)

  -- `update_order`
  unfoldable pub update_order :
      String → OrderStatus → Option ℤ → ℕ → OrderBook P → Option (Order P) × OrderBook P
  update_order i s q now b = elim (lookup i b.orders_by_id) [
    | none ↦ (none, b)
    | some o ↦
        (let o' = updated s q now o in
          let b' = record b { orders_by_id = insert i o' b.orders_by_id } in
          (some o', if is_active o' then b' else (remove_order i b').1))
  ]

  unfoldable pub best_buy_price : OrderBook P → Option P
  best_buy_price b = Option.map f.of_key (last_key b.buy_orders)

  unfoldable pub best_sell_price : OrderBook P → Option P
  best_sell_price b = Option.map f.of_key (first_key b.sell_orders)

  -- The loops of `buy_depth` and `sell_depth`, with the total so far.
  unfoldable pub depth_from : ℤ → Levels P → List (P × ℤ)
  depth_from total [] = []
  depth_from total ((k, os) ∷ l) =
      let t = total +ℤ total_remaining os in (f.of_key k, t) ∷ depth_from t l

  unfoldable pub buy_depth : OrderBook P → List (P × ℤ)
  buy_depth b = depth_from (pos 0) (reverse b.buy_orders)

  unfoldable pub sell_depth : OrderBook P → List (P × ℤ)
  sell_depth b = depth_from (pos 0) b.sell_orders

  unfoldable pub get_buy_orders_at_price : P → OrderBook P → List (Order P)
  get_buy_orders_at_price p b = orders_at (f.to_key p) b.buy_orders

  unfoldable pub get_sell_orders_at_price : P → OrderBook P → List (Order P)
  get_sell_orders_at_price p b = orders_at (f.to_key p) b.sell_orders

  unfoldable pub get_matching_buy_orders : P → OrderBook P → List (Order P)
  get_matching_buy_orders p b = orders_from (f.to_key p) b.buy_orders

  unfoldable pub get_matching_sell_orders : P → OrderBook P → List (Order P)
  get_matching_sell_orders p b = orders_upto (f.to_key p) b.sell_orders

  unfoldable pub get_summary : OrderBook P → OrderBookSummary P
  get_summary b = record {
    symbol = b.symbol;
    buy_orders_count = length (get_active_buy_orders b);
    sell_orders_count = length (get_active_sell_orders b);
    best_buy_price = best_buy_price b;
    best_sell_price = best_sell_price b;
    buy_volume = buy_volume b;
    sell_volume = sell_volume b;
  }
