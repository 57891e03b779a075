-- ===== src/Trading/Examples.antt =====
-- trading/src/execution: the theorems at a concrete book, and runs of the operations. A price is a
-- number of tenths of a cent here, so that `to_key` drops a digit as the source's cast does.
use actix_pura.Prelude.{
  ℕ, ◌*◌, ◌/◌, ◌≡◌, refl, String, some, none, [], ◌∷◌, arith, ltb, leb, String-discrete,
}
use actix_pura.Prelude.Dict.{lookup}
use actix_pura.Prelude.Int.{pos, pos_part, int_laws, ◌≤ℤ◌}
use actix_pura.Trading.Order.{
  Order, OrderSide, OrderType, OrderStatus, PriceOps, buy, sell, is_active, remaining_quantity,
}
use actix_pura.Trading.Levels.{Levels, orders_at}
use actix_pura.Trading.Book.{OrderBook, add_order, remove_order}
use actix_pura.Trading.Matcher.{MatchResult, Matching, match_order, match_limit}
use actix_pura.Trading.Ascending.{IsValid}
use actix_pura.Trading.Upkeep.{add_order-IsValid, remove_order-add_order}
use actix_pura.Trading.Executing.{total_executed, matching_start}
use actix_pura.Trading.Taking.{IsResting, size}
use actix_pura.Trading.Placing.{add_order-IsResting}
use actix_pura.Trading.Continuous.{continuous_match}
use actix_pura.Trading.Exchanging.{IsOpen}
use actix_pura.Trading.Settling.{IsSettled, continuous_match_ends}
use actix_pura.Trading.Filling.{match_order_ends}
use actix_pura.Trading.Pricing.{AllWithin, match_limit_within}

abbrev pub tenths : PriceOps ℕ
tenths = record {
  is_positive = ltb 0;
  zero_price = 0;
  to_key = λ p. pos (p / 10);
  of_key = λ k. pos_part k * 10;
  at_least = λ p q. leb q p;
}

abbrev uuid : ℕ → String
uuid n = "uuid"

abbrev pub order : String → OrderSide → OrderType → ℕ → ℕ → Order ℕ
order i s t p q = record {
  order_id = i;
  account_id = "client";
  symbol = "AAPL";
  side = s;
  order_type = t;
  quantity = pos q;
  price = some p;
  stop_price = none;
  status = OrderStatus.new;
  filled_quantity = pos 0;
  created_at = 0;
  updated_at = 0;
}

abbrev ask : Order ℕ
ask = order "sell1" sell OrderType.limit 1580 8

abbrev ask_level : Levels ℕ
ask_level = (pos 158, ask ∷ []) ∷ []

abbrev book : OrderBook ℕ
book = record {
  symbol = "AAPL";
  buy_orders = [];
  sell_orders = ask_level;
  orders_by_id = ("sell1", ask) ∷ [];
}

abbrev bid : Order ℕ
bid = order "buy1" buy OrderType.limit 1600 5

book-IsValid : IsValid tenths book
book-IsValid = record { buys = tt; sells = ((λ e. cc), ((1580, refl, refl), tt), tt) }

add_order-IsValid_example : IsValid tenths (add_order tenths bid book).1
add_order-IsValid_example = add_order-IsValid tenths bid book book-IsValid

remove_order-add_order_example :
    remove_order tenths "buy1" (add_order tenths bid book).1 ≡ (some bid, book)
unfolding is_active lookup String-discrete orders_at
remove_order-add_order_example =
    remove_order-add_order tenths bid book book-IsValid refl refl refl refl tt

match_limit_within_example :
    (t : Matching ℕ) × (match_limit tenths 1 uuid 1600 (matching_start tenths 1 uuid book bid)
      ≡ some t)
    × AllWithin tenths 1 uuid buy (pos 160) t
match_limit_within_example =
    match_limit_within tenths 1 uuid 1600 book (matching_start tenths 1 uuid book bid) book-IsValid
      refl refl

-- Three were filled before; now five more are.
abbrev filled_bid : Order ℕ
filled_bid = record (order "buy1" buy OrderType.limit 1600 8) {
  filled_quantity = pos 3;
  status = OrderStatus.partially_filled;
}

book-IsResting : IsResting tenths sell book
unfolding lookup String-discrete
book-IsResting = record {
  valid = book-IsValid;
  rests = (((omega arith, (ask, refl, refl, refl)), tt), tt);
}

abbrev market_bid : Order ℕ
market_bid = order "buy2" buy OrderType.market 1600 5

match_order_ends_example :
    (r : MatchResult ℕ) × (b : OrderBook ℕ) × (o : Order ℕ) × (match_order tenths 1 uuid 2 book
        market_bid
      ≡ some (r, b, o))
    × (total_executed r.executions ≤ℤ remaining_quantity market_bid)
unfolding size remaining_quantity
match_order_ends_example =
    match_order_ends tenths 1 uuid 2 book market_bid book-IsResting (omega int_laws) (omega arith)

add_order-IsResting_example : IsResting tenths sell (add_order tenths bid book).1
unfolding lookup String-discrete
add_order-IsResting_example =
    add_order-IsResting tenths sell bid book refl (omega arith) book-IsResting

-- Both orders stand in the book, and their prices cross.
abbrev pub crossed : OrderBook ℕ
crossed = record {
  symbol = "AAPL";
  buy_orders = (pos 160, bid ∷ []) ∷ [];
  sell_orders = ask_level;
  orders_by_id = ("sell1", ask) ∷ ("buy1", bid) ∷ [];
}

crossed-IsValid : IsValid tenths crossed
crossed-IsValid = record {
  buys = ((λ e. cc), ((1600, refl, refl), tt), tt);
  sells = ((λ e. cc), ((1580, refl, refl), tt), tt);
}

crossed-IsResting_buy : IsResting tenths buy crossed
unfolding lookup String-discrete
crossed-IsResting_buy = record {
  valid = crossed-IsValid;
  rests = ((((omega arith), (bid, refl, refl, refl)), tt), tt);
}

crossed-IsResting_sell : IsResting tenths sell crossed
unfolding lookup String-discrete
crossed-IsResting_sell = record {
  valid = crossed-IsValid;
  rests = ((((omega arith), (ask, refl, refl, refl)), tt), tt);
}

pub crossed-IsOpen : IsOpen tenths crossed
unfolding remaining_quantity
crossed-IsOpen = record {
  buys = crossed-IsResting_buy;
  sells = crossed-IsResting_sell;
  remains = (((omega int_laws, tt), tt), ((omega int_laws, tt), tt));
}

continuous_match_ends_example :
    (b : OrderBook ℕ) × (r : MatchResult ℕ) × (continuous_match tenths 1 uuid 3 crossed
      ≡ some (b, r))
    × IsOpen tenths b
    × IsSettled tenths b
unfolding size
continuous_match_ends_example =
    continuous_match_ends tenths 1 uuid 3 crossed crossed-IsOpen (omega arith)
