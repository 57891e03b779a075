-- ===== src/Trading/Engines.antt =====
-- trading/src/execution/engine.rs: the theorems at a concrete engine. A price is a number of tenths
-- of a cent.
use actix_pura.Prelude.{
  ℕ, ◌≡◌, refl, String, Option, some, List, [], ◌∷◌, String-discrete, unwrap_or, str_eq, arith,
}
use actix_pura.Prelude.Dict.{lookup, insert, remove}
use actix_pura.Prelude.Int.{pos, pos_part, int_laws, ◌+ℤ◌, ◌-ℤ◌}
use actix_pura.Trading.Order.{
  Order, OrderType, buy, sell, is_active, remaining_quantity, update_filled_quantity, update_status,
}
use actix_pura.Trading.Book.{
  OrderBook, empty_book, get_matching_sell_orders, remove_order, best_buy_price, best_sell_price,
  get_buy_orders_at_price, get_sell_orders_at_price,
}
use actix_pura.Trading.Matcher.{
  Execution, match_order, match_by_type, match_limit, limit_sweep, trade, traded, put_back, settle,
  create_execution_record, add_execution, add_updated_order, has_matches, merge,
}
use actix_pura.Trading.Continuous.{crossing, continuous_match, continuous_loop, continuous_round}
use actix_pura.Trading.Engine.{
  ExecutionEngine, total_quantity, create_trade_from_executions, get_or_create_order_book,
  process_match_result, put_order_book, store_executions, store_trades, group_executions,
  push_group, parties, trade_of_group, trades_of_groups, execution_notices,
}
use actix_pura.Trading.Trades.{traded_quantity, traded_quantity-create_trade_from_executions}
use actix_pura.Trading.Dispatch.{
  Executed, Others, execute_order, execute_order_ends, continue_matching, settle_book,
}
use actix_pura.Trading.Levels.{orders_upto, remove_at, without_id, first_key, last_key, orders_at}
use actix_pura.Trading.Taking.{size}
use actix_pura.Trading.Exchanging.{IsOpen}
use actix_pura.Trading.Settling.{IsSettled}
use actix_pura.Trading.Examples.{crossed, crossed-IsOpen, tenths, order}

abbrev executed : String → String → ℕ → ℕ → Execution ℕ
executed i s p q = record {
  execution_id = i;
  order_id = "buy1";
  counter_order_id = some "sell1";
  symbol = s;
  price = p;
  quantity = pos q;
  side = buy;
  buyer_account_id = some "client";
  seller_account_id = some "other";
  executed_at = 0;
}

-- Two executions at one price and one of another symbol.
abbrev three : List (Execution ℕ)
three = executed "x" "AAPL" 1580 4 ∷ executed "y" "MSFT" 1580 5 ∷ executed "z" "AAPL" 1580 3 ∷ []

traded_quantity-create_trade_from_executions_example :
    traded_quantity (create_trade_from_executions (λ p. pos p) pos_part 7 (λ n. "trade") three)
    ≡ total_quantity three
traded_quantity-create_trade_from_executions_example =
    traded_quantity-create_trade_from_executions (λ p. pos p) pos_part 7 (λ n. "trade") three

abbrev bid : Order ℕ
bid = order "buy1" buy OrderType.limit 1600 10

abbrev ask : Order ℕ
ask = order "sell1" sell OrderType.limit 1580 10

-- An engine in which a sell order rests.
abbrev pub engine : ExecutionEngine ℕ
engine = record {
  node_id = "node";
  order_books =
      (
        "AAPL",
        record {
          symbol = "AAPL";
          buy_orders = [];
          sell_orders = (pos 158, ask ∷ []) ∷ [];
          orders_by_id = ("sell1", ask) ∷ [];
        },
      )
      ∷ ("MSFT", empty_book "MSFT")
      ∷ [];
  executions = [];
  trades = [];
  account_actor = some "accounts";
}

abbrev pub draws : ℕ → ℕ → String
draws i n = "drawn"

abbrev run : Option (Executed ℕ)
run = execute_order tenths (λ p. pos p) pos_part 1 draws draws 2 bid engine

abbrev untouched : Executed ℕ
untouched = record {
  result = record { executions = []; updated_orders = [] };
  order = bid;
  engine = engine;
  messages = [];
}

abbrev outcome : Executed ℕ
outcome = unwrap_or untouched run

-- The order trades in full.
run_ends : (run ≡ some outcome) × (total_quantity outcome.result.executions ≡ pos 10)
unfolding total_quantity get_or_create_order_book process_match_result put_order_book
    store_executions store_trades group_executions push_group parties trade_of_group
    trades_of_groups execution_notices create_trade_from_executions match_order match_by_type
    match_limit limit_sweep trade traded put_back settle create_execution_record add_execution
    add_updated_order has_matches merge is_active remaining_quantity update_filled_quantity
    update_status get_matching_sell_orders remove_order best_buy_price best_sell_price
    get_buy_orders_at_price get_sell_orders_at_price orders_upto remove_at without_id first_key
    last_key orders_at continuous_match continuous_loop continuous_round crossing continue_matching
    settle_book execute_order lookup insert remove ◌+ℤ◌ ◌-ℤ◌ String-discrete str_eq
run_ends = (refl, refl)

abbrev busy : ExecutionEngine ℕ
busy = record engine { order_books = ("AAPL", crossed) ∷ ("MSFT", empty_book "MSFT") ∷ [] }

-- An order comes to a book in which the best orders cross already.
abbrev coming : Order ℕ
coming = order "buy9" buy OrderType.limit 1600 10

execute_order_ends_example :
    (x : Executed ℕ) × (execute_order tenths (λ p. pos p) pos_part 1 draws draws 9 coming busy
      ≡ some x)
    × Others "AAPL" busy x.engine
    × ((b : OrderBook ℕ) × (lookup "AAPL" x.engine.order_books ≡ some b)
        × IsOpen tenths b
        × IsSettled tenths b)
unfolding get_or_create_order_book lookup String-discrete size remaining_quantity
execute_order_ends_example =
    execute_order_ends tenths (λ p. pos p) pos_part 1 draws draws 9 coming busy crossed-IsOpen refl
      (omega arith) (omega int_laws) (omega arith)
