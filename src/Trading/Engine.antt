-- ===== src/Trading/Engine.antt =====
-- trading/src/execution/engine.rs: `ExecutionEngine`, which keeps a book for each symbol, matches
-- an order with its book, and records the executions and the trades that come of it. The messages
-- that it tells the account actor are values. `executions_uuid` and `trades_uuid` of a call give
-- the identifiers drawn for the trades; the loop over the groups takes them in the order of the list.
use actix_pura.Prelude.{
  ℕ, suc, String, Bool, true, false, Option, none, some, List, [], ◌∷◌, ◌++◌, map, if◌then◌else◌,
  ◌&&◌, unwrap_or, str_eq, not,
}
use actix_pura.Prelude.Dict.{lookup, insert}
use actix_pura.Prelude.Int.{ℤ, pos, ◌+ℤ◌, eq_ℤ}
use actix_pura.Trading.Order.{OrderSide, buy, sell}
use actix_pura.Trading.Book.{OrderBook, empty_book}
use actix_pura.Trading.Matcher.{Execution, MatchResult, has_matches}

-- `Trade` of trading/src/models/execution.rs.
pub record Trade (P : Type 0) : Type 0 where
  pub trade_id : String
  pub symbol : String
  pub price : P
  pub quantity : ℤ
  pub buy_order_id : String
  pub sell_order_id : String
  pub buyer_account_id : String
  pub seller_account_id : String
  pub buy_execution_id : String
  pub sell_execution_id : String
  pub traded_at : ℕ

-- `ExecutionNotificationMessage` and `TradeNotificationMessage`.
pub data Notice (P : Type 0) : Type 0 where
  execution_notice :
      (execution_id account_id order_id symbol : String) (price : P) (quantity : ℤ)
      (side : OrderSide) (timestamp : ℕ)
      → Notice P
  trade_notice : (trade_id symbol : String) (price : P) (quantity : ℤ) (timestamp : ℕ) → Notice P

-- The account actor is known by its name.
pub record ExecutionEngine (P : Type 0) : Type 0 where
  pub node_id : String
  pub order_books : List (String × OrderBook P)
  pub executions : List (String × Execution P)
  pub trades : List (String × Trade P)
  pub account_actor : Option String

-- The variables that the loop over a group sets.
pub record Parties : Type 0 where
  pub buy_order_id : String
  pub sell_order_id : String
  pub buyer_account_id : String
  pub seller_account_id : String
  pub buy_execution_id : String
  pub sell_execution_id : String

-- `trade_groups`: executions under a symbol and a price.
abbrev pub Groups : Type 0 → Type 0
Groups P = List ((String × ℤ) × List (Execution P))

abbrev pub no_parties : Parties
no_parties = record {
  buy_order_id = "";
  sell_order_id = "";
  buyer_account_id = "";
  seller_account_id = "";
  buy_execution_id = "";
  sell_execution_id = "";
}

module _ {P : Type 0} where
  -- `new`
  abbrev pub new_engine : String → ExecutionEngine P
  new_engine node_id = record {
    node_id = node_id;
    order_books = [];
    executions = [];
    trades = [];
    account_actor = none;
  }

  abbrev pub set_account_actor : String → ExecutionEngine P → ExecutionEngine P
  set_account_actor a g = record g { account_actor = some a }

  -- The book of a symbol, and the engine that has it.
  unfoldable pub get_or_create_order_book :
      String → ExecutionEngine P → OrderBook P × ExecutionEngine P
  get_or_create_order_book s g = elim (lookup s g.order_books) [
    | none ↦ (empty_book s, record g { order_books = insert s (empty_book s) g.order_books })
    | some b ↦ (b, g)
  ]

  -- What is written through the reference to a book.
  unfoldable pub put_order_book : String → OrderBook P → ExecutionEngine P → ExecutionEngine P
  put_order_book s b g = record g { order_books = insert s b g.order_books }

  -- `trade_groups.entry(key).or_insert_with(Vec::new).push(exec)`
  unfoldable pub push_group : String × ℤ → Execution P → Groups P → Groups P
  push_group k e [] = (k, e ∷ []) ∷ []
  push_group k e ((j, es) ∷ l) =
      if str_eq k.0 j.0 && eq_ℤ k.1 j.1 then (j, es ++ e ∷ []) ∷ l else (j, es) ∷ push_group k e l

  -- `iter().map(|e| e.quantity).sum()`
  unfoldable pub total_quantity : List (Execution P) → ℤ
  total_quantity [] = pos 0
  total_quantity (e ∷ es) = e.quantity +ℤ total_quantity es

  -- The body of the loop over a group.
  abbrev pub note_party : OrderSide → Execution P → Parties → Parties
  note_party buy e p = record p {
    buy_order_id = e.order_id;
    buy_execution_id = e.execution_id;
    buyer_account_id = unwrap_or p.buyer_account_id e.buyer_account_id;
  }
  note_party sell e p = record p {
    sell_order_id = e.order_id;
    sell_execution_id = e.execution_id;
    seller_account_id = unwrap_or p.seller_account_id e.seller_account_id;
  }

  unfoldable pub parties : List (Execution P) → Parties → Parties
  parties [] p = p
  parties (e ∷ es) p = parties es (note_party e.side e p)

  -- `self.executions.insert` and `self.trades.insert` for each record.
  unfoldable pub store_executions :
      List (Execution P) → List (String × Execution P) → List (String × Execution P)
  store_executions [] d = d
  store_executions (e ∷ es) d = store_executions es (insert e.execution_id e d)

  unfoldable pub store_trades : List (Trade P) → List (String × Trade P) → List (String × Trade P)
  store_trades [] d = d
  store_trades (t ∷ ts) d = store_trades ts (insert t.trade_id t d)

  -- The messages of one execution, to the buyer and to the seller.
  abbrev pub notice_to : OrderSide → Execution P → Option String → List (Notice P)
  notice_to s e none = []
  notice_to s e (some a) =
      execution_notice e.execution_id a e.order_id e.symbol e.price e.quantity s e.executed_at ∷ []

  unfoldable pub execution_notices : List (Execution P) → List (Notice P)
  execution_notices [] = []
  execution_notices (e ∷ es) =
      notice_to buy e e.buyer_account_id
      ++ notice_to sell e e.seller_account_id
      ++ execution_notices es

  abbrev pub notice_of_trade : Trade P → Notice P
  notice_of_trade t = trade_notice t.trade_id t.symbol t.price t.quantity t.traded_at

  -- `ctx.tell`, where there is an account actor.
  abbrev pub tell : Option String → List (Notice P) → List (String × Notice P)
  tell none ns = []
  tell (some a) ns = map (λ n. (a, n)) ns

-- `(price * 10000.0) as i64` and `key as f64 / 10000.0`, the clock, and the identifiers drawn.
module _ {P : Type 0} (price_key : P → ℤ) (actual_price : ℤ → P) (now : ℕ)
    (trade_uuid : ℕ → String) where
  -- The groups of `create_trade_from_executions`, and a trade for each.
  unfoldable pub group_executions : List (Execution P) → Groups P → Groups P
  group_executions [] l = l
  group_executions (e ∷ es) l = group_executions es (push_group (e.symbol, price_key e.price) e l)

  unfoldable pub trade_of_group : ℕ → String × ℤ → List (Execution P) → Trade P
  trade_of_group n k es =
      let p = parties es no_parties in
      record {
        trade_id = trade_uuid n;
        symbol = k.0;
        price = actual_price k.1;
        quantity = total_quantity es;
        buy_order_id = p.buy_order_id;
        sell_order_id = p.sell_order_id;
        buyer_account_id = p.buyer_account_id;
        seller_account_id = p.seller_account_id;
        buy_execution_id = p.buy_execution_id;
        sell_execution_id = p.sell_execution_id;
        traded_at = now;
      }

  unfoldable pub trades_of_groups : ℕ → Groups P → List (Trade P)
  trades_of_groups n [] = []
  trades_of_groups n ((k, es) ∷ l) = trade_of_group n k es ∷ trades_of_groups (suc n) l

  unfoldable pub create_trade_from_executions : List (Execution P) → List (Trade P)
  create_trade_from_executions es = trades_of_groups 0 (group_executions es [])

  -- `process_match_result`: the answer, the engine and the messages.
  unfoldable pub process_match_result :
      MatchResult P → ExecutionEngine P → Bool × ExecutionEngine P × List (String × Notice P)
  process_match_result r g =
      let ts = create_trade_from_executions r.executions in
      if not (has_matches r) then (false, g, []) else (
        true,
        record g {
          executions = store_executions r.executions g.executions;
          trades = store_trades ts g.trades;
        },
        tell g.account_actor (execution_notices r.executions ++ map notice_of_trade ts),
      )
