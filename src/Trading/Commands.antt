-- ===== src/Trading/Commands.antt =====
-- trading/src/consensus and trading/src/risk: the theorems at concrete commands and orders.
use actix_pura.Prelude.{
  ℕ, ◌≡◌, refl, String, none, some, List, [], ◌∷◌, arith, false, String-discrete,
}
use actix_pura.Prelude.Dict.{lookup, insert}
use actix_pura.Prelude.Numeral.{numeral}
use actix_pura.Prelude.Int.{ℤ, pos}
use actix_pura.Raft.Types.{RaftNode, RaftNodeState, LogEntry, default_config}
use actix_pura.Raft.Leader.{apply_committed_entries}
use actix_pura.Trading.Order.{Order, OrderRequest, OrderType, OrderStatus, sell}
use actix_pura.Trading.Account.{Account, new_account}
use actix_pura.Trading.Machine.{
  Command, create_order, update_order_status, TradingStateMachine, new_machine, machine, apply,
}
use actix_pura.Trading.Replicas.{Agree, replicas-Agree}
use actix_pura.Trading.Numbering.{runs, Stays, IsNumbered, apply-IsNumbered, runs_keep_orders}
use actix_pura.Trading.Risk.{RiskCheckRequest, RiskManager, new_manager}

abbrev request : OrderRequest ℤ
request = record {
  order_id = none;
  symbol = "AAPL";
  side = sell;
  price = some (pos 150);
  quantity = 10;
  client_id = "client";
  order_type = OrderType.limit;
}

abbrev commands : List (LogEntry (Command ℤ))
commands =
    record { term = 1; index = 1; command = create_order request }
    ∷ record { term = 1; index = 2; command = update_order_status "order-1" OrderStatus.accepted }
    ∷ []

abbrev replica : String → RaftNode (Command ℤ) (TradingStateMachine ℤ)
replica id = record {
  node_id = id;
  current_term = 1;
  voted_for = none;
  log = commands;
  commit_index = 2;
  last_applied = 0;
  next_index = [];
  match_index = [];
  state = RaftNodeState.follower;
  current_leader_id = none;
  last_heartbeat = 0;
  election_timeout = 200;
  config = default_config;
  cluster_nodes = [];
  state_machine = new_machine;
  cluster_manager = false;
  heartbeat_timer = none;
  election_timer = none;
}

replicas-Agree_example :
    Agree
      (apply_committed_entries (machine 5) (replica "a")).state_machine
      (apply_committed_entries (machine 8) (replica "b")).state_machine
replicas-Agree_example =
    replicas-Agree 5 8 (replica "a") (replica "b") refl refl refl (omega arith) (omega arith) refl

-- The first order is there, and the next number is 2.
abbrev sold : Order ℤ
sold = record {
  order_id = "order-1";
  account_id = "client";
  symbol = "AAPL";
  side = sell;
  order_type = OrderType.limit;
  quantity = pos 10;
  price = some (pos 150);
  stop_price = none;
  status = OrderStatus.new;
  filled_quantity = pos 0;
  created_at = 5;
  updated_at = 5;
}

abbrev after_one : TradingStateMachine ℤ
after_one = (apply 5 (create_order request) new_machine).1

first_order : lookup "order-1" after_one.orders ≡ some sold
unfolding apply lookup insert numeral String-discrete
first_order = refl

new-IsNumbered : IsNumbered (new_machine {P = ℤ})
unfolding lookup
new-IsNumbered n le lt = refl

abbrev later : List (ℕ × Command ℤ)
later = (6, create_order request) ∷ (7, update_order_status "order-1" OrderStatus.filled) ∷ []

after_one-IsNumbered : IsNumbered after_one
after_one-IsNumbered =
    (apply-IsNumbered 5 (create_order request) new_machine (omega arith) new-IsNumbered).0

runs_keep_orders_example : Stays "order-1" sold (runs later after_one)
unfolding apply
runs_keep_orders_example =
    runs_keep_orders later after_one "order-1" sold (omega arith) after_one-IsNumbered first_order

-- Ten pieces at 150 that the client holds.
abbrev manager : RiskManager
manager = new_manager 1 0 "risk"

abbrev check : RiskCheckRequest
check = record { order = request; account_id = "client" }

abbrev client : Account
client = new_account "client" "Client" (pos 2000) 0
