-- ===== src/Trading/Machine.antt =====
-- trading/src/consensus/state_machine.rs: the state machine that the replicated log drives. The time
-- that an order gets is an argument; logging is left out.
use actix_pura.Prelude.{ℕ, String, Option, none, some, List, [], add64}
use actix_pura.Prelude.Dict.{lookup, insert}
use actix_pura.Prelude.Int.{pos}
use actix_pura.Prelude.Numeral.{numeral}
use Prim.Native.String.{◌++◌}
use actix_pura.Raft.Types.{StateMachine}
use actix_pura.Trading.Order.{Order, OrderRequest, OrderStatus}
use actix_pura.Trading.Account.{Account}
use actix_pura.Trading.Matcher.{Execution}

-- `AdminCommand`
pub data AdminCommand : Type 0 where
  -- node_id, address
  add_node : String → String → AdminCommand
  remove_node : String → AdminCommand
  -- key, value
  change_config : String → String → AdminCommand

-- `StateMachineCommand`
pub data Command (P : Type 0) : Type 0 where
  create_order : OrderRequest P → Command P
  update_order_status : String → OrderStatus → Command P
  add_execution : Execution P → Command P
  update_account : Account → Command P
  admin_command : AdminCommand → Command P

-- `TradingStateMachine`
pub record TradingStateMachine (P : Type 0) : Type 0 where
  pub orders : List (String × Order P)
  pub executions : List (String × Execution P)
  pub accounts : List (String × Account)
  pub last_applied_index : ℕ
  pub last_applied_term : ℕ
  pub next_order_id : ℕ
  pub next_execution_id : ℕ

-- The result of `apply`: a missing order is an error.
pub data Applied : Type 0 where
  applied : Applied
  no_such_order : String → Applied

-- `format!("order-{}", n)` and `format!("exec-{}", n)`
unfoldable pub order_name : ℕ → String
order_name n = "order-" ++ numeral n

unfoldable pub execution_name : ℕ → String
execution_name n = "exec-" ++ numeral n

module _ {P : Type 0} where
  -- `TradingStateMachine::new`
  abbrev pub new_machine : TradingStateMachine P
  new_machine = record {
    orders = [];
    executions = [];
    accounts = [];
    last_applied_index = 0;
    last_applied_term = 0;
    next_order_id = 1;
    next_execution_id = 1;
  }

  -- `update_applied`
  unfoldable pub update_applied : ℕ → ℕ → TradingStateMachine P → TradingStateMachine P
  update_applied index term s = record s { last_applied_index = index; last_applied_term = term }

  -- `get_order`, `get_account`
  unfoldable pub get_order : String → TradingStateMachine P → Option (Order P)
  get_order order_id s = lookup order_id s.orders

  unfoldable pub get_account : String → TradingStateMachine P → Option Account
  get_account account_id s = lookup account_id s.accounts

  -- The order that a request creates.
  unfoldable pub created : String → ℕ → OrderRequest P → Order P
  created order_id now r = record {
    order_id = order_id;
    account_id = r.client_id;
    symbol = r.symbol;
    side = r.side;
    order_type = r.order_type;
    quantity = pos r.quantity;
    price = r.price;
    stop_price = none;
    status = OrderStatus.new;
    filled_quantity = pos 0;
    created_at = now;
    updated_at = now;
  }

  -- The new status of the order that is there, or the error.
  unfoldable pub with_status :
      String
      → OrderStatus
      → Option (Order P)
      → TradingStateMachine P
      → Applied × TradingStateMachine P
  with_status i status none s = (no_such_order i, s)
  with_status i status (some o) s =
      (applied, record s { orders = insert i (record o { status = status }) s.orders })

  -- `apply`
  unfoldable pub apply : ℕ → Command P → TradingStateMachine P → Applied × TradingStateMachine P
  unfolding created with_status order_name execution_name
  apply now (create_order r) s =
      let i = order_name s.next_order_id in
      (
        applied,
        record s {
          next_order_id = add64 s.next_order_id 1;
          orders = insert i (created i now r) s.orders;
        },
      )
  apply now (update_order_status i status) s = with_status i status (lookup i s.orders) s
  apply now (add_execution e) s =
      let i = execution_name s.next_execution_id in
      (
        applied,
        record s {
          next_execution_id = add64 s.next_execution_id 1;
          executions = insert i (record e { execution_id = i }) s.executions;
        },
      )
  apply now (update_account a) s = (applied, record s { accounts = insert a.id a s.accounts })
  apply now (admin_command c) s = (applied, s)

  -- What a node of the cluster uses of the machine, at one time for all the entries of a call; the
  -- source reads the clock for each.
  abbrev pub machine : ℕ → StateMachine (Command P) (TradingStateMachine P)
  machine now = record { apply = λ c s. (apply now c s).1; update_applied = update_applied }
