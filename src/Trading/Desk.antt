-- ===== src/Trading/Desk.antt =====
-- trading/src/actor/order.rs: `OrderActor`, which stores orders and hands them to the engine. The check
-- of risk in it accepts everything, and is left out. The engine `E`, which is asked through its
-- address, is part of the state.
use actix_pura.Prelude.{
  ℕ, String, Option, none, some, List, [], ◌∷◌, if◌then◌else◌, unwrap_or, str_eq, filter, map, ◌==◌,
  not,
}
use actix_pura.Prelude.Dict.{lookup, insert}
use actix_pura.Trading.Order.{
  Order, OrderStatus, OrderRequest, from_request, can_cancel, update_status,
}

-- `OrderResult`, whose errors are not used.
pub data OrderResult : Type 0 where
  accepted rejected : String → OrderResult

-- `OrderQuery`
pub data OrderQuery : Type 0 where
  by_id by_account by_symbol : String → OrderQuery
  by_status : OrderStatus → OrderQuery
  all : OrderQuery

pub record OrderActor (P E : Type 0) : Type 0 where
  pub orders : List (String × Order P)
  pub execution_engine : Option E

-- `==` of the statuses.
abbrev pub status_code : OrderStatus → ℕ
status_code OrderStatus.new = 0
status_code OrderStatus.accepted = 1
status_code OrderStatus.partially_filled = 2
status_code OrderStatus.filled = 3
status_code OrderStatus.cancelled = 4
status_code OrderStatus.rejected = 5
status_code OrderStatus.expired = 6

abbrev pub values : {P : Type 0} → List (String × Order P) → List (Order P)
values l = map (λ e. e.1) l

module _ {P E : Type 0} where
  abbrev pub new_desk : OrderActor P E
  new_desk = record { orders = []; execution_engine = none }

  unfoldable pub store_order : Order P → OrderActor P E → OrderActor P E
  store_order o d = record d { orders = insert o.order_id o d.orders }

  unfoldable pub query_orders : OrderQuery → OrderActor P E → List (Order P)
  query_orders (by_id id) d = elim (lookup id d.orders) [ none ↦ [] | some o ↦ o ∷ [] ]
  query_orders (by_account a) d = filter (λ o. str_eq o.account_id a) (values d.orders)
  query_orders (by_symbol s) d = filter (λ o. str_eq o.symbol s) (values d.orders)
  query_orders (by_status s) d =
      filter (λ o. status_code o.status == status_code s) (values d.orders)
  query_orders all d = values d.orders

  -- `cancel_order`; the reasons of rejections stand for the texts.
  unfoldable pub cancel_order : String → String → ℕ → OrderActor P E → OrderResult × OrderActor P E
  cancel_order id client now d = elim (lookup id d.orders) [
    | none ↦ (rejected "not found", d)
    | some o ↦
        if not (str_eq o.account_id client)
        then (rejected "does not belong to account", d)
        else if not (can_cancel o)
        then (rejected "cannot be cancelled", d)
        else (
          accepted id,
          record d { orders = insert id (update_status OrderStatus.cancelled now o) d.orders },
        )
  ]

-- What an order makes of the engine that is asked to execute it is given: whatever it answers, or
-- when it fails, the answer is dropped, and so is what it changes of its copy of the order.
module _ {P E : Type 0} (ask : Order P → E → E) where
  unfoldable pub ask_engine : Order P → OrderActor P E → OrderActor P E
  ask_engine o d = elim d.execution_engine [
    | none ↦ d
    | some g ↦ record d { execution_engine = some (ask o g) }
  ]

  -- `create_and_execute_order`, where `answered` and `fresh` are the identifiers that it and
  -- `from_request` draw.
  unfoldable pub create_and_execute_order :
      ℕ → String → String → OrderRequest P → OrderActor P E → OrderResult × OrderActor P E
  create_and_execute_order now answered fresh r d =
      let o = from_request fresh now r in
      (accepted (unwrap_or answered r.order_id), ask_engine o (store_order o d))
