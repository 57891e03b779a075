-- ===== src/Trading/Desking.antt =====
-- trading/src/actor/account.rs and order.rs: the theorems at concrete accounts and orders.
use actix_pura.Prelude.{
  ℕ, ◌≡◌, refl, String, none, some, List, [], ◌∷◌, String-discrete, All, str_eq, str_eq→ne, arith,
}
use actix_pura.Prelude.Dict.{lookup, insert}
use actix_pura.Prelude.Int.{pos, pos_part, int_laws}
use actix_pura.Trading.Order.{
  Order, OrderType, OrderStatus, OrderRequest, buy, from_request, update_status,
}
use actix_pura.Trading.Account.{Account}
use actix_pura.Trading.Funds.{IsBalanced, withdrawing, funds_call}
use actix_pura.Trading.Teller.{
  TransferType, TellerMessage, account_update, fund_transfer, transfer, handle_all,
}
use actix_pura.Trading.Tellers.{IsSound, sum_messages, transfer-funds_call, handle_all-IsSound}
use actix_pura.Trading.Engine.{ExecutionEngine}
use actix_pura.Trading.Dispatch.{execute_order}
use actix_pura.Trading.Desk.{OrderActor, accepted, cancel_order, create_and_execute_order}
use actix_pura.Trading.Desks.{
  DeskRequest, create, cancel, desk_requests, desk_keeps_order,
  cancel_order-create_and_execute_order,
}
use actix_pura.Trading.Examples.{tenths, order}
use actix_pura.Trading.Engines.{engine, draws}

abbrev purse : Account
purse = record {
  id = "client";
  name = "Client";
  balance = pos 1000;
  available = pos 900;
  frozen = pos 100;
  positions = [];
  created_at = 0;
  updated_at = 0;
}

purse-IsBalanced : IsBalanced purse
purse-IsBalanced = record { total = omega int_laws; free = omega arith; held = omega arith }

transfer-funds_call_example :
    (funds_call (withdrawing (pos 200) 3) purse).1
    ≡ (elim (transfer TransferType.withdraw (pos 200) purse) [
      | none ↦ purse
      | some a ↦ record a { updated_at = 3 }
    ])
transfer-funds_call_example =
    transfer-funds_call TransferType.withdraw (pos 200) 3 purse (withdrawing (pos 200) 3) refl

-- An account is opened, money is moved, and a transfer is refused.
abbrev morning : List (String × ℕ × TellerMessage)
morning =
    ("fresh", 1, account_update none "Other" (pos 500))
    ∷ ("x", 2, fund_transfer "client" (pos 400) TransferType.freeze)
    ∷ ("x", 3, fund_transfer "fresh" (pos 700) TransferType.withdraw)
    ∷ []

handle_all-IsSound_example : All (IsSound (pos 0)) (handle_all morning (("client", purse) ∷ []))
unfolding sum_messages
handle_all-IsSound_example =
    handle_all-IsSound morning (("client", purse) ∷ [])
      (omega arith, (omega arith, (omega arith, tt))) (omega int_laws)
      ((refl, purse-IsBalanced, omega int_laws), tt)

abbrev request : OrderRequest ℕ
request = record {
  order_id = some "buy1";
  symbol = "AAPL";
  side = buy;
  order_type = OrderType.limit;
  quantity = 10;
  price = some 1600;
  client_id = "client";
}

-- What the engine makes of an order; it stays as it is when it gives no result.
abbrev asking : Order ℕ → ExecutionEngine ℕ → ExecutionEngine ℕ
asking o g = elim (execute_order tenths (λ p. pos p) pos_part 1 draws draws 2 o g) [
  | none ↦ g
  | some x ↦ x.engine
]

abbrev desk : OrderActor ℕ (ExecutionEngine ℕ)
desk = record { orders = []; execution_engine = some engine }

abbrev rest : Order ℕ
rest = order "kept" buy OrderType.limit 1600 10

abbrev kept_at : OrderActor ℕ (ExecutionEngine ℕ)
kept_at = record { orders = ("kept", rest) ∷ []; execution_engine = some engine }

abbrev asked : List (DeskRequest ℕ (ExecutionEngine ℕ))
asked = create asking 1 "a" "b" request ∷ cancel "kept" "other" 2 ∷ cancel "buy1" "client" 3 ∷ []

desk_keeps_order_example : lookup "kept" (desk_requests asked kept_at).orders ≡ some rest
unfolding lookup String-discrete str_eq
desk_keeps_order_example = desk_keeps_order asked kept_at "kept" rest refl (
  str_eq→ne _ _ refl,
  ((λ h. str_eq→ne _ _ refl), ((λ h. absurd (str_eq→ne "buy1" "kept" refl h)), tt)),
)

cancel_order-create_and_execute_order_example :
    cancel_order "buy1" "client" 9 (create_and_execute_order asking 1 "a" "b" request desk).1 ≡ (
      accepted "buy1",
      record (create_and_execute_order asking 1 "a" "b" request desk).1 {
        orders =
            insert "buy1"
              (update_status OrderStatus.cancelled 9 (from_request "b" 1 request))
              (create_and_execute_order asking 1 "a" "b" request desk).1.orders;
      },
    )
cancel_order-create_and_execute_order_example =
    cancel_order-create_and_execute_order asking 1 9 "a" "b" "buy1" request desk refl
