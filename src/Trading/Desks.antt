-- ===== src/Trading/Desks.antt =====
-- trading/src/actor/order.rs: an order at the desk is changed by its owner only, and does not learn of
-- its trades.
use actix_pura.Prelude.{
  some_same, ℕ, ◌≡◌, ◌≢◌, refl, sym, ap, ◌∙◌, String, true, some, List, [], ◌∷◌, unwrap_or, str_eq,
  String-discrete, str_eq→eq, str_eq_refl, All, Bool-cases, Option-cases, inl, inr,
}
use actix_pura.Prelude.Dict.{lookup, insert, lookup-insert_other, lookup-insert_self}
use actix_pura.Trading.Order.{
  Order, OrderStatus, OrderRequest, from_request, can_cancel, update_status,
}
use actix_pura.Trading.Desk.{
  OrderActor, accepted, store_order, cancel_order, ask_engine, create_and_execute_order,
}

-- What the desk is asked: `CreateOrderMessage`, with what the engine does with the order, the time and
-- what is drawn, and `CancelOrderMessage`.
pub data DeskRequest (P E : Type 0) : Type 0 where
  create :
      (ask : Order P → E → E) (now : ℕ) (answered fresh : String) (r : OrderRequest P)
      → DeskRequest P E
  cancel : (id client : String) (now : ℕ) → DeskRequest P E

module _ {P E : Type 0} where
  cancel_own :
      (id client : String) (now : ℕ) (d : OrderActor P E) (o : Order P)
      → lookup id d.orders ≡ some o
      → str_eq o.account_id client ≡ true
      → can_cancel o ≡ true
      → cancel_order id client now d ≡ (
        accepted id,
        record d { orders = insert id (update_status OrderStatus.cancelled now o) d.orders },
      )
  unfolding cancel_order
  cancel_own id client now d o at own live = rw (at, cancel_order) (rw (own, live) refl)

  cancel_others :
      (i id client : String) (now : ℕ) (d : OrderActor P E) (o : Order P)
      → lookup i d.orders ≡ some o
      → (id ≡ i → client ≢ o.account_id)
      → lookup i (cancel_order id client now d).1.orders ≡ some o
  unfolding cancel_order
  cancel_others i id client now d o at other = elim (Option-cases (lookup id d.orders)) [
    | inl e ↦ rw (e, cancel_order) at
    | inr (u, e) ↦ elim (Bool-cases (str_eq u.account_id client)) [
      | inr foreign ↦ rw (e, cancel_order) (rw foreign at)
      | inl own ↦ elim (Bool-cases (can_cancel u)) [
        | inr done ↦ rw (e, cancel_order) (rw (own, done) at)
        | inl live ↦ elim (String-discrete id i) [
          | yes same ↦
              let is_u : u ≡ o = some_same (sym e ∙ ap (λ x. lookup x d.orders) same ∙ at) in
              absurd
                (other same (sym (str_eq→eq u.account_id client own) ∙ ap (λ x. x.account_id) is_u))
          | no different ↦
              rw (e, cancel_order)
                (rw (own, live) (lookup-insert_other id i _ d.orders different ∙ at))
        ]
      ]
    ]
  ]

module _ {P E : Type 0} where
  unfoldable pub desk_request : DeskRequest P E → OrderActor P E → OrderActor P E
  desk_request (create ask now answered fresh r) d =
      (create_and_execute_order ask now answered fresh r d).1
  desk_request (cancel id client now) d = (cancel_order id client now d).1

  unfoldable pub desk_requests : List (DeskRequest P E) → OrderActor P E → OrderActor P E
  desk_requests [] d = d
  desk_requests (q ∷ qs) d = desk_requests qs (desk_request q d)

  -- It neither places an order under the identifier `i` nor cancels it for its owner `c`.
  abbrev pub Spares : String → String → DeskRequest P E → Type 0
  Spares i c (create ask now answered fresh r) = unwrap_or fresh r.order_id ≢ i
  Spares i c (cancel id client now) = id ≡ i → client ≢ c

  ask_engine_orders :
      (ask : Order P → E → E) (o : Order P) (d : OrderActor P E)
      → (ask_engine ask o d).orders ≡ d.orders
  unfolding ask_engine
  ask_engine_orders ask o d = elim (Option-cases d.execution_engine) [
    | inl without ↦ rw (without, ask_engine) refl
    | inr (g, asked) ↦ rw (asked, ask_engine) refl
  ]

  create_orders :
      (ask : Order P → E → E) (now : ℕ) (answered fresh : String) (r : OrderRequest P)
      (d : OrderActor P E)
      → (create_and_execute_order ask now answered fresh r d).1.orders
        ≡ insert (unwrap_or fresh r.order_id) (from_request fresh now r) d.orders
  unfolding create_and_execute_order store_order from_request
  create_orders ask now answered fresh r d =
      ask_engine_orders ask (from_request fresh now r) (store_order (from_request fresh now r) d)

  desk_request_keeps :
      (q : DeskRequest P E) (d : OrderActor P E) (i : String) (o : Order P)
      → lookup i d.orders ≡ some o
      → Spares i o.account_id q
      → lookup i (desk_request q d).orders ≡ some o
  unfolding desk_request
  desk_request_keeps (create ask now answered fresh r) d i o at h =
      ap (lookup i) (create_orders ask now answered fresh r d)
      ∙ lookup-insert_other (unwrap_or fresh r.order_id) i _ d.orders h
      ∙ at
  desk_request_keeps (cancel id client now) d i o at h = cancel_others i id client now d o at h

  -- Whatever orders are placed and cancelled at the desk, and whatever the engine makes of each, an
  -- answer or none, an order stays there as it is, unless its owner cancels it or an order is
  -- placed under its identifier.
  pub desk_keeps_order :
      (qs : List (DeskRequest P E)) (d : OrderActor P E) (i : String) (o : Order P)
      → lookup i d.orders ≡ some o
      → All (Spares i o.account_id) qs
      → lookup i (desk_requests qs d).orders ≡ some o
  unfolding desk_requests
  desk_keeps_order [] d i o at h = at
  desk_keeps_order (q ∷ qs) d i o at h =
      desk_keeps_order qs (desk_request q d) i o (desk_request_keeps q d i o at h.0) h.1

  -- An order that was placed under an identifier of its own can be cancelled by its owner, whatever
  -- the engine made of it, an answer or none: it is stored as cancelled, with nothing filled, and
  -- nothing else changes, so that the engine does not learn of it.
  pub cancel_order-create_and_execute_order :
      (ask : Order P → E → E) (now later : ℕ) (answered fresh i : String) (r : OrderRequest P)
      (d : OrderActor P E)
      → r.order_id ≡ some i
      → cancel_order i r.client_id later (create_and_execute_order ask now answered fresh r d).1 ≡ (
        accepted i,
        record (create_and_execute_order ask now answered fresh r d).1 {
          orders =
              insert i
                (update_status OrderStatus.cancelled later (from_request fresh now r))
                (create_and_execute_order ask now answered fresh r d).1.orders;
        },
      )
  unfolding from_request can_cancel
  cancel_order-create_and_execute_order ask now later answered fresh i r d named =
      cancel_own i r.client_id later _ (from_request fresh now r)
        (ap (lookup i) (create_orders ask now answered fresh r d)
          ∙ ap (λ j. lookup i (insert j (from_request fresh now r) d.orders))
              (ap (unwrap_or fresh) named)
          ∙ lookup-insert_self i _ d.orders)
        (str_eq_refl r.client_id) refl
