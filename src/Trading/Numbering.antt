-- ===== src/Trading/Numbering.antt =====
-- trading/src/consensus/state_machine.rs: the numbers of the orders, and that no order is lost.
use actix_pura.Prelude.{
  ℕ, ◌+◌, ◌≤◌, ◌<◌, ◌≡◌, ◌≢◌, refl, ap, ◌∙◌, String, Option, none, some, List, [], ◌∷◌, arith,
  String-discrete, u64_mod, length,
}
use actix_pura.Prelude.Dict.{lookup, lookup-insert_other, lookup-insert_self}
use actix_pura.Prelude.Numeral.{numeral_inj}
use text.Mathlib.TextLemmas.{append_cancel_left}
use actix_pura.Trading.Order.{Order, OrderRequest, OrderStatus}
use actix_pura.Trading.Machine.{
  Command, create_order, update_order_status, add_execution, update_account, admin_command,
  TradingStateMachine, created, order_name, with_status, apply,
}

order_name_inj : (n m : ℕ) → order_name n ≡ order_name m → n ≡ m
unfolding order_name
order_name_inj n m e = numeral_inj n m (append_cancel_left "order-" _ _ e)

module _ {P : Type 0} where
  -- The commands of a log, each with the time at which it is applied.
  unfoldable pub runs : List (ℕ × Command P) → TradingStateMachine P → TradingStateMachine P
  runs [] s = s
  runs ((now, c) ∷ cs) s = runs cs (apply now c s).1

  -- No number from the next one on has been given to an order.
  abbrev pub IsNumbered : TradingStateMachine P → Type 0
  IsNumbered s = (n : ℕ) → s.next_order_id ≤ n → n < u64_mod → lookup (order_name n) s.orders ≡ none

  -- An order that is there is still there, with nothing changed but its status.
  abbrev pub Stays : String → Order P → TradingStateMachine P → Type 0
  Stays i o s = (status : OrderStatus) × (lookup i s.orders ≡ some (record o { status = status }))

  module _ (now : ℕ) (s : TradingStateMachine P) (numbered : IsNumbered s) where
    create-Stays :
        (r : OrderRequest P) (i : String) (o : Order P)
        → s.next_order_id < u64_mod
        → lookup i s.orders ≡ some o
        → Stays i o (apply now (create_order r) s).1
    unfolding apply
    create-Stays r i o room h =
        let k = order_name s.next_order_id in
        let new : lookup k s.orders ≡ none = numbered s.next_order_id (omega arith) room in
        let other : k ≢ i = λ e. let clash : lookup k s.orders ≡ some o = rw e h in cc in
        (o.status, lookup-insert_other k i (created k now r) s.orders other ∙ h)

    create-IsNumbered :
        (r : OrderRequest P)
        → s.next_order_id + 1 < u64_mod
        → IsNumbered (apply now (create_order r) s).1
    unfolding apply
    create-IsNumbered r room n le lt =
        let k = order_name s.next_order_id in
        let other : k ≢ order_name n =
          λ e. absurd (omega (arith, order_name_inj s.next_order_id n e)) in
        lookup-insert_other k (order_name n) (created k now r) s.orders other
        ∙ numbered n (omega arith) lt

  module _ (s : TradingStateMachine P) (numbered : IsNumbered s) (j : String)
      (status : OrderStatus) where
    status-Stays :
        (q : Option (Order P)) (i : String) (o : Order P)
        → lookup j s.orders ≡ q
        → lookup i s.orders ≡ some o
        → Stays i o (with_status j status q s).1
    unfolding with_status
    status-Stays none i o found h = (o.status, h)
    status-Stays (some q) i o found h = elim (String-discrete j i) [
      | yes same ↦
          let e : q ≡ o = cc in
          (
            status,
            rw (← same) (lookup-insert_self j (record q { status = status }) s.orders)
                ∙ ap (λ (x : Order P). some (record x { status = status })) e,
          )
      | no other ↦
          (o.status, lookup-insert_other j i (record q { status = status }) s.orders other ∙ h)
    ]

    status-IsNumbered :
        (q : Option (Order P)) → lookup j s.orders ≡ q → IsNumbered (with_status j status q s).1
    unfolding with_status
    status-IsNumbered none found n le lt = numbered n le lt
    status-IsNumbered (some q) found n le lt =
        let new : lookup (order_name n) s.orders ≡ none = numbered n le lt in
        let other : j ≢ order_name n =
          λ e. let clash : lookup (order_name n) s.orders ≡ some q = rw (← e) found in cc in
        lookup-insert_other j (order_name n) (record q { status = status }) s.orders other ∙ new

  pub apply-IsNumbered :
      (now : ℕ) (c : Command P) (s : TradingStateMachine P)
      → s.next_order_id + 1 < u64_mod
      → IsNumbered s
      → IsNumbered (apply now c s).1 × ((apply now c s).1.next_order_id ≤ s.next_order_id + 1)
  unfolding apply with_status
  apply-IsNumbered now (create_order r) s room v = (create-IsNumbered now s v r room, omega arith)
  apply-IsNumbered now (update_order_status j status) s room v =
      (status-IsNumbered s v j status (lookup j s.orders) refl, next (lookup j s.orders))
    where
      next :
          (q : Option (Order P)) → (with_status j status q s).1.next_order_id ≤ s.next_order_id + 1
      next none = omega arith
      next (some q) = omega arith
  apply-IsNumbered now (add_execution e) s room v = (v, omega arith)
  apply-IsNumbered now (update_account a) s room v = (v, omega arith)
  apply-IsNumbered now (admin_command c) s room v = (v, omega arith)

  apply-Stays :
      (now : ℕ) (c : Command P) (s : TradingStateMachine P) (i : String) (o : Order P)
      → s.next_order_id < u64_mod
      → IsNumbered s
      → lookup i s.orders ≡ some o
      → Stays i o (apply now c s).1
  unfolding apply
  apply-Stays now (create_order r) s i o room v h = create-Stays now s v r i o room h
  apply-Stays now (update_order_status j status) s i o room v h =
      status-Stays s v j status (lookup j s.orders) i o refl h
  apply-Stays now (add_execution e) s i o room v h = (o.status, h)
  apply-Stays now (update_account a) s i o room v h = (o.status, h)
  apply-Stays now (admin_command c) s i o room v h = (o.status, h)

  -- Whatever commands are applied, fewer than 2^64 numbers being given, an order that is there
  -- stays there with nothing changed but its status: no later order takes its identifier, when no
  -- number from the next one on was given before.
  pub runs_keep_orders :
      (cs : List (ℕ × Command P)) (s : TradingStateMachine P) (i : String) (o : Order P)
      → s.next_order_id + length cs < u64_mod
      → IsNumbered s
      → lookup i s.orders ≡ some o
      → Stays i o (runs cs s)
  unfolding runs
  runs_keep_orders [] s i o room v h = (o.status, h)
  runs_keep_orders ((now, c) ∷ cs) s i o room v h =
      let (status, kept) = apply-Stays now c s i o (omega arith) v h in
      let (numbered, le) = apply-IsNumbered now c s (omega arith) v in
      let (last_status, found) =
        runs_keep_orders cs (apply now c s).1 i (record o { status = status }) (omega arith)
          numbered kept in
      (last_status, found)
