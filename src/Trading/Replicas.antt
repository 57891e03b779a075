-- ===== src/Trading/Replicas.antt =====
-- trading/src/consensus: replicas that apply the same log agree on everything but the times, and no
-- order is lost.
use actix_pura.Prelude.{
  ℕ, zero, suc, ◌+◌, ◌-◌, ◌≤◌, ◌<◌, ◌≡◌, refl, sym, ap, ◌∙◌, String, Option, none, some, List,
  arith, u64_mod, add64,
}
use actix_pura.Prelude.Dict.{lookup, map_values, map_option, map_values-insert, lookup-map_values}
use actix_pura.Raft.Types.{RaftNode, LogEntry}
use actix_pura.Raft.Log.{entry_at}
use actix_pura.Raft.Leader.{run_entry, apply_committed_entries}
use actix_pura.Raft.Applying.{run_range, apply_committed_machine}
use actix_pura.Trading.Order.{Order, OrderStatus}
use actix_pura.Trading.Machine.{
  Command, create_order, update_order_status, add_execution, update_account, admin_command,
  TradingStateMachine, update_applied, created, order_name, with_status, apply, machine,
}

module _ {P : Type 0} where
  -- An order, or all that a machine holds, but for the times of orders.
  abbrev pub untimed : Order P → Order P
  untimed o = record o { created_at = 0; updated_at = 0 }

  abbrev pub timeless : TradingStateMachine P → TradingStateMachine P
  timeless s = record s { orders = map_values untimed s.orders }

  -- Machines that agree but for the times of orders.
  abbrev pub Agree : TradingStateMachine P → TradingStateMachine P → Type 0
  Agree s t = timeless s ≡ timeless t

  with_status-timeless :
      (i : String) (status : OrderStatus) (o : Option (Order P)) (s : TradingStateMachine P)
      → timeless (with_status i status o s).1
        ≡ (with_status i status (map_option untimed o) (timeless s)).1
  unfolding with_status
  with_status-timeless i status none s = refl
  with_status-timeless i status (some o) s =
      ap (λ (l : List (String × Order P)). record s { orders = l })
        (map_values-insert untimed i (record o { status = status }) s.orders)

  -- A command does at any time what it does at time 0 with the times left aside.
  apply-timeless :
      (now : ℕ) (c : Command P) (s : TradingStateMachine P)
      → timeless (apply now c s).1 ≡ (apply 0 c (timeless s)).1
  unfolding apply
  apply-timeless now (create_order r) s =
      let i = order_name s.next_order_id in
      ap
        (λ (l : List (String × Order P)). record s {
          next_order_id = add64 s.next_order_id 1;
          orders = l;
        })
        (map_values-insert untimed i (created i now r) s.orders)
  apply-timeless now (update_order_status i status) s =
      with_status-timeless i status (lookup i s.orders) s
      ∙ ap (λ (o : Option (Order P)). (with_status i status o (timeless s)).1)
          (sym (lookup-map_values untimed i s.orders))
  apply-timeless now (add_execution e) s = refl
  apply-timeless now (update_account a) s = refl
  apply-timeless now (admin_command c) s = refl

  apply-Agree :
      (now later : ℕ) (c : Command P) (s t : TradingStateMachine P)
      → Agree s t
      → Agree (apply now c s).1 (apply later c t).1
  apply-Agree now later c s t a =
      apply-timeless now c s
      ∙ ap (λ (u : TradingStateMachine P). (apply 0 c u).1) a
      ∙ sym (apply-timeless later c t)

  entry-Agree :
      (now later : ℕ) (e : Option (LogEntry (Command P))) (s t : TradingStateMachine P)
      → Agree s t
      → Agree (run_entry (machine now) e s) (run_entry (machine later) e t)
  unfolding update_applied
  entry-Agree now later none s t a = a
  entry-Agree now later (some e) s t a =
      ap (update_applied e.index e.term) (apply-Agree now later e.command s t a)

  range-Agree :
      (now later : ℕ) (l : List (LogEntry (Command P))) (k i : ℕ) (s t : TradingStateMachine P)
      → Agree s t
      → Agree (run_range (machine now) l k i s) (run_range (machine later) l k i t)
  unfolding run_range
  range-Agree now later l zero i s t a = a
  range-Agree now later l (suc k) i s t a =
      range-Agree now later l k (i + 1) (run_entry (machine now) (entry_at (i + 1) l) s)
        (run_entry (machine later) (entry_at (i + 1) l) t)
        (entry-Agree now later (entry_at (i + 1) l) s t a)

  -- Two nodes whose logs, applied and committed indexes are the same, the committed one below 2^64
  -- and reached or ahead, and whose machines agree but for the times of orders, agree so after each
  -- has applied what is committed, at whatever times.
  pub replicas-Agree :
      (now later : ℕ) (n k : RaftNode (Command P) (TradingStateMachine P))
      → n.log ≡ k.log
      → n.last_applied ≡ k.last_applied
      → n.commit_index ≡ k.commit_index
      → n.last_applied ≤ n.commit_index
      → n.commit_index < u64_mod
      → Agree n.state_machine k.state_machine
      → Agree
          (apply_committed_entries (machine now) n).state_machine
          (apply_committed_entries (machine later) k).state_machine
  replicas-Agree now later n k logs applied committed le lt a =
      let mine = apply_committed_machine (machine now) n le lt in
      let theirs = apply_committed_machine (machine later) k (omega arith) (omega arith) in
      let same : run_range (machine now) n.log (n.commit_index - n.last_applied) n.last_applied
            n.state_machine
          ≡ run_range (machine now) k.log (k.commit_index - k.last_applied) k.last_applied
              n.state_machine =
        cc in
      ap timeless (mine ∙ same)
      ∙ range-Agree now later k.log (k.commit_index - k.last_applied) k.last_applied n.state_machine
          k.state_machine a
      ∙ sym (ap timeless theirs)
