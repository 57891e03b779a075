-- ===== src/Runtime/Poll.antt =====
-- actix/src/context_impl.rs: `poll`, `restart` and `drop` of `ContextFut`; actix/src/supervisor.rs:
-- `poll` of the supervisor. Each loop takes fuel, and `none` says that it ran out.
use actix_pura.Prelude.{
  ℕ, zero, suc, Bool, true, false, Option, none, some, [], is_empty, not, ◌&&◌, if◌then◌else◌, ◌==◌,
}
use actix_pura.Runtime.Context.{ended_flags, restart_parts, stop_parts}
use actix_pura.Runtime.Life.{
  Behaviour, Running, Event, ContextFut, set_parts, perform, alive, is_modified, merge,
  clean_canceled_handle,
}
use actix_pura.Runtime.Loops.{wait_loop, mailbox_loop, has_wait, item_loop}

-- What one round of the loop comes to: the round starts again, or `poll` returns.
pub data Turn (A F M : Type 0) : Type 0 where
  again : ContextFut A F M → Turn A F M
  returned : Bool → ContextFut A F M → Turn A F M

module _ {A F M : Type 0} where
  -- `this.merge() && !STOPPING`
  unfoldable pub has_more : ContextFut A F M → Bool
  has_more w = is_modified w && not w.parts.flags.stopping

  -- With no items there is nothing to cancel.
  unfoldable pub truncate_handles : ContextFut A F M → ContextFut A F M
  truncate_handles w =
      if is_empty w.items then set_parts (record w.parts { cancelled = [] }) w else w

  -- The answer was `Continue`.
  unfoldable pub run_again : ContextFut A F M → Turn A F M
  run_again w = again (
      set_parts
        (record w.parts { flags = record w.parts.flags { stopping = false; running = true } }) w)

module _ {A F M : Type 0} (b : Behaviour A F M) where
  -- `Actor::started`, and the first merge.
  unfoldable pub start : ContextFut A F M → ContextFut A F M
  start w =
      let w' = set_parts (record w.parts { flags = record w.parts.flags { started = true } }) w in
      let (a, cs) = b.started w'.act w'.parts in
      let w'' = perform Event.started a cs w' in
      if is_modified w'' then clean_canceled_handle (merge w'') else w''

  -- `Actor::stopped`, and the end.
  unfoldable pub finish : ContextFut A F M → Turn A F M
  finish w = let (a, cs) = b.stopped w.act w.parts in returned true (perform Event.stopped a cs w)

  -- `Actor::stopping`, and what is done with its answer.
  unfoldable pub ask_to_stop : (ContextFut A F M → Turn A F M) → ContextFut A F M → Turn A F M
  ask_to_stop go_on w =
      let (r, a, cs) = b.stopping w.act w.parts in
      let w' = perform Event.stopping a cs w in
      elim r [
        | Running.stop ↦ finish (set_parts (record w'.parts { flags = ended_flags }) w')
        | Running.continue ↦ go_on w'
      ]

  -- `// check state`
  unfoldable pub check_state : ContextFut A F M → Turn A F M
  check_state w =
      if w.parts.flags.running
      then (if alive w then returned false w else ask_to_stop (returned false) w)
      else if w.parts.flags.stopping
      then ask_to_stop run_again w
      else if w.parts.flags.stopped
      then finish w
      else returned false w

  -- What follows the items: the merge, and the state.
  unfoldable pub end_round : ContextFut A F M → Turn A F M
  end_round w =
      let w' = set_parts (record w.parts { current_handle = 0 }) w in
      if has_more w' then again (truncate_handles (merge w')) else check_state (merge w')

  -- A round of the loop, after the waiting futures.
  unfoldable pub run_round : ℕ → ContextFut A F M → Option (Turn A F M)
  run_round k w = elim (mailbox_loop b k w) [
    | none ↦ none
    | some w' ↦ if has_wait w' then some (again w') else elim (item_loop b k 0 w') [
      | none ↦ none
      | some (outer, w'') ↦ if outer then some (again w'') else some (end_round w'')
    ]
  ]

  unfoldable pub round : ℕ → ContextFut A F M → Option (Turn A F M)
  round k w = elim (wait_loop b k w) [
    | none ↦ none
    | some (go_on, w') ↦ if go_on then run_round k w' else some (returned false w')
  ]

  unfoldable pub rounds : ℕ → ContextFut A F M → Option (Bool × ContextFut A F M)
  rounds zero w = none
  rounds (suc k) w = elim (round k w) [
    | none ↦ none
    | some (again w') ↦ rounds k w'
    | some (returned is_ready w') ↦ some (is_ready, w')
  ]

  -- `ContextFut::poll`: `true` for `Poll::Ready`.
  unfoldable pub poll : ℕ → ContextFut A F M → Option (Bool × ContextFut A F M)
  poll k w = rounds k (if w.parts.flags.started then w else start w)

  -- `ContextFut::restart`
  unfoldable pub restart : ContextFut A F M → Bool × ContextFut A F M
  restart w =
      let w' = record w { wait = []; items = []; parts = restart_parts w.parts } in
      let (a, cs) = b.restarting w'.act w'.parts in
      if w.mailbox.num_senders == 0 then (false, w) else (true, perform Event.restarting a cs w')

  -- `Supervisor::poll`
  unfoldable pub supervise : ℕ → ContextFut A F M → Option (Bool × ContextFut A F M)
  supervise zero w = none
  supervise (suc k) w = elim (poll k w) [
    | none ↦ none
    | some (is_ready, w') ↦
        let (restarted, w'') = restart w' in
        if not is_ready
        then some (false, w')
        else elim restarted [ false ↦ some (true, w'') | true ↦ supervise k w'' ]
  ]

  -- `Drop for ContextFut`
  unfoldable pub drop_context : ℕ → ContextFut A F M → Option (ContextFut A F M)
  drop_context k w =
      if alive w
      then elim (poll k (set_parts (stop_parts w.parts) w)) [ none ↦ none | some (_, w') ↦ some w' ]
      else some w
