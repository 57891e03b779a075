-- ===== src/Runtime/Loops.antt =====
-- actix/src/context_impl.rs: the three loops of `poll` of `ContextFut`, over the waiting futures, the
-- messages (actix/src/mailbox.rs) and the items. Each takes fuel, and `none` says that it ran out. Messages of other senders that come during a poll are found by the next one.
use actix_pura.Prelude.{
  ℕ, zero, suc, ◌+◌, ◌-◌, Bool, true, false, Option, none, some, [], ◌∷◌, ◌++◌, is_empty, not, ◌&&◌,
  if◌then◌else◌, length, last, get_elem?, take,
}
use actix_pura.Mailbox.Channel.{Channel, Envelope, ready, finished, pending}
use actix_pura.Mailbox.Receiver.{poll_next}
use actix_pura.Runtime.Context.{is_stopping, waiting, state, is_alive}
use actix_pura.Runtime.Life.{
  Behaviour, Progress, Event, ContextFut, set_parts, perform, merge, clean_canceled_handle,
  swap_remove, set,
}

abbrev pub is_done : {F : Type 0} → Progress F → Bool
is_done Progress.done = true
is_done (Progress.pending _) = false

module _ {A F M : Type 0} where
  -- What a future that was polled makes of the items.
  unfoldable pub put_item : ℕ → ℕ → Progress F → ContextFut A F M → ContextFut A F M
  put_item i h Progress.done w = record w { items = swap_remove i w.items }
  put_item i h (Progress.pending f) w = record w { items = set w.items i (h, f) }

  -- The item of a future that scheduled a wait goes to the end.
  unfoldable pub move_last : ℕ → ContextFut A F M → ContextFut A F M
  move_last i w = elim (get_elem? w.items i) [
    | none ↦ w
    | some x ↦ elim (last w.items) [
      | none ↦ w
      | some y ↦ record w { items = set (set w.items i y) (length w.items - 1) x }
    ]
  ]

  -- A future waits, and is to be polled before anything else.
  abbrev pub has_wait : ContextFut A F M → Bool
  has_wait w = not (is_empty w.wait) && not (is_stopping w.parts)

module _ {A F M : Type 0} (b : Behaviour A F M) where
  -- The last of the waiting futures is polled; `true` says that it is done. One that is pending
  -- counts as done when the actor no longer runs (`ActorWaitItem::poll`).
  unfoldable pub poll_wait : F → ContextFut A F M → Bool × ContextFut A F M
  poll_wait f w =
      let (p, a, cs) = b.poll f w.act w.parts in
      let w' = perform Event.waited a cs w in
      let rest = take (length w.wait - 1) w.wait in
      elim p [
        | Progress.done ↦ (true, merge (record w' { wait = rest }))
        | Progress.pending f' ↦
            if is_alive (state w'.parts)
            then (false, record w' { wait = rest ++ f' ∷ [] })
            else (true, merge (record w' { wait = rest }))
      ]

  -- `while !this.wait.is_empty() && !this.stopping()`; `false` is the return of `ready!`.
  unfoldable pub wait_loop : ℕ → ContextFut A F M → Option (Bool × ContextFut A F M)
  wait_loop zero w = none
  wait_loop (suc k) w = elim (last w.wait) [
    | none ↦ some (true, w)
    | some f ↦
        if is_stopping w.parts
        then some (true, w)
        else let (go_on, w') = poll_wait f w in
          elim go_on [ false ↦ some (false, w') | true ↦ wait_loop k w' ]
  ]

  -- `Mailbox::poll`
  unfoldable pub handle_message : Envelope M → Channel M → ContextFut A F M → ContextFut A F M
  handle_message e mb w =
      let (a, cs) = b.handle e w.act w.parts in
      perform (Event.handled e) a cs (record w { mailbox = mb })

  unfoldable pub mailbox_loop : ℕ → ContextFut A F M → Option (ContextFut A F M)
  mailbox_loop zero w = none
  mailbox_loop (suc k) w =
      let (p, mb) = poll_next w.mailbox in
      let stay : Option (ContextFut A F M) = some (record w { mailbox = mb }) in
      if waiting w.parts then some w else elim p [
        | ready e ↦ mailbox_loop k (handle_message e mb w)
        | finished ↦ stay
        | pending ↦ stay
      ]

  unfoldable pub poll_item : ℕ → ℕ → F → ContextFut A F M → Bool × ContextFut A F M
  poll_item i h f w =
      let w' = set_parts (record w.parts { current_handle = h }) w in
      let (p, a, cs) = b.poll f w'.act w'.parts in
      let w'' = put_item i h p (perform (Event.polled h) a cs w') in
      (is_done p, if waiting w''.parts then merge w'' else w'')

  -- `while idx < this.items.len() && !this.stopping()`; `true` is `continue 'outer`.
  unfoldable pub item_loop : ℕ → ℕ → ContextFut A F M → Option (Bool × ContextFut A F M)
  item_loop zero i w = none
  item_loop (suc k) i w = elim (get_elem? w.items i) [
    | none ↦ some (false, w)
    | some (h, f) ↦
        if is_stopping w.parts
        then some (false, w)
        else let (ready_now, w') = poll_item i h f w in
          elim ready_now [
            | true ↦ elim (has_wait w') [ true ↦ some (true, w') | false ↦ item_loop k i w' ]
            | false ↦
                if not (is_empty w'.parts.cancelled)
                then some (true, clean_canceled_handle w')
                else elim (has_wait w') [
                  | true ↦ some (true, move_last i w')
                  | false ↦ item_loop k (i + 1) w'
                ]
          ]
  ]
