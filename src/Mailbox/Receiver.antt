-- ===== src/Mailbox/Receiver.antt =====
-- actix/src/address/channel.rs: the receiving end, and the capacity, which wakes parked senders.
use actix_pura.Prelude.{
  ℕ, zero, suc, ◌%◌, Option, none, some, List, [], ◌∷◌, ltb, if◌then◌else◌, sub64,
}
use actix_pura.Mailbox.State.{open_mask, is_closed, decode_state}
use actix_pura.Mailbox.Channel.{
  SenderTask, Envelope, Channel, Poll, ready, finished, pending, update, notify,
}

-- `while let Some(task) = parked_queue.pop_spin() { task.lock().notify(); }`
unfoldable pub notify_all : List ℕ → (ℕ → SenderTask) → ℕ → SenderTask
notify_all [] f = f
notify_all (i ∷ l) f = notify_all l (update f i (notify (f i)))

module _ {M : Type 0} where
  unfoldable pub unpark_all : Channel M → Channel M
  unpark_all c = record c {
    parked_queue = [];
    sender_task = notify_all c.parked_queue c.sender_task;
  }

  -- `set_capacity`
  unfoldable pub set_capacity : ℕ → Channel M → Channel M
  set_capacity cap c =
      let c' = record c { buffer = cap } in if ltb c.buffer cap then unpark_all c' else c'

  -- `unpark_one`
  unfoldable pub unpark_one : Channel M → Channel M
  unpark_one c = elim c.parked_queue [
    | [] ↦ c
    | i ∷ l ↦ record c {
      parked_queue = l;
      sender_task = update c.sender_task i (notify (c.sender_task i));
    }
  ]

  -- `dec_num_messages`
  unfoldable pub dec_num_messages : Channel M → Channel M
  dec_num_messages c = record c { state = sub64 c.state 1 }

  -- `next_message`
  unfoldable pub next_message : Channel M → Poll (Envelope M) × Channel M
  next_message c = elim c.message_queue [
    | [] ↦ (if is_closed (decode_state c.state) then finished else pending, c)
    | e ∷ l ↦ (ready e, dec_num_messages (unpark_one (record c { message_queue = l })))
  ]

  -- `set_closed`
  unfoldable pub set_closed : Channel M → Channel M
  set_closed c =
      if (decode_state c.state).is_open then record c { state = c.state % open_mask } else c

  -- The loop of `Drop for AddressReceiver`, with fuel: it ends when the channel is finished.
  unfoldable pub drain : ℕ → Channel M → Option (Channel M)
  drain zero c = none
  drain (suc k) c =
      let (p, c') = next_message c in
      let rest = drain k c' in
      elim p [
        | ready _ ↦ rest
        | finished ↦ some c'
        | pending ↦ if is_closed (decode_state c'.state) then some c' else rest
      ]

  -- `poll_next`: the second look is for a message that came in between.
  unfoldable pub poll_next : Channel M → Poll (Envelope M) × Channel M
  poll_next c =
      let (p, c') = next_message c in
      elim p [ ready e ↦ (ready e, c') | finished ↦ (finished, c') | pending ↦ next_message c' ]

  unfoldable pub drop_receiver : ℕ → Channel M → Option (Channel M)
  drop_receiver fuel c = drain fuel (unpark_all (set_closed c))
