-- ===== src/Mailbox/Capacity.antt =====
-- actix/src/address/channel.rs: back pressure. The documentation of `channel` says that the
-- capacity is `buffer + num-senders`: each sender has one slot, and the buffer is shared.
use actix_pura.Prelude.{
  ℕ, ◌+◌, ◌<◌, ◌≡◌, ap, true, false, some, [], ◌∷◌, ◌++◌, arith, length, length-append, Bool-cases,
  inl, inr,
}
use actix_pura.Mailbox.Channel.{
  Envelope, Channel, connected, sent, full, park, is_full, queue_push_and_signal, inc_num_messages,
  poll_unparked, enqueue, send,
}
use actix_pura.Mailbox.Receiver.{unpark_one, dec_num_messages, next_message}
use actix_pura.Mailbox.Invariant.{IsValid, poll-IsValid}

-- The messages fit the buffer, but for one of each sender that is parked.
abbrev pub IsBounded : {M : Type 0} → Channel M → Type 0
IsBounded c = length c.message_queue < c.buffer + length c.parked_queue

module _ {M : Type 0} where
  enqueue-IsBounded :
      (i : ℕ) (e : Envelope M) (c : Channel M)
      → IsValid c
      → 0 < c.buffer
      → IsBounded c
      → IsBounded (enqueue true i e c).1
  unfolding enqueue inc_num_messages queue_push_and_signal park
  enqueue-IsBounded i e c v b h =
      let q = length-append c.message_queue (e ∷ []) in
      let p = length-append c.parked_queue (i ∷ []) in ground (arith, v.counted)

  poll_counts :
      (i : ℕ) (c : Channel M)
      → let k = (poll_unparked i c).1 in
        (k.message_queue ≡ c.message_queue)
        × (k.parked_queue ≡ c.parked_queue)
        × (k.buffer ≡ c.buffer)
        × (k.state ≡ c.state)
  unfolding poll_unparked
  poll_counts i c = ground arith

  -- On a valid channel with a bounded buffer, a `send` keeps the messages within the buffer and one
  -- slot of each parked sender, whether it is accepted or not.
  pub send-IsBounded :
      (i : ℕ) (m : M) (tx : ℕ) (c : Channel M)
      → IsValid c
      → 0 < c.buffer
      → IsBounded c
      → IsBounded (send i m tx c).1
  unfolding send
  send-IsBounded i m tx c v b h =
      let k = poll_counts i c in
      let h' : IsBounded (poll_unparked i c).1 = omega (arith, ap length k.0, ap length k.1, k.2) in
      elim (Bool-cases (poll_unparked i c).0) [
        | inl r ↦ rw r (enqueue-IsBounded i _ _ (poll-IsValid i c v) (omega (arith, k.2)) h')
        | inr r ↦ rw r h'
      ]

  -- With a bounded buffer, receiving keeps the messages within the buffer and one slot of each
  -- parked sender.
  pub next_message-IsBounded :
      (c : Channel M) → 0 < c.buffer → IsBounded c → IsBounded (next_message c).1
  unfolding next_message dec_num_messages unpark_one
  next_message-IsBounded c b h = ground arith

  -- A sender that is parked on an open valid channel is refused with its message back, and nothing
  -- is counted or queued.
  pub send_parked :
      (i : ℕ) (m : M) (tx : ℕ) (c : Channel M)
      → IsValid c
      → connected c ≡ true
      → (c.sender_task i).is_parked ≡ true
      → let (r, k) = send i m tx c in
        (r ≡ full m) × (k.message_queue ≡ c.message_queue) × (k.state ≡ c.state)
  unfolding send poll_unparked connected
  send_parked i m tx c v o p = ground (arith, v.knows i)

  -- A sender that is not parked is accepted by an open valid channel; it ends up parked just if the
  -- buffer is bounded and, with this message, full.
  pub send_free :
      (i : ℕ) (m : M) (tx : ℕ) (c : Channel M)
      → IsValid c
      → connected c ≡ true
      → (c.sender_task i).is_parked ≡ false
      → let (r, k) = send i m tx c in
        (r ≡ sent tt)
        × (k.message_queue ≡ c.message_queue ++ record { message = m; tx = some tx } ∷ [])
        × ((k.sender_task i).is_parked ≡ is_full (length c.message_queue + 1) c)
  unfolding send poll_unparked connected enqueue inc_num_messages queue_push_and_signal park
  send_free i m tx c v o p = ground (arith, v.counted)
