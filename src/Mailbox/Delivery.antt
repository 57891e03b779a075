-- ===== src/Mailbox/Delivery.antt =====
-- actix/src/address/channel.rs: messages are delivered once each, in the order in which they were
-- accepted, over any sequence of operations.
use mathlib.Core.List.{append_assoc, append-nil}
use actix_pura.Prelude.{ℕ, ◌≡◌, sym, ap, ◌∙◌, Bool, true, some, none, List, [], ◌∷◌, ◌++◌, arith}
use actix_pura.Mailbox.Channel.{
  Envelope, Channel, SendResult, sent, Poll, ready, park, inc_num_messages, poll_unparked,
  queue_push_and_signal, enqueue, send, try_send, do_send, drop_sender,
}
use actix_pura.Mailbox.Receiver.{
  unpark_one, unpark_all, dec_num_messages, next_message, set_capacity, set_closed,
}

-- A call at one end of the channel.
pub data Call (M : Type 0) : Type 0 where
  sends : ℕ → M → ℕ → Call M
  tries : ℕ → M → Bool → Call M
  does : M → Call M
  receives : Call M
  resizes : ℕ → Call M
  drops closes : Call M

regroup {ℓ} :
    {A : Type ℓ} (q a b d e k z : List A)
    → q ++ a ≡ d ++ k
    → k ++ b ≡ e ++ z
    → q ++ (a ++ b) ≡ (d ++ e) ++ z
regroup q a b d e k z h g =
    sym (append_assoc q a b)
    ∙ ap (λ l. l ++ b) h
    ∙ append_assoc d k b
    ∙ ap (λ l. d ++ l) g
    ∙ sym (append_assoc d e z)

module _ {M : Type 0} where
  -- The message that a call added, and the envelope that it took out.
  abbrev accepted : Envelope M → SendResult M (Unit {0}) → List (Envelope M)
  accepted e (sent _) = e ∷ []
  accepted e _ = []

  abbrev delivered : Poll (Envelope M) → List (Envelope M)
  delivered (ready e) = e ∷ []
  delivered _ = []

  unfoldable pub call : Call M → Channel M → List (Envelope M) × List (Envelope M) × Channel M
  call (sends i m tx) c =
      let (r, k) = send i m tx c in (accepted (record { message = m; tx = some tx }) r, [], k)
  call (tries i m b) c =
      let (r, k) = try_send i m b c in (accepted (record { message = m; tx = none }) r, [], k)
  call (does m) c =
      let (r, k) = do_send m c in (accepted (record { message = m; tx = none }) r, [], k)
  call receives c = let (p, k) = next_message c in ([], delivered p, k)
  call (resizes cap) c = ([], [], set_capacity cap c)
  call drops c = ([], [], drop_sender c)
  call closes c = ([], [], set_closed c)

  -- All that was added, and all that was taken out, in order.
  unfoldable pub calls :
      List (Call M) → Channel M → List (Envelope M) × List (Envelope M) × Channel M
  calls [] c = ([], [], c)
  calls (o ∷ os) c =
      let (a, d, k) = call o c in let (a', d', k') = calls os k in (a ++ a', d ++ d', k')

  enqueue_fifo :
      (b : Bool) (i : ℕ) (e : Envelope M) (c : Channel M)
      → (enqueue b i e c).1.message_queue ≡ c.message_queue ++ accepted e (enqueue b i e c).0
  unfolding enqueue inc_num_messages queue_push_and_signal park
  enqueue_fifo b i e c = ground (arith, append-nil c.message_queue)

  poll_fifo : (i : ℕ) (c : Channel M) → (poll_unparked i c).1.message_queue ≡ c.message_queue
  unfolding poll_unparked
  poll_fifo i c = ground arith

  send_fifo :
      (i : ℕ) (m : M) (tx : ℕ) (c : Channel M)
      → let e : Envelope M = record { message = m; tx = some tx } in
        c.message_queue ++ accepted e (send i m tx c).0 ≡ (send i m tx c).1.message_queue
  unfolding send
  send_fifo i m tx c =
      let e : Envelope M = record { message = m; tx = some tx } in
      ground (
        arith,
        poll_fifo i c,
        append-nil c.message_queue,
        enqueue_fifo true i e (poll_unparked i c).1,
      )

  try_send_fifo :
      (i : ℕ) (m : M) (b : Bool) (c : Channel M)
      → let e : Envelope M = record { message = m; tx = none } in
        c.message_queue ++ accepted e (try_send i m b c).0 ≡ (try_send i m b c).1.message_queue
  unfolding try_send
  try_send_fifo i m b c =
      let e : Envelope M = record { message = m; tx = none } in
      ground
        (arith, poll_fifo i c, append-nil c.message_queue, enqueue_fifo b i e (poll_unparked i c).1)

  do_send_fifo :
      (m : M) (c : Channel M)
      → let e : Envelope M = record { message = m; tx = none } in
        c.message_queue ++ accepted e (do_send m c).0 ≡ (do_send m c).1.message_queue
  unfolding do_send inc_num_messages queue_push_and_signal
  do_send_fifo m c = ground (arith, append-nil c.message_queue)

  receive_fifo :
      (c : Channel M)
      → c.message_queue ++ [] ≡ delivered (next_message c).0 ++ (next_message c).1.message_queue
  unfolding next_message dec_num_messages unpark_one
  receive_fifo c = rw (append-nil c.message_queue) (ground arith)

  resize_fifo :
      (cap : ℕ) (c : Channel M) → c.message_queue ++ [] ≡ (set_capacity cap c).message_queue
  unfolding set_capacity unpark_all
  resize_fifo cap c = rw (append-nil c.message_queue) (ground arith)

  drop_fifo : (c : Channel M) → c.message_queue ++ [] ≡ (drop_sender c).message_queue
  unfolding drop_sender
  drop_fifo c = rw (append-nil c.message_queue) (ground arith)

  close_fifo : (c : Channel M) → c.message_queue ++ [] ≡ (set_closed c).message_queue
  unfolding set_closed
  close_fifo c = rw (append-nil c.message_queue) (ground arith)

  call_fifo :
      (o : Call M) (c : Channel M)
      → let (a, d, k) = call o c in c.message_queue ++ a ≡ d ++ k.message_queue
  unfolding call
  call_fifo (sends i m tx) c = send_fifo i m tx c
  call_fifo (tries i m b) c = try_send_fifo i m b c
  call_fifo (does m) c = do_send_fifo m c
  call_fifo receives c = receive_fifo c
  call_fifo (resizes cap) c = resize_fifo cap c
  call_fifo drops c = drop_fifo c
  call_fifo closes c = close_fifo c

  -- Over any sequence of sends, receptions, changes of capacity and closings, what was queued and
  -- what was accepted since, in that order, is what has been delivered, followed by what is in the
  -- queue.
  pub calls_fifo :
      (os : List (Call M)) (c : Channel M)
      → let (a, d, k) = calls os c in c.message_queue ++ a ≡ d ++ k.message_queue
  unfolding calls
  calls_fifo [] c = append-nil c.message_queue
  calls_fifo (o ∷ os) c =
      let (a, d, k) = call o c in
      let (a', d', z) = calls os k in
      regroup c.message_queue a a' d d' k.message_queue z.message_queue (call_fifo o c)
        (calls_fifo os k)
