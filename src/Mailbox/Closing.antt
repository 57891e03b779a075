-- ===== src/Mailbox/Closing.antt =====
-- actix/src/address/channel.rs: dropping the receiver ends, and closes the channel for good.
use actix_pura.Prelude.{ℕ, zero, suc, ◌<◌, ◌≡◌, ap, Bool, false, some, List, [], ◌∷◌, arith, length}
use actix_pura.Mailbox.State.{is_closed}
use actix_pura.Mailbox.Channel.{
  Envelope, Channel, ready, finished, closed, connected, inc_num_messages, poll_unparked, enqueue,
  send, try_send, do_send,
}
use actix_pura.Mailbox.Receiver.{
  unpark_all, unpark_one, dec_num_messages, next_message, set_closed, drain, drop_receiver,
}
use actix_pura.Mailbox.Invariant.{elem, IsValid, decode_close, decode_dec}
use actix_pura.Mailbox.Receiving.{set_closed-IsValid, unpark_all-IsValid, next_message-IsValid}

-- The receiver is gone: nothing is queued, nobody is parked, and the channel is not open.
pub record IsDropped {M : Type 0} (c : Channel M) : Type 0 where
  pub valid : IsValid c
  pub emptied : c.message_queue ≡ []
  pub unparked : c.parked_queue ≡ []
  pub shut : connected c ≡ false

module _ {M : Type 0} where
  received_shut :
      (e : Envelope M) (l : List (Envelope M)) (c : Channel M)
      → IsValid c
      → c.message_queue ≡ e ∷ l
      → connected c ≡ false
      → c.parked_queue ≡ []
      → let k = (next_message c).1 in
        (connected k ≡ false)
        × (k.parked_queue ≡ [])
        × (k.message_queue ≡ l)
        × ((next_message c).0 ≡ ready e)
  unfolding next_message dec_num_messages unpark_one connected
  received_shut e l c v q o p =
      let n = ap length q in
      let d = decode_dec c.state v.word (omega (arith, v.counted)) in ground (arith, d.2)

  last_look :
      (c : Channel M)
      → IsValid c
      → c.message_queue ≡ []
      → connected c ≡ false
      → next_message c ≡ (finished, c)
  unfolding next_message is_closed connected
  last_look c v q o = ground (arith, v.counted, ap length q)

  drain_lem :
      (k : ℕ) (l : List (Envelope M)) (c : Channel M)
      → IsValid c
      → c.message_queue ≡ l
      → connected c ≡ false
      → c.parked_queue ≡ []
      → length l < k
      → (c' : Channel M) × (drain k c ≡ some c') × IsDropped c'
  unfolding drain
  drain_lem zero l c v q o p h = elim h [ ]
  drain_lem (suc k) [] c v q o p h = (
    c,
    ground (arith, last_look c v q o),
    record { valid = v; emptied = q; unparked = p; shut = o },
  )
  drain_lem (suc k) (e ∷ l) c v q o p h =
      let r = received_shut e l c v q o p in
      let (c', ends, dropped) =
        drain_lem k l (next_message c).1 (next_message-IsValid c v) r.2 r.0 r.1 (omega arith) in
      (c', rw (r.3, drain) ends, dropped)

  start :
      (c : Channel M)
      → let k = unpark_all (set_closed c) in
        (connected k ≡ false) × (k.parked_queue ≡ []) × (k.message_queue ≡ c.message_queue)
  unfolding unpark_all set_closed connected
  start c = ground (arith, (decode_close c.state).2)

  -- With more fuel than messages, dropping the receiver of a valid channel ends: the queue is
  -- empty, every parked sender is released and the channel is closed.
  pub drop_receiver-IsDropped :
      (fuel : ℕ) (c : Channel M)
      → IsValid c
      → length c.message_queue < fuel
      → (c' : Channel M) × (drop_receiver fuel c ≡ some c') × IsDropped c'
  unfolding drop_receiver
  drop_receiver-IsDropped fuel c v h =
      let s = start c in
      drain_lem fuel c.message_queue (unpark_all (set_closed c))
        (unpark_all-IsValid (set_closed c) (set_closed-IsValid c v)) s.2 s.0 s.1 h

  -- Once the receiver is dropped, which leaves the channel closed and its queue empty, every way to
  -- send hands the message back as closed, and the queue stays empty.
  pub send_closed :
      (i : ℕ) (m : M) (tx : ℕ) (b : Bool) (c : Channel M)
      → IsDropped c
      → ((send i m tx c).0 ≡ closed m)
        × ((try_send i m b c).0 ≡ closed m)
        × (do_send m c ≡ (closed m, c))
        × ((send i m tx c).1.message_queue ≡ [])
        × ((try_send i m b c).1.message_queue ≡ [])
  unfolding send try_send do_send enqueue poll_unparked inc_num_messages connected
  send_closed i m tx b c d =
      let free = d.valid.parked i in
      let nobody = ap (elem i) d.unparked in let shut = d.shut in ground arith
