-- ===== src/Runtime/Keeping.antt =====
-- actix/src/context_impl.rs: what holds of the mailbox and the events at every step holds after a
-- poll. `P` is kept until the actor is stopped, and `Q` holds from then on.
use actix_pura.Prelude.{ℕ, ◌≡◌, List, [], ◌∷◌, ◌++◌, arith}
use actix_pura.Mailbox.Channel.{Channel, Envelope, SendResult, sent, full, closed, ready, do_send}
use actix_pura.Mailbox.Receiver.{set_capacity, poll_next}
use actix_pura.Runtime.Life.{
  Call, Event, ContextFut, log_sent, letter, call, calls, perform, clean_handle, clean_handles,
}

module _ {M : Type 0} where
  -- What is sent is in the events.
  abbrev pub sent_events : SendResult M (Unit {0}) → M → List (Event M) → List (Event M)
  sent_events (sent _) m es = es ++ Event.accepted (letter m) ∷ []
  sent_events _ m es = es

  -- Kept by the calls that an actor makes on its context.
  pub record KeptByCalls (P : Channel M → List (Event M) → Type 0) : Type 0 where
    pub sends :
        (m : M) (mb : Channel M) (es : List (Event M))
        → P mb es
        → P (do_send m mb).1 (sent_events (do_send m mb).0 m es)
    pub resizes :
        (n : ℕ) (mb : Channel M) (es : List (Event M)) → P mb es → P (set_capacity n mb) es

  -- Kept by what the runtime calls on the actor.
  pub record Kept (P Q : Channel M → List (Event M) → Type 0) : Type 0 where
    pub before : KeptByCalls P
    pub after : KeptByCalls Q
    pub handles :
        (e : Envelope M) (mb : Channel M) (es : List (Event M))
        → (poll_next mb).0 ≡ ready e
        → P mb es
        → P (poll_next mb).1 (es ++ Event.handled e ∷ [])
    pub looks :
        (mb : Channel M) (es : List (Event M))
        → ((e : Envelope M) → ¬ ((poll_next mb).0 ≡ ready e))
        → P mb es
        → P (poll_next mb).1 es
    pub waits : (mb : Channel M) (es : List (Event M)) → P mb es → P mb (es ++ Event.waited ∷ [])
    pub polls :
        (h : ℕ) (mb : Channel M) (es : List (Event M)) → P mb es → P mb (es ++ Event.polled h ∷ [])
    pub asks : (mb : Channel M) (es : List (Event M)) → P mb es → P mb (es ++ Event.stopping ∷ [])
    pub stops : (mb : Channel M) (es : List (Event M)) → P mb es → Q mb (es ++ Event.stopped ∷ [])

module _ {A F M : Type 0} (P : Channel M → List (Event M) → Type 0) (h : KeptByCalls P) where
  abbrev Holds : ContextFut A F M → Type 0
  Holds w = P w.mailbox w.events

  sent_log :
      (r : SendResult M (Unit {0})) (m : M) (w : ContextFut A F M)
      → P w.mailbox (sent_events r m w.events)
      → Holds (log_sent r m w)
  sent_log (sent _) m w p = p
  sent_log (full _) m w p = p
  sent_log (closed _) m w p = p

  call_keeps : (c : Call F M) (w : ContextFut A F M) → Holds w → Holds (call c w)
  unfolding call
  call_keeps Call.stop w p = p
  call_keeps Call.terminate w p = p
  call_keeps (Call.spawn f) w p = p
  call_keeps (Call.wait f) w p = p
  call_keeps (Call.cancel_future n) w p = p
  call_keeps (Call.set_mailbox_capacity n) w p = h.resizes n w.mailbox w.events p
  call_keeps (Call.send m) w p =
      sent_log (do_send m w.mailbox).0 m (record w { mailbox = (do_send m w.mailbox).1 })
        (h.sends m w.mailbox w.events p)

  calls_keep : (cs : List (Call F M)) (w : ContextFut A F M) → Holds w → Holds (calls cs w)
  unfolding calls
  calls_keep [] w p = p
  calls_keep (c ∷ cs) w p = calls_keep cs (call c w) (call_keeps c w p)

  pub perform_keeps :
      (e : Event M) (a : A) (cs : List (Call F M)) (w : ContextFut A F M)
      → P w.mailbox (w.events ++ e ∷ [])
      → Holds (perform e a cs w)
  unfolding perform
  perform_keeps e a cs w p = calls_keep cs (record w { act = a; events = w.events ++ e ∷ [] }) p

  pub clean_keeps : (hs : List ℕ) (w : ContextFut A F M) → Holds w → Holds (clean_handles hs w)
  unfolding clean_handles clean_handle
  clean_keeps [] w p = p
  clean_keeps (x ∷ hs) w p = clean_keeps hs (clean_handle x w) (ground arith)
