-- ===== src/Runtime/Delivering.antt =====
-- actix/src/context_impl.rs, actix/src/supervisor.rs: an actor is handed each message of its mailbox
-- once, in order, also when it is restarted.
use mathlib.Core.List.{append_assoc, append-nil}
use actix_pura.Prelude.{
  ℕ, zero, suc, ◌≡◌, refl, sym, ap, ◌∙◌, Bool, true, false, some, List, [], ◌∷◌, ◌++◌,
  if◌then◌else◌, ◌==◌, Option-cases, inl, inr, arith, ◌⊎◌, if_both,
}
use actix_pura.Mailbox.Channel.{
  Channel, Envelope, sent, closed, ready, do_send, inc_num_messages, queue_push_and_signal,
}
use actix_pura.Mailbox.Receiver.{
  set_capacity, unpark_all, poll_next, next_message, dec_num_messages, unpark_one,
}
use actix_pura.Runtime.Life.{Behaviour, Event, ContextFut, letter}
use actix_pura.Runtime.Poll.{poll, restart, supervise}
use actix_pura.Runtime.Keeping.{sent_events, KeptByCalls, Kept, perform_keeps}
use actix_pura.Runtime.Rounds.{poll_keeps}

module _ {M : Type 0} where
  -- The messages that the mailbox has accepted from the actor, and those that the actor was handed.
  abbrev accepted_by : Event M → List (Envelope M)
  accepted_by (Event.accepted e) = e ∷ []
  accepted_by _ = []

  abbrev handled_by : Event M → List (Envelope M)
  handled_by (Event.handled e) = e ∷ []
  handled_by _ = []

  unfoldable pub accepted_in : List (Event M) → List (Envelope M)
  accepted_in [] = []
  accepted_in (e ∷ es) = accepted_by e ++ accepted_in es

  unfoldable pub handled_in : List (Event M) → List (Envelope M)
  handled_in [] = []
  handled_in (e ∷ es) = handled_by e ++ handled_in es

  accepted_in-snoc :
      (es : List (Event M)) (e : Event M)
      → accepted_in (es ++ e ∷ []) ≡ accepted_in es ++ accepted_by e
  unfolding accepted_in
  accepted_in-snoc [] e = append-nil (accepted_by e)
  accepted_in-snoc (x ∷ es) e =
      rw (accepted_in-snoc es e)
        (sym (append_assoc (accepted_by x) (accepted_in es) (accepted_by e)))

  handled_in-snoc :
      (es : List (Event M)) (e : Event M)
      → handled_in (es ++ e ∷ []) ≡ handled_in es ++ handled_by e
  unfolding handled_in
  handled_in-snoc [] e = append-nil (handled_by e)
  handled_in-snoc (x ∷ es) e =
      rw (handled_in-snoc es e) (sym (append_assoc (handled_by x) (handled_in es) (handled_by e)))

  -- Of the messages `q` that were queued and those accepted since, in that order, the actor was
  -- handed the first ones, and the others are in the mailbox.
  abbrev pub InOrder : List (Envelope M) → Channel M → List (Event M) → Type 0
  InOrder q mb es = q ++ accepted_in es ≡ handled_in es ++ mb.message_queue

  -- What is no message changes nothing.
  InOrder-other :
      (q : List (Envelope M)) (e : Event M) (mb : Channel M) (es : List (Event M))
      → accepted_by e ≡ []
      → handled_by e ≡ []
      → InOrder q mb es
      → InOrder q mb (es ++ e ∷ [])
  InOrder-other q e mb es a h o =
      rw
        (
          accepted_in-snoc es e,
          handled_in-snoc es e,
          a,
          h,
          append-nil (accepted_in es),
          append-nil (handled_in es),
        )
        o

  do_send_cases :
      (m : M) (mb : Channel M)
      → (do_send m mb ≡ (closed m, mb))
        ⊎ ((mb' : Channel M) × (do_send m mb ≡ (sent tt, mb'))
            × (mb'.message_queue ≡ mb.message_queue ++ letter m ∷ []))
  unfolding do_send inc_num_messages queue_push_and_signal
  do_send_cases m mb = elim (Option-cases (inc_num_messages mb)) [
    | inl shut ↦ inl (ground arith)
    | inr ((n, mb'), counted) ↦
        inr (queue_push_and_signal (letter m) mb', ground arith, ground arith)
  ]

  sends_InOrder :
      (q : List (Envelope M)) (m : M) (mb : Channel M) (es : List (Event M))
      → InOrder q mb es
      → InOrder q (do_send m mb).1 (sent_events (do_send m mb).0 m es)
  sends_InOrder q m mb es o = elim (do_send_cases m mb) [
    | inl shut ↦ rw shut o
    | inr (mb', went, queued) ↦
        rw
          (
            went,
            accepted_in-snoc es (Event.accepted (letter m)),
            handled_in-snoc es (Event.accepted (letter m)),
            append-nil (handled_in es),
            queued,
          )
          (sym (append_assoc q (accepted_in es) (letter m ∷ []))
            ∙ ap (λ l. l ++ letter m ∷ []) o
            ∙ append_assoc (handled_in es) mb.message_queue (letter m ∷ []))
  ]

  next_queue :
      (c : Channel M) (e : Envelope M)
      → (poll_next c).0 ≡ ready e
      → c.message_queue ≡ e ∷ (poll_next c).1.message_queue
  unfolding poll_next next_message dec_num_messages unpark_one
  next_queue c e got = by_queue c.message_queue refl
    where
      by_queue :
          (l : List (Envelope M))
          → c.message_queue ≡ l
          → c.message_queue ≡ e ∷ (poll_next c).1.message_queue
      by_queue [] empty = absurd (ground arith)
      by_queue (x ∷ l) queued = ground arith

  idle_queue :
      (c : Channel M)
      → ((e : Envelope M) → ¬ ((poll_next c).0 ≡ ready e))
      → (poll_next c).1.message_queue ≡ c.message_queue
  unfolding poll_next next_message dec_num_messages unpark_one
  idle_queue c other = by_queue c.message_queue refl
    where
      by_queue :
          (l : List (Envelope M))
          → c.message_queue ≡ l
          → (poll_next c).1.message_queue ≡ c.message_queue
      by_queue [] empty = ground arith
      by_queue (x ∷ l) queued = absurd (other x (ground arith))

  resizes_InOrder :
      (q : List (Envelope M)) (n : ℕ) (mb : Channel M) (es : List (Event M))
      → InOrder q mb es
      → InOrder q (set_capacity n mb) es
  unfolding set_capacity unpark_all
  resizes_InOrder q n mb es o = ground arith

  InOrder-calls : (q : List (Envelope M)) → KeptByCalls (InOrder q)
  InOrder-calls q = record { sends = sends_InOrder q; resizes = resizes_InOrder q }

  InOrder-Kept : (q : List (Envelope M)) → Kept (InOrder q) (InOrder q)
  InOrder-Kept q = record {
    before = InOrder-calls q;
    after = InOrder-calls q;
    handles = λ e mb es got o.
        rw
          (
            accepted_in-snoc es (Event.handled e),
            handled_in-snoc es (Event.handled e),
            append-nil (accepted_in es),
          )
          (o
            ∙ ap (λ l. handled_in es ++ l) (next_queue mb e got)
            ∙ sym (append_assoc (handled_in es) (e ∷ []) (poll_next mb).1.message_queue));
    looks = λ mb es other o. rw (idle_queue mb other) o;
    waits = λ mb es o. InOrder-other q Event.waited mb es refl refl o;
    polls = λ h mb es o. InOrder-other q (Event.polled h) mb es refl refl o;
    asks = λ mb es o. InOrder-other q Event.stopping mb es refl refl o;
    stops = λ mb es o. InOrder-other q Event.stopped mb es refl refl o;
  }

-- As `InOrder`, of an actor and its mailbox.
abbrev pub IsInOrder : {A F M : Type 0} → List (Envelope M) → ContextFut A F M → Type 0
IsInOrder q w = InOrder q w.mailbox w.events

module _ {A F M : Type 0} (b : Behaviour A F M) (q : List (Envelope M)) where
  poll-IsInOrder :
      (k : ℕ) (w : ContextFut A F M) {x : Bool} {w' : ContextFut A F M}
      → poll b k w ≡ some (x, w')
      → IsInOrder q w
      → IsInOrder q w'
  poll-IsInOrder k w {x} {w'} e o =
      let kept =
        poll_keeps b (InOrder q) (InOrder q) (InOrder-Kept q) k w e (λ on. o)
          (λ new. InOrder-other q Event.started w.mailbox w.events refl refl o) in
      either x kept
    where
      either : (x : Bool) → (if x then IsInOrder q w' else IsInOrder q w') → IsInOrder q w'
      either true k = k
      either false k = k

  restart-IsInOrder : (w : ContextFut A F M) → IsInOrder q w → IsInOrder q (restart b w).1
  unfolding restart
  restart-IsInOrder w o =
      if_both (λ (r : Bool × ContextFut A F M). IsInOrder q r.1) (w.mailbox.num_senders == 0) o
        (perform_keeps (InOrder q) (InOrder-calls q) Event.restarting _ _ _
          (InOrder-other q Event.restarting w.mailbox w.events refl refl o))

  -- However often a supervised actor stops and is restarted, it is handed each message once, in the
  -- order of the mailbox: of the messages that were queued and those that the mailbox has accepted
  -- from the actor itself since, it was handed the first ones, and the others are still queued.
  pub supervise-IsInOrder :
      (k : ℕ) (w : ContextFut A F M) {x : Bool} {w' : ContextFut A F M}
      → supervise b k w ≡ some (x, w')
      → IsInOrder q w
      → IsInOrder q w'
  unfolding supervise
  supervise-IsInOrder zero w e o = cc
  supervise-IsInOrder (suc k) w {x} {w'} e o = elim (Option-cases (poll b k w)) [
    | inl out ↦ absurd (ground arith)
    | inr ((is_ready, u), polled) ↦
        let p = poll-IsInOrder k w polled o in
        let r = restart-IsInOrder u p in
        ground (arith, supervise-IsInOrder k (restart b u).1 {x = x} {w' = w'})
  ]
