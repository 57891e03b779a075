-- ===== src/Runtime/Lifecycle.antt =====
-- actix/src/context_impl.rs, actix/src/supervisor.rs: what the runtime calls on an actor follows the
-- life cycle of an actor, as an automaton over the events.
use actix_pura.Prelude.{
  ℕ, zero, suc, ◌≡◌, refl, Bool, true, false, Option, none, some, List, [], ◌∷◌, ◌++◌,
  if◌then◌else◌, ◌==◌, Bool-cases, Option-cases, inl, inr, arith,
}
use mathlib.Core.Path.{subst}
use actix_pura.Mailbox.Channel.{Channel, SendResult, sent, full, closed, do_send}
use actix_pura.Runtime.Context.{stop_parts, restart_parts}
use actix_pura.Runtime.Life.{
  Behaviour, Call, Event, ContextFut, letter, log_sent, call, calls, perform,
}
use actix_pura.Runtime.Poll.{poll, restart, supervise}
use actix_pura.Runtime.Keeping.{sent_events, KeptByCalls, Kept, perform_keeps}
use actix_pura.Runtime.Rounds.{poll_keeps}

-- An actor is idle until it is started, and over when it has been stopped.
pub data Phase : Type 0 where
  idle running over : Phase

as_it_is : (o : Option Phase) → (elim o [ none ↦ none | some p ↦ some p ]) ≡ o
as_it_is none = refl
as_it_is (some p) = refl

module _ {M : Type 0} where
  -- The phase after an event, where the event may happen.
  abbrev pub step : Event M → Phase → Option Phase
  step Event.started Phase.idle = some Phase.running
  step Event.started _ = none
  step Event.waited Phase.running = some Phase.running
  step Event.waited _ = none
  step Event.stopping Phase.running = some Phase.running
  step Event.stopping _ = none
  step Event.stopped Phase.running = some Phase.over
  step Event.stopped _ = none
  step Event.restarting Phase.over = some Phase.idle
  step Event.restarting _ = none
  step (Event.handled e) Phase.running = some Phase.running
  step (Event.handled e) _ = none
  step (Event.polled h) Phase.running = some Phase.running
  step (Event.polled h) _ = none
  step (Event.accepted e) p = some p

  -- The phase after events that follow the life cycle.
  unfoldable pub phase_from : Phase → List (Event M) → Option Phase
  phase_from p [] = some p
  phase_from p (e ∷ es) = elim (step e p) [ none ↦ none | some p' ↦ phase_from p' es ]

  abbrev pub phase : List (Event M) → Option Phase
  phase es = phase_from Phase.idle es

  phase-snoc :
      (p : Phase) (es : List (Event M)) (e : Event M) {p' : Phase}
      → phase_from p es ≡ some p'
      → phase_from p (es ++ e ∷ []) ≡ step e p'
  unfolding phase_from
  phase-snoc p [] e {p'} h =
      let same : p ≡ p' = cc in
      subst (λ z. phase_from p (e ∷ []) ≡ step e z) same (as_it_is (step e p))
  phase-snoc p (x ∷ es) e {p'} h = elim (Option-cases (step x p)) [
    | inl barred ↦ absurd (ground arith)
    | inr (p1, goes) ↦ rw (goes, phase_from) (phase-snoc p1 es e (ground arith))
  ]

  abbrev InPhase : Phase → Channel M → List (Event M) → Type 0
  InPhase p mb es = phase es ≡ some p

  sends_InPhase :
      (p : Phase) (r : SendResult M (Unit {0})) (m : M) (es : List (Event M))
      → phase es ≡ some p
      → phase (sent_events r m es) ≡ some p
  sends_InPhase p (sent _) m es h = phase-snoc Phase.idle es (Event.accepted (letter m)) h
  sends_InPhase p (full _) m es h = h
  sends_InPhase p (closed _) m es h = h

  InPhase-calls : (p : Phase) → KeptByCalls (InPhase p)
  InPhase-calls p = record {
    sends = λ m mb es h. sends_InPhase p (do_send m mb).0 m es h;
    resizes = λ n mb es h. h;
  }

  Phases-Kept : Kept (InPhase Phase.running) (InPhase Phase.over)
  Phases-Kept = record {
    before = InPhase-calls Phase.running;
    after = InPhase-calls Phase.over;
    handles = λ e mb es got h. phase-snoc Phase.idle es (Event.handled e) h;
    looks = λ mb es other h. h;
    waits = λ mb es h. phase-snoc Phase.idle es Event.waited h;
    polls = λ n mb es h. phase-snoc Phase.idle es (Event.polled n) h;
    asks = λ mb es h. phase-snoc Phase.idle es Event.stopping h;
    stops = λ mb es h. phase-snoc Phase.idle es Event.stopped h;
  }

-- The flag says whether the actor has been started.
abbrev pub Begins : {A F M : Type 0} → ContextFut A F M → Type 0
Begins w = phase w.events ≡ some (if w.parts.flags.started then Phase.running else Phase.idle)

-- An answer of `Ready` says that the actor has been stopped.
abbrev pub phase_of : Bool → Phase
phase_of is_ready = if is_ready then Phase.over else Phase.running

module _ {A F M : Type 0} (b : Behaviour A F M) where
  poll_phase :
      (k : ℕ) (w : ContextFut A F M) {x : Bool} {w' : ContextFut A F M}
      → poll b k w ≡ some (x, w')
      → Begins w
      → phase w'.events ≡ some (phase_of x)
  poll_phase k w {x} {w'} e o = either x (
      poll_keeps b _ _ Phases-Kept k w e (λ on. ground arith)
        (λ new. phase-snoc Phase.idle w.events Event.started {p' = Phase.idle} (ground arith)))
    where
      either :
          (x : Bool)
          → (if x then phase w'.events ≡ some Phase.over else phase w'.events ≡ some Phase.running)
          → phase w'.events ≡ some (phase_of x)
      either true k = k
      either false k = k

  -- No call on the context marks the actor as started.
  call_unstarted :
      (c : Call F M) (w : ContextFut A F M)
      → w.parts.flags.started ≡ false
      → (call c w).parts.flags.started ≡ false
  unfolding call stop_parts
  call_unstarted (Call.send m) w h = log_unstarted (do_send m w.mailbox).0
    where
      log_unstarted :
          (r : SendResult M (Unit {0}))
          → (log_sent r m (record w { mailbox = (do_send m w.mailbox).1 })).parts.flags.started
            ≡ false
      log_unstarted (sent _) = h
      log_unstarted (full _) = h
      log_unstarted (closed _) = h
  call_unstarted Call.stop w h = ground arith
  call_unstarted Call.terminate w h = refl
  call_unstarted (Call.spawn f) w h = h
  call_unstarted (Call.wait f) w h = h
  call_unstarted (Call.cancel_future n) w h = h
  call_unstarted (Call.set_mailbox_capacity n) w h = h

  calls_unstarted :
      (cs : List (Call F M)) (w : ContextFut A F M)
      → w.parts.flags.started ≡ false
      → (calls cs w).parts.flags.started ≡ false
  unfolding calls
  calls_unstarted [] w h = h
  calls_unstarted (c ∷ cs) w h = calls_unstarted cs (call c w) (call_unstarted c w h)

  restarted_Begins :
      (a : A) (cs : List (Call F M)) (w : ContextFut A F M)
      → phase w.events ≡ some Phase.over
      → w.parts.flags.started ≡ false
      → Begins (perform Event.restarting a cs w)
  unfolding perform
  restarted_Begins a cs w h new =
      let flag =
        calls_unstarted cs (record w { act = a; events = w.events ++ Event.restarting ∷ [] }) new in
      rw flag (
        perform_keeps (InPhase Phase.idle) (InPhase-calls Phase.idle) Event.restarting a cs w
          (phase-snoc Phase.idle w.events Event.restarting h))

  restart-Begins :
      (w : ContextFut A F M)
      → phase w.events ≡ some Phase.over
      → (restart b w).0 ≡ true
      → Begins (restart b w).1
  unfolding restart perform restart_parts
  restart-Begins w h r = elim (Bool-cases (w.mailbox.num_senders == 0)) [
    | inl alone ↦ absurd (ground arith)
    | inr held ↦
        rw (held, restart)
          (restarted_Begins _ _ (record w { wait = []; items = []; parts = restart_parts w.parts })
            h refl)
  ]

  not_restarted :
      (w : ContextFut A F M)
      → (restart b w).0 ≡ false
      → ((restart b w).1 ≡ w) × (w.mailbox.num_senders ≡ 0)
  unfolding restart
  not_restarted w r = elim (Bool-cases (w.mailbox.num_senders == 0)) [
    | inl alone ↦ (rw (alone, restart) refl, ground arith)
    | inr held ↦ absurd (ground arith)
  ]

  -- Let the supervisor be polled once, in a state in which the flag STARTED tells whether the actor
  -- has been started since it began or was last restarted. If the poll comes to an end, then over
  -- any number of restarts in it what is called on the actor follows the life cycle: it is started
  -- once before anything else, unless it had been, then messages and futures are run, until it is
  -- stopped once; nothing is run after that but a restart, which begins anew. The poll is ready
  -- only when the actor is over and its mailbox has no senders left, and otherwise leaves the actor
  -- running. That the flag still tells so afterwards is not claimed.
  pub supervise_lives :
      (k : ℕ) (w : ContextFut A F M) {x : Bool} {w' : ContextFut A F M}
      → supervise b k w ≡ some (x, w')
      → Begins w
      → (phase w'.events ≡ some (phase_of x)) × (x ≡ true → w'.mailbox.num_senders ≡ 0)
  unfolding supervise
  supervise_lives zero w e o = cc
  supervise_lives (suc k) w {x} {w'} e o = elim (Option-cases (poll b k w)) [
    | inl out ↦ absurd (ground arith)
    | inr ((is_ready, u), polled) ↦
        let p = poll_phase k w polled o in
        elim (Bool-cases is_ready) [
          | inr stays ↦
              let same : ◌≡◌ {A = Option (Bool × ContextFut A F M)} (some (false, u))
                  (some (x, w')) =
                ground arith in
              ground arith
          | inl ends ↦ elim (Bool-cases (restart b u).0) [
            | inl restarted ↦
                supervise_lives k (restart b u).1 {x = x} {w' = w'} (ground arith)
                  (restart-Begins u (ground arith) restarted)
            | inr alone ↦ let (unchanged, none_left) = not_restarted u alone in ground arith
          ]
        ]
  ]
