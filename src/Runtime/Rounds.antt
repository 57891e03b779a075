-- ===== src/Runtime/Rounds.antt =====
-- actix/src/context_impl.rs: what is kept at every step is kept by a poll. `P` is kept until the actor
-- is stopped, and `Q` holds from then on.
use actix_pura.Prelude.{
  some_same, ℕ, zero, suc, ◌≡◌, ◌⊎◌, refl, ◌∙◌, Bool, true, false, Option, some, List, [], ◌∷◌,
  ◌++◌, if◌then◌else◌, Bool-cases, Option-cases, inl, inr, arith, if_both,
}
use mathlib.Core.Path.{subst}
use actix_pura.Mailbox.Channel.{Channel}
use actix_pura.Runtime.Life.{
  Behaviour, Running, Event, ContextFut, perform, merge, is_modified, alive,
}
use actix_pura.Runtime.Loops.{wait_loop, mailbox_loop, has_wait, item_loop}
use actix_pura.Runtime.Poll.{
  Turn, again, returned, start, finish, ask_to_stop, run_again, has_more, truncate_handles,
  check_state, end_round, run_round, round, rounds, poll,
}
use actix_pura.Runtime.Keeping.{Kept, perform_keeps}
use actix_pura.Runtime.Looping.{
  merge_keeps, cleaned_keeps, wait_loop_keeps, mailbox_loop_keeps, item_loop_keeps,
}

Turn-cases :
    {A F M : Type 0} (t : Turn A F M)
    → ((w : ContextFut A F M) × (t ≡ again w))
      ⊎ ((x : Bool) × (w : ContextFut A F M) × (t ≡ returned x w))
Turn-cases (again w) = inl (w, refl)
Turn-cases (returned x w) = inr (x, w, refl)

module _ {A F M : Type 0} (b : Behaviour A F M) (P Q : Channel M → List (Event M) → Type 0)
    (h : Kept P Q) where
  abbrev Ok : ContextFut A F M → Type 0
  Ok w = P w.mailbox w.events

  abbrev Over : ContextFut A F M → Type 0
  Over w = Q w.mailbox w.events

  TurnOk : Turn A F M → Type 0
  TurnOk (again w) = Ok w
  TurnOk (returned false w) = Ok w
  TurnOk (returned true w) = Over w

  finish_keeps : (w : ContextFut A F M) → Ok w → TurnOk (finish b w)
  unfolding finish TurnOk
  finish_keeps w p =
      let r = b.stopped w.act w.parts in
      perform_keeps Q h.after Event.stopped r.0 r.1 w (h.stops w.mailbox w.events p)

  ask_keeps :
      (go_on : ContextFut A F M → Turn A F M) (w : ContextFut A F M)
      → ((u : ContextFut A F M) → Ok u → TurnOk (go_on u))
      → Ok w
      → TurnOk (ask_to_stop b go_on w)
  unfolding ask_to_stop
  ask_keeps go_on w keep p = go (b.stopping w.act w.parts).0 refl
    where
      asked :
          Ok (perform Event.stopping (b.stopping w.act w.parts).1 (b.stopping w.act w.parts).2 w)
      asked = perform_keeps P h.before Event.stopping _ _ w (h.asks w.mailbox w.events p)

      go : (r : Running) → (b.stopping w.act w.parts).0 ≡ r → TurnOk (ask_to_stop b go_on w)
      go Running.stop e = rw (e, ask_to_stop) (finish_keeps _ asked)
      go Running.continue e = rw (e, ask_to_stop) (keep _ asked)

  check_keeps : (w : ContextFut A F M) → Ok w → TurnOk (check_state b w)
  unfolding check_state TurnOk run_again
  check_keeps w p =
      if_both TurnOk w.parts.flags.running
        (if_both TurnOk (alive w) p (ask_keeps (returned false) w (λ u k. k) p))
        (if_both TurnOk w.parts.flags.stopping (ask_keeps run_again w (λ u k. k) p)
          (if_both TurnOk w.parts.flags.stopped (finish_keeps w p) p))

  truncate_keeps : (w : ContextFut A F M) → Ok w → Ok (truncate_handles w)
  unfolding truncate_handles
  truncate_keeps w p = ground arith

  end_keeps : (w : ContextFut A F M) → Ok w → TurnOk (end_round b w)
  unfolding end_round TurnOk
  end_keeps w p =
      let w' = record w { parts = record w.parts { current_handle = 0 } } in
      let merged = merge_keeps b P Q h w' p in
      elim (Bool-cases (has_more w')) [
        | inl more ↦ rw more (truncate_keeps (merge w') merged)
        | inr no_more ↦ rw no_more (check_keeps (merge w') merged)
      ]

  run_round_keeps :
      (k : ℕ) (w : ContextFut A F M) {t : Turn A F M} → run_round b k w ≡ some t → Ok w → TurnOk t
  unfolding run_round TurnOk
  run_round_keeps k w {t} e p = elim (Option-cases (mailbox_loop b k w)) [
    | inl out ↦ absurd (ground arith)
    | inr (w1, received) ↦
        let p1 = mailbox_loop_keeps b P Q h k w received p in
        elim (Bool-cases (has_wait w1)) [
          | inl waits ↦
              let same : some (again w1) ≡ some t = ground arith in subst TurnOk (some_same same) p1
          | inr free ↦ elim (Option-cases (item_loop b k 0 w1)) [
            | inl out ↦ absurd (ground arith)
            | inr ((outer, w2), polled) ↦
                let p2 = item_loop_keeps b P Q h k 0 w1 polled p1 in
                elim (Bool-cases outer) [
                  | inl more ↦
                      let same : some (again w2) ≡ some t = ground arith in
                      subst TurnOk (some_same same) p2
                  | inr ends ↦
                      let same : some (end_round b w2) ≡ some t = ground arith in
                      subst TurnOk (some_same same) (end_keeps w2 p2)
                ]
          ]
        ]
  ]

  round_keeps :
      (k : ℕ) (w : ContextFut A F M) {t : Turn A F M} → round b k w ≡ some t → Ok w → TurnOk t
  unfolding round TurnOk
  round_keeps k w {t} e p = elim (Option-cases (wait_loop b k w)) [
    | inl out ↦ absurd (ground arith)
    | inr ((go_on, w1), waited) ↦
        let p1 = wait_loop_keeps b P Q h k w waited p in
        elim (Bool-cases go_on) [
          | inl on ↦ run_round_keeps k w1 (ground arith) p1
          | inr stuck ↦
              let same : some (returned false w1) ≡ some t = ground arith in
              subst TurnOk (some_same same) p1
        ]
  ]

  rounds_keep :
      (k : ℕ) (w : ContextFut A F M) {x : Bool} {w' : ContextFut A F M}
      → rounds b k w ≡ some (x, w')
      → Ok w
      → TurnOk (returned x w')
  unfolding rounds TurnOk
  rounds_keep zero w e p = cc
  rounds_keep (suc k) w {x} {w'} e p = elim (Option-cases (round b k w)) [
    | inl out ↦ absurd (ground arith)
    | inr (t, came) ↦ elim (Turn-cases t) [
      | inl (w1, more) ↦
          rounds_keep k w1 (ground arith) (subst TurnOk more (round_keeps k w came p))
      | inr (y, w1, ends) ↦
          let same : ◌≡◌ {A = Option (Bool × ContextFut A F M)} (some (y, w1)) (some (x, w')) =
            ground arith in
          let as_turn : returned y w1 ≡ returned x w' = cc in
          subst TurnOk (ends ∙ as_turn) (round_keeps k w came p)
    ]
  ]

  start_keeps :
      (w : ContextFut A F M) → P w.mailbox (w.events ++ Event.started ∷ []) → Ok (start b w)
  unfolding start merge
  start_keeps w p =
      let w' = record w {
        parts = record w.parts { flags = record w.parts.flags { started = true } };
      } in
      let r = b.started w'.act w'.parts in
      let u = perform Event.started r.0 r.1 w' in
      let kept : Ok u = perform_keeps P h.before Event.started r.0 r.1 w' p in
      if_both Ok (is_modified u) (cleaned_keeps b P Q h (merge u) kept) kept

  -- Where the actor has not started yet, the poll starts it.
  pub poll_keeps :
      (k : ℕ) (w : ContextFut A F M) {x : Bool} {w' : ContextFut A F M}
      → poll b k w ≡ some (x, w')
      → (w.parts.flags.started ≡ true → Ok w)
      → (w.parts.flags.started ≡ false → P w.mailbox (w.events ++ Event.started ∷ []))
      → if x then Over w' else Ok w'
  unfolding poll TurnOk
  poll_keeps k w {x} {w'} e p q = elim (Bool-cases w.parts.flags.started) [
    | inl on ↦ by_answer x w' (rounds_keep k w (ground arith) (p on))
    | inr new ↦ by_answer x w' (rounds_keep k (start b w) (ground arith) (start_keeps w (q new)))
  ]
    where
      by_answer :
          (x : Bool) (w' : ContextFut A F M) → TurnOk (returned x w') → if x then Over w' else Ok w'
      by_answer true w' t = t
      by_answer false w' t = t
