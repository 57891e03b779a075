-- ===== src/Runtime/Looping.antt =====
-- actix/src/context_impl.rs: what is kept at every step is kept by the loops over the waiting futures,
-- the messages and the items.
use actix_pura.Prelude.{
  some_same, ℕ, zero, suc, ◌+◌, ◌≡◌, ◌⊎◌, refl, sym, ◌∙◌, Bool, false, some, List, last, get_elem?,
  Bool-cases, Option-cases, inl, inr, arith,
}
use mathlib.Core.Path.{subst}
use actix_pura.Mailbox.Channel.{Channel, Envelope, Poll, ready, finished, pending}
use actix_pura.Mailbox.Receiver.{poll_next}
use actix_pura.Runtime.Context.{waiting}
use actix_pura.Runtime.Life.{Behaviour, Event, ContextFut, merge, clean_canceled_handle}
use actix_pura.Runtime.Loops.{
  poll_wait, wait_loop, handle_message, mailbox_loop, put_item, poll_item, move_last, item_loop,
}
use actix_pura.Runtime.Keeping.{Kept, perform_keeps, clean_keeps}

Poll-cases : {E : Type 0} (x : Poll E) → ((e : E) × (x ≡ ready e)) ⊎ ((e : E) → ¬ (x ≡ ready e))
Poll-cases (ready e) = inl (e, refl)
Poll-cases finished = inr (λ e bad. cc)
Poll-cases pending = inr (λ e bad. cc)

module _ {A F M : Type 0} (b : Behaviour A F M) (P Q : Channel M → List (Event M) → Type 0)
    (h : Kept P Q) where
  abbrev pub Ok : ContextFut A F M → Type 0
  Ok w = P w.mailbox w.events

  abbrev pub Over : ContextFut A F M → Type 0
  Over w = Q w.mailbox w.events

  pub merge_keeps : (w : ContextFut A F M) → Ok w → Ok (merge w)
  unfolding merge
  merge_keeps w p = p

  pub cleaned_keeps : (w : ContextFut A F M) → Ok w → Ok (clean_canceled_handle w)
  unfolding clean_canceled_handle
  cleaned_keeps w p = clean_keeps P h.before w.parts.cancelled _ p

  poll_wait_keeps : (f : F) (w : ContextFut A F M) → Ok w → Ok (poll_wait b f w).1
  unfolding poll_wait merge
  poll_wait_keeps f w p =
      let r = b.poll f w.act w.parts in
      ground (arith, perform_keeps P h.before Event.waited r.1 r.2 w (h.waits w.mailbox w.events p))

  pub wait_loop_keeps :
      (k : ℕ) (w : ContextFut A F M) {x : Bool} {w' : ContextFut A F M}
      → wait_loop b k w ≡ some (x, w')
      → Ok w
      → Ok w'
  unfolding wait_loop
  wait_loop_keeps zero w e p = cc
  wait_loop_keeps (suc k) w {x} {w'} e p = elim (Option-cases (last w.wait)) [
    | inl idle ↦ ground arith
    | inr (f, waits) ↦
        ground
          (arith, poll_wait_keeps f w p, wait_loop_keeps k (poll_wait b f w).1 {x = x} {w' = w'})
  ]

  -- With nothing to receive the loop ends.
  mailbox_idle :
      (k : ℕ) (w : ContextFut A F M)
      → waiting w.parts ≡ false
      → ((e : Envelope M) → ¬ ((poll_next w.mailbox).0 ≡ ready e))
      → mailbox_loop b (suc k) w ≡ some (record w { mailbox = (poll_next w.mailbox).1 })
  unfolding mailbox_loop
  mailbox_idle k w free other = go (poll_next w.mailbox).0 refl
    where
      go :
          (x : Poll (Envelope M))
          → (poll_next w.mailbox).0 ≡ x
          → mailbox_loop b (suc k) w ≡ some (record w { mailbox = (poll_next w.mailbox).1 })
      go (ready m) got = absurd (other m got)
      go finished got = ground arith
      go pending got = ground arith

  pub mailbox_loop_keeps :
      (k : ℕ) (w : ContextFut A F M) {w' : ContextFut A F M}
      → mailbox_loop b k w ≡ some w'
      → Ok w
      → Ok w'
  unfolding mailbox_loop handle_message
  mailbox_loop_keeps zero w e p = cc
  mailbox_loop_keeps (suc k) w {w'} e p = elim (Bool-cases (waiting w.parts)) [
    | inl stuck ↦ ground arith
    | inr free ↦
        let mb = (poll_next w.mailbox).1 in
        elim (Poll-cases (poll_next w.mailbox).0) [
          | inl (m, got) ↦
              let r = b.handle m w.act w.parts in
              let kept : Ok (handle_message b m mb w) =
                perform_keeps P h.before (Event.handled m) r.0 r.1 (record w { mailbox = mb })
                  (h.handles m w.mailbox w.events got p) in
              ground (arith, mailbox_loop_keeps k (handle_message b m mb w) {w' = w'})
          | inr other ↦
              let kept = h.looks w.mailbox w.events other p in
              let same = mailbox_idle k w free other in subst Ok (some_same (sym same ∙ e)) kept
        ]
  ]

  poll_item_keeps : (i n : ℕ) (f : F) (w : ContextFut A F M) → Ok w → Ok (poll_item b i n f w).1
  unfolding poll_item merge put_item
  poll_item_keeps i n f w p =
      let w' = record w { parts = record w.parts { current_handle = n } } in
      let r = b.poll f w'.act w'.parts in
      ground (
        arith,
        perform_keeps P h.before (Event.polled n) r.1 r.2 w' (h.polls n w.mailbox w.events p),
      )

  move_last_keeps : (i : ℕ) (w : ContextFut A F M) → Ok w → Ok (move_last i w)
  unfolding move_last
  move_last_keeps i w p = ground arith

  pub item_loop_keeps :
      (k i : ℕ) (w : ContextFut A F M) {x : Bool} {w' : ContextFut A F M}
      → item_loop b k i w ≡ some (x, w')
      → Ok w
      → Ok w'
  unfolding item_loop
  item_loop_keeps zero i w e p = cc
  item_loop_keeps (suc k) i w {x} {w'} e p = elim (Option-cases (get_elem? w.items i)) [
    | inl idle ↦ ground arith
    | inr ((n, f), here) ↦
        let u = (poll_item b i n f w).1 in
        ground (
          arith,
          poll_item_keeps i n f w p,
          cleaned_keeps u,
          move_last_keeps i u,
          item_loop_keeps k i u {x = x} {w' = w'},
          item_loop_keeps k (i + 1) u {x = x} {w' = w'},
        )
  ]
