-- ===== src/Broker/Issuing.antt =====
-- actix-broker/src/broker.rs: an issued message is delivered to every other subscriber whose mailbox is
-- open, and the subscriptions that are closed are dropped.
use mathlib.Core.List.{append_assoc, append-nil}
use actix_pura.Prelude.{
  ℕ, ◌≡◌, refl, sym, ap, ◌∙◌, Bool, none, some, List, [], ◌∷◌, ◌++◌, ◌==◌, if◌then◌else◌, filter,
  All, Bool-cases, inl, inr, arith,
}
use actix_pura.Broker.Subscriptions.{
  get, put, Subscription, Broker, Mailboxes, take_subs, get_previous_msg, set_msg, issue_one,
  issue_loop, issue_to, issue_async,
}
use actix_pura.Broker.Offering.{
  get-put, filter-cons, filter_typed, notice, is_open, Released, OpenAs, keeps, goes, copies,
  update-OpenAs, offer_queue, offer_kept, add_sub_at,
}

module _ {V : Type 0} where
  issue_one_lem :
      (opens : ℕ → Bool) (t : ℕ) (v : V) (id : ℕ) (s : Subscription) (b : Broker V)
      (mbs : Mailboxes V) (old : List Subscription)
      → OpenAs opens mbs
      → s.msg_type ≡ t
      → get t b.sub_map ≡ some old
      → let w = issue_one t v id s (b, mbs) in
        OpenAs opens w.1
        × (get t w.0.sub_map ≡ some (old ++ (if keeps opens id s then s ∷ [] else [])))
        × ((a : ℕ)
            → (w.1 a).message_queue
              ≡ (mbs a).message_queue ++ (if goes opens id a s then notice v ∷ [] else []))
  unfolding issue_one
  issue_one_lem opens t v id s b mbs old o typed at =
      let back = add_sub_at t s b old typed at in
      let kept = offer_kept opens v s.recipient mbs o in
      elim (Bool-cases (s.subscriber == id)) [
        | inl own ↦ (rw own o, rw own back, λ a. rw own (sym (append-nil (mbs a).message_queue)))
        | inr other ↦ (
          rw other (update-OpenAs opens v s.recipient mbs o),
          rw (other, kept)
              (elim (Bool-cases (opens s.recipient.actor)) [
                | inl on ↦ rw on back
                | inr off ↦ rw off (at ∙ ap some (sym (append-nil old)))
              ]),
          λ a. rw other (offer_queue opens v s.recipient mbs a o),
        )
      ]

  copies-cons :
      (v : V) (p : Subscription → Bool) (s : Subscription) (l : List Subscription)
      → (if p s then notice v ∷ [] else []) ++ copies v (filter p l) ≡ copies v (filter p (s ∷ l))
  copies-cons v p s l = elim (Bool-cases (p s)) [
    | inl goes ↦ rw goes refl
    | inr stays ↦ rw stays refl
  ]

  issue_loop_lem :
      (opens : ℕ → Bool) (t : ℕ) (v : V) (id : ℕ) (l : List Subscription) (b : Broker V)
      (mbs : Mailboxes V) (old : List Subscription)
      → OpenAs opens mbs
      → All (λ s. s.msg_type ≡ t) l
      → get t b.sub_map ≡ some old
      → let w = issue_loop t v id l (b, mbs) in
        (get t w.0.sub_map ≡ some (old ++ filter (keeps opens id) l))
        × ((a : ℕ)
            → (w.1 a).message_queue
              ≡ (mbs a).message_queue ++ copies v (filter (goes opens id a) l))
  unfolding issue_loop
  issue_loop_lem opens t v id [] b mbs old o typed at =
      (rw (append-nil old) at, λ a. sym (append-nil (mbs a).message_queue))
  issue_loop_lem opens t v id (s ∷ l) b mbs old o typed at =
      let (b1, mbs1) = issue_one t v id s (b, mbs) in
      let (o1, at1, grown) = issue_one_lem opens t v id s b mbs old o typed.0 at in
      let (subs, queues) = issue_loop_lem opens t v id l b1 mbs1 _ o1 typed.1 at1 in
      (
        subs
            ∙ ap some
                (append_assoc old _ _ ∙ ap (λ x. old ++ x) (filter-cons (keeps opens id) s l)),
        λ a.
            queues a
            ∙ ap (λ x. x ++ copies v (filter (goes opens id a) l)) (grown a)
            ∙ append_assoc (mbs a).message_queue _ _
            ∙ ap (λ x. (mbs a).message_queue ++ x) (copies-cons v (goes opens id a) s l),
      )

  pub previous-set_msg :
      (s t : ℕ) (v : V) (b : Broker V)
      → get_previous_msg s (set_msg t v b) ≡ (if s == t then some v else get_previous_msg s b)
  unfolding get_previous_msg set_msg
  previous-set_msg s t v b = ground (arith, get-put t s (t, v) b.msg_map)

  take_subs_lem :
      (t : ℕ) (b : Broker V) (l : List Subscription)
      → get t b.sub_map ≡ some l
      → All (λ s. s.msg_type ≡ t) l
      → take_subs t b ≡ (some l, record b { sub_map = put t [] b.sub_map })
  unfolding take_subs
  take_subs_lem t b l at typed = rw (at, take_subs) (rw (filter_typed t l typed) refl)

  pub some_issued :
      (t : ℕ) (v : V) (id : ℕ) (b : Broker V) (mbs : Mailboxes V) (l : List Subscription)
      → get t b.sub_map ≡ some l
      → All (λ s. s.msg_type ≡ t) l
      → let w = issue_loop t v id l (record b { sub_map = put t [] b.sub_map }, mbs) in
        issue_async t v id (b, mbs) ≡ (set_msg t v w.0, w.1)
  unfolding issue_async issue_to
  some_issued t v id b mbs l at typed = ap (issue_to t v id mbs) (take_subs_lem t b l at typed)

  pub none_issued :
      (t : ℕ) (v : V) (id : ℕ) (b : Broker V) (mbs : Mailboxes V)
      → get t b.sub_map ≡ none
      → issue_async t v id (b, mbs) ≡ (set_msg t v b, mbs)
  unfolding issue_async issue_to take_subs
  none_issued t v id b mbs e = ground arith

  -- When a message is issued, a copy of it is added to the mailbox of every subscription to its
  -- type whose mailbox is open and whose subscriber is of another type than the issuer; the
  -- subscriptions that are closed are dropped, but for those of the issuer's type, and the others
  -- stay in their order; and the message is remembered. The boxes hold the types that they are
  -- filed under, and no sender of a closed mailbox is parked.
  pub issue_async_lem :
      (t : ℕ) (v : V) (id : ℕ) (b : Broker V) (mbs : Mailboxes V) (l : List Subscription)
      → get t b.sub_map ≡ some l
      → All (λ s. s.msg_type ≡ t) l
      → ((a : ℕ) → Released (mbs a))
      → let w = issue_async t v id (b, mbs) in
        let opens = λ (a : ℕ). is_open (mbs a) in
        (get t w.0.sub_map ≡ some (filter (keeps opens id) l))
        × ((a : ℕ)
            → (w.1 a).message_queue
              ≡ (mbs a).message_queue ++ copies v (filter (goes opens id a) l))
        × (get_previous_msg t w.0 ≡ some v)
  unfolding set_msg
  issue_async_lem t v id b mbs l at typed free =
      let b' : Broker V = record b { sub_map = put t [] b.sub_map } in
      let emptied : get t b'.sub_map ≡ some [] = rw (get-put t t [] b.sub_map) (ground arith) in
      let (subs, queues) =
        issue_loop_lem (λ a. is_open (mbs a)) t v id l b' mbs [] (λ a. (refl, free a)) typed
          emptied in
      rw (some_issued t v id b mbs l at typed)
        (subs, queues, rw (previous-set_msg t t v (issue_loop t v id l (b', mbs)).0) (ground arith))
