-- ===== src/Broker/Offering.antt =====
-- actix-broker/src/broker.rs: what the offer of a message makes of the mailboxes.
use mathlib.Core.List.{append-nil}
use actix_pura.Prelude.{
  ℕ, ◌≡◌, ◌+◌, refl, sym, ◌∙◌, Bool, true, false, none, some, List, [], ◌∷◌, ◌++◌, map, ◌==◌, ◌&&◌,
  ◌||◌, not, if◌then◌else◌, filter, All, Bool-cases, inl, inr, arith,
}
use actix_pura.Mailbox.State.{decode_state, encode_state}
use actix_pura.Mailbox.Channel.{
  Channel, Envelope, sent, full, closed, update, try_send, do_send, enqueue, inc_num_messages,
  poll_unparked, queue_push_and_signal, park,
}
use actix_pura.Broker.Subscriptions.{
  get, put, Recipient, Subscription, Broker, Mailboxes, add_sub, offer,
}

module _ {ℓ} {V : Type ℓ} where
  pub get-put :
      (k j : ℕ) (v : V) (d : List (ℕ × V))
      → get j (put k v d) ≡ (if j == k then some v else get j d)
  unfolding get put
  get-put k j v [] = ground arith
  get-put k j v ((i, w) ∷ d) = ground (arith, get-put k j v d)

pub filter-cons {ℓ} :
    {A : Type ℓ} (p : A → Bool) (x : A) (xs : List A)
    → (if p x then x ∷ [] else []) ++ filter p xs ≡ filter p (x ∷ xs)
filter-cons p x xs = elim (Bool-cases (p x)) [ inl kept ↦ rw kept refl | inr out ↦ rw out refl ]

pub filter_typed :
    (t : ℕ) (l : List Subscription)
    → All (λ s. s.msg_type ≡ t) l
    → filter (λ s. s.msg_type == t) l ≡ l
filter_typed t [] h = refl
filter_typed t (s ∷ l) h = ground (arith, filter_typed t l)

-- Counting a message leaves the flag.
pub stays_open :
    (n : ℕ)
    → (decode_state (encode_state (record { is_open = true; num_messages = n }))).is_open ≡ true
unfolding decode_state encode_state
stays_open n = ground arith

-- A subscription is kept if it is of the issuer's own type or its mailbox is open, and the message
-- goes to the mailbox `a` for those of another type.
abbrev pub keeps : (ℕ → Bool) → ℕ → Subscription → Bool
keeps opens id s = s.subscriber == id || opens s.recipient.actor

abbrev pub goes : (ℕ → Bool) → ℕ → ℕ → Subscription → Bool
goes opens id a s = not (s.subscriber == id) && (s.recipient.actor == a && opens a)

module _ {V : Type 0} where
  abbrev pub notice : V → Envelope V
  notice v = record { message = v; tx = none }

  abbrev pub is_open : Channel V → Bool
  is_open c = (decode_state c.state).is_open

  -- No sender of a closed mailbox is parked, as dropping the receiver releases them.
  abbrev pub Released : Channel V → Type 0
  Released c = is_open c ≡ false → (i : ℕ) → (c.sender_task i).is_parked ≡ false

  -- What an offer makes of the mailbox that it goes to.
  abbrev offered : V → ℕ → Channel V → Bool × Channel V
  offered v i c =
      let (tried, c') = try_send i v true c in
      elim tried [
        | sent _ ↦ (true, c')
        | full _ ↦ (true, (do_send v c').1)
        | closed _ ↦ (false, c')
      ]

  pub offered_lem :
      (v : V) (i : ℕ) (c : Channel V)
      → Released c
      → (is_open (offered v i c).1 ≡ is_open c)
        × ((offered v i c).0 ≡ is_open c)
        × ((offered v i c).1.message_queue
            ≡ c.message_queue ++ (if is_open c then notice v ∷ [] else []))
  unfolding try_send do_send enqueue inc_num_messages poll_unparked queue_push_and_signal park
  offered_lem v i c h = elim (Bool-cases (is_open c)) [
    | inl on ↦
        let e = stays_open ((decode_state c.state).num_messages + 1) in
        (ground (arith, e), ground (arith, e), ground (arith, e))
    | inr off ↦
        let free = h off i in
        (ground arith, ground arith, ground (arith, append-nil c.message_queue))
  ]

  offered-Released : (v : V) (i : ℕ) (c : Channel V) → Released c → Released (offered v i c).1
  unfolding try_send do_send enqueue inc_num_messages poll_unparked queue_push_and_signal park
  offered-Released v i c h shut j = elim (Bool-cases (is_open c)) [
    | inl on ↦
        let still = stays_open ((decode_state c.state).num_messages + 1) in
        absurd (ground (arith, still))
    | inr off ↦ let free = h off i in let other = h off j in ground arith
  ]

  offer_lem :
      (v : V) (r : Recipient) (mbs : Mailboxes V)
      → offer v r mbs ≡ (
        (offered v r.sender (mbs r.actor)).0,
        update mbs r.actor (offered v r.sender (mbs r.actor)).1,
      )
  unfolding offer
  offer_lem v r mbs = ground arith

  -- The mailboxes that are open, which no offer changes.
  abbrev pub OpenAs : (ℕ → Bool) → Mailboxes V → Type 0
  OpenAs opens mbs = (a : ℕ) → (is_open (mbs a) ≡ opens a) × Released (mbs a)

  -- A copy of the message for each.
  abbrev pub copies : V → List Subscription → List (Envelope V)
  copies v l = map (λ s. notice v) l

  pub update-OpenAs :
      (opens : ℕ → Bool) (v : V) (r : Recipient) (mbs : Mailboxes V)
      → OpenAs opens mbs
      → OpenAs opens (offer v r mbs).1
  update-OpenAs opens v r mbs o a = rw (offer_lem v r mbs) (elim (Bool-cases (r.actor == a)) [
    | inl here ↦
        let at : r.actor ≡ a = ground arith in
        let mine = o r.actor in
        let same = offered_lem v r.sender (mbs r.actor) mine.1 in
        let free = offered-Released v r.sender (mbs r.actor) mine.1 in
        rw here (rw (← at) (same.0 ∙ mine.0, free))
    | inr other ↦ rw other (o a)
  ])

  pub offer_queue :
      (opens : ℕ → Bool) (v : V) (r : Recipient) (mbs : Mailboxes V) (a : ℕ)
      → OpenAs opens mbs
      → ((offer v r mbs).1 a).message_queue
        ≡ (mbs a).message_queue ++ (if r.actor == a && opens a then notice v ∷ [] else [])
  offer_queue opens v r mbs a o = rw (offer_lem v r mbs) (elim (Bool-cases (r.actor == a)) [
    | inl here ↦
        let at : r.actor ≡ a = ground arith in
        let mine = o r.actor in
        let same = offered_lem v r.sender (mbs r.actor) mine.1 in
        rw here (rw (← at, ← mine.0) same.2)
    | inr other ↦ rw other (sym (append-nil (mbs a).message_queue))
  ])

  pub offer_kept :
      (opens : ℕ → Bool) (v : V) (r : Recipient) (mbs : Mailboxes V)
      → OpenAs opens mbs
      → (offer v r mbs).0 ≡ opens r.actor
  offer_kept opens v r mbs o =
      let mine = o r.actor in
      rw (offer_lem v r mbs) ((offered_lem v r.sender (mbs r.actor) mine.1).1 ∙ mine.0)

  pub add_sub_at :
      (t : ℕ) (s : Subscription) (b : Broker V) (old : List Subscription)
      → s.msg_type ≡ t
      → get t b.sub_map ≡ some old
      → get t (add_sub t s.recipient s.subscriber b).sub_map ≡ some (old ++ s ∷ [])
  unfolding add_sub
  add_sub_at t s b old typed at =
      let same : record { subscriber = s.subscriber; msg_type = t; recipient = s.recipient } ≡ s =
        ground arith in
      rw (at, add_sub) (rw (get-put t t _ b.sub_map, same) (ground arith))
