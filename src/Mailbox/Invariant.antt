-- ===== src/Mailbox/Invariant.antt =====
-- actix/src/address/channel.rs: what holds of a channel between two operations.
use actix_pura.Prelude.{
  ℕ, ◌+◌, ◌%◌, ◌<◌, ◌≡◌, refl, sym, ap, ◌∙◌, Bool, true, false, none, some, List, [], ◌∷◌, ◌++◌,
  arith, ◌==◌, ◌||◌, if◌then◌else◌, sub64, length, length-append, u64_mod, Bool-cases, inl, inr,
}
use actix_pura.Mailbox.State.{State, open_mask, decode_state, encode_state}
use actix_pura.Mailbox.Channel.{
  Envelope, Channel, channel, inc_num_messages, park, poll_unparked, queue_push_and_signal, enqueue,
  send, try_send, do_send, new_sender, drop_sender,
}

abbrev pub elem : ℕ → List ℕ → Bool
elem i [] = false
elem i (j ∷ l) = if i == j then true else elem i l

-- No number stands twice.
abbrev pub IsDistinct : List ℕ → Type 0
IsDistinct [] = Unit
IsDistinct (i ∷ l) = (elem i l ≡ false) × IsDistinct l

pub elem-append : (i j : ℕ) (l : List ℕ) → elem i (l ++ j ∷ []) ≡ (elem i l || i == j)
elem-append i j [] = ground arith
elem-append i j (k ∷ l) = ground (arith, elem-append i j l)

pub IsDistinct-snoc :
    (j : ℕ) (l : List ℕ) → elem j l ≡ false → IsDistinct l → IsDistinct (l ++ j ∷ [])
IsDistinct-snoc j [] h d = (refl, tt)
IsDistinct-snoc j (k ∷ l) h d = ground (arith, elem-append k j l, IsDistinct-snoc j l)

-- The word counts the messages in the queue; the senders that are parked are those in the queue of
-- parked senders, each once; and a parked sender of an open channel knows that it may be parked.
pub record IsValid {M : Type 0} (c : Channel M) : Type 0 where
  pub word : c.state < u64_mod
  pub counted : (decode_state c.state).num_messages ≡ length c.message_queue
  pub parked : (i : ℕ) → (c.sender_task i).is_parked ≡ elem i c.parked_queue
  pub distinct : IsDistinct c.parked_queue
  pub knows :
      (i : ℕ)
      → (decode_state c.state).is_open ≡ true
      → (c.sender_task i).is_parked ≡ true
      → c.maybe_parked i ≡ true

pub decode_inc :
    (w : ℕ)
    → w < u64_mod
    → (decode_state w).is_open ≡ true
    → (decode_state w).num_messages + 1 < open_mask
    → let s : State = record { is_open = true; num_messages = (decode_state w).num_messages + 1 } in
      (encode_state s < u64_mod) × (decode_state (encode_state s) ≡ s)
unfolding decode_state encode_state
decode_inc w b o h = (ground arith, ground arith)

pub decode_dec :
    (w : ℕ)
    → w < u64_mod
    → 0 < (decode_state w).num_messages
    → (sub64 w 1 < u64_mod)
      × ((decode_state (sub64 w 1)).num_messages + 1 ≡ (decode_state w).num_messages)
      × ((decode_state (sub64 w 1)).is_open ≡ (decode_state w).is_open)
unfolding decode_state
decode_dec w b h = (omega arith, omega arith, ground arith)

pub decode_close :
    (w : ℕ)
    → ((w % open_mask) < u64_mod)
      × ((decode_state (w % open_mask)).num_messages ≡ (decode_state w).num_messages)
      × ((decode_state (w % open_mask)).is_open ≡ false)
unfolding decode_state
decode_close w = (omega arith, omega arith, ground arith)

module _ {M : Type 0} where
  -- A channel as it is made satisfies the invariant, and is open.
  pub channel-IsValid : (b : ℕ) (c : Channel M) → channel b ≡ some c → IsValid c
  unfolding channel decode_state
  channel-IsValid b c h = record {
    word = ground arith;
    counted = ground arith;
    parked = λ i. ground arith;
    distinct = ground arith;
    knows = λ i o p. ground arith;
  }

  pub poll-IsValid : (i : ℕ) (c : Channel M) → IsValid c → IsValid (poll_unparked i c).1
  unfolding poll_unparked
  poll-IsValid i c v = record {
    word = ground (arith, v.word);
    counted = ground (arith, v.counted);
    parked = λ j. ground (arith, v.parked i, v.parked j);
    distinct = ground (arith, v.distinct);
    knows = λ j o p. ground (arith, v.parked i, v.knows i, v.knows j);
  }

  -- A sender of an open channel that is found ready is not parked.
  poll_ready :
      (i : ℕ) (c : Channel M)
      → IsValid c
      → (decode_state c.state).is_open ≡ true
      → (poll_unparked i c).0 ≡ true
      → ((poll_unparked i c).1.sender_task i).is_parked ≡ false
  unfolding poll_unparked
  poll_ready i c v o r = ground (arith, v.knows i)

  poll_open : (i : ℕ) (c : Channel M) → (poll_unparked i c).1.state ≡ c.state
  unfolding poll_unparked
  poll_open i c = ground arith

  poll_queue : (i : ℕ) (c : Channel M) → (poll_unparked i c).1.message_queue ≡ c.message_queue
  unfolding poll_unparked
  poll_queue i c = ground arith

  -- Counting a message and pushing it, with the sender parked in between or not.
  counted-IsValid :
      (park_self : Bool) (i : ℕ) (e : Envelope M) (c : Channel M)
      → IsValid c
      → (decode_state c.state).is_open ≡ true
      → (park_self ≡ true → (c.sender_task i).is_parked ≡ false)
      → length c.message_queue + 1 < open_mask
      → let n = (decode_state c.state).num_messages + 1 in
        let c' = record c { state = encode_state (record { is_open = true; num_messages = n }) } in
        IsValid (queue_push_and_signal e (if park_self then park i c' else c'))
  unfolding queue_push_and_signal park
  counted-IsValid false i e c v o p h =
      let d = decode_inc c.state v.word o (omega (arith, v.counted)) in
      record {
        word = d.0;
        counted = rw (d.1) (omega (arith, v.counted, length-append c.message_queue (e ∷ [])));
        parked = v.parked;
        distinct = v.distinct;
        knows = λ j q r. v.knows j o r;
      }
  counted-IsValid true i e c v o p h =
      let d = decode_inc c.state v.word o (omega (arith, v.counted)) in
      let out : elem i c.parked_queue ≡ false = sym (v.parked i) ∙ p refl in
      record {
        word = d.0;
        counted = rw (d.1) (omega (arith, v.counted, length-append c.message_queue (e ∷ [])));
        parked = λ j. ground (arith, v.parked j, elem-append j i c.parked_queue);
        distinct = IsDistinct-snoc i c.parked_queue out v.distinct;
        knows = λ j q r. ground (arith, d.1, v.knows j o);
      }

  inc_open :
      (c : Channel M)
      → (decode_state c.state).is_open ≡ true
      → let n = (decode_state c.state).num_messages + 1 in
        inc_num_messages c
        ≡ some (n, record c { state = encode_state (record { is_open = true; num_messages = n }) })
  unfolding inc_num_messages
  inc_open c o = ground arith

  inc_closed : (c : Channel M) → (decode_state c.state).is_open ≡ false → inc_num_messages c ≡ none
  unfolding inc_num_messages
  inc_closed c o = ground arith

  enqueue-IsValid :
      (may_park : Bool) (i : ℕ) (e : Envelope M) (c : Channel M)
      → IsValid c
      → ((decode_state c.state).is_open ≡ true → (c.sender_task i).is_parked ≡ false)
      → length c.message_queue + 1 < open_mask
      → IsValid (enqueue may_park i e c).1
  unfolding enqueue
  enqueue-IsValid may_park i e c v p h = elim (Bool-cases (decode_state c.state).is_open) [
    | inl o ↦ rw (inc_open c o, enqueue) (counted-IsValid _ i e c v o (λ _. p o) h)
    | inr o ↦ rw (inc_closed c o, enqueue) v
  ]

  -- A `send` keeps the invariant of the channel, whatever its outcome, as long as the count of
  -- messages stays below the open flag.
  pub send-IsValid :
      (i : ℕ) (m : M) (tx : ℕ) (c : Channel M)
      → IsValid c
      → length c.message_queue + 1 < open_mask
      → IsValid (send i m tx c).1
  unfolding send
  send-IsValid i m tx c v h = elim (Bool-cases (poll_unparked i c).0) [
    | inl r ↦ rw r (
        enqueue-IsValid true i _ _ (poll-IsValid i c v)
          (λ o. poll_ready i c v (sym (ap (λ w. (decode_state w).is_open) (poll_open i c)) ∙ o) r)
          (rw (poll_queue i c) h))
    | inr r ↦ rw r (poll-IsValid i c v)
  ]

  pub try_send-IsValid :
      (i : ℕ) (m : M) (may_park : Bool) (c : Channel M)
      → IsValid c
      → length c.message_queue + 1 < open_mask
      → IsValid (try_send i m may_park c).1
  unfolding try_send
  try_send-IsValid i m b c v h = elim (Bool-cases (poll_unparked i c).0) [
    | inl r ↦ rw r (
        enqueue-IsValid b i _ _ (poll-IsValid i c v)
          (λ o. poll_ready i c v (sym (ap (λ w. (decode_state w).is_open) (poll_open i c)) ∙ o) r)
          (rw (poll_queue i c) h))
    | inr r ↦ rw r (poll-IsValid i c v)
  ]

  pub do_send-IsValid :
      (m : M) (c : Channel M)
      → IsValid c
      → length c.message_queue + 1 < open_mask
      → IsValid (do_send m c).1
  unfolding do_send
  do_send-IsValid m c v h = elim (Bool-cases (decode_state c.state).is_open) [
    | inl o ↦ rw (inc_open c o, do_send) (counted-IsValid false 0 _ c v o (λ x. cc) h)
    | inr o ↦ rw (inc_closed c o, do_send) v
  ]

  -- A new sender, whose cell no parked handle names.
  pub new_sender-IsValid :
      (i : ℕ) (c k : Channel M)
      → elem i c.parked_queue ≡ false
      → new_sender i c ≡ some k
      → IsValid c
      → IsValid k
  unfolding new_sender
  new_sender-IsValid i c k f h v = record {
    word = ground (arith, v.word);
    counted = ground (arith, v.counted);
    parked = λ j. ground (arith, v.parked j);
    distinct = ground (arith, v.distinct);
    knows = λ j o p. ground (arith, v.knows j);
  }

  pub drop_sender-IsValid : (c : Channel M) → IsValid c → IsValid (drop_sender c)
  unfolding drop_sender
  drop_sender-IsValid c v = record {
    word = ground (arith, v.word);
    counted = ground (arith, v.counted);
    parked = λ j. ground (arith, v.parked j);
    distinct = ground (arith, v.distinct);
    knows = λ j o p. ground (arith, v.knows j);
  }
