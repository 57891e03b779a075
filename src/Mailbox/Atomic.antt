-- ===== src/Mailbox/Atomic.antt =====
-- actix/src/address/channel.rs: the atomic steps of concurrent senders and of the receiver, in any
-- interleaving. A sender counts its message by the exchange of `inc_num_messages` and pushes it
-- later; the receiver pops a message and counts it off later.
use actix_pura.Prelude.{
  ℕ, suc, ◌+◌, ◌≤◌, ◌<◌, ◌≡◌, refl, ap, ◌∙◌, true, false, some, List, [], ◌∷◌, ◌++◌, arith, length,
  length-append, u64_mod, Bool-cases, inl, inr,
}
use actix_pura.Mailbox.State.{open_mask, decode_state, is_closed}
use actix_pura.Mailbox.Channel.{
  Envelope, Channel, connected, inc_num_messages, queue_push_and_signal,
}
use actix_pura.Mailbox.Receiver.{dec_num_messages, set_closed}
use actix_pura.Mailbox.Invariant.{decode_dec, decode_close, decode_inc}

-- The channel, the messages that are counted and not yet pushed, and the number of those that are
-- popped and still counted.
pub record System (M : Type 0) : Type 0 where
  pub shared : Channel M
  pub open shared use *
  pub in_flight : List (Envelope M)
  pub taken : ℕ

pub data Step {M : Type 0} : System M → System M → Type 0 where
  -- the count stays below 2^63 - 1
  count :
      {s : System M} {n : ℕ} {c : Channel M} (e : Envelope M)
      → inc_num_messages s.shared ≡ some (n, c)
      → n < open_mask
      → Step s (record s { shared = c; in_flight = e ∷ s.in_flight })
  push :
      {s : System M} (xs ys : List (Envelope M)) (e : Envelope M)
      → s.in_flight ≡ xs ++ e ∷ ys
      → Step s (record s { shared = queue_push_and_signal e s.shared; in_flight = xs ++ ys })
  pop :
      {s : System M} (e : Envelope M) (l : List (Envelope M))
      → s.message_queue ≡ e ∷ l
      → Step s (record s { shared = record (s.shared) { message_queue = l }; taken = suc s.taken })
  discount :
      {s : System M} (k : ℕ)
      → s.taken ≡ suc k
      → Step s (record s { shared = dec_num_messages s.shared; taken = k })
  close : {s : System M} → Step s (record s { shared = set_closed s.shared })

pub data Reach {M : Type 0} (s : System M) : System M → Type 0 where
  here : Reach s s
  next : {t u : System M} → Reach s t → Step t u → Reach s u

-- The word counts each message from the exchange until it is counted off.
pub record Counts {M : Type 0} (s : System M) : Type 0 where
  pub word : s.state < u64_mod
  pub total :
      (decode_state s.state).num_messages ≡ length s.message_queue + length s.in_flight + s.taken

num_messages_le : (w : ℕ) → (decode_state w).num_messages ≤ w
unfolding decode_state
num_messages_le w = omega arith

nothing {ℓ} : {A : Type ℓ} (l : List A) → length l ≡ 0 → l ≡ []
nothing [] h = refl
nothing (x ∷ l) h = absurd (omega arith)

module _ {M : Type 0} where
  count_facts :
      (c k : Channel M) (n : ℕ)
      → inc_num_messages c ≡ some (n, k)
      → n < open_mask
      → c.state < u64_mod
      → (k.state < u64_mod)
        × ((decode_state k.state).num_messages ≡ (decode_state c.state).num_messages + 1)
        × (k.message_queue ≡ c.message_queue)
  unfolding inc_num_messages
  count_facts c k n h b w = elim (Bool-cases (decode_state c.state).is_open) [
    | inr o ↦ absurd (ground arith)
    | inl o ↦
        let m : (decode_state c.state).num_messages + 1 < open_mask = ground arith in
        ground (arith, decode_inc c.state w o m)
  ]

  Step-Counts : {s t : System M} → Step s t → Counts s → Counts t
  unfolding queue_push_and_signal dec_num_messages set_closed
  Step-Counts {s} (count {n = n} {c = c} e h b) v =
      let f = count_facts s.shared c n h b v.word in
      record { word = f.0; total = omega (arith, v.total, f.1, ap length f.2) }
  Step-Counts {s} (push xs ys e h) v = record {
    word = v.word;
    total = omega (
      arith,
      v.total,
      ap length h,
      length-append xs (e ∷ ys),
      length-append xs ys,
      length-append s.message_queue (e ∷ []),
    );
  }
  Step-Counts {s} (pop e l h) v = record {
    word = v.word;
    total = omega (arith, v.total, ap length h);
  }
  Step-Counts {s} (discount k h) v =
      let d = decode_dec s.state v.word (omega (arith, v.total)) in
      record { word = d.0; total = omega (arith, v.total, d.1) }
  Step-Counts {s} close v =
      let d = decode_close s.state in
      record { word = ground (arith, d.0, v.word); total = ground (arith, d.1, v.total) }

  -- In every interleaving the word is the open flag and the number of messages that are queued, on
  -- their way to the queue, or taken and not yet counted off.
  pub Reach-Counts : {s t : System M} → Counts s → Reach s t → Counts t
  Reach-Counts v here = v
  Reach-Counts v (next r s) = Step-Counts s (Reach-Counts v r)

  -- In every interleaving, from a state in which the word counts what is queued, on its way or
  -- taken, while a message is taken and not yet counted off, the subtraction in `dec_num_messages`
  -- neither underflows nor touches the open flag.
  pub discount_exact :
      {s t : System M} (k : ℕ)
      → Counts s
      → Reach s t
      → t.taken ≡ suc k
      → let w = (dec_num_messages t.shared).state in
        (w + 1 ≡ t.state) × ((decode_state w).is_open ≡ (decode_state t.state).is_open)
  unfolding dec_num_messages
  discount_exact {s} {t} k v r h =
      let c = Reach-Counts v r in
      let d = decode_dec t.state c.word (omega (arith, c.total)) in
      let some_left : 0 < t.state = omega (arith, c.total, num_messages_le t.state) in
      (omega (arith, c.word), d.2)

  -- In every interleaving of the atomic operations on the state word, from a state in which it
  -- counts what is queued, on its way or taken, a receiver that sees the end of the stream has
  -- missed nothing: no message is queued, no sender is about to push one, and none that was taken
  -- is still to be counted off.
  pub closed_complete :
      {s t : System M}
      → Counts s
      → Reach s t
      → is_closed (decode_state t.state) ≡ true
      → (t.message_queue ≡ []) × (t.in_flight ≡ []) × (t.taken ≡ 0)
  unfolding is_closed
  closed_complete {s} {t} v r h =
      let c = Reach-Counts v r in
      let z : length t.message_queue + length t.in_flight + t.taken ≡ 0 = ground (arith, c.total) in
      (nothing t.message_queue (omega arith), nothing t.in_flight (omega arith), omega arith)

  Step-shut :
      {s t : System M}
      → Step s t
      → Counts s
      → connected s.shared ≡ false
      → connected t.shared ≡ false
  unfolding connected inc_num_messages queue_push_and_signal dec_num_messages set_closed
  Step-shut (count e h b) v o = absurd (ground arith)
  Step-shut (push xs ys e h) v o = o
  Step-shut (pop e l h) v o = o
  Step-shut {s} (discount k h) v o = (decode_dec s.state v.word (omega (arith, v.total))).2 ∙ o
  Step-shut {s} close v o = ground (arith, decode_close s.state)

  -- In every interleaving, from a state in which the word counts what is queued, on its way or
  -- taken, a closed channel is never open again.
  pub Reach-shut :
      {s t : System M}
      → Counts s
      → connected s.shared ≡ false
      → Reach s t
      → connected t.shared ≡ false
  Reach-shut v o here = o
  Reach-shut v o (next r s) = Step-shut s (Reach-Counts v r) (Reach-shut v o r)
