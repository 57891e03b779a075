-- ===== src/Mailbox/Receiving.antt =====
-- actix/src/address/channel.rs: the receiving end keeps the invariant, and dropping it closes the
-- channel for good.
use actix_pura.Prelude.{
  ℕ, ◌≡◌, refl, sym, ap, ◌∙◌, List, [], ◌∷◌, arith, ltb, ◌&&◌, not, length, Bool-cases, inl, inr,
}
use actix_pura.Mailbox.State.{decode_state}
use actix_pura.Mailbox.Channel.{SenderTask, Envelope, Channel, update, notify}
use actix_pura.Mailbox.Receiver.{
  notify_all, unpark_all, set_capacity, unpark_one, dec_num_messages, next_message, set_closed,
}
use actix_pura.Mailbox.Invariant.{elem, IsValid, decode_dec, decode_close}

-- A sender is parked after `notify_all` just if it was before and is not among those notified.
notify_all_parked :
    (i : ℕ) (l : List ℕ) (f : ℕ → SenderTask)
    → (notify_all l f i).is_parked ≡ ((f i).is_parked && not (elem i l))
unfolding notify_all notify
notify_all_parked i [] f = ground arith
notify_all_parked i (j ∷ l) f = ground (arith, notify_all_parked i l (update f j (notify (f j))))

module _ {M : Type 0} where
  unpark_one-IsValid : (c : Channel M) → IsValid c → IsValid (unpark_one c)
  unfolding unpark_one notify
  unpark_one-IsValid c v = record {
    word = ground (arith, v.word);
    counted = ground (arith, v.counted);
    parked = λ j. ground (arith, v.parked j, v.distinct);
    distinct = ground (arith, v.distinct);
    knows = λ j o p. ground (arith, v.knows j);
  }

  pub unpark_all-IsValid : (c : Channel M) → IsValid c → IsValid (unpark_all c)
  unfolding unpark_all
  unpark_all-IsValid c v = record {
    word = v.word;
    counted = v.counted;
    parked = λ j. ground (arith, notify_all_parked j c.parked_queue c.sender_task, v.parked j);
    distinct = tt;
    knows = λ j o p. ground (arith, notify_all_parked j c.parked_queue c.sender_task, v.knows j o);
  }

  pub set_capacity-IsValid : (cap : ℕ) (c : Channel M) → IsValid c → IsValid (set_capacity cap c)
  unfolding set_capacity
  set_capacity-IsValid cap c v =
      let v' : IsValid (record c { buffer = cap }) = record {
        word = v.word;
        counted = v.counted;
        parked = v.parked;
        distinct = v.distinct;
        knows = v.knows;
      } in
      elim (Bool-cases (ltb c.buffer cap)) [
        | inl grows ↦ rw grows (unpark_all-IsValid (record c { buffer = cap }) v')
        | inr shrinks ↦ rw shrinks v'
      ]

  pub set_closed-IsValid : (c : Channel M) → IsValid c → IsValid (set_closed c)
  unfolding set_closed
  set_closed-IsValid c v = elim (Bool-cases (decode_state c.state).is_open) [
    | inr already ↦ rw already v
    | inl o ↦
        let d = decode_close c.state in
        rw o (record {
          word = d.0;
          counted = d.1 ∙ v.counted;
          parked = v.parked;
          distinct = v.distinct;
          knows = λ j q p. absurd (ground (arith, d.2));
        })
  ]

  unpark_one_queue :
      (c : Channel M) (l : List (Envelope M))
      → unpark_one (record c { message_queue = l }) ≡ record (unpark_one c) { message_queue = l }
  unfolding unpark_one
  unpark_one_queue c l = ground arith

  unpark_one_state : (c : Channel M) → (unpark_one c).state ≡ c.state
  unfolding unpark_one
  unpark_one_state c = ground arith

  -- The handler of one message: the queue loses its head and the count falls by one.
  received-IsValid :
      (e : Envelope M) (l : List (Envelope M)) (c : Channel M)
      → c.message_queue ≡ e ∷ l
      → IsValid c
      → IsValid (dec_num_messages (unpark_one (record c { message_queue = l })))
  unfolding dec_num_messages
  received-IsValid e l c q v =
      let u = unpark_one-IsValid c v in
      let n = ap length q in
      let d =
        decode_dec (unpark_one c).state u.word (
          omega (arith, ap (λ w. (decode_state w).num_messages) (unpark_one_state c), v.counted)) in
      rw (unpark_one_queue c l) (record {
        word = d.0;
        counted =
            omega
              (arith, d.1, ap (λ w. (decode_state w).num_messages) (unpark_one_state c), v.counted);
        parked = u.parked;
        distinct = u.distinct;
        knows = λ j o p. u.knows j (sym d.2 ∙ o) p;
      })

  -- Receiving keeps the invariant of the channel, whether there is a message or not.
  pub next_message-IsValid : (c : Channel M) → IsValid c → IsValid (next_message c).1
  unfolding next_message
  next_message-IsValid c v = go c.message_queue refl
    where
      go : (l : List (Envelope M)) → c.message_queue ≡ l → IsValid (next_message c).1
      go [] q = rw (q, next_message) v
      go (e ∷ l) q = rw (q, next_message) (received-IsValid e l c q v)
