-- ===== src/Runtime/Life.antt =====
-- actix/src/context_impl.rs: `ContextFut`, an actor that runs in its context, and what the runtime
-- calls on it. An actor is a state of type `A` with the functions of a `Behaviour`; each returns
-- the new state and the calls that it makes on the context, in order.
use actix_pura.Prelude.{
  ℕ, zero, suc, Bool, true, false, none, List, [], ◌∷◌, ◌++◌, is_empty, not, ◌||◌, ◌==◌,
  if◌then◌else◌, length,
}
use actix_pura.Mailbox.Channel.{Channel, Envelope, SendResult, sent, do_send}
use actix_pura.Mailbox.Receiver.{set_capacity}
use actix_pura.Runtime.Context.{
  ContextParts, stop_parts, terminate_parts, spawn_item, wait_for, cancel_handle, capacity_changed,
}

-- A call that an actor makes on its context; `send` is `do_send` to its own address.
pub data Call (F M : Type 0) : Type 0 where
  stop terminate : Call F M
  spawn wait : F → Call F M
  cancel_future set_mailbox_capacity : ℕ → Call F M
  send : M → Call F M

-- `Poll<()>` of a future, which keeps the state of one that is not done.
pub data Progress (F : Type 0) : Type 0 where
  done : Progress F
  pending : F → Progress F

-- `Running`
pub data Running : Type 0 where
  stop continue : Running

pub record Behaviour (A F M : Type 0) : Type 0 where
  pub started : A → ContextParts F → A × List (Call F M)
  pub handle : Envelope M → A → ContextParts F → A × List (Call F M)
  pub poll : F → A → ContextParts F → Progress F × A × List (Call F M)
  pub stopping : A → ContextParts F → Running × A × List (Call F M)
  pub stopped : A → ContextParts F → A × List (Call F M)
  pub restarting : A → ContextParts F → A × List (Call F M)

-- What the runtime has called on the actor, and what its mailbox has accepted from it.
pub data Event (M : Type 0) : Type 0 where
  started waited stopping stopped restarting : Event M
  handled accepted : Envelope M → Event M
  polled : ℕ → Event M

-- The envelope of a message that an actor sends itself.
abbrev pub letter : {M : Type 0} → M → Envelope M
letter m = record { message = m; tx = none }

-- `ContextFut`, with the events so far, oldest first, which the source does not keep.
pub record ContextFut (A F M : Type 0) : Type 0 where
  pub parts : ContextParts F
  pub act : A
  pub mailbox : Channel M
  pub wait : List F
  pub items : List (ℕ × F)
  pub events : List (Event M)

module _ {A F M : Type 0} where
  abbrev pub log : Event M → ContextFut A F M → ContextFut A F M
  log e w = record w { events = w.events ++ e ∷ [] }

  abbrev pub set_parts : ContextParts F → ContextFut A F M → ContextFut A F M
  set_parts c w = record w { parts = c }

  -- What the mailbox makes of it.
  abbrev pub log_sent : SendResult M (Unit {0}) → M → ContextFut A F M → ContextFut A F M
  log_sent (sent _) m w = log (accepted (letter m)) w
  log_sent _ m w = w

  unfoldable pub call : Call F M → ContextFut A F M → ContextFut A F M
  call Call.stop w = set_parts (stop_parts w.parts) w
  call Call.terminate w = set_parts (terminate_parts w.parts) w
  call (Call.spawn f) w = set_parts (spawn_item f w.parts) w
  call (Call.wait f) w = set_parts (wait_for f w.parts) w
  call (Call.cancel_future h) w = set_parts (cancel_handle h w.parts) w
  call (Call.set_mailbox_capacity n) w = record w {
    parts = capacity_changed w.parts;
    mailbox = set_capacity n w.mailbox;
  }
  call (Call.send m) w =
      let (r, mb) = do_send m w.mailbox in log_sent r m (record w { mailbox = mb })

  unfoldable pub calls : List (Call F M) → ContextFut A F M → ContextFut A F M
  calls [] w = w
  calls (c ∷ cs) w = calls cs (call c w)

  -- The actor has been called: its new state, and its calls on the context.
  unfoldable pub perform : Event M → A → List (Call F M) → ContextFut A F M → ContextFut A F M
  perform e a cs w = calls cs (log e (record w { act = a }))

  -- `alive`; a mailbox is connected while it has senders.
  unfoldable pub alive : ContextFut A F M → Bool
  alive w =
      if w.parts.flags.stopped
      then false
      else not w.parts.flags.started
        || not (w.mailbox.num_senders == 0)
        || not (is_empty w.items)
        || not (is_empty w.wait)

  -- `merge`: the new futures are taken over; was there anything to do?
  unfoldable pub is_modified : ContextFut A F M → Bool
  is_modified w =
      not (is_empty w.parts.wait)
      || not (is_empty w.parts.items)
      || w.parts.flags.mb_cap_changed
      || not (is_empty w.parts.cancelled)

  unfoldable pub merge : ContextFut A F M → ContextFut A F M
  merge w = record w {
    wait = w.wait ++ w.parts.wait;
    items = w.items ++ w.parts.items;
    parts = record w.parts {
      wait = [];
      items = [];
      flags = record w.parts.flags { mb_cap_changed = false };
    };
  }

-- `swap_remove` on the items, where the last one takes the place of the one that is removed.
module _ {I : Type 0} where
  -- The last item first.
  unfoldable pub last_first : List I → List I
  last_first [] = []
  last_first (x ∷ xs) = elim (last_first xs) [ [] ↦ x ∷ [] | y ∷ ys ↦ y ∷ x ∷ ys ]

  unfoldable pub swap_remove : ℕ → List I → List I
  swap_remove i [] = []
  swap_remove zero (x ∷ xs) = last_first xs
  swap_remove (suc i) (x ∷ xs) = x ∷ swap_remove i xs

  -- `items[idx].1 = ..`
  unfoldable pub set : List I → ℕ → I → List I
  set [] i y = []
  set (x ∷ xs) zero y = y ∷ xs
  set (x ∷ xs) (suc i) y = x ∷ set xs i y

module _ {F : Type 0} where
  -- `remove_item_by_handle`: were there any? The rounds are the items from the index on.
  unfoldable pub remove_loop : ℕ → ℕ → List (ℕ × F) → Bool × List (ℕ × F)
  remove_loop zero h l = (false, l)
  remove_loop (suc k) h [] = (false, [])
  remove_loop (suc k) h (x ∷ xs) =
      let (_, swapped) = remove_loop k h (last_first xs) in
      let (found, rest) = remove_loop k h xs in
      if x.0 == h then (true, swapped) else (found, x ∷ rest)

  abbrev pub remove_item_by_handle : ℕ → List (ℕ × F) → Bool × List (ℕ × F)
  remove_item_by_handle h l = remove_loop (length l) h l

module _ {A F M : Type 0} where
  -- The body of `clean_canceled_handle`, for one handle.
  unfoldable pub clean_handle : ℕ → ContextFut A F M → ContextFut A F M
  clean_handle h w =
      let (found, l) = remove_item_by_handle h w.items in
      let (_, l') = remove_item_by_handle h w.parts.items in
      let w' = record w { items = l } in
      if found then w' else set_parts (record w.parts { items = l' }) w'

  unfoldable pub clean_handles : List ℕ → ContextFut A F M → ContextFut A F M
  clean_handles [] w = w
  clean_handles (h ∷ hs) w = clean_handles hs (clean_handle h w)

  -- `clean_canceled_handle`
  unfoldable pub clean_canceled_handle : ContextFut A F M → ContextFut A F M
  clean_canceled_handle w =
      clean_handles w.parts.cancelled (set_parts (record w.parts { cancelled = [] }) w)
