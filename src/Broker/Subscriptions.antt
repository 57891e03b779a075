-- ===== src/Broker/Subscriptions.antt =====
-- actix-broker/src/broker.rs: the state of the broker and its handlers. A `TypeId` is a number; what
-- is boxed as `dyn Any` keeps the type of the message that it is for, which `downcast` compares. A
-- recipient is the number of a sender of an actor's mailbox, and the mailboxes are those of
-- actix/src/address/channel.rs.
use actix_pura.Prelude.{
  ℕ, Bool, true, false, Option, none, some, List, [], ◌∷◌, ◌++◌, ◌==◌, if◌then◌else◌, filter,
}
use actix_pura.Mailbox.Channel.{Channel, sent, full, closed, update, try_send, do_send}

-- `HashMap<TypeId, V>`
module _ {ℓ} {V : Type ℓ} where
  unfoldable pub get : ℕ → List (ℕ × V) → Option V
  get k [] = none
  get k ((j, v) ∷ d) = if k == j then some v else get k d

  unfoldable pub put : ℕ → V → List (ℕ × V) → List (ℕ × V)
  put k v [] = (k, v) ∷ []
  put k v ((j, w) ∷ d) = if k == j then (k, v) ∷ d else (j, w) ∷ put k v d

-- `Recipient<M>`
pub record Recipient : Type 0 where
  pub actor : ℕ
  pub sender : ℕ

-- `(TypeId, Box<dyn Any>)` of the type of the subscriber, and the recipient of the type `msg_type`.
pub record Subscription : Type 0 where
  pub subscriber : ℕ
  pub msg_type : ℕ
  pub recipient : Recipient

pub record Broker (V : Type 0) : Type 0 where
  pub sub_map : List (ℕ × List Subscription)
  pub msg_map : List (ℕ × (ℕ × V))

-- The mailbox of each actor.
abbrev pub Mailboxes : Type 0 → Type 0
Mailboxes V = ℕ → Channel V

module _ {V : Type 0} where
  abbrev pub new_broker : Broker V
  new_broker = record { sub_map = []; msg_map = [] }

  -- `take_subs` of the messages of type `t`: the list stays in the map, empty.
  unfoldable pub take_subs : ℕ → Broker V → Option (List Subscription) × Broker V
  take_subs t b = elim (get t b.sub_map) [
    | none ↦ (none, b)
    | some subs ↦
        (some (filter (λ s. s.msg_type == t) subs), record b { sub_map = put t [] b.sub_map })
  ]

  unfoldable pub add_sub : ℕ → Recipient → ℕ → Broker V → Broker V
  add_sub t r id b =
      let s : Subscription = record { subscriber = id; msg_type = t; recipient = r } in
      elim (get t b.sub_map) [
        | none ↦ record b { sub_map = put t (s ∷ []) b.sub_map }
        | some subs ↦ record b { sub_map = put t (subs ++ s ∷ []) b.sub_map }
      ]

  unfoldable pub get_previous_msg : ℕ → Broker V → Option V
  get_previous_msg t b = elim (get t b.msg_map) [
    | none ↦ none
    | some (j, v) ↦ if j == t then some v else none
  ]

  unfoldable pub set_msg : ℕ → V → Broker V → Broker V
  set_msg t v b = record b { msg_map = put t (t, v) b.msg_map }

  -- `Handler<SubscribeAsync<M>>` and `Handler<SubscribeSync<M>>`
  abbrev pub subscribe_async : ℕ → Recipient → ℕ → Broker V → Broker V
  subscribe_async t r id b = add_sub t r id b

  unfoldable pub subscribe_sync : ℕ → Recipient → ℕ → Broker V → Option V × Broker V
  subscribe_sync t r id b = let b' = add_sub t r id b in (get_previous_msg t b', b')

  -- The message is tried, and sent nonetheless when the mailbox is full; is the subscription kept?
  unfoldable pub offer : V → Recipient → Mailboxes V → Bool × Mailboxes V
  offer v r mbs =
      let (tried, mb) = try_send r.sender v true (mbs r.actor) in
      elim tried [
        | sent _ ↦ (true, update mbs r.actor mb)
        | full _ ↦ (true, update mbs r.actor (do_send v mb).1)
        | closed _ ↦ (false, update mbs r.actor mb)
      ]

  -- The body of the loop of `IssueAsync`: those of the issuer's own type are only put back.
  unfoldable pub issue_one :
      ℕ → V → ℕ → Subscription → Broker V × Mailboxes V → Broker V × Mailboxes V
  issue_one t v id s (b, mbs) =
      let (kept, mbs') = offer v s.recipient mbs in
      let back = add_sub t s.recipient s.subscriber b in
      if s.subscriber == id then (back, mbs) else (if kept then back else b, mbs')

  unfoldable pub issue_loop :
      ℕ → V → ℕ → List Subscription → Broker V × Mailboxes V → Broker V × Mailboxes V
  issue_loop t v id [] w = w
  issue_loop t v id (s ∷ subs) w = issue_loop t v id subs (issue_one t v id s w)

  -- `Handler<IssueAsync<M>>`, once the subscriptions are taken.
  unfoldable pub issue_to :
      ℕ → V → ℕ → Mailboxes V → Option (List Subscription) × Broker V → Broker V × Mailboxes V
  issue_to t v id mbs (none, b) = (set_msg t v b, mbs)
  issue_to t v id mbs (some l, b) =
      let (b', mbs') = issue_loop t v id l (b, mbs) in (set_msg t v b', mbs')

  unfoldable pub issue_async : ℕ → V → ℕ → Broker V × Mailboxes V → Broker V × Mailboxes V
  issue_async t v id (b, mbs) = issue_to t v id mbs (take_subs t b)
