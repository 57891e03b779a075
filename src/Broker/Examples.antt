-- ===== src/Broker/Examples.antt =====
-- actix-broker/src/broker.rs: the theorems at a concrete broker.
use actix_pura.Prelude.{
  ℕ, ◌≡◌, refl, false, some, List, ◌==◌, if◌then◌else◌, arith, [], ◌∷◌, ◌++◌, filter,
}
use actix_pura.Mailbox.Channel.{Channel, new_task}
use actix_pura.Broker.Subscriptions.{
  get, Recipient, Subscription, Broker, Mailboxes, new_broker, get_previous_msg, issue_async,
  subscribe_sync,
}
use actix_pura.Broker.Offering.{Released, is_open, keeps, goes, copies}
use actix_pura.Broker.Issuing.{issue_async_lem}
use actix_pura.Broker.Remembering.{
  Request, subscription, issue, requests, last_issued, IsTyped, requests_remember,
}

-- Actor 0 has an empty mailbox that is open; the receivers of the others are gone.
abbrev empty_mailbox : ℕ → Channel ℕ
empty_mailbox word = record {
  buffer = 16;
  state = word;
  message_queue = [];
  parked_queue = [];
  num_senders = 2;
  sender_task = λ i. new_task;
  maybe_parked = λ i. false;
  wakes = 0;
}

abbrev mailboxes : Mailboxes ℕ
mailboxes a = if a == 0 then empty_mailbox 9223372036854775808 else empty_mailbox 0

abbrev subscribed : ℕ → ℕ → Subscription
subscribed id a = record {
  subscriber = id;
  msg_type = 5;
  recipient = record { actor = a; sender = 0 };
}

abbrev broker : Broker ℕ
broker = record {
  sub_map = (5, subscribed 1 0 ∷ subscribed 2 1 ∷ subscribed 3 0 ∷ []) ∷ [];
  msg_map = [];
}

mailboxes-Released : (a : ℕ) → Released (mailboxes a)
mailboxes-Released a shut i = ground arith

issue_async_lem_example :
    let w = issue_async 5 42 3 (broker, mailboxes) in
    let opens = λ (a : ℕ). is_open (mailboxes a) in
    (get 5 w.0.sub_map
      ≡ some (filter (keeps opens 3) (subscribed 1 0 ∷ subscribed 2 1 ∷ subscribed 3 0 ∷ [])))
    × ((a : ℕ)
        → (w.1 a).message_queue
          ≡ (mailboxes a).message_queue
            ++ copies 42
                (filter (goes opens 3 a) (subscribed 1 0 ∷ subscribed 2 1 ∷ subscribed 3 0 ∷ [])))
    × (get_previous_msg 5 w.0 ≡ some 42)
unfolding get
issue_async_lem_example =
    issue_async_lem 5 42 3 broker mailboxes _ refl (refl, (refl, (refl, tt))) mailboxes-Released

abbrev news : List (Request ℕ)
news = issue 5 42 3 ∷ subscription 5 (record { actor = 0; sender = 1 }) 4 ∷ issue 6 7 3 ∷ []

new_broker-IsTyped : IsTyped (new_broker {V = ℕ})
unfolding get
new_broker-IsTyped = record { filed = λ t l at. cc }

requests_remember_example :
    IsTyped (requests news (new_broker, mailboxes)).0
    × ((r : Recipient) (id : ℕ)
        → (subscribe_sync 5 r id (requests news (new_broker, mailboxes)).0).0
          ≡ last_issued 5 (get_previous_msg 5 (new_broker {V = ℕ})) news)
requests_remember_example = requests_remember 5 news (new_broker, mailboxes) new_broker-IsTyped
