-- ===== src/Mailbox/Channel.antt =====
-- actix/src/address/channel.rs: the shared state of a channel and the operations of its two ends,
-- each as one step. A sender is a number, which stands for its `Arc<Mutex<SenderTask>>`; a waker
-- and a reply channel are numbers too. `wakes` counts the calls of `recv_task.wake()`.
use actix_pura.Prelude.{
  ℕ, ◌+◌, Bool, true, false, Option, none, some, List, [], ◌∷◌, ◌++◌, leb, ltb, ◌==◌, ◌&&◌, not,
  if◌then◌else◌, add64, sub64,
}
use actix_pura.Mailbox.State.{open_mask, max_capacity, max_buffer, decode_state, encode_state}

pub record SenderTask : Type 0 where
  pub task : Option ℕ
  pub is_parked : Bool

abbrev pub new_task : SenderTask
new_task = record { task = none; is_parked = false }

-- What a sender puts in the queue: the message, and where the reply goes.
pub record Envelope (M : Type 0) : Type 0 where
  pub message : M
  pub tx : Option ℕ

-- `Inner`, with the part of each sender beside it.
pub record Channel (M : Type 0) : Type 0 where
  pub buffer : ℕ
  pub state : ℕ
  pub message_queue : List (Envelope M)
  pub parked_queue : List ℕ
  pub num_senders : ℕ
  pub sender_task : ℕ → SenderTask
  pub maybe_parked : ℕ → Bool
  pub wakes : ℕ

-- `Result<A, SendError<M>>`
pub data SendResult (M A : Type 0) : Type 0 where
  sent : A → SendResult M A
  full : M → SendResult M A
  closed : M → SendResult M A

-- `Poll<Option<Envelope<A>>>`
pub data Poll (A : Type 0) : Type 0 where
  ready : A → Poll A
  finished : Poll A
  pending : Poll A

abbrev pub update {ℓ} : {A : Type ℓ} → (ℕ → A) → ℕ → A → ℕ → A
update f i v j = if i == j then v else f j

-- `SenderTask::notify`
unfoldable pub notify : SenderTask → SenderTask
notify t = record { task = none; is_parked = false }

module _ {M : Type 0} where
  -- `channel`; `none` is the failed assertion.
  unfoldable pub channel : ℕ → Option (Channel M)
  channel buffer =
      if ltb buffer max_buffer
      then some (record {
        buffer = buffer;
        state = open_mask;
        message_queue = [];
        parked_queue = [];
        num_senders = 1;
        sender_task = λ i. new_task;
        maybe_parked = λ i. false;
        wakes = 0;
      })
      else none

  -- `AddressSender::connected`
  unfoldable pub connected : Channel M → Bool
  connected c = (decode_state c.state).is_open

  -- `inc_num_messages`, whose loop ends once its exchange succeeds.
  unfoldable pub inc_num_messages : Channel M → Option (ℕ × Channel M)
  inc_num_messages c =
      let s = decode_state c.state in
      let n = s.num_messages + 1 in
      if s.is_open
      then some (n, record c { state = encode_state (record s { num_messages = n }) })
      else none

  -- `park`
  unfoldable pub park : ℕ → Channel M → Channel M
  park i c = record c {
    sender_task = update c.sender_task i (record { task = none; is_parked = true });
    parked_queue = c.parked_queue ++ i ∷ [];
    maybe_parked = update c.maybe_parked i (decode_state c.state).is_open;
  }

  -- `poll_unparked(false, None)`: is the sender ready?
  unfoldable pub poll_unparked : ℕ → Channel M → Bool × Channel M
  poll_unparked i c =
      if c.maybe_parked i
      then (if (c.sender_task i).is_parked
          then (
            false,
            record c {
              sender_task = update c.sender_task i (record { task = none; is_parked = true });
            },
          )
          else (true, record c { maybe_parked = update c.maybe_parked i false }))
      else (true, c)

  -- `queue_push_and_signal`
  unfoldable pub queue_push_and_signal : Envelope M → Channel M → Channel M
  queue_push_and_signal e c = record c {
    message_queue = c.message_queue ++ e ∷ [];
    wakes = c.wakes + 1;
  }

  -- `buffer != 0 && num_messages >= buffer`
  abbrev pub is_full : ℕ → Channel M → Bool
  is_full n c = not (c.buffer == 0) && leb c.buffer n

  -- Count the message, park the sender if it may and the channel is full, and push the message.
  unfoldable pub enqueue : Bool → ℕ → Envelope M → Channel M → SendResult M (Unit {0}) × Channel M
  enqueue may_park i e c = elim (inc_num_messages c) [
    | none ↦ (closed e.message, c)
    | some (n, c') ↦
        (sent tt, queue_push_and_signal e (if is_full n c' && may_park then park i c' else c'))
  ]

  -- `send`, with the reply channel that it makes, and `try_send`.
  unfoldable pub send : ℕ → M → ℕ → Channel M → SendResult M (Unit {0}) × Channel M
  send i m tx c =
      let (is_ready, c') = poll_unparked i c in
      if is_ready then enqueue true i (record { message = m; tx = some tx }) c' else (full m, c')

  unfoldable pub try_send : ℕ → M → Bool → Channel M → SendResult M (Unit {0}) × Channel M
  try_send i m may_park c =
      let (is_ready, c') = poll_unparked i c in
      if is_ready then enqueue may_park i (record { message = m; tx = none }) c' else (full m, c')

  -- `do_send`
  unfoldable pub do_send : M → Channel M → SendResult M (Unit {0}) × Channel M
  do_send m c = elim (inc_num_messages c) [
    | none ↦ (closed m, c)
    | some (_, c') ↦ (sent tt, queue_push_and_signal (record { message = m; tx = none }) c')
  ]

  -- `Clone for AddressSender`, and `sender`, which gives sender `i` new cells; `none` is a panic.
  unfoldable pub new_sender : ℕ → Channel M → Option (Channel M)
  new_sender i c =
      if c.num_senders == sub64 max_capacity c.buffer
      then none
      else some (record c {
        num_senders = add64 c.num_senders 1;
        sender_task = update c.sender_task i new_task;
        maybe_parked = update c.maybe_parked i false;
      })

  -- `Drop for AddressSender`
  unfoldable pub drop_sender : Channel M → Channel M
  drop_sender c =
      let c' = record c { num_senders = sub64 c.num_senders 1 } in
      if c.num_senders == 1 then record c' { wakes = c.wakes + 1 } else c'
