-- ===== src/Runtime/Examples.antt =====
-- actix/src/context_impl.rs, actix/src/supervisor.rs: the theorems at a concrete actor, and runs.
use actix_pura.Prelude.{
  ℕ, zero, suc, ◌+◌, ◌≡◌, refl, Bool, true, false, Option, none, some, List, [], ◌∷◌, ◌==◌,
  if◌then◌else◌, unwrap_or,
}
use actix_pura.Mailbox.Channel.{
  Channel, Envelope, new_task, do_send, inc_num_messages, queue_push_and_signal,
}
use actix_pura.Runtime.Context.{new_parts, waiting, stop_parts, restart_parts, state}
use actix_pura.Runtime.Life.{
  Behaviour, Call, Progress, Running, Event, ContextFut, letter, call, calls, perform, is_modified,
  merge, alive, clean_canceled_handle, clean_handles, clean_handle, remove_loop, last_first, set,
}
use actix_pura.Runtime.Poll.{
  supervise, poll, rounds, round, start, run_round, end_round, has_more, truncate_handles,
  check_state, ask_to_stop, finish, restart, run_again,
}
use actix_pura.Mailbox.State.{decode_state, encode_state, is_closed}
use actix_pura.Mailbox.Receiver.{poll_next, next_message, dec_num_messages, unpark_one}
use actix_pura.Runtime.Loops.{
  wait_loop, mailbox_loop, handle_message, item_loop, poll_item, put_item,
}
use actix_pura.Runtime.Delivering.{IsInOrder, supervise-IsInOrder, accepted_in, handled_in}
use actix_pura.Runtime.Lifecycle.{phase_from, phase, phase_of, supervise_lives}

-- An actor that adds up its messages, and stops on a 0. Its futures count down.
abbrev adder : Behaviour ℕ ℕ ℕ
adder = record {
  started = λ a c. (a, Call.spawn 1 ∷ []);
  handle = λ e a c. (
    a + e.message,
    if e.message == 0 then Call.stop ∷ [] else if e.message == 5 then Call.send 9 ∷ [] else [],
  );
  poll = λ f a c. (elim f [ zero ↦ Progress.done | suc n ↦ Progress.pending n ], a, []);
  stopping = λ a c. (Running.stop, a, []);
  stopped = λ a c. (a, []);
  restarting = λ a c. (0, []);
}

abbrev queued : List (Envelope ℕ)
queued = letter 5 ∷ letter 0 ∷ letter 0 ∷ []

abbrev mailbox : Channel ℕ
mailbox = record {
  buffer = 16;
  state = 9223372036854775811;
  message_queue = queued;
  parked_queue = [];
  num_senders = 1;
  sender_task = λ i. new_task;
  maybe_parked = λ i. false;
  wakes = 0;
}

abbrev fresh : ContextFut ℕ ℕ ℕ
fresh = record { parts = new_parts; act = 0; mailbox = mailbox; wait = []; items = []; events = [] }

-- The futures of an actor, and how often it was started.
abbrev items_after : Option (Bool × ContextFut ℕ ℕ ℕ) → Option (List (ℕ × ℕ))
items_after none = none
items_after (some (_, w)) = some w.items

abbrev starts : List (Event ℕ) → ℕ
starts [] = 0
starts (Event.started ∷ es) = suc (starts es)
starts (e ∷ es) = starts es

abbrev poll_twice : Behaviour ℕ ℕ ℕ → Option (Bool × ContextFut ℕ ℕ ℕ)
poll_twice b = elim (poll b 9 fresh) [ none ↦ none | some (_, w) ↦ poll b 9 w ]

abbrev count_started : Option (Bool × ContextFut ℕ ℕ ℕ) → Option ℕ
count_started none = none
count_started (some (_, w)) = some (starts w.events)

abbrev run : Option (Bool × ContextFut ℕ ℕ ℕ)
run = supervise adder 9 fresh

abbrev outcome : Bool × ContextFut ℕ ℕ ℕ
outcome = unwrap_or (false, fresh) run

-- An actor with one future that is always pending, which a message 1 cancels before it stops.
abbrev canceller : Behaviour ℕ ℕ ℕ
canceller = record adder {
  started = λ a c. (a, Call.spawn 1 ∷ []);
  handle = λ e a c. (a, Call.cancel_future 1 ∷ Call.stop ∷ []);
  poll = λ f a c. (Progress.pending f, a, []);
}

-- An actor that terminates itself when it is asked to stop, and then wants to go on.
abbrev undecided : Behaviour ℕ ℕ ℕ
undecided = record adder {
  started = λ a c. (a, []);
  handle = λ e a c. (a, Call.stop ∷ []);
  stopping = λ a c. (Running.continue, a, Call.terminate ∷ []);
}

abbrev cancelling_mailbox : Channel ℕ
cancelling_mailbox = record mailbox { message_queue = letter 1 ∷ []; state = 9223372036854775809 }

-- The adder is stopped and restarted twice, and is handed the message that it sent itself last. A
-- handle that is cancelled outlives a restart, and takes the future of the new life with it. An
-- actor that terminates itself and goes on is left without the mark that it was started, so that
-- the next poll starts it again.
runs_end :
    (run ≡ some outcome)
    × (outcome.1.act ≡ 9)
    × (items_after (supervise canceller 9 (record fresh { mailbox = cancelling_mailbox }))
        ≡ some [])
    × (count_started (poll_twice undecided) ≡ some 2)
unfolding remove_loop last_first clean_handle run_again decode_state encode_state is_closed do_send
    inc_num_messages queue_push_and_signal poll_next next_message dec_num_messages unpark_one
    waiting stop_parts restart_parts state call calls perform is_modified merge alive
    clean_canceled_handle clean_handles set wait_loop mailbox_loop handle_message item_loop
    poll_item put_item supervise poll rounds round start run_round end_round has_more
    truncate_handles check_state ask_to_stop finish restart
runs_end = (refl, refl, refl, refl)

supervise-IsInOrder_example : IsInOrder queued outcome.1
unfolding accepted_in handled_in
supervise-IsInOrder_example = supervise-IsInOrder adder queued 9 fresh runs_end.0 refl

supervise_lives_example :
    (phase outcome.1.events ≡ some (phase_of outcome.0))
    × (outcome.0 ≡ true → outcome.1.mailbox.num_senders ≡ 0)
unfolding phase_from
supervise_lives_example = supervise_lives adder 9 fresh runs_end.0 refl
