-- ===== src/Mailbox/Examples.antt =====
-- actix/src/address/channel.rs: the theorems at concrete channels, and runs of the operations.
use actix_pura.Prelude.{ℕ, ◌+◌, ◌≡◌, refl, true, false, some, none, [], ◌∷◌, ◌++◌, arith}
use actix_pura.Mailbox.State.{is_closed, decode_state, encode_state, decode-encode}
use actix_pura.Mailbox.Channel.{
  Channel, Envelope, closed, new_task, connected, send, try_send, do_send, inc_num_messages, update,
}
use actix_pura.Mailbox.Receiver.{drop_receiver, dec_num_messages}
use actix_pura.Mailbox.Invariant.{IsValid}
use actix_pura.Mailbox.Closing.{IsDropped, drop_receiver-IsDropped, send_closed}
use actix_pura.Mailbox.Delivery.{sends, does, receives, resizes, calls, calls_fifo}
use actix_pura.Mailbox.Atomic.{
  System, count, pop, Reach, here, next, Counts, discount_exact, closed_complete,
}

abbrev letter : ℕ → Envelope ℕ
letter m = record { message = m; tx = none }

-- An open channel for one message, which sender 0 has filled; sender 0 is parked.
abbrev filled_channel : Channel ℕ
filled_channel = record {
  buffer = 1;
  state = 9223372036854775809;
  message_queue = letter 7 ∷ [];
  parked_queue = 0 ∷ [];
  num_senders = 2;
  sender_task = update (λ i. new_task) 0 (record { task = none; is_parked = true });
  maybe_parked = update (λ i. false) 0 true;
  wakes = 1;
}

filled_channel-IsValid : IsValid filled_channel
unfolding decode_state
filled_channel-IsValid = record {
  word = omega arith;
  counted = refl;
  parked = λ i. ground arith;
  distinct = (refl, tt);
  knows = λ i o p. ground arith;
}

decode-encode_example :
    decode_state (encode_state (record { is_open = true; num_messages = 5 }))
    ≡ record { is_open = true; num_messages = 5 }
decode-encode_example = decode-encode (record { is_open = true; num_messages = 5 }) (omega arith)

drop_receiver-IsDropped_example :
    (c' : Channel ℕ) × (drop_receiver 2 filled_channel ≡ some c') × IsDropped c'
drop_receiver-IsDropped_example =
    drop_receiver-IsDropped 2 filled_channel filled_channel-IsValid (omega arith)

-- A channel whose receiver is gone.
abbrev dropped_channel : Channel ℕ
dropped_channel = record filled_channel {
  state = 0;
  message_queue = [];
  parked_queue = [];
  sender_task = λ i. new_task;
}

dropped_channel-IsDropped : IsDropped dropped_channel
unfolding decode_state connected
dropped_channel-IsDropped = record {
  valid = record {
    word = omega arith;
    counted = refl;
    parked = λ i. refl;
    distinct = tt;
    knows = λ i o p. ground arith;
  };
  emptied = refl;
  unparked = refl;
  shut = refl;
}

send_closed_example :
    ((send 0 5 41 dropped_channel).0 ≡ closed 5)
    × ((try_send 0 5 true dropped_channel).0 ≡ closed 5)
    × (do_send 5 dropped_channel ≡ (closed 5, dropped_channel))
    × ((send 0 5 41 dropped_channel).1.message_queue ≡ [])
    × ((try_send 0 5 true dropped_channel).1.message_queue ≡ [])
send_closed_example = send_closed 0 5 41 true dropped_channel dropped_channel-IsDropped

calls_fifo_example :
    let (a, d, k) = calls (sends 1 8 40 ∷ receives ∷ does 9 ∷ resizes 3 ∷ []) filled_channel in
    letter 7 ∷ a ≡ d ++ k.message_queue
calls_fifo_example = calls_fifo (sends 1 8 40 ∷ receives ∷ does 9 ∷ resizes 3 ∷ []) filled_channel

-- One message queued, nothing on its way.
abbrev system : System ℕ
system = record { shared = filled_channel; in_flight = []; taken = 0 }

system-Counts : Counts system
unfolding decode_state
system-Counts = record { word = omega arith; total = refl }

-- The receiver pops while a sender has counted a message that it has not yet pushed.
abbrev counted_channel : Channel ℕ
counted_channel = record filled_channel { state = 9223372036854775810 }

counting : inc_num_messages filled_channel ≡ some (2, counted_channel)
unfolding inc_num_messages decode_state encode_state
counting = refl

abbrev popped : System ℕ
popped = record {
  shared = record counted_channel { message_queue = [] };
  in_flight = letter 8 ∷ [];
  taken = 1;
}

popped-Reach : Reach system popped
popped-Reach = next (next here (count (letter 8) counting (omega arith))) (pop (letter 7) [] refl)

discount_exact_example :
    ((dec_num_messages popped.shared).state + 1 ≡ popped.state)
    × ((decode_state (dec_num_messages popped.shared).state).is_open
        ≡ (decode_state popped.state).is_open)
discount_exact_example = discount_exact {s = system} {t = popped} 0 system-Counts popped-Reach refl

-- A closed channel whose last message was popped and counted off.
abbrev over : System ℕ
over = record { shared = dropped_channel; in_flight = []; taken = 0 }

over-Counts : Counts over
unfolding decode_state
over-Counts = record { word = omega arith; total = refl }

closed_complete_example : (over.message_queue ≡ []) × (over.in_flight ≡ []) × (over.taken ≡ 0)
unfolding decode_state is_closed
closed_complete_example = closed_complete {s = over} {t = over} over-Counts here refl
