-- ===== src/Mailbox/State.antt =====
-- actix/src/address/channel.rs: the open flag and the number of messages in one `usize`.
-- A bit operation with a mask is written by `/` and `%`: `n & (2^63 - 1)` is `n % 2^63`, and
-- `n | 2^63` is `n % 2^63 + 2^63` for a `usize`.
use actix_pura.Prelude.{
  ℕ, ◌+◌, ◌-◌, ◌/◌, ◌%◌, ◌<◌, ◌≡◌, Bool, arith, ◌==◌, ◌&&◌, not, if◌then◌else◌, u64_mod,
}

-- `OPEN_MASK`, `MAX_CAPACITY` and `MAX_BUFFER`.
abbrev pub open_mask : ℕ
open_mask = 9223372036854775808

abbrev pub max_capacity : ℕ
max_capacity = u64_mod - 1 - open_mask

abbrev pub max_buffer : ℕ
max_buffer = max_capacity / 2

pub record State : Type 0 where
  pub is_open : Bool
  pub num_messages : ℕ

unfoldable pub is_closed : State → Bool
is_closed s = not s.is_open && s.num_messages == 0

unfoldable pub decode_state : ℕ → State
decode_state n = record { is_open = (n / open_mask) % 2 == 1; num_messages = n % open_mask }

unfoldable pub encode_state : State → ℕ
encode_state s = if s.is_open then s.num_messages % open_mask + open_mask else s.num_messages

-- Decoding gives back a state whose number of messages leaves the flag's bit alone.
pub decode-encode : (s : State) → s.num_messages < open_mask → decode_state (encode_state s) ≡ s
unfolding decode_state encode_state
decode-encode s h = ground arith

-- Encoding gives back every word of 64 bits.
pub encode-decode : (n : ℕ) → n < u64_mod → encode_state (decode_state n) ≡ n
unfolding decode_state encode_state
encode-decode n h = ground arith
