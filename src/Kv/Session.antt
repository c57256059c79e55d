-- ===== src/Kv/Session.antt =====
-- `SessionState` of store.rs: which of a client's last 64 sequence numbers have been applied.
pub mod Bits
pub mod Window
use rust_kv.Base.{ℕ, ◌+◌, ◌-◌, ◌*◌, ◌/◌, ◌%◌, ◌^◌, ◌||◌, Bool, false, leb, ltb, ◌==◌, if◌then◌else◌}

abbrev pub session_window : ℕ
session_window = 64

-- Bit `i` of `recent` is set if `max_seq - i` has been applied.
pub record SessionState : Type 0 where
  pub max_seq : ℕ
  pub recent : ℕ

-- `x & (1 << i) != 0`
unfoldable pub test_bit : ℕ → ℕ → Bool
test_bit x i = x / 2 ^ i % 2 == 1

-- `x | (1 << i)`
unfoldable pub set_bit : ℕ → ℕ → ℕ
set_bit x i = if test_bit x i then x else x + 2 ^ i

-- `x.checked_shl(u32::try_from(shift).unwrap_or(u32::MAX)).unwrap_or(0)` on `u64`
unfoldable pub shift_left : ℕ → ℕ → ℕ
shift_left x shift =
    let s : ℕ = if ltb shift (2 ^ 32) then shift else 2 ^ 32 - 1 in
    if ltb s 64 then x * 2 ^ s % 2 ^ 64 else 0

unfoldable pub new : ℕ → SessionState
new seq = record { max_seq = seq; recent = 1 }

unfoldable pub contains : SessionState → ℕ → Bool
contains st seq =
    if ltb st.max_seq seq
    then false
    else leb session_window (st.max_seq - seq) || test_bit st.recent (st.max_seq - seq)

unfoldable pub record_seq : ℕ → SessionState → SessionState
record_seq seq st =
    if ltb st.max_seq seq
    then record { max_seq = seq; recent = set_bit (shift_left st.recent (seq - st.max_seq)) 0 }
    else if ltb (st.max_seq - seq) session_window
    then record st { recent = set_bit st.recent (st.max_seq - seq) }
    else st
