-- ===== src/Rng.antt =====
-- rng.rs: SplitMix64. A `u64` is a number with its wrap-around written out.
pub mod Range
use Prim.Native.Nat.{bit_xor}
use rust_kv.Base.{ℕ, ◌+◌, ◌-◌, ◌*◌, ◌/◌, ◌%◌, ◌^◌, Option, none, some, leb, ◌==◌, if◌then◌else◌}

pub record SplitMix64 : Type 0 where
  pub state : ℕ

unfoldable pub new : ℕ → SplitMix64
new seed = record { state = seed }

unfoldable pub next_u64 : SplitMix64 → ℕ × SplitMix64
next_u64 r =
    let state : ℕ = (r.state + 0x9E3779B97F4A7C15) % 2 ^ 64 in
    let a : ℕ = bit_xor state (state / 2 ^ 30) * 0xBF58476D1CE4E5B9 % 2 ^ 64 in
    let b : ℕ = bit_xor a (a / 2 ^ 27) * 0x94D049BB133111EB % 2 ^ 64 in
    (bit_xor b (b / 2 ^ 31), record { state = state })

-- `none` is the panic of the assertion that the range is not empty.
unfoldable pub next_range : SplitMix64 → ℕ → ℕ → Option (ℕ × SplitMix64)
next_range r lo hi =
    let (z, r') = next_u64 r in
    let span : ℕ = (hi - lo + 1) % 2 ^ 64 in
    if leb lo hi then some ((if span == 0 then z else lo + z % span), r') else none
