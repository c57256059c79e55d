-- ===== src/Rng/Range.antt =====
-- The values that the generator of rng.rs draws.
use Prim.Native.Nat.{bit_xor, bit_xor-bitwise, digits, differ}
use native.Mathlib.Nat.{pow-suc}
use rust_kv.Base.{
  ℕ, zero, suc, ◌+◌, ◌-◌, ◌/◌, ◌%◌, ◌^◌, ◌≤◌, ◌<◌, arith, ◌==◌, inl, inr, Bool-cases, le→leb,
}
use rust_kv.Outcome.{Returns, returns}
use rust_kv.Rng.{SplitMix64, next_u64, next_range}

differ-lt : (a b : ℕ) → a < 2 → b < 2 → differ a b < 2
differ-lt zero b ha hb = hb
differ-lt (suc zero) zero ha hb = omega arith
differ-lt (suc zero) (suc zero) ha hb = omega arith
differ-lt (suc zero) (suc (suc b)) ha hb = absurd (omega arith)
differ-lt (suc (suc a)) b ha hb = absurd (omega arith)

-- Exclusive or sets no bit at or above the highest of its operands.
digits-lt : (n k a b : ℕ) → a < 2 ^ k → b < 2 ^ k → digits (λ x. x) differ n a b < 2 ^ k
digits-lt zero k a b ha hb = hb
digits-lt (suc n) k zero b ha hb = hb
digits-lt (suc n) zero (suc a) b ha hb = absurd (omega arith)
digits-lt (suc n) (suc k) (suc a) b ha hb = omega (
  arith,
  pow-suc 2 k,
  digits-lt n k (suc a / 2) (b / 2) (omega (arith, pow-suc 2 k)) (omega (arith, pow-suc 2 k)),
  differ-lt (suc a % 2) (b % 2) (omega arith) (omega arith),
)

bit_xor-lt : (k a b : ℕ) → a < 2 ^ k → b < 2 ^ k → bit_xor a b < 2 ^ k
bit_xor-lt k a b ha hb = rw (bit_xor-bitwise a b) (digits-lt a k a b ha hb)

pub next_u64-lt : (r : SplitMix64) → (next_u64 r).0 < 2 ^ 64
unfolding next_u64
next_u64-lt r = bit_xor-lt 64 _ _ (omega arith) (omega arith)

abbrev pub InRange : ℕ → ℕ → ℕ × SplitMix64 → Type 0
InRange lo hi (z, r) = (lo ≤ z) × (z ≤ hi)

-- A draw from a range `lo..=hi` of `u64` values returns if `lo <= hi`, and its value lies in the
-- range, the full range included.
pub next_range_bounds :
    (r : SplitMix64) (lo hi : ℕ)
    → lo ≤ hi
    → hi < 2 ^ 64
    → Returns (InRange lo hi) (next_range r lo hi)
unfolding next_range
next_range_bounds r lo hi le small = rw (le→leb lo hi le) (
    returns (elim (Bool-cases ((hi - lo + 1) % 2 ^ 64 == 0)) [
      | inl full ↦ ground (arith, next_u64-lt r, full)
      | inr part ↦ ground (arith, part)
    ]))
