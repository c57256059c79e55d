-- ===== src/Kv/Session/Bits.antt =====
-- The bits of a mask after a bit is set, and after a shift that drops what leaves 64 bits.
use native.Mathlib.Nat.{pow-suc, div-div-eq-div-mul, div-add-mod}
use native.Mathlib.Decide.{dec_lt}
use rust_kv.Base.{
  ℕ, zero, suc, ◌+◌, ◌-◌, ◌*◌, ◌/◌, ◌%◌, ◌^◌, ◌<◌, ◌≤◌, ◌≡◌, ap, sym, ◌∙◌, false, ◌||◌, arith, leb,
  lt→ltb, ◌==◌, if◌then◌else◌,
}
use rust_kv.Kv.Session.{test_bit, set_bit, shift_left}

test_bit-zero : (x : ℕ) → test_bit x 0 ≡ (x % 2 == 1)
unfolding test_bit
test_bit-zero x = ap (λ (t : ℕ). t % 2 == 1) (let p : x / 2 ^ 0 ≡ x = omega arith in p)

test_bit-suc : (x i : ℕ) → test_bit x (suc i) ≡ test_bit (x / 2) i
unfolding test_bit
test_bit-suc x i =
    let p : 2 ^ suc i ≡ 2 * 2 ^ i = omega (arith, pow-suc 2 i) in
    rw p (rw (div-div-eq-div-mul x 2 (2 ^ i)))

-- Setting a bit above the lowest leaves the lowest, and sets a bit of the half.
half-set_bit :
    (x i : ℕ) → (set_bit x (suc i) / 2 ≡ set_bit (x / 2) i) × (set_bit x (suc i) % 2 ≡ x % 2)
unfolding set_bit
half-set_bit x i = ground (arith, test_bit-suc x i, pow-suc 2 i)

-- The half of a mask whose lowest bit is set is the half of the mask.
half-set_lowest : (x : ℕ) → set_bit x 0 / 2 ≡ x / 2
unfolding set_bit
half-set_lowest x = ground (arith, test_bit-zero x)

lowest-set_bit : (x : ℕ) → set_bit x 0 % 2 ≡ 1
unfolding set_bit
lowest-set_bit x = ground (arith, test_bit-zero x)

pub test_bit-set_bit : (x i j : ℕ) → test_bit (set_bit x i) j ≡ (j == i || test_bit x j)
test_bit-set_bit x zero zero = rw (test_bit-zero (set_bit x 0)) (ground (arith, lowest-set_bit x))
test_bit-set_bit x zero (suc j) =
    rw (test_bit-suc (set_bit x 0) j)
      (rw (half-set_lowest x) (rw (test_bit-suc x j) (ground arith)))
test_bit-set_bit x (suc i) zero =
    ground (arith, test_bit-zero x, test_bit-zero (set_bit x (suc i)), half-set_bit x i)
test_bit-set_bit x (suc i) (suc j) = rw (test_bit-suc (set_bit x (suc i)) j) (
    rw ((half-set_bit x i).0)
      (rw (test_bit-suc x j) (ground (arith, test_bit-set_bit (x / 2) i j))))

-- A multiple of `2 ^ k` does not show in the bits below `k`.
test_bit-add_high : (k j r q : ℕ) → j < k → test_bit (r + 2 ^ k * q) j ≡ test_bit r j
test_bit-add_high zero j r q h = absurd (omega arith)
test_bit-add_high (suc k) zero r q h =
    let p : 2 ^ suc k * q ≡ 2 * (2 ^ k * q) = omega (arith, ap (λ (t : ℕ). t * q) (pow-suc 2 k)) in
    rw (test_bit-zero (r + 2 ^ suc k * q)) (rw (test_bit-zero r) (ground (arith, p)))
test_bit-add_high (suc k) (suc j) r q h =
    let p : 2 ^ suc k * q ≡ 2 * (2 ^ k * q) = omega (arith, ap (λ (t : ℕ). t * q) (pow-suc 2 k)) in
    let half : (r + 2 ^ suc k * q) / 2 ≡ r / 2 + 2 ^ k * q = omega (arith, p) in
    rw (test_bit-suc (r + 2 ^ suc k * q) j)
      (rw half (rw (test_bit-suc r j) (test_bit-add_high k j (r / 2) q (omega arith))))

test_bit-mod : (k j x : ℕ) → j < k → test_bit (x % 2 ^ k) j ≡ test_bit x j
test_bit-mod k j x h =
    let p : x % 2 ^ k + 2 ^ k * (x / 2 ^ k) ≡ x = omega (arith, div-add-mod x (2 ^ k)) in
    sym (test_bit-add_high k j (x % 2 ^ k) (x / 2 ^ k) h) ∙ ap (λ (t : ℕ). test_bit t j) p

test_bit-mul_pow :
    (s j x : ℕ) → test_bit (x * 2 ^ s) j ≡ (if leb s j then test_bit x (j - s) else false)
test_bit-mul_pow zero j x =
    let p : x * 2 ^ 0 ≡ x = omega arith in
    let q : j - 0 ≡ j = omega arith in ap (λ (t : ℕ). test_bit t j) p ∙ ground (arith, q)
test_bit-mul_pow (suc s) zero x =
    let p : x * 2 ^ suc s ≡ 2 * (x * 2 ^ s) = omega (arith, ap (λ (t : ℕ). x * t) (pow-suc 2 s)) in
    rw (test_bit-zero (x * 2 ^ suc s)) (ground (arith, p))
test_bit-mul_pow (suc s) (suc j) x =
    let p : x * 2 ^ suc s ≡ 2 * (x * 2 ^ s) = omega (arith, ap (λ (t : ℕ). x * t) (pow-suc 2 s)) in
    let half : x * 2 ^ suc s / 2 ≡ x * 2 ^ s = omega (arith, p) in
    let q : suc j - suc s ≡ j - s = omega arith in
    rw (test_bit-suc (x * 2 ^ suc s) j) (rw half (rw q (ground (arith, test_bit-mul_pow s j x))))

pub test_bit-none : (j : ℕ) → test_bit 0 j ≡ false
test_bit-none zero = rw (test_bit-zero 0)
test_bit-none (suc j) = test_bit-suc 0 j ∙ test_bit-none j

shift_left-of_lt : (x s : ℕ) → s < 64 → shift_left x s ≡ x * 2 ^ s % 2 ^ 64
unfolding shift_left
shift_left-of_lt x s h = rw (lt→ltb s (2 ^ 32) (omega arith)) (rw (lt→ltb s 64 h))

shift_left-of_ge : (x s : ℕ) → 64 ≤ s → shift_left x s ≡ 0
unfolding shift_left
shift_left-of_ge x s h = ground arith

-- Within the 64 bits a shift moves every bit up; past them nothing is left.
pub test_bit-shift_left :
    (x s j : ℕ)
    → j < 64
    → test_bit (shift_left x s) j ≡ (if leb s j then test_bit x (j - s) else false)
test_bit-shift_left x s j h = elim (dec_lt s 64) [
  | yes small ↦
      rw (shift_left-of_lt x s small) (test_bit-mod 64 j (x * 2 ^ s) h ∙ test_bit-mul_pow s j x)
  | no large ↦ rw (shift_left-of_ge x s (omega arith)) (test_bit-none j ∙ ground arith)
]
