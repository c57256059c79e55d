-- ===== src/Kv/Session/Window.antt =====
-- The window of sequence numbers: what is remembered after one more is recorded, and after many.
use rust_kv.Base.{
  ℕ, inl, inr, Bool-cases, ltb→lt, ◌+◌, ◌-◌, ◌<◌, ◌≡◌, refl, true, false, ◌||◌, List, [], ◌∷◌, max,
  arith, leb, ltb, ◌==◌,
}
use rust_kv.Maps.{member}
use rust_kv.Kv.Session.{
  SessionState, session_window, test_bit, set_bit, shift_left, new, contains, record_seq,
}
use rust_kv.Kv.Session.Bits.{test_bit-set_bit, test_bit-shift_left, test_bit-none}

-- In the window of the new state exactly the recorded number is new: no applied number is forgotten
-- there and none is made up.
contains-record_seq :
    (st : SessionState) (seq q : ℕ)
    → (record_seq seq st).max_seq - q < session_window
    → contains (record_seq seq st) q ≡ (q == seq || contains st q)
unfolding contains record_seq
contains-record_seq st seq q h = ground (
  arith,
  test_bit-set_bit (shift_left st.recent (seq - st.max_seq)) 0 (seq - q),
  test_bit-shift_left st.recent (seq - st.max_seq) (seq - q),
  test_bit-set_bit st.recent (st.max_seq - seq) (st.max_seq - q),
)

-- The highest number recorded, and the set of numbers in the window.
max_seq-record_seq :
    (st : SessionState) (seq : ℕ) → (record_seq seq st).max_seq ≡ max seq st.max_seq
unfolding record_seq
max_seq-record_seq st seq = ground arith

-- Below the window every number counts as recorded.
contains-of_far :
    (st : SessionState) (q : ℕ) → ltb (st.max_seq - q) session_window ≡ false → contains st q ≡ true
unfolding contains
contains-of_far st q far = ground (arith, far)

set_lowest : set_bit 0 0 ≡ 1
unfolding set_bit test_bit
set_lowest = refl

contains-new : (seq q : ℕ) → seq - q < session_window → contains (new seq) q ≡ (q == seq)
unfolding contains new
contains-new seq q h =
    ground (arith, test_bit-set_bit 0 0 (seq - q), test_bit-none (seq - q), set_lowest)

-- What one more number adds: itself, and all that falls 64 or more behind it.
pub contains-record_seq_all :
    (st : SessionState) (seq q : ℕ)
    → contains (record_seq seq st) q ≡ ((q == seq || leb (q + 64) seq) || contains st q)
contains-record_seq_all st seq q =
    elim (Bool-cases (ltb ((record_seq seq st).max_seq - q) session_window)) [
      | inl near ↦
          ground
            (arith, contains-record_seq st seq q (ltb→lt _ _ near), max_seq-record_seq st seq, near)
      | inr far ↦ ground (
        arith,
        contains-of_far (record_seq seq st) q far,
        contains-of_far st q,
        max_seq-record_seq st seq,
        far,
      )
    ]

pub contains-new_all : (seq q : ℕ) → contains (new seq) q ≡ (q == seq || leb (q + 64) seq)
unfolding new
contains-new_all seq q = elim (Bool-cases (ltb (seq - q) session_window)) [
  | inl near ↦ ground (arith, contains-new seq q (ltb→lt _ _ near), near)
  | inr far ↦ ground (arith, contains-of_far (new seq) q far, far)
]

-- What is 64 or more behind a recorded number counts as recorded.
pub contains-of_lower :
    (st : SessionState) (u q : ℕ)
    → contains st u ≡ true
    → leb (q + 64) u ≡ true
    → contains st q ≡ true
unfolding contains
contains-of_lower st u q h low = ground arith

-- The window tells exactly which of `xs` have been recorded.
abbrev pub Remembers : SessionState → List ℕ → Type 0
Remembers st xs = (q : ℕ) → st.max_seq - q < session_window → contains st q ≡ member q xs

pub record_seq-Remembers :
    (st : SessionState) (seq : ℕ) (xs : List ℕ)
    → Remembers st xs
    → Remembers (record_seq seq st) (seq ∷ xs)
record_seq-Remembers st seq xs r q h =
    ground (arith, contains-record_seq st seq q h, r q, max_seq-record_seq st seq)

-- A client's session after the numbers `xs`, the latest first.
abbrev pub session_after : ℕ → List ℕ → SessionState
session_after first [] = new first
session_after first (x ∷ xs) = record_seq x (session_after first xs)

abbrev pub history : ℕ → List ℕ → List ℕ
history first [] = first ∷ []
history first (x ∷ xs) = x ∷ history first xs

-- Whatever numbers a client's session has recorded, and in whatever order, the 64-bit window tells
-- exactly which of the numbers within 64 of the highest they were.
pub session_after-Remembers :
    (first : ℕ) (xs : List ℕ) → Remembers (session_after first xs) (history first xs)
unfolding new
session_after-Remembers first [] = λ q h. ground (arith, contains-new first q h)
session_after-Remembers first (x ∷ xs) =
    record_seq-Remembers (session_after first xs) x (history first xs)
      (session_after-Remembers first xs)
