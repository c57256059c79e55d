-- ===== src/Storage/Contiguous.antt =====
-- The indexes of the retained log of raft/storage.rs.
use rust_kv.Base.{
  ℕ, zero, suc, ◌+◌, ◌≤◌, ◌≡◌, refl, some, List, [], ◌∷◌, ◌++◌, arith, length, take, drop, ◌-◌,
  drop-nil, ltb, Bool-cases, inl, inr, ◌==◌, get_elem?,
}
use rust_kv.Types.{LogIndex, LogEntry}
use rust_kv.Storage.{Storage, ok, snapshot_index, check_contiguous}

module _ {V : Type 0} where
  -- The entries have the indexes after `i`, in order.
  abbrev pub Follows : LogIndex → List (LogEntry V) → Type 0
  Follows i [] = Unit
  Follows i (e ∷ es) = (e.index ≡ suc i) × Follows (suc i) es

  abbrev pub IsContiguous : Storage V → Type 0
  IsContiguous s = Follows (snapshot_index s) s.log

  pub Follows-append :
      (i : ℕ) (xs ys : List (LogEntry V))
      → Follows i xs
      → Follows (i + length xs) ys
      → Follows i (xs ++ ys)
  Follows-append i [] ys hx hy = let e : i + 0 ≡ i = omega arith in rw e at hy
  Follows-append i (x ∷ xs) ys hx hy =
      let e : i + suc (length xs) ≡ suc i + length xs = omega arith in
      (hx.0, Follows-append (suc i) xs ys hx.1 (rw e at hy))

  pub Follows-take : (i n : ℕ) (xs : List (LogEntry V)) → Follows i xs → Follows i (take n xs)
  Follows-take i zero xs h = tt
  Follows-take i (suc n) [] h = tt
  Follows-take i (suc n) (x ∷ xs) h = (h.0, Follows-take (suc i) n xs h.1)

  pub Follows-drop :
      (i n : ℕ) (xs : List (LogEntry V))
      → Follows i xs
      → n ≤ length xs
      → Follows (i + n) (drop n xs)
  Follows-drop i zero xs h le = let e : i + 0 ≡ i = omega arith in rw e h
  Follows-drop i (suc n) [] h le = absurd (omega arith)
  Follows-drop i (suc n) (x ∷ xs) h le =
      let e : i + suc n ≡ suc i + n = omega arith in
      rw e (Follows-drop (suc i) n xs h.1 (omega arith))

  -- The drop may go past the end.
  pub Follows-drop_past :
      (i j : ℕ) (xs : List (LogEntry V)) → Follows i xs → i ≤ j → Follows j (drop (j - i) xs)
  Follows-drop_past i j [] h le = rw (drop-nil {A = LogEntry V} (j - i)) tt
  Follows-drop_past i j (x ∷ xs) h le = elim (Bool-cases (ltb i j)) [
    | inl lt ↦
        let d : j - i ≡ suc (j - suc i) = ground arith in
        rw d (Follows-drop_past (suc i) j xs h.1 (ground arith))
    | inr ge ↦ let e : j ≡ i = ground arith in let d : i - i ≡ 0 = omega arith in rw (e, d) h
  ]

  pub index_of_get :
      (i p : ℕ) (xs : List (LogEntry V)) {e : LogEntry V}
      → Follows i xs
      → get_elem? xs p ≡ some e
      → e.index ≡ i + p + 1
  index_of_get i p [] h q = cc
  index_of_get i zero (x ∷ xs) h q = ground arith
  index_of_get i (suc p) (x ∷ xs) h q = omega (arith, index_of_get (suc i) p xs h.1 q)

  pub check_of_Follows :
      (i : ℕ) (es : List (LogEntry V)) → Follows i es → check_contiguous (i + 1) es ≡ ok tt
  unfolding check_contiguous
  check_of_Follows i [] h = refl
  check_of_Follows i (e ∷ es) h = ground (arith, check_of_Follows (suc i) es h.1)

  pub Follows-of_check :
      (i : ℕ) (es : List (LogEntry V)) → check_contiguous (i + 1) es ≡ ok tt → Follows i es
  unfolding check_contiguous
  Follows-of_check i [] h = tt
  Follows-of_check i (e ∷ es) h = elim (Bool-cases (e.index == i + 1)) [
    | inl same ↦
        let q : i + 1 ≡ suc i = omega arith in
        (ground arith, Follows-of_check (suc i) es (ground (arith, h, q)))
    | inr other ↦ ground arith
  ]
