-- ===== src/Storage/Lookup.antt =====
-- What `entry` and `term` find, and what an append or a truncation changes of it.
use rust_kv.Base.{
  ℕ, ◌+◌, ◌-◌, ◌≤◌, ◌<◌, ◌≡◌, inl, inr, none, some, List, ◌++◌, arith, leb, ◌==◌, length, take,
  get_elem?, length-append, length-take_of_le, get_elem?-of_lt, lt_of_get_elem?, get_elem?-take,
  get_elem?-append_left, Bool-cases, Option-cases,
}
use rust_kv.Types.{LogIndex, LogEntry}
use rust_kv.Storage.{
  Storage, ok, snapshot_index, snapshot_term, last_index, append, truncate_from, pos, entry, term,
  rewrite_log,
}
use rust_kv.Storage.Contiguous.{
  Follows, IsContiguous, Follows-append, Follows-take, check_of_Follows, index_of_get,
}

module _ {V : Type 0} where
  pub entry-of_gt :
      (s : Storage V) (i : LogIndex)
      → snapshot_index s < i
      → entry s i ≡ get_elem? s.log (i - (snapshot_index s + 1))
  unfolding entry pos
  entry-of_gt s i h = ground arith

  pub entry-of_le : (s : Storage V) (i : LogIndex) → i ≤ snapshot_index s → entry s i ≡ none
  unfolding entry pos
  entry-of_le s i h = ground arith

  -- Exactly the indexes above the boundary up to the last index have an entry.
  pub entry-exists :
      (s : Storage V) (i : LogIndex)
      → snapshot_index s < i
      → i ≤ last_index s
      → (e : LogEntry V) × (entry s i ≡ some e)
  unfolding last_index
  entry-exists s i h le =
      let (e, p) = get_elem?-of_lt s.log (i - (snapshot_index s + 1)) (omega arith) in
      (e, rw (entry-of_gt s i h) p)

  pub entry-bounds :
      (s : Storage V) (i : LogIndex) {e : LogEntry V}
      → entry s i ≡ some e
      → (snapshot_index s < i) × (i ≤ last_index s)
  unfolding entry pos last_index
  entry-bounds s i h = elim (Bool-cases (leb (snapshot_index s + 1) i)) [
    | inl above ↦
        let b = lt_of_get_elem? s.log (i - (snapshot_index s + 1)) (rw above at h) in ground arith
    | inr below ↦ absurd (ground arith)
  ]

  pub index-entry :
      (s : Storage V) (i : LogIndex) {e : LogEntry V}
      → IsContiguous s
      → entry s i ≡ some e
      → e.index ≡ i
  index-entry s i {e} c h =
      let (lo, hi) = entry-bounds s i h in
      let q : get_elem? s.log (i - (snapshot_index s + 1)) ≡ some e =
        rw (entry-of_gt s i lo) at h in
      omega (arith, index_of_get (snapshot_index s) (i - (snapshot_index s + 1)) s.log c q)

  pub last_index-ge : (s : Storage V) → snapshot_index s ≤ last_index s
  unfolding last_index
  last_index-ge s = omega arith

  -- A term is known from the boundary to the end of the log.
  pub term-exists :
      (s : Storage V) (i : LogIndex)
      → snapshot_index s ≤ i
      → i ≤ last_index s
      → (t : ℕ) × (term s i ≡ some t)
  unfolding term
  term-exists s i lo hi = elim (Bool-cases (i == snapshot_index s)) [
    | inl here ↦ (snapshot_term s, ground arith)
    | inr above ↦
        let (e, q) = entry-exists s i (ground arith) hi in (e.term, ground (arith, above, q))
  ]

  pub term-bounds :
      (s : Storage V) (i : LogIndex) {t : ℕ}
      → term s i ≡ some t
      → (snapshot_index s ≤ i) × (i ≤ last_index s)
  unfolding term
  term-bounds s i h = elim (Option-cases (entry s i)) [
    | inl miss ↦ ground (arith, last_index-ge s)
    | inr (e, q) ↦ ground (arith, entry-bounds s i q)
  ]

  -- A batch that continues the log is appended.
  pub append-eq-ok :
      (s : Storage V) (es : List (LogEntry V))
      → Follows (last_index s) es
      → append es s ≡ ok (record s { log = s.log ++ es })
  unfolding append
  append-eq-ok s es h = ground (arith, check_of_Follows (last_index s) es h)

  pub append-IsContiguous :
      (s : Storage V) (es : List (LogEntry V))
      → IsContiguous s
      → Follows (last_index s) es
      → IsContiguous (record s { log = s.log ++ es })
  unfolding snapshot_index last_index
  append-IsContiguous s es c h = Follows-append (snapshot_index s) s.log es c h

  pub last_index-append :
      (s : Storage V) (es : List (LogEntry V))
      → last_index (record s { log = s.log ++ es }) ≡ last_index s + length es
  unfolding last_index snapshot_index
  last_index-append s es = ground (arith, length-append s.log es)

  -- An append changes nothing at or below the old end.
  pub entry-append :
      (s : Storage V) (es : List (LogEntry V)) (i : LogIndex)
      → i ≤ last_index s
      → entry (record s { log = s.log ++ es }) i ≡ entry s i
  unfolding entry pos last_index snapshot_index
  entry-append s es i h =
      ground (arith, get_elem?-append_left s.log es (i - (snapshot_index s + 1)))

  pub term-append :
      (s : Storage V) (es : List (LogEntry V)) (i : LogIndex)
      → i ≤ last_index s
      → term (record s { log = s.log ++ es }) i ≡ term s i
  unfolding term snapshot_index snapshot_term
  term-append s es i h = ground (arith, entry-append s es i h)

  -- The storage after a truncation at `from`.
  abbrev pub truncated : LogIndex → Storage V → Storage V
  truncated from s = record s { log = take (from - (snapshot_index s + 1)) s.log }

  -- A truncation above the boundary, at an index that the log has, succeeds.
  pub truncate-eq-ok :
      (s : Storage V) (from : LogIndex)
      → snapshot_index s < from
      → from ≤ last_index s
      → truncate_from from s ≡ ok (truncated from s)
  unfolding truncate_from pos rewrite_log
  truncate-eq-ok s from lo hi = ground arith

  pub last_index-truncated :
      (s : Storage V) (from : LogIndex)
      → snapshot_index s < from
      → from ≤ last_index s
      → last_index (truncated from s) ≡ from - 1
  unfolding last_index snapshot_index
  last_index-truncated s from lo hi =
      ground (arith, length-take_of_le (from - (snapshot_index s + 1)) s.log)

  pub entry-truncated :
      (s : Storage V) (from i : LogIndex) → i < from → entry (truncated from s) i ≡ entry s i
  unfolding entry pos snapshot_index
  entry-truncated s from i h =
      ground
        (arith, get_elem?-take (from - (snapshot_index s + 1)) s.log (i - (snapshot_index s + 1)))

  pub term-truncated :
      (s : Storage V) (from i : LogIndex) → i < from → term (truncated from s) i ≡ term s i
  unfolding term snapshot_index snapshot_term
  term-truncated s from i h = ground (arith, entry-truncated s from i h)

  pub truncated-IsContiguous :
      (s : Storage V) (from : LogIndex) → IsContiguous s → IsContiguous (truncated from s)
  unfolding snapshot_index
  truncated-IsContiguous s from c =
      Follows-take (snapshot_index s) (from - (snapshot_index s + 1)) s.log c
