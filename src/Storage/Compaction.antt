-- ===== src/Storage/Compaction.antt =====
-- Compaction and snapshot installation: what they keep of the log, and when they refuse.
use rust_kv.Base.{
  ℕ, ◌+◌, ◌-◌, ◌≤◌, ◌<◌, ◌≡◌, ◌≢◌, ◌↔◌, ◌∙◌, refl, inl, inr, true, false, Option, none, some, [],
  arith, drop, length-drop, get_elem?-drop, Bool-cases, Option-cases,
}
use rust_kv.Types.{Term, LogIndex, LogEntry, Snapshot, Membership}
use rust_kv.Outcome.{Returns, returns}
use rust_kv.Storage.{
  Storage, expect, ok, snapshot_index, snapshot_term, last_index, pos, entry, term, entries_from,
  rewrite_log, write_snapshot, compact_to, install_snapshot, has_term,
}
use rust_kv.Storage.Contiguous.{IsContiguous, Follows-drop}
use rust_kv.Storage.Lookup.{entry-bounds, term-bounds, last_index-ge}

module _ {V : Type 0} where
  -- The storage after its boundary moves up to that of `x`, with the rest of the log kept.
  abbrev pub compacted : Snapshot V → Storage V → Storage V
  compacted x s = record s {
    snapshot = some x;
    log = drop (x.last_included_index - snapshot_index s) s.log;
  }

  abbrev pub boundary_snapshot : LogIndex → Term → Option Membership → V → Snapshot V
  boundary_snapshot i t membership state = record {
    last_included_index = i;
    last_included_term = t;
    membership = membership;
    state = state;
  }

  pub compact-eq-ok :
      (s : Storage V) (i : LogIndex) (state : V) (membership : Option Membership) {e : LogEntry V}
      → entry s i ≡ some e
      → compact_to i state membership s
        ≡ ok (compacted (boundary_snapshot i e.term membership state) s)
  unfolding compact_to entries_from rewrite_log write_snapshot pos
  compact-eq-ok s i state membership {e} h =
      let b = entry-bounds s i h in
      let q : i + 1 - (snapshot_index s + 1) ≡ i - snapshot_index s = omega arith in
      ground (arith, h, b, q)

  module _ (s : Storage V) (x : Snapshot V) (up : snapshot_index s < x.last_included_index)
      (hi : x.last_included_index ≤ last_index s) where
    pub last_index-compacted : last_index (compacted x s) ≡ last_index s
    unfolding last_index snapshot_index
    last_index-compacted =
        ground (arith, length-drop (x.last_included_index - snapshot_index s) s.log)

    pub entry-compacted :
        (i : LogIndex) → x.last_included_index < i → entry (compacted x s) i ≡ entry s i
    unfolding entry pos snapshot_index
    entry-compacted i h =
        let q : x.last_included_index - snapshot_index s + (i - (x.last_included_index + 1))
            ≡ i - (snapshot_index s + 1) =
          omega arith in
        ground (
          arith,
          get_elem?-drop (x.last_included_index - snapshot_index s) s.log
              (i - (x.last_included_index + 1)),
          q,
        )

    pub term-compacted :
        (i : LogIndex)
        → term s x.last_included_index ≡ some x.last_included_term
        → x.last_included_index ≤ i
        → term (compacted x s) i ≡ term s i
    unfolding term snapshot_term snapshot_index
    term-compacted i t h = ground (arith, t, entry-compacted i)

    pub compacted-IsContiguous : IsContiguous s → IsContiguous (compacted x s)
    unfolding snapshot_index last_index
    compacted-IsContiguous c =
        let q : snapshot_index s + (x.last_included_index - snapshot_index s)
            ≡ x.last_included_index =
          omega arith in
        rw q at (
          Follows-drop (snapshot_index s) (x.last_included_index - snapshot_index s) s.log c
            (omega arith))

  -- The storage after a snapshot replaces the whole log.
  abbrev pub replaced : Snapshot V → Storage V → Storage V
  replaced x s = record s { snapshot = some x; log = [] }

  pub has_term-bounds :
      (s : Storage V) (i t : ℕ)
      → has_term s i t ≡ true
      → (snapshot_index s ≤ i) × (i ≤ last_index s)
  unfolding has_term
  has_term-bounds s i t h = elim (Option-cases (term s i)) [
    | inl miss ↦ ground (arith, miss)
    | inr (t', q) ↦ term-bounds s i q
  ]

  pub has_term_iff : (s : Storage V) (i t : ℕ) → (has_term s i t ≡ true) ↔ (term s i ≡ some t)
  unfolding has_term
  has_term_iff s i t = ground arith

  pub install-eq-kept :
      (s : Storage V) (x : Snapshot V)
      → snapshot_index s < x.last_included_index
      → has_term s x.last_included_index x.last_included_term ≡ true
      → install_snapshot x s ≡ ok (compacted x s)
  unfolding install_snapshot entries_from rewrite_log write_snapshot pos
  install-eq-kept s x up h =
      let q : x.last_included_index + 1 - (snapshot_index s + 1)
          ≡ x.last_included_index - snapshot_index s =
        omega arith in
      ground (arith, h, q)

  pub install-eq-replaced :
      (s : Storage V) (x : Snapshot V)
      → snapshot_index s < x.last_included_index
      → has_term s x.last_included_index x.last_included_term ≡ false
      → install_snapshot x s ≡ ok (replaced x s)
  unfolding install_snapshot rewrite_log write_snapshot
  install-eq-replaced s x up h = ground (arith, h)

  -- The storage before and after a snapshot is installed. The tail behind the boundary is kept if the
  -- log has the snapshot's term there, and nothing is kept otherwise.
  pub record Installed (x : Snapshot V) (s s' : Storage V) : Type 0 where
    pub contiguous : IsContiguous s'
    pub stored : s'.snapshot ≡ some x
    pub votes : s'.hard_state ≡ s.hard_state
    pub boundary : term s' x.last_included_index ≡ some x.last_included_term
    pub kept :
        term s x.last_included_index ≡ some x.last_included_term
        → (last_index s' ≡ last_index s)
          × ((i : LogIndex) → x.last_included_index < i → entry s' i ≡ entry s i)
    pub cleared :
        term s x.last_included_index ≢ some x.last_included_term
        → (last_index s' ≡ x.last_included_index) × ((i : LogIndex) → entry s' i ≡ none)

  pub Installed-bounds :
      (x : Snapshot V) (s s' : Storage V)
      → Installed x s s'
      → (snapshot_index s' ≡ x.last_included_index) × (x.last_included_index ≤ last_index s')
  unfolding snapshot_index
  Installed-bounds x s s' h =
      let q : snapshot_index s' ≡ x.last_included_index = rw h.stored refl in
      (q, rw q at (last_index-ge s'))

  compacted-Installed :
      (s : Storage V) (x : Snapshot V)
      → IsContiguous s
      → snapshot_index s < x.last_included_index
      → term s x.last_included_index ≡ some x.last_included_term
      → Installed x s (compacted x s)
  compacted-Installed s x c up t =
      let b = term-bounds s x.last_included_index t in
      record {
        contiguous = compacted-IsContiguous s x up b.1 c;
        stored = refl;
        votes = refl;
        boundary = term-compacted s x up b.1 x.last_included_index t (omega arith) ∙ t;
        kept = λ _. (last_index-compacted s x up b.1, entry-compacted s x up b.1);
        cleared = λ other. absurd (other t);
      }

  replaced-Installed :
      (s : Storage V) (x : Snapshot V)
      → term s x.last_included_index ≢ some x.last_included_term
      → Installed x s (replaced x s)
  unfolding last_index snapshot_index term snapshot_term entry pos
  replaced-Installed s x other = record {
    contiguous = tt;
    stored = refl;
    votes = refl;
    boundary = ground arith;
    kept = λ same. absurd (other same);
    cleared = λ _. (ground arith, λ i. ground arith);
  }

  -- On a log without gaps a snapshot above the boundary is installed, and the hard state stays. If the
  -- log has the snapshot's term at its boundary, then every entry behind the boundary is kept and the
  -- log ends where it did; if it has another term there or none, then no entry is left and the log ends
  -- at the boundary. Either way the log has no gaps, and the boundary has the snapshot's term.
  pub install-Installed :
      (s : Storage V) (x : Snapshot V)
      → IsContiguous s
      → snapshot_index s < x.last_included_index
      → Returns (Installed x s) (expect (install_snapshot x s))
  install-Installed s x c up =
      let same_iff = has_term_iff s x.last_included_index x.last_included_term in
      elim (Bool-cases (has_term s x.last_included_index x.last_included_term)) [
        | inl same ↦
            rw (install-eq-kept s x up same)
              (returns (compacted-Installed s x c up (same_iff.0 same)))
        | inr other ↦
            rw (install-eq-replaced s x up other)
              (returns (replaced-Installed s x (λ t. ground (arith, other, same_iff.1 t))))
      ]
