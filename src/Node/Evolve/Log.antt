-- ===== src/Node/Evolve/Log.antt =====
-- The storage operations of raft/storage.rs in the order of a node's states.
use rust_kv.Base.{
  ◌+◌, ◌≤◌, ◌<◌, ◌≡◌, refl, inl, inr, Option, none, List, ◌++◌, arith, true, leb, Bool-cases,
  Option-cases, leb→gt, ◌∙◌,
}
use native.Mathlib.Decide.{dec_lt}
use rust_kv.Outcome.{Ensures, Ensures-some, Ensures-none}
use rust_kv.Types.{LogIndex, LogEntry, Snapshot, Membership}
use rust_kv.Storage.{
  Storage, Result, expect, ok, err, corrupt, snapshot_index, last_index, entry, pos,
  check_contiguous, append, truncate_from, compact_to, install_snapshot, has_term,
}
use rust_kv.Storage.Lookup.{entry-bounds, entry-append, entry-truncated, truncated, truncate-eq-ok}
use rust_kv.Storage.Compaction.{
  boundary_snapshot, compacted, replaced, compact-eq-ok, entry-compacted, has_term-bounds,
  install-eq-kept, install-eq-replaced,
}
use rust_kv.Node.Evolve.Defs.{LogStands, LogStands-refl}

module _ {V : Type 0} where
  -- The log part of the order, with the hard state untouched.
  pub record Keeps (commit : LogIndex) (s s' : Storage V) : Type 0 where
    pub hard_state : s'.hard_state ≡ s.hard_state
    pub log : LogStands commit s s'

  Keeps-refl : (commit : LogIndex) (s : Storage V) → Keeps commit s s
  Keeps-refl commit s = record { hard_state = refl; log = LogStands-refl commit s }

  truncated-Keeps :
      (commit from : LogIndex) (s : Storage V) → commit < from → Keeps commit s (truncated from s)
  unfolding snapshot_index
  truncated-Keeps commit from s h = record {
    hard_state = refl;
    log = record {
      boundary = omega arith;
      entries = λ i e le _ q. entry-truncated s from i (omega arith) ∙ q;
    };
  }

  compacted-Keeps :
      (commit : LogIndex) (x : Snapshot V) (s : Storage V)
      → snapshot_index s < x.last_included_index
      → x.last_included_index ≤ last_index s
      → Keeps commit s (compacted x s)
  unfolding snapshot_index
  compacted-Keeps commit x s lo hi = record {
    hard_state = refl;
    log = record {
      boundary = omega arith;
      entries = λ i e _ lt q. entry-compacted s x lo hi i lt ∙ q;
    };
  }

  -- An append may only add entries.
  pub append-Keeps :
      (commit : LogIndex) (es : List (LogEntry V)) (s : Storage V)
      → Ensures (Keeps commit s) (expect (append es s))
  unfolding append snapshot_index
  append-Keeps commit es s =
      elim (check_contiguous (last_index s + 1) es)
        as (λ (r : Result Unit).
          Ensures (Keeps commit s)
            (expect (elim r [ ok _ ↦ ok (record s { log = s.log ++ es }) | err e ↦ err e ]))) [
              | ok _ ↦ Ensures-some _ (record {
                hard_state = refl;
                log = record {
                  boundary = omega arith;
                  entries = λ i e _ _ q. entry-append s es i ((entry-bounds s i q).1) ∙ q;
                };
              })
              | err e ↦ Ensures-none
            ]

  truncate_from-of_le :
      (from : LogIndex) (s : Storage V)
      → from ≤ snapshot_index s
      → truncate_from from s ≡ err corrupt
  unfolding truncate_from pos
  truncate_from-of_le from s h = ground arith

  truncate_from-of_past :
      (from : LogIndex) (s : Storage V)
      → snapshot_index s < from
      → last_index s < from
      → truncate_from from s ≡ ok s
  unfolding truncate_from pos
  truncate_from-of_past from s lo h = ground arith

  -- A truncation above the commit index removes no committed entry.
  pub truncate_from-Keeps :
      (commit from : LogIndex) (s : Storage V)
      → commit < from
      → Ensures (Keeps commit s) (expect (truncate_from from s))
  truncate_from-Keeps commit from s h = elim (dec_lt (snapshot_index s) from) [
    | no below ↦ rw (truncate_from-of_le from s (omega arith)) Ensures-none
    | yes above ↦ elim (dec_lt (last_index s) from) [
      | yes past ↦
          rw (truncate_from-of_past from s above past) (Ensures-some s (Keeps-refl commit s))
      | no within ↦
          rw (truncate-eq-ok s from above (omega arith))
            (Ensures-some (truncated from s) (truncated-Keeps commit from s h))
    ]
  ]

  compact_to-of_none :
      (index : LogIndex) (state : V) (m : Option Membership) (s : Storage V)
      → entry s index ≡ none
      → compact_to index state m s ≡ err corrupt
  unfolding compact_to
  compact_to-of_none index state m s miss = ground (arith, miss)

  -- A compaction moves the boundary up to an entry.
  pub compact_to-Keeps :
      (commit index : LogIndex) (state : V) (m : Option Membership) (s : Storage V)
      → Ensures (Keeps commit s) (expect (compact_to index state m s))
  compact_to-Keeps commit index state m s = elim (Option-cases (entry s index)) [
    | inl miss ↦ rw (compact_to-of_none index state m s miss) Ensures-none
    | inr (e, q) ↦
        let b = entry-bounds s index q in
        let x = boundary_snapshot index e.term m state in
        rw (compact-eq-ok s index state m q)
          (Ensures-some (compacted x s) (compacted-Keeps commit x s b.0 b.1))
  ]

  install_snapshot-of_le :
      (x : Snapshot V) (s : Storage V)
      → leb x.last_included_index (snapshot_index s) ≡ true
      → install_snapshot x s ≡ err corrupt
  unfolding install_snapshot
  install_snapshot-of_le x s h = rw h

  replaced-Keeps :
      (commit : LogIndex) (x : Snapshot V) (s : Storage V)
      → commit < x.last_included_index
      → snapshot_index s < x.last_included_index
      → Keeps commit s (replaced x s)
  unfolding snapshot_index
  replaced-Keeps commit x s h lo = record {
    hard_state = refl;
    log = record { boundary = omega arith; entries = λ i e le lt _. absurd (omega arith) };
  }

  -- A snapshot above the commit index replaces only what it covers.
  pub install_snapshot-Keeps :
      (commit : LogIndex) (x : Snapshot V) (s : Storage V)
      → commit < x.last_included_index
      → Ensures (Keeps commit s) (expect (install_snapshot x s))
  install_snapshot-Keeps commit x s h =
      elim (Bool-cases (leb x.last_included_index (snapshot_index s))) [
        | inl low ↦ rw (install_snapshot-of_le x s low) Ensures-none
        | inr up ↦
            let lo = leb→gt x.last_included_index (snapshot_index s) up in
            elim (Bool-cases (has_term s x.last_included_index x.last_included_term)) [
              | inl same ↦
                  let b = has_term-bounds s x.last_included_index x.last_included_term same in
                  rw (install-eq-kept s x lo same)
                    (Ensures-some (compacted x s) (compacted-Keeps commit x s lo b.1))
              | inr other ↦
                  rw (install-eq-replaced s x lo other)
                    (Ensures-some (replaced x s) (replaced-Keeps commit x s h lo))
            ]
      ]
