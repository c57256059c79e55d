-- ===== src/Storage/Log.antt =====
-- The log of raft/storage.rs as its clients see it: `append`, `truncate_from`, `compact_to` and
-- `install_snapshot` by what `entry`, `term` and `last_index` find after them.
use rust_kv.Base.{
  ◌+◌, ◌-◌, ◌≤◌, ◌<◌, ◌≡◌, refl, ◌++◌, Option, none, some, List, [], arith, length, get_elem?,
  get_elem?-append_right, get_elem?-of_ge,
}
use rust_kv.Outcome.{Returns, returns}
use rust_kv.Types.{LogIndex, LogEntry, Membership}
use rust_kv.Storage.{
  Storage, expect, snapshot_index, last_index, pos, entry, term, append, truncate_from, compact_to,
}
use rust_kv.Storage.Contiguous.{Follows, IsContiguous}
use rust_kv.Storage.Lookup.{
  entry-bounds, entry-exists, entry-append, append-eq-ok, append-IsContiguous, last_index-append,
  truncated, truncate-eq-ok, last_index-truncated, entry-truncated, truncated-IsContiguous,
}
use rust_kv.Storage.Compaction.{
  boundary_snapshot, compact-eq-ok, last_index-compacted, entry-compacted, term-compacted,
  compacted-IsContiguous,
}

module _ {V : Type 0} where
  -- The log has the entries of `s` up to `last`, and then the entries `es`.
  pub record Extends (s : Storage V) (last : LogIndex) (es : List (LogEntry V)) (s' : Storage V)
      : Type 0 where
    pub contiguous : IsContiguous s'
    pub boundary : snapshot_index s' ≡ snapshot_index s
    pub last_index : last_index s' ≡ last + length es
    pub old : (i : LogIndex) → i ≤ last → entry s' i ≡ entry s i
    pub new : (i : LogIndex) → last < i → entry s' i ≡ get_elem? es (i - (last + 1))

  pub entry-appended :
      (s : Storage V) (es : List (LogEntry V)) (i : LogIndex)
      → last_index s < i
      → entry (record s { log = s.log ++ es }) i ≡ get_elem? es (i - (last_index s + 1))
  unfolding entry pos last_index snapshot_index
  entry-appended s es i h =
      let q : i - (snapshot_index s + 1) - length s.log
          ≡ i - (snapshot_index s + length s.log + 1) =
        omega arith in
      ground (arith, q, get_elem?-append_right s.log es (i - (snapshot_index s + 1)))

  -- Past the end there is nothing.
  entry-of_gt_last : (s : Storage V) (i : LogIndex) → last_index s < i → entry s i ≡ none
  unfolding entry pos last_index
  entry-of_gt_last s i h = ground (arith, get_elem?-of_ge s.log (i - (snapshot_index s + 1)))

  pub term-of_entry :
      (s : Storage V) (i : LogIndex) {e : LogEntry V} → entry s i ≡ some e → term s i ≡ some e.term
  unfolding term
  term-of_entry s i q = ground (arith, q, entry-bounds s i q)

  -- On a log without gaps a batch that continues it is appended: there is still no gap, the old
  -- entries stay, the batch follows them, and nothing follows the batch.
  pub append-Extends :
      (s : Storage V) (es : List (LogEntry V))
      → IsContiguous s
      → Follows (last_index s) es
      → Returns (Extends s (last_index s) es) (expect (append es s))
  unfolding snapshot_index
  append-Extends s es c h = rw (append-eq-ok s es h) (
      returns (record {
        contiguous = append-IsContiguous s es c h;
        boundary = refl;
        last_index = last_index-append s es;
        old = entry-append s es;
        new = entry-appended s es;
      }))

  -- On a log without gaps a truncation at `from`, above the boundary and not past the end, succeeds
  -- and leaves exactly the entries below `from`.
  pub truncate_from-Extends :
      (s : Storage V) (from : LogIndex)
      → IsContiguous s
      → snapshot_index s < from
      → from ≤ last_index s
      → Returns (Extends s (from - 1) []) (expect (truncate_from from s))
  unfolding snapshot_index
  truncate_from-Extends s from c lo hi = rw (truncate-eq-ok s from lo hi) (
      returns (record {
        contiguous = truncated-IsContiguous s from c;
        boundary = refl;
        last_index = omega (arith, last_index-truncated s from lo hi);
        old = λ i h. entry-truncated s from i (omega arith);
        new = λ i h.
            entry-of_gt_last (truncated from s) i
              (omega (arith, last_index-truncated s from lo hi));
      }))

  -- A storage with a higher boundary, the same log above it and the same end.
  pub record Compacts (s : Storage V) (index : LogIndex) (s' : Storage V) : Type 0 where
    pub contiguous : IsContiguous s'
    pub boundary : snapshot_index s' ≡ index
    pub last_index : last_index s' ≡ last_index s
    pub entries : (i : LogIndex) → index < i → entry s' i ≡ entry s i
    pub terms : (i : LogIndex) → index ≤ i → term s' i ≡ term s i

  -- On a log without gaps, compacting to any index that has an entry succeeds, leaves no gap, moves
  -- the boundary there, and changes neither the entries above it, nor a term at or above it, nor
  -- the end of the log.
  pub compact_to-Compacts :
      (s : Storage V) (index : LogIndex) (state : V) (membership : Option Membership)
      → IsContiguous s
      → snapshot_index s < index
      → index ≤ last_index s
      → Returns (Compacts s index) (expect (compact_to index state membership s))
  unfolding snapshot_index
  compact_to-Compacts s index state membership c lo hi =
      let (e, q) = entry-exists s index lo hi in
      let x = boundary_snapshot index e.term membership state in
      rw (compact-eq-ok s index state membership q) (
        returns (record {
          contiguous = compacted-IsContiguous s x lo hi c;
          boundary = refl;
          last_index = last_index-compacted s x lo hi;
          entries = entry-compacted s x lo hi;
          terms = λ i h. term-compacted s x lo hi i (term-of_entry s index q) h;
        }))
