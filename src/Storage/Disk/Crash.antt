-- ===== src/Storage/Disk/Crash.antt =====
-- A crash inside an operation on the files, and the `open` that follows it.
pub mod Safe
pub mod Stale
use mathlib.Core.Path.{subst}
use rust_kv.Base.{
  ℕ, suc, ◌+◌, ◌-◌, ◌≤◌, ◌<◌, ◌≡◌, ◌⊎◌, refl, sym, ap, ◌∙◌, true, false, Option, none, some, List,
  [], ◌∷◌, ◌++◌, append-nil, arith, ltb, length, drop, take, length-drop, drop-drop, Bool-cases,
  Option-cases, inl, inr,
}
use rust_kv.Types.{LogIndex, Membership, HardState, LogEntry, Snapshot}
use rust_kv.Storage.{
  Storage, StorageError, Result, ok, err, snapshot_index, last_index, entry, has_term,
  check_contiguous,
}
use rust_kv.Storage.Contiguous.{Follows, IsContiguous, Follows-of_check, Follows-take}
use rust_kv.Storage.Compaction.{
  compacted, replaced, boundary_snapshot, compact-eq-ok, has_term-bounds, install-eq-kept,
  install-eq-replaced,
}
use rust_kv.Storage.Lookup.{entry-bounds}
use rust_kv.Storage.Disk.Lines.{IsPart, Cut, take-lines, lines-append}
use rust_kv.Storage.Disk.Operations.{
  Operation, save, extend, truncate, compact, install, rewrite_log_actions, write_snapshot_actions,
  actions, mirror,
}
use rust_kv.Storage.Disk.Operations.Calls.{
  extend-actions, truncate-actions, truncate-past_actions, compact-actions, install-kept_actions,
  install-replaced_actions, append-checked, truncate_cases, compact-refused, install-above,
  refused-actions,
}
use rust_kv.Storage.Disk.Recovery.{
  Holds, Stored, IsDurable, Holds-IsContiguous, repaired, repaired-IsDurable, open-Holds,
}
use rust_kv.Storage.Disk.Refine.{run-IsDurable, append-Stored}
use rust_kv.Storage.Disk.{
  open_storage, Bytes, FileCodec, IsFileCodec, Dir, Action, create, rename, append_log, FileName,
  hard_state_file, log_file, snapshot_file, run, run_all, set_file, unwrap_or_empty, write_atomic,
  lines, load_hard_state, load_snapshot,
}

-- The directories that a crash can leave: some calls are done, and of a write that was not synced
-- some prefix is.
pub data Crash : List Action → Dir → Dir → Type 0 where
  before : {as' : List Action} {d : Dir} → Crash as' d d
  in_create :
      {b : Bytes} {as' : List Action} {d : Dir} (k : ℕ)
      → Crash (create b ∷ as') d (run (create (take k b)) d)
  in_append :
      {b : Bytes} {as' : List Action} {d : Dir} (k : ℕ)
      → Crash (append_log b ∷ as') d (run (append_log (take k b)) d)
  later :
      {a : Action} {as' : List Action} {d d' : Dir} → Crash as' (run a d) d' → Crash (a ∷ as') d d'

-- Apart from temporary files the directories are the same.
pub record SameFiles (d d' : Dir) : Type 0 where
  pub hard_state : d'.hard_state ≡ d.hard_state
  pub log : d'.log ≡ d.log
  pub snapshot : d'.snapshot ≡ d.snapshot

-- Where an atomic write is cut, either the old files stand or the write is done.
pub crash_atomic :
    (f : FileName) (b : Bytes) (as' : List Action) {d d' : Dir}
    → Crash (write_atomic f b ++ as') d d'
    → SameFiles d d' ⊎ Crash as' (run_all (write_atomic f b) d) d'
unfolding run run_all
crash_atomic f b as' before = inl (record { hard_state = refl; log = refl; snapshot = refl })
crash_atomic f b as' (in_create k) = inl (record { hard_state = refl; log = refl; snapshot = refl })
crash_atomic f b as' (later before) =
    inl (record { hard_state = refl; log = refl; snapshot = refl })
crash_atomic f b as' (later (later r)) = inr r

pub crash_append :
    (b : Bytes) {d d' : Dir}
    → Crash (append_log b ∷ []) d d'
    → SameFiles d d'
      ⊎ ((k : ℕ) × (d' ≡ run (append_log (take k b)) d))
      ⊎ (d' ≡ run_all (append_log b ∷ []) d)
unfolding run_all
crash_append b before = inl (record { hard_state = refl; log = refl; snapshot = refl })
crash_append b (in_append k) = inr (inl (k, refl))
crash_append b (later before) = inr (inr refl)

pub crash_none : {d d' : Dir} → Crash [] d d' → SameFiles d d'
crash_none before = record { hard_state = refl; log = refl; snapshot = refl }

module _ {V : Type 0} where
  -- The states that `open` may give after a crash inside an operation.
  pub data Outcome (op : Operation V) (s : Storage V) : Storage V → Type 0 where
    untouched : Outcome op s s
    finished : {s' : Storage V} → mirror op s ≡ ok s' → Outcome op s s'
    partly :
        (es : List (LogEntry V)) (k : ℕ)
        → op ≡ extend es
        → Outcome op s (record s { log = s.log ++ take k es })
    overlapping :
        (x : Snapshot V)
        → op ≡ install x
        → has_term s x.last_included_index x.last_included_term ≡ false
        → Outcome op s (compacted x s)

  -- A snapshot beyond the end of the log is not installed.
  abbrev pub Fits : Operation V → Storage V → Type 0
  Fits (install x) s = x.last_included_index ≤ last_index s
  Fits _ s = Unit

module _ {V : Type 0} (c : FileCodec V) where
  pub Stored-same :
      {w : Bytes} {s : Storage V} {d d' : Dir} → SameFiles d d' → Stored c w s d → Stored c w s d'
  unfolding load_hard_state load_snapshot
  Stored-same same h = record {
    holds = record {
      hard_state = rw same.hard_state h.holds.hard_state;
      snapshot = rw same.snapshot h.holds.snapshot;
      first = h.holds.first;
      entries = h.holds.entries;
      follows = h.holds.follows;
      below = h.holds.below;
      log_bytes = rw same.log h.holds.log_bytes;
      kept = h.holds.kept;
    };
    reaches = h.reaches;
  }

  pub record Recovers (op : Operation V) (s : Storage V) (d : Dir) : Type 0 where
    pub recovered : Storage V
    pub dir : Dir
    pub opens : open_storage c d ≡ (ok recovered, dir)
    pub durable : IsDurable c recovered dir
    pub outcome : Outcome op s recovered

  module _ (law : IsFileCodec c) {s : Storage V} where
    pub recover :
        {op : Operation V} {s' : Storage V} {d : Dir} (w : Bytes)
        → IsPart w
        → Stored c w s' d
        → Outcome op s s'
        → Recovers op s d
    recover w p h o = record {
      recovered = _;
      dir = repaired c h.holds;
      opens = open-Holds c h.holds law p;
      durable = repaired-IsDurable c h;
      outcome = o;
    }

    -- The boundary moved up, and the log file not rewritten.
    pub overlap-IsDurable :
        (x : Snapshot V) {d : Dir}
        → IsDurable c s d
        → snapshot_index s < x.last_included_index
        → x.last_included_index ≤ last_index s
        → IsDurable c (compacted x s) (run_all (write_snapshot_actions c x) d)
    unfolding run_all run set_file load_hard_state load_snapshot snapshot_index last_index
    overlap-IsDurable x {d} h up le =
        let k = h.holds in
        let n : length s.log ≡ length k.entries - (snapshot_index s - k.first) =
          ap length k.kept ∙ length-drop (snapshot_index s - k.first) k.entries in
        let e : snapshot_index s - k.first + (x.last_included_index - snapshot_index s)
            ≡ x.last_included_index - k.first =
          omega (arith, k.below) in
        record {
          holds = record {
            hard_state = k.hard_state;
            snapshot = rw (law.snapshot_back x) refl;
            first = k.first;
            entries = k.entries;
            follows = k.follows;
            below = omega (arith, k.below);
            log_bytes = k.log_bytes;
            kept =
                ap (λ (xs : List (LogEntry V)). drop (x.last_included_index - snapshot_index s) xs)
                  k.kept
                ∙ drop-drop (x.last_included_index - snapshot_index s) (snapshot_index s - k.first)
                    k.entries
                ∙ ap (λ (i : ℕ). drop i k.entries) e;
          };
          reaches = omega (arith, h.reaches, k.below, n);
        }
