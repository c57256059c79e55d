-- ===== src/Storage/Disk/Crash/Safe.antt =====
-- What `open` recovers after a crash inside each of the operations.
use rust_kv.Base.{
  ◌+◌, ◌≤◌, ◌<◌, ◌≡◌, ◌⊎◌, refl, sym, Option, List, [], ◌∷◌, ◌++◌, append_assoc, take, Bool-cases,
  Option-cases, inl, inr,
}
use rust_kv.Types.{LogIndex, Membership, LogEntry, Snapshot}
use rust_kv.Storage.{
  Storage, StorageError, Result, ok, err, snapshot_index, last_index, entry, has_term,
  check_contiguous,
}
use rust_kv.Storage.Contiguous.{Follows-of_check, Follows-take}
use rust_kv.Storage.Compaction.{compacted, boundary_snapshot, compact-eq-ok, install-eq-kept}
use rust_kv.Storage.Lookup.{entry-bounds, truncated}
use rust_kv.Storage.Disk.Lines.{take-lines}
use rust_kv.Storage.Disk.Operations.{
  Operation, save, extend, truncate, compact, install, rewrite_log_actions, write_snapshot_actions,
  append_actions, actions, mirror,
}
use rust_kv.Storage.Disk.Operations.Calls.{
  extend-actions, truncate-actions, truncate-past_actions, compact-actions, install-kept_actions,
  install-replaced_actions, append-checked, truncate_cases, compact-refused, install-above,
  refused-actions,
}
use rust_kv.Storage.Disk.Recovery.{IsDurable}
use rust_kv.Storage.Disk.Refine.{run-IsDurable, append-Stored}
use rust_kv.Storage.Disk.{
  Bytes, FileCodec, IsFileCodec, Dir, hard_state_file, log_file, snapshot_file, run, run_all, lines,
  unwrap_or_empty, load_hard_state, load_snapshot, FileName, write_atomic,
}
use rust_kv.Storage.Disk.Crash.{
  Crash, SameFiles, crash_atomic, crash_append, crash_none, Stored-same, Outcome, untouched,
  finished, partly, overlapping, Recovers, Fits, recover, overlap-IsDurable,
}

Result-cases :
    {A : Type 0} (r : Result A) → ((a : A) × (r ≡ ok a)) ⊎ ((e : StorageError) × (r ≡ err e))
Result-cases (ok a) = inl (a, refl)
Result-cases (err e) = inr (e, refl)

module _ {V : Type 0} (c : FileCodec V) (law : IsFileCodec c) {s : Storage V} {d d' : Dir}
    (h : IsDurable c s d) where
  same-Recovers : (op : Operation V) → SameFiles d d' → Recovers c op s d'
  same-Recovers op same = recover c law [] refl (Stored-same c same h) untouched

  done-Recovers :
      (op : Operation V) {s' : Storage V}
      → mirror op s ≡ ok s'
      → SameFiles (run_all (actions c op s) d) d'
      → Recovers c op s d'
  done-Recovers op m same =
      recover c law [] refl (Stored-same c same (run-IsDurable c law h op m)) (finished m)

  -- An operation that makes one atomic write.
  atomic-Recovers :
      (op : Operation V) (f : FileName) (b : Bytes) {s' : Storage V}
      → mirror op s ≡ ok s'
      → actions c op s ≡ write_atomic f b
      → Crash (actions c op s) d d'
      → Recovers c op s d'
  atomic-Recovers op f b m e r = elim (crash_atomic f b [] (rw e at r)) [
    | inl same ↦ same-Recovers op same
    | inr rest ↦ done-Recovers op m (rw e (crash_none rest))
  ]

  extend-Recovers :
      (e : LogEntry V) (es : List (LogEntry V))
      → check_contiguous (last_index s + 1) (e ∷ es) ≡ ok tt
      → {s' : Storage V} → mirror (extend (e ∷ es)) s ≡ ok s'
      → Crash (actions c (extend (e ∷ es)) s) d d'
      → Recovers c (extend (e ∷ es)) s d'
  unfolding run load_hard_state load_snapshot
  extend-Recovers e es k m r =
      elim (crash_append (lines c (e ∷ es)) (rw (extend-actions c s e es k) at r)) [
        | inl same ↦ same-Recovers _ same
        | inr (inl (n, torn)) ↦
            let cut = take-lines c law n (e ∷ es) in
            let f =
              Follows-take (last_index s) cut.whole (e ∷ es)
                (Follows-of_check (last_index s) (e ∷ es) k) in
            rw torn (
              recover c law cut.part cut.part_IsPart
                (append-Stored c law h (take cut.whole (e ∷ es)) cut.part f refl refl (
                  rw (cut.splits) (
                    sym (
                      append_assoc (unwrap_or_empty d.log) (lines c (take cut.whole (e ∷ es)))
                        cut.part))))
                (partly (e ∷ es) cut.whole refl))
        | inr (inr done) ↦ done-Recovers _ m (
            rw (extend-actions c s e es k, done)
              (record { hard_state = refl; log = refl; snapshot = refl }))
      ]

  -- A new snapshot and a rewritten log: between the two writes the old log overlaps the snapshot.
  replace-Recovers :
      (op : Operation V) (x : Snapshot V) (es : List (LogEntry V)) {s' : Storage V}
      → mirror op s ≡ ok s'
      → actions c op s ≡ write_snapshot_actions c x ++ rewrite_log_actions c es
      → snapshot_index s < x.last_included_index
      → x.last_included_index ≤ last_index s
      → Outcome op s (compacted x s)
      → Crash (actions c op s) d d'
      → Recovers c op s d'
  replace-Recovers op x es m e up le o r =
      elim (crash_atomic snapshot_file (c.encode_snapshot x) (rewrite_log_actions c es)
        (rw e at r)) [
          | inl same ↦ same-Recovers op same
          | inr rest ↦ elim (crash_atomic log_file (lines c es) [] rest) [
            | inl same ↦
                recover c law [] refl (Stored-same c same (overlap-IsDurable c law x h up le)) o
            | inr none' ↦ done-Recovers op m (rw e (unfold run_all in crash_none none'))
          ]
        ]

  truncate-Recovers :
      (from : LogIndex) {s' : Storage V}
      → mirror (truncate from) s ≡ ok s'
      → Crash (actions c (truncate from) s) d d'
      → Recovers c (truncate from) s d'
  truncate-Recovers from m r = elim (truncate_cases s from m) [
    | inl (lo, hi) ↦
        atomic-Recovers (truncate from) log_file (lines c (truncated from s).log) m
          (truncate-actions c s from lo hi) r
    | inr (past, _) ↦
        same-Recovers (truncate from) (crash_none (rw (truncate-past_actions c s from past) at r))
  ]

  compact-Recovers :
      (index : LogIndex) (state : V) (membership : Option Membership) {s' : Storage V}
      → mirror (compact index state membership) s ≡ ok s'
      → Crash (actions c (compact index state membership) s) d d'
      → Recovers c (compact index state membership) s d'
  compact-Recovers index state membership {s'} m r = elim (Option-cases (entry s index)) [
    | inl miss ↦ absurd (compact-refused s index state membership miss m)
    | inr (e, k) ↦
        let b = entry-bounds s index k in
        let m' : mirror (compact index state membership) s
            ≡ ok (compacted (boundary_snapshot index e.term membership state) s) =
          unfold mirror in compact-eq-ok s index state membership k in
        replace-Recovers (compact index state membership)
          (boundary_snapshot index e.term membership state) _ m'
          (compact-actions c s index state membership k) b.0 b.1 (finished m') r
  ]

  install-Recovers :
      (x : Snapshot V) {s' : Storage V}
      → x.last_included_index ≤ last_index s
      → mirror (install x) s ≡ ok s'
      → Crash (actions c (install x) s) d d'
      → Recovers c (install x) s d'
  install-Recovers x le m r =
      let up = install-above s x m in
      elim (Bool-cases (has_term s x.last_included_index x.last_included_term)) [
        | inl same ↦
            replace-Recovers (install x) x _ m (install-kept_actions c s x up same) up le
              (finished {s' = compacted x s} (unfold mirror in install-eq-kept s x up same)) r
        | inr other ↦
            replace-Recovers (install x) x [] m (install-replaced_actions c s x up other) up le
              (overlapping x refl other) r
      ]

  ok-Recovers :
      (op : Operation V) {s' : Storage V}
      → Fits op s
      → mirror op s ≡ ok s'
      → Crash (actions c op s) d d'
      → Recovers c op s d'
  ok-Recovers (save hs) fits m r =
      atomic-Recovers (save hs) hard_state_file (c.encode_hard_state hs) m (unfold actions in refl)
        r
  ok-Recovers (extend []) fits m r =
      same-Recovers (extend []) (crash_none (unfold actions append_actions in r))
  ok-Recovers (extend (e ∷ es)) fits m r = extend-Recovers e es (append-checked s (e ∷ es) m) m r
  ok-Recovers (truncate from) fits m r = truncate-Recovers from m r
  ok-Recovers (compact index state membership) fits m r =
      compact-Recovers index state membership m r
  ok-Recovers (install x) fits m r = install-Recovers x fits m r

  -- With a codec that keeps its laws: a crash at any point of an operation, whichever it is, over
  -- files that hold the state leaves files that `open` accepts, and after `open` they hold what it
  -- returns. That is the old state, or the state behind the operation, or for a batch the old state
  -- with the first entries of the batch, or for a snapshot whose boundary the log has with another
  -- term the snapshot with the old log above it. Where the operation is the installation of a
  -- snapshot, its boundary must not lie beyond the end of the log.
  pub crash-Recovers :
      (op : Operation V) → Fits op s → Crash (actions c op s) d d' → Recovers c op s d'
  crash-Recovers op fits r = elim (Result-cases (mirror op s)) [
    | inl (s', m) ↦ ok-Recovers op fits m r
    | inr (e, m) ↦ same-Recovers op (crash_none (rw (refused-actions c s op e m) at r))
  ]
