-- ===== src/Storage/Disk/Crash/Stale.antt =====
-- A crash between the two writes of install_snapshot, where the old log ends before the snapshot.
use rust_kv.Base.{
  ◌+◌, ◌-◌, ◌<◌, ◌≡◌, ◌≢◌, refl, sym, ap, ◌∙◌, some, List, [], ◌∷◌, ◌++◌, arith, length, drop-nil,
  drop-of_ge, length-drop, List-cases, inl, inr, Bool-cases,
}
use rust_kv.Types.{LogEntry, Snapshot}
use rust_kv.Storage.{Storage, ok, err, corrupt, snapshot_index, last_index, has_term}
use rust_kv.Storage.Contiguous.{Follows, check_of_Follows}
use rust_kv.Storage.Lookup.{last_index-ge}
use rust_kv.Storage.Compaction.{replaced, has_term-bounds}
use rust_kv.Storage.Disk.{
  FileCodec, IsFileCodec, Dir, newline, run, run_all, lines, load_hard_state, load_snapshot,
  open_storage,
}
use rust_kv.Storage.Disk.Operations.{install, extend, write_snapshot_actions, actions}
use rust_kv.Storage.Disk.Operations.Calls.{extend-actions, install-replaced_actions}
use rust_kv.Storage.Disk.Recovery.{Holds, IsDurable, open-Holds}
use rust_kv.Storage.Disk.Refusal.{replay-gap, open-refuses}
use rust_kv.Storage.Disk.Crash.{Crash, before, later}

module _ {V : Type 0} (c : FileCodec V) where
  -- A crash inside the installation of `x` leaves a directory which opens, which then takes the
  -- entries `es`, and which does not open again.
  pub record Breaks (x : Snapshot V) (es : List (LogEntry V)) (s : Storage V) (d : Dir)
      : Type 0 where
    pub crashed : Dir
    pub crash : Crash (actions c (install x) s) d crashed
    pub reopened : Dir
    pub opens : open_storage c crashed ≡ (ok (replaced x s), reopened)
    pub appended : Dir
    pub appends : run_all (actions c (extend es) (replaced x s)) reopened ≡ appended
    pub refuses : (open_storage c appended).0 ≡ err corrupt

  module _ (law : IsFileCodec c) (s : Storage V) (d : Dir) (h : IsDurable c s d) (x : Snapshot V)
      (beyond : last_index s < x.last_included_index) where
    abbrev crashed : Dir
    crashed = run_all (write_snapshot_actions c x) d

    stale-Holds : Holds c [] (replaced x s) crashed
    unfolding run_all run load_hard_state load_snapshot snapshot_index last_index
    stale-Holds =
        let k = h.holds in
        let n : length s.log ≡ length k.entries - (snapshot_index s - k.first) =
          ap length k.kept ∙ length-drop (snapshot_index s - k.first) k.entries in
        record {
          hard_state = k.hard_state;
          snapshot = rw (law.snapshot_back x) refl;
          first = k.first;
          entries = k.entries;
          follows = k.follows;
          below = omega (arith, k.below);
          log_bytes = k.log_bytes;
          kept = sym (
              drop-of_ge (x.last_included_index - k.first) k.entries
                (omega (arith, n, k.below, h.reaches)));
        }

    stale-Crash : Crash (actions c (install x) s) d crashed
    unfolding run_all
    stale-Crash =
        let up : snapshot_index s < x.last_included_index = omega (arith, last_index-ge s) in
        elim (Bool-cases (has_term s x.last_included_index x.last_included_term)) [
          | inl same ↦
              absurd (
                omega
                  (arith, (has_term-bounds s x.last_included_index x.last_included_term same).1))
          | inr other ↦ rw (install-replaced_actions c s x up other) (later (later before))
        ]

    module _ (y : LogEntry V) (ys : List (LogEntry V))
        (f : Follows x.last_included_index (y ∷ ys)) where
      abbrev reopened : Dir
      reopened = record crashed { log = some (lines c h.holds.entries) }

      abbrev appended : Dir
      appended = record crashed { log = some (lines c h.holds.entries ++ lines c (y ∷ ys)) }

      stale-appends : run_all (actions c (extend (y ∷ ys)) (replaced x s)) reopened ≡ appended
      unfolding run_all run
      stale-appends =
          let e : last_index (replaced x s) ≡ x.last_included_index =
            unfold last_index snapshot_index in omega arith in
          rw
            (extend-actions c (replaced x s) y ys
              (rw e (check_of_Follows x.last_included_index (y ∷ ys) f)))
            refl

      -- The log file ends below the boundary of the new snapshot.
      file-ends : h.holds.first + length h.holds.entries < x.last_included_index
      unfolding last_index snapshot_index
      file-ends =
          let k = h.holds in
          let n : length s.log ≡ length k.entries - (snapshot_index s - k.first) =
            ap length k.kept ∙ length-drop (snapshot_index s - k.first) k.entries in
          omega (arith, n, k.below, h.reaches)

      stale-refuses :
          (e : LogEntry V) (es : List (LogEntry V))
          → h.holds.entries ≡ e ∷ es
          → (open_storage c appended).0 ≡ err corrupt
      unfolding run_all load_hard_state snapshot_index
      stale-refuses e es q =
          let k = stale-Holds in
          let b = lines c (e ∷ es) ++ (c.encode_entry y ++ newline ∷ lines c ys) in
          let ne : y.index ≢ h.holds.first + length (e ∷ es) + 1 =
            λ z. absurd (omega (arith, file-ends, ap length q, f.0, z)) in
          open-refuses c (replaced x s) appended _ b k.hard_state
            (unfold stale-Holds load_snapshot run_all run in k.snapshot)
            (rw q (unfold lines in refl))
            (replay-gap c law x.last_included_index h.holds.first es e y (lines c ys)
              (rw q at h.holds.follows) ne)

      -- With a codec that keeps its laws, over files that hold the state: where the log is not empty
      -- and ends before the snapshot `x`, a crash inside the installation of `x` can leave a directory
      -- that opens with `x` and an empty log, and that is corrupt for the next `open` as soon as
      -- entries that go on from `x` have been appended.
      pub install-Breaks : s.log ≢ [] → Breaks x (y ∷ ys) s d
      install-Breaks ne = elim (List-cases h.holds.entries) [
        | inl q ↦ absurd (ne (h.holds.kept ∙ rw q (drop-nil (snapshot_index s - h.holds.first))))
        | inr (e, es, q) ↦ record {
          crashed = crashed;
          crash = stale-Crash;
          reopened = reopened;
          opens = unfold stale-Holds in open-Holds c stale-Holds law refl;
          appended = appended;
          appends = stale-appends;
          refuses = stale-refuses e es q;
        }
      ]
