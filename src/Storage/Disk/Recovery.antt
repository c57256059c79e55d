-- ===== src/Storage/Disk/Recovery.antt =====
-- What a data directory holds, and what `open` recovers from it.
use rust_kv.Base.{ℕ, ◌+◌, ◌-◌, ◌≤◌, ◌≡◌, sym, some, List, [], ◌++◌, append-nil, arith, length, drop}
use rust_kv.Types.{LogIndex, LogEntry}
use rust_kv.Storage.{Storage, ok, snapshot_index}
use rust_kv.Storage.Contiguous.{Follows, IsContiguous, Follows-drop_past}
use rust_kv.Storage.Disk.{
  Bytes, FileCodec, IsFileCodec, Dir, unwrap_or_empty, lines, load_hard_state, load_snapshot,
  replay_bytes, replay_log, open_log, open_storage,
}
use rust_kv.Storage.Disk.Lines.{IsPart}
use rust_kv.Storage.Disk.Replay.{replay-lines}

module _ {V : Type 0} (c : FileCodec V) where
  -- The files hold the hard state and the snapshot of `s`, and as the log the lines of entries from
  -- at or below the boundary on, of which `s` has those above it, then a part `w` of a line.
  pub record Holds (w : Bytes) (s : Storage V) (d : Dir) : Type 0 where
    pub hard_state : load_hard_state c d ≡ ok s.hard_state
    pub snapshot : load_snapshot c d ≡ ok s.snapshot
    pub first : LogIndex
    pub entries : List (LogEntry V)
    pub follows : Follows first entries
    pub below : first ≤ snapshot_index s
    pub log_bytes : unwrap_or_empty d.log ≡ lines c entries ++ w
    pub kept : s.log ≡ drop (snapshot_index s - first) entries

  -- The log of the files reaches the boundary.
  pub record Stored (w : Bytes) (s : Storage V) (d : Dir) : Type 0 where
    pub holds : Holds w s d
    pub reaches : snapshot_index s ≤ holds.first + length holds.entries

  abbrev pub IsDurable : Storage V → Dir → Type 0
  IsDurable = Stored []

  -- A missing log file is an empty one.
  replay_log-eq :
      (boundary : ℕ) (d : Dir) (log : List (LogEntry V)) (rest : Bytes)
      → replay_bytes c boundary (unwrap_or_empty d.log) ≡ (ok log, rest)
      → ((replay_log c boundary d).0 ≡ ok log)
        × (record ((replay_log c boundary d).1) {
          log = some (unwrap_or_empty ((replay_log c boundary d).1).log);
        }
            ≡ record d { log = some rest })
  unfolding replay_log replay_bytes
  replay_log-eq boundary d log rest h = ground arith

  module _ {w : Bytes} {s : Storage V} {d : Dir} (h : Holds w s d) where
    pub Holds-IsContiguous : IsContiguous s
    unfolding snapshot_index
    Holds-IsContiguous =
        rw h.kept (Follows-drop_past h.first (snapshot_index s) h.entries h.follows h.below)

    -- The directory that `open` leaves: the torn line is cut off.
    abbrev pub repaired : Dir
    repaired = record d { log = some (lines c h.entries) }

    pub repaired-Holds : Holds [] s repaired
    unfolding load_hard_state load_snapshot
    repaired-Holds = record {
      hard_state = h.hard_state;
      snapshot = h.snapshot;
      first = h.first;
      entries = h.entries;
      follows = h.follows;
      below = h.below;
      log_bytes = sym (append-nil _);
      kept = h.kept;
    }

    -- With a codec that keeps its laws: where the files hold the state `s`, and perhaps a part of a
    -- line at the end of the log, `open` returns `s`, and changes the directory only by cutting that
    -- part off.
    pub open-Holds : IsFileCodec c → IsPart w → open_storage c d ≡ (ok s, repaired)
    unfolding open_storage open_log snapshot_index
    open-Holds law p =
        let q : replay_bytes c (snapshot_index s) (unwrap_or_empty d.log)
            ≡ (ok s.log, lines c h.entries) =
          rw (h.log_bytes, h.kept)
            (replay-lines c law h.first (snapshot_index s) h.entries h.follows h.below w p) in
        ground (
          arith,
          h.hard_state,
          h.snapshot,
          replay_log-eq (snapshot_index s) d s.log (lines c h.entries) q,
        )

  pub repaired-IsDurable :
      {w : Bytes} {s : Storage V} {d : Dir} (h : Stored w s d) → IsDurable s (repaired h.holds)
  unfolding repaired-Holds
  repaired-IsDurable h = record { holds = repaired-Holds h.holds; reaches = h.reaches }
