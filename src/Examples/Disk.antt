-- ===== src/Examples/Disk.antt =====
-- The files of the example's storage.
use rust_kv.Base.{ℕ, ◌≡◌, refl, none, some, List, [], ◌∷◌, ◌++◌, ◌+◌, arith, take, ap, ◌<◌}
use rust_kv.Types.{LogEntry, Snapshot}
use rust_kv.Storage.{
  Storage, Result, ok, err, corrupt, snapshot_index, last_index, check_contiguous,
}
use rust_kv.Storage.Contiguous.{IsContiguous, Follows, check_of_Follows}
use rust_kv.Storage.Lookup.{append-eq-ok}
use rust_kv.Storage.Disk.{
  newline, Dir, run, run_all, lines, load_hard_state, load_snapshot, open_storage, replay_bytes,
  append_log,
}
use rust_kv.Storage.Disk.Operations.{extend, actions, mirror}
use rust_kv.Storage.Disk.Operations.Calls.{extend-actions}
use rust_kv.Storage.Disk.Recovery.{IsDurable, repaired, open-Holds}
use rust_kv.Storage.Disk.Refine.{fresh-IsDurable, run-IsDurable}
use rust_kv.Storage.Disk.Refusal.{replay-gap, replay_bad_line}
use rust_kv.Storage.Disk.Crash.{Crash, in_append, Recovers}
use rust_kv.Storage.Disk.Crash.Safe.{crash-Recovers}
use rust_kv.Storage.Disk.Crash.Stale.{Breaks, install-Breaks}
use rust_kv.Storage.Disk.Sound.{open-IsContiguous}
use rust_kv.Examples.Codec.{codec, codec-IsFileCodec, parse_blank}
use rust_kv.Examples.Data.{members, entry_at, storage}
use rust_kv.Examples.Logs.{storage-IsContiguous}

abbrev boundary : Snapshot ℕ
boundary = record {
  last_included_index = 2;
  last_included_term = 1;
  membership = some members;
  state = 2;
}

abbrev dir : Dir
dir = record {
  hard_state = some (codec.encode_hard_state storage.hard_state);
  log = some (lines codec storage.log);
  snapshot = some (codec.encode_snapshot boundary);
  tmp = none;
}

loads_hard_state : load_hard_state codec dir ≡ ok storage.hard_state
unfolding load_hard_state
loads_hard_state = ground (arith, codec-IsFileCodec.hard_state_back storage.hard_state)

loads_snapshot : load_snapshot codec dir ≡ ok storage.snapshot
unfolding load_snapshot
loads_snapshot = ground (arith, codec-IsFileCodec.snapshot_back boundary)

dir-IsDurable : IsDurable codec storage dir
dir-IsDurable = fresh-IsDurable codec loads_hard_state loads_snapshot refl storage-IsContiguous

open-Holds_example : open_storage codec dir ≡ (ok storage, repaired codec dir-IsDurable.holds)
open-Holds_example = open-Holds codec dir-IsDurable.holds codec-IsFileCodec refl

abbrev batch : List (LogEntry ℕ)
batch = entry_at 3 6 ∷ entry_at 3 7 ∷ []

follows : Follows (last_index storage) batch
unfolding last_index snapshot_index
follows = (refl, (refl, tt))

checked : check_contiguous (last_index storage + 1) batch ≡ ok tt
checked = check_of_Follows (last_index storage) batch follows

accepts : mirror (extend batch) storage ≡ ok (record storage { log = storage.log ++ batch })
unfolding mirror
accepts = append-eq-ok storage batch follows

run-IsDurable_example :
    IsDurable codec
      (record storage { log = storage.log ++ batch })
      (run_all (actions codec (extend batch) storage) dir)
run-IsDurable_example = run-IsDurable codec codec-IsFileCodec dir-IsDurable (extend batch) accepts

-- The batch is cut after twenty bytes.
abbrev torn : Dir
torn = run (append_log (take 20 (lines codec batch))) dir

torn-Crash : Crash (actions codec (extend batch) storage) dir torn
torn-Crash =
    rw (extend-actions codec storage (entry_at 3 6) (entry_at 3 7 ∷ []) checked) (in_append 20)

crash-Recovers_example : Recovers codec (extend batch) storage torn
crash-Recovers_example =
    crash-Recovers codec codec-IsFileCodec dir-IsDurable (extend batch) tt torn-Crash

-- A snapshot at 9, beyond the log's end at 5.
abbrev ahead : Snapshot ℕ
ahead = record { last_included_index = 9; last_included_term = 3; membership = none; state = 9 }

beyond : last_index storage < ahead.last_included_index
unfolding last_index snapshot_index
beyond = omega arith

install-Breaks_example : Breaks codec ahead (entry_at 3 10 ∷ []) storage dir
install-Breaks_example =
    install-Breaks codec codec-IsFileCodec storage dir dir-IsDurable ahead beyond (entry_at 3 10) []
      (refl, tt) (λ e. cc)

open-IsContiguous_example : IsContiguous storage
open-IsContiguous_example =
    open-IsContiguous codec dir (ap (λ (p : Result (Storage ℕ) × Dir). p.0) open-Holds_example)

replay-gap_example :
    replay_bytes codec 2
      (lines codec (entry_at 1 3 ∷ []) ++ (codec.encode_entry (entry_at 1 5) ++ newline ∷ []))
    ≡ (
      err corrupt,
      lines codec (entry_at 1 3 ∷ []) ++ (codec.encode_entry (entry_at 1 5) ++ newline ∷ []),
    )
replay-gap_example =
    replay-gap codec codec-IsFileCodec 2 2 [] (entry_at 1 3) (entry_at 1 5) [] (refl, tt)
      (λ e. absurd (omega (arith, e)))

replay_bad_line_example :
    replay_bytes codec 2 (lines codec (entry_at 1 3 ∷ []) ++ ([] ++ newline ∷ b'x' ∷ []))
    ≡ (err corrupt, lines codec (entry_at 1 3 ∷ []) ++ ([] ++ newline ∷ b'x' ∷ []))
replay_bad_line_example =
    replay_bad_line codec codec-IsFileCodec 2 2 (entry_at 1 3 ∷ []) [] b'x' [] (refl, tt) refl
      parse_blank
