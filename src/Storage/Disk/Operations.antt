-- ===== src/Storage/Disk/Operations.antt =====
-- The operations of raft/storage.rs on the files: for each the calls that change the directory, in
-- their order, beside its effect on the mirror in memory.
pub mod Calls
use rust_kv.Base.{◌+◌, Option, none, some, List, [], ◌∷◌, ◌++◌, leb, ltb, take, if◌then◌else◌}
use rust_kv.Types.{LogIndex, Membership, HardState, LogEntry, Snapshot}
use rust_kv.Storage
use rust_kv.Storage.{
  Storage, Result, ok, err, entry, pos, last_index, entries_from, has_term, snapshot_index,
  check_contiguous,
}
use rust_kv.Storage.Disk.{
  FileCodec, Dir, Action, append_log, run_all, write_atomic, hard_state_file, log_file,
  snapshot_file, lines,
}

-- The methods of `Storage` that change it.
pub data Operation (V : Type 0) : Type 0 where
  save : HardState → Operation V
  extend : List (LogEntry V) → Operation V
  truncate : LogIndex → Operation V
  compact : LogIndex → V → Option Membership → Operation V
  install : Snapshot V → Operation V

module _ {V : Type 0} (c : FileCodec V) where
  abbrev pub rewrite_log_actions : List (LogEntry V) → List Action
  rewrite_log_actions es = write_atomic log_file (lines c es)

  abbrev pub write_snapshot_actions : Snapshot V → List Action
  write_snapshot_actions x = write_atomic snapshot_file (c.encode_snapshot x)

  abbrev pub save_hard_state_actions : HardState → List Action
  save_hard_state_actions h = write_atomic hard_state_file (c.encode_hard_state h)

  unfoldable pub append_actions : List (LogEntry V) → Storage V → List Action
  append_actions [] s = []
  append_actions (e ∷ es) s = elim (check_contiguous (last_index s + 1) (e ∷ es)) [
    | err x ↦ []
    | ok _ ↦ append_log (lines c (e ∷ es)) ∷ []
  ]

  unfoldable pub truncate_from_actions : LogIndex → Storage V → List Action
  truncate_from_actions from s = elim (pos s from) [
    | none ↦ []
    | some keep ↦ if ltb (last_index s) from then [] else rewrite_log_actions (take keep s.log)
  ]

  unfoldable pub compact_to_actions : LogIndex → V → Option Membership → Storage V → List Action
  compact_to_actions index state membership s = elim (entry s index) [
    | none ↦ []
    | some e ↦
        let retained = entries_from s (index + 1) in
        write_snapshot_actions (record {
          last_included_index = index;
          last_included_term = e.term;
          membership = membership;
          state = state;
        })
        ++ rewrite_log_actions retained
  ]

  unfoldable pub install_snapshot_actions : Snapshot V → Storage V → List Action
  install_snapshot_actions x s =
      if leb x.last_included_index (snapshot_index s)
      then []
      else let retained =
          if has_term s x.last_included_index x.last_included_term
          then entries_from s (x.last_included_index + 1)
          else [] in
        write_snapshot_actions x ++ rewrite_log_actions retained

  unfoldable pub actions : Operation V → Storage V → List Action
  unfolding append_actions truncate_from_actions compact_to_actions install_snapshot_actions
  actions (save h) s = save_hard_state_actions h
  actions (extend es) s = append_actions es s
  actions (truncate from) s = truncate_from_actions from s
  actions (compact index state membership) s = compact_to_actions index state membership s
  actions (install x) s = install_snapshot_actions x s

-- The mirror behind an operation.
unfoldable pub mirror : {V : Type 0} → Operation V → Storage V → Result (Storage V)
mirror (save h) s = ok (Storage.save_hard_state h s)
mirror (extend es) s = Storage.append es s
mirror (truncate from) s = Storage.truncate_from from s
mirror (compact index state membership) s = Storage.compact_to index state membership s
mirror (install x) s = Storage.install_snapshot x s
