-- ===== src/Storage.antt =====
-- raft/storage.rs: the hard state, the snapshot and the retained log of one node, as `Storage`
-- mirrors them in memory. File operations that fail make the node stop and are not modelled here.
pub mod Contiguous
pub mod Lookup
pub mod Compaction
pub mod Log
pub mod Disk
use rust_kv.Base.{
  ℕ, ◌+◌, ◌-◌, Bool, false, Option, none, some, List, [], ◌∷◌, ◌++◌, leb, ltb, ◌==◌, length,
  get_elem?, get_last?, take, drop, if◌then◌else◌,
}
use rust_kv.Outcome.{◌>>=◌}
use rust_kv.Types.{Term, LogIndex, Membership, HardState, LogEntry, Snapshot}

pub data StorageError : Type 0 where
  corrupt : StorageError
  non_contiguous : (expected got : LogIndex) → StorageError

pub data Result (A : Type 0) : Type 0 where
  ok : A → Result A
  err : StorageError → Result A

-- `.expect(…)`
abbrev pub expect : {A : Type 0} → Result A → Option A
expect (ok a) = some a
expect (err e) = none

pub record Storage (V : Type 0) : Type 0 where
  pub hard_state : HardState
  pub snapshot : Option (Snapshot V)
  pub log : List (LogEntry V)

module _ {V : Type 0} where
  unfoldable pub snapshot_index : Storage V → LogIndex
  snapshot_index s = elim s.snapshot [ none ↦ 0 | some x ↦ x.last_included_index ]

  unfoldable pub snapshot_term : Storage V → Term
  snapshot_term s = elim s.snapshot [ none ↦ 0 | some x ↦ x.last_included_term ]

  unfoldable pub pos : Storage V → LogIndex → Option ℕ
  pos s index =
      if leb (snapshot_index s + 1) index then some (index - (snapshot_index s + 1)) else none

  unfoldable pub entry : Storage V → LogIndex → Option (LogEntry V)
  entry s index = do p ← pos s index; get_elem? s.log p

  unfoldable pub term : Storage V → LogIndex → Option Term
  term s index =
      if index == snapshot_index s
      then some (snapshot_term s)
      else do e ← entry s index; some e.term

  unfoldable pub entries_from : Storage V → LogIndex → List (LogEntry V)
  entries_from s from = drop (elim (pos s from) [ none ↦ 0 | some p ↦ p ]) s.log

  unfoldable pub last_index : Storage V → LogIndex
  last_index s = snapshot_index s + length s.log

  unfoldable pub last_term : Storage V → Term
  last_term s = elim (get_last? s.log) [ none ↦ snapshot_term s | some e ↦ e.term ]

  unfoldable pub save_hard_state : HardState → Storage V → Storage V
  save_hard_state hs s = record s { hard_state = hs }

  -- the loop of `append` over the entries' indexes
  unfoldable pub check_contiguous : LogIndex → List (LogEntry V) → Result (Unit {0})
  check_contiguous expected [] = ok tt
  check_contiguous expected (e ∷ es) =
      let rest = check_contiguous (expected + 1) es in
      if e.index == expected then rest else err (non_contiguous expected e.index)

  unfoldable pub append : List (LogEntry V) → Storage V → Result (Storage V)
  append es s = elim (check_contiguous (last_index s + 1) es) [
    | ok _ ↦ ok (record s { log = s.log ++ es })
    | err e ↦ err e
  ]

  unfoldable pub rewrite_log : List (LogEntry V) → Storage V → Storage V
  rewrite_log es s = record s { log = es }

  unfoldable pub write_snapshot : Snapshot V → Storage V → Storage V
  write_snapshot x s = record s { snapshot = some x }

  unfoldable pub truncate_from : LogIndex → Storage V → Result (Storage V)
  truncate_from from s = elim (pos s from) [
    | none ↦ err corrupt
    | some keep ↦ if ltb (last_index s) from then ok s else ok (rewrite_log (take keep s.log) s)
  ]

  unfoldable pub compact_to : LogIndex → V → Option Membership → Storage V → Result (Storage V)
  compact_to index state membership s = elim (entry s index) [
    | none ↦ err corrupt
    | some e ↦
        let retained = entries_from s (index + 1) in
        ok (
          rewrite_log retained (
            write_snapshot
              (record {
                last_included_index = index;
                last_included_term = e.term;
                membership = membership;
                state = state;
              })
              s))
  ]

  -- `self.term(i) == Some(t)`
  unfoldable pub has_term : Storage V → LogIndex → Term → Bool
  has_term s index t = elim (term s index) [ none ↦ false | some t' ↦ t' == t ]

  unfoldable pub install_snapshot : Snapshot V → Storage V → Result (Storage V)
  install_snapshot x s =
      if leb x.last_included_index (snapshot_index s)
      then err corrupt
      else let retained =
          if has_term s x.last_included_index x.last_included_term
          then entries_from s (x.last_included_index + 1)
          else [] in
        ok (rewrite_log retained (write_snapshot x s))
