-- ===== src/Storage/Disk/Operations/Calls.antt =====
-- The calls that an operation makes, by what the mirror says of it.
use rust_kv.Base.{
  ◌+◌, ◌-◌, ◌≤◌, ◌<◌, ◌≡◌, ◌⊎◌, refl, true, false, Option, none, some, List, [], ◌∷◌, ◌++◌, arith,
  ltb, drop, inl, inr, Bool-cases,
}
use rust_kv.Types.{LogIndex, Membership, LogEntry, Snapshot}
use rust_kv.Storage.{
  Storage, StorageError, ok, err, snapshot_index, last_index, entry, pos, has_term, entries_from,
  check_contiguous, append, truncate_from, compact_to, install_snapshot,
}
use rust_kv.Storage.Lookup.{entry-bounds, truncated}
use rust_kv.Storage.Compaction.{boundary_snapshot}
use rust_kv.Storage.Disk.{FileCodec, lines, append_log}
use rust_kv.Storage.Disk.Operations.{
  Operation, extend, truncate, compact, install, append_actions, truncate_from_actions,
  compact_to_actions, install_snapshot_actions, rewrite_log_actions, write_snapshot_actions,
  actions, mirror,
}

module _ {V : Type 0} (c : FileCodec V) (s : Storage V) where
  pub extend-actions :
      (e : LogEntry V) (es : List (LogEntry V))
      → check_contiguous (last_index s + 1) (e ∷ es) ≡ ok tt
      → actions c (extend (e ∷ es)) s ≡ append_log (lines c (e ∷ es)) ∷ []
  unfolding actions append_actions
  extend-actions e es k = ground arith

  pub truncate-actions :
      (from : LogIndex)
      → snapshot_index s < from
      → from ≤ last_index s
      → actions c (truncate from) s ≡ rewrite_log_actions c (truncated from s).log
  unfolding actions truncate_from_actions pos
  truncate-actions from lo hi = ground arith

  pub truncate-past_actions :
      (from : LogIndex) → last_index s < from → actions c (truncate from) s ≡ []
  unfolding actions truncate_from_actions pos
  truncate-past_actions from past = ground arith

  pub compact-actions :
      (index : LogIndex) (state : V) (membership : Option Membership) {e : LogEntry V}
      → entry s index ≡ some e
      → actions c (compact index state membership) s
        ≡ write_snapshot_actions c (boundary_snapshot index e.term membership state)
          ++ rewrite_log_actions c (drop (index - snapshot_index s) s.log)
  unfolding actions compact_to_actions entries_from pos
  compact-actions index state membership {e} k =
      let b = entry-bounds s index k in
      let q : index + 1 - (snapshot_index s + 1) ≡ index - snapshot_index s = omega arith in
      ground (arith, k, b, q)

  module _ (x : Snapshot V) (up : snapshot_index s < x.last_included_index) where
    pub install-kept_actions :
        has_term s x.last_included_index x.last_included_term ≡ true
        → actions c (install x) s
          ≡ write_snapshot_actions c x
            ++ rewrite_log_actions c (drop (x.last_included_index - snapshot_index s) s.log)
    unfolding actions install_snapshot_actions entries_from pos
    install-kept_actions h =
        let q : x.last_included_index + 1 - (snapshot_index s + 1)
            ≡ x.last_included_index - snapshot_index s =
          omega arith in
        ground (arith, h, q)

    pub install-replaced_actions :
        has_term s x.last_included_index x.last_included_term ≡ false
        → actions c (install x) s ≡ write_snapshot_actions c x ++ rewrite_log_actions c []
    unfolding actions install_snapshot_actions
    install-replaced_actions h = ground (arith, h)

module _ {V : Type 0} (s : Storage V) where
  pub append-checked :
      (es : List (LogEntry V)) {s' : Storage V}
      → mirror (extend es) s ≡ ok s'
      → check_contiguous (last_index s + 1) es ≡ ok tt
  unfolding mirror append
  append-checked es m = ground arith

  pub truncate_cases :
      (from : LogIndex) {s' : Storage V}
      → mirror (truncate from) s ≡ ok s'
      → ((snapshot_index s < from) × (from ≤ last_index s))
        ⊎ ((last_index s < from) × (mirror (truncate from) s ≡ ok s))
  unfolding mirror truncate_from pos
  truncate_cases from m = elim (Bool-cases (ltb (last_index s) from)) [
    | inl past ↦ inr (ground arith)
    | inr within ↦ inl (ground arith)
  ]

  pub compact-refused :
      (index : LogIndex) (state : V) (membership : Option Membership) {s' : Storage V}
      → entry s index ≡ none
      → mirror (compact index state membership) s ≡ ok s'
      → ⊥
  unfolding mirror compact_to
  compact-refused index state membership miss m = ground (arith, miss)

  pub install-above :
      (x : Snapshot V) {s' : Storage V}
      → mirror (install x) s ≡ ok s'
      → snapshot_index s < x.last_included_index
  unfolding mirror install_snapshot
  install-above x m = ground arith

-- A refused operation makes no call.
pub refused-actions :
    {V : Type 0} (c : FileCodec V) (s : Storage V) (op : Operation V) (e : StorageError)
    → mirror op s ≡ err e
    → actions c op s ≡ []
unfolding mirror append truncate_from compact_to install_snapshot actions append_actions
    truncate_from_actions compact_to_actions install_snapshot_actions check_contiguous
refused-actions c s (extend []) e h = refl
refused-actions c s op e h = ground arith
