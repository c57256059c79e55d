-- ===== src/Node/Wf/Apply.antt =====
-- The invariant through `apply_committed` and `maybe_compact` of raft/node.rs.
use rust_kv.Base.{ℕ, zero, suc, ◌+◌, ◌-◌, ◌≤◌, ◌<◌, Option, none, some, arith, leb}
use rust_kv.Outcome.{◌>>=◌, Returns, returns, Returns-bind, Returns-if}
use rust_kv.Types.{LogIndex, Membership}
use rust_kv.Storage
use rust_kv.Storage.{Storage, snapshot_index, last_index, expect, ok}
use rust_kv.Storage.Lookup.{entry-exists}
use rust_kv.Storage.Compaction.{
  boundary_snapshot, compact-eq-ok, last_index-compacted, compacted-IsContiguous,
}
use rust_kv.Node.State.{RaftNode}
use rust_kv.Node.Apply.{
  apply_next, apply_entries, resolve_pending, resolve_reads, drop_stale_capture, capture,
  compact_staged, maybe_compact, apply_committed,
}
use rust_kv.Node.Wf.Defs.{IsWf, Returns-option}

module _ {V : Type 0} where
  -- A capture above the boundary.
  abbrev IsAhead : LogIndex → Option (LogIndex × V × Option Membership) → Type 0
  IsAhead boundary none = Unit
  IsAhead boundary (some (i, _, _)) = boundary < i

module _ {V S : Type 0} where
  resolve_pending-IsWf : (n : RaftNode V S) → IsWf n → IsWf (resolve_pending n)
  unfolding resolve_pending
  resolve_pending-IsWf n w = w

  pub resolve_reads-IsWf : (n : RaftNode V S) → IsWf n → IsWf (resolve_reads n)
  unfolding resolve_reads
  resolve_reads-IsWf n w = ground arith

  drop_stale_capture-IsWf : (n : RaftNode V S) → IsWf n → IsWf (drop_stale_capture n)
  unfolding drop_stale_capture
  drop_stale_capture-IsWf n w = ground arith

  capture-IsWf : (t : ℕ) (n : RaftNode V S) → IsWf n → IsWf (capture t n)
  unfolding capture
  capture-IsWf t n w = ground arith

  drop_stale_capture-IsAhead :
      (n : RaftNode V S)
      → IsAhead
          (snapshot_index (drop_stale_capture n).storage)
          (drop_stale_capture n).staged_snapshot
  unfolding drop_stale_capture
  drop_stale_capture-IsAhead n = ground arith

  capture-IsAhead :
      (t : ℕ) (n : RaftNode V S)
      → IsAhead (snapshot_index n.storage) n.staged_snapshot
      → IsAhead (snapshot_index (capture t n).storage) (capture t n).staged_snapshot
  unfolding capture
  capture-IsAhead t n h = ground arith

  -- Compacting to a capture above the boundary.
  compact_at-IsWf :
      (n : RaftNode V S) (i : LogIndex) (state : V) (m : Option Membership)
      → snapshot_index n.storage < i
      → i ≤ n.last_applied
      → IsWf n
      → Returns IsWf (do
        s ← expect (Storage.compact_to i state m n.storage)
        some (record n { storage = s; staged_snapshot = none }))
  unfolding snapshot_index
  compact_at-IsWf n i state m up le w =
      let (e, q) = entry-exists n.storage i up (omega arith) in
      let x = boundary_snapshot i e.term m state in
      let hi : i ≤ last_index n.storage = omega arith in
      rw (compact-eq-ok n.storage i state m q) (
        returns (record {
          contiguous = compacted-IsContiguous n.storage x up hi w.contiguous;
          boundary = le;
          ordered = w.ordered;
          committed = rw (last_index-compacted n.storage x up hi) w.committed;
          timer = w.timer;
          timer_fits = w.timer_fits;
          capture = tt;
          next = rw (last_index-compacted n.storage x up hi) w.next;
        }))

  compact_staged-IsWf :
      (n : RaftNode V S)
      → IsAhead (snapshot_index n.storage) n.staged_snapshot
      → IsWf n
      → Returns IsWf (compact_staged n)
  unfolding compact_staged
  compact_staged-IsWf n a w =
      Returns-option n.staged_snapshot _ (some n) (λ e. returns w)
        (λ x e.
          Returns-if (leb n.config.snapshot_trailing (n.last_applied - x.0)) _ (some n)
            (λ _. compact_at-IsWf n x.0 x.1 x.2 (ground (arith, e)) (ground (arith, e)) w)
            (λ _. returns w))

  maybe_compact-IsWf : (n : RaftNode V S) → IsWf n → Returns IsWf (maybe_compact n)
  unfolding maybe_compact
  maybe_compact-IsWf n w =
      Returns-option n.config.snapshot_threshold _ (some n) (λ _. returns w)
        (λ t _.
          compact_staged-IsWf (capture t (drop_stale_capture n))
            (capture-IsAhead t (drop_stale_capture n) (drop_stale_capture-IsAhead n))
            (capture-IsWf t (drop_stale_capture n) (drop_stale_capture-IsWf n w)))

  -- One entry more, and as many as are left.
  abbrev Applying : ℕ → RaftNode V S → Type 0
  Applying k n = IsWf n × (n.last_applied + k ≤ n.commit_index)

  apply_next-IsWf :
      (k : ℕ) (n : RaftNode V S) → Applying (suc k) n → Returns (Applying k) (apply_next n)
  unfolding apply_next
  apply_next-IsWf k n (w, le) =
      let (e, q) = entry-exists n.storage (n.last_applied + 1) (ground arith) (ground arith) in
      rw q (returns (ground arith))

  apply_entries-IsWf : (k : ℕ) (n : RaftNode V S) → Applying k n → Returns IsWf (apply_entries k n)
  unfolding apply_entries
  apply_entries-IsWf zero n h = returns h.0
  apply_entries-IsWf (suc k) n h =
      Returns-bind (apply_next-IsWf k n h) (λ n' h'. apply_entries-IsWf k n' h')

  -- With everything up to the commit index in the log, applying it returns and keeps the invariant.
  pub apply_committed-IsWf : (n : RaftNode V S) → IsWf n → Returns IsWf (apply_committed n)
  unfolding apply_committed
  apply_committed-IsWf n w =
      Returns-bind (apply_entries-IsWf (n.commit_index - n.last_applied) n (w, ground arith))
        (λ n' w'.
          maybe_compact-IsWf (resolve_reads (resolve_pending n'))
            (resolve_reads-IsWf (resolve_pending n') (resolve_pending-IsWf n' w')))
