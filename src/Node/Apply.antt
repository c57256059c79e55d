-- ===== src/Node/Apply.antt =====
-- Applying committed entries, settling what waits on them, and compaction (raft/node.rs).
use rust_kv.Base.{
  ℕ, zero, suc, ◌+◌, ◌-◌, max, Bool, true, false, ◌&&◌, Option, none, some, List, [], ◌∷◌, ◌++◌,
  leb, count, to_ℕ, if◌then◌else◌,
}
use rust_kv.Maps.{Map, get}
use rust_kv.Outcome.{◌>>=◌}
use rust_kv.Types.{NodeId, LogIndex}
use rust_kv.Storage
use rust_kv.Storage.{Storage, expect}
use rust_kv.Node.State.{
  PendingProposal, PendingRead, leader, Leadership, Output, committed, granted, RaftNode,
}
use rust_kv.Node.Queries.{majority, is_member, peer_ids}
use rust_kv.Node.Membership.{membership_at}

module _ {V S : Type 0} where
  -- One turn of the loop of `apply_committed`.
  unfoldable pub apply_next : RaftNode V S → Option (RaftNode V S)
  apply_next n = do
    e ← Storage.entry n.storage (n.last_applied + 1)
    some (record n { last_applied = n.last_applied + 1; state = n.state_machine.apply e n.state })

  -- The loop runs once for each of the entries from `last_applied` to `commit_index`.
  unfoldable pub apply_entries : ℕ → RaftNode V S → Option (RaftNode V S)
  apply_entries zero n = some n
  apply_entries (suc k) n = do n' ← apply_next n; apply_entries k n'

module _ {V : Type 0} where
  -- What `resolve_pending` decides of one proposal; `none` keeps it.
  unfoldable pub outcome : Storage V → LogIndex → PendingProposal → Option Bool
  outcome s commit_index p =
      if Storage.has_term s p.index p.term
      then (if leb p.index commit_index then some true else none)
      else some false

  unfoldable pub settled : Storage V → LogIndex → List PendingProposal → List (Output V)
  settled s c [] = []
  settled s c (p ∷ ps) =
      let rest = settled s c ps in
      elim (outcome s c p) [ none ↦ rest | some b ↦ committed p.committed b ∷ rest ]

  unfoldable pub unsettled : Storage V → LogIndex → List PendingProposal → List PendingProposal
  unsettled s c [] = []
  unsettled s c (p ∷ ps) =
      let rest = unsettled s c ps in elim (outcome s c p) [ none ↦ p ∷ rest | some b ↦ rest ]

-- A peer has answered an AppendEntries that was sent at `seq` or later.
unfoldable pub has_acked : Map ℕ → ℕ → NodeId → Bool
has_acked acked_seq seq id = elim (get id acked_seq) [ none ↦ false | some s ↦ leb seq s ]

module _ {V S : Type 0} where
  unfoldable pub resolve_pending : RaftNode V S → RaftNode V S
  resolve_pending n = record n {
    pending = unsettled n.storage n.commit_index n.pending;
    outbox = n.outbox ++ settled n.storage n.commit_index n.pending;
  }

  unfoldable pub acks : RaftNode V S → Leadership → ℕ → ℕ
  acks n l seq = to_ℕ (is_member n n.config.id) + count (has_acked l.acked_seq seq) (peer_ids n)

  unfoldable pub can_grant : RaftNode V S → Leadership → PendingRead → Bool
  can_grant n l r = leb (majority n) (acks n l r.needed_seq) && leb r.read_index n.last_applied

  unfoldable pub granted_reads : RaftNode V S → Leadership → List PendingRead → List (Output V)
  granted_reads n l [] = []
  granted_reads n l (r ∷ rs) =
      let rest = granted_reads n l rs in if can_grant n l r then granted r.granted ∷ rest else rest

  unfoldable pub waiting_reads : RaftNode V S → Leadership → List PendingRead → List PendingRead
  waiting_reads n l [] = []
  waiting_reads n l (r ∷ rs) =
      let rest = waiting_reads n l rs in if can_grant n l r then rest else r ∷ rest

  unfoldable pub resolve_reads : RaftNode V S → RaftNode V S
  resolve_reads n = elim n.role [
    | leader l ↦ record n {
      role = leader (record l { pending_reads = waiting_reads n l l.pending_reads });
      outbox = n.outbox ++ granted_reads n l l.pending_reads;
    }
    | _ ↦ n
  ]

  -- `maybe_compact`: a capture that the boundary has overtaken is dropped.
  unfoldable pub drop_stale_capture : RaftNode V S → RaftNode V S
  drop_stale_capture n = elim n.staged_snapshot [
    | none ↦ n
    | some (i, _, _) ↦
        if leb i (Storage.snapshot_index n.storage) then record n { staged_snapshot = none } else n
  ]

  unfoldable pub capture : ℕ → RaftNode V S → RaftNode V S
  capture threshold n = elim n.staged_snapshot [
    | some _ ↦ n
    | none ↦
        if leb (max threshold 1) (n.last_applied - Storage.snapshot_index n.storage)
        then record n {
          staged_snapshot =
              some
                (n.last_applied, n.state_machine.snapshot n.state, membership_at n.last_applied n);
        }
        else n
  ]

  unfoldable pub compact_staged : RaftNode V S → Option (RaftNode V S)
  compact_staged n = elim n.staged_snapshot [
    | none ↦ some n
    | some (i, state, membership) ↦
        if leb n.config.snapshot_trailing (n.last_applied - i)
        then (do
          s ← expect (Storage.compact_to i state membership n.storage)
          some (record n { storage = s; staged_snapshot = none }))
        else some n
  ]

  unfoldable pub maybe_compact : RaftNode V S → Option (RaftNode V S)
  maybe_compact n = elim n.config.snapshot_threshold [
    | none ↦ some n
    | some threshold ↦ compact_staged (capture threshold (drop_stale_capture n))
  ]

  unfoldable pub apply_committed : RaftNode V S → Option (RaftNode V S)
  apply_committed n = do
    n' ← apply_entries (n.commit_index - n.last_applied) n
    maybe_compact (resolve_reads (resolve_pending n'))
