-- ===== src/Node/Replication.antt =====
-- Leader replication and commit advancement (raft/node.rs).
pub mod StepDown
use rust_kv.Base.{
  ℕ, ◌+◌, ◌-◌, Bool, true, false, not, ◌&&◌, ◌||◌, Option, none, some, List, [], ◌∷◌, ◌++◌, leb,
  ltb, count, length, get_elem?, map, to_ℕ, if◌then◌else◌,
}
use rust_kv.Maps.{get, get_or}
use rust_kv.Outcome.{◌>>=◌}
use rust_kv.Types.{NodeId, Term, LogIndex, RpcRequest}
use rust_kv.Storage
use rust_kv.Node.State.{
  follower, leader, Leadership, send, append_reply, install_snapshot_reply, RaftNode,
}
use rust_kv.Node.Queries.{
  current_term, is_leader, majority, is_member, peer_ids, replication_targets, is_departing, within,
  emit, save_hard_state, reset_election_timer,
}
use rust_kv.Node.Membership.{publish_membership}
use rust_kv.Node.Apply.{apply_committed}

module _ {V S : Type 0} where
  unfoldable pub adopt_term : Term → RaftNode V S → RaftNode V S
  adopt_term term n = if ltb (current_term n) term then save_hard_state term none n else n

  unfoldable pub had_departing : RaftNode V S → Bool
  had_departing n = elim n.role [
    | leader l ↦ elim l.departing [ [] ↦ false | _ ∷ _ ↦ true ]
    | _ ↦ false
  ]

  unfoldable pub become_follower : Term → Option NodeId → RaftNode V S → Option (RaftNode V S)
  become_follower term leader_id n =
      let n' = record (adopt_term term n) { role = follower; leader_id = leader_id } in
      reset_election_timer (if had_departing n then publish_membership n' else n')

  unfoldable pub send_install_snapshot : NodeId → RaftNode V S → Option (RaftNode V S)
  send_install_snapshot peer n = do
    snapshot ← n.storage.snapshot
    some (
        emit
          (send peer
            (RpcRequest.install_snapshot
              (record { term = current_term n; leader_id = n.config.id; snapshot = snapshot }))
            (install_snapshot_reply (current_term n) peer snapshot.last_included_index))
          n)

  -- `send_append` from where the peer's next index is known.
  unfoldable pub send_from : NodeId → Leadership → LogIndex → RaftNode V S → Option (RaftNode V S)
  send_from peer l next n =
      if leb next (Storage.snapshot_index n.storage) then send_install_snapshot peer n else do
        prev_log_term ← Storage.term n.storage (next - 1)
        let entries = Storage.entries_from n.storage next
        some (
            emit
              (send peer
                (RpcRequest.append_entries (record {
                  term = current_term n;
                  leader_id = n.config.id;
                  prev_log_index = next - 1;
                  prev_log_term = prev_log_term;
                  entries = entries;
                  leader_commit = n.commit_index;
                }))
                (append_reply (current_term n) peer (next - 1) (length entries) l.heartbeat_seq))
              n)

  unfoldable pub send_append : NodeId → RaftNode V S → Option (RaftNode V S)
  send_append peer n =
      if is_member n peer || is_departing n peer
      then elim n.role [
        | leader l ↦
            send_from peer l (get_or (Storage.last_index n.storage + 1) peer l.next_index) n
        | _ ↦ some n
      ]
      else some n

  -- `for peer in peers { self.send_append(peer); }`
  unfoldable pub send_appends : List NodeId → RaftNode V S → Option (RaftNode V S)
  send_appends [] n = some n
  send_appends (peer ∷ peers) n = do n' ← send_append peer n; send_appends peers n'

  -- The members that CheckQuorum counts, this node included.
  unfoldable pub heard : RaftNode V S → Leadership → ℕ
  heard n l =
      to_ℕ (is_member n n.config.id)
      + count (λ id. within n n.config.election_timeout_max (get id l.last_contact)) (peer_ids n)

  unfoldable pub quorum_lost : RaftNode V S → Bool
  quorum_lost n = elim n.role [ leader l ↦ ltb (heard n l) (majority n) | _ ↦ false ]

  unfoldable pub on_heartbeat_tick : RaftNode V S → Option (RaftNode V S)
  on_heartbeat_tick n = if quorum_lost n then become_follower (current_term n) none n else do
    n' ← send_appends (replication_targets n) n
    some (record n' { next_heartbeat = n'.now + n'.config.heartbeat_interval })

-- `sort_unstable`
unfoldable pub insert_sorted : ℕ → List ℕ → List ℕ
insert_sorted x [] = x ∷ []
insert_sorted x (y ∷ ys) = let rest = insert_sorted x ys in if leb x y then x ∷ y ∷ ys else y ∷ rest

unfoldable pub sort : List ℕ → List ℕ
sort [] = []
sort (x ∷ xs) = insert_sorted x (sort xs)

module _ {V S : Type 0} where
  -- How far each counted member's log is known to reach.
  unfoldable pub replicated : RaftNode V S → Leadership → List LogIndex
  replicated n l =
      map (λ id. get_or 0 id l.match_index) (peer_ids n)
      ++ (if is_member n n.config.id then Storage.last_index n.storage ∷ [] else [])

  unfoldable pub commit_to : LogIndex → RaftNode V S → Option (RaftNode V S)
  commit_to candidate n =
      if ltb n.commit_index candidate && Storage.has_term n.storage candidate (current_term n)
      then apply_committed (record n { commit_index = candidate })
      else some n

  unfoldable pub step_down_if_removed : RaftNode V S → Option (RaftNode V S)
  step_down_if_removed n =
      if is_leader n && not (is_member n n.config.id) && leb n.members_index n.commit_index
      then become_follower (current_term n) none n
      else some n

  unfoldable pub maybe_advance_commit : RaftNode V S → Option (RaftNode V S)
  maybe_advance_commit n = elim n.role [
    | leader l ↦
        let reached = sort (replicated n l) in
        if ltb (length reached) (majority n) then some n else do
          candidate ← get_elem? reached (length reached - majority n)
          n' ← commit_to candidate n
          step_down_if_removed n'
    | _ ↦ some n
  ]
