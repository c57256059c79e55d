-- ===== src/Node/Queries.antt =====
-- The helpers of raft/node.rs that read the node, and the two that touch its timer and its status.
use rust_kv.Base.{
  ℕ, ◌+◌, ◌-◌, ◌/◌, ◌^◌, Bool, true, false, not, Option, none, some, List, [], ◌∷◌, ◌++◌, ltb, ◌==◌,
  length, filter, count,
}
use rust_kv.Maps.{contains_key, keys}
use rust_kv.Outcome.{◌>>=◌, assert}
use rust_kv.Rng.{next_range}
use rust_kv.Types.{NodeId, Term}
use rust_kv.Storage
use rust_kv.Node.State.{RoleKind, follower, pre_candidate, candidate, leader, Output, RaftNode}

module _ {V S : Type 0} where
  unfoldable pub current_term : RaftNode V S → Term
  current_term n = n.storage.hard_state.current_term

  unfoldable pub is_leader : RaftNode V S → Bool
  is_leader n = elim n.role [ leader _ ↦ true | _ ↦ false ]

  unfoldable pub role_kind : RaftNode V S → RoleKind
  role_kind n = elim n.role [
    | follower ↦ RoleKind.follower
    | pre_candidate _ ↦ RoleKind.pre_candidate
    | candidate _ ↦ RoleKind.candidate
    | leader _ ↦ RoleKind.leader
  ]

  unfoldable pub majority : RaftNode V S → ℕ
  majority n = length n.members / 2 + 1

  unfoldable pub is_member : RaftNode V S → NodeId → Bool
  is_member n id = contains_key id n.members

  unfoldable pub peer_ids : RaftNode V S → List NodeId
  peer_ids n = filter (λ id. not (id == n.config.id)) (keys n.members)

  unfoldable pub replication_targets : RaftNode V S → List NodeId
  replication_targets n = peer_ids n ++ elim n.role [ leader l ↦ keys l.departing | _ ↦ [] ]

  unfoldable pub is_departing : RaftNode V S → NodeId → Bool
  is_departing n peer = elim n.role [ leader l ↦ contains_key peer l.departing | _ ↦ false ]

  unfoldable pub count_member_votes : RaftNode V S → List NodeId → ℕ
  count_member_votes n votes = count (λ id. contains_key id n.members) votes

  -- `at.elapsed() < window` for an instant that may be missing
  unfoldable pub within : RaftNode V S → ℕ → Option ℕ → Bool
  within n window at = elim at [ none ↦ false | some t ↦ ltb (n.now - t) window ]

  unfoldable pub emit : Output V → RaftNode V S → RaftNode V S
  emit o n = record n { outbox = n.outbox ++ o ∷ [] }

  unfoldable pub save_hard_state : Term → Option NodeId → RaftNode V S → RaftNode V S
  unfolding Storage.save_hard_state
  save_hard_state t vote n = record n {
    storage = Storage.save_hard_state (record { current_term = t; voted_for = vote }) n.storage;
  }

  -- The bounds must fit `u64` microseconds and be in order.
  unfoldable pub reset_election_timer : RaftNode V S → Option (RaftNode V S)
  reset_election_timer n = do
    max ← assert (ltb n.config.election_timeout_max (2 ^ 64)) n.config.election_timeout_max
    (d, rng) ← next_range n.rng n.config.election_timeout_min max
    some (record n { election_deadline = n.now + d; rng = rng })

  unfoldable pub publish_status : RaftNode V S → RaftNode V S
  publish_status n = record n {
    status_tx = record {
      id = n.config.id;
      term = current_term n;
      role = role_kind n;
      leader_id = n.leader_id;
      commit_index = n.commit_index;
      last_log_index = Storage.last_index n.storage;
    };
  }
