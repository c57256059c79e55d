-- ===== src/Node/Client.antt =====
-- Client proposals and linearizable reads (raft/node.rs).
use rust_kv.Base.{
  ℕ, ◌+◌, ◌/◌, max, String, Bool, not, ◌&&◌, ◌||◌, Option, none, some, [], ◌∷◌, ◌++◌, ltb, ◌==◌,
  length, count, if◌then◌else◌,
}
use rust_kv.Maps.{get, keys, contains_key}
use rust_kv.Outcome.{◌>>=◌}
use rust_kv.Types.{NodeId, LogIndex, Membership, Command, config_change}
use rust_kv.Storage
use rust_kv.Storage.{expect}
use rust_kv.Node.State.{
  ProposeError, not_leader, invalid_config_change, leader, Leadership, accepted, rejected,
  propose_reply, read_reply, RaftNode,
}
use rust_kv.Node.Queries.{current_term, peer_ids, replication_targets, within, emit}
use rust_kv.Node.Membership.{adopt_membership}
use rust_kv.Node.Apply.{resolve_reads}
use rust_kv.Node.Replication.{send_appends, maybe_advance_commit}

-- How many keys of `a` are no keys of `b`.
unfoldable pub missing_from : Membership → Membership → ℕ
missing_from b a = count (λ id. not (contains_key id b)) (keys a)

unfoldable pub register_read : LogIndex → ℕ → Leadership → Leadership
register_read commit_index ticket l = record l {
  heartbeat_seq = l.heartbeat_seq + 1;
  pending_reads =
      l.pending_reads
      ++ record {
        needed_seq = l.heartbeat_seq + 1;
        read_index = max commit_index l.term_start_index;
        granted = ticket;
      }
        ∷ [];
}

module _ {V S : Type 0} where
  unfoldable pub is_reachable : RaftNode V S → Leadership → NodeId → Bool
  is_reachable n l id =
      id == n.config.id
      || (contains_key id l.acked_seq
          && within n n.config.election_timeout_max (get id l.last_contact))

  -- The two gates that the test harness can open.
  unfoldable pub reconfig_gates : RaftNode V S → Leadership → Option String
  reconfig_gates n l =
      if n.config.test_disable_reconfig_gates
      then none
      else if ltb n.commit_index l.term_start_index
      then some "this term's no-op is not yet committed; retry shortly"
      else if ltb n.commit_index n.members_index
      then some "a configuration change is already in flight"
      else none

  -- The rules on the new configuration itself.
  unfoldable pub config_rules : Membership → RaftNode V S → Leadership → Option String
  config_rules new n l =
      if length new == 0
      then some "the new configuration must keep at least one member"
      else if not (missing_from n.members new + missing_from new n.members == 1)
      then some "exactly one member must be added or removed"
      else if ltb (count (is_reachable n l) (keys new)) (length new / 2 + 1)
      then some "a majority of the new configuration must be reachable"
      else none

  -- Why the change is refused; `none` accepts it.
  unfoldable pub validate_config_change : Membership → RaftNode V S → Leadership → Option String
  validate_config_change new n l = elim (reconfig_gates n l) [
    | some reason ↦ some reason
    | none ↦ config_rules new n l
  ]

  unfoldable pub refusal : Command V → RaftNode V S → Option ProposeError
  refusal command n = elim n.role [
    | leader l ↦ elim command [
      | config_change members ↦ elim (validate_config_change members n l) [
        | some reason ↦ some (invalid_config_change reason)
        | none ↦ none
      ]
      | _ ↦ none
    ]
    | _ ↦ some (not_leader n.leader_id)
  ]

  -- A configuration is in effect from the moment it is appended.
  unfoldable pub adopt_command : Command V → ℕ → RaftNode V S → RaftNode V S
  adopt_command command index n = elim command [
    | config_change members ↦ adopt_membership members index n
    | _ ↦ n
  ]

  -- `handle_propose` up to the answer to the client.
  unfoldable pub append_proposal : Command V → ℕ → RaftNode V S → Option (RaftNode V S)
  append_proposal command ticket n = do
    let term = current_term n
    let index = Storage.last_index n.storage + 1
    storage ←
        expect
          (Storage.append (record { term = term; index = index; command = command } ∷ []) n.storage)
    let n' = adopt_command command index (record n { storage = storage })
    some (
        emit (propose_reply ticket (accepted (term, index))) (record n' {
          pending = n'.pending ++ record { term = term; index = index; committed = ticket } ∷ [];
        }))

  unfoldable pub handle_propose : Command V → ℕ → RaftNode V S → Option (RaftNode V S)
  handle_propose command ticket n = elim (refusal command n) [
    | some error ↦ some (emit (propose_reply ticket (rejected error)) n)
    | none ↦ do
      n' ← append_proposal command ticket n
      m ← maybe_advance_commit n'
      send_appends (replication_targets m) m
  ]

  unfoldable pub handle_read : ℕ → RaftNode V S → Option (RaftNode V S)
  handle_read ticket n = elim n.role [
    | leader l ↦ do
      n' ← send_appends (peer_ids n) (
          emit (read_reply ticket (accepted tt))
            (record n { role = leader (register_read n.commit_index ticket l) }))
      some (resolve_reads n')
    | _ ↦ some (emit (read_reply ticket (rejected (not_leader n.leader_id))) n)
  ]
