-- ===== src/Node/Evolve/Election.antt =====
-- Campaigns (raft/node.rs) in the order of a node's states.
use rust_kv.Base.{◌+◌, not, none, some, List, [], ◌∷◌, arith, leb}
use rust_kv.Outcome.{Ensures, Ensures-some, Ensures-if, Ensures-bind}
use rust_kv.Types.{NodeId, RpcRequest, RpcResult, noop}
use rust_kv.Storage
use rust_kv.Storage.{Storage, expect, last_index}
use rust_kv.Node.State.{
  candidate, pre_candidate, leader, Event, pre_vote_reply, vote_reply, send, RaftNode,
}
use rust_kv.Node.Queries.{
  current_term, majority, is_member, peer_ids, count_member_votes, emit, save_hard_state,
}
use rust_kv.Node.Election.{
  vote_args, broadcast, fresh_leadership, become_leader, maybe_become_leader, start_election,
  maybe_start_election, on_election_timeout,
}
use rust_kv.Node.Evolve.Defs.{
  Evolves, Evolves-refl, Evolves-then, Evolves-after, Ensures-candidate, Ensures-pre_candidate,
}
use rust_kv.Node.Evolve.Log.{append-Keeps}
use rust_kv.Node.Evolve.Replication.{
  storage-Evolves, hard_state-Evolves, reset_election_timer-Evolves, maybe_advance_commit-Evolves,
  on_heartbeat_tick-Evolves,
}

module _ {V S : Type 0} where
  broadcast-Evolves :
      (request : RpcRequest V) (tag : NodeId → RpcResult → Event) (peers : List NodeId)
      (n : RaftNode V S)
      → Evolves n (broadcast request tag peers n)
  unfolding broadcast emit
  broadcast-Evolves request tag [] n = Evolves-refl n
  broadcast-Evolves request tag (peer ∷ peers) n =
      broadcast-Evolves request tag peers (emit (send peer request (tag peer)) n)

  become_leader-Evolves : (n : RaftNode V S) → Ensures (Evolves n) (become_leader n)
  unfolding become_leader
  become_leader-Evolves n =
      let next = last_index n.storage + 1 in
      let noop_entry = record { term = current_term n; index = next; command = noop } ∷ [] in
      Ensures-bind (append-Keeps n.commit_index noop_entry n.storage) (λ s k.
        let m : RaftNode V S = record n {
          role = leader (fresh_leadership n);
          leader_id = some n.config.id;
          storage = s;
        } in
        Evolves-after n m (storage-Evolves n s k)
          (Evolves-then m (maybe_advance_commit-Evolves m) (λ m'. on_heartbeat_tick-Evolves m')))

  pub maybe_become_leader-Evolves : (n : RaftNode V S) → Ensures (Evolves n) (maybe_become_leader n)
  unfolding maybe_become_leader
  maybe_become_leader-Evolves n =
      Ensures-candidate n.role _ (some n)
        (λ votes.
          Ensures-if (leb (majority n) (count_member_votes n votes)) _ (some n)
            (λ _. become_leader-Evolves n) (λ _. Ensures-some n (Evolves-refl n)))
        (Ensures-some n (Evolves-refl n))

  start_election-Evolves : (n : RaftNode V S) → Ensures (Evolves n) (start_election n)
  unfolding start_election save_hard_state Storage.save_hard_state current_term
  start_election-Evolves n =
      let term = current_term n + 1 in
      let m : RaftNode V S = record (save_hard_state term (some n.config.id) n) {
        role = candidate (n.config.id ∷ []);
        leader_id = none;
      } in
      Evolves-after n m
        (hard_state-Evolves n (record { current_term = term; voted_for = some n.config.id })
          (record { term = omega arith; vote = λ same. absurd (omega arith) }))
        (Evolves-then m (reset_election_timer-Evolves m) (λ n'.
          let sent =
            broadcast (RpcRequest.request_vote (vote_args term n')) (vote_reply term) (peer_ids n')
              n' in
          Evolves-after n' sent
            (broadcast-Evolves (RpcRequest.request_vote (vote_args term n')) (vote_reply term)
              (peer_ids n') n')
            (maybe_become_leader-Evolves sent)))

  pub maybe_start_election-Evolves :
      (n : RaftNode V S) → Ensures (Evolves n) (maybe_start_election n)
  unfolding maybe_start_election
  maybe_start_election-Evolves n =
      Ensures-pre_candidate n.role _ (some n)
        (λ votes.
          Ensures-if (leb (majority n) (count_member_votes n votes)) _ (some n)
            (λ _. start_election-Evolves n) (λ _. Ensures-some n (Evolves-refl n)))
        (Ensures-some n (Evolves-refl n))

  pub on_election_timeout-Evolves : (n : RaftNode V S) → Ensures (Evolves n) (on_election_timeout n)
  unfolding on_election_timeout
  on_election_timeout-Evolves n =
      let term = current_term n + 1 in
      let m : RaftNode V S = record n {
        role = pre_candidate (n.config.id ∷ []);
        leader_id = none;
      } in
      Ensures-if (not (is_member n n.config.id)) _ _ (λ _. reset_election_timer-Evolves n)
        (λ _. Evolves-after n m (Evolves-refl n) (
          Evolves-then m (reset_election_timer-Evolves m) (λ n'.
            let request = RpcRequest.pre_vote (vote_args term n') in
            let sent = broadcast request (pre_vote_reply term) (peer_ids n') n' in
            Evolves-after n' sent (broadcast-Evolves request (pre_vote_reply term) (peer_ids n') n')
              (maybe_start_election-Evolves sent))))
