-- ===== src/Node/Wf/Election.antt =====
-- The invariant through campaigns and the start of a leadership (raft/node.rs).
use rust_kv.Base.{ℕ, ◌+◌, ◌≤◌, some, List, [], ◌∷◌, ◌++◌, arith, not, leb}
use rust_kv.Maps.{get-collect}
use rust_kv.Outcome.{Returns, returns, Returns-bind, Returns-if}
use rust_kv.Types.{NodeId, LogEntry, noop, RpcRequest, RpcResult}
use rust_kv.Storage.{snapshot_index, last_index}
use rust_kv.Storage.Contiguous.{Follows}
use rust_kv.Storage.Lookup.{append-eq-ok, append-IsContiguous, last_index-append}
use rust_kv.Node.State.{Role, leader, Event, RaftNode}
use rust_kv.Node.Queries.{
  current_term, majority, is_member, peer_ids, count_member_votes, emit, save_hard_state,
}
use rust_kv.Node.Election.{
  broadcast, fresh_leadership, become_leader, maybe_become_leader, start_election,
  maybe_start_election, on_election_timeout,
}
use rust_kv.Node.Wf.Defs.{NextInLog, IsWf, Returns-candidate, Returns-pre_candidate}
use rust_kv.Node.Wf.Replication.{
  reset_election_timer-IsWf, maybe_advance_commit-IsWf, on_heartbeat_tick-IsWf,
}

-- What an append at the end of the log keeps of the invariant; `role` may have changed.
module _ {V S : Type 0} where
  pub appended-IsWf :
      (n : RaftNode V S) (es : List (LogEntry V)) (role : Role)
      → Follows (last_index n.storage) es
      → NextInLog (last_index (record n.storage { log = n.storage.log ++ es })) role
      → IsWf n
      → IsWf (record n { storage = record n.storage { log = n.storage.log ++ es }; role = role })
  unfolding snapshot_index
  appended-IsWf n es role f h w = record {
    contiguous = append-IsContiguous n.storage es w.contiguous f;
    boundary = w.boundary;
    ordered = w.ordered;
    committed = omega (arith, last_index-append n.storage es);
    timer = w.timer;
    timer_fits = w.timer_fits;
    capture = w.capture;
    next = h;
  }

  broadcast-IsWf :
      (request : RpcRequest V) (tag : NodeId → RpcResult → Event) (peers : List NodeId)
      (n : RaftNode V S)
      → IsWf n
      → IsWf (broadcast request tag peers n)
  unfolding broadcast emit
  broadcast-IsWf request tag [] n w = w
  broadcast-IsWf request tag (peer ∷ peers) n w = broadcast-IsWf request tag peers _ w

  fresh_next :
      (n : RaftNode V S) (last : ℕ)
      → last_index n.storage ≤ last
      → NextInLog last (leader (fresh_leadership n))
  unfolding fresh_leadership
  fresh_next n last le peer next e =
      ground (arith, e, get-collect (peer_ids n) peer (last_index n.storage + 1))

  pub become_leader-IsWf : (n : RaftNode V S) → IsWf n → Returns IsWf (become_leader n)
  unfolding become_leader
  become_leader-IsWf n w =
      let e : LogEntry V = record {
        term = current_term n;
        index = last_index n.storage + 1;
        command = noop;
      } in
      let f : Follows (last_index n.storage) (e ∷ []) = (omega arith, tt) in
      rw (append-eq-ok n.storage (e ∷ []) f) (
        Returns-bind
          (maybe_advance_commit-IsWf _ (
            appended-IsWf n (e ∷ []) (leader (fresh_leadership n)) f
              (fresh_next n _ (omega (arith, last_index-append n.storage (e ∷ [])))) w))
          (λ n' w'. on_heartbeat_tick-IsWf n' w'))

  pub maybe_become_leader-IsWf : (n : RaftNode V S) → IsWf n → Returns IsWf (maybe_become_leader n)
  unfolding maybe_become_leader
  maybe_become_leader-IsWf n w =
      Returns-candidate n.role _ (some n)
        (λ votes _.
          Returns-if (leb (majority n) (count_member_votes n votes)) _ (some n)
            (λ _. become_leader-IsWf n w) (λ _. returns w))
        (returns w)

  pub start_election-IsWf : (n : RaftNode V S) → IsWf n → Returns IsWf (start_election n)
  unfolding start_election save_hard_state snapshot_index last_index
  start_election-IsWf n w =
      Returns-bind (reset_election_timer-IsWf _ (ground arith))
        (λ n' w'. maybe_become_leader-IsWf _ (broadcast-IsWf _ _ (peer_ids n') n' w'))

  pub maybe_start_election-IsWf :
      (n : RaftNode V S) → IsWf n → Returns IsWf (maybe_start_election n)
  unfolding maybe_start_election
  maybe_start_election-IsWf n w =
      Returns-pre_candidate n.role _ (some n)
        (λ votes _.
          Returns-if (leb (majority n) (count_member_votes n votes)) _ (some n)
            (λ _. start_election-IsWf n w) (λ _. returns w))
        (returns w)

  pub on_election_timeout-IsWf : (n : RaftNode V S) → IsWf n → Returns IsWf (on_election_timeout n)
  unfolding on_election_timeout
  on_election_timeout-IsWf n w =
      Returns-if (not (is_member n n.config.id)) _ _ (λ _. reset_election_timer-IsWf n w)
        (λ _.
          Returns-bind (reset_election_timer-IsWf _ (ground arith))
            (λ n' w'. maybe_start_election-IsWf _ (broadcast-IsWf _ _ (peer_ids n') n' w')))
