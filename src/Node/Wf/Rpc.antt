-- ===== src/Node/Wf/Rpc.antt =====
-- The invariant through the inbound RPC handlers (raft/node.rs).
use rust_kv.Base.{◌<◌, ◌≡◌, refl, none, some, arith, ◌&&◌, leb, ltb}
use rust_kv.Outcome.{Returns, returns, Returns-bind, Returns-if}
use rust_kv.Types.{RequestVoteArgs, InstallSnapshotArgs, RpcRequest}
use rust_kv.Storage.{snapshot_index, last_index}
use rust_kv.Storage.Compaction.{Installed-bounds, install-Installed}
use rust_kv.Node.State.{follower, RaftNode, Inbound}
use rust_kv.Node.Queries.{current_term, emit, save_hard_state}
use rust_kv.Node.Membership.{rescan_membership}
use rust_kv.Node.Apply.{resolve_pending}
use rust_kv.Node.Replication.StepDown.{rearmed, stepped_down, become_follower-eq}
use rust_kv.Node.Rpc.{
  log_up_to_date, can_vote, grant_vote, handle_request_vote, install, handle_install_snapshot,
  dispatch, handle_inbound,
}
use rust_kv.Node.Wf.Defs.{IsWf}
use rust_kv.Node.Wf.Replication.{reset_election_timer-IsWf, become_follower-IsWf}
use rust_kv.Node.Wf.Walk.{IsBatch}
use rust_kv.Node.Wf.Append.{
  adopt_membership-IsWf, staged_lt, stepped_down-IsWf, handle_append_entries-IsWf,
}

module _ {V S : Type 0} where
  grant_vote-IsWf :
      (args : RequestVoteArgs) (n : RaftNode V S)
      → IsWf n
      → Returns (λ x. IsWf x.1) (grant_vote args n)
  unfolding grant_vote save_hard_state snapshot_index last_index
  grant_vote-IsWf args n w =
      Returns-if (ltb args.term (current_term n)) _ _ (λ _. returns w)
        (λ _.
          Returns-if (can_vote n args.candidate_id && log_up_to_date n args) _ _
            (λ _. Returns-bind (reset_election_timer-IsWf _ (ground arith)) (λ n' w'. returns w'))
            (λ _. returns w))

  pub handle_request_vote-IsWf :
      (args : RequestVoteArgs) (n : RaftNode V S)
      → IsWf n
      → Returns (λ x. IsWf x.1) (handle_request_vote args n)
  unfolding handle_request_vote
  handle_request_vote-IsWf args n w =
      Returns-bind
        (Returns-if (ltb (current_term n) args.term) _ (some n)
          (λ _. become_follower-IsWf args.term none n w) (λ _. returns w))
        (λ n' w'. grant_vote-IsWf args n' w')

  install-IsWf :
      (args : InstallSnapshotArgs V) (n : RaftNode V S) {state : S}
      → n.state_machine.restore args.snapshot.state ≡ some state
      → n.commit_index < args.snapshot.last_included_index
      → n.role ≡ follower
      → IsWf n
      → Returns IsWf (install args n)
  unfolding install resolve_pending rescan_membership
  install-IsWf args n {state} r lt role w =
      Returns-bind
        (install-Installed n.storage args.snapshot w.contiguous
          (omega (arith, w.boundary, w.ordered)))
        (λ s h.
          let (at, le) = Installed-bounds args.snapshot n.storage s h in
          rw r (
            returns (
              adopt_membership-IsWf _ _ _ (record {
                contiguous = h.contiguous;
                boundary = omega (arith, at);
                ordered = omega arith;
                committed = le;
                timer = w.timer;
                timer_fits = w.timer_fits;
                capture = staged_lt n.staged_snapshot w.capture (omega (arith, w.ordered));
                next = rw role tt;
              }))))

  pub handle_install_snapshot-IsWf :
      (args : InstallSnapshotArgs V) (n : RaftNode V S) {state : S}
      → n.state_machine.restore args.snapshot.state ≡ some state
      → IsWf n
      → Returns (λ x. IsWf x.1) (handle_install_snapshot args n)
  unfolding handle_install_snapshot
  handle_install_snapshot-IsWf args n r w =
      Returns-if (ltb args.term (current_term n)) _ _ (λ _. returns w)
        (λ _.
          let leader_id = some args.leader_id in
          let (d, rng, e, _, _) =
            become_follower-eq args.term leader_id n (w.timer, w.timer_fits) in
          let m = record (rearmed d rng (stepped_down args.term leader_id n)) {
            last_leader_contact = some n.now;
          } in
          let v : IsWf m = stepped_down-IsWf args.term leader_id n w in
          rw e (
            Returns-if (leb args.snapshot.last_included_index n.commit_index) _ _ (λ _. returns v)
              (λ new.
                Returns-bind (install-IsWf args m r (ground (arith, new)) refl v)
                  (λ n' w'. returns w'))))

  -- What a request must satisfy: entries that do not contradict what is committed, and a snapshot
  -- that the state machine can restore.
  abbrev pub IsSound : RaftNode V S → RpcRequest V → Type 0
  IsSound n (RpcRequest.append_entries args) = IsBatch n.storage n.commit_index args
  IsSound n (RpcRequest.install_snapshot args) =
      (state : S) × (n.state_machine.restore args.snapshot.state ≡ some state)
  IsSound n _ = Unit

  dispatch-IsWf :
      (request : RpcRequest V) (n : RaftNode V S)
      → IsSound n request
      → IsWf n
      → Returns (λ x. IsWf x.1) (dispatch request n)
  unfolding dispatch
  dispatch-IsWf (RpcRequest.request_vote args) n h w =
      Returns-bind (handle_request_vote-IsWf args n w) (λ x w'. returns w')
  dispatch-IsWf (RpcRequest.append_entries args) n h w =
      Returns-bind (handle_append_entries-IsWf args n h w) (λ x w'. returns w')
  dispatch-IsWf (RpcRequest.pre_vote args) n h w = returns w
  dispatch-IsWf (RpcRequest.install_snapshot args) n h w =
      Returns-bind (handle_install_snapshot-IsWf args n h.1 w) (λ x w'. returns w')

  pub handle_inbound-IsWf :
      (inbound : Inbound V) (n : RaftNode V S)
      → IsSound n inbound.request
      → IsWf n
      → Returns IsWf (handle_inbound inbound n)
  unfolding handle_inbound emit
  handle_inbound-IsWf inbound n h w =
      Returns-bind (dispatch-IsWf inbound.request n h w) (λ x w'. returns w')
