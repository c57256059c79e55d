-- ===== src/Node/Evolve/Events.antt =====
-- The replies to outbound RPCs (raft/node.rs) in the order of a node's states.
use rust_kv.Base.{ℕ, ◌+◌, Bool, Option, none, some, ltb, if◌then◌else◌}
use rust_kv.Maps.{get_or}
use rust_kv.Outcome.{Ensures, Ensures-some, Ensures-if}
use rust_kv.Types.{
  NodeId, Term, LogIndex, RequestVoteReply, AppendEntriesReply, InstallSnapshotReply,
}
use rust_kv.Node.State.{
  leader, candidate, pre_candidate, Leadership, Event, pre_vote_reply, vote_reply, append_reply,
  install_snapshot_reply, RaftNode,
}
use rust_kv.Node.Queries.{current_term}
use rust_kv.Maps.{add}
use rust_kv.Node.Membership.{publish_membership}
use rust_kv.Node.Apply.{resolve_reads}
use rust_kv.Node.Replication.{become_follower}
use rust_kv.Node.Events.{
  as_pre_vote, as_request_vote, as_append_entries, as_install_snapshot, has_departed, acknowledge,
  confirm, backtrack, end_departure, installed, handle_pre_vote_reply, handle_vote_reply, resend_if,
  on_append_success, on_append_reject, handle_append_reply, on_snapshot_installed,
  handle_install_snapshot_reply, handle_event,
}
use rust_kv.Node.Evolve.Defs.{
  Evolves, Evolves-refl, Evolves-then, Evolves-after, by_if, Ensures-leader, Ensures-candidate,
  Ensures-pre_candidate, Ensures-option,
}
use rust_kv.Node.Evolve.Replication.{
  become_follower-Evolves, resolve_reads-Evolves, send_append-Evolves, maybe_advance_commit-Evolves,
}
use rust_kv.Node.Evolve.Election.{maybe_become_leader-Evolves, maybe_start_election-Evolves}

module _ {V S : Type 0} where
  stay : (n : RaftNode V S) → Ensures (Evolves n) (some n)
  stay n = Ensures-some n (Evolves-refl n)

  -- Every reply first steps down on a higher term, and is dropped unless it answers this term.
  reply_frame :
      (t : Term) (stale : Bool) (n : RaftNode V S) (rest : Option (RaftNode V S))
      → Ensures (Evolves n) rest
      → Ensures (Evolves n) (
          if ltb (current_term n) t
          then become_follower t none n
          else if stale
          then some n
          else rest)
  reply_frame t stale n rest h =
      Ensures-if (ltb (current_term n) t) _ _ (λ _. become_follower-Evolves t none n)
        (λ _. Ensures-if stale (some n) rest (λ _. stay n) (λ _. h))

  handle_pre_vote_reply-Evolves :
      (sent_term : Term) (from : NodeId) (reply : RequestVoteReply) (n : RaftNode V S)
      → Ensures (Evolves n) (handle_pre_vote_reply sent_term from reply n)
  unfolding handle_pre_vote_reply
  handle_pre_vote_reply-Evolves sent_term from reply n = reply_frame reply.term _ n _ (
      Ensures-pre_candidate n.role _ (some n)
        (λ votes.
          let m : RaftNode V S = record n { role = pre_candidate (add from votes) } in
          Evolves-after n m (Evolves-refl n) (maybe_start_election-Evolves m))
        (stay n))

  handle_vote_reply-Evolves :
      (sent_term : Term) (from : NodeId) (reply : RequestVoteReply) (n : RaftNode V S)
      → Ensures (Evolves n) (handle_vote_reply sent_term from reply n)
  unfolding handle_vote_reply
  handle_vote_reply-Evolves sent_term from reply n = reply_frame reply.term _ n _ (
      Ensures-candidate n.role _ (some n)
        (λ votes.
          let m : RaftNode V S = record n { role = candidate (add from votes) } in
          Evolves-after n m (Evolves-refl n) (maybe_become_leader-Evolves m))
        (stay n))

  resend_if-Evolves :
      (resend : Bool) (from : NodeId) (n : RaftNode V S)
      → Ensures (Evolves n) (resend_if resend from n)
  unfolding resend_if
  resend_if-Evolves resend from n =
      Ensures-if resend _ (some n) (λ _. send_append-Evolves from n) (λ _. stay n)

  on_append_success-Evolves :
      (from : NodeId) (confirmed : LogIndex) (l : Leadership) (n : RaftNode V S)
      → Ensures (Evolves n) (on_append_success from confirmed l n)
  unfolding on_append_success publish_membership
  on_append_success-Evolves from confirmed l n =
      let l' = confirm from confirmed l in
      let departed = has_departed from (get_or 0 from l'.match_index) l'.departing in
      let m : RaftNode V S =
        if departed
        then publish_membership (record n { role = leader (end_departure from l') })
        else record n { role = leader l' } in
      Evolves-after n m (by_if (Evolves n) departed (Evolves-refl n) (Evolves-refl n)) (
        Evolves-then m (maybe_advance_commit-Evolves m) (λ k.
          Evolves-then k (resend_if-Evolves _ from k)
            (λ k'. Ensures-some (resolve_reads k') (resolve_reads-Evolves k'))))

  on_append_reject-Evolves :
      (from : NodeId) (prev : LogIndex) (l : Leadership) (n : RaftNode V S)
      → Ensures (Evolves n) (on_append_reject from prev l n)
  unfolding on_append_reject
  on_append_reject-Evolves from prev l n =
      let m : RaftNode V S = record n { role = leader (backtrack from prev l) } in
      Evolves-then n (Evolves-after n m (Evolves-refl n) (send_append-Evolves from m))
        (λ k. Ensures-some (resolve_reads k) (resolve_reads-Evolves k))

  handle_append_reply-Evolves :
      (sent_term : Term) (from : NodeId) (prev : LogIndex) (entries seq : ℕ)
      (reply : AppendEntriesReply) (n : RaftNode V S)
      → Ensures (Evolves n) (handle_append_reply sent_term from prev entries seq reply n)
  unfolding handle_append_reply
  handle_append_reply-Evolves sent_term from prev entries seq reply n =
      reply_frame reply.term _ n _ (
        Ensures-leader n.role _ (some n)
          (λ l _.
            let l' = acknowledge from seq n.now l in
            Ensures-if reply.success _ _ (λ _. on_append_success-Evolves from (prev + entries) l' n)
              (λ _. on_append_reject-Evolves from prev l' n))
          (stay n))

  on_snapshot_installed-Evolves :
      (from : NodeId) (boundary : LogIndex) (l : Leadership) (n : RaftNode V S)
      → Ensures (Evolves n) (on_snapshot_installed from boundary l n)
  unfolding on_snapshot_installed publish_membership
  on_snapshot_installed-Evolves from boundary l n =
      let l' = installed from boundary n.now l in
      let departed = has_departed from boundary l.departing in
      let m : RaftNode V S =
        if departed
        then publish_membership (record n { role = leader (end_departure from l') })
        else record n { role = leader l' } in
      Evolves-after n m (by_if (Evolves n) departed (Evolves-refl n) (Evolves-refl n))
        (Evolves-then m (maybe_advance_commit-Evolves m) (λ k. resend_if-Evolves _ from k))

  handle_install_snapshot_reply-Evolves :
      (sent_term : Term) (from : NodeId) (boundary : LogIndex) (reply : InstallSnapshotReply)
      (n : RaftNode V S)
      → Ensures (Evolves n) (handle_install_snapshot_reply sent_term from boundary reply n)
  unfolding handle_install_snapshot_reply
  handle_install_snapshot_reply-Evolves sent_term from boundary reply n =
      reply_frame reply.term _ n _ (
        Ensures-leader n.role _ (some n) (λ l _. on_snapshot_installed-Evolves from boundary l n)
          (stay n))

  pub handle_event-Evolves :
      (event : Event) (n : RaftNode V S) → Ensures (Evolves n) (handle_event event n)
  unfolding handle_event
  handle_event-Evolves (pre_vote_reply t from result) n =
      Ensures-option (as_pre_vote result) _ (some n) (stay n)
        (λ reply _. handle_pre_vote_reply-Evolves t from reply n)
  handle_event-Evolves (vote_reply t from result) n =
      Ensures-option (as_request_vote result) _ (some n) (stay n)
        (λ reply _. handle_vote_reply-Evolves t from reply n)
  handle_event-Evolves (append_reply t from prev entries seq result) n =
      Ensures-option (as_append_entries result) _ (some n) (stay n)
        (λ reply _. handle_append_reply-Evolves t from prev entries seq reply n)
  handle_event-Evolves (install_snapshot_reply t from boundary result) n =
      Ensures-option (as_install_snapshot result) _ (some n) (stay n)
        (λ reply _. handle_install_snapshot_reply-Evolves t from boundary reply n)
