-- ===== src/Node/Wf/Events.antt =====
-- The invariant through the replies to outbound RPCs (`handle_event` of raft/node.rs).
use rust_kv.Base.{
  ℕ, ◌+◌, ◌≤◌, ◌≡◌, inl, inr, none, some, arith, Bool, true, false, not, ◌||◌, min, max, ltb, ◌==◌,
  if◌then◌else◌, Option-cases,
}
use rust_kv.Maps.{get, get_or, get-insert}
use rust_kv.Outcome.{Returns, returns, Returns-bind, Returns-if, Returns-some}
use rust_kv.Types.{
  NodeId, Term, LogIndex, RequestVoteReply, AppendEntriesReply, InstallSnapshotReply,
}
use rust_kv.Storage.{last_index}
use rust_kv.Node.State.{
  leader, Leadership, Event, pre_vote_reply, vote_reply, append_reply, install_snapshot_reply,
  RaftNode,
}
use rust_kv.Node.Queries.{current_term}
use rust_kv.Node.Membership.{publish_membership}
use rust_kv.Node.Apply.{resolve_reads}
use rust_kv.Node.Events.{
  as_pre_vote, as_request_vote, as_append_entries, as_install_snapshot, has_departed, acknowledge,
  confirm, backtrack, end_departure, installed, handle_pre_vote_reply, handle_vote_reply, resend_if,
  on_append_success, on_append_reject, handle_append_reply, on_snapshot_installed,
  handle_install_snapshot_reply, handle_event,
}
use rust_kv.Node.Wf.Defs.{
  NextInLog, IsWf, Returns-leader, Returns-candidate, Returns-pre_candidate, Returns-option,
}
use rust_kv.Node.Wf.Apply.{resolve_reads-IsWf}
use rust_kv.Node.Wf.Replication.{become_follower-IsWf, send_append-IsWf, maybe_advance_commit-IsWf}
use rust_kv.Node.Wf.Election.{maybe_start_election-IsWf, maybe_become_leader-IsWf}

-- A next index within the log, or a default of 1, is one of those that may be sent.
next_or_one :
    (l : Leadership) (last peer : ℕ)
    → NextInLog last (leader l)
    → (1 ≤ get_or 1 peer l.next_index) × (get_or 1 peer l.next_index ≤ last + 1)
next_or_one l last peer h = elim (Option-cases (get peer l.next_index)) [
  | inl e ↦ ground (arith, e)
  | inr (next, e) ↦ ground (arith, e, h peer next e)
]

confirm-NextInLog :
    (from : NodeId) (confirmed last : LogIndex) (l : Leadership)
    → confirmed ≤ last
    → NextInLog last (leader l)
    → NextInLog last (leader (confirm from confirmed l))
unfolding confirm
confirm-NextInLog from confirmed last l le h peer next e =
    ground (arith, e, h peer next, get-insert from peer (confirmed + 1) l.next_index)

backtrack-NextInLog :
    (from : NodeId) (prev last : LogIndex) (l : Leadership)
    → NextInLog last (leader l)
    → NextInLog last (leader (backtrack from prev l))
unfolding backtrack
backtrack-NextInLog from prev last l h peer next e = ground (
  arith,
  e,
  h peer next,
  next_or_one l last from h,
  get-insert from peer (min (get_or 1 from l.next_index) (max prev 1)) l.next_index,
)

installed-NextInLog :
    (from : NodeId) (boundary now last : ℕ) (l : Leadership)
    → boundary ≤ last
    → NextInLog last (leader l)
    → NextInLog last (leader (installed from boundary now l))
unfolding installed
installed-NextInLog from boundary now last l le h peer next e = ground (
  arith,
  e,
  h peer next,
  next_or_one l last from h,
  get-insert from peer (max (get_or 1 from l.next_index) (boundary + 1)) l.next_index,
)

module _ {V S : Type 0} where
  -- A leadership with the same kind of bookkeeping takes the place of the node's.
  with_leadership-IsWf :
      (l : Leadership) (n : RaftNode V S)
      → NextInLog (last_index n.storage) (leader l)
      → IsWf n
      → IsWf (record n { role = leader l })
  with_leadership-IsWf l n h w = record {
    contiguous = w.contiguous;
    boundary = w.boundary;
    ordered = w.ordered;
    committed = w.committed;
    timer = w.timer;
    timer_fits = w.timer_fits;
    capture = w.capture;
    next = h;
  }

  departed_if-IsWf :
      (b : Bool) (from : NodeId) (l : Leadership) (n : RaftNode V S)
      → NextInLog (last_index n.storage) (leader l)
      → IsWf n
      → IsWf (
          if b
          then publish_membership (record n { role = leader (end_departure from l) })
          else record n { role = leader l })
  unfolding publish_membership end_departure
  departed_if-IsWf true from l n h w = with_leadership-IsWf _ n h w
  departed_if-IsWf false from l n h w = with_leadership-IsWf l n h w

  handle_pre_vote_reply-IsWf :
      (sent_term : Term) (from : NodeId) (reply : RequestVoteReply) (n : RaftNode V S)
      → IsWf n
      → Returns IsWf (handle_pre_vote_reply sent_term from reply n)
  unfolding handle_pre_vote_reply
  handle_pre_vote_reply-IsWf sent_term from reply n w =
      Returns-if (ltb (current_term n) reply.term) _ _
        (λ _. become_follower-IsWf reply.term none n w)
        (λ _.
          Returns-if (not (sent_term == current_term n + 1) || not reply.vote_granted) (some n) _
            (λ _. returns w)
            (λ _.
              Returns-pre_candidate n.role _ (some n)
                (λ votes e. maybe_start_election-IsWf _ (ground arith)) (returns w)))

  handle_vote_reply-IsWf :
      (sent_term : Term) (from : NodeId) (reply : RequestVoteReply) (n : RaftNode V S)
      → IsWf n
      → Returns IsWf (handle_vote_reply sent_term from reply n)
  unfolding handle_vote_reply
  handle_vote_reply-IsWf sent_term from reply n w =
      Returns-if (ltb (current_term n) reply.term) _ _
        (λ _. become_follower-IsWf reply.term none n w)
        (λ _.
          Returns-if (not (sent_term == current_term n) || not reply.vote_granted) (some n) _
            (λ _. returns w)
            (λ _.
              Returns-candidate n.role _ (some n)
                (λ votes e. maybe_become_leader-IsWf _ (ground arith)) (returns w)))

  resend_if-IsWf :
      (b : Bool) (from : NodeId) (n : RaftNode V S) → IsWf n → Returns IsWf (resend_if b from n)
  unfolding resend_if
  resend_if-IsWf true from n w = send_append-IsWf from n w
  resend_if-IsWf false from n w = returns w

  on_append_success-IsWf :
      (from : NodeId) (confirmed : LogIndex) (l : Leadership) (n : RaftNode V S)
      → confirmed ≤ last_index n.storage
      → NextInLog (last_index n.storage) (leader l)
      → IsWf n
      → Returns IsWf (on_append_success from confirmed l n)
  unfolding on_append_success
  on_append_success-IsWf from confirmed l n le h w =
      Returns-bind
        (maybe_advance_commit-IsWf _ (
          departed_if-IsWf
            (has_departed from (get_or 0 from (confirm from confirmed l).match_index)
              (confirm from confirmed l).departing)
            from (confirm from confirmed l) n
            (confirm-NextInLog from confirmed (last_index n.storage) l le h) w))
        (λ m v.
          Returns-bind (resend_if-IsWf _ from m v)
            (λ m' v'. Returns-some (resolve_reads m') (resolve_reads-IsWf m' v')))

  on_append_reject-IsWf :
      (from : NodeId) (prev : LogIndex) (l : Leadership) (n : RaftNode V S)
      → NextInLog (last_index n.storage) (leader l)
      → IsWf n
      → Returns IsWf (on_append_reject from prev l n)
  unfolding on_append_reject
  on_append_reject-IsWf from prev l n h w =
      Returns-bind
        (send_append-IsWf from _ (
          with_leadership-IsWf (backtrack from prev l) n
            (backtrack-NextInLog from prev (last_index n.storage) l h) w))
        (λ m v. Returns-some (resolve_reads m) (resolve_reads-IsWf m v))

  handle_append_reply-IsWf :
      (sent_term : Term) (from : NodeId) (prev : LogIndex) (entries seq : ℕ)
      (reply : AppendEntriesReply) (n : RaftNode V S)
      → (sent_term ≡ current_term n → prev + entries ≤ last_index n.storage)
      → IsWf n
      → Returns IsWf (handle_append_reply sent_term from prev entries seq reply n)
  unfolding handle_append_reply
  handle_append_reply-IsWf sent_term from prev entries seq reply n sent w =
      Returns-if (ltb (current_term n) reply.term) _ _
        (λ _. become_follower-IsWf reply.term none n w)
        (λ _.
          Returns-if (not (sent_term == current_term n)) (some n) _ (λ _. returns w)
            (λ same.
              Returns-leader n.role _ (some n)
                (λ l e.
                  let h : NextInLog (last_index n.storage) (leader (acknowledge from seq n.now l)) =
                    unfold acknowledge in rw e at w.next in
                  Returns-if reply.success _ _
                    (λ _.
                      on_append_success-IsWf from (prev + entries) (acknowledge from seq n.now l) n
                        (sent (ground (arith, same))) h w)
                    (λ _. on_append_reject-IsWf from prev (acknowledge from seq n.now l) n h w))
                (returns w)))

  on_snapshot_installed-IsWf :
      (from : NodeId) (boundary : LogIndex) (l : Leadership) (n : RaftNode V S)
      → boundary ≤ last_index n.storage
      → NextInLog (last_index n.storage) (leader l)
      → IsWf n
      → Returns IsWf (on_snapshot_installed from boundary l n)
  unfolding on_snapshot_installed
  on_snapshot_installed-IsWf from boundary l n le h w =
      Returns-bind
        (maybe_advance_commit-IsWf _ (
          departed_if-IsWf (has_departed from boundary l.departing) from
            (installed from boundary n.now l) n
            (installed-NextInLog from boundary n.now (last_index n.storage) l le h) w))
        (λ m v. resend_if-IsWf (ltb boundary (last_index n.storage)) from m v)

  handle_install_snapshot_reply-IsWf :
      (sent_term : Term) (from : NodeId) (boundary : LogIndex) (reply : InstallSnapshotReply)
      (n : RaftNode V S)
      → (sent_term ≡ current_term n → boundary ≤ last_index n.storage)
      → IsWf n
      → Returns IsWf (handle_install_snapshot_reply sent_term from boundary reply n)
  unfolding handle_install_snapshot_reply
  handle_install_snapshot_reply-IsWf sent_term from boundary reply n sent w =
      Returns-if (ltb (current_term n) reply.term) _ _
        (λ _. become_follower-IsWf reply.term none n w)
        (λ _.
          Returns-if (not (sent_term == current_term n)) (some n) _ (λ _. returns w)
            (λ same.
              Returns-leader n.role _ (some n)
                (λ l e.
                  on_snapshot_installed-IsWf from boundary l n (sent (ground (arith, same)))
                    (rw e at w.next) w)
                (returns w)))

  -- A reply to an RPC of the current term is about entries that the log still has.
  abbrev pub IsSent : RaftNode V S → Event → Type 0
  IsSent n (append_reply sent_term from prev entries seq result) =
      sent_term ≡ current_term n → prev + entries ≤ last_index n.storage
  IsSent n (install_snapshot_reply sent_term from boundary result) =
      sent_term ≡ current_term n → boundary ≤ last_index n.storage
  IsSent n _ = Unit

  pub handle_event-IsWf :
      (event : Event) (n : RaftNode V S)
      → IsSent n event
      → IsWf n
      → Returns IsWf (handle_event event n)
  unfolding handle_event
  handle_event-IsWf (pre_vote_reply t from result) n h w =
      Returns-option (as_pre_vote result) _ (some n) (λ _. returns w)
        (λ reply _. handle_pre_vote_reply-IsWf t from reply n w)
  handle_event-IsWf (vote_reply t from result) n h w =
      Returns-option (as_request_vote result) _ (some n) (λ _. returns w)
        (λ reply _. handle_vote_reply-IsWf t from reply n w)
  handle_event-IsWf (append_reply t from prev entries seq result) n h w =
      Returns-option (as_append_entries result) _ (some n) (λ _. returns w)
        (λ reply _. handle_append_reply-IsWf t from prev entries seq reply n h w)
  handle_event-IsWf (install_snapshot_reply t from boundary result) n h w =
      Returns-option (as_install_snapshot result) _ (some n) (λ _. returns w)
        (λ reply _. handle_install_snapshot_reply-IsWf t from boundary reply n h w)
