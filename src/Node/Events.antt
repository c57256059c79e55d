-- ===== src/Node/Events.antt =====
-- The replies to outbound RPCs (`handle_event` of raft/node.rs).
use rust_kv.Base.{
  ℕ, ◌+◌, min, max, Bool, false, not, ◌&&◌, ◌||◌, Option, none, some, leb, ltb, ◌==◌, if◌then◌else◌,
}
use rust_kv.Maps.{Map, get, get_or, insert, or_insert, remove, add}
use rust_kv.Outcome.{◌>>=◌}
use rust_kv.Types.{
  NodeId, Term, LogIndex, MemberAddr, RequestVoteReply, AppendEntriesReply, InstallSnapshotReply,
  RpcResponse, RpcResult, ok,
}
use rust_kv.Storage
use rust_kv.Node.State.{
  pre_candidate, candidate, leader, Leadership, Event, pre_vote_reply, vote_reply, append_reply,
  install_snapshot_reply, RaftNode,
}
use rust_kv.Node.Queries.{current_term}
use rust_kv.Node.Membership.{publish_membership}
use rust_kv.Node.Apply.{resolve_reads}
use rust_kv.Node.Replication.{become_follower, send_append, maybe_advance_commit}
use rust_kv.Node.Election.{maybe_start_election, maybe_become_leader}

-- The expected reply; `none` for a failed RPC and for a reply of another kind.
unfoldable pub as_pre_vote : RpcResult → Option RequestVoteReply
as_pre_vote (ok (RpcResponse.pre_vote reply)) = some reply
as_pre_vote _ = none

unfoldable pub as_request_vote : RpcResult → Option RequestVoteReply
as_request_vote (ok (RpcResponse.request_vote reply)) = some reply
as_request_vote _ = none

unfoldable pub as_append_entries : RpcResult → Option AppendEntriesReply
as_append_entries (ok (RpcResponse.append_entries reply)) = some reply
as_append_entries _ = none

unfoldable pub as_install_snapshot : RpcResult → Option InstallSnapshotReply
as_install_snapshot (ok (RpcResponse.install_snapshot reply)) = some reply
as_install_snapshot _ = none

-- A departing peer whose log reaches `held` has its removal entry.
unfoldable pub has_departed : NodeId → LogIndex → Map (LogIndex × MemberAddr) → Bool
has_departed peer held departing = elim (get peer departing) [
  | none ↦ false
  | some (removal_index, _) ↦ leb removal_index held
]

-- The contact that any reply at the leader's term is.
unfoldable pub acknowledge : NodeId → ℕ → ℕ → Leadership → Leadership
acknowledge from sent_seq now l = record l {
  acked_seq = insert from (max (get_or 0 from l.acked_seq) sent_seq) l.acked_seq;
  last_contact = insert from now l.last_contact;
}

unfoldable pub confirm : NodeId → LogIndex → Leadership → Leadership
confirm from confirmed l =
    if ltb (get_or 0 from l.match_index) confirmed
    then record l {
      match_index = insert from confirmed l.match_index;
      next_index = insert from (confirmed + 1) l.next_index;
    }
    else record l { match_index = or_insert from 0 l.match_index }

unfoldable pub backtrack : NodeId → LogIndex → Leadership → Leadership
backtrack from sent_prev_index l = record l {
  next_index = insert from (min (get_or 1 from l.next_index) (max sent_prev_index 1)) l.next_index;
}

unfoldable pub end_departure : NodeId → Leadership → Leadership
end_departure from l = record l { departing = remove from l.departing }

-- What a snapshot reply proves of the peer.
unfoldable pub installed : NodeId → LogIndex → ℕ → Leadership → Leadership
installed from boundary now l = record l {
  last_contact = insert from now l.last_contact;
  match_index = insert from (max (get_or 0 from l.match_index) boundary) l.match_index;
  next_index = insert from (max (get_or 1 from l.next_index) (boundary + 1)) l.next_index;
}

module _ {V S : Type 0} where
  unfoldable pub handle_pre_vote_reply :
      Term → NodeId → RequestVoteReply → RaftNode V S → Option (RaftNode V S)
  handle_pre_vote_reply sent_term from reply n =
      if ltb (current_term n) reply.term
      then become_follower reply.term none n
      else if not (sent_term == current_term n + 1) || not reply.vote_granted
      then some n
      else elim n.role [
        | pre_candidate votes ↦
            maybe_start_election (record n { role = pre_candidate (add from votes) })
        | _ ↦ some n
      ]

  unfoldable pub handle_vote_reply :
      Term → NodeId → RequestVoteReply → RaftNode V S → Option (RaftNode V S)
  handle_vote_reply sent_term from reply n =
      if ltb (current_term n) reply.term
      then become_follower reply.term none n
      else if not (sent_term == current_term n) || not reply.vote_granted
      then some n
      else elim n.role [
        | candidate votes ↦ maybe_become_leader (record n { role = candidate (add from votes) })
        | _ ↦ some n
      ]

  -- `if resend { self.send_append(from); }`
  unfoldable pub resend_if : Bool → NodeId → RaftNode V S → Option (RaftNode V S)
  resend_if resend from n = if resend then send_append from n else some n

  -- A successful AppendEntries: `confirmed` is the index that the peer matches up to.
  unfoldable pub on_append_success :
      NodeId → LogIndex → Leadership → RaftNode V S → Option (RaftNode V S)
  on_append_success from confirmed l n = do
    let l' = confirm from confirmed l
    let departed = has_departed from (get_or 0 from l'.match_index) l'.departing
    let behind =
        ltb (get_or 0 from l.match_index) confirmed && ltb confirmed (Storage.last_index n.storage)
    let n' =
        if departed
        then publish_membership (record n { role = leader (end_departure from l') })
        else record n { role = leader l' }
    m ← maybe_advance_commit n'
    m' ← resend_if (behind && not departed) from m
    some (resolve_reads m')

  unfoldable pub on_append_reject :
      NodeId → LogIndex → Leadership → RaftNode V S → Option (RaftNode V S)
  on_append_reject from sent_prev_index l n = do
    n' ← send_append from (record n { role = leader (backtrack from sent_prev_index l) })
    some (resolve_reads n')

  unfoldable pub handle_append_reply :
      Term → NodeId → LogIndex → ℕ → ℕ → AppendEntriesReply → RaftNode V S → Option (RaftNode V S)
  handle_append_reply sent_term from sent_prev_index sent_entries sent_seq reply n =
      if ltb (current_term n) reply.term
      then become_follower reply.term none n
      else if not (sent_term == current_term n)
      then some n
      else elim n.role [
        | leader l ↦
            let l' = acknowledge from sent_seq n.now l in
            if reply.success
            then on_append_success from (sent_prev_index + sent_entries) l' n
            else on_append_reject from sent_prev_index l' n
        | _ ↦ some n
      ]

  unfoldable pub on_snapshot_installed :
      NodeId → LogIndex → Leadership → RaftNode V S → Option (RaftNode V S)
  on_snapshot_installed from boundary l n = do
    let l' = installed from boundary n.now l
    let n' =
        if has_departed from boundary l.departing
        then publish_membership (record n { role = leader (end_departure from l') })
        else record n { role = leader l' }
    m ← maybe_advance_commit n'
    resend_if (ltb boundary (Storage.last_index n.storage)) from m

  unfoldable pub handle_install_snapshot_reply :
      Term → NodeId → LogIndex → InstallSnapshotReply → RaftNode V S → Option (RaftNode V S)
  handle_install_snapshot_reply sent_term from boundary reply n =
      if ltb (current_term n) reply.term
      then become_follower reply.term none n
      else if not (sent_term == current_term n)
      then some n
      else elim n.role [ leader l ↦ on_snapshot_installed from boundary l n | _ ↦ some n ]

  unfoldable pub handle_event : Event → RaftNode V S → Option (RaftNode V S)
  handle_event (pre_vote_reply sent_term from result) n = elim (as_pre_vote result) [
    | none ↦ some n
    | some reply ↦ handle_pre_vote_reply sent_term from reply n
  ]
  handle_event (vote_reply sent_term from result) n = elim (as_request_vote result) [
    | none ↦ some n
    | some reply ↦ handle_vote_reply sent_term from reply n
  ]
  handle_event (append_reply sent_term from prev entries seq result) n =
      elim (as_append_entries result) [
        | none ↦ some n
        | some reply ↦ handle_append_reply sent_term from prev entries seq reply n
      ]
  handle_event (install_snapshot_reply sent_term from boundary result) n =
      elim (as_install_snapshot result) [
        | none ↦ some n
        | some reply ↦ handle_install_snapshot_reply sent_term from boundary reply n
      ]
