-- ===== src/Examples/Votes.antt =====
-- Votes on the examples.
use rust_kv.Base.{false, ℕ, ◌≡◌, refl, true, Option, none, some, arith}
use rust_kv.Outcome.{Returns}
use rust_kv.Rng
use rust_kv.Rng.{next_range, next_u64}
use rust_kv.Types.{RequestVoteArgs, RequestVoteReply}
use rust_kv.Storage
use rust_kv.Node.State.{follower, RaftNode}
use rust_kv.Node.Queries.{
  within, current_term, is_leader, save_hard_state, reset_election_timer, publish_status, role_kind,
}
use rust_kv.Node.Membership.{
  publish_membership, derive_membership, latest_config, config_of, snapshot_members,
  bootstrap_members,
}
use rust_kv.Node.Replication.{adopt_term, had_departing, become_follower}
use rust_kv.Node.Rpc.{
  handle_pre_vote, leader_is_live, up_to_date, log_up_to_date, can_vote, grant_vote,
  handle_request_vote,
}
use rust_kv.Node.Loop.{Ready, Turn, continue, select, turn, spawn, boot_state}
use rust_kv.Node.Voting.{handle_pre_vote-Voted, Voted, handle_request_vote-Voted}
use rust_kv.Node.Evolve.Life.{born, turned, restarted, one_vote}
use rust_kv.Examples.Data.{node}

-- Node 2 campaigns in term 4 with the log of the voter.
abbrev request : RequestVoteArgs
request = record { term = 4; candidate_id = 2; last_log_index = 5; last_log_term = 2 }

handle_request_vote-Voted_example :
    Returns
      (λ x. Voted request (node follower) x.0 x.1)
      (handle_request_vote request (node follower))
handle_request_vote-Voted_example =
    handle_request_vote-Voted request (node follower) (omega arith, omega arith)

handle_pre_vote-Voted_example :
    Returns (λ x. x.0.vote_granted ≡ true) (handle_request_vote request (node follower))
unfolding handle_pre_vote leader_is_live within is_leader log_up_to_date up_to_date current_term
    Storage.last_term Storage.last_index Storage.snapshot_index Storage.snapshot_term
handle_pre_vote-Voted_example =
    handle_pre_vote-Voted request (node follower) (omega arith, omega arith) refl

abbrev granted : RequestVoteReply
granted = record { term = 4; vote_granted = true }

abbrev after : RaftNode ℕ ℕ → Option (RequestVoteReply × RaftNode ℕ ℕ) → RaftNode ℕ ℕ
after n none = n
after n (some (_, n')) = n'

abbrev voter : RaftNode ℕ ℕ
voter = after (node follower) (handle_request_vote request (node follower))

first_vote : handle_request_vote request (node follower) ≡ some (granted, voter)
unfolding handle_request_vote grant_vote can_vote log_up_to_date up_to_date become_follower
    adopt_term had_departing publish_membership save_hard_state Storage.save_hard_state
    reset_election_timer next_range next_u64 current_term Storage.last_term Storage.last_index
    Storage.snapshot_index Storage.snapshot_term
first_vote = refl

-- A turn with nothing to do, a restart, and the same request again.
abbrev idle : Ready ℕ
idle = record { control = none; inbound = none; inbound_closed = false; event = none }

abbrev turned_to : RaftNode ℕ ℕ → Option (Turn ℕ ℕ) → RaftNode ℕ ℕ
turned_to n (some (continue n')) = n'
turned_to n _ = n

abbrev later : RaftNode ℕ ℕ
later = turned_to voter (turn 5 idle voter)

idle-turn : turn 5 idle voter ≡ some (continue later)
unfolding turn select publish_status is_leader role_kind handle_request_vote grant_vote can_vote
    log_up_to_date up_to_date become_follower adopt_term had_departing publish_membership
    save_hard_state Storage.save_hard_state reset_election_timer next_range next_u64 current_term
    Storage.last_term Storage.last_index Storage.snapshot_index Storage.snapshot_term
idle-turn = refl

abbrev restarted_to : RaftNode ℕ ℕ → Option (RaftNode ℕ ℕ) → RaftNode ℕ ℕ
restarted_to n none = n
restarted_to n (some n') = n'

abbrev reborn : RaftNode ℕ ℕ
reborn = restarted_to later (spawn later.config later.storage later.state_machine 0 9)

restart : spawn later.config later.storage later.state_machine 0 9 ≡ some reborn
unfolding spawn boot_state derive_membership latest_config config_of snapshot_members
    bootstrap_members turn select publish_status is_leader role_kind handle_request_vote grant_vote
    can_vote log_up_to_date up_to_date become_follower adopt_term had_departing publish_membership
    save_hard_state Storage.save_hard_state reset_election_timer next_range next_u64 current_term
    Rng.new Storage.last_term Storage.last_index Storage.snapshot_index Storage.snapshot_term
restart = refl

abbrev voter_again : RaftNode ℕ ℕ
voter_again = after reborn (handle_request_vote request reborn)

second_vote : handle_request_vote request reborn ≡ some (granted, voter_again)
unfolding spawn boot_state derive_membership latest_config config_of snapshot_members
    bootstrap_members turn select publish_status is_leader role_kind handle_request_vote grant_vote
    can_vote log_up_to_date up_to_date become_follower adopt_term had_departing publish_membership
    save_hard_state Storage.save_hard_state reset_election_timer next_range next_u64 current_term
    Rng.new Storage.last_term Storage.last_index Storage.snapshot_index Storage.snapshot_term
second_vote = refl

one_vote_example : request.candidate_id ≡ request.candidate_id
one_vote_example =
    one_vote request request (node follower) voter reborn voter_again granted granted
      (omega arith, omega arith) first_vote refl
      (restarted 0 9 (turned 5 idle born idle-turn) restart) second_vote refl refl
