-- ===== src/Examples/Nodes.antt =====
-- The handlers and the event loop on the examples.
use rust_kv.Base.{false, leb, ℕ, ◌≡◌, refl, ◌≤◌, none, some, true, [], ◌∷◌, arith}
use rust_kv.Maps.{get, keys}
use rust_kv.Outcome.{Ensures, Returns}
use rust_kv.Types.{Membership, AppendEntriesArgs, RpcRequest, RpcResponse, ok}
use rust_kv.Storage.{last_index, snapshot_index}
use rust_kv.Node.State.{follower, leader, RaftNode, append_reply}
use rust_kv.Node.Queries.{within, majority, current_term}
use rust_kv.Node.Rpc.{walk, write_entries, handle_append_entries}
use rust_kv.Node.Loop.{Ready, turn, spawn}
use rust_kv.Node.Apply.{apply_committed}
use rust_kv.Node.Applied.{CaughtUp, apply_committed-Applied}
use rust_kv.Node.Replication.{maybe_advance_commit}
use rust_kv.Node.Replicated.{HoldsAll, write_entries-Replicated}
use rust_kv.Node.Client.{
  missing_from, is_reachable, reconfig_gates, config_rules, validate_config_change,
}
use rust_kv.Node.Quorum.{validate_config_change-Overlap}
use rust_kv.Node.Commit.{CommitRule, maybe_advance_commit-CommitRule}
use rust_kv.Node.Evolve.Defs.{Evolves}
use rust_kv.Node.Evolve.Loop.{turn-Evolves}
use rust_kv.Node.Wf.Defs.{IsWf}
use rust_kv.Node.Wf.Append.{handle_append_entries-IsWf}
use rust_kv.Node.Wf.Walk.{IsBatch, Covers}
use rust_kv.Node.Wf.Loop.{NodeOf, turn-IsWf, spawn-IsWf}
use rust_kv.Examples.Data.{config, entry_at, storage, machine, node, leadership}
use rust_kv.Examples.Logs.{storage-IsContiguous}

follower-IsWf : IsWf (node follower)
unfolding last_index snapshot_index
follower-IsWf = record {
  contiguous = storage-IsContiguous;
  boundary = omega arith;
  ordered = omega arith;
  committed = omega arith;
  timer = omega arith;
  timer_fits = omega arith;
  capture = tt;
  next = tt;
}

-- From the leader of term 4: entry 4 of another term, and a new entry 5.
abbrev request : AppendEntriesArgs ℕ
request = record {
  term = 4;
  leader_id = 2;
  prev_log_index = 3;
  prev_log_term = 1;
  entries = entry_at 4 4 ∷ entry_at 4 5 ∷ [];
  leader_commit = 4;
}

request-IsBatch : IsBatch storage 3 request
request-IsBatch = record {
  follows = (refl, (refl, tt));
  agrees = (λ lo hi. absurd (omega arith), (λ lo hi. absurd (omega arith), tt));
}

handle_append_entries-IsWf_example :
    Returns (λ x. IsWf x.1) (handle_append_entries request (node follower))
handle_append_entries-IsWf_example =
    handle_append_entries-IsWf request (node follower) request-IsBatch follower-IsWf

abbrev ready : Ready ℕ
ready = record {
  control = none;
  inbound = some (record { from = 2; request = RpcRequest.append_entries request; reply = 9 });
  inbound_closed = false;
  event = some (
      append_reply 2 3 4 1 0
        (ok (RpcResponse.append_entries (record { term = 3; success = true }))));
}

turn-IsWf_example : Returns (λ t. IsWf (NodeOf t)) (turn 5 ready (node follower))
unfolding current_term
turn-IsWf_example =
    turn-IsWf 5 ready (node follower)
      (record { inbound = request-IsBatch; event = λ e. absurd (omega arith) }) follower-IsWf

spawn-IsWf_example : Returns IsWf (spawn config storage machine 0 0)
spawn-IsWf_example =
    spawn-IsWf config storage machine 0 0 storage-IsContiguous (omega arith, omega arith)
      (λ x e. (x.state, refl))

turn-Evolves_example :
    Ensures (λ t. Evolves (node follower) (NodeOf t)) (turn 5 ready (node follower))
turn-Evolves_example = turn-Evolves 5 ready (node follower)

-- Entry 4 is committed, and not yet applied.
abbrev behind : RaftNode ℕ ℕ
behind = record (node follower) { commit_index = 5 }

behind-IsWf : IsWf behind
unfolding last_index snapshot_index
behind-IsWf = record {
  contiguous = storage-IsContiguous;
  boundary = omega arith;
  ordered = omega arith;
  committed = omega arith;
  timer = omega arith;
  timer_fits = omega arith;
  capture = tt;
  next = tt;
}

apply_committed-Applied_example :
    Returns (λ n'. IsWf n' × CaughtUp behind n') (apply_committed behind)
apply_committed-Applied_example = apply_committed-Applied behind behind-IsWf

-- A leader of term 2, whose entry 4 is on two of the three members.
abbrev ahead : RaftNode ℕ ℕ
ahead = record (node (leader leadership)) {
  storage = record storage { hard_state = record { current_term = 2; voted_for = some 1 } };
}

ahead-NextInLog :
    (peer next : ℕ) → get peer leadership.next_index ≡ some next → (1 ≤ next) × (next ≤ 6)
unfolding get
ahead-NextInLog peer next e = ground (arith, e)

ahead-IsWf : IsWf ahead
unfolding last_index snapshot_index
ahead-IsWf = record {
  contiguous = storage-IsContiguous;
  boundary = omega arith;
  ordered = omega arith;
  committed = omega arith;
  timer = omega arith;
  timer_fits = omega arith;
  capture = tt;
  next = ahead-NextInLog;
}

maybe_advance_commit-CommitRule_example :
    Returns (λ n'. IsWf n' × CommitRule ahead leadership n') (maybe_advance_commit ahead)
maybe_advance_commit-CommitRule_example =
    maybe_advance_commit-CommitRule ahead leadership refl ahead-IsWf

write_entries-Replicated_example :
    Returns
      (λ m. (IsWf m × Covers request m.storage) × HoldsAll request m)
      (write_entries (walk storage request.entries) request (node follower))
unfolding last_index snapshot_index
write_entries-Replicated_example =
    write_entries-Replicated request (node follower) request-IsBatch (omega arith) refl
      follower-IsWf

-- Node 3 leaves, once the leader's term has begun.
abbrev settled_leader : RaftNode ℕ ℕ
settled_leader = record ahead { commit_index = 5 }

abbrev without_three : Membership
without_three =
    (1, record { raft = "a:1"; client = "a:2" }) ∷ (2, record { raft = "b:1"; client = "b:2" }) ∷ []

change_allowed : validate_config_change without_three settled_leader leadership ≡ none
unfolding validate_config_change reconfig_gates config_rules missing_from is_reachable within get
    keys
change_allowed = refl

validate_config_change-Overlap_example : (id : ℕ) × (leb 2 id ≡ true) × (leb id 2 ≡ true)
unfolding keys majority
validate_config_change-Overlap_example =
    validate_config_change-Overlap without_three settled_leader leadership (λ id. leb 2 id)
      (λ id. leb id 2) (refl, (refl, (refl, tt))) (refl, (refl, tt)) change_allowed (omega arith)
      (omega arith)
