-- ===== src/Examples/Data.antt =====
-- The data of the examples: a cluster of three nodes over a log of numbers. The state machine counts
-- the entries that it has applied.
use rust_kv.Base.{ℕ, false, suc, none, some, [], ◌∷◌}
use rust_kv.Types.{Membership, put, LogEntry}
use rust_kv.Storage.{Storage}
use rust_kv.Node.State.{RaftConfig, RoleKind, StateMachine, Role, Leadership, RaftNode}

abbrev pub members : Membership
members =
    (1, record { raft = "a:1"; client = "a:2" })
    ∷ (2, record { raft = "b:1"; client = "b:2" })
    ∷ (3, record { raft = "c:1"; client = "c:2" })
    ∷ []

abbrev pub config : RaftConfig
config = record {
  id = 1;
  peers = 2 ∷ 3 ∷ [];
  election_timeout_min = 150000;
  election_timeout_max = 300000;
  heartbeat_interval = 50000;
  timeout_seed = 1;
  snapshot_threshold = some 2;
  snapshot_trailing = 0;
  bootstrap_addrs = members;
  join = false;
  test_disable_reconfig_gates = false;
}

abbrev pub entry_at : ℕ → ℕ → LogEntry ℕ
entry_at term index = record { term = term; index = index; command = put "k" index none }

-- A boundary at 2, and the entries 3, 4 and 5.
abbrev pub storage : Storage ℕ
storage = record {
  hard_state = record { current_term = 3; voted_for = none };
  snapshot = some (record {
    last_included_index = 2;
    last_included_term = 1;
    membership = some members;
    state = 2;
  });
  log = entry_at 1 3 ∷ entry_at 2 4 ∷ entry_at 2 5 ∷ [];
}

abbrev pub machine : StateMachine ℕ ℕ
machine = record { apply = λ e s. suc s; snapshot = λ s. s; restore = λ v. some v }

-- A follower that has applied up to entry 3.
abbrev pub node : Role → RaftNode ℕ ℕ
node role = record {
  config = config;
  storage = storage;
  state_machine = machine;
  state = 3;
  role = role;
  leader_id = none;
  commit_index = 3;
  last_applied = 3;
  pending = [];
  staged_snapshot = none;
  members = members;
  members_index = 2;
  membership_tx = record { members = members; departing = [] };
  last_leader_contact = none;
  election_deadline = 1000000;
  next_heartbeat = 0;
  rng = record { state = 1 };
  status_tx = record {
    id = 1;
    term = 3;
    role = RoleKind.follower;
    leader_id = none;
    commit_index = 3;
    last_log_index = 5;
  };
  now = 0;
  outbox = [];
}

-- A leader whose peers have the log up to 4 and up to 2.
abbrev pub leadership : Leadership
leadership = record {
  next_index = (2, 5) ∷ (3, 3) ∷ [];
  match_index = (2, 4) ∷ (3, 2) ∷ [];
  term_start_index = 5;
  heartbeat_seq = 1;
  acked_seq = (2, 1) ∷ [];
  last_contact = (2, 0) ∷ (3, 0) ∷ [];
  departing = [];
  pending_reads = [];
}
