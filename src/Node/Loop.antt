-- ===== src/Node/Loop.antt =====
-- Starting a node, and its event loop (raft/node.rs).
use rust_kv.Base.{ℕ, Bool, not, ◌&&◌, Option, none, some, [], leb, if◌then◌else◌}
use rust_kv.Outcome.{◌>>=◌}
use rust_kv.Rng
use rust_kv.Storage
use rust_kv.Storage.{Storage}
use rust_kv.Node.State.{
  RaftConfig, RoleKind, StateMachine, Role, Event, Inbound, Control, shutdown, propose, read,
  RaftNode,
}
use rust_kv.Node.Queries.{is_leader, reset_election_timer, publish_status}
use rust_kv.Node.Membership.{derive_membership}
use rust_kv.Node.Replication.{on_heartbeat_tick}
use rust_kv.Node.Election.{on_election_timeout}
use rust_kv.Node.Rpc.{handle_inbound}
use rust_kv.Node.Events.{handle_event}
use rust_kv.Node.Client.{handle_propose, handle_read}

-- What the channels hold when the loop polls them: the first element of each, or `none`. A closed
-- control channel is a `shutdown`; `inbound_closed` tells that the inbound channel is closed, which
-- counts when it holds nothing.
pub record Ready (V : Type 0) : Type 0 where
  pub control : Option (Control V)
  pub inbound : Option (Inbound V)
  pub inbound_closed : Bool
  pub event : Option Event

-- A turn of the loop goes on with the node, or ends it.
pub data Turn (V S : Type 0) : Type 0 where
  continue : RaftNode V S → Turn V S
  stop : RaftNode V S → Turn V S

module _ {V S : Type 0} where
  -- `state` restored from the snapshot, if there is one
  unfoldable pub boot_state : StateMachine V S → S → Storage V → Option S
  boot_state sm state s = elim s.snapshot [ none ↦ some state | some x ↦ sm.restore x.state ]

  unfoldable pub spawn :
      RaftConfig → Storage V → StateMachine V S → S → (now : ℕ) → Option (RaftNode V S)
  spawn config storage sm state now = do
    state' ← boot_state sm state storage
    let (members, members_index) = derive_membership storage config
    let boundary = Storage.snapshot_index storage
    reset_election_timer (record {
      config = config;
      storage = storage;
      state_machine = sm;
      state = state';
      role = Role.follower;
      leader_id = none;
      commit_index = boundary;
      last_applied = boundary;
      pending = [];
      staged_snapshot = none;
      members = members;
      members_index = members_index;
      membership_tx = record { members = members; departing = [] };
      last_leader_contact = none;
      election_deadline = now;
      next_heartbeat = now;
      rng = Rng.new config.timeout_seed;
      status_tx = record {
        id = config.id;
        term = storage.hard_state.current_term;
        role = RoleKind.follower;
        leader_id = none;
        commit_index = boundary;
        last_log_index = Storage.last_index storage;
      };
      now = now;
      outbox = [];
    })

  unfoldable pub handle_control : Control V → RaftNode V S → Option (Turn V S)
  handle_control shutdown n = some (stop n)
  handle_control (propose command reply) n = do
    n' ← handle_propose command reply n
    some (continue n')
  handle_control (read reply) n = do n' ← handle_read reply n; some (continue n')

  -- The branch that `select! { biased; … }` takes, in its fixed order. With nothing ready the loop
  -- waits.
  unfoldable pub select : Ready V → RaftNode V S → Option (Turn V S)
  select ready n = elim ready.control [
    | some control ↦ handle_control control n
    | none ↦
        if not (is_leader n) && leb n.election_deadline n.now
        then (do n' ← on_election_timeout n; some (continue n'))
        else if is_leader n && leb n.next_heartbeat n.now
        then (do n' ← on_heartbeat_tick n; some (continue n'))
        else elim ready.inbound [
          | some inbound ↦ do n' ← handle_inbound inbound n; some (continue n')
          | none ↦ if ready.inbound_closed then some (stop n) else elim ready.event [
            | some event ↦ do n' ← handle_event event n; some (continue n')
            | none ↦ some (continue n)
          ]
        ]
  ]

  -- One turn of the loop of `run`, at the time `now`.
  unfoldable pub turn : ℕ → Ready V → RaftNode V S → Option (Turn V S)
  turn now ready n = select ready (record (publish_status n) { now = now })
