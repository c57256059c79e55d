-- ===== src/Node/Wf/Loop.antt =====
-- The invariant through `spawn` and the turns of `run` (raft/node.rs).
use rust_kv.Base.{ℕ, ◌≡◌, not, ◌&&◌, Option, none, some, arith, leb}
use rust_kv.Outcome.{Returns, returns, Returns-bind, Returns-if, Returns-of_eq}
use rust_kv.Types.{Snapshot}
use rust_kv.Storage.{Storage}
use rust_kv.Storage.Contiguous.{IsContiguous}
use rust_kv.Storage.Lookup.{last_index-ge}
use rust_kv.Node.State.{
  RaftConfig, StateMachine, RaftNode, Control, shutdown, propose, read, Event, Inbound,
}
use rust_kv.Node.Queries.{current_term, is_leader, publish_status}
use rust_kv.Node.Replication.StepDown.{TimerIsSet}
use rust_kv.Node.Loop.{Ready, Turn, continue, stop, boot_state, spawn, handle_control, select, turn}
use rust_kv.Node.Wf.Defs.{IsWf, Returns-option}
use rust_kv.Node.Wf.Replication.{reset_election_timer-IsWf, on_heartbeat_tick-IsWf}
use rust_kv.Node.Wf.Election.{on_election_timeout-IsWf}
use rust_kv.Node.Wf.Rpc.{IsSound, handle_inbound-IsWf}
use rust_kv.Node.Wf.Events.{IsSent, handle_event-IsWf}
use rust_kv.Node.Wf.Client.{handle_propose-IsWf, handle_read-IsWf}

module _ {V S : Type 0} where
  -- The payload of a stored snapshot can be restored.
  abbrev pub IsRestorable : StateMachine V S → Storage V → Type 0
  IsRestorable sm s =
      (x : Snapshot V) → s.snapshot ≡ some x → (state : S) × (sm.restore x.state ≡ some state)

  boot_state-Returns :
      (sm : StateMachine V S) (state : S) (s : Storage V)
      → IsRestorable sm s
      → Returns (λ _. Unit {0}) (boot_state sm state s)
  unfolding boot_state
  boot_state-Returns sm state s h =
      Returns-option s.snapshot _ (some state) (λ _. returns tt)
        (λ x e. let (state', q) = h x e in Returns-of_eq _ state' q tt)

  -- From a storage without gaps, with election timeouts in order and a snapshot that can be restored,
  -- starting a node does not panic and gives a well-formed node.
  pub spawn-IsWf :
      (config : RaftConfig) (s : Storage V) (sm : StateMachine V S) (state : S) (now : ℕ)
      → IsContiguous s
      → TimerIsSet config
      → IsRestorable sm s
      → Returns IsWf (spawn config s sm state now)
  unfolding spawn
  spawn-IsWf config s sm state now c t h =
      Returns-bind (boot_state-Returns sm state s h) (λ state' _.
        reset_election_timer-IsWf _ (record {
          contiguous = c;
          boundary = omega arith;
          ordered = omega arith;
          committed = last_index-ge s;
          timer = t.0;
          timer_fits = t.1;
          capture = tt;
          next = tt;
        }))

  abbrev pub NodeOf : Turn V S → RaftNode V S
  NodeOf (continue n) = n
  NodeOf (stop n) = n

  -- What the channels hold is what a correct cluster puts there.
  abbrev SoundInbound : RaftNode V S → Option (Inbound V) → Type 0
  SoundInbound n none = Unit
  SoundInbound n (some inbound) = IsSound n inbound.request

  abbrev SentEvent : RaftNode V S → Option Event → Type 0
  SentEvent n none = Unit
  SentEvent n (some event) = IsSent n event

  pub record AreExpected (n : RaftNode V S) (ready : Ready V) : Type 0 where
    pub inbound : SoundInbound n ready.inbound
    pub event : SentEvent n ready.event

  handle_control-IsWf :
      (control : Control V) (n : RaftNode V S)
      → IsWf n
      → Returns (λ t. IsWf (NodeOf t)) (handle_control control n)
  unfolding handle_control
  handle_control-IsWf shutdown n w = returns w
  handle_control-IsWf (propose command reply) n w =
      Returns-bind (handle_propose-IsWf command reply n w) (λ n' v. returns v)
  handle_control-IsWf (read reply) n w =
      Returns-bind (handle_read-IsWf reply n w) (λ n' v. returns v)

  select-IsWf :
      (ready : Ready V) (n : RaftNode V S)
      → AreExpected n ready
      → IsWf n
      → Returns (λ t. IsWf (NodeOf t)) (select ready n)
  unfolding select
  select-IsWf ready n x w =
      Returns-option ready.control _ _
        (λ _.
          Returns-if (not (is_leader n) && leb n.election_deadline n.now) _ _
            (λ _. Returns-bind (on_election_timeout-IsWf n w) (λ n' v. returns v))
            (λ _.
              Returns-if (is_leader n && leb n.next_heartbeat n.now) _ _
                (λ _. Returns-bind (on_heartbeat_tick-IsWf n w) (λ n' v. returns v))
                (λ _.
                  Returns-option ready.inbound _ _
                    (λ _.
                      Returns-if ready.inbound_closed _ _ (λ _. returns w)
                        (λ _.
                          Returns-option ready.event _ _ (λ _. returns w)
                            (λ event e.
                              Returns-bind (handle_event-IsWf event n (rw e at x.event) w)
                                (λ n' v. returns v))))
                    (λ inbound e.
                      Returns-bind (handle_inbound-IsWf inbound n (rw e at x.inbound) w)
                        (λ n' v. returns v)))))
        (λ control _. handle_control-IsWf control n w)

  -- On a well-formed node, one turn of the event loop, whatever branch it takes, does not panic and
  -- leaves a well-formed node, if an AppendEntries at the head of the inbound channel has entries
  -- that follow its previous index and do not contradict the committed part of the log, an
  -- InstallSnapshot there has a state that can be restored, and the reply at the head of the event
  -- channel, if of this term, is about entries that the log has.
  pub turn-IsWf :
      (now : ℕ) (ready : Ready V) (n : RaftNode V S)
      → AreExpected n ready
      → IsWf n
      → Returns (λ t. IsWf (NodeOf t)) (turn now ready n)
  unfolding turn publish_status current_term
  turn-IsWf now ready n x w =
      select-IsWf ready _ (record { inbound = x.inbound; event = x.event }) w
