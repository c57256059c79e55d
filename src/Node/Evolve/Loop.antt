-- ===== src/Node/Evolve/Loop.antt =====
-- The turns of the event loop (`run` of raft/node.rs) in the order of a node's states.
use rust_kv.Base.{ℕ, not, ◌&&◌, leb}
use rust_kv.Outcome.{Ensures, Ensures-some, Ensures-if, Ensures-bind}
use rust_kv.Node.State.{RaftNode, Control, shutdown, propose, read}
use rust_kv.Node.Queries.{current_term, is_leader, publish_status}
use rust_kv.Node.Loop.{Ready, handle_control, select, turn}
use rust_kv.Node.Wf.Loop.{NodeOf}
use rust_kv.Node.Evolve.Defs.{Evolves, Evolves-refl, Ensures-option}
use rust_kv.Node.Evolve.Replication.{on_heartbeat_tick-Evolves}
use rust_kv.Node.Evolve.Election.{on_election_timeout-Evolves}
use rust_kv.Node.Evolve.Rpc.{handle_inbound-Evolves}
use rust_kv.Node.Evolve.Events.{handle_event-Evolves}
use rust_kv.Node.Evolve.Client.{handle_propose-Evolves, handle_read-Evolves}

module _ {V S : Type 0} where
  handle_control-Evolves :
      (control : Control V) (n : RaftNode V S)
      → Ensures (λ t. Evolves n (NodeOf t)) (handle_control control n)
  unfolding handle_control
  handle_control-Evolves shutdown n = Ensures-some _ (Evolves-refl n)
  handle_control-Evolves (propose command reply) n =
      Ensures-bind (handle_propose-Evolves command reply n) (λ m e. Ensures-some _ e)
  handle_control-Evolves (read reply) n =
      Ensures-bind (handle_read-Evolves reply n) (λ m e. Ensures-some _ e)

  select-Evolves :
      (ready : Ready V) (n : RaftNode V S) → Ensures (λ t. Evolves n (NodeOf t)) (select ready n)
  unfolding select
  select-Evolves ready n =
      Ensures-option ready.control _ _
        (Ensures-if (not (is_leader n) && leb n.election_deadline n.now) _ _
          (λ _. Ensures-bind (on_election_timeout-Evolves n) (λ m e. Ensures-some _ e))
          (λ _.
            Ensures-if (is_leader n && leb n.next_heartbeat n.now) _ _
              (λ _. Ensures-bind (on_heartbeat_tick-Evolves n) (λ m e. Ensures-some _ e))
              (λ _.
                Ensures-option ready.inbound _ _
                  (Ensures-if ready.inbound_closed _ _ (λ _. Ensures-some _ (Evolves-refl n))
                    (λ _.
                      Ensures-option ready.event _ _ (Ensures-some _ (Evolves-refl n)) (λ event _.
                        Ensures-bind (handle_event-Evolves event n) (λ m e. Ensures-some _ e))))
                  (λ inbound _.
                    Ensures-bind (handle_inbound-Evolves inbound n) (λ m e. Ensures-some _ e)))))
        (λ control _. handle_control-Evolves control n)

  -- Whatever a node's channels hold, a turn of its loop that does not panic keeps its configuration
  -- parameters, keeps its term, its commit index and its snapshot boundary from going back, and
  -- keeps its vote for the rest of the term and every committed entry that the new boundary does
  -- not cover.
  pub turn-Evolves :
      (now : ℕ) (ready : Ready V) (n : RaftNode V S)
      → Ensures (λ t. Evolves n (NodeOf t)) (turn now ready n)
  unfolding turn publish_status current_term
  turn-Evolves now ready n = select-Evolves ready (record (publish_status n) { now = now })
