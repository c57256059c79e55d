-- ===== src/Node/Evolve/Client.antt =====
-- Proposals and reads (raft/node.rs) in the order of a node's states.
use rust_kv.Base.{ℕ, ◌+◌, [], ◌∷◌}
use rust_kv.Outcome.{Ensures, Ensures-some, Ensures-bind}
use rust_kv.Types.{LogIndex, Command, put, delete, noop, config_change}
use rust_kv.Storage.{last_index}
use rust_kv.Node.State.{leader, accepted, read_reply, RaftNode}
use rust_kv.Node.Queries.{current_term, peer_ids, replication_targets, emit}
use rust_kv.Node.Apply.{resolve_reads}
use rust_kv.Node.Client.{
  register_read, refusal, adopt_command, append_proposal, handle_propose, handle_read,
}
use rust_kv.Node.Evolve.Defs.{
  Evolves, Evolves-refl, Evolves-trans, Evolves-then, Evolves-after, Ensures-leader, Ensures-option,
}
use rust_kv.Node.Evolve.Log.{append-Keeps}
use rust_kv.Node.Evolve.Replication.{
  storage-Evolves, resolve_reads-Evolves, send_appends-Evolves, maybe_advance_commit-Evolves,
}
use rust_kv.Node.Evolve.Rpc.{adopt_membership-Evolves}

module _ {V S : Type 0} where
  adopt_command-Evolves :
      (command : Command V) (index : LogIndex) (n : RaftNode V S)
      → Evolves n (adopt_command command index n)
  unfolding adopt_command
  adopt_command-Evolves (put _ _ _) index n = Evolves-refl n
  adopt_command-Evolves (delete _ _) index n = Evolves-refl n
  adopt_command-Evolves noop index n = Evolves-refl n
  adopt_command-Evolves (config_change members) index n = adopt_membership-Evolves members index n

  append_proposal-Evolves :
      (command : Command V) (ticket : ℕ) (n : RaftNode V S)
      → Ensures (Evolves n) (append_proposal command ticket n)
  unfolding append_proposal emit
  append_proposal-Evolves command ticket n =
      let index = last_index n.storage + 1 in
      let entries = record { term = current_term n; index = index; command = command } ∷ [] in
      Ensures-bind (append-Keeps n.commit_index entries n.storage) (λ s k.
        let m : RaftNode V S = record n { storage = s } in
        Ensures-some _ (
          Evolves-trans n m (adopt_command command index m) (storage-Evolves n s k)
            (adopt_command-Evolves command index m)))

  pub handle_propose-Evolves :
      (command : Command V) (ticket : ℕ) (n : RaftNode V S)
      → Ensures (Evolves n) (handle_propose command ticket n)
  unfolding handle_propose emit
  handle_propose-Evolves command ticket n =
      Ensures-option (refusal command n) _ _
        (Evolves-then n (append_proposal-Evolves command ticket n) (λ m.
          Evolves-then m (maybe_advance_commit-Evolves m)
            (λ k. send_appends-Evolves (replication_targets k) k)))
        (λ error _. Ensures-some _ (Evolves-refl n))

  pub handle_read-Evolves :
      (ticket : ℕ) (n : RaftNode V S) → Ensures (Evolves n) (handle_read ticket n)
  unfolding handle_read emit
  handle_read-Evolves ticket n =
      Ensures-leader n.role _ _
        (λ l _.
          let m : RaftNode V S =
            emit (read_reply ticket (accepted tt))
              (record n { role = leader (register_read n.commit_index ticket l) }) in
          Evolves-then n (Evolves-after n m (Evolves-refl n) (send_appends-Evolves (peer_ids n) m))
            (λ k. Ensures-some (resolve_reads k) (resolve_reads-Evolves k)))
        (Ensures-some _ (Evolves-refl n))
