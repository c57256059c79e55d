-- ===== src/Node/Wf/Client.antt =====
-- The invariant through proposals and reads (raft/node.rs).
use rust_kv.Base.{ℕ, ◌+◌, [], ◌∷◌, arith}
use rust_kv.Outcome.{Returns, returns, Returns-bind, Returns-some}
use rust_kv.Types.{LogEntry, Command, put, delete, noop, config_change}
use rust_kv.Storage.{last_index}
use rust_kv.Storage.Contiguous.{Follows}
use rust_kv.Storage.Lookup.{append-eq-ok, last_index-append}
use rust_kv.Node.State.{RaftNode}
use rust_kv.Node.Queries.{current_term, peer_ids, replication_targets, emit}
use rust_kv.Node.Apply.{resolve_reads}
use rust_kv.Node.Client.{
  refusal, adopt_command, append_proposal, handle_propose, register_read, handle_read,
}
use rust_kv.Node.Wf.Defs.{NextInLog-mono, IsWf, Returns-leader, Returns-option}
use rust_kv.Node.Wf.Apply.{resolve_reads-IsWf}
use rust_kv.Node.Wf.Replication.{send_appends-IsWf, maybe_advance_commit-IsWf}
use rust_kv.Node.Wf.Election.{appended-IsWf}
use rust_kv.Node.Wf.Append.{adopt_membership-IsWf}

module _ {V S : Type 0} where
  adopt_command-IsWf :
      (command : Command V) (i : ℕ) (n : RaftNode V S) → IsWf n → IsWf (adopt_command command i n)
  unfolding adopt_command
  adopt_command-IsWf (put _ _ _) i n w = w
  adopt_command-IsWf (delete _ _) i n w = w
  adopt_command-IsWf noop i n w = w
  adopt_command-IsWf (config_change members) i n w = adopt_membership-IsWf members i n w

  append_proposal-IsWf :
      (command : Command V) (ticket : ℕ) (n : RaftNode V S)
      → IsWf n
      → Returns IsWf (append_proposal command ticket n)
  unfolding append_proposal emit
  append_proposal-IsWf command ticket n w =
      let e : LogEntry V = record {
        term = current_term n;
        index = last_index n.storage + 1;
        command = command;
      } in
      let f : Follows (last_index n.storage) (e ∷ []) = (omega arith, tt) in
      rw (append-eq-ok n.storage (e ∷ []) f) (
        returns (
          adopt_command-IsWf command (last_index n.storage + 1) _ (
            appended-IsWf n (e ∷ []) n.role f
              (NextInLog-mono _ _ n.role (omega (arith, last_index-append n.storage (e ∷ [])))
                w.next)
              w)))

  pub handle_propose-IsWf :
      (command : Command V) (ticket : ℕ) (n : RaftNode V S)
      → IsWf n
      → Returns IsWf (handle_propose command ticket n)
  unfolding handle_propose emit
  handle_propose-IsWf command ticket n w =
      Returns-option (refusal command n) _ _
        (λ _. Returns-bind (append_proposal-IsWf command ticket n w) (λ n' v.
          Returns-bind (maybe_advance_commit-IsWf n' v)
            (λ m u. send_appends-IsWf (replication_targets m) m u)))
        (λ error _. returns w)

  pub handle_read-IsWf :
      (ticket : ℕ) (n : RaftNode V S) → IsWf n → Returns IsWf (handle_read ticket n)
  unfolding handle_read emit register_read
  handle_read-IsWf ticket n w =
      Returns-leader n.role _ _
        (λ l e.
          Returns-bind (send_appends-IsWf (peer_ids n) _ (ground arith))
            (λ m v. Returns-some (resolve_reads m) (resolve_reads-IsWf m v)))
        (returns w)
