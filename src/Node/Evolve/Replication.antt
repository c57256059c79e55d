-- ===== src/Node/Evolve/Replication.antt =====
-- Applying, stepping down, sending and committing (raft/node.rs) in the order of a node's states.
use rust_kv.Base.{
  ℕ, zero, suc, ◌+◌, ◌-◌, ◌^◌, max, ◌≤◌, ◌≡◌, refl, inl, inr, not, ◌&&◌, ◌||◌, Option, none, some,
  List, [], ◌∷◌, arith, true, leb, ltb, length, get_elem?, if◌then◌else◌, Bool-cases, ltb→lt,
}
use mathlib.Core.Path.{subst, sym}
use rust_kv.Maps.{get_or}
use rust_kv.Outcome.{assert, Ensures, Ensures-some, Ensures-if, Ensures-bind}
use rust_kv.Types.{NodeId, Term, LogIndex, HardState}
use rust_kv.Rng.{next_range}
use rust_kv.Storage
use rust_kv.Storage.{Storage, expect, snapshot_index, last_index, has_term}
use rust_kv.Node.State.{follower, Leadership, RaftNode}
use rust_kv.Node.Queries.{
  current_term, is_leader, majority, is_member, replication_targets, is_departing, emit,
  save_hard_state, reset_election_timer,
}
use rust_kv.Node.Membership.{publish_membership}
use rust_kv.Node.Apply.{
  apply_next, apply_entries, resolve_pending, resolve_reads, drop_stale_capture, capture,
  compact_staged, maybe_compact, apply_committed,
}
use rust_kv.Node.Replication.{
  adopt_term, had_departing, become_follower, send_install_snapshot, send_from, send_append,
  send_appends, quorum_lost, on_heartbeat_tick, sort, replicated, commit_to, step_down_if_removed,
  maybe_advance_commit,
}
use rust_kv.Node.Evolve.Defs.{
  VoteStands, VoteStands-refl, LogStands-refl, Evolves, Evolves-refl, Evolves-then, Evolves-after,
  by_if, by_leader, by_option, Ensures-leader, Ensures-option, Ensures-any,
}
use rust_kv.Node.Evolve.Log.{Keeps, compact_to-Keeps}

module _ {V S : Type 0} where
  -- A step that writes the log.
  pub storage-Evolves :
      (n : RaftNode V S) (s : Storage V)
      → Keeps n.commit_index n.storage s
      → Evolves n (record n { storage = s })
  storage-Evolves n s k = record {
    config = refl;
    hard_state =
        subst (VoteStands n.storage.hard_state) (sym k.hard_state)
          (VoteStands-refl n.storage.hard_state);
    log = k.log;
    committed = omega arith;
  }

  -- A step that writes the hard state.
  pub hard_state-Evolves :
      (n : RaftNode V S) (h : HardState)
      → VoteStands n.storage.hard_state h
      → Evolves n (record n { storage = record n.storage { hard_state = h } })
  unfolding Storage.entry Storage.pos snapshot_index
  hard_state-Evolves n h v = record {
    config = refl;
    hard_state = v;
    log = record { boundary = omega arith; entries = λ i e _ _ q. q };
    committed = omega arith;
  }

  -- A step that moves the commit index up.
  pub commit-Evolves :
      (n : RaftNode V S) (c : LogIndex)
      → n.commit_index ≤ c
      → Evolves n (record n { commit_index = c })
  commit-Evolves n c le = record {
    config = refl;
    hard_state = VoteStands-refl n.storage.hard_state;
    log = LogStands-refl n.commit_index n.storage;
    committed = le;
  }

  pub reset_election_timer-Evolves :
      (n : RaftNode V S) → Ensures (Evolves n) (reset_election_timer n)
  unfolding reset_election_timer
  reset_election_timer-Evolves n =
      Ensures-any
        (assert (ltb n.config.election_timeout_max (2 ^ 64)) n.config.election_timeout_max) _
        (λ max _.
          Ensures-any (next_range n.rng n.config.election_timeout_min max) _
            (λ x _. Ensures-some _ (Evolves-refl n)))

  -- A higher term comes with a free vote.
  adopt_term-Evolves : (t : Term) (n : RaftNode V S) → Evolves n (adopt_term t n)
  unfolding adopt_term save_hard_state current_term Storage.save_hard_state
  adopt_term-Evolves t n = elim (Bool-cases (ltb n.storage.hard_state.current_term t)) [
    | inl newer ↦
        let lt = ltb→lt n.storage.hard_state.current_term t newer in
        rw newer (
          hard_state-Evolves n (record { current_term = t; voted_for = none })
            (record { term = omega arith; vote = λ same. absurd (omega arith) }))
    | inr old ↦ rw old (Evolves-refl n)
  ]

  pub become_follower-Evolves :
      (t : Term) (leader_id : Option NodeId) (n : RaftNode V S)
      → Ensures (Evolves n) (become_follower t leader_id n)
  unfolding become_follower publish_membership
  become_follower-Evolves t leader_id n =
      let n' : RaftNode V S = record (adopt_term t n) { role = follower; leader_id = leader_id } in
      let m : RaftNode V S = if had_departing n then publish_membership n' else n' in
      Evolves-after n m
        (by_if (Evolves n) (had_departing n) (adopt_term-Evolves t n) (adopt_term-Evolves t n))
        (reset_election_timer-Evolves m)

  apply_entries-Evolves : (k : ℕ) (n : RaftNode V S) → Ensures (Evolves n) (apply_entries k n)
  unfolding apply_entries apply_next
  apply_entries-Evolves zero n = Ensures-some n (Evolves-refl n)
  apply_entries-Evolves (suc k) n =
      Evolves-then n
        (Ensures-any (Storage.entry n.storage (n.last_applied + 1)) _
          (λ e _. Ensures-some _ (Evolves-refl n)))
        (λ m. apply_entries-Evolves k m)

  compact_staged-Evolves : (n : RaftNode V S) → Ensures (Evolves n) (compact_staged n)
  unfolding compact_staged
  compact_staged-Evolves n =
      Ensures-option n.staged_snapshot _ (some n) (Ensures-some n (Evolves-refl n)) (λ x _.
        Ensures-if (leb n.config.snapshot_trailing (n.last_applied - x.0)) _ (some n)
          (λ _.
            Ensures-bind (compact_to-Keeps n.commit_index x.0 x.1 x.2 n.storage)
              (λ s k. Ensures-some _ (storage-Evolves n s k)))
          (λ _. Ensures-some n (Evolves-refl n)))

  drop_stale_capture-Evolves : (n : RaftNode V S) → Evolves n (drop_stale_capture n)
  unfolding drop_stale_capture
  drop_stale_capture-Evolves n = by_option (Evolves n) n.staged_snapshot (Evolves-refl n) (λ x.
      by_if (Evolves n) (leb x.0 (snapshot_index n.storage)) (Evolves-refl n) (Evolves-refl n))

  capture-Evolves : (t : ℕ) (n : RaftNode V S) → Evolves n (capture t n)
  unfolding capture
  capture-Evolves t n =
      by_option (Evolves n) n.staged_snapshot
        (by_if (Evolves n) (leb (max t 1) (n.last_applied - snapshot_index n.storage))
          (Evolves-refl n) (Evolves-refl n))
        (λ _. Evolves-refl n)

  pub resolve_reads-Evolves : (n : RaftNode V S) → Evolves n (resolve_reads n)
  unfolding resolve_reads
  resolve_reads-Evolves n = by_leader (Evolves n) n.role (λ l. Evolves-refl n) (Evolves-refl n)

  resolve-Evolves : (n : RaftNode V S) → Evolves n (resolve_reads (resolve_pending n))
  unfolding resolve_pending
  resolve-Evolves n = resolve_reads-Evolves (resolve_pending n)

  maybe_compact-Evolves : (n : RaftNode V S) → Ensures (Evolves n) (maybe_compact n)
  unfolding maybe_compact
  maybe_compact-Evolves n =
      Ensures-option n.config.snapshot_threshold _ (some n) (Ensures-some n (Evolves-refl n))
        (λ t _.
          let m = drop_stale_capture n in
          Evolves-after n m (drop_stale_capture-Evolves n) (
            Evolves-after m (capture t m) (capture-Evolves t m)
              (compact_staged-Evolves (capture t m))))

  pub apply_committed-Evolves : (n : RaftNode V S) → Ensures (Evolves n) (apply_committed n)
  unfolding apply_committed
  apply_committed-Evolves n =
      Evolves-then n (apply_entries-Evolves (n.commit_index - n.last_applied) n) (λ m.
        Evolves-after m (resolve_reads (resolve_pending m)) (resolve-Evolves m)
          (maybe_compact-Evolves (resolve_reads (resolve_pending m))))

  send_install_snapshot-Evolves :
      (peer : NodeId) (n : RaftNode V S) → Ensures (Evolves n) (send_install_snapshot peer n)
  unfolding send_install_snapshot emit
  send_install_snapshot-Evolves peer n =
      Ensures-any n.storage.snapshot _ (λ x _. Ensures-some _ (Evolves-refl n))

  send_from-Evolves :
      (peer : NodeId) (l : Leadership) (next : LogIndex) (n : RaftNode V S)
      → Ensures (Evolves n) (send_from peer l next n)
  unfolding send_from emit
  send_from-Evolves peer l next n =
      Ensures-if (leb next (snapshot_index n.storage)) _ _
        (λ _. send_install_snapshot-Evolves peer n)
        (λ _.
          Ensures-any (Storage.term n.storage (next - 1)) _
            (λ t _. Ensures-some _ (Evolves-refl n)))

  pub send_append-Evolves :
      (peer : NodeId) (n : RaftNode V S) → Ensures (Evolves n) (send_append peer n)
  unfolding send_append
  send_append-Evolves peer n =
      Ensures-if (is_member n peer || is_departing n peer) _ (some n)
        (λ _.
          Ensures-leader n.role _ (some n)
            (λ l _.
              send_from-Evolves peer l (get_or (last_index n.storage + 1) peer l.next_index) n)
            (Ensures-some n (Evolves-refl n)))
        (λ _. Ensures-some n (Evolves-refl n))

  pub send_appends-Evolves :
      (peers : List NodeId) (n : RaftNode V S) → Ensures (Evolves n) (send_appends peers n)
  unfolding send_appends
  send_appends-Evolves [] n = Ensures-some n (Evolves-refl n)
  send_appends-Evolves (peer ∷ peers) n =
      Evolves-then n (send_append-Evolves peer n) (λ m. send_appends-Evolves peers m)

  pub on_heartbeat_tick-Evolves : (n : RaftNode V S) → Ensures (Evolves n) (on_heartbeat_tick n)
  unfolding on_heartbeat_tick
  on_heartbeat_tick-Evolves n =
      Ensures-if (quorum_lost n) _ _ (λ _. become_follower-Evolves (current_term n) none n)
        (λ _.
          Evolves-then n (send_appends-Evolves (replication_targets n) n)
            (λ m. Ensures-some _ (Evolves-refl m)))

  pub commit_above-Evolves :
      (c : LogIndex) (n : RaftNode V S)
      → ltb n.commit_index c ≡ true
      → Ensures (Evolves n) (apply_committed (record n { commit_index = c }))
  commit_above-Evolves c n h =
      let lt = ltb→lt n.commit_index c h in
      Evolves-after n (record n { commit_index = c }) (commit-Evolves n c (omega arith))
        (apply_committed-Evolves (record n { commit_index = c }))

  commit_to-Evolves : (c : LogIndex) (n : RaftNode V S) → Ensures (Evolves n) (commit_to c n)
  unfolding commit_to
  commit_to-Evolves c n =
      Ensures-if (ltb n.commit_index c && has_term n.storage c (current_term n)) _ (some n)
        (λ h. commit_above-Evolves c n (ground (arith, h))) (λ _. Ensures-some n (Evolves-refl n))

  step_down_if_removed-Evolves : (n : RaftNode V S) → Ensures (Evolves n) (step_down_if_removed n)
  unfolding step_down_if_removed
  step_down_if_removed-Evolves n =
      Ensures-if
        (is_leader n && not (is_member n n.config.id) && leb n.members_index n.commit_index) _
        (some n) (λ _. become_follower-Evolves (current_term n) none n)
        (λ _. Ensures-some n (Evolves-refl n))

  pub maybe_advance_commit-Evolves :
      (n : RaftNode V S) → Ensures (Evolves n) (maybe_advance_commit n)
  unfolding maybe_advance_commit
  maybe_advance_commit-Evolves n =
      Ensures-leader n.role _ (some n)
        (λ l _.
          Ensures-if (ltb (length (sort (replicated n l))) (majority n)) (some n) _
            (λ _. Ensures-some n (Evolves-refl n))
            (λ _.
              Ensures-any
                (get_elem? (sort (replicated n l)) (length (sort (replicated n l)) - majority n)) _
                (λ c _.
                  Evolves-then n (commit_to-Evolves c n) (λ m. step_down_if_removed-Evolves m))))
        (Ensures-some n (Evolves-refl n))
