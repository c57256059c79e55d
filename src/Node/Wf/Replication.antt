-- ===== src/Node/Wf/Replication.antt =====
-- The invariant through replication, commit advancement and stepping down (raft/node.rs).
use rust_kv.Base.{
  ◌+◌, ◌-◌, ◌≤◌, ◌≡◌, inl, inr, Option, none, some, List, [], ◌∷◌, arith, not, ◌&&◌, ◌||◌, leb, ltb,
  length, Option-cases, get_elem?-of_lt, lt→ltb,
}
use rust_kv.Maps.{get, get_or}
use rust_kv.Outcome.{Returns, returns, Returns-bind, Returns-if, Returns-of_eq}
use rust_kv.Types.{NodeId, Term, LogIndex, Snapshot}
use rust_kv.Rng.Range.{next_range_bounds}
use rust_kv.Storage.{Storage, snapshot_index, last_index, has_term}
use rust_kv.Storage.Lookup.{term-exists}
use rust_kv.Storage.Compaction.{has_term-bounds}
use rust_kv.Node.State.{leader, Leadership, RaftNode}
use rust_kv.Node.Queries.{
  current_term, is_leader, majority, is_member, replication_targets, is_departing, emit,
  save_hard_state, reset_election_timer,
}
use rust_kv.Node.Membership.{publish_membership}
use rust_kv.Node.Replication.{
  adopt_term, become_follower, send_install_snapshot, send_from, send_append, send_appends,
  quorum_lost, on_heartbeat_tick, sort, replicated, commit_to, step_down_if_removed,
  maybe_advance_commit,
}
use rust_kv.Node.Wf.Defs.{NextInLog, IsWf, Returns-leader}
use rust_kv.Node.Wf.Apply.{apply_committed-IsWf}

-- The next index that `send_append` uses, also for a peer that has none yet.
next_of_peer :
    (peer : NodeId) (l : Leadership) (last : LogIndex)
    → NextInLog last (leader l)
    → (1 ≤ get_or (last + 1) peer l.next_index) × (get_or (last + 1) peer l.next_index ≤ last + 1)
next_of_peer peer l last h = elim (Option-cases (get peer l.next_index)) [
  | inl e ↦ ground (arith, e)
  | inr (next, e) ↦ ground (arith, e, h peer next e)
]

module _ {V : Type 0} where
  -- A boundary above 0 is that of a snapshot.
  snapshot-exists :
      (s : Storage V) → 1 ≤ snapshot_index s → (x : Snapshot V) × (s.snapshot ≡ some x)
  unfolding snapshot_index
  snapshot-exists s h = elim (Option-cases s.snapshot) [
    | inl e ↦ absurd (ground (arith, e))
    | inr found ↦ found
  ]

module _ {V S : Type 0} where
  pub reset_election_timer-IsWf :
      (n : RaftNode V S) → IsWf n → Returns IsWf (reset_election_timer n)
  unfolding reset_election_timer
  reset_election_timer-IsWf n w = rw (lt→ltb _ _ w.timer_fits) (
      Returns-bind
        (next_range_bounds n.rng n.config.election_timeout_min n.config.election_timeout_max w.timer
          w.timer_fits)
        (λ x h. returns w))

  adopt_term-IsWf : (t : Term) (n : RaftNode V S) → IsWf n → IsWf (adopt_term t n)
  unfolding adopt_term save_hard_state snapshot_index last_index
  adopt_term-IsWf t n w = ground arith

  pub become_follower-IsWf :
      (t : Term) (leader_id : Option NodeId) (n : RaftNode V S)
      → IsWf n
      → Returns IsWf (become_follower t leader_id n)
  unfolding become_follower publish_membership
  become_follower-IsWf t leader_id n w =
      let v = adopt_term-IsWf t n w in reset_election_timer-IsWf _ (ground arith)

  send_install_snapshot-IsWf :
      (peer : NodeId) (n : RaftNode V S)
      → 1 ≤ snapshot_index n.storage
      → IsWf n
      → Returns IsWf (send_install_snapshot peer n)
  unfolding send_install_snapshot emit
  send_install_snapshot-IsWf peer n h w =
      let (x, e) = snapshot-exists n.storage h in
      Returns-bind (Returns-of_eq {P = λ _. Unit {0}} n.storage.snapshot x e tt) (λ y _. returns w)

  send_from-IsWf :
      (peer : NodeId) (l : Leadership) (next : LogIndex) (n : RaftNode V S)
      → 1 ≤ next
      → next ≤ last_index n.storage + 1
      → IsWf n
      → Returns IsWf (send_from peer l next n)
  unfolding send_from emit
  send_from-IsWf peer l next n lo hi w =
      Returns-if (leb next (snapshot_index n.storage)) _ _
        (λ e. send_install_snapshot-IsWf peer n (ground (arith, e)) w)
        (λ e.
          let (t, q) = term-exists n.storage (next - 1) (ground (arith, e)) (omega arith) in
          rw q (returns w))

  pub send_append-IsWf :
      (peer : NodeId) (n : RaftNode V S) → IsWf n → Returns IsWf (send_append peer n)
  unfolding send_append
  send_append-IsWf peer n w =
      Returns-if (is_member n peer || is_departing n peer) _ (some n)
        (λ _.
          Returns-leader n.role _ (some n)
            (λ l e.
              let b = next_of_peer peer l (last_index n.storage) (rw e at w.next) in
              send_from-IsWf peer l (get_or (last_index n.storage + 1) peer l.next_index) n b.0 b.1
                w)
            (returns w))
        (λ _. returns w)

  pub send_appends-IsWf :
      (peers : List NodeId) (n : RaftNode V S) → IsWf n → Returns IsWf (send_appends peers n)
  unfolding send_appends
  send_appends-IsWf [] n w = returns w
  send_appends-IsWf (peer ∷ peers) n w =
      Returns-bind (send_append-IsWf peer n w) (λ n' w'. send_appends-IsWf peers n' w')

  pub on_heartbeat_tick-IsWf : (n : RaftNode V S) → IsWf n → Returns IsWf (on_heartbeat_tick n)
  unfolding on_heartbeat_tick
  on_heartbeat_tick-IsWf n w =
      Returns-if (quorum_lost n) _ _ (λ _. become_follower-IsWf (current_term n) none n w)
        (λ _. Returns-bind (send_appends-IsWf (replication_targets n) n w) (λ n' w'. returns w'))

  commit_to-IsWf : (c : LogIndex) (n : RaftNode V S) → IsWf n → Returns IsWf (commit_to c n)
  unfolding commit_to
  commit_to-IsWf c n w =
      Returns-if (ltb n.commit_index c && has_term n.storage c (current_term n)) _ (some n)
        (λ e.
          let b = has_term-bounds n.storage c (current_term n) (ground (arith, e)) in
          apply_committed-IsWf (record n { commit_index = c }) (ground (arith, e, b)))
        (λ _. returns w)

  step_down_if_removed-IsWf : (n : RaftNode V S) → IsWf n → Returns IsWf (step_down_if_removed n)
  unfolding step_down_if_removed
  step_down_if_removed-IsWf n w =
      Returns-if
        (is_leader n && not (is_member n n.config.id) && leb n.members_index n.commit_index) _
        (some n) (λ _. become_follower-IsWf (current_term n) none n w) (λ _. returns w)

  pub maybe_advance_commit-IsWf :
      (n : RaftNode V S) → IsWf n → Returns IsWf (maybe_advance_commit n)
  unfolding maybe_advance_commit
  maybe_advance_commit-IsWf n w =
      Returns-leader n.role _ (some n)
        (λ l e.
          Returns-if (ltb (length (sort (replicated n l))) (majority n)) (some n) _ (λ _. returns w)
            (λ e.
              let (c, q) =
                get_elem?-of_lt (sort (replicated n l))
                  (length (sort (replicated n l)) - majority n)
                  (unfold majority in ground (arith, e)) in
              rw q
                (Returns-bind (commit_to-IsWf c n w) (λ n' w'. step_down_if_removed-IsWf n' w'))))
        (returns w)
