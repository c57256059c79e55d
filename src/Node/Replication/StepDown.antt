-- ===== src/Node/Replication/StepDown.antt =====
-- What `become_follower` does, as one equation.
use rust_kv.Base.{
  ℕ, ◌+◌, ◌^◌, ◌≤◌, ◌<◌, ◌≡◌, refl, Option, none, some, [], arith, ltb, if◌then◌else◌, lt→ltb, ◌∙◌,
  ap,
}
use rust_kv.Outcome.{Returns, returns}
use rust_kv.Types.{NodeId, Term, HardState}
use rust_kv.Rng.{SplitMix64, next_range}
use rust_kv.Rng.Range.{InRange, next_range_bounds}
use rust_kv.Node.State.{RaftConfig, follower, RaftNode}
use rust_kv.Node.Queries.{current_term, save_hard_state, reset_election_timer}
use rust_kv.Node.Membership.{publish_membership}
use rust_kv.Node.Replication.{adopt_term, had_departing, become_follower}

abbrev pub TimerIsSet : RaftConfig → Type 0
TimerIsSet c = (c.election_timeout_min ≤ c.election_timeout_max) × (c.election_timeout_max < 2 ^ 64)

-- A higher term clears the vote.
abbrev pub raised : Term → HardState → HardState
raised t h = if ltb h.current_term t then record { current_term = t; voted_for = none } else h

module _ {V S : Type 0} where
  -- The election timer is armed anew by a delay within its bounds.
  abbrev pub rearmed : ℕ → SplitMix64 → RaftNode V S → RaftNode V S
  rearmed d r n = record n { election_deadline = n.now + d; rng = r }

  pub reset_election_timer-eq :
      (n : RaftNode V S)
      → TimerIsSet n.config
      → (d : ℕ) × (r : SplitMix64) × (reset_election_timer n ≡ some (rearmed d r n))
        × (n.config.election_timeout_min ≤ d)
        × (d ≤ n.config.election_timeout_max)
  unfolding reset_election_timer
  reset_election_timer-eq n t =
      let min = n.config.election_timeout_min in
      let max = n.config.election_timeout_max in
      split (next_range n.rng min max) (next_range_bounds n.rng min max t.0 t.1) refl
    where
      split :
          (o : Option (ℕ × SplitMix64))
          → Returns (InRange n.config.election_timeout_min n.config.election_timeout_max) o
          → next_range n.rng n.config.election_timeout_min n.config.election_timeout_max ≡ o
          → (d : ℕ) × (r : SplitMix64) × (reset_election_timer n ≡ some (rearmed d r n))
            × (n.config.election_timeout_min ≤ d)
            × (d ≤ n.config.election_timeout_max)
      split o (returns {a = a} h) e = (a.0, a.1, rw (lt→ltb _ _ t.1) (rw e), h.0, h.1)

  -- The node after `become_follower`, but for its election timer.
  abbrev pub stepped_down : Term → Option NodeId → RaftNode V S → RaftNode V S
  stepped_down t leader_id n = record n {
    storage = record n.storage { hard_state = raised t n.storage.hard_state };
    role = follower;
    leader_id = leader_id;
    membership_tx =
        if had_departing n then record { members = n.members; departing = [] } else n.membership_tx;
  }

  step_down-fold :
      (t : Term) (leader_id : Option NodeId) (n : RaftNode V S)
      → (if had_departing n
          then publish_membership
              (record (adopt_term t n) { role = follower; leader_id = leader_id })
          else record (adopt_term t n) { role = follower; leader_id = leader_id })
        ≡ stepped_down t leader_id n
  unfolding adopt_term publish_membership save_hard_state current_term
  step_down-fold t leader_id n = ground arith

  pub become_follower-eq :
      (t : Term) (leader_id : Option NodeId) (n : RaftNode V S)
      → TimerIsSet n.config
      → (d : ℕ) × (r : SplitMix64) × (become_follower t leader_id n
          ≡ some (rearmed d r (stepped_down t leader_id n)))
        × (n.config.election_timeout_min ≤ d)
        × (d ≤ n.config.election_timeout_max)
  unfolding become_follower
  become_follower-eq t leader_id n set =
      let (d, r, e, lo, hi) = reset_election_timer-eq (stepped_down t leader_id n) set in
      (d, r, ap reset_election_timer (step_down-fold t leader_id n) ∙ e, lo, hi)
