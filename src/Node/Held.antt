-- ===== src/Node/Held.antt =====
-- Which members of a cluster hold a leader's log up to an index, by what `maybe_advance_commit` of
-- raft/node.rs counts.
use rust_kv.Base.{
  ℕ, ◌*◌, ◌≤◌, ◌<◌, ◌≡◌, ◌≢◌, ◌⊎◌, inl, inr, Bool, true, false, arith, leb, ◌==◌, length, count,
  if◌then◌else◌, Bool-cases, leb→le, le→leb,
}
use rust_kv.Maps.{keys, get_or}
use rust_kv.Types.{NodeId, LogIndex}
use rust_kv.Storage.{last_index}
use rust_kv.Node.State.{Leadership, RaftNode}
use rust_kv.Node.Queries.{majority, is_member, peer_ids}
use rust_kv.Node.Replication.{replicated}
use rust_kv.Node.Quorum.{contains_key-eq}
use rust_kv.Node.Counts.{Counts, Counts-count, count-told}

module _ {V S : Type 0} where
  -- A member whose log is known to reach the index: the leader by its own log, a peer by the match
  -- index.
  abbrev pub HoldsUpTo : RaftNode V S → Leadership → LogIndex → NodeId → Type 0
  HoldsUpTo n l i id =
      ((id ≡ n.config.id) × (i ≤ last_index n.storage))
      ⊎ ((id ≢ n.config.id) × (i ≤ get_or 0 id l.match_index))

  -- More than half of the members hold the log up to the index.
  abbrev pub IsHeld : RaftNode V S → Leadership → LogIndex → Type 0
  IsHeld n l i = (k : ℕ) × Counts (HoldsUpTo n l i) (keys n.members) k × (length n.members < 2 * k)

  holds_up_to : RaftNode V S → Leadership → LogIndex → NodeId → Bool
  holds_up_to n l i id =
      if id == n.config.id then leb i (last_index n.storage) else leb i (get_or 0 id l.match_index)

  holds_up_to→HoldsUpTo :
      (n : RaftNode V S) (l : Leadership) (i : LogIndex) (id : NodeId)
      → holds_up_to n l i id ≡ true
      → HoldsUpTo n l i id
  unfolding holds_up_to
  holds_up_to→HoldsUpTo n l i id h = elim (Bool-cases (id == n.config.id)) [
    | inl self ↦ inl (ground (arith, self), leb→le _ _ (ground (arith, self)))
    | inr peer ↦ inr (λ same. ground (arith, peer, same), leb→le _ _ (ground (arith, peer)))
  ]

  not-HoldsUpTo :
      (n : RaftNode V S) (l : Leadership) (i : LogIndex) (id : NodeId)
      → holds_up_to n l i id ≡ false
      → ¬ HoldsUpTo n l i id
  unfolding holds_up_to
  not-HoldsUpTo n l i id h (inl (self, le)) = let yea = le→leb _ _ le in ground (arith, self, yea)
  not-HoldsUpTo n l i id h (inr (peer, le)) = let yea = le→leb _ _ le in ground (arith, peer, yea)

  pub count-IsHeld :
      (n : RaftNode V S) (l : Leadership) (i : LogIndex)
      → majority n ≤ count (λ m. leb i m) (replicated n l)
      → IsHeld n l i
  unfolding majority replicated is_member peer_ids holds_up_to
  count-IsHeld n l i h =
      let told =
        count-told n.config.id (last_index n.storage) (λ m. leb i m)
          (λ id. get_or 0 id l.match_index) (keys n.members) in
      let h' = rw (contains_key-eq n.config.id n.members) at h in
      (
        count (holds_up_to n l i) (keys n.members),
        Counts-count (HoldsUpTo n l i) (holds_up_to n l i) (holds_up_to→HoldsUpTo n l i)
            (not-HoldsUpTo n l i) (keys n.members),
        omega (arith, h', told),
      )
