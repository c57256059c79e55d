-- ===== src/Node/Commit.antt =====
-- The commit rule of a leader (`maybe_advance_commit` of raft/node.rs).
use rust_kv.Base.{
  ℕ, zero, suc, ◌-◌, ◌^◌, ◌≤◌, ◌<◌, ◌≡◌, refl, ◌∙◌, ◌⊎◌, inl, inr, not, ◌&&◌, Bool, true, Option,
  none, some, List, [], ◌∷◌, arith, leb, ltb, length, count, get_elem?, if◌then◌else◌, Bool-cases,
  leb→le, le→leb,
}
use rust_kv.Outcome.{
  ◌>>=◌, Returns, Returns-both, Ensures, Ensures-some, Ensures-if, Ensures-bind, Ensures-map,
}
use rust_kv.Types.{NodeId, Term, LogIndex}
use rust_kv.Rng.{next_range}
use rust_kv.Storage.{has_term}
use rust_kv.Node.State.{follower, leader, Leadership, RaftNode}
use rust_kv.Node.Queries.{
  current_term, majority, is_leader, is_member, save_hard_state, reset_election_timer,
}
use rust_kv.Node.Membership.{publish_membership}
use rust_kv.Node.Replication.{
  adopt_term, had_departing, become_follower, insert_sorted, sort, replicated, commit_to,
  step_down_if_removed, maybe_advance_commit,
}
use rust_kv.Node.Wf.Defs.{IsWf}
use rust_kv.Node.Wf.Replication.{maybe_advance_commit-IsWf}
use rust_kv.Node.Held.{IsHeld, count-IsHeld}
use rust_kv.Node.Applied.{apply_committed-CaughtUp}
use rust_kv.Node.Evolve.Defs.{by_if, Ensures-any, Ensures-assert, Ensures-leader}

-- Each is at least `x`.
abbrev AtLeast : ℕ → List ℕ → Type 0
AtLeast x [] = Unit
AtLeast x (y ∷ ys) = (x ≤ y) × AtLeast x ys

abbrev IsSorted : List ℕ → Type 0
IsSorted [] = Unit
IsSorted (x ∷ xs) = AtLeast x xs × IsSorted xs

AtLeast-trans : (a b : ℕ) (xs : List ℕ) → a ≤ b → AtLeast b xs → AtLeast a xs
AtLeast-trans a b [] h k = tt
AtLeast-trans a b (x ∷ xs) h k = (omega (arith, k.0), AtLeast-trans a b xs h k.1)

insert_sorted-AtLeast :
    (a x : ℕ) (xs : List ℕ) → a ≤ x → AtLeast a xs → AtLeast a (insert_sorted x xs)
unfolding insert_sorted
insert_sorted-AtLeast a x [] h k = (h, tt)
insert_sorted-AtLeast a x (y ∷ ys) h k = elim (Bool-cases (leb x y)) [
  | inl le ↦ rw le (h, k)
  | inr gt ↦ rw gt (k.0, insert_sorted-AtLeast a x ys h k.1)
]

insert_sorted-IsSorted : (x : ℕ) (xs : List ℕ) → IsSorted xs → IsSorted (insert_sorted x xs)
unfolding insert_sorted
insert_sorted-IsSorted x [] h = (tt, tt)
insert_sorted-IsSorted x (y ∷ ys) h = elim (Bool-cases (leb x y)) [
  | inl le ↦ let b = leb→le x y le in rw le ((b, AtLeast-trans x y ys b h.0), h)
  | inr gt ↦
      rw gt (insert_sorted-AtLeast y x ys (ground (arith, gt)) h.0, insert_sorted-IsSorted x ys h.1)
]

sort-IsSorted : (xs : List ℕ) → IsSorted (sort xs)
unfolding sort
sort-IsSorted [] = tt
sort-IsSorted (x ∷ xs) = insert_sorted-IsSorted x (sort xs) (sort-IsSorted xs)

count-insert_sorted :
    (p : ℕ → Bool) (x : ℕ) (xs : List ℕ) → count p (insert_sorted x xs) ≡ count p (x ∷ xs)
unfolding insert_sorted
count-insert_sorted p x [] = refl
count-insert_sorted p x (y ∷ ys) = ground (arith, count-insert_sorted p x ys)

-- Sorting changes no count.
count-sort : (p : ℕ → Bool) (xs : List ℕ) → count p (sort xs) ≡ count p xs
unfolding sort
count-sort p [] = refl
count-sort p (x ∷ xs) = ground (arith, count-insert_sorted p x (sort xs), count-sort p xs)

count_all : (c : ℕ) (xs : List ℕ) → AtLeast c xs → count (λ m. leb c m) xs ≡ length xs
count_all c [] h = refl
count_all c (x ∷ xs) h = ground (arith, le→leb c x h.0, count_all c xs h.1)

-- From a position in a sorted list on, everything is at least what stands there.
count_from :
    (xs : List ℕ) (i c : ℕ)
    → IsSorted xs
    → get_elem? xs i ≡ some c
    → length xs - i ≤ count (λ m. leb c m) xs
count_from [] i c h q = cc
count_from (x ∷ xs) zero c h q =
    let p : x ≡ c = cc in ground (arith, p, count_all c xs (rw p at h.0))
count_from (x ∷ xs) (suc i) c h q = ground (arith, count_from xs i c h.1 q)

-- What stands at the majority's position of a sorted list is reached by a majority of the list.
count_majority :
    (xs : List ℕ) (k c : ℕ)
    → k ≤ length (sort xs)
    → get_elem? (sort xs) (length (sort xs) - k) ≡ some c
    → k ≤ count (λ m. leb c m) xs
count_majority xs k c le q = omega (
  arith,
  count_from (sort xs) (length (sort xs) - k) c (sort-IsSorted xs) q,
  count-sort (λ m. leb c m) xs,
)

module _ {V S : Type 0} where
  KeepsCommit : RaftNode V S → RaftNode V S → Type 0
  KeepsCommit n n' = n'.commit_index ≡ n.commit_index

  reset_election_timer-KeepsCommit :
      (n : RaftNode V S) → Ensures (KeepsCommit n) (reset_election_timer n)
  unfolding reset_election_timer KeepsCommit
  reset_election_timer-KeepsCommit n =
      Ensures-assert (ltb n.config.election_timeout_max (2 ^ 64)) n.config.election_timeout_max _
        (λ _.
          Ensures-any (next_range n.rng n.config.election_timeout_min n.config.election_timeout_max)
            _ (λ x _. Ensures-some _ refl))

  become_follower-KeepsCommit :
      (t : Term) (leader_id : Option NodeId) (n : RaftNode V S)
      → Ensures (KeepsCommit n) (become_follower t leader_id n)
  unfolding become_follower publish_membership adopt_term save_hard_state KeepsCommit
  become_follower-KeepsCommit t leader_id n =
      let n' : RaftNode V S = record (adopt_term t n) { role = follower; leader_id = leader_id } in
      let m : RaftNode V S = if had_departing n then publish_membership n' else n' in
      let at_commit = λ (x : RaftNode V S). x.commit_index ≡ n.commit_index in
      let kept : n'.commit_index ≡ n.commit_index =
        by_if at_commit (ltb (current_term n) t) refl refl in
      let kept' : m.commit_index ≡ n.commit_index = by_if at_commit (had_departing n) kept kept in
      record { at = λ k q. (reset_election_timer-KeepsCommit m).at k q ∙ kept' }

  step_down_if_removed-KeepsCommit :
      (n : RaftNode V S) → Ensures (KeepsCommit n) (step_down_if_removed n)
  unfolding step_down_if_removed KeepsCommit
  step_down_if_removed-KeepsCommit n =
      Ensures-if
        (is_leader n && not (is_member n n.config.id) && leb n.members_index n.commit_index) _
        (some n) (λ _. become_follower-KeepsCommit (current_term n) none n)
        (λ _. Ensures-some n refl)

  -- The commit index is unchanged, or it has moved up to an entry of the leader's own term that a
  -- majority of the members' logs reach.
  abbrev pub CommitRule : RaftNode V S → Leadership → RaftNode V S → Type 0
  CommitRule n l n' =
      (n'.commit_index ≡ n.commit_index)
      ⊎ ((n.commit_index < n'.commit_index)
          × (has_term n.storage n'.commit_index (current_term n) ≡ true)
          × (majority n ≤ count (λ m. leb n'.commit_index m) (replicated n l))
          × IsHeld n l n'.commit_index)

  -- The outcome of `commit_to`.
  abbrev MovedTo : RaftNode V S → LogIndex → RaftNode V S → Type 0
  MovedTo n c n' =
      (n'.commit_index ≡ n.commit_index)
      ⊎ ((n'.commit_index ≡ c)
          × (n.commit_index < c)
          × (has_term n.storage c (current_term n) ≡ true))

  commit_to-MovedTo :
      (c : LogIndex) (n : RaftNode V S) → IsWf n → Ensures (MovedTo n c) (commit_to c n)
  unfolding commit_to
  commit_to-MovedTo c n w =
      Ensures-if (ltb n.commit_index c && has_term n.storage c (current_term n)) _ (some n)
        (λ h.
          let lt : n.commit_index < c = ground (arith, h) in
          let own : has_term n.storage c (current_term n) ≡ true = ground (arith, h) in
          Ensures-map
            (apply_committed-CaughtUp (record n { commit_index = c }) w.boundary
              (omega (arith, w.ordered)))
            (λ n' u. inr (u.commit, lt, own)))
        (λ _. Ensures-some n (inl refl))

  MovedTo-CommitRule :
      (n m n' : RaftNode V S) (l : Leadership) (c : LogIndex)
      → majority n ≤ count (λ i. leb c i) (replicated n l)
      → MovedTo n c m
      → n'.commit_index ≡ m.commit_index
      → CommitRule n l n'
  MovedTo-CommitRule n m n' l c reached (inl same) k = inl (k ∙ same)
  MovedTo-CommitRule n m n' l c reached (inr (here, lt, own)) k =
      let p : n'.commit_index ≡ c = k ∙ here in
      inr (rw p (lt, own, reached, count-IsHeld n l c reached))

  advance-CommitRule :
      (n : RaftNode V S) (l : Leadership) (c : LogIndex)
      → majority n ≤ length (sort (replicated n l))
      → get_elem? (sort (replicated n l)) (length (sort (replicated n l)) - majority n) ≡ some c
      → IsWf n
      → Ensures (CommitRule n l) (do n' ← commit_to c n; step_down_if_removed n')
  unfolding KeepsCommit
  advance-CommitRule n l c le q w = Ensures-bind (commit_to-MovedTo c n w) (λ m moved.
      Ensures-map (step_down_if_removed-KeepsCommit m) (λ n' k.
        MovedTo-CommitRule n m n' l c (count_majority (replicated n l) (majority n) c le q) moved
          k))

  -- On a well-formed leader `maybe_advance_commit` does not panic and leaves a well-formed node,
  -- whose commit index is the old one, or a higher one at which the log has an entry of the leader's
  -- own term and which the logs of more than half of the current members reach: a peer's log by its
  -- match index, and the leader's own log, which counts only if the leader is a member.
  pub maybe_advance_commit-CommitRule :
      (n : RaftNode V S) (l : Leadership)
      → n.role ≡ leader l
      → IsWf n
      → Returns (λ n'. IsWf n' × CommitRule n l n') (maybe_advance_commit n)
  unfolding maybe_advance_commit
  maybe_advance_commit-CommitRule n l e w = Returns-both (maybe_advance_commit-IsWf n w) (
      Ensures-leader n.role _ (some n)
        (λ l' e'.
          let same : l' ≡ l = cc in
          rw same (
            Ensures-if (ltb (length (sort (replicated n l))) (majority n)) (some n) _
              (λ _. Ensures-some n (inl refl))
              (λ big.
                Ensures-any
                  (get_elem? (sort (replicated n l)) (length (sort (replicated n l)) - majority n))
                  _ (λ c q. advance-CommitRule n l c (ground (arith, big)) q w))))
        (Ensures-some n (inl refl)))
