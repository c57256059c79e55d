-- ===== src/Node/Applied.antt =====
-- What `apply_committed` of raft/node.rs does to the state machine.
use rust_kv.Base.{
  ℕ, zero, suc, ◌+◌, ◌-◌, max, ◌≤◌, ◌<◌, ◌≡◌, refl, sym, ◌∙◌, ap, Option, some, List, [], ◌∷◌,
  arith, leb, get_elem?, take, drop,
}
use rust_kv.Outcome.{Returns, Returns-both, Ensures, Ensures-some, Ensures-if, Ensures-bind}
use rust_kv.Types.{LogIndex, LogEntry}
use rust_kv.Storage
use rust_kv.Storage.{Storage, expect, snapshot_index, entry, entries_from, pos}
use rust_kv.Storage.Lookup.{entry-of_gt}
use rust_kv.Node.State.{StateMachine, RaftNode}
use rust_kv.Node.Apply.{
  apply_next, apply_entries, resolve_pending, resolve_reads, drop_stale_capture, capture,
  compact_staged, maybe_compact, apply_committed,
}
use rust_kv.Node.Wf.Defs.{IsWf}
use rust_kv.Node.Wf.Apply.{apply_committed-IsWf}
use rust_kv.Node.Evolve.Defs.{by_if, by_leader, by_option, Ensures-option, Ensures-any}

module _ {V : Type 0} where
  drop-get_elem? :
      (xs : List (LogEntry V)) (i : ℕ) (e : LogEntry V)
      → get_elem? xs i ≡ some e
      → drop i xs ≡ e ∷ drop (suc i) xs
  drop-get_elem? [] i e q = cc
  drop-get_elem? (x ∷ xs) zero e q = cc
  drop-get_elem? (x ∷ xs) (suc i) e q = drop-get_elem? xs i e q

  entries_from-eq :
      (s : Storage V) (i : LogIndex)
      → snapshot_index s < i
      → entries_from s i ≡ drop (i - (snapshot_index s + 1)) s.log
  unfolding entries_from pos
  entries_from-eq s i h = ground arith

  entries_from-next :
      (s : Storage V) (i : LogIndex) (e : LogEntry V)
      → snapshot_index s < i
      → entry s i ≡ some e
      → entries_from s i ≡ e ∷ entries_from s (i + 1)
  entries_from-next s i e h q =
      let p : i + 1 - (snapshot_index s + 1) ≡ suc (i - (snapshot_index s + 1)) = omega arith in
      entries_from-eq s i h
      ∙ drop-get_elem? s.log (i - (snapshot_index s + 1)) e (sym (entry-of_gt s i h) ∙ q)
      ∙ ap (λ (xs : List (LogEntry V)). e ∷ xs)
          (sym (entries_from-eq s (i + 1) (omega arith) ∙ ap (λ (j : ℕ). drop j s.log) p))

module _ {V S : Type 0} where
  -- The state machine after a list of entries, in order.
  abbrev pub run : StateMachine V S → List (LogEntry V) → S → S
  run sm [] state = state
  run sm (e ∷ es) state = run sm es (sm.apply e state)

  -- What compaction, and settling what waits, leave alone.
  abbrev Same : RaftNode V S → RaftNode V S → Type 0
  Same n n' =
      (n'.state ≡ n.state) × (n'.last_applied ≡ n.last_applied) × (n'.commit_index ≡ n.commit_index)

  -- The entries after the last applied one, up to the commit index.
  abbrev pub unapplied : RaftNode V S → List (LogEntry V)
  unapplied n = take (n.commit_index - n.last_applied) (entries_from n.storage (n.last_applied + 1))

  -- `n'` has applied `k` entries more than `n`.
  record Applies (k : ℕ) (n n' : RaftNode V S) : Type 0 where
    state :
        n'.state
        ≡ run n.state_machine (take k (entries_from n.storage (n.last_applied + 1))) n.state
    applied : n'.last_applied ≡ n.last_applied + k
    commit : n'.commit_index ≡ n.commit_index

  -- The node after one more entry.
  abbrev one_more : LogEntry V → RaftNode V S → RaftNode V S
  one_more e n = record n {
    last_applied = n.last_applied + 1;
    state = n.state_machine.apply e n.state;
  }

  abbrev Next : RaftNode V S → RaftNode V S → Type 0
  Next n m = (e : LogEntry V) × (entry n.storage (n.last_applied + 1) ≡ some e) × (m ≡ one_more e n)

  apply_next-Next : (n : RaftNode V S) → Ensures (Next n) (apply_next n)
  unfolding apply_next
  apply_next-Next n =
      Ensures-any (entry n.storage (n.last_applied + 1)) _
        (λ e q. Ensures-some (one_more e n) (e, q, refl))

  apply_more :
      (k : ℕ) (n n' : RaftNode V S) (e : LogEntry V)
      → snapshot_index n.storage ≤ n.last_applied
      → entry n.storage (n.last_applied + 1) ≡ some e
      → Applies k (one_more e n) n'
      → Applies (suc k) n n'
  apply_more k n n' e h q a = record {
    state = rw (entries_from-next n.storage (n.last_applied + 1) e (omega arith) q) a.state;
    applied = omega (arith, a.applied);
    commit = a.commit;
  }

  apply_entries-Applies :
      (k : ℕ) (n : RaftNode V S)
      → snapshot_index n.storage ≤ n.last_applied
      → Ensures (Applies k n) (apply_entries k n)
  unfolding apply_entries
  apply_entries-Applies zero n h =
      Ensures-some n (record { state = refl; applied = omega arith; commit = refl })
  apply_entries-Applies (suc k) n h = Ensures-bind (apply_next-Next n) (λ m x. rw x.2 (record {
    at = λ n' p.
        apply_more k n n' x.0 h x.1
          ((apply_entries-Applies k (one_more x.0 n) (omega arith)).at n' p);
  }))

  Same-refl : (n : RaftNode V S) → Same n n
  Same-refl n = (refl, refl, refl)

  Same-after :
      (n m : RaftNode V S) (o : Option (RaftNode V S))
      → Same n m
      → Ensures (Same m) o
      → Ensures (Same n) o
  Same-after n m o a h = record {
    at = λ k q. let b = h.at k q in (b.0 ∙ a.0, b.1 ∙ a.1, b.2 ∙ a.2);
  }

  resolve-Same : (n : RaftNode V S) → Same n (resolve_reads (resolve_pending n))
  unfolding resolve_reads resolve_pending
  resolve-Same n = by_leader (Same n) n.role (λ l. Same-refl n) (Same-refl n)

  capture-Same : (t : ℕ) (n : RaftNode V S) → Same n (capture t n)
  unfolding capture
  capture-Same t n =
      by_option (Same n) n.staged_snapshot
        (by_if (Same n) (leb (max t 1) (n.last_applied - snapshot_index n.storage)) (Same-refl n)
          (Same-refl n))
        (λ _. Same-refl n)

  drop_stale_capture-Same : (n : RaftNode V S) → Same n (drop_stale_capture n)
  unfolding drop_stale_capture
  drop_stale_capture-Same n =
      by_option (Same n) n.staged_snapshot (Same-refl n)
        (λ x. by_if (Same n) (leb x.0 (snapshot_index n.storage)) (Same-refl n) (Same-refl n))

  compact_staged-Same : (n : RaftNode V S) → Ensures (Same n) (compact_staged n)
  unfolding compact_staged
  compact_staged-Same n =
      Ensures-option n.staged_snapshot _ (some n) (Ensures-some n (Same-refl n)) (λ x _.
        Ensures-if (leb n.config.snapshot_trailing (n.last_applied - x.0)) _ (some n)
          (λ _.
            Ensures-any (expect (Storage.compact_to x.0 x.1 x.2 n.storage)) _
              (λ s _. Ensures-some _ (Same-refl n)))
          (λ _. Ensures-some n (Same-refl n)))

  maybe_compact-Same : (n : RaftNode V S) → Ensures (Same n) (maybe_compact n)
  unfolding maybe_compact
  maybe_compact-Same n =
      Ensures-option n.config.snapshot_threshold _ (some n) (Ensures-some n (Same-refl n)) (λ t _.
        let m = drop_stale_capture n in
        Same-after n m _ (drop_stale_capture-Same n)
          (Same-after m (capture t m) _ (capture-Same t m) (compact_staged-Same (capture t m))))

  -- The state machine has run every entry up to the commit index, once and in order.
  pub record CaughtUp (n n' : RaftNode V S) : Type 0 where
    pub state : n'.state ≡ run n.state_machine (unapplied n) n.state
    pub applied : n'.last_applied ≡ n.commit_index
    pub commit : n'.commit_index ≡ n.commit_index

  Applies-CaughtUp :
      (n m n' : RaftNode V S)
      → n.last_applied ≤ n.commit_index
      → Applies (n.commit_index - n.last_applied) n m
      → Same m n'
      → CaughtUp n n'
  Applies-CaughtUp n m n' le a b = record {
    state = b.0 ∙ a.state;
    applied = omega (arith, b.1, a.applied);
    commit = b.2 ∙ a.commit;
  }

  pub apply_committed-CaughtUp :
      (n : RaftNode V S)
      → snapshot_index n.storage ≤ n.last_applied
      → n.last_applied ≤ n.commit_index
      → Ensures (CaughtUp n) (apply_committed n)
  unfolding apply_committed
  apply_committed-CaughtUp n lo le =
      Ensures-bind (apply_entries-Applies (n.commit_index - n.last_applied) n lo) (λ m a. record {
        at = λ n' q. Applies-CaughtUp n m n' le a (
            (Same-after m (resolve_reads (resolve_pending m)) _ (resolve-Same m)
                (maybe_compact-Same (resolve_reads (resolve_pending m)))).at
              n' q);
      })

  -- On a well-formed node `apply_committed` returns a well-formed node whose state machine has run
  -- exactly the entries after the last applied one up to the commit index, each once and in order, and
  -- whose commit index is the old one.
  pub apply_committed-Applied :
      (n : RaftNode V S) → IsWf n → Returns (λ n'. IsWf n' × CaughtUp n n') (apply_committed n)
  apply_committed-Applied n w =
      Returns-both (apply_committed-IsWf n w) (apply_committed-CaughtUp n w.boundary w.ordered)
