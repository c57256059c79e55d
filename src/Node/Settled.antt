-- ===== src/Node/Settled.antt =====
-- What `resolve_pending` and `resolve_reads` of raft/node.rs answer, and what they leave waiting.
use rust_kv.Base.{
  ℕ, ◌*◌, ◌≤◌, ◌<◌, ◌≡◌, ◌≢◌, ◌⊎◌, refl, ◌||◌, ◌==◌, count, length, Option-cases, true, false, Bool,
  none, some, List, [], ◌∷◌, ◌++◌, arith, leb, Bool-cases, inl, inr,
}
use rust_kv.Maps.{get, keys}
use rust_kv.Types.{NodeId, LogIndex}
use rust_kv.Storage
use rust_kv.Storage.{Storage}
use rust_kv.Storage.Compaction.{has_term_iff}
use rust_kv.Node.State.{
  PendingProposal, PendingRead, leader, Leadership, Output, committed, granted, RaftNode,
}
use rust_kv.Node.Queries.{majority, is_member, peer_ids}
use rust_kv.Node.Counts.{Counts, Counts-count, count-without}
use rust_kv.Node.Quorum.{Distinct, contains_key-eq}
use rust_kv.Node.Apply.{
  outcome, settled, unsettled, resolve_pending, acks, can_grant, granted_reads, waiting_reads,
  resolve_reads, has_acked,
}

module _ {V : Type 0} where
  -- Proposals, the answers to some of them in order, and those that go on waiting. `true` is for
  -- an entry that the log still has and that is committed, `false` for one that the log does not have.
  pub data Settles (s : Storage V) (commit_index : LogIndex)
      : List PendingProposal → List (Output V) → List PendingProposal → Type 0 where
    nil : Settles s commit_index [] [] []
    commits :
        {p : PendingProposal} {ps qs : List PendingProposal} {outs : List (Output V)}
        → Storage.term s p.index ≡ some p.term
        → p.index ≤ commit_index
        → Settles s commit_index ps outs qs
        → Settles s commit_index (p ∷ ps) (committed p.committed true ∷ outs) qs
    replaced :
        {p : PendingProposal} {ps qs : List PendingProposal} {outs : List (Output V)}
        → Storage.term s p.index ≢ some p.term
        → Settles s commit_index ps outs qs
        → Settles s commit_index (p ∷ ps) (committed p.committed false ∷ outs) qs
    waits :
        {p : PendingProposal} {ps qs : List PendingProposal} {outs : List (Output V)}
        → Storage.term s p.index ≡ some p.term
        → commit_index < p.index
        → Settles s commit_index ps outs qs
        → Settles s commit_index (p ∷ ps) outs (p ∷ qs)

  answered :
      (s : Storage V) (c : LogIndex) (p : PendingProposal) (ps : List PendingProposal) (b : Bool)
      → outcome s c p ≡ some b
      → (settled s c (p ∷ ps) ≡ committed p.committed b ∷ settled s c ps)
        × (unsettled s c (p ∷ ps) ≡ unsettled s c ps)
  unfolding settled unsettled
  answered s c p ps b h = ground arith

  unanswered :
      (s : Storage V) (c : LogIndex) (p : PendingProposal) (ps : List PendingProposal)
      → outcome s c p ≡ none
      → (settled s c (p ∷ ps) ≡ settled s c ps) × (unsettled s c (p ∷ ps) ≡ p ∷ unsettled s c ps)
  unfolding settled unsettled
  unanswered s c p ps h = ground arith

  settled-Settles :
      (s : Storage V) (c : LogIndex) (ps : List PendingProposal)
      → Settles s c ps (settled s c ps) (unsettled s c ps)
  settled-Settles s c [] = unfold settled unsettled in nil
  settled-Settles s c (p ∷ ps) =
      let rest = settled-Settles s c ps in
      elim (Bool-cases (Storage.has_term s p.index p.term)) [
        | inl same ↦
            let t = (has_term_iff s p.index p.term).0 same in
            elim (Bool-cases (leb p.index c)) [
              | inl done ↦
                  let (a, b) = answered s c p ps true (unfold outcome in rw (same, done) refl) in
                  rw (a, b) (commits t (ground arith) rest)
              | inr early ↦
                  let (a, b) = unanswered s c p ps (unfold outcome in rw (same, early) refl) in
                  rw (a, b) (waits t (ground arith) rest)
            ]
        | inr other ↦
            let (a, b) = answered s c p ps false (unfold outcome in rw other refl) in
            rw (a, b) (replaced (λ t. ground (arith, (has_term_iff s p.index p.term).1 t)) rest)
      ]

module _ {V S : Type 0} where
  -- Every proposal that waits is answered `true` if the log still has its entry and the entry is
  -- committed, `false` if the log has no such entry, and waits on otherwise; the answers are sent in
  -- order behind what was sent before.
  pub resolve_pending-Settles :
      (n : RaftNode V S)
      → (outs : List (Output V)) × Settles n.storage n.commit_index n.pending outs
          (resolve_pending n).pending
        × ((resolve_pending n).outbox ≡ n.outbox ++ outs)
  unfolding resolve_pending
  resolve_pending-Settles n = (
    settled n.storage n.commit_index n.pending,
    settled-Settles n.storage n.commit_index n.pending,
    refl,
  )

  -- A member that stands behind the leader: itself, or a peer that has answered a message which was
  -- sent at the number `seq` or later.
  abbrev pub HasAcked : RaftNode V S → Leadership → ℕ → NodeId → Type 0
  HasAcked n l seq id = (id ≡ n.config.id) ⊎ ((s : ℕ) × (get id l.acked_seq ≡ some s) × (seq ≤ s))

  -- The read may be served: `k` is more than half of the members, and the state machine has what was
  -- committed when the read came.
  abbrev pub CanServe : RaftNode V S → ℕ → PendingRead → Type 0
  CanServe n k r = (length n.members < 2 * k) × (r.read_index ≤ n.last_applied)

  -- Reads, the grants of some of them in order, and those that go on waiting, each by the number of
  -- members that stand behind the leader for it.
  pub data Grants (n : RaftNode V S) (l : Leadership)
      : List PendingRead → List (Output V) → List PendingRead → Type 0 where
    nil : Grants n l [] [] []
    grants :
        {r : PendingRead} {rs qs : List PendingRead} {outs : List (Output V)} {k : ℕ}
        → Counts (HasAcked n l r.needed_seq) (keys n.members) k
        → CanServe n k r
        → Grants n l rs outs qs
        → Grants n l (r ∷ rs) (granted r.granted ∷ outs) qs
    waits :
        {r : PendingRead} {rs qs : List PendingRead} {outs : List (Output V)} {k : ℕ}
        → Counts (HasAcked n l r.needed_seq) (keys n.members) k
        → ¬ CanServe n k r
        → Grants n l rs outs qs
        → Grants n l (r ∷ rs) outs (r ∷ qs)

  stands_behind : RaftNode V S → Leadership → ℕ → NodeId → Bool
  stands_behind n l seq id = id == n.config.id || has_acked l.acked_seq seq id

  stands_behind→HasAcked :
      (n : RaftNode V S) (l : Leadership) (seq : ℕ) (id : NodeId)
      → stands_behind n l seq id ≡ true
      → HasAcked n l seq id
  unfolding stands_behind has_acked
  stands_behind→HasAcked n l seq id h = elim (Bool-cases (id == n.config.id)) [
    | inl self ↦ inl (ground (arith, self))
    | inr peer ↦ elim (Option-cases (get id l.acked_seq)) [
      | inl never ↦ absurd (ground (arith, peer, never))
      | inr (s, q) ↦ inr (s, q, ground (arith, peer, q))
    ]
  ]

  not-HasAcked :
      (n : RaftNode V S) (l : Leadership) (seq : ℕ) (id : NodeId)
      → stands_behind n l seq id ≡ false
      → ¬ HasAcked n l seq id
  unfolding stands_behind has_acked
  not-HasAcked n l seq id h (inl self) = ground (arith, self)
  not-HasAcked n l seq id h (inr (s, q, le)) = ground (arith, q, le)

  acks-Counts :
      (n : RaftNode V S) (l : Leadership) (seq : ℕ)
      → Distinct (keys n.members)
      → Counts (HasAcked n l seq) (keys n.members) (acks n l seq)
  unfolding acks is_member peer_ids stands_behind
  acks-Counts n l seq d =
      let e : acks n l seq ≡ count (stands_behind n l seq) (keys n.members) =
        rw (contains_key-eq n.config.id n.members)
          (count-without n.config.id (has_acked l.acked_seq seq) (keys n.members) d) in
      rw e (
        Counts-count (HasAcked n l seq) (stands_behind n l seq) (stands_behind→HasAcked n l seq)
          (not-HasAcked n l seq) (keys n.members))

  can_grant→CanServe :
      (n : RaftNode V S) (l : Leadership) (r : PendingRead)
      → can_grant n l r ≡ true
      → CanServe n (acks n l r.needed_seq) r
  unfolding can_grant majority
  can_grant→CanServe n l r h = ground arith

  not-CanServe :
      (n : RaftNode V S) (l : Leadership) (r : PendingRead)
      → can_grant n l r ≡ false
      → ¬ CanServe n (acks n l r.needed_seq) r
  unfolding can_grant majority
  not-CanServe n l r h k = ground arith

  granted-Grants :
      (n : RaftNode V S) (l : Leadership) (rs : List PendingRead)
      → Distinct (keys n.members)
      → Grants n l rs (granted_reads n l rs) (waiting_reads n l rs)
  unfolding granted_reads waiting_reads
  granted-Grants n l [] d = Grants.nil
  granted-Grants n l (r ∷ rs) d =
      let c = acks-Counts n l r.needed_seq d in
      elim (Bool-cases (can_grant n l r)) [
        | inl h ↦ rw h (grants c (can_grant→CanServe n l r h) (granted-Grants n l rs d))
        | inr h ↦ rw h (Grants.waits c (not-CanServe n l r h) (granted-Grants n l rs d))
      ]

  -- On a leader whose members have different ids, every waiting read is granted exactly if more than
  -- half of the members are the leader itself or peers that have answered a message sent at the number
  -- that the read needs, or later, and the state machine has reached the read's index. The others wait
  -- on, and the grants are sent in order behind what was sent before.
  pub resolve_reads-Grants :
      (n : RaftNode V S) (l : Leadership)
      → n.role ≡ leader l
      → Distinct (keys n.members)
      → (outs : List (Output V)) × (waiting : List PendingRead) × Grants n l l.pending_reads outs
          waiting
        × ((resolve_reads n).role ≡ leader (record l { pending_reads = waiting }))
        × ((resolve_reads n).outbox ≡ n.outbox ++ outs)
  unfolding resolve_reads
  resolve_reads-Grants n l h d = (
    granted_reads n l l.pending_reads,
    waiting_reads n l l.pending_reads,
    granted-Grants n l l.pending_reads d,
    ground arith,
    ground arith,
  )
