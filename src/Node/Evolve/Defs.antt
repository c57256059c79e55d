-- ===== src/Node/Evolve/Defs.antt =====
-- The order in which the states of a node follow each other, and the rules by which a proof follows a
-- handler.
use rust_kv.Base.{
  Bool, true, false, if◌then◌else◌, ◌≤◌, ◌<◌, ◌≡◌, refl, ◌∙◌, Option, none, some, List, arith,
}
use rust_kv.Outcome.{◌>>=◌, assert, Ensures, Ensures-bind, Ensures-none}
use rust_kv.Types.{NodeId, LogIndex, LogEntry, HardState}
use rust_kv.Storage.{Storage, snapshot_index, entry}
use rust_kv.Node.State.{
  RaftConfig, Role, follower, pre_candidate, candidate, leader, Leadership, RaftNode,
}

-- The term does not go back, and within a term a vote is not taken back.
pub record VoteStands (h h' : HardState) : Type 0 where
  pub term : h.current_term ≤ h'.current_term
  pub vote :
      h.current_term ≡ h'.current_term → (c : NodeId) → h.voted_for ≡ some c → h'.voted_for ≡ some c

module _ {V : Type 0} where
  -- The boundary does not go back, and the entries up to `commit` that are above the new boundary stay.
  pub record LogStands (commit : LogIndex) (s s' : Storage V) : Type 0 where
    pub boundary : snapshot_index s ≤ snapshot_index s'
    pub entries :
        (i : LogIndex) (e : LogEntry V)
        → i ≤ commit
        → snapshot_index s' < i
        → entry s i ≡ some e
        → entry s' i ≡ some e

  pub record Later (c : RaftConfig) (s : Storage V) (commit : LogIndex) (c' : RaftConfig)
      (s' : Storage V) (commit' : LogIndex) : Type 0 where
    pub config : c' ≡ c
    pub hard_state : VoteStands s.hard_state s'.hard_state
    pub log : LogStands commit s s'
    pub committed : commit ≤ commit'

pub VoteStands-refl : (h : HardState) → VoteStands h h
VoteStands-refl h = record { term = omega arith; vote = λ _ c q. q }

module _ {V : Type 0} where
  pub LogStands-refl : (commit : LogIndex) (s : Storage V) → LogStands commit s s
  LogStands-refl commit s = record { boundary = omega arith; entries = λ i e _ _ q. q }

module _ {V S : Type 0} where
  -- The node `n'` can be a later state of the node `n`.
  abbrev pub Evolves : RaftNode V S → RaftNode V S → Type 0
  Evolves n n' = Later n.config n.storage n.commit_index n'.config n'.storage n'.commit_index

  pub Evolves-refl : (n : RaftNode V S) → Evolves n n
  Evolves-refl n = record {
    config = refl;
    hard_state = VoteStands-refl n.storage.hard_state;
    log = LogStands-refl n.commit_index n.storage;
    committed = omega arith;
  }

  pub Evolves-trans : (n m k : RaftNode V S) → Evolves n m → Evolves m k → Evolves n k
  Evolves-trans n m k a b = record {
    config = b.config ∙ a.config;
    hard_state = record {
      term = omega (arith, a.hard_state.term, b.hard_state.term);
      vote = λ same c q.
          b.hard_state.vote (omega (arith, a.hard_state.term, b.hard_state.term, same)) c
            (a.hard_state.vote (omega (arith, a.hard_state.term, b.hard_state.term, same)) c q);
    };
    log = record {
      boundary = omega (arith, a.log.boundary, b.log.boundary);
      entries = λ i e le lt q.
          b.log.entries i e (omega (arith, a.committed, le)) lt
            (a.log.entries i e le (omega (arith, b.log.boundary, lt)) q);
    };
    committed = omega (arith, a.committed, b.committed);
  }

  -- A handler that goes on from where another ended.
  pub Evolves-then :
      (n : RaftNode V S) {o : Option (RaftNode V S)} {f : RaftNode V S → Option (RaftNode V S)}
      → Ensures (Evolves n) o
      → ((m : RaftNode V S) → Ensures (Evolves m) (f m))
      → Ensures (Evolves n) (o >>= f)
  Evolves-then n {f = f} a h = Ensures-bind a (λ m e. after m e)
    where
      after : (m : RaftNode V S) → Evolves n m → Ensures (Evolves n) (f m)
      after m e = record { at = λ k q. Evolves-trans n m k e ((h m).at k q) }

module _ {ℓ κ} {A : Type ℓ} {P : A → Type κ} where
  pub Ensures-leader :
      (r : Role) (f : Leadership → Option A) (m : Option A)
      → ((l : Leadership) → r ≡ leader l → Ensures P (f l))
      → Ensures P m
      → Ensures P (elim r [ leader l ↦ f l | _ ↦ m ])
  Ensures-leader (leader l) f m hf hm = hf l refl
  Ensures-leader follower f m hf hm = hm
  Ensures-leader (pre_candidate _) f m hf hm = hm
  Ensures-leader (candidate _) f m hf hm = hm

  pub Ensures-candidate :
      (r : Role) (f : List NodeId → Option A) (m : Option A)
      → ((votes : List NodeId) → Ensures P (f votes))
      → Ensures P m
      → Ensures P (elim r [ candidate votes ↦ f votes | _ ↦ m ])
  Ensures-candidate (candidate votes) f m hf hm = hf votes
  Ensures-candidate follower f m hf hm = hm
  Ensures-candidate (pre_candidate _) f m hf hm = hm
  Ensures-candidate (leader _) f m hf hm = hm

  pub Ensures-pre_candidate :
      (r : Role) (f : List NodeId → Option A) (m : Option A)
      → ((votes : List NodeId) → Ensures P (f votes))
      → Ensures P m
      → Ensures P (elim r [ pre_candidate votes ↦ f votes | _ ↦ m ])
  Ensures-pre_candidate (pre_candidate votes) f m hf hm = hf votes
  Ensures-pre_candidate follower f m hf hm = hm
  Ensures-pre_candidate (candidate _) f m hf hm = hm
  Ensures-pre_candidate (leader _) f m hf hm = hm

module _ {ℓ κ μ} {A : Type ℓ} {B : Type μ} {P : A → Type κ} where
  pub Ensures-option :
      (o : Option B) (f : B → Option A) (m : Option A)
      → Ensures P m
      → ((b : B) → o ≡ some b → Ensures P (f b))
      → Ensures P (elim o [ none ↦ m | some b ↦ f b ])
  Ensures-option none f m hm hf = hm
  Ensures-option (some b) f m hm hf = hf b refl

  -- A first step of which only the result matters.
  pub Ensures-any :
      (o : Option B) (f : B → Option A)
      → ((b : B) → o ≡ some b → Ensures P (f b))
      → Ensures P (o >>= f)
  Ensures-any none f h = Ensures-none
  Ensures-any (some b) f h = h b refl

module _ {V S : Type 0} where
  pub Evolves-after :
      (n m : RaftNode V S) {o : Option (RaftNode V S)}
      → Evolves n m
      → Ensures (Evolves m) o
      → Ensures (Evolves n) o
  Evolves-after n m e h = record { at = λ k q. Evolves-trans n m k e (h.at k q) }

-- A property of both branches.
module _ {ℓ κ} {A : Type ℓ} (P : A → Type κ) where
  pub by_if : (b : Bool) {x y : A} → P x → P y → P (if b then x else y)
  by_if true px py = px
  by_if false px py = py

  pub by_leader :
      (r : Role) {f : Leadership → A} {y : A}
      → ((l : Leadership) → P (f l))
      → P y
      → P (elim r [ leader l ↦ f l | _ ↦ y ])
  by_leader (leader l) pf py = pf l
  by_leader follower pf py = py
  by_leader (pre_candidate _) pf py = py
  by_leader (candidate _) pf py = py

module _ {ℓ κ μ} {A : Type ℓ} {B : Type μ} (P : A → Type κ) where
  pub by_option :
      (o : Option B) {f : B → A} {y : A}
      → P y
      → ((b : B) → P (f b))
      → P (elim o [ none ↦ y | some b ↦ f b ])
  by_option none py pf = py
  by_option (some b) py pf = pf b

module _ {ℓ κ μ} {A : Type ℓ} {B : Type μ} {P : A → Type κ} where
  -- Behind an assertion its condition holds.
  pub Ensures-assert :
      (b : Bool) (x : B) (f : B → Option A)
      → (b ≡ true → Ensures P (f x))
      → Ensures P (assert b x >>= f)
  Ensures-assert true x f h = h refl
  Ensures-assert false x f h = Ensures-none
