-- ===== src/Node/Wf/Defs.antt =====
-- The invariant, and the rules by which a proof follows a handler.
use rust_kv.Base.{ℕ, ◌+◌, ◌≤◌, ◌<◌, ◌^◌, ◌≡◌, refl, Option, none, some, arith, List}
use rust_kv.Maps.{get}
use rust_kv.Outcome.{Returns}
use rust_kv.Types.{NodeId, LogIndex, Membership}
use rust_kv.Storage.{Storage, snapshot_index, last_index}
use rust_kv.Storage.Contiguous.{IsContiguous}
use rust_kv.Node.State.{
  RaftConfig, Role, follower, pre_candidate, candidate, leader, Leadership, RaftNode,
}

-- Every next index is that of an entry in the log, or of the one after it.
abbrev pub NextInLog : LogIndex → Role → Type 0
NextInLog last (leader l) =
    (peer next : ℕ) → get peer l.next_index ≡ some next → (1 ≤ next) × (next ≤ last + 1)
NextInLog last _ = Unit

pub NextInLog-mono :
    (last last' : LogIndex) (r : Role) → last ≤ last' → NextInLog last r → NextInLog last' r
NextInLog-mono last last' follower le = λ _. tt
NextInLog-mono last last' (pre_candidate _) le = λ _. tt
NextInLog-mono last last' (candidate _) le = λ _. tt
NextInLog-mono last last' (leader l) le = λ h peer next e. omega (arith, h peer next e)

module _ {V : Type 0} where
  -- A capture is of a state that has been applied.
  abbrev pub IsApplied : LogIndex → Option (LogIndex × V × Option Membership) → Type 0
  IsApplied applied none = Unit
  IsApplied applied (some (i, _, _)) = i ≤ applied

  pub record Wf (c : RaftConfig) (s : Storage V) (applied commit : LogIndex)
      (staged : Option (LogIndex × V × Option Membership)) (role : Role) : Type 0 where
    pub contiguous : IsContiguous s
    pub boundary : snapshot_index s ≤ applied
    pub ordered : applied ≤ commit
    pub committed : commit ≤ last_index s
    pub timer : c.election_timeout_min ≤ c.election_timeout_max
    pub timer_fits : c.election_timeout_max < 2 ^ 64
    pub capture : IsApplied applied staged
    pub next : NextInLog (last_index s) role

module _ {V S : Type 0} where
  abbrev pub IsWf : RaftNode V S → Type 0
  IsWf n = Wf n.config n.storage n.last_applied n.commit_index n.staged_snapshot n.role

-- A handler that does one thing on a leader and another elsewhere.
module _ {ℓ κ} {A : Type ℓ} {P : A → Type κ} where
  pub Returns-leader :
      (r : Role) (f : Leadership → Option A) (m : Option A)
      → ((l : Leadership) → r ≡ leader l → Returns P (f l))
      → Returns P m
      → Returns P (elim r [ leader l ↦ f l | _ ↦ m ])
  Returns-leader (leader l) f m hf hm = hf l refl
  Returns-leader follower f m hf hm = hm
  Returns-leader (pre_candidate _) f m hf hm = hm
  Returns-leader (candidate _) f m hf hm = hm

  pub Returns-candidate :
      (r : Role) (f : List NodeId → Option A) (m : Option A)
      → ((votes : List NodeId) → r ≡ candidate votes → Returns P (f votes))
      → Returns P m
      → Returns P (elim r [ candidate votes ↦ f votes | _ ↦ m ])
  Returns-candidate (candidate votes) f m hf hm = hf votes refl
  Returns-candidate follower f m hf hm = hm
  Returns-candidate (pre_candidate _) f m hf hm = hm
  Returns-candidate (leader _) f m hf hm = hm

  pub Returns-pre_candidate :
      (r : Role) (f : List NodeId → Option A) (m : Option A)
      → ((votes : List NodeId) → r ≡ pre_candidate votes → Returns P (f votes))
      → Returns P m
      → Returns P (elim r [ pre_candidate votes ↦ f votes | _ ↦ m ])
  Returns-pre_candidate (pre_candidate votes) f m hf hm = hf votes refl
  Returns-pre_candidate follower f m hf hm = hm
  Returns-pre_candidate (candidate _) f m hf hm = hm
  Returns-pre_candidate (leader _) f m hf hm = hm

module _ {ℓ κ μ} {A : Type ℓ} {B : Type μ} {P : A → Type κ} where
  pub Returns-option :
      (o : Option B) (f : B → Option A) (m : Option A)
      → (o ≡ none → Returns P m)
      → ((b : B) → o ≡ some b → Returns P (f b))
      → Returns P (elim o [ none ↦ m | some b ↦ f b ])
  Returns-option none f m hm hf = hm refl
  Returns-option (some b) f m hm hf = hf b refl
