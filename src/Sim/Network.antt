-- ===== src/Sim/Network.antt =====
-- The simulated network of raft/transport/sim.rs. Durations are microseconds and timers are exact, and `P` stands for the
-- probabilities: `unit_lt z p` compares the 53 bits `z` as a fraction of 2^53 with `p`, in `f64`.
pub mod Delivery
use rust_kv.Base.{
  ℕ, ◌+◌, ◌/◌, ◌^◌, Bool, true, false, not, ◌&&◌, ◌||◌, Option, none, some, List, [], ◌∷◌, ◌++◌,
  leb, ◌==◌, any, if◌then◌else◌,
}
use rust_kv.Maps.{member, add}
use rust_kv.Outcome.{◌>>=◌}
use rust_kv.Rng
use rust_kv.Rng.{SplitMix64, next_u64, next_range}
use rust_kv.Types.{
  NodeId, Command, RpcRequest, RpcResponse, RpcResult, ok, err, unreachable, timeout,
}
use rust_kv.Sim.{Observer, Violation, inspect_append_entries}

pub record FaultConfig (P : Type 0) : Type 0 where
  pub min_delay : ℕ
  pub max_delay : ℕ
  pub drop_probability : P
  pub duplicate_probability : P
  pub rpc_timeout : ℕ

-- `State`; the fields of the observer are one record.
pub record SimState (V P : Type 0) : Type 0 where
  pub rng : SplitMix64
  pub config : FaultConfig P
  pub nodes : List NodeId
  pub blocked : List (NodeId × NodeId)
  pub observer : Observer V

-- What is drawn for one send. `target` tells whether the node is registered.
pub record SendPlan : Type 0 where
  pub target : Bool
  pub req_blocked : Bool
  pub req_dropped : Bool
  pub req_delay : ℕ
  pub resp_dropped : Bool
  pub resp_delay : ℕ
  pub req_duplicated : Bool
  pub dup_delay : ℕ
  pub rpc_timeout : ℕ

-- What the rest of the world does with one send: whether the peer's inbox is open when the primary copy
-- and when the duplicate gets there, the answer of its handler and the time that it takes, and whether
-- the way back is blocked then.
pub record World : Type 0 where
  pub inbox_open : Bool
  pub dup_inbox_open : Bool
  pub reply : Option (ℕ × RpcResponse)
  pub reply_blocked : Bool

-- The sender's result, and when copies of the request reach the peer's inbox.
pub record Sent : Type 0 where
  pub result : RpcResult
  pub copies : List ℕ

abbrev pub same_link : NodeId × NodeId → NodeId × NodeId → Bool
same_link a b = a.0 == b.0 && a.1 == b.1

abbrev pub is_blocked : NodeId → NodeId → List (NodeId × NodeId) → Bool
is_blocked from to links = any (same_link (from, to)) links

unfoldable pub without : NodeId × NodeId → List (NodeId × NodeId) → List (NodeId × NodeId)
without l [] = []
without l (x ∷ xs) = let rest = without l xs in if same_link l x then rest else x ∷ rest

module _ {V P : Type 0} where
  unfoldable pub new : ℕ → FaultConfig P → SimState V P
  unfolding Rng.new
  new seed config = record {
    rng = Rng.new seed;
    config = config;
    nodes = [];
    blocked = [];
    observer = record { leaders_per_term = []; entries_seen = []; violations = [] };
  }

  unfoldable pub register : NodeId → SimState V P → SimState V P
  register id st = record st { nodes = add id st.nodes }

  unfoldable pub set_link_blocked : NodeId → NodeId → Bool → SimState V P → SimState V P
  unfolding without
  set_link_blocked from to true st = record st {
    blocked = if is_blocked from to st.blocked then st.blocked else (from, to) ∷ st.blocked;
  }
  set_link_blocked from to false st = record st { blocked = without (from, to) st.blocked }

  unfoldable pub set_pair_blocked : NodeId → NodeId → Bool → SimState V P → SimState V P
  unfolding set_link_blocked
  set_pair_blocked a b blocked st = set_link_blocked b a blocked (set_link_blocked a b blocked st)

  unfoldable pub set_fault_config : FaultConfig P → SimState V P → SimState V P
  set_fault_config config st = record st { config = config }

  unfoldable pub safety_violations : SimState V P → List Violation
  safety_violations st = st.observer.violations

unfoldable pub draw_delay : {P : Type 0} → FaultConfig P → SplitMix64 → Option (ℕ × SplitMix64)
draw_delay cfg rng =
    if leb (2 ^ 64) cfg.min_delay || leb (2 ^ 64) cfg.max_delay
    then none
    else next_range rng cfg.min_delay cfg.max_delay

-- The exchange of the primary copy: `none` waits forever, and `some` is when it ends, and how.
unfoldable pub exchange : SendPlan → World → Option (ℕ × RpcResponse)
exchange plan w =
    if plan.req_blocked || plan.req_dropped || not w.inbox_open then none else elim w.reply [
      | none ↦ none
      | some (time, resp) ↦
          if plan.resp_dropped || w.reply_blocked
          then none
          else some (plan.req_delay + time + plan.resp_delay, resp)
    ]

-- The timeout drops the exchange, and the primary copy with it where that is still waiting.
unfoldable pub primary_copy : SendPlan → World → List ℕ
primary_copy plan w =
    if not (plan.req_blocked || plan.req_dropped)
      && w.inbox_open
      && leb plan.req_delay plan.rpc_timeout
    then plan.req_delay ∷ []
    else []

unfoldable pub duplicate_copy : SendPlan → World → List ℕ
duplicate_copy plan w =
    if plan.req_duplicated && not plan.req_blocked && w.dup_inbox_open
    then plan.dup_delay ∷ []
    else []

-- `send` behind the plan
unfoldable pub deliver : NodeId → SendPlan → World → Sent
unfolding exchange primary_copy duplicate_copy
deliver to plan w =
    if plan.target
    then record {
      result = elim (exchange plan w) [
        | none ↦ err timeout
        | some (time, resp) ↦ if leb time plan.rpc_timeout then ok resp else err timeout
      ];
      copies = primary_copy plan w ++ duplicate_copy plan w;
    }
    else record { result = err (unreachable to); copies = [] }

module _ {V P : Type 0} (unit_lt : ℕ → P → Bool) (same_command : Command V → Command V → Bool) where
  unfoldable pub next_bool : P → SplitMix64 → Bool × SplitMix64
  next_bool p rng = let (z, rng') = next_u64 rng in (unit_lt (z / 2 ^ 11) p, rng')

  -- The critical section of `send`: the observer looks at the request, and everything is drawn.
  unfoldable pub plan_send :
      NodeId → NodeId → RpcRequest V → SimState V P → Option (SendPlan × SimState V P)
  unfolding next_bool draw_delay inspect_append_entries
  plan_send from to req st = do
    let cfg = st.config
    let (req_dropped, r1) = next_bool cfg.drop_probability st.rng
    d1 ← draw_delay cfg r1
    let (resp_dropped, r2) = next_bool cfg.drop_probability d1.1
    d2 ← draw_delay cfg r2
    let (req_duplicated, r3) = next_bool cfg.duplicate_probability d2.1
    d3 ← draw_delay cfg r3
    some (
      record {
        target = member to st.nodes;
        req_blocked = is_blocked from to st.blocked;
        req_dropped = req_dropped;
        req_delay = d1.0;
        resp_dropped = resp_dropped;
        resp_delay = d2.0;
        req_duplicated = req_duplicated;
        dup_delay = d3.0;
        rpc_timeout = cfg.rpc_timeout;
      },
      record st { rng = d3.1; observer = inspect_append_entries same_command req st.observer },
    )

  -- `Transport::send`
  unfoldable pub send :
      NodeId → NodeId → RpcRequest V → World → SimState V P → Option (Sent × SimState V P)
  unfolding plan_send deliver
  send from to req w st = do p ← plan_send from to req st; some (deliver to p.0 w, p.1)
