-- ===== src/Config/Valid.antt =====
-- What an accepted configuration satisfies, and the Raft core's configuration made of it.
use Prim.Native.Char.{code}
use mathlib.Core.Path.{subst}
use text.Mathlib.TextBridge.{of_list}
use rust_kv.Base.{
  ℕ, String, ◌+◌, ◌-◌, ◌*◌, ◌^◌, ◌≤◌, ◌<◌, ◌≡◌, ◌∙◌, refl, true, false, Option, none, some, List,
  [], ◌∷◌, arith, any, if◌then◌else◌, ◌++◌, Bool-cases, inl, inr, ◌==◌,
}
use rust_kv.Maps.{Map, get, insert, contains_key, keys, get-insert, get_or}
use rust_kv.Types.{NodeId, MemberAddr, Membership}
use rust_kv.Node.Membership.{bootstrap, bootstrap_members}
use rust_kv.Chars.{Text, parse_digits, parse_u64}
use rust_kv.Service.{Result, ok, err}
use rust_kv.Config.{
  ConfigError, bad_peers, bad_peer_client_urls, ◌>>=◌, map_err, unwrap_or, NodeConfig,
  parse_peer_map, parse_id, parse_threshold, parse_trailing, parse_timeout, parse_join, check_self,
  from_vars, peer_addrs, raft_config_new, raft_config,
}

parse_digits-lt :
    (acc : ℕ) (t : Text) (n : ℕ) → acc < 2 ^ 64 → parse_digits acc t ≡ some n → n < 2 ^ 64
unfolding parse_digits
parse_digits-lt acc [] n lt h = ground arith
parse_digits-lt acc (c ∷ t) n lt h =
    ground (arith, parse_digits-lt (acc * 10 + (code c - b'0')) t n)

-- A number that is parsed fits 64 bits.
parse_u64-lt : (t : Text) (n : ℕ) → parse_u64 t ≡ some n → n < 2 ^ 64
unfolding parse_u64
parse_u64-lt [] n h = cc
parse_u64-lt (c ∷ []) n h = ground (arith, parse_digits-lt 0 (c ∷ []) n)
parse_u64-lt (c ∷ d ∷ t) n h =
    ground (arith, parse_digits-lt 0 (d ∷ t) n, parse_digits-lt 0 (c ∷ d ∷ t) n)

pub record IsValid (config : NodeConfig) : Type 0 where
  pub id_bound : config.id < 2 ^ 64
  pub others : contains_key config.id config.peers ≡ false
  pub threshold : (n : ℕ) → config.snapshot_threshold ≡ some n → (1 ≤ n) × (n < 2 ^ 64)
  pub trailing : config.snapshot_trailing < 2 ^ 64
  pub timeout : (1 ≤ config.rpc_timeout_ms) × (config.rpc_timeout_ms < 2 ^ 64)

-- What an accepted step gave, and that the rest accepts it.
accepted_step :
    {A : Type 0} (step : Result ConfigError A) (rest : A → Result ConfigError NodeConfig)
    {config : NodeConfig}
    → step >>= rest ≡ ok config
    → (x : A) × (rest x ≡ ok config) × (step ≡ ok x)
accepted_step (err why) rest h = cc
accepted_step (ok x) rest h = (x, h, refl)

parse_id-lt : (raw : Option Text) (n : ℕ) → parse_id raw ≡ ok n → n < 2 ^ 64
unfolding parse_id
parse_id-lt none n h = ground arith
parse_id-lt (some t) n h = ground (arith, parse_u64-lt t n)

parse_threshold_bounds :
    (raw : Option Text) (o : Option ℕ) (n : ℕ)
    → parse_threshold raw ≡ ok o
    → o ≡ some n
    → (1 ≤ n) × (n < 2 ^ 64)
unfolding parse_threshold
parse_threshold_bounds none o n h e = ground arith
parse_threshold_bounds (some t) o n h e = ground (arith, parse_u64-lt t n)

parse_trailing-lt : (raw : Option Text) (n : ℕ) → parse_trailing raw ≡ ok n → n < 2 ^ 64
unfolding parse_trailing
parse_trailing-lt none n h = ground arith
parse_trailing-lt (some t) n h = ground (arith, parse_u64-lt t n)

parse_timeout_bounds :
    (raw : Option Text) (n : ℕ) → parse_timeout raw ≡ ok n → (1 ≤ n) × (n < 2 ^ 64)
unfolding parse_timeout
parse_timeout_bounds none n h = ground arith
parse_timeout_bounds (some t) n h = ground (arith, parse_u64-lt t n)

check_self-IsValid :
    (c : NodeConfig) {config : NodeConfig}
    → check_self c ≡ ok config
    → (contains_key c.id c.peers ≡ false → IsValid c)
    → IsValid config
unfolding check_self
check_self-IsValid c h v = elim (Bool-cases (contains_key c.id c.peers)) [
  | inl q ↦ absurd (ground arith)
  | inr q ↦ subst (λ (x : NodeConfig). IsValid x) (ground arith) (v q)
]

-- Whatever the variables are, an accepted configuration does not list the node among its peers, its
-- snapshot threshold and its timeout are at least 1, and the node's id, the threshold, the trailing
-- count and the timeout fit 64 bits.
pub from_vars-IsValid :
    (var : String → Option Text) {config : NodeConfig} → from_vars var ≡ ok config → IsValid config
unfolding from_vars
from_vars-IsValid var {config} h =
    let (id, h1, e1) = accepted_step (parse_id (var "RUSTKV_NODE_ID")) _ h in
    let (peers, h2, e2) =
      accepted_step (map_err bad_peers (parse_peer_map (unwrap_or [] (var "RUSTKV_PEERS")))) _ h1 in
    let (urls, h3, e3) =
      accepted_step
        (map_err bad_peer_client_urls
          (parse_peer_map (unwrap_or [] (var "RUSTKV_PEER_CLIENT_URLS"))))
        _ h2 in
    let (t, h4, e4) = accepted_step (parse_threshold (var "RUSTKV_SNAPSHOT_THRESHOLD")) _ h3 in
    let (r, h5, e5) = accepted_step (parse_trailing (var "RUSTKV_SNAPSHOT_TRAILING")) _ h4 in
    let (ms, h6, e6) = accepted_step (parse_timeout (var "RUSTKV_RPC_TIMEOUT_MS")) _ h5 in
    let (j, h7, e7) = accepted_step (parse_join (var "RUSTKV_JOIN")) _ h6 in
    check_self-IsValid _ h7 (λ others. record {
      id_bound = parse_id-lt (var "RUSTKV_NODE_ID") id e1;
      others = others;
      threshold = λ n e. parse_threshold_bounds (var "RUSTKV_SNAPSHOT_THRESHOLD") t n e4 e;
      trailing = parse_trailing-lt (var "RUSTKV_SNAPSHOT_TRAILING") r e5;
      timeout = parse_timeout_bounds (var "RUSTKV_RPC_TIMEOUT_MS") ms e6;
    })

abbrev pub self_addr : NodeConfig → MemberAddr
self_addr config = record {
  raft = of_list config.advertise_raft_addr;
  client = of_list config.advertise_client_url;
}

-- A peer's addresses; the client URL may be missing.
abbrev pub peer_addr : NodeConfig → NodeId → Option Text → Option MemberAddr
peer_addr config id none = none
peer_addr config id (some raft) = some (record {
  raft = of_list raft;
  client = of_list (unwrap_or [] (get id config.peer_client_urls));
})

get-peer_addrs :
    (config : NodeConfig) (peers : Map Text) (id : NodeId)
    → get id (peer_addrs config.peer_client_urls peers) ≡ peer_addr config id (get id peers)
unfolding peer_addrs get
get-peer_addrs config [] id = refl
get-peer_addrs config ((j, raft) ∷ peers) id = ground (
  arith,
  get-insert j id
      (record {
        raft = of_list raft;
        client = of_list (unwrap_or [] (get j config.peer_client_urls));
      })
      (peer_addrs config.peer_client_urls peers),
  get-peer_addrs config peers id,
)

abbrev no_addr : MemberAddr
no_addr = record { raft = ""; client = "" }

get-bootstrap :
    (addrs : Membership) (ids : List NodeId) (id : NodeId)
    → get id (bootstrap addrs ids)
      ≡ (if any (λ j. id == j) ids then some (get_or no_addr id addrs) else none)
unfolding bootstrap
get-bootstrap addrs [] id = unfold get in refl
get-bootstrap addrs (j ∷ ids) id = ground (
  arith,
  get-insert j id (get_or no_addr j addrs) (bootstrap addrs ids),
  get-bootstrap addrs ids id,
)

-- `id` is a key, or the one behind the keys.
any-keys :
    (m : Map Text) (id last : NodeId)
    → any (λ j. id == j) (keys m ++ last ∷ []) ≡ (if id == last then true else contains_key id m)
unfolding keys get
any-keys [] id last = ground arith
any-keys ((j, v) ∷ m) id last = ground (arith, any-keys m id last)

-- The members with which a node starts from a configuration that does not join, where the log
-- and the snapshot have none: itself with the addresses that it advertises, its peers with their
-- addresses, and nobody else.
pub bootstrap_members-raft_config :
    (config : NodeConfig) (id : NodeId)
    → config.join ≡ false
    → get id (bootstrap_members (raft_config config)) ≡ (
        if id == config.id
        then some (self_addr config)
        else peer_addr config id (get id config.peers))
unfolding bootstrap_members raft_config raft_config_new
bootstrap_members-raft_config config id j =
    let addrs =
      insert config.id (self_addr config) (peer_addrs config.peer_client_urls config.peers) in
    rw j (
      get-bootstrap addrs (keys config.peers ++ config.id ∷ []) id
      ∙ ground (
        arith,
        any-keys config.peers id config.id,
        get-insert config.id id (self_addr config)
            (peer_addrs config.peer_client_urls config.peers),
        get-peer_addrs config config.peers id,
      ))
