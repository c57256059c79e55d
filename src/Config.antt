-- ===== src/Config.antt =====
-- config.rs: a node's configuration from environment variables, and what main.rs makes of it for the
-- Raft core. The errors stand for the texts that the code formats.
pub mod Peers
pub mod Valid
use text.Mathlib.Text.{◌==◌ as str_eq}
use text.Mathlib.TextBridge.{of_list}
use rust_kv.Base.{
  ℕ, String, ◌*◌, Bool, true, false, ◌||◌, Option, none, some, List, [], ◌∷◌, ◌++◌, leb, ◌==◌, map,
  filter, not, if◌then◌else◌,
}
use rust_kv.Maps.{Map, get, insert, contains_key, keys}
use rust_kv.Types.{NodeId, MemberAddr, Membership}
use rust_kv.Node.State.{RaftConfig}
use rust_kv.Chars.{Text, chars, trim, is_empty, split, split_once, parse_u64}
use rust_kv.Service.{Result, ok, err}

pub data PeerMapError : Type 0 where
  no_value : (entry : Text) → PeerMapError
  bad_id : (entry : Text) → PeerMapError
  duplicate : NodeId → PeerMapError

pub data ConfigError : Type 0 where
  bad_node_id : Text → ConfigError
  bad_peers : PeerMapError → ConfigError
  bad_peer_client_urls : PeerMapError → ConfigError
  bad_threshold : Text → ConfigError
  bad_trailing : Text → ConfigError
  bad_timeout : Text → ConfigError
  bad_join : Text → ConfigError
  contains_self : NodeId → ConfigError

infixl 5 ◌>>=◌
abbrev pub ◌>>=◌ : {E A B : Type 0} → Result E A → (A → Result E B) → Result E B
ok a >>= f = f a
err e >>= f = err e

abbrev pub map_err : {E F A : Type 0} → (E → F) → Result E A → Result F A
map_err f (ok a) = ok a
map_err f (err e) = err (f e)

pub record NodeConfig : Type 0 where
  pub id : NodeId
  pub listen : Text
  pub raft_listen : Text
  pub data_dir : Text
  pub peers : Map Text
  pub peer_client_urls : Map Text
  pub snapshot_threshold : Option ℕ
  pub snapshot_trailing : ℕ
  pub join : Bool
  pub rpc_timeout_ms : ℕ
  pub advertise_raft_addr : Text
  pub advertise_client_url : Text

-- One entry of the map, trimmed and not empty.
unfoldable pub parse_peer : Text → Result PeerMapError (NodeId × Text)
unfolding split_once parse_u64
parse_peer entry = elim (split_once b'=' entry) [
  | none ↦ err (no_value entry)
  | some (id, value) ↦ elim (parse_u64 (trim id)) [
    | none ↦ err (bad_id entry)
    | some n ↦ ok (n, trim value)
  ]
]

-- the loop of `parse_peer_map`
unfoldable pub add_peers : List Text → Map Text → Result PeerMapError (Map Text)
unfolding parse_peer
add_peers [] m = ok m
add_peers (entry ∷ entries) m = do
  p ← parse_peer entry
  let rest = add_peers entries (insert p.0 p.1 m)
  if contains_key p.0 m then err (duplicate p.0) else rest

unfoldable pub parse_peer_map : Text → Result PeerMapError (Map Text)
unfolding add_peers split
parse_peer_map raw =
    add_peers (filter (λ e. not (is_empty e)) (map (λ e. trim e) (split b',' raw))) []

abbrev pub unwrap_or : {A : Type 0} → A → Option A → A
unwrap_or d none = d
unwrap_or d (some a) = a

unfoldable pub parse_id : Option Text → Result ConfigError NodeId
parse_id none = ok 1
parse_id (some raw) = elim (parse_u64 raw) [ none ↦ err (bad_node_id raw) | some n ↦ ok n ]

unfoldable pub parse_threshold : Option Text → Result ConfigError (Option ℕ)
parse_threshold none = ok none
parse_threshold (some raw) = elim (parse_u64 raw) [
  | none ↦ err (bad_threshold raw)
  | some n ↦ if leb 1 n then ok (some n) else err (bad_threshold raw)
]

unfoldable pub parse_trailing : Option Text → Result ConfigError ℕ
parse_trailing none = ok 0
parse_trailing (some raw) = elim (parse_u64 raw) [ none ↦ err (bad_trailing raw) | some n ↦ ok n ]

unfoldable pub parse_timeout : Option Text → Result ConfigError ℕ
parse_timeout none = ok 150
parse_timeout (some raw) = elim (parse_u64 raw) [
  | none ↦ err (bad_timeout raw)
  | some n ↦ if leb 1 n then ok n else err (bad_timeout raw)
]

abbrev pub text_is : Text → String → Bool
text_is t s = str_eq (of_list t) s

unfoldable pub parse_join : Option Text → Result ConfigError Bool
parse_join none = ok false
parse_join (some raw) =
    if text_is raw "" || text_is raw "0" || text_is raw "false"
    then ok false
    else if text_is raw "1" || text_is raw "true"
    then ok true
    else err (bad_join raw)

-- The check behind the record.
unfoldable pub check_self : NodeConfig → Result ConfigError NodeConfig
check_self config =
    if contains_key config.id config.peers then err (contains_self config.id) else ok config

-- `from_vars`; `var name` is the variable's value.
unfoldable pub from_vars : (String → Option Text) → Result ConfigError NodeConfig
unfolding parse_peer_map parse_id parse_threshold parse_trailing parse_timeout parse_join check_self
from_vars var = do
  id ← parse_id (var "RUSTKV_NODE_ID")
  let listen = unwrap_or (chars "127.0.0.1:8080") (var "RUSTKV_LISTEN")
  let raft_listen = unwrap_or (chars "127.0.0.1:9080") (var "RUSTKV_RAFT_LISTEN")
  peers ← map_err bad_peers (parse_peer_map (unwrap_or [] (var "RUSTKV_PEERS")))
  peer_client_urls ←
      map_err bad_peer_client_urls (parse_peer_map (unwrap_or [] (var "RUSTKV_PEER_CLIENT_URLS")))
  snapshot_threshold ← parse_threshold (var "RUSTKV_SNAPSHOT_THRESHOLD")
  snapshot_trailing ← parse_trailing (var "RUSTKV_SNAPSHOT_TRAILING")
  rpc_timeout_ms ← parse_timeout (var "RUSTKV_RPC_TIMEOUT_MS")
  join ← parse_join (var "RUSTKV_JOIN")
  check_self (record {
    id = id;
    listen = listen;
    raft_listen = raft_listen;
    data_dir = unwrap_or (chars "./rustkv-data") (var "RUSTKV_DATA_DIR");
    peers = peers;
    peer_client_urls = peer_client_urls;
    snapshot_threshold = snapshot_threshold;
    snapshot_trailing = snapshot_trailing;
    join = join;
    rpc_timeout_ms = rpc_timeout_ms;
    advertise_raft_addr = unwrap_or raft_listen (var "RUSTKV_ADVERTISE_RAFT_ADDR");
    advertise_client_url =
        unwrap_or (chars "http://" ++ listen) (var "RUSTKV_ADVERTISE_CLIENT_URL");
  })

-- `RaftConfig::new`, in microseconds
unfoldable pub raft_config_new : NodeId → List NodeId → RaftConfig
raft_config_new id peers = record {
  id = id;
  peers = peers;
  election_timeout_min = 150 * 1000;
  election_timeout_max = 300 * 1000;
  heartbeat_interval = 50 * 1000;
  timeout_seed = id;
  snapshot_threshold = none;
  snapshot_trailing = 0;
  bootstrap_addrs = [];
  join = false;
  test_disable_reconfig_gates = false;
}

-- The addresses of the other members, as `main` collects them.
unfoldable pub peer_addrs : Map Text → Map Text → Membership
peer_addrs urls [] = []
peer_addrs urls ((id, raft) ∷ peers) =
    insert id (record { raft = of_list raft; client = of_list (unwrap_or [] (get id urls)) })
      (peer_addrs urls peers)

-- `main`, up to `RaftNode::spawn`. The keys of a map stand in ascending order.
unfoldable pub raft_config : NodeConfig → RaftConfig
unfolding raft_config_new peer_addrs
raft_config config = record (raft_config_new config.id (keys config.peers)) {
  snapshot_threshold = config.snapshot_threshold;
  snapshot_trailing = config.snapshot_trailing;
  join = config.join;
  bootstrap_addrs =
      insert config.id
        (record {
          raft = of_list config.advertise_raft_addr;
          client = of_list config.advertise_client_url;
        })
        (peer_addrs config.peer_client_urls config.peers);
}
