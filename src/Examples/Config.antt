-- ===== src/Examples/Config.antt =====
-- The configuration from a few variables.
use text.Mathlib.Text.{◌==◌ as str_eq}
use rust_kv.Base.{String, ◌≡◌, refl, false, Option, none, some, [], ◌∷◌, ◌==◌, if◌then◌else◌}
use rust_kv.Maps.{get}
use rust_kv.Node.Membership.{bootstrap_members}
use rust_kv.Chars.{Text, chars, parse_digits, parse_u64, is_whitespace, trim_start, trim_end}
use rust_kv.Service.{ok}
use rust_kv.Config.{NodeConfig, parse_peer_map, from_vars, raft_config}
use rust_kv.Config.Valid.{
  IsValid, from_vars-IsValid, self_addr, peer_addr, bootstrap_members-raft_config,
}
use rust_kv.Config.Peers.{Peer, render, insert_all, parse_peer_map-render}

abbrev vars : String → Option Text
vars name =
    if str_eq name "RUSTKV_PEERS"
    then some (chars " 2=b:1, 3=c:1")
    else if str_eq name "RUSTKV_SNAPSHOT_THRESHOLD"
    then some (chars "1000")
    else none

abbrev config : NodeConfig
config = record {
  id = 1;
  listen = chars "127.0.0.1:8080";
  raft_listen = chars "127.0.0.1:9080";
  data_dir = chars "./rustkv-data";
  peers = (2, chars "b:1") ∷ (3, chars "c:1") ∷ [];
  peer_client_urls = [];
  snapshot_threshold = some 1000;
  snapshot_trailing = 0;
  join = false;
  rpc_timeout_ms = 150;
  advertise_raft_addr = chars "127.0.0.1:9080";
  advertise_client_url = chars "http://127.0.0.1:8080";
}

accepted : from_vars vars ≡ ok config
unfolding from_vars parse_digits is_whitespace get rust_kv.Maps.insert trim_start trim_end parse_u64
accepted = refl

from_vars-IsValid_example : IsValid config
from_vars-IsValid_example = from_vars-IsValid vars accepted

bootstrap_members-raft_config_example :
    get 2 (bootstrap_members (raft_config config))
    ≡ (if 2 == config.id then some (self_addr config) else peer_addr config 2 (get 2 config.peers))
bootstrap_members-raft_config_example = bootstrap_members-raft_config config 2 refl

parses : parse_u64 (chars "+07") ≡ some 7
unfolding parse_u64 parse_digits
parses = refl

trimmed : (trim_start (chars "h:1") ≡ chars "h:1") × (trim_end (chars "h:1") ≡ chars "h:1")
unfolding trim_start trim_end is_whitespace
trimmed = (refl, refl)

abbrev peer : Peer
peer = record {
  id_text = chars "+07";
  id = 7;
  value = chars "h:1";
  parses = parses;
  one_entry = (refl, (refl, (refl, tt)));
  trimmed = trimmed;
}

parse_peer_map-render_example :
    parse_peer_map (render (peer ∷ peer ∷ [])) ≡ insert_all (peer ∷ peer ∷ []) []
parse_peer_map-render_example = parse_peer_map-render (peer ∷ peer ∷ [])
