-- ===== src/Kv/Store.antt =====
-- `KvStore` of store.rs: the map, the sessions table, and the `StateMachine` that they implement.
-- `V` is `serde_json::Value`.
use rust_kv.Base.{String, Bool, true, false, Option, none, some, [], if◌then◌else◌}
use rust_kv.Maps.{Map, get, insert}
use rust_kv.Types.{Session, Command, put, delete, noop, config_change, LogEntry}
use rust_kv.Node.State.{StateMachine}
use rust_kv.Kv.Dict
use rust_kv.Kv.Dict.{Dict}
use rust_kv.Kv.Session.{SessionState, new, contains, record_seq}

-- `KvSnapshot` has the same two fields as the store, and is one type with it here.
pub record KvStore (V : Type 0) : Type 0 where
  pub map : Dict V
  pub sessions : Map SessionState

-- serde's encoding of a `KvSnapshot` as a JSON value.
pub record Codec (V : Type 0) : Type 0 where
  pub to_value : KvStore V → V
  pub from_value : V → Option (KvStore V)

module _ {V : Type 0} where
  unfoldable pub empty : KvStore V
  empty = record { map = []; sessions = [] }

  unfoldable pub read : String → KvStore V → Option V
  read key s = Dict.get key s.map

  unfoldable pub write : String → V → KvStore V → KvStore V
  write key value s = record s { map = Dict.insert key value s.map }

  -- `delete`, which also tells whether the key was there
  unfoldable pub erase : String → KvStore V → Bool × KvStore V
  unfolding read
  erase key s =
      (elim (read key s) [ none ↦ false | some _ ↦ true ], record s { map = Dict.remove key s.map })

  unfoldable pub already_applied : Option Session → KvStore V → Bool
  already_applied session s = elim session [
    | none ↦ false
    | some t ↦ elim (get t.client s.sessions) [ none ↦ false | some st ↦ contains st t.seq ]
  ]

  unfoldable pub record_applied : Option Session → KvStore V → KvStore V
  record_applied session s = elim session [
    | none ↦ s
    | some t ↦ record s {
      sessions =
          insert t.client
            (elim (get t.client s.sessions) [ none ↦ new t.seq | some st ↦ record_seq t.seq st ])
            s.sessions;
    }
  ]

  -- `apply` on the command of an entry
  unfoldable pub apply_command : Command V → KvStore V → KvStore V
  apply_command (put key value session) s =
      if already_applied session s then s else record_applied session (write key value s)
  apply_command (delete key session) s =
      if already_applied session s then s else record_applied session ((erase key s).1)
  apply_command noop s = s
  apply_command (config_change members) s = s

  unfoldable pub apply : LogEntry V → KvStore V → KvStore V
  apply e s = apply_command e.command s

  abbrev pub machine : Codec V → StateMachine V (KvStore V)
  machine codec = record { apply = apply; snapshot = codec.to_value; restore = codec.from_value }
