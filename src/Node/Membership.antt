-- ===== src/Node/Membership.antt =====
-- Log-derived membership (phase 15 of raft/node.rs).
use rust_kv.Base.{
  ℕ, not, ◌&&◌, Option, none, some, List, [], ◌∷◌, ◌++◌, ltb, ◌==◌, filter, if◌then◌else◌,
}
use mathlib.Core.List.{reverse}
use rust_kv.Maps.{Map, contains_key, keys, get_or, insert, or_insert, retain}
use rust_kv.Types.{NodeId, LogIndex, MemberAddr, Membership, LogEntry, config_change}
use rust_kv.Storage
use rust_kv.Storage.{Storage}
use rust_kv.Node.State.{RaftConfig, leader, Leadership, RaftNode}

-- The addresses of `ids`, empty where the configuration has none.
unfoldable pub bootstrap : Membership → List NodeId → Membership
bootstrap addrs [] = []
bootstrap addrs (id ∷ ids) =
    insert id (get_or (record { raft = ""; client = "" }) id addrs) (bootstrap addrs ids)

unfoldable pub bootstrap_members : RaftConfig → Membership
unfolding bootstrap
bootstrap_members c = if c.join then [] else bootstrap c.bootstrap_addrs (c.peers ++ c.id ∷ [])

module _ {V : Type 0} where
  unfoldable pub config_of : LogEntry V → Option Membership
  config_of e = elim e.command [ config_change members ↦ some members | _ ↦ none ]

  -- The search of `for entry in entries.iter().rev()`; the list is already reversed.
  unfoldable pub latest_config : List (LogEntry V) → Option (Membership × LogIndex)
  latest_config [] = none
  latest_config (e ∷ es) =
      let rest = latest_config es in
      elim (config_of e) [ none ↦ rest | some members ↦ some (members, e.index) ]

  unfoldable pub snapshot_members : Storage V → Option Membership
  snapshot_members s = elim s.snapshot [ none ↦ none | some x ↦ x.membership ]

  unfoldable pub derive_membership : Storage V → RaftConfig → Membership × LogIndex
  derive_membership s c = elim (latest_config (reverse s.log)) [
    | some found ↦ found
    | none ↦ elim (snapshot_members s) [
      | some members ↦ (members, Storage.snapshot_index s)
      | none ↦ (bootstrap_members c, 0)
    ]
  ]

module _ {V : Type 0} where
  -- The first configuration at or below `index` in a reversed log.
  unfoldable pub config_at : LogIndex → List (LogEntry V) → Option Membership
  config_at index [] = none
  config_at index (e ∷ es) =
      let rest = config_at index es in
      if ltb index e.index then rest else elim (config_of e) [ none ↦ rest | some m ↦ some m ]

-- `now` for the members that have no contact yet
unfoldable pub grace : ℕ → List NodeId → Map ℕ → Map ℕ
grace now [] contact = contact
grace now (id ∷ ids) contact = grace now ids (or_insert id now contact)

-- The members that the new configuration drops are owed the entry at `index`.
unfoldable pub depart :
    NodeId
    → Membership
    → LogIndex
    → Membership
    → Map (LogIndex × MemberAddr)
    → Map (LogIndex × MemberAddr)
depart self new index [] departing = departing
depart self new index ((id, addr) ∷ old) departing = depart self new index old (
    if not (id == self) && not (contains_key id new)
    then insert id (index, addr) departing
    else departing)

unfoldable pub departing_addrs : Map (LogIndex × MemberAddr) → Membership
departing_addrs [] = []
departing_addrs ((id, (_, addr)) ∷ rest) = (id, addr) ∷ departing_addrs rest

module _ {V S : Type 0} where
  unfoldable pub publish_membership : RaftNode V S → RaftNode V S
  publish_membership n = record n {
    membership_tx = record {
      members = n.members;
      departing = elim n.role [ leader l ↦ departing_addrs l.departing | _ ↦ [] ];
    };
  }

  unfoldable pub adopt_leadership : Membership → LogIndex → RaftNode V S → Leadership → Leadership
  adopt_leadership members index n l = record l {
    last_contact =
        grace n.now (filter (λ id. not (id == n.config.id)) (keys members)) l.last_contact;
    departing =
        retain (λ id. not (contains_key id members))
          (depart n.config.id members index n.members l.departing);
  }

  unfoldable pub adopt_membership : Membership → LogIndex → RaftNode V S → RaftNode V S
  adopt_membership members index n = publish_membership (record n {
    role = elim n.role [ leader l ↦ leader (adopt_leadership members index n l) | r ↦ r ];
    members = members;
    members_index = index;
  })

  unfoldable pub rescan_membership : RaftNode V S → RaftNode V S
  rescan_membership n =
      let (members, index) = derive_membership n.storage n.config in
      adopt_membership members index n

  unfoldable pub membership_at : LogIndex → RaftNode V S → Option Membership
  membership_at index n = elim (config_at index (reverse n.storage.log)) [
    | some members ↦ some members
    | none ↦ snapshot_members n.storage
  ]
