-- ===== src/Sim.antt =====
-- raft/transport/sim.rs: the safety observer of the simulated network. `same_command` is `==` on
-- commands.
pub mod Claims
pub mod Observed
pub mod Network
use rust_kv.Base.{
  ◌+◌, Bool, not, ◌||◌, Option, none, some, List, [], ◌∷◌, ◌++◌, ltb, ◌==◌, if◌then◌else◌,
}
use rust_kv.Maps.{Map, get, insert}
use rust_kv.Types.{NodeId, Term, LogIndex, Command, LogEntry, AppendEntriesArgs, RpcRequest}

-- The violations, which the source records as text.
pub data Violation : Type 0 where
  two_leaders : (known leader_id : NodeId) (term : Term) → Violation
  wrong_index : (index expected : LogIndex) → Violation
  wrong_term : (term : Term) (index : LogIndex) (min_term max_term : Term) → Violation
  two_commands : (term : Term) (index : LogIndex) → Violation

-- `entries_seen` is keyed by term, then by index.
pub record Observer (V : Type 0) : Type 0 where
  pub leaders_per_term : Map NodeId
  pub entries_seen : Map (Map (Command V))
  pub violations : List Violation

module _ {V : Type 0} where
  unfoldable pub report : Option Violation → Observer V → Observer V
  report v st = elim v [ none ↦ st | some w ↦ record st { violations = st.violations ++ w ∷ [] } ]

  unfoldable pub claim_leadership : Term → NodeId → Observer V → Observer V
  claim_leadership term leader_id st = elim (get term st.leaders_per_term) [
    | none ↦ record st { leaders_per_term = insert term leader_id st.leaders_per_term }
    | some known ↦
        if known == leader_id then st else report (some (two_leaders known leader_id term)) st
  ]

  -- The loop of `check_shape`, which returns at the first malformed entry.
  unfoldable pub shape_fault : Term → LogIndex → Term → List (LogEntry V) → Option Violation
  shape_fault max_term expected min_term [] = none
  shape_fault max_term expected min_term (e ∷ es) =
      let rest = shape_fault max_term (expected + 1) e.term es in
      if not (e.index == expected)
      then some (wrong_index e.index expected)
      else if ltb e.term min_term || ltb max_term e.term
      then some (wrong_term e.term e.index min_term max_term)
      else rest

  unfoldable pub check_shape : AppendEntriesArgs V → Observer V → Observer V
  check_shape args st =
      report (shape_fault args.term (args.prev_log_index + 1) args.prev_log_term args.entries) st

  unfoldable pub seen : Term → LogIndex → Map (Map (Command V)) → Option (Command V)
  seen term index m = elim (get term m) [ none ↦ none | some by_index ↦ get index by_index ]

  unfoldable pub note : Term → LogIndex → Command V → Map (Map (Command V)) → Map (Map (Command V))
  note term index c m =
      insert term (insert index c (elim (get term m) [ none ↦ [] | some by_index ↦ by_index ])) m

  module _ (same_command : Command V → Command V → Bool) where
    unfoldable pub observe_entry : LogEntry V → Observer V → Observer V
    observe_entry e st = elim (seen e.term e.index st.entries_seen) [
      | none ↦ record st { entries_seen = note e.term e.index e.command st.entries_seen }
      | some c ↦
          if same_command c e.command then st else report (some (two_commands e.term e.index)) st
    ]

    unfoldable pub observe_entries : List (LogEntry V) → Observer V → Observer V
    observe_entries [] st = st
    observe_entries (e ∷ es) st = observe_entries es (observe_entry e st)

    unfoldable pub inspect_append_entries : RpcRequest V → Observer V → Observer V
    inspect_append_entries request st = elim request [
      | RpcRequest.append_entries args ↦
          observe_entries args.entries
            (check_shape args (claim_leadership args.term args.leader_id st))
      | _ ↦ st
    ]
