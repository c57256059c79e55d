-- ===== src/Service.antt =====
-- kv.rs, with the sending side of raft/node.rs: what a client of the node is told. The node's answer
-- is `none` where the node is gone before it answers.
use rust_kv.Base.{String, Bool, true, false, Option, none, some}
use rust_kv.Types.{NodeId, Term, LogIndex}
use rust_kv.Node.State.{ProposeError, Reply, accepted, rejected}
use rust_kv.Kv.Store.{KvStore, read}

pub data WriteError : Type 0 where
  not_leader : (leader_hint : Option NodeId) → WriteError
  timeout : WriteError
  superseded : WriteError
  invalid_config : (reason : String) → WriteError
  shutdown : WriteError

pub data ReadError : Type 0 where
  not_leader : (leader_hint : Option NodeId) → ReadError
  timeout : ReadError
  retry : ReadError
  shutdown : ReadError

pub data Result (E A : Type 0) : Type 0 where
  ok : A → Result E A
  err : E → Result E A

-- `tokio::time::timeout(…, receiver)`: the time runs out, the sender is dropped, or a value comes.
pub data Awaited (A : Type 0) : Type 0 where
  elapsed : Awaited A
  dropped : Awaited A
  value : A → Awaited A

-- `RaftHandle::propose` and `RaftHandle::read`
unfoldable pub handle_reply : {A : Type 0} → Option (Reply A) → Reply A
handle_reply none = rejected ProposeError.shutdown
handle_reply (some r) = r

unfoldable pub write_outcome : Awaited Bool → Result WriteError (Unit {0})
write_outcome elapsed = err WriteError.timeout
write_outcome dropped = err WriteError.shutdown
write_outcome (value true) = ok tt
write_outcome (value false) = err WriteError.superseded

unfoldable pub write_refusal : ProposeError → WriteError
write_refusal (ProposeError.not_leader hint) = WriteError.not_leader hint
write_refusal (ProposeError.invalid_config_change reason) = WriteError.invalid_config reason
write_refusal ProposeError.shutdown = WriteError.shutdown

-- `KvNode::write` on the node's reply and on what comes of the proposal.
unfoldable pub write :
    Option (Reply (Term × LogIndex)) → Awaited Bool → Result WriteError (Unit {0})
unfolding handle_reply write_outcome write_refusal
write reply committed = elim (handle_reply reply) [
  | rejected e ↦ err (write_refusal e)
  | accepted _ ↦ write_outcome committed
]

unfoldable pub read_refusal : ProposeError → ReadError
read_refusal (ProposeError.not_leader hint) = ReadError.not_leader hint
read_refusal (ProposeError.invalid_config_change reason) = ReadError.retry
read_refusal ProposeError.shutdown = ReadError.shutdown

unfoldable pub read_outcome :
    {V : Type 0} → String → Awaited (Unit {0}) → KvStore V → Result ReadError (Option V)
read_outcome key elapsed store = err ReadError.timeout
read_outcome key dropped store = err ReadError.retry
read_outcome key (value _) store = ok (read key store)

-- `KvNode::get_linearizable`, over the store as it is when the read is granted.
unfoldable pub get_linearizable :
    {V : Type 0}
    → String
    → Option (Reply (Unit {0}))
    → Awaited (Unit {0})
    → KvStore V
    → Result ReadError (Option V)
unfolding handle_reply read_outcome read_refusal
get_linearizable key reply granted store = elim (handle_reply reply) [
  | rejected e ↦ err (read_refusal e)
  | accepted _ ↦ read_outcome key granted store
]
