-- ===== src/Api/Reads.antt =====
-- The answers to a read.
use rust_kv.Base.{String, ◌≡◌, ◌↔◌, ◌⊎◌, Bool, true, false, Option, arith}
use rust_kv.Maps.{Map}
use rust_kv.Node.State.{Reply}
use rust_kv.Kv.Store.{KvStore, read}
use rust_kv.Service.{Awaited, elapsed, value, get_linearizable}
use rust_kv.Api.{Response, found, read_error_response, get_key}
use rust_kv.Api.Replies.{IsAccepted}

-- The status of a value that is found, or not.
abbrev pub IsFound : {V : Type 0} → Response V → Type 0
IsFound r = (r.status ≡ 200) ⊎ (r.status ≡ 404)

module _ {V : Type 0} (peer_urls : Map String) (key : String) (store : KvStore V)
    (reply : Option (Reply (Unit {0}))) (granted : Awaited (Unit {0})) where
  abbrev pub response : Bool → Response V
  response stale = get_key peer_urls stale key store (get_linearizable key reply granted store)

  pub record Serves (stale : Bool) : Type 0 where
    pub served :
        IsFound (response stale) ↔ ((stale ≡ true) ⊎ (IsAccepted reply × (granted ≡ value tt)))
    pub content : IsFound (response stale) → response stale ≡ found (read key store)
    pub timed_out :
        ((response stale).status ≡ 504) ↔ ((stale ≡ false) × IsAccepted reply × (granted ≡ elapsed))

  -- Whatever the node replies to a read and whatever comes of it: a value, or its absence, is
  -- answered exactly if the read was stale or was accepted and granted, and then it is what the
  -- store has for the key; and 504 is answered exactly if a read that is not stale was accepted and
  -- the wait ran out.
  pub get_key-Serves : (stale : Bool) → Serves stale
  unfolding get_key get_linearizable read_error_response
  get_key-Serves stale = record {
    served = ground arith;
    content = λ h. ground arith;
    timed_out = ground arith;
  }
