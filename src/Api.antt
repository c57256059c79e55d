-- ===== src/Api.antt =====
-- api.rs: the handlers of the client's HTTP requests. axum's extractors and serde_json's parsing come
-- before them: a handler gets a body that is parsed or not, and a header that is text or not.
pub mod Replies
pub mod Reads
pub mod Members
use rust_kv.Base.{ℕ, String, Bool, true, false, Option, none, some, if◌then◌else◌}
use Prim.Native.String.{◌++◌ as str_append}
use rust_kv.Maps.{Map, get, insert, remove, contains_key}
use rust_kv.Types.{NodeId, Session, MemberAddr, Membership, Command, put, delete, config_change}
use rust_kv.Node.State.{Status}
use rust_kv.Chars.{chars, parse_u64}
use rust_kv.Service.{WriteError, ReadError, Result, ok, err}
use rust_kv.Kv.Store.{KvStore, read}

pub data Body (V : Type 0) : Type 0 where
  empty : Body V
  message : String → Body V
  json : V → Body V
  status_body : Status → Body V
  members_body : Membership → Body V

pub record Response (V : Type 0) : Type 0 where
  pub status : ℕ
  pub location : Option String
  pub body : Body V

-- A handler answers at once, or hands a command to the node and answers by what comes of it.
pub data Handled (V : Type 0) : Type 0 where
  done : Response V → Handled V
  propose : Command V → (Result WriteError (Unit {0}) → Response V) → Handled V

-- The answer, where `write` is what becomes of each command.
unfoldable pub finish :
    {V : Type 0} → (Command V → Result WriteError (Unit {0})) → Handled V → Response V
finish write (done r) = r
finish write (propose c k) = k (write c)

-- `s.parse::<u64>()` on a header's value, which may be no text
abbrev pub header_value : Option (Option String) → Option (Option ℕ)
header_value none = none
header_value (some none) = some none
header_value (some (some s)) = some (parse_u64 (chars s))

abbrev pub not_integers : String
not_integers = "X-Client-Id and X-Client-Seq must be unsigned integers\n"

abbrev pub not_together : String
not_together = "X-Client-Id and X-Client-Seq must be provided together\n"

-- The `match` on the two headers.
unfoldable pub session_of : Option (Option ℕ) → Option (Option ℕ) → Result String (Option Session)
session_of none none = ok none
session_of (some (some client)) (some (some seq)) =
    ok (some (record { client = client; seq = seq }))
session_of (some none) seq = err not_integers
session_of none (some none) = err not_integers
session_of (some (some client)) (some none) = err not_integers
session_of (some (some client)) none = err not_together
session_of none (some (some seq)) = err not_together

-- `headers.get(name)`, with `none` inside for a value that is not text.
abbrev pub Headers : Type 0
Headers = String → Option (Option String)

unfoldable pub session_from_headers : Headers → Result String (Option Session)
unfolding session_of parse_u64
session_from_headers headers =
    session_of (header_value (headers "x-client-id")) (header_value (headers "x-client-seq"))

-- `format!("{base}/{path}")`
abbrev pub joined : String → String → String
joined base path = str_append base (str_append "/" path)

module _ {V : Type 0} where
  abbrev pub plain : ℕ → Response V
  plain status = record { status = status; location = none; body = empty }

  abbrev pub say : ℕ → String → Response V
  say status text' = record { status = status; location = none; body = message text' }

  -- 307 to the leader's client URL, if we know who and where it is.
  unfoldable pub redirect_to_leader : Map String → String → Option NodeId → Option (Response V)
  redirect_to_leader peer_urls path hint = elim hint [
    | none ↦ none
    | some leader ↦ elim (get leader peer_urls) [
      | none ↦ none
      | some base ↦ some (record { status = 307; location = some (joined base path); body = empty })
    ]
  ]

  abbrev pub redirect_or : Option (Response V) → Response V
  redirect_or none = say 503 "no leader known; retry shortly\n"
  redirect_or (some r) = r

  unfoldable pub write_error_response : Map String → String → WriteError → Response V
  unfolding redirect_to_leader
  write_error_response peer_urls path (WriteError.not_leader hint) =
      redirect_or (redirect_to_leader peer_urls path hint)
  write_error_response peer_urls path WriteError.timeout =
      say 504
        "write not confirmed: this node cannot reach a majority; the write may or may not commit later\n"
  write_error_response peer_urls path WriteError.superseded =
      say 503 "leadership changed before the write committed; safe to retry\n"
  write_error_response peer_urls path (WriteError.invalid_config reason) =
      say 409 (str_append reason "\n")
  write_error_response peer_urls path WriteError.shutdown = say 503 "node shutting down\n"

  unfoldable pub read_error_response : Map String → String → ReadError → Response V
  unfolding redirect_to_leader
  read_error_response peer_urls key (ReadError.not_leader hint) =
      redirect_or (redirect_to_leader peer_urls key hint)
  read_error_response peer_urls key ReadError.timeout =
      say 504
        "read not confirmed: this node cannot reach a majority; retry (or use ?stale=true for a possibly-stale local read)\n"
  read_error_response peer_urls key ReadError.retry =
      say 503 "leadership changed during the read; safe to retry\n"
  read_error_response peer_urls key ReadError.shutdown = say 503 "node shutting down\n"

  abbrev pub found : Option V → Response V
  found none = plain 404
  found (some v) = record { status = 200; location = none; body = json v }

  -- The read that is not stale ends with `outcome`.
  unfoldable pub get_key :
      Map String → Bool → String → KvStore V → Result ReadError (Option V) → Response V
  unfolding read_error_response
  get_key peer_urls true key store outcome = found (read key store)
  get_key peer_urls false key store (ok v) = found v
  get_key peer_urls false key store (err e) = read_error_response peer_urls key e

  -- The answer to a write, with the status of success.
  abbrev pub answer : Map String → String → ℕ → Result WriteError (Unit {0}) → Response V
  answer peer_urls path status (ok _) = plain status
  answer peer_urls path status (err e) = write_error_response peer_urls path e

  unfoldable pub put_key : Map String → String → Headers → Option V → Handled V
  unfolding session_from_headers write_error_response
  put_key peer_urls key headers body = elim (session_from_headers headers) [
    | err reason ↦ done (say 400 reason)
    | ok session ↦ elim body [
      | none ↦ done (say 400 "body must be valid JSON\n")
      | some value ↦ propose (put key value session) (answer peer_urls key 201)
    ]
  ]

  unfoldable pub delete_key : Map String → String → Headers → Handled V
  unfolding session_from_headers write_error_response
  delete_key peer_urls key headers = elim (session_from_headers headers) [
    | err reason ↦ done (say 400 reason)
    | ok session ↦ propose (delete key session) (answer peer_urls key 204)
  ]

  unfoldable pub get_status : Status → Response V
  get_status s = record { status = 200; location = none; body = status_body s }

  unfoldable pub list_members : Membership → Response V
  list_members m = record { status = 200; location = none; body = members_body m }

  -- `id_text` is the id in decimal digits.
  unfoldable pub put_member :
      Map String → NodeId → String → Option MemberAddr → Membership → Handled V
  unfolding write_error_response
  put_member peer_urls id id_text body members = elim body [
    | none ↦
        done (say 400 "body must be {\"raft\": \"host:port\", \"client\": \"http://host:port\"}\n")
    | some addr ↦
        if contains_key id members
        then done (say 409 "already a member (address changes are not supported)\n")
        else propose (config_change (insert id addr members))
            (answer peer_urls (str_append "cluster/members/" id_text) 201)
  ]

  unfoldable pub delete_member : Map String → NodeId → String → Membership → Handled V
  unfolding write_error_response
  delete_member peer_urls id id_text members =
      if contains_key id members
      then propose (config_change (remove id members))
          (answer peer_urls (str_append "cluster/members/" id_text) 204)
      else done (plain 404)
