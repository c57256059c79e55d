-- ===== src/Http.antt =====
-- raft/transport/http.rs: the pool of connections and one exchange over a connection. What the peer
-- sends is a list of the pieces that reads return, with what comes after the last one.
pub mod Head
pub mod Framing
pub mod Pool
use rust_kv.Base.{
  ℕ, String, ◌+◌, ◌-◌, ◌*◌, Bool, true, false, not, ◌&&◌, ◌||◌, Option, none, some, List, [], ◌∷◌,
  ◌++◌, length, take, drop, any, leb, ltb, ◌==◌, if◌then◌else◌,
}
use text.Mathlib.Text.{◌==◌ as str_eq}
use rust_kv.Maps.{Map, get}
use rust_kv.Types.{
  NodeId, RpcRequest, RpcResponse, RpcResult, ok as answered, err as failed, unreachable, timeout,
}
use rust_kv.Kv.Dict
use rust_kv.Kv.Dict.{Dict}
use rust_kv.Http.Head.{Bytes, ResponseHead, parse_response_head, starts_with}

abbrev pub max_idle_per_peer : ℕ
max_idle_per_peer = 4

abbrev pub max_response_head : ℕ
max_response_head = 16 * 1024

pub data IoError : Type 0 where
  invalid_data unexpected_eof other : IoError

-- Behind the last piece, the peer closes, the connection breaks, or nothing comes any more.
pub data Ending : Type 0 where
  closed broken silent : Ending

-- A `TcpStream`: whether a request can be written, and what there is to read.
pub record Conn : Type 0 where
  pub writable : Bool
  pub incoming : List Bytes
  pub ending : Ending

-- `std::io::Result` of a call that may wait forever
pub data Io {ℓ} (A : Type ℓ) : Type ℓ where
  ok : A → Io A
  err : IoError → Io A
  waits : Io A

infixl 5 ◌>>=◌
abbrev pub ◌>>=◌ {ℓ κ} : {A : Type ℓ} {B : Type κ} → Io A → (A → Io B) → Io B
ok a >>= f = f a
err e >>= f = err e
waits >>= f = waits

-- A read behind the last piece, where more is needed.
abbrev pub no_more {ℓ} : {A : Type ℓ} → Ending → Io A
no_more closed = err unexpected_eof
no_more broken = err other
no_more silent = waits

abbrev pub terminator : Bytes
terminator = b'\r' ∷ b'\n' ∷ b'\r' ∷ b'\n' ∷ []

unfoldable pub find_header_end : Bytes → Option ℕ
unfolding starts_with
find_header_end [] = none
find_header_end (b ∷ bs) =
    let rest = find_header_end bs in
    if starts_with terminator (b ∷ bs)
    then some 0
    else elim rest [ none ↦ none | some n ↦ some (n + 1) ]

-- The loop that reads the head: what is read so far, and the pieces that are still to come.
unfoldable pub read_head : Ending → Bytes → List Bytes → Io (Bytes × Bytes × List Bytes)
unfolding find_header_end
read_head ending buf [] = elim (find_header_end buf) [
  | some end ↦ ok (take end buf, drop (end + 4) buf, [])
  | none ↦ if ltb max_response_head (length buf) then err invalid_data else no_more ending
]
read_head ending buf (p ∷ ps) =
    let more = read_head ending (buf ++ p) ps in
    elim (find_header_end buf) [
      | some end ↦ ok (take end buf, drop (end + 4) buf, p ∷ ps)
      | none ↦
          if ltb max_response_head (length buf)
          then err invalid_data
          else if length p == 0
          then err unexpected_eof
          else more
    ]

abbrev pub put_back : Bytes → List Bytes → List Bytes
put_back [] ps = ps
put_back (b ∷ bs) ps = (b ∷ bs) ∷ ps

-- `read_exact`
unfoldable pub read_exact : Ending → ℕ → List Bytes → Io (Bytes × List Bytes)
read_exact ending n [] = if n == 0 then ok ([], []) else no_more ending
read_exact ending n (p ∷ ps) =
    let more = read_exact ending (n - length p) ps in
    if n == 0
    then ok ([], p ∷ ps)
    else if length p == 0
    then err unexpected_eof
    else if leb n (length p)
    then ok (take n p, put_back (drop n p) ps)
    else do r ← more; ok (p ++ r.0, r.1)

abbrev pub concat : List Bytes → Bytes
concat [] = []
concat (p ∷ ps) = p ++ concat ps

-- `read_to_end`
abbrev pub read_to_end : Ending → List Bytes → Io Bytes
read_to_end closed ps = ok (concat ps)
read_to_end broken ps = err other
read_to_end silent ps = waits

-- What `request_response` returns, and the pieces that it leaves.
pub record Exchanged : Type 0 where
  pub body : Bytes
  pub reusable : Bool
  pub left : List Bytes

-- The body, behind what was read of it with the head.
unfoldable pub read_body : Ending → ResponseHead → Bytes → List Bytes → Io Exchanged
unfolding read_exact
read_body ending head buffered ps = elim head.content_length [
  | some n ↦
      let rest = read_exact ending (n - length buffered) ps in
      if ltb (length buffered) n
      then (rest >>= λ r.
          ok (record { body = buffered ++ r.0; reusable = head.keep_alive; left = r.1 }))
      else ok (record {
        body = take n buffered;
        reusable = head.keep_alive && length buffered == n;
        left = ps;
      })
  | none ↦ do
    more ← read_to_end ending ps
    ok (record { body = buffered ++ more; reusable = false; left = [] })
]

unfoldable pub request_response : Conn → Io Exchanged
unfolding read_head parse_response_head read_body
request_response c =
    let rest = read_head c.ending [] c.incoming >>= λ h. elim (parse_response_head h.0) [
      | none ↦ err invalid_data
      | some head ↦ read_body c.ending head h.1 h.2
    ] in
    if c.writable then rest else err other

-- `HttpTransport`, without the timeout, which is an argument where it counts.
pub record HttpTransport : Type 0 where
  pub id : NodeId
  pub peers : Map String
  pub pool : Dict (List Conn)

-- The transport that `new` returns.
unfoldable pub new : NodeId → Map String → HttpTransport
new id peers = record { id = id; peers = peers; pool = [] }

unfoldable pub set_peers : Map String → HttpTransport → HttpTransport
set_peers peers t = record t {
  peers = peers;
  pool = Dict.retain (λ addr. any (λ p. str_eq p.1 addr) peers) t.pool;
}

-- `Vec::pop` takes the last connection; the list has it first.
unfoldable pub checkout : String → HttpTransport → Option Conn × HttpTransport
checkout addr t = elim (Dict.get addr t.pool) [
  | none ↦ (none, t)
  | some [] ↦ (none, t)
  | some (c ∷ cs) ↦ (some c, record t { pool = Dict.insert addr cs t.pool })
]

unfoldable pub checkin : String → Conn → HttpTransport → HttpTransport
checkin addr c t =
    let idle : List Conn = elim (Dict.get addr t.pool) [ none ↦ [] | some cs ↦ cs ] in
    record t {
      pool =
          Dict.insert addr (if ltb (length idle) max_idle_per_peer then c ∷ idle else idle) t.pool;
    }

-- The successful tail of an exchange.
unfoldable pub finish_rpc : String → Conn → Exchanged → HttpTransport → HttpTransport
unfolding checkin
finish_rpc addr c r t = if r.reusable then checkin addr (record c { incoming = r.left }) t else t

-- The attempt on a connection that is opened for it; `fresh` is what `TcpStream::connect` gives.
unfoldable pub post_fresh : String → Io Conn → HttpTransport → Io Bytes × HttpTransport
unfolding request_response finish_rpc
post_fresh addr fresh t = elim fresh [
  | ok c ↦ elim (request_response c) [
    | ok r ↦ (ok r.body, finish_rpc addr c r t)
    | err e ↦ (err e, t)
    | waits ↦ (waits, t)
  ]
  | err e ↦ (err e, t)
  | waits ↦ (waits, t)
]

unfoldable pub post_json : String → Io Conn → HttpTransport → Io Bytes × HttpTransport
unfolding checkout request_response finish_rpc post_fresh
post_json addr fresh t =
    let (pooled, u) = checkout addr t in
    elim pooled [
      | none ↦ post_fresh addr fresh u
      | some c ↦ elim (request_response c) [
        | ok r ↦ (ok r.body, finish_rpc addr c r u)
        | err e ↦ post_fresh addr fresh u
        | waits ↦ (waits, u)
      ]
    ]

-- `Transport::send`: `decode` is `serde_json::from_slice`, and `in_time` tells whether `post_json` ends
-- within the timeout. Where it does not, the connection that it took is dropped with it.
unfoldable pub send :
    (Bytes → Option RpcResponse)
    → NodeId
    → Io Conn
    → Bool
    → HttpTransport
    → RpcResult × HttpTransport
unfolding post_json checkout
send decode to fresh in_time t = elim (get to t.peers) [
  | none ↦ (failed (unreachable to), t)
  | some addr ↦
      let late : RpcResult × HttpTransport = (failed timeout, (checkout addr t).1) in
      let (posted, u) = post_json addr fresh t in
      if in_time
      then elim posted [
        | ok raw ↦ elim (decode raw) [ none ↦ (failed timeout, u) | some resp ↦ (answered resp, u) ]
        | err e ↦ (failed timeout, u)
        | waits ↦ late
      ]
      else late
]

-- `handle_raft_rpc` on an envelope that is decoded or not: the status, and the answer of the node.
-- `inbox_open` tells whether the node takes the request, and `reply` is what it answers, if it does.
unfoldable pub handle_raft_rpc :
    {V : Type 0}
    → Option (NodeId × RpcRequest V)
    → Bool
    → Option RpcResponse
    → ℕ × Option RpcResponse
handle_raft_rpc none inbox_open reply = (400, none)
handle_raft_rpc (some _) false reply = (503, none)
handle_raft_rpc (some _) true none = (503, none)
handle_raft_rpc (some _) true (some response) = (200, some response)
