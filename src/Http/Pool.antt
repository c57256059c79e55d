-- ===== src/Http/Pool.antt =====
-- How many connections the pool keeps, and to whom.
use text.Mathlib.Text.{◌==◌ as str_eq}
use rust_kv.Base.{
  String, ◌≤◌, ◌≡◌, ◌⊎◌, refl, true, some, List, [], ◌∷◌, arith, length, any, ltb, if◌then◌else◌,
  Option-cases, Bool-cases, inl, inr,
}
use rust_kv.Maps.{Map}
use rust_kv.Types.{NodeId}
use rust_kv.Kv.Dict
use rust_kv.Kv.Dict.{get-insert, get-retain}
use rust_kv.Http.{
  Conn, IoError, Io, ok, err, waits, Exchanged, HttpTransport, new, set_peers, checkout, checkin,
  finish_rpc, post_fresh, post_json, request_response,
}

Io-cases :
    {A : Type 0} (m : Io A) → ((x : A) × (m ≡ ok x)) ⊎ (((e : IoError) × (m ≡ err e)) ⊎ (m ≡ waits))
Io-cases (ok x) = inl (x, refl)
Io-cases (err e) = inr (inl (e, refl))
Io-cases waits = inr (inr refl)

-- At most four idle connections for each address.
pub record IsBounded (t : HttpTransport) : Type 0 where
  pub at : (addr : String) (cs : List Conn) → Dict.get addr t.pool ≡ some cs → length cs ≤ 4

pub new-IsBounded : (id : NodeId) (peers : Map String) → IsBounded (new id peers)
unfolding new
new-IsBounded id peers = record {
  at = λ a cs h. ground (arith, Dict.get-empty {V = List Conn} a, h);
}

checkout-IsBounded :
    (addr : String) (t : HttpTransport) → IsBounded t → IsBounded (checkout addr t).1
unfolding checkout
checkout-IsBounded addr t b = elim (Option-cases (Dict.get addr t.pool)) [
  | inl q ↦ rw (checkout, q) b
  | inr ([], q) ↦ rw (checkout, q) b
  | inr (c ∷ cs, q) ↦
      rw (checkout, q)
        (record {
          at = λ a ds h.
              ground (arith, get-insert addr a cs t.pool, h, b.at addr (c ∷ cs) q, b.at a ds);
        })
]

checkin-IsBounded :
    (addr : String) (c : Conn) (t : HttpTransport) → IsBounded t → IsBounded (checkin addr c t)
unfolding checkin
checkin-IsBounded addr c t b = elim (Option-cases (Dict.get addr t.pool)) [
  | inl q ↦
      rw q
        (record { at = λ a ds h. ground (arith, get-insert addr a (c ∷ []) t.pool, h, b.at a ds) })
  | inr (cs, q) ↦ rw q (record {
    at = λ a ds h. ground (
      arith,
      get-insert addr a (if ltb (length cs) 4 then c ∷ cs else cs) t.pool,
      h,
      b.at addr cs q,
      b.at a ds,
    );
  })
]

finish_rpc-IsBounded :
    (addr : String) (c : Conn) (r : Exchanged) (t : HttpTransport)
    → IsBounded t
    → IsBounded (finish_rpc addr c r t)
unfolding finish_rpc
finish_rpc-IsBounded addr c r t b = elim (Bool-cases r.reusable) [
  | inl q ↦ rw (finish_rpc, q) (checkin-IsBounded addr (record c { incoming = r.left }) t b)
  | inr q ↦ rw (finish_rpc, q) b
]

post_fresh-IsBounded :
    (addr : String) (fresh : Io Conn) (t : HttpTransport)
    → IsBounded t
    → IsBounded (post_fresh addr fresh t).1
unfolding post_fresh
post_fresh-IsBounded addr (err e) t b = b
post_fresh-IsBounded addr waits t b = b
post_fresh-IsBounded addr (ok c) t b = elim (Io-cases (request_response c)) [
  | inl (r, q) ↦ rw (post_fresh, q) (finish_rpc-IsBounded addr c r t b)
  | inr (inl (e, q)) ↦ rw (post_fresh, q) b
  | inr (inr q) ↦ rw (post_fresh, q) b
]

post_json-IsBounded :
    (addr : String) (fresh : Io Conn) (t : HttpTransport)
    → IsBounded t
    → IsBounded (post_json addr fresh t).1
unfolding post_json
post_json-IsBounded addr fresh t b =
    let kept = checkout-IsBounded addr t b in
    elim (Option-cases (checkout addr t).0) [
      | inl q ↦ rw (post_json, q) (post_fresh-IsBounded addr fresh ((checkout addr t).1) kept)
      | inr (c, q) ↦ elim (Io-cases (request_response c)) [
        | inl (r, z) ↦
            rw (post_json, q, z) (finish_rpc-IsBounded addr c r ((checkout addr t).1) kept)
        | inr (inl (e, z)) ↦
            rw (post_json, q, z) (post_fresh-IsBounded addr fresh ((checkout addr t).1) kept)
        | inr (inr z) ↦ rw (post_json, q, z) kept
      ]
    ]

-- What is kept of the pool when the address book is replaced.
pub record IsPruned (peers : Map String) (t u : HttpTransport) : Type 0 where
  pub known :
      (addr : String) (cs : List Conn)
      → Dict.get addr u.pool ≡ some cs
      → any (λ p. str_eq p.1 addr) peers ≡ true
  pub same :
      (addr : String)
      → any (λ p. str_eq p.1 addr) peers ≡ true
      → Dict.get addr u.pool ≡ Dict.get addr t.pool

set_peers-IsBounded :
    (peers : Map String) (t : HttpTransport) → IsBounded t → IsBounded (set_peers peers t)
unfolding set_peers
set_peers-IsBounded peers t b = record {
  at = λ a ds h.
      ground (arith, get-retain (λ x. any (λ p. str_eq p.1 x) peers) a t.pool, h, b.at a ds);
}

set_peers-IsPruned : (peers : Map String) (t : HttpTransport) → IsPruned peers t (set_peers peers t)
unfolding set_peers
set_peers-IsPruned peers t = record {
  known = λ a ds h. ground (arith, get-retain (λ x. any (λ p. str_eq p.1 x) peers) a t.pool, h);
  same = λ a h. ground (arith, get-retain (λ x. any (λ p. str_eq p.1 x) peers) a t.pool, h);
}

-- Where no address has more than four idle connections, that holds behind every RPC, whatever its peer
-- does, and behind every change of the address book. That change keeps the idle connections to the
-- addresses of the new book as they are, and no others.
pub pool-IsBounded :
    (addr : String) (fresh : Io Conn) (peers : Map String) (t : HttpTransport)
    → IsBounded t
    → IsBounded (post_json addr fresh t).1
      × IsBounded (set_peers peers t)
      × IsPruned peers t (set_peers peers t)
pool-IsBounded addr fresh peers t b =
    (post_json-IsBounded addr fresh t b, set_peers-IsBounded peers t b, set_peers-IsPruned peers t)
