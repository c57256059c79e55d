-- ===== src/Api/Replies.antt =====
-- The answers of the write handlers, behind the node's reply and what comes of the proposal.
use Prim.Native.String.{◌++◌ as str_append}
use rust_kv.Base.{
  ℕ, String, ◌≡◌, ◌↔◌, ◌⊎◌, ◌≢◌, refl, inl, inr, Bool, true, false, Option, none, some, arith,
  Option-cases,
}
use rust_kv.Maps.{Map, get}
use rust_kv.Types.{NodeId, Session, MemberAddr, Membership, Term, LogIndex}
use rust_kv.Node.State.{ProposeError, Reply, accepted, rejected}
use rust_kv.Service.{ok, Awaited, elapsed, dropped, value, write}
use rust_kv.Api.{
  answer, Response, Handled, done, propose, finish, Headers, header_value, session_of,
  session_from_headers, write_error_response, put_key, delete_key, put_member, delete_member,
}

-- The requests that write.
pub data Writes {V : Type 0} (peer_urls : Map String) : Handled V → Type 0 where
  put :
      (key : String) (headers : Headers) (body : Option V)
      → Writes peer_urls (put_key peer_urls key headers body)
  delete : (key : String) (headers : Headers) → Writes peer_urls (delete_key peer_urls key headers)
  add :
      (id : NodeId) (id_text : String) (body : Option MemberAddr) (members : Membership)
      → Writes peer_urls (put_member peer_urls id id_text body members)
  remove :
      (id : NodeId) (id_text : String) (members : Membership)
      → Writes peer_urls (delete_member peer_urls id id_text members)

abbrev pub Proposes : {V : Type 0} → Handled V → Type 0
Proposes (done r) = ⊥
Proposes (propose c k) = Unit

abbrev pub IsAccepted : {A : Type 0} → Option (Reply A) → Type 0
IsAccepted none = ⊥
IsAccepted (some (accepted a)) = Unit
IsAccepted (some (rejected e)) = ⊥

abbrev pub IsSuccess : {V : Type 0} → Response V → Type 0
IsSuccess r = (r.status ≡ 201) ⊎ (r.status ≡ 204)

-- The node is not the leader, and knows one that has an address.
abbrev pub KnowsLeader : Map String → Option (Reply (Term × LogIndex)) → Type 0
KnowsLeader peer_urls reply =
    (leader : NodeId) × (base : String) × (reply
      ≡ some (rejected (ProposeError.not_leader (some leader))))
    × (get leader peer_urls ≡ some base)

-- A redirection answers a refusal.
redirect_cases :
    (V : Type 0) (peer_urls : Map String) (reply : Option (Reply (Term × LogIndex)))
    (committed : Awaited Bool)
    → KnowsLeader peer_urls reply
      ⊎ ((status : ℕ) (path : String)
          → status ≢ 307
          → (answer {V = V} peer_urls path status (write reply committed)).status ≢ 307)
unfolding write write_error_response
redirect_cases V peer_urls (some (rejected (ProposeError.not_leader (some leader)))) committed =
    elim (Option-cases (get leader peer_urls)) [
      | inl q ↦ inr (λ status path ne h. ground arith)
      | inr (base, q) ↦ inl (leader, base, refl, q)
    ]
redirect_cases V peer_urls (some (rejected (ProposeError.not_leader none))) committed =
    inr (λ status path ne h. ground arith)
redirect_cases V peer_urls none committed = inr (λ status path ne h. ground arith)
redirect_cases V peer_urls (some (accepted a)) committed = inr (λ status path ne h. ground arith)
redirect_cases V peer_urls (some (rejected (ProposeError.invalid_config_change r))) committed =
    inr (λ status path ne h. ground arith)
redirect_cases V peer_urls (some (rejected ProposeError.shutdown)) committed =
    inr (λ status path ne h. ground arith)

module _ {V : Type 0} (peer_urls : Map String) (reply : Option (Reply (Term × LogIndex)))
    (committed : Awaited Bool) where
  -- The answer to a request.
  abbrev pub answer_to : Handled V → Response V
  answer_to h = finish (λ _. write reply committed) h

  -- What a client may conclude from the answer's status.
  pub record Tells (h : Handled V) : Type 0 where
    pub success :
        IsSuccess (answer_to h) ↔ (Proposes h × IsAccepted reply × (committed ≡ value true))
    pub unknown :
        ((answer_to h).status ≡ 504) ↔ (Proposes h × IsAccepted reply × (committed ≡ elapsed))
    pub unavailable :
        (answer_to h).status ≡ 503
        → (¬ IsAccepted reply) ⊎ (committed ≡ value false) ⊎ (committed ≡ dropped)
    pub redirected : (answer_to h).status ≡ 307 → KnowsLeader peer_urls reply

  answer-IsSuccess :
      (h : Handled V)
      → Writes peer_urls h
      → IsSuccess (answer_to h) ↔ (Proposes h × IsAccepted reply × (committed ≡ value true))
  unfolding finish write write_error_response put_key delete_key put_member delete_member
  answer-IsSuccess _ (put key headers body) = ground arith
  answer-IsSuccess _ (delete key headers) = ground arith
  answer-IsSuccess _ (add id id_text body members) = ground arith
  answer-IsSuccess _ (remove id id_text members) = ground arith

  answer_unknown :
      (h : Handled V)
      → Writes peer_urls h
      → ((answer_to h).status ≡ 504) ↔ (Proposes h × IsAccepted reply × (committed ≡ elapsed))
  unfolding finish write write_error_response put_key delete_key put_member delete_member
  answer_unknown _ (put key headers body) = ground arith
  answer_unknown _ (delete key headers) = ground arith
  answer_unknown _ (add id id_text body members) = ground arith
  answer_unknown _ (remove id id_text members) = ground arith

  answer_unavailable :
      (h : Handled V)
      → Writes peer_urls h
      → (answer_to h).status ≡ 503
      → (¬ IsAccepted reply) ⊎ (committed ≡ value false) ⊎ (committed ≡ dropped)
  unfolding finish write write_error_response put_key delete_key put_member delete_member
  answer_unavailable _ (put key headers body) = ground arith
  answer_unavailable _ (delete key headers) = ground arith
  answer_unavailable _ (add id id_text body members) = ground arith
  answer_unavailable _ (remove id id_text members) = ground arith

  answer_elsewhere :
      ((status : ℕ) (path : String)
        → status ≢ 307
        → (answer {V = V} peer_urls path status (write reply committed)).status ≢ 307)
      → (h : Handled V) → Writes peer_urls h
      → (answer_to h).status ≢ 307
  unfolding finish put_key delete_key put_member delete_member
  answer_elsewhere never _ (put key headers body) h = ground (arith, never 201 key)
  answer_elsewhere never _ (delete key headers) h = ground (arith, never 204 key)
  answer_elsewhere never _ (add id id_text body members) h =
      ground (arith, never 201 (str_append "cluster/members/" id_text))
  answer_elsewhere never _ (remove id id_text members) h =
      ground (arith, never 204 (str_append "cluster/members/" id_text))

  answer_redirected :
      (h : Handled V)
      → Writes peer_urls h
      → (answer_to h).status ≡ 307
      → KnowsLeader peer_urls reply
  unfolding finish put_key delete_key put_member delete_member
  answer_redirected _ w h = elim (redirect_cases V peer_urls reply committed) [
    | inl k ↦ k
    | inr never ↦ absurd (answer_elsewhere never _ w h)
  ]

  -- Whatever the write request, the reply of the node and what comes of the proposal: the client is
  -- told of success exactly if the command was proposed, accepted, and committed and applied; it gets
  -- 504 exactly if it was accepted and the wait ran out; it gets 503 only if it was not accepted, or
  -- another entry took its place, or the node dropped it without an answer; and it is redirected only
  -- if the node is not the leader and knows the leader's address.
  pub answer-Tells : (h : Handled V) → Writes peer_urls h → Tells h
  answer-Tells h w = record {
    success = answer-IsSuccess h w;
    unknown = answer_unknown h w;
    unavailable = answer_unavailable h w;
    redirected = answer_redirected h w;
  }

abbrev pub SessionRule : Headers → Type 0
SessionRule headers =
    ((session_from_headers headers ≡ ok none)
      ↔ ((headers "x-client-id" ≡ none) × (headers "x-client-seq" ≡ none)))
    × ((t : Session)
        → (session_from_headers headers ≡ ok (some t)) ↔ (
            (header_value (headers "x-client-id") ≡ some (some t.client))
            × (header_value (headers "x-client-seq") ≡ some (some t.seq))))

-- The token of a write: there is none exactly if neither header is there, and there is one exactly if
-- both headers are numbers, which are its client and its sequence number.
pub session_from_headers_lem : (headers : Headers) → SessionRule headers
unfolding session_from_headers session_of
session_from_headers_lem headers = (ground arith, λ t. ground arith)
