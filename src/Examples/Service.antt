-- ===== src/Examples/Service.antt =====
-- Requests to a node, and what it answers.
use rust_kv.Base.{ℕ, String, ◌≡◌, ◌++◌, refl, true, false, Option, none, some, List, [], ◌∷◌}
use rust_kv.Maps.{Map, get, keys}
use rust_kv.Types.{Term, LogIndex}
use rust_kv.Node.State.{Reply, accepted, Output, RaftNode, PendingRead, leader, Leadership, granted}
use rust_kv.Node.Queries.{majority, is_member, peer_ids}
use rust_kv.Node.Apply.{resolve_pending, resolve_reads, granted_reads, can_grant, acks, has_acked}
use rust_kv.Node.Settled.{Settles, resolve_pending-Settles, Grants, resolve_reads-Grants}
use rust_kv.Service.{value}
use rust_kv.Api.{put_key, Headers}
use rust_kv.Api.Replies.{Tells, put, answer-Tells, session_from_headers_lem, SessionRule}
use rust_kv.Kv
use rust_kv.Api.Reads.{Serves, get_key-Serves}
use rust_kv.Api.Members.{AdminRule, admin-IsDelta}
use rust_kv.Examples.Data.{members, node, leadership}

abbrev urls : Map String
urls = (2, "http://b") ∷ []

abbrev headers : Headers
headers name = none

abbrev reply : Option (Reply (Term × LogIndex))
reply = some (accepted (3, 6))

answer-Tells_example : Tells {V = ℕ} urls reply (value true) (put_key urls "k" headers (some 5))
answer-Tells_example =
    answer-Tells {V = ℕ} urls reply (value true) (put_key urls "k" headers (some 5))
      (put "k" headers (some 5))

session_from_headers_lem_example : SessionRule headers
session_from_headers_lem_example = session_from_headers_lem headers

admin-IsDelta_example : AdminRule ℕ urls 3 "3" members none
unfolding keys
admin-IsDelta_example = admin-IsDelta ℕ urls 3 "3" members (refl, (refl, (refl, tt))) none

abbrev waiting : RaftNode ℕ ℕ
waiting = record (node (leader leadership)) {
  pending =
      record { term = 1; index = 3; committed = 7 }
      ∷ record { term = 2; index = 5; committed = 8 }
      ∷ [];
}

resolve_pending-Settles_example :
    (outs : List (Output ℕ)) × Settles waiting.storage waiting.commit_index waiting.pending outs
      (resolve_pending waiting).pending
    × ((resolve_pending waiting).outbox ≡ waiting.outbox ++ outs)
resolve_pending-Settles_example = resolve_pending-Settles waiting

-- A leader that has heard of member 2 for the message 1, and of no one for the message 2.
abbrev reading : Leadership
reading = record leadership {
  pending_reads =
      record { needed_seq = 1; read_index = 3; granted = 9 }
      ∷ record { needed_seq = 2; read_index = 3; granted = 10 }
      ∷ [];
}

one_read : (resolve_reads (node (leader reading))).outbox ≡ granted 9 ∷ []
unfolding resolve_reads granted_reads can_grant majority acks is_member peer_ids has_acked get keys
one_read = refl

resolve_reads-Grants_example :
    (outs : List (Output ℕ)) × (rest : List PendingRead) × Grants
      (node (leader reading))
      reading
      reading.pending_reads
      outs
      rest
    × ((resolve_reads (node (leader reading))).role
        ≡ leader (record reading { pending_reads = rest }))
    × ((resolve_reads (node (leader reading))).outbox ≡ (node (leader reading)).outbox ++ outs)
unfolding keys
resolve_reads-Grants_example =
    resolve_reads-Grants (node (leader reading)) reading refl (refl, (refl, (refl, tt)))

get_key-Serves_example :
    Serves urls "k" (Kv.Store.empty {V = ℕ}) (some (accepted tt)) (value tt) false
get_key-Serves_example =
    get_key-Serves urls "k" (Kv.Store.empty {V = ℕ}) (some (accepted tt)) (value tt) false
