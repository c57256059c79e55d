-- ===== src/Examples/Http.antt =====
-- An exchange whose answer comes in three pieces, the last of which already holds other bytes.
use rust_kv.Base.{ℕ, ◌≡◌, refl, true, none, [], ◌∷◌}
use rust_kv.Maps.{get}
use rust_kv.Types.{err as failed, unreachable}
use rust_kv.Chars.{is_whitespace}
use rust_kv.Http.Head.{
  decode, from_utf8, codes, strip_prefix, starts_with, includes, words, split_whitespace, trim_left,
  keep_blank, trim_right, digits, parse_unsigned, text_lines, find_length, read_headers,
  parse_response_head,
}
use rust_kv.Http
use rust_kv.Http.{
  Conn, closed, Io, ok, err, Exchanged, HttpTransport, find_header_end, read_head, read_exact,
  read_body, request_response, set_peers, post_json, waits, handle_raft_rpc,
}
use rust_kv.Http.Framing.{Framed, request_response-Framed}
use rust_kv.Http.Pool.{IsBounded, IsPruned, new-IsBounded, pool-IsBounded}

-- "HTTP/1.1 200 OK", its header lines up to the first byte of the body, and the rest.
abbrev conn : Conn
conn = record {
  writable = true;
  incoming =
      (codes "HTTP/1.1 200 OK\r\nContent-Le") ∷ (codes "ngth: 2\r\n\r\nh") ∷ (codes "iHTTP") ∷ [];
  ending = closed;
}

abbrev reply : Exchanged
reply = record { body = codes "hi"; reusable = true; left = (codes "HTTP") ∷ [] }

exchanged : request_response conn ≡ ok reply
unfolding request_response read_head find_header_end starts_with strip_prefix read_body read_exact
    parse_response_head from_utf8 decode split_whitespace words is_whitespace parse_unsigned digits
    read_headers includes text_lines find_length trim_left trim_right keep_blank
exchanged = refl

request_response-Framed_example : Framed conn reply
request_response-Framed_example = request_response-Framed conn reply exchanged refl

pool-IsBounded_example :
    IsBounded (post_json "b:9001" (ok conn) (Http.new 1 ((2, "b:9001") ∷ []))).1
    × IsBounded (set_peers ((2, "c:9001") ∷ []) (Http.new 1 ((2, "b:9001") ∷ [])))
    × IsPruned
        ((2, "c:9001") ∷ [])
        (Http.new 1 ((2, "b:9001") ∷ []))
        (set_peers ((2, "c:9001") ∷ []) (Http.new 1 ((2, "b:9001") ∷ [])))
pool-IsBounded_example =
    pool-IsBounded "b:9001" (ok conn) ((2, "c:9001") ∷ []) (Http.new 1 ((2, "b:9001") ∷ []))
      (new-IsBounded 1 ((2, "b:9001") ∷ []))

unknown_peer : (Http.send (λ raw. none) 3 waits true (Http.new 1 [])).0 ≡ failed (unreachable 3)
unfolding Http.send Http.new get
unknown_peer = refl

bad_envelope : handle_raft_rpc {V = ℕ} none true none ≡ (400, none)
unfolding handle_raft_rpc
bad_envelope = refl
