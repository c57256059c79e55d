-- ===== src/Http/Framing.antt =====
-- What an exchange over a connection reads: no byte is lost, and none is taken from what follows.
use rust_kv.Base.{
  ℕ, suc, ◌+◌, ◌-◌, ◌≡◌, ◌≢◌, ap, ◌∙◌, sym, refl, Bool, true, false, ◌&&◌, Option, none, some, List,
  [], ◌∷◌, ◌++◌, append_assoc, length, length-append, take, drop, take-append-drop,
  length-take_of_le, arith, leb, leb→le, ltb, ◌==◌, Option-cases, Bool-cases, inl, inr,
}
use rust_kv.Http.Head.{Bytes, ResponseHead, parse_response_head, strip_prefix, starts_with}
use rust_kv.Http.{
  Conn, no_more, Ending, closed, broken, silent, Io, invalid_data, ok, err, waits, ◌>>=◌, Exchanged,
  terminator, find_header_end, read_head, put_back, read_exact, concat, read_to_end, read_body,
  request_response,
}

append-strip_prefix : (p s r : Bytes) → strip_prefix p s ≡ some r → s ≡ p ++ r
unfolding strip_prefix
append-strip_prefix [] s r h = cc
append-strip_prefix (p ∷ ps) [] r h = cc
append-strip_prefix (p ∷ ps) (c ∷ cs) r h = elim (Bool-cases (p == c)) [
  | inl q ↦
      let e : cs ≡ ps ++ r = append-strip_prefix ps cs r (ground (arith, q)) in
      let same : c ≡ p = ground (arith, q) in rw (e, same) refl
  | inr q ↦ absurd (ground (arith, q))
]

starts_with-terminator : (s : Bytes) → starts_with terminator s ≡ true → s ≡ terminator ++ drop 4 s
unfolding starts_with
starts_with-terminator s h = elim (Option-cases (strip_prefix terminator s)) [
  | inl q ↦ absurd (ground (arith, q))
  | inr (r, q) ↦ let e = append-strip_prefix terminator s r q in rw e refl
]

-- The head ends where its terminator stands.
split-find_header_end :
    (buf : Bytes) (k : ℕ)
    → find_header_end buf ≡ some k
    → buf ≡ take k buf ++ (terminator ++ drop (k + 4) buf)
unfolding find_header_end
split-find_header_end [] k h = cc
split-find_header_end (b ∷ bs) k h = elim (Bool-cases (starts_with terminator (b ∷ bs))) [
  | inl q ↦ let e : k ≡ 0 = ground (arith, q) in rw e (starts_with-terminator (b ∷ bs) q)
  | inr q ↦ elim (Option-cases (find_header_end bs)) [
    | inl none_left ↦ absurd (ground (arith, q, none_left))
    | inr (n, found) ↦
        let e : k ≡ suc n = ground (arith, q, found) in
        let shift : suc n + 4 ≡ suc (n + 4) = omega arith in
        rw (e, shift) (ap (λ (x : Bytes). b ∷ x) (split-find_header_end bs n found))
  ]
]

concat-put_back : (bs : Bytes) (ps : List Bytes) → concat (put_back bs ps) ≡ bs ++ concat ps
concat-put_back [] ps = refl
concat-put_back (b ∷ bs) ps = refl

no_more_fails : {A : Type 0} (fin : Ending) (x : A) → no_more fin ≢ ok x
no_more_fails closed x h = cc
no_more_fails broken x h = cc
no_more_fails silent x h = cc

found-Framed :
    (buf : Bytes) (end : ℕ) (ps : List Bytes)
    → find_header_end buf ≡ some end
    → buf ++ concat ps ≡ take end buf ++ (terminator ++ (drop (end + 4) buf ++ concat ps))
found-Framed buf end ps found =
    ap (λ (x : Bytes). x ++ concat ps) (split-find_header_end buf end found)
    ∙ append_assoc (take end buf) (terminator ++ drop (end + 4) buf) (concat ps)

-- The head, the terminator and what is left are what the peer sent.
read_head-Framed :
    (fin : Ending) (buf : Bytes) (ps : List Bytes) (head behind : Bytes) (rest : List Bytes)
    → read_head fin buf ps ≡ ok (head, behind, rest)
    → buf ++ concat ps ≡ head ++ (terminator ++ (behind ++ concat rest))
unfolding read_head
read_head-Framed fin buf [] head behind rest h = elim (Option-cases (find_header_end buf)) [
  | inl q ↦
      absurd
        (ground (arith, q, no_more_fails {A = Bytes × Bytes × List Bytes} fin (head, behind, rest)))
  | inr (end, q) ↦
      let e1 : head ≡ take end buf = ground (arith, q) in
      let e2 : behind ≡ drop (end + 4) buf = ground (arith, q) in
      let e3 : rest ≡ [] = ground (arith, q) in rw (e1, e2, e3) (found-Framed buf end [] q)
]
read_head-Framed fin buf (p ∷ ps) head behind rest h = elim (Option-cases (find_header_end buf)) [
  | inl q ↦
      let more : read_head fin (buf ++ p) ps ≡ ok (head, behind, rest) = ground (arith, q) in
      sym (append_assoc buf p (concat ps))
      ∙ read_head-Framed fin (buf ++ p) ps head behind rest more
  | inr (end, q) ↦
      let e1 : head ≡ take end buf = ground (arith, q) in
      let e2 : behind ≡ drop (end + 4) buf = ground (arith, q) in
      let e3 : rest ≡ p ∷ ps = ground (arith, q) in
      rw (e1, e2, e3) (found-Framed buf end (p ∷ ps) q)
]

-- A chain of calls that succeeds, succeeds at its first call.
succeeded :
    {A B : Type 0} (m : Io A) (f : A → Io B) (y : B)
    → (m >>= f) ≡ ok y
    → (x : A) × (m ≡ ok x) × (f x ≡ ok y)
succeeded (ok x) f y h = (x, refl, h)
succeeded (err e) f y h = cc
succeeded waits f y h = cc

take-all : (xs : Bytes) → take (length xs) xs ≡ xs
take-all [] = refl
take-all (x ∷ xs) = ap (λ (ys : Bytes). x ∷ ys) (take-all xs)

read_exact-Framed :
    (fin : Ending) (n : ℕ) (ps : List Bytes) (x : Bytes) (rest : List Bytes)
    → read_exact fin n ps ≡ ok (x, rest)
    → (concat ps ≡ x ++ concat rest) × (length x ≡ n)
unfolding read_exact
read_exact-Framed fin n [] x rest h = elim (Bool-cases (n == 0)) [
  | inl q ↦
      let e1 : x ≡ [] = ground (arith, q) in
      let e2 : rest ≡ [] = ground (arith, q) in
      let e3 : n ≡ 0 = ground (arith, q) in rw (e1, e2, e3) (refl, refl)
  | inr q ↦ absurd (ground (arith, q, no_more_fails {A = Bytes × List Bytes} fin (x, rest)))
]
read_exact-Framed fin n (p ∷ ps) x rest h = elim (Bool-cases (n == 0)) [
  | inl q ↦
      let e1 : x ≡ [] = ground (arith, q) in
      let e2 : rest ≡ p ∷ ps = ground (arith, q) in
      let e3 : n ≡ 0 = ground (arith, q) in rw (e1, e2, e3) (refl, refl)
  | inr q ↦ elim (Bool-cases (leb n (length p))) [
    | inl small ↦
        let e1 : x ≡ take n p = ground (arith, q, small) in
        let e2 : rest ≡ put_back (drop n p) ps = ground (arith, q, small) in
        rw (e1, e2, concat-put_back (drop n p) ps)
          (
            ap (λ (y : Bytes). y ++ concat ps) (sym (take-append-drop n p))
                ∙ append_assoc (take n p) (drop n p) (concat ps),
            length-take_of_le n p (leb→le n (length p) small),
          )
    | inr large ↦
        let f : Bytes × List Bytes → Io (Bytes × List Bytes) = λ z. ok (p ++ z.0, z.1) in
        let chain : (read_exact fin (n - length p) ps >>= f) ≡ ok (x, rest) =
          ground (arith, q, large) in
        let ((y, r), more, last) = succeeded (read_exact fin (n - length p) ps) f (x, rest) chain in
        let (same, len) = read_exact-Framed fin (n - length p) ps y r more in
        let e1 : x ≡ p ++ y = ground (arith, last) in
        let e2 : rest ≡ r = ground (arith, last) in
        rw (e1, e2)
          (
            ap (λ (z : Bytes). p ++ z) same ∙ sym (append_assoc p y (concat r)),
            ground (arith, length-append p y, len, large),
          )
  ]
]

-- A reply on a connection that can be used again.
pub record Framed (c : Conn) (r : Exchanged) : Type 0 where
  pub head : Bytes
  pub sent : concat c.incoming ≡ head ++ (terminator ++ (r.body ++ concat r.left))
  pub parsed :
      parse_response_head head
      ≡ some (record { content_length = some (length r.body); keep_alive = true })

ResponseHead-of_fields :
    (head : ResponseHead) (n : ℕ)
    → head.content_length ≡ some n
    → head.keep_alive ≡ true
    → head ≡ record { content_length = some n; keep_alive = true }
ResponseHead-of_fields head n a b =
    ap (λ (x : Option ℕ). record { content_length = x; keep_alive = head.keep_alive }) a
    ∙ ap (λ (x : Bool). record { content_length = some n; keep_alive = x }) b

read_body-Framed :
    (fin : Ending) (head : ResponseHead) (buffered : Bytes) (ps : List Bytes) (r : Exchanged)
    → read_body fin head buffered ps ≡ ok r
    → r.reusable ≡ true
    → (buffered ++ concat ps ≡ r.body ++ concat r.left)
      × (head ≡ record { content_length = some (length r.body); keep_alive = true })
unfolding read_body
read_body-Framed fin head buffered ps r h reused = elim (Option-cases head.content_length) [
  | inl q ↦
      let f : Bytes → Io Exchanged =
        λ more. ok (record { body = buffered ++ more; reusable = false; left = [] }) in
      let chain : (read_to_end fin ps >>= f) ≡ ok r = ground (arith, q) in
      let (more, _, last) = succeeded (read_to_end fin ps) f r chain in
      absurd (ground (arith, last, reused))
  | inr (n, q) ↦ elim (Bool-cases (ltb (length buffered) n)) [
    | inl short ↦
        let f : Bytes × List Bytes → Io Exchanged =
          λ z. ok (record { body = buffered ++ z.0; reusable = head.keep_alive; left = z.1 }) in
        let chain : (read_exact fin (n - length buffered) ps >>= f) ≡ ok r =
          ground (arith, q, short) in
        let ((y, rest), more, last) =
          succeeded (read_exact fin (n - length buffered) ps) f r chain in
        let (same, len) = read_exact-Framed fin (n - length buffered) ps y rest more in
        let e : r ≡ record { body = buffered ++ y; reusable = head.keep_alive; left = rest } =
          ground (arith, last) in
        let size : n ≡ length (buffered ++ y) =
          ground (arith, length-append buffered y, len, short) in
        rw e (
          ap (λ (z : Bytes). buffered ++ z) same ∙ sym (append_assoc buffered y (concat rest)),
          ResponseHead-of_fields head (length (buffered ++ y)) (q ∙ ap some size)
              (ground (arith, e, reused)),
        )
    | inr full ↦
        let e : r ≡ record {
          body = take n buffered;
          reusable = head.keep_alive && length buffered == n;
          left = ps;
        } =
          ground (arith, q, full) in
        let size : n ≡ length buffered = ground (arith, e, reused) in
        let whole : take n buffered ≡ buffered = rw size (take-all buffered) in
        rw (e, whole)
          (
            refl,
            ResponseHead-of_fields head (length buffered) (q ∙ ap some size)
                (ground (arith, e, reused)),
          )
  ]
]

-- An answer that lets the connection go back to the pool is framed exactly: what the peer has sent is
-- the head, the terminator, a body as long as the head declares, and what is left in the connection
-- for the next exchange. However the bytes come in pieces, no byte of this answer is left for the
-- next, and no byte of the next is taken.
pub request_response-Framed :
    (c : Conn) (r : Exchanged) → request_response c ≡ ok r → r.reusable ≡ true → Framed c r
unfolding request_response
request_response-Framed c r h reused =
    let f : Bytes × Bytes × List Bytes → Io Exchanged = λ x. elim (parse_response_head x.0) [
      | none ↦ err invalid_data
      | some head ↦ read_body c.ending head x.1 x.2
    ] in
    let chain : (read_head c.ending [] c.incoming >>= f) ≡ ok r = ground (arith) in
    let ((head, behind, rest), start, last) =
      succeeded (read_head c.ending [] c.incoming) f r chain in
    elim (Option-cases (parse_response_head head)) [
      | inl q ↦ absurd (ground (arith, q, last))
      | inr (parsed, q) ↦
          let body : read_body c.ending parsed behind rest ≡ ok r = ground (arith, q, last) in
          let (same, declared) = read_body-Framed c.ending parsed behind rest r body reused in
          record {
            head = head;
            sent =
                read_head-Framed c.ending [] c.incoming head behind rest start
                ∙ ap (λ (x : Bytes). head ++ (terminator ++ x)) same;
            parsed = q ∙ ap some declared;
          }
    ]
