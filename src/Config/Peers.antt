-- ===== src/Config/Peers.antt =====
-- `parse_peer_map` of config.rs on a text that lists peers.
use Prim.Native.Char.{Char, code}
use rust_kv.Base.{
  ℕ, ◌+◌, ◌-◌, ◌*◌, ◌≡◌, ◌≢◌, ◌⊎◌, refl, ap, ◌∙◌, inl, inr, true, false, not, some, List, [], ◌∷◌,
  ◌++◌, arith, ◌==◌, map, filter, All, if◌then◌else◌, Bool-cases, All-append, All-map,
}
use rust_kv.Maps.{Map, insert, contains_key}
use rust_kv.Types.{NodeId}
use rust_kv.Chars.{
  Text, is_whitespace, trim_start, trim_end, trim, is_empty, split, split_once, is_digit,
  parse_digits, parse_u64,
}
use rust_kv.Service.{Result, ok, err}
use rust_kv.Config.{PeerMapError, duplicate, parse_peer, add_peers, parse_peer_map}

abbrev pub equals : Char
equals = "="

abbrev pub comma : Char
comma = ","

-- The characters of a number.
abbrev Plain : Char → Type 0
Plain c = (is_digit (code c) ≡ true) ⊎ (code c ≡ b'+')

digits-Plain : (acc : ℕ) (t : Text) {n : ℕ} → parse_digits acc t ≡ some n → All Plain t
unfolding parse_digits
digits-Plain acc [] h = tt
digits-Plain acc (c ∷ t) {n} h =
    let d : is_digit (code c) ≡ true = ground arith in
    let r : parse_digits (acc * 10 + (code c - b'0')) t ≡ some n = ground arith in
    (inl d, digits-Plain (acc * 10 + (code c - b'0')) t r)

number-Plain : (t : Text) {n : ℕ} → parse_u64 t ≡ some n → All Plain t
unfolding parse_u64
number-Plain [] h = tt
number-Plain (c ∷ []) {n} h =
    let r : parse_digits 0 (c ∷ []) ≡ some n = ground arith in digits-Plain 0 (c ∷ []) r
number-Plain (c ∷ d ∷ t) {n} h = elim (Bool-cases (code c == b'+')) [
  | inl plus ↦
      let r : parse_digits 0 (d ∷ t) ≡ some n = ground arith in
      (inr (ground arith), digits-Plain 0 (d ∷ t) r)
  | inr digit ↦
      let r : parse_digits 0 (c ∷ d ∷ t) ≡ some n = ground arith in digits-Plain 0 (c ∷ d ∷ t) r
]

Plain_lem :
    (c : Char)
    → Plain c
    → (is_whitespace (code c) ≡ false) × ((code c == b'=') ≡ false) × ((code c == b',') ≡ false)
unfolding is_whitespace
Plain_lem c h = ground arith

trim_start-append : (t rest : Text) → t ≢ [] → All Plain t → trim_start (t ++ rest) ≡ t ++ rest
unfolding trim_start
trim_start-append [] rest ne h = absurd (ne refl)
trim_start-append (c ∷ t) rest ne h = rw ((Plain_lem c h.0).0) refl

trim_start-Plain : (t : Text) → All Plain t → trim_start t ≡ t
unfolding trim_start
trim_start-Plain [] h = refl
trim_start-Plain (c ∷ t) h = rw ((Plain_lem c h.0).0) refl

is_empty-append : (t : Text) (c : Char) (v : Text) → is_empty (t ++ c ∷ v) ≡ false
is_empty-append [] c v = refl
is_empty-append (x ∷ t) c v = refl

trim_end-Plain : (t : Text) → All Plain t → trim_end t ≡ t
unfolding trim_end
trim_end-Plain [] h = refl
trim_end-Plain (c ∷ t) h = ground (arith, trim_end-Plain t h.1, (Plain_lem c h.0).0)

trim_end-equals : (t v : Text) → trim_end v ≡ v → trim_end (t ++ equals ∷ v) ≡ t ++ equals ∷ v
unfolding trim_end is_whitespace
trim_end-equals [] v h = ground (arith, h)
trim_end-equals (c ∷ []) v h = ground (arith, trim_end-equals [] v h)
trim_end-equals (c ∷ d ∷ t) v h = ground (arith, trim_end-equals (d ∷ t) v h)

split_once-equals : (t v : Text) → All Plain t → split_once b'=' (t ++ equals ∷ v) ≡ some (t, v)
unfolding split_once
split_once-equals [] v h = refl
split_once-equals (c ∷ t) v h = ground (arith, split_once-equals t v h.1, Plain_lem c h.0)

-- The text is within one entry of the list.
abbrev pub HasNoComma : Text → Type 0
HasNoComma t = All (λ (c : Char). (code c == b',') ≡ false) t

split-comma : (t rest : Text) → HasNoComma t → split b',' (t ++ comma ∷ rest) ≡ t ∷ split b',' rest
unfolding split
split-comma [] rest h = refl
split-comma (c ∷ t) rest h = ground (arith, split-comma t rest h.1, h.0)

split_last : (t : Text) → HasNoComma t → split b',' t ≡ t ∷ []
unfolding split
split_last [] h = refl
split_last (c ∷ t) h = ground (arith, split_last t h.1, h.0)

-- One peer as it is written: the number of the id in some spelling, and a value with no comma in it
-- and no space at its ends.
pub record Peer : Type 0 where
  pub id_text : Text
  pub id : NodeId
  pub value : Text
  pub parses : parse_u64 id_text ≡ some id
  pub one_entry : HasNoComma value
  pub trimmed : (trim_start value ≡ value) × (trim_end value ≡ value)

abbrev pub entry_text : Peer → Text
entry_text p = p.id_text ++ equals ∷ p.value

-- `1=value,2=value`
abbrev pub render : List Peer → Text
render [] = []
render (p ∷ []) = entry_text p
render (p ∷ q ∷ ps) = entry_text p ++ comma ∷ render (q ∷ ps)

-- The map of some peers, if no id stands twice.
abbrev pub insert_all : List Peer → Map Text → Result PeerMapError (Map Text)
insert_all [] m = ok m
insert_all (p ∷ ps) m =
    let rest = insert_all ps (insert p.id p.value m) in
    if contains_key p.id m then err (duplicate p.id) else rest

number-ne-nil : (t : Text) {n : ℕ} → parse_u64 t ≡ some n → t ≢ []
unfolding parse_u64
number-ne-nil [] h e = cc
number-ne-nil (c ∷ t) h e = cc

module _ (p : Peer) where
  plain : All Plain p.id_text
  plain = number-Plain p.id_text p.parses

  entry-HasNoComma : HasNoComma (entry_text p)
  entry-HasNoComma =
      All-append _ p.id_text (equals ∷ p.value)
        (All-map Plain (λ (c : Char). (code c == b',') ≡ false) p.id_text (λ c h. (Plain_lem c h).2)
          plain)
        (refl, p.one_entry)

  trim-entry : trim (entry_text p) ≡ entry_text p
  trim-entry =
      rw (trim_start-append p.id_text (equals ∷ p.value) (number-ne-nil p.id_text p.parses) plain)
        (trim_end-equals p.id_text p.value p.trimmed.1)

  trim_id : trim p.id_text ≡ p.id_text
  trim_id = rw (trim_start-Plain p.id_text plain) (trim_end-Plain p.id_text plain)

  parse-entry : parse_peer (entry_text p) ≡ ok (p.id, p.value)
  unfolding parse_peer
  parse-entry =
      ground (arith, split_once-equals p.id_text p.value plain, trim_id, p.parses, p.trimmed)

  entry_ne_nil : is_empty (entry_text p) ≡ false
  entry_ne_nil = is_empty-append p.id_text equals p.value

split-render : (p : Peer) (ps : List Peer) → split b',' (render (p ∷ ps)) ≡ map entry_text (p ∷ ps)
split-render p [] = split_last (entry_text p) (entry-HasNoComma p)
split-render p (q ∷ ps) =
    split-comma (entry_text p) (render (q ∷ ps)) (entry-HasNoComma p)
    ∙ ap (◌∷◌ (entry_text p)) (split-render q ps)

pieces-render :
    (ps : List Peer)
    → filter (λ e. not (is_empty e)) (map (λ e. trim e) (map entry_text ps)) ≡ map entry_text ps
pieces-render [] = refl
pieces-render (p ∷ ps) = rw (trim-entry p, entry_ne_nil p, pieces-render ps) refl

add_peers-render :
    (ps : List Peer) (m : Map Text) → add_peers (map entry_text ps) m ≡ insert_all ps m
unfolding add_peers
add_peers-render [] m = refl
add_peers-render (p ∷ ps) m =
    ground (arith, parse-entry p, add_peers-render ps (insert p.id p.value m))

-- Reading a list of peers that is written as `id=value` with commas between gives the map of the
-- peers, or the refusal of the first id that stands twice.
pub parse_peer_map-render : (ps : List Peer) → parse_peer_map (render ps) ≡ insert_all ps []
unfolding parse_peer_map
parse_peer_map-render [] = unfold split add_peers trim_start trim_end in refl
parse_peer_map-render (p ∷ ps) =
    rw (split-render p ps, pieces-render (p ∷ ps)) (add_peers-render (p ∷ ps) [])
