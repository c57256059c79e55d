-- ===== src/Http/Head.antt =====
-- `parse_response_head` of raft/transport/http.rs, and the string functions of the standard library
-- that it calls, on code points.
use Prim.Native.Char.{code}
use rust_kv.Base.{
  ℕ, String, ◌+◌, ◌-◌, ◌*◌, ◌^◌, Bool, true, false, not, ◌&&◌, ◌||◌, Option, none, some, List, [],
  ◌∷◌, map, drop, leb, ltb, ◌==◌, if◌then◌else◌,
}
use rust_kv.Outcome.{◌>>=◌}
use rust_kv.Chars.{chars, is_whitespace, is_digit}

abbrev pub Bytes : Type 0
Bytes = List ℕ

-- What is read of a sequence of UTF-8: how many bytes are missing, the bounds of the next one, and the
-- bits so far.
pub record Utf8 : Type 0 where
  pub need : ℕ
  pub lo : ℕ
  pub hi : ℕ
  pub bits : ℕ

abbrev pub sequence : ℕ → ℕ → ℕ → ℕ → Option Utf8
sequence need lo hi bits = some (record { need = need; lo = lo; hi = hi; bits = bits })

abbrev pub lead : ℕ → Option Utf8
lead b =
    if ltb b 0x80
    then sequence 0 0x80 0xBF b
    else if ltb b 0xC2
    then none
    else if ltb b 0xE0
    then sequence 1 0x80 0xBF (b - 0xC0)
    else if b == 0xE0
    then sequence 2 0xA0 0xBF 0
    else if b == 0xED
    then sequence 2 0x80 0x9F 13
    else if ltb b 0xF0
    then sequence 2 0x80 0xBF (b - 0xE0)
    else if b == 0xF0
    then sequence 3 0x90 0xBF 0
    else if ltb b 0xF4
    then sequence 3 0x80 0xBF (b - 0xF0)
    else if b == 0xF4
    then sequence 3 0x80 0x8F 4
    else none

abbrev pub continue : Utf8 → ℕ → Option Utf8
continue s b =
    if leb s.lo b && leb b s.hi
    then sequence (s.need - 1) 0x80 0xBF (s.bits * 0x40 + (b - 0x80))
    else none

unfoldable pub decode : Utf8 → Bytes → Option (List ℕ)
decode s [] = if s.need == 0 then some [] else none
decode s (b ∷ bs) = elim (if s.need == 0 then lead b else continue s b) [
  | none ↦ none
  | some t ↦ do cs ← decode t bs; some (if t.need == 0 then t.bits ∷ cs else cs)
]

-- `str::from_utf8`
unfoldable pub from_utf8 : Bytes → Option (List ℕ)
unfolding decode
from_utf8 raw = decode (record { need = 0; lo = 0x80; hi = 0xBF; bits = 0 }) raw

abbrev pub codes : String → List ℕ
codes s = map code (chars s)

abbrev pub lower : ℕ → ℕ
lower c = if leb b'A' c && leb c b'Z' then c + 32 else c

-- `s.strip_prefix(p)`
unfoldable pub strip_prefix : List ℕ → List ℕ → Option (List ℕ)
strip_prefix [] s = some s
strip_prefix (p ∷ ps) [] = none
strip_prefix (p ∷ ps) (c ∷ cs) = let rest = strip_prefix ps cs in if p == c then rest else none

unfoldable pub starts_with : List ℕ → List ℕ → Bool
unfolding strip_prefix
starts_with p s = elim (strip_prefix p s) [ none ↦ false | some _ ↦ true ]

-- `s.contains(p)`
unfoldable pub includes : List ℕ → List ℕ → Bool
unfolding starts_with
includes p [] = starts_with p []
includes p (c ∷ cs) = starts_with p (c ∷ cs) || includes p cs

-- `s.split_whitespace()`: the word that is read, and the words behind it
abbrev pub add_word : List ℕ → List (List ℕ) → List (List ℕ)
add_word [] ws = ws
add_word (c ∷ w) ws = (c ∷ w) ∷ ws

unfoldable pub words : List ℕ → List ℕ × List (List ℕ)
unfolding is_whitespace
words [] = ([], [])
words (c ∷ cs) =
    let (w, ws) = words cs in if is_whitespace c then ([], add_word w ws) else (c ∷ w, ws)

unfoldable pub split_whitespace : List ℕ → List (List ℕ)
unfolding words
split_whitespace s = let (w, ws) = words s in add_word w ws

unfoldable pub trim_left : List ℕ → List ℕ
unfolding is_whitespace
trim_left [] = []
trim_left (c ∷ cs) = let rest = trim_left cs in if is_whitespace c then rest else c ∷ cs

unfoldable pub keep_blank : ℕ → List ℕ → List ℕ
unfolding is_whitespace
keep_blank c [] = if is_whitespace c then [] else c ∷ []
keep_blank c (x ∷ xs) = c ∷ x ∷ xs

unfoldable pub trim_right : List ℕ → List ℕ
unfolding keep_blank
trim_right [] = []
trim_right (c ∷ cs) = keep_blank c (trim_right cs)

-- `s.parse()` at an unsigned type with the values below `limit`: digits, perhaps behind one plus sign
unfoldable pub digits : ℕ → ℕ → List ℕ → Option ℕ
digits limit acc [] = some acc
digits limit acc (c ∷ cs) =
    let next = acc * 10 + (c - b'0') in
    let rest = digits limit next cs in if is_digit c && ltb next limit then rest else none

unfoldable pub parse_unsigned : ℕ → List ℕ → Option ℕ
unfolding digits
parse_unsigned limit [] = none
parse_unsigned limit (c ∷ []) = if c == b'+' then none else digits limit 0 (c ∷ [])
parse_unsigned limit (c ∷ d ∷ cs) =
    if c == b'+' then digits limit 0 (d ∷ cs) else digits limit 0 (c ∷ d ∷ cs)

-- `s.lines()` of a text that is not empty: a carriage return before a newline goes with it.
abbrev pub begin_line : ℕ → List (List ℕ) → List (List ℕ)
begin_line c [] = (c ∷ []) ∷ []
begin_line c (l ∷ ls) = (c ∷ l) ∷ ls

unfoldable pub text_lines : List ℕ → List (List ℕ)
unfolding starts_with
text_lines [] = []
text_lines (c ∷ cs) =
    let rest = text_lines cs in
    if c == b'\n'
    then [] ∷ rest
    else if c == b'\r' && starts_with (b'\n' ∷ []) cs
    then rest
    else begin_line c rest

pub record ResponseHead : Type 0 where
  pub content_length : Option ℕ
  pub keep_alive : Bool

-- The loop over the header lines: the last `content-length` counts, and each is a number.
unfoldable pub find_length : Option ℕ → List (List ℕ) → Option (Option ℕ)
unfolding strip_prefix trim_left trim_right parse_unsigned
find_length found [] = some found
find_length found (l ∷ ls) = elim (strip_prefix (codes "content-length:") l) [
  | none ↦ find_length found ls
  | some value ↦ do
    n ← parse_unsigned (2 ^ 64) (trim_right (trim_left value))
    find_length (some n) ls
]

-- `head.split_whitespace().nth(1)`
abbrev pub second : List (List ℕ) → Option (List ℕ)
second [] = none
second (w ∷ []) = none
second (w ∷ v ∷ ws) = some v

-- What the head says once the status is known to be 200.
unfoldable pub read_headers : List ℕ → Option ResponseHead
unfolding includes text_lines find_length
read_headers head = if includes (codes "transfer-encoding: chunked") head then none else do
  content_length ← find_length none (drop 1 (text_lines head))
  some (record {
    content_length = content_length;
    keep_alive = not (includes (codes "connection: close") head);
  })

-- `none` is an error of kind `InvalidData`.
unfoldable pub parse_response_head : Bytes → Option ResponseHead
unfolding from_utf8 split_whitespace parse_unsigned read_headers
parse_response_head raw = do
  head ← from_utf8 raw
  word ← second (split_whitespace head)
  status ← parse_unsigned (2 ^ 16) word
  if status == 200 then read_headers (map lower head) else none
