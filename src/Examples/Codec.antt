-- ===== src/Examples/Codec.antt =====
-- The codec of the examples, over numbers as values.
use Prim.Native.Nat.{compare, Ordering}
use Prim.Native.Char.{Char, char, code, nul, IsLt}
use Prim.Native.String.{String}
use text.Mathlib.TextEquality.{Char-path}
use text.Mathlib.TextBridge.{to_list, of_list, of_list-to_list}
use rust_kv.Base.{
  ℕ, ◌≡◌, refl, Option, none, some, [], ◌∷◌, ◌++◌, arith, ◌==◌, append-nil, if◌then◌else◌,
}
use rust_kv.Types.{
  Session, MemberAddr, Membership, HardState, Command, put, delete, noop, config_change, LogEntry,
  Snapshot,
}
use rust_kv.Storage.Disk.{Bytes, newline, FileCodec, IsFileCodec}
use rust_kv.Examples.Format.{
  Format, number, via, pair, list, option, number-get_short, pair-get_nil, pair-get_short,
  via-get_short,
}

abbrev Both : Ordering → Ordering → Type 0
Both Ordering.lt o = IsLt o
Both Ordering.eq _ = ⊥
Both Ordering.gt _ = ⊥

abbrev Scalar : Ordering → Ordering → Ordering → Type 0
Scalar Ordering.lt _ _ = Unit
Scalar Ordering.eq o p = Both o p
Scalar Ordering.gt o p = Both o p

decide_lt : (o : Ordering) → Option (IsLt o)
decide_lt Ordering.lt = some tt
decide_lt Ordering.eq = none
decide_lt Ordering.gt = none

decide_both : (o p : Ordering) → Option (Both o p)
decide_both Ordering.lt p = decide_lt p
decide_both Ordering.eq p = none
decide_both Ordering.gt p = none

decide_scalar : (o p q : Ordering) → Option (Scalar o p q)
decide_scalar Ordering.lt p q = some tt
decide_scalar Ordering.eq p q = decide_both p q
decide_scalar Ordering.gt p q = decide_both p q

from_code : ℕ → Char
from_code n = elim (decide_scalar (compare n 55296) (compare 57343 n) (compare n 1114112)) [
  | none ↦ nul
  | some h ↦ char n h
]

decide_lt_total : (o : Ordering) → IsLt o → (h : IsLt o) × (decide_lt o ≡ some h)
unfolding decide_lt
decide_lt_total Ordering.lt h = (tt, refl)
decide_lt_total Ordering.eq h = absurd h
decide_lt_total Ordering.gt h = absurd h

decide_both_total : (o p : Ordering) → Both o p → (h : Both o p) × (decide_both o p ≡ some h)
unfolding decide_both
decide_both_total Ordering.lt p h = decide_lt_total p h
decide_both_total Ordering.eq p h = absurd h
decide_both_total Ordering.gt p h = absurd h

decide_scalar_total :
    (o p q : Ordering) → Scalar o p q → (h : Scalar o p q) × (decide_scalar o p q ≡ some h)
unfolding decide_scalar
decide_scalar_total Ordering.lt p q h = (tt, refl)
decide_scalar_total Ordering.eq p q h = decide_both_total p q h
decide_scalar_total Ordering.gt p q h = decide_both_total p q h

from_code-code : (c : Char) → from_code (code c) ≡ c
unfolding from_code
from_code-code (char n h) =
    let (k, e) = decide_scalar_total (compare n 55296) (compare 57343 n) (compare n 1114112) h in
    rw (e, from_code) (Char-path (char n k) (char n h) refl)

character : Format Char
character = via code from_code from_code-code number

string : Format String
string = via to_list of_list of_list-to_list (list character)

session : Format Session
session =
    via (λ (x : Session). (x.client, x.seq)) (λ p. record { client = p.0; seq = p.1 }) (λ x. refl)
      (pair number number)

member : Format MemberAddr
member =
    via (λ (x : MemberAddr). (x.raft, x.client)) (λ p. record { raft = p.0; client = p.1 })
      (λ x. refl) (pair string string)

membership : Format Membership
membership = list (pair number member)

-- The constructor's number, and all fields that some constructor has.
abbrev Fields : Type 0
Fields = ℕ × (String × (ℕ × (Option Session × Membership)))

abbrev fields : Command ℕ → Fields
fields (put k v s) = (0, (k, (v, (s, []))))
fields (delete k s) = (1, (k, (0, (s, []))))
fields noop = (2, ("", (0, (none, []))))
fields (config_change m) = (3, ("", (0, (none, m))))

abbrev from_fields : Fields → Command ℕ
from_fields (n, (k, (v, (s, m)))) =
    if n == 0
    then put k v s
    else if n == 1
    then delete k s
    else if n == 2
    then noop
    else config_change m

from_fields-fields : (x : Command ℕ) → from_fields (fields x) ≡ x
from_fields-fields (put k v s) = refl
from_fields-fields (delete k s) = refl
from_fields-fields noop = refl
from_fields-fields (config_change m) = refl

command : Format (Command ℕ)
command =
    via fields from_fields from_fields-fields
      (pair number (pair string (pair number (pair (option session) membership))))

pub log_entry : Format (LogEntry ℕ)
log_entry =
    via (λ (e : LogEntry ℕ). (e.term, (e.index, e.command)))
      (λ p. record { term = p.0; index = p.1.0; command = p.1.1 }) (λ e. refl)
      (pair number (pair number command))

pub snapshot : Format (Snapshot ℕ)
snapshot =
    via
      (λ (x : Snapshot ℕ). (x.last_included_index, (x.last_included_term, (x.membership, x.state))))
      (λ p. record {
        last_included_index = p.0;
        last_included_term = p.1.0;
        membership = p.1.1.0;
        state = p.1.1.1;
      })
      (λ x. refl) (pair number (pair number (pair (option membership) number)))

pub hard_state : Format HardState
hard_state =
    via (λ (h : HardState). (h.current_term, h.voted_for))
      (λ p. record { current_term = p.0; voted_for = p.1 }) (λ h. refl)
      (pair number (option number))

pub parse : {A : Type 0} → Format A → Bytes → Option A
parse F bs = elim (F.get bs) [ none ↦ none | some (a, rest) ↦ some a ]

parse-put : {A : Type 0} (F : Format A) (a : A) (rest : Bytes) → parse F (F.put a ++ rest) ≡ some a
unfolding parse
parse-put F a rest = ground (arith, F.back a rest)

parse-put_all : {A : Type 0} (F : Format A) (a : A) → parse F (F.put a) ≡ some a
parse-put_all F a = rw (append-nil (F.put a)) at (parse-put F a [])

abbrev pub codec : FileCodec ℕ
codec = record {
  encode_entry = log_entry.put;
  parse_entry = parse log_entry;
  encode_snapshot = snapshot.put;
  parse_snapshot = parse snapshot;
  encode_hard_state = hard_state.put;
  parse_hard_state = parse hard_state;
}

pub codec-IsFileCodec : IsFileCodec codec
codec-IsFileCodec = record {
  one_line = log_entry.one_line;
  entry_back = λ e. parse-put log_entry e (newline ∷ []);
  snapshot_back = parse-put_all snapshot;
  hard_state_back = parse-put_all hard_state;
}

-- A line that is blank does not parse.
pub parse_blank : parse log_entry (newline ∷ []) ≡ none
unfolding parse log_entry
parse_blank =
    let short = number-get_short newline in
    let p =
      pair-get_short number (pair number command) (newline ∷ []) short.0
        (pair-get_nil number command short.1) in
    let q =
      via-get_short (λ (e : LogEntry ℕ). (e.term, (e.index, e.command)))
        (λ p. record { term = p.0; index = p.1.0; command = p.1.1 }) (λ e. refl)
        (pair number (pair number command)) (newline ∷ []) p in
    ground (arith, q)
