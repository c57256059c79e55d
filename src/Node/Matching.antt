-- ===== src/Node/Matching.antt =====
-- The entries of an AppendEntries against a log: what the walk of `handle_append_entries` of
-- raft/node.rs has seen, and what is there once the rest is appended.
use rust_kv.Base.{
  ℕ, suc, ◌+◌, ◌-◌, ◌≤◌, ◌<◌, ◌≡◌, refl, sym, ◌∙◌, ap, inl, inr, Bool, true, false, none, some,
  List, [], ◌∷◌, ◌++◌, arith, leb, ◌==◌, get_elem?, get_elem?-drop, drop, All, All-map,
  if◌then◌else◌, Bool-cases, Option-cases,
}
use mathlib.Core.Path.{subst}
use native.Mathlib.Decide.{dec_lt}
use rust_kv.Outcome.{Ensures, Ensures-some, Ensures-none}
use rust_kv.Types.{LogIndex, LogEntry}
use rust_kv.Storage.{
  Storage, Result, expect, ok, err, snapshot_index, last_index, entry, term, check_contiguous,
  append,
}
use rust_kv.Storage.Contiguous.{Follows}
use rust_kv.Storage.Lookup.{term-append, truncated, term-truncated}
use rust_kv.Storage.Log.{entry-appended, term-of_entry}
use rust_kv.Node.Rpc.{Walk, held, missing, conflict, walk}

module _ {V : Type 0} where
  -- The log agrees with an entry, unless the entry is compacted.
  abbrev pub Holds : Storage V → LogEntry V → Type 0
  Holds s e = snapshot_index s < e.index → term s e.index ≡ some e.term

  -- Each entry stands in the batch where its index says.
  abbrev pub Located : LogIndex → List (LogEntry V) → LogEntry V → Type 0
  Located i es e = (i < e.index) × (get_elem? es (e.index - (i + 1)) ≡ some e)

  pub Located-cons :
      (i : LogIndex) (x : LogEntry V) (es : List (LogEntry V)) (e : LogEntry V)
      → Located (suc i) es e
      → Located i (x ∷ es) e
  Located-cons i x es e h =
      let p : e.index - (i + 1) ≡ suc (e.index - (suc i + 1)) = omega (arith, h.0) in
      (omega (arith, h.0), ap (get_elem? (x ∷ es)) p ∙ h.1)

  pub Follows-Located :
      (i : LogIndex) (es : List (LogEntry V)) → Follows i es → All (Located i es) es
  Follows-Located i [] f = tt
  Follows-Located i (x ∷ es) f =
      let p : x.index - (i + 1) ≡ 0 = omega (arith, f.0) in
      (
        (omega (arith, f.0), ap (get_elem? (x ∷ es)) p),
        All-map (Located (suc i) es) (Located i (x ∷ es)) es (Located-cons i x es)
            (Follows-Located (suc i) es f.1),
      )

  -- What the walk has seen of an entry before it ended.
  abbrev pub Before : Storage V → Walk → LogEntry V → Type 0
  Before s held e = Holds s e
  Before s (missing f) e = e.index < f → Holds s e
  Before s (conflict f) e = e.index < f → Holds s e

  pub Before-of_Holds : (s : Storage V) (r : Walk) (e : LogEntry V) → Holds s e → Before s r e
  Before-of_Holds s held e h = h
  Before-of_Holds s (missing f) e h = λ _. h
  Before-of_Holds s (conflict f) e h = λ _. h

  pub after_end :
      (i f : LogIndex) (s : Storage V) (es : List (LogEntry V))
      → f ≤ suc i
      → Follows i es
      → All (λ e. e.index < f → Holds s e) es
  after_end i f s es le h =
      All-map (Located i es) (λ e. e.index < f → Holds s e) es
        (λ e l lt. absurd (omega (arith, l.0))) (Follows-Located i es h)

  -- Where the walk goes at an entry.
  pub walk-skip :
      (s : Storage V) (e : LogEntry V) (es : List (LogEntry V))
      → leb e.index (snapshot_index s) ≡ true
      → walk s (e ∷ es) ≡ walk s es
  unfolding walk
  walk-skip s e es below = rw below

  pub walk-missing :
      (s : Storage V) (e : LogEntry V) (es : List (LogEntry V))
      → leb e.index (snapshot_index s) ≡ false
      → term s e.index ≡ none
      → walk s (e ∷ es) ≡ missing e.index
  unfolding walk
  walk-missing s e es above q = rw above (rw q)

  pub walk-term :
      (s : Storage V) (e : LogEntry V) (es : List (LogEntry V)) (t : ℕ)
      → leb e.index (snapshot_index s) ≡ false
      → term s e.index ≡ some t
      → walk s (e ∷ es) ≡ (if t == e.term then walk s es else conflict e.index)
  unfolding walk
  walk-term s e es t above q = rw above (rw q)

  pub walk-Before :
      (i : LogIndex) (s : Storage V) (es : List (LogEntry V))
      → Follows i es
      → All (Before s (walk s es)) es
  walk-Before i s [] f = tt
  walk-Before i s (e ∷ es) f =
      let Seen = λ (r : Walk). All (Before s r) (e ∷ es) in
      let later = walk-Before (suc i) s es f.1 in
      elim (Bool-cases (leb e.index (snapshot_index s))) [
        | inl below ↦
            subst Seen (sym (walk-skip s e es below))
              (Before-of_Holds s (walk s es) e (λ up. absurd (ground (arith, below))), later)
        | inr above ↦ elim (Option-cases (term s e.index)) [
          | inl miss ↦
              subst Seen (sym (walk-missing s e es above miss))
                (after_end i e.index s (e ∷ es) (omega (arith, f.0)) f)
          | inr (t, q) ↦
              subst Seen (sym (walk-term s e es t above q)) (elim (Bool-cases (t == e.term)) [
                | inl same ↦
                    subst (λ (b : Bool). Seen (if b then walk s es else conflict e.index))
                      (sym same)
                      (Before-of_Holds s (walk s es) e (λ _. ground (arith, q, same)), later)
                | inr other ↦
                    subst (λ (b : Bool). Seen (if b then walk s es else conflict e.index))
                      (sym other) (after_end i e.index s (e ∷ es) (omega (arith, f.0)) f)
              ])
        ]
      ]

  pub append-Appended :
      (es : List (LogEntry V)) (s : Storage V)
      → Ensures (λ s'. s' ≡ record s { log = s.log ++ es }) (expect (append es s))
  unfolding append
  append-Appended es s =
      elim (check_contiguous (last_index s + 1) es)
        as (λ (r : Result Unit).
          Ensures (λ s'. s' ≡ record s { log = s.log ++ es })
            (expect (elim r [ ok _ ↦ ok (record s { log = s.log ++ es }) | err e ↦ err e ]))) [
              | ok _ ↦ Ensures-some _ refl
              | err e ↦ Ensures-none
            ]

  -- The end of the batch, from `first` on, put at the end of the log.
  abbrev pub with_rest : LogIndex → LogIndex → List (LogEntry V) → Storage V → Storage V
  with_rest i first es s = record s { log = s.log ++ drop (first - i - 1) es }

  pub with_rest-entry :
      (i first : LogIndex) (es : List (LogEntry V)) (s : Storage V) (e : LogEntry V)
      → i < first
      → first ≡ last_index s + 1
      → Located i es e
      → first ≤ e.index
      → entry (with_rest i first es s) e.index ≡ some e
  with_rest-entry i first es s e lo last l hi =
      let k = first - i - 1 in
      let j : ℕ = e.index - (last_index s + 1) in
      let p : k + j ≡ e.index - (i + 1) = omega (arith, l.0) in
      entry-appended s (drop k es) e.index (omega arith)
      ∙ get_elem?-drop k es j
      ∙ ap (get_elem? es) p
      ∙ l.1

  pub with_rest-Holds :
      (i first : LogIndex) (es : List (LogEntry V)) (s : Storage V) (e : LogEntry V)
      → i < first
      → first ≡ last_index s + 1
      → Located i es e × (e.index < first → Holds s e)
      → Holds (with_rest i first es s) e
  unfolding snapshot_index
  with_rest-Holds i first es s e lo last (l, old) up = elim (dec_lt e.index first) [
    | yes before ↦ term-append s (drop (first - i - 1) es) e.index (omega arith) ∙ old before up
    | no after ↦
        term-of_entry (with_rest i first es s) e.index
          (with_rest-entry i first es s e lo last l (omega arith))
  ]

  pub truncated-Holds :
      (f : LogIndex) (s : Storage V) (e : LogEntry V)
      → (e.index < f → Holds s e)
      → e.index < f
      → Holds (truncated f s) e
  unfolding snapshot_index
  truncated-Holds f s e h lt up = term-truncated s f e.index lt ∙ h lt up
