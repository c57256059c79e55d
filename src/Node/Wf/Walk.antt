-- ===== src/Node/Wf/Walk.antt =====
-- Where the walk over the entries of an AppendEntries ends (`handle_append_entries` of raft/node.rs).
use rust_kv.Base.{
  ℕ, suc, ◌+◌, ◌≤◌, ◌<◌, ◌≡◌, ◌≢◌, sym, ◌∙◌, inl, inr, none, some, List, [], ◌∷◌, arith, true, leb,
  ◌==◌, length, All, Bool-cases, Option-cases,
}
use native.Mathlib.Decide.{dec_le}
use rust_kv.Types.{Term, LogIndex, LogEntry, AppendEntriesArgs}
use rust_kv.Storage.{Storage, snapshot_index, last_index, term}
use rust_kv.Storage.Contiguous.{Follows}
use rust_kv.Storage.Lookup.{term-exists, term-bounds, last_index-ge}
use rust_kv.Node.Rpc.{Walk, held, missing, conflict, walk, prev_matches}

-- Where the walk may end, for entries after the index `i`.
module _ {V : Type 0} where
  -- An entry does not contradict the committed part of the log.
  abbrev pub Agrees : Storage V → LogIndex → LogEntry V → Type 0
  Agrees s commit e = snapshot_index s < e.index → e.index ≤ commit → term s e.index ≡ some e.term

  abbrev pub WalkEnd : LogIndex → List (LogEntry V) → Storage V → LogIndex → Walk → Type 0
  WalkEnd i es s commit held = i + length es ≤ last_index s
  WalkEnd i es s commit (missing f) = (i < f) × (f ≤ i + length es) × (f ≡ last_index s + 1)
  WalkEnd i es s commit (conflict f) =
      (i < f) × (f ≤ i + length es) × (snapshot_index s < f) × (f ≤ last_index s) × (commit < f)

  pub WalkEnd-cons :
      (i : LogIndex) (e : LogEntry V) (es : List (LogEntry V)) (s : Storage V) (c : LogIndex)
      (r : Walk)
      → WalkEnd (suc i) es s c r
      → WalkEnd i (e ∷ es) s c r
  WalkEnd-cons i e es s c held h = omega arith
  WalkEnd-cons i e es s c (missing f) h = omega arith
  WalkEnd-cons i e es s c (conflict f) h = omega arith

  pub end_missing :
      (i : LogIndex) (e : LogEntry V) (es : List (LogEntry V)) (s : Storage V) (c : LogIndex)
      → Follows i (e ∷ es)
      → i ≤ last_index s
      → snapshot_index s < e.index
      → term s e.index ≡ none
      → WalkEnd i (e ∷ es) s c (missing e.index)
  end_missing i e es s c f le up miss = elim (dec_le e.index (last_index s)) [
    | yes inside ↦
        let (t, q) = term-exists s e.index (omega arith) inside in absurd (ground (arith, q, miss))
    | no outside ↦ omega arith
  ]

  pub end_conflict :
      (i : LogIndex) (e : LogEntry V) (es : List (LogEntry V)) (s : Storage V) (c : LogIndex)
      {t : Term}
      → Follows i (e ∷ es)
      → snapshot_index s < e.index
      → term s e.index ≡ some t
      → t ≢ e.term
      → Agrees s c e
      → WalkEnd i (e ∷ es) s c (conflict e.index)
  end_conflict i e es s c {t} f up q other a = elim (dec_le e.index c) [
    | yes committed ↦
        let p : some t ≡ some e.term = sym q ∙ a up committed in absurd (other (ground arith))
    | no above ↦ omega (arith, term-bounds s e.index q)
  ]

  pub walk-WalkEnd :
      (i : LogIndex) (es : List (LogEntry V)) (s : Storage V) (c : LogIndex)
      → Follows i es
      → i ≤ last_index s
      → All (Agrees s c) es
      → WalkEnd i es s c (walk s es)
  unfolding walk
  walk-WalkEnd i [] s c f le a = omega arith
  walk-WalkEnd i (e ∷ es) s c f le a = elim (Bool-cases (leb e.index (snapshot_index s))) [
    | inl below ↦ rw below (
        WalkEnd-cons i e es s c (walk s es)
          (walk-WalkEnd (suc i) es s c f.1 (ground (arith, below, last_index-ge s)) a.1))
    | inr above ↦ rw above (elim (Option-cases (term s e.index)) [
      | inl miss ↦ rw miss (end_missing i e es s c f le (ground (arith, above)) miss)
      | inr (t, q) ↦ rw q (elim (Bool-cases (t == e.term)) [
        | inl same ↦ rw same (
            WalkEnd-cons i e es s c (walk s es)
              (walk-WalkEnd (suc i) es s c f.1 (omega (arith, term-bounds s e.index q)) a.1))
        | inr other ↦
            rw other
              (end_conflict i e es s c f (ground (arith, above)) q (ground (arith, other)) a.0)
      ])
    ])
  ]

module _ {V : Type 0} where
  -- The entries of a request continue its previous index, and none contradicts what is committed.
  pub record IsBatch (s : Storage V) (commit : LogIndex) (args : AppendEntriesArgs V) : Type 0 where
    pub follows : Follows args.prev_log_index args.entries
    pub agrees : All (Agrees s commit) args.entries

  -- The end of the request's entries lies in the log.
  abbrev pub Covers : AppendEntriesArgs V → Storage V → Type 0
  Covers args s = args.prev_log_index + length args.entries ≤ last_index s

module _ {V : Type 0} where
  -- A matched previous index is in the log, or compacted.
  pub prev_bounds : (s : Storage V) (i t : ℕ) → prev_matches s i t ≡ true → i ≤ last_index s
  unfolding prev_matches
  prev_bounds s i t h = elim (Option-cases (term s i)) [
    | inl miss ↦ ground (arith, miss, last_index-ge s)
    | inr (t', q) ↦ omega (arith, term-bounds s i q)
  ]
