-- ===== src/Sim/Claims.antt =====
-- The reports of the observer of raft/transport/sim.rs, and the claims that it keeps.
use rust_kv.Base.{
  ◌≡◌, refl, sym, ◌∙◌, ap, inl, inr, ◌&&◌, Option, none, some, List, [], ◌∷◌, ◌++◌, arith, ◌==◌,
  if◌then◌else◌, Bool-cases, Option-cases,
}
use rust_kv.Maps.{Map, get, get_or, insert, get-insert}
use rust_kv.Types.{NodeId, Term, LogIndex, Command}
use rust_kv.Node.Evolve.Defs.{by_if}
use rust_kv.Sim.{Violation, two_leaders, Observer, report, claim_leadership, seen, note}

pub snoc-nonempty : (xs : List Violation) (x : Violation) → xs ++ x ∷ [] ≡ [] → xs ≡ []
snoc-nonempty [] x h = refl
snoc-nonempty (y ∷ ys) x h = cc

pub last_one : (v : Violation) (xs : List Violation) → xs ++ v ∷ [] ≡ [] → ⊥
last_one v [] h = cc
last_one v (x ∷ xs) h = cc

module _ {V : Type 0} where
  -- A later state of the observer: nothing recorded is forgotten.
  pub record Grows (st st' : Observer V) : Type 0 where
    pub quiet : st'.violations ≡ [] → st.violations ≡ []
    pub leaders :
        (t : Term) (id : NodeId)
        → get t st.leaders_per_term ≡ some id
        → get t st'.leaders_per_term ≡ some id
    pub commands :
        (t : Term) (i : LogIndex) (c : Command V)
        → seen t i st.entries_seen ≡ some c
        → seen t i st'.entries_seen ≡ some c

  pub Grows-refl : (st : Observer V) → Grows st st
  Grows-refl st = record { quiet = λ h. h; leaders = λ t id q. q; commands = λ t i c q. q }

  pub Grows-trans : (a b c : Observer V) → Grows a b → Grows b c → Grows a c
  Grows-trans a b c x y = record {
    quiet = λ h. x.quiet (y.quiet h);
    leaders = λ t id q. y.leaders t id (x.leaders t id q);
    commands = λ t i d q. y.commands t i d (x.commands t i d q);
  }

  pub report-Grows : (v : Option Violation) (st : Observer V) → Grows st (report v st)
  unfolding report
  report-Grows none st = Grows-refl st
  report-Grows (some v) st = record {
    quiet = snoc-nonempty st.violations v;
    leaders = λ t id q. q;
    commands = λ t i c q. q;
  }

  -- A silent report reports nothing.
  pub quiet-report :
      (v : Option Violation) (st : Observer V) → (report v st).violations ≡ [] → v ≡ none
  unfolding report
  quiet-report none st h = refl
  quiet-report (some v) st h = absurd (last_one v st.violations h)

  pub reported_breaks : (v : Violation) (st : Observer V) → (report (some v) st).violations ≡ [] → ⊥
  reported_breaks v st h = let q = quiet-report (some v) st h in cc

  pub seen-get_or :
      (t : Term) (i : LogIndex) (m : Map (Map (Command V))) → seen t i m ≡ get i (get_or [] t m)
  unfolding seen get
  seen-get_or t i m = by_option_eq (get t m)
    where
      by_option_eq :
          (o : Option (Map (Command V)))
          → (elim o [ none ↦ none | some by_index ↦ get i by_index ])
            ≡ get i (elim o [ none ↦ [] | some v ↦ v ])
      by_option_eq none = refl
      by_option_eq (some b) = refl

  pub get_or-insert :
      (t t' : Term) (b : Map (Command V)) (m : Map (Map (Command V)))
      → get_or [] t' (insert t b m) ≡ (if t' == t then b else get_or [] t' m)
  get_or-insert t t' b m = ground (arith, get-insert t t' b m)

  pub seen-note :
      (t t' : Term) (i i' : LogIndex) (c : Command V) (m : Map (Map (Command V)))
      → seen t' i' (note t i c m) ≡ (if t' == t && i' == i then some c else seen t' i' m)
  unfolding note
  seen-note t t' i i' c m =
      let b : Map (Command V) = get_or [] t m in
      let found : seen t' i' (note t i c m)
          ≡ get i' (if t' == t then insert i c b else get_or [] t' m) =
        seen-get_or t' i' (note t i c m) ∙ ap (get i') (get_or-insert t t' (insert i c b) m) in
      elim (Bool-cases (t' == t)) [
        | inl here ↦
            let e : t ≡ t' = ground (arith, here) in
            found
            ∙ ground (
              arith,
              here,
              get-insert i i' c b,
              seen-get_or t' i' m,
              ap (λ (u : Term). get i' (get_or [] u m)) e,
            )
        | inr there ↦ found ∙ ground (arith, there, seen-get_or t' i' m)
      ]

  pub claim-fresh :
      (t : Term) (id : NodeId) (st : Observer V)
      → get t st.leaders_per_term ≡ none
      → claim_leadership t id st ≡ record st { leaders_per_term = insert t id st.leaders_per_term }
  unfolding claim_leadership
  claim-fresh t id st q = ground (arith, q)

  pub claim-known :
      (t : Term) (id known : NodeId) (st : Observer V)
      → get t st.leaders_per_term ≡ some known
      → claim_leadership t id st
        ≡ (if known == id then st else report (some (two_leaders known id t)) st)
  unfolding claim_leadership
  claim-known t id known st q = ground (arith, q)

  -- The first claim of a term is recorded, and a silent one agrees with it.
  pub claim_leadership-Grows :
      (t : Term) (id : NodeId) (st : Observer V) → Grows st (claim_leadership t id st)
  claim_leadership-Grows t id st = elim (Option-cases (get t st.leaders_per_term)) [
    | inl fresh ↦ rw (claim-fresh t id st fresh) (record {
      quiet = λ h. h;
      leaders = λ u j q. ground (arith, fresh, q, get-insert t u id st.leaders_per_term);
      commands = λ u i c q. q;
    })
    | inr (known, q) ↦ rw (claim-known t id known st q) (
        by_if (Grows st) (known == id) (Grows-refl st)
          (report-Grows (some (two_leaders known id t)) st))
  ]

  pub claim_leadership-recorded :
      (t : Term) (id : NodeId) (st : Observer V)
      → (claim_leadership t id st).violations ≡ []
      → get t (claim_leadership t id st).leaders_per_term ≡ some id
  claim_leadership-recorded t id st h = elim (Option-cases (get t st.leaders_per_term)) [
    | inl fresh ↦
        rw (claim-fresh t id st fresh) (ground (arith, get-insert t t id st.leaders_per_term))
    | inr (known, q) ↦ elim (Bool-cases (known == id)) [
      | inl same ↦ let e = claim-known t id known st q in rw e (rw same (ground (arith, same, q)))
      | inr other ↦
          let e : claim_leadership t id st ≡ report (some (two_leaders known id t)) st =
            claim-known t id known st q ∙ ground (arith, other) in
          absurd (
            reported_breaks (two_leaders known id t) st
              (sym (ap (λ (x : Observer V). x.violations) e) ∙ h))
    ]
  ]
