-- ===== src/Sim/Observed.antt =====
-- What the observer of raft/transport/sim.rs has when it has recorded no violation.
use rust_kv.Base.{
  ◌≡◌, ◌≤◌, sym, ◌∙◌, ap, inl, inr, ◌+◌, Bool, true, none, some, List, [], ◌∷◌, arith, All, All-map,
  if◌then◌else◌, Bool-cases, Option-cases,
}
use rust_kv.Maps.{get}
use rust_kv.Types.{Term, LogIndex, Command, LogEntry, AppendEntriesArgs, RpcRequest}
use rust_kv.Node.Evolve.Defs.{by_if}
use rust_kv.Sim.{
  two_commands, Observer, report, claim_leadership, shape_fault, check_shape, seen, note,
  observe_entry, observe_entries, inspect_append_entries,
}
use rust_kv.Sim.Claims.{
  Grows-refl, Grows-trans, report-Grows, quiet-report, reported_breaks, seen-note,
  claim_leadership-Grows, claim_leadership-recorded, Grows,
}

module _ {V : Type 0} where
  -- The command that the observer knows for an entry's term and index is the entry's.
  abbrev pub Known : Observer V → LogEntry V → Type 0
  Known st e = seen e.term e.index st.entries_seen ≡ some e.command

  module _ (same_command : Command V → Command V → Bool) where
    entry-fresh :
        (e : LogEntry V) (st : Observer V)
        → seen e.term e.index st.entries_seen ≡ none
        → observe_entry same_command e st
          ≡ record st { entries_seen = note e.term e.index e.command st.entries_seen }
    unfolding observe_entry
    entry-fresh e st q = ground (arith, q)

    entry-known :
        (e : LogEntry V) (c : Command V) (st : Observer V)
        → seen e.term e.index st.entries_seen ≡ some c
        → observe_entry same_command e st ≡ (
            if same_command c e.command then st else report (some (two_commands e.term e.index)) st)
    unfolding observe_entry
    entry-known e c st q = ground (arith, q)

    observe_entry-Grows :
        (e : LogEntry V) (st : Observer V) → Grows st (observe_entry same_command e st)
    observe_entry-Grows e st = elim (Option-cases (seen e.term e.index st.entries_seen)) [
      | inl fresh ↦ rw (entry-fresh e st fresh) (record {
        quiet = λ h. h;
        leaders = λ u j q. q;
        commands = λ u i c q.
            ground (arith, fresh, q, seen-note e.term u e.index i e.command st.entries_seen);
      })
      | inr (c, q) ↦ rw (entry-known e c st q) (
          by_if (Grows st) (same_command c e.command) (Grows-refl st)
            (report-Grows (some (two_commands e.term e.index)) st))
    ]

    observe_entries-Grows :
        (es : List (LogEntry V)) (st : Observer V) → Grows st (observe_entries same_command es st)
    unfolding observe_entries
    observe_entries-Grows [] st = Grows-refl st
    observe_entries-Grows (e ∷ es) st =
        let st' = observe_entry same_command e st in
        Grows-trans st st' (observe_entries same_command es st') (observe_entry-Grows e st)
          (observe_entries-Grows es st')

    module _ (sound : (c d : Command V) → same_command c d ≡ true → c ≡ d) where
      observe_entry-Known :
          (e : LogEntry V) (st : Observer V)
          → (observe_entry same_command e st).violations ≡ []
          → Known (observe_entry same_command e st) e
      observe_entry-Known e st h = elim (Option-cases (seen e.term e.index st.entries_seen)) [
        | inl fresh ↦
            ap (λ (x : Observer V). seen e.term e.index x.entries_seen) (entry-fresh e st fresh)
            ∙ ground (arith, seen-note e.term e.term e.index e.index e.command st.entries_seen)
        | inr (c, q) ↦ elim (Bool-cases (same_command c e.command)) [
          | inl same ↦
              let p : observe_entry same_command e st ≡ st =
                entry-known e c st q ∙ ground (arith, same) in
              ap (λ (x : Observer V). seen e.term e.index x.entries_seen) p
              ∙ q
              ∙ ap some (sound c e.command same)
          | inr other ↦
              let p : observe_entry same_command e st
                  ≡ report (some (two_commands e.term e.index)) st =
                entry-known e c st q ∙ ground (arith, other) in
              absurd (
                reported_breaks (two_commands e.term e.index) st
                  (sym (ap (λ (x : Observer V). x.violations) p) ∙ h))
        ]
      ]

      Known-kept : (a b : Observer V) (e : LogEntry V) → Grows a b → Known a e → Known b e
      Known-kept a b e g k = g.commands e.term e.index e.command k

      observe_entries-Known :
          (es : List (LogEntry V)) (st : Observer V)
          → (observe_entries same_command es st).violations ≡ []
          → All (Known (observe_entries same_command es st)) es
      unfolding observe_entries
      observe_entries-Known [] st h = tt
      observe_entries-Known (e ∷ es) st h =
          let st' = observe_entry same_command e st in
          let g = observe_entries-Grows es st' in
          (
            Known-kept st' (observe_entries same_command es st') e g
                (observe_entry-Known e st (g.quiet h)),
            observe_entries-Known es st' h,
          )

  -- Entries with the indexes from `i` on, whose terms do not fall, from `low` to `high`.
  abbrev pub Shaped : Term → LogIndex → Term → List (LogEntry V) → Type 0
  Shaped high i low [] = Unit
  Shaped high i low (e ∷ es) =
      (e.index ≡ i) × (low ≤ e.term) × (e.term ≤ high) × Shaped high (i + 1) e.term es

  shape_fault-Shaped :
      (high : Term) (i : LogIndex) (low : Term) (es : List (LogEntry V))
      → shape_fault high i low es ≡ none
      → Shaped high i low es
  unfolding shape_fault
  shape_fault-Shaped high i low [] h = tt
  shape_fault-Shaped high i low (e ∷ es) h = (
    ground (arith, h),
    ground (arith, h),
    ground (arith, h),
    shape_fault-Shaped high (i + 1) e.term es (ground (arith, h)),
  )

  -- What the observer has of a request that it saw.
  pub record Recorded (st : Observer V) (args : AppendEntriesArgs V) : Type 0 where
    pub leader : get args.term st.leaders_per_term ≡ some args.leader_id
    pub shape : Shaped args.term (args.prev_log_index + 1) args.prev_log_term args.entries
    pub commands : All (Known st) args.entries

  Recorded-kept :
      (a b : Observer V) (args : AppendEntriesArgs V)
      → Grows a b
      → Recorded a args
      → Recorded b args
  Recorded-kept a b args g r = record {
    leader = g.leaders args.term args.leader_id r.leader;
    shape = r.shape;
    commands =
        All-map (Known a) (Known b) args.entries (λ e k. g.commands e.term e.index e.command k)
          r.commands;
  }

  check_shape-Grows :
      (args : AppendEntriesArgs V) (st : Observer V) → Grows st (check_shape args st)
  unfolding check_shape
  check_shape-Grows args st = report-Grows _ st

  check_shape-Shaped :
      (args : AppendEntriesArgs V) (st : Observer V)
      → (check_shape args st).violations ≡ []
      → Shaped args.term (args.prev_log_index + 1) args.prev_log_term args.entries
  unfolding check_shape
  check_shape-Shaped args st h =
      shape_fault-Shaped args.term (args.prev_log_index + 1) args.prev_log_term args.entries
        (quiet-report _ st h)

  module _ (same_command : Command V → Command V → Bool) where
    abbrev pub inspect : AppendEntriesArgs V → Observer V → Observer V
    inspect args = inspect_append_entries same_command (RpcRequest.append_entries args)

    -- The observer after the AppendEntries of a run, in the order in which they were sent.
    abbrev pub inspect_all : List (AppendEntriesArgs V) → Observer V → Observer V
    inspect_all [] st = st
    inspect_all (args ∷ rest) st = inspect_all rest (inspect args st)

    inspect-Grows : (args : AppendEntriesArgs V) (st : Observer V) → Grows st (inspect args st)
    unfolding inspect_append_entries
    inspect-Grows args st =
        let a = claim_leadership args.term args.leader_id st in
        let b = check_shape args a in
        Grows-trans st a (inspect args st) (claim_leadership-Grows args.term args.leader_id st) (
          Grows-trans a b (inspect args st) (check_shape-Grows args a)
            (observe_entries-Grows same_command args.entries b))

    inspect_all-Grows :
        (reqs : List (AppendEntriesArgs V)) (st : Observer V) → Grows st (inspect_all reqs st)
    inspect_all-Grows [] st = Grows-refl st
    inspect_all-Grows (args ∷ rest) st =
        Grows-trans st (inspect args st) (inspect_all rest (inspect args st))
          (inspect-Grows args st) (inspect_all-Grows rest (inspect args st))

    module _ (sound : (c d : Command V) → same_command c d ≡ true → c ≡ d) where
      inspect-Recorded :
          (args : AppendEntriesArgs V) (st : Observer V)
          → (inspect args st).violations ≡ []
          → Recorded (inspect args st) args
      unfolding inspect_append_entries
      inspect-Recorded args st h =
          let a = claim_leadership args.term args.leader_id st in
          let b = check_shape args a in
          let late = observe_entries-Grows same_command args.entries b in
          let shape = check_shape-Grows args a in
          record {
            leader = late.leaders args.term args.leader_id (
                shape.leaders args.term args.leader_id (
                  claim_leadership-recorded args.term args.leader_id st
                    (shape.quiet (late.quiet h))));
            shape = check_shape-Shaped args a (late.quiet h);
            commands = observe_entries-Known same_command sound args.entries b h;
          }

      -- If the observer, with a sound comparison of commands, has seen a run of AppendEntries and
      -- has no violation, then of each of them it has the leader for its term, its entries have the
      -- indexes after its previous index and terms that do not fall and do not exceed its own, and
      -- its entries have the commands that the observer has for their terms and indexes.
      pub inspect_all-Recorded :
          (reqs : List (AppendEntriesArgs V)) (st : Observer V)
          → (inspect_all reqs st).violations ≡ []
          → All (Recorded (inspect_all reqs st)) reqs
      inspect_all-Recorded [] st h = tt
      inspect_all-Recorded (args ∷ rest) st h =
          let st' = inspect args st in
          let g = inspect_all-Grows rest st' in
          (
            Recorded-kept st' (inspect_all rest st') args g (inspect-Recorded args st (g.quiet h)),
            inspect_all-Recorded rest st' h,
          )
