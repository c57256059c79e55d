-- ===== src/Examples/Runs.antt =====
-- The observer on a run of two requests, the second of which sends an entry again.
use rust_kv.Base.{ℕ, ◌≡◌, refl, Bool, true, false, [], ◌∷◌, All}
use rust_kv.Types.{Command, put, delete, noop, config_change, LogEntry, AppendEntriesArgs}
use rust_kv.Maps.{get, insert}
use rust_kv.Sim.{
  Observer, report, claim_leadership, shape_fault, check_shape, seen, note, observe_entry,
  observe_entries, inspect_append_entries,
}
use rust_kv.Sim.Observed.{Recorded, inspect_all, inspect_all-Recorded}

-- A comparison that is sound, if not complete.
abbrev both_noop : Command ℕ → Command ℕ → Bool
both_noop noop noop = true
both_noop noop (put _ _ _) = false
both_noop noop (delete _ _) = false
both_noop noop (config_change _) = false
both_noop (put _ _ _) d = false
both_noop (delete _ _) d = false
both_noop (config_change _) d = false

both_noop_sound : (c d : Command ℕ) → both_noop c d ≡ true → c ≡ d
both_noop_sound noop noop h = refl
both_noop_sound noop (put _ _ _) h = cc
both_noop_sound noop (delete _ _) h = cc
both_noop_sound noop (config_change _) h = cc
both_noop_sound (put _ _ _) d h = cc
both_noop_sound (delete _ _) d h = cc
both_noop_sound (config_change _) d h = cc

abbrev opening : ℕ → LogEntry ℕ
opening index = record { term = 1; index = index; command = noop }

abbrev first : AppendEntriesArgs ℕ
first = record {
  term = 1;
  leader_id = 2;
  prev_log_index = 0;
  prev_log_term = 0;
  entries = opening 1 ∷ [];
  leader_commit = 0;
}

abbrev second : AppendEntriesArgs ℕ
second = record first { entries = opening 1 ∷ opening 2 ∷ [] }

abbrev fresh : Observer ℕ
fresh = record { leaders_per_term = []; entries_seen = []; violations = [] }

silent : (inspect_all both_noop (first ∷ second ∷ []) fresh).violations ≡ []
unfolding inspect_append_entries claim_leadership check_shape shape_fault report observe_entries
    observe_entry seen note get insert
silent = refl

inspect_all-Recorded_example :
    All (Recorded (inspect_all both_noop (first ∷ second ∷ []) fresh)) (first ∷ second ∷ [])
inspect_all-Recorded_example =
    inspect_all-Recorded both_noop both_noop_sound (first ∷ second ∷ []) fresh silent
