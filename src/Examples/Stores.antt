-- ===== src/Examples/Stores.antt =====
-- The key-value store on the examples.
use rust_kv.Base.{ℕ, ◌≡◌, refl, some, List, [], ◌∷◌}
use rust_kv.Types.{put, LogEntry}
use rust_kv.Kv.Session.Window.{Remembers, session_after, history, session_after-Remembers}
use rust_kv.Kv.Store.{empty, read, apply}
use rust_kv.Kv.Dedup.{apply_all, apply-exactly_once}
use rust_kv.Kv.History.{apply_log, value_at, read-apply_log}

abbrev tokened : ℕ → ℕ → ℕ → LogEntry ℕ
tokened index seq value = record {
  term = 1;
  index = index;
  command = put "k" value (some (record { client = 7; seq = seq }));
}

session_after-Remembers_example :
    Remembers (session_after 3 (5 ∷ 100 ∷ 90 ∷ [])) (history 3 (5 ∷ 100 ∷ 90 ∷ []))
session_after-Remembers_example = session_after-Remembers 3 (5 ∷ 100 ∷ 90 ∷ [])

apply-exactly_once_example :
    apply
      (tokened 4 1 10)
      (apply_all (tokened 2 2 20 ∷ tokened 3 3 30 ∷ []) (apply (tokened 1 1 10) empty))
    ≡ apply_all (tokened 2 2 20 ∷ tokened 3 3 30 ∷ []) (apply (tokened 1 1 10) empty)
apply-exactly_once_example =
    apply-exactly_once (tokened 1 1 10) (tokened 4 1 10) (record { client = 7; seq = 1 })
      (tokened 2 2 20 ∷ tokened 3 3 30 ∷ []) empty refl refl

-- The latest entry stands first. In the order of time: the number 2, then 66, which shuts it out, then
-- 3, and 2 again.
abbrev log : List (LogEntry ℕ)
log = tokened 4 2 40 ∷ tokened 3 3 30 ∷ tokened 2 66 20 ∷ tokened 1 2 10 ∷ []

lower_number : value_at log "k" ≡ some 30
lower_number = refl

read-apply_log_example : read "k" (apply_log log) ≡ some 30
read-apply_log_example = read-apply_log log "k"
