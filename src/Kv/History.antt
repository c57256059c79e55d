-- ===== src/Kv/History.antt =====
-- The store of store.rs against the entries that have been applied: which commands take effect, and
-- what a reader sees.
use text.Mathlib.Text.{◌==◌ as str_eq}
use rust_kv.Base.{
  String, ap, ◌∙◌, ◌≡◌, refl, Bool, false, ◌||◌, Option, none, some, List, [], ◌∷◌, arith,
  if◌then◌else◌,
}
use rust_kv.Maps.{get}
use rust_kv.Types.{Session, Command, put, delete, noop, config_change, LogEntry}
use rust_kv.Kv.Dict
use rust_kv.Kv.Store.{KvStore, empty, read, write, erase, already_applied, apply_command, apply}
use rust_kv.Kv.Dedup.{
  shut_out_by, already_applied-command, token, read-write, read-erase, read-record_applied,
}

module _ {V : Type 0} where
  -- The store after some entries, the latest first.
  abbrev pub apply_log : List (LogEntry V) → KvStore V
  apply_log [] = empty
  apply_log (e ∷ es) = apply e (apply_log es)

  -- An earlier entry has a token that shuts this one out.
  abbrev pub is_duplicate : Option Session → List (LogEntry V) → Bool
  is_duplicate none es = false
  is_duplicate (some t) [] = false
  is_duplicate (some t) (e ∷ es) = shut_out_by (token e.command) t || is_duplicate (some t) es

  -- The value that a command leaves at a key where it finds `old`.
  abbrev pub effect : Command V → String → Option V → Option V
  effect (put k v _) j old = if str_eq k j then some v else old
  effect (delete k _) j old = if str_eq k j then none else old
  effect noop j old = old
  effect (config_change _) j old = old

  -- The value of a key after some entries, told from the entries alone: that of the latest command on
  -- it which is no duplicate.
  abbrev pub value_at : List (LogEntry V) → String → Option V
  value_at [] j = none
  value_at (e ∷ es) j =
      let old = value_at es j in
      if is_duplicate (token e.command) es then old else effect e.command j old

  already_applied-apply_log :
      (session : Option Session) (es : List (LogEntry V))
      → already_applied session (apply_log es) ≡ is_duplicate session es
  unfolding already_applied empty apply get
  already_applied-apply_log none es = refl
  already_applied-apply_log (some t) [] = refl
  already_applied-apply_log (some t) (e ∷ es) =
      already_applied-command t e.command (apply_log es)
      ∙ ap (λ (b : Bool). shut_out_by (token e.command) t || b)
          (already_applied-apply_log (some t) es)

  read-command :
      (c : Command V) (j : String) (s : KvStore V)
      → read j (apply_command c s)
        ≡ (if already_applied (token c) s then read j s else effect c j (read j s))
  unfolding apply_command
  read-command (put k v u) j s =
      ground (arith, read-record_applied j u (write k v s), read-write k j v s)
  read-command (delete k u) j s =
      ground (arith, read-record_applied j u ((erase k s).1), read-erase k j s)
  read-command noop j s = unfold already_applied in refl
  read-command (config_change _) j s = unfold already_applied in refl

  -- After any entries, a reader of any key sees the value of the latest command on it that took effect.
  -- A command without a token always does. One with a token does unless an earlier entry has a token of
  -- the same client with the same number or one that is ahead by 64 or more; a lower number than the
  -- client's highest still takes effect within that distance.
  pub read-apply_log : (es : List (LogEntry V)) (j : String) → read j (apply_log es) ≡ value_at es j
  unfolding apply empty read
  read-apply_log [] j = Dict.get-empty j
  read-apply_log (e ∷ es) j =
      rw
        (
          read-command e.command j (apply_log es),
          already_applied-apply_log (token e.command) es,
          read-apply_log es j,
        )
        refl
