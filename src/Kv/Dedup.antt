-- ===== src/Kv/Dedup.antt =====
-- Duplicates of store.rs: commands with a token, applied again after other entries, and how the
-- operations change what a reader sees.
use text.Mathlib.Text.{◌==◌ as str_eq}
use rust_kv.Base.{
  ◌+◌, Bool, ◌&&◌, ◌||◌, leb, ◌==◌, false, String, ◌≡◌, refl, inl, inr, true, Option, none, some,
  List, [], ◌∷◌, arith, if◌then◌else◌, Bool-cases, Option-cases,
}
use rust_kv.Maps.{get, get-insert}
use rust_kv.Types.{Session, Command, put, delete, noop, config_change, LogEntry}
use rust_kv.Kv.Dict
use rust_kv.Kv.Dict.{dict_laws}
use rust_kv.Kv.Session.{new, contains, record_seq}
use rust_kv.Kv.Session.Window.{contains-new_all, contains-record_seq_all, contains-of_lower}
use rust_kv.Kv.Store.{
  KvStore, read, write, erase, already_applied, record_applied, apply_command, apply,
}

-- The token `u` keeps `t` from taking effect behind it: it is of the same client, and the same, or
-- ahead by 64 or more.
abbrev pub shuts_out : Session → Session → Bool
shuts_out u t = u.client == t.client && (t.seq == u.seq || leb (t.seq + 64) u.seq)

abbrev pub shut_out_by : Option Session → Session → Bool
shut_out_by none t = false
shut_out_by (some u) t = shuts_out u t

module _ {V : Type 0} where
  -- The token of a command.
  abbrev pub token : Command V → Option Session
  token (put _ _ session) = session
  token (delete _ session) = session
  token noop = none
  token (config_change _) = none

  abbrev pub apply_all : List (LogEntry V) → KvStore V → KvStore V
  apply_all [] s = s
  apply_all (e ∷ es) s = apply_all es (apply e s)

  already_applied-record_applied :
      (t u : Session) (s : KvStore V)
      → already_applied (some t) (record_applied (some u) s)
        ≡ (shuts_out u t || already_applied (some t) s)
  unfolding already_applied record_applied
  already_applied-record_applied t u s = elim (Option-cases (get u.client s.sessions)) [
    | inl fresh ↦ rw fresh (
        ground (
          arith,
          fresh,
          get-insert u.client t.client (new u.seq) s.sessions,
          contains-new_all u.seq t.seq,
        ))
    | inr (st, known) ↦ rw known (
        ground (
          arith,
          known,
          get-insert u.client t.client (record_seq u.seq st) s.sessions,
          contains-record_seq_all st u.seq t.seq,
        ))
  ]

  -- Where a token is a duplicate, so is every token that it shuts out.
  already_applied-of_duplicate :
      (t u : Session) (s : KvStore V)
      → already_applied (some u) s ≡ true
      → already_applied (some t) s ≡ (shuts_out u t || already_applied (some t) s)
  unfolding already_applied
  already_applied-of_duplicate t u s h = elim (Bool-cases (shuts_out u t)) [
    | inl out ↦
        let same : u.client ≡ t.client = ground (arith, out) in
        let near : (t.seq == u.seq || leb (t.seq + 64) u.seq) ≡ true = ground (arith, out) in
        let h' = rw same at h in
        elim (Option-cases (get t.client s.sessions)) [
          | inl no_one ↦ absurd (ground (arith, no_one, h'))
          | inr (st, known) ↦
              let old : contains st u.seq ≡ true = ground (arith, known, h') in
              let so : contains st t.seq ≡ true = elim (Bool-cases (t.seq == u.seq)) [
                | inl here ↦ let e : t.seq ≡ u.seq = ground (arith, here) in rw e old
                | inr there ↦ contains-of_lower st u.seq t.seq old (ground (arith, near, there))
              ] in
              ground (arith, out, known, so)
        ]
    | inr other ↦ rw other refl
  ]

  -- What one command adds to the tokens that are duplicates.
  pub already_applied-command :
      (t : Session) (c : Command V) (s : KvStore V)
      → already_applied (some t) (apply_command c s)
        ≡ (shut_out_by (token c) t || already_applied (some t) s)
  unfolding apply_command already_applied record_applied write erase
  already_applied-command t (put key value none) s = refl
  already_applied-command t (put key value (some u)) s =
      elim (Bool-cases (already_applied (some u) s)) [
        | inl dup ↦ rw dup (already_applied-of_duplicate t u s dup)
        | inr fresh ↦ rw fresh (already_applied-record_applied t u (write key value s))
      ]
  already_applied-command t (delete key none) s = refl
  already_applied-command t (delete key (some u)) s =
      elim (Bool-cases (already_applied (some u) s)) [
        | inl dup ↦ rw dup (already_applied-of_duplicate t u s dup)
        | inr fresh ↦ rw fresh (already_applied-record_applied t u ((erase key s).1))
      ]
  already_applied-command t noop s = refl
  already_applied-command t (config_change _) s = refl

  already_applied_mono :
      (t : Session) (c : Command V) (s : KvStore V)
      → already_applied (some t) s ≡ true
      → already_applied (some t) (apply_command c s) ≡ true
  already_applied_mono t c s h = ground (arith, already_applied-command t c s, h)

  -- After a command with a token, the token is in the window.
  already_applied-after :
      (c : Command V) (t : Session) (s : KvStore V)
      → token c ≡ some t
      → already_applied (some t) (apply_command c s) ≡ true
  already_applied-after c t s q =
      let self : shut_out_by (token c) t ≡ true = rw q (ground arith) in
      ground (arith, already_applied-command t c s, self)

  already_applied-apply_all :
      (t : Session) (es : List (LogEntry V)) (s : KvStore V)
      → already_applied (some t) s ≡ true
      → already_applied (some t) (apply_all es s) ≡ true
  unfolding apply
  already_applied-apply_all t [] s h = h
  already_applied-apply_all t (e ∷ es) s h =
      already_applied-apply_all t es (apply e s) (already_applied_mono t e.command s h)

  -- A duplicate changes nothing.
  skip_duplicate :
      (c : Command V) (t : Session) (s : KvStore V)
      → token c ≡ some t
      → already_applied (some t) s ≡ true
      → apply_command c s ≡ s
  unfolding apply_command
  skip_duplicate (put key value u) t s q h = rw q (rw h)
  skip_duplicate (delete key u) t s q h = rw q (rw h)
  skip_duplicate noop t s q h = refl
  skip_duplicate (config_change _) t s q h = refl

  -- After an entry whose command carries a client's token and any other entries, whatever they are,
  -- an entry with the same command leaves the store as it is: the command takes effect at most
  -- once.
  pub apply-exactly_once :
      (e e' : LogEntry V) (t : Session) (es : List (LogEntry V)) (s : KvStore V)
      → token e.command ≡ some t
      → e'.command ≡ e.command
      → apply e' (apply_all es (apply e s)) ≡ apply_all es (apply e s)
  unfolding apply
  apply-exactly_once e e' t es s q same = rw same (
      skip_duplicate e.command t (apply_all es (apply e s)) q
        (already_applied-apply_all t es (apply e s) (already_applied-after e.command t s q)))

  pub read-write :
      (k j : String) (v : V) (s : KvStore V)
      → read j (write k v s) ≡ (if str_eq k j then some v else read j s)
  unfolding read write
  read-write k j v s = Dict.get-insert k j v s.map

  pub read-erase :
      (k j : String) (s : KvStore V)
      → read j ((erase k s).1) ≡ (if str_eq k j then none else read j s)
  unfolding read erase
  read-erase k j s = Dict.get-remove k j s.map

  pub read-record_applied :
      (j : String) (u : Option Session) (s : KvStore V) → read j (record_applied u s) ≡ read j s
  unfolding read record_applied
  read-record_applied j none s = refl
  read-record_applied j (some t) s = refl
