-- ===== src/Storage/Disk/Sound.antt =====
-- What `open` guarantees of any files that it accepts.
use mathlib.Core.Path.{subst}
use rust_kv.Base.{
  ℕ, ◌+◌, ◌-◌, ◌≤◌, ◌≡◌, ◌⊎◌, refl, ap, true, Option, some, List, [], ◌∷◌, ◌++◌, arith, ltb, length,
  length-append, Bool-cases, Option-cases, inl, inr, if◌then◌else◌,
}
use rust_kv.Types.{LogIndex, LogEntry}
use rust_kv.Storage.{Storage, StorageError, Result, ok, err, snapshot_index}
use rust_kv.Storage.Contiguous.{Follows, IsContiguous, Follows-append}
use rust_kv.Storage.Disk.{
  Bytes, FileCodec, Dir, Scan, take_entry, scan, fresh_scan, check_start, replay_bytes, replay_log,
  ends_with_newline, open_log, open_storage, split_inclusive,
}

pub Result-cases :
    {A : Type 0} (r : Result A) → ((a : A) × (r ≡ ok a)) ⊎ ((e : StorageError) × (r ≡ err e))
Result-cases (ok a) = inl (a, refl)
Result-cases (err e) = inr (e, refl)

module _ {V : Type 0} (c : FileCodec V) (boundary : LogIndex) where
  -- The log that was read so far has no gap, and lies above the boundary.
  record Chain (log : List (LogEntry V)) (previous_index : Option LogIndex) : Type 0 where
    first : LogIndex
    follows : Follows first log
    above : boundary ≤ first
    previous : (log ≡ []) ⊎ (previous_index ≡ some (first + length log))

  Chain-first :
      (e : LogEntry V) (s : Scan V)
      → s.log ≡ []
      → ltb boundary e.index ≡ true
      → Chain (s.log ++ e ∷ []) (some e.index)
  Chain-first e s q up = record {
    first = e.index - 1;
    follows = rw q (ground arith, tt);
    above = ground arith;
    previous = inr (rw q (ap some (ground arith)));
  }

  Chain-next :
      (e : LogEntry V) (s : Scan V) (h : Chain s.log s.previous_index)
      → e.index ≡ h.first + length s.log + 1
      → Chain (s.log ++ e ∷ []) (some e.index)
  Chain-next e s h q = record {
    first = h.first;
    follows = Follows-append h.first s.log (e ∷ []) h.follows (omega (arith, q), tt);
    above = h.above;
    previous = inr (ap some (omega (arith, q, length-append s.log (e ∷ []))));
  }

  settle :
      (e : LogEntry V) (offset : ℕ) (s : Scan V) (log : List (LogEntry V)) {s' : Scan V}
      → take_entry boundary e offset s ≡ ok s'
      → (if ltb boundary e.index then s.log ++ e ∷ [] else s.log) ≡ log
      → Chain log (some e.index)
      → Chain s'.log s'.previous_index
  unfolding take_entry
  settle e offset s log {s'} t q h =
      let z : (log ≡ s'.log) × (some e.index ≡ s'.previous_index) = ground arith in
      rw (z.0, z.1) at h

  take-Chain :
      (e : LogEntry V) (offset : ℕ) (s : Scan V) {s' : Scan V}
      → Chain s.log s.previous_index
      → take_entry boundary e offset s ≡ ok s'
      → Chain s'.log s'.previous_index
  unfolding take_entry
  take-Chain e offset s {s'} h t = elim (Bool-cases (ltb boundary e.index)) [
    | inl up ↦ elim h.previous [
      | inl q ↦ settle e offset s (s.log ++ e ∷ []) t (ground arith) (Chain-first e s q up)
      | inr p ↦
          settle e offset s (s.log ++ e ∷ []) t (ground arith) (Chain-next e s h (ground arith))
    ]
    | inr down ↦ elim h.previous [
      | inl q ↦
          settle e offset s [] t (ground arith)
            (record { first = boundary; follows = tt; above = omega arith; previous = inl refl })
      | inr p ↦ absurd (ground (arith, h.above))
    ]
  ]

  -- One chunk is an entry that is taken, or the torn end.
  scan_step :
      (total : ℕ) (chunk : Bytes) (chunks : List Bytes) (s : Scan V) {s' : Scan V}
      → scan c boundary total (chunk ∷ chunks) s ≡ ok s'
      → ((e : LogEntry V) × (t : Scan V) × (take_entry boundary e (s.offset + length chunk) s
            ≡ ok t)
          × (scan c boundary total chunks t ≡ ok s'))
        ⊎ ((s.log ≡ s'.log) × (s.previous_index ≡ s'.previous_index))
  unfolding scan
  scan_step total chunk chunks s {s'} h = elim (Option-cases (c.parse_entry chunk)) [
    | inl q ↦ inr (ground arith)
    | inr (e, q) ↦ elim (Bool-cases (ends_with_newline chunk)) [
      | inl n ↦ elim (Result-cases (take_entry boundary e (s.offset + length chunk) s)) [
        | inl (t, p) ↦ inl (e, t, p, ground arith)
        | inr (x, p) ↦ inr (ground arith)
      ]
      | inr n ↦ inr (ground arith)
    ]
  ]

  scan-Chain :
      (total : ℕ) (chunks : List Bytes) (s : Scan V) {s' : Scan V}
      → Chain s.log s.previous_index
      → scan c boundary total chunks s ≡ ok s'
      → Chain s'.log s'.previous_index
  unfolding scan
  scan-Chain total [] s {s'} h t =
      let z : (s.log ≡ s'.log) × (s.previous_index ≡ s'.previous_index) = ground arith in
      rw (z.0, z.1) at h
  scan-Chain total (chunk ∷ chunks) s h t = elim (scan_step total chunk chunks s t) [
    | inl (e, t', p, q) ↦
        scan-Chain total chunks t' (take-Chain e (s.offset + length chunk) s h p) q
    | inr z ↦ rw (z.0, z.1) at h
  ]

  check_start-eq-ok :
      (log log' : List (LogEntry V)) (i : LogIndex)
      → Follows i log
      → check_start boundary log ≡ ok log'
      → Follows boundary log'
  unfolding check_start
  check_start-eq-ok [] log' i f t =
      let q : [] ≡ log' = cc in subst (λ (l : List (LogEntry V)). Follows boundary l) q tt
  check_start-eq-ok (e ∷ es) log' i f t =
      let q : (e ∷ es ≡ log') × (i ≡ boundary) = ground (arith, f.0) in
      subst (λ (l : List (LogEntry V)). Follows boundary l) q.0 (rw (q.1) at f)

  replay-Follows :
      (bytes : Bytes) {log : List (LogEntry V)}
      → (replay_bytes c boundary bytes).0 ≡ ok log
      → Follows boundary log
  unfolding replay_bytes
  replay-Follows bytes {log} h =
      elim (Result-cases (scan c boundary (length bytes) (split_inclusive bytes) fresh_scan)) [
        | inl (s, q) ↦
            let k =
              scan-Chain (length bytes) (split_inclusive bytes) fresh_scan
                (record {
                  first = boundary;
                  follows = tt;
                  above = omega arith;
                  previous = inl refl;
                })
                q in
            check_start-eq-ok s.log log k.first k.follows (ground arith)
        | inr (e, q) ↦ absurd (ground arith)
      ]

module _ {V : Type 0} (c : FileCodec V) where
  replay_log-Follows :
      (boundary : LogIndex) (d : Dir) {log : List (LogEntry V)}
      → (replay_log c boundary d).0 ≡ ok log
      → Follows boundary log
  unfolding replay_log
  replay_log-Follows boundary d {log} h = elim (Option-cases d.log) [
    | inl q ↦
        let z : [] ≡ log = ground arith in
        (subst (λ (l : List (LogEntry V)). Follows boundary l) z tt)
    | inr (bytes, q) ↦ replay-Follows c boundary bytes (ground arith)
  ]

  -- Whatever bytes the files have, a storage that opens has no gap in its log, which starts
  -- right above the snapshot.
  pub open-IsContiguous : (d : Dir) {s : Storage V} → (open_storage c d).0 ≡ ok s → IsContiguous s
  unfolding open_storage open_log snapshot_index
  open-IsContiguous d {s} h = replay_log-Follows (snapshot_index s) d (ground arith)
