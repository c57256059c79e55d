-- ===== src/Storage/Disk.antt =====
-- raft/storage.rs: the files of a data directory. A file operation that the operating system
-- refuses makes the node stop, so the model has no such failure: it has crashes between and inside
-- the operations. The codec of serde_json is a parameter.
pub mod Lines
pub mod Replay
pub mod Operations
pub mod Recovery
pub mod Refine
pub mod Refusal
pub mod Sound
pub mod Crash
use rust_kv.Base.{
  ℕ, ◌+◌, Bool, true, false, Option, none, some, List, [], ◌∷◌, ◌++◌, ◌≡◌, leb, ltb, ◌==◌, length,
  take, any, if◌then◌else◌,
}
use rust_kv.Types.{LogIndex, Membership, HardState, LogEntry, Snapshot}
use rust_kv.Storage.{
  Storage, Result, ok, err, corrupt, entry, pos, last_index, entries_from, has_term, snapshot_index,
  check_contiguous,
}

abbrev pub Bytes : Type 0
Bytes = List ℕ

abbrev pub newline : ℕ
newline = b'\n'

abbrev pub is_newline : ℕ → Bool
is_newline b = b == newline

-- `serde_json::to_vec`, `to_writer` and `from_slice` on the three types that are stored.
pub record FileCodec (V : Type 0) : Type 0 where
  pub encode_entry : LogEntry V → Bytes
  pub parse_entry : Bytes → Option (LogEntry V)
  pub encode_snapshot : Snapshot V → Bytes
  pub parse_snapshot : Bytes → Option (Snapshot V)
  pub encode_hard_state : HardState → Bytes
  pub parse_hard_state : Bytes → Option HardState

-- What is documented of them: compact JSON holds no newline byte, space after a value is accepted, and
-- parsing gives back what was serialized. `V` stands for the JSON values of which the last holds:
-- those that serde_json nests no deeper than its limit, with floats that it reads back exactly.
pub record IsFileCodec {V : Type 0} (c : FileCodec V) : Type 0 where
  pub one_line : (e : LogEntry V) → any is_newline (c.encode_entry e) ≡ false
  pub entry_back : (e : LogEntry V) → c.parse_entry (c.encode_entry e ++ newline ∷ []) ≡ some e
  pub snapshot_back : (x : Snapshot V) → c.parse_snapshot (c.encode_snapshot x) ≡ some x
  pub hard_state_back : (h : HardState) → c.parse_hard_state (c.encode_hard_state h) ≡ some h

-- `hard_state.json`, `log.jsonl` and `snapshot.json`, and for each the temporary file beside it.
pub data FileName : Type 0 where
  hard_state_file log_file snapshot_file : FileName

-- One write is in progress at a time, and no code reads a temporary file that a crash leaves.
pub record Dir : Type 0 where
  pub hard_state : Option Bytes
  pub log : Option Bytes
  pub snapshot : Option Bytes
  pub tmp : Option Bytes

unfoldable pub set_file : FileName → Bytes → Dir → Dir
set_file hard_state_file b d = record d { hard_state = some b }
set_file log_file b d = record d { log = some b }
set_file snapshot_file b d = record d { snapshot = some b }

abbrev pub unwrap_or_empty : Option Bytes → Bytes
unwrap_or_empty none = []
unwrap_or_empty (some b) = b

-- The calls that change the directory. Each is made durable by a `sync_all` before the next:
-- `create` writes the temporary file, `rename` moves it to its name, `append_log` writes at the end
-- of `log.jsonl`.
pub data Action : Type 0 where
  create : Bytes → Action
  rename : FileName → Action
  append_log : Bytes → Action

unfoldable pub run : Action → Dir → Dir
unfolding set_file
run (create b) d = record d { tmp = some b }
run (rename f) d = elim d.tmp [ none ↦ d | some b ↦ record (set_file f b d) { tmp = none } ]
run (append_log b) d = record d { log = some (unwrap_or_empty d.log ++ b) }

unfoldable pub run_all : List Action → Dir → Dir
unfolding run
run_all [] d = d
run_all (a ∷ as') d = run_all as' (run a d)

abbrev pub write_atomic : FileName → Bytes → List Action
write_atomic f b = create b ∷ rename f ∷ []

-- `bytes.split_inclusive(|&b| b == b'\n')`
abbrev pub extend_chunk : ℕ → List Bytes → List Bytes
extend_chunk b [] = (b ∷ []) ∷ []
extend_chunk b (c ∷ cs) = (b ∷ c) ∷ cs

unfoldable pub split_inclusive : Bytes → List Bytes
split_inclusive [] = []
split_inclusive (b ∷ bs) =
    let rest = split_inclusive bs in if is_newline b then (b ∷ []) ∷ rest else extend_chunk b rest

-- `chunk.ends_with(b"\n")`
abbrev pub ends_with_newline : Bytes → Bool
ends_with_newline [] = false
ends_with_newline (b ∷ []) = is_newline b
ends_with_newline (b ∷ c ∷ cs) = ends_with_newline (c ∷ cs)

module _ {V : Type 0} (c : FileCodec V) where
  -- The buffer that `append` and `rewrite_log` fill.
  unfoldable pub lines : List (LogEntry V) → Bytes
  lines [] = []
  lines (e ∷ es) = c.encode_entry e ++ newline ∷ lines es

  unfoldable pub load_hard_state : Dir → Result HardState
  load_hard_state d = elim d.hard_state [
    | none ↦ ok (record { current_term = 0; voted_for = none })
    | some b ↦ elim (c.parse_hard_state b) [ none ↦ err corrupt | some h ↦ ok h ]
  ]

  unfoldable pub load_snapshot : Dir → Result (Option (Snapshot V))
  load_snapshot d = elim d.snapshot [
    | none ↦ ok none
    | some b ↦ elim (c.parse_snapshot b) [ none ↦ err corrupt | some x ↦ ok (some x) ]
  ]

-- The local variables of `replay_log`.
pub record Scan (V : Type 0) : Type 0 where
  pub log : List (LogEntry V)
  pub previous_index : Option LogIndex
  pub good_end : ℕ
  pub offset : ℕ
  pub torn : Bool

abbrev pub is_gap : Option LogIndex → LogIndex → Bool
is_gap none i = false
is_gap (some p) i = if i == p + 1 then false else true

module _ {V : Type 0} where
  -- What the loop does with a complete line that parses.
  unfoldable pub take_entry : LogIndex → LogEntry V → ℕ → Scan V → Result (Scan V)
  take_entry boundary e offset s =
      if is_gap s.previous_index e.index
      then err corrupt
      else ok (record s {
        log = if ltb boundary e.index then s.log ++ e ∷ [] else s.log;
        previous_index = some e.index;
        good_end = offset;
        offset = offset;
      })

  -- The loop over the chunks of a file of `total` bytes. A chunk with no newline is the last one of
  -- its file, so the arm that the code marks as unreachable has no case of its own.
  unfoldable pub scan : FileCodec V → LogIndex → ℕ → List Bytes → Scan V → Result (Scan V)
  unfolding take_entry
  scan c boundary total [] s = ok s
  scan c boundary total (chunk ∷ chunks) s =
      let offset = s.offset + length chunk in
      let next : LogEntry V → Result (Scan V) = λ e. elim (take_entry boundary e offset s) [
        | err x ↦ err x
        | ok s' ↦ scan c boundary total chunks s'
      ] in
      let torn_tail : Result (Scan V) =
        if offset == total then ok (record s { offset = offset; torn = true }) else err corrupt in
      elim (c.parse_entry chunk) [
        | some e ↦ if ends_with_newline chunk then next e else torn_tail
        | none ↦ torn_tail
      ]

  abbrev pub fresh_scan : Scan V
  fresh_scan = record { log = []; previous_index = none; good_end = 0; offset = 0; torn = false }

  -- the check behind the loop
  unfoldable pub check_start : LogIndex → List (LogEntry V) → Result (List (LogEntry V))
  check_start boundary [] = ok []
  check_start boundary (e ∷ es) = if e.index == boundary + 1 then ok (e ∷ es) else err corrupt

  -- The log that a file of these bytes holds, and the bytes that are left of the file.
  unfoldable pub replay_bytes : FileCodec V → LogIndex → Bytes → Result (List (LogEntry V)) × Bytes
  unfolding scan check_start split_inclusive
  replay_bytes c boundary bytes =
      elim (scan c boundary (length bytes) (split_inclusive bytes) fresh_scan) [
        | err x ↦ (err x, bytes)
        | ok s ↦ (check_start boundary s.log, if s.torn then take s.good_end bytes else bytes)
      ]

  unfoldable pub replay_log : FileCodec V → LogIndex → Dir → Result (List (LogEntry V)) × Dir
  unfolding replay_bytes
  replay_log c boundary d = elim d.log [
    | none ↦ (ok [], d)
    | some bytes ↦
        let (log, rest) = replay_bytes c boundary bytes in (log, record d { log = some rest })
  ]

  -- The loads of `open` after the hard state's.
  unfoldable pub open_log :
      FileCodec V → HardState → Option (Snapshot V) → Dir → Result (Storage V) × Dir
  unfolding replay_log
  open_log c h x d =
      let boundary = snapshot_index (record { hard_state = h; snapshot = x; log = [] }) in
      let (log, d') = replay_log c boundary d in
      elim log [
        | err e ↦ (err e, d')
        | ok es ↦ (
          ok (record { hard_state = h; snapshot = x; log = es }),
          record d' { log = some (unwrap_or_empty d'.log) },
        )
      ]

  -- `Storage::open`, with the directory that it leaves.
  unfoldable pub open_storage : FileCodec V → Dir → Result (Storage V) × Dir
  unfolding load_hard_state load_snapshot open_log
  open_storage c d = elim (load_hard_state c d) [
    | err e ↦ (err e, d)
    | ok h ↦ elim (load_snapshot c d) [ err e ↦ (err e, d) | ok x ↦ open_log c h x d ]
  ]
