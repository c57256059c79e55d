-- ===== src/Storage/Disk/Refusal.antt =====
-- The files that `open` refuses.
use rust_kv.Base.{
  ℕ, suc, ◌+◌, ◌<◌, ◌≡◌, ◌≢◌, refl, ap, ◌∙◌, true, none, some, List, [], ◌∷◌, ◌++◌, arith, length,
  length-append,
}
use rust_kv.Types.{LogIndex, LogEntry}
use rust_kv.Storage.{Storage, ok, err, corrupt, snapshot_index}
use rust_kv.Storage.Contiguous.{Follows}
use rust_kv.Storage.Disk.{
  Bytes, newline, FileCodec, IsFileCodec, Dir, split_inclusive, lines, Scan, is_gap, take_entry,
  scan, fresh_scan, replay_bytes, replay_log, open_log, open_storage, load_hard_state,
  load_snapshot,
}
use rust_kv.Storage.Disk.Lines.{IsPart, split-line, ends-line}
use rust_kv.Storage.Disk.Replay.{after_line, after, after-Read, scan-lines}

module _ {V : Type 0} (c : FileCodec V) (law : IsFileCodec c) (boundary : LogIndex) where
  after-previous :
      (total i : ℕ) (es : List (LogEntry V)) (s : Scan V) (e : LogEntry V)
      → Follows i (e ∷ es)
      → (after c law boundary total (e ∷ es) s).previous_index ≡ some (i + suc (length es))
  after-previous total i [] s e h = ground (arith, h.0)
  after-previous total i (x ∷ es) s e h =
      after-previous total (suc i) es
        (after_line boundary e (s.offset + length (c.encode_entry e ++ newline ∷ [])) s) x h.1
      ∙ ap some (omega arith)

  replay-err :
      (bytes : Bytes)
      → scan c boundary (length bytes) (split_inclusive bytes) fresh_scan ≡ err corrupt
      → replay_bytes c boundary bytes ≡ (err corrupt, bytes)
  unfolding replay_bytes
  replay-err bytes h = ground arith

  scan-gap :
      (total : ℕ) (e : LogEntry V) (w : Bytes) (s : Scan V)
      → is_gap s.previous_index e.index ≡ true
      → scan c boundary total (split_inclusive (c.encode_entry e ++ newline ∷ w)) s ≡ err corrupt
  unfolding scan take_entry
  scan-gap total e w s g =
      rw (split-line (c.encode_entry e) w (law.one_line e))
        (unfold scan take_entry in ground (arith, law.entry_back e, ends-line (c.encode_entry e)))

  -- With a codec that keeps its laws: behind one or more lines in order, a line whose index does not
  -- go on from them makes the log corrupt, and the file is left as it is.
  pub replay-gap :
      (i : ℕ) (es : List (LogEntry V)) (e x : LogEntry V) (w : Bytes)
      → Follows i (e ∷ es)
      → x.index ≢ i + length (e ∷ es) + 1
      → replay_bytes c boundary (lines c (e ∷ es) ++ (c.encode_entry x ++ newline ∷ w))
        ≡ (err corrupt, lines c (e ∷ es) ++ (c.encode_entry x ++ newline ∷ w))
  replay-gap i es e x w h ne =
      let bytes = lines c (e ∷ es) ++ (c.encode_entry x ++ newline ∷ w) in
      let p = after-previous (length bytes) i es fresh_scan e h in
      replay-err bytes (
        scan-lines c law boundary (length bytes) i (e ∷ es) _ fresh_scan h refl
        ∙ scan-gap (length bytes) x w _ (rw p (ground arith)))

  scan-bad :
      (total : ℕ) (chunk : Bytes) (chunks : List Bytes) (s : Scan V)
      → c.parse_entry chunk ≡ none
      → s.offset + length chunk < total
      → scan c boundary total (chunk ∷ chunks) s ≡ err corrupt
  unfolding scan
  scan-bad total chunk chunks s n lt = ground (arith, n)

  -- With a codec that keeps its laws: behind lines in order, a line that does not parse and that is
  -- not the last of the file makes the log corrupt, and the file is left as it is.
  pub replay_bad_line :
      (i : ℕ) (es : List (LogEntry V)) (bad : Bytes) (b : ℕ) (rest : Bytes)
      → Follows i es
      → IsPart bad
      → c.parse_entry (bad ++ newline ∷ []) ≡ none
      → replay_bytes c boundary (lines c es ++ (bad ++ newline ∷ b ∷ rest))
        ≡ (err corrupt, lines c es ++ (bad ++ newline ∷ b ∷ rest))
  replay_bad_line i es bad b rest h p n =
      let bytes = lines c es ++ (bad ++ newline ∷ b ∷ rest) in
      let r = after-Read c law boundary (length bytes) es fresh_scan refl in
      replay-err bytes (
        scan-lines c law boundary (length bytes) i es _ fresh_scan h refl
        ∙ rw (split-line bad (b ∷ rest) p) (
            scan-bad (length bytes) (bad ++ newline ∷ []) (split_inclusive (b ∷ rest)) _ n (
              omega (
                arith,
                r.offset,
                length-append (lines c es) (bad ++ newline ∷ b ∷ rest),
                length-append bad (newline ∷ b ∷ rest),
                length-append bad (newline ∷ []),
              ))))

pub open-refuses :
    {V : Type 0} (c : FileCodec V) (s : Storage V) (d : Dir) (bytes rest : Bytes)
    → load_hard_state c d ≡ ok s.hard_state
    → load_snapshot c d ≡ ok s.snapshot
    → d.log ≡ some bytes
    → replay_bytes c (snapshot_index s) bytes ≡ (err corrupt, rest)
    → (open_storage c d).0 ≡ err corrupt
unfolding open_storage open_log snapshot_index replay_log
open-refuses c s d bytes rest h x l r = ground arith
