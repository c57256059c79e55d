-- ===== src/Storage/Disk/Replay.antt =====
-- log.jsonl replayed: the scan over whole lines and a torn tail.
use rust_kv.Base.{
  ℕ, suc, ◌+◌, ◌-◌, drop-nil, ◌≤◌, ◌≡◌, refl, sym, ◌∙◌, true, false, some, List, [], ◌∷◌, ◌++◌,
  append_assoc, append-nil, arith, ltb, length, take, drop, if◌then◌else◌, Bool-cases, inl, inr,
  length-append, take-length-append,
}
use rust_kv.Types.{LogIndex, LogEntry}
use rust_kv.Storage.{ok}
use rust_kv.Storage.Contiguous.{Follows, Follows-drop_past}
use rust_kv.Storage.Disk.{
  Bytes, newline, FileCodec, IsFileCodec, split_inclusive, ends_with_newline, lines, Scan, is_gap,
  take_entry, scan, fresh_scan, check_start, replay_bytes,
}
use rust_kv.Storage.Disk.Lines.{IsPart, split-line, split-part, ends-line, ends-part}

module _ {V : Type 0} where
  -- The entries above a boundary.
  abbrev pub above : LogIndex → List (LogEntry V) → List (LogEntry V)
  above boundary [] = []
  above boundary (e ∷ es) =
      let rest = above boundary es in if ltb boundary e.index then e ∷ rest else rest

  pub above_all :
      (i boundary : ℕ) (es : List (LogEntry V))
      → Follows i es
      → boundary ≤ i
      → above boundary es ≡ es
  above_all i boundary [] h le = refl
  above_all i boundary (e ∷ es) h le =
      let q : ltb boundary e.index ≡ true = ground (arith, h.0) in
      rw (q, above_all (suc i) boundary es h.1 (omega arith)) refl

  pub above-eq-drop :
      (i boundary : ℕ) (es : List (LogEntry V))
      → Follows i es
      → i ≤ boundary
      → above boundary es ≡ drop (boundary - i) es
  above-eq-drop i boundary [] h le = sym (drop-nil (boundary - i))
  above-eq-drop i boundary (e ∷ es) h le = elim (Bool-cases (ltb i boundary)) [
    | inl lt ↦
        let q : ltb boundary e.index ≡ false = ground (arith, h.0) in
        let d : boundary - i ≡ suc (boundary - suc i) = ground arith in
        rw (q, d) (above-eq-drop (suc i) boundary es h.1 (ground arith))
    | inr ge ↦
        let d : boundary - i ≡ 0 = ground arith in
        rw d (above_all i boundary (e ∷ es) h (ground arith))
  ]

  -- The scan when a complete line has been read.
  abbrev pub after_line : LogIndex → LogEntry V → ℕ → Scan V → Scan V
  after_line boundary e offset s = record s {
    log = if ltb boundary e.index then s.log ++ e ∷ [] else s.log;
    previous_index = some e.index;
    good_end = offset;
    offset = offset;
  }

  -- The scan goes on with index `suc i`.
  abbrev pub GoesOn : ℕ → Scan V → Type 0
  GoesOn i s = is_gap s.previous_index (suc i) ≡ false

  module _ (c : FileCodec V) (boundary total : ℕ) where
    pub scan-entry :
        (chunk : Bytes) (chunks : List Bytes) (s : Scan V) {e : LogEntry V}
        → c.parse_entry chunk ≡ some e
        → ends_with_newline chunk ≡ true
        → is_gap s.previous_index e.index ≡ false
        → scan c boundary total (chunk ∷ chunks) s
          ≡ scan c boundary total chunks (after_line boundary e (s.offset + length chunk) s)
    unfolding scan take_entry
    scan-entry chunk chunks s p n g = ground arith

    pub scan-torn :
        (chunk : Bytes) (chunks : List Bytes) (s : Scan V)
        → ends_with_newline chunk ≡ false
        → s.offset + length chunk ≡ total
        → scan c boundary total (chunk ∷ chunks) s ≡ ok (record s { offset = total; torn = true })
    unfolding scan
    scan-torn chunk chunks s n t = ground arith

  module _ (c : FileCodec V) (law : IsFileCodec c) (boundary total : ℕ) where
    scan_line :
        (i : ℕ) (e : LogEntry V) (w : Bytes) (s : Scan V)
        → e.index ≡ suc i
        → GoesOn i s
        → scan c boundary total (split_inclusive (c.encode_entry e ++ newline ∷ w)) s
          ≡ scan c boundary total
              (split_inclusive w)
              (after_line boundary e (s.offset + length (c.encode_entry e ++ newline ∷ [])) s)
    scan_line i e w s h g = rw (split-line (c.encode_entry e) w (law.one_line e)) (
        scan-entry c boundary total (c.encode_entry e ++ newline ∷ []) (split_inclusive w) s
          (law.entry_back e) (ends-line (c.encode_entry e)) (rw h g))

    -- What the scan holds when it has read whole lines.
    pub record Read (es : List (LogEntry V)) (s s' : Scan V) : Type 0 where
      pub log : s'.log ≡ s.log ++ above boundary es
      pub offset : s'.offset ≡ s.offset + length (lines c es)
      pub good_end : s'.good_end ≡ s'.offset
      pub torn : s'.torn ≡ s.torn

    -- The state of the scan behind whole lines.
    abbrev pub after : List (LogEntry V) → Scan V → Scan V
    after [] s = s
    after (e ∷ es) s =
        after es (after_line boundary e (s.offset + length (c.encode_entry e ++ newline ∷ [])) s)

    pub scan-lines :
        (i : ℕ) (es : List (LogEntry V)) (w : Bytes) (s : Scan V)
        → Follows i es
        → GoesOn i s
        → scan c boundary total (split_inclusive (lines c es ++ w)) s
          ≡ scan c boundary total (split_inclusive w) (after es s)
    unfolding lines
    scan-lines i [] w s h g = refl
    scan-lines i (e ∷ es) w s h g = rw append_assoc (
        scan_line i e (lines c es ++ w) s h.0 g
        ∙ scan-lines (suc i) es w _ h.1 (ground (arith, h.0)))

    pub after-Read :
        (es : List (LogEntry V)) (s : Scan V) → s.good_end ≡ s.offset → Read es s (after es s)
    unfolding lines
    after-Read [] s g = record {
      log = sym (append-nil _);
      offset = omega arith;
      good_end = g;
      torn = refl;
    }
    after-Read (e ∷ es) s g =
        let r =
          after-Read es
            (after_line boundary e (s.offset + length (c.encode_entry e ++ newline ∷ [])) s) refl in
        record {
          log = ground (arith, r.log, append_assoc s.log (e ∷ []) (above boundary es));
          offset = omega (
            arith,
            r.offset,
            length-append (c.encode_entry e) (newline ∷ []),
            length-append (c.encode_entry e) (newline ∷ lines c es),
          );
          good_end = r.good_end;
          torn = r.torn;
        }

module _ {V : Type 0} where
  pub check_start-Follows :
      (boundary : ℕ) (es : List (LogEntry V))
      → Follows boundary es
      → check_start boundary es ≡ ok es
  unfolding check_start
  check_start-Follows boundary [] h = refl
  check_start-Follows boundary (e ∷ es) h = ground (arith, h.0)

  replay-eq :
      (c : FileCodec V) (boundary : ℕ) (bytes : Bytes) (s : Scan V) (log : List (LogEntry V))
      → scan c boundary (length bytes) (split_inclusive bytes) fresh_scan ≡ ok s
      → check_start boundary s.log ≡ ok log
      → replay_bytes c boundary bytes ≡ (ok log, if s.torn then take s.good_end bytes else bytes)
  unfolding replay_bytes
  replay-eq c boundary bytes s log h k = ground arith

  module _ (c : FileCodec V) (law : IsFileCodec c) (i boundary : ℕ) (es : List (LogEntry V))
      (h : Follows i es) (le : i ≤ boundary) where
    kept : check_start boundary (above boundary es) ≡ ok (drop (boundary - i) es)
    kept =
        rw (above-eq-drop i boundary es h le)
          (check_start-Follows boundary _ (Follows-drop_past i boundary es h le))

    -- A log file of whole lines and a part of one: the lines above the boundary are the log, and
    -- the part is cut off.
    pub replay-lines :
        (w : Bytes)
        → IsPart w
        → replay_bytes c boundary (lines c es ++ w) ≡ (ok (drop (boundary - i) es), lines c es)
    replay-lines [] p =
        let total = length (lines c es ++ []) in
        let r = after-Read c law boundary total es fresh_scan refl in
        let read = scan-lines c law boundary total i es [] fresh_scan h refl in
        replay-eq c boundary (lines c es ++ []) (after c law boundary total es fresh_scan)
          (drop (boundary - i) es) (unfold scan split_inclusive in read) (rw r.log kept)
        ∙ rw (r.torn, append-nil (lines c es)) refl
    replay-lines (b ∷ w) p =
        let total = length (lines c es ++ b ∷ w) in
        let s = after c law boundary total es fresh_scan in
        let r = after-Read c law boundary total es fresh_scan refl in
        let o : s.offset + length (b ∷ w) ≡ total =
          omega (arith, r.offset, length-append (lines c es) (b ∷ w)) in
        let g : s.good_end ≡ length (lines c es) = omega (arith, r.offset, r.good_end) in
        let read =
          scan-lines c law boundary total i es (b ∷ w) fresh_scan h refl
          ∙ rw (split-part b w p)
              (scan-torn c boundary total (b ∷ w) [] s (ends-part (b ∷ w) p) o) in
        replay-eq c boundary (lines c es ++ b ∷ w) (record s { offset = total; torn = true })
          (drop (boundary - i) es) read (rw r.log kept)
        ∙ rw (g, take-length-append (lines c es) (b ∷ w)) refl
