-- ===== src/Storage/Disk/Refine.antt =====
-- The operations on the files against the mirror in memory.
use mathlib.Core.Path.{subst}
use rust_kv.Base.{
  ◌+◌, ◌-◌, ◌≤◌, ◌<◌, ◌≡◌, refl, sym, ap, ◌∙◌, Option, some, List, [], ◌∷◌, ◌++◌, append-nil, arith,
  length, length-append, length-drop, drop-append_left, Bool-cases, Option-cases, inl, inr,
}
use rust_kv.Types.{LogIndex, Membership, HardState, LogEntry, Snapshot}
use rust_kv.Storage.{
  Storage, ok, snapshot_index, last_index, entry, has_term, check_contiguous, save_hard_state,
}
use rust_kv.Storage.Contiguous.{Follows, IsContiguous, Follows-append, Follows-of_check}
use rust_kv.Storage.Lookup.{
  entry-bounds, append-eq-ok, truncated, truncated-IsContiguous, truncate-eq-ok,
}
use rust_kv.Storage.Compaction.{
  compacted, boundary_snapshot, compact-eq-ok, compacted-IsContiguous, has_term-bounds,
  install-eq-kept, install-eq-replaced,
}
use rust_kv.Storage.Disk.{
  Bytes, FileCodec, IsFileCodec, Dir, run, run_all, set_file, unwrap_or_empty, lines,
  load_hard_state, load_snapshot,
}
use rust_kv.Storage.Disk.Lines.{lines-append}
use rust_kv.Storage.Disk.Operations.{
  Operation, save, extend, truncate, compact, install, append_actions, rewrite_log_actions,
  write_snapshot_actions, actions, mirror,
}
use rust_kv.Storage.Disk.Operations.Calls.{
  extend-actions, truncate-actions, truncate-past_actions, compact-actions, install-kept_actions,
  install-replaced_actions, append-checked, truncate_cases, compact-refused, install-above,
}
use rust_kv.Storage.Disk.Recovery.{Stored, IsDurable, Holds-IsContiguous}

module _ {V : Type 0} (c : FileCodec V) where
  -- A directory whose log has exactly the lines of the mirror.
  pub fresh-IsDurable :
      {s : Storage V} {d : Dir}
      → load_hard_state c d ≡ ok s.hard_state
      → load_snapshot c d ≡ ok s.snapshot
      → unwrap_or_empty d.log ≡ lines c s.log
      → IsContiguous s
      → IsDurable c s d
  fresh-IsDurable {s} h x l f =
      let z : snapshot_index s - snapshot_index s ≡ 0 = omega arith in
      record {
        holds = record {
          hard_state = h;
          snapshot = x;
          first = snapshot_index s;
          entries = s.log;
          follows = f;
          below = omega arith;
          log_bytes = l ∙ sym (append-nil _);
          kept = rw z refl;
        };
        reaches = omega arith;
      }

  module _ (law : IsFileCodec c) {s : Storage V} {d : Dir} (h : IsDurable c s d) where
    save-IsDurable :
        (hs : HardState) → IsDurable c (save_hard_state hs s) (run_all (actions c (save hs) s) d)
    unfolding save_hard_state actions run_all run set_file load_hard_state load_snapshot
        snapshot_index
    save-IsDurable hs = record {
      holds = record {
        hard_state = rw (law.hard_state_back hs) refl;
        snapshot = h.holds.snapshot;
        first = h.holds.first;
        entries = h.holds.entries;
        follows = h.holds.follows;
        below = h.holds.below;
        log_bytes = h.holds.log_bytes;
        kept = h.holds.kept;
      };
      reaches = h.reaches;
    }

    pub append-Stored :
        (es : List (LogEntry V)) (w : Bytes) {d' : Dir}
        → Follows (last_index s) es
        → load_hard_state c d' ≡ load_hard_state c d
        → load_snapshot c d' ≡ load_snapshot c d
        → unwrap_or_empty d'.log ≡ unwrap_or_empty d.log ++ lines c es ++ w
        → Stored c w (record s { log = s.log ++ es }) d'
    unfolding snapshot_index last_index
    append-Stored es w f hs x l =
        let k = h.holds in
        let kept = k.kept in
        let n : length s.log ≡ length k.entries - (snapshot_index s - k.first) =
          ap length kept ∙ length-drop (snapshot_index s - k.first) k.entries in
        let e : last_index s ≡ k.first + length k.entries = omega (arith, h.reaches, k.below, n) in
        record {
          holds = record {
            hard_state = hs ∙ k.hard_state;
            snapshot = x ∙ k.snapshot;
            first = k.first;
            entries = k.entries ++ es;
            follows = Follows-append k.first k.entries es k.follows (rw e at f);
            below = k.below;
            log_bytes =
                l
                ∙ rw (k.log_bytes, append-nil (lines c k.entries), lines-append c k.entries es)
                    refl;
            kept =
                ap (λ (xs : List (LogEntry V)). xs ++ es) kept
                ∙ sym (
                    drop-append_left (snapshot_index s - k.first) k.entries es
                      (omega (arith, h.reaches)));
          };
          reaches = omega (arith, h.reaches, length-append k.entries es);
        }

    -- The log file rewritten.
    rewrite-IsDurable :
        (es : List (LogEntry V))
        → IsContiguous (record s { log = es })
        → IsDurable c (record s { log = es }) (run_all (rewrite_log_actions c es) d)
    unfolding run_all run set_file load_hard_state load_snapshot
    rewrite-IsDurable es f = fresh-IsDurable h.holds.hard_state h.holds.snapshot refl f

    -- The snapshot written, and then the log file rewritten.
    replace-IsDurable :
        (x : Snapshot V) (es : List (LogEntry V))
        → IsContiguous (record s { snapshot = some x; log = es })
        → IsDurable c
            (record s { snapshot = some x; log = es })
            (run_all (write_snapshot_actions c x ++ rewrite_log_actions c es) d)
    unfolding run_all run set_file load_hard_state load_snapshot
    replace-IsDurable x es f =
        fresh-IsDurable h.holds.hard_state (rw (law.snapshot_back x) refl) refl f

    -- An operation leads to a state that the files hold, given what the mirror becomes.
    settle :
        (op : Operation V) {s' t : Storage V}
        → mirror op s ≡ ok s'
        → mirror op s ≡ ok t
        → IsDurable c t (run_all (actions c op s) d)
        → IsDurable c s' (run_all (actions c op s) d)
    settle op {s'} {t} m m' k =
        let e : t ≡ s' = cc in
        subst (λ (r : Storage V). IsDurable c r (run_all (actions c op s) d)) e k

    extend-IsDurable :
        (es : List (LogEntry V))
        → check_contiguous (last_index s + 1) es ≡ ok tt
        → IsDurable c (record s { log = s.log ++ es }) (run_all (actions c (extend es) s) d)
    unfolding run_all run load_hard_state load_snapshot
    extend-IsDurable [] k =
        unfold actions append_actions in
        append-Stored [] [] tt refl refl (sym (unfold lines in (append-nil _ ∙ append-nil _)))
    extend-IsDurable (e ∷ es) k = rw (extend-actions c s e es k) (
        append-Stored (e ∷ es) [] (Follows-of_check (last_index s) (e ∷ es) k) refl refl
          (sym (append-nil _)))

    truncate-IsDurable :
        (from : LogIndex)
        → snapshot_index s < from
        → from ≤ last_index s
        → IsDurable c (truncated from s) (run_all (actions c (truncate from) s) d)
    truncate-IsDurable from lo hi =
        rw (truncate-actions c s from lo hi)
          (rewrite-IsDurable _ (truncated-IsContiguous s from (Holds-IsContiguous c h.holds)))

    compact-IsDurable :
        (index : LogIndex) (state : V) (membership : Option Membership) {e : LogEntry V}
        → entry s index ≡ some e
        → IsDurable c
            (compacted (boundary_snapshot index e.term membership state) s)
            (run_all (actions c (compact index state membership) s) d)
    compact-IsDurable index state membership {e} k =
        let x = boundary_snapshot index e.term membership state in
        let b = entry-bounds s index k in
        rw (compact-actions c s index state membership k) (
          replace-IsDurable x _ (compacted-IsContiguous s x b.0 b.1 (Holds-IsContiguous c h.holds)))

    install-IsDurable :
        (x : Snapshot V)
        → snapshot_index s < x.last_included_index
        → {s' : Storage V} → mirror (install x) s ≡ ok s'
        → IsDurable c s' (run_all (actions c (install x) s) d)
    unfolding mirror
    install-IsDurable x up m =
        elim (Bool-cases (has_term s x.last_included_index x.last_included_term)) [
          | inl same ↦
              let b = has_term-bounds s x.last_included_index x.last_included_term same in
              settle (install x) m (install-eq-kept s x up same) (
                rw (install-kept_actions c s x up same) (
                  replace-IsDurable x _
                    (compacted-IsContiguous s x up b.1 (Holds-IsContiguous c h.holds))))
          | inr other ↦
              settle (install x) m (install-eq-replaced s x up other)
                (rw (install-replaced_actions c s x up other) (replace-IsDurable x [] tt))
        ]

    -- With a codec that keeps its laws: where the files hold the mirror, and the mirror accepts an
    -- operation, whichever it is, the files hold the new mirror when its calls are done.
    pub run-IsDurable :
        (op : Operation V) {s' : Storage V}
        → mirror op s ≡ ok s'
        → IsDurable c s' (run_all (actions c op s) d)
    unfolding mirror run_all
    run-IsDurable (save hs) m = settle (save hs) m refl (save-IsDurable hs)
    run-IsDurable (extend es) m =
        let k = append-checked s es m in
        settle (extend es) m (append-eq-ok s es (Follows-of_check (last_index s) es k))
          (extend-IsDurable es k)
    run-IsDurable (truncate from) m = elim (truncate_cases s from m) [
      | inl (lo, hi) ↦
          settle (truncate from) m (truncate-eq-ok s from lo hi) (truncate-IsDurable from lo hi)
      | inr (past, same) ↦
          settle (truncate from) m same (rw (truncate-past_actions c s from past) h)
    ]
    run-IsDurable (compact index state membership) m = elim (Option-cases (entry s index)) [
      | inl miss ↦ absurd (compact-refused s index state membership miss m)
      | inr (e, k) ↦
          settle (compact index state membership) m (compact-eq-ok s index state membership k)
            (compact-IsDurable index state membership k)
    ]
    run-IsDurable (install x) m = install-IsDurable x (install-above s x m) m
