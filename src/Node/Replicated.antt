-- ===== src/Node/Replicated.antt =====
-- What an accepted AppendEntries leaves in a follower's log (`handle_append_entries` of raft/node.rs).
use rust_kv.Base.{
  ◌+◌, ◌-◌, ◌≤◌, ◌<◌, ◌≡◌, refl, sym, ◌&&◌, arith, leb, ltb, length, drop, All, All-map, All-both,
}
use mathlib.Core.Path.{subst}
use mathlib.Core.List.{reverse}
use rust_kv.Outcome.{Returns, Returns-both, Ensures, Ensures-some, Ensures-bind}
use rust_kv.Types.{LogIndex, AppendEntriesArgs}
use rust_kv.Storage.{Storage, snapshot_index, last_index}
use rust_kv.Storage.Contiguous.{Follows}
use rust_kv.Storage.Lookup.{truncated, truncate-eq-ok, last_index-truncated}
use rust_kv.Node.State.{RaftNode, follower}
use rust_kv.Node.Membership.{latest_config, adopt_membership, rescan_membership, publish_membership}
use rust_kv.Node.Apply.{resolve_pending}
use rust_kv.Node.Rpc.{Walk, held, missing, conflict, walk, append_from, truncate_at, write_entries}
use rust_kv.Node.Wf.Defs.{IsWf}
use rust_kv.Node.Wf.Append.{write_entries-IsWf}
use rust_kv.Node.Wf.Walk.{WalkEnd, walk-WalkEnd, IsBatch, Covers}
use rust_kv.Node.Evolve.Defs.{by_if, by_option, Ensures-assert}
use rust_kv.Node.Matching.{
  Holds, Located, Follows-Located, Before, walk-Before, append-Appended, with_rest, with_rest-Holds,
  truncated-Holds,
}

module _ {V S : Type 0} where
  abbrev pub HoldsAll : AppendEntriesArgs V → RaftNode V S → Type 0
  HoldsAll args n = All (Holds n.storage) args.entries

  append_from-HoldsAll :
      (first : LogIndex) (args : AppendEntriesArgs V) (n : RaftNode V S)
      → Follows args.prev_log_index args.entries
      → first ≡ last_index n.storage + 1
      → All (λ e. e.index < first → Holds n.storage e) args.entries
      → Ensures (HoldsAll args) (append_from first args n)
  unfolding append_from adopt_membership publish_membership
  append_from-HoldsAll first args n f last old =
      let i = args.prev_log_index in
      let es = args.entries in
      let rest = drop (first - i - 1) es in
      Ensures-assert (ltb i first && leb (first - i - 1) (length es)) rest _ (λ ok.
        let lo : i < first = ground (arith, ok) in
        let all : All (Holds (with_rest i first es n.storage)) es =
          All-map (λ e. Located i es e × (e.index < first → Holds n.storage e))
            (Holds (with_rest i first es n.storage)) es
            (λ e h. with_rest-Holds i first es n.storage e lo last h)
            (All-both (Located i es) (λ e. e.index < first → Holds n.storage e) es
              (Follows-Located i es f) old) in
        Ensures-bind (append-Appended rest n.storage) (λ s' q.
          let there = subst (λ (x : Storage V). All (Holds x) es) (sym q) all in
          Ensures-some _
            (by_option (HoldsAll args) (latest_config (reverse rest)) there (λ _. there))))

  -- The node after a truncation, but for what waits on it and its configuration.
  truncate_at-truncated :
      (f : LogIndex) (n : RaftNode V S)
      → snapshot_index n.storage < f
      → f ≤ last_index n.storage
      → Ensures (λ m. m.storage ≡ truncated f n.storage) (truncate_at f n)
  unfolding truncate_at resolve_pending rescan_membership adopt_membership publish_membership
  truncate_at-truncated f n lo hi = Ensures-assert (ltb n.commit_index f) n _ (λ _.
      rw (truncate-eq-ok n.storage f lo hi) (
        Ensures-some _ (
          by_if (λ (m : RaftNode V S). m.storage ≡ truncated f n.storage) (leb f n.members_index)
            refl refl)))

  write_entries-HoldsAll :
      (r : Walk) (args : AppendEntriesArgs V) (n : RaftNode V S)
      → Follows args.prev_log_index args.entries
      → WalkEnd args.prev_log_index args.entries n.storage n.commit_index r
      → All (Before n.storage r) args.entries
      → Ensures (HoldsAll args) (write_entries r args n)
  unfolding write_entries
  write_entries-HoldsAll held args n f e old = Ensures-some n old
  write_entries-HoldsAll (missing first) args n f e old =
      append_from-HoldsAll first args n f e.2 old
  write_entries-HoldsAll (conflict first) args n f e old =
      Ensures-bind (truncate_at-truncated first n e.2 e.3) (λ m q.
        append_from-HoldsAll first args m f
          (rw q (omega (arith, last_index-truncated n.storage first e.2 e.3)))
          (rw q (
            All-map (λ x. x.index < first → Holds n.storage x)
              (λ x. x.index < first → Holds (truncated first n.storage) x) args.entries
              (λ x h. truncated-Holds first n.storage x h) old)))

  -- On a well-formed follower, if the previous index of an AppendEntries is not past the end of the
  -- log, its entries follow that index and none contradicts the committed part of the log, then
  -- writing them does not panic, leaves a well-formed node, and leaves a log that reaches the last
  -- of them and has, at the index of each that the snapshot does not cover, an entry of its term.
  -- It covers a batch that the log has, a batch that continues it, and a conflict that truncates
  -- it.
  pub write_entries-Replicated :
      (args : AppendEntriesArgs V) (n : RaftNode V S)
      → IsBatch n.storage n.commit_index args
      → args.prev_log_index ≤ last_index n.storage
      → n.role ≡ follower
      → IsWf n
      → Returns
          (λ m. (IsWf m × Covers args m.storage) × HoldsAll args m)
          (write_entries (walk n.storage args.entries) args n)
  write_entries-Replicated args n b le role w =
      let i = args.prev_log_index in
      let es = args.entries in
      let end = walk-WalkEnd i es n.storage n.commit_index b.follows le b.agrees in
      Returns-both (write_entries-IsWf (walk n.storage es) args n b.follows end role w) (
        write_entries-HoldsAll (walk n.storage es) args n b.follows end
          (walk-Before i n.storage es b.follows))
