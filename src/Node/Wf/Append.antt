-- ===== src/Node/Wf/Append.antt =====
-- The invariant through `handle_append_entries` of raft/node.rs.
use rust_kv.Base.{
  ◌+◌, ◌-◌, ◌≤◌, ◌<◌, ◌≡◌, refl, inl, inr, Option, none, some, arith, Bool, true, false, ◌&&◌, min,
  leb, ltb, length, drop, length-drop, if◌then◌else◌, lt→ltb, Bool-cases,
}
use mathlib.Core.List.{reverse}
use rust_kv.Outcome.{Returns, returns, Returns-bind, Returns-if}
use rust_kv.Types.{NodeId, Term, LogIndex, Membership, AppendEntriesArgs}
use rust_kv.Storage.{snapshot_index, last_index, snapshot_term, term, entry, pos}
use rust_kv.Storage.Contiguous.{Follows, Follows-drop}
use rust_kv.Storage.Lookup.{
  append-eq-ok, last_index-append, truncated, truncate-eq-ok, last_index-truncated,
  truncated-IsContiguous,
}
use rust_kv.Node.State.{follower, RaftNode}
use rust_kv.Node.Queries.{current_term}
use rust_kv.Node.Membership.{
  adopt_membership, rescan_membership, publish_membership, adopt_leadership, latest_config,
}
use rust_kv.Node.Apply.{resolve_pending}
use rust_kv.Node.Replication.StepDown.{rearmed, stepped_down, become_follower-eq}
use rust_kv.Node.Rpc.{
  Walk, held, missing, conflict, walk, prev_matches, append_from, truncate_at, write_entries,
  advance_to, accept_entries, handle_append_entries,
}
use rust_kv.Node.Wf.Defs.{NextInLog-mono, IsApplied, IsWf}
use rust_kv.Node.Wf.Apply.{apply_committed-IsWf}
use rust_kv.Node.Wf.Election.{appended-IsWf}
use rust_kv.Node.Wf.Walk.{WalkEnd, walk-WalkEnd, Covers, prev_bounds, IsBatch}

module _ {V S : Type 0} where
  pub adopt_membership-IsWf :
      (m : Membership) (i : LogIndex) (n : RaftNode V S) → IsWf n → IsWf (adopt_membership m i n)
  unfolding adopt_membership publish_membership adopt_leadership
  adopt_membership-IsWf m i n w = ground arith

module _ {V : Type 0} where
  pub staged_lt :
      {applied applied' : LogIndex} (staged : Option (LogIndex × V × Option Membership))
      → IsApplied applied staged
      → applied ≤ applied'
      → IsApplied applied' staged
  staged_lt none h le = tt
  staged_lt (some x) h le = omega arith

module _ {V S : Type 0} where
  pub adopt_found-IsWf :
      (args : AppendEntriesArgs V) (found : Option (Membership × LogIndex)) (n : RaftNode V S)
      → IsWf n × Covers args n.storage
      → Returns
          (λ m. IsWf m × Covers args m.storage)
          (some
            (elim found [ none ↦ n | some (members, index) ↦ adopt_membership members index n ]))
  adopt_found-IsWf args none n h = returns h
  adopt_found-IsWf args (some (members, index)) n h =
      returns (
        adopt_membership-IsWf members index n h.0,
        unfold adopt_membership publish_membership in h.1,
      )

  pub append_from-IsWf :
      (first : LogIndex) (args : AppendEntriesArgs V) (n : RaftNode V S)
      → Follows args.prev_log_index args.entries
      → args.prev_log_index < first
      → first ≤ args.prev_log_index + length args.entries
      → first ≡ last_index n.storage + 1
      → IsWf n
      → Returns (λ m. IsWf m × Covers args m.storage) (append_from first args n)
  unfolding append_from
  append_from-IsWf first args n f lo hi e w =
      let k = first - args.prev_log_index - 1 in
      let es = drop k args.entries in
      let at_end : args.prev_log_index + k ≡ last_index n.storage = omega arith in
      let fs : Follows (last_index n.storage) es =
        rw at_end at (Follows-drop args.prev_log_index k args.entries f (omega arith)) in
      let ok : (ltb args.prev_log_index first && leb k (length args.entries)) ≡ true =
        ground arith in
      rw ok (
        rw (append-eq-ok n.storage es fs) (
          adopt_found-IsWf args (latest_config (reverse es)) _ (
            appended-IsWf n es n.role fs
                (NextInLog-mono _ _ n.role (omega (arith, last_index-append n.storage es)) w.next)
                w,
            omega (arith, last_index-append n.storage es, length-drop k args.entries),
          )))

  pub rescan_if-IsWf :
      (b : Bool) (i : LogIndex) (n : RaftNode V S)
      → IsWf n × (last_index n.storage + 1 ≡ i)
      → IsWf (if b then rescan_membership n else n)
        × (last_index (if b then rescan_membership n else n).storage + 1 ≡ i)
  unfolding rescan_membership
  rescan_if-IsWf false i n h = h
  rescan_if-IsWf true i n h =
      (adopt_membership-IsWf _ _ n h.0, unfold adopt_membership publish_membership in h.1)

  pub truncate_at-IsWf :
      (i : LogIndex) (n : RaftNode V S)
      → n.commit_index < i
      → i ≤ last_index n.storage
      → n.role ≡ follower
      → IsWf n
      → Returns (λ m. IsWf m × (last_index m.storage + 1 ≡ i)) (truncate_at i n)
  unfolding truncate_at resolve_pending snapshot_index
  truncate_at-IsWf i n lo hi role w =
      let up : snapshot_index n.storage < i = omega (arith, w.boundary, w.ordered) in
      let last : last_index (truncated i n.storage) ≡ i - 1 =
        last_index-truncated n.storage i up hi in
      rw (lt→ltb _ _ lo) (
        rw (truncate-eq-ok n.storage i up hi) (
          returns (
            rescan_if-IsWf (leb i n.members_index) i _ (
              record {
                contiguous = truncated-IsContiguous n.storage i w.contiguous;
                boundary = w.boundary;
                ordered = w.ordered;
                committed = omega (arith, last);
                timer = w.timer;
                timer_fits = w.timer_fits;
                capture = w.capture;
                next = rw role tt;
              },
              omega (arith, last),
            ))))

  -- What the walk found is written, and the log then covers the request.
  pub write_entries-IsWf :
      (r : Walk) (args : AppendEntriesArgs V) (n : RaftNode V S)
      → Follows args.prev_log_index args.entries
      → WalkEnd args.prev_log_index args.entries n.storage n.commit_index r
      → n.role ≡ follower
      → IsWf n
      → Returns (λ m. IsWf m × Covers args m.storage) (write_entries r args n)
  unfolding write_entries
  write_entries-IsWf held args n f e role w = returns (w, e)
  write_entries-IsWf (missing first) args n f e role w =
      append_from-IsWf first args n f e.0 e.1 e.2 w
  write_entries-IsWf (conflict first) args n f e role w =
      Returns-bind (truncate_at-IsWf first n e.4 e.3 role w)
        (λ m h. append_from-IsWf first args m f e.0 e.1 (omega (arith, h.1)) h.0)

  pub advance_to-IsWf :
      (c : LogIndex) (n : RaftNode V S)
      → c ≤ last_index n.storage
      → IsWf n
      → Returns IsWf (advance_to c n)
  unfolding advance_to
  advance_to-IsWf c n le w =
      Returns-if (ltb n.commit_index c) _ (some n)
        (λ e. apply_committed-IsWf (record n { commit_index = c }) (ground (arith, e)))
        (λ _. returns w)

  pub accept_entries-IsWf :
      (args : AppendEntriesArgs V) (n : RaftNode V S)
      → IsBatch n.storage n.commit_index args
      → args.prev_log_index ≤ last_index n.storage
      → n.role ≡ follower
      → IsWf n
      → Returns IsWf (accept_entries args n)
  unfolding accept_entries
  accept_entries-IsWf args n b le role w =
      Returns-bind
        (write_entries-IsWf (walk n.storage args.entries) args n b.follows
          (walk-WalkEnd args.prev_log_index args.entries n.storage n.commit_index b.follows le
            b.agrees)
          role w)
        (λ m h.
          advance_to-IsWf (min args.leader_commit (args.prev_log_index + length args.entries)) m
            (omega (arith, h.1)) h.0)

  pub stepped_down-IsWf :
      (t : Term) (leader_id : Option NodeId) (n : RaftNode V S)
      → IsWf n
      → IsWf (stepped_down t leader_id n)
  unfolding snapshot_index last_index
  stepped_down-IsWf t leader_id n w = ground arith

  pub stepped_down-IsBatch :
      (t : Term) (leader_id : Option NodeId) (args : AppendEntriesArgs V) (n : RaftNode V S)
      → IsBatch n.storage n.commit_index args
      → IsBatch (stepped_down t leader_id n).storage n.commit_index args
  unfolding term entry pos snapshot_index snapshot_term
  stepped_down-IsBatch t leader_id args n b = record { follows = b.follows; agrees = b.agrees }

  -- On a well-formed node, an AppendEntries whose entries follow its previous index and do not
  -- contradict the committed part of the log is handled without a panic, on every branch (an old
  -- term, a mismatch, a conflict that truncates), and leaves a well-formed node.
  pub handle_append_entries-IsWf :
      (args : AppendEntriesArgs V) (n : RaftNode V S)
      → IsBatch n.storage n.commit_index args
      → IsWf n
      → Returns (λ x. IsWf x.1) (handle_append_entries args n)
  unfolding handle_append_entries
  handle_append_entries-IsWf args n b w =
      Returns-if (ltb args.term (current_term n)) _ _ (λ _. returns w)
        (λ _.
          let leader_id = some args.leader_id in
          let (d, r, e, _, _) = become_follower-eq args.term leader_id n (w.timer, w.timer_fits) in
          let m = record (rearmed d r (stepped_down args.term leader_id n)) {
            last_leader_contact = some n.now;
          } in
          let v : IsWf m = stepped_down-IsWf args.term leader_id n w in
          rw e (elim (Bool-cases (prev_matches m.storage args.prev_log_index args.prev_log_term)) [
            | inl same ↦ rw same (
                Returns-bind
                  (accept_entries-IsWf args m (stepped_down-IsBatch args.term leader_id args n b)
                    (prev_bounds m.storage args.prev_log_index args.prev_log_term same) refl v)
                  (λ n' w'. returns w'))
            | inr other ↦ rw other (returns v)
          ]))
