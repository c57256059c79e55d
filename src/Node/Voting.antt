-- ===== src/Node/Voting.antt =====
-- `handle_request_vote` and `handle_pre_vote` of raft/node.rs: who gets the vote.
use rust_kv.Base.{
  ◌≡◌, refl, ap, sym, ◌∙◌, inl, inr, not, ◌&&◌, ◌||◌, leb, Bool, true, none, some, arith, ltb, ◌==◌,
  if◌then◌else◌, Bool-cases,
}
use rust_kv.Outcome.{Returns, returns, Returns-if, Returns-map}
use rust_kv.Types.{NodeId, HardState, RequestVoteArgs, RequestVoteReply}
use rust_kv.Storage
use rust_kv.Storage.{Storage}
use rust_kv.Node.State.{RaftNode}
use rust_kv.Node.Queries.{current_term, save_hard_state}
use rust_kv.Node.Replication.StepDown.{
  TimerIsSet, raised, rearmed, stepped_down, become_follower-eq, reset_election_timer-eq,
}
use rust_kv.Node.Rpc.{
  up_to_date, log_up_to_date, can_vote, grant_vote, handle_request_vote, handle_pre_vote,
}

-- The vote of a hard state is free for the candidate.
abbrev pub is_free : HardState → NodeId → Bool
is_free h candidate = elim h.voted_for [ none ↦ true | some c ↦ c == candidate ]

-- The candidate's last entry is of a later term than the last one here, or of the same term and at no
-- lower index.
abbrev pub no_older : {V : Type 0} → RequestVoteArgs → Storage V → Bool
no_older args s =
    ltb (Storage.last_term s) args.last_log_term
    || (args.last_log_term == Storage.last_term s && leb (Storage.last_index s) args.last_log_index)

module _ {V S : Type 0} where
  -- The rule of the vote: the request's term is not old, the vote of that term is free, and the
  -- candidate's log is no less up to date.
  abbrev pub deserves : RequestVoteArgs → RaftNode V S → Bool
  deserves args n =
      not (ltb args.term n.storage.hard_state.current_term)
      && (is_free (raised args.term n.storage.hard_state) args.candidate_id
          && no_older args n.storage)

  -- What the request leaves on the disk.
  abbrev pub cast : RequestVoteArgs → RaftNode V S → HardState
  cast args n =
      if deserves args n
      then record { current_term = args.term; voted_for = some args.candidate_id }
      else raised args.term n.storage.hard_state

  pub record Voted (args : RequestVoteArgs) (n : RaftNode V S) (reply : RequestVoteReply)
      (n' : RaftNode V S) : Type 0 where
    pub granted : reply.vote_granted ≡ deserves args n
    pub term : reply.term ≡ current_term n'
    pub hard_state : n'.storage.hard_state ≡ cast args n
    pub log : n'.storage ≡ record n.storage { hard_state = n'.storage.hard_state }

  may_vote-eq :
      (args : RequestVoteArgs) (n m : RaftNode V S)
      → m.storage ≡ record n.storage { hard_state = raised args.term n.storage.hard_state }
      → (can_vote m args.candidate_id && log_up_to_date m args) ≡ (
          is_free (raised args.term n.storage.hard_state) args.candidate_id
          && no_older args n.storage)
  unfolding can_vote log_up_to_date up_to_date Storage.last_term Storage.last_index
      Storage.snapshot_term Storage.snapshot_index
  may_vote-eq args n m q = rw q

  grant_vote-Voted :
      (args : RequestVoteArgs) (n m : RaftNode V S)
      → TimerIsSet m.config
      → m.storage ≡ record n.storage { hard_state = raised args.term n.storage.hard_state }
      → Returns (λ x. Voted args n x.0 x.1) (grant_vote args m)
  unfolding grant_vote current_term save_hard_state Storage.save_hard_state
  grant_vote-Voted args n m t q =
      let here : can_vote m args.candidate_id && log_up_to_date m args ≡ (
          is_free (raised args.term n.storage.hard_state) args.candidate_id
          && no_older args n.storage) =
        may_vote-eq args n m q in
      let h : m.storage.hard_state ≡ raised args.term n.storage.hard_state =
        ap (λ (s : Storage V). s.hard_state) q in
      let kept : m.storage ≡ record n.storage { hard_state = m.storage.hard_state } =
        q ∙ ap (λ (x : HardState). record n.storage { hard_state = x }) (sym h) in
      Returns-if (ltb args.term m.storage.hard_state.current_term) _ _
        (λ old. returns (record {
          granted = ground (arith, old, h);
          term = refl;
          hard_state = ground (arith, old, h);
          log = kept;
        }))
        (λ current.
          Returns-if (can_vote m args.candidate_id && log_up_to_date m args) _ _
            (λ yes.
              let (d, r, e, _, _) =
                reset_election_timer-eq
                  (save_hard_state (current_term m) (some args.candidate_id) m) t in
              rw e (
                returns (record {
                  granted = ground (arith, current, yes, here, h);
                  term = refl;
                  hard_state = ground (arith, current, yes, here, h);
                  log =
                      ap
                        (λ (s : Storage V). record s {
                          hard_state = record {
                            current_term = m.storage.hard_state.current_term;
                            voted_for = some args.candidate_id;
                          };
                        })
                        q;
                })))
            (λ no. returns (record {
              granted = ground (arith, current, no, here, h);
              term = refl;
              hard_state = ground (arith, current, no, here, h);
              log = kept;
            })))

  -- Under election timeouts that are in order, a RequestVote never panics; it is granted exactly if
  -- the term is not old, the vote of that term is free or the candidate's already, and the
  -- candidate's log is no less up to date; the hard state then has the higher term, and the vote
  -- exactly if it is granted; the reply carries that term; and neither the log nor the snapshot
  -- changes.
  pub handle_request_vote-Voted :
      (args : RequestVoteArgs) (n : RaftNode V S)
      → TimerIsSet n.config
      → Returns (λ x. Voted args n x.0 x.1) (handle_request_vote args n)
  unfolding handle_request_vote current_term
  handle_request_vote-Voted args n t =
      elim (Bool-cases (ltb n.storage.hard_state.current_term args.term)) [
        | inl newer ↦
            let (d, r, e, _, _) = become_follower-eq args.term none n t in
            rw newer
              (rw e (grant_vote-Voted args n (rearmed d r (stepped_down args.term none n)) t refl))
        | inr old ↦ rw old (grant_vote-Voted args n n t (rw old))
      ]

  pre_vote-deserves :
      (args : RequestVoteArgs) (n : RaftNode V S)
      → (handle_pre_vote args n).vote_granted ≡ true
      → deserves args n ≡ true
  unfolding handle_pre_vote current_term
  pre_vote-deserves args n h =
      let newer : ltb n.storage.hard_state.current_term args.term ≡ true = ground (arith, h) in
      let good : no_older args n.storage ≡ true =
        unfold log_up_to_date up_to_date in ground (arith, h) in
      ground (arith, newer, good)

  -- A pre-vote keeps its word: if a node grants a PreVote, it grants the RequestVote of the same
  -- candidate, term and log in the same state. The election timeouts are in order.
  pub handle_pre_vote-Voted :
      (args : RequestVoteArgs) (n : RaftNode V S)
      → TimerIsSet n.config
      → (handle_pre_vote args n).vote_granted ≡ true
      → Returns (λ x. x.0.vote_granted ≡ true) (handle_request_vote args n)
  handle_pre_vote-Voted args n t h =
      Returns-map (handle_request_vote-Voted args n t)
        (λ x v. v.granted ∙ pre_vote-deserves args n h)
