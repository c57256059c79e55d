-- ===== src/Node/Evolve/Life.antt =====
-- The life of a node of raft/node.rs across turns of its loop and restarts from its storage, and its
-- votes in it.
use rust_kv.Base.{ℕ, ◌≤◌, ◌≡◌, refl, sym, ◌∙◌, ap, ◌^◌, Bool, true, some, arith, ltb, if◌then◌else◌}
use mathlib.Core.Path.{subst}
use rust_kv.Outcome.{Ensures, Ensures-some, Returns-at}
use rust_kv.Types.{NodeId, HardState, RequestVoteArgs, RequestVoteReply}
use rust_kv.Rng
use rust_kv.Rng.{next_range}
use rust_kv.Node.State.{RaftNode}
use rust_kv.Node.Queries.{reset_election_timer}
use rust_kv.Node.Loop.{Ready, continue, boot_state, spawn, turn}
use rust_kv.Node.Rpc.{handle_request_vote}
use rust_kv.Node.Voting.{deserves, Voted, handle_request_vote-Voted}
use rust_kv.Node.Replication.StepDown.{TimerIsSet, raised}
use rust_kv.Node.Evolve.Defs.{VoteStands, VoteStands-refl, Ensures-any, Ensures-assert}
use rust_kv.Node.Evolve.Rpc.{handle_request_vote-Evolves}
use rust_kv.Node.Evolve.Loop.{turn-Evolves}

module _ {V S : Type 0} where
  -- Turns of the loop that go on, and restarts from what is on the disk, at any times and with any
  -- messages.
  pub data Life (n : RaftNode V S) : RaftNode V S → Type 0 where
    born : Life n n
    turned :
        {m k : RaftNode V S} (now : ℕ) (ready : Ready V)
        → Life n m
        → turn now ready m ≡ some (continue k)
        → Life n k
    restarted :
        {m k : RaftNode V S} (state : S) (now : ℕ)
        → Life n m
        → spawn m.config m.storage m.state_machine state now ≡ some k
        → Life n k

  -- What a later state keeps of the configuration and the hard state.
  pub record Bound (n m : RaftNode V S) : Type 0 where
    pub config : m.config ≡ n.config
    pub hard_state : VoteStands n.storage.hard_state m.storage.hard_state

  Bound-trans : (n m k : RaftNode V S) → Bound n m → Bound m k → Bound n k
  Bound-trans n m k a b = record {
    config = b.config ∙ a.config;
    hard_state = record {
      term = omega (arith, a.hard_state.term, b.hard_state.term);
      vote = λ same c q.
          b.hard_state.vote (omega (arith, a.hard_state.term, b.hard_state.term, same)) c
            (a.hard_state.vote (omega (arith, a.hard_state.term, b.hard_state.term, same)) c q);
    };
  }

  spawn-Bound :
      (m : RaftNode V S) (state : S) (now : ℕ)
      → Ensures (Bound m) (spawn m.config m.storage m.state_machine state now)
  unfolding spawn reset_election_timer
  spawn-Bound m state now = Ensures-any (boot_state m.state_machine state m.storage) _ (λ state' _.
      Ensures-assert (ltb m.config.election_timeout_max (2 ^ 64)) m.config.election_timeout_max _
        (λ _.
          Ensures-any
            (next_range (Rng.new m.config.timeout_seed) m.config.election_timeout_min
              m.config.election_timeout_max)
            _
            (λ x _.
              Ensures-some _
                (record { config = refl; hard_state = VoteStands-refl m.storage.hard_state }))))

  Life-Bound : {n m : RaftNode V S} → Life n m → Bound n m
  Life-Bound {n = n} born = record {
    config = refl;
    hard_state = VoteStands-refl n.storage.hard_state;
  }
  Life-Bound {n = n} (turned {m = m} {k = k} now ready l q) =
      let e = (turn-Evolves now ready m).at (continue k) q in
      Bound-trans n m k (Life-Bound l) (record { config = e.config; hard_state = e.hard_state })
  Life-Bound {n = n} (restarted {m = m} {k = k} state now l q) =
      Bound-trans n m k (Life-Bound l) ((spawn-Bound m state now).at k q)

  granted-hard_state :
      (args : RequestVoteArgs) (n n' : RaftNode V S) (reply : RequestVoteReply)
      → Voted args n reply n'
      → reply.vote_granted ≡ true
      → n'.storage.hard_state
        ≡ record { current_term = args.term; voted_for = some args.candidate_id }
  granted-hard_state args n n' reply v g =
      let d : deserves args n ≡ true = sym v.granted ∙ g in
      v.hard_state
      ∙ ap
          (λ (b : Bool).
            if b
            then record { current_term = args.term; voted_for = some args.candidate_id }
            else raised args.term n.storage.hard_state)
          d

  -- With the vote of its term cast, only the same candidate deserves it.
  deserves-same :
      (args : RequestVoteArgs) (n : RaftNode V S) (c : NodeId)
      → args.term ≤ n.storage.hard_state.current_term
      → (args.term ≡ n.storage.hard_state.current_term → n.storage.hard_state.voted_for ≡ some c)
      → deserves args n ≡ true
      → args.candidate_id ≡ c
  deserves-same args n c le vote d =
      let here : args.term ≡ n.storage.hard_state.current_term = ground (arith, d) in
      let cast_for = vote here in ground (arith, d, cast_for)

  later_vote :
      (args args' : RequestVoteArgs) (n n1 n2 n3 : RaftNode V S) (reply reply' : RequestVoteReply)
      → Voted args n reply n1
      → reply.vote_granted ≡ true
      → Bound n1 n2
      → Voted args' n2 reply' n3
      → reply'.vote_granted ≡ true
      → args'.term ≡ args.term
      → args'.candidate_id ≡ args.candidate_id
  later_vote args args' n n1 n2 n3 reply reply' v g b v' g' same =
      let h = granted-hard_state args n n1 reply v g in
      let term : n1.storage.hard_state.current_term ≡ args.term =
        ap (λ (x : HardState). x.current_term) h in
      let vote : n1.storage.hard_state.voted_for ≡ some args.candidate_id =
        ap (λ (x : HardState). x.voted_for) h in
      deserves-same args' n2 args.candidate_id (omega (arith, b.hard_state.term, term, same))
        (λ here. b.hard_state.vote (omega (arith, term, same, here)) args.candidate_id vote)
        (sym v'.granted ∙ g')

  -- A node grants its vote to one candidate in a term: if it grants two RequestVotes of the same term,
  -- with any turns of its loop and any restarts from its storage between them, both are of the same
  -- candidate. The election timeouts are in order.
  pub one_vote :
      (args args' : RequestVoteArgs) (n n1 n2 n3 : RaftNode V S) (reply reply' : RequestVoteReply)
      → TimerIsSet n.config
      → handle_request_vote args n ≡ some (reply, n1)
      → reply.vote_granted ≡ true
      → Life n1 n2
      → handle_request_vote args' n2 ≡ some (reply', n3)
      → reply'.vote_granted ≡ true
      → args'.term ≡ args.term
      → args'.candidate_id ≡ args.candidate_id
  one_vote args args' n n1 n2 n3 reply reply' t q g life q' g' same =
      let b = Life-Bound life in
      let e = (handle_request_vote-Evolves args n).at (reply, n1) q in
      let t' : TimerIsSet n2.config = subst TimerIsSet (sym e.config ∙ sym b.config) t in
      later_vote args args' n n1 n2 n3 reply reply'
        (Returns-at (handle_request_vote args n) (reply, n1) (handle_request_vote-Voted args n t) q)
        g b
        (Returns-at (handle_request_vote args' n2) (reply', n3)
          (handle_request_vote-Voted args' n2 t') q')
        g' same
