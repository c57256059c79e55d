-- ===== src/Sim/Network/Delivery.antt =====
-- What a send through the simulated network draws and delivers.
use rust_kv.Base.{
  ℕ, ◌+◌, ◌*◌, ◌%◌, ◌^◌, ◌≤◌, ◌<◌, ◌≡◌, ◌↔◌, ap, ◌∙◌, refl, Bool, true, false, some, [], ◌∷◌, arith,
  length, Option-cases, inl, inr,
}
use rust_kv.Outcome.{Returns, returns, Returns-at}
use rust_kv.Rng.{SplitMix64, next_u64, next_range}
use rust_kv.Rng.Range.{next_range_bounds}
use rust_kv.Types.{NodeId, Command, RpcRequest, RpcResponse, ok, err, unreachable}
use rust_kv.Sim.Network.{
  FaultConfig, SimState, SendPlan, World, draw_delay, exchange, primary_copy, duplicate_copy,
  deliver, next_bool, plan_send,
}

-- What is said of one send: an answer is that of the peer's handler, over open links in both
-- directions and within the timeout, and a copy of the request was delivered for it.
pub record Delivers (to : NodeId) (plan : SendPlan) (w : World) : Type 0 where
  pub answered :
      (resp : RpcResponse)
      → (deliver to plan w).result ≡ ok resp
      → (plan.target ≡ true)
        × (plan.req_blocked ≡ false)
        × (plan.req_dropped ≡ false)
        × (w.reply_blocked ≡ false)
        × (time : ℕ) × (w.reply ≡ some (time, resp))
        × (plan.req_delay + time + plan.resp_delay ≤ plan.rpc_timeout)
        × ((deliver to plan w).copies ≡ plan.req_delay ∷ duplicate_copy plan w)
  pub cut : plan.req_blocked ≡ true → (deliver to plan w).copies ≡ []
  pub few : length (deliver to plan w).copies ≤ 2
  pub unreachable_iff : ((deliver to plan w).result ≡ err (unreachable to)) ↔ (plan.target ≡ false)

module _ (to : NodeId) (plan : SendPlan) (w : World) where
  answer-Delivers :
      (resp : RpcResponse)
      → (deliver to plan w).result ≡ ok resp
      → (plan.target ≡ true)
        × (plan.req_blocked ≡ false)
        × (plan.req_dropped ≡ false)
        × (w.reply_blocked ≡ false)
        × (time : ℕ) × (w.reply ≡ some (time, resp))
        × (plan.req_delay + time + plan.resp_delay ≤ plan.rpc_timeout)
        × ((deliver to plan w).copies ≡ plan.req_delay ∷ duplicate_copy plan w)
  unfolding deliver exchange primary_copy
  answer-Delivers resp h = elim (Option-cases w.reply) [
    | inl q ↦ absurd (ground arith)
    | inr ((time, r), q) ↦ (
      ground arith,
      ground arith,
      ground arith,
      ground arith,
      time,
      ground arith,
      ground arith,
      ground arith,
    )
  ]

  -- Whatever is drawn for a send, and whatever the peer does: an answer is what the peer's handler
  -- answered, both links were open, the whole exchange fits the timeout, and exactly the primary copy
  -- and perhaps the duplicate were delivered; through a blocked link nothing is delivered; there are
  -- never more than two copies; and the send is refused as unreachable exactly if the peer is not
  -- registered.
  pub deliver-Delivers : Delivers to plan w
  unfolding deliver primary_copy duplicate_copy exchange
  deliver-Delivers = record {
    answered = answer-Delivers;
    cut = λ h. ground arith;
    few = ground arith;
    unreachable_iff = ground arith;
  }

-- The generator after some draws.
abbrev pub skip : ℕ → SplitMix64 → SplitMix64
skip n r = record { state = (r.state + n * 0x9E3779B97F4A7C15) % 2 ^ 64 }

next-skip : (n : ℕ) (r : SplitMix64) → (next_u64 (skip n r)).1 ≡ skip (n + 1) r
unfolding next_u64
next-skip n r = ap (λ (x : ℕ). record { state = x }) (omega arith)

-- After `n` draws, one more.
skip-suc : (n : ℕ) (a r : SplitMix64) → a ≡ skip n r → (next_u64 a).1 ≡ skip (n + 1) r
skip-suc n a r e = ap (λ (x : SplitMix64). (next_u64 x).1) e ∙ next-skip n r

first-skip : (r : SplitMix64) → (next_u64 r).1 ≡ skip 1 r
unfolding next_u64
first-skip r = ap (λ (x : ℕ). record { state = x }) (omega arith)

six-skip :
    (r : SplitMix64)
    → (next_u64 (next_u64 (next_u64 (next_u64 (next_u64 (next_u64 r).1).1).1).1).1).1 ≡ skip 6 r
six-skip r =
    skip-suc 5 _ r
      (skip-suc 4 _ r (skip-suc 3 _ r (skip-suc 2 _ r (skip-suc 1 _ r (first-skip r)))))

draw_delay-next_range :
    {P : Type 0} (cfg : FaultConfig P) (r : SplitMix64)
    → cfg.min_delay ≤ cfg.max_delay
    → cfg.max_delay < 2 ^ 64
    → draw_delay cfg r ≡ next_range r cfg.min_delay cfg.max_delay
unfolding draw_delay
draw_delay-next_range cfg r le small = ground arith

-- A delay is drawn with one number, and lies between the bounds.
draw :
    {P : Type 0} (cfg : FaultConfig P) (r : SplitMix64)
    → cfg.min_delay ≤ cfg.max_delay
    → cfg.max_delay < 2 ^ 64
    → (d : ℕ) × (draw_delay cfg r ≡ some (d, (next_u64 r).1))
      × (cfg.min_delay ≤ d)
      × (d ≤ cfg.max_delay)
draw cfg r le small = elim (Option-cases (next_range r cfg.min_delay cfg.max_delay)) [
  | inl q ↦ absurd (unfold next_range in ground (arith, q))
  | inr ((d, r'), q) ↦
      let bounds =
        Returns-at (next_range r cfg.min_delay cfg.max_delay) (d, r')
          (next_range_bounds r cfg.min_delay cfg.max_delay le small) q in
      let e : r' ≡ (next_u64 r).1 = unfold next_range in ground (arith, q) in
      (
        d,
        draw_delay-next_range cfg r le small ∙ q ∙ ap (λ (x : SplitMix64). some (d, x)) e,
        bounds.0,
        bounds.1,
      )
]

module _ {V P : Type 0} (unit_lt : ℕ → P → Bool) (same_command : Command V → Command V → Bool) where
  -- A plan that is drawn from the state `st`.
  pub record IsDrawn (st : SimState V P) (p : SendPlan × SimState V P) : Type 0 where
    pub six : p.1.rng ≡ skip 6 st.rng
    pub req_delay : (st.config.min_delay ≤ p.0.req_delay) × (p.0.req_delay ≤ st.config.max_delay)
    pub resp_delay : (st.config.min_delay ≤ p.0.resp_delay) × (p.0.resp_delay ≤ st.config.max_delay)
    pub dup_delay : (st.config.min_delay ≤ p.0.dup_delay) × (p.0.dup_delay ≤ st.config.max_delay)
    pub same : (p.1.config ≡ st.config) × (p.1.nodes ≡ st.nodes) × (p.1.blocked ≡ st.blocked)

  -- With delay bounds in order, every send draws exactly six numbers from the generator, whatever the
  -- probabilities are and whatever comes of the send; the three delays lie between the bounds; and the
  -- faults and the links stay as they are.
  pub plan_send-IsDrawn :
      (from to : NodeId) (req : RpcRequest V) (st : SimState V P)
      → st.config.min_delay ≤ st.config.max_delay
      → st.config.max_delay < 2 ^ 64
      → Returns (IsDrawn st) (plan_send unit_lt same_command from to req st)
  unfolding plan_send next_bool
  plan_send-IsDrawn from to req st le small =
      let (d1, e1, lo1, hi1) = draw st.config (next_u64 st.rng).1 le small in
      let (d2, e2, lo2, hi2) =
        draw st.config (next_u64 (next_u64 (next_u64 st.rng).1).1).1 le small in
      let (d3, e3, lo3, hi3) =
        draw st.config (next_u64 (next_u64 (next_u64 (next_u64 (next_u64 st.rng).1).1).1).1).1 le
          small in
      rw (e1, e2, e3)
        (returns (record {
          six = six-skip st.rng;
          req_delay = (lo1, hi1);
          resp_delay = (lo2, hi2);
          dup_delay = (lo3, hi3);
          same = (refl, refl, refl);
        }))
