-- ===== src/Examples/Network.antt =====
-- Sends through the simulated network, with delays of one to ten milliseconds.
use rust_kv.Base.{ℕ, ◌≡◌, refl, Bool, true, false, some, [], ◌∷◌, arith, ltb}
use rust_kv.Outcome.{Returns}
use rust_kv.Types.{Command, RequestVoteArgs, RpcResponse, ok, err, timeout, request_vote}
use rust_kv.Sim.Network
use rust_kv.Sim.Network.{
  FaultConfig, SimState, SendPlan, World, Sent, register, exchange, primary_copy, duplicate_copy,
  deliver, plan_send,
}
use rust_kv.Sim.Network.Delivery.{Delivers, deliver-Delivers, IsDrawn, plan_send-IsDrawn}

-- Probabilities in units of 2^-53.
abbrev faults : FaultConfig ℕ
faults = record {
  min_delay = 1000;
  max_delay = 10000;
  drop_probability = 0;
  duplicate_probability = 9007199254740992;
  rpc_timeout = 100000;
}

abbrev ballot : RequestVoteArgs
ballot = record { term = 1; candidate_id = 1; last_log_index = 0; last_log_term = 0 }

abbrev vote_reply : RpcResponse
vote_reply = request_vote (record { term = 1; vote_granted = true })

abbrev plan : SendPlan
plan = record {
  target = true;
  req_blocked = false;
  req_dropped = false;
  req_delay = 2000;
  resp_dropped = false;
  resp_delay = 3000;
  req_duplicated = true;
  dup_delay = 9000;
  rpc_timeout = 100000;
}

abbrev world : World
world = record {
  inbox_open = true;
  dup_inbox_open = true;
  reply = some (10, vote_reply);
  reply_blocked = false;
}

delivered : deliver 2 plan world ≡ record { result = ok vote_reply; copies = 2000 ∷ 9000 ∷ [] }
unfolding deliver exchange primary_copy duplicate_copy
delivered = refl

late : (deliver 2 plan (record world { reply = some (100000, vote_reply) })).result ≡ err timeout
unfolding deliver exchange
late = refl

deliver-Delivers_example : Delivers 2 plan world
deliver-Delivers_example = deliver-Delivers 2 plan world

abbrev network : SimState ℕ ℕ
unfolding register Network.new
network = register 2 (Network.new 7 faults)

abbrev never_same : Command ℕ → Command ℕ → Bool
never_same c d = false

plan_send-IsDrawn_example :
    Returns
      (IsDrawn ltb never_same (register 2 (Network.new 7 faults)))
      (plan_send ltb never_same 1 2 (request_vote ballot) (register 2 (Network.new 7 faults)))
unfolding register Network.new
plan_send-IsDrawn_example =
    plan_send-IsDrawn ltb never_same 1 2 (request_vote ballot) (register 2 (Network.new 7 faults))
      (omega arith) (omega arith)
