-- ===== src/Preempt/Tests.antt =====
-- The plan of preempting_deploy on the sample database.
use chutes_miner.Prelude.{[], refl, some, ◌∷◌, ◌≡◌}
use chutes_miner.Preempt.{Bid, decrement, multiplier, pick, plan, plan_server}
use chutes_miner.Preempt.Plan.{Planned, plan-Planned}
use chutes_miner.Sample.{chute, deployment, first_server, sample, second_server}
use chutes_miner.Systems.{active_instances}

program : Unit {0}
unfolding plan plan_server pick decrement multiplier
program = tt

-- A chute that needs three GPUs of the first server.
abbrev wide_bid : Bid
wide_bid = record {
  chute = chute 1 3 (7 ∷ []);
  effective_multiplier = 5;
  now = 10000;
  instances = active_instances;
}

plans :
    plan wide_bid sample (second_server ∷ first_server ∷ [])
    ≡ some (first_server, deployment 51 61 2 10 ∷ [])
unfolding program
plans = refl

plan-Planned_example :
    Planned wide_bid sample
      (second_server ∷ first_server ∷ [])
      (first_server, deployment 51 61 2 10 ∷ [])
plan-Planned_example =
    plan-Planned wide_bid sample (second_server ∷ first_server ∷ [])
      (first_server, deployment 51 61 2 10 ∷ []) plans
