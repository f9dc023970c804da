-- ===== src/Placement/Tests.antt =====
-- The choices of a server and of a deployment on the sample database.
use chutes_miner.Prelude.{arith, false, is_some, none, refl, some, ◌≡◌}
use chutes_miner.Schema.{Deployment}
use chutes_miner.Operator.{Request, deploy_chute, ok}
use chutes_miner.Operator.Claim.{IsKeyed}
use chutes_miner.Operator.Finish.{undisturbed}
use chutes_miner.Placement.{
  candidates, optimal_scale_down_deployment, optimal_scale_up_server, scale_up_query,
}
use chutes_miner.Placement.ScaleUp.{
  IsSuitable, optimal_scale_up_server-IsSuitable, scale_up_succeeds,
}
use chutes_miner.Placement.ScaleDown.{IsSpare, optimal_scale_down_deployment-IsSpare}
use chutes_miner.Sample.{big_chute, deployment, first_server, sample, small_chute, start}
use chutes_miner.Systems.{willing, willing-IsWilling}

program : Unit {0}
unfolding scale_up_query optimal_scale_up_server candidates optimal_scale_down_deployment
program = tt

abbrev ask : Request
ask = record { chute_id = 1; server_id = 10; job_id = none; config_id = some 77; disk_gb = 10 }

picks_first : optimal_scale_up_server willing (λ n. 0) big_chute 10 start ≡ some first_server
unfolding program
picks_first = refl

-- Server 20 is in full use, so its deployments have the highest score.
gives_up : optimal_scale_down_deployment 10000 small_chute sample ≡ some (deployment 52 62 2 20)
unfolding program
gives_up = refl

sample-IsKeyed : IsKeyed sample.gpus
sample-IsKeyed i = ground arith

optimal_scale_up_server-IsSuitable_example :
    (is_some big_chute.ban_reason ≡ false) × IsSuitable willing start big_chute 10 first_server
optimal_scale_up_server-IsSuitable_example =
    optimal_scale_up_server-IsSuitable willing (λ n. 0) big_chute 10 start first_server picks_first

scale_up_succeeds_example :
    (row : Deployment) × ((deploy_chute willing undisturbed ask start).0 ≡ ok row)
scale_up_succeeds_example =
    scale_up_succeeds willing (λ n. 0) ask big_chute start first_server picks_first refl refl
      sample-IsKeyed (refl, refl) willing-IsWilling

optimal_scale_down_deployment-IsSpare_example :
    IsSpare 10000 small_chute sample (deployment 52 62 2 20)
optimal_scale_down_deployment-IsSpare_example =
    optimal_scale_down_deployment-IsSpare 10000 small_chute sample (deployment 52 62 2 20) gives_up
