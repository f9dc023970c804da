-- ===== src/Job.antt =====
-- How Gepetto takes on a job: src/chutes-miner/chutes_miner/gepetto.py. The extra ports of a job
-- are left out of the request.
pub mod Release
pub mod Tests
use chutes_miner.Prelude.{List, Option, contains, if◌then◌else◌, none, some, ℕ}
use chutes_miner.Schema.{Chute, Deployment, Key, Server}
use chutes_miner.State.{State}
use chutes_miner.Action.{Action, Raised, pure, raise, return, ◌>>◌}
use chutes_miner.Operator.{Request, Result, deploy_chute, err, ok}
use chutes_miner.Gepetto.{is_validator}
use chutes_miner.Placement.{optimal_scale_up_server}
use chutes_miner.Launch.{Controller, get_launch_token, release_job}
use chutes_miner.Scaling.{preempting_deploy}
use chutes_miner.Upkeep.{get_chute}

module _ (c : Controller) where
  -- run_job after K8sOperator.deploy_chute.
  unfoldable pub after_job :
      Chute → (job_id : Key) → Result Deployment × State → Raised (Unit {0}) × State
  after_job chute job_id (ok row, s) = (return tt, s)
  after_job chute job_id (err e, s) = release_job c chute (some job_id) s

  abbrev pub job_request :
      Chute → (job_id : Key) → Server → (disk_gb : ℕ) → (token : Option Key) → Request
  job_request chute job_id server disk_gb token = record {
    chute_id = chute.chute_id;
    server_id = server.server_id;
    job_id = some job_id;
    config_id = token;
    disk_gb = disk_gb;
  }

  -- run_job after get_launch_token.
  unfoldable pub start_job :
      Chute
      → (job_id : Key) → Server
      → (disk_gb : ℕ) → Raised (Option Key) × State
      → Raised (Unit {0}) × State
  start_job chute job_id server disk_gb (raise, s) = release_job c chute (some job_id) s
  start_job chute job_id server disk_gb (return token, s) =
      after_job chute job_id
        (deploy_chute c.cluster c.others (job_request chute job_id server disk_gb token) s)

  -- Gepetto.run_job
  unfoldable pub run_job : Chute → (job_id : Key) → Server → (disk_gb : ℕ) → Action (Unit {0})
  run_job chute job_id server disk_gb s =
      start_job chute job_id server disk_gb (get_launch_token c chute (some job_id) s)

  -- job_created on the chute, and on the server that was found for it.
  unfoldable pub place_job :
      Chute → (job_id : Key) → (disk_gb : ℕ) → Option Server → Action (Unit {0})
  place_job chute job_id disk_gb (some server) s = run_job chute job_id server disk_gb s
  place_job chute job_id disk_gb none s =
      (preempting_deploy c chute (some job_id) disk_gb >> pure tt) s

  unfoldable pub job_for : Option Chute → (job_id : Key) → (disk_gb : ℕ) → Action (Unit {0})
  job_for none job_id disk_gb s = (return tt, s)
  job_for (some chute) job_id disk_gb s =
      place_job chute job_id disk_gb
        (optimal_scale_up_server c.cluster (c.choice s) chute disk_gb s) s

  -- Gepetto.job_created
  unfoldable pub job_created_event :
      (chute_id job_id validator : Key) → (disk_gb : ℕ) → (excluded : List Key) → Action (Unit {0})
  job_created_event chute_id job_id validator disk_gb excluded s =
      if contains c.out.miner_hotkey excluded
      then (return tt, s)
      else if is_validator c.out validator
      then job_for (get_chute chute_id validator s.db) job_id disk_gb s
      else (return tt, s)
