-- ===== src/Job/Release.antt =====
-- What becomes of a job that the miner tries to run.
use mathlib.Core.List.{head?}
use chutes_miner.Prelude.{none, some, true, ◌≡◌, ◌⊎◌}
use chutes_miner.Schema.{Chute, Deployment, Key, Server}
use chutes_miner.Db.{find_deployment}
use chutes_miner.State.{State, job_released}
use chutes_miner.Gepetto.{is_validator}
use chutes_miner.Launch.{Controller, get_launch_token}
use chutes_miner.Operator.Named.{drawn_in}

-- The state in which the run's deployment gets its uuid.
abbrev pub id_state : Controller → Chute → (job_id : Key) → State → State
id_state c chute job_id s = drawn_in c.cluster c.others (get_launch_token c chute (some job_id) s).1

-- A row of the run: it was not there at the start, and it is for this job, of this chute, on this
-- server.
pub record IsOwn (chute : Chute) (job_id : Key) (server : Server) (s : State) (row : Deployment)
    : Type 0 where
  pub new : find_deployment row.deployment_id s.db ≡ none
  pub job : row.job_id ≡ some job_id
  pub chute_id : row.chute_id ≡ chute.chute_id
  pub server_id : row.server_id ≡ server.server_id

module _ (c : Controller) (chute : Chute) (job_id : Key)
    (known : is_validator c.out chute.validator ≡ true) where
  -- The job runs, in a deployment of its own, or its lock was released in the last call.
  abbrev IsAccounted : Server → State → State → Type 0
  IsAccounted server s s' =
      ((row : Deployment) × (find_deployment row.deployment_id s'.db ≡ some row)
        × IsOwn chute job_id server s row)
      ⊎ (head? s'.log ≡ some (job_released job_id))
