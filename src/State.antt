-- ===== src/State.antt =====
-- The state that the control plane's handlers change: the database, and the calls that they have
-- made to systems outside the repository (kubernetes, the validators, the agents, the cache).
-- An answer of such a system may depend on all of it, so that a repeated call may be answered
-- differently: the state with the log is the argument of every oracle.
use chutes_miner.Prelude.{Option, List, ◌∷◌}
use chutes_miner.Schema.{Key}
use chutes_miner.Db.{Db}

-- A call to another system, by what it is meant to do there.
pub data Effect : Type 0 where
  -- k8s.delete_preflight, for a deployment
  preflight : Key → Effect
  -- the job or deployment and its service are deleted: k8s.undeploy
  k8s_undeploy : Key → Effect
  -- the service and the job of a deployment
  service_created job_created service_deleted job_deleted : Key → Effect
  -- create_code_config_map and delete_code
  code_stored : (chute version : Key) → Effect
  code_deleted : (chute version : Key) → Effect
  -- DELETE {validator}/instances/{chute}/{instance}
  instance_purged : (validator : Key) → (chute : Option Key) → (instance_id : Key) → Effect
  -- DELETE {validator}/nodes/{gpu} and {validator}/servers/{server}
  gpu_purged : (validator gpu : Key) → Effect
  server_purged : (validator server : Key) → Effect
  -- GET {validator}/instances/launch_config
  launch_requested : (chute : Key) → (job : Option Key) → Effect
  -- POST {validator}/instances/{chute}
  announced : Key → Effect
  -- DELETE {validator}/miner/jobs/{job}
  job_released : Key → Effect
  -- the agent is asked to stop; the cluster is cleared from the cache
  monitoring_stopped : (server : Key) → Effect
  cache_cleared : (cluster : Key) → Effect

-- `log` has the last call first.
pub record State : Type 0 where
  pub db : Db
  pub log : List Effect

abbrev pub logged : Effect → State → State
logged e s = record s { log = e ∷ s.log }
