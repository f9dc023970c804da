-- ===== src/Gepetto.antt =====
-- Gepetto's removal of deployments and its handlers for the events that only remove or mark rows:
-- src/chutes-miner/chutes_miner/gepetto.py.
pub mod Undeploy
pub mod Events
pub mod Along
pub mod Invariant
pub mod Tests
use chutes_miner.Prelude.{
  Bool, List, Option, [], contains, false, filter, find?, if◌then◌else◌, is_key, is_some, map, none,
  not, some, true, ℕ, ◌&&◌, ◌==◌, ◌∷◌,
}
use chutes_miner.Schema.{Chute, Deployment, Gpu, Key, Server}
use chutes_miner.Db.{
  OneOrNone, delete_chute, delete_deployment, delete_gpu, delete_server, find_deployment, find_gpu,
  find_server, many_rows, no_row, one_row, scalar_one_or_none, update_rows,
}
use chutes_miner.State.{
  State, cache_cleared, code_deleted, gpu_purged, instance_purged, k8s_undeploy, monitoring_stopped,
  preflight, server_purged,
}
use chutes_miner.Action.{
  Action, Raised, call, get, modify_db, pure, raise, return, throw, when, ◌>>=◌, ◌>>◌,
}

-- What the other systems answer. The state with its log is an argument, so that a repeated call
-- may be answered differently.
pub record Outside : Type 0 where
  -- settings.validators, by hotkey
  pub validators : List Key
  -- settings.miner_ss58
  pub miner_hotkey : Key
  -- k8s.delete_preflight, which may raise
  pub delete_preflight : State → Key → Raised Bool
  -- k8s.undeploy returns, and does not raise while it waits for the pods
  pub pods_deleted : State → Key → Bool
  -- what the agent of a server answers to a stop request
  pub agent_stops : State → Key → Bool
  -- func.now()
  pub now : State → ℕ

module _ (out : Outside) where
  -- `validator_by_hotkey(hotkey) is not None`
  abbrev pub is_validator : Key → Bool
  is_validator hotkey = contains hotkey out.validators

  -- Gepetto.purge_validator_instance, which swallows every exception, behind the tests of its
  -- callers: an instance id is known, and the validator is configured.
  abbrev pub purge_instance :
      (validator : Option Key)
      → (chute : Option Key) → (instance_id : Option Key) → Action (Unit {0})
  purge_instance (some v) chute (some i) = when (is_validator v) (call (instance_purged v chute i))
  purge_instance _ _ _ = pure tt

  -- The deployment's row is deleted, and its instance is purged at its validator.
  unfoldable pub forget : Key → (instance_id : Option Key) → Action (Unit {0})
  forget d instance_id = do
    s ← get
    elim (find_deployment d s.db) [
      | none ↦ purge_instance none none instance_id
      | some row ↦
          modify_db (delete_deployment d)
          >> purge_instance (some row.validator) (some row.chute_id)
              (if is_some instance_id then instance_id else row.instance_id)
    ]

  -- k8s.undeploy
  unfoldable pub remove_from_k8s : Key → Action (Unit {0})
  remove_from_k8s d = do
    call (k8s_undeploy d)
    s ← get
    if out.pods_deleted s d then pure tt else throw

  -- Gepetto.undeploy
  unfoldable pub undeploy : Key → (instance_id : Option Key) → Action (Unit {0})
  undeploy d instance_id = do
    s ← get
    call (preflight d)
    elim (out.delete_preflight s d) [
      | return allowed ↦ if allowed then forget d instance_id >> remove_from_k8s d else pure tt
      | raise ↦ throw
    ]

  -- `asyncio.gather(*[self.undeploy(d) for d in ...])`: each is run, and then the first exception
  -- is raised.
  unfoldable pub undeploy_all : List Deployment → Action (Unit {0})
  undeploy_all [] s = (return tt, s)
  undeploy_all (d ∷ ds) s =
      let (r, s') = undeploy d.deployment_id none s in
      let (rs, s'') = undeploy_all ds s' in (elim r [ return _ ↦ rs | raise ↦ raise ], s'')

  -- Gepetto.gpu_verified. The WHERE clause compares the GPU's *server* id with the event's GPU id.
  unfoldable pub gpu_verified : (gpu_id : Key) → Action (Unit {0})
  gpu_verified gpu_id = modify_db (λ db. record db {
    gpus =
        map (λ (g : Gpu). if g.server_id == gpu_id then record g { verified = true } else g)
          db.gpus;
  })

  -- Gepetto.instance_created
  unfoldable pub instance_created : (miner_hotkey config_id instance_id : Key) → Action (Unit {0})
  instance_created miner_hotkey config_id instance_id = when (miner_hotkey == out.miner_hotkey) (
      modify_db (
        update_rows (λ d. is_key d.config_id config_id)
          (λ d. record d { instance_id = some instance_id })))

  -- Gepetto.instance_verified
  unfoldable pub instance_verified : (miner_hotkey instance_id : Key) → Action (Unit {0})
  instance_verified miner_hotkey instance_id = do
    s ← get
    when (miner_hotkey == out.miner_hotkey) (
        modify_db (
          update_rows (λ d. is_key d.instance_id instance_id)
            (λ d. record d { verified_at = some (out.now s) })))

  -- Gepetto.instance_activated
  unfoldable pub instance_activated : (config_id : Key) → Action (Unit {0})
  instance_activated config_id = do
    s ← get
    modify_db (
        update_rows (λ d. is_key d.config_id config_id)
          (λ d. record d { active = true; activated_at = some (out.now s); stub = false }))

  -- What a handler does with the one row that its query finds; more than one raises.
  unfoldable pub undeploy_found : OneOrNone Deployment → Action (Unit {0})
  undeploy_found no_row = pure tt
  undeploy_found (one_row d) = undeploy d.deployment_id none
  undeploy_found many_rows = throw

  -- Gepetto.job_deleted
  unfoldable pub job_deleted_event : (job_id : Key) → Action (Unit {0})
  job_deleted_event job_id = do
    s ← get
    undeploy_found (scalar_one_or_none (filter (λ d. is_key d.job_id job_id) s.db.deployments))

  -- Gepetto.instance_deleted
  unfoldable pub instance_deleted : (instance_id : Key) → Action (Unit {0})
  instance_deleted instance_id = do
    s ← get
    undeploy_found
        (scalar_one_or_none (filter (λ d. is_key d.instance_id instance_id) s.db.deployments))

  -- Gepetto.remove_gpu_from_validator and remove_server_from_validator, which swallow exceptions.
  abbrev pub remove_gpu_from_validator : Option Key → Key → Action (Unit {0})
  remove_gpu_from_validator none g = pure tt
  remove_gpu_from_validator (some v) g = when (is_validator v) (call (gpu_purged v g))

  abbrev pub undeploy_owner : Option Key → Action (Unit {0})
  undeploy_owner none = pure tt
  undeploy_owner (some d) = undeploy d none

  -- Gepetto.gpu_deleted, on the row that its query finds.
  unfoldable pub gpu_row_deleted : (gpu_id : Key) → Option Gpu → Action (Unit {0})
  gpu_row_deleted gpu_id none = pure tt
  gpu_row_deleted gpu_id (some g) = do
    undeploy_owner g.deployment_id
    remove_gpu_from_validator g.validator gpu_id
    modify_db (delete_gpu gpu_id)

  -- Gepetto.gpu_deleted
  unfoldable pub gpu_deleted : (gpu_id : Key) → Action (Unit {0})
  gpu_deleted gpu_id = do s ← get; gpu_row_deleted gpu_id (find_gpu gpu_id s.db)

  -- The agent is asked to stop; if it fails to, the cluster is cleared from the cache.
  abbrev pub stop_monitoring : Server → Option Key → Action (Unit {0})
  stop_monitoring server none = pure tt
  stop_monitoring server (some agent) = do
    call (monitoring_stopped server.server_id)
    s ← get
    when (not (out.agent_stops s agent)) (call (cache_cleared server.name))

  -- Gepetto.server_deleted, on the row that its query finds.
  unfoldable pub server_row_deleted : (server_id : Key) → Option Server → Action (Unit {0})
  server_row_deleted server_id none = pure tt
  server_row_deleted server_id (some server) = do
    stop_monitoring server server.agent_api
    when (is_validator server.validator) (call (server_purged server.validator server_id))
    modify_db (delete_server server_id)

  -- Gepetto.server_deleted
  unfoldable pub server_deleted : (server_id : Key) → Action (Unit {0})
  server_deleted server_id = do s ← get; server_row_deleted server_id (find_server server_id s.db)

  -- Gepetto.chute_deleted, on the row that its query finds.
  unfoldable pub chute_row_deleted : Option Chute → Action (Unit {0})
  chute_row_deleted none = pure tt
  chute_row_deleted (some c) = do
    s ← get
    undeploy_all (filter (λ d. d.chute_id == c.chute_id) s.db.deployments)
    modify_db (delete_chute c.chute_id)

  -- Gepetto.chute_deleted
  unfoldable pub chute_deleted : (chute_id version validator : Key) → Action (Unit {0})
  chute_deleted chute_id version validator = do
    s ← get
    chute_row_deleted (
        find?
          (λ c. (c.chute_id == chute_id) && (c.version == version) && (c.validator == validator))
          s.db.chutes)
    call (code_deleted chute_id version)
