-- ===== src/Gepetto/Along.antt =====
-- What the handlers of Gepetto do to the tables, step by step: a relation that every single change of
-- the tables follows, and that chains, holds between the tables before and after a handler.
use mathlib.Core.Path.{subst, sym}
use chutes_miner.Prelude.{
  Bool, List, Option, [], false, filter, find?, if◌then◌else◌, inl, inr, map, none, not, refl, some,
  true, ◌&&◌, ◌==◌, ◌∷◌, ◌≡◌,
}
use chutes_miner.Schema.{Chute, Deployment, Gpu, Key, Server}
use chutes_miner.Db.{
  Db, OneOrNone, delete_chute, delete_deployment, delete_gpu, delete_server, find_gpu, find_server,
  many_rows, no_row, one_row, update_rows,
}
use chutes_miner.State.{
  State, cache_cleared, code_deleted, gpu_purged, logged, monitoring_stopped, server_purged,
}
use chutes_miner.Action.{Action, Raised, call, modify_db, raise, return, when, ◌>>=◌, ◌>>◌}
use chutes_miner.Gepetto.{
  Outside, chute_deleted, chute_row_deleted, gpu_deleted, gpu_row_deleted, gpu_verified,
  instance_activated, instance_created, instance_deleted, instance_verified, is_validator,
  job_deleted_event, remove_gpu_from_validator, server_deleted, server_row_deleted, stop_monitoring,
  undeploy, undeploy_all, undeploy_found, undeploy_owner,
}
use chutes_miner.Gepetto.Events.{
  Event, activated, chute_gone, created, gpu_deleted_event, gpu_verified_event, handle,
  instance_gone, job_gone, server_deleted_event, undeploy_event, verified_event,
}
use chutes_miner.Gepetto.Undeploy.{undeploy-db_cases}

-- Such a relation of tables.
pub record Along {ℓ} (R : Db → Db → Type ℓ) : Type ℓ where
  pub staying : (db : Db) → R db db
  pub joining : (a b c : Db) → R a b → R b c → R a c
  pub deleting_deployment : (d : Key) (db : Db) → R db (delete_deployment d db)
  pub deleting_gpu : (g : Key) (db : Db) → R db (delete_gpu g db)
  pub deleting_server : (x : Key) (db : Db) → R db (delete_server x db)
  pub deleting_chute : (c : Key) (db : Db) → R db (delete_chute c db)
  pub updating_rows :
      (p : Deployment → Bool) (f : Deployment → Deployment) (db : Db)
      → ((d : Deployment) → (f d).deployment_id ≡ d.deployment_id)
      → ((d : Deployment) → (f d).server_id ≡ d.server_id)
      → R db (update_rows p f db)
  pub verifying_gpus :
      (p : Gpu → Bool) (db : Db)
      → R db (record db {
        gpus = map (λ (g : Gpu). if p g then record g { verified = true } else g) db.gpus;
      })

module _ {ℓ} (out : Outside) (R : Db → Db → Type ℓ) (along : Along R) where
  -- An action follows the relation, whether it returns or raises.
  abbrev pub Follows : {A : Type 0} → Action A → Type ℓ
  Follows m = (s : State) → R s.db (m s).1.db

  bind-Follows :
      {A B : Type 0} (m : Action A) (f : A → Action B)
      → Follows m
      → ((a : A) → Follows (f a))
      → Follows (m >>= f)
  bind-Follows {A} {B} m f km kf s = go (m s) (km s)
    where
      go :
          (r : Raised A × State)
          → R s.db r.1.db
          → R s.db
              (let (x, s') = r in
                let y : Raised B × State = elim x [ return a ↦ f a s' | raise ↦ (raise, s') ] in
                y).1.db
      go (return a, s') h = along.joining s.db s'.db (f a s').1.db h (kf a s')
      go (raise, s') h = h

  then-Follows : (m k : Action (Unit {0})) → Follows m → Follows k → Follows (m >> k)
  then-Follows m k km kk = bind-Follows m (λ _. k) km (λ _. kk)

  when-Follows : (b : Bool) (m : Action (Unit {0})) → Follows m → Follows (when b m)
  when-Follows true m k = k
  when-Follows false m k = λ s. along.staying s.db

  undeploy-Follows : (d : Key) (i : Option Key) → Follows (undeploy out d i)
  undeploy-Follows d i s = elim (undeploy-db_cases out d i s) [
    | inl same ↦ subst (λ db. R s.db db) (sym same) (along.staying s.db)
    | inr gone ↦ subst (λ db. R s.db db) (sym gone) (along.deleting_deployment d s.db)
  ]

  undeploy_all-Follows : (ds : List Deployment) → Follows (undeploy_all out ds)
  unfolding undeploy_all
  undeploy_all-Follows [] s = along.staying s.db
  undeploy_all-Follows (d ∷ ds) s =
      let s' = (undeploy out d.deployment_id none s).1 in
      along.joining s.db s'.db (undeploy_all out ds s').1.db
        (undeploy-Follows d.deployment_id none s) (undeploy_all-Follows ds s')

  undeploy_found-Follows : (o : OneOrNone Deployment) → Follows (undeploy_found out o)
  unfolding undeploy_found
  undeploy_found-Follows no_row s = along.staying s.db
  undeploy_found-Follows (one_row d) s = undeploy-Follows d.deployment_id none s
  undeploy_found-Follows many_rows s = along.staying s.db

  undeploy_owner-Follows : (o : Option Key) → Follows (undeploy_owner out o)
  undeploy_owner-Follows none = λ s. along.staying s.db
  undeploy_owner-Follows (some d) = undeploy-Follows d none

  gpu_row_deleted-Follows : (g : Key) (row : Option Gpu) → Follows (gpu_row_deleted out g row)
  unfolding gpu_row_deleted
  gpu_row_deleted-Follows g none = λ s. along.staying s.db
  gpu_row_deleted-Follows g (some row) =
      let purge = remove_gpu_from_validator out row.validator g in
      let drop = modify_db (delete_gpu g) in
      then-Follows (undeploy_owner out row.deployment_id) (purge >> drop)
        (undeploy_owner-Follows row.deployment_id)
        (then-Follows purge drop (purge-Follows row.validator g) (λ s. along.deleting_gpu g s.db))
    where
      purge-Follows : (v : Option Key) (x : Key) → Follows (remove_gpu_from_validator out v x)
      purge-Follows none x = λ s. along.staying s.db
      purge-Follows (some v) x =
          when-Follows (is_validator out v) (call (gpu_purged v x)) (λ s. along.staying s.db)

  stop_monitoring-Follows :
      (server : Server) (o : Option Key) → Follows (stop_monitoring out server o)
  stop_monitoring-Follows server none s = along.staying s.db
  stop_monitoring-Follows server (some agent) s =
      when-Follows (not (out.agent_stops (logged (monitoring_stopped server.server_id) s) agent))
        (call (cache_cleared server.name)) (λ s'. along.staying s'.db)
        (logged (monitoring_stopped server.server_id) s)

  server_row_deleted-Follows :
      (x : Key) (row : Option Server) → Follows (server_row_deleted out x row)
  unfolding server_row_deleted
  server_row_deleted-Follows x none = λ s. along.staying s.db
  server_row_deleted-Follows x (some server) =
      let known = is_validator out server.validator in
      let purge = call (server_purged server.validator x) in
      let drop = modify_db (delete_server x) in
      then-Follows (stop_monitoring out server server.agent_api) (when known purge >> drop)
        (stop_monitoring-Follows server server.agent_api)
        (then-Follows (when known purge) drop (when-Follows known purge (λ s. along.staying s.db))
          (λ s. along.deleting_server x s.db))

  chute_row_deleted-Follows : (row : Option Chute) → Follows (chute_row_deleted out row)
  unfolding chute_row_deleted
  chute_row_deleted-Follows none = λ s. along.staying s.db
  chute_row_deleted-Follows (some c) = λ s.
      let rows = filter (λ d. d.chute_id == c.chute_id) s.db.deployments in
      then-Follows (undeploy_all out rows) (modify_db (delete_chute c.chute_id))
        (undeploy_all-Follows rows) (λ s'. along.deleting_chute c.chute_id s'.db) s

  -- Every handler, on every branch, whatever the other systems answer.
  pub handle-Follows : (e : Event) → Follows (handle out e)
  unfolding handle gpu_verified gpu_deleted server_deleted job_deleted_event instance_deleted
      instance_activated instance_created instance_verified chute_deleted
  handle-Follows (gpu_verified_event g) s = along.verifying_gpus (λ x. x.server_id == g) s.db
  handle-Follows (gpu_deleted_event g) s = gpu_row_deleted-Follows g (find_gpu g s.db) s
  handle-Follows (server_deleted_event x) s = server_row_deleted-Follows x (find_server x s.db) s
  handle-Follows (job_gone j) s = undeploy_found-Follows _ s
  handle-Follows (instance_gone i) s = undeploy_found-Follows _ s
  handle-Follows (activated c) s = along.updating_rows _ _ s.db (λ d. refl) (λ d. refl)
  handle-Follows (created m c i) s =
      when-Follows (m == out.miner_hotkey) _
        (λ s'. along.updating_rows _ _ s'.db (λ d. refl) (λ d. refl)) s
  handle-Follows (verified_event m i) s =
      when-Follows (m == out.miner_hotkey) _
        (λ s'. along.updating_rows _ _ s'.db (λ d. refl) (λ d. refl)) s
  handle-Follows (chute_gone c version validator) s =
      let row =
        find? (λ x. (x.chute_id == c) && (x.version == version) && (x.validator == validator))
          s.db.chutes in
      then-Follows (chute_row_deleted out row) (call (code_deleted c version))
        (chute_row_deleted-Follows row) (λ s'. along.staying s'.db) s
  handle-Follows (undeploy_event d) s = undeploy-Follows d none s
