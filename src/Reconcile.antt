-- ===== src/Reconcile.antt =====
-- Gepetto.reconcile of src/chutes-miner/chutes_miner/gepetto.py, from the comparison of the local
-- rows with the validators' inventory to the tasks that it gathers at its end. The tasks are the
-- handlers of Gepetto and Upkeep; here they are values, in the order in which they are created.
--
-- What the code writes to rows of its own session is kept aside until its commit, which raises when
-- a changed row is gone by then, as SQLAlchemy documents; undeploy has a session of its own.
pub mod Judging
pub mod Tracking
pub mod Removals
pub mod Healthy
pub mod Refresh
pub mod Unread
pub mod Tests
use chutes_miner.Prelude.{
  Bool, List, Option, [], any, contains, filter, if◌then◌else◌, is_some, ltb, map, none, not, some,
  true, ◌&&◌, ◌++◌, ◌||◌, ◌∷◌,
}
use chutes_miner.Schema.{Chute, Deployment, Key, Server}
use chutes_miner.Db.{Db, delete_deployment, find_deployment, is_deployment, update_rows}
use chutes_miner.State.{State}
use chutes_miner.Action.{Action, get, pure, raise, return, when, ◌>>=◌, ◌>>◌}
use chutes_miner.Gepetto.{Outside, purge_instance, undeploy}
use chutes_miner.Inventory.{
  Identifier, JobView, Judgement, RemoteInstance, Scan, absent, deployment_outdated, disappeared,
  expired, instance_missing, is_deleted, is_outdated, is_touched, job_gone, job_kept, judge, legacy,
  orphaned, remote_chute, rolling, same_identifier, seen, sound, synced, unproven, unreadable,
}

pub data Task : Type 0 where
  instance_task : (instance_id : Key) → Task
  chute_deleted_task chute_created_task : Identifier → Task
  undeploy_task : (deployment_id : Key) → Task
  server_task : (server_id : Key) → Task

-- A change of the session that is not committed yet.
pub data Write : Type 0 where
  row_update : Deployment → Write
  row_delete : (deployment_id : Key) → Write

-- The sets and lists that the loop fills. `chutes_to_remove` and `writes` have the last first.
pub record Sweep : Type 0 where
  pub all_deployments : List Key
  pub all_instances : List Key
  pub all_configs : List Key
  pub chutes_to_remove : List Identifier
  pub tasks : List Task
  pub writes : List Write

abbrev pub empty_sweep : Sweep
empty_sweep = record {
  all_deployments = [];
  all_instances = [];
  all_configs = [];
  chutes_to_remove = [];
  tasks = [];
  writes = [];
}

abbrev pub deployment_identifier : Deployment → Identifier
deployment_identifier d = record {
  validator = d.validator;
  chute_id = d.chute_id;
  version = d.version;
}

-- A chute's removal is ordered once.
unfoldable pub remove_chute : Identifier → Sweep → Sweep
remove_chute x w = if any (same_identifier x) w.chutes_to_remove then w else record w {
  chutes_to_remove = x ∷ w.chutes_to_remove;
  tasks = w.tasks ++ chute_deleted_task x ∷ [];
}

abbrev pub add_some : Option Key → List Key → List Key
add_some none xs = xs
add_some (some x) xs = x ∷ xs

abbrev pub track_config : Deployment → Sweep → Sweep
track_config d w = record w { all_configs = add_some d.config_id w.all_configs }

abbrev pub track_instance : Deployment → Sweep → Sweep
track_instance d w = record w { all_instances = add_some d.instance_id w.all_instances }

abbrev pub track_deployment_row : Deployment → Sweep → Sweep
track_deployment_row d w =
    track_instance d (record w { all_deployments = d.deployment_id ∷ w.all_deployments })

abbrev pub note : Write → Sweep → Sweep
note x w = record w { writes = x ∷ w.writes }

-- A removal of the chute where the version check fails.
unfoldable pub check_version : Scan → Deployment → Sweep → Sweep
check_version scan d w =
    if deployment_outdated scan d then remove_chute (deployment_identifier d) w else w

-- What the sweep's lists become, but for the writes of the columns and for the rows whose jobs
-- are looked at.
unfoldable pub judged : Judgement → Scan → Deployment → Sweep → Sweep
judged orphaned scan d w = note (row_delete d.deployment_id) w
judged instance_missing scan d w = elim d.instance_id [
  | none ↦ w
  | some i ↦ record w { tasks = w.tasks ++ instance_task i ∷ [] }
]
judged job_kept scan d w = track_deployment_row d (track_config d w)
judged job_gone scan d w =
    remove_chute (deployment_identifier d) (track_instance d (track_config d w))
judged rolling scan d w = track_deployment_row d (track_config d w)
judged legacy scan d w = track_deployment_row d (check_version scan d (track_config d w))
judged disappeared scan d w =
    note (row_delete d.deployment_id) (check_version scan d (track_config d w))
judged expired scan d w =
    note (row_delete d.deployment_id) (check_version scan d (track_config d w))
judged unproven scan d w = check_version scan d (track_config d w)
judged sound scan d w = track_deployment_row d (check_version scan d (track_config d w))

-- The session's write of the columns, unless the row is deleted in it.
abbrev pub written : Scan → Deployment → Sweep → Sweep
written scan d w =
    let d' = synced scan d in
    if is_touched scan d && not (is_deleted (judge scan d')) then note (row_update d') w else w

-- `view` is k8s.get_deployment.
module _ (out : Outside) (view : State → Key → JobView) where
  abbrev pub purge_own_instance : Deployment → Action (Unit {0})
  purge_own_instance d = purge_instance out (some d.validator) (some d.chute_id) d.instance_id

  -- The end of the check of the job: undeployed if it is over, skipped if it could not be read.
  unfoldable pub after_view : JobView → Deployment → Sweep → Action Sweep
  after_view absent d w = undeploy out d.deployment_id none >>= λ u. pure w
  after_view unreadable d w = pure w
  after_view (seen succeeded failed is_terminated) d w =
      if ltb 0 succeeded || (ltb 0 failed || is_terminated)
      then (undeploy out d.deployment_id none >>= λ u. pure w)
      else pure (track_deployment_row d w)

  -- What is done at once: the purge of an instance, and the check of a job.
  unfoldable pub finish : Judgement → Deployment → Sweep → Action Sweep
  finish orphaned d w = purge_own_instance d >>= λ u. pure w
  finish disappeared d w = purge_own_instance d >>= λ u. pure w
  finish unproven d w = get >>= λ s. after_view (view s d.deployment_id) d w
  finish instance_missing d w = pure w
  finish job_kept d w = pure w
  finish job_gone d w = pure w
  finish rolling d w = pure w
  finish legacy d w = pure w
  finish expired d w = pure w
  finish sound d w = pure w

  -- The body of the loop over the deployments.
  unfoldable pub sweep_row : Scan → Deployment → Sweep → Action Sweep
  sweep_row scan d w =
      let d' = synced scan d in
      finish (judge scan d') d' (judged (judge scan d') scan d' (written scan d w))

  pub sweep_rows : Scan → List Deployment → Sweep → Action Sweep
  sweep_rows scan [] w = pure w
  sweep_rows scan (d ∷ ds) w = sweep_row scan d w >>= sweep_rows scan ds

-- session.commit()
abbrev pub row_is_there : Db → Write → Bool
row_is_there db (row_update d) = is_some (find_deployment d.deployment_id db)
row_is_there db (row_delete d) = true

abbrev pub apply_write : Write → Db → Db
apply_write (row_update d) db = update_rows (is_deployment d.deployment_id) (λ row. d) db
apply_write (row_delete d) db = delete_deployment d db

pub apply_writes : List Write → Db → Db
apply_writes [] db = db
apply_writes (x ∷ xs) db = apply_write x (apply_writes xs db)

unfoldable pub commit : List Write → Action (Unit {0})
commit xs s =
    if any (λ x. not (row_is_there s.db x)) xs
    then (raise, s)
    else (return tt, record s { db = apply_writes xs s.db })

-- The instances of a validator that no row and no launch config accounts for.
abbrev pub is_stray : Sweep → RemoteInstance → Bool
is_stray w r =
    not (contains r.instance_id w.all_instances)
    && elim r.config_id [ none ↦ true | some c ↦ not (contains c w.all_configs) ]

module _ (out : Outside) where
  pub purge_strays : Sweep → List RemoteInstance → Action (Unit {0})
  purge_strays w [] = pure tt
  purge_strays w (r ∷ rs) =
      when (is_stray w r)
        (purge_instance out (some r.validator) (some r.chute_id) (some r.instance_id))
      >> purge_strays w rs

-- The jobs in kubernetes that are not tracked. The set difference leaves the legacy deployments out,
-- and k8s_jobs has each id once.
abbrev pub untracked : Scan → Sweep → List Key
untracked scan w =
    filter (λ d. not (contains d w.all_deployments) && not (contains d scan.k8s_legacy))
      scan.k8s_jobs

abbrev pub chute_identifier : Chute → Identifier
chute_identifier c = record { validator = c.validator; chute_id = c.chute_id; version = c.version }

-- The loop over the chutes: one that is outdated is removed, unless it is being updated.
unfoldable pub check_chute : Scan → Chute → Sweep → Sweep
check_chute scan c w =
    if is_outdated (remote_chute c.validator c.chute_id scan.chutes) c.version
      && not (scan.is_updating c.validator c.chute_id)
    then remove_chute (chute_identifier c) w
    else w

pub check_chutes : Scan → List Chute → Sweep → Sweep
check_chutes scan [] w = w
check_chutes scan (c ∷ cs) w = check_chutes scan cs (check_chute scan c w)

-- The chutes of the validators that have no row.
abbrev pub new_chutes : Scan → List Chute → List Identifier
new_chutes scan rows =
    filter
      (λ (x : Identifier).
        not (any (λ (c : Chute). same_identifier x (chute_identifier c)) rows)
        && not (scan.is_updating x.validator x.chute_id))
      scan.chutes

abbrev pub gone_servers : Scan → Db → List Key
gone_servers scan db =
    filter (λ s. not (contains s scan.node_ids)) (map (λ (x : Server). x.server_id) db.servers)

-- The tasks that are gathered, in the order in which they are created.
abbrev pub all_tasks : Scan → Sweep → Db → List Task
all_tasks scan w db =
    let orders =
      (check_chutes scan db.chutes
        (record w { tasks = w.tasks ++ map undeploy_task (untracked scan w) })).tasks in
    orders
    ++ (map chute_created_task (new_chutes scan db.chutes)
        ++ map server_task (gone_servers scan db))

-- Gepetto.reconcile from its loop over the deployments to asyncio.gather.
unfoldable pub reconcile : Outside → (State → Key → JobView) → Scan → Action (List Task)
reconcile out view scan = do
  s ← get
  w ← sweep_rows out view scan s.db.deployments empty_sweep
  commit w.writes
  purge_strays out w scan.instances
  s' ← get
  pure (all_tasks scan w s'.db)
