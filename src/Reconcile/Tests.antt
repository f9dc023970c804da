-- ===== src/Reconcile/Tests.antt =====
-- Reconciliations of the sample, and the theorems at inputs that meet them.
use chutes_miner.Prelude.{
  [], arith, contains, count, false, filter, is_none, map, none, refl, some, true, ◌+◌, ◌==◌, ◌||◌,
  ◌∷◌, ◌≡◌, ◌≤◌, ◌⊎◌,
}
use chutes_miner.Schema.{Chute, Deployment, Key}
use chutes_miner.Db.{delete_deployment, find_deployment, release, release_all}
use chutes_miner.State.{State, instance_purged}
use chutes_miner.Action.{Raised, return}
use chutes_miner.Sample.{deployment, first_server, sample, small_chute, start}
use chutes_miner.Systems.{controller, obliging}
use chutes_miner.Operator.{stub_deployment}
use chutes_miner.Gepetto.{forget, remove_from_k8s, undeploy}
use chutes_miner.Reconcile.{
  Sweep, after_view, apply_writes, check_chute, check_chutes, check_version, chute_created_task,
  chute_deleted_task, commit, empty_sweep, finish, instance_task, judged, purge_strays, reconcile,
  remove_chute, sweep_row, sweep_rows, undeploy_task, untracked,
}
use chutes_miner.Reconcile.Judging.{deletion_is_justified, new_row_is_orphaned}
use chutes_miner.Reconcile.Removals.{orders_removal, removal_ordered_once}
use chutes_miner.Reconcile.Unread.{unreadable_is_removed}
use chutes_miner.Upkeep.{
  RemoteChute, chute_fetched, chute_updated, create_code_config_map, store_chute, update_chutes,
  upsert_chute,
}
use chutes_miner.Reconcile.Refresh.{
  RemoteEntry, first_update, is_current, refresh_chute, refresh_chutes, update_images,
}
use chutes_miner.Inventory.{
  Identifier, JobView, RemoteInstance, Scan, judge, judge_state, lacks_pod, match_columns,
  match_state, orphaned, remote_by_config_id, synced, take_instance, unreadable,
}

program : Unit {0}
unfolding judge judge_state synced match_columns take_instance match_state judged remove_chute
    check_version after_view finish sweep_row sweep_rows commit apply_writes purge_strays
    check_chute check_chutes reconcile remote_by_config_id undeploy forget remove_from_k8s
    delete_deployment release release_all
program = tt

abbrev remote : (instance_id : Key) → RemoteInstance
remote i = record {
  validator = 900;
  instance_id = i;
  chute_id = 2;
  config_id = none;
  is_verified = true;
  active = some true;
}

abbrev chute_entry : (chute_id version : Key) → Identifier
chute_entry c v = record { validator = 900; chute_id = c; version = v }

-- The validator and kubernetes agree with the sample.
abbrev in_harmony : Scan
in_harmony = record {
  instances = remote 61 ∷ remote 62 ∷ remote 63 ∷ [];
  chutes = chute_entry 1 1 ∷ chute_entry 2 1 ∷ [];
  is_updating = λ v c. false;
  k8s_jobs = 51 ∷ 52 ∷ 53 ∷ [];
  k8s_legacy = [];
  config_ids = some [];
  now = 10000;
  node_ids = 10 ∷ 20 ∷ [];
}

abbrev no_view : State → Key → JobView
no_view s d = unreadable

-- Then nothing is ordered, asked or changed.
rests : reconcile obliging no_view in_harmony start ≡ (return [], start)
unfolding program
rests = refl

-- The validator has a new version of chute 2: three deployments, one removal.
abbrev updated : Scan
updated = record in_harmony { chutes = chute_entry 1 1 ∷ chute_entry 2 2 ∷ [] }

removes_once :
    (reconcile obliging no_view updated start).0
    ≡ return (chute_deleted_task (chute_entry 2 1) ∷ chute_created_task (chute_entry 2 2) ∷ [])
unfolding program
removes_once = refl

-- Job 52 has disappeared, and instance 63 is unknown to the validator.
abbrev disturbed : Scan
disturbed = record in_harmony {
  instances = remote 61 ∷ remote 62 ∷ [];
  k8s_jobs = 51 ∷ 53 ∷ 54 ∷ [];
}

cleans_up :
    let (r, s) = reconcile obliging no_view disturbed start in
    (r ≡ return (instance_task 63 ∷ undeploy_task 53 ∷ undeploy_task 54 ∷ []))
    × (s.log ≡ instance_purged 900 (some 2) 62 ∷ instance_purged 900 (some 2) 62 ∷ [])
    × (find_deployment 52 s.db ≡ none)
unfolding program
cleans_up = (refl, refl, refl)

-- Deployment 51 is not active, as the validator says too, and its job cannot be read.
abbrev inactive_start : State
inactive_start = record {
  db = record sample {
    deployments =
        record (deployment 51 61 2 10) { active = false }
        ∷ deployment 52 62 2 20
        ∷ deployment 53 63 2 20
        ∷ [];
  };
  log = [];
}

abbrev inactive : Scan
inactive = record in_harmony {
  instances = record (remote 61) { active = some false } ∷ remote 62 ∷ remote 63 ∷ [];
}

undeploys_unread :
    (reconcile obliging no_view inactive inactive_start).0 ≡ return (undeploy_task 51 ∷ [])
unfolding program
undeploys_unread = refl

abbrev config_row : Deployment
config_row = record (deployment 54 64 2 10) { config_id = some 77 }

justifies_deletion :
    (lacks_pod in_harmony.config_ids (some 77) ≡ true)
    ⊎ (((config_row.stub ≡ false)
          × (contains 54 in_harmony.k8s_jobs ≡ false)
          × (contains 54 in_harmony.k8s_legacy ≡ false)
          × (config_row.job_id ≡ none))
        ⊎ (((config_row.stub || is_none config_row.instance_id) ≡ true)
            × (50 + 1800 ≤ 10000)
            × (contains 54 in_harmony.k8s_legacy ≡ false)
            × (config_row.job_id ≡ none)))
unfolding program
justifies_deletion = deletion_is_justified in_harmony config_row refl

orphans_new_row :
    judge in_harmony
      (synced in_harmony (stub_deployment 99 small_chute first_server none (some 77) 9999))
    ≡ orphaned
orphans_new_row =
    new_row_is_orphaned in_harmony 99 small_chute first_server none 77 9999 [] refl refl

removal_ordered_once_example :
    count
      (orders_removal (chute_entry 2 1))
      (chute_deleted_task (chute_entry 2 1) ∷ chute_created_task (chute_entry 2 2) ∷ [])
    ≤ 1
unfolding program
removal_ordered_once_example =
    removal_ordered_once (chute_entry 2 1) obliging no_view updated start
      (reconcile obliging no_view updated start).1
      (chute_deleted_task (chute_entry 2 1) ∷ chute_created_task (chute_entry 2 2) ∷ []) refl

abbrev loop_end : Raised Sweep × State
loop_end = sweep_rows obliging no_view in_harmony sample.deployments empty_sweep start

abbrev end_sweep : Sweep
end_sweep = record empty_sweep {
  all_deployments = 53 ∷ 52 ∷ 51 ∷ [];
  all_instances = 63 ∷ 62 ∷ 61 ∷ [];
}

abbrev unread_sweep : Sweep
unread_sweep = record empty_sweep { all_deployments = 53 ∷ 52 ∷ []; all_instances = 63 ∷ 62 ∷ [] }

unreadable_is_removed_example : contains 51 (untracked inactive unread_sweep) ≡ true
unfolding program
unreadable_is_removed_example =
    unreadable_is_removed obliging no_view inactive 51 (λ s. refl) []
      (record (deployment 51 61 2 10) { active = false })
      (deployment 52 62 2 20 ∷ deployment 53 63 2 20 ∷ []) inactive_start inactive_start
      unread_sweep refl refl tt (ground arith, (ground arith, tt)) refl refl refl

abbrev small_remote : RemoteChute
small_remote = record {
  name = 2;
  image = 1;
  code = 1;
  filename = 1;
  ref_str = 1;
  version = 1;
  supported_gpus = 7 ∷ [];
  gpu_count = 1;
  chutes_version = none;
  preemptible = true;
  tee = true;
}

abbrev small_entry : RemoteChute → RemoteEntry
small_entry r = record { validator = 900; chute_id = 2; image_id = some 80; remote = r }

abbrev refreshed_with : RemoteChute → State
refreshed_with r =
    (refresh_chutes controller (λ s chute version. some r) sample.chutes (small_entry r ∷ [])
      start).1

refreshing : Unit {0}
unfolding refresh_chutes refresh_chute chute_updated create_code_config_map chute_fetched
    store_chute upsert_chute update_chutes update_images first_update
refreshing = tt

-- A chute that agrees is left alone, and one whose code differs is stored.
refreshes_changed :
    (refreshed_with small_remote ≡ start)
    × (map (λ (row : Chute). row.code) (refreshed_with (record small_remote { code = 5 })).db.chutes
        ≡ 1 ∷ 5 ∷ [])
unfolding refreshing
refreshes_changed = (refl, refl)

-- A chute whose name differs is stored too, but does not agree afterwards.
stays_outdated :
    map (is_current (record small_remote { name = 5 })) (
      filter
        (λ row. row.chute_id == 2)
        (refreshed_with (record small_remote { name = 5 })).db.chutes)
    ≡ false ∷ []
unfolding refreshing
stays_outdated = refl

sets_image :
    map
      (λ (row : Chute). row.image)
      (update_images
        (record { image_id = 80; image = 81; chutes_version = some 3 } ∷ [])
        (small_entry small_remote ∷ [])
        start).1.db.chutes
    ≡ 1 ∷ 81 ∷ []
unfolding refreshing
sets_image = refl
