-- ===== src/Inventory.antt =====
-- What Gepetto.reconcile of src/chutes-miner/chutes_miner/gepetto.py reads of the validators and of
-- kubernetes, and what it says of a row by them: the first two steps of its loop over the
-- deployments, and the tests that follow.
use chutes_miner.Prelude.{
  Bool, List, Option, [], contains, false, find?, if◌then◌else◌, is_key, is_none, is_some, leb,
  none, not, some, true, ℕ, ◌&&◌, ◌+◌, ◌==◌, ◌||◌, ◌∷◌,
}
use chutes_miner.Schema.{Deployment, Key}

-- An entry of remote_instances. `active` is none where the entry has no such key.
pub record RemoteInstance : Type 0 where
  pub validator : Key
  pub instance_id : Key
  pub chute_id : Key
  pub config_id : Option Key
  pub is_verified : Bool
  pub active : Option Bool

-- `f"{validator}:{chute_id}:{version}"`, which the entries of remote_chutes have too.
pub record Identifier : Type 0 where
  pub validator : Key
  pub chute_id : Key
  pub version : Key

abbrev pub same_identifier : Identifier → Identifier → Bool
same_identifier x y =
    (x.validator == y.validator) && ((x.chute_id == y.chute_id) && (x.version == y.version))

-- What k8s.get_deployment comes to: a 404, another exception, or the job's status, with whether one
-- of its pods has terminated.
pub data JobView : Type 0 where
  absent unreadable : JobView
  seen : (succeeded failed : ℕ) → (is_terminated : Bool) → JobView

-- What reconcile has read before it goes through the rows. `config_ids` is none if the scan of
-- the pods failed.
pub record Scan : Type 0 where
  pub instances : List RemoteInstance
  pub chutes : List Identifier
  pub is_updating : (validator chute_id : Key) → Bool
  pub k8s_jobs : List Key
  pub k8s_legacy : List Key
  pub config_ids : Option (List Key)
  pub now : ℕ
  pub node_ids : List Key

-- remote_by_config_id: a later instance of the same config replaces an earlier one.
unfoldable pub remote_by_config_id : Key → List RemoteInstance → Option RemoteInstance
remote_by_config_id c [] = none
remote_by_config_id c (r ∷ rs) =
    let later = remote_by_config_id c rs in
    if is_some later then later else if is_key r.config_id c then some r else none

-- `(self.remote_instances.get(validator) or {}).get(instance_id)`
abbrev pub remote_instance :
    (validator instance_id : Key) → List RemoteInstance → Option RemoteInstance
remote_instance v i rs = find? (λ r. (r.validator == v) && (r.instance_id == i)) rs

-- `(self.remote_chutes.get(validator) or {}).get(chute_id)`
abbrev pub remote_chute : (validator chute_id : Key) → List Identifier → Option Identifier
remote_chute v c rs = find? (λ r. (r.validator == v) && (r.chute_id == c)) rs

-- The first step of the loop, on the row's instance and config and on what the map holds for it: the
-- instance of a launch config is recorded.
unfoldable pub take_instance : Option RemoteInstance → Deployment → Deployment
take_instance none d = d
take_instance (some r) d =
    if r.validator == d.validator then record d { instance_id = some r.instance_id } else d

unfoldable pub match_columns :
    List RemoteInstance → (instance_id config_id : Option Key) → Deployment → Deployment
match_columns rs (some i) config d = d
match_columns rs none none d = d
match_columns rs none (some c) d = take_instance (remote_by_config_id c rs) d

abbrev pub match_config : List RemoteInstance → Deployment → Deployment
match_config rs d = match_columns rs d.instance_id d.config_id d

abbrev pub default : Option Bool → Bool
default none = true
default (some b) = b

abbrev pub same_bool : Bool → Bool → Bool
same_bool true b = b
same_bool false b = not b

-- The second step: the verified and active states follow the validator's.
unfoldable pub match_state : (now : ℕ) → Option RemoteInstance → Deployment → Deployment
match_state now none d = d
match_state now (some r) d =
    let d1 : Deployment =
      if r.is_verified && is_none d.verified_at then record d { verified_at = some now } else d in
    if same_bool d.active (default r.active)
    then d1
    else record d1 { active = default r.active; activated_at = some now; stub = false }

-- The row's entry at its validator, if it has an instance.
abbrev pub known_instance : List RemoteInstance → Deployment → Option RemoteInstance
known_instance rs d = elim d.instance_id [ none ↦ none | some i ↦ remote_instance d.validator i rs ]

unfoldable pub synced : Scan → Deployment → Deployment
synced scan d =
    let d1 = match_config scan.instances d in
    match_state scan.now (known_instance scan.instances d1) d1

-- Whether the first two steps have set a column.
abbrev pub is_touched : Scan → Deployment → Bool
is_touched scan d =
    let d1 = match_config scan.instances d in
    (is_none d.instance_id && is_some d1.instance_id) || elim (known_instance scan.instances d1) [
      | none ↦ false
      | some r ↦
          (r.is_verified && is_none d1.verified_at) || not (same_bool d1.active (default r.active))
    ]

-- What the loop does with a row, by the test that stops it. The last five have passed the version
-- check.
pub data Judgement : Type 0 where
  orphaned instance_missing job_kept job_gone rolling legacy disappeared expired unproven sound :
      Judgement

abbrev pub lacks_pod : Option (List Key) → Option Key → Bool
lacks_pod none c = false
lacks_pod (some ids) none = false
lacks_pod (some ids) (some c) = not (contains c ids)

abbrev pub lacks_instance : Scan → Deployment → Bool
lacks_instance scan d = is_some d.instance_id && is_none (known_instance scan.instances d)

-- `not remote or remote["version"] != deployment.version`
abbrev pub is_outdated : Option Identifier → (version : Key) → Bool
is_outdated none version = true
is_outdated (some r) version = not (r.version == version)

abbrev pub deployment_outdated : Scan → Deployment → Bool
deployment_outdated scan d = is_outdated (remote_chute d.validator d.chute_id scan.chutes) d.version

-- The tests after the version check.
unfoldable pub judge_state : Scan → Deployment → Judgement
judge_state scan d =
    if contains d.deployment_id scan.k8s_legacy
    then legacy
    else if not d.stub && not (contains d.deployment_id scan.k8s_jobs)
    then disappeared
    else if (d.stub || is_none d.instance_id) && leb (d.created_at + 1800) scan.now
    then expired
    else if not d.active || (is_none d.verified_at && leb (d.created_at + 300) scan.now)
    then unproven
    else sound

-- The tests in order, on the row after the first two steps.
unfoldable pub judge : Scan → Deployment → Judgement
judge scan d =
    if lacks_pod scan.config_ids d.config_id
    then orphaned
    else if lacks_instance scan d
    then instance_missing
    else if is_some d.job_id
    then (if is_some (remote_chute d.validator d.chute_id scan.chutes) then job_kept else job_gone)
    else if deployment_outdated scan d && scan.is_updating d.validator d.chute_id
    then rolling
    else judge_state scan d

abbrev pub is_deleted : Judgement → Bool
is_deleted orphaned = true
is_deleted disappeared = true
is_deleted expired = true
is_deleted _ = false
