-- ===== src/Reconcile/Judging.antt =====
-- What the tests of reconcile's loop say of a row.
use chutes_miner.Prelude.{
  Bool, Bool-cases, List, Option, arith, contains, false, inl, inr, is_none, none, refl, some, true,
  ℕ, ◌&&◌, ◌+◌, ◌==◌, ◌||◌, ◌∙◌, ◌≡◌, ◌≤◌, ◌⊎◌,
}
use chutes_miner.Schema.{Chute, Deployment, Key, Server}
use chutes_miner.Operator.{stub_deployment}
use chutes_miner.Inventory.{
  RemoteInstance, Scan, default, is_deleted, judge, judge_state, known_instance, lacks_pod,
  match_columns, match_config, match_state, orphaned, remote_by_config_id, same_bool, synced,
  take_instance,
}

-- What does not depend on the columns that the first steps write is kept by them.
module _ {A : Type 0} (f : Deployment → A)
    (instances : (e : Deployment) (i : Option Key) → f (record e { instance_id = i }) ≡ f e)
    (verified : (e : Deployment) (t : Option ℕ) → f (record e { verified_at = t }) ≡ f e)
    (activated : (e : Deployment) (b : Bool) (t : Option ℕ)
      → f (record e { active = b; activated_at = t; stub = false }) ≡ f e) where
  take_instance-keeps : (o : Option RemoteInstance) (e : Deployment) → f (take_instance o e) ≡ f e
  unfolding take_instance
  take_instance-keeps none e = refl
  take_instance-keeps (some r) e = elim (Bool-cases (r.validator == e.validator)) [
    | inl own ↦ rw own (instances e (some r.instance_id))
    | inr other ↦ rw other refl
  ]

  match_columns-keeps :
      (rs : List RemoteInstance) (i c : Option Key) (e : Deployment)
      → f (match_columns rs i c e) ≡ f e
  unfolding match_columns
  match_columns-keeps rs (some i) c e = refl
  match_columns-keeps rs none none e = refl
  match_columns-keeps rs none (some c) e = take_instance-keeps (remote_by_config_id c rs) e

  match_state-keeps :
      (now : ℕ) (o : Option RemoteInstance) (e : Deployment) → f (match_state now o e) ≡ f e
  unfolding match_state
  match_state-keeps now none e = refl
  match_state-keeps now (some r) e =
      let b : Bool = default r.active in
      elim (Bool-cases (r.is_verified && is_none e.verified_at)) [
        | inl new ↦ elim (Bool-cases (same_bool e.active b)) [
          | inl same ↦ rw (new, same, match_state) (verified e (some now))
          | inr other ↦
              rw (new, other, match_state)
                (activated (record e { verified_at = some now }) b (some now)
                  ∙ verified e (some now))
        ]
        | inr old ↦ elim (Bool-cases (same_bool e.active b)) [
          | inl same ↦ rw (old, same, match_state) refl
          | inr other ↦ rw (old, other, match_state) (activated e b (some now))
        ]
      ]

  synced-keeps : (scan : Scan) (e : Deployment) → f (synced scan e) ≡ f e
  unfolding synced
  synced-keeps scan e =
      let e1 = match_config scan.instances e in
      match_state-keeps scan.now (known_instance scan.instances e1) e1
      ∙ match_columns-keeps scan.instances e.instance_id e.config_id e

pub synced-id : (scan : Scan) (e : Deployment) → (synced scan e).deployment_id ≡ e.deployment_id
synced-id = synced-keeps (λ e. e.deployment_id) (λ e i. refl) (λ e t. refl) (λ e b t. refl)

-- A row is deleted in the session only for one of three reasons: its launch config has no pod, which
-- the scan of the pods has to have shown; or it is past the stub stage and neither a job nor a legacy
-- deployment of kubernetes; or it is a stub, or without an instance, for thirty minutes or more,
-- and no legacy deployment. A row with a job, or in a rolling update, is deleted for the first only.
pub deletion_is_justified :
    (scan : Scan) (d : Deployment)
    → is_deleted (judge scan d) ≡ true
    → (lacks_pod scan.config_ids d.config_id ≡ true)
      ⊎ (((d.stub ≡ false)
            × (contains d.deployment_id scan.k8s_jobs ≡ false)
            × (contains d.deployment_id scan.k8s_legacy ≡ false)
            × (d.job_id ≡ none))
          ⊎ (((d.stub || is_none d.instance_id) ≡ true)
              × (d.created_at + 1800 ≤ scan.now)
              × (contains d.deployment_id scan.k8s_legacy ≡ false)
              × (d.job_id ≡ none)))
unfolding judge judge_state
deletion_is_justified scan d h = ground arith

-- The row that deploy_chute tracks for a launch config is deleted by a reconcile that finds no pod of
-- the config yet, however young the row is, since the test for orphans comes first.
pub new_row_is_orphaned :
    (scan : Scan) (d : Key) (chute : Chute) (server : Server) (job : Option Key) (config now : ℕ)
    (ids : List Key)
    → scan.config_ids ≡ some ids
    → contains config ids ≡ false
    → judge scan (synced scan (stub_deployment d chute server job (some config) now)) ≡ orphaned
unfolding judge
new_row_is_orphaned scan d chute server job config now ids scanned unseen =
    let row = stub_deployment d chute server job (some config) now in
    let kept : (synced scan row).config_id ≡ some config =
      synced-keeps (λ e. e.config_id) (λ e i. refl) (λ e t. refl) (λ e b t. refl) scan row in
    let lost : lacks_pod scan.config_ids (synced scan row).config_id ≡ true =
      rw (kept, scanned, unseen) refl in
    rw (lost, judge) refl
