-- ===== src/Gepetto/Undeploy.antt =====
-- What undeploy does on each of its branches.
use chutes_miner.Prelude.{
  Option, Option-cases, arith, false, if◌then◌else◌, inl, inr, is_some, none, refl, some, true, ◌≡◌,
  ◌≢◌, ◌⊎◌,
}
use chutes_miner.Schema.{Key}
use chutes_miner.Db.{delete_deployment, find_deployment}
use chutes_miner.Db.Release.{
  IsGone, IsKept, IsLinked, delete_deployment-IsGone, delete_deployment-IsKept,
}
use chutes_miner.State.{State, logged, preflight}
use chutes_miner.Action.{Raised-cases, raise, return}
use chutes_miner.Gepetto.{Outside, forget, remove_from_k8s, undeploy}

module _ (out : Outside) where
  -- When the preflight refuses, undeploy asks it and does nothing else, and it does not raise.
  pub undeploy_blocked :
      (d : Key) (i : Option Key) (s : State)
      → out.delete_preflight s d ≡ return false
      → undeploy out d i s ≡ (return tt, logged (preflight d) s)
  unfolding undeploy
  undeploy_blocked d i s h = rw (h, undeploy)

  -- When the preflight raises, so does undeploy, and it has only asked.
  pub undeploy_raises :
      (d : Key) (i : Option Key) (s : State)
      → out.delete_preflight s d ≡ raise
      → undeploy out d i s ≡ (raise, logged (preflight d) s)
  unfolding undeploy
  undeploy_raises d i s h = rw (h, undeploy)

  pub forget-db :
      (d : Key) (i : Option Key) (s : State)
      → (forget out d i s).1.db
        ≡ (if is_some (find_deployment d s.db) then delete_deployment d s.db else s.db)
  unfolding forget
  forget-db d none s = ground arith
  forget-db d (some i) s = ground arith

  -- An allowed undeploy changes the database as `forget` does.
  pub undeploy-db :
      (d : Key) (i : Option Key) (s : State)
      → out.delete_preflight s d ≡ return true
      → (undeploy out d i s).1.db ≡ (forget out d i (logged (preflight d) s)).1.db
  unfolding undeploy remove_from_k8s forget
  undeploy-db d i s h = ground arith

  -- Of every state: undeploy deletes the deployment's row, or leaves the database alone.
  pub undeploy-db_cases :
      (d : Key) (i : Option Key) (s : State)
      → ((undeploy out d i s).1.db ≡ s.db) ⊎ ((undeploy out d i s).1.db ≡ delete_deployment d s.db)
  undeploy-db_cases d i s = elim (Raised-cases (out.delete_preflight s d)) [
    | inl (true, allowed) ↦
        ground (arith, undeploy-db d i s allowed, forget-db d i (logged (preflight d) s))
    | inl (false, blocked) ↦ inl (rw (undeploy_blocked d i s blocked))
    | inr broken ↦ inl (rw (undeploy_raises d i s broken))
  ]

  -- When the preflight allows it, undeploy leaves no row of the deployment and no GPU assigned to
  -- it, also if kubernetes raises afterwards; every other deployment keeps its row and its GPUs.
  -- (Before, a deployment without a row has no GPU.)
  pub undeploy-IsGone :
      (d : Key) (i : Option Key) (s : State)
      → IsLinked d s.db
      → out.delete_preflight s d ≡ return true
      → let db = (undeploy out d i s).1.db in IsGone d db × ((e : Key) → d ≢ e → IsKept e s.db db)
  undeploy-IsGone d i s linked h = elim (Option-cases (find_deployment d s.db)) [
    | inl absent ↦
        let same : (undeploy out d i s).1.db ≡ s.db =
          ground (arith, undeploy-db d i s h, forget-db d i (logged (preflight d) s)) in
        rw same ((absent, linked absent), λ e ne. (refl, refl))
    | inr (row, present) ↦
        let gone : (undeploy out d i s).1.db ≡ delete_deployment d s.db =
          ground (arith, undeploy-db d i s h, forget-db d i (logged (preflight d) s)) in
        rw gone (delete_deployment-IsGone d s.db, λ e ne. delete_deployment-IsKept d e s.db ne)
  ]
