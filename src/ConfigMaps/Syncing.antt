-- ===== src/ConfigMaps/Syncing.antt =====
-- What a cluster holds after a synchronisation.
use mathlib.Core.Path.{subst, sym}
use chutes_miner.Prelude.{
  Bool, Bool-cases, List, [], any, arith, contains, false, inl, inr, not, refl, some, true, ◌&&◌,
  ◌==◌, ◌||◌, ◌∷◌, ◌≡◌, ◌⊎◌,
}
use chutes_miner.Schema.{Key}
use chutes_miner.Action.{return}
use chutes_miner.ConfigMaps.{
  ConfigMap, CoreApi, Outcome, after_create, after_delete, api_status, completed, create_each,
  delete_config_map_from_cluster, delete_each, deploy_config_map_to_cluster,
  sync_cluster_configmaps,
}

-- A cluster that can be reached and whose API server keeps config maps by name, as kubernetes
-- documents it: `has` says whether there is one of a name, a creation is refused with 409 when there
-- is, and a deletion with 404 when there is none.
pub record IsKeeping {W : Type 0} (api : CoreApi W) (cluster : Key) (has : Key → W → Bool)
    : Type 0 where
  pub healthy : (w : W) → api.verify cluster w ≡ true
  pub names : W → List Key
  pub listed : (w : W) → api.list_code cluster w ≡ some (names w)
  pub all_listed : (n : Key) (w : W) → contains n (names w) ≡ has n w
  pub create_new :
      (cm : ConfigMap) (w : W) → has cm.name w ≡ false → (api.create cluster cm w).0 ≡ completed
  pub create_known :
      (cm : ConfigMap) (w : W) → has cm.name w ≡ true → (api.create cluster cm w).0 ≡ api_status 409
  pub has-create :
      (cm : ConfigMap) (n : Key) (w : W)
      → has n (api.create cluster cm w).1 ≡ ((cm.name == n) || has n w)
  pub delete_known : (m : Key) (w : W) → has m w ≡ true → (api.delete cluster m w).0 ≡ completed
  pub delete_unknown :
      (m : Key) (w : W) → has m w ≡ false → (api.delete cluster m w).0 ≡ api_status 404
  pub has-delete :
      (m n : Key) (w : W) → has n (api.delete cluster m w).1 ≡ (not (m == n) && has n w)

module _ {W : Type 0} (api : CoreApi W) (is_tee : Key → Bool) (cluster : Key) (has : Key → W → Bool)
    (keeping : IsKeeping api cluster has) (plain : is_tee cluster ≡ false) where
  -- A creation without force succeeds, and the name is there.
  created :
      (cm : ConfigMap) (w : W)
      → deploy_config_map_to_cluster api is_tee cluster cm false w
        ≡ (return true, (api.create cluster cm w).1)
  unfolding deploy_config_map_to_cluster after_create
  created cm w = elim (Bool-cases (has cm.name w)) [
    | inl known ↦
        rw (plain, keeping.healthy w)
          (split (api.create cluster cm w) (inr (keeping.create_known cm w known)))
    | inr new ↦
        rw (plain, keeping.healthy w)
          (split (api.create cluster cm w) (inl (keeping.create_new cm w new)))
  ]
    where
      split :
          (r : Outcome × W)
          → (r.0 ≡ completed) ⊎ (r.0 ≡ api_status 409)
          → after_create api is_tee cluster cm false r ≡ (return true, r.1)
      split (o, w') (inl e) =
          subst (λ x. after_create api is_tee cluster cm false (x, w') ≡ (return true, w')) (sym e)
            refl
      split (o, w') (inr e) =
          subst (λ x. after_create api is_tee cluster cm false (x, w') ≡ (return true, w')) (sym e)
            refl

  -- A deletion succeeds too, whether or not the name is there.
  removed :
      (m : Key) (w : W)
      → delete_config_map_from_cluster api is_tee cluster m w
        ≡ (return tt, (api.delete cluster m w).1)
  unfolding delete_config_map_from_cluster
  removed m w = elim (Bool-cases (has m w)) [
    | inl known ↦ rw plain (split (api.delete cluster m w) (inl (keeping.delete_known m w known)))
    | inr gone ↦ rw plain (split (api.delete cluster m w) (inr (keeping.delete_unknown m w gone)))
  ]
    where
      split :
          (r : Outcome × W)
          → (r.0 ≡ completed) ⊎ (r.0 ≡ api_status 404)
          → after_delete api is_tee r ≡ (return tt, r.1)
      split (o, w') (inl e) =
          subst (λ x. after_delete api is_tee (x, w') ≡ (return tt, w')) (sym e) refl
      split (o, w') (inr e) =
          subst (λ x. after_delete api is_tee (x, w') ≡ (return tt, w')) (sym e) refl

  create_each-has :
      (cms : List ConfigMap) (n : Key) (w : W)
      → has n (create_each api is_tee cluster cms w).1
        ≡ (any (λ (cm : ConfigMap). cm.name == n) cms || has n w)
  unfolding create_each
  create_each-has [] n w = refl
  create_each-has (cm ∷ cms) n w =
      let w' = (api.create cluster cm w).1 in
      rw (create_each, created cm w)
        (ground (arith, create_each-has cms n w', keeping.has-create cm n w))

  delete_each-has :
      (names : List Key) (cms : List ConfigMap) (n : Key) (w : W)
      → has n (delete_each api is_tee cluster names cms w).1
        ≡ (any (λ (cm : ConfigMap). cm.name == n) cms || (not (contains n names) && has n w))
  unfolding delete_each
  delete_each-has [] cms n w = create_each-has cms n w
  delete_each-has (m ∷ ms) cms n w =
      let w' = (api.delete cluster m w).1 in
      rw (delete_each, removed m w)
        (ground (arith, delete_each-has ms cms n w', keeping.has-delete m n w))

  -- After a synchronisation of a cluster that is no TEE cluster, can be reached, and keeps config
  -- maps by name, the cluster has one of a name exactly when a chute in the table has this name for
  -- its code, whatever the cluster had before.
  pub sync-has :
      (cms : List ConfigMap) (n : Key) (w : W)
      → has n (sync_cluster_configmaps api is_tee cluster cms w)
        ≡ any (λ (cm : ConfigMap). cm.name == n) cms
  unfolding sync_cluster_configmaps
  sync-has cms n w =
      rw (plain, keeping.listed w)
        (ground (arith, delete_each-has (keeping.names w) cms n w, keeping.all_listed n w))
