-- ===== src/ConfigMaps/Tests.antt =====
-- A cluster that keeps config maps, and the theorem on it.
use mathlib.Core.Path.{subst}
use chutes_miner.Prelude.{
  Bool, Bool-cases, List, [], arith, contains, false, filter, if◌then◌else◌, inl, inr, not, refl,
  some, true, ◌&&◌, ◌+◌, ◌==◌, ◌||◌, ◌∷◌, ◌≡◌,
}
use chutes_miner.Schema.{Key}
use chutes_miner.Action.{raise}
use chutes_miner.ConfigMaps.{
  ConfigMap, CoreApi, Outcome, after_create, api_status, completed,
  deploy_config_map_to_all_clusters, deploy_config_map_to_cluster, no_connection,
  sync_cluster_configmaps,
}
use chutes_miner.ConfigMaps.Syncing.{IsKeeping, sync-has}

-- The state is the names on the one cluster.
abbrev create_name : ConfigMap → List Key → Outcome × List Key
create_name cm names =
    if contains cm.name names then (api_status 409, names) else (completed, cm.name ∷ names)

abbrev delete_name : Key → List Key → Outcome × List Key
delete_name m names =
    if contains m names
    then (completed, filter (λ n. not (n == m)) names)
    else (api_status 404, names)

abbrev keeper : CoreApi (List Key)
keeper = record {
  verify = λ cluster names. true;
  list_code = λ cluster names. some names;
  create = λ cluster. create_name;
  delete = λ cluster. delete_name;
}

contains_same :
    (m n : Key) (names : List Key)
    → contains m names ≡ true
    → (m == n) ≡ true
    → contains n names ≡ true
contains_same m n names h e =
    let same : m ≡ n = ground (arith, e) in subst (λ x. contains x names ≡ true) same h

contains-create :
    (cm : ConfigMap) (n : Key) (names : List Key)
    → contains n (create_name cm names).1 ≡ ((cm.name == n) || contains n names)
contains-create cm n names = elim (Bool-cases (contains cm.name names)) [
  | inr new ↦ ground (arith, new)
  | inl known ↦ elim (Bool-cases (cm.name == n)) [
    | inl same ↦ rw (known, same) (contains_same cm.name n names known same)
    | inr other ↦ rw (known, other) refl
  ]
]

contains-rest :
    (m n : Key) (names : List Key)
    → contains n (filter (λ x. not (x == m)) names) ≡ (not (m == n) && contains n names)
contains-rest m n [] = ground arith
contains-rest m n (x ∷ xs) = ground (arith, contains-rest m n xs)

contains-delete :
    (m n : Key) (names : List Key)
    → contains n (delete_name m names).1 ≡ (not (m == n) && contains n names)
contains-delete m n names = elim (Bool-cases (contains m names)) [
  | inl known ↦ rw known (contains-rest m n names)
  | inr gone ↦ elim (Bool-cases (m == n)) [
    | inl same ↦
        let e : m ≡ n = ground (arith, same) in
        let gone' : contains n names ≡ false = subst (λ x. contains x names ≡ false) e gone in
        rw (gone, same) gone'
    | inr other ↦ rw (gone, other) refl
  ]
]

keeper-IsKeeping : IsKeeping keeper 1 contains
keeper-IsKeeping = record {
  healthy = λ names. refl;
  names = λ names. names;
  listed = λ names. refl;
  all_listed = λ n names. refl;
  create_new = λ cm names h. rw h refl;
  create_known = λ cm names h. rw h refl;
  has-create = contains-create;
  delete_known = λ m names h. rw h refl;
  delete_unknown = λ m names h. rw h refl;
  has-delete = contains-delete;
}

abbrev no_tee : Key → Bool
no_tee cluster = false

abbrev code_of : Key → ConfigMap
code_of n = record { name = n; code = n + 100 }

-- A map of a chute that is gone is removed, and the missing one is added.
sync-has_example :
    contains 8 (sync_cluster_configmaps keeper no_tee 1 (code_of 5 ∷ code_of 6 ∷ []) (5 ∷ 8 ∷ []))
    ≡ false
sync-has_example =
    sync-has keeper no_tee 1 contains keeper-IsKeeping refl (code_of 5 ∷ code_of 6 ∷ []) 8
      (5 ∷ 8 ∷ [])

program : Unit {0}
unfolding deploy_config_map_to_cluster deploy_config_map_to_all_clusters after_create
program = tt

-- A replacement whose second request finds no connection ends the loop over the clusters: the third
-- one, which could be reached, gets nothing.
abbrev flaky : CoreApi (List Key)
flaky = record keeper {
  create = λ cluster cm w. if cluster == 2 then (api_status 409, w) else (completed, cluster ∷ w);
  delete = λ cluster name w. (no_connection, w);
}

stops_at_second :
    deploy_config_map_to_all_clusters flaky no_tee (1 ∷ 2 ∷ 3 ∷ []) (code_of 5) true []
    ≡ (raise, 1 ∷ [])
unfolding program
stops_at_second = refl
