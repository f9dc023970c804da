-- ===== src/Preflight/Allowed.antt =====
-- When a deletion is allowed, and what a refusal for a stale cache leads to.
use chutes_miner.Prelude.{
  Bool-cases, Option, ap, arith, false, inl, inr, none, refl, some, true, ℕ, ◌==◌, ◌∙◌, ◌≡◌, ◌⊎◌,
}
use chutes_miner.Schema.{Key}
use chutes_miner.Db.{Db}
use chutes_miner.Action.{return}
use chutes_miner.Cache.{
  Cache, Located, Resource, ambiguous, get_resource, get_resource_cluster, job, located, unknown,
}
use chutes_miner.Preflight.{
  LiveRead, Names, check_cached, check_location, cluster_is_healthy, delete_preflight,
  deployment_server, is_contradicted, is_resource_stale, preflight_on,
}

module _ (names : Names) (now : ℕ) where
  -- The server's cluster is healthy, and the cache knows the job in no other cluster.
  abbrev pub IsSafe : Key → Key → Cache → Type 0
  IsSafe d server cache =
      (cluster_is_healthy server cache ≡ true)
      × ((get_resource_cluster job names.namespace (names.job_name d) cache ≡ unknown)
          ⊎ (get_resource_cluster job names.namespace (names.job_name d) cache ≡ located server))

  stale-keeps :
      (server : Key) (v : Option Key) (live : LiveRead) (cache : Cache)
      → (is_resource_stale names now server v live cache).0 ≡ false
      → (is_resource_stale names now server v live cache).1 ≡ cache
  unfolding is_resource_stale
  stale-keeps server none live cache h = refl
  stale-keeps server (some cached) live cache h = elim (Bool-cases (is_contradicted cached live)) [
    | inl stale ↦ absurd (ground (arith, stale, h))
    | inr fresh ↦ rw fresh refl
  ]

  cached-keeps :
      (server : Key) (o : Option Resource) (live : LiveRead) (cache : Cache)
      → (check_cached names now server o live cache).0 ≡ true
      → (check_cached names now server o live cache).1 ≡ cache
  unfolding check_cached
  cached-keeps server none live cache h = refl
  cached-keeps server (some x) live cache h =
      stale-keeps server (names.version_of x) live cache (ground (arith, h))

  location-IsSafe :
      (d server : Key) (l : Located) (live : LiveRead) (cache : Cache)
      → get_resource_cluster job names.namespace (names.job_name d) cache ≡ l
      → (check_location names now d server l live cache).0 ≡ return true
      → IsSafe d server cache × ((check_location names now d server l live cache).1 ≡ cache)
  unfolding check_location
  location-IsSafe d server ambiguous live cache h e = absurd (ground arith)
  location-IsSafe d server unknown live cache h e = ((ground arith, inl h), refl)
  location-IsSafe d server (located context) live cache h e =
      elim (Bool-cases (context == server)) [
        | inr other ↦ absurd (ground (arith, other, e))
        | inl same ↦ elim (Bool-cases (cluster_is_healthy server cache)) [
          | inr down ↦ absurd (ground (arith, same, down, e))
          | inl up ↦
              let x = get_resource context job names.namespace (names.job_name d) cache in
              let kept : (check_cached names now server x live cache).1 ≡ cache =
                cached-keeps server x live cache (ground (arith, same, up, e)) in
              let here : context ≡ server = ground (arith, same) in
              ((up, inr (h ∙ ap located here)), rw (same, up, check_location) kept)
        ]
      ]

  server-IsSafe :
      (d : Key) (live : LiveRead) (o : Option Key) (cache : Cache)
      → (preflight_on names now d live o cache).0 ≡ return true
      → ((preflight_on names now d live o cache).1 ≡ cache)
        × ((o ≡ none) ⊎ ((server : Key) × (o ≡ some server) × IsSafe d server cache))
  unfolding preflight_on
  server-IsSafe d live none cache e = (refl, inl refl)
  server-IsSafe d live (some server) cache e =
      let (safe, kept) =
        location-IsSafe d server (get_resource_cluster job names.namespace (names.job_name d) cache)
          live cache refl e in
      (kept, inr (server, refl, safe))

  -- When delete_preflight allows a deletion, it leaves the cache alone, and either the deployment has
  -- no row or no server, or its server's cluster is healthy and the cache has the job in no other
  -- cluster, and in one at most.
  pub preflight-IsSafe :
      (d : Key) (live : LiveRead) (db : Db) (cache : Cache)
      → (delete_preflight names now d live db cache).0 ≡ return true
      → ((delete_preflight names now d live db cache).1 ≡ cache)
        × ((deployment_server d db ≡ none)
            ⊎ ((server : Key) × (deployment_server d db ≡ some server) × IsSafe d server cache))
  unfolding delete_preflight
  preflight-IsSafe d live db cache e = server-IsSafe d live (deployment_server d db) cache e
