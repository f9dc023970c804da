-- ===== src/Monitor/Sync.antt =====
-- How the cache follows the table of servers: MonitoringReconciler._reconcile_cache_with_db.
use mathlib.Core.Path.{subst, sym}
use chutes_miner.Prelude.{
  Bool-cases, List, [], arith, contains, false, filter, find?, if◌then◌else◌, inl, inr, map, none,
  not, refl, true, ◌==◌, ◌∙◌, ◌∷◌, ◌≡◌, ◌≢◌,
}
use chutes_miner.Schema.{Key}
use chutes_miner.Db.{Db}
use chutes_miner.Cache.{
  Cache, Health, Kind, clear_cluster, clear_cluster_resources, get_all_cluster_names,
  get_cluster_status, get_resource,
}
use chutes_miner.Cache.Resources.{get_resource-clear_ne}
use chutes_miner.Monitor.{clear_unexpected, expected_names, reconcile_cache_with_db}

module _ (c : Key) where
  pub find-clear :
      (d : Key) (cache : Cache)
      → get_cluster_status c (clear_cluster d cache)
        ≡ (if d == c then none else get_cluster_status c cache)
  unfolding clear_cluster clear_cluster_resources
  find-clear d cache = go cache.health
    where
      go :
          (hs : List Health)
          → find? (λ h. h.cluster_name == c) (filter (λ h. not (h.cluster_name == d)) hs)
            ≡ (if d == c then none else find? (λ h. h.cluster_name == c) hs)
      go [] = ground arith
      go (h ∷ hs) = ground (arith, go hs)

  named :
      (hs : List Health)
      → contains c (map (λ (h : Health). h.cluster_name) hs) ≡ false
      → find? (λ h. h.cluster_name == c) hs ≡ none
  named [] h = refl
  named (x ∷ hs) h = ground (arith, named hs)

  module _ (expected : List Key) (unexpected : contains c expected ≡ false) where
    stays_cleared :
        (cs : List Key) (cache : Cache)
        → get_cluster_status c cache ≡ none
        → get_cluster_status c (clear_unexpected expected cs cache) ≡ none
    unfolding clear_unexpected
    stays_cleared [] cache h = h
    stays_cleared (d ∷ cs) cache h = elim (Bool-cases (contains d expected)) [
      | inl kept ↦ rw (kept, clear_unexpected) (stays_cleared cs cache h)
      | inr gone ↦
          rw (gone, clear_unexpected)
            (stays_cleared cs (clear_cluster d cache) (ground (arith, find-clear d cache, h)))
    ]

    gets_cleared :
        (cs : List Key) (cache : Cache)
        → contains c cs ≡ true
        → get_cluster_status c (clear_unexpected expected cs cache) ≡ none
    unfolding clear_unexpected
    gets_cleared [] cache h = absurd (ground arith)
    gets_cleared (d ∷ cs) cache h = elim (Bool-cases (d == c)) [
      | inl own ↦
          let same : d ≡ c = ground arith in
          let gone : contains d expected ≡ false =
            subst (λ x. contains x expected ≡ false) (sym same) unexpected in
          rw (gone, clear_unexpected)
            (stays_cleared cs (clear_cluster d cache) (ground (arith, find-clear d cache, own)))
      | inr other ↦ elim (Bool-cases (contains d expected)) [
        | inl kept ↦ rw (kept, clear_unexpected) (gets_cleared cs cache (ground arith))
        | inr gone ↦
            rw (gone, clear_unexpected) (gets_cleared cs (clear_cluster d cache) (ground arith))
      ]
    ]

  -- After _reconcile_cache_with_db a cluster whose name is not that of a server with an agent has no
  -- health entry in the cache.
  pub reconcile_cache_with_db_clears :
      (db : Db) (cache : Cache)
      → contains c (expected_names db) ≡ false
      → get_cluster_status c (reconcile_cache_with_db db cache) ≡ none
  unfolding reconcile_cache_with_db
  reconcile_cache_with_db_clears db cache unexpected =
      elim (Bool-cases (contains c (get_all_cluster_names cache))) [
        | inl known ↦
            gets_cleared (expected_names db) unexpected (get_all_cluster_names cache) cache known
        | inr unseen ↦
            stays_cleared (expected_names db) unexpected (get_all_cluster_names cache) cache
              (named cache.health unseen)
      ]

  clear_unexpected_keeps :
      (expected : List Key)
      → contains c expected ≡ true
      → (k : Kind) (s n : Key) (cs : List Key) (cache : Cache)
      → (get_cluster_status c (clear_unexpected expected cs cache) ≡ get_cluster_status c cache)
        × (get_resource c k s n (clear_unexpected expected cs cache) ≡ get_resource c k s n cache)
  unfolding clear_unexpected
  clear_unexpected_keeps expected h k s n [] cache = (refl, refl)
  clear_unexpected_keeps expected h k s n (d ∷ cs) cache = elim (Bool-cases (contains d expected)) [
    | inl kept ↦ rw (kept, clear_unexpected) (clear_unexpected_keeps expected h k s n cs cache)
    | inr gone ↦
        let ne : d ≢ c =
          λ e. absurd (ground (arith, subst (λ x. contains x expected ≡ false) e gone)) in
        let (a, b) = clear_unexpected_keeps expected h k s n cs (clear_cluster d cache) in
        rw (gone, clear_unexpected)
          (a ∙ ground (arith, find-clear d cache), b ∙ get_resource-clear_ne c k s n d cache ne)
  ]

  -- _reconcile_cache_with_db leaves the health and every resource of a server with an agent alone.
  pub reconcile_cache_with_db_keeps :
      (db : Db) (cache : Cache) (k : Kind) (s n : Key)
      → contains c (expected_names db) ≡ true
      → (get_cluster_status c (reconcile_cache_with_db db cache) ≡ get_cluster_status c cache)
        × (get_resource c k s n (reconcile_cache_with_db db cache) ≡ get_resource c k s n cache)
  unfolding reconcile_cache_with_db
  reconcile_cache_with_db_keeps db cache k s n expected =
      clear_unexpected_keeps (expected_names db) expected k s n (get_all_cluster_names cache) cache
