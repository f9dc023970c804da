-- ===== src/Monitor/Freshness.antt =====
-- What holds of the clusters' health after a round of HealthChecker.
use mathlib.Core.Path.{subst}
use chutes_miner.Prelude.{
  Bool-cases, List, Option, [], ap, arith, count, false, find?, if◌then◌else◌, inl, inr, ltb, none,
  refl, some, sym, true, ℕ, ◌&&◌, ◌*◌, ◌+◌, ◌==◌, ◌∙◌, ◌∷◌, ◌≡◌, ◌≤◌, ◌⊎◌,
}
use chutes_miner.Schema.{Key}
use chutes_miner.Cache.{
  Cache, ClusterStatus, Health, get_cluster_status, is_healthy, marked, set_status,
  update_cluster_status,
}
use chutes_miner.Monitor.{
  Verdict, act_on, check_all_clusters, check_cluster_health, check_each, heartbeat_verdict,
  mark_unhealthy, no_timestamp, stale, unhealthy_status, well,
}

-- A healthy cluster has a heartbeat that is at most two intervals old.
abbrev pub IsFresh : (now interval : ℕ) → ClusterStatus → Type 0
IsFresh now interval status =
    (is_healthy status.state ≡ false)
    ⊎ ((t : ℕ) × (status.last_heartbeat ≡ some t) × (now ≤ t + interval * 2))

pub find-set_status :
    (c d : Key) (status : ClusterStatus) (hs : List Health)
    → find? (λ h. h.cluster_name == d) (set_status c status hs) ≡ (
        if c == d
        then some (record { cluster_name = c; status = status })
        else find? (λ h. h.cluster_name == d) hs)
unfolding set_status
find-set_status c d status [] = refl
find-set_status c d status (h ∷ hs) = elim (Bool-cases (h.cluster_name == c)) [
  | inl own ↦ ground (arith, own)
  | inr other ↦ ground (arith, other, find-set_status c d status hs)
]

module _ (now interval : ℕ) (reason : Verdict → Key) (c : Key) where
  pub find-mark :
      (r : Key) (h : Health) (cache : Cache)
      → get_cluster_status c (mark_unhealthy r h cache) ≡ (
          if is_healthy h.status.state && (h.cluster_name == c)
          then some (record { cluster_name = h.cluster_name; status = unhealthy_status r h.status })
          else get_cluster_status c cache)
  unfolding mark_unhealthy update_cluster_status
  find-mark r h cache = elim (Bool-cases (is_healthy h.status.state)) [
    | inl up ↦ rw up (find-set_status h.cluster_name c (unhealthy_status r h.status) cache.health)
    | inr down ↦ rw down refl
  ]

  verdict-IsFresh :
      (status : ClusterStatus) (o : Option ℕ)
      → status.last_heartbeat ≡ o
      → heartbeat_verdict now interval o ≡ well
      → IsFresh now interval status
  unfolding heartbeat_verdict
  verdict-IsFresh status none e h = absurd (ground arith)
  verdict-IsFresh status (some t) e h = elim (Bool-cases (ltb (t + interval * 2) now)) [
    | inl late ↦ absurd (ground arith)
    | inr fine ↦ inr (t, e, ground arith)
  ]

  -- The cluster is as it should be, or its status is still to be checked.
  Pending : List Health → Cache → Type 0
  Pending hs cache =
      (x : Health)
      → get_cluster_status c cache ≡ some x
      → IsFresh now interval x.status ⊎ (find? (λ h. h.cluster_name == c) hs ≡ some x)

  head_or_tail :
      (h : Health) (hs : List Health) (x : Health)
      → ((h.cluster_name == c) ≡ true → IsFresh now interval h.status)
      → IsFresh now interval x.status ⊎ (find? (λ h. h.cluster_name == c) (h ∷ hs) ≡ some x)
      → IsFresh now interval x.status ⊎ (find? (λ h. h.cluster_name == c) hs ≡ some x)
  head_or_tail h hs x own (inl fresh) = inl fresh
  head_or_tail h hs x own (inr found) = elim (Bool-cases (h.cluster_name == c)) [
    | inl same ↦
        let e : h ≡ x = ground (arith, found, same) in
        inl (subst (λ y. IsFresh now interval y.status) e (own same))
    | inr other ↦ inr (ground (arith, found, other))
  ]

  mark-Pending :
      (r : Key) (h : Health) (hs : List Health) (cache : Cache)
      → Pending (h ∷ hs) cache
      → Pending hs (mark_unhealthy r h cache)
  unfolding Pending
  mark-Pending r h hs cache pending x e =
      elim (Bool-cases (is_healthy h.status.state && (h.cluster_name == c))) [
        | inl marked ↦
            let new : Health = record {
              cluster_name = h.cluster_name;
              status = unhealthy_status r h.status;
            } in
            let same : new ≡ x = ground (arith, find-mark r h cache, e, marked) in
            inl (subst (λ y. IsFresh now interval y.status) same (inl refl))
        | inr kept ↦
            let e' : get_cluster_status c cache ≡ some x =
              ground (arith, find-mark r h cache, e, kept) in
            head_or_tail h hs x (λ same. inl (ground (arith, kept, same))) (pending x e')
      ]

  act_on-Pending :
      (v : Verdict) (h : Health) (hs : List Health) (cache : Cache)
      → heartbeat_verdict now interval h.status.last_heartbeat ≡ v
      → Pending (h ∷ hs) cache
      → Pending hs (act_on reason v h cache)
  unfolding act_on Pending
  act_on-Pending well h hs cache e pending = λ x found.
      head_or_tail h hs x (λ same. verdict-IsFresh h.status h.status.last_heartbeat refl e)
        (pending x found)
  act_on-Pending no_timestamp h hs cache e pending =
      mark-Pending (reason no_timestamp) h hs cache pending
  act_on-Pending stale h hs cache e pending = mark-Pending (reason stale) h hs cache pending

  check_each-IsFresh :
      (hs : List Health) (cache : Cache)
      → Pending hs cache
      → (x : Health) → get_cluster_status c (check_each now interval reason hs cache) ≡ some x
      → IsFresh now interval x.status
  unfolding check_each check_cluster_health Pending
  check_each-IsFresh [] cache pending x e = elim (pending x e) [
    | inl fresh ↦ fresh
    | inr found ↦ absurd (ground arith)
  ]
  check_each-IsFresh (h ∷ hs) cache pending x e =
      check_each-IsFresh hs (check_cluster_health now interval reason h cache)
        (act_on-Pending (heartbeat_verdict now interval h.status.last_heartbeat) h hs cache refl
          pending)
        x e

  -- After _check_all_clusters a cluster that counts as healthy, active or starting, has a heartbeat
  -- that is at most two intervals old.
  pub check_all_clusters-IsFresh :
      (cache : Cache) (x : Health)
      → get_cluster_status c (check_all_clusters now interval reason cache) ≡ some x
      → IsFresh now interval x.status
  unfolding check_all_clusters Pending
  check_all_clusters-IsFresh cache x e =
      check_each-IsFresh cache.health cache (λ y found. inr found) x e

  act_on_ne :
      (v : Verdict) (h : Health) (cache : Cache)
      → (h.cluster_name == c) ≡ false
      → get_cluster_status c (act_on reason v h cache) ≡ get_cluster_status c cache
  unfolding act_on
  act_on_ne well h cache other = refl
  act_on_ne no_timestamp h cache other =
      ground (arith, find-mark (reason no_timestamp) h cache, other)
  act_on_ne stale h cache other = ground (arith, find-mark (reason stale) h cache, other)

  check_each_none :
      (hs : List Health) (cache : Cache)
      → count (λ h. h.cluster_name == c) hs ≡ 0
      → get_cluster_status c (check_each now interval reason hs cache) ≡ get_cluster_status c cache
  unfolding check_each check_cluster_health
  check_each_none [] cache n = refl
  check_each_none (h ∷ hs) cache n =
      let other : (h.cluster_name == c) ≡ false = ground arith in
      let v = heartbeat_verdict now interval h.status.last_heartbeat in
      check_each_none hs (act_on reason v h cache) (ground arith) ∙ act_on_ne v h cache other

  check_each_keeps :
      (hs : List Health) (cache : Cache) (x : Health)
      → count (λ h. h.cluster_name == c) hs ≤ 1
      → find? (λ h. h.cluster_name == c) hs ≡ some x
      → heartbeat_verdict now interval x.status.last_heartbeat ≡ well
      → get_cluster_status c (check_each now interval reason hs cache) ≡ get_cluster_status c cache
  unfolding check_each check_cluster_health act_on
  check_each_keeps [] cache x n e fine = refl
  check_each_keeps (h ∷ hs) cache x n e fine = elim (Bool-cases (h.cluster_name == c)) [
    | inl own ↦
        let same : h ≡ x = ground (arith, e, own) in
        let fine' : heartbeat_verdict now interval h.status.last_heartbeat ≡ well =
          subst (λ y. heartbeat_verdict now interval y.status.last_heartbeat ≡ well) (sym same)
            fine in
        let v = heartbeat_verdict now interval h.status.last_heartbeat in
        let step : act_on reason v h cache ≡ cache = ap (λ w. act_on reason w h cache) fine' in
        check_each_none hs (act_on reason v h cache) (ground arith) ∙ ap (get_cluster_status c) step
    | inr other ↦
        let v = heartbeat_verdict now interval h.status.last_heartbeat in
        check_each_keeps hs (act_on reason v h cache) x (ground arith) (ground (arith, e, other))
          fine
        ∙ act_on_ne v h cache other
  ]

  -- _check_all_clusters does not touch a cluster whose heartbeat is recent. (Cluster names are unique.)
  pub check_all_clusters_keeps :
      (cache : Cache) (x : Health)
      → count (λ h. h.cluster_name == c) cache.health ≤ 1
      → get_cluster_status c cache ≡ some x
      → heartbeat_verdict now interval x.status.last_heartbeat ≡ well
      → get_cluster_status c (check_all_clusters now interval reason cache) ≡ some x
  unfolding check_all_clusters
  check_all_clusters_keeps cache x n e fine = check_each_keeps cache.health cache x n e fine ∙ e
