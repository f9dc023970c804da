-- ===== src/Cache/Resources.antt =====
-- What the cache holds after a report: lookups after updates.
use chutes_miner.Prelude.{
  Bool, Bool-cases, List, [], ap, arith, false, filter, find?, if◌then◌else◌, inl, inr, none, not,
  refl, some, true, ◌&&◌, ◌==◌, ◌∙◌, ◌∷◌, ◌≡◌, ◌≢◌,
}
use chutes_miner.Schema.{Key}
use chutes_miner.Cache.{
  Cache, Kind, Resource, clear_cluster, clear_cluster_resources, deployments, get_resource, hdel,
  hset, is_cleared, job, node, pod, same_field, same_kind, service, set_cluster_resources,
  store_all, update_resource,
}

abbrev pub is_field : (cluster : Key) → Kind → (namespace name : Key) → Resource → Bool
is_field c k namespace name x =
    (x.cluster == c) && (same_kind x.kind k && ((x.namespace == namespace) && (x.name == name)))

pub same_kind_refl : (k : Kind) → same_kind k k ≡ true
same_kind_refl node = refl
same_kind_refl deployments = refl
same_kind_refl service = refl
same_kind_refl pod = refl
same_kind_refl job = refl

same_kind-eq : (k l : Kind) → same_kind k l ≡ true → k ≡ l
same_kind-eq node node h = refl
same_kind-eq deployments deployments h = refl
same_kind-eq service service h = refl
same_kind-eq pod pod h = refl
same_kind-eq job job h = refl
same_kind-eq node deployments h = absurd (ground arith)
same_kind-eq node service h = absurd (ground arith)
same_kind-eq node pod h = absurd (ground arith)
same_kind-eq node job h = absurd (ground arith)
same_kind-eq deployments node h = absurd (ground arith)
same_kind-eq deployments service h = absurd (ground arith)
same_kind-eq deployments pod h = absurd (ground arith)
same_kind-eq deployments job h = absurd (ground arith)
same_kind-eq service node h = absurd (ground arith)
same_kind-eq service deployments h = absurd (ground arith)
same_kind-eq service pod h = absurd (ground arith)
same_kind-eq service job h = absurd (ground arith)
same_kind-eq pod node h = absurd (ground arith)
same_kind-eq pod deployments h = absurd (ground arith)
same_kind-eq pod service h = absurd (ground arith)
same_kind-eq pod job h = absurd (ground arith)
same_kind-eq job node h = absurd (ground arith)
same_kind-eq job deployments h = absurd (ground arith)
same_kind-eq job service h = absurd (ground arith)
same_kind-eq job pod h = absurd (ground arith)

-- Two entries that match a field are of the same field, and one of them decides for the other.
is_field-same :
    (c : Key) (k : Kind) (s n : Key) (x y : Resource)
    → same_field x y ≡ true
    → is_field c k s n x ≡ is_field c k s n y
is_field-same c k s n x y h =
    let kinds : x.kind ≡ y.kind = same_kind-eq x.kind y.kind (ground arith) in
    let kind_test : same_kind x.kind k ≡ same_kind y.kind k = ap (λ z. same_kind z k) kinds in
    let cluster : x.cluster ≡ y.cluster = ground arith in
    let namespace : x.namespace ≡ y.namespace = ground arith in
    let name : x.name ≡ y.name = ground arith in ground (arith, kind_test, cluster, namespace, name)

same_field-of :
    (c : Key) (k : Kind) (s n : Key) (x y : Resource)
    → is_field c k s n x ≡ true
    → is_field c k s n y ≡ true
    → same_field x y ≡ true
same_field-of c k s n x y hx hy =
    let kx : x.kind ≡ k = same_kind-eq x.kind k (ground arith) in
    let ky : y.kind ≡ k = same_kind-eq y.kind k (ground arith) in
    let kinds : same_kind x.kind y.kind ≡ true = rw (kx, ky) (same_kind_refl k) in
    ground (arith, kinds)

module _ (c : Key) (k : Kind) (s n : Key) where
  find-hset :
      (x : Resource) (ys : List Resource)
      → find? (is_field c k s n) (hset x ys)
        ≡ (if is_field c k s n x then some x else find? (is_field c k s n) ys)
  unfolding hset
  find-hset x [] = refl
  find-hset x (y ∷ ys) = elim (Bool-cases (same_field x y)) [
    | inl same ↦ ground (arith, same, is_field-same c k s n x y same)
    | inr other ↦ elim (Bool-cases (is_field c k s n y)) [
      | inl hit ↦ elim (Bool-cases (is_field c k s n x)) [
        | inl hit' ↦ absurd (ground (arith, same_field-of c k s n x y hit' hit))
        | inr miss ↦ rw (other, hit, miss) refl
      ]
      | inr miss ↦ rw (other, miss) (find-hset x ys)
    ]
  ]

  find-hdel :
      (x : Resource) (ys : List Resource)
      → find? (is_field c k s n) (hdel x ys)
        ≡ (if is_field c k s n x then none else find? (is_field c k s n) ys)
  unfolding hdel
  find-hdel x [] = ground arith
  find-hdel x (y ∷ ys) = elim (Bool-cases (same_field x y)) [
    | inl same ↦ ground (arith, same, is_field-same c k s n x y same, find-hdel x ys)
    | inr other ↦ elim (Bool-cases (is_field c k s n y)) [
      | inl hit ↦ elim (Bool-cases (is_field c k s n x)) [
        | inl hit' ↦ absurd (ground (arith, same_field-of c k s n x y hit' hit))
        | inr miss ↦ rw (other, hit, miss) refl
      ]
      | inr miss ↦ rw (other, miss) (find-hdel x ys)
    ]
  ]

  -- After update_resource a lookup finds the event's object in the event's field, or nothing there
  -- if it was a deletion; every other field of every cluster is as before.
  pub get_resource-update :
      (x : Resource) (is_deleted : Bool) (cache : Cache)
      → get_resource c k s n (update_resource x is_deleted cache) ≡ (
          if is_field c k s n x
          then (if is_deleted then none else some x)
          else get_resource c k s n cache)
  unfolding update_resource
  get_resource-update x true cache = find-hdel x cache.resources
  get_resource-update x false cache = find-hset x cache.resources

  -- Lookups after the stores depend on the base only by the same lookup.
  find-store_all :
      (d : Key) (xs ys zs : List Resource)
      → find? (is_field c k s n) ys ≡ find? (is_field c k s n) zs
      → find? (is_field c k s n) (store_all d xs ys) ≡ find? (is_field c k s n) (store_all d xs zs)
  unfolding store_all
  find-store_all d [] ys zs h = h
  find-store_all d (x ∷ xs) ys zs h =
      let x' : Resource = record x { cluster = d } in
      find-store_all d xs (hset x' ys) (hset x' zs)
        (ground (arith, find-hset x' ys, find-hset x' zs, h))

  find-store_all_ne :
      (d : Key) (xs ys : List Resource)
      → d ≢ c
      → find? (is_field c k s n) (store_all d xs ys) ≡ find? (is_field c k s n) ys
  unfolding store_all
  find-store_all_ne d [] ys ne = refl
  find-store_all_ne d (x ∷ xs) ys ne =
      let x' : Resource = record x { cluster = d } in
      let miss : is_field c k s n x' ≡ false = ground arith in
      find-store_all_ne d xs (hset x' ys) ne ∙ ground (arith, find-hset x' ys, miss)

  find-cleared :
      (xs : List Resource)
      → same_kind k node ≡ false
      → find? (is_field c k s n) (filter (λ x. not (is_cleared c false x)) xs) ≡ none
  find-cleared [] h = refl
  find-cleared (x ∷ xs) h = elim (Bool-cases (is_field c k s n x)) [
    | inl hit ↦
        let kinds : x.kind ≡ k = same_kind-eq x.kind k (ground arith) in
        let no_node : same_kind x.kind node ≡ false = rw kinds h in
        ground (arith, no_node, find-cleared xs h)
    | inr miss ↦ ground (arith, miss, find-cleared xs h)
  ]

  find-cleared_ne :
      (d : Key) (nodes : Bool) (xs : List Resource)
      → d ≢ c
      → find? (is_field c k s n) (filter (λ x. not (is_cleared d nodes x)) xs)
        ≡ find? (is_field c k s n) xs
  find-cleared_ne d nodes [] ne = refl
  find-cleared_ne d nodes (x ∷ xs) ne = elim (Bool-cases (x.cluster == d)) [
    | inl own ↦ ground (arith, own, find-cleared_ne d nodes xs ne)
    | inr other ↦ ground (arith, other, find-cleared_ne d nodes xs ne)
  ]

  -- After set_cluster_resources a lookup in the cluster, but for nodes, finds what the report alone
  -- would leave in an empty cache: nothing older survives.
  pub get_resource-set :
      (xs : List Resource) (cache : Cache)
      → same_kind k node ≡ false
      → get_resource c k s n (set_cluster_resources c xs cache)
        ≡ find? (is_field c k s n) (store_all c xs [])
  unfolding set_cluster_resources clear_cluster_resources
  get_resource-set xs cache no_node =
      find-store_all c xs (filter (λ x. not (is_cleared c false x)) cache.resources) []
        (find-cleared cache.resources no_node)

  -- After set_cluster_resources a lookup in another cluster finds what it found before.
  pub get_resource-set_ne :
      (d : Key) (xs : List Resource) (cache : Cache)
      → d ≢ c
      → get_resource c k s n (set_cluster_resources d xs cache) ≡ get_resource c k s n cache
  unfolding set_cluster_resources clear_cluster_resources
  get_resource-set_ne d xs cache ne =
      find-store_all_ne d xs (filter (λ x. not (is_cleared d false x)) cache.resources) ne
      ∙ find-cleared_ne d false cache.resources ne

  -- Clearing a cluster, also with its nodes, does not touch another cluster's resources.
  pub get_resource-clear_ne :
      (d : Key) (cache : Cache)
      → d ≢ c
      → get_resource c k s n (clear_cluster d cache) ≡ get_resource c k s n cache
  unfolding clear_cluster clear_cluster_resources
  get_resource-clear_ne d cache ne = find-cleared_ne d true cache.resources ne
