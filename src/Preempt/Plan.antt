-- ===== src/Preempt/Plan.antt =====
-- What the plan of preempting_deploy promises of the server and of the deployments on it.
use mathlib.Core.Path.{subst}
use chutes_miner.Prelude.{
  All, All-map, Bool, Bool-cases, List, Option-cases, [], arith, count, count-filter, count-sort_by,
  count_le, filter, inl, inr, leb, map, not, refl, some, sort_by, sum, true, ℕ, ◌&&◌, ◌+◌, ◌==◌,
  ◌∷◌, ◌≡◌, ◌≤◌,
}
use chutes_miner.Schema.{Deployment, Key, Server}
use chutes_miner.Db.{Db, owned, server_deployments}
use chutes_miner.Preempt.{Bid, cheaper, free_gpus, global_count, pick, plan, plan_server}
use chutes_miner.Preempt.Safety.{
  IsPicked, IsPreemptible, IsTight, KeepsOne, is_victim-IsPreemptible, pick-IsPicked,
}

-- What the loop over the servers settles on.
pub record Planned (b : Bid) (db : Db) (servers : List Server) (p : Server × List Deployment)
    : Type 0 where
  pub candidate : (q : Server → Bool) → All (λ s. q s ≡ true) servers → q p.0 ≡ true
  pub preemptible : All (λ d. IsPreemptible b d) p.1
  pub own_server : All (λ d. d.server_id ≡ p.0.server_id) p.1
  pub from_db : (q : Deployment → Bool) → count q p.1 ≤ count q db.deployments
  pub keeps_one :
      (c : Key) → KeepsOne b (λ d. owned d.deployment_id db) (global_count b.instances) p.1 c
  pub enough :
      b.chute.gpu_count ≤ free_gpus p.0.server_id db + sum (map (λ d. owned d.deployment_id db) p.1)
  pub tight : IsTight b (λ d. owned d.deployment_id db) (free_gpus p.0.server_id db) p.1

module _ (q : Deployment → Bool) where
  -- Nothing of the list fails a test.
  nothing_fails : (xs : List Deployment) → count (λ d. not (q d)) xs ≡ 0 → All (λ d. q d ≡ true) xs
  nothing_fails [] h = tt
  nothing_fails (x ∷ xs) h = (ground arith, nothing_fails xs (ground arith))

  none_fails : (xs : List Deployment) → count (λ d. not (q d)) (filter q xs) ≡ 0
  none_fails [] = refl
  none_fails (x ∷ xs) = ground (arith, none_fails xs)

-- The deployments of a server in the order of the loop are rows of the table.
ordered-from_db :
    (b : Bid) (q : Deployment → Bool) (s : Key) (ds : List Deployment)
    → count q (sort_by (cheaper b) (server_deployments s ds)) ≤ count q ds
ordered-from_db b q s ds =
    let all : count q (sort_by (cheaper b) (server_deployments s ds))
        ≡ count (λ d. (d.server_id == s) && q d) ds =
      rw
        (
          count-sort_by (cheaper b) q (server_deployments s ds),
          count-filter q (λ d. d.server_id == s) ds,
        )
        refl in
    omega (arith, all, count_le (λ d. (d.server_id == s) && q d) q (λ d h. ground arith) ds)

-- They are the server's own.
ordered-own :
    (b : Bid) (s : Key) (ds : List Deployment)
    → count (λ d. not (d.server_id == s)) (sort_by (cheaper b) (server_deployments s ds)) ≡ 0
ordered-own b s ds =
    rw (count-sort_by (cheaper b) (λ d. not (d.server_id == s)) (server_deployments s ds))
      (none_fails (λ d. d.server_id == s) ds)

-- One round of the loop over the servers gives what is promised.
plan_server-Planned :
    (b : Bid) (db : Db) (server : Server) (victims : List Deployment)
    → plan_server b db server ≡ some victims
    → Planned b db (server ∷ []) (server, victims)
unfolding plan_server
plan_server-Planned b db server victims e =
    elim (Bool-cases (leb b.chute.gpu_count (free_gpus server.server_id db))) [
      | inl enough ↦
          let none_taken : [] ≡ victims = ground arith in
          subst (λ v. Planned b db (server ∷ []) (server, v)) none_taken
            (record {
              candidate = λ q all. all.0;
              preemptible = tt;
              own_server = tt;
              from_db = λ q. ground arith;
              keeps_one = λ c. inl refl;
              enough = ground arith;
              tight = tt;
            })
      | inr short ↦
          let gpus_of : Deployment → ℕ = λ d. owned d.deployment_id db in
          let order = sort_by (cheaper b) (server_deployments server.server_id db.deployments) in
          let picks : pick b gpus_of (global_count b.instances) (free_gpus server.server_id db)
                order
              ≡ some victims =
            ground arith in
          let h : IsPicked b gpus_of (global_count b.instances) (free_gpus server.server_id db)
              order (some victims) =
            subst
              (λ o.
                IsPicked b gpus_of (global_count b.instances) (free_gpus server.server_id db) order
                  o)
              picks
              (pick-IsPicked b gpus_of order (global_count b.instances)
                (free_gpus server.server_id db)) in
          record {
            candidate = λ q h'. h'.0;
            preemptible = All-map victims (is_victim-IsPreemptible b) h.0;
            own_server =
                All-map victims (λ d t. ground arith)
                  (nothing_fails (λ d. d.server_id == server.server_id) victims
                    (omega (
                      arith,
                      h.4 (λ d. not (d.server_id == server.server_id)),
                      ordered-own b server.server_id db.deployments,
                    )));
            from_db =
                λ q. omega (arith, h.4 q, ordered-from_db b q server.server_id db.deployments);
            keeps_one = h.1;
            enough = h.2;
            tight = h.3 (ground arith);
          }
    ]

widen :
    (b : Bid) (db : Db) (server : Server) (servers : List Server) (p : Server × List Deployment)
    (narrow : List Server)
    → ((q : Server → Bool)
        → All (λ s. q s ≡ true) (server ∷ servers)
        → All (λ s. q s ≡ true) narrow)
    → Planned b db narrow p
    → Planned b db (server ∷ servers) p
widen b db server servers p narrow sub h = record {
  candidate = λ q all. h.candidate q (sub q all);
  preemptible = h.preemptible;
  own_server = h.own_server;
  from_db = h.from_db;
  keeps_one = h.keeps_one;
  enough = h.enough;
  tight = h.tight;
}

-- When the loop over the servers settles on one, every deployment it gives up is a row of the
-- table on that server, is old, preemptible, of another chute, has no job and has a lower multiplier
-- than the chute; every chute keeps an instance among the global ones if it loses one at all; the
-- GPUs then suffice; and they did not before the last deployment was added.
pub plan-Planned :
    (b : Bid) (db : Db) (servers : List Server) (p : Server × List Deployment)
    → plan b db servers ≡ some p
    → Planned b db servers p
unfolding plan
plan-Planned b db [] p e = absurd (ground arith)
plan-Planned b db (server ∷ servers) p e = elim (Option-cases (plan_server b db server)) [
  | inl absent ↦
      widen b db server servers p servers (λ q all. all.1)
        (plan-Planned b db servers p (ground arith))
  | inr (victims, found) ↦
      let same : (server, victims) ≡ p = ground arith in
      subst (λ p'. Planned b db (server ∷ servers) p') same
        (widen b db server servers (server, victims) (server ∷ []) (λ q all. (all.0, tt))
          (plan_server-Planned b db server victims found))
]
