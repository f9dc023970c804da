-- ===== src/Gepetto/Invariant.antt =====
-- The assignment of GPUs to deployments under the handlers of Gepetto.
use chutes_miner.Prelude.{
  All, All-map, Bool, List, Option-cases, [], any, arith, if◌then◌else◌, inl, inr, map, refl, true,
  ◌&&◌, ◌==◌, ◌∙◌, ◌∷◌, ◌≡◌,
}
use chutes_miner.Schema.{Deployment, Gpu}
use chutes_miner.Db.{Db, is_deployment, update_rows}
use chutes_miner.Db.Integrity.{
  IsBacked, backed, delete_chute-IsBacked, delete_deployment-IsBacked, delete_gpu-IsBacked,
  delete_server-IsBacked,
}
use chutes_miner.State.{State}
use chutes_miner.Gepetto.{Outside}
use chutes_miner.Gepetto.Events.{Event, handle, handle_all}
use chutes_miner.Gepetto.Along.{Along, handle-Follows}

-- Updates that leave ids and servers alone leave `backed` alone.
any-map_same :
    (p : Deployment → Bool) (f : Deployment → Deployment)
    → ((d : Deployment) → p (f d) ≡ p d)
    → (rows : List Deployment) → any p (map f rows) ≡ any p rows
any-map_same p f h [] = refl
any-map_same p f h (d ∷ rows) = ground (arith, h d, any-map_same p f h rows)

backed-map :
    (f : Deployment → Deployment)
    → ((d : Deployment) → (f d).deployment_id ≡ d.deployment_id)
    → ((d : Deployment) → (f d).server_id ≡ d.server_id)
    → (rows : List Deployment) (g : Gpu) → backed (map f rows) g ≡ backed rows g
backed-map f ids servers rows g = elim (Option-cases g.deployment_id) [
  | inl free ↦ ground arith
  | inr (d, owner) ↦
      let p : Deployment → Bool = λ row. is_deployment d row && (row.server_id == g.server_id) in
      ground (arith, any-map_same p f (λ row. ground (arith, ids row, servers row)) rows)
]

update_rows-IsBacked :
    (p : Deployment → Bool) (f : Deployment → Deployment) (db : Db)
    → ((d : Deployment) → (f d).deployment_id ≡ d.deployment_id)
    → ((d : Deployment) → (f d).server_id ≡ d.server_id)
    → IsBacked db
    → IsBacked (update_rows p f db)
update_rows-IsBacked p f db ids servers h =
    All-map db.gpus
      (λ g e.
        backed-map (λ d. if p d then f d else d) (λ d. ground (arith, ids d))
          (λ d. ground (arith, servers d)) db.deployments g
        ∙ e)
      h

gpu_verified-IsBacked :
    (rows : List Deployment) (p : Gpu → Bool) (gs : List Gpu)
    → All (λ g. backed rows g ≡ true) gs
    → All
        (λ g. backed rows g ≡ true)
        (map (λ (g : Gpu). if p g then record g { verified = true } else g) gs)
gpu_verified-IsBacked rows p [] h = tt
gpu_verified-IsBacked rows p (g ∷ gs) h = (ground (arith, h.0), gpu_verified-IsBacked rows p gs h.1)

-- The integrity is kept.
abbrev Keeps : Db → Db → Type 0
Keeps a b = IsBacked a → IsBacked b

Keeps-Along : Along Keeps
Keeps-Along = record {
  staying = λ db h. h;
  joining = λ a b c f g h. g (f h);
  deleting_deployment = delete_deployment-IsBacked;
  deleting_gpu = delete_gpu-IsBacked;
  deleting_server = delete_server-IsBacked;
  deleting_chute = delete_chute-IsBacked;
  updating_rows = update_rows-IsBacked;
  verifying_gpus = λ p db. gpu_verified-IsBacked db.deployments p db.gpus;
}

module _ (out : Outside) where
  -- After any sequence of these events, whatever the other systems answer and whichever handlers
  -- raise, a GPU that is assigned is assigned to a deployment that has a row, on the GPU's server.
  -- (This holds of the database at the start.)
  pub handle_all-IsBacked :
      (es : List Event) (s : State) → IsBacked s.db → IsBacked (handle_all out es s).db
  unfolding handle_all
  handle_all-IsBacked [] s h = h
  handle_all-IsBacked (e ∷ es) s h =
      handle_all-IsBacked es (handle out e s).1 (handle-Follows out Keeps Keeps-Along e s h)
