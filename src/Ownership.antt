-- ===== src/Ownership.antt =====
-- What the database promises about GPUs: an allocator, whose state is a pair of functions. They say
-- which GPUs there are on which server and whose each is, and which deployments there are.
-- Ownership.Refines sets the handlers of Gepetto and the atomic sections of K8sOperator.deploy_chute
-- beside it.
pub mod Rows
pub mod Refines
pub mod Tests
use chutes_miner.Prelude.{
  Bool, List, Option, [], any, contains, if◌then◌else◌, is_key, is_none, none, not, refl, some,
  ◌&&◌, ◌==◌, ◌||◌, ◌∙◌, ◌∷◌, ◌≡◌,
}
use chutes_miner.Schema.{Gpu, Key}
use chutes_miner.Db.{Db, is_deployment}

-- Of a server and a GPU, `owner` says: no such GPU there, a free one, or the deployment that it belongs
-- to. `held` says which deployments have a row.
pub record Ownership : Type 0 where
  pub owner : (server gpu : Key) → Option (Option Key)
  pub held : (deployment_id : Key) → Bool

-- A deployment's GPUs become free, all of them, and the deployment is gone.
abbrev pub freed : Key → Option (Option Key) → Option (Option Key)
freed d none = none
freed d (some o) = some (if is_key o d then none else o)

abbrev pub released : Key → Ownership → Ownership
released d v = record { owner = λ s g. freed d (v.owner s g); held = λ e. v.held e && not (e == d) }

-- Those of the GPUs with these ids that are free get an owner, a new deployment.
abbrev pub given : (is_asked : Bool) → Key → Option (Option Key) → Option (Option Key)
given is_asked d none = none
given is_asked d (some o) = some (if is_asked && is_none o then some d else o)

abbrev pub taken : List Key → Key → Ownership → Ownership
taken ids d v = record {
  owner = λ s g. given (contains g ids) d (v.owner s g);
  held = λ e. v.held e || (d == e);
}

-- A GPU is gone from all servers; a server is gone with its GPUs.
abbrev pub without_gpu : Key → Ownership → Ownership
without_gpu x v = record v { owner = λ s g. if g == x then none else v.owner s g }

abbrev pub without_server : Key → Ownership → Ownership
without_server x v = record v { owner = λ s g. if s == x then none else v.owner s g }

abbrev pub Agree : Ownership → Ownership → Type 0
Agree v w = ((s g : Key) → v.owner s g ≡ w.owner s g) × ((d : Key) → v.held d ≡ w.held d)

pub Agree-refl : (v : Ownership) → Agree v v
Agree-refl v = (λ s g. refl, λ d. refl)

pub Agree-trans : (u v w : Ownership) → Agree u v → Agree v w → Agree u w
Agree-trans u v w h k = (λ s g. h.0 s g ∙ k.0 s g, λ d. h.1 d ∙ k.1 d)

-- A move of the allocator that gives up something.
pub data Loss (v w : Ownership) : Type 0 where
  free : (d : Key) → Agree w (released d v) → Loss v w
  drop_gpu : (g : Key) → Agree w (without_gpu g v) → Loss v w
  drop_server : (s : Key) → Agree w (without_server s v) → Loss v w

-- Any number of them: no GPU gets an owner.
pub data Losses (v : Ownership) : Ownership → Type 0 where
  stay : (w : Ownership) → Agree w v → Losses v w
  next : (w x : Ownership) → Losses v w → Loss w x → Losses v x

-- The table of GPUs as such a function.
unfoldable pub owner_of : List Gpu → (server gpu : Key) → Option (Option Key)
owner_of [] s g = none
owner_of (x ∷ xs) s g =
    let rest = owner_of xs s g in
    if (x.server_id == s) && (x.gpu_id == g) then some x.deployment_id else rest

abbrev pub view : Db → Ownership
view db = record { owner = owner_of db.gpus; held = λ d. any (is_deployment d) db.deployments }

Losses-Agree : (v w x : Ownership) → Losses v w → Agree x w → Losses v x
Losses-Agree v w x (stay _ e) h = stay x (Agree-trans x w v h e)
Losses-Agree v w x (next u _ m (free d e)) h =
    next u x m (free d (Agree-trans x w (released d u) h e))
Losses-Agree v w x (next u _ m (drop_gpu g e)) h =
    next u x m (drop_gpu g (Agree-trans x w (without_gpu g u) h e))
Losses-Agree v w x (next u _ m (drop_server s e)) h =
    next u x m (drop_server s (Agree-trans x w (without_server s u) h e))

-- Runs one after the other.
pub Losses-trans : (v w x : Ownership) → Losses v w → Losses w x → Losses v x
Losses-trans v w x m (stay _ e) = Losses-Agree v w x m e
Losses-trans v w x m (next u _ n move) = next u x (Losses-trans v w u m n) move
