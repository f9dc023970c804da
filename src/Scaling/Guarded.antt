-- ===== src/Scaling/Guarded.antt =====
-- The order of what the removal of deployments asks of other systems.
use chutes_miner.Prelude.{List, Option, [], none, some, ◌∷◌, ◌≡◌}
use chutes_miner.Schema.{Key}
use chutes_miner.State.{Effect, State, k8s_undeploy, preflight}
use chutes_miner.Action.{Action}
use chutes_miner.Gepetto.{Outside}

-- The deployment that the preflight was asked about last.
abbrev pub last_preflight : List Effect → Option Key
last_preflight [] = none
last_preflight (preflight d ∷ es) = some d
last_preflight (_ ∷ es) = last_preflight es

-- Whenever kubernetes was asked to remove a deployment, the preflight before was about this one.
abbrev pub IsGuarded : List Effect → Type 0
IsGuarded [] = Unit
IsGuarded (k8s_undeploy d ∷ es) = (last_preflight es ≡ some d) × IsGuarded es
IsGuarded (_ ∷ es) = IsGuarded es

module _ (out : Outside) where
  -- Before kubernetes is asked, only the preflight and the purge of the instance come.
  IsAsked : Key → List Effect → Type 0
  IsAsked d log = (last_preflight log ≡ some d) × IsGuarded log
