-- ===== src/Rolling/Tests.antt =====
-- A rolling update on the sample database without a launch token.
use chutes_miner.Prelude.{[], arith, none, refl, some, true, ◌∷◌, ◌≡◌, ◌≢◌}
use chutes_miner.Schema.{Chute, Key}
use chutes_miner.Db.{delete_deployment, release, release_all}
use chutes_miner.Db.Release.{IsGone, IsKept}
use chutes_miner.State.{State}
use chutes_miner.Action.{raise, return}
use chutes_miner.Gepetto.{forget, remove_from_k8s, undeploy}
use chutes_miner.Launch.{accepted, get_launch_token, token_for}
use chutes_miner.Upkeep.Tests.{fetch}
use chutes_miner.Rolling.{rolling_update}
use chutes_miner.Rolling.Loss.{rolling_update-IsGone}
use chutes_miner.Sample.{deployment, sample, small_chute, start}
use chutes_miner.Systems.{without_token}

program : Unit {0}
unfolding get_launch_token token_for accepted undeploy forget remove_from_k8s delete_deployment
    release_all release
program = tt

abbrev new_small : Chute
new_small = record small_chute { chutes_version = some 4 }

abbrev updated : State
updated = record start { db = record sample { chutes = new_small ∷ [] } }

refuses : (s : State) → (get_launch_token without_token new_small none s).0 ≡ raise
unfolding program
refuses s = refl

undeploys : (undeploy without_token.out 51 none updated).0 ≡ return tt
unfolding program
undeploys = refl

rolling_update-IsGone_example :
    let m = rolling_update without_token fetch 2 1 900 61 updated in
    (m.0 ≡ return tt) × IsGone 51 m.1.db × ((e : Key) → 51 ≢ e → IsKept e updated.db m.1.db)
rolling_update-IsGone_example =
    rolling_update-IsGone without_token fetch new_small refuses 2 1 900 61 10 7 true
      (deployment 51 61 2 10) updated refl refl refl refl (λ absent. ground arith) refl undeploys
