-- ===== src/Ownership/Tests.antt =====
-- The allocator's view of the sample, and of turns on it.
use chutes_miner.Prelude.{List, [], false, none, refl, some, true, ◌∷◌, ◌≡◌}
use chutes_miner.Schema.{Deployment}
use chutes_miner.Db.{delete_deployment, delete_gpu, release, release_all}
use chutes_miner.Sample.{first_server, sample, small_chute, start}
use chutes_miner.Systems.{obliging}
use chutes_miner.Operator.{claim, clean_up, clear_deployment, stub_deployment, track_deployment}
use chutes_miner.Gepetto.{forget, gpu_deleted, gpu_row_deleted, remove_from_k8s, undeploy}
use chutes_miner.Gepetto.Events.{gpu_deleted_event, handle}
use chutes_miner.Ownership.{owner_of, view}
use chutes_miner.Ownership.Refines.{Plays, Turn, cleanup, event, track, turn, turns, turns-Plays}

program : Unit {0}
unfolding owner_of turn turns handle gpu_deleted gpu_row_deleted undeploy forget remove_from_k8s
    delete_gpu delete_deployment release release_all track_deployment claim clean_up
    clear_deployment
program = tt

sees :
    ((view sample).owner 20 201 ≡ some (some 52))
    × ((view sample).owner 10 101 ≡ some none)
    × ((view sample).owner 10 201 ≡ none)
unfolding program
sees = (refl, refl, refl)

-- GPU 101 is given to a new deployment, GPU 201 leaves while 52 owns it, and the new one fails.
abbrev new_row : Deployment
new_row = stub_deployment 99 small_chute first_server none none 100

abbrev some_turns : List Turn
some_turns =
    track small_chute (101 ∷ []) new_row
    ∷ event (gpu_deleted_event 201)
    ∷ cleanup 99 true false
    ∷ []

takes_and_frees :
    ((view (turn obliging (track small_chute (101 ∷ []) new_row) start).db).owner 10 101
      ≡ some (some 99))
    × ((view (turns obliging some_turns start).db).owner 10 101 ≡ some none)
    × ((view (turns obliging some_turns start).db).owner 20 201 ≡ none)
unfolding program
takes_and_frees = (refl, refl, refl)

turns-Plays_example : Plays some_turns (view sample) (view (turns obliging some_turns start).db)
turns-Plays_example = turns-Plays obliging some_turns start
