-- ===== src/Upkeep/Tests.antt =====
-- chute_updated on the sample database, and the theorems about it at inputs that meet them.
use chutes_miner.Prelude.{Option, [], refl, some, true, ◌∷◌, ◌≡◌}
use chutes_miner.Schema.{Key}
use chutes_miner.Db.{delete_deployment, find_chute, release, release_all}
use chutes_miner.State.{State}
use chutes_miner.Gepetto.{forget, remove_from_k8s, undeploy}
use chutes_miner.Launch.{accepted, get_launch_token, token_for}
use chutes_miner.Upkeep.{
  RemoteChute, chute_fetched, chute_updated, create_code_config_map, refreshed, store_chute,
  update_chutes, upsert_chute,
}
use chutes_miner.Upkeep.Chutes.{chute_updated-IsStored}
use chutes_miner.Sample.{big_chute, sample, start}
use chutes_miner.Systems.{controller}
use chutes_miner.Upkeep.Rows.{IsStored, upsert_chute_idem}

-- Version 2 of a chute, under another name.
abbrev pub remote : RemoteChute
remote = record {
  name = 8;
  image = 3;
  code = 4;
  filename = 1;
  ref_str = 1;
  version = 2;
  supported_gpus = 7 ∷ [];
  gpu_count = 2;
  chutes_version = some 4;
  preemptible = true;
  tee = true;
}

abbrev pub fetch : State → Key → Key → Option RemoteChute
fetch s chute_id version = some remote

program : Unit {0}
unfolding get_launch_token token_for accepted undeploy forget remove_from_k8s delete_deployment
    release_all release chute_updated create_code_config_map chute_fetched store_chute upsert_chute
    update_chutes
program = tt

-- chute_updated leaves a known chute its name.
keeps_name :
    find_chute 1 (chute_updated controller fetch 1 2 900 start).1.db
    ≡ some (record (refreshed remote big_chute) { name = 1 })
unfolding program
keeps_name = refl

chute_updated-IsStored_example :
    IsStored 1 900 remote sample (chute_updated controller fetch 1 2 900 start).1.db
chute_updated-IsStored_example =
    chute_updated-IsStored controller fetch 1 2 900 remote start refl refl

upserts_again :
    upsert_chute 3 900 remote (upsert_chute 3 900 remote sample) ≡ upsert_chute 3 900 remote sample
upserts_again = upsert_chute_idem 3 remote 900 sample
