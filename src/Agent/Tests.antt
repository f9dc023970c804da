-- ===== src/Agent/Tests.antt =====
-- Runs of an agent, and the theorems about it at inputs that meet them.
use chutes_miner.Prelude.{
  Bool, List, Option, [], if◌then◌else◌, none, refl, some, true, ℕ, ◌==◌, ◌∷◌, ◌≡◌, ◌⊎◌,
}
use chutes_miner.Schema.{Key}
use chutes_miner.Cache.{Resource, get_cluster_status, get_resource, pod, starting_status}
use chutes_miner.Cache.Tests.{two_clusters}
use chutes_miner.Monitor.Tests.{agent_db}
use chutes_miner.Control.{Answer, Plane, responded, send_heartbeat, timed_out}
use chutes_miner.Agent.{
  auto_start, beat, recovery_round, register_if_unknown, register_own_cluster, replace_on_conflict,
  restart_attempt, send_all_resources, start, try_connect,
}
use chutes_miner.Agent.Lifecycle.{attempts, attempts_end, boot}
use chutes_miner.Agent.Invariant.{IsTidy, Reachable-IsTidy}
use chutes_miner.Agent.Contact.{collected, monitor, restart_attempt_succeeds, try_connect_succeeds}
use chutes_miner.Agent.Events.{
  api_error, deleted, deletion_waits, found, handle_resource_event,
  monitor_resource_actual_deletion, read_failure,
}
use chutes_miner.AgentState.{
  Agent, after_beat, after_connecting, after_restart, degraded, fresh, is_failing, is_running,
  restart_monitoring, running, start_monitoring_tasks,
}
use chutes_miner.Agent.Watch.{
  after_stream, after_watch_round, stream_cancelled, stream_failed, version_gone, watch_resources,
  watch_round,
}

program : Unit {0}
unfolding auto_start try_connect after_connecting restart_monitoring recovery_round after_beat beat
    register_own_cluster send_all_resources replace_on_conflict register_if_unknown after_restart
    restart_attempt start
program = tt

-- A control plane that answers each request with the next number of a list, and times out at its end.
abbrev next_answer : List ℕ → Answer × List ℕ
next_answer [] = (timed_out, [])
next_answer (code ∷ codes) = (responded code, codes)

abbrev scripted : Plane (List ℕ)
scripted = record {
  post = λ url xs. next_answer;
  put = λ url xs. next_answer;
  remove = λ url. next_answer;
  patch = λ url x is_deleted. next_answer;
  heartbeat = λ url timestamp. next_answer;
}

abbrev any_url : Key → Bool
any_url url = true

abbrev nothing_there : List ℕ → Option (List Resource) × List ℕ
nothing_there codes = (some [], codes)

-- A persisted URL whose control plane fails is retried, more slowly each time, until it answers.
abbrev booted : Agent × List ℕ
booted = auto_start scripted any_url nothing_there (fresh (some 7), 500 ∷ 502 ∷ 410 ∷ 200 ∷ [])

boots_degraded : (booted.0.state ≡ degraded) × (booted.0.recovery ≡ some 5)
unfolding program
boots_degraded = (refl, refl)

slows_down : (recovery_round scripted any_url nothing_there 5 booted).0.recovery ≡ some 10
unfolding program
slows_down = refl

recovers :
    let x =
      recovery_round scripted any_url nothing_there 10
        (recovery_round scripted any_url nothing_there 5 booted) in
    (x.0.state ≡ running) × (x.0.recovery ≡ none) × (x.0.watchers ≡ 1)
unfolding program
recovers = (refl, refl, refl)

-- /start replaces a cluster that is already registered.
replaces : (start scripted any_url nothing_there 7 (fresh none, 409 ∷ 200 ∷ 200 ∷ [])).0 ≡ true
unfolding program
replaces = refl

abbrev running_agent : Agent
running_agent = start_monitoring_tasks (record (fresh (some 7)) { client = some 7 })

-- A refused heartbeat schedules a restart of ten attempts.
schedules : (beat scripted any_url nothing_there 100 (running_agent, 409 ∷ [])).0.restart ≡ some 10
unfolding program
schedules = refl

Reachable-IsTidy_example :
    IsTidy (auto_start scripted any_url nothing_there (fresh (some 7), 500 ∷ [])).0
Reachable-IsTidy_example =
    Reachable-IsTidy scripted any_url nothing_there
      (auto_start scripted any_url nothing_there (fresh (some 7), 500 ∷ []))
      (boot (some 7) (500 ∷ []))

attempts_end_example :
    let (a', w') =
      attempts scripted any_url nothing_there 2
        (record running_agent { restart = some 2 }, 500 ∷ 404 ∷ []) in
    (a'.restart ≡ none) × ((is_running a'.state ≡ true) ⊎ (is_failing a'.state ≡ true))
attempts_end_example =
    attempts_end scripted any_url nothing_there 1 (record running_agent { restart = some 2 })
      (500 ∷ 404 ∷ []) refl

connects_anew :
    let (settled, (a', cache')) =
      try_connect
        (monitor 1020 agent_db 1)
        any_url
        (collected [])
        7
        true
        (fresh none, two_clusters) in
    (settled ≡ true)
    × (a'.state ≡ running)
    × (get_cluster_status 1 cache'
        ≡ some (record { cluster_name = 1; status = starting_status 1020 }))
    × ((send_heartbeat (monitor 1050 agent_db 1) 7 1050 cache').0 ≡ none)
connects_anew =
    try_connect_succeeds 1020 agent_db 1 any_url [] 7 true (fresh none) two_clusters 1050 refl refl

restart_attempt_succeeds_example :
    let (a', cache') =
      restart_attempt
        (monitor 1020 agent_db 1)
        any_url
        (collected [])
        (running_agent, two_clusters) in
    (a'.state ≡ running)
    × (a'.restart ≡ none)
    × (get_cluster_status 1 cache'
        ≡ some (record { cluster_name = 1; status = starting_status 1020 }))
    × ((send_heartbeat (monitor 1050 agent_db 1) 7 1050 cache').0 ≡ none)
restart_attempt_succeeds_example =
    restart_attempt_succeeds 1020 agent_db 1 any_url [] 7 running_agent two_clusters 1050 refl refl

abbrev leaving : Resource
leaving = record { cluster = 0; kind = pod; namespace = 30; name = 43; object = 44 }

deletion_waits_example :
    let m = monitor 1020 agent_db 1 in
    let (is_awaited, held) = handle_resource_event m 7 leaving deleted true found two_clusters in
    let (is_over, after) =
      monitor_resource_actual_deletion m 7 leaving true
        (found ∷ read_failure ∷ api_error 404 ∷ [])
        held in
    (is_awaited ≡ true) × (is_over ≡ true) × (get_resource 1 pod 30 43 after ≡ none)
deletion_waits_example =
    deletion_waits 1020 agent_db 1 7 leaving (found ∷ read_failure ∷ api_error 404 ∷ [])
      two_clusters

watching : Unit {0}
unfolding watch_resources after_watch_round watch_round after_stream restart_monitoring
watching = tt

-- A version that is too old is read anew, and a stream that fails for good schedules a restart.
rereads_version :
    (watch_resources
      ((some 5, λ v. version_gone)
        ∷ (some 9, λ v. if v == 9 then stream_failed else stream_cancelled)
        ∷ [])
      none
      running_agent).restart
    ≡ some 10
unfolding watching
rereads_version = refl

ends_quietly :
    watch_resources
      ((none, λ v. stream_failed) ∷ (some 5, λ v. stream_cancelled) ∷ [])
      none
      running_agent
    ≡ running_agent
unfolding watching
ends_quietly = refl
