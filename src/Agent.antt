-- ===== src/Agent.antt =====
-- The agent that runs in each cluster: the lifecycle of ResourceMonitor of
-- src/chutes-agent/chutes_agent/monitor.py, and the endpoints of
-- src/chutes-agent/chutes_agent/api/monitor/router.py.
--
-- The transitions that the code runs under its lock are one step each, and so is one attempt of a
-- restart. The volume with the URL's file can be written and read, and the texts of the messages
-- are left out.
pub mod Invariant
pub mod Lifecycle
pub mod Contact
pub mod Events
pub mod Watch
pub mod Tests
use chutes_miner.Prelude.{Bool, List, Option, false, if◌then◌else◌, min, none, some, true, ℕ, ◌*◌}
use chutes_miner.Schema.{Key}
use chutes_miner.Cache.{Resource}
use chutes_miner.Control.{
  Fault, Plane, cluster_conflict, cluster_not_found, failed, register, registration_failed,
  remove_cluster, send_heartbeat, send_resources, server_not_found,
}
use chutes_miner.AgentState.{
  Agent, Stopping, after_beat, after_connecting, after_restart, ensure_recovery_loop, is_degraded,
  is_failing, is_running, no_client, removal_failed, stop_and_clear_url, stop_monitoring_tasks,
  stop_tasks, stopped_well,
}

-- `usable` is the test of _load_control_plane_url on a file's text: that it is not blank and parses as
-- a URL of http or https with a host. `collect` is ResourceCollector.collect_all_resources, none if
-- it raises.
module _ {W : Type 0} (plane : Plane W) (usable : Key → Bool)
    (collect : W → Option (List Resource) × W) where
  -- ResourceMonitor._load_control_plane_url
  abbrev pub load_control_plane_url : Agent → Option Key
  load_control_plane_url a = elim a.url_file [
    | none ↦ none
    | some url ↦ if usable url then some url else none
  ]

  -- _register_cluster after its first registration.
  unfoldable pub replace_on_conflict :
      (url : Key) → List Resource → Option Fault → W → Option Fault × W
  replace_on_conflict url xs none w = (none, w)
  replace_on_conflict url xs (some cluster_conflict) w =
      let (fault, w') = remove_cluster plane url w in
      elim fault [ none ↦ register plane url xs w' | some e ↦ (some e, w') ]
  replace_on_conflict url xs (some cluster_not_found) w = (some cluster_not_found, w)
  replace_on_conflict url xs (some server_not_found) w = (some server_not_found, w)
  replace_on_conflict url xs (some registration_failed) w = (some registration_failed, w)
  replace_on_conflict url xs (some failed) w = (some failed, w)

  -- _send_all_resources after it has set the resources.
  unfoldable pub register_if_unknown :
      (url : Key) → List Resource → Option Fault → W → Option Fault × W
  register_if_unknown url xs none w = (none, w)
  register_if_unknown url xs (some cluster_not_found) w = register plane url xs w
  register_if_unknown url xs (some cluster_conflict) w = (some cluster_conflict, w)
  register_if_unknown url xs (some server_not_found) w = (some server_not_found, w)
  register_if_unknown url xs (some registration_failed) w = (some registration_failed, w)
  register_if_unknown url xs (some failed) w = (some failed, w)

  -- ResourceMonitor._register_cluster
  unfoldable pub register_own_cluster : (url : Key) → W → Option Fault × W
  register_own_cluster url w =
      let (collected, w') = collect w in
      elim collected [
        | none ↦ (some failed, w')
        | some xs ↦
            let (fault, w'') = register plane url xs w' in replace_on_conflict url xs fault w''
      ]

  -- ResourceMonitor._send_all_resources
  unfoldable pub send_all_resources : (url : Key) → W → Option Fault × W
  send_all_resources url w =
      let (collected, w') = collect w in
      elim collected [
        | none ↦ (some failed, w')
        | some xs ↦
            let (fault, w'') = send_resources plane url xs w' in
            register_if_unknown url xs fault w''
      ]

  abbrev pub announce : (url : Key) → (is_new : Bool) → W → Option Fault × W
  announce url true w = register_own_cluster url w
  announce url false w = send_all_resources url w

  -- ResourceMonitor._try_connect, where `is_new` is its argument `register`.
  unfoldable pub try_connect : (url : Key) → (is_new : Bool) → Agent × W → Bool × (Agent × W)
  try_connect url is_new (a, w) =
      if is_running a.state
      then (true, (a, w))
      else (let (fault, w') = announce url is_new w in
          let (settled, a') = after_connecting fault (record a { client = some url }) in
          (settled, (a', w')))

  -- ResourceMonitor.auto_start
  unfoldable pub auto_start : Agent × W → Agent × W
  auto_start (a, w) = elim (load_control_plane_url a) [
    | none ↦ (a, w)
    | some url ↦
        let (connected, (a', w')) = try_connect url false (a, w) in
        (if connected then a' else ensure_recovery_loop a', w')
  ]

  -- ResourceMonitor.start; without a connection it raises InvalidOperationError.
  unfoldable pub start : (url : Key) → Agent × W → Bool × (Agent × W)
  start url (a, w) =
      let (connected, (a', w')) = try_connect url true (record a { url_file = some url }, w) in
      (connected, (if connected then a' else ensure_recovery_loop a', w'))

  -- What stop does after it has stopped the tasks, with its client.
  unfoldable pub leave : Option Key → Agent → W → Stopping × (Agent × W)
  leave none a w = (no_client, (a, w))
  leave (some url) a w =
      let (fault, w') = remove_cluster plane url w in
      elim fault [
        | none ↦ (stopped_well, (record a { url_file = none }, w'))
        | some e ↦ (removal_failed, (a, w'))
      ]

  -- ResourceMonitor.stop
  unfoldable pub stop : Agent × W → Stopping × (Agent × W)
  stop (a, w) = leave a.client (stop_monitoring_tasks a) w

  -- A round of ResourceMonitor._recovery_loop, after its sleep of `delay`.
  unfoldable pub recovery_round : (delay : ℕ) → Agent × W → Agent × W
  recovery_round delay (a, w) =
      if is_degraded a.state
      then elim (load_control_plane_url a) [
        | none ↦ (record (stop_and_clear_url a) { recovery = none }, w)
        | some url ↦
            let (settled, (a', w')) = try_connect url false (a, w) in
            (record a' { recovery = if settled then none else some (min (delay * 2) 300) }, w')
      ]
      else (record a { recovery = none }, w)

  -- The requests of an attempt of _async_restart. Without a client it raises.
  abbrev pub send_with : Option Key → W → Option Fault × W
  send_with none w = (some failed, (collect w).1)
  send_with (some url) w = send_all_resources url w

  -- An attempt of ResourceMonitor._async_restart
  unfoldable pub restart_attempt : Agent × W → Agent × W
  restart_attempt (a, w) =
      let (fault, w') = send_with a.client w in (after_restart fault (stop_tasks a), w')

  -- A round of send_heartbeat: without a client it raises.
  abbrev pub beat_with : Option Key → (now : ℕ) → W → Option Fault × W
  beat_with none now w = (some failed, w)
  beat_with (some url) now w = send_heartbeat plane url now w

  -- ResourceMonitor.send_heartbeat, one round of its loop.
  unfoldable pub beat : (now : ℕ) → Agent × W → Agent × W
  beat now (a, w) = let (fault, w') = beat_with a.client now w in (after_beat fault a, w')

  -- GET /health, POST /start and GET /stop: the response's code.
  abbrev pub health_check : Agent → ℕ
  health_check a = if is_failing a.state then 503 else 200

  unfoldable pub post_start : (url : Key) → Agent × W → ℕ × (Agent × W)
  post_start url (a, w) =
      if is_running a.state
      then (409, (a, w))
      else (let (connected, x) = start url (a, w) in (if connected then 200 else 500, x))

  abbrev pub stop_code : Stopping → ℕ
  stop_code stopped_well = 200
  stop_code no_client = 409
  stop_code removal_failed = 500

  unfoldable pub get_stop : Agent × W → ℕ × (Agent × W)
  get_stop x = let (how, y) = stop x in (stop_code how, y)
