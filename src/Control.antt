-- ===== src/Control.antt =====
-- The agent's client of the control plane: ControlPlaneClient of
-- src/chutes-agent/chutes_agent/client.py. What answers the requests is a record of functions on a
-- state of its own, which Agent.Contact fills with the endpoints of the monitor.
use chutes_miner.Prelude.{Bool, List, Option, if◌then◌else◌, none, some, ℕ, ◌==◌}
use chutes_miner.Schema.{Key}
use chutes_miner.Cache.{Resource}

-- What comes of a request: a response with its code, a TimeoutError, or another exception.
pub data Answer : Type 0 where
  responded : (code : ℕ) → Answer
  timed_out broken : Answer

-- What the client's methods raise: ClusterConflictException, ClusterNotFoundException,
-- ServerNotFoundException, ClusterRegistrationException, or any other exception.
pub data Fault : Type 0 where
  cluster_conflict cluster_not_found server_not_found registration_failed failed : Fault

-- The requests on the cluster's own address, at a base URL.
pub record Plane (W : Type 0) : Type 0 where
  pub post : (url : Key) → List Resource → W → Answer × W
  pub put : (url : Key) → List Resource → W → Answer × W
  pub remove : (url : Key) → W → Answer × W
  pub patch : (url : Key) → Resource → (is_deleted : Bool) → W → Answer × W
  pub heartbeat : (url : Key) → (timestamp : ℕ) → W → Answer × W

abbrev pub registration_fault : Answer → Option Fault
registration_fault (responded code) =
    if code == 200
    then none
    else if code == 409
    then some cluster_conflict
    else if code == 404
    then some server_not_found
    else some failed
registration_fault timed_out = some registration_failed
registration_fault broken = some failed

abbrev pub resources_fault : Answer → Option Fault
resources_fault (responded code) =
    if code == 200
    then none
    else if code == 404
    then some server_not_found
    else if code == 410
    then some cluster_not_found
    else some failed
resources_fault timed_out = some failed
resources_fault broken = some failed

-- The test of the methods that tell no codes apart.
abbrev pub plain_fault : Answer → Option Fault
plain_fault (responded code) = if code == 200 then none else some failed
plain_fault timed_out = some failed
plain_fault broken = some failed

module _ {W : Type 0} (plane : Plane W) where
  -- ControlPlaneClient.register_cluster
  abbrev pub register : (url : Key) → List Resource → W → Option Fault × W
  register url xs w = let (answer, w') = plane.post url xs w in (registration_fault answer, w')

  -- ControlPlaneClient.remove_cluster
  abbrev pub remove_cluster : (url : Key) → W → Option Fault × W
  remove_cluster url w = let (answer, w') = plane.remove url w in (plain_fault answer, w')

  -- ControlPlaneClient.set_cluster_resources
  abbrev pub send_resources : (url : Key) → List Resource → W → Option Fault × W
  send_resources url xs w = let (answer, w') = plane.put url xs w in (resources_fault answer, w')

  -- ControlPlaneClient.send_resource_update
  abbrev pub send_resource_update :
      (url : Key) → Resource → (is_deleted : Bool) → W → Option Fault × W
  send_resource_update url x is_deleted w =
      let (answer, w') = plane.patch url x is_deleted w in (plain_fault answer, w')

  -- ControlPlaneClient.send_heartbeat, with the state ACTIVE.
  abbrev pub send_heartbeat : (url : Key) → (timestamp : ℕ) → W → Option Fault × W
  send_heartbeat url timestamp w =
      let (answer, w') = plane.heartbeat url timestamp w in (plain_fault answer, w')
