-- ===== src/Agent/Events.antt =====
-- How the agent forwards the events of its cluster, and how it reports a deletion:
-- handle_resource_event, _check_resource_exists and _monitor_resource_actual_deletion of
-- src/chutes-agent/chutes_agent/monitor.py.
use chutes_miner.Prelude.{
  Bool, Bool-cases, List, Option, [], any, arith, false, if◌then◌else◌, inl, inr, is_some, none,
  not, refl, some, true, ℕ, ◌==◌, ◌∙◌, ◌∷◌, ◌≡◌,
}
use chutes_miner.Schema.{Key}
use chutes_miner.Db.{Db}
use chutes_miner.Cache.{Cache, Resource, get_resource, update_resource}
use chutes_miner.Cache.Resources.{get_resource-update, is_field, same_kind_refl}
use chutes_miner.Monitor.Router.{patch_resources}
use chutes_miner.Control.{Plane, send_resource_update}
use chutes_miner.Agent.Contact.{monitor}

-- The type of a watch event.
pub data Change : Type 0 where
  added modified deleted : Change

-- What comes of reading a resource: it is there, the ApiException has a status, or another exception
-- is raised.
pub data Read : Type 0 where
  found : Read
  api_error : (status : ℕ) → Read
  read_failure : Read

-- ResourceMonitor._check_resource_exists, where `is_readable` says that the type is one of
-- KubernetesResourceType with a function to read it. It is none where it raises.
unfoldable pub check_resource_exists : (is_readable : Bool) → Read → Option Bool
check_resource_exists false read = some false
check_resource_exists true found = some true
check_resource_exists true (api_error status) = some (not (status == 404))
check_resource_exists true read_failure = none

module _ {W : Type 0} (plane : Plane W) (url : Key) (x : Resource) where
  abbrev sent : (is_deleted : Bool) → W → W
  sent is_deleted w = (send_resource_update plane url x is_deleted w).1

  -- The branch for a deletion. It yields whether the deletion is to be awaited; TERMINATING is an
  -- update for the monitor. Where the check or the request raises, the event is dropped.
  unfoldable pub handle_deletion : Option Bool → W → Bool × W
  handle_deletion none w = (false, w)
  handle_deletion (some true) w =
      let (f, w') = send_resource_update plane url x false w in (not (is_some f), w')
  handle_deletion (some false) w = (false, sent true w)

  -- ResourceMonitor.handle_resource_event
  unfoldable pub handle_resource_event : Change → (is_readable : Bool) → Read → W → Bool × W
  handle_resource_event added is_readable read w = (false, sent false w)
  handle_resource_event modified is_readable read w = (false, sent false w)
  handle_resource_event deleted is_readable read w =
      handle_deletion (check_resource_exists is_readable read) w

  -- A round of _monitor_resource_actual_deletion: whether it is the last.
  unfoldable pub deletion_round : Option Bool → W → Bool × W
  deletion_round none w = (false, w)
  deletion_round (some true) w = (false, w)
  deletion_round (some false) w =
      let (f, w') = send_resource_update plane url x true w in (not (is_some f), w')

  -- ResourceMonitor._monitor_resource_actual_deletion, for as many rounds as the list has answers.
  unfoldable pub monitor_resource_actual_deletion : (is_readable : Bool) → List Read → W → Bool × W
  monitor_resource_actual_deletion is_readable [] w = (false, w)
  monitor_resource_actual_deletion is_readable (read ∷ reads) w =
      let (is_over, w') = deletion_round (check_resource_exists is_readable read) w in
      let rest = monitor_resource_actual_deletion is_readable reads w' in
      if is_over then (true, w') else rest

-- A read that shows that the resource is gone.
abbrev pub is_gone : Read → Bool
is_gone (api_error status) = status == 404
is_gone _ = false

module _ (now : ℕ) (db : Db) (c : Key) (url : Key) (x : Resource) where
  abbrev mine : Plane Cache
  mine = monitor now db c

  awaited :
      (reads : List Read) (cache : Cache)
      → monitor_resource_actual_deletion mine url x true reads cache ≡ (
          if any is_gone reads
          then (true, update_resource (record x { cluster = c }) true cache)
          else (false, cache))
  unfolding monitor_resource_actual_deletion deletion_round check_resource_exists patch_resources
  awaited [] cache = refl
  awaited (found ∷ reads) cache = awaited reads cache
  awaited (read_failure ∷ reads) cache = awaited reads cache
  awaited (api_error status ∷ reads) cache = elim (Bool-cases (status == 404)) [
    | inl gone ↦ rw gone refl
    | inr there ↦ rw there (awaited reads cache)
  ]

  looked_up :
      (is_deleted : Bool) (cache : Cache)
      → get_resource c x.kind x.namespace x.name
          (update_resource (record x { cluster = c }) is_deleted cache)
        ≡ (if is_deleted then none else some (record x { cluster = c }))
  looked_up is_deleted cache =
      let own : is_field c x.kind x.namespace x.name (record x { cluster = c }) ≡ true =
        ground (arith, same_kind_refl x.kind) in
      get_resource-update c x.kind x.namespace x.name (record x { cluster = c }) is_deleted cache
      ∙ rw own refl

  -- A resource whose deletion is reported while a read still finds it stays visible: until a read
  -- answers 404, whatever else the reads answer, a lookup in the monitor's cache finds the object
  -- of the event and the wait goes on; once one does, the wait is over and the lookup finds nothing.
  pub deletion_waits :
      (reads : List Read) (cache : Cache)
      → let (is_awaited, held) = handle_resource_event mine url x deleted true found cache in
        let (is_over, after) = monitor_resource_actual_deletion mine url x true reads held in
        (is_awaited ≡ true)
        × (is_over ≡ any is_gone reads)
        × (get_resource c x.kind x.namespace x.name after
            ≡ (if any is_gone reads then none else some (record x { cluster = c })))
  unfolding handle_resource_event handle_deletion check_resource_exists patch_resources
  deletion_waits reads cache =
      let held = update_resource (record x { cluster = c }) false cache in
      elim (Bool-cases (any is_gone reads)) [
        | inl gone ↦ rw (awaited reads held, gone) (refl, refl, looked_up true held)
        | inr there ↦ rw (awaited reads held, there) (refl, refl, looked_up false cache)
      ]
