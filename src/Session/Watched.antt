-- ===== src/Session/Watched.antt =====
-- buffet/manager.cc and libweaved/service.cc: the manager and a client process that listens for its
-- notifications. A notification is a oneway call; the client asks the manager for the values when
-- it arrives.
use mathlib.Core.Option
use rockchip_android_system.Prelude.{
  ℕ, suc, Option, none, some, List, [], ◌∷◌, ◌++◌, String, map, nat_eq, if◌then◌else◌,
}
use rockchip_android_system.NotificationListener
use rockchip_android_system.Strings.{BinderStrings}
use rockchip_android_system.Connection.{World, make_service}
use rockchip_android_system.Connection.Calls.{notify_service_manager_change}
use rockchip_android_system.Manager.{Manager, Effect, notify_change}
use rockchip_android_system.Manager.Interface.{weave_service_manager}
use rockchip_android_system.ServiceManager.{IWeaveServiceManager}
use rockchip_android_system.Status.{Reply, refused, returned}
use rockchip_android_system.Manager.System as Daemon_system

-- The calls of notifyServiceManagerChange on a listener in a log of the manager, which has its last
-- effect first.
abbrev pub notices_for : ℕ → List Effect → List (List ℕ)
notices_for n [] = []
notices_for n (notify_change l ids ∷ log) =
    notices_for n log ++ (if nat_eq l n then ids ∷ [] else [])
notices_for n (_ ∷ log) = notices_for n log

-- The manager with the log of its last step, the client process, whose instance has the number
-- `listener`, and the notifications on their way to it.
pub record Watched : Type 0 where
  pub manager : Manager
  pub world : World
  pub notices : List (List ℕ)

pub data Event (P A : Type 0) : Type 0 where
  manager_acts : Daemon_system.Event P A → Event P A
  notice_arrives : Event P A

-- What a call of binder answers, if its status is ok.
abbrev pub answer : {A : Type 0} → Reply A → Option A
answer (refused status) = none
answer (returned a) = some a

module _ ⦃strings : BinderStrings⦄ where
  -- The getter that OnNotification calls for a number of the pairing, `none` for the other numbers.
  unfoldable pub getter :
      {S : Type 0} → IWeaveServiceManager S → ℕ → Option (S → Reply strings.String16)
  getter binder id =
      if nat_eq id NotificationListener.pairing_session_id
      then some binder.get_pairing_session_id
      else if nat_eq id NotificationListener.pairing_mode
      then some binder.get_pairing_mode
      else if nat_eq id NotificationListener.pairing_code
      then some binder.get_pairing_code
      else none

  -- What the client reads for a number.
  abbrev pub reading : {S : Type 0} → IWeaveServiceManager S → S → ℕ → ℕ × Option String
  reading binder m id = elim (getter binder id) [
    | none ↦ (id, none)
    | some call ↦ (id, Option.map strings.to_string (answer (call m)))
  ]

  -- The texts of traits and components are not asked for.
  abbrev pub manager_interface : IWeaveServiceManager Manager
  manager_interface = weave_service_manager (λ d. "") (λ d. "")

  -- `none` is a failed CHECK of the manager.
  unfoldable pub handle : {P A : Type 0} → ℕ → Event P A → Watched → Option Watched
  unfolding notify_service_manager_change
  handle listener (manager_acts e) w =
      elim (Daemon_system.handle e (record (w.manager) { log = [] })) [
        | none ↦ none
        | some m ↦
            some (record w { manager = m; notices = w.notices ++ notices_for listener m.log })
      ]
  handle listener notice_arrives w = elim w.notices [
    | [] ↦ some w
    | ids ∷ rest ↦ some (record w {
      world =
          notify_service_manager_change listener (map (reading manager_interface w.manager) ids)
            w.world;
      notices = rest;
    })
  ]

  unfoldable pub run_events : {P A : Type 0} → ℕ → List (Event P A) → Watched → Option Watched
  unfolding handle
  run_events listener [] w = some w
  run_events listener (e ∷ es) w = elim (handle listener e w) [
    | none ↦ none
    | some v ↦ run_events listener es v
  ]

-- A client process with an instance that has a callback for pairings and knows of none.
abbrev pub watching : ℕ → ℕ → World
watching listener callback = record {
  service = some (record (make_service listener) { pairing_info_callback = some callback });
  next = suc listener;
  tasks = [];
  effects = [];
}
