-- ===== src/Shill/System.antt =====
-- buffet/shill_client.cc: the client among the calls and signals that reach it, in any order.
use rockchip_android_system.Prelude.{ℕ, Bool, false, Option, none, some, List, [], ◌∷◌, ◌≡◌, String}
use rockchip_android_system.Shill.{
  ShillApi, ServiceProxy, offline, Client, Answers, notify_connectivity_listeners,
  add_connection_changed_callback,
}
use rockchip_android_system.Shill.Connect.{Configured, connect, connect_to_service_error}
use rockchip_android_system.Shill.Devices.{
  init, on_shill_service_owner_change, on_manager_property_change,
  on_manager_property_change_registration, on_device_property_change,
  on_device_property_change_registration,
}
use rockchip_android_system.Shill.Signals.{
  on_service_property_change, on_service_property_change_registration,
}

module _ ⦃api : ShillApi⦄ where
  open api use {Any, BrilloError}

  -- The members of the client, before the constructor calls Init.
  unfoldable pub new_client : List String → Client
  new_client whitelist = record {
    device_whitelist = whitelist;
    connectivity_listeners = [];
    have_called_connect = false;
    connecting_service = none;
    connecting_service_error = "";
    connect_done_callback = none;
    devices = [];
    connectivity_state = offline;
    next_id = 0;
    log = [];
  }

  -- Whatever can enter the client: its public calls, the signals of shill, the end of a
  -- registration, and the tasks that it posted.
  pub data Event : Type 0 where
    add_listener : ℕ → Event
    connects : String → String → ℕ → Configured → Option BrilloError → Event
    timeout : ServiceProxy → Event
    notify : Event
    owner_changed : Answers → String → Event
    manager_changed : Answers → String → Any → Event
    manager_registered : Answers → Bool → Event
    device_changed : Answers → String → String → Any → Event
    device_registered : Answers → String → Bool → Event
    service_changed : String → String → Any → Event
    service_registered : Answers → String → Bool → Event

  -- `none` is a failed CHECK, which ends the daemon.
  unfoldable pub handle : Event → Client → Option Client
  handle (add_listener l) c = some (add_connection_changed_callback l c)
  handle (connects ssid passphrase k answer scan) c = some (connect ssid passphrase k answer scan c)
  handle (timeout s) c = some (connect_to_service_error (some s) c)
  handle notify c = some (notify_connectivity_listeners c)
  handle (owner_changed a owner) c = on_shill_service_owner_change a owner c
  handle (manager_changed a name v) c = some (on_manager_property_change a name v c)
  handle (manager_registered a success) c = on_manager_property_change_registration a success c
  handle (device_changed a device name v) c = some (on_device_property_change a device name v c)
  handle (device_registered a device success) c =
      on_device_property_change_registration a device success c
  handle (service_changed path name v) c = some (on_service_property_change path name v c)
  handle (service_registered a path success) c =
      some (on_service_property_change_registration a path success c)

  -- The states that the constructor and any events after it lead to.
  pub data Reach (whitelist : List String) : Client → Type 0 where
    start : (a : Answers) {c : Client} → init a (new_client whitelist) ≡ some c → Reach whitelist c
    next : (e : Event) {c d : Client} → Reach whitelist c → handle e c ≡ some d → Reach whitelist d

  -- A sequence of events; `none` if a CHECK fails on the way.
  unfoldable pub run_events : List Event → Client → Option Client
  run_events [] c = some c
  run_events (e ∷ es) c = elim (handle e c) [ none ↦ none | some d ↦ run_events es d ]
