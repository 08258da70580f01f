-- ===== src/Manager/System.antt =====
-- buffet/manager.cc: the manager among the calls and callbacks that reach it, in any order.
use rockchip_android_system.Prelude.{ℕ, Bool, false, Option, none, some, List, [], ◌∷◌, String}
use rockchip_android_system.Settings.{Settings}
use rockchip_android_system.Manager.{
  Manager, Options, on_config_changed, on_pairing_start, on_pairing_end, on_trait_defs_changed,
  on_component_tree_changed, on_gcd_state_changed,
}
use rockchip_android_system.Manager.Clients.{
  connect, register_notification_listener, on_client_disconnected,
  on_notification_listener_destroyed,
}
use rockchip_android_system.Manager.Device.{
  Definitions, create_device, on_reboot_device, reboot_device_now,
}

-- A manager as its constructor leaves it.
unfoldable pub new_manager : Options → Manager
new_manager o = record {
  options = o;
  running = false;
  http_server = false;
  bluetooth = false;
  device = none;
  next_device = 0;
  pending_clients = [];
  services = [];
  notification_listeners = [];
  cloud_id = "";
  device_id = "";
  device_name = "";
  device_description = "";
  device_location = "";
  oem_name = "";
  model_name = "";
  model_id = "";
  pairing_session_id = "";
  pairing_mode = "";
  pairing_code = "";
  state = "";
  log = [];
}

-- What reaches a manager between Start and Stop: its binder calls, the callbacks of the device, the
-- deaths of clients and listeners, and the web server that becomes available.
pub data Event (P A : Type 0) : Type 0 where
  server_available : Definitions → Event P A
  connects disconnects listens unlistens : ℕ → Event P A
  config_changed : Settings P A → Event P A
  pairing_starts : String → String → String → Event P A
  pairing_ends : String → Event P A
  traits_changed components_changed : Event P A
  gcd_state_changed : String → Event P A
  reboots : Bool → Event P A
  reboots_now : Event P A

unfoldable pub handle : {P A : Type 0} → Event P A → Manager → Option Manager
handle (server_available d) m = create_device d m
handle (connects c) m = connect c m
handle (disconnects c) m = some (on_client_disconnected c m)
handle (listens l) m = some (register_notification_listener l m)
handle (unlistens l) m = some (on_notification_listener_destroyed l m)
handle (config_changed s) m = some (on_config_changed s m)
handle (pairing_starts session mode code) m = some (on_pairing_start session mode code m)
handle (pairing_ends session) m = some (on_pairing_end session m)
handle traits_changed m = some (on_trait_defs_changed m)
handle components_changed m = some (on_component_tree_changed m)
handle (gcd_state_changed state) m = some (on_gcd_state_changed state m)
handle (reboots completed) m = some (on_reboot_device completed m)
handle reboots_now m = some (reboot_device_now m)

-- `none` is a failed CHECK.
unfoldable pub run_events : {P A : Type 0} → List (Event P A) → Manager → Option Manager
run_events [] m = some m
run_events (e ∷ es) m = elim (handle e m) [ none ↦ none | some n ↦ run_events es n ]
