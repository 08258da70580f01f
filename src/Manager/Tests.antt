-- ===== src/Manager/Tests.antt =====
-- The manager at concrete inputs.
use rockchip_android_system.Prelude.{
  ◌==◌, ℕ, ◌+◌, ◌≡◌, ◌≢◌, refl, ap, Bool, true, false, some, List, [], ◌∷◌, String, arith, eq_iff,
}
use rockchip_android_system.Settings.{Settings}
use rockchip_android_system.Manager.{
  Manager, Options, Service, init_power_manager, make_device, add_callbacks, add_reboot_handler,
  service_connected, notify_change, watch_death, on_pairing_start, notify_service_manager_change,
}
use rockchip_android_system.Manager.Clients.{
  on_client_disconnected, emplace, erase_service, connect, create_services_for_clients, serve_all,
  serve,
}
use rockchip_android_system.Manager.Device.{
  Definitions, start_http_server, start, restart_weave, create_device, make, load_all,
  load_definitions, load_state_defaults, load_trait_definitions, load_command_definitions,
  load_state_definitions,
}
use rockchip_android_system.Manager.System.{
  new_manager, Event, connects, disconnects, handle, run_events,
}
use rockchip_android_system.Manager.Notices.{pairing_lifetime}
use rockchip_android_system.Manager.Available as Web
use rockchip_android_system.Manager.Available.{Serving, reports, device_made_once}
use rockchip_android_system.WebServer
use rockchip_android_system.WebServer.{ProtocolHandler, https, connected}
use rockchip_android_system.Manager.Served.{clients_served}
use rockchip_android_system.Manager.Served.Clients.{served, count}

abbrev pub no_privet : Options
no_privet = record {
  xmpp_enabled = true;
  disable_privet = true;
  enable_ping = false;
  device_whitelist = [];
}

abbrev pub no_files : Definitions
no_files = record { traits = []; commands = []; test_commands = []; states = []; defaults = [] }

abbrev settings : Settings Bool Bool
settings = record {
  cloud_id = "cloud";
  device_id = "";
  firmware_version = "";
  oem_name = "";
  model_name = "";
  model_id = "AAAAA";
  pairing_modes = [];
  embedded_code = "";
  name = "";
  description = "";
  location = "";
  client_id = "";
  client_secret = "";
  api_key = "";
  oauth_url = "";
  service_url = "";
  local_anonymous_access_role = true;
  local_discovery_enabled = true;
  local_pairing_enabled = true;
  wifi_auto_setup_enabled = true;
  test_privet_ssid = "";
}

-- A manager with one listener, of the number 6, and one with another, of the number 7.
abbrev heard : Manager
heard = record (unfold new_manager in new_manager no_privet) { notification_listeners = 6 ∷ [] }

abbrev both_heard : Manager
both_heard = record heard { notification_listeners = 6 ∷ 7 ∷ [] }

a_not_b : ◌≢◌ {A = String} "a" "b"
a_not_b = ground (arith, eq_iff "a" "b")

abbrev first_session : String
first_session = "b"

differ : first_session ≢ "a"
differ e = ground (arith, ap (λ s. s == "a") e)

pairing_lifetime_example :
    (on_pairing_start first_session "pinCode" "1234" heard).log
    ≡ notify_change 6 (9 ∷ 10 ∷ 11 ∷ []) ∷ []
unfolding notify_service_manager_change new_manager
pairing_lifetime_example =
    ap (λ m. m.log) (pairing_lifetime first_session "a" "pinCode" "1234" heard differ).0

-- Two clients connect, and one of them again; the other goes away.
abbrev history : List (Event Bool Bool)
history = connects 4 ∷ connects 7 ∷ disconnects 7 ∷ connects 4 ∷ []

abbrev running : Manager
running = record (unfold new_manager in new_manager no_privet) {
  running = true;
  device = some 0;
  next_device = 1;
  log = add_reboot_handler ∷ add_callbacks ∷ make_device 0 ∷ init_power_manager ∷ [];
}

running_lem : start no_files (new_manager no_privet) ≡ some running
unfolding new_manager start restart_weave create_device make load_all load_definitions
    load_trait_definitions load_command_definitions load_state_definitions load_state_defaults
    create_services_for_clients serve_all
running_lem = refl

abbrev service : ℕ → Service
service c = record { device = 0; client = c }

abbrev afterwards : Manager
afterwards = record running {
  services = (4, service 4) ∷ [];
  log =
      watch_death 4
      ∷ service_connected 4 (service 4)
      ∷ watch_death 7
      ∷ service_connected 7 (service 7)
      ∷ watch_death 4
      ∷ service_connected 4 (service 4)
      ∷ running.log;
}

afterwards_lem : run_events history running ≡ some afterwards
unfolding new_manager run_events handle connect on_client_disconnected emplace erase_service serve
    serve_all create_services_for_clients
afterwards_lem = refl

clients_served_example : served 4 afterwards.log + count 4 afterwards.pending_clients ≡ 2
unfolding new_manager
clients_served_example =
    (clients_served 4 no_privet no_files history running afterwards running_lem afterwards_lem).0

-- With privet on, a client connects before the web server is available, which it becomes twice.
abbrev pub with_privet : Options
with_privet = record no_privet { disable_privet = false }

abbrev pub open_manager : Manager
open_manager = record (new_manager with_privet) {
  running = true;
  http_server = true;
  bluetooth = true;
  log = init_power_manager ∷ [];
}

pub opens : start no_files (new_manager with_privet) ≡ some open_manager
unfolding new_manager start restart_weave start_http_server
opens = refl

abbrev secure : ProtocolHandler
secure = record { name = https; ports = 443 ∷ []; fingerprint = [] }

abbrev web_history : List Web.Event
web_history = Web.connects 4 ∷ reports (connected secure) ∷ reports (connected secure) ∷ []

abbrev web_afterwards : Serving
web_afterwards = record {
  server = record { http_port = 0; https_port = 443; certificate = []; available_runs = 2 };
  manager = record open_manager {
    device = some 0;
    next_device = 1;
    services = (4, service 4) ∷ [];
    log =
        watch_death 4
        ∷ service_connected 4 (service 4)
        ∷ add_reboot_handler
        ∷ add_callbacks
        ∷ make_device 0
        ∷ init_power_manager
        ∷ [];
  };
}

web_runs :
    Web.run_events no_files web_history
      (record { server = WebServer.new_client; manager = open_manager })
    ≡ some web_afterwards
unfolding Web.run_events new_manager create_device connect WebServer.handle make load_all
    load_trait_definitions load_definitions load_command_definitions load_state_definitions
    load_state_defaults create_services_for_clients serve_all serve emplace
web_runs = refl

device_made_once_example :
    (web_afterwards.manager.device ≡ some 0) × (web_afterwards.manager.next_device ≡ 1)
device_made_once_example =
    device_made_once no_files with_privet open_manager web_history web_afterwards refl opens
      web_runs
