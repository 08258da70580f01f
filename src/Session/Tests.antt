-- ===== src/Session/Tests.antt =====
-- libweaved/service.cc and buffet/manager.cc: a client that connects before the daemon has a
-- device, and again after the daemon has died.
use rockchip_android_system.Prelude.{
  ◌≤◌, ℕ, ◌≡◌, refl, Bool, true, none, some, List, [], ◌∷◌, String, is_some,
}
use rockchip_android_system.Connection.{
  PairingInfo, ServiceImpl, lock, no_pairing, make_service, run_connection_callback,
  run_pairing_callback,
}
use rockchip_android_system.Connection.Calls.{
  client_on_service_connected, note_all, note, on_notification,
}
use rockchip_android_system.Connection.Life as Client
use rockchip_android_system.Connection.Life.{service_connect}
use rockchip_android_system.Connection.Settled.{connects_of}
use rockchip_android_system.Manager.Clients.{
  connect, create_services_for_clients, serve_all, serve, emplace,
}
use rockchip_android_system.Manager.{
  Manager, notify_change, on_pairing_start, on_pairing_end, update_pairing, update_value,
  notify_service_manager_change, get_value, Service, watch_death, service_connected,
  add_reboot_handler, add_callbacks, make_device,
}
use rockchip_android_system.Manager.Device.{
  start, restart_weave, start_http_server, create_device, make, load_all, load_trait_definitions,
  load_definitions, load_command_definitions, load_state_definitions, load_state_defaults,
}
use rockchip_android_system.Manager.System as Daemon_system
use rockchip_android_system.Manager.System.{
  new_manager, server_available, pairing_starts, pairing_ends,
}
use rockchip_android_system.Manager.Tests.{no_files, with_privet, open_manager, opens}
use rockchip_android_system.Session.{
  Session, runs_task, Event, client_acts, daemon_acts, call_arrives, service_arrives,
  daemon_restarts, run_events, new_session,
}
use rockchip_android_system.Session.Watched
use rockchip_android_system.Manager.Interface.{weave_service_manager}
use rockchip_android_system.Session.Watched.{
  Watched, Event as Watched_event, manager_acts, notice_arrives, getter, watching,
}
use rockchip_android_system.Session.Told.{manager_pairing, presented, last_told}
use rockchip_android_system.Session.Paired.{application_follows_pairing}
use rockchip_android_system.Strings.{BinderStrings}
use rockchip_android_system.Connection.Calls as Calls
use rockchip_android_system.Session.Once.{connected_once}
use rockchip_android_system.Manager.Served.Clients.{count}
use rockchip_android_system.Session.Found.{client_is_served}

abbrev handle_of : Service → ℕ
handle_of s = 8

-- The client connects, the daemon dies, the client replaces its instance and connects again.
abbrev history : List (Event Bool Bool)
history =
    client_acts (runs_task 0 (some 7) true)
    ∷ call_arrives
    ∷ daemon_restarts no_files
    ∷ client_acts (runs_task 0 none true)
    ∷ client_acts (runs_task 0 (some 7) true)
    ∷ call_arrives
    ∷ daemon_acts (server_available no_files)
    ∷ service_arrives
    ∷ []

abbrev instance : ServiceImpl
instance = record (make_service 1) { weave_service_manager = some 7; weave_service = some 8 }

abbrev service : Service
service = record { device = 0; client = 1 }

abbrev afterwards : Session
afterwards = record {
  world = record {
    service = some instance;
    next = 2;
    tasks = [];
    effects = run_connection_callback 1 ∷ [];
  };
  manager = record open_manager {
    device = some 0;
    next_device = 1;
    services = (1, service) ∷ [];
    log =
        watch_death 1
        ∷ service_connected 1 service
        ∷ add_reboot_handler
        ∷ add_callbacks
        ∷ make_device 0
        ∷ [];
  };
  to_daemon = [];
  to_client = [];
  connected = 1 ∷ [];
}

runs : run_events with_privet handle_of history (new_session open_manager) ≡ some afterwards
unfolding run_events new_session Client.handle service_connect connects_of connect
    client_on_service_connected new_manager start restart_weave start_http_server
    Daemon_system.handle create_device make load_all load_trait_definitions load_definitions
    load_command_definitions load_state_definitions load_state_defaults create_services_for_clients
    serve_all serve emplace
runs = refl

client_is_served_example : is_some instance.weave_service ≡ true
client_is_served_example =
    client_is_served with_privet handle_of no_files open_manager history afterwards instance opens
      runs refl refl refl refl refl

connected_once_example : count 1 afterwards.connected ≤ 1
connected_once_example =
    connected_once with_privet handle_of no_files open_manager history afterwards 1 opens runs
      (refl, tt)

-- Texts of binder are the texts themselves.
abbrev plain : BinderStrings
plain = record { String16 = String; to_string = λ s. s; to_string16 = λ s. s }

-- A pairing starts and is told; it ends and another one starts before the client is told of either.
abbrev pairings : List (Watched_event Bool Bool)
pairings =
    manager_acts (pairing_starts "first" "pinCode" "1234")
    ∷ notice_arrives
    ∷ manager_acts (pairing_ends "first")
    ∷ manager_acts (pairing_starts "second" "pinCode" "5678")
    ∷ notice_arrives
    ∷ notice_arrives
    ∷ []

abbrev second : PairingInfo
second = record { session_id = "second"; pairing_mode = "pinCode"; pairing_code = "5678" }

abbrev listened : Manager
listened = record open_manager { notification_listeners = 3 ∷ [] }

abbrev paired : Watched
paired = record {
  manager = record listened {
    pairing_session_id = "second";
    pairing_mode = "pinCode";
    pairing_code = "5678";
    log = notify_change 3 (9 ∷ 10 ∷ 11 ∷ []) ∷ [];
  };
  world = record (watching 3 5) {
    service =
        some (record (make_service 3) { pairing_info_callback = some 5; pairing_info = second });
    effects =
        run_pairing_callback 5
          (some (record { session_id = "first"; pairing_mode = "pinCode"; pairing_code = "1234" }))
        ∷ run_pairing_callback 5 (some second)
        ∷ run_pairing_callback 5 (some second)
        ∷ [];
  };
  notices = [];
}

pairs :
    Watched.run_events ⦃strings = plain⦄ 3 pairings
      (record { manager = listened; world = watching 3 5; notices = [] })
    ≡ some paired
unfolding Watched.run_events Watched.handle Daemon_system.handle on_pairing_start on_pairing_end
    update_pairing update_value notify_service_manager_change get_value getter weave_service_manager
    Calls.notify_service_manager_change note_all note on_notification lock new_manager
pairs = refl

unpaired : manager_pairing listened ≡ no_pairing
unfolding new_manager
unpaired = refl

application_follows_pairing_example :
    last_told none paired.world.effects ≡ presented (manager_pairing paired.manager)
application_follows_pairing_example =
    application_follows_pairing ⦃strings = plain⦄ 3 5 listened pairings paired refl unpaired
      (λ t. refl) (tt, (tt, (tt, tt))) pairs refl
