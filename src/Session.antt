-- ===== src/Session.antt =====
-- libweaved/service.cc and buffet/manager.cc: one client process and the daemon, with the calls of
-- binder between them. Calls are oneway: each side goes on, and the other gets them in their order.
pub mod Found
pub mod Once
pub mod Watched
pub mod Sent
pub mod Steps
pub mod Told
pub mod Paired
pub mod Tests
use rockchip_android_system.Prelude.{
  ℕ, Bool, Option, none, some, List, [], ◌∷◌, ◌++◌, String, is_some, map, if◌then◌else◌,
}
use rockchip_android_system.Connection.{ServiceImpl, World, Effect, run_connection_callback}
use rockchip_android_system.Connection.Calls.{client_on_service_connected}
use rockchip_android_system.Connection.Life as Client
use rockchip_android_system.Connection.Life.{service_connect, on_weave_service_disconnected}
use rockchip_android_system.Connection.Settled.{connects_of}
use rockchip_android_system.Manager as Daemon
use rockchip_android_system.Manager.{Manager, Service, Options}
use rockchip_android_system.Manager.Clients.{connect}
use rockchip_android_system.Manager.Device.{Definitions, start}
use rockchip_android_system.Manager.System as Daemon_system
use rockchip_android_system.Manager.System.{new_manager}

-- The calls of IWeaveClient::onServiceConnected in a log of the manager, which has its last effect
-- first: the client, and the service object.
abbrev pub services_of : List Daemon.Effect → List (ℕ × Service)
services_of [] = []
services_of (Daemon.service_connected client service ∷ log) =
    services_of log ++ (client, service) ∷ []
services_of (_ ∷ log) = services_of log

-- The instances whose connection callback is run, in their order.
abbrev pub callbacks_of : List Effect → List ℕ
callbacks_of [] = []
callbacks_of (run_connection_callback n ∷ es) = n ∷ callbacks_of es
callbacks_of (_ ∷ es) = callbacks_of es

-- The client process with the effects of its last step, the manager with the log of its last step,
-- and the calls on their way: instances that call connect, and service objects for instances.
-- `connected` has the instances whose connection callback has been run so far.
pub record Session : Type 0 where
  pub world : World
  pub manager : Manager
  pub to_daemon : List ℕ
  pub to_client : List (ℕ × Service)
  pub connected : List ℕ

-- What happens to the client process by itself, or by calls of the daemon other than
-- onServiceConnected.
pub data Act : Type 0 where
  runs_task : ℕ → Option ℕ → Bool → Act
  gets_command : ℕ → String → String → ℕ → Act
  gets_notification : ℕ → List (ℕ × Option String) → Act
  adds_handler : String → String → String → ℕ → Bool → Act
  sets_listener : Option ℕ → Act
  destroys_subscription : Act

abbrev pub client_event : Act → Client.Event
client_event (runs_task place found registered) = Client.run_task place found registered
client_event (gets_command n component name c) = Client.command n component name c
client_event (gets_notification n answers) = Client.notification n answers
client_event (adds_handler component trait_name name callback accepted) =
    Client.add_handler component trait_name name callback accepted
client_event (sets_listener callback) = Client.set_listener callback
client_event destroys_subscription = Client.destroy_subscription

-- A step of one process puts its calls behind those on their way.
unfoldable pub client_step : (World → Option World) → Session → Option Session
client_step f s = elim (f (record (s.world) { effects = [] })) [
  | none ↦ none
  | some w ↦ some (record s {
    world = w;
    to_daemon = s.to_daemon ++ connects_of w.effects;
    connected = s.connected ++ callbacks_of w.effects;
  })
]

unfoldable pub daemon_step : (Manager → Option Manager) → Session → Option Session
daemon_step f s = elim (f (record (s.manager) { log = [] })) [
  | none ↦ none
  | some m ↦ some (record s { manager = m; to_client = s.to_client ++ services_of m.log })
]

-- The death of the daemon, for the client: the death notification that TryConnecting has registered
-- calls OnWeaveServiceDisconnected.
unfoldable pub daemon_gone : World → World
unfolding on_weave_service_disconnected
daemon_gone w = elim w.service [
  | none ↦ w
  | some i ↦ if is_some i.weave_service_manager then on_weave_service_disconnected i.number w else w
]

pub data Event (P A : Type 0) : Type 0 where
  client_acts : Act → Event P A
  daemon_acts : Daemon_system.Event P A → Event P A
  call_arrives : Event P A
  service_arrives : Event P A
  daemon_restarts : Definitions → Event P A

-- `options` are those of the daemon, and `handle_of` the number under which binder hands a service
-- object to the client. Calls to a daemon that dies are lost, those that it has made still arrive.
-- `none` is a failed CHECK in one of the processes.
module _ (options : Options) (handle_of : Service → ℕ) where
  unfoldable pub handle : {P A : Type 0} → Event P A → Session → Option Session
  unfolding client_step daemon_step daemon_gone
  handle (client_acts a) s = client_step (Client.handle (client_event a)) s
  handle (daemon_acts e) s = daemon_step (Daemon_system.handle e) s
  handle call_arrives s = elim s.to_daemon [
    | [] ↦ some s
    | n ∷ ns ↦ daemon_step (connect n) (record s { to_daemon = ns })
  ]
  handle service_arrives s = elim s.to_client [
    | [] ↦ some s
    | c ∷ cs ↦
        client_step (λ w. some (client_on_service_connected c.0 (handle_of c.1) w))
          (record s { to_client = cs })
  ]
  handle (daemon_restarts defs) s = elim (start defs (new_manager options)) [
    | none ↦ none
    | some m ↦ some (record {
      world = daemon_gone s.world;
      manager = m;
      to_daemon = [];
      to_client = s.to_client;
      connected = s.connected;
    })
  ]

  unfoldable pub run_events : {P A : Type 0} → List (Event P A) → Session → Option Session
  unfolding handle
  run_events [] s = some s
  run_events (e ∷ es) s = elim (handle e s) [ none ↦ none | some t ↦ run_events es t ]

-- A client process that calls Service::Connect while the daemon has the manager.
unfoldable pub new_session : Manager → Session
new_session m = record {
  world = service_connect;
  manager = m;
  to_daemon = [];
  to_client = [];
  connected = [];
}
