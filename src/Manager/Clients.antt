-- ===== src/Manager/Clients.antt =====
-- buffet/manager.cc and binder_weave_service.cc: the clients of the daemon and the listeners.
use rockchip_android_system.Prelude.{
  ℕ, Option, none, some, List, [], ◌∷◌, ◌++◌, ltb, nat_eq, if◌then◌else◌, is_some,
}
use rockchip_android_system.Manager.{
  Manager, Service, Effect, service_connected, watch_death, unwatch_death, emit,
}

-- `map::emplace`: an entry that is there stays.
unfoldable pub emplace : ℕ → Service → List (ℕ × Service) → List (ℕ × Service)
emplace k v [] = (k, v) ∷ []
emplace k v ((j, w) ∷ m) =
    if nat_eq j k
    then (j, w) ∷ m
    else if ltb k j
    then (k, v) ∷ (j, w) ∷ m
    else (j, w) ∷ emplace k v m

-- `map::erase`.
unfoldable pub erase_service : ℕ → List (ℕ × Service) → List (ℕ × Service)
erase_service k [] = []
erase_service k ((j, w) ∷ m) = if nat_eq j k then m else (j, w) ∷ erase_service k m

-- `set::insert` and `set::erase`.
unfoldable pub insert_listener : ℕ → List ℕ → List ℕ
insert_listener k [] = k ∷ []
insert_listener k (j ∷ l) =
    if nat_eq j k then j ∷ l else if ltb k j then k ∷ j ∷ l else j ∷ insert_listener k l

unfoldable pub erase_listener : ℕ → List ℕ → List ℕ
erase_listener k [] = []
erase_listener k (j ∷ l) = if nat_eq j k then l else j ∷ erase_listener k l

-- One round of CreateServicesForClients: the client gets a service of the device.
unfoldable pub serve : ℕ → ℕ → Manager → Manager
serve device client m =
    let s : Service = record { device = device; client = client } in
    record m {
      services = emplace client s m.services;
      log = watch_death client ∷ service_connected client s ∷ m.log;
    }

unfoldable pub serve_all : ℕ → List ℕ → Manager → Manager
serve_all device [] m = m
serve_all device (c ∷ cs) m = serve_all device cs (serve device c m)

-- Manager::CreateServicesForClients; `none` is a failed CHECK.
unfoldable pub create_services_for_clients : Manager → Option Manager
create_services_for_clients m = elim m.device [
  | none ↦ none
  | some d ↦ some (serve_all d m.pending_clients (record m { pending_clients = [] }))
]

unfoldable pub connect : ℕ → Manager → Option Manager
connect client m =
    let m' = record m { pending_clients = m.pending_clients ++ client ∷ [] } in
    if is_some m.device then create_services_for_clients m' else some m'

unfoldable pub register_notification_listener : ℕ → Manager → Manager
register_notification_listener l m =
    emit (watch_death l)
      (record m { notification_listeners = insert_listener l m.notification_listeners })

unfoldable pub on_client_disconnected : ℕ → Manager → Manager
on_client_disconnected c m = record m { services = erase_service c m.services }

unfoldable pub on_notification_listener_destroyed : ℕ → Manager → Manager
on_notification_listener_destroyed l m = record m {
  notification_listeners = erase_listener l m.notification_listeners;
}

abbrev pub unwatch_listeners : List ℕ → List Effect → List Effect
unwatch_listeners [] log = log
unwatch_listeners (l ∷ ls) log = unwatch_listeners ls (unwatch_death l ∷ log)

abbrev pub unwatch_clients : List (ℕ × Service) → List Effect → List Effect
unwatch_clients [] log = log
unwatch_clients ((c, s) ∷ ss) log = unwatch_clients ss (unwatch_death c ∷ log)

-- Manager::~Manager, of which the effects remain.
unfoldable pub destroy : Manager → List Effect
destroy m = unwatch_clients m.services (unwatch_listeners m.notification_listeners m.log)
