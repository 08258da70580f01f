-- ===== src/AccessPoint.antt =====
-- buffet/ap_manager_client.h and ap_manager_client.cc: the access point that the daemon opens to be
-- set up, as a service of the apmanager daemon.
pub mod Own
pub mod Tests
use rockchip_android_system.Prelude.{
  Bool, true, false, Option, none, some, List, [], ◌∷◌, String, is_some, ◌==◌, ◌&&◌, if◌then◌else◌,
}

-- What the client does to apmanager: it watches the objects of apmanager, a service has been
-- created for it, and it removes, names and starts services, which are known by their paths.
pub data Effect : Type 0 where
  watch_objects : Effect
  created removed started : String → Effect
  set_ssid : String → String → Effect

-- ApManagerClient. `watching` tells whether object_manager_proxy_ is there, `has_manager` whether
-- manager_proxy_ is; a path that is not valid is `none`. `log` holds the effects, the last one
-- first.
pub record ApManagerClient : Type 0 where
  pub watching : Bool
  pub has_manager : Bool
  pub service_path : Option String
  pub service_proxy : Option String
  pub ssid : String
  pub log : List Effect

abbrev pub new_client : ApManagerClient
new_client = record {
  watching = false;
  has_manager = false;
  service_path = none;
  service_proxy = none;
  ssid = "";
  log = [];
}

abbrev pub emit : Effect → ApManagerClient → ApManagerClient
emit e c = record c { log = e ∷ c.log }

-- The path is the one of the client's service.
abbrev pub is_own : String → ApManagerClient → Bool
is_own path c = elim c.service_path [ none ↦ false | some own ↦ own == path ]

-- ApManagerClient::Start.
unfoldable pub start : String → ApManagerClient → ApManagerClient
start ssid c =
    if is_some c.service_path
    then c
    else emit watch_objects (record c { ssid = ssid; watching = true })

-- ApManagerClient::RemoveService, on a valid path. Where there is no manager the code reads through
-- a null pointer: `none`.
unfoldable pub remove_service : String → ApManagerClient → Option ApManagerClient
remove_service path c = if c.has_manager then some (emit (removed path) c) else none

-- The first part of Stop.
unfoldable pub remove_own : ApManagerClient → ApManagerClient
remove_own c = elim c.service_path [
  | none ↦ c
  | some path ↦ if c.has_manager then emit (removed path) c else c
]

-- ApManagerClient::Stop, and ~ApManagerClient.
unfoldable pub stop : ApManagerClient → ApManagerClient
unfolding remove_own
stop c = record new_client { log = (remove_own c).log }

-- ApManagerClient::OnManagerAdded. `answer` is the path that CreateService gives, `none` if it
-- fails.
unfoldable pub on_manager_added : Option String → ApManagerClient → ApManagerClient
on_manager_added answer c =
    let d = record c { has_manager = true } in
    if is_some c.service_path then d else elim answer [
      | none ↦ d
      | some path ↦ emit (created path) (record d { service_path = some path })
    ]

-- ApManagerClient::OnServiceAdded.
unfoldable pub on_service_added : String → ApManagerClient → Option ApManagerClient
unfolding remove_service
on_service_added path c =
    if is_own path c
    then some (emit (set_ssid path c.ssid) (record c { service_proxy = some path }))
    else remove_service path c

-- ApManagerClient::OnSsidSet.
unfoldable pub on_ssid_set : Bool → ApManagerClient → ApManagerClient
on_ssid_set success c = elim c.service_proxy [
  | none ↦ c
  | some path ↦ if success then emit (started path) c else c
]

-- ApManagerClient::OnServiceRemoved.
unfoldable pub on_service_removed : String → ApManagerClient → ApManagerClient
on_service_removed path c =
    if is_own path c then record c { service_path = none; service_proxy = none } else c

-- ApManagerClient::OnManagerRemoved.
unfoldable pub on_manager_removed : ApManagerClient → ApManagerClient
unfolding stop
on_manager_removed c = stop (record c { has_manager = false })

-- What reaches the client: StartAccessPoint and StopAccessPoint of ShillClient, and apmanager.
pub data Event : Type 0 where
  start_access_point : String → Event
  stop_access_point : Event
  manager_added : Option String → Event
  manager_removed : Event
  service_added service_removed : String → Event
  ssid_set : Bool → Event

unfoldable pub handle : Event → ApManagerClient → Option ApManagerClient
unfolding start stop on_manager_added on_manager_removed on_service_added on_service_removed
    on_ssid_set
handle (start_access_point ssid) c = some (start ssid c)
handle stop_access_point c = some (stop c)
handle (manager_added answer) c = some (on_manager_added answer c)
handle manager_removed c = some (on_manager_removed c)
handle (service_added path) c = on_service_added path c
handle (service_removed path) c = some (on_service_removed path c)
handle (ssid_set success) c = some (on_ssid_set success c)

unfoldable pub run_events : List Event → ApManagerClient → Option ApManagerClient
unfolding handle
run_events [] c = some c
run_events (e ∷ es) c = elim (handle e c) [ none ↦ none | some d ↦ run_events es d ]
