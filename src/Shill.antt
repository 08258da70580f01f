-- ===== src/Shill.antt =====
-- buffet/shill_client.h and shill_client.cc: what the client of the shill daemon keeps and does.
-- D-Bus, shill's constants and the error classes are the instance argument `ShillApi`. The answers
-- of a blocking D-Bus call are an argument of the operation that makes it.
pub mod Connect
pub mod Devices
pub mod Signals
pub mod System
pub mod Connectivity
pub mod Attempts
pub mod Dropped
pub mod Outcome
pub mod Replies
pub mod Tests
use rockchip_android_system.Prelude.{
  ℕ, Bool, true, false, Option, none, some, List, [], ◌∷◌, ◌++◌, String, is_empty, find,
  if◌then◌else◌, ◌==◌, ◌||◌, ltb,
}

-- weave::provider::Network::State.
pub data NetworkState : Type 0 where
  offline error connecting online : NetworkState

-- What the client takes from dbus/shill/dbus-constants.h, brillo::Any, dbus::ObjectPath and the
-- error classes. `state_value` is the number of an enumerator of Network::State, by which `>`
-- compares; `add_error c m` is the error that AddTo puts into a null pointer, and `convert_error`
-- that of ConvertError.
pub record ShillApi : Type 1 where
  pub Any : Type 0
  pub Error : Type 0
  pub BrilloError : Type 0
  pub convert_error : BrilloError → Error
  pub try_string : Any → String
  pub try_path : Any → String
  pub try_paths : Any → List String
  pub try_byte : Any → ℕ
  pub path_IsValid : String → Bool
  pub state_value : NetworkState → ℕ
  pub add_error : String → String → Error
  pub devices_property : String
  pub interface_property : String
  pub selected_service_property : String
  pub state_property : String
  pub signal_strength_property : String
  pub error_property : String
  pub state_ready : String
  pub state_portal : String
  pub state_online : String
  pub state_association : String
  pub state_configuration : String
  pub state_failure : String
  pub state_activation_failure : String
  pub state_idle : String
  pub state_offline : String
  pub state_disconnect : String
  pub error_out_of_range : String
  pub error_internal : String

-- A ServiceProxy that a shared_ptr points to: which object it is, and the path of its service.
pub record ServiceProxy : Type 0 where
  pub id : ℕ
  pub path : String

-- The object behind a shared_ptr has this path.
abbrev pub has_path : Option ServiceProxy → String → Bool
has_path none p = false
has_path (some s) p = s.path == p

pub record DeviceState : Type 0 where
  pub selected_service : Option ServiceProxy
  pub service_state : NetworkState

-- The properties of the service that Connect configures. The two constant entries are
-- SaveCredentials and AutoConnect.
pub record ServiceProperties : Type 0 where
  pub ssid : String
  pub passphrase : Option String
  pub save_credentials : Bool
  pub auto_connect : Bool

module _ ⦃api : ShillApi⦄ where
  open api use {
    Any, Error, try_string, state_ready, state_portal, state_online, state_association,
    state_configuration, state_failure, state_activation_failure, state_idle, state_offline,
    state_disconnect, state_property,
  }

  -- What the client asks of others. `run` is a callback called at once, `post` one handed to the
  -- message loop.
  pub data Effect : Type 0 where
    run : ℕ → Option Error → Effect
    post : ℕ → Option Error → Effect
    post_notify : Bool → Effect
    run_listener : ℕ → Effect
    configure : ServiceProperties → Effect
    request_scan : Effect
    call_connect : ServiceProxy → Effect
    register_service : ServiceProxy → Effect
    register_device : String → Effect
    post_timeout : ServiceProxy → Effect
    release_proxy : ServiceProxy → Effect

  abbrev pub Properties : Type 0
  Properties = List (String × Any)

  -- The fields of ShillClient. `next_id` numbers the proxies made, and `log` holds the effects,
  -- the last one first.
  pub record Client : Type 0 where
    pub device_whitelist : List String
    pub connectivity_listeners : List ℕ
    pub have_called_connect : Bool
    pub connecting_service : Option ServiceProxy
    pub connecting_service_error : String
    pub connect_done_callback : Option ℕ
    pub devices : List (String × DeviceState)
    pub connectivity_state : NetworkState
    pub next_id : ℕ
    pub log : List Effect

  -- The answers of GetProperties at the time of an operation; `none` is a failed call.
  pub record Answers : Type 0 where
    pub manager : Option Properties
    pub device : String → Option Properties
    pub service : String → Option Properties

  abbrev pub emit : Effect → Client → Client
  emit e c = record c { log = e ∷ c.log }

  unfoldable pub get_state_for_service : Option Properties → Option String
  get_state_for_service none = none
  get_state_for_service (some ps) = elim (find state_property ps) [
    | none ↦ none
    | some v ↦ if is_empty (try_string v) then none else some (try_string v)
  ]

  unfoldable pub service_state_to_network_state : String → NetworkState
  service_state_to_network_state s =
      if s == state_ready || s == state_portal || s == state_online
      then online
      else if s == state_association || s == state_configuration
      then connecting
      else if s == state_failure || s == state_activation_failure
      then error
      else if s == state_idle || s == state_offline || s == state_disconnect
      then offline
      else offline

  -- One round of the loop of UpdateConnectivityState, and the loop over `devices_`.
  unfoldable pub better : NetworkState → NetworkState → NetworkState
  better best n = if ltb (api.state_value best) (api.state_value n) then n else best

  unfoldable pub most_connected : NetworkState → List (String × DeviceState) → NetworkState
  most_connected best [] = best
  most_connected best ((p, d) ∷ ds) = most_connected (better best d.service_state) ds

  abbrev pub is_online : NetworkState → Bool
  is_online online = true
  is_online _ = false

  unfoldable pub update_connectivity_state : Client → Client
  update_connectivity_state c =
      let best = most_connected offline c.devices in
      emit (post_notify (is_online best)) (record c { connectivity_state = best })

  abbrev run_listeners : List ℕ → List Effect → List Effect
  run_listeners [] l = l
  run_listeners (x ∷ xs) l = run_listeners xs (run_listener x ∷ l)

  -- The argument of NotifyConnectivityListeners is only logged.
  unfoldable pub notify_connectivity_listeners : Client → Client
  notify_connectivity_listeners c = record c { log = run_listeners c.connectivity_listeners c.log }

  unfoldable pub cleanup_connecting_service : Client → Client
  cleanup_connecting_service c = elim c.connecting_service [
    | none ↦ record c { connect_done_callback = none; have_called_connect = false }
    | some s ↦ record c {
      connecting_service = none;
      connect_done_callback = none;
      have_called_connect = false;
      log = release_proxy s ∷ c.log;
    }
  ]

  unfoldable pub add_connection_changed_callback : ℕ → Client → Client
  add_connection_changed_callback l c = record c {
    connectivity_listeners = c.connectivity_listeners ++ l ∷ [];
  }
