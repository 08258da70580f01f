-- ===== src/Manager.antt =====
-- buffet/manager.h and manager.cc: the state of the daemon's manager, and what it publishes.
-- Binder objects (clients, listeners) and devices are known by numbers, which stand for their
-- addresses.
pub mod Device
pub mod Clients
pub mod Notices
pub mod System
pub mod Served
pub mod Made
pub mod Interface
pub mod Shown
pub mod Available
pub mod Tests
use rockchip_android_system.Prelude.{
  ℕ, Bool, true, false, Option, none, some, List, [], ◌∷◌, ◌++◌, String, is_nil, ltb, nat_eq,
  if◌then◌else◌, ◌==◌,
}
use rockchip_android_system.NotificationListener
use rockchip_android_system.Settings.{Settings}
use rockchip_android_system.Strings.{BinderStrings}

-- The service object that a client of the daemon is given: BinderWeaveService with its device.
pub record Service : Type 0 where
  pub device : ℕ
  pub client : ℕ

-- What the manager does to others.
pub data Effect : Type 0 where
  notify_change : ℕ → List ℕ → Effect
  set_property : String → Effect
  service_connected : ℕ → Service → Effect
  watch_death : ℕ → Effect
  unwatch_death : ℕ → Effect
  post_reboot : Effect
  reboot : Effect
  make_device : ℕ → Effect
  drop_device : ℕ → Effect
  add_traits : String → Effect
  add_commands : String → Effect
  add_states : String → Effect
  set_state : String → Effect
  add_callbacks : Effect
  add_reboot_handler : Effect
  add_ping_handlers : Effect
  init_power_manager : Effect

-- The options of the manager that decide what RestartWeave makes.
pub record Options : Type 0 where
  pub xmpp_enabled : Bool
  pub disable_privet : Bool
  pub enable_ping : Bool
  pub device_whitelist : List String

-- The members of Manager. `running` stands for the objects that RestartWeave makes and Stop resets
-- together (task runner, configuration, HTTP client, shill client); `http_server` for the web
-- server and mDNS clients. `log` holds the effects, the last one first.
pub record Manager : Type 0 where
  pub options : Options
  pub running : Bool
  pub http_server : Bool
  pub bluetooth : Bool
  pub device : Option ℕ
  pub next_device : ℕ
  pub pending_clients : List ℕ
  pub services : List (ℕ × Service)
  pub notification_listeners : List ℕ
  pub cloud_id : String
  pub device_id : String
  pub device_name : String
  pub device_description : String
  pub device_location : String
  pub oem_name : String
  pub model_name : String
  pub model_id : String
  pub pairing_session_id : String
  pub pairing_mode : String
  pub pairing_code : String
  pub state : String
  pub log : List Effect

abbrev pub emit : Effect → Manager → Manager
emit e m = record m { log = e ∷ m.log }

-- A pointer to one of the text members that UpdateValue writes.
pub data Prop : Type 0 where
  cloud_id device_id device_name device_description device_location : Prop
  oem_name model_name model_id pairing_session_id pairing_mode pairing_code : Prop

abbrev pub get : Prop → Manager → String
get cloud_id m = m.cloud_id
get device_id m = m.device_id
get device_name m = m.device_name
get device_description m = m.device_description
get device_location m = m.device_location
get oem_name m = m.oem_name
get model_name m = m.model_name
get model_id m = m.model_id
get pairing_session_id m = m.pairing_session_id
get pairing_mode m = m.pairing_mode
get pairing_code m = m.pairing_code

abbrev pub set : Prop → String → Manager → Manager
set cloud_id v m = record m { cloud_id = v }
set device_id v m = record m { device_id = v }
set device_name v m = record m { device_name = v }
set device_description v m = record m { device_description = v }
set device_location v m = record m { device_location = v }
set oem_name v m = record m { oem_name = v }
set model_name v m = record m { model_name = v }
set model_id v m = record m { model_id = v }
set pairing_session_id v m = record m { pairing_session_id = v }
set pairing_mode v m = record m { pairing_mode = v }
set pairing_code v m = record m { pairing_code = v }

-- UpdateValue: the manager and the notification ids so far.
unfoldable pub update_value : Prop → String → ℕ → Manager × List ℕ → Manager × List ℕ
update_value prop value id (m, ids) =
    if get prop m == value then (m, ids) else (set prop value m, ids ++ id ∷ [])

abbrev pub notify_all : List ℕ → List ℕ → List Effect → List Effect
notify_all ids [] log = log
notify_all ids (l ∷ ls) log = notify_all ids ls (notify_change l ids ∷ log)

unfoldable pub notify_service_manager_change : List ℕ → Manager → Manager
notify_service_manager_change ids m =
    if is_nil ids then m else record m { log = notify_all ids m.notification_listeners m.log }

unfoldable pub on_trait_defs_changed : Manager → Manager
on_trait_defs_changed = notify_service_manager_change (NotificationListener.traits ∷ [])

unfoldable pub on_component_tree_changed : Manager → Manager
on_component_tree_changed = notify_service_manager_change (NotificationListener.components ∷ [])

-- `state` is the text of the GcdState.
unfoldable pub on_gcd_state_changed : String → Manager → Manager
on_gcd_state_changed state m =
    emit (set_property state)
      (notify_service_manager_change (NotificationListener.state ∷ []) (record m { state = state }))

unfoldable pub on_config_changed : {P A : Type 0} → Settings P A → Manager → Manager
on_config_changed s m =
    let (m', ids) = update_value model_name s.model_name NotificationListener.model_name (
      update_value model_id s.model_id NotificationListener.model_id (
        update_value oem_name s.oem_name NotificationListener.oem_name (
          update_value device_location s.location NotificationListener.device_location (
            update_value device_description s.description NotificationListener.device_description (
              update_value device_name s.name NotificationListener.device_name (
                update_value device_id s.device_id NotificationListener.device_id
                  (update_value cloud_id s.cloud_id NotificationListener.cloud_id (m, [])))))))) in
    notify_service_manager_change ids m'

-- The three values of OnPairingStart and OnPairingEnd.
unfoldable pub update_pairing : String → String → String → Manager → Manager
update_pairing session mode code m =
    let (m', ids) = update_value pairing_code code NotificationListener.pairing_code (
      update_value pairing_mode mode NotificationListener.pairing_mode (
        update_value pairing_session_id session NotificationListener.pairing_session_id (m, []))) in
    notify_service_manager_change ids m'

-- `mode` is the text of the pairing type, `code` the code as a text.
unfoldable pub on_pairing_start : String → String → String → Manager → Manager
unfolding update_pairing
on_pairing_start session mode code m = update_pairing session mode code m

unfoldable pub on_pairing_end : String → Manager → Manager
unfolding update_pairing
on_pairing_end session m = if m.pairing_session_id == session then update_pairing "" "" "" m else m

-- The getters of IWeaveServiceManager for these members, and getState.
module _ ⦃b : BinderStrings⦄ where
  unfoldable pub get_value : Prop → Manager → b.String16
  get_value prop m = b.to_string16 (get prop m)

  unfoldable pub get_state : Manager → b.String16
  get_state m = b.to_string16 m.state

  -- getTraits and getComponents, `text` being the device's JSON. `none`: there is no device, and
  -- the code reads through a null pointer.
  unfoldable pub get_from_device : (ℕ → String) → Manager → Option b.String16
  get_from_device text m = elim m.device [ none ↦ none | some d ↦ some (b.to_string16 (text d)) ]
