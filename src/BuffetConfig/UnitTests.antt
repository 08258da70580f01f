-- ===== src/BuffetConfig/UnitTests.antt =====
-- buffet/buffet_config_unittest.cc: the unit tests of the configuration, run on the model.
pub mod Fakes
use Prim.Native.String.{◌++◌ as append}
use rockchip_android_system.Prelude.{
  ◌≡◌, refl, Bool, true, false, not, ◌&&◌, Option, none, some, List, [], ◌∷◌, String, is_empty,
  ◌==◌, find, insert, if◌then◌else◌,
}
use rockchip_android_system.Settings.{Settings}
use rockchip_android_system.BuffetConfig.{
  Options, create_path, write_settings, save_settings, load_settings,
}
use rockchip_android_system.BuffetConfig.Backends.{
  Base64, Encryptor, FileSystem, FileIo, BuffetConfig, fake_encryptor, new_buffet_config,
  set_encryptor, set_file_io, default_file_io, storage,
}
use rockchip_android_system.BuffetConfig.Defaults.{
  Library, load_first, load_modes, read_modes, load_role, load_flags, load_texts, load_store,
}

-- The keys of the store, their texts as brillo::KeyValueStore keeps them: Booleans as texts too.
abbrev config_store : List (String × String)
config_store =
    ("client_id", "conf_client_id")
    ∷ ("client_secret", "conf_client_secret")
    ∷ ("api_key", "conf_api_key")
    ∷ ("oauth_url", "conf_oauth_url")
    ∷ ("service_url", "conf_service_url")
    ∷ ("oem_name", "conf_oem_name")
    ∷ ("model_name", "conf_model_name")
    ∷ ("model_id", "ABCDE")
    ∷ ("polling_period_ms", "12345")
    ∷ ("backup_polling_period_ms", "6589")
    ∷ ("wifi_auto_setup_enabled", "false")
    ∷ ("ble_setup_enabled", "true")
    ∷ ("pairing_modes", "pinCode,embeddedCode")
    ∷ ("embedded_code", "567")
    ∷ ("name", "conf_name")
    ∷ ("description", "conf_description")
    ∷ ("location", "conf_location")
    ∷ ("local_anonymous_access_role", "user")
    ∷ ("local_pairing_enabled", "false")
    ∷ ("local_discovery_enabled", "false")
    ∷ ("device_kind", "conf_device_kind")
    ∷ ("device_id", "conf_device_id")
    ∷ ("refresh_token", "conf_refresh_token")
    ∷ ("robot_account", "conf_robot_account")
    ∷ ("last_configured_ssid", "conf_last_configured_ssid")
    ∷ []

-- Two of the enumerations of libweave, and the texts of those of their values that the test names.
data PairingType : Type 0 where
  pin_code embedded_code : PairingType

data AuthScope : Type 0 where
  no_scope user_scope : AuthScope

abbrev boolean_of : String → Option Bool
boolean_of text = if text == "true" then some true else if text == "false" then some false else none

abbrev found_boolean : Option String → Option Bool
found_boolean none = none
found_boolean (some text) = boolean_of text

abbrev weave_enumerations : Library
weave_enumerations = record {
  PairingType = PairingType;
  AuthScope = AuthScope;
  Store = List (String × String);
  get_string = λ store key. find key store;
  get_boolean = λ store key. found_boolean (find key store);
  product_version = none;
  split =
      λ text. if text == "pinCode,embeddedCode" then "pinCode" ∷ "embeddedCode" ∷ [] else text ∷ [];
  pairing_type = λ text.
      if text == "pinCode"
      then some pin_code
      else if text == "embeddedCode"
      then some embedded_code
      else none;
  auth_scope = λ text. if text == "user" then some user_scope else none;
  insert_mode = λ mode modes. mode ∷ modes;
}

-- weave::Settings as its constructor leaves it.
abbrev new_settings : Settings PairingType AuthScope
new_settings = record {
  cloud_id = "";
  device_id = "";
  firmware_version = "";
  oem_name = "";
  model_name = "";
  model_id = "";
  pairing_modes = [];
  embedded_code = "";
  name = "";
  description = "";
  location = "";
  client_id = "";
  client_secret = "";
  api_key = "";
  oauth_url = "";
  service_url = "";
  local_anonymous_access_role = no_scope;
  local_discovery_enabled = true;
  local_pairing_enabled = true;
  wifi_auto_setup_enabled = true;
  test_privet_ssid = "";
}

-- What the test of LoadDefaults expects of the settings.
abbrev AsConfigured : Settings PairingType AuthScope → Type 0
AsConfigured s =
    (s.client_id ≡ "conf_client_id")
    × (s.client_secret ≡ "conf_client_secret")
    × (s.api_key ≡ "conf_api_key")
    × (s.oauth_url ≡ "conf_oauth_url")
    × (s.service_url ≡ "conf_service_url")
    × (s.oem_name ≡ "conf_oem_name")
    × (s.model_name ≡ "conf_model_name")
    × (s.model_id ≡ "ABCDE")
    × (s.wifi_auto_setup_enabled ≡ false)
    × (s.pairing_modes ≡ embedded_code ∷ pin_code ∷ [])
    × (s.embedded_code ≡ "567")
    × (s.name ≡ "conf_name")
    × (s.description ≡ "conf_description")
    × (s.location ≡ "conf_location")
    × (s.local_anonymous_access_role ≡ user_scope)
    × (s.local_pairing_enabled ≡ false)
    × (s.local_discovery_enabled ≡ false)

-- LoadConfig.
load_config :
    let (ok, settings) = load_store ⦃lib = weave_enumerations⦄ config_store new_settings in
    (ok ≡ true) × AsConfigured settings
unfolding load_store load_first load_modes read_modes load_role load_flags load_texts find
load_config = (
  refl,
  (
    refl, refl, refl, refl, refl, refl, refl, refl, refl, refl, refl, refl, refl, refl, refl, refl,
    refl,
  ),
)
