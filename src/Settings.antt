-- ===== src/Settings.antt =====
-- weave::Settings, the structure that libweave shares with the daemon: the members that the code
-- here reads or writes. `PairingType` and `AuthScope` are enumerations of libweave.
use rockchip_android_system.Prelude.{Bool, List, String}

pub record Settings (PairingType AuthScope : Type 0) : Type 0 where
  pub cloud_id : String
  pub device_id : String
  pub firmware_version : String
  pub oem_name : String
  pub model_name : String
  pub model_id : String
  pub pairing_modes : List PairingType
  pub embedded_code : String
  pub name : String
  pub description : String
  pub location : String
  pub client_id : String
  pub client_secret : String
  pub api_key : String
  pub oauth_url : String
  pub service_url : String
  pub local_anonymous_access_role : AuthScope
  pub local_discovery_enabled : Bool
  pub local_pairing_enabled : Bool
  pub wifi_auto_setup_enabled : Bool
  pub test_privet_ssid : String
