-- ===== src/Daemon.antt =====
-- buffet/main.cc: the flags of the daemon, the options that they give, and the daemon's life.
pub mod Started
pub mod Tests
use rockchip_android_system.Prelude.{
  ℕ, Bool, true, false, Option, none, some, List, [], String, is_empty, if◌then◌else◌,
}
use rockchip_android_system.Manager.{Manager, Options as ManagerOptions}
use rockchip_android_system.Manager.Device.{Definitions, start, stop}
use rockchip_android_system.Manager.System.{new_manager}
use rockchip_android_system.BuffetConfig.{Options as ConfigOptions}

-- The flags that decide the options, as the flag parser leaves them.
pub record Flags : Type 0 where
  pub config_path : String
  pub state_path : String
  pub enable_xmpp : Bool
  pub disable_privet : Bool
  pub enable_ping : Bool
  pub device_whitelist : String
  pub test_privet_ssid : String
  pub test_definitions_path : String

abbrev pub default_config_file_path : String
default_config_file_path = "/etc/weaved/weaved.conf"

abbrev pub default_state_file_path : String
default_state_file_path = "/data/misc/weaved/device_reg_info"

-- What the flag parser leaves of a flag that is not given.
abbrev pub default_flags : Flags
default_flags = record {
  config_path = default_config_file_path;
  state_path = default_state_file_path;
  enable_xmpp = true;
  disable_privet = false;
  enable_ping = false;
  device_whitelist = "";
  test_privet_ssid = "";
  test_definitions_path = "";
}

-- What the code takes from libraries: base::FilePath of a text, string_utils::Split at commas,
-- trimmed and without empty parts, and the std::set of the parts.
pub record Library : Type 1 where
  pub FilePath : Type 0
  pub file_path : String → FilePath
  pub split : String → List String
  pub to_set : List String → List String

-- Manager::Options: those that the manager itself reads, and those of its configuration.
pub record Options (FilePath : Type 0) : Type 0 where
  pub manager_options : ManagerOptions
  pub config_options : ConfigOptions FilePath

-- The members of Daemon, with what it has told binder: whether the wrapper is there, and whether
-- the manager is registered as the service of the daemon.
pub record Daemon (FilePath : Type 0) : Type 0 where
  pub options : Options FilePath
  pub binder_wrapper : Bool
  pub registered : Bool
  pub manager : Option Manager

-- Daemon's constructor.
abbrev pub new_daemon : {FilePath : Type 0} → Options FilePath → Daemon FilePath
new_daemon o = record { options = o; binder_wrapper = false; registered = false; manager = none }

-- EX_OSERR.
abbrev pub ex_oserr : ℕ
ex_oserr = 71

-- OnInit: the exit code. `watched` is what BinderWatcher::Init answers, and `base_init` is OnInit
-- of the base class.
unfoldable pub on_init :
    {FilePath : Type 0}
    → Bool
    → (Daemon FilePath → ℕ × Daemon FilePath)
    → Daemon FilePath
    → ℕ × Daemon FilePath
on_init watched base_init d =
    let d' = record d { binder_wrapper = true } in if watched then base_init d' else (ex_oserr, d')

-- RegisterDBusObjectsAsync; `none` is a failed CHECK.
unfoldable pub register_dbus_objects_async :
    {FilePath : Type 0} → Definitions → Daemon FilePath → Option (Daemon FilePath)
register_dbus_objects_async defs d = elim (start defs (new_manager d.options.manager_options)) [
  | none ↦ none
  | some m ↦ some (record d { registered = true; manager = some m })
]

-- OnShutdown; `none` is a call on no manager.
unfoldable pub on_shutdown : {FilePath : Type 0} → Daemon FilePath → Option (Daemon FilePath)
on_shutdown d = elim d.manager [
  | none ↦ none
  | some m ↦ some (record d { manager = some (stop m) })
]

module _ ⦃lib : Library⦄ where
  open lib use {FilePath, file_path, split, to_set}

  -- The path of a flag that is empty is the default one.
  unfoldable pub fill_paths : Flags → Flags
  fill_paths f = record f {
    config_path = if is_empty f.config_path then default_config_file_path else f.config_path;
    state_path = if is_empty f.state_path then default_state_file_path else f.state_path;
  }

  -- The options that main gives the daemon.
  unfoldable pub main_options : Flags → Options FilePath
  unfolding fill_paths
  main_options given =
      let f = fill_paths given in
      record {
        manager_options = record {
          xmpp_enabled = f.enable_xmpp;
          disable_privet = f.disable_privet;
          enable_ping = f.enable_ping;
          device_whitelist = to_set (split f.device_whitelist);
        };
        config_options = record {
          client_id = "";
          client_secret = "";
          api_key = "";
          oauth_url = "";
          service_url = "";
          defaults = file_path f.config_path;
          settings = file_path f.state_path;
          definitions = file_path "/etc/weaved";
          test_definitions = file_path f.test_definitions_path;
          test_privet_ssid = f.test_privet_ssid;
        };
      }
