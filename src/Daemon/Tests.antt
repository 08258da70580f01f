-- ===== src/Daemon/Tests.antt =====
-- buffet/main.cc: runs of the daemon with flags that turn privet off or leave a path empty.
use rockchip_android_system.Prelude.{
  ◌≡◌, refl, true, false, not, String, none, some, [], ◌∷◌, is_some,
}
use rockchip_android_system.Manager.{
  Manager, make_device, add_traits, add_callbacks, add_reboot_handler, init_power_manager,
}
use rockchip_android_system.Manager.Clients.{create_services_for_clients, serve_all}
use rockchip_android_system.Manager.Device.{
  Definitions, load_definitions, load_state_defaults, load_trait_definitions,
  load_command_definitions, load_state_definitions, load_all, make, create_device, restart_weave,
  start, stop,
}
use rockchip_android_system.Manager.System.{new_manager}
use rockchip_android_system.Daemon.{
  Library, Flags, default_flags, new_daemon, on_init, register_dbus_objects_async, on_shutdown,
  main_options,
}
use rockchip_android_system.Daemon.Started.{register_dbus_objects_async-on_shutdown}

abbrev paths : Library
paths = record {
  FilePath = String;
  file_path = λ text. text;
  split = λ text. text ∷ [];
  to_set = λ texts. texts;
}

abbrev without_privet : Flags
without_privet = record default_flags { disable_privet = true; test_privet_ssid = "test" }

abbrev definitions : Definitions
definitions = record {
  traits = some "lock" ∷ [];
  commands = [];
  test_commands = [];
  states = [];
  defaults = [];
}

abbrev started : Manager
started = record (new_manager (main_options ⦃lib = paths⦄ without_privet).manager_options) {
  running = true;
  device = some 0;
  next_device = 1;
  log =
      add_reboot_handler
      ∷ add_callbacks
      ∷ add_traits "lock"
      ∷ make_device 0
      ∷ init_power_manager
      ∷ [];
}

starts :
    start definitions (new_manager (main_options ⦃lib = paths⦄ without_privet).manager_options)
    ≡ some started
unfolding start restart_weave create_device make load_all load_trait_definitions
    load_command_definitions load_state_definitions load_definitions load_state_defaults
    create_services_for_clients serve_all main_options new_manager
starts = refl

-- Binder cannot be watched: the daemon ends before it has registered.
cannot_watch :
    on_init {FilePath = String} false
      (λ d. (0, d))
      (new_daemon (main_options ⦃lib = paths⦄ default_flags))
    ≡ (71, record (new_daemon (main_options ⦃lib = paths⦄ default_flags)) { binder_wrapper = true })
unfolding on_init
cannot_watch = refl

register_dbus_objects_async-on_shutdown_example :
    let d = new_daemon (main_options ⦃lib = paths⦄ without_privet) in
    let d' = record d { registered = true; manager = some started } in
    (register_dbus_objects_async definitions d ≡ some d')
    × (started.running ≡ true)
    × (started.http_server ≡ not without_privet.disable_privet)
    × (is_some started.device ≡ without_privet.disable_privet)
    × (on_shutdown d' ≡ some (record d' { manager = some (stop started) }))
    × ((stop started).running ≡ false)
    × ((stop started).http_server ≡ false)
    × ((stop started).device ≡ none)
register_dbus_objects_async-on_shutdown_example =
    register_dbus_objects_async-on_shutdown ⦃lib = paths⦄ without_privet definitions started starts

-- A path that is given as empty is the default one.
empty_paths :
    main_options ⦃lib = paths⦄ (record without_privet { config_path = ""; state_path = "" })
    ≡ main_options ⦃lib = paths⦄ without_privet
unfolding main_options
empty_paths = refl
