-- ===== src/Connection/Tests.antt =====
-- libweaved/service.cc: runs of a client that connects, adds a handler and pairs.
use rockchip_android_system.Prelude.{
  ℕ, inl, arith, eq_iff, false, ◌≡◌, refl, true, none, some, [], ◌∷◌, ◌++◌, ◌||◌,
}
use rockchip_android_system.Connection.{
  ServiceImpl, try_connecting, try_connecting_in_a_second, abort_command, connect_client, emit,
  lock, make_service, register_for_death_notifications, register_notification_listener,
  run_command_callback, run_pairing_callback, register_command_handler, World,
}
use rockchip_android_system.Connection.Calls.{
  add_command_handler, client_on_command, notify_service_manager_change, on_notification,
}
use rockchip_android_system.Connection.Life.{
  service_connect, run_task, handle, start, next_event, run_events, run_reconnect,
}
use rockchip_android_system.Connection.Replaced.{replaced_stays_gone}
use rockchip_android_system.Connection.Dispatch.{Chosen, Dispatched, add_command_handler-on_command}
use rockchip_android_system.Connection.Pairing.{on_notification_lem}
use rockchip_android_system.Connection.Settled.{awaits}
use rockchip_android_system.Connection.Retry.{connecting_goes_on}

abbrev connected : ServiceImpl
connected = record (make_service 3) {
  weave_service_manager = some 7;
  weave_service = some 8;
  pairing_info_callback = some 5;
  command_handlers = record { component = "window"; command_name = "lock.open"; callback = 4 } ∷ [];
}

abbrev world : World
world = record { service = some connected; next = 4; tasks = []; effects = [] }

abbrev after_adding : World
after_adding = record {
  service = some (record connected {
    command_handlers =
        record { component = "window"; command_name = "lock.open"; callback = 4 }
        ∷ record { component = "door"; command_name = "lock.open"; callback = 9 }
        ∷ [];
  });
  next = 4;
  tasks = [];
  effects = register_command_handler 8 "door" "lock.open" ∷ [];
}

adds : add_command_handler "door" "lock" "open" 9 true connected world ≡ some after_adding
unfolding add_command_handler
adds = refl

add_command_handler-on_command_example :
    ((k : ℕ) × Chosen "door" "lock.open" connected.command_handlers 9 k
      × ((client_on_command 3 "door" "lock.open" 1 after_adding).effects
          ≡ after_adding.effects ++ (run_command_callback k 1 ∷ [])))
    × Dispatched "window" "lock.open" connected.command_handlers 1 after_adding.effects
        (client_on_command 3 "window" "lock.open" 1 after_adding).effects
add_command_handler-on_command_example =
    add_command_handler-on_command "door" "lock" "open" "window" "lock.open" 9 1 connected world
      after_adding refl (inl (λ e. ground (arith, eq_iff "door" "window"))) adds

-- The daemon answers the session and the mode, but not the code: nobody is told of a pairing.
on_notification_lem_example :
    let w =
      on_notification
        ((9, some "session") ∷ (10, some "pinCode") ∷ (11, none) ∷ [])
        connected
        world in
    (w.service
      ≡ some (record connected {
        pairing_info = record {
          session_id = "session";
          pairing_mode = "pinCode";
          pairing_code = "";
        };
      }))
    × (w.effects ≡ run_pairing_callback 5 none ∷ [])
on_notification_lem_example =
    on_notification_lem ((9, some "session") ∷ (10, some "pinCode") ∷ (11, none) ∷ []) connected
      world

-- The daemon is not there yet when the client first tries.
abbrev retried : World
retried = record {
  service = some (make_service 0);
  next = 1;
  tasks = try_connecting_in_a_second 0 ∷ [];
  effects = [];
}

tried : handle (run_task 0 none true) service_connect ≡ some retried
unfolding handle service_connect
tried = refl

connecting_goes_on_example : (false || awaits 0 retried.tasks) ≡ true
connecting_goes_on_example =
    connecting_goes_on retried (make_service 0)
      (next_event (run_task 0 none true) service_connect retried start tried) refl

-- The first instance is replaced, and the second one connects to the daemon.
abbrev replaced : World
replaced = record {
  service = some (record (make_service 1) { weave_service_manager = some 7 });
  next = 2;
  tasks = try_connecting 0 ∷ [];
  effects =
      register_for_death_notifications 7 1
      ∷ connect_client 7 1
      ∷ register_notification_listener 7 1
      ∷ [];
}

replaces :
    run_events (run_task 1 (some 7) true ∷ []) (run_reconnect (make_service 0) service_connect)
    ≡ some replaced
unfolding run_events service_connect run_reconnect
replaces = refl

replaced_stays_gone_example :
    (lock 0 replaced ≡ none)
    × (client_on_command 0 "door" "lock.open" 1 replaced
        ≡ emit (abort_command 1 "service_unavailable" "Command handler is unavailable") replaced)
    × (notify_service_manager_change 0 ((9, some "session") ∷ []) replaced ≡ replaced)
unfolding service_connect
replaced_stays_gone_example =
    replaced_stays_gone service_connect replaced (make_service 0) (run_task 1 (some 7) true ∷ [])
      start refl replaces "door" "lock.open" 1 ((9, some "session") ∷ [])
