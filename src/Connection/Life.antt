-- ===== src/Connection/Life.antt =====
-- libweaved/service.cc: how an instance connects, and is replaced when the daemon dies.
use rockchip_android_system.Prelude.{
  ℕ, zero, suc, ◌≡◌, Bool, true, false, Option, none, some, List, [], ◌∷◌, String,
}
use rockchip_android_system.Connection.{
  ServiceImpl, Task, try_connecting, try_connecting_in_a_second, reconnect_on_service_disconnection,
  register_for_death_notifications, unregister_for_death_notifications, connect_client,
  register_notification_listener, World, emit, post, put, lock, make_service,
}
use rockchip_android_system.Connection.Calls.{
  add_command_handler, client_on_command, set_pairing_info_listener, notify_service_manager_change,
  client_on_service_connected,
}

-- BeginConnect of the instance `n`.
abbrev pub begin_connect : ℕ → World → World
begin_connect n w = post (try_connecting n) w

-- Service::Connect.
unfoldable pub service_connect : World
service_connect =
    begin_connect 0 (record { service = some (make_service 0); next = 1; tasks = []; effects = [] })

-- ~ServiceImpl.
unfoldable pub destroy : ServiceImpl → World → World
destroy s w = elim s.weave_service [
  | none ↦ w
  | some binder ↦ emit (unregister_for_death_notifications binder) w
]

-- OnWeaveServiceDisconnected of the instance `n`.
unfoldable pub on_weave_service_disconnected : ℕ → World → World
on_weave_service_disconnected n w = post (reconnect_on_service_disconnection n) w

-- TryConnecting. `found` is the binder object of the service manager, if there is one, and
-- `registered` tells whether it could be watched.
unfoldable pub run_try_connecting : Option ℕ → Bool → ServiceImpl → World → World
unfolding on_weave_service_disconnected
run_try_connecting none registered s w = post (try_connecting_in_a_second s.number) w
run_try_connecting (some binder) false s w = on_weave_service_disconnected s.number w
run_try_connecting (some binder) true s w =
    let w1 = emit (register_for_death_notifications binder s.number) w in
    let w2 = put (record s { weave_service_manager = some binder }) w1 in
    emit (register_notification_listener binder s.number) (emit (connect_client binder s.number) w2)

-- ReconnectOnServiceDisconnection: the new instance takes the place of the old one, which is
-- destroyed with its weave_service_ cleared.
unfoldable pub run_reconnect : ServiceImpl → World → World
unfolding destroy
run_reconnect s w =
    let old : ServiceImpl = record s { weave_service = none } in
    let w1 = begin_connect w.next (record w { next = suc w.next }) in
    destroy old (put (make_service w.next) w1)

-- What happens to a client: the message loop runs its task at a place in the queue, with what
-- binder answers in TryConnecting, binder calls in or reports a death, or the client calls.
pub data Event : Type 0 where
  run_task : ℕ → Option ℕ → Bool → Event
  service_connected : ℕ → ℕ → Event
  command : ℕ → String → String → ℕ → Event
  notification : ℕ → List (ℕ × Option String) → Event
  binder_died : ℕ → Event
  add_handler : String → String → String → ℕ → Bool → Event
  set_listener : Option ℕ → Event
  destroy_subscription : Event

-- The task at a place of the queue, and the others.
unfoldable pub take_task : ℕ → List Task → Option (Task × List Task)
take_task n [] = none
take_task zero (t ∷ ts) = some (t, ts)
take_task (suc n) (t ∷ ts) =
    let rest = take_task n ts in elim rest [ none ↦ none | some (u, us) ↦ some (u, t ∷ us) ]

-- A task runs only if its weak pointer still gives the instance.
unfoldable pub run : Task → Option ℕ → Bool → World → World
unfolding lock run_try_connecting run_reconnect
run (try_connecting n) found registered w = elim (lock n w) [
  | none ↦ w
  | some s ↦ run_try_connecting found registered s w
]
run (try_connecting_in_a_second n) found registered w = elim (lock n w) [
  | none ↦ w
  | some s ↦ run_try_connecting found registered s w
]
run (reconnect_on_service_disconnection n) found registered w = elim (lock n w) [
  | none ↦ w
  | some s ↦ run_reconnect s w
]

-- One event. A call of the client on an instance that is gone does nothing, since the client holds
-- weak pointers only. The process ends in a failed CHECK: `none`.
unfoldable pub handle : Event → World → Option World
unfolding client_on_service_connected client_on_command notify_service_manager_change lock
    on_weave_service_disconnected add_command_handler set_pairing_info_listener destroy take_task
    run
handle (run_task place found registered) w = elim (take_task place w.tasks) [
  | none ↦ some w
  | some (t, ts) ↦ some (run t found registered (record w { tasks = ts }))
]
handle (service_connected n binder) w = some (client_on_service_connected n binder w)
handle (command n component name c) w = some (client_on_command n component name c w)
handle (notification n answers) w = some (notify_service_manager_change n answers w)
handle (binder_died n) w = elim (lock n w) [
  | none ↦ some w
  | some s ↦ some (on_weave_service_disconnected n w)
]
handle (add_handler component trait_name name callback accepted) w = elim w.service [
  | none ↦ some w
  | some s ↦ add_command_handler component trait_name name callback accepted s w
]
handle (set_listener callback) w = elim w.service [
  | none ↦ some w
  | some s ↦ some (set_pairing_info_listener callback s w)
]
handle destroy_subscription w = elim w.service [
  | none ↦ some w
  | some s ↦ some (destroy s (record w { service = none }))
]

-- A sequence of events.
unfoldable pub run_events : List Event → World → Option World
unfolding handle
run_events [] w = some w
run_events (e ∷ es) w = elim (handle e w) [ none ↦ none | some v ↦ run_events es v ]

-- The worlds that events lead to.
pub data Reach : World → Type 0 where
  start : Reach service_connect
  next_event : (e : Event) (w w' : World) → Reach w → handle e w ≡ some w' → Reach w'
