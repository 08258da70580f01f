-- ===== src/Connection/Calls.antt =====
-- libweaved/service.cc: what the client calls on an instance, and the commands and notifications
-- that the daemon sends to it.
use Prim.Native.String.{◌++◌ as append}
use rockchip_android_system.Prelude.{
  ℕ, ◌==◌, ◌&&◌, ◌||◌, Bool, true, false, Option, none, some, List, [], ◌∷◌, ◌++◌, String, is_empty,
  nat_eq, if◌then◌else◌,
}
use rockchip_android_system.NotificationListener.{pairing_session_id, pairing_mode, pairing_code}
use rockchip_android_system.Connection.{
  PairingInfo, CommandHandlerEntry, ServiceImpl, run_command_callback, run_pairing_callback,
  run_connection_callback, register_command_handler, abort_command, World, emit, put, lock,
}

-- The full name of a command, as StringPrintf("%s.%s", …) writes it.
abbrev pub full_name : String → String → String
full_name trait_name command_name = append trait_name (append "." command_name)

-- AddCommandHandler. `accepted` tells whether registerCommandHandler of the daemon gives an ok
-- status. Where a CHECK fails the process ends: `none`.
unfoldable pub add_command_handler :
    String → String → String → ℕ → Bool → ServiceImpl → World → Option World
add_command_handler component trait_name command_name callback accepted s w =
    if is_empty component || is_empty command_name then none else elim s.weave_service [
      | none ↦ none
      | some binder ↦
          let entry : CommandHandlerEntry = record {
            component = component;
            command_name = full_name trait_name command_name;
            callback = callback;
          } in
          let s' : ServiceImpl = record s {
            command_handlers = s.command_handlers ++ (entry ∷ []);
          } in
          if accepted
          then some (emit (register_command_handler binder component entry.command_name) (put s' w))
          else none
    ]

-- The loop of OnCommand: the callback of the first entry for the command.
unfoldable pub find_handler : String → String → List CommandHandlerEntry → Option ℕ
find_handler component name [] = none
find_handler component name (e ∷ es) =
    if e.component == component && e.command_name == name
    then some e.callback
    else find_handler component name es

-- ServiceImpl::OnCommand; a command without a handler is left as it is.
unfoldable pub on_command : String → String → ℕ → ServiceImpl → World → World
unfolding find_handler
on_command component name command s w = elim (find_handler component name s.command_handlers) [
  | none ↦ w
  | some callback ↦ emit (run_command_callback callback command) w
]

-- WeaveClient::onCommand of the instance `n`.
unfoldable pub client_on_command : ℕ → String → String → ℕ → World → World
unfolding lock on_command
client_on_command n component name command w = elim (lock n w) [
  | none ↦ emit (abort_command command "service_unavailable" "Command handler is unavailable") w
  | some s ↦ on_command component name command s w
]

-- All three texts of the pairing are there.
abbrev pub pairing : PairingInfo → Bool
pairing i =
    if is_empty i.session_id || is_empty i.pairing_mode || is_empty i.pairing_code
    then false
    else true

-- SetPairingInfoListener.
unfoldable pub set_pairing_info_listener : Option ℕ → ServiceImpl → World → World
set_pairing_info_listener none s w = put (record s { pairing_info_callback = none }) w
set_pairing_info_listener (some callback) s w =
    let w' = put (record s { pairing_info_callback = some callback }) w in
    if pairing s.pairing_info
    then emit (run_pairing_callback callback (some s.pairing_info)) w'
    else w'

-- One pass of the loop of OnNotification, for a number and what the getter of the service manager
-- has answered, `none` for a failed call: the pairing, and whether it has changed.
unfoldable pub note : ℕ × Option String → PairingInfo × Bool → PairingInfo × Bool
note (number, none) (i, changed) = (i, changed)
note (number, some text) (i, changed) =
    if nat_eq number pairing_session_id
    then (record i { session_id = text }, true)
    else if nat_eq number pairing_mode
    then (record i { pairing_mode = text }, true)
    else if nat_eq number pairing_code
    then (record i { pairing_code = text }, true)
    else (i, changed)

unfoldable pub note_all : List (ℕ × Option String) → PairingInfo × Bool → PairingInfo × Bool
unfolding note
note_all [] r = r
note_all (a ∷ rest) r = note_all rest (note a r)

-- ServiceImpl::OnNotification.
unfoldable pub on_notification : List (ℕ × Option String) → ServiceImpl → World → World
unfolding note_all
on_notification answers s w =
    let (i, changed) = note_all answers (s.pairing_info, false) in
    let w' = put (record s { pairing_info = i }) w in
    if changed
    then elim s.pairing_info_callback [
      | none ↦ w'
      | some callback ↦ emit (run_pairing_callback callback (if pairing i then some i else none)) w'
    ]
    else w'

-- NotificationListener::notifyServiceManagerChange of the instance `n`.
unfoldable pub notify_service_manager_change : ℕ → List (ℕ × Option String) → World → World
unfolding lock on_notification
notify_service_manager_change n answers w = elim (lock n w) [
  | none ↦ w
  | some s ↦ on_notification answers s w
]

-- ServiceImpl::OnServiceConnected, and WeaveClient::onServiceConnected of the instance `n`.
unfoldable pub on_service_connected : ℕ → ServiceImpl → World → World
on_service_connected binder s w =
    emit (run_connection_callback s.number) (put (record s { weave_service = some binder }) w)

unfoldable pub client_on_service_connected : ℕ → ℕ → World → World
unfolding lock on_service_connected
client_on_service_connected n binder w = elim (lock n w) [
  | none ↦ w
  | some s ↦ on_service_connected binder s w
]
