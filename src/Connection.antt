-- ===== src/Connection.antt =====
-- libweaved/service.h and service.cc: the connection of a client process to the daemon. The
-- subscription owns the one instance of ServiceImpl; tasks, death notifications and the binder
-- objects WeaveClient and NotificationListener hold weak pointers to an instance, which are its
-- number here.
pub mod Calls
pub mod Life
pub mod Dispatch
pub mod Pairing
pub mod Settled
pub mod Budget
pub mod Retry
pub mod Newer
pub mod Replaced
pub mod Tests
use rockchip_android_system.Prelude.{
  ℕ, ◌+◌, Bool, true, false, Option, none, some, List, [], ◌∷◌, ◌++◌, String, nat_eq, if◌then◌else◌,
}

-- Service::PairingInfo.
pub record PairingInfo : Type 0 where
  pub session_id : String
  pub pairing_mode : String
  pub pairing_code : String

-- ServiceImpl::CommandHandlerEntry; callbacks are numbers.
pub record CommandHandlerEntry : Type 0 where
  pub component : String
  pub command_name : String
  pub callback : ℕ

-- ServiceImpl: its number, the two binder objects of the daemon, the pairing callback and what it
-- knows of the pairing, and the command handlers.
pub record ServiceImpl : Type 0 where
  pub number : ℕ
  pub weave_service_manager : Option ℕ
  pub weave_service : Option ℕ
  pub pairing_info_callback : Option ℕ
  pub pairing_info : PairingInfo
  pub command_handlers : List CommandHandlerEntry

-- Tasks of the message loop, with the instance that their weak pointer is of.
pub data Task : Type 0 where
  try_connecting try_connecting_in_a_second reconnect_on_service_disconnection : ℕ → Task

-- What the code does to the world outside: runs of callbacks, and calls of binder.
pub data Effect : Type 0 where
  run_connection_callback : ℕ → Effect
  run_command_callback : ℕ → ℕ → Effect
  run_pairing_callback : ℕ → Option PairingInfo → Effect
  register_for_death_notifications : ℕ → ℕ → Effect
  unregister_for_death_notifications : ℕ → Effect
  connect_client register_notification_listener : ℕ → ℕ → Effect
  register_command_handler : ℕ → String → String → Effect
  abort_command : ℕ → String → String → Effect

-- The subscription's instance, `none` once the subscription is destroyed, the number of the next
-- instance, the message loop's tasks, and the effects so far, in order.
pub record World : Type 0 where
  pub service : Option ServiceImpl
  pub next : ℕ
  pub tasks : List Task
  pub effects : List Effect

abbrev pub emit : Effect → World → World
emit e w = record w { effects = w.effects ++ (e ∷ []) }

abbrev pub post : Task → World → World
post t w = record w { tasks = w.tasks ++ (t ∷ []) }

-- The instance that a weak pointer gives, if it still exists.
unfoldable pub lock : ℕ → World → Option ServiceImpl
lock n w = elim w.service [ none ↦ none | some s ↦ if nat_eq s.number n then some s else none ]

-- What a method does to the instance that the subscription holds.
abbrev pub put : ServiceImpl → World → World
put s w = record w { service = some s }

abbrev pub no_pairing : PairingInfo
no_pairing = record { session_id = ""; pairing_mode = ""; pairing_code = "" }

-- A new instance, before it has connected.
abbrev pub make_service : ℕ → ServiceImpl
make_service n = record {
  number = n;
  weave_service_manager = none;
  weave_service = none;
  pairing_info_callback = none;
  pairing_info = no_pairing;
  command_handlers = [];
}
