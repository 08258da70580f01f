-- ===== src/Manager/Device.antt =====
-- buffet/manager.cc: the weave device, from the definition files to its removal, and the restart of
-- the daemon's parts.
use rockchip_android_system.Prelude.{
  suc, Bool, true, false, Option, none, some, List, [], ◌∷◌, String, is_some, if◌then◌else◌,
}
use rockchip_android_system.Manager.{
  Manager, Effect, make_device, drop_device, add_traits, add_commands, add_states, set_state,
  add_callbacks, add_reboot_handler, add_ping_handlers, init_power_manager, post_reboot, reboot,
  emit,
}
use rockchip_android_system.Manager.Clients.{create_services_for_clients}

infixl 5 ◌>>=◌
abbrev pub ◌>>=◌ : {A B : Type 0} → Option A → (A → Option B) → Option B
none >>= f = none
some a >>= f = f a

-- The files that the enumerators find, in their order, each with its content if it can be read; a
-- file of state defaults with what SetStatePropertiesFromJson answers. `test_commands` are those of
-- the directory for tests, [] where the option is empty.
pub record Definitions : Type 0 where
  pub traits : List (Option String)
  pub commands : List (Option String)
  pub test_commands : List (Option String)
  pub states : List (Option String)
  pub defaults : List (Option String × Bool)

-- The loops of LoadTraitDefinitions, LoadCommandDefinitions and LoadStateDefinitions: `none` is a
-- failed CHECK.
unfoldable pub load_definitions :
    (String → Effect) → List (Option String) → Manager → Option Manager
load_definitions add [] m = some m
load_definitions add (none ∷ fs) m = none
load_definitions add (some json ∷ fs) m = load_definitions add fs (emit (add json) m)

unfoldable pub load_state_defaults : List (Option String × Bool) → Manager → Option Manager
load_state_defaults [] m = some m
load_state_defaults ((none, ok) ∷ fs) m = none
load_state_defaults ((some json, false) ∷ fs) m = none
load_state_defaults ((some json, true) ∷ fs) m = load_state_defaults fs (emit (set_state json) m)

unfoldable pub load_trait_definitions : Definitions → Manager → Option Manager
load_trait_definitions d = load_definitions add_traits d.traits

unfoldable pub load_command_definitions : Definitions → Manager → Option Manager
load_command_definitions d m = do
  m₁ ← load_definitions add_commands d.commands m
  load_definitions add_commands d.test_commands m₁

unfoldable pub load_state_definitions : Definitions → Manager → Option Manager
load_state_definitions d = load_definitions add_states d.states

-- The four loads of CreateDevice.
unfoldable pub load_all : Definitions → Manager → Option Manager
load_all d m = do
  m₁ ← load_trait_definitions d m
  m₂ ← load_command_definitions d m₁
  m₃ ← load_state_definitions d m₂
  load_state_defaults d.defaults m₃

-- Manager::CreateDevice, when there is no device.
unfoldable pub make : Definitions → Manager → Option Manager
make d m = do
  let created =
      emit (make_device m.next_device)
        (record m { device = some m.next_device; next_device = suc m.next_device })
  loaded ← load_all d created
  create_services_for_clients (emit add_reboot_handler (emit add_callbacks loaded))

unfoldable pub create_device : Definitions → Manager → Option Manager
create_device d m = if is_some m.device then some m else make d m

-- Manager::Stop, in a build with BUFFET_USE_WIFI_BOOTSTRAPPING, as all after it.
unfoldable pub stop : Manager → Manager
stop m =
    let m' = record m { running = false; http_server = false } in
    elim m.device [ none ↦ m' | some d ↦ emit (drop_device d) (record m' { device = none }) ]

unfoldable pub start_http_server : Manager → Manager
start_http_server m =
    let m' = record m { http_server = true; bluetooth = true } in
    if m.options.enable_ping then emit add_ping_handlers m' else m'

unfoldable pub restart_weave : Definitions → Manager → Option Manager
unfolding stop start_http_server
restart_weave d m =
    let m' = record (stop m) { running = true } in
    if m.options.disable_privet then create_device d m' else some (start_http_server m')

unfoldable pub start : Definitions → Manager → Option Manager
start d m = restart_weave d (emit init_power_manager m)

-- `completed` tells whether the command is still there and Complete succeeds on it.
unfoldable pub on_reboot_device : Bool → Manager → Manager
on_reboot_device completed m = if completed then emit post_reboot m else m

unfoldable pub reboot_device_now : Manager → Manager
reboot_device_now = emit reboot
