-- ===== src/WeaveService/Tests.antt =====
-- buffet/binder_weave_service.cc and libweaved/service.cc: runs on a small device.
use rockchip_android_system.Prelude.{
  ℕ, ◌≡◌, refl, ap, true, false, Option, none, some, List, [], ◌∷◌, ◌++◌, String, arith, eq_refl,
  ◌==◌, ◌&&◌, if◌then◌else◌,
}
use rockchip_android_system.Strings.{BinderStrings}
use rockchip_android_system.Status.{WeaveError, Json, dictionary, reported}
use rockchip_android_system.Connection.{
  ServiceImpl, World, make_service, register_command_handler, run_command_callback,
}
use rockchip_android_system.Connection.Calls.{add_command_handler}
use rockchip_android_system.WeaveService.{
  BoundHandler, LibweaveDevice, BinderWeaveService, Served, binder_weave_service, on_command,
}
use rockchip_android_system.WeaveService.Client.{
  Outcome, JsonValues, add_handler, receive, set_state_property,
}
use rockchip_android_system.WeaveService.Client as Client
use rockchip_android_system.Connection.Dispatch.{Chosen}
use rockchip_android_system.WeaveService.Calls.{add_component-set_state_property-apply}
use rockchip_android_system.WeaveService.Path.{command_reaches_handler}

-- A device as its handlers; it refuses the component "taken" and all states.
abbrev Handlers : Type 0
Handlers = List (String × String × BoundHandler)

abbrev find_bound : String → String → Handlers → Option BoundHandler
find_bound component name [] = none
find_bound component name ((c, n, b) ∷ rest) =
    if c == component && n == name then some b else find_bound component name rest

find_bound-cons :
    (component name : String) (b : BoundHandler) (d : Handlers)
    → find_bound component name d ≡ none
    → find_bound component name ((component, name, b) ∷ d) ≡ some b
find_bound-cons component name b d free = ground (arith, eq_refl component, eq_refl name)

abbrev refused : WeaveError
refused = record { code = "no"; message = "Refused" }

abbrev small : LibweaveDevice
small = record {
  Device = Handlers;
  add_component = λ c traits d. (d, if c == "taken" then some refused else none);
  add_command_handler = λ c n b d. (c, n, b) ∷ d;
  set_state_properties_from_json = λ c text d. (d, some refused);
  handler = find_bound;
  handler-add_command_handler = find_bound-cons;
}

abbrev plain : BinderStrings
plain = record { String16 = String; to_string = λ s. s; to_string16 = λ s. s }

abbrev text_json : Json
text_json = record {
  Dictionary = String;
  empty = "";
  read_json = λ s. dictionary s;
  write_json = λ d. d;
}

abbrev text_values : JsonValues ⦃json = text_json⦄
text_values = record { Value = String; set = λ key value d. key }

abbrev impl : ServiceImpl
impl = record (make_service 3) { weave_service_manager = some 7; weave_service = some 8 }

abbrev world : World
world = record { service = some impl; next = 4; tasks = []; effects = [] }

abbrev served : Served ⦃strings = plain⦄ ⦃weave = small⦄
served = record {
  service = record { number = 8; client = 3; components = "base" ∷ [] };
  device = [];
}

add_component-set_state_property-apply_example :
    (Client.add_component ⦃strings = plain⦄
        ⦃binder = binder_weave_service ⦃strings = plain⦄ ⦃weave = small⦄⦄ "door"
        ("lock" ∷ [])
        impl
        served
        []
      ≡ some (record {
        behind = record {
          service = record { number = 8; client = 3; components = "base" ∷ "door" ∷ [] };
          device = [];
        };
        success = true;
        errors = [];
      }))
    × (set_state_property ⦃strings = plain⦄ ⦃json = text_json⦄
          ⦃binder = binder_weave_service ⦃strings = plain⦄ ⦃weave = small⦄⦄ ⦃values = text_values⦄
          "door" "lock" "open" "yes" impl served []
        ≡ some (record { behind = served; success = false; errors = reported "Refused" ∷ [] }))
add_component-set_state_property-apply_example =
    add_component-set_state_property-apply ⦃strings = plain⦄ ⦃weave = small⦄ ⦃json = text_json⦄
      ⦃values = text_values⦄ "door" ("lock" ∷ []) "lock" "open" "yes" 8 impl served [] refl
      (λ e. ground (arith, ap (λ s. s == "") e)) refl refl refl

abbrev entered : World
entered = record {
  service = some (record impl {
    command_handlers = record { component = "door"; command_name = "lock.open"; callback = 9 } ∷ [];
  });
  next = 4;
  tasks = [];
  effects = register_command_handler 8 "door" "lock.open" ∷ [];
}

abbrev handler : BoundHandler
handler = record { service = 8; component_name = "door"; command_name = "lock.open" }

abbrev handled : Served ⦃strings = plain⦄ ⦃weave = small⦄
handled = record served { device = ("door", "lock.open", handler) ∷ [] }

added :
    add_handler ⦃strings = plain⦄ ⦃binder = binder_weave_service ⦃strings = plain⦄ ⦃weave = small⦄⦄
      "door" "lock" "open" 9 impl world served
    ≡ some (entered, handled)
unfolding add_handler add_command_handler binder_weave_service
    rockchip_android_system.WeaveService.register_command_handler
added = refl

command_reaches_handler_example :
    (find_bound "door" "lock.open" handled.device ≡ some handler)
    × ((k : ℕ) × Chosen "door" "lock.open" impl.command_handlers 9 k
        × ((receive ⦃strings = plain⦄
              (on_command ⦃strings = plain⦄ ⦃weave = small⦄ handler 1 handled)
              entered).effects
            ≡ entered.effects ++ (run_command_callback k 1 ∷ [])))
command_reaches_handler_example =
    command_reaches_handler ⦃strings = plain⦄ ⦃weave = small⦄ "door" "lock" "open" 9 1 impl world
      entered served handled refl refl refl refl refl added
