-- ===== src/WeaveService.antt =====
-- buffet/binder_weave_service.h and binder_weave_service.cc: the binder object through which a
-- client process uses the device, and the interface that it implements.
pub mod Client
pub mod Calls
pub mod Path
pub mod Tests
use rockchip_android_system.Prelude.{ℕ, ◌≡◌, Option, none, some, List, [], ◌∷◌, ◌++◌, String, map}
use rockchip_android_system.Strings.{BinderStrings}
use rockchip_android_system.Status.{Status, WeaveError, to_status, ok}

-- The callback that RegisterCommandHandler binds: the service object, by a weak pointer, and the
-- names.
pub record BoundHandler : Type 0 where
  pub service : ℕ
  pub component_name : String
  pub command_name : String

-- weave::Device. Operations that may fail give the error. A handler that is added where there was
-- none is the one that the device calls, as libweave documents.
pub record LibweaveDevice : Type 1 where
  pub Device : Type 0
  pub add_component : String → List String → Device → Device × Option WeaveError
  pub add_command_handler : String → String → BoundHandler → Device → Device
  pub set_state_properties_from_json : String → String → Device → Device × Option WeaveError
  pub handler : String → String → Device → Option BoundHandler
  pub handler-add_command_handler :
      (component name : String) (b : BoundHandler) (d : Device)
      → handler component name d ≡ none
      → handler component name (add_command_handler component name b d) ≡ some b

-- The binder interface IWeaveService, over the state `S` of the objects behind it.
pub record IWeaveService ⦃strings : BinderStrings⦄ (S : Type 0) : Type 0 where
  pub add_component : strings.String16 → List strings.String16 → S → S × Status
  pub register_command_handler : strings.String16 → strings.String16 → S → S × Status
  pub update_state : strings.String16 → strings.String16 → S → S × Status

-- BinderWeaveService: its own number, its client, and the components that it has added.
pub record BinderWeaveService : Type 0 where
  pub number : ℕ
  pub client : ℕ
  pub components : List String

-- The call of IWeaveClient::onCommand that OnCommand makes; commands are numbers.
pub record ClientCall ⦃strings : BinderStrings⦄ : Type 0 where
  pub client : ℕ
  pub component_name : strings.String16
  pub command_name : strings.String16
  pub command : ℕ

module _ ⦃strings : BinderStrings⦄ ⦃weave : LibweaveDevice⦄ where
  -- A service object, and the device that it points to.
  pub record Served : Type 0 where
    pub service : BinderWeaveService
    pub device : weave.Device

  -- BinderWeaveService::addComponent.
  unfoldable pub add_component : strings.String16 → List strings.String16 → Served → Served × Status
  add_component name traits s =
      let component_name = strings.to_string name in
      let (device, error) =
        weave.add_component component_name (map strings.to_string traits) s.device in
      elim error [
        | some e ↦ (record s { device = device }, to_status (some e))
        | none ↦ (
          record {
            service = record (s.service) {
              components = s.service.components ++ component_name ∷ [];
            };
            device = device;
          },
          ok,
        )
      ]

  -- BinderWeaveService::registerCommandHandler.
  unfoldable pub register_command_handler :
      strings.String16 → strings.String16 → Served → Served × Status
  register_command_handler component command s =
      let component_name = strings.to_string component in
      let command_name = strings.to_string command in
      let bound : BoundHandler = record {
        service = s.service.number;
        component_name = component_name;
        command_name = command_name;
      } in
      (
        record s { device = weave.add_command_handler component_name command_name bound s.device },
        ok,
      )

  -- BinderWeaveService::updateState.
  unfoldable pub update_state : strings.String16 → strings.String16 → Served → Served × Status
  update_state component state s =
      let (device, error) =
        weave.set_state_properties_from_json (strings.to_string component) (strings.to_string state)
          s.device in
      (record s { device = device }, to_status error)

  unfoldable pub binder_weave_service : IWeaveService Served
  unfolding add_component register_command_handler update_state
  binder_weave_service = record {
    add_component = add_component;
    register_command_handler = register_command_handler;
    update_state = update_state;
  }

  -- BinderWeaveService::OnCommand, run by the device with the names that are bound.
  unfoldable pub on_command : BoundHandler → ℕ → Served → ClientCall
  on_command bound command s = record {
    client = s.service.client;
    component_name = strings.to_string16 bound.component_name;
    command_name = strings.to_string16 bound.command_name;
    command = command;
  }
