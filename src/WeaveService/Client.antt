-- ===== src/WeaveService/Client.antt =====
-- libweaved/service.cc: what the client library calls on its service object in the daemon.
use rockchip_android_system.Prelude.{
  ℕ, Bool, Option, none, some, List, String, map, is_empty, is_some, if◌then◌else◌,
}
use rockchip_android_system.Strings.{BinderStrings}
use rockchip_android_system.Status.{
  Status, BrilloError, status_to_error, is_ok, Json, dictionary_to_string16,
}
use rockchip_android_system.Connection.{ServiceImpl, World}
use rockchip_android_system.Connection.Calls.{full_name, client_on_command, add_command_handler}
use rockchip_android_system.WeaveService.{IWeaveService, ClientCall}

-- base::DictionaryValue::Set, which reads a key with dots as a path.
pub record JsonValues ⦃json : Json⦄ : Type 1 where
  pub Value : Type 0
  pub set : String → Value → json.Dictionary → json.Dictionary

-- What a call leaves: the objects in the daemon, the returned Boolean, and the chain of errors.
pub record Outcome (S : Type 0) : Type 0 where
  pub behind : S
  pub success : Bool
  pub errors : List BrilloError

abbrev pub finish : {S : Type 0} → S × Status → List BrilloError → Outcome S
finish (behind, status) errors =
    let (success, errors') = status_to_error status errors in
    record { behind = behind; success = success; errors = errors' }

module _ ⦃strings : BinderStrings⦄ {S : Type 0} ⦃binder : IWeaveService S⦄ where
  -- ServiceImpl::AddComponent. A failed CHECK ends the process: `none`.
  unfoldable pub add_component :
      String → List String → ServiceImpl → S → List BrilloError → Option (Outcome S)
  add_component component traits impl behind errors =
      if is_some impl.weave_service
      then some (
          finish
            (binder.add_component (strings.to_string16 component) (map strings.to_string16 traits)
              behind)
            errors)
      else none

  -- ServiceImpl::AddCommandHandler, with its call of registerCommandHandler. The CHECKs on the
  -- arguments come before the call.
  unfoldable pub add_handler :
      String → String → String → ℕ → ServiceImpl → World → S → Option (World × S)
  unfolding add_command_handler
  add_handler component trait_name name callback impl w behind =
      let (behind', status) =
        binder.register_command_handler (strings.to_string16 component)
          (strings.to_string16 (full_name trait_name name)) behind in
      elim (add_command_handler component trait_name name callback (is_ok status) impl w) [
        | none ↦ none
        | some w' ↦ some (w', behind')
      ]

module _ ⦃strings : BinderStrings⦄ ⦃json : Json⦄ {S : Type 0} ⦃binder : IWeaveService S⦄ where
  -- ServiceImpl::SetStateProperties.
  unfoldable pub set_state_properties :
      String → json.Dictionary → ServiceImpl → S → List BrilloError → Option (Outcome S)
  set_state_properties component dict impl behind errors =
      if is_empty component
      then none
      else if is_some impl.weave_service
      then some (
          finish
            (binder.update_state (strings.to_string16 component) (dictionary_to_string16 dict)
              behind)
            errors)
      else none

  -- ServiceImpl::SetStateProperty.
  unfoldable pub set_state_property :
      ⦃values : JsonValues⦄
      → String
      → String
      → String
      → values.Value
      → ServiceImpl
      → S
      → List BrilloError
      → Option (Outcome S)
  unfolding set_state_properties
  set_state_property ⦃values⦄ component trait_name property_name value =
      set_state_properties component
        (values.set (full_name trait_name property_name) value json.empty)

module _ ⦃strings : BinderStrings⦄ where
  -- WeaveClient::onCommand of the instance that the client's binder object is of.
  unfoldable pub receive : ClientCall → World → World
  unfolding client_on_command
  receive call w =
      client_on_command call.client (strings.to_string call.component_name)
        (strings.to_string call.command_name) call.command w
