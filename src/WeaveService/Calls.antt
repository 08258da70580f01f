-- ===== src/WeaveService/Calls.antt =====
-- libweaved/service.cc over buffet/binder_weave_service.cc: what a client's call does to the
-- device, and what the client is told.
use rockchip_android_system.Prelude.{
  ℕ, ◌≡◌, ◌≢◌, refl, true, false, Option, none, some, List, [], ◌∷◌, ◌++◌, String, arith, map,
  Option-cases, inl, inr, eq_iff,
}
use rockchip_android_system.Strings.{BinderStrings, Survives}
use rockchip_android_system.Status.{to_status, WeaveError, BrilloError, reported, Json}
use rockchip_android_system.Connection.{ServiceImpl}
use rockchip_android_system.Connection.Calls.{full_name}
use rockchip_android_system.WeaveService.{
  LibweaveDevice, BinderWeaveService, Served, binder_weave_service, add_component, update_state,
}
use rockchip_android_system.WeaveService.Client.{Outcome, finish, JsonValues, set_state_property}
use rockchip_android_system.WeaveService.Client as Client

module _ ⦃strings : BinderStrings⦄ ⦃weave : LibweaveDevice⦄ where
  -- What a call of libweave's device leads to: the objects behind it are `good` or `bad`, as the
  -- call succeeds or fails, and the client is told so, with the error in front of the chain.
  abbrev pub answered : Option WeaveError → Served → Served → List BrilloError → Outcome Served
  answered none good bad errors = record { behind = good; success = true; errors = errors }
  answered (some e) good bad errors = record {
    behind = bad;
    success = false;
    errors = reported e.message ∷ errors;
  }

  finish-answered :
      (error : Option WeaveError) (s : Served) (errors : List BrilloError)
      → finish (s, to_status error) errors ≡ answered error s s errors
  finish-answered none s errors = refl
  finish-answered (some e) s errors = refl

  -- AddComponent, as libweave answers it.
  add_component_lem :
      (component : String) (traits : List String) (binder : ℕ) (impl : ServiceImpl) (s : Served)
      (errors : List BrilloError)
      → impl.weave_service ≡ some binder
      → Survives component
      → map strings.to_string (map strings.to_string16 traits) ≡ traits
      → let (device, error) = weave.add_component component traits s.device in
        let with : BinderWeaveService = record (s.service) {
          components = s.service.components ++ component ∷ [];
        } in
        Client.add_component ⦃binder = binder_weave_service⦄ component traits impl s errors
        ≡ some (
            answered error
              (record { service = with; device = device })
              (record s { device = device })
              errors)
  unfolding Client.add_component binder_weave_service add_component
  add_component_lem component traits binder impl s errors there name names =
      elim (Option-cases (weave.add_component component traits s.device).1) [
        | inl good ↦ ground (arith, there, name, names, good)
        | inr (e, bad) ↦ ground (arith, there, name, names, bad)
      ]

  module _ ⦃json : Json⦄ ⦃values : JsonValues⦄ where
    -- The JSON text of the dictionary that has the value under the names of its trait and property.
    abbrev pub property_text : String → String → values.Value → String
    property_text trait_name property_name value =
        json.write_json (values.set (full_name trait_name property_name) value json.empty)

    -- SetStateProperty, as libweave answers it.
    set_state_property_lem :
        (component trait_name property_name : String) (value : values.Value) (binder : ℕ)
        (impl : ServiceImpl) (s : Served) (errors : List BrilloError)
        → impl.weave_service ≡ some binder
        → component ≢ ""
        → Survives component
        → Survives (property_text trait_name property_name value)
        → let (device, error) =
            weave.set_state_properties_from_json component
              (property_text trait_name property_name value)
              s.device in
          let after : Served = record s { device = device } in
          set_state_property ⦃binder = binder_weave_service⦄ component trait_name property_name
            value impl s errors
          ≡ some (answered error after after errors)
    unfolding set_state_property binder_weave_service update_state
    set_state_property_lem component trait_name property_name value binder impl s errors there named
          name text =
        ground (arith, there, named, name, text, eq_iff component "")

    -- For a connected client, a component with a name, and names and texts that come through binder
    -- unchanged. AddComponent does to the device what libweave's AddComponent does: if that
    -- succeeds, the service object has the component as its last one and the client is told true;
    -- if not, the service object is as it was, and the client is told false, with libweave's error
    -- in front of the chain. SetStateProperty sets on the device, as JSON, the dictionary that has
    -- the value under the names of the trait and the property; the service object stays as it was,
    -- and the client is told whether libweave has accepted it, with libweave's error in front of
    -- the chain if not.
    pub add_component-set_state_property-apply :
        (component : String) (traits : List String) (trait_name property_name : String)
        (value : values.Value) (binder : ℕ) (impl : ServiceImpl) (s : Served)
        (errors : List BrilloError)
        → impl.weave_service ≡ some binder
        → component ≢ ""
        → Survives component
        → map strings.to_string (map strings.to_string16 traits) ≡ traits
        → Survives (property_text trait_name property_name value)
        → let (added, add_error) = weave.add_component component traits s.device in
          let (changed, set_error) =
            weave.set_state_properties_from_json component
              (property_text trait_name property_name value)
              s.device in
          let with : BinderWeaveService = record (s.service) {
            components = s.service.components ++ component ∷ [];
          } in
          let after : Served = record s { device = changed } in
          (Client.add_component ⦃binder = binder_weave_service⦄ component traits impl s errors
            ≡ some (
                answered add_error
                  (record { service = with; device = added })
                  (record s { device = added })
                  errors))
          × (set_state_property ⦃binder = binder_weave_service⦄ component trait_name property_name
                value impl s errors
              ≡ some (answered set_error after after errors))
    add_component-set_state_property-apply component traits trait_name property_name value binder
          impl s errors there named name names text =
        (
          add_component_lem component traits binder impl s errors there name names,
          set_state_property_lem component trait_name property_name value binder impl s errors there
              named name text,
        )
