-- ===== src/Shill/Signals.antt =====
-- buffet/shill_client.cc: what a service tells of itself.
use rockchip_android_system.Prelude.{
  Bool, true, false, Option, none, some, List, [], ◌∷◌, String, is_empty, find, if◌then◌else◌, ◌==◌,
  ◌&&◌,
}
use rockchip_android_system.Shill.{
  ShillApi, DeviceState, NetworkState, Properties, Client, Answers, has_path,
  service_state_to_network_state, update_connectivity_state, cleanup_connecting_service,
}
use rockchip_android_system.Shill.Connect.{
  on_state_change_for_connecting_service, on_strength_change_for_connecting_service,
}

-- The first device that has selected the service takes the state; `none` if there is none.
unfoldable pub mark_selected :
    String → NetworkState → List (String × DeviceState) → Option (List (String × DeviceState))
mark_selected path state [] = none
mark_selected path state ((p, d) ∷ ds) =
    if has_path d.selected_service path
    then some ((p, record d { service_state = state }) ∷ ds)
    else elim (mark_selected path state ds) [ none ↦ none | some ds' ↦ some ((p, d) ∷ ds') ]

-- Some device has selected the service.
unfoldable pub is_selected : String → List (String × DeviceState) → Bool
is_selected path [] = false
is_selected path ((p, d) ∷ ds) =
    if has_path d.selected_service path then true else is_selected path ds

module _ ⦃api : ShillApi⦄ where
  open api use {Any, try_string, try_byte, state_property, signal_strength_property, error_property}

  unfoldable pub on_state_change_for_selected_service : String → String → Client → Client
  unfolding update_connectivity_state
  on_state_change_for_selected_service path state c =
      elim (mark_selected path (service_state_to_network_state state) c.devices) [
        | none ↦ c
        | some ds ↦ update_connectivity_state (record c { devices = ds })
      ]

  unfoldable pub on_service_state : String → String → Client → Client
  on_service_state path state c =
      let c' = on_state_change_for_selected_service path state c in
      if is_empty state
      then c
      else if has_path c.connecting_service path
      then on_state_change_for_connecting_service state c'
      else c'

  unfoldable pub on_service_property_change : String → String → Any → Client → Client
  unfolding on_service_state
  on_service_property_change path name v c =
      if name == state_property
      then on_service_state path (try_string v) c
      else if name == signal_strength_property
      then if has_path c.connecting_service path
        then on_strength_change_for_connecting_service (try_byte v) c
        else c
      else if name == error_property
      then if has_path c.connecting_service path
        then record c { connecting_service_error = try_string v }
        else c
      else c

  -- One round of the loop over the initial values.
  unfoldable pub replay_property : String → Properties → String → Client → Client
  replay_property path ps name c = elim (find name ps) [
    | none ↦ c
    | some v ↦ on_service_property_change path name v c
  ]

  unfoldable pub replay_properties : String → Properties → Client → Client
  replay_properties path ps c =
      replay_property path ps error_property (
        replay_property path ps signal_strength_property (replay_property path ps state_property c))

  unfoldable pub replay_answer : String → Option Properties → Client → Client
  unfolding replay_properties replay_property
  replay_answer path none c = c
  replay_answer path (some ps) c = replay_properties path ps c

  -- A failed registration ends the attempt that waits for the service.
  unfoldable pub on_service_property_change_registration : Answers → String → Bool → Client → Client
  unfolding replay_answer cleanup_connecting_service
  on_service_property_change_registration a path success c =
      if has_path c.connecting_service path
      then if success then replay_answer path (a.service path) c else cleanup_connecting_service c
      else if is_selected path c.devices && success
      then replay_answer path (a.service path) c
      else c
