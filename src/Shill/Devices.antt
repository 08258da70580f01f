-- ===== src/Shill/Devices.antt =====
-- buffet/shill_client.cc: the devices of the shill manager and the services that they select.
use rockchip_android_system.Prelude.{
  suc, Bool, true, false, not, Option, none, some, List, [], ◌∷◌, String, is_empty, is_some, is_nil,
  find, insert, update, erase, keys, contains, if◌then◌else◌, ◌==◌, ◌&&◌, ◌||◌,
}
use rockchip_android_system.Shill.{
  ShillApi, ServiceProxy, DeviceState, NetworkState, offline, register_service, register_device,
  Properties, Client, Answers, emit, has_path, get_state_for_service,
  service_state_to_network_state, update_connectivity_state, cleanup_connecting_service,
}

-- `set::erase` on the paths to remove.
unfoldable pub forget : String → List String → List String
forget p [] = []
forget p (q ∷ qs) = if q == p then qs else q ∷ forget p qs

unfoldable pub erase_all : List String → List (String × DeviceState) → List (String × DeviceState)
erase_all [] ds = ds
erase_all (p ∷ ps) ds = erase_all ps (erase p ds)

abbrev pub new_device : DeviceState
new_device = record { selected_service = none; service_state = offline }

module _ ⦃api : ShillApi⦄ where
  open api use {
    Any, try_string, try_path, try_paths, path_IsValid, devices_property, interface_property,
    selected_service_property,
  }

  -- ShillClient::IsMonitoredDevice, `answer` being what the device's GetProperties gives.
  unfoldable pub is_monitored_device : List String → Option Properties → Bool
  is_monitored_device whitelist answer = if is_nil whitelist then true else elim answer [
    | none ↦ false
    | some ps ↦ elim (find interface_property ps) [
      | none ↦ false
      | some v ↦ contains whitelist (try_string v)
    ]
  ]

  unfoldable pub add_device : String → Client → Client
  add_device p c = emit (register_device p) (record c { devices = insert p new_device c.devices })

  -- What the loop of OnManagerPropertyChange carries: the paths to remove, and whether a device
  -- has been added.
  pub record Scan : Type 0 where
    pub client : Client
    pub to_remove : List String
    pub changed : Bool

  -- One round of the loop, on a valid path.
  unfoldable pub visit_device : Answers → String → Scan → Scan
  unfolding add_device is_monitored_device
  visit_device a p s =
      if is_some (find p s.client.devices)
      then record s { to_remove = forget p s.to_remove }
      else if is_monitored_device s.client.device_whitelist (a.device p)
      then record s { client = add_device p s.client; changed = true }
      else s

  -- `finish` is what follows the loop; an invalid path returns from the whole function.
  unfoldable pub visit_devices : Answers → List String → (Scan → Client) → Scan → Client
  unfolding visit_device
  visit_devices a [] finish s = finish s
  visit_devices a (p ∷ ps) finish s =
      if path_IsValid p then visit_devices a ps finish (visit_device a p s) else s.client

  -- The removals, and the update if a device came or went.
  unfoldable pub finish_scan : Scan → Client
  unfolding erase_all update_connectivity_state
  finish_scan s =
      let c = record (s.client) { devices = erase_all s.to_remove s.client.devices } in
      if s.changed || not (is_nil s.to_remove) then update_connectivity_state c else c

  unfoldable pub on_manager_property_change : Answers → String → Any → Client → Client
  unfolding visit_devices finish_scan
  on_manager_property_change a name v c =
      if name == devices_property
      then visit_devices a (try_paths v) finish_scan
          (record { client = c; to_remove = keys c.devices; changed = false })
      else c

  -- The devices property of the manager, which CHECK demands; `none` is a failed CHECK.
  unfoldable pub read_manager_devices : Answers → Client → Option Client
  unfolding on_manager_property_change
  read_manager_devices a c = elim a.manager [
    | none ↦ some c
    | some ps ↦ elim (find devices_property ps) [
      | none ↦ none
      | some v ↦ some (on_manager_property_change a devices_property v c)
    ]
  ]

  -- What Init and a lost owner have in common.
  unfoldable pub reset : Client → Client
  unfolding cleanup_connecting_service
  reset c = record (cleanup_connecting_service c) { devices = []; connectivity_state = offline }

  -- ShillClient::Init.
  unfoldable pub init : Answers → Client → Option Client
  unfolding reset read_manager_devices
  init a c = read_manager_devices a (reset c)

  unfoldable pub on_shill_service_owner_change : Answers → String → Client → Option Client
  unfolding reset init
  on_shill_service_owner_change a new_owner c =
      if is_empty new_owner then some (reset c) else init a c

  unfoldable pub on_manager_property_change_registration : Answers → Bool → Client → Option Client
  unfolding read_manager_devices
  on_manager_property_change_registration a success c =
      if success then read_manager_devices a c else none

  -- The state that a device takes when it selects the service that is being connected to.
  unfoldable pub reused_state : Option Properties → NetworkState → NetworkState
  unfolding get_state_for_service
  reused_state answer old = elim (get_state_for_service answer) [
    | none ↦ old
    | some s ↦ service_state_to_network_state s
  ]

  abbrev pub set_device : String → DeviceState → Client → Client
  set_device p d c = record c { devices = update p d c.devices }

  -- The device selects the service that is being connected to.
  unfoldable pub select_connecting : Answers → String → String → DeviceState → Client → Client
  unfolding reused_state
  select_connecting a device path d c =
      set_device device
        (record d {
          selected_service = c.connecting_service;
          service_state = reused_state (a.service path) d.service_state;
        })
        c

  -- The device selects a service not seen before, or none.
  unfoldable pub select_other : String → String → DeviceState → Client → Client
  select_other device path d c =
      let s : ServiceProxy = record { id = c.next_id; path = path } in
      if path == "/"
      then set_device device d c
      else emit (register_service s) (
          set_device device (record d { selected_service = some s })
            (record c { next_id = suc c.next_id }))

  -- The last part of OnDevicePropertyChange: `d` no longer has a service, and `removed` tells
  -- whether it had one.
  unfoldable pub select_service : Answers → String → String → DeviceState → Bool → Client → Client
  unfolding select_connecting select_other update_connectivity_state
  select_service a device path d removed c =
      if not (path == "/") && has_path c.connecting_service path
      then update_connectivity_state (select_connecting a device path d c)
      else if removed
      then update_connectivity_state (select_other device path d c)
      else select_other device path d c

  unfoldable pub replace_service : Answers → String → String → DeviceState → Client → Client
  unfolding select_service
  replace_service a device path d c = elim d.selected_service [
    | none ↦ select_service a device path d false c
    | some s ↦
        if s.path == path
        then c
        else select_service a device path
            (record d { selected_service = none; service_state = offline }) true c
  ]

  unfoldable pub on_device_property_change : Answers → String → String → Any → Client → Client
  unfolding replace_service
  on_device_property_change a device name v c =
      if name == selected_service_property
      then elim (find device c.devices) [
        | none ↦ c
        | some d ↦
            if path_IsValid (try_path v) then replace_service a device (try_path v) d c else c
      ]
      else c

  unfoldable pub on_device_property_change_registration :
      Answers → String → Bool → Client → Option Client
  unfolding on_device_property_change
  on_device_property_change_registration a device success c = elim (find device c.devices) [
    | none ↦ some c
    | some d ↦
        if success
        then elim (a.device device) [
          | none ↦ some c
          | some ps ↦ elim (find selected_service_property ps) [
            | none ↦ some c
            | some v ↦ some (on_device_property_change a device selected_service_property v c)
          ]
        ]
        else none
  ]
