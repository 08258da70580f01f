-- ===== src/Shill/Connectivity.antt =====
-- buffet/shill_client.cc: the connectivity state is that of the best connected device, in every
-- state of the client.
pub mod Lists
pub mod Services
pub mod Selection
use Lists.{
  Bounded, Attained, most_connected-Bounded, most_connected-Attained, Settled, insert-Settled,
  update-Settled, erase-Settled, erase_all-Settled, mark_selected-Settled, find-Settled,
  most_connected-update_same, better-offline, most_connected-insert_offline,
}
use Services.{
  Inv, Same-Inv, update_connectivity_state-Inv, cleanup-Same, connect-Same,
  connect_to_service_error-Same, on_service_property_change-Inv, registration-Inv,
}
use Selection.{on_device_property_change-Inv, reset-Inv}
use rockchip_android_system.Prelude.{
  ◌==◌, subst, sym, Holds, is_empty, if_cases, option_cases, ap, not, ◌||◌, is_nil, keys, ◌⊎◌, ℕ,
  ◌≤◌, ◌≡◌, refl, ◌∙◌, inl, inr, Bool, true, false, Option, none, some, List, [], ◌∷◌, String,
  arith, eq_iff, find, insert, update, erase, is_some, Bool-cases, Option-cases,
}
use rockchip_android_system.Shill.{
  ShillApi, better, ServiceProxy, DeviceState, NetworkState, offline, error, connecting, online,
  Client, Answers, has_path, most_connected, service_state_to_network_state,
  update_connectivity_state, cleanup_connecting_service, Properties, notify_connectivity_listeners,
  add_connection_changed_callback,
}
use rockchip_android_system.Shill.Connect.{
  connect, connect_to_service_error, on_error_change_for_connecting_service, run_done,
  on_network_state_for_connecting_service, on_state_change_for_connecting_service,
  on_strength_change_for_connecting_service, configured, refused, Configured,
}
use rockchip_android_system.Shill.Devices.{
  Scan, new_device, erase_all, add_device, visit_device, visit_devices, finish_scan,
  on_manager_property_change, read_manager_devices, reset, init, on_shill_service_owner_change,
  on_manager_property_change_registration, select_connecting, select_other, select_service,
  replace_service, on_device_property_change, on_device_property_change_registration,
}
use rockchip_android_system.Shill.Signals.{
  mark_selected, on_state_change_for_selected_service, on_service_state, on_service_property_change,
  replay_property, replay_properties, replay_answer, on_service_property_change_registration,
}
use rockchip_android_system.Shill.System.{
  Event, add_listener, connects, timeout, notify, owner_changed, manager_changed,
  manager_registered, device_changed, device_registered, service_changed, service_registered,
  new_client, handle, Reach, start, next,
}

module _ ⦃api : ShillApi⦄
    (lowest : (n : NetworkState) → api.state_value offline ≤ api.state_value n) where
  add_device-Inv :
      (p : String) (c : Client) → find p c.devices ≡ none → Inv c → Inv (add_device p c)
  unfolding add_device
  add_device-Inv p c gone h = record {
    current = h.current ∙ sym (most_connected-insert_offline lowest offline p c.devices gone);
    settled = insert-Settled p c.devices h.settled;
  }

  visit_device-Inv :
      (a : Answers) (p : String) (s : Scan) → Inv s.client → Inv (visit_device a p s).client
  unfolding visit_device
  visit_device-Inv a p s h = elim (Option-cases (find p s.client.devices)) [
    | inl gone ↦ ground (arith, add_device-Inv p s.client gone h)
    | inr (d, there) ↦ rw (there, visit_device) h
  ]

  visit_devices-Inv :
      (a : Answers) (ps : List String) (finish : Scan → Client) (s : Scan)
      → ((s : Scan) → Inv s.client → Inv (finish s))
      → Inv s.client
      → Inv (visit_devices a ps finish s)
  unfolding visit_devices
  visit_devices-Inv a [] finish s k h = k s h
  visit_devices-Inv a (p ∷ ps) finish s k h =
      if_cases Inv (api.path_IsValid p) _ _
        (λ _. visit_devices-Inv a ps finish (visit_device a p s) k (visit_device-Inv a p s h))
        (λ _. h)

  erase_none :
      (ps : List String) (ds : List (String × DeviceState))
      → is_nil ps ≡ true
      → erase_all ps ds ≡ ds
  unfolding erase_all
  erase_none [] ds e = refl
  erase_none (p ∷ ps) ds e = cc

  finish_scan-Inv : (s : Scan) → Inv s.client → Inv (finish_scan s)
  unfolding finish_scan
  finish_scan-Inv s h =
      let ds = erase_all s.to_remove s.client.devices in
      let c = record (s.client) { devices = ds } in
      if_cases Inv (s.changed || not (is_nil s.to_remove)) _ _
        (λ _.
          update_connectivity_state-Inv c
            (erase_all-Settled s.to_remove s.client.devices h.settled))
        λ e. Same-Inv s.client c (erase_none s.to_remove s.client.devices (ground arith), refl) h

  on_manager_property_change-Inv :
      (a : Answers) (name : String) (v : api.Any) (c : Client)
      → Inv c
      → Inv (on_manager_property_change a name v c)
  unfolding on_manager_property_change
  on_manager_property_change-Inv a name v c h =
      if_cases Inv (name == api.devices_property) _ _
        (λ _. visit_devices-Inv a (api.try_paths v) finish_scan _ finish_scan-Inv h) (λ _. h)

  read_manager_devices-Inv :
      (a : Answers) (c : Client) → Inv c → Holds Inv (read_manager_devices a c)
  unfolding read_manager_devices
  read_manager_devices-Inv a c h =
      option_cases (Holds Inv) a.manager _ _ (λ _. h)
        λ ps _.
          option_cases (Holds Inv) (find api.devices_property ps) _ _ (λ _. tt)
            λ v _. on_manager_property_change-Inv a api.devices_property v c h

  device_registration-Inv :
      (a : Answers) (p : String) (success : Bool) (c : Client)
      → Inv c
      → Holds Inv (on_device_property_change_registration a p success c)
  unfolding on_device_property_change_registration
  device_registration-Inv a p success c h =
      option_cases (Holds Inv) (find p c.devices) _ _ (λ _. h)
        λ d _.
          if_cases (Holds Inv) success _ _
            (λ _.
              option_cases (Holds Inv) (a.device p) _ _ (λ _. h)
                λ ps _.
                  option_cases (Holds Inv) (find api.selected_service_property ps) _ _ (λ _. h)
                    λ v _. on_device_property_change-Inv a p api.selected_service_property v c h)
            (λ _. tt)

  init-Inv : (a : Answers) (c : Client) → Holds Inv (init a c)
  unfolding init
  init-Inv a c = read_manager_devices-Inv a (reset c) (reset-Inv c)

  handle-Inv : (e : Event) (c : Client) → Inv c → Holds Inv (handle e c)
  unfolding handle on_shill_service_owner_change on_manager_property_change_registration
      notify_connectivity_listeners add_connection_changed_callback
  handle-Inv (add_listener l) c h = record { current = h.current; settled = h.settled }
  handle-Inv (connects ssid passphrase k a scan) c h =
      Same-Inv c _ (connect-Same ssid passphrase k a scan c) h
  handle-Inv (timeout s) c h = Same-Inv c _ (connect_to_service_error-Same (some s) c) h
  handle-Inv notify c h = record { current = h.current; settled = h.settled }
  handle-Inv (owner_changed a owner) c h =
      if_cases (Holds Inv) (is_empty owner) _ _ (λ _. reset-Inv c) (λ _. init-Inv a c)
  handle-Inv (manager_changed a name v) c h = on_manager_property_change-Inv a name v c h
  handle-Inv (manager_registered a success) c h =
      if_cases (Holds Inv) success _ _ (λ _. read_manager_devices-Inv a c h) (λ _. tt)
  handle-Inv (device_changed a device name v) c h =
      on_device_property_change-Inv a device name v c h
  handle-Inv (device_registered a device success) c h = device_registration-Inv a device success c h
  handle-Inv (service_changed path name v) c h = on_service_property_change-Inv path name v c h
  handle-Inv (service_registered a path success) c h = registration-Inv a path success c h

  Reach-Inv : {whitelist : List String} {c : Client} → Reach whitelist c → Inv c
  Reach-Inv {whitelist} (start a e) = subst (Holds Inv) e (init-Inv a (new_client whitelist))
  Reach-Inv (next e {c = c} r q) = subst (Holds Inv) q (handle-Inv e c (Reach-Inv r))

  -- Where the number of `offline` is the least of the states' numbers, in every state that the
  -- client reaches from its construction by any events that it survives: no device's service is
  -- better connected than the connectivity state says, the connectivity state is `offline` or that
  -- of some device, and a device that has selected no service is offline.
  pub Reach-connectivity :
      {whitelist : List String} {c : Client}
      → Reach whitelist c
      → Bounded c.connectivity_state c.devices
        × ((c.connectivity_state ≡ offline) ⊎ Attained c.connectivity_state c.devices)
        × Settled c.devices
  Reach-connectivity {c = c} r =
      let v = Reach-Inv r in
      rw (v.current) (
        (most_connected-Bounded offline c.devices).1,
        most_connected-Attained offline c.devices,
        v.settled,
      )
