-- ===== src/Shill/Replies/DeviceHandlers.antt =====
-- buffet/shill_client.cc: the answers to the callers of Connect, and the handlers of devices, which
-- leave an attempt alone.
use rockchip_android_system.Prelude.{
  ℕ, suc, ◌≡◌, Bool, true, false, not, ◌&&◌, Option, none, some, List, [], ◌∷◌, String, arith, find,
  nat_eq, if◌then◌else◌, if_cases, option_cases, Holds, ◌==◌,
}
use rockchip_android_system.Shill.{
  ShillApi, DeviceState, offline, Effect, run, post, Client, Answers, has_path,
  update_connectivity_state, service_state_to_network_state,
}
use rockchip_android_system.Shill.Devices.{
  Scan, add_device, visit_device, visit_devices, finish_scan, on_manager_property_change,
  read_manager_devices, select_connecting, select_other, select_service, replace_service,
  on_device_property_change, on_device_property_change_registration,
}
use rockchip_android_system.Shill.Signals.{mark_selected, on_state_change_for_selected_service}

module _ ⦃api : ShillApi⦄ where
  -- How often the callback `k` has been called or posted.
  abbrev pub answered : ℕ → List Effect → ℕ
  answered k [] = 0
  answered k (run j e ∷ l) = if nat_eq j k then suc (answered k l) else answered k l
  answered k (post j e ∷ l) = if nat_eq j k then suc (answered k l) else answered k l
  answered k (_ ∷ l) = answered k l

  -- 1 while the callback `k` waits for its attempt.
  abbrev pub waits : ℕ → Option ℕ → ℕ
  waits k none = 0
  waits k (some j) = if nat_eq j k then 1 else 0

  -- The attempt and the answers are as they were.
  pub record Quiet (k : ℕ) (c d : Client) : Type 0 where
    pub same_service : d.connecting_service ≡ c.connecting_service
    pub same_callback : d.connect_done_callback ≡ c.connect_done_callback
    pub same_called : d.have_called_connect ≡ c.have_called_connect
    pub same_answers : answered k d.log ≡ answered k c.log

  Quiet-refl : (k : ℕ) (c : Client) → Quiet k c c
  Quiet-refl k c = ground arith

  Quiet-trans : (k : ℕ) (c d e : Client) → Quiet k c d → Quiet k d e → Quiet k c e
  Quiet-trans k c d e h g = ground arith

  update-Quiet : (k : ℕ) (c : Client) → Quiet k c (update_connectivity_state c)
  unfolding update_connectivity_state
  update-Quiet k c = ground arith

  pub selected-Quiet :
      (k : ℕ) (p state : String) (c : Client)
      → Quiet k c (on_state_change_for_selected_service p state c)
  unfolding on_state_change_for_selected_service update_connectivity_state
  selected-Quiet k p state c =
      option_cases (Quiet k c) (mark_selected p (service_state_to_network_state state) c.devices) _
        _ (λ _. Quiet-refl k c) (λ ds _. ground arith)

  visit_device-Quiet :
      (k : ℕ) (a : Answers) (p : String) (s : Scan) → Quiet k s.client (visit_device a p s).client
  unfolding visit_device add_device
  visit_device-Quiet k a p s = ground arith

  visit_devices-Quiet :
      (k : ℕ) (a : Answers) (ps : List String) (finish : Scan → Client) (c : Client) (s : Scan)
      → ((s : Scan) → Quiet k s.client (finish s))
      → Quiet k c s.client
      → Quiet k c (visit_devices a ps finish s)
  unfolding visit_devices
  visit_devices-Quiet k a [] finish c s f q = Quiet-trans k c s.client (finish s) q (f s)
  visit_devices-Quiet k a (p ∷ ps) finish c s f q =
      if_cases (Quiet k c) (api.path_IsValid p) _ _
        (λ _.
          visit_devices-Quiet k a ps finish c (visit_device a p s) f
            (Quiet-trans k c s.client _ q (visit_device-Quiet k a p s)))
        (λ _. q)

  finish_scan-Quiet : (k : ℕ) (s : Scan) → Quiet k s.client (finish_scan s)
  unfolding finish_scan update_connectivity_state
  finish_scan-Quiet k s = ground arith

  pub manager_change-Quiet :
      (k : ℕ) (a : Answers) (name : String) (v : api.Any) (c : Client)
      → Quiet k c (on_manager_property_change a name v c)
  unfolding on_manager_property_change
  manager_change-Quiet k a name v c =
      if_cases (Quiet k c) (name == api.devices_property) _ _
        (λ _.
          visit_devices-Quiet k a (api.try_paths v) finish_scan c _ (finish_scan-Quiet k)
            (Quiet-refl k c))
        (λ _. Quiet-refl k c)

  pub read_manager-Quiet :
      (k : ℕ) (a : Answers) (c : Client) → Holds (Quiet k c) (read_manager_devices a c)
  unfolding read_manager_devices
  read_manager-Quiet k a c =
      option_cases (Holds (Quiet k c)) a.manager _ _ (λ _. Quiet-refl k c)
        λ ps _.
          option_cases (Holds (Quiet k c)) (find api.devices_property ps) _ _ (λ _. tt)
            λ v _. manager_change-Quiet k a api.devices_property v c

  select_service-Quiet :
      (k : ℕ) (a : Answers) (device path : String) (d : DeviceState) (removed : Bool) (c : Client)
      → Quiet k c (select_service a device path d removed c)
  unfolding select_service select_connecting select_other update_connectivity_state
  select_service-Quiet k a device path d removed c =
      if_cases (Quiet k c) (not (path == "/") && has_path c.connecting_service path) _ _
        (λ _. ground arith)
        λ _. if_cases (Quiet k c) removed _ _ (λ _. ground arith) (λ _. ground arith)

  pub device_change-Quiet :
      (k : ℕ) (a : Answers) (device name : String) (v : api.Any) (c : Client)
      → Quiet k c (on_device_property_change a device name v c)
  unfolding on_device_property_change replace_service
  device_change-Quiet k a device name v c =
      let path = api.try_path v in
      if_cases (Quiet k c) (name == api.selected_service_property) _ _
        (λ _.
          option_cases (Quiet k c) (find device c.devices) _ _ (λ _. Quiet-refl k c)
            λ d _.
              if_cases (Quiet k c) (api.path_IsValid path) _ _
                (λ _.
                  option_cases (Quiet k c) d.selected_service _ _
                    (λ _. select_service-Quiet k a device path d false c)
                    λ s _.
                      if_cases (Quiet k c) (s.path == path) _ _ (λ _. Quiet-refl k c)
                        (λ _.
                          select_service-Quiet k a device path
                            (record d { selected_service = none; service_state = offline }) true c))
                (λ _. Quiet-refl k c))
        (λ _. Quiet-refl k c)

  pub device_registration-Quiet :
      (k : ℕ) (a : Answers) (device : String) (success : Bool) (c : Client)
      → Holds (Quiet k c) (on_device_property_change_registration a device success c)
  unfolding on_device_property_change_registration
  device_registration-Quiet k a device success c =
      option_cases (Holds (Quiet k c)) (find device c.devices) _ _ (λ _. Quiet-refl k c)
        λ d _.
          if_cases (Holds (Quiet k c)) success _ _
            (λ _.
              option_cases (Holds (Quiet k c)) (a.device device) _ _ (λ _. Quiet-refl k c)
                λ ps _.
                  option_cases (Holds (Quiet k c)) (find api.selected_service_property ps) _ _
                    (λ _. Quiet-refl k c)
                    λ v _. device_change-Quiet k a device api.selected_service_property v c)
            (λ _. tt)
