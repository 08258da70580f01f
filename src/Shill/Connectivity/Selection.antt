-- ===== src/Shill/Connectivity/Selection.antt =====
-- buffet/shill_client.cc: the invariant of the connectivity state under a device's selections.
use rockchip_android_system.Shill.Connectivity.Lists.{
  Settled, update-Settled, find-Settled, most_connected-update_same,
}
use rockchip_android_system.Shill.Connectivity.Services.{Inv, update_connectivity_state-Inv}
use rockchip_android_system.Prelude.{
  ◌==◌, if_cases, option_cases, ◌≡◌, refl, Bool, true, false, none, some, String, arith, find,
}
use rockchip_android_system.Shill.{
  ShillApi, DeviceState, offline, Client, Answers, has_path, most_connected,
}
use rockchip_android_system.Shill.Devices.{
  reset, select_connecting, select_other, select_service, replace_service,
  on_device_property_change,
}

module _ ⦃api : ShillApi⦄ where
  select_connecting-Settled :
      (a : Answers) (device path : String) (d : DeviceState) (c : Client)
      → has_path c.connecting_service path ≡ true
      → Settled c.devices
      → Settled (select_connecting a device path d c).devices
  unfolding select_connecting
  select_connecting-Settled a device path d c e h =
      update-Settled device _ c.devices (λ gone. ground arith) h

  select_other-Settled :
      (device path : String) (d : DeviceState) (c : Client)
      → d.service_state ≡ offline
      → Settled c.devices
      → Settled (select_other device path d c).devices
  unfolding select_other
  select_other-Settled device path d c off h = ground (
    arith,
    update-Settled device d c.devices (λ gone. off) h,
    update-Settled device
        (record d { selected_service = some (record { id = c.next_id; path = path }) }) c.devices
        (λ gone. off) h,
  )

  select_other-Inv :
      (device path : String) (d e : DeviceState) (c : Client)
      → find device c.devices ≡ some e
      → d.service_state ≡ e.service_state
      → d.service_state ≡ offline
      → Inv c
      → Inv (select_other device path d c)
  unfolding select_other
  select_other-Inv device path d e c there same off h = record {
    current = ground (
      arith,
      h.current,
      most_connected-update_same offline device d e c.devices there same,
      most_connected-update_same offline device
          (record d { selected_service = some (record { id = c.next_id; path = path }) }) e
          c.devices there same,
    );
    settled = select_other-Settled device path d c off h.settled;
  }

  select_service-Inv :
      (a : Answers) (device path : String) (d e : DeviceState) (removed : Bool) (c : Client)
      → find device c.devices ≡ some e
      → (removed ≡ false → d.service_state ≡ e.service_state)
      → d.service_state ≡ offline
      → Inv c
      → Inv (select_service a device path d removed c)
  unfolding select_service
  select_service-Inv a device path d e removed c there same off h =
      if_cases Inv _ _ _
        (λ reuse.
          update_connectivity_state-Inv (select_connecting a device path d c)
            (select_connecting-Settled a device path d c (ground arith) h.settled))
        λ _.
          if_cases Inv removed _ _
            (λ _.
              update_connectivity_state-Inv (select_other device path d c)
                (select_other-Settled device path d c off h.settled))
            λ kept. select_other-Inv device path d e c there (same kept) off h

  replace_service-Inv :
      (a : Answers) (device path : String) (d : DeviceState) (c : Client)
      → find device c.devices ≡ some d
      → Inv c
      → Inv (replace_service a device path d c)
  unfolding replace_service
  replace_service-Inv a device path d c there h =
      option_cases Inv d.selected_service _ _
        (λ gone.
          select_service-Inv a device path d d false c there (λ _. refl)
            (find-Settled device d c.devices there h.settled gone) h)
        λ s old.
          if_cases Inv _ _ _ (λ _. h)
            λ _.
              select_service-Inv a device path
                (record d { selected_service = none; service_state = offline }) d true c there
                (λ no_. cc) refl h

  pub on_device_property_change-Inv :
      (a : Answers) (device name : String) (v : api.Any) (c : Client)
      → Inv c
      → Inv (on_device_property_change a device name v c)
  unfolding on_device_property_change
  on_device_property_change-Inv a device name v c h =
      if_cases Inv (name == api.selected_service_property) _ _
        (λ _.
          option_cases Inv (find device c.devices) _ _ (λ _. h)
            λ d there.
              if_cases Inv (api.path_IsValid (api.try_path v)) _ _
                (λ _. replace_service-Inv a device (api.try_path v) d c there h) (λ _. h))
        (λ _. h)

  pub reset-Inv : (c : Client) → Inv (reset c)
  unfolding reset most_connected
  reset-Inv c = record { current = refl; settled = tt }
