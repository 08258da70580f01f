-- ===== src/Shill/Connectivity/Services.antt =====
-- buffet/shill_client.cc: the invariant of the connectivity state, and the handlers of services.
use rockchip_android_system.Shill.Connectivity.Lists.{Settled, mark_selected-Settled}
use rockchip_android_system.Prelude.{
  subst, sym, ℕ, ◌≡◌, refl, inl, inr, Bool, Option, none, some, String, arith, find, Option-cases,
}
use rockchip_android_system.Shill.{
  ShillApi, ServiceProxy, NetworkState, offline, error, connecting, online, Client, Answers,
  most_connected, service_state_to_network_state, update_connectivity_state,
  cleanup_connecting_service, Properties,
}
use rockchip_android_system.Shill.Connect.{
  connect, connect_to_service_error, on_network_state_for_connecting_service,
  on_state_change_for_connecting_service, on_strength_change_for_connecting_service, configured,
  refused, Configured,
}
use rockchip_android_system.Shill.Signals.{
  mark_selected, on_state_change_for_selected_service, on_service_state, on_service_property_change,
  replay_property, replay_answer, on_service_property_change_registration,
}

module _ ⦃api : ShillApi⦄ where
  pub record Inv (c : Client) : Type 0 where
    pub current : c.connectivity_state ≡ most_connected offline c.devices
    pub settled : Settled c.devices

  -- What leaves the devices and the state alone.
  abbrev pub Same : Client → Client → Type 0
  Same c d = (d.devices ≡ c.devices) × (d.connectivity_state ≡ c.connectivity_state)

  pub Same-Inv : (c d : Client) → Same c d → Inv c → Inv d
  Same-Inv c d (e, f) h = record {
    current = rw (e, f) (h.current);
    settled = subst Settled (sym e) h.settled;
  }

  pub update_connectivity_state-Inv :
      (c : Client) → Settled c.devices → Inv (update_connectivity_state c)
  unfolding update_connectivity_state
  update_connectivity_state-Inv c h = record { current = refl; settled = h }

  pub cleanup-Same : (c : Client) → Same c (cleanup_connecting_service c)
  unfolding cleanup_connecting_service
  cleanup-Same c = ground arith

  pub connect-Same :
      (ssid passphrase : String) (k : ℕ) (a : Configured) (scan : Option api.BrilloError)
      (c : Client)
      → Same c (connect ssid passphrase k a scan c)
  unfolding connect
  connect-Same ssid passphrase k (refused e) scan c = ground arith
  connect-Same ssid passphrase k (configured path) (some e) c = ground arith
  connect-Same ssid passphrase k (configured path) none c = ground arith

  pub connect_to_service_error-Same :
      (s : Option ServiceProxy) (c : Client) → Same c (connect_to_service_error s c)
  unfolding connect_to_service_error
  connect_to_service_error-Same s c = ground arith

  on_network_state-Same :
      (n : NetworkState) (c : Client) → Same c (on_network_state_for_connecting_service n c)
  unfolding on_network_state_for_connecting_service
  on_network_state-Same online c = ground arith
  on_network_state-Same error c = ground arith
  on_network_state-Same offline c = (refl, refl)
  on_network_state-Same connecting c = (refl, refl)

  on_strength_change-Same :
      (n : ℕ) (c : Client) → Same c (on_strength_change_for_connecting_service n c)
  unfolding on_strength_change_for_connecting_service
  on_strength_change-Same n c = ground arith

  on_state_change_for_selected_service-Inv :
      (p state : String) (c : Client) → Inv c → Inv (on_state_change_for_selected_service p state c)
  unfolding on_state_change_for_selected_service
  on_state_change_for_selected_service-Inv p state c h =
      elim (Option-cases (mark_selected p (service_state_to_network_state state) c.devices)) [
        | inl gone ↦ rw (gone, on_state_change_for_selected_service) h
        | inr (ds, there) ↦
            rw (there, on_state_change_for_selected_service)
              (update_connectivity_state-Inv (record c { devices = ds })
                (mark_selected-Settled p _ c.devices ds there h.settled))
      ]

  on_service_state-Inv : (p state : String) (c : Client) → Inv c → Inv (on_service_state p state c)
  unfolding on_service_state on_state_change_for_connecting_service
  on_service_state-Inv p state c h =
      let h' = on_state_change_for_selected_service-Inv p state c h in
      let c' = on_state_change_for_selected_service p state c in
      let n = service_state_to_network_state state in
      ground (
        arith,
        h',
        Same-Inv c' (on_network_state_for_connecting_service n c') (on_network_state-Same n c') h',
      )

  on_strength_change-Inv :
      (n : ℕ) (c : Client) → Inv c → Inv (on_strength_change_for_connecting_service n c)
  on_strength_change-Inv n c = Same-Inv c _ (on_strength_change-Same n c)

  set_error-Inv :
      (e : String) (c : Client) → Inv c → Inv (record c { connecting_service_error = e })
  set_error-Inv e c h = record { current = h.current; settled = h.settled }

  pub on_service_property_change-Inv :
      (p name : String) (v : api.Any) (c : Client)
      → Inv c
      → Inv (on_service_property_change p name v c)
  unfolding on_service_property_change
  on_service_property_change-Inv p name v c h = ground (
    arith,
    on_service_state-Inv p (api.try_string v) c h,
    on_strength_change-Inv (api.try_byte v) c h,
    set_error-Inv (api.try_string v) c h,
  )

  replay_property-Inv :
      (p : String) (ps : Properties) (name : String) (c : Client)
      → Inv c
      → Inv (replay_property p ps name c)
  unfolding replay_property
  replay_property-Inv p ps name c h = elim (Option-cases (find name ps)) [
    | inl gone ↦ rw (gone, replay_property) h
    | inr (v, there) ↦ rw (there, replay_property) (on_service_property_change-Inv p name v c h)
  ]

  replay_answer-Inv :
      (p : String) (a : Option Properties) (c : Client) → Inv c → Inv (replay_answer p a c)
  unfolding replay_answer
  replay_answer-Inv p none c h = h
  replay_answer-Inv p (some ps) c h =
      replay_property-Inv p ps _ _ (replay_property-Inv p ps _ _ (replay_property-Inv p ps _ c h))

  pub registration-Inv :
      (a : Answers) (p : String) (success : Bool) (c : Client)
      → Inv c
      → Inv (on_service_property_change_registration a p success c)
  unfolding on_service_property_change_registration
  registration-Inv a p success c h = ground (
    arith,
    replay_answer-Inv p (a.service p) c h,
    Same-Inv c (cleanup_connecting_service c) (cleanup-Same c) h,
  )
