-- ===== src/Shill/Replies/ServiceHandlers.antt =====
-- buffet/shill_client.cc: what Connect and the handlers of services do to the answers of Connect.
use rockchip_android_system.Shill.Replies.DeviceHandlers.{answered, waits, Quiet, selected-Quiet}
use rockchip_android_system.Prelude.{
  ℕ, ◌+◌, ◌≤◌, ◌≡◌, Bool, false, ◌&&◌, Option, none, some, String, arith, find, nat_eq,
  if◌then◌else◌, if_cases, option_cases, ◌==◌, is_empty,
}
use rockchip_android_system.Shill.{
  ShillApi, ServiceProxy, NetworkState, offline, error, connecting, online, Client, Answers,
  Properties, has_path, service_state_to_network_state, cleanup_connecting_service,
}
use rockchip_android_system.Shill.Connect.{
  Configured, configured, refused, connect, connect_to_service_error,
  on_network_state_for_connecting_service, on_state_change_for_connecting_service,
  on_strength_change_for_connecting_service,
}
use rockchip_android_system.Shill.Devices.{reset}
use rockchip_android_system.Shill.Signals.{
  is_selected, on_state_change_for_selected_service, on_service_state, on_service_property_change,
  replay_property, replay_answer, on_service_property_change_registration,
}

module _ ⦃api : ShillApi⦄ where
  -- The answers to `k`, and the one that is still to come.
  abbrev balance : ℕ → Client → ℕ
  balance k c = answered k c.log + waits k c.connect_done_callback

  -- A callback waits only while a service is being connected to.
  abbrev Tidy : Client → Type 0
  Tidy c =
      c.connecting_service ≡ none
      → (c.connect_done_callback ≡ none) × (c.have_called_connect ≡ false)

  pub record Fair (k n : ℕ) (c d : Client) : Type 0 where
    pub no_more : balance k d ≤ balance k c + n
    pub tidy : Tidy c → Tidy d

  pub Fair-refl : (k : ℕ) (c : Client) → Fair k 0 c c
  Fair-refl k c = record { no_more = omega arith; tidy = λ t. t }

  pub Fair-trans : (k n : ℕ) (c d e : Client) → Fair k 0 c d → Fair k n d e → Fair k n c e
  Fair-trans k n c d e h g = record {
    no_more = omega (arith, h.no_more, g.no_more);
    tidy = λ t. g.tidy (h.tidy t);
  }

  pub Quiet-Fair : (k : ℕ) (c d : Client) → Quiet k c d → Fair k 0 c d
  Quiet-Fair k c d q = record { no_more = ground arith; tidy = λ t. ground arith }

  cleanup-Fair : (k : ℕ) (c : Client) → Fair k 0 c (cleanup_connecting_service c)
  unfolding cleanup_connecting_service
  cleanup-Fair k c = record { no_more = ground arith; tidy = λ t. ground arith }

  pub reset-Fair : (k : ℕ) (c : Client) → Fair k 0 c (reset c)
  unfolding reset
  reset-Fair k c = record { no_more = ground arith; tidy = λ t. ground arith }

  pub connect_to_service_error-Fair :
      (k : ℕ) (s : Option ServiceProxy) (c : Client) → Fair k 0 c (connect_to_service_error s c)
  unfolding connect_to_service_error
  connect_to_service_error-Fair k s c = record { no_more = ground arith; tidy = λ t. ground arith }

  abbrev pub asks : ℕ → ℕ → ℕ
  asks k j = if nat_eq j k then 1 else 0

  pub connect-Fair :
      (k j : ℕ) (ssid passphrase : String) (a : Configured) (scan : Option api.BrilloError)
      (c : Client)
      → Fair k (asks k j) c (connect ssid passphrase j a scan c)
  unfolding connect
  connect-Fair k j ssid passphrase (refused e) scan c = record {
    no_more = ground arith;
    tidy = λ t. ground arith;
  }
  connect-Fair k j ssid passphrase (configured path) none c = record {
    no_more = ground arith;
    tidy = λ t. ground arith;
  }
  connect-Fair k j ssid passphrase (configured path) (some e) c = record {
    no_more = ground arith;
    tidy = λ t. ground arith;
  }

  on_network_state-Fair :
      (k : ℕ) (n : NetworkState) (c : Client)
      → Fair k 0 c (on_network_state_for_connecting_service n c)
  unfolding on_network_state_for_connecting_service
  on_network_state-Fair k online c = record { no_more = ground arith; tidy = λ t. ground arith }
  on_network_state-Fair k error c = connect_to_service_error-Fair k c.connecting_service c
  on_network_state-Fair k offline c = Fair-refl k c
  on_network_state-Fair k connecting c = Fair-refl k c

  on_service_state-Fair :
      (k : ℕ) (p state : String) (c : Client) → Fair k 0 c (on_service_state p state c)
  unfolding on_service_state on_state_change_for_connecting_service
  on_service_state-Fair k p state c =
      let c' = on_state_change_for_selected_service p state c in
      let q = Quiet-Fair k c c' (selected-Quiet k p state c) in
      if_cases (Fair k 0 c) (is_empty state) _ _ (λ _. Fair-refl k c)
        λ _.
          if_cases (Fair k 0 c) (has_path c.connecting_service p) _ _
            (λ _.
              Fair-trans k 0 c c' _ q
                (on_network_state-Fair k (service_state_to_network_state state) c'))
            (λ _. q)

  on_strength_change-Fair :
      (k n : ℕ) (c : Client) → Fair k 0 c (on_strength_change_for_connecting_service n c)
  unfolding on_strength_change_for_connecting_service
  on_strength_change-Fair k n c = record { no_more = ground arith; tidy = λ t. ground arith }

  set_error-Fair :
      (k : ℕ) (e : String) (c : Client) → Fair k 0 c (record c { connecting_service_error = e })
  set_error-Fair k e c = record { no_more = omega arith; tidy = λ t. t }

  pub on_service_property_change-Fair :
      (k : ℕ) (p name : String) (v : api.Any) (c : Client)
      → Fair k 0 c (on_service_property_change p name v c)
  unfolding on_service_property_change
  on_service_property_change-Fair k p name v c =
      if_cases (Fair k 0 c) (name == api.state_property) _ _
        (λ _. on_service_state-Fair k p (api.try_string v) c)
        λ _.
          if_cases (Fair k 0 c) (name == api.signal_strength_property) _ _
            (λ _.
              if_cases (Fair k 0 c) (has_path c.connecting_service p) _ _
                (λ _. on_strength_change-Fair k (api.try_byte v) c) (λ _. Fair-refl k c))
            λ _.
              if_cases (Fair k 0 c) (name == api.error_property) _ _
                (λ _.
                  if_cases (Fair k 0 c) (has_path c.connecting_service p) _ _
                    (λ _. set_error-Fair k (api.try_string v) c) (λ _. Fair-refl k c))
                (λ _. Fair-refl k c)

  replay_property-Fair :
      (k : ℕ) (p : String) (ps : Properties) (name : String) (c : Client)
      → Fair k 0 c (replay_property p ps name c)
  unfolding replay_property
  replay_property-Fair k p ps name c =
      option_cases (Fair k 0 c) (find name ps) _ _ (λ _. Fair-refl k c)
        λ v _. on_service_property_change-Fair k p name v c

  replay_answer-Fair :
      (k : ℕ) (p : String) (a : Option Properties) (c : Client) → Fair k 0 c (replay_answer p a c)
  unfolding replay_answer
  replay_answer-Fair k p none c = Fair-refl k c
  replay_answer-Fair k p (some ps) c =
      let c₁ = replay_property p ps api.state_property c in
      let c₂ = replay_property p ps api.signal_strength_property c₁ in
      Fair-trans k 0 c c₁ _ (replay_property-Fair k p ps _ c) (
        Fair-trans k 0 c₁ c₂ _ (replay_property-Fair k p ps _ c₁)
          (replay_property-Fair k p ps _ c₂))

  pub registration-Fair :
      (k : ℕ) (a : Answers) (p : String) (success : Bool) (c : Client)
      → Fair k 0 c (on_service_property_change_registration a p success c)
  unfolding on_service_property_change_registration
  registration-Fair k a p success c =
      let r = replay_answer-Fair k p (a.service p) c in
      if_cases (Fair k 0 c) (has_path c.connecting_service p) _ _
        (λ _. if_cases (Fair k 0 c) success _ _ (λ _. r) (λ _. cleanup-Fair k c))
        λ _.
          if_cases (Fair k 0 c) (is_selected p c.devices && success) _ _ (λ _. r)
            (λ _. Fair-refl k c)
