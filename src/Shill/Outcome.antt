-- ===== src/Shill/Outcome.antt =====
-- buffet/shill_client.cc: what each state of the service that is being connected to means to the
-- caller of Connect.
use rockchip_android_system.Prelude.{
  ℕ, ◌≡◌, ◌≢◌, ◌⊎◌, inl, inr, refl, ap, false, none, some, ◌∷◌, String, arith, eq_iff, ◌==◌, ◌∙◌,
  Bool-cases,
}
use rockchip_android_system.Shill.{
  ShillApi, ServiceProxy, offline, error, connecting, online, run, release_proxy, Client,
  service_state_to_network_state,
}
use rockchip_android_system.Shill.Connect.{
  connect_error, connect_to_service_error, on_network_state_for_connecting_service,
  on_state_change_for_connecting_service,
}
use rockchip_android_system.Shill.Attempts.{timeout_answers, online_answers}

module _ ⦃api : ShillApi⦄ where
  -- The texts of shill for a service that is connected, for one that is connecting, and for one
  -- that has failed.
  abbrev pub IsOnlineText : String → Type 0
  IsOnlineText state =
      (state ≡ api.state_ready) ⊎ (state ≡ api.state_portal) ⊎ (state ≡ api.state_online)

  abbrev pub IsConnectingText : String → Type 0
  IsConnectingText state = (state ≡ api.state_association) ⊎ (state ≡ api.state_configuration)

  abbrev pub IsFailureText : String → Type 0
  IsFailureText state = (state ≡ api.state_failure) ⊎ (state ≡ api.state_activation_failure)

  -- What a state of the service `s` means to the callback `k` that waits for it.
  pub data Answer (s : ServiceProxy) (k : ℕ) (state : String) (c d : Client) : Type 0 where
    connected :
        IsOnlineText state
        → d ≡ record c {
          connecting_service = none;
          connect_done_callback = none;
          have_called_connect = false;
          log = run k none ∷ release_proxy s ∷ c.log;
        }
        → Answer s k state c d
    failed :
        ¬ IsOnlineText state
        → ¬ IsConnectingText state
        → IsFailureText state
        → d ≡ record c {
          connecting_service = none;
          connect_done_callback = none;
          have_called_connect = false;
          log =
              run k (some (api.add_error (connect_error c) "Failed to connect to WiFi network"))
              ∷ release_proxy s
              ∷ c.log;
        }
        → Answer s k state c d
    waits_on :
        ¬ IsOnlineText state
        → IsConnectingText state ⊎ (¬ IsFailureText state)
        → d ≡ c
        → Answer s k state c d

  is_one_of : (state a b : String) → ((state ≡ a) ⊎ (state ≡ b)) ⊎ (¬ ((state ≡ a) ⊎ (state ≡ b)))
  is_one_of state a b = elim (Bool-cases (state == a)) [
    | inl e ↦ inl (inl ((eq_iff state a).0 e))
    | inr n ↦ elim (Bool-cases (state == b)) [
      | inl e ↦ inl (inr ((eq_iff state b).0 e))
      | inr m ↦ inr (λ h. ground (arith, h, n, m, eq_iff state a, eq_iff state b))
    ]
  ]

  is_online_text : (state : String) → IsOnlineText state ⊎ (¬ IsOnlineText state)
  is_online_text state = elim (Bool-cases (state == api.state_ready)) [
    | inl e ↦ inl (inl ((eq_iff state api.state_ready).0 e))
    | inr n ↦ elim (is_one_of state api.state_portal api.state_online) [
      | inl h ↦ inl (inr h)
      | inr m ↦ inr (λ h. ground (arith, h, n, m, eq_iff state api.state_ready))
    ]
  ]

  differs : (state t : String) → state ≢ t → (state == t) ≡ false
  differs state t h = elim (Bool-cases (state == t)) [
    | inl e ↦ absurd (h ((eq_iff state t).0 e))
    | inr n ↦ n
  ]

  online_text :
      (state : String) → IsOnlineText state → service_state_to_network_state state ≡ online
  unfolding service_state_to_network_state
  online_text state (inl e) = ground (arith, (eq_iff state api.state_ready).1 e)
  online_text state (inr (inl e)) = ground (arith, (eq_iff state api.state_portal).1 e)
  online_text state (inr (inr e)) = ground (arith, (eq_iff state api.state_online).1 e)

  -- The three tests for a connected service fail.
  not_online :
      (state : String)
      → ¬ IsOnlineText state
      → ((state == api.state_ready) ≡ false)
        × ((state == api.state_portal) ≡ false)
        × ((state == api.state_online) ≡ false)
  not_online state h = (
    differs state api.state_ready (λ e. h (inl e)),
    differs state api.state_portal (λ e. h (inr (inl e))),
    differs state api.state_online (λ e. h (inr (inr e))),
  )

  neither :
      (state a b : String)
      → ¬ ((state ≡ a) ⊎ (state ≡ b))
      → ((state == a) ≡ false) × ((state == b) ≡ false)
  neither state a b h = (differs state a (λ e. h (inl e)), differs state b (λ e. h (inr e)))

  connecting_text :
      (state : String)
      → ¬ IsOnlineText state
      → IsConnectingText state
      → service_state_to_network_state state ≡ connecting
  unfolding service_state_to_network_state
  connecting_text state h (inl e) =
      ground (arith, not_online state h, (eq_iff state api.state_association).1 e)
  connecting_text state h (inr e) =
      ground (arith, not_online state h, (eq_iff state api.state_configuration).1 e)

  failure_text :
      (state : String)
      → ¬ IsOnlineText state
      → ¬ IsConnectingText state
      → IsFailureText state
      → service_state_to_network_state state ≡ error
  unfolding service_state_to_network_state
  failure_text state h g f =
      let before = not_online state h in
      let between = neither state api.state_association api.state_configuration g in
      elim f [
        | inl e ↦ ground (arith, before, between, (eq_iff state api.state_failure).1 e)
        | inr e ↦ ground (arith, before, between, (eq_iff state api.state_activation_failure).1 e)
      ]

  offline_text :
      (state : String)
      → ¬ IsOnlineText state
      → ¬ IsConnectingText state
      → ¬ IsFailureText state
      → service_state_to_network_state state ≡ offline
  unfolding service_state_to_network_state
  offline_text state h g f =
      let before = not_online state h in
      let between = neither state api.state_association api.state_configuration g in
      let last = neither state api.state_failure api.state_activation_failure f in
      ground (arith, before, between, last)

  failure_answers :
      (s : ServiceProxy) (k : ℕ) (state : String) (c : Client)
      → api.error_internal ≢ ""
      → service_state_to_network_state state ≡ error
      → c.connecting_service ≡ some s
      → c.connect_done_callback ≡ some k
      → on_state_change_for_connecting_service state c ≡ record c {
        connecting_service = none;
        connect_done_callback = none;
        have_called_connect = false;
        log =
            run k (some (api.add_error (connect_error c) "Failed to connect to WiFi network"))
            ∷ release_proxy s
            ∷ c.log;
      }
  unfolding on_state_change_for_connecting_service on_network_state_for_connecting_service
  failure_answers s k state c i o e f =
      handled ∙ (ap (λ t. connect_to_service_error t c) e ∙ timeout_answers s k c i e f)
    where
      handled :
          on_state_change_for_connecting_service state c
          ≡ connect_to_service_error c.connecting_service c
      handled = rw o refl

  nothing_happens :
      (state : String) (c : Client)
      → (service_state_to_network_state state ≡ connecting)
        ⊎ (service_state_to_network_state state ≡ offline)
      → on_state_change_for_connecting_service state c ≡ c
  unfolding on_state_change_for_connecting_service on_network_state_for_connecting_service
  nothing_happens state c (inl o) = rw o refl
  nothing_happens state c (inr o) = rw o refl

  -- While a callback waits, and the service that is being connected to reports a state: exactly if
  -- the state is shill's ready, portal or online, the callback is called once, without an error; if
  -- it is none of these and no association or configuration, but failure or activation-failure, the
  -- callback is called once, with an error; in both cases the proxy is released, and the client can
  -- connect again. After any other state the client is as it was. Shill's internal error has a code
  -- that is not empty.
  pub on_state_change-answers :
      (s : ServiceProxy) (k : ℕ) (state : String) (c : Client)
      → api.error_internal ≢ ""
      → c.connecting_service ≡ some s
      → c.connect_done_callback ≡ some k
      → Answer s k state c (on_state_change_for_connecting_service state c)
  on_state_change-answers s k state c i e f = elim (is_online_text state) [
    | inl h ↦ connected h (online_answers s k state c (online_text state h) e f)
    | inr h ↦ elim (is_one_of state api.state_association api.state_configuration) [
      | inl g ↦ waits_on h (inl g) (nothing_happens state c (inl (connecting_text state h g)))
      | inr g ↦ elim (is_one_of state api.state_failure api.state_activation_failure) [
        | inl a ↦ failed h g a (failure_answers s k state c i (failure_text state h g a) e f)
        | inr a ↦ waits_on h (inr a) (nothing_happens state c (inr (offline_text state h g a)))
      ]
    ]
  ]
