-- ===== src/Shill/Connect.antt =====
-- buffet/shill_client.cc: an attempt to connect to a network, from Connect to its answer.
use rockchip_android_system.Prelude.{
  ℕ, suc, Bool, true, false, Option, none, some, ◌∷◌, String, is_empty, is_some, nat_eq,
  if◌then◌else◌, ◌||◌,
}
use rockchip_android_system.Shill.{
  ShillApi, ServiceProxy, ServiceProperties, NetworkState, offline, error, connecting, online, run,
  post, configure, request_scan, call_connect, register_service, post_timeout, Client, emit,
  cleanup_connecting_service, service_state_to_network_state,
}

-- Two shared_ptr compare equal: both null, or the same object.
abbrev pub same_object : Option ServiceProxy → Option ServiceProxy → Bool
same_object none none = true
same_object none (some t) = false
same_object (some s) none = false
same_object (some s) (some t) = nat_eq s.id t.id

abbrev pub service_properties : String → String → ServiceProperties
service_properties ssid passphrase = record {
  ssid = ssid;
  passphrase = if is_empty passphrase then none else some passphrase;
  save_credentials = true;
  auto_connect = true;
}

module _ ⦃api : ShillApi⦄ where
  open api use {Error, BrilloError, convert_error, add_error, error_out_of_range, error_internal}

  -- What ConfigureService answers.
  pub data Configured : Type 0 where
    configured : String → Configured
    refused : BrilloError → Configured

  -- Connect, once the service has been configured and the scan asked for: the state in which the
  -- client waits for the service.
  unfoldable pub await_service : ServiceProxy → ℕ → Client → Client
  await_service s callback c = record c {
    connecting_service = some s;
    connect_done_callback = some callback;
    next_id = suc c.next_id;
    log = post_timeout s ∷ register_service s ∷ call_connect s ∷ c.log;
  }

  unfoldable pub request_scan_then_wait : String → Option BrilloError → ℕ → Client → Client
  unfolding await_service
  request_scan_then_wait path (some e) callback c =
      emit (post callback (some (convert_error e))) (emit request_scan c)
  request_scan_then_wait path none callback c =
      await_service (record { id = c.next_id; path = path }) callback (emit request_scan c)

  unfoldable pub configure_service :
      String → String → ℕ → Configured → Option BrilloError → Client → Client
  unfolding request_scan_then_wait
  configure_service ssid passphrase callback (refused e) scan c =
      emit (post callback (some (convert_error e)))
        (emit (configure (service_properties ssid passphrase)) c)
  configure_service ssid passphrase callback (configured path) scan c =
      request_scan_then_wait path scan callback
        (emit (configure (service_properties ssid passphrase)) c)

  -- ShillClient::Connect. `answer` and `scan` are what ConfigureService and RequestScan give.
  unfoldable pub connect : String → String → ℕ → Configured → Option BrilloError → Client → Client
  unfolding configure_service cleanup_connecting_service
  connect ssid passphrase callback answer scan c =
      if is_some c.connecting_service
      then emit (post callback (some (add_error "busy" "Already connecting to WiFi network"))) c
      else configure_service ssid passphrase callback answer scan (cleanup_connecting_service c)

  unfoldable pub on_error_change_for_connecting_service : String → Client → Client
  unfolding cleanup_connecting_service
  on_error_change_for_connecting_service e c =
      let c' = cleanup_connecting_service c in
      if is_empty e then c else elim c.connect_done_callback [
        | none ↦ c'
        | some k ↦ emit (run k (some (add_error e "Failed to connect to WiFi network"))) c'
      ]

  -- The error that ConnectToServiceError reports.
  unfoldable pub connect_error : Client → String
  connect_error c =
      let e = if c.have_called_connect then c.connecting_service_error else error_out_of_range in
      if is_empty e then error_internal else e

  -- ShillClient::ConnectToServiceError; also the task posted for a minute later.
  unfoldable pub connect_to_service_error : Option ServiceProxy → Client → Client
  unfolding connect_error on_error_change_for_connecting_service
  connect_to_service_error s c =
      if same_object s c.connecting_service
      then elim c.connect_done_callback [
        | none ↦ c
        | some k ↦ on_error_change_for_connecting_service (connect_error c) c
      ]
      else c

  unfoldable pub run_done : Option ℕ → Client → Client
  run_done none c = c
  run_done (some k) c = emit (run k none) c

  unfoldable pub on_network_state_for_connecting_service : NetworkState → Client → Client
  unfolding run_done connect_to_service_error cleanup_connecting_service
  on_network_state_for_connecting_service online c =
      run_done c.connect_done_callback
        (cleanup_connecting_service (record c { connect_done_callback = none }))
  on_network_state_for_connecting_service error c = connect_to_service_error c.connecting_service c
  on_network_state_for_connecting_service offline c = c
  on_network_state_for_connecting_service connecting c = c

  unfoldable pub on_state_change_for_connecting_service : String → Client → Client
  unfolding on_network_state_for_connecting_service
  on_state_change_for_connecting_service state c =
      on_network_state_for_connecting_service (service_state_to_network_state state) c

  unfoldable pub on_strength_change_for_connecting_service : ℕ → Client → Client
  on_strength_change_for_connecting_service strength c =
      if nat_eq strength 0 || c.have_called_connect then c else elim c.connecting_service [
        | none ↦ c
        | some s ↦ emit (call_connect s) (record c { have_called_connect = true })
      ]
