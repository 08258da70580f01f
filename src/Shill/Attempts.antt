-- ===== src/Shill/Attempts.antt =====
-- buffet/shill_client.cc: how an attempt to connect begins, fails and ends.
use rockchip_android_system.Prelude.{
  ℕ, suc, ◌≡◌, ◌≢◌, refl, false, Option, none, some, ◌∷◌, String, arith, eq_iff, nat_eq_iff,
}
use rockchip_android_system.Shill.{
  ShillApi, ServiceProxy, online, run, post, Client, service_state_to_network_state, configure,
  request_scan, call_connect, register_service, post_timeout, release_proxy,
}
use rockchip_android_system.Shill.Connect.{
  Configured, configured, connect, connect_error, connect_to_service_error, service_properties,
  on_state_change_for_connecting_service, on_strength_change_for_connecting_service,
}

module _ ⦃api : ShillApi⦄ where
  -- While a network is being connected to, Connect posts a "busy" error to its caller and does
  -- nothing else.
  connect-busy :
      (ssid passphrase : String) (k : ℕ) (a : Configured) (scan : Option api.BrilloError)
      (c : Client) (s : ServiceProxy)
      → c.connecting_service ≡ some s
      → connect ssid passphrase k a scan c ≡ record c {
        log = post k (some (api.add_error "busy" "Already connecting to WiFi network")) ∷ c.log;
      }
  unfolding connect
  connect-busy ssid passphrase k a scan c s e = rw (e, connect)

  -- Otherwise, when shill configures the service and scans, the client waits for that service with
  -- the new callback, has not called Connect on its signal, and has asked for a timeout; devices,
  -- connectivity and the last error of a service are as they were.
  connect-waits :
      (ssid passphrase path : String) (k : ℕ) (c : Client)
      → c.connecting_service ≡ none
      → let s : ServiceProxy = record { id = c.next_id; path = path } in
        connect ssid passphrase k (configured path) none c ≡ record c {
          connecting_service = some s;
          connect_done_callback = some k;
          have_called_connect = false;
          next_id = suc c.next_id;
          log =
              post_timeout s
              ∷ register_service s
              ∷ call_connect s
              ∷ request_scan
              ∷ configure (service_properties ssid passphrase)
              ∷ c.log;
        }
  unfolding connect
  connect-waits ssid passphrase path k c e = rw (e, connect)

  connect_error-ne-empty : (c : Client) → api.error_internal ≢ "" → connect_error c ≢ ""
  unfolding connect_error
  connect_error-ne-empty c i = ground (
    arith,
    eq_iff c.connecting_service_error "",
    eq_iff api.error_out_of_range "",
    eq_iff api.error_internal "",
  )

  -- While a callback waits, the timeout of the service that is being connected to calls the
  -- callback once, with an error, releases the proxy, and leaves the client free to connect again,
  -- if shill's internal error has a code that is not empty.
  pub timeout_answers :
      (s : ServiceProxy) (k : ℕ) (c : Client)
      → api.error_internal ≢ ""
      → c.connecting_service ≡ some s
      → c.connect_done_callback ≡ some k
      → connect_to_service_error (some s) c ≡ record c {
        connecting_service = none;
        connect_done_callback = none;
        have_called_connect = false;
        log =
            run k (some (api.add_error (connect_error c) "Failed to connect to WiFi network"))
            ∷ release_proxy s
            ∷ c.log;
      }
  unfolding connect_to_service_error
  timeout_answers s k c i e f = ground (
    arith,
    nat_eq_iff s.id s.id,
    eq_iff (connect_error c) "",
    eq_iff api.error_internal "",
    connect_error-ne-empty c i,
  )

  pub online_answers :
      (s : ServiceProxy) (k : ℕ) (state : String) (c : Client)
      → service_state_to_network_state state ≡ online
      → c.connecting_service ≡ some s
      → c.connect_done_callback ≡ some k
      → on_state_change_for_connecting_service state c ≡ record c {
        connecting_service = none;
        connect_done_callback = none;
        have_called_connect = false;
        log = run k none ∷ release_proxy s ∷ c.log;
      }
  unfolding on_state_change_for_connecting_service
  online_answers s k state c o e f = rw (o, on_state_change_for_connecting_service) (ground arith)

  late_error :
      (s : ServiceProxy) (k strength : ℕ) (c : Client)
      → c.connecting_service ≡ some s
      → c.connect_done_callback ≡ some k
      → c.have_called_connect ≡ false
      → c.connecting_service_error ≢ ""
      → let signalled = on_strength_change_for_connecting_service (suc strength) c in
        (connect_to_service_error (some s) signalled).log
        ≡ run k
            (some (api.add_error c.connecting_service_error "Failed to connect to WiFi network"))
          ∷ release_proxy s
          ∷ signalled.log
  unfolding on_strength_change_for_connecting_service connect_to_service_error
  late_error s k strength c e f g h =
      ground (arith, nat_eq_iff s.id s.id, eq_iff c.connecting_service_error "")

  -- A client that is connecting to nothing, but has kept the error of a service, starts an attempt
  -- that shill accepts; the service reports a signal, and the attempt times out: the callback is
  -- told the kept error, which no service of this attempt has reported.
  pub stale_error :
      (ssid passphrase path : String) (k strength : ℕ) (c : Client)
      → c.connecting_service ≡ none
      → c.connecting_service_error ≢ ""
      → let s : ServiceProxy = record { id = c.next_id; path = path } in
        let waiting = connect ssid passphrase k (configured path) none c in
        let signalled = on_strength_change_for_connecting_service (suc strength) waiting in
        (connect_to_service_error (some s) signalled).log
        ≡ run k
            (some (api.add_error c.connecting_service_error "Failed to connect to WiFi network"))
          ∷ release_proxy s
          ∷ signalled.log
  stale_error ssid passphrase path k strength c e f =
      rw (connect-waits ssid passphrase path k c e) (late_error _ k strength _ refl refl refl f)
