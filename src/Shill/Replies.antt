-- ===== src/Shill/Replies.antt =====
-- buffet/shill_client.cc: no caller of Connect is answered more often than it called.
pub mod DeviceHandlers
pub mod ServiceHandlers
use ServiceHandlers.{
  asks, Fair, Fair-refl, Fair-trans, Quiet-Fair, reset-Fair, connect_to_service_error-Fair,
  connect-Fair, on_service_property_change-Fair, registration-Fair,
}
use DeviceHandlers.{
  answered, waits, Quiet, manager_change-Quiet, read_manager-Quiet, device_change-Quiet,
  device_registration-Quiet,
}
use rockchip_android_system.Prelude.{
  ◌⊎◌, inl, inr, ap, is_some, Option-cases, ℕ, ◌+◌, ◌≤◌, ◌≡◌, refl, true, false, Option, none, some,
  List, [], ◌∷◌, String, arith, if_cases, option_cases, Holds, is_empty, subst,
}
use rockchip_android_system.Shill.{
  ShillApi, Effect, run_listener, run_listeners, Client, Answers, notify_connectivity_listeners,
  add_connection_changed_callback,
}
use rockchip_android_system.Shill.Devices.{
  reset, init, on_shill_service_owner_change, on_manager_property_change_registration,
}
use rockchip_android_system.Shill.System.{
  Event, add_listener, connects, timeout, notify, owner_changed, manager_changed,
  manager_registered, device_changed, device_registered, service_changed, service_registered,
  new_client, handle, run_events,
}

module _ ⦃api : ShillApi⦄ where
  -- How often `k` has been handed to Connect.
  abbrev pub asked : ℕ → Event → ℕ
  asked k (connects ssid passphrase j a scan) = asks k j
  asked k _ = 0

  answered-run_listeners :
      (k : ℕ) (xs : List ℕ) (l : List Effect) → answered k (run_listeners xs l) ≡ answered k l
  answered-run_listeners k [] l = refl
  answered-run_listeners k (x ∷ xs) l = answered-run_listeners k xs (run_listener x ∷ l)

  Holds-Fair :
      (k : ℕ) (b c : Client) (o : Option Client)
      → Fair k 0 b c
      → Holds (Quiet k c) o
      → Holds (Fair k 0 b) o
  Holds-Fair k b c none f q = tt
  Holds-Fair k b c (some d) f q = Fair-trans k 0 b c d f (Quiet-Fair k c d q)

  handle-Fair : (k : ℕ) (e : Event) (c : Client) → Holds (Fair k (asked k e) c) (handle e c)
  unfolding handle on_shill_service_owner_change on_manager_property_change_registration init
      notify_connectivity_listeners add_connection_changed_callback
  handle-Fair k (add_listener l) c = record { no_more = omega arith; tidy = λ t. t }
  handle-Fair k (connects ssid passphrase j a scan) c = connect-Fair k j ssid passphrase a scan c
  handle-Fair k (timeout s) c = connect_to_service_error-Fair k (some s) c
  handle-Fair k notify c = record {
    no_more = omega (arith, answered-run_listeners k c.connectivity_listeners c.log);
    tidy = λ t. t;
  }
  handle-Fair k (owner_changed a owner) c =
      if_cases (Holds (Fair k 0 c)) (is_empty owner) _ _ (λ _. reset-Fair k c)
        (λ _. Holds-Fair k c (reset c) _ (reset-Fair k c) (read_manager-Quiet k a (reset c)))
  handle-Fair k (manager_changed a name v) c = Quiet-Fair k c _ (manager_change-Quiet k a name v c)
  handle-Fair k (manager_registered a success) c =
      if_cases (Holds (Fair k 0 c)) success _ _
        (λ _. Holds-Fair k c c _ (Fair-refl k c) (read_manager-Quiet k a c)) (λ _. tt)
  handle-Fair k (device_changed a device name v) c =
      Quiet-Fair k c _ (device_change-Quiet k a device name v c)
  handle-Fair k (device_registered a device success) c =
      Holds-Fair k c c _ (Fair-refl k c) (device_registration-Quiet k a device success c)
  handle-Fair k (service_changed path name v) c = on_service_property_change-Fair k path name v c
  handle-Fair k (service_registered a path success) c = registration-Fair k a path success c

  abbrev pub asked_by : ℕ → List Event → ℕ
  asked_by k [] = 0
  asked_by k (e ∷ es) = asked k e + asked_by k es

  pub run_events-Fair :
      (k : ℕ) (es : List Event) (c : Client) → Holds (Fair k (asked_by k es) c) (run_events es c)
  unfolding run_events
  run_events-Fair k [] c = Fair-refl k c
  run_events-Fair k (e ∷ es) c =
      option_cases (Holds (Fair k (asked_by k (e ∷ es)) c)) (handle e c) _ _ (λ _. tt)
        λ d h.
          one_more d (run_events es d) (subst (Holds (Fair k (asked k e) c)) h (handle-Fair k e c))
            (run_events-Fair k es d)
    where
      one_more :
          (d : Client) (o : Option Client)
          → Fair k (asked k e) c d
          → Holds (Fair k (asked_by k es) d) o
          → Holds (Fair k (asked_by k (e ∷ es)) c) o
      one_more d none f g = tt
      one_more d (some b) f g = record {
        no_more = omega (arith, f.no_more, g.no_more);
        tidy = λ t. g.tidy (f.tidy t);
      }

  init-Fair : (k : ℕ) (a : Answers) (c : Client) → Holds (Fair k 0 c) (init a c)
  unfolding init
  init-Fair k a c = Holds-Fair k c (reset c) _ (reset-Fair k c) (read_manager-Quiet k a (reset c))

  -- From the construction of the client on, whatever events come in whatever order: a callback has
  -- been called or posted at most as often as it was handed to Connect, counting the one that still
  -- waits, and a callback waits, or Connect counts as called on a signal, only while a service is
  -- being connected to.
  pub replies_bounded :
      (k : ℕ) (whitelist : List String) (a : Answers) (es : List Event) (c d : Client)
      → init a (new_client whitelist) ≡ some c
      → run_events es c ≡ some d
      → (answered k d.log + waits k d.connect_done_callback ≤ asked_by k es)
        × ((is_some d.connecting_service ≡ true)
            ⊎ ((d.connect_done_callback ≡ none) × (d.have_called_connect ≡ false)))
  unfolding new_client
  replies_bounded k whitelist a es c d i r =
      let b = new_client whitelist in
      let f : Fair k 0 b c = subst (Holds (Fair k 0 b)) i (init-Fair k a b) in
      let g : Fair k (asked_by k es) c d =
        subst (Holds (Fair k (asked_by k es) c)) r (run_events-Fair k es c) in
      (
        omega (arith, f.no_more, g.no_more),
        elim (Option-cases d.connecting_service) [
          | inl gone ↦ inr (g.tidy (f.tidy (λ _. (refl, refl))) gone)
          | inr (s, there) ↦ inl (ap is_some there)
        ],
      )
