-- ===== src/Manager/Served.antt =====
-- buffet/manager.cc: every client of the daemon gets its service, once, and of the present device.
pub mod Clients
pub mod Steps
use Clients.{
  count, served, asks, asked, AllOf, Inv, due, Step, Same, emplace-AllOf, erase_service-AllOf,
  count-append, ServedAll, serve_all-ServedAll, Same-Step, served-notify_all, notify-Same,
  Same-trans, config-Same, pairing-Same,
}
use Steps.{
  Holds-bind, after, load_definitions-Same, load_state_defaults-Same, AllOf-none,
  create_services-Step, connect-Step,
}
use rockchip_android_system.Prelude.{
  ◌⊎◌, Bool-cases, ℕ, suc, ◌+◌, ◌≡◌, refl, sym, ap, ◌∙◌, subst, Bool, true, false, Option, none,
  some, List, [], ◌∷◌, ◌++◌, String, arith, nat_eq, nat_eq_iff, ltb, Holds-map, Option-cases, inl,
  inr, is_some, if◌then◌else◌, if_cases, option_cases, Holds, ◌==◌, is_nil, length,
}
use rockchip_android_system.NotificationListener
use rockchip_android_system.Settings.{Settings}
use rockchip_android_system.Manager.{
  Manager, Options, Service, Effect, service_connected, set_property, init_power_manager,
  make_device, add_callbacks, add_reboot_handler, set_state, add_traits, add_commands, add_states,
  emit, notify_all, notify_change, update_value, get, set, notify_service_manager_change,
  on_config_changed, on_pairing_start, on_pairing_end, update_pairing, on_trait_defs_changed,
  on_component_tree_changed, on_gcd_state_changed,
}
use rockchip_android_system.Manager.Notices.{
  on_config_changed_lem, changed_ids, settings_entries, pairing_entries, update_pairing_lem,
  set_pairing,
}
use rockchip_android_system.Manager.Clients.{
  emplace, erase_service, serve, serve_all, create_services_for_clients, connect,
  register_notification_listener, on_client_disconnected, on_notification_listener_destroyed,
}
use rockchip_android_system.Manager.Device.{
  Definitions, ◌>>=◌, load_definitions, load_state_defaults, load_trait_definitions,
  load_command_definitions, load_state_definitions, load_all, make, create_device, stop,
  start_http_server, restart_weave, start, on_reboot_device, reboot_device_now,
}
use rockchip_android_system.Manager.System.{
  new_manager, Event, server_available, connects, disconnects, listens, unlistens, config_changed,
  pairing_starts, pairing_ends, traits_changed, components_changed, gcd_state_changed, reboots,
  reboots_now, handle, run_events,
}

pub load_all-Same : (c : ℕ) (d : Definitions) (m : Manager) → Holds (Same c m) (load_all d m)
unfolding load_all load_trait_definitions load_command_definitions load_state_definitions
load_all-Same c d m =
    Holds-bind (Same c m) (load_definitions add_traits d.traits m) _
      (load_definitions-Same c add_traits d.traits m (λ json l. refl))
      λ m₁ s₁.
        Holds-bind (Same c m) (load_command_definitions d m₁) _
          (after c m m₁ _ s₁ (
            Holds-bind (Same c m₁) (load_definitions add_commands d.commands m₁) _
              (load_definitions-Same c add_commands d.commands m₁ (λ json l. refl))
              λ n s.
                after c m₁ n _ s
                  (load_definitions-Same c add_commands d.test_commands n (λ json l. refl))))
          λ m₂ s₂.
            Holds-bind (Same c m) (load_definitions add_states d.states m₂) _
              (after c m m₂ _ s₂ (load_definitions-Same c add_states d.states m₂ (λ json l. refl)))
              λ m₃ s₃. after c m m₃ _ s₃ (load_state_defaults-Same c d.defaults m₃)

make-Step :
    (c : ℕ) (d : Definitions) (m : Manager)
    → m.device ≡ none
    → Inv m
    → Holds (Step c 0 m) (make d m)
unfolding make
make-Step c d m off v =
    let created =
      emit (make_device m.next_device)
        (record m { device = some m.next_device; next_device = suc m.next_device }) in
    Holds-bind (Step c 0 m) (load_all d created) _ (load_all-Same c d created) λ n s.
      let n' = emit add_reboot_handler (emit add_callbacks n) in
      Holds-map {Q = Step c 0 m} (create_services_for_clients n')
        (λ o t. record {
          kept = t.kept;
          counted = ground (arith, t.counted, s.same_served, s.same_pending);
        })
        (create_services-Step c m.next_device n' s.same_device
          (rw (s.same_device, s.same_services) (AllOf-none _ m.services (rw off at v.current))))

create_device-Step :
    (c : ℕ) (d : Definitions) (m : Manager) → Inv m → Holds (Step c 0 m) (create_device d m)
unfolding create_device
create_device-Step c d m v =
    if_cases (Holds (Step c 0 m)) (is_some m.device) _ _
      (λ _. record { kept = v; counted = omega arith }) λ off. make-Step c d m (ground arith) v

pub handle-Step :
    {P A : Type 0} (c : ℕ) (e : Event P A) (m : Manager)
    → Inv m
    → Holds (Step c (asks c e) m) (handle e m)
unfolding handle on_client_disconnected register_notification_listener
    on_notification_listener_destroyed on_trait_defs_changed on_component_tree_changed
    on_gcd_state_changed on_pairing_start on_pairing_end on_reboot_device reboot_device_now
handle-Step c (server_available d) m v = create_device-Step c d m v
handle-Step c (connects k) m v = connect-Step c k m v
handle-Step c (disconnects k) m v = record {
  kept = record {
    none_waits = v.none_waits;
    current = erase_service-AllOf m.device k m.services v.current;
  };
  counted = omega arith;
}
handle-Step c (listens l) m v = record {
  kept = record { none_waits = v.none_waits; current = v.current };
  counted = omega arith;
}
handle-Step c (unlistens l) m v = record {
  kept = record { none_waits = v.none_waits; current = v.current };
  counted = omega arith;
}
handle-Step c (config_changed s) m v = Same-Step c m _ (config-Same c s m) v
handle-Step c (pairing_starts session mode code) m v =
    Same-Step c m _ (pairing-Same c session mode code m) v
handle-Step c (pairing_ends session) m v =
    if_cases (Step c 0 m) (m.pairing_session_id == session) _ _
      (λ _. Same-Step c m _ (pairing-Same c "" "" "" m) v)
      (λ _. record { kept = v; counted = omega arith })
handle-Step c traits_changed m v = Same-Step c m _ (notify-Same c _ m) v
handle-Step c components_changed m v = Same-Step c m _ (notify-Same c _ m) v
handle-Step c (gcd_state_changed state) m v =
    let m' = record m { state = state } in
    let n = notify_service_manager_change (NotificationListener.state ∷ []) m' in
    let t = notify-Same c (NotificationListener.state ∷ []) m' in
    Same-Step c m (emit (set_property state) n)
      (record {
        same_device = t.same_device;
        same_running = t.same_running;
        same_next_device = t.same_next_device;
        same_http_server = t.same_http_server;
        same_pending = t.same_pending;
        same_services = t.same_services;
        same_served = t.same_served;
      })
      v
handle-Step c (reboots completed) m v =
    if_cases (Step c 0 m) completed _ _
      (λ _. record {
        kept = record { none_waits = v.none_waits; current = v.current };
        counted = omega arith;
      })
      (λ _. record { kept = v; counted = omega arith })
handle-Step c reboots_now m v = record {
  kept = record { none_waits = v.none_waits; current = v.current };
  counted = omega arith;
}

run_events-Step :
    {P A : Type 0} (c : ℕ) (es : List (Event P A)) (m : Manager)
    → Inv m
    → Holds (λ n. Inv n × (due c n ≡ due c m + asked c es)) (run_events es m)
unfolding run_events
run_events-Step c [] m v = (v, omega arith)
run_events-Step {P} {A} c (e ∷ es) m v =
    option_cases (Holds (λ n. Inv n × (due c n ≡ due c m + asked c (e ∷ es)))) (handle e m) _ _
      (λ _. tt)
      λ n h.
        let s = subst (Holds (Step c (asks c e) m)) h (handle-Step c e m v) in
        Holds-map {Q = λ o. Inv o × (due c o ≡ due c m + asked c (e ∷ es))} (run_events es n)
          (λ o t. (t.0, omega (arith, t.1, s.counted))) (run_events-Step c es n s.kept)

pub start-Step :
    (c : ℕ) (o : Options) (d : Definitions)
    → Holds (λ m. Inv m × (due c m ≡ 0)) (start d (new_manager o))
unfolding start restart_weave stop start_http_server create_device new_manager
start-Step c o d =
    let m = emit init_power_manager (new_manager o) in
    let run = record m { running = true; http_server = false } in
    let good = λ (n : Manager). Inv n × (due c n ≡ 0) in
    if_cases (Holds good) o.disable_privet _ _
      (λ _.
        Holds-map {Q = good} (make d run) (λ n s. (s.kept, s.counted))
          (make-Step c d run refl (record { none_waits = λ e. cc; current = tt })))
      (λ _.
        if_cases good o.enable_ping _ _ (λ _. (record { none_waits = λ e. cc; current = tt }, refl))
          (λ _. (record { none_waits = λ e. cc; current = tt }, refl)))

-- From Start on, whatever events come in whatever order: the times that a client has been handed a
-- service and the times that it still waits for one are together the times that it called connect;
-- either there is no device or nobody waits; and every service that is kept stands under its client
-- and is of the present device.
pub clients_served :
    {P A : Type 0} (c : ℕ) (o : Options) (d : Definitions) (es : List (Event P A)) (m n : Manager)
    → start d (new_manager o) ≡ some m
    → run_events es m ≡ some n
    → (served c n.log + count c n.pending_clients ≡ asked c es)
      × ((is_some n.device ≡ false) ⊎ (n.pending_clients ≡ []))
      × AllOf n.device n.services
clients_served c o d es m n started ran =
    let b = subst (Holds (λ m. Inv m × (due c m ≡ 0))) started (start-Step c o d) in
    let e =
      subst (Holds (λ n. Inv n × (due c n ≡ due c m + asked c es))) ran
        (run_events-Step c es m b.0) in
    (
      omega (arith, b.1, e.1),
      elim (Bool-cases (is_some n.device)) [
        | inl there ↦ inr (e.0.none_waits there)
        | inr gone ↦ inl gone
      ],
      e.0.current,
    )
