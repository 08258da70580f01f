-- ===== src/Manager/Shown.antt =====
-- buffet/manager.cc: which steps of the manager touch the pairing that it shows and its listeners.
use rockchip_android_system.Prelude.{
  ℕ, ◌≡◌, refl, ap, ◌∙◌, ◌++◌, Bool, true, false, Option, none, some, List, [], ◌∷◌, String, Holds,
  Holds-map, if_cases, option_cases, is_some, suc,
}
use rockchip_android_system.Settings.{Settings}
use rockchip_android_system.Manager.{
  Manager, Effect, emit, make_device, add_reboot_handler, add_callbacks, add_traits, add_commands,
  add_states, set_state, notify_service_manager_change, on_config_changed,
}
use rockchip_android_system.Manager.Notices.{on_config_changed_lem, changed_ids, settings_entries}
use rockchip_android_system.Manager.Clients.{serve, serve_all, create_services_for_clients, connect}
use rockchip_android_system.Manager.Device.{
  Definitions, load_definitions, load_state_defaults, load_trait_definitions,
  load_command_definitions, load_state_definitions, load_all, make, create_device,
}
use rockchip_android_system.Manager.Served.Steps.{Holds-bind}

-- The pairing that the manager shows, and its listeners.
abbrev pub shown : Manager → (String × String × String) × List ℕ
shown m = ((m.pairing_session_id, m.pairing_mode, m.pairing_code), m.notification_listeners)

abbrev pub Kept : Manager → Manager → Type 0
Kept m n = shown n ≡ shown m

-- Two steps in a row.
after : (m n : Manager) (o : Option Manager) → Kept m n → Holds (Kept n) o → Holds (Kept m) o
after m n o k h = Holds-map o (λ p l. l ∙ k) h

pub notify-Kept : (ids : List ℕ) (m : Manager) → Kept m (notify_service_manager_change ids m)
unfolding notify_service_manager_change
notify-Kept [] m = refl
notify-Kept (n ∷ ns) m = refl

pub on_config_changed-Kept :
    {P A : Type 0} (s : Settings P A) (m : Manager) → Kept m (on_config_changed s m)
on_config_changed-Kept s m =
    ap shown (on_config_changed_lem s m) ∙ notify-Kept (changed_ids (settings_entries s) m) _

load_definitions-Kept :
    (add : String → Effect) (fs : List (Option String)) (m : Manager)
    → Holds (Kept m) (load_definitions add fs m)
unfolding load_definitions
load_definitions-Kept add [] m = refl
load_definitions-Kept add (none ∷ fs) m = tt
load_definitions-Kept add (some json ∷ fs) m = load_definitions-Kept add fs (emit (add json) m)

load_state_defaults-Kept :
    (fs : List (Option String × Bool)) (m : Manager) → Holds (Kept m) (load_state_defaults fs m)
unfolding load_state_defaults
load_state_defaults-Kept [] m = refl
load_state_defaults-Kept ((none, ok) ∷ fs) m = tt
load_state_defaults-Kept ((some json, false) ∷ fs) m = tt
load_state_defaults-Kept ((some json, true) ∷ fs) m =
    load_state_defaults-Kept fs (emit (set_state json) m)

load_all-Kept : (d : Definitions) (m : Manager) → Holds (Kept m) (load_all d m)
unfolding load_all load_trait_definitions load_command_definitions load_state_definitions
load_all-Kept d m =
    Holds-bind (Kept m) (load_definitions add_traits d.traits m) _
      (load_definitions-Kept add_traits d.traits m)
      λ m₁ k₁.
        Holds-bind (Kept m) (load_command_definitions d m₁) _
          (Holds-bind (Kept m) (load_definitions add_commands d.commands m₁) _
            (after m m₁ _ k₁ (load_definitions-Kept add_commands d.commands m₁))
            λ n k. after m n _ k (load_definitions-Kept add_commands d.test_commands n))
          λ m₂ k₂.
            Holds-bind (Kept m) (load_definitions add_states d.states m₂) _
              (after m m₂ _ k₂ (load_definitions-Kept add_states d.states m₂))
              λ m₃ k₃. after m m₃ _ k₃ (load_state_defaults-Kept d.defaults m₃)

serve_all-Kept : (device : ℕ) (cs : List ℕ) (m : Manager) → Kept m (serve_all device cs m)
unfolding serve_all serve
serve_all-Kept device [] m = refl
serve_all-Kept device (c ∷ cs) m = serve_all-Kept device cs (serve device c m)

create_services-Kept : (m : Manager) → Holds (Kept m) (create_services_for_clients m)
unfolding create_services_for_clients
create_services-Kept m =
    option_cases (Holds (Kept m)) m.device _ _ (λ gone. tt)
      (λ d there. serve_all-Kept d m.pending_clients (record m { pending_clients = [] }))

pub connect-Kept : (c : ℕ) (m : Manager) → Holds (Kept m) (connect c m)
unfolding connect
connect-Kept c m =
    if_cases (Holds (Kept m)) (is_some m.device) _ _
      (λ on. create_services-Kept (record m { pending_clients = m.pending_clients ++ c ∷ [] }))
      (λ off. refl)

pub create_device-Kept : (d : Definitions) (m : Manager) → Holds (Kept m) (create_device d m)
unfolding create_device make
create_device-Kept d m =
    if_cases (Holds (Kept m)) (is_some m.device) _ _ (λ on. refl)
      (λ off.
        Holds-bind (Kept m) (load_all d _) _
          (load_all-Kept d (
            emit (make_device m.next_device)
              (record m { device = some m.next_device; next_device = suc m.next_device })))
          λ n k.
            after m n _ k (create_services-Kept (emit add_reboot_handler (emit add_callbacks n))))
