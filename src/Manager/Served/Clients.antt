-- ===== src/Manager/Served/Clients.antt =====
-- buffet/manager.cc: how the parts of the manager bear on its clients and their services.
use rockchip_android_system.Prelude.{
  ℕ, suc, ◌+◌, ◌≡◌, refl, sym, ap, ◌∙◌, true, Option, some, List, [], ◌∷◌, ◌++◌, String, arith,
  nat_eq, is_some, if◌then◌else◌,
}
use rockchip_android_system.Settings.{Settings}
use rockchip_android_system.Manager.{
  Manager, Service, Effect, service_connected, notify_all, notify_change,
  notify_service_manager_change, on_config_changed, update_pairing,
}
use rockchip_android_system.Manager.Notices.{
  on_config_changed_lem, changed_ids, settings_entries, update_pairing_lem, set_pairing,
}
use rockchip_android_system.Manager.Clients.{emplace, erase_service, serve, serve_all}
use rockchip_android_system.Manager.System.{Event, connects}

abbrev pub count : ℕ → List ℕ → ℕ
count c [] = 0
count c (d ∷ ds) = if nat_eq d c then suc (count c ds) else count c ds

-- How often the client has been handed a service.
abbrev pub served : ℕ → List Effect → ℕ
served c [] = 0
served c (service_connected d s ∷ l) = if nat_eq d c then suc (served c l) else served c l
served c (_ ∷ l) = served c l

-- 1 if the event is a call of connect by `c`.
abbrev pub asks : {P A : Type 0} → ℕ → Event P A → ℕ
asks c (connects d) = if nat_eq d c then 1 else 0
asks c _ = 0

-- How often `c` calls connect.
abbrev pub asked : {P A : Type 0} → ℕ → List (Event P A) → ℕ
asked c [] = 0
asked c (e ∷ es) = asks c e + asked c es

-- Every service is for the client under which it stands, and of the device `d`.
abbrev pub AllOf : Option ℕ → List (ℕ × Service) → Type 0
AllOf d [] = Unit {0}
AllOf d ((c, s) ∷ ss) = (s.client ≡ c) × (some s.device ≡ d) × AllOf d ss

pub record Inv (m : Manager) : Type 0 where
  pub none_waits : is_some m.device ≡ true → m.pending_clients ≡ []
  pub current : AllOf m.device m.services

-- The service calls that the client `c` has had or waits for.
abbrev pub due : ℕ → Manager → ℕ
due c m = served c m.log + count c m.pending_clients

-- The invariant holds after a step in which `c` asks `n` times.
pub record Step (c n : ℕ) (m m' : Manager) : Type 0 where
  pub kept : Inv m'
  pub counted : due c m' ≡ due c m + n

-- What does not touch clients, services and device.
pub record Same (c : ℕ) (m m' : Manager) : Type 0 where
  pub same_device : m'.device ≡ m.device
  pub same_running : m'.running ≡ m.running
  pub same_next_device : m'.next_device ≡ m.next_device
  pub same_http_server : m'.http_server ≡ m.http_server
  pub same_pending : m'.pending_clients ≡ m.pending_clients
  pub same_services : m'.services ≡ m.services
  pub same_served : served c m'.log ≡ served c m.log

pub emplace-AllOf :
    (d : Option ℕ) (k : ℕ) (s : Service) (ss : List (ℕ × Service))
    → s.client ≡ k
    → some s.device ≡ d
    → AllOf d ss
    → AllOf d (emplace k s ss)
unfolding emplace
emplace-AllOf d k s [] e f h = (e, f, tt)
emplace-AllOf d k s ((j, w) ∷ ss) e f h = ground (arith, emplace-AllOf d k s ss e f h.2)

pub erase_service-AllOf :
    (d : Option ℕ) (k : ℕ) (ss : List (ℕ × Service)) → AllOf d ss → AllOf d (erase_service k ss)
unfolding erase_service
erase_service-AllOf d k [] h = tt
erase_service-AllOf d k ((j, w) ∷ ss) h = ground (arith, erase_service-AllOf d k ss h.2)

pub count-append : (c : ℕ) (xs ys : List ℕ) → count c (xs ++ ys) ≡ count c xs + count c ys
count-append c [] ys = omega arith
count-append c (x ∷ xs) ys = ground (arith, count-append c xs ys)

pub record ServedAll (c d : ℕ) (cs : List ℕ) (m m' : Manager) : Type 0 where
  pub same_device : m'.device ≡ m.device
  pub same_running : m'.running ≡ m.running
  pub same_next_device : m'.next_device ≡ m.next_device
  pub same_http_server : m'.http_server ≡ m.http_server
  pub same_pending : m'.pending_clients ≡ m.pending_clients
  pub all_current : m.device ≡ some d → AllOf m.device m.services → AllOf m.device m'.services
  pub all_served : served c m'.log ≡ served c m.log + count c cs

pub serve_all-ServedAll :
    (c d : ℕ) (cs : List ℕ) (m : Manager) → ServedAll c d cs m (serve_all d cs m)
unfolding serve_all serve
serve_all-ServedAll c d [] m = record {
  same_device = refl;
  same_running = refl;
  same_next_device = refl;
  same_http_server = refl;
  same_pending = refl;
  all_current = λ e h. h;
  all_served = omega arith;
}
serve_all-ServedAll c d (x ∷ cs) m =
    let ih = serve_all-ServedAll c d cs (serve d x m) in
    let s : Service = record { device = d; client = x } in
    record {
      same_device = ih.same_device;
      same_running = ih.same_running;
      same_next_device = ih.same_next_device;
      same_http_server = ih.same_http_server;
      same_pending = ih.same_pending;
      all_current = λ e h. ih.all_current e (emplace-AllOf m.device x s m.services refl (sym e) h);
      all_served = ih.all_served ∙ ground arith;
    }

pub Same-Step : (c : ℕ) (m m' : Manager) → Same c m m' → Inv m → Step c 0 m m'
Same-Step c m m' s v = record {
  kept = record {
    none_waits = λ e. s.same_pending ∙ v.none_waits (ap is_some (sym s.same_device) ∙ e);
    current = rw (s.same_device, s.same_services) (v.current);
  };
  counted = ground arith;
}

pub served-notify_all :
    (c : ℕ) (ids ls : List ℕ) (l : List Effect) → served c (notify_all ids ls l) ≡ served c l
served-notify_all c ids [] l = refl
served-notify_all c ids (x ∷ ls) l = served-notify_all c ids ls (notify_change x ids ∷ l)

pub notify-Same :
    (c : ℕ) (ids : List ℕ) (m : Manager) → Same c m (notify_service_manager_change ids m)
unfolding notify_service_manager_change
notify-Same c [] m = record {
  same_device = refl;
  same_running = refl;
  same_next_device = refl;
  same_http_server = refl;
  same_pending = refl;
  same_services = refl;
  same_served = refl;
}
notify-Same c (n ∷ ids) m = record {
  same_device = refl;
  same_running = refl;
  same_next_device = refl;
  same_http_server = refl;
  same_pending = refl;
  same_services = refl;
  same_served = served-notify_all c (n ∷ ids) m.notification_listeners m.log;
}

-- The same after a change that shows none of these members.
pub Same-trans : (c : ℕ) (m n o : Manager) → Same c m n → Same c n o → Same c m o
Same-trans c m n o s t = ground arith

pub config-Same :
    {P A : Type 0} (c : ℕ) (s : Settings P A) (m : Manager) → Same c m (on_config_changed s m)
config-Same c s m = rw (on_config_changed_lem s m) (
    Same-trans c m _ _
      (record {
        same_device = refl;
        same_running = refl;
        same_next_device = refl;
        same_http_server = refl;
        same_pending = refl;
        same_services = refl;
        same_served = refl;
      })
      (notify-Same c (changed_ids (settings_entries s) m) _))

pub pairing-Same :
    (c : ℕ) (session mode code : String) (m : Manager)
    → Same c m (update_pairing session mode code m)
pairing-Same c session mode code m = rw (update_pairing_lem session mode code m) (
    Same-trans c m (set_pairing session mode code m) _
      (record {
        same_device = refl;
        same_running = refl;
        same_next_device = refl;
        same_http_server = refl;
        same_pending = refl;
        same_services = refl;
        same_served = refl;
      })
      (notify-Same c _ _))
