-- ===== src/Manager/Served/Steps.antt =====
-- buffet/manager.cc: the steps that load definitions and serve the clients who wait.
use rockchip_android_system.Prelude.{
  ℕ, ◌≡◌, refl, Bool, true, false, Option, none, some, List, [], ◌∷◌, ◌++◌, String, arith, nat_eq,
  Holds-map, is_some, if◌then◌else◌, if_cases, Holds,
}
use rockchip_android_system.Manager.{Manager, Service, Effect, set_state, emit}
use rockchip_android_system.Manager.Clients.{create_services_for_clients, connect}
use rockchip_android_system.Manager.Device.{◌>>=◌, load_definitions, load_state_defaults}
use rockchip_android_system.Manager.Served.Clients.{
  served, AllOf, Inv, Step, Same, count-append, serve_all-ServedAll, Same-trans,
}

pub Holds-bind :
    {A B : Type 0} {P : A → Type 0} (Q : B → Type 0) (o : Option A) (f : A → Option B)
    → Holds P o
    → ((a : A) → P a → Holds Q (f a))
    → Holds Q (o >>= f)
Holds-bind Q none f h g = tt
Holds-bind Q (some a) f h g = g a h

-- Two steps in a row.
pub after :
    (c : ℕ) (m n : Manager) (o : Option Manager)
    → Same c m n
    → Holds (Same c n) o
    → Holds (Same c m) o
after c m n o s h = Holds-map o (λ p t. Same-trans c m n p s t) h

pub load_definitions-Same :
    (c : ℕ) (add : String → Effect) (fs : List (Option String)) (m : Manager)
    → ((json : String) (l : List Effect) → served c (add json ∷ l) ≡ served c l)
    → Holds (Same c m) (load_definitions add fs m)
unfolding load_definitions
load_definitions-Same c add [] m h = record {
  same_device = refl;
  same_running = refl;
  same_next_device = refl;
  same_http_server = refl;
  same_pending = refl;
  same_services = refl;
  same_served = refl;
}
load_definitions-Same c add (none ∷ fs) m h = tt
load_definitions-Same c add (some json ∷ fs) m h =
    after c m (emit (add json) m) _
      (record {
        same_device = refl;
        same_running = refl;
        same_next_device = refl;
        same_http_server = refl;
        same_pending = refl;
        same_services = refl;
        same_served = h json m.log;
      })
      (load_definitions-Same c add fs (emit (add json) m) h)

pub load_state_defaults-Same :
    (c : ℕ) (fs : List (Option String × Bool)) (m : Manager)
    → Holds (Same c m) (load_state_defaults fs m)
unfolding load_state_defaults
load_state_defaults-Same c [] m = record {
  same_device = refl;
  same_running = refl;
  same_next_device = refl;
  same_http_server = refl;
  same_pending = refl;
  same_services = refl;
  same_served = refl;
}
load_state_defaults-Same c ((none, ok) ∷ fs) m = tt
load_state_defaults-Same c ((some json, false) ∷ fs) m = tt
load_state_defaults-Same c ((some json, true) ∷ fs) m =
    after c m (emit (set_state json) m) _
      (record {
        same_device = refl;
        same_running = refl;
        same_next_device = refl;
        same_http_server = refl;
        same_pending = refl;
        same_services = refl;
        same_served = refl;
      })
      (load_state_defaults-Same c fs (emit (set_state json) m))

pub AllOf-none : (d : Option ℕ) (ss : List (ℕ × Service)) → AllOf none ss → AllOf d ss
AllOf-none d [] h = tt
AllOf-none d ((c, s) ∷ ss) h = cc

-- With a device `d`, whose services are of that device, all pending clients are served.
pub create_services-Step :
    (c d : ℕ) (m : Manager)
    → m.device ≡ some d
    → AllOf m.device m.services
    → Holds (Step c 0 m) (create_services_for_clients m)
unfolding create_services_for_clients
create_services-Step c d m e h =
    let m' = record m { pending_clients = [] } in
    let r = serve_all-ServedAll c d m.pending_clients m' in
    rw (e, create_services_for_clients)
      (record {
        kept = record {
          none_waits = λ _. r.same_pending;
          current = rw (r.same_device) (r.all_current e h);
        };
        counted = ground (arith, r.all_served, r.same_pending);
      })

pub connect-Step :
    (c k : ℕ) (m : Manager) → Inv m → Holds (Step c (if nat_eq k c then 1 else 0) m) (connect k m)
unfolding connect
connect-Step c k m v =
    let m' = record m { pending_clients = m.pending_clients ++ k ∷ [] } in
    let asked_once = count-append c m.pending_clients (k ∷ []) in
    if_cases (Holds (Step c (if nat_eq k c then 1 else 0) m)) (is_some m.device) _ _
      (λ there. with_device m.device refl there)
      (λ off. record {
        kept = record { none_waits = λ e. cc; current = v.current };
        counted = ground (arith, asked_once);
      })
  where
    with_device :
        (d : Option ℕ)
        → m.device ≡ d
        → is_some d ≡ true
        → Holds (Step c (if nat_eq k c then 1 else 0) m) (
            create_services_for_clients
              (record m { pending_clients = m.pending_clients ++ k ∷ [] }))
    with_device none e h = cc
    with_device (some d) e h =
        Holds-map {Q = Step c (if nat_eq k c then 1 else 0) m} _
          (λ n s. record {
            kept = s.kept;
            counted = ground (arith, s.counted, count-append c m.pending_clients (k ∷ []));
          })
          (create_services-Step c d (record m { pending_clients = m.pending_clients ++ k ∷ [] }) e
            v.current)
