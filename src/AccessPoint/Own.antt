-- ===== src/AccessPoint/Own.antt =====
-- buffet/ap_manager_client.cc: the services that the client names and starts are its own.
use rockchip_android_system.Prelude.{
  ◌≡◌, subst, Bool, true, false, Option, some, List, [], ◌∷◌, String, arith, eq_iff, eq_refl,
  is_some, ◌==◌, ◌||◌, if_cases, option_cases, Holds, Option-cases, inl, inr,
}
use rockchip_android_system.AccessPoint.{
  Effect, watch_objects, created, removed, started, set_ssid, ApManagerClient, new_client, is_own,
  start, remove_service, remove_own, stop, on_manager_added, on_service_added, on_ssid_set,
  on_service_removed, on_manager_removed, Event, start_access_point, stop_access_point,
  manager_added, manager_removed, service_added, service_removed, ssid_set, handle, run_events,
}

-- The service has been created for the client.
abbrev pub was_created : String → List Effect → Bool
was_created path [] = false
was_created path (created p ∷ log) = p == path || was_created path log
was_created path (watch_objects ∷ log) = was_created path log
was_created path (removed p ∷ log) = was_created path log
was_created path (started p ∷ log) = was_created path log
was_created path (set_ssid p ssid ∷ log) = was_created path log

-- A service is given an SSID, and started, only after it was created for the client.
abbrev pub OwnOnly : List Effect → Type 0
OwnOnly [] = Unit
OwnOnly (created p ∷ log) = OwnOnly log
OwnOnly (watch_objects ∷ log) = OwnOnly log
OwnOnly (removed p ∷ log) = OwnOnly log
OwnOnly (started p ∷ log) = (was_created p log ≡ true) × OwnOnly log
OwnOnly (set_ssid p ssid ∷ log) = (was_created p log ≡ true) × OwnOnly log

pub record Inv (c : ApManagerClient) : Type 0 where
  pub own_only : OwnOnly c.log
  pub path_created : (p : String) → c.service_path ≡ some p → was_created p c.log ≡ true
  pub proxy_own : (p : String) → c.service_proxy ≡ some p → c.service_path ≡ some p

is_own_eq :
    (path : String) (c : ApManagerClient) → is_own path c ≡ true → c.service_path ≡ some path
is_own_eq path c e = elim (Option-cases c.service_path) [
  | inl free ↦ ground (arith, e, free)
  | inr (own, there) ↦ ground (arith, e, there, eq_iff own path)
]

start-Inv : (ssid : String) (c : ApManagerClient) → Inv c → Inv (start ssid c)
unfolding start
start-Inv ssid c v =
    if_cases Inv (is_some c.service_path) _ _ (λ e. v)
      (λ e. record {
        own_only = v.own_only;
        path_created = v.path_created;
        proxy_own = v.proxy_own;
      })

remove_own-OwnOnly : (c : ApManagerClient) → Inv c → OwnOnly (remove_own c).log
unfolding remove_own
remove_own-OwnOnly c v =
    option_cases (λ (d : ApManagerClient). OwnOnly d.log) c.service_path _ _ (λ e. v.own_only)
      (λ p e.
        if_cases (λ (d : ApManagerClient). OwnOnly d.log) c.has_manager _ _ (λ t. v.own_only)
          (λ t. v.own_only))

-- A client that has stopped has no service.
stop-Inv : (c : ApManagerClient) → Inv c → Inv (stop c)
unfolding stop
stop-Inv c v = record {
  own_only = remove_own-OwnOnly c v;
  path_created = λ p e. ground arith;
  proxy_own = λ p e. ground arith;
}

on_manager_added-Inv :
    (answer : Option String) (c : ApManagerClient) → Inv c → Inv (on_manager_added answer c)
unfolding on_manager_added
on_manager_added-Inv answer c v =
    if_cases Inv (is_some c.service_path) _ _ (λ e. same)
      (λ free.
        option_cases Inv answer _ _ (λ e. same)
          (λ path e. record {
            own_only = v.own_only;
            path_created = λ p f. ground (arith, f, eq_refl path);
            proxy_own = λ p f. ground (arith, free, v.proxy_own p f);
          }))
  where
    same : Inv (record c { has_manager = true })
    same = record { own_only = v.own_only; path_created = v.path_created; proxy_own = v.proxy_own }

on_service_added-Inv :
    (path : String) (c : ApManagerClient) → Inv c → Holds Inv (on_service_added path c)
unfolding on_service_added remove_service
on_service_added-Inv path c v =
    if_cases (Holds Inv) (is_own path c) _ _
      (λ own.
        let e = is_own_eq path c own in
        record {
          own_only = (v.path_created path e, v.own_only);
          path_created = v.path_created;
          proxy_own = λ p f. ground (arith, e, f);
        })
      (λ other.
        if_cases (Holds Inv) c.has_manager _ _
          (λ t. record {
            own_only = v.own_only;
            path_created = v.path_created;
            proxy_own = v.proxy_own;
          })
          (λ t. tt))

on_ssid_set-Inv : (success : Bool) (c : ApManagerClient) → Inv c → Inv (on_ssid_set success c)
unfolding on_ssid_set
on_ssid_set-Inv success c v =
    option_cases Inv c.service_proxy _ _ (λ e. v)
      (λ p e.
        if_cases Inv success _ _
          (λ t. record {
            own_only = (v.path_created p (v.proxy_own p e), v.own_only);
            path_created = v.path_created;
            proxy_own = v.proxy_own;
          })
          (λ t. v))

on_service_removed-Inv :
    (path : String) (c : ApManagerClient) → Inv c → Inv (on_service_removed path c)
unfolding on_service_removed
on_service_removed-Inv path c v =
    if_cases Inv (is_own path c) _ _
      (λ e. record {
        own_only = v.own_only;
        path_created = λ p f. ground arith;
        proxy_own = λ p f. ground arith;
      })
      (λ e. v)

handle-Inv : (e : Event) (c : ApManagerClient) → Inv c → Holds Inv (handle e c)
unfolding handle on_manager_removed
handle-Inv (start_access_point ssid) c v = start-Inv ssid c v
handle-Inv stop_access_point c v = stop-Inv c v
handle-Inv (manager_added answer) c v = on_manager_added-Inv answer c v
handle-Inv manager_removed c v =
    stop-Inv (record c { has_manager = false })
      (record { own_only = v.own_only; path_created = v.path_created; proxy_own = v.proxy_own })
handle-Inv (service_added path) c v = on_service_added-Inv path c v
handle-Inv (service_removed path) c v = on_service_removed-Inv path c v
handle-Inv (ssid_set success) c v = on_ssid_set-Inv success c v

run_events-Inv : (es : List Event) (c : ApManagerClient) → Inv c → Holds Inv (run_events es c)
unfolding run_events
run_events-Inv [] c v = v
run_events-Inv (e ∷ es) c v =
    option_cases (Holds Inv) (handle e c) _ _ (λ gone. tt)
      (λ d there. run_events-Inv es d (subst (Holds Inv) there (handle-Inv e c v)))

-- Whatever the daemon asks for and apmanager reports, in whatever order, if no call goes to a
-- manager that is gone: a service is given an SSID, and is started, only after apmanager has
-- created it for the client.
pub own_services :
    (es : List Event) (c : ApManagerClient) → run_events es new_client ≡ some c → OwnOnly c.log
own_services es c ran =
    let v : Inv c = subst (Holds Inv) ran (
      run_events-Inv es new_client (record {
        own_only = tt;
        path_created = λ p e. ground arith;
        proxy_own = λ p e. ground arith;
      })) in
    v.own_only
