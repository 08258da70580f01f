-- ===== src/Session/Found.antt =====
-- libweaved/service.cc and buffet/manager.cc: the client process gets its service object.
use rockchip_android_system.Prelude.{
  ℕ, ◌+◌, ◌≡◌, refl, ap, ◌||◌, not, Bool, true, Option, some, List, [], ◌∷◌, ◌++◌, arith, nat_eq,
  is_some, option_cases, if_cases, if◌then◌else◌, subst, Holds,
}
use rockchip_android_system.Connection.{ServiceImpl, World, reconnect_on_service_disconnection}
use rockchip_android_system.Connection.Calls.{client_on_service_connected}
use rockchip_android_system.Connection.Life as Client
use rockchip_android_system.Connection.Life.{service_connect, on_weave_service_disconnected}
use rockchip_android_system.Connection.Settled.{awaits-post, connects_of, has, has-append, Settled}
use rockchip_android_system.Connection.Retry.{handle-Settled, on_service_connected-Settled}
use rockchip_android_system.Manager as Daemon
use rockchip_android_system.Manager.{Manager, Service, Options}
use rockchip_android_system.Manager.Clients.{connect}
use rockchip_android_system.Manager.Device.{Definitions, start}
use rockchip_android_system.Manager.Served.{handle-Step, start-Step}
use rockchip_android_system.Manager.Served.Clients.{
  count, count-append, served, due, asks, Inv, Step,
}
use rockchip_android_system.Manager.Served.Steps.{connect-Step}
use rockchip_android_system.Manager.System as Daemon_system
use rockchip_android_system.Manager.System.{new_manager}
use rockchip_android_system.Session.{
  services_of, Session, client_event, client_step, daemon_step, daemon_gone, Event, client_acts,
  daemon_acts, call_arrives, service_arrives, daemon_restarts, handle, run_events, new_session,
}

-- The clients of the service objects that are on their way.
abbrev pub clients : List (ℕ × Service) → List ℕ
clients [] = []
clients ((c, s) ∷ cs) = c ∷ clients cs

pub clients-append : (xs ys : List (ℕ × Service)) → clients (xs ++ ys) ≡ clients xs ++ clients ys
clients-append [] ys = refl
clients-append ((c, s) ∷ xs) ys = ap (λ cs. c ∷ cs) (clients-append xs ys)

-- The call of connect of the instance, or its answer, is on the way or waits for a device.
abbrev pub owing : Session → ℕ → Bool
owing s n = has n s.to_daemon || (has n s.manager.pending_clients || has n (clients s.to_client))

record Tracked (s : Session) : Type 0 where
  managed : Inv s.manager
  found : Settled (owing s) (record (s.world) { effects = [] })

has-count : (n : ℕ) (xs : List ℕ) → has n xs ≡ not (nat_eq (count n xs) 0)
has-count n [] = refl
has-count n (x ∷ xs) = ground (arith, has-count n xs)

pub services_of-served :
    (n : ℕ) (log : List Daemon.Effect) → count n (clients (services_of log)) ≡ served n log
services_of-served n [] = refl
services_of-served n (Daemon.service_connected c s ∷ log) = ground (
  arith,
  clients-append (services_of log) ((c, s) ∷ []),
  count-append n (clients (services_of log)) (c ∷ []),
  services_of-served n log,
)
services_of-served n (_ ∷ log) = services_of-served n log

client_step-Tracked :
    (f : World → Option World) (s : Session)
    → ((w : World) → Settled (owing s) w → Holds (Settled (owing s)) (f w))
    → Tracked s
    → Holds Tracked (client_step f s)
unfolding client_step
client_step-Tracked f s h t =
    option_cases (Holds Tracked) (f (record (s.world) { effects = [] })) _ _ (λ gone. tt)
      (λ w there. record {
        managed = t.managed;
        found = λ i e. ground (
          arith,
          subst (Holds (Settled (owing s))) there (h (record (s.world) { effects = [] }) t.found) i
              e,
          has-append i.number s.to_daemon (connects_of w.effects),
        );
      })

-- A client that waits, or has just called, still waits or has been handed a service object.
moved :
    (n k : ℕ) (m m' : Manager)
    → served n m.log ≡ 0
    → due n m' ≡ due n m + k
    → (has n m.pending_clients || not (nat_eq k 0)) ≡ true
    → (has n m'.pending_clients || has n (clients (services_of m'.log))) ≡ true
moved n k m m' quiet e waits = ground (
  arith,
  quiet,
  e,
  waits,
  has-count n m.pending_clients,
  has-count n m'.pending_clients,
  has-count n (clients (services_of m'.log)),
  services_of-served n m'.log,
)

daemon_step-Tracked :
    (f : Manager → Option Manager) (k : ℕ → ℕ) (s : Session)
    → ((c : ℕ)
        → Holds
            (Step c (k c) (record (s.manager) { log = [] }))
            (f (record (s.manager) { log = [] })))
    → Settled (λ n. owing s n || not (nat_eq (k n) 0)) (record (s.world) { effects = [] })
    → Holds Tracked (daemon_step f s)
unfolding daemon_step
daemon_step-Tracked f k s h found =
    option_cases (Holds Tracked) (f before) _ _ (λ gone. tt)
      (λ m there. record {
        managed = (step m there 0).kept;
        found = λ i e.
            let n = i.number in
            ground (
              arith,
              found i e,
              moved n (k n) before m refl (step m there n).counted,
              has-append n (clients s.to_client) (clients (services_of m.log)),
              ap (has n) (clients-append s.to_client (services_of m.log)),
            );
      })
  where
    before : Manager
    before = record (s.manager) { log = [] }

    step : (m : Manager) → f before ≡ some m → (c : ℕ) → Step c (k c) before m
    step m there c = subst (Holds (Step c (k c) before)) there (h c)

pub quiet-Inv : (m : Manager) → Inv m → Inv (record m { log = [] })
quiet-Inv m v = record { none_waits = v.none_waits; current = v.current }

daemon_gone-Settled :
    (owed owed' : ℕ → Bool) (w : World)
    → Settled owed (record w { effects = [] })
    → Settled owed' (record (daemon_gone w) { effects = [] })
unfolding daemon_gone on_weave_service_disconnected
daemon_gone-Settled owed owed' w h =
    option_cases good w.service _ _ (λ gone i e. ground (arith, gone, e))
      (λ j there.
        if_cases good (is_some j.weave_service_manager) _ _
          (λ known i e. ground (
            arith,
            there,
            e,
            awaits-post i.number w.tasks (reconnect_on_service_disconnection j.number),
          ))
          (λ unknown i e. ground (arith, h j there, there, e, unknown)))
  where
    good : World → Type 0
    good v = Settled owed' (record v { effects = [] })

handle-Tracked :
    {P A : Type 0} (o : Options) (handle_of : Service → ℕ) (e : Event P A) (s : Session)
    → Tracked s
    → Holds Tracked (handle o handle_of e s)
unfolding handle
handle-Tracked o handle_of (client_acts a) s t =
    client_step-Tracked (Client.handle (client_event a)) s
      (λ w h. handle-Settled (owing s) (client_event a) w h) t
handle-Tracked o handle_of (daemon_acts e) s t =
    daemon_step-Tracked (Daemon_system.handle e) (λ c. asks c e) s
      (λ c. handle-Step c e (record (s.manager) { log = [] }) (quiet-Inv s.manager t.managed))
      (λ i there. ground (arith, t.found i there))
handle-Tracked o handle_of call_arrives s t = arrives s.to_daemon refl
  where
    arrives :
        (calls : List ℕ)
        → calls ≡ s.to_daemon
        → Holds Tracked (elim calls [
          | [] ↦ some s
          | n ∷ ns ↦ daemon_step (connect n) (record s { to_daemon = ns })
        ])
    arrives [] e = t
    arrives (n ∷ ns) e =
        daemon_step-Tracked (connect n) (λ c. if nat_eq n c then 1 else 0)
          (record s { to_daemon = ns })
          (λ c. connect-Step c n (record (s.manager) { log = [] }) (quiet-Inv s.manager t.managed))
          (λ i there. ground (arith, t.found i there, ap (has i.number) e))
handle-Tracked o handle_of service_arrives s t = arrives s.to_client refl
  where
    arrives :
        (calls : List (ℕ × Service))
        → calls ≡ s.to_client
        → Holds Tracked (elim calls [
          | [] ↦ some s
          | c ∷ cs ↦
              client_step
                (λ w. some (client_on_service_connected c.0 (handle_of c.1) w))
                (record s { to_client = cs })
        ])
    arrives [] e = t
    arrives (c ∷ cs) e =
        let rest : Session = record s { to_client = cs } in
        let w : World = record (s.world) { effects = [] } in
        record {
          managed = t.managed;
          found = λ i there. ground (
            arith,
            on_service_connected-Settled (owing s) (owing rest) c.0 (handle_of c.1) w
                (λ k other. ground (arith, other, ap (λ cs. has k (clients cs)) e)) t.found i there,
            has-append i.number s.to_daemon
                (connects_of (client_on_service_connected c.0 (handle_of c.1) w).effects),
          );
        }
handle-Tracked o handle_of (daemon_restarts defs) s t =
    option_cases (Holds Tracked) (start defs (new_manager o)) _ _ (λ gone. tt)
      (λ m there. record {
        managed = (subst (Holds (λ m. Inv m × (due 0 m ≡ 0))) there (start-Step 0 o defs)).0;
        found = daemon_gone-Settled (owing s) _ s.world t.found;
      })

run_events-Tracked :
    {P A : Type 0} (o : Options) (handle_of : Service → ℕ) (es : List (Event P A)) (s : Session)
    → Tracked s
    → Holds Tracked (run_events o handle_of es s)
unfolding run_events
run_events-Tracked o handle_of [] s t = t
run_events-Tracked o handle_of (e ∷ es) s t =
    option_cases (Holds Tracked) (handle o handle_of e s) _ _ (λ gone. tt)
      (λ n there.
        run_events-Tracked o handle_of es n
          (subst (Holds Tracked) there (handle-Tracked o handle_of e s t)))

new_session-Tracked : (m : Manager) → Inv m → Tracked (new_session m)
unfolding new_session service_connect
new_session-Tracked m v = record { managed = v; found = λ i there. ground (arith, there) }

-- A client process calls Service::Connect while a daemon runs. Whatever the two processes then do,
-- in whatever order, whether the daemon has a device at once, later or never, and however often it
-- dies and is started again, if no CHECK fails: once the client's queue has no task, no call of
-- connect and no service object is on its way, and the daemon has a device, the client's instance
-- has its service object, if the subscription still holds one.
pub client_is_served :
    {P A : Type 0} (o : Options) (handle_of : Service → ℕ) (defs : Definitions) (m : Manager)
    (es : List (Event P A)) (s : Session) (i : ServiceImpl)
    → start defs (new_manager o) ≡ some m
    → run_events o handle_of es (new_session m) ≡ some s
    → s.world.service ≡ some i
    → s.world.tasks ≡ []
    → s.to_daemon ≡ []
    → s.to_client ≡ []
    → is_some s.manager.device ≡ true
    → is_some i.weave_service ≡ true
unfolding connects_of
client_is_served o handle_of defs m es s i started ran there idle sent given device =
    let begun = subst (Holds (λ m. Inv m × (due 0 m ≡ 0))) started (start-Step 0 o defs) in
    let t : Tracked s =
      subst (Holds Tracked) ran
        (run_events-Tracked o handle_of es (new_session m) (new_session-Tracked m begun.0)) in
    ground (arith, t.found i there, idle, sent, given, t.managed.none_waits device)
