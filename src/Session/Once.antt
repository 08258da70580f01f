-- ===== src/Session/Once.antt =====
-- libweaved/service.cc and buffet/manager.cc: an instance is told of its connection once at most.
use rockchip_android_system.Prelude.{
  ℕ, ◌+◌, ◌≤◌, ◌≡◌, refl, ap, Option, some, List, [], ◌∷◌, arith, nat_eq, option_cases, subst,
  Holds, if_cases, is_some, if◌then◌else◌,
}
use rockchip_android_system.Connection.{
  Effect, World, connect_client, run_connection_callback, reconnect_on_service_disconnection,
}
use rockchip_android_system.Connection.Budget.{
  one_if, total, tries, unborn, tries-append, spent, Within, Apart, handle-Within,
  client_on_service_connected-Within,
}
use rockchip_android_system.Connection.Calls.{client_on_service_connected}
use rockchip_android_system.Connection.Life as Client
use rockchip_android_system.Connection.Life.{service_connect, on_weave_service_disconnected}
use rockchip_android_system.Connection.Settled.{connects_of}
use rockchip_android_system.Manager.{Manager, Service, Options}
use rockchip_android_system.Manager.Clients.{connect}
use rockchip_android_system.Manager.Device.{Definitions, start}
use rockchip_android_system.Manager.Served.{handle-Step, start-Step}
use rockchip_android_system.Manager.Served.Clients.{count, count-append, due, asks, Inv, Step}
use rockchip_android_system.Manager.Served.Steps.{connect-Step}
use rockchip_android_system.Manager.System as Daemon_system
use rockchip_android_system.Manager.System.{new_manager}
use rockchip_android_system.Session.{
  services_of, callbacks_of, Session, Act, client_event, client_step, daemon_step, daemon_gone,
  Event, runs_task, gets_command, gets_notification, adds_handler, sets_listener,
  destroys_subscription, client_acts, daemon_acts, call_arrives, service_arrives, daemon_restarts,
  handle, run_events, new_session,
}
use rockchip_android_system.Session.Found.{clients, clients-append, services_of-served, quiet-Inv}

spent-counts :
    (n : ℕ) (es : List Effect) → spent n es ≡ count n (connects_of es) + count n (callbacks_of es)
unfolding connects_of
spent-counts n [] = refl
spent-counts n (connect_client b k ∷ es) = ground (arith, spent-counts n es)
spent-counts n (run_connection_callback k ∷ es) = ground (arith, spent-counts n es)
spent-counts n (_ ∷ es) = omega (arith, spent-counts n es)

-- The calls of connect of the instance `n`, and its service objects, that are under way.
abbrev under_way : ℕ → Session → ℕ
under_way n s =
    count n s.to_daemon + count n s.manager.pending_clients + count n (clients s.to_client)

-- All that may yet lead to a run of the connection callback of the instance, and its runs so far.
abbrev all_of : ℕ → Session → ℕ
all_of n s = tries n s.world.tasks + unborn n s.world + under_way n s + count n s.connected

record Limited (n : ℕ) (s : Session) : Type 0 where
  managed : Inv s.manager
  limited : all_of n s ≤ 1

client_step-Limited :
    (n more : ℕ) (f : World → Option World) (s : Session)
    → ((k : ℕ) (w : World) → more + total n w ≤ k → Holds (Within n k) (f w))
    → Inv s.manager
    → more + all_of n s ≤ 1
    → Holds (Limited n) (client_step f s)
unfolding client_step
client_step-Limited n more f s h managed limited =
    let w : World = record (s.world) { effects = [] } in
    option_cases (Holds (Limited n)) (f w) _ _ (λ gone. tt)
      (λ v there. record {
        managed = managed;
        limited = omega (
          arith,
          limited,
          subst (Holds (Within n (more + total n w))) there (h (more + total n w) w (omega arith)),
          spent-counts n v.effects,
          count-append n s.to_daemon (connects_of v.effects),
          count-append n s.connected (callbacks_of v.effects),
        );
      })

daemon_step-Limited :
    (n k : ℕ) (f : Manager → Option Manager) (s : Session)
    → Holds (Step n k (record (s.manager) { log = [] })) (f (record (s.manager) { log = [] }))
    → k + all_of n s ≤ 1
    → Holds (Limited n) (daemon_step f s)
unfolding daemon_step
daemon_step-Limited n k f s h limited =
    let before : Manager = record (s.manager) { log = [] } in
    option_cases (Holds (Limited n)) (f before) _ _ (λ gone. tt)
      (λ m there.
        let step = subst (Holds (Step n k before)) there h in
        record {
          managed = step.kept;
          limited = omega (
            arith,
            limited,
            step.counted,
            services_of-served n m.log,
            ap (count n) (clients-append s.to_client (services_of m.log)),
            count-append n (clients s.to_client) (clients (services_of m.log)),
          );
        })

-- No other process uses the number for its client.
abbrev pub Own : {P A : Type 0} → ℕ → List (Event P A) → Type 0
Own n [] = Unit
Own n (daemon_acts e ∷ es) = (asks n e ≡ 0) × Own n es
Own n (_ ∷ es) = Own n es

-- The death of the daemon does not make an instance try more often.
gone-tries :
    (n : ℕ) (w : World)
    → tries n (daemon_gone w).tasks + unborn n (daemon_gone w) ≤ tries n w.tasks + unborn n w
unfolding daemon_gone on_weave_service_disconnected
gone-tries n w =
    option_cases no_more w.service _ _ (λ gone. omega arith)
      (λ i there.
        if_cases no_more (is_some i.weave_service_manager) _ _
          (λ known.
            omega
              (arith, tries-append n w.tasks (reconnect_on_service_disconnection i.number ∷ [])))
          (λ unknown. omega arith))
  where
    no_more : World → Type 0
    no_more v = tries n v.tasks + unborn n v ≤ tries n w.tasks + unborn n w

handle-Limited :
    {P A : Type 0} (o : Options) (handle_of : Service → ℕ) (n : ℕ) (e : Event P A) (s : Session)
    → Own n (e ∷ [])
    → Limited n s
    → Holds (Limited n) (handle o handle_of e s)
unfolding handle
handle-Limited o handle_of n (client_acts a) s own t =
    client_step-Limited n 0 (Client.handle (client_event a)) s
      (λ k w h. handle-Within n k (client_event a) w (own_act a) (omega (arith, h))) t.managed
      (omega (arith, t.limited))
  where
    own_act : (a : Act) → Apart n 0 (client_event a)
    own_act (runs_task place found registered) = tt
    own_act (gets_command m component name c) = tt
    own_act (gets_notification m answers) = tt
    own_act (adds_handler component trait_name name callback accepted) = tt
    own_act (sets_listener callback) = tt
    own_act destroys_subscription = tt
handle-Limited o handle_of n (daemon_acts e) s own t =
    daemon_step-Limited n (asks n e) (Daemon_system.handle e) s
      (handle-Step n e (record (s.manager) { log = [] }) (quiet-Inv s.manager t.managed))
      (omega (arith, own.0, t.limited))
handle-Limited o handle_of n call_arrives s own t = arrives s.to_daemon refl
  where
    arrives :
        (calls : List ℕ)
        → s.to_daemon ≡ calls
        → Holds (Limited n) (elim calls [
          | [] ↦ some s
          | m ∷ ms ↦ daemon_step (connect m) (record s { to_daemon = ms })
        ])
    arrives [] e = t
    arrives (m ∷ ms) e =
        daemon_step-Limited n (if nat_eq m n then 1 else 0) (connect m)
          (record s { to_daemon = ms })
          (connect-Step n m (record (s.manager) { log = [] }) (quiet-Inv s.manager t.managed))
          (ground (arith, t.limited, ap (count n) e))
handle-Limited o handle_of n service_arrives s own t = arrives s.to_client refl
  where
    arrives :
        (calls : List (ℕ × Service))
        → s.to_client ≡ calls
        → Holds (Limited n) (elim calls [
          | [] ↦ some s
          | c ∷ cs ↦
              client_step
                (λ w. some (client_on_service_connected c.0 (handle_of c.1) w))
                (record s { to_client = cs })
        ])
    arrives [] e = t
    arrives (c ∷ cs) e =
        client_step-Limited n (one_if (nat_eq c.0 n))
          (λ w. some (client_on_service_connected c.0 (handle_of c.1) w))
          (record s { to_client = cs })
          (λ k w h. client_on_service_connected-Within n k c.0 (handle_of c.1) w h) t.managed
          (ground (arith, t.limited, ap (λ cs. count n (clients cs)) e))
handle-Limited o handle_of n (daemon_restarts defs) s own t =
    option_cases (Holds (Limited n)) (start defs (new_manager o)) _ _ (λ gone. tt)
      (λ m there.
        let begun = subst (Holds (λ m. Inv m × (due n m ≡ 0))) there (start-Step n o defs) in
        record {
          managed = begun.0;
          limited = omega (arith, t.limited, begun.1, gone-tries n s.world);
        })

run_events-Limited :
    {P A : Type 0} (o : Options) (handle_of : Service → ℕ) (n : ℕ) (es : List (Event P A))
    (s : Session)
    → Own n es
    → Limited n s
    → Holds (Limited n) (run_events o handle_of es s)
unfolding run_events
run_events-Limited o handle_of n [] s own t = t
run_events-Limited o handle_of n (e ∷ es) s own t =
    let (now, rest) = parts e own in
    option_cases (Holds (Limited n)) (handle o handle_of e s) _ _ (λ gone. tt)
      (λ v there.
        run_events-Limited o handle_of n es v rest
          (subst (Holds (Limited n)) there (handle-Limited o handle_of n e s now t)))
  where
    parts : (e : Event _ _) → Own n (e ∷ es) → Own n (e ∷ []) × Own n es
    parts (client_acts a) own = (tt, own)
    parts (daemon_acts e) own = ((own.0, tt), own.1)
    parts call_arrives own = (tt, own)
    parts service_arrives own = (tt, own)
    parts (daemon_restarts d) own = (tt, own)

-- A client process calls Service::Connect while a daemon runs. Whatever the two processes then do,
-- in whatever order, and however often the daemon dies and is started again, if no CHECK fails and
-- no other process connects under the number of the instance: the connection callback is run at
-- most once for each instance of ServiceImpl.
pub connected_once :
    {P A : Type 0} (o : Options) (handle_of : Service → ℕ) (defs : Definitions) (m : Manager)
    (es : List (Event P A)) (s : Session) (n : ℕ)
    → start defs (new_manager o) ≡ some m
    → run_events o handle_of es (new_session m) ≡ some s
    → Own n es
    → count n s.connected ≤ 1
unfolding new_session service_connect
connected_once o handle_of defs m es s n started ran own =
    let begun = subst (Holds (λ m. Inv m × (due n m ≡ 0))) started (start-Step n o defs) in
    let t : Limited n s = subst (Holds (Limited n)) ran (
      run_events-Limited o handle_of n es (new_session m) own
        (record { managed = begun.0; limited = ground (arith, begun.1) })) in
    omega (arith, t.limited)
