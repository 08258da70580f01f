-- ===== src/Manager/Available.antt =====
-- buffet/manager.cc and webserv_client.cc: the manager and the web server client that it owns,
-- whose callback is CreateDevice.
use rockchip_android_system.Prelude.{
  ℕ, suc, ◌≡◌, ◌∙◌, refl, ◌⊎◌, false, Option, none, some, List, [], ◌∷◌, ◌++◌, arith, nat_eq, Holds,
  Holds-map, is_some, if◌then◌else◌, if_cases, option_cases, subst,
}
use rockchip_android_system.WebServer
use rockchip_android_system.WebServer.{
  WebServClient, ProtocolHandler, HandlerName, http, https, other_handler, new_client, set_port,
  clear_port, run_if_available, on_protocol_handler_connected, on_protocol_handler_disconnected,
}
use rockchip_android_system.Manager.{Manager, Options}
use rockchip_android_system.Manager.Clients.{connect, create_services_for_clients}
use rockchip_android_system.Manager.Device.{
  Definitions, create_device, stop, start_http_server, restart_weave, start,
}
use rockchip_android_system.Manager.Made.{make-Made}
use rockchip_android_system.Manager.Served.Clients.{serve_all-ServedAll}
use rockchip_android_system.Manager.System.{new_manager}

-- The manager, and its web_serv_client_.
pub record Serving : Type 0 where
  pub server : WebServClient
  pub manager : Manager

-- What libwebserv reports, and the client processes that connect.
pub data Event : Type 0 where
  reports : WebServer.Event → Event
  connects : ℕ → Event

-- A callback that the client of the web server runs is CreateDevice.
unfoldable pub handle : Definitions → Event → Serving → Option Serving
handle defs (reports e) s = elim (WebServer.handle e s.server) [
  | none ↦ none
  | some c ↦
      if nat_eq c.available_runs s.server.available_runs
      then some (record s { server = c })
      else elim (create_device defs s.manager) [
        | none ↦ none
        | some m ↦ some (record { server = c; manager = m })
      ]
]
handle defs (connects client) s = elim (connect client s.manager) [
  | none ↦ none
  | some m ↦ some (record s { manager = m })
]

unfoldable pub run_events : Definitions → List Event → Serving → Option Serving
unfolding handle
run_events defs [] s = some s
run_events defs (e ∷ es) s = elim (handle defs e s) [ none ↦ none | some t ↦ run_events defs es t ]

-- There is the one device if the web server has been available, and else none was made.
pub record Once (s : Serving) : Type 0 where
  pub once_device : s.manager.device ≡ (if nat_eq s.server.available_runs 0 then none else some 0)
  pub once_next : s.manager.next_device ≡ (if nat_eq s.server.available_runs 0 then 0 else 1)

-- An event of the web server client runs the callback once more, or not.
record RunsOnce (c d : WebServClient) : Type 0 where
  once_more : (d.available_runs ≡ c.available_runs) ⊎ (d.available_runs ≡ suc c.available_runs)

connected-RunsOnce :
    (name : HandlerName) (ports fingerprint : List ℕ) (c : WebServClient)
    → Holds (λ d. RunsOnce c (run_if_available d)) (set_port name ports fingerprint c)
unfolding set_port run_if_available
connected-RunsOnce http [] fingerprint c = tt
connected-RunsOnce http (p ∷ ps) fingerprint c = record { once_more = ground arith }
connected-RunsOnce https [] fingerprint c = tt
connected-RunsOnce https (p ∷ ps) fingerprint c = record { once_more = ground arith }
connected-RunsOnce other_handler ports fingerprint c = record { once_more = ground arith }

handle-RunsOnce :
    (e : WebServer.Event) (c : WebServClient) → Holds (RunsOnce c) (WebServer.handle e c)
unfolding WebServer.handle on_protocol_handler_connected on_protocol_handler_disconnected clear_port
handle-RunsOnce (WebServer.connected h) c =
    option_cases (Holds (RunsOnce c)) (set_port h.name h.ports h.fingerprint c) _ _ (λ gone. tt)
      (λ d there.
        subst (Holds (λ d. RunsOnce c (run_if_available d))) there
          (connected-RunsOnce h.name h.ports h.fingerprint c))
handle-RunsOnce (WebServer.disconnected h) c = record { once_more = ground arith }

-- A client that connects changes nothing of the device.
connect-same :
    (k : ℕ) (m : Manager)
    → Holds (λ (n : Manager). (n.device ≡ m.device) × (n.next_device ≡ m.next_device)) (connect k m)
unfolding connect create_services_for_clients
connect-same k m =
    if_cases (Holds same) (is_some m.device) _ _
      (λ some_device.
        option_cases (Holds same) m.device _ _ (λ gone. tt)
          (λ d there.
            let t =
              serve_all-ServedAll 0 d (m.pending_clients ++ k ∷ [])
                (record m { pending_clients = [] }) in
            (t.same_device, t.same_next_device)))
      (λ no_device. (refl, refl))
  where
    same : Manager → Type 0
    same n = (n.device ≡ m.device) × (n.next_device ≡ m.next_device)

-- CreateDevice, run by a web server that is available, when there is the one device or none yet.
create_device-Once :
    (defs : Definitions) (s : Serving) (c : WebServClient)
    → Once s
    → c.available_runs ≡ suc s.server.available_runs
    → Holds (λ m. Once (record { server = c; manager = m })) (create_device defs s.manager)
unfolding create_device
create_device-Once defs s c v more =
    if_cases (Holds once) (is_some s.manager.device) _ _
      (λ there. record {
        once_device = ground (arith, v.once_device, there, more);
        once_next = ground (arith, v.once_device, v.once_next, there, more);
      })
      (λ gone.
        Holds-map {Q = once} _
          (λ m made. record {
            once_device = ground (arith, made.made_device, v.once_device, v.once_next, gone, more);
            once_next = ground (arith, made.counted_device, v.once_device, v.once_next, gone, more);
          })
          (make-Made defs s.manager))
  where
    once : Manager → Type 0
    once m = Once (record { server = c; manager = m })

handle-Once : (defs : Definitions) (e : Event) (s : Serving) → Once s → Holds Once (handle defs e s)
unfolding handle
handle-Once defs (reports e) s v =
    option_cases (Holds Once) (WebServer.handle e s.server) _ _ (λ gone. tt)
      (λ c there.
        let more = subst (Holds (RunsOnce s.server)) there (handle-RunsOnce e s.server) in
        if_cases (Holds Once) (nat_eq c.available_runs s.server.available_runs) _ _
          (λ same. record {
            once_device = ground (arith, v.once_device, same);
            once_next = ground (arith, v.once_next, same);
          })
          (λ other.
            option_cases (Holds Once) (create_device defs s.manager) _ _ (λ gone. tt)
              (λ m made.
                subst (Holds (λ m. Once (record { server = c; manager = m }))) made
                  (create_device-Once defs s c v (ground (arith, other, more.once_more))))))
handle-Once defs (connects k) s v =
    option_cases (Holds Once) (connect k s.manager) _ _ (λ gone. tt)
      (λ m there.
        let same =
          subst
            (Holds (λ (n : Manager).
              (n.device ≡ s.manager.device) × (n.next_device ≡ s.manager.next_device)))
            there (connect-same k s.manager) in
        record { once_device = same.0 ∙ v.once_device; once_next = same.1 ∙ v.once_next })

run_events-Once :
    (defs : Definitions) (es : List Event) (s : Serving)
    → Once s
    → Holds Once (run_events defs es s)
unfolding run_events
run_events-Once defs [] s v = v
run_events-Once defs (e ∷ es) s v =
    option_cases (Holds Once) (handle defs e s) _ _ (λ gone. tt)
      (λ t there. run_events-Once defs es t (subst (Holds Once) there (handle-Once defs e s v)))

start-no_device :
    (defs : Definitions) (o : Options)
    → o.disable_privet ≡ false
    → Holds (λ (m : Manager). (m.device ≡ none) × (m.next_device ≡ 0)) (start defs (new_manager o))
unfolding start new_manager restart_weave stop start_http_server
start-no_device defs o on = ground (arith, on)

-- After Manager::Start with privet on, whatever handlers of libwebserv connect and disconnect and
-- whatever clients connect, in whatever order, if no CHECK fails and no handler that connects is
-- without a port: as soon as the web server has been available, and however often it becomes
-- available again, the manager has the first device and has made no other; until then it has none.
pub device_made_once :
    (defs : Definitions) (o : Options) (m : Manager) (es : List Event) (s : Serving)
    → o.disable_privet ≡ false
    → start defs (new_manager o) ≡ some m
    → run_events defs es (record { server = new_client; manager = m }) ≡ some s
    → (s.manager.device ≡ (if nat_eq s.server.available_runs 0 then none else some 0))
      × (s.manager.next_device ≡ (if nat_eq s.server.available_runs 0 then 0 else 1))
device_made_once defs o m es s on started ran =
    let begins =
      subst (Holds (λ (m : Manager). (m.device ≡ none) × (m.next_device ≡ 0))) started
        (start-no_device defs o on) in
    let v : Once s =
      subst (Holds Once) ran
        (run_events-Once defs es _ (record { once_device = begins.0; once_next = begins.1 })) in
    (v.once_device, v.once_next)
