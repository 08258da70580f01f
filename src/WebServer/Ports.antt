-- ===== src/WebServer/Ports.antt =====
-- buffet/webserv_client.cc: the ports that libweave is told, and when the server counts as
-- available.
use rockchip_android_system.Prelude.{
  ℕ, suc, ◌≡◌, ◌≢◌, refl, subst, Bool, true, false, Bool-cases, inl, inr, Option, none, some, List,
  [], ◌∷◌, arith, nat_eq, if◌then◌else◌, if_cases, option_cases, Holds, not, ◌&&◌,
}
use rockchip_android_system.WebServer.{
  HandlerName, http, https, other_handler, ProtocolHandler, WebServClient, new_client, set_port,
  run_if_available, on_protocol_handler_connected, clear_port, on_protocol_handler_disconnected,
  Event, connected, disconnected, handle, run_events,
}

-- The reports of handlers of one protocol, each as the ports and the certificate of a handler that
-- connected, `none` for one that disconnected.
abbrev pub reports : (HandlerName → Bool) → List Event → List (Option (List ℕ × List ℕ))
reports of_protocol [] = []
reports of_protocol (connected h ∷ es) =
    if of_protocol h.name
    then some (h.ports, h.fingerprint) ∷ reports of_protocol es
    else reports of_protocol es
reports of_protocol (disconnected h ∷ es) =
    if of_protocol h.name then none ∷ reports of_protocol es else reports of_protocol es

abbrev pub is_http : HandlerName → Bool
is_http http = true
is_http https = false
is_http other_handler = false

abbrev pub is_https : HandlerName → Bool
is_https http = false
is_https https = true
is_https other_handler = false

-- The last element of a list, `x` if it is empty.
abbrev pub last : {A : Type 0} → A → List A → A
last x [] = x
last x (y ∷ ys) = last y ys

-- What the last report of a protocol leaves: the first port and the certificate of a handler that
-- is connected, and else no port and no certificate.
abbrev pub port_of : Option (List ℕ × List ℕ) → ℕ
port_of none = 0
port_of (some ([], certificate)) = 0
port_of (some (port ∷ ports, certificate)) = port

abbrev pub certificate_of : Option (List ℕ × List ℕ) → List ℕ
certificate_of none = []
certificate_of (some (ports, certificate)) = certificate

-- The members are what the reports `a` of HTTP and `b` of HTTPS leave.
pub record Follows (a b : Option (List ℕ × List ℕ)) (c : WebServClient) : Type 0 where
  pub http_follows : c.http_port ≡ port_of a
  pub https_follows : c.https_port ≡ port_of b
  pub certificate_follows : c.certificate ≡ certificate_of b

run_if_available-Follows :
    (a b : Option (List ℕ × List ℕ)) (c : WebServClient)
    → Follows a b c
    → Follows a b (run_if_available c)
unfolding run_if_available
run_if_available-Follows a b c f =
    if_cases (Follows a b) (not (nat_eq c.https_port 0) && not (nat_eq c.https_port 0)) _ _
      (λ e. record {
        http_follows = f.http_follows;
        https_follows = f.https_follows;
        certificate_follows = f.certificate_follows;
      })
      (λ e. f)

-- The last report of a protocol once the event has come.
abbrev report : (HandlerName → Bool) → Event → Option (List ℕ × List ℕ) → Option (List ℕ × List ℕ)
report of_protocol (connected h) a = if of_protocol h.name then some (h.ports, h.fingerprint) else a
report of_protocol (disconnected h) a = if of_protocol h.name then none else a

set_port-Follows :
    (name : HandlerName) (ports fingerprint : List ℕ) (a b : Option (List ℕ × List ℕ))
    (c : WebServClient)
    → Follows a b c
    → Holds
        (Follows
          (if is_http name then some (ports, fingerprint) else a)
          (if is_https name then some (ports, fingerprint) else b))
        (set_port name ports fingerprint c)
unfolding set_port
set_port-Follows http [] fingerprint a b c f = tt
set_port-Follows http (p ∷ ports) fingerprint a b c f = record {
  http_follows = refl;
  https_follows = f.https_follows;
  certificate_follows = f.certificate_follows;
}
set_port-Follows https [] fingerprint a b c f = tt
set_port-Follows https (p ∷ ports) fingerprint a b c f = record {
  http_follows = f.http_follows;
  https_follows = refl;
  certificate_follows = refl;
}
set_port-Follows other_handler ports fingerprint a b c f = f

clear_port-Follows :
    (name : HandlerName) (a b : Option (List ℕ × List ℕ)) (c : WebServClient)
    → Follows a b c
    → Follows
        (if is_http name then none else a)
        (if is_https name then none else b)
        (clear_port name c)
unfolding clear_port
clear_port-Follows http a b c f = record {
  http_follows = refl;
  https_follows = f.https_follows;
  certificate_follows = f.certificate_follows;
}
clear_port-Follows https a b c f = record {
  http_follows = f.http_follows;
  https_follows = refl;
  certificate_follows = refl;
}
clear_port-Follows other_handler a b c f = f

handle-Follows :
    (e : Event) (a b : Option (List ℕ × List ℕ)) (c : WebServClient)
    → Follows a b c
    → Holds (Follows (report is_http e a) (report is_https e b)) (handle e c)
unfolding handle on_protocol_handler_connected on_protocol_handler_disconnected
handle-Follows (connected h) a b c f =
    option_cases (Holds (Follows a' b')) (set_port h.name h.ports h.fingerprint c) _ _ (λ gone. tt)
      (λ d there. run_if_available-Follows a' b' d (
        subst (Holds (Follows a' b')) there
          (set_port-Follows h.name h.ports h.fingerprint a b c f)))
  where
    a' : Option (List ℕ × List ℕ)
    a' = report is_http (connected h) a

    b' : Option (List ℕ × List ℕ)
    b' = report is_https (connected h) b
handle-Follows (disconnected h) a b c f = clear_port-Follows h.name a b c f

last-report :
    (of_protocol : HandlerName → Bool) (e : Event) (es : List Event) (a : Option (List ℕ × List ℕ))
    → last (report of_protocol e a) (reports of_protocol es) ≡ last a (reports of_protocol (e ∷ es))
last-report of_protocol (connected h) es a = elim (Bool-cases (of_protocol h.name)) [
  | inl same ↦ rw same refl
  | inr other ↦ rw other refl
]
last-report of_protocol (disconnected h) es a = elim (Bool-cases (of_protocol h.name)) [
  | inl same ↦ rw same refl
  | inr other ↦ rw other refl
]

run_events-Follows :
    (es : List Event) (a b : Option (List ℕ × List ℕ)) (c : WebServClient)
    → Follows a b c
    → Holds (Follows (last a (reports is_http es)) (last b (reports is_https es))) (run_events es c)
unfolding run_events
run_events-Follows [] a b c f = f
run_events-Follows (e ∷ es) a b c f =
    option_cases
      (Holds (Follows (last a (reports is_http (e ∷ es))) (last b (reports is_https (e ∷ es)))))
      (handle e c) _ _ (λ gone. tt)
      (λ d there.
        subst (λ a. Holds (Follows a (last b (reports is_https (e ∷ es)))) (run_events es d))
          (last-report is_http e es a)
          (subst
            (λ b.
              Holds (Follows (last (report is_http e a) (reports is_http es)) b) (run_events es d))
            (last-report is_https e es b)
            (run_events-Follows es (report is_http e a) (report is_https e b) d (
              subst (Holds (Follows (report is_http e a) (report is_https e b))) there
                (handle-Follows e a b c f)))))

-- From the construction on, whatever handlers connect and disconnect in whatever order, if none of
-- HTTP or HTTPS connects without a port: the HTTP port that libweave is told is the first port of
-- the HTTP handler if the last report of an HTTP handler was that one connected, and 0 if it was
-- that one disconnected or there was none; and the HTTPS port and the certificate are in the same
-- way those of the last report of an HTTPS handler, 0 and empty if it was that one disconnected or
-- there was none.
pub run_events-ports :
    (es : List Event) (c : WebServClient)
    → run_events es new_client ≡ some c
    → (c.http_port ≡ port_of (last none (reports is_http es)))
      × (c.https_port ≡ port_of (last none (reports is_https es)))
      × (c.certificate ≡ certificate_of (last none (reports is_https es)))
run_events-ports es c ran =
    let f = subst (Holds (Follows _ _)) ran (
      run_events-Follows es none none new_client
        (record { http_follows = refl; https_follows = refl; certificate_follows = refl })) in
    (f.http_follows, f.https_follows, f.certificate_follows)

-- When an HTTPS handler with a port that is not 0 connects, the server counts as available, also
-- where there is no HTTP port yet. When an HTTP handler connects while there is no HTTPS port, it
-- does not.
pub available_without_http :
    (h : ProtocolHandler) (port : ℕ) (ports : List ℕ) (c : WebServClient)
    → c.http_port ≡ 0
    → c.https_port ≡ 0
    → h.ports ≡ port ∷ ports
    → port ≢ 0
    → (on_protocol_handler_connected (record h { name = https }) c
        ≡ some (record c {
          https_port = port;
          certificate = h.fingerprint;
          available_runs = suc c.available_runs;
        }))
      × (on_protocol_handler_connected (record h { name = http }) c
          ≡ some (record c { http_port = port }))
unfolding on_protocol_handler_connected set_port run_if_available
available_without_http h port ports c none_http none_https e positive =
    (ground (arith, none_https, e, positive), ground (arith, none_https, e, positive))
