-- ===== src/WebServer.antt =====
-- buffet/webserv_client.h and webserv_client.cc: the web server that libweave serves its clients
-- with, and the requests that come in.
pub mod Request
pub mod Handlers
pub mod Ports
pub mod Tests
use rockchip_android_system.Prelude.{
  ℕ, suc, Bool, Option, none, some, List, [], ◌∷◌, nat_eq, not, ◌&&◌, if◌then◌else◌,
}

-- The name of a libwebserv::ProtocolHandler, by what it is compared with.
pub data HandlerName : Type 0 where
  http https other_handler : HandlerName

-- A libwebserv::ProtocolHandler, with its ports in the order of the set.
pub record ProtocolHandler : Type 0 where
  pub name : HandlerName
  pub ports : List ℕ
  pub fingerprint : List ℕ

-- WebServClient, and how often it has run server_available_callback_.
pub record WebServClient : Type 0 where
  pub http_port : ℕ
  pub https_port : ℕ
  pub certificate : List ℕ
  pub available_runs : ℕ

abbrev pub new_client : WebServClient
new_client = record { http_port = 0; https_port = 0; certificate = []; available_runs = 0 }

-- The last test of OnProtocolHandlerConnected, which names https_port_ twice.
unfoldable pub run_if_available : WebServClient → WebServClient
run_if_available c =
    if not (nat_eq c.https_port 0) && not (nat_eq c.https_port 0)
    then record c { available_runs = suc c.available_runs }
    else c

-- The port of a handler that connects. The code reads the first element of the set of ports also
-- where it is empty: `none`.
unfoldable pub set_port : HandlerName → List ℕ → List ℕ → WebServClient → Option WebServClient
set_port http [] fingerprint c = none
set_port http (port ∷ ports) fingerprint c = some (record c { http_port = port })
set_port https [] fingerprint c = none
set_port https (port ∷ ports) fingerprint c =
    some (record c { https_port = port; certificate = fingerprint })
set_port other_handler ports fingerprint c = some c

-- WebServClient::OnProtocolHandlerConnected.
unfoldable pub on_protocol_handler_connected :
    ProtocolHandler → WebServClient → Option WebServClient
unfolding set_port run_if_available
on_protocol_handler_connected h c = elim (set_port h.name h.ports h.fingerprint c) [
  | none ↦ none
  | some d ↦ some (run_if_available d)
]

unfoldable pub clear_port : HandlerName → WebServClient → WebServClient
clear_port http c = record c { http_port = 0 }
clear_port https c = record c { https_port = 0; certificate = [] }
clear_port other_handler c = c

-- WebServClient::OnProtocolHandlerDisconnected.
unfoldable pub on_protocol_handler_disconnected : ProtocolHandler → WebServClient → WebServClient
unfolding clear_port
on_protocol_handler_disconnected h c = clear_port h.name c

-- What libwebserv reports.
pub data Event : Type 0 where
  connected disconnected : ProtocolHandler → Event

unfoldable pub handle : Event → WebServClient → Option WebServClient
unfolding on_protocol_handler_connected on_protocol_handler_disconnected
handle (connected h) c = on_protocol_handler_connected h c
handle (disconnected h) c = some (on_protocol_handler_disconnected h c)

unfoldable pub run_events : List Event → WebServClient → Option WebServClient
unfolding handle
run_events [] c = some c
run_events (e ∷ es) c = elim (handle e c) [ none ↦ none | some d ↦ run_events es d ]
