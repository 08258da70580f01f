-- ===== src/WebServer/Tests.antt =====
-- buffet/webserv_client.cc: handlers that connect, and a request of three bytes.
use rockchip_android_system.Prelude.{
  ℕ, ◌≡◌, ◌<◌, refl, Option, none, some, List, [], ◌∷◌, ◌++◌, arith,
}
use rockchip_android_system.WebServer.{
  ProtocolHandler, http, https, WebServClient, new_client, on_protocol_handler_connected, Event,
  connected, disconnected, run_events,
}
use rockchip_android_system.WebServer.Ports.{run_events-ports, available_without_http}
use rockchip_android_system.WebServer.Handlers.{Incoming, on_request}
use rockchip_android_system.WebServer.Request.{
  read_all, ByteStream, RequestImpl, get_data, Reads, get_data_lem,
}

abbrev secure : ProtocolHandler
secure = record { name = https; ports = 443 ∷ []; fingerprint = 7 ∷ [] }

abbrev open_web : ProtocolHandler
open_web = record { name = http; ports = 80 ∷ []; fingerprint = [] }

abbrev history : List Event
history = connected secure ∷ connected open_web ∷ disconnected secure ∷ []

abbrev plain : WebServClient
plain = record { http_port = 80; https_port = 0; certificate = []; available_runs = 2 }

ran : run_events history new_client ≡ some plain
unfolding run_events
ran = refl

run_events-ports_example :
    (plain.http_port ≡ 80) × (plain.https_port ≡ 0) × (plain.certificate ≡ [])
run_events-ports_example = run_events-ports history plain ran

available_without_http_example :
    (on_protocol_handler_connected secure new_client
      ≡ some (record { http_port = 0; https_port = 443; certificate = 7 ∷ []; available_runs = 1 }))
    × (on_protocol_handler_connected (record secure { name = http }) new_client
        ≡ some (record { http_port = 443; https_port = 0; certificate = []; available_runs = 0 }))
available_without_http_example =
    available_without_http secure 443 [] new_client refl refl refl (omega arith)

-- A stream that gives its bytes one by one.
abbrev pull : ℕ → List ℕ → Option (List ℕ) × List ℕ
pull n [] = (some [], [])
pull n (b ∷ bs) = (some (b ∷ []), bs)

abbrev one_by_one : ByteStream
one_by_one = record { Stream = List ℕ; read_blocking = pull }

pull_part :
    (n : ℕ) (s : List ℕ) → (part : List ℕ) × ((pull n s).0 ≡ some part) × (s ≡ part ++ (pull n s).1)
pull_part n [] = ([], refl, refl)
pull_part n (b ∷ bs) = (b ∷ [], refl, refl)

pull_end : (n : ℕ) (s : List ℕ) → 0 < n → (pull n s).0 ≡ some [] → s ≡ []
pull_end n [] h e = refl
pull_end n (b ∷ bs) h e = ground (arith, e)

reads : Reads ⦃bytes = one_by_one⦄ (λ s. s)
reads = record { next_part = pull_part; end_only = pull_end }

get_data_lem_example :
    (r : RequestImpl ⦃bytes = one_by_one⦄) × (get_data ⦃bytes = one_by_one⦄ 4
        (record { stream = some (1 ∷ 2 ∷ 3 ∷ []); request_data = none })
      ≡ some (r, 1 ∷ 2 ∷ 3 ∷ []))
    × (get_data ⦃bytes = one_by_one⦄ 0 r ≡ some (r, 1 ∷ 2 ∷ 3 ∷ []))
get_data_lem_example =
    get_data_lem ⦃bytes = one_by_one⦄ (λ s. s) 4 0 (some (1 ∷ 2 ∷ 3 ∷ [])) reads (omega arith)

-- A request as it comes in is handed to the callback with nothing read, and GetData then reads it.
abbrev incoming : Incoming ⦃bytes = one_by_one⦄
incoming = record { path = "/privet/ping"; first_header = λ name. ""; data_stream = some (1 ∷ []) }

incoming_data :
    get_data ⦃bytes = one_by_one⦄ 2 (on_request ⦃bytes = one_by_one⦄ 5 incoming).1.read
    ≡ some (record { stream = some []; request_data = some (1 ∷ []) }, 1 ∷ [])
unfolding on_request get_data read_all
incoming_data = refl
