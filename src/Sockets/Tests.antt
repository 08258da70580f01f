-- ===== src/Sockets/Tests.antt =====
-- buffet/socket_stream.cc: a host with three addresses, and one whose descriptor is 0.
use rockchip_android_system.Prelude.{◌+◌, ◌≡◌, refl, true, false, none, some, List, [], ◌∷◌}
use rockchip_android_system.Sockets.{Address, opened, closed, connect_socket, connect_blocking}
use rockchip_android_system.Errors.{Chain, BrilloEntry, single}
use rockchip_android_system.Sockets.Tls.{stream, open_ssl_socket, runs, open_ssl_socket_lem}
use rockchip_android_system.Sockets.Descriptors.{opens, closes, held, connect_blocking_lem}

-- The first address has no socket, the second does not connect, the third does.
abbrev host : List Address
host =
    record { socket = none; connects = false }
    ∷ record { socket = some 5; connects = false }
    ∷ record { socket = some 5; connects = true }
    ∷ []

abbrev lowest : List Address
lowest = record { socket = some 0; connects = true } ∷ []

run_host : connect_socket (some host) ≡ (some 5, opened 5 ∷ closed 5 ∷ opened 5 ∷ [])
unfolding connect_socket
run_host = refl

connect_blocking_lem_example :
    let r = connect_blocking true (some lowest) in
    (r.0 ≡ none) × (opens 0 r.1 ≡ closes 0 r.1 + held 0 r.0 + 1)
connect_blocking_lem_example = connect_blocking_lem true (some lowest) 0

abbrev gone : Chain BrilloEntry
gone = single (record {
  domain = "system";
  code = "ECONNREFUSED";
  message = "Connection refused";
  location = record {
    function_name = "OpenSslSocket";
    file_name = "shill_client.cc";
    line_number = 581;
  };
})

open_ssl_socket_lem_example :
    (runs (open_ssl_socket false true (some host) gone 3) none ≡ (3, stream 5) ∷ [])
    × (runs (open_ssl_socket true true (some host) gone 3) none ≡ [])
open_ssl_socket_lem_example = open_ssl_socket_lem true (some host) gone 3 none
