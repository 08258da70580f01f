-- ===== src/Sockets/Tls.antt =====
-- buffet/shill_client.cc and socket_stream.cc: encrypted connections, from OpenSslSocket to the
-- callback.
use rockchip_android_system.Prelude.{
  ℕ, ◌≡◌, refl, Bool, true, false, Option, none, some, List, [], ◌∷◌, if◌then◌else◌, ap, ◌∙◌,
}
use rockchip_android_system.Errors.{Chain, WeaveEntry, BrilloEntry, convert_to_weave}
use rockchip_android_system.Sockets.{Address, connect_blocking}
use rockchip_android_system.Sockets.Descriptors.{above_zero, resolved_first, connect_blocking_lem}

-- What a callback of OpenSslSocket is given: the descriptor under the encrypted stream, or an
-- error.
pub data Result : Type 0 where
  stream : ℕ → Result
  failure : Chain WeaveEntry → Result

-- What OpenSslSocket leads to: nothing, a task that runs the callback, or a handshake over a
-- descriptor, by the end of which the callback is run.
pub data Opening : Type 0 where
  ignored : Opening
  post : ℕ → Result → Opening
  handshake : ℕ → ℕ → Opening

-- The part of ShillClient::OpenSslSocket after ConnectBlocking, and SocketStream::TlsConnect.
-- `system_error` is the error that AddSystemError makes of errno.
unfoldable pub open_over : Option ℕ → Chain BrilloEntry → ℕ → Opening
unfolding convert_to_weave
open_over none system_error callback = post callback (failure (convert_to_weave system_error none))
open_over (some fd) system_error callback = handshake fd callback

-- ShillClient::OpenSslSocket.
unfoldable pub open_ssl_socket :
    Bool → Bool → Option (List Address) → Chain BrilloEntry → ℕ → Opening
unfolding connect_blocking open_over
open_ssl_socket disable_xmpp makes_stream resolved system_error callback =
    if disable_xmpp
    then ignored
    else open_over (connect_blocking makes_stream resolved).0 system_error callback

-- The end of the handshake over a descriptor: OnSuccess, and OnError with the error of brillo.
unfoldable pub finish_handshake : ℕ → Option (Chain BrilloEntry) → Result
unfolding convert_to_weave
finish_handshake fd none = stream fd
finish_handshake fd (some error) = failure (convert_to_weave error none)

-- The callbacks that are run in the end, with what they are given.
unfoldable pub runs : Opening → Option (Chain BrilloEntry) → List (ℕ × Result)
unfolding finish_handshake
runs ignored error = []
runs (post callback result) error = (callback, result) ∷ []
runs (handshake fd callback) error = (callback, finish_handshake fd error) ∷ []

-- What is given with a stream over the descriptor, or none, and the result of the handshake.
abbrev pub expected : Option ℕ → Chain BrilloEntry → Option (Chain BrilloEntry) → Result
expected none system_error error = failure (convert_to_weave system_error none)
expected (some fd) system_error none = stream fd
expected (some fd) system_error (some error) = failure (convert_to_weave error none)

runs-open_over :
    (found : Option ℕ) (system_error : Chain BrilloEntry) (callback : ℕ)
    (error : Option (Chain BrilloEntry))
    → runs (open_over found system_error callback) error
      ≡ (callback, expected found system_error error) ∷ []
unfolding open_over finish_handshake runs
runs-open_over none system_error callback error = refl
runs-open_over (some fd) system_error callback none = refl
runs-open_over (some fd) system_error callback (some error) = refl

-- With XMPP enabled the callbacks that are run are the caller's, once, and no other. It is given
-- the encrypted stream over the first address of the host to which a socket connects, exactly if
-- there is such an address, its descriptor is above 0, the stream over it can be made and the
-- handshake succeeds; else the handshake's error, or the system's, converted to libweave. With XMPP
-- disabled no callback is run.
pub open_ssl_socket_lem :
    (makes_stream : Bool) (resolved : Option (List Address)) (system_error : Chain BrilloEntry)
    (callback : ℕ) (error : Option (Chain BrilloEntry))
    → (runs (open_ssl_socket false makes_stream resolved system_error callback) error
        ≡ (
          callback,
          expected
              (if makes_stream then above_zero (resolved_first resolved) else none)
              system_error
              error,
        )
          ∷ [])
      × (runs (open_ssl_socket true makes_stream resolved system_error callback) error ≡ [])
unfolding open_ssl_socket runs
open_ssl_socket_lem makes_stream resolved system_error callback error =
    let found = (connect_blocking_lem makes_stream resolved 0).0 in
    (
      runs-open_over (connect_blocking makes_stream resolved).0 system_error callback error
          ∙ ap (λ o. (callback, expected o system_error error) ∷ []) found,
      refl,
    )
