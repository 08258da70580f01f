-- ===== src/Sockets.antt =====
-- buffet/socket_stream.h and socket_stream.cc: TCP connections, and the streams over them.
pub mod Addresses
pub mod Descriptors
pub mod Tls
pub mod Tests
use rockchip_android_system.Prelude.{
  ℕ, zero, suc, Bool, true, false, Option, none, some, List, [], ◌∷◌, ◌++◌, if◌then◌else◌,
}
use rockchip_android_system.Errors.{Chain, WeaveEntry, BrilloEntry, convert_to_weave}

-- An entry of the list of getaddrinfo, and what the system answers for it: the descriptor of
-- socket, `none` if it is negative, and whether connect succeeds.
pub record Address : Type 0 where
  pub socket : Option ℕ
  pub connects : Bool

-- The calls that open and close descriptors.
pub data Call : Type 0 where
  opened closed : ℕ → Call

-- The loop of ConnectSocket: the descriptor, `none` for a negative one, and the calls in their
-- order.
unfoldable pub try_addresses : List Address → Option ℕ × List Call
try_addresses [] = (none, [])
try_addresses (a ∷ rest) = elim a.socket [
  | none ↦ try_addresses rest
  | some fd ↦ elim a.connects [
    | true ↦ (some fd, opened fd ∷ [])
    | false ↦ let (found, calls) = try_addresses rest in (found, opened fd ∷ closed fd ∷ calls)
  ]
]

-- ConnectSocket, with what getaddrinfo gives.
unfoldable pub connect_socket : Option (List Address) → Option ℕ × List Call
unfolding try_addresses
connect_socket none = (none, [])
connect_socket (some addresses) = try_addresses addresses

-- The rest of ConnectBlocking: the descriptor that the stream owns, `none` for no stream.
-- `makes_stream` tells whether FromFileDescriptor gives one. A descriptor that is not positive is
-- taken for a failure.
unfoldable pub over_descriptor : Bool → Option ℕ × List Call → Option ℕ × List Call
over_descriptor makes_stream (none, calls) = (none, calls)
over_descriptor makes_stream (some zero, calls) = (none, calls)
over_descriptor true (some (suc n), calls) = (some (suc n), calls)
over_descriptor false (some (suc n), calls) = (none, calls ++ closed (suc n) ∷ [])

-- SocketStream::ConnectBlocking.
unfoldable pub connect_blocking : Bool → Option (List Address) → Option ℕ × List Call
unfolding connect_socket over_descriptor
connect_blocking makes_stream resolved = over_descriptor makes_stream (connect_socket resolved)

-- What the stream does with a callback: a task for it, or a run at once, with the number of bytes
-- (0 for a write) and the error.
pub data Answer : Type 0 where
  post run : ℕ → ℕ → Option (Chain WeaveEntry) → Answer

-- An operation that the stream below has taken on, for a callback.
pub record Pending : Type 0 where
  pub callback : ℕ
  pub is_read : Bool

-- SocketStream::Read and Write. `refusal` is the error of ReadAsync or WriteAllAsync, if they fail.
unfoldable pub submit : Bool → ℕ → Option (Chain BrilloEntry) → Option Pending × List Answer
unfolding convert_to_weave
submit is_read callback none = (some (record { callback = callback; is_read = is_read }), [])
submit is_read callback (some error) =
    (none, post callback 0 (some (convert_to_weave error none)) ∷ [])

-- The callbacks that Read and Write hand to the stream below: on success, and OnError.
unfoldable pub on_success : ℕ → Pending → Answer
on_success size p = run p.callback (if p.is_read then size else 0) none

unfoldable pub on_error : Chain BrilloEntry → Pending → Answer
unfolding convert_to_weave
on_error error p = run p.callback 0 (some (convert_to_weave error none))

-- brillo::Stream, of which CancelPendingOperations uses CancelPendingAsyncOperations.
pub record BrilloStream : Type 1 where
  pub Stream : Type 0
  pub cancel_pending_async_operations : Stream → Stream

-- SocketStream::CancelPendingOperations, on the stream below.
unfoldable pub cancel_pending_operations : ⦃brillo : BrilloStream⦄ → brillo.Stream → brillo.Stream
cancel_pending_operations ⦃brillo⦄ stream = brillo.cancel_pending_async_operations stream
