-- ===== src/Bluetooth.antt =====
-- buffet/flouride_socket_bluetooth_client.cc: the socket of the bluetooth daemon.
use rockchip_android_system.Prelude.{ℕ, Bool, true, false, Option, none, some, List, [], ◌∷◌}
use rockchip_android_system.Sockets.{Call, opened, closed}

-- FlourideSocketBluetoothClient: the descriptor that stream_ owns.
pub record BluetoothClient : Type 0 where
  pub stream : Option ℕ

-- OpenSocket: its result, the client and the calls. `descriptor` is what socket gives, `none` if it
-- is negative; `connects` tells whether connect succeeds, `makes_stream` whether FromFileDescriptor
-- gives a stream.
unfoldable pub open_socket :
    Option ℕ → Bool → Bool → BluetoothClient → Bool × BluetoothClient × List Call
open_socket none connects makes_stream c = (false, c, [])
open_socket (some fd) false makes_stream c = (false, c, opened fd ∷ closed fd ∷ [])
open_socket (some fd) true true c = (true, record c { stream = some fd }, opened fd ∷ [])
open_socket (some fd) true false c = (true, record c { stream = none }, opened fd ∷ [])
