-- ===== src/Sockets/Descriptors.antt =====
-- buffet/socket_stream.cc: which address is used, and that descriptors are closed.
use rockchip_android_system.Prelude.{
  ℕ, zero, suc, ◌+◌, ◌≡◌, refl, subst, Bool, true, false, Option, none, some, List, [], ◌∷◌, ◌++◌,
  arith, nat_eq, if◌then◌else◌,
}
use rockchip_android_system.Sockets.{
  Address, Call, opened, closed, try_addresses, connect_socket, over_descriptor, connect_blocking,
}

-- The descriptor of the first address to which a socket connects.
abbrev pub first_connected : List Address → Option ℕ
first_connected [] = none
first_connected (a ∷ rest) = elim a.socket [
  | none ↦ first_connected rest
  | some fd ↦ if a.connects then some fd else first_connected rest
]

abbrev pub resolved_first : Option (List Address) → Option ℕ
resolved_first none = none
resolved_first (some addresses) = first_connected addresses

abbrev pub opens : ℕ → List Call → ℕ
opens fd [] = 0
opens fd (opened d ∷ calls) = (if nat_eq d fd then 1 else 0) + opens fd calls
opens fd (closed d ∷ calls) = opens fd calls

abbrev pub closes : ℕ → List Call → ℕ
closes fd [] = 0
closes fd (opened d ∷ calls) = closes fd calls
closes fd (closed d ∷ calls) = (if nat_eq d fd then 1 else 0) + closes fd calls

-- A descriptor that is held counts once.
abbrev pub held : ℕ → Option ℕ → ℕ
held fd none = 0
held fd (some d) = if nat_eq d fd then 1 else 0

closes-append :
    (fd : ℕ) (cs : List Call) (d : ℕ)
    → closes fd (cs ++ closed d ∷ []) ≡ closes fd cs + held fd (some d)
closes-append fd [] d = ground arith
closes-append fd (opened x ∷ cs) d = ground (arith, closes-append fd cs d)
closes-append fd (closed x ∷ cs) d = ground (arith, closes-append fd cs d)

opens-append : (fd : ℕ) (cs : List Call) (d : ℕ) → opens fd (cs ++ closed d ∷ []) ≡ opens fd cs
opens-append fd [] d = ground arith
opens-append fd (opened x ∷ cs) d = ground (arith, opens-append fd cs d)
opens-append fd (closed x ∷ cs) d = ground (arith, opens-append fd cs d)

try_addresses_lem :
    (addresses : List Address) (fd : ℕ)
    → let (found, calls) = try_addresses addresses in
      (found ≡ first_connected addresses) × (opens fd calls ≡ closes fd calls + held fd found)
unfolding try_addresses
try_addresses_lem [] fd = (refl, refl)
try_addresses_lem (a ∷ rest) fd = ground (arith, try_addresses_lem rest fd)

-- ConnectSocket gives the descriptor of the first address of the host to which a socket connects,
-- and none if the host is not resolved or there is no such address; and of every descriptor, as
-- many as were opened have been closed, but for the one that it gives.
connect_socket_lem :
    (resolved : Option (List Address)) (fd : ℕ)
    → let (found, calls) = connect_socket resolved in
      (found ≡ resolved_first resolved) × (opens fd calls ≡ closes fd calls + held fd found)
unfolding connect_socket
connect_socket_lem none fd = (refl, refl)
connect_socket_lem (some addresses) fd = try_addresses_lem addresses fd

-- The descriptors above 0, which ConnectBlocking takes for a success, and the descriptor 0.
abbrev pub above_zero : Option ℕ → Option ℕ
above_zero none = none
above_zero (some zero) = none
above_zero (some (suc n)) = some (suc n)

abbrev pub at_zero : Option ℕ → Option ℕ
at_zero none = none
at_zero (some zero) = some 0
at_zero (some (suc n)) = none

-- `r` is a stream, if one can be made, over a descriptor above 0, and every descriptor opened was
-- closed but for the stream's, and but for 0 if that is the one found.
abbrev Attached : Bool → Option ℕ → ℕ → Option ℕ × List Call → Type 0
Attached makes_stream found fd (stream, calls) =
    (stream ≡ (if makes_stream then above_zero found else none))
    × (opens fd calls ≡ closes fd calls + held fd stream + held fd (at_zero found))

over_descriptor-Attached :
    (makes_stream : Bool) (found : Option ℕ) (calls : List Call) (fd : ℕ)
    → opens fd calls ≡ closes fd calls + held fd found
    → Attached makes_stream found fd (over_descriptor makes_stream (found, calls))
unfolding over_descriptor
over_descriptor-Attached makes_stream none calls fd e = ground (arith, e)
over_descriptor-Attached makes_stream (some zero) calls fd e = ground (arith, e)
over_descriptor-Attached true (some (suc n)) calls fd e = (refl, omega (arith, e))
over_descriptor-Attached false (some (suc n)) calls fd e =
    (refl, omega (arith, e, opens-append fd calls (suc n), closes-append fd calls (suc n)))

-- ConnectBlocking gives a stream exactly if ConnectSocket gives a descriptor above 0 and the stream
-- can be made, and the stream is over that descriptor. Of every descriptor, as many as were opened
-- have been closed, but for the one that the stream owns, and but for the descriptor 0 where
-- ConnectSocket gives it: that one stays open.
pub connect_blocking_lem :
    (makes_stream : Bool) (resolved : Option (List Address)) (fd : ℕ)
    → let (stream, calls) = connect_blocking makes_stream resolved in
      (stream ≡ (if makes_stream then above_zero (resolved_first resolved) else none))
      × (opens fd calls
          ≡ closes fd calls + held fd stream + held fd (at_zero (resolved_first resolved)))
unfolding connect_blocking
connect_blocking_lem makes_stream resolved fd =
    let (found, balance) = connect_socket_lem resolved fd in
    let r = connect_socket resolved in
    subst (λ first. Attached makes_stream first fd (over_descriptor makes_stream r)) found
      (over_descriptor-Attached makes_stream r.0 r.1 fd balance)
