-- ===== src/Sockets/Addresses.antt =====
-- buffet/socket_stream.cc: the text of an address, for the log.
use Prim.Native.String.{◌++◌ as append}
use rockchip_android_system.Prelude.{ℕ, Option, none, some, String, is_empty, nat_eq, if◌then◌else◌}

-- The numbers of the two families that the code knows, inet_ntop for an address of a family, and
-- the printing of a number by StringPrintf.
pub record AddressFamilies : Type 1 where
  pub Address : Type 0
  pub af_inet : ℕ
  pub af_inet6 : ℕ
  pub inet_ntop : ℕ → Address → Option String
  pub print : ℕ → String

abbrev pub text_of : Option String → String
text_of none = ""
text_of (some text) = text

module _ ⦃families : AddressFamilies⦄ where
  open families use {Address, af_inet, af_inet6, inet_ntop, print}

  -- GetIPAddress of a sockaddr with the family and the address.
  unfoldable pub get_ip_address : ℕ → Address → String
  get_ip_address sa_family address =
      let addr : String =
        if nat_eq sa_family af_inet
        then text_of (inet_ntop af_inet address)
        else if nat_eq sa_family af_inet6
        then text_of (inet_ntop af_inet6 address)
        else "" in
      if is_empty addr
      then append (append "<Unknown address family: " (print sa_family)) ">"
      else addr
