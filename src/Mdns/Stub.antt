-- ===== src/Mdns/Stub.antt =====
-- buffet/mdns_client.h and stub_mdns_client.cc: the interface of the mDNS clients, the one through
-- Avahi and the one for platforms without mDNS.
use rockchip_android_system.Prelude.{ℕ, Option, some, List, String}
use rockchip_android_system.Mdns.{Avahi, MdnsClient, new_client, publish_service, stop_publishing}

-- MdnsClient over its state `S`; `none` is a failed CHECK.
pub record Discovery (S : Type 0) : Type 0 where
  pub created : S
  pub publish : String → ℕ → List String → S → Option S
  pub stop : String → S → S

-- MdnsClient::CreateInstance of stub_mdns_client.cc.
unfoldable pub stub_instance : Discovery Unit
stub_instance = record {
  created = tt;
  publish = λ service_type port txt s. some s;
  stop = λ service_type s. s;
}

-- MdnsClient::CreateInstance of avahi_mdns_client.cc.
unfoldable pub avahi_instance : ⦃avahi : Avahi⦄ → Discovery MdnsClient
unfolding new_client publish_service stop_publishing
avahi_instance = record {
  created = new_client;
  publish = λ service_type port txt.
      publish_service (record { service_type = service_type; port = port; txt = txt });
  stop = λ service_type. stop_publishing;
}
