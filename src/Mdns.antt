-- ===== src/Mdns.antt =====
-- buffet/avahi_mdns_client.h and avahi_mdns_client.cc: the mDNS service that the daemon publishes
-- through Avahi.
pub mod Stub
pub mod Published
pub mod Tests
use rockchip_android_system.Prelude.{
  ℕ, ◌≡◌, ◌==◌, ◌&&◌, Bool, true, false, Option, none, some, List, [], ◌∷◌, String, is_empty,
  nat_eq, if◌then◌else◌,
}

-- A service with its port and its records.
pub record Service : Type 0 where
  pub service_type : String
  pub port : ℕ
  pub txt : List String

-- An entry group of Avahi, and the service that it publishes. A call that may fail gives `none` for
-- a negative return code, for which the code has a CHECK. The laws are what Avahi documents: a
-- reset group publishes nothing, a service added to it is published from the commit on, and an
-- update replaces the records. A re-initialisation of Avahi may lose the service of a group; it does
-- not publish where nothing is published.
pub record Avahi : Type 1 where
  pub Group : Type 0
  pub new_group : Group
  pub reset : Group → Group
  pub add_service : Service → Group → Option Group
  pub commit : Group → Option Group
  pub update_txt : String → List String → Group → Option Group
  pub reinitialise : Group → Group
  pub published : Group → Option Service
  pub published-reinitialise : (g : Group) → published g ≡ none → published (reinitialise g) ≡ none
  pub published-new_group : published new_group ≡ none
  pub published-reset : (g : Group) → published (reset g) ≡ none
  pub published-commit :
      (s : Service) (g h i : Group)
      → add_service s (reset g) ≡ some h
      → commit h ≡ some i
      → published i ≡ some s
  pub published-update_txt :
      (s : Service) (txt : List String) (g h : Group)
      → published g ≡ some s
      → update_txt s.service_type txt g ≡ some h
      → published h ≡ some (record s { txt = txt })

-- What happens: the two operations of the client, a re-initialisation of Avahi, of which the client
-- is not told at once, and reports of Avahi's state.
pub data Event : Type 0 where
  publish : Service → Event
  stop : Event
  reinitialisation : Event
  state_update : Bool → Event

-- The comparison of two vectors of texts.
unfoldable pub same_texts : List String → List String → Bool
same_texts [] [] = true
same_texts [] (y ∷ ys) = false
same_texts (x ∷ xs) [] = false
same_texts (x ∷ xs) (y ∷ ys) = x == y && same_texts xs ys

module _ ⦃avahi : Avahi⦄ where
  -- AvahiMdnsClient.
  pub record MdnsClient : Type 0 where
    pub prev_port : ℕ
    pub prev_service_type : String
    pub txt_records : List String
    pub group : avahi.Group

  -- The constructor, once Avahi has given it a group.
  unfoldable pub new_client : MdnsClient
  new_client = record {
    prev_port = 0;
    prev_service_type = "";
    txt_records = [];
    group = avahi.new_group;
  }

  -- The part of PublishService for a new port or service type.
  unfoldable pub publish_new : Service → MdnsClient → Option MdnsClient
  publish_new s c = elim (avahi.add_service s (avahi.reset c.group)) [
    | none ↦ none
    | some added ↦ elim (avahi.commit added) [
      | none ↦ none
      | some committed ↦ some (record {
        prev_port = s.port;
        prev_service_type = s.service_type;
        txt_records = s.txt;
        group = committed;
      })
    ]
  ]

  -- The part for new records.
  unfoldable pub publish_txt : Service → MdnsClient → Option MdnsClient
  publish_txt s c = elim (avahi.update_txt s.service_type s.txt c.group) [
    | none ↦ none
    | some updated ↦ some (record c { txt_records = s.txt; group = updated })
  ]

  -- AvahiMdnsClient::PublishService; `none` is a failed CHECK.
  unfoldable pub publish_service : Service → MdnsClient → Option MdnsClient
  unfolding publish_new publish_txt same_texts
  publish_service s c =
      if s.service_type == "_privet._tcp"
      then if nat_eq c.prev_port s.port && c.prev_service_type == s.service_type
        then if same_texts c.txt_records s.txt then some c else publish_txt s c
        else publish_new s c
      else none

  -- AvahiMdnsClient::StopPublishing.
  unfoldable pub stop_publishing : MdnsClient → MdnsClient
  stop_publishing c = record {
    prev_port = 0;
    prev_service_type = "";
    txt_records = [];
    group = avahi.reset c.group;
  }

  -- AvahiMdnsClient::RepublishService.
  unfoldable pub republish_service : MdnsClient → Option MdnsClient
  unfolding publish_service stop_publishing
  republish_service c =
      if is_empty c.prev_service_type
      then some c
      else publish_service
          (record { service_type = c.prev_service_type; port = c.prev_port; txt = c.txt_records })
          (stop_publishing c)

  -- OnAvahiClientStateUpdate; `running` tells whether the state is AVAHI_CLIENT_S_RUNNING.
  unfoldable pub on_avahi_client_state_update : Bool → MdnsClient → Option MdnsClient
  unfolding republish_service
  on_avahi_client_state_update running c = if running then republish_service c else some c

  unfoldable pub handle : Event → MdnsClient → Option MdnsClient
  unfolding publish_service stop_publishing on_avahi_client_state_update
  handle (publish s) c = publish_service s c
  handle stop c = some (stop_publishing c)
  handle reinitialisation c = some (record c { group = avahi.reinitialise c.group })
  handle (state_update running) c = on_avahi_client_state_update running c

  -- `none` is a failed CHECK.
  unfoldable pub run_events : List Event → MdnsClient → Option MdnsClient
  unfolding handle
  run_events [] c = some c
  run_events (e ∷ es) c = elim (handle e c) [ none ↦ none | some d ↦ run_events es d ]
