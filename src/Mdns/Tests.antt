-- ===== src/Mdns/Tests.antt =====
-- buffet/avahi_mdns_client.cc: a run in which a service is published, its records change and Avahi loses
-- it.
use rockchip_android_system.Prelude.{
  ◌≡◌, refl, true, false, Option, none, some, List, [], ◌∷◌, String, arith,
}
use rockchip_android_system.Mdns.{
  Service, Avahi, MdnsClient, Event, publish, reinitialisation, state_update, new_client,
  run_events,
}
use rockchip_android_system.Mdns.Published.{published-asked}

-- A group as the service that it publishes.
abbrev update : List String → Option Service → Option (Option Service)
update txt none = none
update txt (some s) = some (some (record s { txt = txt }))

plain_update :
    (s : Service) (txt : List String) (g h : Option Service)
    → g ≡ some s
    → update txt g ≡ some h
    → h ≡ some (record s { txt = txt })
plain_update s txt none h e f = ground (arith, e)
plain_update s txt (some t) h e f = ground (arith, e, f)

plain_commit :
    (s : Service) (g h i : Option Service) → some (some s) ≡ some h → some h ≡ some i → i ≡ some s
plain_commit s g h i e f = ground (arith, e, f)

abbrev plain : Avahi
plain = record {
  Group = Option Service;
  new_group = none;
  reset = λ g. none;
  add_service = λ s g. some (some s);
  commit = λ g. some g;
  update_txt = λ type txt g. update txt g;
  reinitialise = λ g. none;
  published = λ g. g;
  published-reinitialise = λ g e. refl;
  published-new_group = refl;
  published-reset = λ g. refl;
  published-commit = plain_commit;
  published-update_txt = plain_update;
}

abbrev privet : List String → Service
privet txt = record { service_type = "_privet._tcp"; port = 80; txt = txt }

abbrev history : List Event
history =
    publish (privet ("a" ∷ []))
    ∷ publish (privet ("b" ∷ []))
    ∷ reinitialisation
    ∷ state_update false
    ∷ state_update true
    ∷ []

abbrev client : MdnsClient ⦃avahi = plain⦄
client = record {
  prev_port = 80;
  prev_service_type = "_privet._tcp";
  txt_records = "b" ∷ [];
  group = some (privet ("b" ∷ []));
}

ran : run_events ⦃avahi = plain⦄ history (new_client ⦃avahi = plain⦄) ≡ some client
unfolding run_events new_client
ran = refl

published-asked_example : plain.published client.group ≡ some (privet ("b" ∷ []))
published-asked_example = published-asked ⦃avahi = plain⦄ history client ran refl
