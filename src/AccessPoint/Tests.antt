-- ===== src/AccessPoint/Tests.antt =====
-- buffet/ap_manager_client.cc: an access point is started, and a strange service removed.
use rockchip_android_system.Prelude.{◌≡◌, refl, true, some, List, [], ◌∷◌}
use rockchip_android_system.AccessPoint.{
  watch_objects, created, removed, started, set_ssid, ApManagerClient, new_client, Event,
  start_access_point, manager_added, service_added, ssid_set, run_events,
}
use rockchip_android_system.AccessPoint.Own.{OwnOnly, own_services}

abbrev history : List Event
history =
    start_access_point "setup"
    ∷ manager_added (some "/ap/1")
    ∷ service_added "/ap/0"
    ∷ service_added "/ap/1"
    ∷ ssid_set true
    ∷ []

abbrev running : ApManagerClient
running = record {
  watching = true;
  has_manager = true;
  service_path = some "/ap/1";
  service_proxy = some "/ap/1";
  ssid = "setup";
  log =
      started "/ap/1"
      ∷ set_ssid "/ap/1" "setup"
      ∷ removed "/ap/0"
      ∷ created "/ap/1"
      ∷ watch_objects
      ∷ [];
}

ran : run_events history new_client ≡ some running
unfolding run_events
ran = refl

own_services_example : OwnOnly running.log
own_services_example = own_services history running ran
