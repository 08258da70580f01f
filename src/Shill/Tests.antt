-- ===== src/Shill/Tests.antt =====
-- The shill client at concrete inputs.
use rockchip_android_system.Prelude.{
  if◌then◌else◌, ap, ℕ, ◌≤◌, ◌+◌, ◌≡◌, refl, Bool, true, false, none, some, List, [], ◌∷◌, String,
  arith, eq_iff, find, insert, update, is_empty, ◌⊎◌,
}
use rockchip_android_system.Shill.{
  ShillApi, ServiceProxy, NetworkState, offline, error, connecting, online, run, release_proxy,
  register_service, register_device, post_notify, post_timeout, call_connect, request_scan,
  configure, Client, Answers, most_connected, better, service_state_to_network_state,
}
use rockchip_android_system.Shill.Connect.{
  configured, service_properties, connect, connect_to_service_error, connect_error,
  on_state_change_for_connecting_service, on_strength_change_for_connecting_service,
}
use rockchip_android_system.Shill.Signals.{
  mark_selected, on_service_property_change, on_state_change_for_selected_service,
}
use rockchip_android_system.Shill.Devices.{
  on_device_property_change, init, on_shill_service_owner_change,
}
use rockchip_android_system.Shill.System.{
  new_client, Event, connects, device_changed, service_changed, timeout, owner_changed, Reach,
  start, next, handle, run_events,
}
use rockchip_android_system.Shill.Connectivity.{Reach-connectivity}
use rockchip_android_system.Shill.Replies.{replies_bounded}
use rockchip_android_system.Shill.Replies.DeviceHandlers.{answered, waits}
use rockchip_android_system.Shill.Connectivity.Lists.{Bounded, Attained, Settled}
use rockchip_android_system.Shill.Attempts.{timeout_answers, stale_error}
use rockchip_android_system.Shill.Outcome.{Answer, on_state_change-answers}
use rockchip_android_system.Shill.Dropped.{lost_owner-drops_callback}

data TestAny : Type 0 where
  text : String → TestAny
  object : String → TestAny
  objects : List String → TestAny
  byte : ℕ → TestAny

abbrev as_string : TestAny → String
as_string (text s) = s
as_string _ = ""

abbrev as_path : TestAny → String
as_path (object s) = s
as_path _ = ""

abbrev as_paths : TestAny → List String
as_paths (objects s) = s
as_paths _ = []

abbrev as_byte : TestAny → ℕ
as_byte (byte n) = n
as_byte _ = 0

abbrev value : NetworkState → ℕ
value offline = 0
value error = 1
value connecting = 2
value online = 3

abbrev is_path : String → Bool
is_path s = if is_empty s then false else true

instance abbrev test_api : ShillApi
test_api = record {
  Any = TestAny;
  Error = String × String;
  BrilloError = String;
  convert_error = λ e. (e, e);
  try_string = as_string;
  try_path = as_path;
  try_paths = as_paths;
  try_byte = as_byte;
  path_IsValid = is_path;
  state_value = value;
  add_error = λ c m. (c, m);
  devices_property = "Devices";
  interface_property = "Interface";
  selected_service_property = "SelectedService";
  state_property = "State";
  signal_strength_property = "Strength";
  error_property = "Error";
  state_ready = "ready";
  state_portal = "portal";
  state_online = "online";
  state_association = "association";
  state_configuration = "configuration";
  state_failure = "failure";
  state_activation_failure = "activation-failure";
  state_idle = "idle";
  state_offline = "offline";
  state_disconnect = "disconnect";
  error_out_of_range = "out-of-range";
  error_internal = "internal-error";
}

value_lowest : (n : NetworkState) → 0 ≤ value n
value_lowest n = omega arith

abbrev one_device : Answers
one_device = record {
  manager = some (("Devices", objects ("/device/wlan0" ∷ [])) ∷ []);
  device = λ _. none;
  service = λ _. none;
}

-- The client after its construction, with the device wlan0.
abbrev started : Client
started = record {
  device_whitelist = [];
  connectivity_listeners = [];
  have_called_connect = false;
  connecting_service = none;
  connecting_service_error = "";
  connect_done_callback = none;
  devices = ("/device/wlan0", record { selected_service = none; service_state = offline }) ∷ [];
  connectivity_state = offline;
  next_id = 0;
  log = post_notify false ∷ register_device "/device/wlan0" ∷ [];
}

started_lem : init one_device (new_client []) ≡ some started
unfolding init new_client insert find most_connected better
started_lem = refl

-- wlan0 selects the service /service/0, which then comes online.
abbrev selected : Event
selected = device_changed one_device "/device/wlan0" "SelectedService" (object "/service/0")

abbrev comes_online : Event
comes_online = service_changed "/service/0" "State" (text "online")

abbrev online_client : Client
online_client = record started {
  devices =
      (
        "/device/wlan0",
        record {
          selected_service = some (record { id = 0; path = "/service/0" });
          service_state = online;
        },
      )
      ∷ [];
  connectivity_state = online;
  next_id = 1;
  log =
      post_notify true
      ∷ register_service (record { id = 0; path = "/service/0" })
      ∷ post_notify false
      ∷ register_device "/device/wlan0"
      ∷ [];
}

online_client_Reach : Reach [] online_client
unfolding handle on_device_property_change on_service_property_change
    on_state_change_for_selected_service mark_selected find update most_connected better
    service_state_to_network_state
online_client_Reach = next comes_online (next selected (start one_device started_lem) refl) refl

Reach-connectivity_example :
    Bounded online online_client.devices
    × ((online ≡ offline) ⊎ Attained online online_client.devices)
    × Settled online_client.devices
Reach-connectivity_example = Reach-connectivity value_lowest online_client_Reach

abbrev proxy : ServiceProxy
proxy = record { id = 0; path = "/service/home" }

-- A client that waits for the service /service/home, with the callback 5.
abbrev waiting : Client
waiting = record started {
  connecting_service = some proxy;
  connect_done_callback = some 5;
  next_id = 1;
}

timeout_answers_example :
    (connect_to_service_error (some proxy) waiting).log
    ≡ run 5 (some ("out-of-range", "Failed to connect to WiFi network"))
      ∷ release_proxy proxy
      ∷ started.log
unfolding connect_error
timeout_answers_example =
    ap (λ c. c.log)
      (timeout_answers proxy 5 waiting (λ e. ground (arith, eq_iff "internal-error" "")) refl refl)

on_state_change-answers_example :
    Answer proxy 5 "portal" waiting (on_state_change_for_connecting_service "portal" waiting)
on_state_change-answers_example =
    on_state_change-answers proxy 5 "portal" waiting
      (λ e. ground (arith, eq_iff "internal-error" "")) refl refl

-- A client whose last attempt failed for a wrong passphrase.
abbrev failed_once : Client
failed_once = record started { connecting_service_error = "bad-passphrase" }

stale_error_example :
    answered 7
      (connect_to_service_error (some (record { id = 0; path = "/service/away" })) (
        on_strength_change_for_connecting_service 40
          (connect "away" "" 7 (configured "/service/away") none failed_once))).log
    ≡ 1
unfolding connect on_strength_change_for_connecting_service
stale_error_example = ap (answered 7) (
    stale_error "away" "" "/service/away" 7 39 failed_once refl
      (λ e. ground (arith, eq_iff "bad-passphrase" "")))

-- Shill goes away, and the timeout of the attempt comes.
abbrev lost : Client
lost = record started { next_id = 1; devices = []; log = release_proxy proxy ∷ started.log }

lost_lem : run_events (owner_changed one_device "" ∷ timeout proxy ∷ []) waiting ≡ some lost
unfolding run_events handle on_shill_service_owner_change connect_to_service_error
lost_lem = refl

lost_owner-drops_callback_example :
    ((l : Client) × (handle (owner_changed one_device "") waiting ≡ some l)
      × (l.log ≡ release_proxy proxy ∷ started.log)
      × (l.connecting_service ≡ none)
      × (l.connect_done_callback ≡ none))
    × (answered 5 lost.log ≤ 0)
lost_owner-drops_callback_example =
    lost_owner-drops_callback one_device proxy 5 (timeout proxy ∷ []) waiting lost refl refl
      lost_lem

abbrev attempt : List Event
attempt =
    connects "home" "secret" 5 (configured "/service/home") none
    ∷ timeout proxy
    ∷ timeout proxy
    ∷ []

abbrev attempted : Client
attempted = record started {
  next_id = 1;
  log =
      run 5 (some ("out-of-range", "Failed to connect to WiFi network"))
      ∷ release_proxy proxy
      ∷ post_timeout proxy
      ∷ register_service proxy
      ∷ call_connect proxy
      ∷ request_scan
      ∷ configure (service_properties "home" "secret")
      ∷ started.log;
}

attempted_lem : run_events attempt started ≡ some attempted
unfolding run_events handle connect connect_to_service_error
attempted_lem = refl

replies_bounded_example : answered 5 attempted.log + waits 5 attempted.connect_done_callback ≤ 1
replies_bounded_example =
    (replies_bounded 5 [] one_device attempt started attempted started_lem attempted_lem).0
