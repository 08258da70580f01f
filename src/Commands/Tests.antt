-- ===== src/Commands/Tests.antt =====
-- libweaved/command.cc and buffet/binder_command_proxy.cc: runs on a small command.
use rockchip_android_system.Prelude.{
  ℕ, ◌≡◌, refl, Option, none, some, [], String, ◌==◌, if◌then◌else◌,
}
use rockchip_android_system.Strings.{BinderStrings}
use rockchip_android_system.Status.{Json, WeaveError, dictionary, malformed}
use rockchip_android_system.Commands.{LibweaveCommands, IWeaveCommand, proxy}
use rockchip_android_system.Commands.Client.{
  State, in_progress, done, cancelled, aborted, error, paused, queued, local, Command, get_id,
  get_name, get_component, get_state, get_origin, get_parameters, set_progress, complete, abort,
  cancel, pause, set_error,
}
use rockchip_android_system.Commands.Parameter.{DictionaryValues, FromValue, get_parameter}
use rockchip_android_system.Commands.Delivery.{
  Applied, get_id-get_origin-read, complete-set_progress-apply, abort-set_error-apply, state_text,
}
use rockchip_android_system.Commands.Gone.{ReportsDestroyed, destroyed_lem, get_parameters-kept}

-- Texts of binder and of JSON are the texts themselves.
abbrev plain : BinderStrings
plain = record { String16 = String; to_string = λ s. s; to_string16 = λ s. s }

abbrev text_json : Json
text_json = record {
  Dictionary = String;
  empty = "";
  read_json = λ s. if s == "?" then malformed 1 "Syntax error" else dictionary s;
  write_json = λ d. d;
}

-- A command as its state and its results; it refuses the results "bad", and is paused at the start.
abbrev small : LibweaveCommands ⦃json = text_json⦄
small = record {
  Command = State × String;
  get_id = λ c. "42";
  get_name = λ c. "lock.setConfig";
  get_component = λ c. "door";
  get_state = λ c. state_text c.0;
  get_origin = λ c. "cloud";
  get_parameters = λ c. "{}";
  get_progress = λ c. "{}";
  get_results = λ c. c.1;
  set_progress = λ d c. ((in_progress, d), none);
  complete = λ d c.
      if d == "bad"
      then (c, some (record { code = "bad"; message = "wrong" }))
      else ((done, d), none);
  abort = λ e c. ((aborted, e.code), none);
  cancel = λ c. ((cancelled, ""), none);
  pause = λ c. ((paused, ""), none);
  set_error = λ e c. ((error, e.code), none);
}

abbrev lock : State × String
lock = (paused, "")

abbrev far : Option (State × String) → Command ⦃json = text_json⦄ (Option (State × String))
far b = record { behind = b; parameter_cache = none }

abbrev far_proxy : IWeaveCommand ⦃strings = plain⦄ (Option (State × String))
far_proxy = proxy ⦃strings = plain⦄ ⦃json = text_json⦄ ⦃weave = small⦄

get_id-get_origin-read_example :
    let c = far (some lock) in
    (get_id ⦃strings = plain⦄ ⦃json = text_json⦄ ⦃binder = far_proxy⦄ c ≡ "42")
    × (get_state ⦃strings = plain⦄ ⦃json = text_json⦄ ⦃binder = far_proxy⦄ c ≡ paused)
    × (get_name ⦃strings = plain⦄ ⦃json = text_json⦄ ⦃binder = far_proxy⦄ c ≡ "42")
    × (get_component ⦃strings = plain⦄ ⦃json = text_json⦄ ⦃binder = far_proxy⦄ c ≡ "42")
    × (get_origin ⦃strings = plain⦄ ⦃json = text_json⦄ ⦃binder = far_proxy⦄ c ≡ local)
    × (get_origin ⦃strings = plain⦄ ⦃json = text_json⦄ ⦃binder = far_proxy⦄ (far none) ≡ local)
get_id-get_origin-read_example =
    get_id-get_origin-read ⦃strings = plain⦄ ⦃json = text_json⦄ ⦃weave = small⦄ (far (some lock))
      lock paused refl refl refl (λ s. refl) (λ c. (c.0, refl))

complete-set_progress-apply_example :
    Applied ⦃strings = plain⦄ ⦃json = text_json⦄ ⦃weave = small⦄
      (complete ⦃strings = plain⦄ ⦃json = text_json⦄ ⦃binder = far_proxy⦄ "bad"
        (far (some lock))
        [])
      (small.complete "bad" lock)
      []
    × Applied ⦃strings = plain⦄ ⦃json = text_json⦄ ⦃weave = small⦄
        (set_progress ⦃strings = plain⦄ ⦃json = text_json⦄ ⦃binder = far_proxy⦄ "bad"
          (far (some lock))
          [])
        (small.set_progress "bad" lock)
        []
complete-set_progress-apply_example =
    complete-set_progress-apply ⦃strings = plain⦄ ⦃json = text_json⦄ ⦃weave = small⦄
      (far (some lock)) lock "bad" [] refl refl

abort-set_error-apply_example :
    let e : WeaveError = record { code = "_busy"; message = "Busy" } in
    Applied ⦃strings = plain⦄ ⦃json = text_json⦄ ⦃weave = small⦄
      (abort ⦃strings = plain⦄ ⦃json = text_json⦄ ⦃binder = far_proxy⦄ "_busy" "Busy"
        (far (some lock))
        [])
      (small.abort e lock)
      []
    × Applied ⦃strings = plain⦄ ⦃json = text_json⦄ ⦃weave = small⦄
        (set_error ⦃strings = plain⦄ ⦃json = text_json⦄ ⦃binder = far_proxy⦄ "_busy" "Busy"
          (far (some lock))
          [])
        (small.set_error e lock)
        []
    × Applied ⦃strings = plain⦄ ⦃json = text_json⦄ ⦃weave = small⦄
        (cancel ⦃strings = plain⦄ ⦃json = text_json⦄ ⦃binder = far_proxy⦄ (far (some lock)) [])
        (small.cancel lock)
        []
    × Applied ⦃strings = plain⦄ ⦃json = text_json⦄ ⦃weave = small⦄
        (pause ⦃strings = plain⦄ ⦃json = text_json⦄ ⦃binder = far_proxy⦄ (far (some lock)) [])
        (small.pause lock)
        []
abort-set_error-apply_example =
    abort-set_error-apply ⦃strings = plain⦄ ⦃json = text_json⦄ ⦃weave = small⦄ (far (some lock))
      lock "_busy" "Busy" [] refl refl refl

destroyed_lem_example :
    ReportsDestroyed ⦃strings = plain⦄ ⦃json = text_json⦄ ⦃weave = small⦄
      (set_progress ⦃strings = plain⦄ ⦃json = text_json⦄ ⦃binder = far_proxy⦄ "{}" (far none) [])
      (far none)
      []
    × ReportsDestroyed ⦃strings = plain⦄ ⦃json = text_json⦄ ⦃weave = small⦄
        (complete ⦃strings = plain⦄ ⦃json = text_json⦄ ⦃binder = far_proxy⦄ "{}" (far none) [])
        (far none)
        []
    × ReportsDestroyed ⦃strings = plain⦄ ⦃json = text_json⦄ ⦃weave = small⦄
        (abort ⦃strings = plain⦄ ⦃json = text_json⦄ ⦃binder = far_proxy⦄ "_busy" "Busy"
          (far none)
          [])
        (far none)
        []
    × ReportsDestroyed ⦃strings = plain⦄ ⦃json = text_json⦄ ⦃weave = small⦄
        (cancel ⦃strings = plain⦄ ⦃json = text_json⦄ ⦃binder = far_proxy⦄ (far none) [])
        (far none)
        []
    × ReportsDestroyed ⦃strings = plain⦄ ⦃json = text_json⦄ ⦃weave = small⦄
        (pause ⦃strings = plain⦄ ⦃json = text_json⦄ ⦃binder = far_proxy⦄ (far none) [])
        (far none)
        []
    × ReportsDestroyed ⦃strings = plain⦄ ⦃json = text_json⦄ ⦃weave = small⦄
        (set_error ⦃strings = plain⦄ ⦃json = text_json⦄ ⦃binder = far_proxy⦄ "_busy" "Busy"
          (far none)
          [])
        (far none)
        []
    × (get_id ⦃strings = plain⦄ ⦃json = text_json⦄ ⦃binder = far_proxy⦄ (far none) ≡ "")
    × (get_state ⦃strings = plain⦄ ⦃json = text_json⦄ ⦃binder = far_proxy⦄ (far none) ≡ queued)
destroyed_lem_example =
    destroyed_lem ⦃strings = plain⦄ ⦃json = text_json⦄ ⦃weave = small⦄ (far none) "{}" "_busy"
      "Busy" [] refl

-- A dictionary has itself under the name "all", and a text is read as a number by what it is.
abbrev text_values : DictionaryValues ⦃json = text_json⦄
text_values = record { Value = String; get = λ name d. if name == "all" then some d else none }

abbrev numbers : FromValue String ℕ
numbers = record { default = 0; from_value = λ v. if v == "{}" then some 2 else none }

get_parameters-kept_example :
    let r =
      get_parameters ⦃strings = plain⦄ ⦃json = text_json⦄ ⦃binder = far_proxy⦄ (far (some lock)) in
    (r.1 ≡ "{}")
    × ((get_parameters ⦃strings = plain⦄ ⦃json = text_json⦄ ⦃binder = far_proxy⦄
          (record r.0 { behind = none })).1
        ≡ "{}")
    × ((get_parameter ⦃json = text_json⦄ ⦃values = text_values⦄ ⦃reads = numbers⦄ ⦃strings = plain⦄
          ⦃binder = far_proxy⦄ "all"
          (record r.0 { behind = none })).1
        ≡ 2)
get_parameters-kept_example =
    get_parameters-kept ⦃strings = plain⦄ ⦃json = text_json⦄ ⦃weave = small⦄ ⦃values = text_values⦄
      ⦃reads = numbers⦄ (far (some lock)) lock none "all" refl refl refl
