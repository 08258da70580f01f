-- ===== src/Commands.antt =====
-- buffet/binder_command_proxy.h and binder_command_proxy.cc: the binder object through which a
-- client reads and changes a libweave command, and the interface that it implements.
pub mod Client
pub mod Parameter
pub mod Delivery
pub mod Gone
pub mod UnitTests
pub mod Tests
use rockchip_android_system.Prelude.{Option, none, some, String}
use rockchip_android_system.Strings.{BinderStrings}
use rockchip_android_system.Status.{
  Status, WeaveError, Reply, refused, returned, Json, from_service_specific_error, to_status,
  parse_dictionary, dictionary_to_string16,
}

-- weave::Command: the texts of its state and origin are those of EnumToString. The operations give
-- the command afterwards and the error, if they fail.
pub record LibweaveCommands ⦃json : Json⦄ : Type 1 where
  pub Command : Type 0
  pub get_id : Command → String
  pub get_name : Command → String
  pub get_component : Command → String
  pub get_state : Command → String
  pub get_origin : Command → String
  pub get_parameters : Command → json.Dictionary
  pub get_progress : Command → json.Dictionary
  pub get_results : Command → json.Dictionary
  pub set_progress : json.Dictionary → Command → Command × Option WeaveError
  pub complete : json.Dictionary → Command → Command × Option WeaveError
  pub abort : WeaveError → Command → Command × Option WeaveError
  pub cancel : Command → Command × Option WeaveError
  pub pause : Command → Command × Option WeaveError
  pub set_error : WeaveError → Command → Command × Option WeaveError

-- The binder interface IWeaveCommand, over the state `S` of the objects behind it.
pub record IWeaveCommand ⦃strings : BinderStrings⦄ (S : Type 0) : Type 0 where
  pub get_id : S → Reply strings.String16
  pub get_name : S → Reply strings.String16
  pub get_component : S → Reply strings.String16
  pub get_state : S → Reply strings.String16
  pub get_origin : S → Reply strings.String16
  pub get_parameters : S → Reply strings.String16
  pub get_progress : S → Reply strings.String16
  pub get_results : S → Reply strings.String16
  pub set_progress : strings.String16 → S → S × Status
  pub complete : strings.String16 → S → S × Status
  pub abort : strings.String16 → strings.String16 → S → S × Status
  pub cancel : S → S × Status
  pub pause : S → S × Status
  pub set_error : strings.String16 → strings.String16 → S → S × Status

-- ReportDestroyedError.
abbrev pub report_destroyed_error : Status
report_destroyed_error = from_service_specific_error 1 "Command has been destroyed"

module _ ⦃strings : BinderStrings⦄ ⦃json : Json⦄ ⦃weave : LibweaveCommands⦄ where
  -- `command_`, a weak pointer: `none` when the command has been destroyed.
  abbrev pub WeakCommand : Type 0
  WeakCommand = Option weave.Command

  -- A method that writes a text of the command, and one that writes a dictionary.
  unfoldable pub proxy_text : (weave.Command → String) → WeakCommand → Reply strings.String16
  proxy_text text none = refused report_destroyed_error
  proxy_text text (some command) = returned (strings.to_string16 (text command))

  unfoldable pub proxy_dictionary :
      (weave.Command → json.Dictionary) → WeakCommand → Reply strings.String16
  proxy_dictionary values none = refused report_destroyed_error
  proxy_dictionary values (some command) = returned (dictionary_to_string16 (values command))

  -- cancel and pause.
  unfoldable pub proxy_call :
      (weave.Command → weave.Command × Option WeaveError) → WeakCommand → WeakCommand × Status
  proxy_call call none = (none, report_destroyed_error)
  proxy_call call (some command) =
      let (command', error) = call command in (some command', to_status error)

  -- setProgress and complete.
  unfoldable pub proxy_with_dictionary :
      (json.Dictionary → weave.Command → weave.Command × Option WeaveError)
      → strings.String16
      → WeakCommand
      → WeakCommand × Status
  unfolding parse_dictionary
  proxy_with_dictionary call text none = (none, report_destroyed_error)
  proxy_with_dictionary call text (some command) = elim (parse_dictionary text) [
    | refused status ↦ (some command, status)
    | returned d ↦ let (command', error) = call d command in (some command', to_status error)
  ]

  -- abort and setError.
  unfoldable pub proxy_with_error :
      (WeaveError → weave.Command → weave.Command × Option WeaveError)
      → strings.String16
      → strings.String16
      → WeakCommand
      → WeakCommand × Status
  proxy_with_error call code message none = (none, report_destroyed_error)
  proxy_with_error call code message (some command) =
      let (command', error) =
        call (record { code = strings.to_string code; message = strings.to_string message })
          command in
      (some command', to_status error)

  -- BinderCommandProxy.
  unfoldable pub proxy : IWeaveCommand WeakCommand
  unfolding proxy_text proxy_dictionary proxy_call proxy_with_dictionary proxy_with_error
  proxy = record {
    get_id = proxy_text weave.get_id;
    get_name = proxy_text weave.get_name;
    get_component = proxy_text weave.get_component;
    get_state = proxy_text weave.get_state;
    get_origin = proxy_text weave.get_origin;
    get_parameters = proxy_dictionary weave.get_parameters;
    get_progress = proxy_dictionary weave.get_progress;
    get_results = proxy_dictionary weave.get_results;
    set_progress = proxy_with_dictionary weave.set_progress;
    complete = proxy_with_dictionary weave.complete;
    abort = proxy_with_error weave.abort;
    cancel = proxy_call weave.cancel;
    pause = proxy_call weave.pause;
    set_error = proxy_with_error weave.set_error;
  }
