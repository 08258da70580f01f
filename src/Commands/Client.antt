-- ===== src/Commands/Client.antt =====
-- libweaved/command.h and command.cc: the client's view of a command, over the binder interface.
use Prim.Native.String.{◌++◌ as append}
use rockchip_android_system.Prelude.{Bool, Option, none, some, List, String, ◌==◌, if◌then◌else◌}
use rockchip_android_system.Strings.{BinderStrings}
use rockchip_android_system.Status.{
  Exception, ex_none, ex_security, ex_bad_parcelable, ex_illegal_argument, ex_null_pointer,
  ex_illegal_state, ex_network_main_thread, ex_unsupported_operation, ex_service_specific, ex_other,
  Status, Reply, refused, returned, BrilloError, status_to_error, Json, parse_dictionary,
  dictionary_to_string16,
}
use rockchip_android_system.Commands.{IWeaveCommand}

-- Command::State and Command::Origin.
pub data State : Type 0 where
  queued in_progress paused error done cancelled aborted expired : State

pub data Origin : Type 0 where
  local cloud : Origin

-- BinderExceptionString.
unfoldable pub binder_exception_string : Exception → String
binder_exception_string ex_none = "_none"
binder_exception_string ex_security = "_security"
binder_exception_string ex_bad_parcelable = "_bad_parcelable"
binder_exception_string ex_illegal_argument = "_illegal_argument"
binder_exception_string ex_null_pointer = "_null_pointer"
binder_exception_string ex_illegal_state = "_illegal_state"
binder_exception_string ex_network_main_thread = "_network_error"
binder_exception_string ex_unsupported_operation = "_unsupported_operation"
binder_exception_string ex_service_specific = "_general_failure"
binder_exception_string (ex_other n) = "_unknown"

-- The tests of GetState and GetOrigin on the text, with their defaults.
unfoldable pub parse_state : String → State
parse_state text =
    if text == "queued"
    then queued
    else if text == "inProgress"
    then in_progress
    else if text == "paused"
    then paused
    else if text == "error"
    then error
    else if text == "done"
    then done
    else if text == "cancelled"
    then cancelled
    else if text == "aborted"
    then aborted
    else if text == "expired"
    then expired
    else queued

unfoldable pub parse_origin : String → Origin
parse_origin text = if text == "local" then local else if text == "cloud" then cloud else local

-- Command: the objects behind `binder_proxy_`, of type `S`, and the cache of the parameters.
pub record Command ⦃json : Json⦄ (S : Type 0) : Type 0 where
  pub behind : S
  pub parameter_cache : Option json.Dictionary

-- What an operation gives: the command, the returned Boolean, and the chain of errors.
pub record Outcome ⦃json : Json⦄ (S : Type 0) : Type 0 where
  pub command : Command S
  pub success : Bool
  pub errors : List BrilloError

module _ ⦃strings : BinderStrings⦄ ⦃json : Json⦄ where
  -- A text read from the binder object, empty if the call fails.
  abbrev pub text_of : Reply strings.String16 → String
  text_of (refused status) = ""
  text_of (returned text) = strings.to_string text

  -- The parameters as they are read for the cache.
  unfoldable pub read_parameters : Reply strings.String16 → json.Dictionary
  unfolding parse_dictionary
  read_parameters (refused status) = json.empty
  read_parameters (returned text) = elim (parse_dictionary text) [
    | refused status ↦ json.empty
    | returned d ↦ d
  ]

module _ ⦃strings : BinderStrings⦄ ⦃json : Json⦄ {S : Type 0} ⦃binder : IWeaveCommand S⦄ where
  unfoldable pub get_id : Command S → String
  get_id c = text_of (binder.get_id c.behind)

  -- GetName and GetComponent; both call getId.
  unfoldable pub get_name : Command S → String
  get_name c = text_of (binder.get_id c.behind)

  unfoldable pub get_component : Command S → String
  get_component c = text_of (binder.get_id c.behind)

  unfoldable pub get_state : Command S → State
  unfolding parse_state
  get_state c = parse_state (text_of (binder.get_state c.behind))

  -- GetOrigin, which calls getState.
  unfoldable pub get_origin : Command S → Origin
  unfolding parse_origin
  get_origin c = parse_origin (text_of (binder.get_state c.behind))

  unfoldable pub get_parameters : Command S → Command S × json.Dictionary
  unfolding read_parameters
  get_parameters c = elim c.parameter_cache [
    | some d ↦ (c, d)
    | none ↦
        let d = read_parameters (binder.get_parameters c.behind) in
        (record c { parameter_cache = some d }, d)
  ]

  -- A call of the binder object, and StatusToError of its status.
  unfoldable pub finish : Command S → S × Status → List BrilloError → Outcome S
  finish c (behind, status) errors =
      let (success, errors') = status_to_error status errors in
      record { command = record c { behind = behind }; success = success; errors = errors' }

  unfoldable pub set_progress : json.Dictionary → Command S → List BrilloError → Outcome S
  unfolding finish
  set_progress progress c =
      finish c (binder.set_progress (dictionary_to_string16 progress) c.behind)

  unfoldable pub complete : json.Dictionary → Command S → List BrilloError → Outcome S
  unfolding finish
  complete results c = finish c (binder.complete (dictionary_to_string16 results) c.behind)

  unfoldable pub abort : String → String → Command S → List BrilloError → Outcome S
  unfolding finish
  abort code message c =
      finish c (binder.abort (strings.to_string16 code) (strings.to_string16 message) c.behind)

  -- AbortWithCustomError, for the code and the message of a brillo error and for a status.
  unfoldable pub abort_with_custom_error :
      String → String → Command S → List BrilloError → Outcome S
  unfolding abort
  abort_with_custom_error code message = abort (append "_" code) message

  unfoldable pub abort_with_status : Status → Command S → List BrilloError → Outcome S
  unfolding abort binder_exception_string
  abort_with_status s = abort (binder_exception_string s.exception) s.message

  unfoldable pub cancel : Command S → List BrilloError → Outcome S
  unfolding finish
  cancel c = finish c (binder.cancel c.behind)

  unfoldable pub pause : Command S → List BrilloError → Outcome S
  unfolding finish
  pause c = finish c (binder.pause c.behind)

  unfoldable pub set_error : String → String → Command S → List BrilloError → Outcome S
  unfolding finish
  set_error code message c =
      finish c (binder.set_error (strings.to_string16 code) (strings.to_string16 message) c.behind)

  unfoldable pub set_custom_error : String → String → Command S → List BrilloError → Outcome S
  unfolding set_error
  set_custom_error code message = set_error (append "_" code) message

  unfoldable pub set_error_with_status : Status → Command S → List BrilloError → Outcome S
  unfolding set_error binder_exception_string
  set_error_with_status s = set_error (binder_exception_string s.exception) s.message
