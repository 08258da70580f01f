-- ===== src/Commands/UnitTests.antt =====
-- buffet/binder_command_proxy_unittest.cc: the unit tests of the binder object, run on the model.
use rockchip_android_system.Prelude.{
  ◌≡◌, refl, true, Option, none, some, List, [], ◌∷◌, ◌++◌, String, ◌==◌, if◌then◌else◌,
}
use rockchip_android_system.Strings.{BinderStrings}
use rockchip_android_system.Status.{
  Status, is_ok, Reply, refused, returned, Json, Parsed, dictionary, malformed, WeaveError,
  parse_dictionary,
}
use rockchip_android_system.Commands.{
  LibweaveCommands, IWeaveCommand, proxy, proxy_text, proxy_dictionary, proxy_call,
  proxy_with_dictionary, proxy_with_error,
}
use rockchip_android_system.Commands.Client.{State, queued, Origin, local, cloud}

-- Texts of binder are the texts themselves. A dictionary is the text that JSONWriter gives for it,
-- and the texts below are those of the tests.
abbrev texts : BinderStrings
texts = record { String16 = String; to_string = λ s. s; to_string16 = λ s. s }

abbrev progress_text : String
progress_text = "{\"progress\": 10}"

abbrev results_text : String
results_text = "{\"foo\": 42, \"bar\": \"foobar\", \"resultList\": [1, 2, 3]}"

abbrev progress_dict : String
progress_dict = "{\"progress\":10}"

abbrev results_dict : String
results_dict = "{\"bar\":\"foobar\",\"foo\":42,\"resultList\":[1,2,3]}"

abbrev read_text : String → Parsed String
read_text text =
    if text == progress_text
    then dictionary progress_dict
    else if text == results_text
    then dictionary results_dict
    else malformed 1 "Syntax error"

abbrev test_json : Json
test_json = record { Dictionary = String; empty = "{}"; read_json = read_text; write_json = λ d. d }

-- The calls that StrictMock<MockCommand> is given: those that change a command.
data MockCall : Type 0 where
  set_progress_call complete_call : String → MockCall
  abort_call set_error_call : WeaveError → MockCall
  cancel_call pause_call : MockCall

-- MockCommand as SetUp makes it, with the calls so far. Each call is answered with `true`.
abbrev expected_result_dict : String
expected_result_dict = "{\"_jumpType\":\"_withKick\",\"height\":53}"

abbrev test_command_id : String
test_command_id = "cmd_1"

abbrev record_call : MockCall → List MockCall → List MockCall × Option WeaveError
record_call call calls = (calls ++ call ∷ [], none)

abbrev mock_command : LibweaveCommands ⦃json = test_json⦄
mock_command = record {
  Command = List MockCall;
  get_id = λ calls. test_command_id;
  get_name = λ calls. "robot.jump";
  get_component = λ calls. "myComponent";
  get_state = λ calls. "queued";
  get_origin = λ calls. "local";
  get_parameters = λ calls. expected_result_dict;
  get_progress = λ calls. "{}";
  get_results = λ calls. "{}";
  set_progress = λ d. record_call (set_progress_call d);
  complete = λ d. record_call (complete_call d);
  abort = λ e. record_call (abort_call e);
  cancel = record_call cancel_call;
  pause = record_call pause_call;
  set_error = λ e. record_call (set_error_call e);
}

abbrev command_proxy : IWeaveCommand ⦃strings = texts⦄ (Option (List MockCall))
command_proxy = proxy ⦃strings = texts⦄ ⦃json = test_json⦄ ⦃weave = mock_command⦄

-- SetUp: the command is there, and nothing has been called.
abbrev set_up : Option (List MockCall)
set_up = some []

-- StringToEnum on the texts of the tests.
abbrev enum_state : String → Option State
enum_state text = if text == "queued" then some queued else none

abbrev enum_origin : String → Option Origin
enum_origin text =
    if text == "local" then some local else if text == "cloud" then some cloud else none

abbrev answer : Reply String → Option String
answer (refused status) = none
answer (returned text) = some text

-- GetCommandState and GetCommandOrigin.
abbrev get_command_state : Option State
get_command_state = elim (answer (command_proxy.get_state set_up)) [
  | none ↦ none
  | some text ↦ enum_state text
]

abbrev get_command_origin : Option Origin
get_command_origin = elim (answer (command_proxy.get_origin set_up)) [
  | none ↦ none
  | some text ↦ enum_origin text
]

-- Init.
abbrev Init : Type 0
Init =
    (get_command_state ≡ some queued)
    × (get_command_origin ≡ some local)
    × (answer (command_proxy.get_parameters set_up) ≡ some expected_result_dict)
    × (answer (command_proxy.get_progress set_up) ≡ some "{}")
    × (answer (command_proxy.get_results set_up) ≡ some "{}")
    × (answer (command_proxy.get_name set_up) ≡ some "robot.jump")
    × (answer (command_proxy.get_component set_up) ≡ some "myComponent")
    × (answer (command_proxy.get_id set_up) ≡ some test_command_id)

init : Init
unfolding proxy proxy_text proxy_dictionary
init = (refl, refl, refl, refl, refl, refl, refl, refl)

-- A call of the proxy is answered with an ok status, and the command is given `call` once and
-- no other.
abbrev Gives : Option (List MockCall) × Status → MockCall → Type 0
Gives (command, status) call = (is_ok status ≡ true) × (command ≡ some (call ∷ []))

abbrev SetProgress : Type 0
SetProgress =
    Gives (command_proxy.set_progress progress_text set_up) (set_progress_call progress_dict)

abbrev Complete : Type 0
Complete = Gives (command_proxy.complete results_text set_up) (complete_call results_dict)

abbrev Abort : Type 0
Abort =
    Gives (command_proxy.abort "foo" "bar" set_up)
      (abort_call (record { code = "foo"; message = "bar" }))

abbrev Cancel : Type 0
Cancel = Gives (command_proxy.cancel set_up) cancel_call

abbrev Pause : Type 0
Pause = Gives (command_proxy.pause set_up) pause_call

with_mock : SetProgress × Complete × Abort × Cancel × Pause
unfolding proxy proxy_with_dictionary proxy_with_error proxy_call parse_dictionary
with_mock = ((refl, refl), (refl, refl), (refl, refl), (refl, refl), (refl, refl))
