-- ===== src/Commands/Delivery.antt =====
-- libweaved/command.cc over buffet/binder_command_proxy.cc: what a client's call does to the
-- command in the daemon, and what it is told.
use rockchip_android_system.Prelude.{
  ◌≡◌, ◌∷◌, refl, ap, ◌∙◌, true, false, Option, none, some, List, String, arith, Option-cases, inl,
  inr,
}
use rockchip_android_system.Strings.{BinderStrings, Survives}
use rockchip_android_system.Status.{
  Status, to_status, WeaveError, BrilloError, reported, Json, dictionary, parse_dictionary,
  dictionary_to_string16,
}
use rockchip_android_system.Commands.{
  LibweaveCommands, proxy, proxy_text, proxy_call, proxy_with_dictionary, proxy_with_error,
  WeakCommand,
}
use rockchip_android_system.Commands.Client.{
  State, queued, in_progress, paused, error, done, cancelled, aborted, expired, local, Command,
  Outcome, text_of, parse_state, parse_origin, get_id, get_name, get_component, get_state,
  get_origin, finish, set_progress, complete, abort, cancel, pause, set_error,
}

-- The texts of the states, as the client expects them.
abbrev pub state_text : State → String
state_text queued = "queued"
state_text in_progress = "inProgress"
state_text paused = "paused"
state_text error = "error"
state_text done = "done"
state_text cancelled = "cancelled"
state_text aborted = "aborted"
state_text expired = "expired"

parse_state-state_text : (s : State) → parse_state (state_text s) ≡ s
unfolding parse_state
parse_state-state_text queued = refl
parse_state-state_text in_progress = refl
parse_state-state_text paused = refl
parse_state-state_text error = refl
parse_state-state_text done = refl
parse_state-state_text cancelled = refl
parse_state-state_text aborted = refl
parse_state-state_text expired = refl

parse_origin-state_text : (s : State) → parse_origin (state_text s) ≡ local
unfolding parse_origin
parse_origin-state_text queued = refl
parse_origin-state_text in_progress = refl
parse_origin-state_text paused = refl
parse_origin-state_text error = refl
parse_origin-state_text done = refl
parse_origin-state_text cancelled = refl
parse_origin-state_text aborted = refl
parse_origin-state_text expired = refl

module _ ⦃strings : BinderStrings⦄ ⦃json : Json⦄ ⦃weave : LibweaveCommands⦄ where
  -- A client's command in front of the proxy of the daemon.
  abbrev pub Remote : Type 0
  Remote = Command WeakCommand

  -- A text comes through binder unchanged, and a dictionary as the text of its JSON.
  abbrev pub JsonSurvives : json.Dictionary → Type 0
  JsonSurvives d = json.read_json (strings.to_string (dictionary_to_string16 d)) ≡ dictionary d

  -- What an operation of libweave leads to: the command is what libweave has made of it, and the
  -- client is told of success exactly if there was no error, else the chain has the message in
  -- front.
  abbrev pub Applied :
      Outcome WeakCommand → weave.Command × Option WeaveError → List BrilloError → Type 0
  Applied out (command, failure) errors = (out.command.behind ≡ some command) × (elim failure [
    | none ↦ (out.success ≡ true) × (out.errors ≡ errors)
    | some e ↦ (out.success ≡ false) × (out.errors ≡ reported e.message ∷ errors)
  ])

  applied :
      (c : Remote) (out : WeakCommand × Status) (r : weave.Command × Option WeaveError)
      (errors : List BrilloError)
      → out ≡ (some r.0, to_status r.1)
      → Applied (finish ⦃binder = proxy⦄ c out errors) r errors
  unfolding finish
  applied c out (command, none) errors e = ground (arith, e)
  applied c out (command, some failure) errors e = ground (arith, e)

  -- GetOrigin reads the text of the state, and no state has the text "cloud".
  get_origin-is_local :
      (c : Remote)
      → ((s : State) → Survives (state_text s))
      → ((command : weave.Command) → (s : State) × (weave.get_state command ≡ state_text s))
      → get_origin ⦃binder = proxy⦄ c ≡ local
  unfolding get_origin proxy proxy_text parse_origin
  get_origin-is_local c texts known = elim (Option-cases c.behind) [
    | inl gone ↦ ap (λ b. parse_origin (text_of (proxy_text weave.get_state b))) gone
    | inr (command, there) ↦
        let (s, e) = known command in
        ap (λ b. parse_origin (text_of (proxy_text weave.get_state b))) there
        ∙ ap (λ t. parse_origin (strings.to_string (strings.to_string16 t))) e
        ∙ ap parse_origin (texts s)
        ∙ parse_origin-state_text s
  ]

  -- If the texts of the eight states come through binder, every command is in one of them, and the
  -- client's command exists and its id comes through binder unchanged: GetID gives the id, and
  -- GetState the state; but GetName and GetComponent give the id too, and GetOrigin says `local`,
  -- whatever the name, the component and the origin of the command, and also after it has been
  -- destroyed.
  pub get_id-get_origin-read :
      (c : Remote) (command : weave.Command) (s : State)
      → c.behind ≡ some command
      → Survives (weave.get_id command)
      → weave.get_state command ≡ state_text s
      → ((s : State) → Survives (state_text s))
      → ((other : weave.Command) → (s : State) × (weave.get_state other ≡ state_text s))
      → (get_id ⦃binder = proxy⦄ c ≡ weave.get_id command)
        × (get_state ⦃binder = proxy⦄ c ≡ s)
        × (get_name ⦃binder = proxy⦄ c ≡ weave.get_id command)
        × (get_component ⦃binder = proxy⦄ c ≡ weave.get_id command)
        × (get_origin ⦃binder = proxy⦄ c ≡ local)
        × (get_origin ⦃binder = proxy⦄ (record c { behind = none }) ≡ local)
  unfolding get_id get_state get_name get_component proxy proxy_text
  get_id-get_origin-read c command s there id state texts known = (
    ground arith,
    ground (arith, texts s, parse_state-state_text s),
    ground arith,
    ground arith,
    get_origin-is_local c texts known,
    get_origin-is_local (record c { behind = none }) texts known,
  )

  -- On a command that exists, and with a dictionary that comes through binder and JSON unchanged,
  -- Complete and SetProgress of the client leave the command as libweave's Complete and
  -- SetProgress do, and return true with the chain of errors as it was, or false with libweave's
  -- error in front, as libweave succeeds or fails.
  pub complete-set_progress-apply :
      (c : Remote) (command : weave.Command) (d : json.Dictionary) (errors : List BrilloError)
      → c.behind ≡ some command
      → JsonSurvives d
      → Applied (complete ⦃binder = proxy⦄ d c errors) (weave.complete d command) errors
        × Applied (set_progress ⦃binder = proxy⦄ d c errors) (weave.set_progress d command) errors
  unfolding complete set_progress finish proxy proxy_with_dictionary parse_dictionary
  complete-set_progress-apply c command d errors there parses =
      let text = dictionary_to_string16 d in
      (
        applied c (proxy.complete text c.behind) (weave.complete d command) errors
            (rw (there, proxy_with_dictionary, parse_dictionary, parses) refl),
        applied c (proxy.set_progress text c.behind) (weave.set_progress d command) errors
            (rw (there, proxy_with_dictionary, parse_dictionary, parses) refl),
      )

  -- On a command that exists, and with a code and a message that come through binder unchanged,
  -- Abort, SetError, Cancel and Pause of the client leave the command as libweave's operations do,
  -- and return true with the chain of errors as it was, or false with libweave's error in front,
  -- as libweave succeeds or fails.
  pub abort-set_error-apply :
      (c : Remote) (command : weave.Command) (code message : String) (errors : List BrilloError)
      → c.behind ≡ some command
      → Survives code
      → Survives message
      → let e : WeaveError = record { code = code; message = message } in
        Applied (abort ⦃binder = proxy⦄ code message c errors) (weave.abort e command) errors
        × Applied
            (set_error ⦃binder = proxy⦄ code message c errors)
            (weave.set_error e command)
            errors
        × Applied (cancel ⦃binder = proxy⦄ c errors) (weave.cancel command) errors
        × Applied (pause ⦃binder = proxy⦄ c errors) (weave.pause command) errors
  unfolding abort set_error cancel pause finish proxy proxy_with_error proxy_call
  abort-set_error-apply c command code message errors there k m =
      let e : WeaveError = record { code = code; message = message } in
      let k' = strings.to_string16 code in
      let m' = strings.to_string16 message in
      (
        applied c (proxy.abort k' m' c.behind) (weave.abort e command) errors
            (rw (there, k, m) refl),
        applied c (proxy.set_error k' m' c.behind) (weave.set_error e command) errors
            (rw (there, k, m) refl),
        applied c (proxy.cancel c.behind) (weave.cancel command) errors (rw there refl),
        applied c (proxy.pause c.behind) (weave.pause command) errors (rw there refl),
      )
