-- ===== src/Commands/Gone.antt =====
-- libweaved/command.cc and command.h over buffet/binder_command_proxy.cc: a command that the daemon
-- has destroyed, and the parameters that the client keeps.
use rockchip_android_system.Prelude.{
  ◌≡◌, ◌∷◌, refl, ap, sym, false, Option, none, some, List, String, arith,
}
use rockchip_android_system.Strings.{BinderStrings}
use rockchip_android_system.Status.{
  reported, Status, dictionary_to_string16, BrilloError, Json, parse_dictionary,
}
use rockchip_android_system.Commands.{
  LibweaveCommands, report_destroyed_error, proxy, proxy_text, proxy_dictionary, proxy_call,
  proxy_with_dictionary, proxy_with_error, WeakCommand,
}
use rockchip_android_system.Commands.Client.{
  queued, Outcome, read_parameters, get_id, get_state, get_parameters, finish, set_progress,
  complete, abort, cancel, pause, set_error,
}
use rockchip_android_system.Commands.Parameter.{
  DictionaryValues, FromValue, parameter_in, get_parameter,
}
use rockchip_android_system.Commands.Delivery.{Remote, JsonSurvives}

-- The value read as the type, if there is one that can be.
abbrev pub read_as : {V T : Type 0} → FromValue V T → Option V → Option T
read_as reads none = none
read_as reads (some value) = reads.from_value value

abbrev pub first_of : {T : Type 0} → Option T → T → T
first_of none default = default
first_of (some x) default = x

module _ ⦃strings : BinderStrings⦄ ⦃json : Json⦄ ⦃weave : LibweaveCommands⦄ where
  -- The operation is refused because the command has been destroyed, and nothing else changes.
  abbrev pub ReportsDestroyed : Outcome WeakCommand → Remote → List BrilloError → Type 0
  ReportsDestroyed out c errors =
      (out.success ≡ false)
      × (out.errors ≡ reported "Command has been destroyed" ∷ errors)
      × (out.command ≡ c)

  refused_lem :
      (c : Remote) (out : WeakCommand × Status) (errors : List BrilloError)
      → c.behind ≡ none
      → out ≡ (none, report_destroyed_error)
      → ReportsDestroyed (finish ⦃binder = proxy⦄ c out errors) c errors
  unfolding finish
  refused_lem c out errors gone e =
      rw e (refl, refl, ap (λ (b : WeakCommand). record c { behind = b }) (sym gone))

  -- Once the daemon has destroyed the command, each of the six operations of the client returns
  -- false, with the error that says so in front of the chain, and changes nothing. GetID then gives
  -- the empty text and GetState `queued`.
  pub destroyed_lem :
      (c : Remote) (d : json.Dictionary) (code message : String) (errors : List BrilloError)
      → c.behind ≡ none
      → ReportsDestroyed (set_progress ⦃binder = proxy⦄ d c errors) c errors
        × ReportsDestroyed (complete ⦃binder = proxy⦄ d c errors) c errors
        × ReportsDestroyed (abort ⦃binder = proxy⦄ code message c errors) c errors
        × ReportsDestroyed (cancel ⦃binder = proxy⦄ c errors) c errors
        × ReportsDestroyed (pause ⦃binder = proxy⦄ c errors) c errors
        × ReportsDestroyed (set_error ⦃binder = proxy⦄ code message c errors) c errors
        × (get_id ⦃binder = proxy⦄ c ≡ "")
        × (get_state ⦃binder = proxy⦄ c ≡ queued)
  unfolding set_progress complete abort cancel pause set_error get_id get_state finish proxy
      proxy_text proxy_call proxy_with_dictionary proxy_with_error
  destroyed_lem c d code message errors gone =
      let text = dictionary_to_string16 d in
      let k = strings.to_string16 code in
      let m = strings.to_string16 message in
      (
        refused_lem c (proxy.set_progress text c.behind) errors gone (rw gone refl),
        refused_lem c (proxy.complete text c.behind) errors gone (rw gone refl),
        refused_lem c (proxy.abort k m c.behind) errors gone (rw gone refl),
        refused_lem c (proxy.cancel c.behind) errors gone (rw gone refl),
        refused_lem c (proxy.pause c.behind) errors gone (rw gone refl),
        refused_lem c (proxy.set_error k m c.behind) errors gone (rw gone refl),
        rw gone refl,
        rw gone refl,
      )

  -- Parameters that the client has read once, while the command existed and they came through
  -- binder, are the command's. The client gives them again whatever becomes of the command, and
  -- GetParameter then gives each of them as the type that is asked for, or the default of the type
  -- if there is none of the name or it cannot be read as the type.
  pub get_parameters-kept :
      ⦃values : DictionaryValues⦄ {T : Type 0} ⦃reads : FromValue values.Value T⦄ (c : Remote)
      (command : weave.Command) (later : WeakCommand) (name : String)
      → c.parameter_cache ≡ none
      → c.behind ≡ some command
      → JsonSurvives (weave.get_parameters command)
      → let (c', d) = get_parameters ⦃binder = proxy⦄ c in
        let kept = record c' { behind = later } in
        (d ≡ weave.get_parameters command)
        × ((get_parameters ⦃binder = proxy⦄ kept).1 ≡ weave.get_parameters command)
        × ((get_parameter ⦃reads = reads⦄ ⦃binder = proxy⦄ name kept).1
            ≡ first_of
                (read_as reads (values.get name (weave.get_parameters command)))
                reads.default)
  unfolding get_parameters get_parameter parameter_in proxy proxy_dictionary
  get_parameters-kept c command later name fresh there parses =
      let read : read_parameters (proxy_dictionary weave.get_parameters c.behind)
          ≡ weave.get_parameters command =
        rw (there, read_parameters, parse_dictionary, parses) refl in
      (ground (arith, fresh, read), ground (arith, fresh, read), ground (arith, fresh, read))
