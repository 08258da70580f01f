-- ===== src/Commands/Parameter.antt =====
-- libweaved/command.h: one parameter of a command, as a value of the type that the caller asks for.
use rockchip_android_system.Prelude.{Option, none, some, String}
use rockchip_android_system.Strings.{BinderStrings}
use rockchip_android_system.Status.{Json}
use rockchip_android_system.Commands.{IWeaveCommand}
use rockchip_android_system.Commands.Client.{Command, get_parameters}

-- base::DictionaryValue::Get over a path.
pub record DictionaryValues ⦃json : Json⦄ : Type 1 where
  pub Value : Type 0
  pub get : String → json.Dictionary → Option Value

-- A type T for which brillo::FromValue exists: T{} and what FromValue reads, `none` where it
-- returns false.
pub record FromValue (Value T : Type 0) : Type 0 where
  pub default : T
  pub from_value : Value → Option T

module _ ⦃json : Json⦄ ⦃values : DictionaryValues⦄ {T : Type 0}
    ⦃reads : FromValue values.Value T⦄ where
  -- GetParameter: the value of the dictionary, if there is one, as a T.
  unfoldable pub parameter_in : String → json.Dictionary → T
  parameter_in name d = elim (values.get name d) [
    | none ↦ reads.default
    | some value ↦ elim (reads.from_value value) [ none ↦ reads.default | some x ↦ x ]
  ]

  module _ ⦃strings : BinderStrings⦄ {S : Type 0} ⦃binder : IWeaveCommand S⦄ where
    -- Command::GetParameter, with the cache that GetParameters fills.
    unfoldable pub get_parameter : String → Command S → Command S × T
    unfolding parameter_in get_parameters
    get_parameter name c = let (c', d) = get_parameters c in (c', parameter_in name d)
