-- ===== src/Errors/Tests.antt =====
-- buffet/weave_error_conversion.h: a chain of two errors, converted.
use rockchip_android_system.Prelude.{◌≡◌, none, some, [], ◌∷◌}
use rockchip_android_system.Errors.{
  Location, WeaveEntry, BrilloEntry, Chain, single, with_inner, brillo_entry, convert_to_brillo,
  convert_to_weave,
}
use rockchip_android_system.Errors.Conversion.{entries, convert_error_lem}

abbrev place : Location
place = record { function_name = "Start"; file_name = "device.cc"; line_number = 12 }

abbrev outer : WeaveEntry
outer = record { code = "failed"; message = "Start failed"; location = place }

abbrev cause : WeaveEntry
cause = record { code = "timeout"; message = "No answer"; location = place }

abbrev failure : Chain WeaveEntry
failure = with_inner outer (single cause)

abbrev earlier : Chain BrilloEntry
earlier = single (brillo_entry cause)

convert_error_lem_example :
    (entries (convert_to_brillo failure (some earlier))
      ≡ brillo_entry outer ∷ brillo_entry cause ∷ brillo_entry cause ∷ [])
    × (entries (convert_to_weave earlier none) ≡ cause ∷ [])
    × (convert_to_weave (convert_to_brillo failure none) none ≡ failure)
convert_error_lem_example = convert_error_lem failure earlier (some earlier) none
