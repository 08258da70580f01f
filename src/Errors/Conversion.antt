-- ===== src/Errors/Conversion.antt =====
-- buffet/weave_error_conversion.h: a conversion keeps every error of the chain, in its order.
use rockchip_android_system.Prelude.{◌≡◌, refl, ap, Option, none, some, List, [], ◌∷◌, ◌++◌, map}
use rockchip_android_system.Errors.{
  WeaveEntry, BrilloEntry, Chain, single, with_inner, brillo_entry, weave_entry, convert_to_brillo,
  convert_to_weave,
}

-- The errors of a chain, the outermost first.
abbrev pub entries : {E : Type 0} → Chain E → List E
entries (single e) = e ∷ []
entries (with_inner e inner) = e ∷ entries inner

abbrev pub entries_of : {E : Type 0} → Option (Chain E) → List E
entries_of none = []
entries_of (some c) = entries c

entries-convert_to_brillo :
    (c : Chain WeaveEntry) (d : Option (Chain BrilloEntry))
    → entries (convert_to_brillo c d) ≡ map brillo_entry (entries c) ++ entries_of d
unfolding convert_to_brillo
entries-convert_to_brillo (single e) none = refl
entries-convert_to_brillo (single e) (some d) = refl
entries-convert_to_brillo (with_inner e inner) d =
    ap (λ es. brillo_entry e ∷ es) (entries-convert_to_brillo inner d)

pub entries-convert_to_weave :
    (c : Chain BrilloEntry) (d : Option (Chain WeaveEntry))
    → entries (convert_to_weave c d) ≡ map weave_entry (entries c) ++ entries_of d
unfolding convert_to_weave
entries-convert_to_weave (single e) none = refl
entries-convert_to_weave (single e) (some d) = refl
entries-convert_to_weave (with_inner e inner) d =
    ap (λ es. weave_entry e ∷ es) (entries-convert_to_weave inner d)

roundtrip : (c : Chain WeaveEntry) → convert_to_weave (convert_to_brillo c none) none ≡ c
unfolding convert_to_weave convert_to_brillo
roundtrip (single e) = refl
roundtrip (with_inner e inner) = ap (with_inner e) (roundtrip inner)

-- ConvertError, in either direction, puts all errors of the source, the outermost first, each with
-- its code, message and place, in front of those that the destination has; and an error of libweave
-- that is converted to brillo, and from there back, is the same error.
pub convert_error_lem :
    (c : Chain WeaveEntry) (b : Chain BrilloEntry) (d : Option (Chain BrilloEntry))
    (v : Option (Chain WeaveEntry))
    → (entries (convert_to_brillo c d) ≡ map brillo_entry (entries c) ++ entries_of d)
      × (entries (convert_to_weave b v) ≡ map weave_entry (entries b) ++ entries_of v)
      × (convert_to_weave (convert_to_brillo c none) none ≡ c)
convert_error_lem c b d v =
    (entries-convert_to_brillo c d, entries-convert_to_weave b v, roundtrip c)
