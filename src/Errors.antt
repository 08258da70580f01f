-- ===== src/Errors.antt =====
-- buffet/weave_error_conversion.h: chains of errors, and the conversions between those of libweave
-- and those of brillo.
pub mod Conversion
pub mod Tests
use rockchip_android_system.Prelude.{ℕ, Option, none, some, String}

-- tracked_objects::Location, without the program counter, which is the converting function's.
pub record Location : Type 0 where
  pub function_name : String
  pub file_name : String
  pub line_number : ℕ

pub record WeaveEntry : Type 0 where
  pub code : String
  pub message : String
  pub location : Location

pub record BrilloEntry : Type 0 where
  pub domain : String
  pub code : String
  pub message : String
  pub location : Location

-- An error, which may have an inner error.
pub data Chain (E : Type 0) : Type 0 where
  single : E → Chain E
  with_inner : E → Chain E → Chain E

-- Error::AddTo on the pointer `destination`: the new error has the old one as its inner error.
abbrev pub add_to : {E : Type 0} → E → Option (Chain E) → Chain E
add_to e none = single e
add_to e (some inner) = with_inner e inner

abbrev pub brillo_entry : WeaveEntry → BrilloEntry
brillo_entry e = record {
  domain = "weave";
  code = e.code;
  message = e.message;
  location = e.location;
}

abbrev pub weave_entry : BrilloEntry → WeaveEntry
weave_entry e = record { code = e.code; message = e.message; location = e.location }

-- ConvertError from libweave to brillo: the inner error first.
unfoldable pub convert_to_brillo : Chain WeaveEntry → Option (Chain BrilloEntry) → Chain BrilloEntry
convert_to_brillo (single e) destination = add_to (brillo_entry e) destination
convert_to_brillo (with_inner e inner) destination =
    add_to (brillo_entry e) (some (convert_to_brillo inner destination))

-- ConvertError from brillo to libweave.
unfoldable pub convert_to_weave : Chain BrilloEntry → Option (Chain WeaveEntry) → Chain WeaveEntry
convert_to_weave (single e) destination = add_to (weave_entry e) destination
convert_to_weave (with_inner e inner) destination =
    add_to (weave_entry e) (some (convert_to_weave inner destination))
