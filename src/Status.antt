-- ===== src/Status.antt =====
-- common/binder_utils.h and binder_utils.cc: statuses of binder calls, and the errors and
-- dictionaries made from them.
use rockchip_android_system.Prelude.{ℕ, Bool, true, false, Option, none, some, List, ◌∷◌, String}
use rockchip_android_system.Strings.{BinderStrings}

-- The exception codes of android::binder::Status that the program names, and the others.
pub data Exception : Type 0 where
  ex_none ex_security ex_bad_parcelable ex_illegal_argument ex_null_pointer ex_illegal_state :
      Exception
  ex_network_main_thread ex_unsupported_operation ex_service_specific : Exception
  ex_other : ℕ → Exception

-- android::binder::Status: the exception, the service's own error number, and the message.
pub record Status : Type 0 where
  pub exception : Exception
  pub service_error : ℕ
  pub message : String

abbrev pub is_ok : Status → Bool
is_ok s = elim s.exception [ ex_none ↦ true | _ ↦ false ]

-- Status::ok and Status::fromServiceSpecificError.
abbrev pub ok : Status
ok = record { exception = ex_none; service_error = 0; message = "" }

abbrev pub from_service_specific_error : ℕ → String → Status
from_service_specific_error n text = record {
  exception = ex_service_specific;
  service_error = n;
  message = text;
}

-- What a binder method with an output gives: the output is written only with an ok status.
pub data Reply (A : Type 0) : Type 0 where
  refused : Status → Reply A
  returned : A → Reply A

-- A weave::Error and a brillo::Error, whose code is kept as the exception that std::to_string
-- prints.
pub record WeaveError : Type 0 where
  pub code : String
  pub message : String

pub record BrilloError : Type 0 where
  pub domain : String
  pub exception : Exception
  pub message : String

-- ToStatus, with the error of a libweave call that failed, `none` if it has succeeded.
abbrev pub to_status : Option WeaveError → Status
to_status none = ok
to_status (some error) = from_service_specific_error 1 error.message

-- StatusToError: what it returns, and the chain of errors, the last one first.
abbrev pub status_to_error : Status → List BrilloError → Bool × List BrilloError
status_to_error s errors = elim (is_ok s) [
  | true ↦ (true, errors)
  | false ↦
      (false, record { domain = "binder"; exception = s.exception; message = s.message } ∷ errors)
]

-- The error that a client gets for an error of libweave: of domain `binder`, with the message.
abbrev pub reported : String → BrilloError
reported message = record { domain = "binder"; exception = ex_service_specific; message = message }

-- base::JSONReader and JSONWriter: a text is malformed, with an error number and message, or a
-- value, which may be a dictionary.
pub data Parsed (Dictionary : Type 0) : Type 0 where
  malformed : ℕ → String → Parsed Dictionary
  not_dictionary : Parsed Dictionary
  dictionary : Dictionary → Parsed Dictionary

pub record Json : Type 1 where
  pub Dictionary : Type 0
  pub empty : Dictionary
  pub read_json : String → Parsed Dictionary
  pub write_json : Dictionary → String

module _ ⦃strings : BinderStrings⦄ ⦃json : Json⦄ where
  -- ToString16 of a dictionary.
  abbrev pub dictionary_to_string16 : json.Dictionary → strings.String16
  dictionary_to_string16 d = strings.to_string16 (json.write_json d)

  -- ParseDictionary.
  unfoldable pub parse_dictionary : strings.String16 → Reply json.Dictionary
  parse_dictionary text = elim (json.read_json (strings.to_string text)) [
    | malformed error message ↦ refused (from_service_specific_error error message)
    | not_dictionary ↦ refused (from_service_specific_error 0 "")
    | dictionary d ↦ returned d
  ]
