-- ===== src/BuffetConfig.antt =====
-- buffet/buffet_config.h and buffet_config.cc: defaults and settings of the daemon, in files.
pub mod Defaults
pub mod Backends
pub mod Stored
pub mod Refined
pub mod Overrides
pub mod UnitTests
pub mod Tests
use Prim.Native.String.{◌++◌ as append}
use mathlib.Core.Option
use rockchip_android_system.Prelude.{
  ℕ, Bool, true, false, Option, none, some, List, [], ◌∷◌, ◌++◌, String, is_empty, if◌then◌else◌,
}

-- BuffetConfig::Options, with `FilePath` for base::FilePath.
pub record Options (FilePath : Type 0) : Type 0 where
  pub client_id : String
  pub client_secret : String
  pub api_key : String
  pub oauth_url : String
  pub service_url : String
  pub defaults : FilePath
  pub settings : FilePath
  pub definitions : FilePath
  pub test_definitions : FilePath
  pub test_privet_ssid : String

-- BuffetConfig::FileIO over the file system `Files`, the encryptor that the class is given, and the
-- path with a name put before the extension. `read` and `decrypt` give `none` where the method
-- returns false, `encrypt` too.
pub record Storage : Type 1 where
  pub FilePath : Type 0
  pub Files : Type 0
  pub Blob : Type 0
  pub no_blob : Blob
  pub read : FilePath → Files → Option Blob
  pub write : FilePath → Blob → Files → Files × Bool
  pub encrypt : String → Option Blob
  pub decrypt : Blob → Option String
  pub insert_before_extension : FilePath → String → FilePath

-- The errors that SaveSettings collects, the last one first.
pub data SaveError : Type 0 where
  failed_to_encrypt failed_to_write : SaveError

-- The callback that SaveSettings is given, if it is not null, is posted with the errors.
pub record Saved (Files : Type 0) : Type 0 where
  pub files : Files
  pub posted : Option (ℕ × List SaveError)

module _ ⦃st : Storage⦄ where
  open st use {
    FilePath, Files, Blob, no_blob, read, write, encrypt, decrypt, insert_before_extension,
  }

  -- BuffetConfig::CreatePath.
  unfoldable pub create_path : Options FilePath → String → FilePath
  create_path o name =
      if is_empty name then o.settings else insert_before_extension o.settings (append "." name)

  -- The second half of SaveSettings: the write, and the task with the errors.
  unfoldable pub write_settings : FilePath → Blob → List SaveError → Option ℕ → Files → Saved Files
  write_settings path blob errors callback fs =
      let (fs', ok) = write path blob fs in
      let errors' : List SaveError = if ok then errors else failed_to_write ∷ errors in
      record { files = fs'; posted = Option.map (λ k. (k, errors')) callback }

  -- BuffetConfig::SaveSettings.
  unfoldable pub save_settings : Options FilePath → String → String → Option ℕ → Files → Saved Files
  unfolding write_settings create_path
  save_settings o name settings callback fs = elim (encrypt settings) [
    | none ↦ write_settings (create_path o name) no_blob (failed_to_encrypt ∷ []) callback fs
    | some blob ↦ write_settings (create_path o name) blob [] callback fs
  ]

  -- BuffetConfig::LoadSettings: the files afterwards and the settings. Where the text cannot be
  -- decrypted the code calls SaveSettings with an empty name and with `name` for the settings.
  unfoldable pub load_settings : Options FilePath → String → Files → Files × String
  unfolding save_settings create_path
  load_settings o name fs = elim (read (create_path o name) fs) [
    | none ↦ (fs, "")
    | some blob ↦ elim (decrypt blob) [
      | none ↦ ((save_settings o "" name none fs).files, "")
      | some settings ↦ (fs, settings)
    ]
  ]
