-- ===== src/BuffetConfig/UnitTests/Fakes.antt =====
-- buffet/buffet_config_unittest.cc: the tests with an encryptor and files that fail.
use Prim.Native.String.{◌++◌ as append}
use rockchip_android_system.Prelude.{
  ◌≡◌, refl, Bool, true, false, not, ◌&&◌, Option, none, some, List, [], String, is_empty, ◌==◌,
  find, insert, if◌then◌else◌,
}
use rockchip_android_system.BuffetConfig.{
  Options, create_path, write_settings, save_settings, load_settings,
}
use rockchip_android_system.BuffetConfig.Backends.{
  Base64, Encryptor, FileSystem, FileIo, BuffetConfig, fake_encryptor, new_buffet_config,
  set_encryptor, set_file_io, default_file_io, storage,
}

-- The files of the tests: paths are texts, without an extension.
abbrev Contents : Type 0
Contents = List (String × String)

abbrev fake_paths : FileSystem
fake_paths = record {
  FilePath = String;
  Files = Contents;
  value = λ path. path;
  insert_before_extension = append;
  read_file_to_string = find;
  write_file_atomically = λ path content files. (insert path content files, true);
}

-- `fake_file_content_[path]`.
abbrev text_or_empty : Option String → String
text_or_empty none = ""
text_or_empty (some text) = text

abbrev content_at : String → Contents → String
content_at path files = text_or_empty (find path files)

-- BuffetConfigTestWithFakes, whose `encryptor_result_` and `io_result_` the tests set.
module _ (base64 : Base64) where
  abbrev failing_encryptor : Bool → Encryptor
  failing_encryptor encryptor_result = record {
    encrypt_with_authentication =
        λ plaintext. if encryptor_result then some (base64.encode plaintext) else none;
    decrypt_with_authentication =
        λ ciphertext. if encryptor_result then base64.decode ciphertext else none;
  }

  abbrev failing_files : Bool → FileIo ⦃fs = fake_paths⦄
  failing_files io_result = record {
    read_file = λ path files. if io_result then find path files else none;
    write_file = λ path content files.
        if io_result then (insert path content files, true) else (files, false);
  }

  abbrev test_options : Options String
  test_options = record {
    client_id = "";
    client_secret = "";
    api_key = "";
    oauth_url = "";
    service_url = "";
    defaults = "";
    settings = "settings_file";
    definitions = "";
    test_definitions = "";
    test_privet_ssid = "";
  }

  -- SetUp, with the results that the fakes give from now on.
  abbrev set_up : Bool → Bool → BuffetConfig ⦃fs = fake_paths⦄
  set_up encryptor_result io_result = set_file_io ⦃fs = fake_paths⦄ (failing_files io_result) (
      set_encryptor ⦃fs = fake_paths⦄ (failing_encryptor encryptor_result)
        (new_buffet_config ⦃fs = fake_paths⦄ (fake_encryptor base64) test_options))

  abbrev save_in : BuffetConfig ⦃fs = fake_paths⦄ → String → String → Contents → Contents
  save_in config name settings files =
      (save_settings ⦃st = storage ⦃fs = fake_paths⦄ config⦄ config.options name settings none
        files).files

  abbrev load_in : BuffetConfig ⦃fs = fake_paths⦄ → String → Contents → String
  load_in config name files =
      (load_settings ⦃st = storage ⦃fs = fake_paths⦄ config⦄ config.options name files).1

  abbrev settings_config : String
  settings_config = "settings_file.config"

  -- The tests with the fakes, each as what its assertions say.
  abbrev encryption_enabled : Bool
  encryption_enabled =
      let files = save_in (set_up true true) "config" "test" [] in
      not (content_at settings_config files == "test")
      && load_in (set_up true true) "config" files == "test"

  abbrev encryption_failure : Bool
  encryption_failure =
      let files = save_in (set_up true true) "config" "test" [] in
      not (is_empty (content_at settings_config files))
      && is_empty (content_at settings_config (save_in (set_up false true) "config" "test2" files))

  abbrev decryption_failure : Bool
  decryption_failure =
      let files = save_in (set_up true true) "config" "test" [] in
      not (is_empty (content_at settings_config files))
      && is_empty (load_in (set_up false true) "config" files)

  abbrev settings_io_failure : Bool
  settings_io_failure =
      let files = save_in (set_up true true) "config" "test" [] in
      let original = content_at settings_config files in
      not (is_empty original)
      && is_empty (load_in (set_up true false) "config" files)
      && content_at settings_config (save_in (set_up true false) "config2" "test" files) == original

-- Base64 on the texts of the tests.
abbrev test_codes : Base64
test_codes = record {
  encode =
      λ text. if text == "test" then "dGVzdA==" else if text == "test2" then "dGVzdDI=" else "";
  decode = λ code.
      if code == "dGVzdA==" then some "test" else if code == "dGVzdDI=" then some "test2" else none;
}

with_fakes :
    (encryption_enabled test_codes ≡ true)
    × (encryption_failure test_codes ≡ true)
    × (decryption_failure test_codes ≡ true)
    × (settings_io_failure test_codes ≡ true)
unfolding save_settings load_settings create_path write_settings set_file_io set_encryptor
    new_buffet_config default_file_io fake_encryptor find insert
with_fakes = (refl, refl, refl, refl)
