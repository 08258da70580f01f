-- ===== src/BuffetConfig/Backends.antt =====
-- buffet/buffet_config.h and buffet_config.cc, buffet/encryptor.h, keystore_encryptor.h,
-- keystore_encryptor.cc and fake_encryptor.cc: the encryptor and the files that the configuration
-- is given.
use Prim.Native.String.{◌++◌ as append}
use rockchip_android_system.Prelude.{Bool, Option, none, some, String}
use rockchip_android_system.Errors.{Chain, BrilloEntry, Location, add_to}
use rockchip_android_system.BuffetConfig.{Options, Storage, load_settings}

-- Encryptor: `none` where a method returns false.
pub record Encryptor : Type 0 where
  pub encrypt_with_authentication : String → Option String
  pub decrypt_with_authentication : String → Option String

-- keystore::KeystoreClient, whose methods take the name of the key first.
pub record KeystoreClient : Type 0 where
  pub encrypt_with_authentication : String → String → Option String
  pub decrypt_with_authentication : String → String → Option String

abbrev pub buffet_key_name : String
buffet_key_name = "buffet_config_b4f594c3"

-- KeystoreEncryptor, which Encryptor::CreateDefaultEncryptor makes of a client of the keystore.
unfoldable pub keystore_encryptor : KeystoreClient → Encryptor
keystore_encryptor keystore = record {
  encrypt_with_authentication = keystore.encrypt_with_authentication buffet_key_name;
  decrypt_with_authentication = keystore.decrypt_with_authentication buffet_key_name;
}

-- brillo::data_encoding, of which the program uses Base64Encode and Base64Decode.
pub record Base64 : Type 0 where
  pub encode : String → String
  pub decode : String → Option String

-- FakeEncryptor, which Encryptor::CreateDefaultEncryptor makes where there is no keystore.
unfoldable pub fake_encryptor : Base64 → Encryptor
fake_encryptor base64 = record {
  encrypt_with_authentication = λ plaintext. some (base64.encode plaintext);
  decrypt_with_authentication = base64.decode;
}

-- base::FilePath and the files behind it: ReadFileToString,
-- ImportantFileWriter::WriteFileAtomically, FilePath::value and FilePath::InsertBeforeExtension.
pub record FileSystem : Type 1 where
  pub FilePath : Type 0
  pub Files : Type 0
  pub value : FilePath → String
  pub insert_before_extension : FilePath → String → FilePath
  pub read_file_to_string : FilePath → Files → Option String
  pub write_file_atomically : FilePath → String → Files → Files × Bool

module _ ⦃fs : FileSystem⦄ where
  open fs use {FilePath, Files}

  -- BuffetConfig::FileIO.
  pub record FileIo : Type 0 where
    pub read_file : FilePath → Files → Option String
    pub write_file : FilePath → String → Files → Files × Bool

  -- DefaultFileIO.
  unfoldable pub default_file_io : FileIo
  default_file_io = record {
    read_file = fs.read_file_to_string;
    write_file = fs.write_file_atomically;
  }

  -- BuffetConfig. The encryptor and the files that the object owns by default are those that
  -- the constructor sets.
  pub record BuffetConfig : Type 0 where
    pub options : Options FilePath
    pub encryptor : Encryptor
    pub file_io : FileIo

  -- The constructor, with what CreateDefaultEncryptor gives.
  unfoldable pub new_buffet_config : Encryptor → Options FilePath → BuffetConfig
  unfolding default_file_io
  new_buffet_config default_encryptor options = record {
    options = options;
    encryptor = default_encryptor;
    file_io = default_file_io;
  }

  -- SetEncryptor and SetFileIO.
  unfoldable pub set_encryptor : Encryptor → BuffetConfig → BuffetConfig
  set_encryptor encryptor config = record config { encryptor = encryptor }

  unfoldable pub set_file_io : FileIo → BuffetConfig → BuffetConfig
  set_file_io file_io config = record config { file_io = file_io }

  -- What the operations of the configuration use: its encryptor and its files. The settings are
  -- cleared to the empty text where they are not encrypted.
  abbrev pub storage : BuffetConfig → Storage
  storage config = record {
    FilePath = FilePath;
    Files = Files;
    Blob = String;
    no_blob = "";
    read = config.file_io.read_file;
    write = config.file_io.write_file;
    encrypt = config.encryptor.encrypt_with_authentication;
    decrypt = config.encryptor.decrypt_with_authentication;
    insert_before_extension = fs.insert_before_extension;
  }

  -- LoadSettings without a name.
  unfoldable pub load_main_settings : BuffetConfig → Files → Files × String
  load_main_settings config files = load_settings ⦃st = storage config⦄ config.options "" files

  -- LoadFile: the content, or the chain `error` with two errors in front, of which the first is
  -- `system_error`, the one that AddSystemError makes of errno.
  unfoldable pub load_file :
      BuffetConfig
      → BrilloEntry
      → Location
      → FilePath
      → Option (Chain BrilloEntry)
      → Files
      → Option String × Option (Chain BrilloEntry)
  load_file config system_error location file_path error files =
      elim (config.file_io.read_file file_path files) [
        | none ↦
            let file_error : BrilloEntry = record {
              domain = "buffet";
              code = "file_read_error";
              message = append (append "Failed to read file '" (fs.value file_path)) "'";
              location = location;
            } in
            (none, some (add_to file_error (some (add_to system_error error))))
        | some content ↦ (some content, error)
      ]
