-- ===== src/NotificationListener.antt =====
-- brillo/android/weave/IWeaveServiceManagerNotificationListener.aidl: the numbers by which the
-- manager tells its listeners what has changed.
use rockchip_android_system.Prelude.{ℕ}

abbrev pub cloud_id : ℕ
cloud_id = 1

abbrev pub device_id : ℕ
device_id = 2

abbrev pub device_name : ℕ
device_name = 3

abbrev pub device_description : ℕ
device_description = 4

abbrev pub device_location : ℕ
device_location = 5

abbrev pub oem_name : ℕ
oem_name = 6

abbrev pub model_name : ℕ
model_name = 7

abbrev pub model_id : ℕ
model_id = 8

abbrev pub pairing_session_id : ℕ
pairing_session_id = 9

abbrev pub pairing_mode : ℕ
pairing_mode = 10

abbrev pub pairing_code : ℕ
pairing_code = 11

abbrev pub traits : ℕ
traits = 12

abbrev pub components : ℕ
components = 13

abbrev pub state : ℕ
state = 14
