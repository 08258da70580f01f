-- ===== src/ServiceManager.antt =====
-- brillo/android/weave/IWeaveServiceManager.aidl: the binder interface of the manager, which the
-- client library calls.
use rockchip_android_system.Prelude.{ℕ, Option}
use rockchip_android_system.Strings.{BinderStrings}
use rockchip_android_system.Status.{Reply}

-- Over the state `S` of the object behind it. `none` is the end of its process, in a failed CHECK
-- or a read through a null pointer. Clients and listeners are numbers.
pub record IWeaveServiceManager ⦃strings : BinderStrings⦄ (S : Type 0) : Type 0 where
  pub connect : ℕ → S → Option S
  pub register_notification_listener : ℕ → S → Option S
  pub get_cloud_id : S → Reply strings.String16
  pub get_device_id : S → Reply strings.String16
  pub get_device_name : S → Reply strings.String16
  pub get_device_description : S → Reply strings.String16
  pub get_device_location : S → Reply strings.String16
  pub get_oem_name : S → Reply strings.String16
  pub get_model_name : S → Reply strings.String16
  pub get_model_id : S → Reply strings.String16
  pub get_pairing_session_id : S → Reply strings.String16
  pub get_pairing_mode : S → Reply strings.String16
  pub get_pairing_code : S → Reply strings.String16
  pub get_state : S → Reply strings.String16
  pub get_traits : S → Option (Reply strings.String16)
  pub get_components : S → Option (Reply strings.String16)
