-- ===== src/Manager/Interface.antt =====
-- buffet/manager.cc: the manager as the object behind IWeaveServiceManager.
use mathlib.Core.Option
use rockchip_android_system.Prelude.{ℕ, some, String}
use rockchip_android_system.Strings.{BinderStrings}
use rockchip_android_system.Status.{returned}
use rockchip_android_system.ServiceManager.{IWeaveServiceManager}
use rockchip_android_system.Manager.{
  Manager, cloud_id, device_id, device_name, device_description, device_location, oem_name,
  model_name, model_id, pairing_session_id, pairing_mode, pairing_code, get_value, get_state,
  get_from_device,
}
use rockchip_android_system.Manager.Clients.{connect, register_notification_listener}

-- `traits` and `components` are the texts of a device's JSON.
unfoldable pub weave_service_manager :
    ⦃strings : BinderStrings⦄ → (ℕ → String) → (ℕ → String) → IWeaveServiceManager Manager
unfolding get_value get_state get_from_device connect register_notification_listener
weave_service_manager traits components = record {
  connect = connect;
  register_notification_listener = λ l m. some (register_notification_listener l m);
  get_cloud_id = λ m. returned (get_value cloud_id m);
  get_device_id = λ m. returned (get_value device_id m);
  get_device_name = λ m. returned (get_value device_name m);
  get_device_description = λ m. returned (get_value device_description m);
  get_device_location = λ m. returned (get_value device_location m);
  get_oem_name = λ m. returned (get_value oem_name m);
  get_model_name = λ m. returned (get_value model_name m);
  get_model_id = λ m. returned (get_value model_id m);
  get_pairing_session_id = λ m. returned (get_value pairing_session_id m);
  get_pairing_mode = λ m. returned (get_value pairing_mode m);
  get_pairing_code = λ m. returned (get_value pairing_code m);
  get_state = λ m. returned (get_state m);
  get_traits = λ m. Option.map returned (get_from_device traits m);
  get_components = λ m. Option.map returned (get_from_device components m);
}
