-- ===== src/Strings.antt =====
-- common/binder_utils.h: ToString and ToString16, between std::string and the text of binder, which
-- android::String8 and android::String16 implement.
use rockchip_android_system.Prelude.{String, ◌≡◌}

pub record BinderStrings : Type 1 where
  pub String16 : Type 0
  pub to_string : String16 → String
  pub to_string16 : String → String16

-- What the program relies on for a text: it comes through binder unchanged.
abbrev pub Survives : ⦃strings : BinderStrings⦄ → String → Type 0
Survives ⦃strings⦄ s = strings.to_string (strings.to_string16 s) ≡ s
