-- ===== src/BuffetConfig/Stored.antt =====
-- buffet/buffet_config.cc: what is saved is loaded again, and what a damaged file leads to.
use rockchip_android_system.Prelude.{
  ℕ, ◌≡◌, ◌↔◌, true, none, some, [], String, arith, Option-cases, inl, inr,
}
use rockchip_android_system.BuffetConfig.{
  Options, Storage, create_path, save_settings, load_settings,
}

module _ ⦃st : Storage⦄ where
  -- What FileIO and Encryptor promise: a written file reads back, and what was encrypted decrypts.
  pub record Honest : Type 0 where
    pub reads_back :
        (p : st.FilePath) (b : st.Blob) (fs : st.Files)
        → (st.write p b fs).1 ≡ true
        → st.read p (st.write p b fs).0 ≡ some b
    pub decrypts_back : (s : String) (b : st.Blob) → st.encrypt s ≡ some b → st.decrypt b ≡ some s

  -- Where a file that was written reads back, and what was encrypted decrypts to the same text
  -- (Honest), settings that SaveSettings has saved without an error, in the file of any name, are
  -- what LoadSettings gives for that name, and the load changes no file.
  pub load_settings-save_settings :
      (o : Options st.FilePath) (name settings : String) (k : ℕ) (fs : st.Files)
      → Honest
      → (save_settings o name settings (some k) fs).posted ≡ some (k, [])
      → load_settings o name (save_settings o name settings (some k) fs).files
        ≡ ((save_settings o name settings (some k) fs).files, settings)
  unfolding save_settings load_settings
  load_settings-save_settings o name settings k fs h e = elim (Option-cases (st.encrypt settings)) [
    | inl off ↦ ground arith
    | inr (b, there) ↦
        ground (arith, h.reads_back (create_path o name) b fs, h.decrypts_back settings b)
  ]

  -- SaveSettings posts its callback without an error exactly when the settings were encrypted and
  -- the file of the name was written with the result.
  pub save_settings-reports :
      (o : Options st.FilePath) (name settings : String) (k : ℕ) (fs : st.Files)
      → ((save_settings o name settings (some k) fs).posted ≡ some (k, [])) ↔ (
          (b : st.Blob) × (st.encrypt settings ≡ some b)
          × ((st.write (create_path o name) b fs).1 ≡ true))
  unfolding save_settings
  save_settings-reports o name settings k fs = (forth, λ r. ground arith)
    where
      forth :
          (save_settings o name settings (some k) fs).posted ≡ some (k, [])
          → (b : st.Blob) × (st.encrypt settings ≡ some b)
            × ((st.write (create_path o name) b fs).1 ≡ true)
      forth e = elim (Option-cases (st.encrypt settings)) [
        | inl off ↦ ground arith
        | inr (b, there) ↦ (b, there, ground arith)
      ]

  -- Where a file that was written reads back, and what was encrypted decrypts to the same text
  -- (Honest): if the file of a name can be read but not decrypted, loading that name gives the
  -- empty settings, and, if the name itself encrypts and the main settings file can be written
  -- with the result, the next LoadSettings with no name gives the name.
  pub load_settings-overwrites_main :
      (o : Options st.FilePath) (name : String) (damaged b : st.Blob) (fs : st.Files)
      → Honest
      → st.read (create_path o name) fs ≡ some damaged
      → st.decrypt damaged ≡ none
      → st.encrypt name ≡ some b
      → (st.write o.settings b fs).1 ≡ true
      → ((load_settings o name fs).1 ≡ "")
        × ((load_settings o "" (load_settings o name fs).0).1 ≡ name)
  unfolding load_settings
  load_settings-overwrites_main o name damaged b fs h r d e w =
      (ground arith, ground (arith, h.reads_back o.settings b fs, h.decrypts_back name b))
