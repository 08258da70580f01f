-- ===== src/BuffetConfig/Refined.antt =====
-- buffet/buffet_config.cc: the settings in their files, as a map from names to texts.
use mathlib.Core.Option
use rockchip_android_system.Prelude.{
  ℕ, ◌≡◌, ◌≢◌, refl, sym, subst, true, Option, none, some, List, [], ◌∷◌, String, arith, ◌==◌,
  eq_iff, eq_refl, inl, inr, Bool-cases, Option-cases, if◌then◌else◌,
}
use rockchip_android_system.BuffetConfig.{
  Options, Storage, SaveError, create_path, save_settings, load_settings,
}
use rockchip_android_system.BuffetConfig.Stored.{Honest}

-- The calls that the configuration gets for its settings, and what each leads to.
pub data Call : Type 0 where
  save : String → String → Option ℕ → Call
  load : String → Call

pub data Answer : Type 0 where
  saved : Option (ℕ × List SaveError) → Answer
  loaded : String → Answer

-- What the configuration promises: a text for each name, the empty one at first, and saving sets
-- it without an error.
abbrev pub Texts : Type 0
Texts = String → String

abbrev pub set_text : String → String → Texts → Texts
set_text name text m n = if n == name then text else m n

abbrev pub promise : List Call → Texts → Texts × List Answer
promise [] m = (m, [])
promise (save name text callback ∷ calls) m =
    let (m', answers) = promise calls (set_text name text m) in
    (m', saved (Option.map (λ k. (k, [])) callback) ∷ answers)
promise (load name ∷ calls) m =
    let (m', answers) = promise calls m in (m', loaded (m name) ∷ answers)

module _ ⦃st : Storage⦄ (o : Options st.FilePath) where
  -- The calls in their order, on the files.
  unfoldable pub run : List Call → st.Files → st.Files × List Answer
  run [] fs = (fs, [])
  run (save name text callback ∷ calls) fs =
      let done = save_settings o name text callback fs in
      let (fs', answers) = run calls done.files in (fs', saved done.posted ∷ answers)
  run (load name ∷ calls) fs =
      let (fs₁, text) = load_settings o name fs in
      let (fs', answers) = run calls fs₁ in (fs', loaded text ∷ answers)

  -- A write leaves the other files as they are, and two names do not have the same path.
  pub record Separate : Type 0 where
    pub others_kept :
        (p q : st.FilePath) (b : st.Blob) (fs : st.Files)
        → q ≢ p
        → st.read q (st.write p b fs).0 ≡ st.read q fs
    pub own_path : (n m : String) → create_path o n ≡ create_path o m → n ≡ m

  -- Every text that is saved is encrypted, and the result is written.
  abbrev pub Succeeds : List Call → st.Files → Type 0
  Succeeds [] fs = Unit
  Succeeds (save name text callback ∷ calls) fs =
      (b : st.Blob) × (st.encrypt text ≡ some b)
      × ((st.write (create_path o name) b fs).1 ≡ true)
      × Succeeds calls (st.write (create_path o name) b fs).0
  Succeeds (load name ∷ calls) fs = Succeeds calls fs

  -- The content of a file, or its absence, stands for the text.
  abbrev pub Stands : Option st.Blob → String → Type 0
  Stands none text = text ≡ ""
  Stands (some b) text = st.decrypt b ≡ some text

  abbrev pub Represents : st.Files → Texts → Type 0
  Represents fs m = (name : String) → Stands (st.read (create_path o name) fs) (m name)

  written-Represents :
      (name text : String) (b : st.Blob) (fs : st.Files) (m : Texts)
      → Honest
      → Separate
      → st.encrypt text ≡ some b
      → (st.write (create_path o name) b fs).1 ≡ true
      → Represents fs m
      → Represents (st.write (create_path o name) b fs).0 (set_text name text m)
  written-Represents name text b fs m h separate encrypted ok r n = elim (Bool-cases (n == name)) [
    | inl same ↦
        subst (λ x. Stands (st.read (create_path o x) written) (set_text name text m x))
          (sym ((eq_iff n name).0 same)) own
    | inr other ↦
        let apart : create_path o n ≢ create_path o name =
          λ e. ground (arith, eq_iff n name, separate.own_path n name e, other) in
        let kept = separate.others_kept (create_path o name) (create_path o n) b fs apart in
        ground (arith, other, kept, r n)
  ]
    where
      written : st.Files
      written = (st.write (create_path o name) b fs).0

      own : Stands (st.read (create_path o name) written) (set_text name text m name)
      own = ground (
        arith,
        eq_refl name,
        h.reads_back (create_path o name) b fs ok,
        h.decrypts_back text b encrypted,
      )

  save_settings-writes :
      (name text : String) (callback : Option ℕ) (b : st.Blob) (fs : st.Files)
      → st.encrypt text ≡ some b
      → (st.write (create_path o name) b fs).1 ≡ true
      → save_settings o name text callback fs ≡ record {
        files = (st.write (create_path o name) b fs).0;
        posted = Option.map (λ k. (k, [])) callback;
      }
  unfolding save_settings
  save_settings-writes name text callback b fs encrypted ok = ground (arith, encrypted, ok)

  load_settings-reads :
      (name : String) (fs : st.Files) (m : Texts)
      → Represents fs m
      → load_settings o name fs ≡ (fs, m name)
  unfolding load_settings
  load_settings-reads name fs m r = elim (Option-cases (st.read (create_path o name) fs)) [
    | inl missing ↦ ground (arith, r name)
    | inr (b, there) ↦ ground (arith, r name)
  ]

  -- Where a file that was written reads back, what was encrypted decrypts to the same text
  -- (Honest), a write leaves other files as they are and every name has a path of its own
  -- (Separate): if the files stand for a map from names to texts, then so they do after any calls
  -- of SaveSettings and LoadSettings of which each save is encrypted and written, for the map with
  -- the texts that were saved; each save has posted its callback without an error, and each load
  -- has given the text of the name in the map as it was then.
  pub settings-refine_map :
      (calls : List Call) (fs : st.Files) (m : Texts)
      → Honest
      → Separate
      → Represents fs m
      → Succeeds calls fs
      → ((run calls fs).1 ≡ (promise calls m).1) × Represents (run calls fs).0 (promise calls m).0
  unfolding run
  settings-refine_map [] fs m h separate r all = (refl, r)
  settings-refine_map (save name text callback ∷ calls) fs m h separate r (b, e, w, all) =
      let r' = written-Represents name text b fs m h separate e w r in
      let ih =
        settings-refine_map calls (st.write (create_path o name) b fs).0 (set_text name text m) h
          separate r' all in
      rw (save_settings-writes name text callback b fs e w, ih.0) (refl, ih.1)
  settings-refine_map (load name ∷ calls) fs m h separate r all =
      let ih = settings-refine_map calls fs m h separate r all in
      rw (load_settings-reads name fs m r, ih.0) (refl, ih.1)
