-- ===== src/Config/Files/Saved.antt =====
-- A configuration that is saved and loaded again (internal/config/load.go).
use talka.Prelude.{
  ◌≡◌, refl, ◌⊎◌, Bool, true, false, none, List, [], ◌∷◌, ◌++◌, ok, arith, inl, inr, Bool-cases,
  List-cases, Option-cases, Result-cases, if◌then◌else◌,
}
use talka.Prelude.Bytes.{Bytes, codes, bytes_eq, is_empty}
use talka.Prelude.Paths.{dir}
use talka.Config.{
  located, Config, Issue, Stat, AsrConfig, SherpaOnnxConfig, default, must_exist, validate_path,
  validate_sherpa_onnx, validate_provider, validate, model_type_of, is_blank,
  normalize_asr_provider, validate_asr, validate_llm,
}
use talka.Config.Files.{Files, load, load_file, save, write_config}

-- What the file system and YAML are documented to do: a directory or a file that is made takes none
-- away, a file that is written is read back, and so is the
-- configuration `c`.
pub record FilesLaws {W E : Type 0} (files : Files W E) (c : Config) : Type 0 where
  pub mkdir_keeps :
      (d p : Bytes) (w : W)
      → files.stat w p ≡ Stat.found
      → files.stat (files.mkdir_all d w).0 p ≡ Stat.found
  pub write_keeps :
      (q text p : Bytes) (w : W)
      → files.stat w p ≡ Stat.found
      → files.stat (files.write_file q text w).0 p ≡ Stat.found
  pub reads_back :
      (q text : Bytes) (w : W)
      → (files.write_file q text w).1 ≡ none
      → files.read_file (files.write_file q text w).0 q ≡ ok text
  pub decodes_back : (text : Bytes) → files.encode c ≡ ok text → files.decode text default ≡ ok c

-- `ys` is empty if `xs` is.
abbrev Clears : List Issue → List Issue → Type 0
Clears xs ys = xs ≡ [] → ys ≡ []

Clears-append :
    (xs xs' ys ys' : List Issue) → Clears xs xs' → Clears ys ys' → Clears (xs ++ ys) (xs' ++ ys')
Clears-append [] xs' ys ys' f g h = ground (arith, f refl, g h)
Clears-append (x ∷ xs) xs' ys ys' f g h = absurd (ground (arith, h))

-- The same issues behind, or in front.
Clears-before : (xs xs' ys : List Issue) → Clears xs xs' → Clears (xs ++ ys) (xs' ++ ys)
Clears-before xs xs' ys f = Clears-append xs xs' ys ys f (λ h. h)

Clears-after : (xs ys ys' : List Issue) → Clears ys ys' → Clears (xs ++ ys) (xs ++ ys')
Clears-after xs ys ys' g = Clears-append xs xs ys ys' (λ h. h) g

Stat-cases :
    (s : Stat) → (s ≡ Stat.found) ⊎ ((s ≡ Stat.missing) ⊎ ((t : Bytes) × (s ≡ Stat.inaccessible t)))
Stat-cases Stat.found = inl refl
Stat-cases Stat.missing = inr (inl refl)
Stat-cases (Stat.inaccessible t) = inr (inr (t, refl))

module _ (unicode : Bytes → Bytes) (before after : Bytes → Stat)
    (keeps : (p : Bytes) → before p ≡ Stat.found → after p ≡ Stat.found) where
  must_exist_keeps :
      (base value : Bytes)
      → must_exist unicode before base value ≡ none
      → must_exist unicode after base value ≡ none
  unfolding must_exist
  must_exist_keeps base value h =
      let p = located unicode before base value in
      elim (Stat-cases (before p)) [
        | inl q ↦ ground (arith, keeps p q)
        | inr (inl q) ↦ absurd (ground (arith, q, h))
        | inr (inr (t, q)) ↦ absurd (ground (arith, q, h))
      ]

  validate_path-Clears :
      (base field value : Bytes)
      → Clears
          (validate_path unicode before base field value)
          (validate_path unicode after base field value)
  unfolding validate_path
  validate_path-Clears base field value h = elim (Bool-cases (is_blank value)) [
    | inl q ↦ ground (arith, q, h)
    | inr q ↦ elim (Option-cases (must_exist unicode before base value)) [
      | inl k ↦ ground (arith, q, must_exist_keeps base value k)
      | inr (text, k) ↦ absurd (ground (arith, q, k, h))
    ]
  ]

  joiner-Clears :
      (base : Bytes) (c : SherpaOnnxConfig) (needed : Bool)
      → Clears
          (if needed
            then validate_path unicode before base
                (codes "asr.sherpa_onnx.joiner_path")
                c.joiner_path
            else [])
          (if needed
            then validate_path unicode after base
                (codes "asr.sherpa_onnx.joiner_path")
                c.joiner_path
            else [])
  joiner-Clears base c true =
      validate_path-Clears base (codes "asr.sherpa_onnx.joiner_path") c.joiner_path
  joiner-Clears base c false = λ h. refl

  validate_sherpa_onnx-Clears :
      (base : Bytes) (c : SherpaOnnxConfig)
      → Clears
          (validate_sherpa_onnx unicode before base c)
          (validate_sherpa_onnx unicode after base c)
  unfolding validate_sherpa_onnx
  validate_sherpa_onnx-Clears base c = Clears-before _ _ _ (
      Clears-before _ _ _ (
        Clears-before _ _ _ (
          Clears-before _ _ _ (
            Clears-append _ _ _ _
              (Clears-append _ _ _ _
                (Clears-append _ _ _ _
                  (Clears-after _ _ _
                    (validate_path-Clears base (codes "asr.sherpa_onnx.tokens_path") c.tokens_path))
                  (validate_path-Clears base (codes "asr.sherpa_onnx.encoder_path") c.encoder_path))
                (validate_path-Clears base (codes "asr.sherpa_onnx.decoder_path") c.decoder_path))
              (joiner-Clears base c (bytes_eq (model_type_of c) (codes "transducer")))))))

  provider-Clears :
      (base : Bytes) (c : AsrConfig)
      → Clears (validate_provider unicode before base c) (validate_provider unicode after base c)
  unfolding validate_provider
  provider-Clears base c h =
      elim (Bool-cases (bytes_eq (normalize_asr_provider unicode c.provider) (codes "onnx"))) [
        | inl q ↦
            ground (arith, q, validate_sherpa_onnx-Clears base c.sherpa_onnx (ground (arith, q, h)))
        | inr q ↦ ground (arith, q, h)
      ]

  validate-Clears :
      (c : Config) (base : Bytes)
      → Clears (validate unicode before c base) (validate unicode after c base)
  unfolding validate validate_asr validate_llm
  validate-Clears c base =
      Clears-before _ _ _ (
        Clears-before _ _ _ (Clears-before _ _ _ (Clears-after _ _ _ (provider-Clears base c.asr))))

-- With files and YAML that behave as documented, a configuration that is saved without an error,
-- under a path that is not empty, is loaded as it was saved.
pub load-save :
    {W E : Type 0} (unicode : Bytes → Bytes) (files : Files W E) (path : Bytes) (c : Config)
    (laws : FilesLaws files c) (w : W)
    → is_empty path ≡ false
    → (save unicode files path c w).1 ≡ none
    → load unicode files path (save unicode files path c w).0 ≡ ok c
unfolding save write_config load load_file
load-save unicode files path c laws w named saved =
    elim (List-cases (validate unicode (files.stat w) c (dir path))) [
      | inr (x, rest, q) ↦ absurd (ground (arith, q, saved))
      | inl q ↦
          let made = files.mkdir_all (dir path) w in
          elim (Option-cases made.1) [
            | inr (e, k) ↦ absurd (ground (arith, q, k, saved))
            | inl k ↦ elim (Result-cases (files.encode c)) [
              | inl (e, t) ↦ absurd (ground (arith, q, k, t, saved))
              | inr (text, t) ↦
                  let written = files.write_file path text made.0 in
                  elim (Option-cases written.1) [
                    | inr (e, o) ↦ absurd (ground (arith, q, k, t, o, saved))
                    | inl o ↦
                        let still =
                          validate-Clears unicode (files.stat w) (files.stat written.0)
                            (λ p there.
                              laws.write_keeps path text p made.0
                                (laws.mkdir_keeps (dir path) p w there))
                            c (dir path) q in
                        ground (
                          arith,
                          named,
                          q,
                          k,
                          t,
                          o,
                          still,
                          laws.reads_back path text made.0 o,
                          laws.decodes_back text t,
                        )
                  ]
            ]
          ]
    ]
