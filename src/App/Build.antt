-- ===== src/App/Build.antt =====
-- internal/app/production_pipeline.go: the pipeline that a configuration asks for. The recogniser of
-- internal/asr/sherpa_onnx.go and the drivers of the system are parameters.
use talka.Prelude.{
  ◌≡◌, refl, Bool, true, false, not, ◌↔◌, List, [], ◌∷◌, ◌++◌, Result, ok, err, ◌>>=◌, arith, inl,
  inr, Bool-cases, Result-cases, if◌then◌else◌,
}
use talka.Prelude.Int.{ℤ}
use talka.Prelude.Bytes.{Bytes, codes, bytes_eq}
use talka.Prelude.Text.{trim_space, to_lower}
use talka.Prelude.Paths.{is_abs, join_paths, dir, base}
use talka.Config.{
  Config, AsrConfig, LlmConfig, InjectionConfig, SherpaOnnxConfig, Issue, Stat,
  normalize_asr_provider, validate, validate_provider, is_blank,
}
use talka.Llm.{OllamaProvider, new_ollama_provider}

pub data Error : Type 0 where
  unsupported_asr_provider unsupported_llm_provider unsupported_injection_mode : Bytes → Error
  -- The text of the error of the recogniser.
  recogniser_error : Bytes → Error

-- `resolveConfigPath` and `resolveOptionalConfigPath`.
unfoldable pub resolve_config_path : Bytes → Bytes → Bytes
resolve_config_path config_dir value = if is_abs value then value else join_paths config_dir value

unfoldable pub resolve_optional_config_path : Bytes → Bytes → Bytes
resolve_optional_config_path config_dir value =
    if is_blank value then [] else resolve_config_path config_dir value

-- `sherpaONNXModelPathForPrecision`.
unfoldable pub sherpa_onnx_model_path_for_precision : Bytes → Bytes → Bytes → Bytes
sherpa_onnx_model_path_for_precision model_type precision path =
    if not (bytes_eq (trim_space model_type) (codes "paraformer"))
    then path
    else if bytes_eq (trim_space precision) (codes "fp32")
    then (if bytes_eq (base path) (codes "encoder.int8.onnx")
        then join_paths (dir path) (codes "encoder.onnx")
        else if bytes_eq (base path) (codes "decoder.int8.onnx")
        then join_paths (dir path) (codes "decoder.onnx")
        else path)
    else if bytes_eq (base path) (codes "encoder.onnx")
    then join_paths (dir path) (codes "encoder.int8.onnx")
    else if bytes_eq (base path) (codes "decoder.onnx")
    then join_paths (dir path) (codes "decoder.int8.onnx")
    else path

-- `asr.SherpaONNXConfig`, as the app fills it in.
pub record ModelFiles : Type 0 where
  pub model_type : Bytes
  pub precision : Bytes
  pub tokens_path : Bytes
  pub encoder_path : Bytes
  pub decoder_path : Bytes
  pub joiner_path : Bytes
  pub num_threads : ℤ
  pub decoding_method : Bytes
  pub feature_dim : ℤ
  pub provider : Bytes

unfoldable pub model_files : SherpaOnnxConfig → Bytes → ModelFiles
model_files c config_dir = record {
  model_type = c.model_type;
  precision = c.precision;
  tokens_path = resolve_config_path config_dir c.tokens_path;
  encoder_path =
      sherpa_onnx_model_path_for_precision c.model_type c.precision
        (resolve_config_path config_dir c.encoder_path);
  decoder_path =
      sherpa_onnx_model_path_for_precision c.model_type c.precision
        (resolve_config_path config_dir c.decoder_path);
  joiner_path = resolve_config_path config_dir c.joiner_path;
  num_threads = c.num_threads;
  decoding_method = c.decoding_method;
  feature_dim = c.feature_dim;
  provider = c.provider;
}

abbrev pub is_ok : {E A : Type 0} → Result E A → Bool
is_ok (ok a) = true
is_ok (err e) = false

nil_left : (xs ys : List Issue) → xs ++ ys ≡ [] → xs ≡ []
nil_left [] ys h = refl
nil_left (x ∷ xs) ys h = absurd (ground (arith, h))

nil_right : (xs ys : List Issue) → xs ++ ys ≡ [] → ys ≡ []
nil_right [] ys h = h
nil_right (x ∷ xs) ys h = absurd (ground (arith, h))

-- The three parts of a pipeline: `A` is the recognisers, `I` the injectors.
pub record Parts (A I : Type 0) : Type 0 where
  pub asr : A
  pub llm : OllamaProvider
  pub injector : I

abbrev pub loaded {ℓ} : {A : Type ℓ} → Result Bytes A → Result Error A
loaded (ok a) = ok a
loaded (err text) = err (Error.recogniser_error text)

-- `recogniser` is `NewSherpaONNXProvider`, which fails with a text if the models cannot be loaded, and `injector` is `NewMacOSPasteInjector` with its
-- options' `RestoreClipboard`; `unicode` is `strings.ToLower` on what is not all ASCII.
module _ {A I : Type 0} (unicode : Bytes → Bytes) (recogniser : ModelFiles → Result Bytes A)
    (injector : Bool → I) where
  unfoldable pub new_asr_provider_from_config : AsrConfig → Bytes → Result Error A
  new_asr_provider_from_config c config_dir =
      if bytes_eq (normalize_asr_provider unicode c.provider) (codes "onnx")
      then loaded (recogniser (model_files c.sherpa_onnx config_dir))
      else err (Error.unsupported_asr_provider c.provider)

  unfoldable pub new_llm_provider_from_config : LlmConfig → Result Error OllamaProvider
  new_llm_provider_from_config c =
      if bytes_eq (to_lower unicode (trim_space c.provider)) (codes "ollama")
      then ok (
          new_ollama_provider
            (record { base_url = c.base_url; model = c.model; timeout = c.timeout_seconds }))
      else err (Error.unsupported_llm_provider c.provider)

  unfoldable pub new_text_injector_from_config : InjectionConfig → Result Error I
  new_text_injector_from_config c =
      if bytes_eq (to_lower unicode (trim_space c.mode)) (codes "clipboard_paste")
      then ok (injector c.restore_clipboard)
      else err (Error.unsupported_injection_mode c.mode)

  unfoldable pub new_pipeline_from_config : Config → Bytes → Result Error (Parts A I)
  new_pipeline_from_config c config_dir = do
    asr ← new_asr_provider_from_config c.asr config_dir
    llm ← new_llm_provider_from_config c.llm
    text_injector ← new_text_injector_from_config c.injection
    ok (record { asr = asr; llm = llm; injector = text_injector })

  -- The two settings that `Validate` leaves to the pipeline, and that the recogniser loads the models.
  abbrev pub Supported : Config → Bytes → Type 0
  Supported c config_dir =
      (is_ok (recogniser (model_files c.asr.sherpa_onnx config_dir)) ≡ true)
      × (bytes_eq (to_lower unicode (trim_space c.llm.provider)) (codes "ollama") ≡ true)
      × (bytes_eq (to_lower unicode (trim_space c.injection.mode)) (codes "clipboard_paste") ≡ true)

  provider_onnx :
      (stat : Bytes → Stat) (c : AsrConfig) (config_dir : Bytes)
      → validate_provider unicode stat config_dir c ≡ []
      → bytes_eq (normalize_asr_provider unicode c.provider) (codes "onnx") ≡ true
  unfolding validate_provider
  provider_onnx stat c config_dir h =
      elim (Bool-cases (bytes_eq (normalize_asr_provider unicode c.provider) (codes "onnx"))) [
        | inl q ↦ q
        | inr q ↦ absurd (ground (arith, q, h))
      ]

  valid_onnx :
      (stat : Bytes → Stat) (c : Config) (config_dir : Bytes)
      → validate unicode stat c config_dir ≡ []
      → bytes_eq (normalize_asr_provider unicode c.asr.provider) (codes "onnx") ≡ true
  unfolding validate
  valid_onnx stat c config_dir valid =
      provider_onnx stat c.asr config_dir
        (nil_right _ _ (nil_left _ _ (nil_left _ _ (nil_left _ _ valid))))

  -- A configuration without an issue makes a pipeline exactly if the recogniser loads its models and
  -- it asks for Ollama and for the clipboard, which `Validate` does not check.
  pub new_pipeline_from_config_iff :
      (stat : Bytes → Stat) (c : Config) (config_dir : Bytes)
      → validate unicode stat c config_dir ≡ []
      → (is_ok (new_pipeline_from_config c config_dir) ≡ true) ↔ Supported c config_dir
  unfolding new_pipeline_from_config new_asr_provider_from_config new_llm_provider_from_config
      new_text_injector_from_config validate
  new_pipeline_from_config_iff stat c config_dir valid =
      let onnx = valid_onnx stat c config_dir valid in
      elim (Result-cases (recogniser (model_files c.asr.sherpa_onnx config_dir))) [
        | inl (text, m) ↦ ground (arith, onnx, m)
        | inr (a, m) ↦
            elim (Bool-cases
              (bytes_eq (to_lower unicode (trim_space c.llm.provider)) (codes "ollama"))) [
                | inr q ↦ ground (arith, onnx, m, q)
                | inl q ↦
                    elim (Bool-cases (
                      bytes_eq (to_lower unicode (trim_space c.injection.mode))
                        (codes "clipboard_paste"))) [
                          | inr k ↦ ground (arith, onnx, m, q, k)
                          | inl k ↦ ground (arith, onnx, m, q, k)
                        ]
              ]
      ]
