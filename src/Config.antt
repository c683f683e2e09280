-- ===== src/Config.antt =====
-- internal/config: the configuration, its defaults, its validation, and how it is loaded and saved.
-- The file system and YAML are parameters.
pub mod Files
use talka.Prelude.{
  ℕ, Bool, true, false, not, ◌&&◌, ◌||◌, Option, none, some, List, [], ◌∷◌, ◌++◌, Result, ok, err,
  if◌then◌else◌,
}
use talka.Prelude.Int.{ℤ, pos, is_positive, ◌==ℤ◌}
use talka.Prelude.Bytes.{Bytes, codes, is_empty, bytes_eq}
use talka.Prelude.Text.{trim_space, to_lower}
use talka.Prelude.Paths.{is_abs, join_paths, dir, decimal}

pub record ServerConfig : Type 0 where
  pub bind_host : Bytes
  pub port : ℤ
  pub service_name : Bytes

pub record SherpaOnnxConfig : Type 0 where
  pub model_profile : Bytes
  pub model_type : Bytes
  pub precision : Bytes
  pub tokens_path : Bytes
  pub encoder_path : Bytes
  pub decoder_path : Bytes
  pub joiner_path : Bytes
  pub num_threads : ℤ
  pub decoding_method : Bytes
  pub feature_dim : ℤ
  pub provider : Bytes

pub record AsrConfig : Type 0 where
  pub provider : Bytes
  pub host : Bytes
  pub port : ℤ
  pub mode : Bytes
  pub sample_rate : ℤ
  pub startup_timeout : ℤ
  pub sherpa_onnx : SherpaOnnxConfig

pub record LlmConfig : Type 0 where
  pub provider : Bytes
  pub base_url : Bytes
  pub model : Bytes
  pub timeout_seconds : ℤ

pub record InjectionConfig : Type 0 where
  pub mode : Bytes
  pub restore_clipboard : Bool

pub record LoggingConfig : Type 0 where
  pub level : Bytes
  pub capture_audio : Bool
  pub capture_transcript : Bool

pub record Config : Type 0 where
  pub server : ServerConfig
  pub asr : AsrConfig
  pub llm : LlmConfig
  pub injection : InjectionConfig
  pub logging : LoggingConfig

unfoldable pub default_path : Bytes → Bytes
default_path home = join_paths home (codes "Library/Application Support/Talka/config.yaml")

abbrev pub default : Config
default = record {
  server = record { bind_host = codes "0.0.0.0"; port = pos 0; service_name = codes "Talka" };
  asr = record {
    provider = codes "onnx";
    host = codes "127.0.0.1";
    port = pos 10095;
    mode = codes "streaming";
    sample_rate = pos 16000;
    startup_timeout = pos 180;
    sherpa_onnx = record {
      model_profile = codes "paraformer-bilingual";
      model_type = codes "paraformer";
      precision = codes "int8";
      tokens_path = codes "models/sherpa-onnx/streaming-paraformer-bilingual-zh-en/tokens.txt";
      encoder_path =
          codes "models/sherpa-onnx/streaming-paraformer-bilingual-zh-en/encoder.int8.onnx";
      decoder_path =
          codes "models/sherpa-onnx/streaming-paraformer-bilingual-zh-en/decoder.int8.onnx";
      joiner_path = [];
      num_threads = pos 2;
      decoding_method = codes "greedy_search";
      feature_dim = pos 80;
      provider = codes "cpu";
    };
  };
  llm = record {
    provider = codes "ollama";
    base_url = codes "http://localhost:11434";
    model = codes "qwen3:8b";
    timeout_seconds = pos 30;
  };
  injection = record { mode = codes "clipboard_paste"; restore_clipboard = true };
  logging = record { level = codes "info"; capture_audio = false; capture_transcript = false };
}

pub record Issue : Type 0 where
  pub field : Bytes
  pub value : Bytes
  pub problem : Bytes

-- `appendIssue`, unless the test holds.
abbrev pub unless : Bool → Bytes → Bytes → Bytes → List Issue
unless passed field value problem =
    if passed then [] else record { field = field; value = value; problem = problem } ∷ []

abbrev pub is_blank : Bytes → Bool
is_blank s = is_empty (trim_space s)

abbrev pub not_blank : Bytes → Bytes → List Issue
not_blank field value = unless (not (is_blank value)) field value (codes "must not be empty")

abbrev pub above_zero : Bytes → ℤ → List Issue
above_zero field n = unless (is_positive n) field (decimal n) (codes "must be greater than zero")

-- `normalizeASRProvider`, which the app has too.
unfoldable pub normalize_asr_provider : (Bytes → Bytes) → Bytes → Bytes
normalize_asr_provider unicode provider =
    let name = to_lower unicode (trim_space provider) in
    if is_empty name
    then codes "onnx"
    else if bytes_eq name (codes "onnx")
        || bytes_eq name (codes "sherpa")
        || bytes_eq name (codes "sherpa_onnx_streaming")
    then codes "onnx"
    else name

unfoldable pub model_type_of : SherpaOnnxConfig → Bytes
model_type_of c =
    if not (is_empty (trim_space c.model_type))
    then trim_space c.model_type
    else if is_blank c.joiner_path
    then codes "paraformer"
    else codes "transducer"

-- What `os.Stat` says of a path: nothing, that it is missing, or another error.
pub data Stat : Type 0 where
  found missing : Stat
  inaccessible : Bytes → Stat

abbrev precision_known : Bytes → Bool
precision_known precision =
    is_empty precision || bytes_eq precision (codes "int8") || bytes_eq precision (codes "fp32")

abbrev level_known : Bytes → Bool
level_known level =
    bytes_eq level (codes "debug")
    || bytes_eq level (codes "info")
    || bytes_eq level (codes "warn")
    || bytes_eq level (codes "error")

-- `unicode` is `strings.ToLower` on what is not all ASCII.
module _ (unicode : Bytes → Bytes) (stat : Bytes → Stat) where
  abbrev located : Bytes → Bytes → Bytes
  located base_dir value = if is_abs value then value else join_paths base_dir value

  -- `mustExist`: the text of its error.
  unfoldable pub must_exist : Bytes → Bytes → Option Bytes
  must_exist base_dir value = elim (stat (located base_dir value)) [
    | Stat.found ↦ none
    | Stat.missing ↦ some (codes "must exist at " ++ located base_dir value)
    | Stat.inaccessible text ↦
        some (codes "cannot access " ++ located base_dir value ++ codes ": " ++ text)
  ]

  -- `validatePath`.
  unfoldable pub validate_path : Bytes → Bytes → Bytes → List Issue
  validate_path base_dir field value = elim (is_blank value) [
    | true ↦ unless false field value (codes "must not be empty")
    | false ↦ elim (must_exist base_dir value) [
      | none ↦ []
      | some problem ↦ unless false field value problem
    ]
  ]

  -- The case of the switch for "onnx". The assignments of `ModelProfile` and `Precision` change a
  -- copy of the configuration and are not read again.
  unfoldable pub validate_sherpa_onnx : Bytes → SherpaOnnxConfig → List Issue
  validate_sherpa_onnx base_dir c =
      let model_type = model_type_of c in
      unless (bytes_eq model_type (codes "transducer") || bytes_eq model_type (codes "paraformer"))
        (codes "asr.sherpa_onnx.model_type") c.model_type
        (codes "must be one of transducer, paraformer")
      ++ unless (precision_known (trim_space c.precision)) (codes "asr.sherpa_onnx.precision")
          c.precision (codes "must be one of int8, fp32")
      ++ validate_path base_dir (codes "asr.sherpa_onnx.tokens_path") c.tokens_path
      ++ validate_path base_dir (codes "asr.sherpa_onnx.encoder_path") c.encoder_path
      ++ validate_path base_dir (codes "asr.sherpa_onnx.decoder_path") c.decoder_path
      ++ (if bytes_eq model_type (codes "transducer")
          then validate_path base_dir (codes "asr.sherpa_onnx.joiner_path") c.joiner_path
          else [])
      ++ above_zero (codes "asr.sherpa_onnx.num_threads") c.num_threads
      ++ not_blank (codes "asr.sherpa_onnx.decoding_method") c.decoding_method
      ++ above_zero (codes "asr.sherpa_onnx.feature_dim") c.feature_dim
      ++ not_blank (codes "asr.sherpa_onnx.provider") c.provider

  unfoldable pub validate_asr : AsrConfig → List Issue
  validate_asr c =
      unless (not (is_empty (normalize_asr_provider unicode c.provider))) (codes "asr.provider")
        c.provider (codes "must not be empty")
      ++ not_blank (codes "asr.host") c.host
      ++ above_zero (codes "asr.port") c.port
      ++ not_blank (codes "asr.mode") c.mode
      ++ unless (c.sample_rate ==ℤ pos 16000) (codes "asr.sample_rate") (decimal c.sample_rate)
          (codes "must be 16000 for the local ASR contract")
      ++ above_zero (codes "asr.startup_timeout_seconds") c.startup_timeout

  unfoldable pub validate_provider : Bytes → AsrConfig → List Issue
  validate_provider base_dir c =
      if bytes_eq (normalize_asr_provider unicode c.provider) (codes "onnx")
      then validate_sherpa_onnx base_dir c.sherpa_onnx
      else unless false (codes "asr.provider") c.provider (codes "must be onnx")

  unfoldable pub validate_llm : LlmConfig → List Issue
  validate_llm c =
      not_blank (codes "llm.provider") c.provider
      ++ not_blank (codes "llm.base_url") c.base_url
      ++ not_blank (codes "llm.model") c.model
      ++ above_zero (codes "llm.timeout_seconds") c.timeout_seconds

  -- `Validate`: the issues, none for the nil error.
  unfoldable pub validate : Config → Bytes → List Issue
  validate c base_dir =
      not_blank (codes "server.bind_host") c.server.bind_host
      ++ not_blank (codes "server.service_name") c.server.service_name
      ++ validate_asr c.asr
      ++ validate_provider base_dir c.asr
      ++ validate_llm c.llm
      ++ not_blank (codes "injection.mode") c.injection.mode
      ++ unless (level_known (to_lower unicode (trim_space c.logging.level)))
          (codes "logging.level") c.logging.level (codes "must be one of debug, info, warn, error")
