-- ===== src/Asr/Diagnostics.antt =====
-- What the output of a runtime that did not start means: the rest of internal/asr/runtime_support.go.
use talka.Prelude.{Bool, false, ◌&&◌, ◌||◌, Option, none, some, List, [], ◌∷◌, ◌++◌, if◌then◌else◌}
use talka.Prelude.Bytes.{Bytes, codes, is_empty, bytes_eq}
use talka.Prelude.Text.{trim_space, to_lower, contains, split_lines, join_with}
use talka.Asr.RuntimeSupport.{RuntimeError, diagnostic}

-- `isPortConflictDiagnostic`.
unfoldable pub is_port_conflict_diagnostic : Bytes → Bool
is_port_conflict_diagnostic text =
    contains text (codes "address already in use")
    || contains text (codes "port is already allocated")
    || contains text (codes "bind: address already in use")

-- The error of a startup, or another error with its text.
pub data StartupError : Type 0 where
  runtime_error : RuntimeError → StartupError
  other_error : Bytes → StartupError

-- `unicode` is `strings.ToLower` on what is not all ASCII.
module _ (unicode : Bytes → Bytes) where
  -- A line that the switch of `sanitizeRuntimeDiagnostics` leaves out, trimmed.
  unfoldable pub is_noise : Bytes → Bool
  is_noise line =
      let lower = to_lower unicode line in
      is_empty line
      || bytes_eq lower (codes "sh: python: command not found")
      || contains lower (codes "failed to download model from modelscope")
        && contains lower (codes "you can ignore the errors")

  unfoldable pub kept_lines : List Bytes → List Bytes
  kept_lines [] = []
  kept_lines (line ∷ lines) =
      let rest = kept_lines lines in
      if is_noise (trim_space line) then rest else trim_space line ∷ rest

  unfoldable pub sanitize_runtime_diagnostics : Bytes → Bytes
  sanitize_runtime_diagnostics text =
      trim_space (join_with (10 ∷ []) (kept_lines (split_lines text)))

  abbrev said : Bytes → Option Bytes → Bytes
  said text none = sanitize_runtime_diagnostics text
  said text (some cause) =
      if is_empty (sanitize_runtime_diagnostics text)
      then cause
      else sanitize_runtime_diagnostics text

  abbrev named : Bytes → Bytes
  named scope = if is_empty (trim_space scope) then codes "ASR runtime" else trim_space scope

  -- `newRuntimeErrorWithDiagnostic`.
  abbrev coded_as : Bytes → Bytes → Option Bytes → Bytes → Bytes → RuntimeError
  coded_as scope detail cause code message = record {
    code = code;
    message = scope ++ message;
    cause = cause;
    detail = detail;
  }

  -- `classifyScopedRuntimeStartupFailure`; the cause is the text of an error, if there is one.
  unfoldable pub classify_scoped_runtime_startup_failure :
      Bytes → Bytes → Bytes → Option Bytes → RuntimeError
  classify_scoped_runtime_startup_failure scope url diagnostics cause =
      let detail = said diagnostics cause in
      let lower = to_lower unicode detail in
      let coded = coded_as (named scope) detail cause in
      if contains lower (codes "tlg.fst")
        || contains lower (codes "model_quant.onnx do not exists")
        || contains lower (codes "do not exists")
      then coded (codes "asr_model_missing") (codes " model assets are incomplete")
      else if contains lower (codes "must exist at")
      then coded (codes "asr_runtime_config_invalid") (codes " configuration is invalid")
      else if is_port_conflict_diagnostic lower
      then coded (codes "asr_runtime_startup_failed")
          (codes " could not bind a local port for " ++ url)
      else coded (codes "asr_runtime_startup_failed") (codes " could not start for " ++ url)

  -- `classifyRuntimeStartupFailure`.
  unfoldable pub classify_runtime_startup_failure : Bytes → Bytes → Option Bytes → RuntimeError
  classify_runtime_startup_failure =
      classify_scoped_runtime_startup_failure (codes "embedded ASR runtime")

  abbrev lowered : Bytes → Bytes
  lowered text = to_lower unicode (trim_space text)

  abbrev diagnostic_of : StartupError → Bytes
  diagnostic_of (StartupError.runtime_error e) = diagnostic e
  diagnostic_of (StartupError.other_error text) = []

  -- `shouldRetryOnDifferentPort`; `error_text` is `Error` of the error.
  unfoldable pub should_retry_on_different_port : Bytes → Option StartupError → Bool
  should_retry_on_different_port error_text none = false
  should_retry_on_different_port error_text (some e) = is_port_conflict_diagnostic (
      if is_empty (lowered (diagnostic_of e))
      then lowered error_text
      else lowered (diagnostic_of e))
