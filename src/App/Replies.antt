-- ===== src/App/Replies.antt =====
-- The replies to the phone of internal/app/ios_websocket.go: which code, and which words, a failure
-- is told with. JSON and the text of an error are parameters.
use talka.Prelude.{Bool, true, false, ◌&&◌, Option, none, some, [], if◌then◌else◌}
use talka.Prelude.Bytes.{Bytes, codes, is_empty, bytes_eq}
use talka.Prelude.Text.{trim_space, to_lower, contains}
use talka.Session
use talka.Inject.{InsertError, FailureCode}
use talka.App.Websocket
use talka.App.Audio
use talka.App.Audio.Wire.{WireError}
use talka.App.Dictation

pub record IosAudioWebSocketError : Type 0 where
  pub code : Bytes
  pub message : Bytes
  pub diagnostic : Bytes

pub record IosAudioWebSocketResponse : Type 0 where
  pub accepted : Bool
  pub error : Option IosAudioWebSocketError
  pub final_text : Bytes

-- What can go wrong with the audio of a phone.
pub data Failure (E : Type 0) : Type 0 where
  no_session no_pipeline not_a_key_press : Failure E
  read_failure : Websocket.Error → Failure E
  wire_failure : WireError → Failure E
  audio_failure : Audio.Error → Failure E
  provider_failure : E → Failure E
  pipeline_failure : Dictation.Error E → Failure E

pub data Phase : Type 0 where
  session_phase read_phase decode_phase process_phase : Phase

-- The error of a session that an error wraps.
abbrev session_error_in : Audio.Error → Option Session.Error
session_error_in (Audio.Error.session_error e) = some e
session_error_in (Audio.Error.at_message index seq type e) = session_error_in e
session_error_in e = none

abbrev session_error_of : {E : Type 0} → Failure E → Option Session.Error
session_error_of (Failure.audio_failure e) = session_error_in e
session_error_of e = none

abbrev insert_error_of : {E : Type 0} → Failure E → Option (InsertError E)
insert_error_of (Failure.pipeline_failure (Dictation.Error.insert_error e)) = some e
insert_error_of e = none

-- The error of a provider or a driver that an error is.
abbrev provider_error_of : {E : Type 0} → Failure E → Option E
provider_error_of (Failure.provider_failure e) = some e
provider_error_of (Failure.pipeline_failure (Dictation.Error.provider_error e)) = some e
provider_error_of e = none

abbrev failure_code : FailureCode → Bytes
failure_code FailureCode.accessibility_missing = codes "accessibility_missing"
failure_code FailureCode.paste_failed = codes "paste_failed"
failure_code FailureCode.clipboard_read_failed = codes "clipboard_read_failed"
failure_code FailureCode.clipboard_write_failed = codes "clipboard_write_failed"

abbrev pub told : Bytes → Bytes → IosAudioWebSocketError
told code message = record { code = code; message = message; diagnostic = [] }

-- The codes of internal/asr/runtime_errors.go.
abbrev runtime_unavailable : Bytes
runtime_unavailable = codes "asr_runtime_unavailable"

abbrev runtime_startup_failed : Bytes
runtime_startup_failed = codes "asr_runtime_startup_failed"

abbrev runtime_config_invalid : Bytes
runtime_config_invalid = codes "asr_runtime_config_invalid"

abbrev model_missing : Bytes
model_missing = codes "asr_model_missing"

abbrev empty_transcript : Bytes
empty_transcript = codes "asr_empty_transcript"

-- `iosRuntimeFailureMessage`; `unicode` is `strings.ToLower` on what is not all ASCII.
unfoldable pub ios_runtime_failure_message : (Bytes → Bytes) → Bytes → Bytes → Bytes → Bytes
ios_runtime_failure_message unicode code diagnostic fallback =
    let lower = to_lower unicode (trim_space diagnostic) in
    if bytes_eq code model_missing && contains lower (codes "tlg.fst")
    then codes "The Mac ASR language model bundle is missing."
    else if bytes_eq code model_missing
    then codes "The Mac ASR model bundle is incomplete."
    else if bytes_eq code runtime_config_invalid
    then codes "The Mac ASR configuration is invalid."
    else if contains lower (codes "address already in use")
    then codes "The Mac ASR runtime could not claim a local port."
    else if contains lower (codes "did not become healthy within")
    then codes "The Mac ASR runtime took too long to become ready."
    else if bytes_eq code runtime_startup_failed
    then codes "The Mac ASR runtime could not start."
    else if bytes_eq code runtime_unavailable
    then codes "The Mac ASR runtime is unavailable."
    else if bytes_eq code empty_transcript
    then codes "The Mac ASR runtime returned an empty transcript."
    else if is_empty (trim_space fallback)
    then codes "audio session could not be processed"
    else fallback

-- `Error` of an error, the tests `errors.Is(err, context.DeadlineExceeded)`, and the code and the
-- diagnostic of an error of the recogniser.
pub record Reading (E : Type 0) : Type 0 where
  pub text : Failure E → Bytes
  pub deadline_exceeded : Failure E → Bool
  pub runtime_error : E → Option (Bytes × Bytes)
  pub lower_unicode : Bytes → Bytes

module _ {E : Type 0} (reading : Reading E) where
  abbrev runtime_error_of : Failure E → Option (Bytes × Bytes)
  runtime_error_of e = elim (provider_error_of e) [
    | none ↦ none
    | some cause ↦ reading.runtime_error cause
  ]

  -- The last switch.
  unfoldable pub code_of_phase : Failure E → Phase → IosAudioWebSocketError
  code_of_phase e Phase.read_phase =
      told (codes "read_failed") (codes "websocket frame could not be read")
  code_of_phase e Phase.decode_phase =
      told (codes "invalid_message") (codes "audio session message is invalid")
  code_of_phase e other = elim (runtime_error_of e) [
    | some (code, diagnostic) ↦ record {
      code = code;
      message = ios_runtime_failure_message reading.lower_unicode code diagnostic (reading.text e);
      diagnostic = diagnostic;
    }
    | none ↦ record {
      code = codes "processing_failed";
      message = codes "audio session could not be processed";
      diagnostic = reading.text e;
    }
  ]

  abbrev expired_or : Failure E → Phase → IosAudioWebSocketError
  expired_or e phase =
      if reading.deadline_exceeded e
      then told (codes "session_expired") (codes "audio session expired")
      else code_of_phase e phase

  -- `iosWebSocketErrorCode`.
  unfoldable pub ios_web_socket_error_code : Failure E → Phase → IosAudioWebSocketError
  ios_web_socket_error_code e phase = elim (insert_error_of e) [
    | some i ↦ told (failure_code i.code) i.user_message
    | none ↦ elim (session_error_of e) [
      | some Session.Error.replay ↦
          told (codes "replayed_sequence") (codes "audio session message was already processed")
      | some Session.Error.out_of_order ↦
          told (codes "out_of_order_sequence") (codes "audio session messages arrived out of order")
      | some Session.Error.expired ↦ told (codes "session_expired") (codes "audio session expired")
      | some Session.Error.forgotten ↦ elim (reading.deadline_exceeded e) [
        | true ↦ told (codes "session_expired") (codes "audio session expired")
        | false ↦ told (codes "session_forbidden") (codes "audio session is no longer trusted")
      ]
      | _ ↦ expired_or e phase
    ]
  ]

  abbrev pub error_response : Failure E → Phase → IosAudioWebSocketResponse
  error_response e phase = record {
    accepted = false;
    error = some (ios_web_socket_error_code e phase);
    final_text = [];
  }
