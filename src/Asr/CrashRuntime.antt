-- ===== src/Asr/CrashRuntime.antt =====
-- internal/asr/crash_runtime.go: the recogniser that ends its process at the first frame of audio, as
-- the messages of a session reach it.
use talka.Prelude.{
  Bool, true, false, not, List, [], ◌∷◌, ok, err, if◌then◌else◌, ℕ, Option, none, some,
}
use talka.Prelude.Bytes.{Bytes, codes, bytes_eq}
use talka.Protocol.{version_v1_alpha1, Message}
use talka.Protocol.Codec.{validate_audio_metadata}
use talka.Protocol.Types
use talka.Protocol.Codes
use talka.Protocol.Errors
use talka.Asr.FakeRuntime.{envelope, protocol_error}

abbrev pub crash_runtime_exit_code : ℕ
crash_runtime_exit_code = 86

-- Whether the session has ended, and the code that the process was ended with.
pub record CrashSession : Type 0 where
  pub over : Bool
  pub exited : Option ℕ

abbrev pub new_crash_session : CrashSession
new_crash_session = record { over = false; exited = none }

abbrev crash_hello : Message
crash_hello = Message.server_hello (record {
  envelope = envelope Types.server_hello;
  runtime_name = codes "asr-crash";
  ready = true;
})

abbrev refuse : CrashSession → Bytes → Bytes → CrashSession × List Message
refuse s code message = (record s { over = true }, protocol_error code message ∷ [])

-- `serveSession`; `exits` is whether there is a function `Exit`, `error_text` is `Error` of an error.
module _ (exits : Bool) (error_text : Errors.Error → Bytes) where
  unfoldable pub serve_crash : CrashSession → Message → CrashSession × List Message
  serve_crash s (Message.client_hello m) =
      if not (bytes_eq m.envelope.version version_v1_alpha1)
      then refuse s Codes.invalid_version (codes "unsupported protocol version")
      else (s, crash_hello ∷ [])
  serve_crash s (Message.audio_start m) = elim (validate_audio_metadata m.metadata) [
    | ok valid ↦ (s, [])
    | err e ↦ refuse s e.err_code (error_text e)
  ]
  serve_crash s (Message.audio_frame m) = (
    record { over = true; exited = if exits then some crash_runtime_exit_code else s.exited },
    [],
  )
  serve_crash s other =
      refuse s Codes.unexpected_message_type (codes "unsupported message for crash runtime")

  unfoldable pub serve_crash_session : CrashSession → Message → CrashSession × List Message
  serve_crash_session s m = if s.over then (s, []) else serve_crash s m
