-- ===== src/Protocol/Codec.antt =====
-- internal/protocol/codec.go. `encoding/json` is the parameter `Json`: of the text format the code
-- relies only on reading back what it wrote.
pub mod Laws
use talka.Prelude.{
  Bool, not, ◌||◌, ◌≡◌, Option, none, some, List, [], ◌∷◌, ◌++◌, Result, ok, err, ◌>>=◌, ◌>>◌,
  guard, or_fail, if◌then◌else◌,
}
use talka.Prelude.Int.{pos, ◌==ℤ◌}
use talka.Prelude.Bytes.{Bytes, codes, bytes_eq, is_empty}
use talka.Protocol.{
  version_v1_alpha1, MessageType, encoding_pcm_s16le, Envelope, AudioMetadata, Message,
}
use talka.Protocol.Errors.{Error, new_error}
use talka.Protocol.Codes
use talka.Protocol.Types

-- The struct that `Decode` fills in.
pub data Target : Type 0 where
  client_hello server_hello pairing_confirm session_resume audio_start audio_frame : Target
  audio_stop audio_cancel key_press asr_partial asr_final text_final error_message ping : Target

-- The switch of `Decode`.
unfoldable pub target_of : MessageType → Option Target
target_of t =
    if bytes_eq t Types.client_hello
    then some client_hello
    else if bytes_eq t Types.server_hello
    then some server_hello
    else if bytes_eq t Types.pairing_confirm
    then some pairing_confirm
    else if bytes_eq t Types.session_resume
    then some session_resume
    else if bytes_eq t Types.audio_start
    then some audio_start
    else if bytes_eq t Types.audio_frame
    then some audio_frame
    else if bytes_eq t Types.audio_stop
    then some audio_stop
    else if bytes_eq t Types.audio_cancel
    then some audio_cancel
    else if bytes_eq t Types.key_press
    then some key_press
    else if bytes_eq t Types.asr_partial
    then some asr_partial
    else if bytes_eq t Types.asr_final
    then some asr_final
    else if bytes_eq t Types.text_final
    then some text_final
    else if bytes_eq t Types.error
    then some error_message
    else if bytes_eq t Types.ping
    then some ping
    else none

-- `json.Marshal` and `json.Unmarshal`, the latter into an `Envelope` or a target; an error is its
-- text.
pub record Json : Type 0 where
  pub marshal : Message → Bytes
  pub unmarshal_envelope : Bytes → Result Bytes Envelope
  pub unmarshal : Target → Bytes → Result Bytes Message

-- The error's text is the last argument of the format, behind `args`.
abbrev invalid_message {ℓ} : {A : Type ℓ} → Bytes → List Bytes → Result Bytes A → Result Error A
invalid_message format args (ok a) = ok a
invalid_message format args (err text) =
    err (new_error Codes.invalid_message format (args ++ text ∷ []))

pub encode : Json → Message → Bytes
encode json m = json.marshal m

unfoldable pub decode : Json → Bytes → Result Error Message
unfolding target_of
decode json payload = do
  envelope ←
      invalid_message (codes "decode protocol message: %v") [] (json.unmarshal_envelope payload)
  guard (bytes_eq envelope.version version_v1_alpha1) (
      new_error Codes.invalid_version (codes "unsupported protocol version %q")
        (envelope.version ∷ []))
  target ← or_fail (target_of envelope.type) (
      new_error Codes.unexpected_message_type (codes "unsupported message type %q")
        (envelope.type ∷ []))
  invalid_message (codes "decode %s message: %v") (envelope.type ∷ [])
      (json.unmarshal target payload)

unfoldable pub validate_audio_metadata : AudioMetadata → Result Error (Unit {0})
validate_audio_metadata m = do
  guard (bytes_eq m.encoding encoding_pcm_s16le) (
      new_error Codes.unsupported_encoding (codes "encoding %q is not supported") (m.encoding ∷ []))
  guard
      (not (
        not (m.sample_rate ==ℤ pos 16000)
        || not (m.channels ==ℤ pos 1)
        || not (m.frame_duration_ms ==ℤ pos 20)
        || is_empty m.language))
      (new_error Codes.invalid_audio_metadata
        (codes "audio metadata must use 16kHz mono 20ms frames with a language") [])
  ok tt
