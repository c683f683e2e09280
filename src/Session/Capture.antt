-- ===== src/Session/Capture.antt =====
-- internal/session/audio_debug.go: the diagnostic capture of a stream, and its WAV file.
pub mod Streams
use talka.Prelude.{
  ℕ, ◌+◌, ◌*◌, ◌%◌, ◌^◌, Bool, true, false, List, [], ◌∷◌, ◌++◌, Result, ok, err, ◌>>=◌, ◌>>◌,
  guard, or_fail, length, if◌then◌else◌,
}
use talka.Prelude.Int.{ℤ, pos, ◌==ℤ◌, next_int, to_word}
use talka.Prelude.Bytes.{Bytes, codes, bytes_eq}
use talka.Prelude.Words.{le16, le32, u32}
use talka.Prelude.Base64.{decode_string}
use talka.Protocol.{AudioMetadata, AudioStart, AudioFrame, AudioStop, Message}
use talka.Protocol.Errors
use talka.Protocol.Codec.{Json, decode, validate_audio_metadata}
use talka.Session.{Aead, StateMachine, EncryptedMessage, decrypt}
use talka.Session

pub data Error : Type 0 where
  session_failed : Session.Error → Error
  protocol_failed : Errors.Error → Error
  start_required_before_frame frame_stream_mismatch invalid_base64 : Error
  start_required_before_stop stop_stream_mismatch : Error
  frame_sequence last_sequence : ℤ → ℤ → Error

pub record DiagnosticAudioCapture : Type 0 where
  pub enabled : Bool
  pub metadata : AudioMetadata
  pub stream_id : Bytes
  pub started : Bool
  pub last_seq : ℤ
  pub frame_count : ℕ
  pub pcm : Bytes

-- A capture that is not enabled has no WAV file: its bytes are empty.
pub record DiagnosticAudioCaptureResult : Type 0 where
  pub metadata : AudioMetadata
  pub stream_id : Bytes
  pub frame_count : ℕ
  pub wav : Bytes

-- `encodePCM16WAV`. The byte rate is a product of 64-bit ints cut down to 32 bits, which is the
-- product of the factors cut down to 32 bits.
unfoldable pub encode_pcm16_wav : Bytes → AudioMetadata → Bytes
encode_pcm16_wav pcm m =
    let data_size = u32 (length pcm) in
    let byte_rate = u32 (to_word (2 ^ 32) m.sample_rate * to_word (2 ^ 32) m.channels * 2) in
    let block_align = to_word (2 ^ 16) m.channels * 2 % 2 ^ 16 in
    codes "RIFF"
    ++ (le32 (u32 (36 + data_size))
        ++ (codes "WAVE"
            ++ (codes "fmt "
                ++ (le32 16
                    ++ (le16 1
                        ++ (le16 (to_word (2 ^ 16) m.channels)
                            ++ (le32 (to_word (2 ^ 32) m.sample_rate)
                                ++ (le32 byte_rate
                                    ++ (le16 block_align
                                        ++ (le16 16
                                            ++ (codes "data" ++ (le32 data_size ++ pcm))))))))))))

-- What the three kinds of messages do; the result is there only at the stop.
abbrev pub Step : Type 0
Step = DiagnosticAudioCapture × Result Error (List DiagnosticAudioCaptureResult)

-- The capture is changed only if the checks pass.
abbrev after :
    {A : Type 0} → DiagnosticAudioCapture → Result Error A → (A → DiagnosticAudioCapture) → Step
after c (err e) f = (c, err e)
after c (ok a) f = (f a, ok [])

abbrev pub metadata_check : AudioMetadata → Result Error (Unit {0})
metadata_check m = elim (validate_audio_metadata m) [
  | ok _ ↦ ok tt
  | err e ↦ err (Error.protocol_failed e)
]

capture_start : DiagnosticAudioCapture → AudioStart → Step
capture_start c m = after c (metadata_check m.metadata) λ _. record c {
  metadata = m.metadata;
  stream_id = m.stream_id;
  started = true;
  last_seq = pos 0;
  frame_count = 0;
  pcm = [];
}

capture_frame : DiagnosticAudioCapture → AudioFrame → Step
capture_frame c m =
    after c
      (do
        guard c.started Error.start_required_before_frame
        guard (bytes_eq m.stream_id c.stream_id) Error.frame_stream_mismatch
        guard (m.sequence ==ℤ next_int c.last_seq)
            (Error.frame_sequence m.sequence (next_int c.last_seq))
        or_fail (decode_string m.payload_base64) Error.invalid_base64)
      λ payload. record c {
        pcm = if c.enabled then c.pcm ++ payload else c.pcm;
        last_seq = m.sequence;
        frame_count = c.frame_count + 1;
      }

capture_stop : DiagnosticAudioCapture → AudioStop → Step
capture_stop c m = (
  c,
  do
    guard c.started Error.start_required_before_stop
    guard (bytes_eq m.stream_id c.stream_id) Error.stop_stream_mismatch
    guard (m.last_sequence ==ℤ c.last_seq) (Error.last_sequence m.last_sequence c.last_seq)
    ok (
        record {
          metadata = c.metadata;
          stream_id = c.stream_id;
          frame_count = c.frame_count;
          wav = if c.enabled then encode_pcm16_wav c.pcm c.metadata else [];
        }
        ∷ []),
)

-- The switch of `CaptureEncryptedMessage`; a message of another kind is passed over.
unfoldable pub capture_message : DiagnosticAudioCapture → Message → Step
unfolding capture_start capture_frame capture_stop
capture_message c (Message.audio_start m) = capture_start c m
capture_message c (Message.audio_frame m) = capture_frame c m
capture_message c (Message.audio_stop m) = capture_stop c m
capture_message c _ = (c, ok [])

capture_decoded : DiagnosticAudioCapture → Result Errors.Error Message → Step
capture_decoded c (err e) = (c, err (Error.protocol_failed e))
capture_decoded c (ok m) = capture_message c m

capture_opened : Json → DiagnosticAudioCapture → Result Session.Error Bytes → Step
capture_opened json c (err e) = (c, err (Error.session_failed e))
capture_opened json c (ok plaintext) = capture_decoded c (decode json plaintext)

-- `CaptureEncryptedMessage`: the session moves on as `Decrypt` says, whatever the capture makes of
-- the plaintext. A result that is returned with `true` is a list of one.
capture_encrypted_message :
    Json
    → Aead
    → ℕ
    → ℕ
    → StateMachine
    → DiagnosticAudioCapture
    → EncryptedMessage
    → StateMachine × Step
unfolding capture_decoded capture_opened
capture_encrypted_message json aead now later s c m =
    let (s', opened) = decrypt aead now later s m in (s', capture_opened json c opened)
