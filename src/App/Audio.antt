-- ===== src/App/Audio.antt =====
-- `decryptIOSAudioMessages` of internal/app/ios_session.go: a buffered recording of a phone, from
-- its encrypted messages to the metadata and the payloads of its frames.
pub mod Sound
pub mod Wire
pub mod Delivered
use talka.Prelude.{
  ℕ, ◌+◌, Bool, true, false, not, List, [], ◌∷◌, ◌++◌, Result, ok, err, ◌>>=◌, ◌>>◌, guard, or_fail,
  length,
}
use talka.Prelude.Int.{ℤ, pos, ◌==ℤ◌}
use talka.Prelude.Bytes.{Bytes, bytes_eq}
use talka.Prelude.Base64.{decode_string}
use talka.Protocol.{MessageType, AudioMetadata, Message}
use talka.Protocol.Codec.{Json, decode, validate_audio_metadata}
use talka.Protocol.Errors
use talka.Session
use talka.Session.{Aead, StateMachine, EncryptedMessage, decrypt}

pub data Error : Type 0 where
  session_error : Session.Error → Error
  protocol_error : Errors.Error → Error
  -- The index, the sequence number and the type of the message that could not be decrypted.
  at_message : ℕ → ℕ → MessageType → Error → Error
  duplicate_start frame_before_start stop_before_start stop_required : Error
  frame_stream_mismatch stop_stream_mismatch payload_not_base64 unexpected_message : Error
  frame_sequence : ℤ → ℕ → Error

-- The loop's variables.
pub record Audio : Type 0 where
  pub metadata : AudioMetadata
  pub stream_id : Bytes
  pub frames : List Bytes
  pub started : Bool
  pub stopped : Bool

abbrev pub no_audio : Audio
no_audio = record {
  metadata = record {
    encoding = [];
    sample_rate = pos 0;
    channels = pos 0;
    frame_duration_ms = pos 0;
    language = [];
  };
  stream_id = [];
  frames = [];
  started = false;
  stopped = false;
}

abbrev pub lift_protocol {ℓ} : {A : Type ℓ} → Result Errors.Error A → Result Error A
lift_protocol (ok a) = ok a
lift_protocol (err e) = err (Error.protocol_error e)

-- The switch over the decoded message.
unfoldable pub audio_message : Audio → Message → Result Error Audio
audio_message a (Message.audio_start m) = do
  guard (not a.started) Error.duplicate_start
  lift_protocol (validate_audio_metadata m.metadata)
  ok (record a { metadata = m.metadata; stream_id = m.stream_id; started = true })
audio_message a (Message.audio_frame m) = do
  guard a.started Error.frame_before_start
  guard (bytes_eq m.stream_id a.stream_id) Error.frame_stream_mismatch
  guard (m.sequence ==ℤ pos (length a.frames + 1))
      (Error.frame_sequence m.sequence (length a.frames + 1))
  payload ← or_fail (decode_string m.payload_base64) Error.payload_not_base64
  ok (record a { frames = a.frames ++ payload ∷ [] })
audio_message a (Message.audio_stop m) = do
  guard a.started Error.stop_before_start
  guard (bytes_eq m.stream_id a.stream_id) Error.stop_stream_mismatch
  ok (record a { stopped = true })
audio_message a m = err Error.unexpected_message

-- A message and the two readings of the clock of the call that decrypts it.
pub record Received : Type 0 where
  pub message : EncryptedMessage
  pub now : ℕ
  pub later : ℕ

module _ (aead : Aead) (json : Json) where
  decoded : Result Session.Error Bytes → Result Error Message
  decoded (err e) = err (Error.session_error e)
  decoded (ok plaintext) = lift_protocol (decode json plaintext)

  -- `decryptIOSAudioMessage`.
  unfoldable pub decrypt_ios_audio_message :
      StateMachine → Received → StateMachine × Result Error Message
  unfolding decoded
  decrypt_ios_audio_message machine r =
      let (machine', opened) = decrypt aead r.now r.later machine r.message in
      (machine', decoded opened)

  -- The loop, from the message of this index on.
  unfoldable pub decrypt_from :
      ℕ → StateMachine → Audio → List Received → StateMachine × Result Error Audio
  decrypt_from index machine a [] = (machine, ok a)
  decrypt_from index machine a (r ∷ rs) =
      let (machine', opened) = decrypt_ios_audio_message machine r in
      elim opened [
        | err e ↦ (machine', err (Error.at_message index r.message.seq r.message.type e))
        | ok m ↦ elim (audio_message a m) [
          | err e ↦ (machine', err e)
          | ok a' ↦ decrypt_from (index + 1) machine' a' rs
        ]
      ]

  when_stopped : Audio → Result Error (AudioMetadata × List Bytes)
  when_stopped a = do guard a.stopped Error.stop_required; ok (a.metadata, a.frames)

  -- `decryptIOSAudioMessages`.
  unfoldable pub decrypt_ios_audio_messages :
      StateMachine → List Received → StateMachine × Result Error (AudioMetadata × List Bytes)
  unfolding when_stopped
  decrypt_ios_audio_messages machine rs =
      let (machine', r) = decrypt_from 0 machine no_audio rs in (machine', r >>= when_stopped)
