-- ===== src/App/Buffering.antt =====
-- The handler of internal/app/ios_websocket.go for a recogniser that does not stream: it buffers the
-- messages up to the stop and has them processed as a whole (`handleIOSAudioStream`, and
-- `processEncryptedIOSAudioSession` of ios_session.go). Durations are left out.
pub mod Bounded
use talka.Prelude.{
  ℕ, ◌+◌, Bool, true, false, Option, none, some, List, [], ◌∷◌, ◌++◌, Result, ok, err, length,
  if◌then◌else◌,
}
use talka.Prelude.Bytes.{Bytes, bytes_eq, codes}
use talka.Protocol.Codec.{Json}
use talka.Protocol.Types
use talka.Session.{Aead, StateMachine, EncryptedMessage}
use talka.Protocol.{AudioMetadata}
use talka.App.Audio
use talka.App.Audio.{Received, decrypt_ios_audio_messages}
use talka.App.Audio.Wire.{ios_web_socket_can_buffer}
use talka.App.Dictation.{Pipeline, ProcessResult, prepare_audio_frames}
use talka.App.Replies.{Failure, Phase, Reading, error_response, told, IosAudioWebSocketResponse}
use talka.App.Streaming.{Connection, ReadEnd, timed}

-- How the loop ends: with the messages up to the stop, at the limit, or at the end of the source.
pub data Buffered : Type 0 where
  complete : List EncryptedMessage → Buffered
  limit_exceeded : Buffered
  stopped_reading : ReadEnd → Buffered

-- The loop, with the messages so far and the last of them, over those that are still to be read.
unfoldable pub buffer_messages :
    List EncryptedMessage → EncryptedMessage → List EncryptedMessage → ReadEnd → Buffered
buffer_messages messages last [] end =
    if bytes_eq last.type Types.audio_stop then complete messages else stopped_reading end
buffer_messages messages last (m ∷ rest) end = elim (bytes_eq last.type Types.audio_stop) [
  | true ↦ complete messages
  | false ↦ elim (ios_web_socket_can_buffer (length messages + 1)) [
    | false ↦ limit_exceeded
    | true ↦ buffer_messages (messages ++ m ∷ []) m rest end
  ]
]

-- The stages that the errors are recorded under.
pub data Stage : Type 0 where
  session pipeline decrypt_decode : Stage

module _ {W E : Type 0} (aead : Aead) (json : Json) (clock : ℕ → ℕ × ℕ) where
  abbrev prepared :
      Pipeline W E
      → W
      → Result Audio.Error (AudioMetadata × List Bytes)
      → W × Result (Stage × Failure E) ProcessResult
  prepared p w (err e) = (w, err (Stage.decrypt_decode, Failure.audio_failure e))
  prepared p w (ok (metadata, frames)) =
      let (w', r) = prepare_audio_frames p metadata frames w in
      elim r [
        | err e ↦ (w', err (Stage.pipeline, Failure.pipeline_failure e))
        | ok result ↦ (w', ok result)
      ]

  -- `processEncryptedIOSAudioSession`, for the session of the phone and the pipeline, if there are
  -- any.
  unfoldable pub process_encrypted :
      Option StateMachine
      → Option (Pipeline W E)
      → List EncryptedMessage
      → W
      → W × (Option StateMachine × Result (Stage × Failure E) ProcessResult)
  process_encrypted none p ms w = (w, (none, err (Stage.session, Failure.no_session)))
  process_encrypted (some machine) none ms w =
      (w, (some machine, err (Stage.pipeline, Failure.no_pipeline)))
  process_encrypted (some machine) (some p) ms w =
      let (machine', audio) = decrypt_ios_audio_messages aead json machine (timed clock 0 ms) in
      let (w', r) = prepared p w audio in (w', (some machine', r))

-- What is written to the phone once the messages are processed; the errors of the writes go to the
-- log and the trace.
module _ {W E : Type 0} (reading : Reading E) (connection : Connection W E) where
  abbrev then_close : W × Option E → W
  then_close (w, some e) = w
  then_close (w, none) = (connection.write_close 1000 w).0

  unfoldable pub answer : Result (Stage × Failure E) ProcessResult → W → W
  answer (err (stage, e)) w =
      then_close (connection.write_json (error_response reading e Phase.process_phase) w)
  answer (ok result) w = then_close (
      connection.write_json
        (record { accepted = true; error = none; final_text = result.final_text }) w)

  -- What is written at the limit of the buffer.
  unfoldable pub refuse_at_limit : W → W
  refuse_at_limit w =
      (connection.write_json
        (record {
          accepted = false;
          error = some (
              told (codes "message_limit_exceeded") (codes "audio session message limit exceeded"));
          final_text = [];
        })
        w).0
