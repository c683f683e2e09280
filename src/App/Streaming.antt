-- ===== src/App/Streaming.antt =====
-- `handleIOSAudioStreamWithStreamingASR` of internal/app/ios_websocket.go: a recording is handed to
-- the recogniser frame by frame as it arrives. The state `W` is the recogniser's, the model's and the
-- connection's; `S` is a stream of the recogniser. Durations are left out.
pub mod Batch
pub mod Adapter
use talka.Prelude.{
  ℕ, zero, suc, ◌+◌, Bool, true, false, not, ◌==◌, Option, none, some, List, [], ◌∷◌, Result, ok,
  err, ◌>>=◌, ◌>>◌, guard, or_fail, length,
}
use talka.Prelude.Int.{ℤ, pos, ◌==ℤ◌}
use talka.Prelude.Bytes.{Bytes, bytes_eq}
use talka.Prelude.Base64.{decode_string}
use talka.Protocol.{AudioMetadata, AudioStart, AudioFrame, AudioStop, Message}
use talka.Protocol.Codec.{Json, validate_audio_metadata}
use talka.Session.{Aead, StateMachine, EncryptedMessage}
use talka.App.Websocket
use talka.App.Websocket.{read_frame}
use talka.App.Audio.Wire.{WireError}
use talka.App.Audio
use talka.App.Audio.{no_audio, lift_protocol, Received, decrypt_ios_audio_message}
use talka.App.Dictation.{
  AsrResult, Pipeline, ProcessResult, prepare_asr_result, handle_ios_key_press,
}
use talka.App.Replies.{IosAudioWebSocketResponse, Failure, Phase, Reading, error_response}

-- `asr.StreamingProvider` and the `asr.StreamingSession` that it opens; the result of
-- `AcceptFrame` is not read.
pub record StreamingProvider (W E S : Type 0) : Type 0 where
  pub new_stream : AudioMetadata → W → W × Result E S
  pub accept_frame : S → Bytes → W → W × Option E
  pub finish : S → W → W × Result E AsrResult
  pub close : S → W → W

-- What is written to the connection; the numbers are the codes of a close frame.
pub record Connection (W E : Type 0) : Type 0 where
  pub write_json : IosAudioWebSocketResponse → W → W × Option E
  pub write_close : ℕ → W → W × Option E

-- The variables of the loop.
pub record Stream (S : Type 0) : Type 0 where
  pub stream : Option S
  pub stream_id : Bytes
  pub metadata : AudioMetadata
  pub started : Bool
  pub frames : ℕ
  pub messages : ℕ

abbrev pub no_stream : {S : Type 0} → Stream S
no_stream = record {
  stream = none;
  stream_id = [];
  metadata = no_audio.metadata;
  started = false;
  frames = 0;
  messages = 0;
}

-- The calls of `recordLatencyError`.
pub data Stage : Type 0 where
  session read decode decrypt_decode key_press pipeline response_write response_close : Stage

pub data Ending (E : Type 0) : Type 0 where
  failed : Stage → Failure E → Ending E
  closed key_pressed : Ending E
  -- The reply is sent; the final text of the result goes to `queueIOSFinalTextInsertion`.
  replied : ProcessResult → Ending E

-- What a message does to the loop.
pub data Turn (S E : Type 0) : Type 0 where
  goes_on : Stream S → Turn S E
  stops : Stream S → S → Turn S E
  ends : Ending E → Turn S E

-- How the messages that arrived were used up: the loop waits for more, a stop has come, or it ended.
pub data Progress (S E : Type 0) : Type 0 where
  waiting : Stream S → Progress S E
  at_stop : Stream S → S → Progress S E
  over : Stream S → Ending E → Progress S E

-- Why no further message is read.
pub data ReadEnd : Type 0 where
  read_failed : Websocket.Error → ReadEnd
  undecodable : WireError → ReadEnd
  close_frame : ReadEnd

abbrev after_message : {A : Type 0} → A → List A × ReadEnd → List A × ReadEnd
after_message m (ms, end) = (m ∷ ms, end)

module _ (decode_wire : Bytes → Result WireError EncryptedMessage) where
  -- The messages that the reader still holds. A frame takes at least two bytes of it, so its length
  -- is fuel enough.
  unfoldable pub read_messages : ℕ → Bytes → List EncryptedMessage × ReadEnd
  read_messages zero src = ([], ReadEnd.read_failed Websocket.Error.unexpected_end)
  read_messages (suc fuel) src = elim (read_frame src) [
    | err e ↦ ([], ReadEnd.read_failed e)
    | ok (payload, (opcode, rest)) ↦ elim (opcode == 8) [
      | true ↦ ([], ReadEnd.close_frame)
      | false ↦ elim (decode_wire payload) [
        | err e ↦ ([], ReadEnd.undecodable e)
        | ok m ↦ after_message m (read_messages fuel rest)
      ]
    ]
  ]

-- The readings of the clock of the call that decrypts the message of each index.
abbrev pub timed : (ℕ → ℕ × ℕ) → ℕ → List EncryptedMessage → List Received
timed clock index [] = []
timed clock index (m ∷ ms) =
    record { message = m; now = (clock index).0; later = (clock index).1 }
    ∷ timed clock (index + 1) ms

module _ {S : Type 0} where
  -- The guards of the three messages of a stream.
  unfoldable pub check_start : Stream S → AudioStart → Result Audio.Error (Unit {0})
  check_start s m = do
    guard (not s.started) Audio.Error.duplicate_start
    lift_protocol (validate_audio_metadata m.metadata)

  abbrev opened : Stream S → Audio.Error → Result Audio.Error S
  opened s e = do guard s.started e; or_fail s.stream e

  unfoldable pub check_frame : Stream S → AudioFrame → Result Audio.Error (S × Bytes)
  check_frame s m = do
    stream ← opened s Audio.Error.frame_before_start
    guard (bytes_eq m.stream_id s.stream_id) Audio.Error.frame_stream_mismatch
    guard (m.sequence ==ℤ pos (s.frames + 1)) (Audio.Error.frame_sequence m.sequence (s.frames + 1))
    payload ← or_fail (decode_string m.payload_base64) Audio.Error.payload_not_base64
    ok (stream, payload)

  unfoldable pub check_stop : Stream S → AudioStop → Result Audio.Error S
  check_stop s m = do
    stream ← opened s Audio.Error.stop_before_start
    guard (bytes_eq m.stream_id s.stream_id) Audio.Error.stop_stream_mismatch
    ok stream

module _ {W E : Type 0} (reading : Reading E) (connection : Connection W E) where
  -- `recordLatencyError`, `completeLatencyTrace` and `writeIOSWebSocketError`, whose error is not
  -- read.
  unfoldable pub fail : Stage → Phase → Failure E → W → W × Ending E
  fail stage phase e w =
      let (w', ignored) = connection.write_json (error_response reading e phase) w in
      (w', Ending.failed stage e)

  -- The reply and the close frame, then `after`.
  unfoldable pub reply : Bytes → Ending E → W → W × Ending E
  reply final_text after w =
      let (w', unwritten) =
        connection.write_json (record { accepted = true; error = none; final_text = final_text })
          w in
      elim unwritten [
        | some e ↦ (w', Ending.failed Stage.response_write (Failure.provider_failure e))
        | none ↦
            let (w'', unclosed) = connection.write_close 1000 w' in
            elim unclosed [
              | some e ↦ (w'', Ending.failed Stage.response_close (Failure.provider_failure e))
              | none ↦ (w'', after)
            ]
      ]

  -- The end of the source, where the loop still waits.
  unfoldable pub at_read_end : ReadEnd → W → W × Ending E
  at_read_end (ReadEnd.read_failed e) w =
      fail Stage.read Phase.read_phase (Failure.read_failure e) w
  at_read_end (ReadEnd.undecodable e) w =
      fail Stage.decode Phase.decode_phase (Failure.wire_failure e) w
  at_read_end ReadEnd.close_frame w = (w, Ending.closed)

module _ {W E S : Type 0} (reading : Reading E) (connection : Connection W E) (pipe : Pipeline W E)
    (provider : StreamingProvider W E S) where
  abbrev ended : W × Ending E → W × Turn S E
  ended (w, e) = (w, Turn.ends e)

  -- The switch over the decoded message, up to the stop.
  unfoldable pub handle_message : Stream S → Message → W → W × Turn S E
  handle_message s (Message.key_press m) w =
      let (w', refused) = handle_ios_key_press pipe m w in
      elim refused [
        | some e ↦ ended (
            fail reading connection Stage.key_press Phase.process_phase (Failure.pipeline_failure e)
              w')
        | none ↦ ended (reply reading connection [] Ending.key_pressed w')
      ]
  handle_message s (Message.audio_start m) w = elim (check_start s m) [
    | err e ↦ ended (
        fail reading connection Stage.decrypt_decode Phase.process_phase (Failure.audio_failure e)
          w)
    | ok x ↦
        let (w', r) = provider.new_stream m.metadata w in
        elim r [
          | err e ↦ ended (
              fail reading connection Stage.pipeline Phase.process_phase
                (Failure.provider_failure e) w')
          | ok stream ↦ (
            w',
            Turn.goes_on (record s {
              stream = some stream;
              stream_id = m.stream_id;
              metadata = m.metadata;
              started = true;
            }),
          )
        ]
  ]
  handle_message s (Message.audio_frame m) w = elim (check_frame s m) [
    | err e ↦ ended (
        fail reading connection Stage.decrypt_decode Phase.process_phase (Failure.audio_failure e)
          w)
    | ok (stream, payload) ↦
        let (w', refused) = provider.accept_frame stream payload w in
        elim refused [
          | some e ↦ ended (
              fail reading connection Stage.pipeline Phase.process_phase
                (Failure.provider_failure e) w')
          | none ↦ (w', Turn.goes_on (record s { frames = s.frames + 1 }))
        ]
  ]
  handle_message s (Message.audio_stop m) w = elim (check_stop s m) [
    | err e ↦ ended (
        fail reading connection Stage.decrypt_decode Phase.process_phase (Failure.audio_failure e)
          w)
    | ok stream ↦ (w, Turn.stops s stream)
  ]
  handle_message s m w = ended (
      fail reading connection Stage.decrypt_decode Phase.process_phase
        (Failure.audio_failure Audio.Error.unexpected_message) w)

  -- The rest of the branch of the stop.
  unfoldable pub finish_stream : S → W → W × Ending E
  finish_stream stream w =
      let (w', r) = provider.finish stream w in
      elim r [
        | err e ↦
            fail reading connection Stage.pipeline Phase.process_phase (Failure.provider_failure e)
              w'
        | ok transcript ↦
            let (w'', prepared) = prepare_asr_result pipe transcript w' in
            elim prepared [
              | err e ↦
                  fail reading connection Stage.pipeline Phase.process_phase
                    (Failure.pipeline_failure e) w''
              | ok result ↦ reply reading connection result.final_text (Ending.replied result) w''
            ]
      ]

  module _ (aead : Aead) (json : Json) where
    -- The loop over the messages that have arrived, up to the stop.
    unfoldable pub stream_from :
        StateMachine → Stream S → List Received → W → W × (StateMachine × Progress S E)
    stream_from machine s [] w = (w, (machine, Progress.waiting s))
    stream_from machine s (r ∷ rs) w =
        let s' : Stream S = record s { messages = s.messages + 1 } in
        let (machine', decoded) = decrypt_ios_audio_message aead json machine r in
        elim decoded [
          | err e ↦
              let (w', ending) =
                fail reading connection Stage.decrypt_decode Phase.process_phase
                  (Failure.audio_failure e) w in
              (w', (machine', Progress.over s' ending))
          | ok m ↦
              let (w', turn) = handle_message s' m w in
              elim turn [
                | Turn.goes_on next ↦ stream_from machine' next rs w'
                | Turn.stops last stream ↦ (w', (machine', Progress.at_stop last stream))
                | Turn.ends ending ↦ (w', (machine', Progress.over s' ending))
              ]
        ]

    -- The deferred `stream.Close`.
    abbrev close_stream : Stream S → W × Ending E → W × Ending E
    close_stream s (w, ending) = elim s.stream [
      | none ↦ (w, ending)
      | some stream ↦ (provider.close stream w, ending)
    ]

    unfoldable pub conclude : ReadEnd → W → Progress S E → W × Ending E
    conclude end w (Progress.waiting s) = close_stream s (at_read_end reading connection end w)
    conclude end w (Progress.at_stop s stream) = close_stream s (finish_stream stream w)
    conclude end w (Progress.over s ending) = close_stream s (w, ending)

    -- The handler, from the message that was read before it and what the reader still holds.
    unfoldable pub handle_streaming :
        (Bytes → Result WireError EncryptedMessage)
        → (ℕ → ℕ × ℕ)
        → StateMachine
        → EncryptedMessage
        → Bytes
        → W
        → W × (StateMachine × Ending E)
    handle_streaming decode_wire clock machine initial src w =
        let (ms, end) = read_messages decode_wire (length src) src in
        let (w', (machine', progress)) =
          stream_from machine no_stream (timed clock 0 (initial ∷ ms)) w in
        let (w'', ending) = conclude end w' progress in (w'', (machine', ending))
