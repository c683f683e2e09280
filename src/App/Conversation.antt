-- ===== src/App/Conversation.antt =====
-- `handleIOSAudioStream` of internal/app/ios_websocket.go from its first message on: a key press on
-- its own (`handleIOSKeyPressWireMessage`), a recording for a recogniser that streams, or one that is
-- buffered. What the conversation uses does not change while it lasts; durations are left out.
pub mod Unpaired
use talka.Prelude.{
  ℕ, Bool, true, false, ◌==◌, Option, none, some, List, [], ◌∷◌, Result, ok, err, ◌>>=◌, or_fail,
  length,
}
use talka.Prelude.Bytes.{Bytes, bytes_eq}
use talka.Protocol.{Message}
use talka.Protocol.Types
use talka.Protocol.Codec.{Json}
use talka.Session.{Aead, StateMachine, EncryptedMessage}
use talka.App.Websocket.{read_frame}
use talka.App.Audio.{Received, decrypt_ios_audio_message}
use talka.App.Audio.Wire.{WireError}
use talka.App.Dictation.{Pipeline, ProcessResult, handle_ios_key_press}
use talka.App.Replies.{Failure, Phase, Reading}
use talka.App.Streaming
use talka.App.Streaming.{
  Connection, StreamingProvider, Ending, ReadEnd, fail, reply, at_read_end, read_messages,
  handle_streaming, timed,
}
use talka.App.Buffering
use talka.App.Buffering.{Buffered, buffer_messages, process_encrypted, answer, refuse_at_limit}

-- What a conversation with a phone uses: the session of the phone, the pipeline, and the recogniser
-- of the pipeline if it is a `StreamingProvider`.
pub record Resources (W E S : Type 0) : Type 0 where
  pub session : Option StateMachine
  pub pipeline : Option (Pipeline W E)
  pub streaming : Option (StreamingProvider W E S)

-- What a conversation comes to.
pub data Outcome (E : Type 0) : Type 0 where
  ended : Ending E → Outcome E
  -- The final text of a result goes to `queueIOSFinalTextInsertion`.
  processed : Result (Buffering.Stage × Failure E) ProcessResult → Outcome E
  limit_exceeded : Outcome E

abbrev pub all_of : {A B C : Type 0} → Option A → Option B → Option C → Option (A × (B × C))
all_of (some a) (some b) (some c) = some (a, (b, c))
all_of a b c = none

module _ {W E S : Type 0} where
  -- `iosStreamingAudioResources`, where `none` is its `false`.
  unfoldable pub ios_streaming_audio_resources :
      Resources W E S → Option (StateMachine × (Pipeline W E × StreamingProvider W E S))
  ios_streaming_audio_resources a = all_of a.session a.pipeline a.streaming

  -- `iosKeyPressResources`.
  unfoldable pub ios_key_press_resources :
      Resources W E S → Result (Failure E) (StateMachine × Pipeline W E)
  ios_key_press_resources a = do
    machine ← or_fail a.session Failure.no_session
    pipe ← or_fail a.pipeline Failure.no_pipeline
    ok (machine, pipe)

-- `readInitialIOSAudioWireMessage`: the message and what the reader still holds.
unfoldable pub read_initial_ios_audio_wire_message :
    (Bytes → Result WireError EncryptedMessage) → Bytes → Result ReadEnd (EncryptedMessage × Bytes)
read_initial_ios_audio_wire_message decode_wire src = elim (read_frame src) [
  | err e ↦ err (ReadEnd.read_failed e)
  | ok (payload, (opcode, rest)) ↦ elim (opcode == 8) [
    | true ↦ err ReadEnd.close_frame
    | false ↦ elim (decode_wire payload) [
      | err e ↦ err (ReadEnd.undecodable e)
      | ok m ↦ ok (m, rest)
    ]
  ]
]

module _ {W E : Type 0} (reading : Reading E) (connection : Connection W E) where
  -- The rest of `handleIOSKeyPressWireMessage` for a message that is decrypted.
  unfoldable pub press : Pipeline W E → Message → W → W × Ending E
  press pipe (Message.key_press m) w =
      let (w', refused) = handle_ios_key_press pipe m w in
      elim refused [
        | some e ↦
            fail reading connection Streaming.Stage.key_press Phase.process_phase
              (Failure.pipeline_failure e) w'
        | none ↦ reply reading connection [] Ending.key_pressed w'
      ]
  press pipe m w =
      fail reading connection Streaming.Stage.decrypt_decode Phase.process_phase
        Failure.not_a_key_press w

module _ {W E S : Type 0} (reading : Reading E) (connection : Connection W E) (aead : Aead)
    (json : Json) where
  -- `handleIOSKeyPressWireMessage`.
  unfoldable pub handle_ios_key_press_wire_message :
      Resources W E S → Received → W → W × (Option StateMachine × Ending E)
  handle_ios_key_press_wire_message a r w = elim (ios_key_press_resources a) [
    | err e ↦
        let (w', ending) =
          fail reading connection Streaming.Stage.session Phase.session_phase e w in
        (w', (a.session, ending))
    | ok (machine, pipe) ↦
        let (machine', decoded) = decrypt_ios_audio_message aead json machine r in
        elim decoded [
          | err e ↦
              let (w', ending) =
                fail reading connection Streaming.Stage.decrypt_decode Phase.process_phase
                  (Failure.audio_failure e) w in
              (w', (some machine', ending))
          | ok m ↦
              let (w', ending) = press reading connection pipe m w in (w', (some machine', ending))
        ]
  ]

  module _ (clock : ℕ → ℕ × ℕ) where
    -- The branch that buffers, when the loop has ended.
    unfoldable pub buffered : Resources W E S → Buffered → W → W × (Option StateMachine × Outcome E)
    buffered a (Buffered.complete ms) w =
        let (w', (session', r)) = process_encrypted aead json clock a.session a.pipeline ms w in
        (answer reading connection r w', (session', Outcome.processed r))
    buffered a Buffered.limit_exceeded w =
        (refuse_at_limit reading connection w, (a.session, Outcome.limit_exceeded))
    buffered a (Buffered.stopped_reading end) w =
        let (w', ending) = at_read_end reading connection end w in
        (w', (a.session, Outcome.ended ending))

    module _ (decode_wire : Bytes → Result WireError EncryptedMessage) (a : Resources W E S) where
      -- The branches on the first message, with whether it is a key press, and what the reader
      -- still holds.
      unfoldable pub after_first :
          EncryptedMessage → Bytes → Bool → W → W × (Option StateMachine × Outcome E)
      after_first m rest true w =
          let r : Received = record { message = m; now = (clock 0).0; later = (clock 0).1 } in
          let (w', (session', ending)) = handle_ios_key_press_wire_message a r w in
          (w', (session', Outcome.ended ending))
      after_first m rest false w = elim (ios_streaming_audio_resources a) [
        | some (machine, (pipe, provider)) ↦
            let (w', (machine', ending)) =
              handle_streaming reading connection pipe provider aead json decode_wire clock machine
                m rest w in
            (w', (some machine', Outcome.ended ending))
        | none ↦
            let (ms, end) = read_messages decode_wire (length rest) rest in
            buffered a (buffer_messages (m ∷ []) m ms end) w
      ]

      unfoldable pub converse :
          Result ReadEnd (EncryptedMessage × Bytes) → W → W × (Option StateMachine × Outcome E)
      converse (err end) w =
          let (w', ending) = at_read_end reading connection end w in
          (w', (a.session, Outcome.ended ending))
      converse (ok (m, rest)) w = after_first m rest (bytes_eq m.type Types.key_press) w

      -- `handleIOSAudioStream` from the first message on, for what the reader holds.
      unfoldable pub handle_ios_audio_stream : Bytes → W → W × (Option StateMachine × Outcome E)
      handle_ios_audio_stream src w =
          converse (read_initial_ios_audio_wire_message decode_wire src) w
