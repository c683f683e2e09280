-- ===== src/Asr/FakeRuntime.antt =====
-- internal/asr/fake_runtime.go: the recogniser that stands in for a real one, as the messages of a
-- session reach it. An error of a write to the client is not read there.
pub mod Serves
use talka.Prelude.{
  ℕ, ◌+◌, Bool, true, false, not, Option, none, some, List, [], ◌∷◌, Result, ok, err, ◌==◌, ltb,
  if◌then◌else◌,
}
use talka.Prelude.Int.{ℤ, pos, next_int, ltb_ℤ, ◌==ℤ◌}
use talka.Prelude.Bytes.{Bytes, codes, bytes_eq}
use talka.Prelude.Base64.{decode_string}
use talka.Protocol.{version_v1_alpha1, MessageType, Envelope, ErrorCode, Message}
use talka.Protocol.Codec.{validate_audio_metadata}
use talka.Protocol.Types
use talka.Protocol.Codes
use talka.Protocol.Errors

-- The fields that the code uses; `over` once it has returned from the session.
pub record StreamState : Type 0 where
  pub ready : Bool
  pub started : Bool
  pub session_id : Bytes
  pub stream_id : Bytes
  pub frames_received : ℤ
  pub expected_sequence : ℤ
  pub over : Bool

unfoldable pub new_session : Bool → StreamState
new_session ready = record {
  ready = ready;
  started = false;
  session_id = [];
  stream_id = [];
  frames_received = pos 0;
  expected_sequence = pos 1;
  over = false;
}

-- The words "nihao", in Chinese, and those for "hello, world".
abbrev pub hello_text : Bytes
hello_text = 228 ∷ 189 ∷ 160 ∷ 229 ∷ 165 ∷ 189 ∷ []

abbrev pub hello_world_text : Bytes
hello_world_text =
    228 ∷ 189 ∷ 160 ∷ 229 ∷ 165 ∷ 189 ∷ 239 ∷ 188 ∷ 140 ∷ 228 ∷ 184 ∷ 150 ∷ 231 ∷ 149 ∷ 140 ∷ []

-- `fakePartialForFrame`; its text is used only if the test holds.
unfoldable pub fake_partial_for_frame : ℤ → Option Bytes
fake_partial_for_frame n =
    if n ==ℤ pos 1 then some hello_text else if n ==ℤ pos 2 then some hello_world_text else none

-- `fakeFinalForFrames`.
unfoldable pub fake_final_for_frames : ℤ → Bytes
fake_final_for_frames n = if ltb_ℤ n (pos 2) then hello_text else hello_world_text

abbrev pub envelope : MessageType → Envelope
envelope type = record { version = version_v1_alpha1; type = type }

-- `writeProtocolError`.
abbrev pub protocol_error : ErrorCode → Bytes → Message
protocol_error code message =
    Message.error_message
      (record { envelope = envelope Types.error; code = code; message = message })

-- An error goes to the client, and the session is over.
abbrev refuse : StreamState → ErrorCode → Bytes → StreamState × List Message
refuse s code message = (record s { over = true }, protocol_error code message ∷ [])

abbrev pub server_hello : Message
server_hello = Message.server_hello (record {
  envelope = envelope Types.server_hello;
  runtime_name = codes "fake-asr";
  ready = true;
})

abbrev pub partial : StreamState → ℤ → Bytes → Message
partial s n text = Message.asr_partial (record {
  envelope = envelope Types.asr_partial;
  session_id = s.session_id;
  stream_id = s.stream_id;
  segment_index = n;
  text = text;
})

abbrev pub final_segment : StreamState → Bytes → Message
final_segment s text = Message.asr_final (record {
  envelope = envelope Types.asr_final;
  session_id = s.session_id;
  stream_id = s.stream_id;
  segment_index = pos 1;
  text = text;
})

abbrev pub final_text : StreamState → Bytes → Message
final_text s text = Message.text_final (record {
  envelope = envelope Types.text_final;
  session_id = s.session_id;
  stream_id = s.stream_id;
  text = text;
})

abbrev partials : StreamState → ℤ → List Message
partials s n = elim (fake_partial_for_frame n) [ none ↦ [] | some text ↦ partial s n text ∷ [] ]

-- The switch of `serveSession`; `error_text` is `Error` of an error.
module _ (error_text : Errors.Error → Bytes) where
  unfoldable pub serve : StreamState → Message → StreamState × List Message
  serve s (Message.client_hello m) =
      if not s.ready
      then refuse s Codes.sidecar_unavailable (codes "fake runtime is not ready")
      else if not (bytes_eq m.envelope.version version_v1_alpha1)
      then refuse s Codes.invalid_version (codes "unsupported protocol version")
      else (s, server_hello ∷ [])
  serve s (Message.audio_start m) = elim (validate_audio_metadata m.metadata) [
    | err e ↦ refuse s e.err_code (error_text e)
    | ok x ↦ (record s { started = true; session_id = m.session_id; stream_id = m.stream_id }, [])
  ]
  serve s (Message.audio_frame m) =
      if not s.started
      then refuse s Codes.invalid_message (codes "audio_start is required before audio_frame")
      else if not (m.sequence ==ℤ s.expected_sequence)
      then refuse s Codes.out_of_order_audio_frame (codes "audio frames must arrive sequentially")
      else (elim (decode_string m.payload_base64) [
        | none ↦ refuse s Codes.invalid_message (codes "audio frame payload must be valid base64")
        | some payload ↦
            let n = next_int s.frames_received in
            (
              record s { expected_sequence = next_int s.expected_sequence; frames_received = n },
              partials s n,
            )
      ])
  serve s (Message.audio_stop m) =
      let text = fake_final_for_frames s.frames_received in
      (record s { over = true }, final_segment s text ∷ final_text s text ∷ [])
  serve s (Message.ping m) =
      (s, Message.ping (record { envelope = envelope Types.ping; nonce = m.nonce }) ∷ [])
  serve s m = refuse s Codes.unexpected_message_type (codes "unsupported message for fake runtime")

  -- `serveSession`: once it has returned, the connection is closed and nothing is answered.
  unfoldable pub serve_session : StreamState → Message → StreamState × List Message
  serve_session s m = if s.over then (s, []) else serve s m
