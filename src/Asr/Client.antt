-- ===== src/Asr/Client.antt =====
-- internal/asr/client.go: the client of a recogniser that runs as a server beside the program. What
-- the server answers to each message is the parameter `Peer`; the frames of the connection are those
-- of Asr/Websocket.antt.
pub mod Calls
pub mod Sent
use talka.Prelude.{
  ◌+◌, Bool, true, false, not, Option, none, some, List, [], ◌∷◌, ◌++◌, Result, ok, err,
  if◌then◌else◌,
}
use talka.Prelude.Int.{ℤ, pos, is_positive}
use talka.Prelude.Bytes.{Bytes, codes, is_empty}
use talka.Prelude.Base64.{encode_to_string}
use talka.Protocol.{
  version_v1_alpha1, MessageType, Envelope, AudioMetadata, AsrPartial, AsrFinal, TextFinal, Message,
}
use talka.Protocol.Types
use talka.Protocol.Codes
use talka.Protocol.Errors
use talka.Protocol.Errors.{new_error, as_error}

abbrev pub default_session_id : Bytes
default_session_id = codes "session-1"

abbrev pub default_stream_id : Bytes
default_stream_id = codes "stream-1"

abbrev default_client_name : Bytes
default_client_name = codes "talka-go"

-- A timeout is in nanoseconds.
pub record Config : Type 0 where
  pub url : Bytes
  pub version : Bytes
  pub timeout : ℤ

-- `NewClient`.
unfoldable pub new_client : Config → Config
new_client config = record {
  url = if is_empty config.url then codes "ws://127.0.0.1:19080/ws" else config.url;
  version = if is_empty config.version then version_v1_alpha1 else config.version;
  timeout = if is_positive config.timeout then config.timeout else pos 2000000000;
}

-- `none` is the zero value of a message that has not come.
pub record StreamResult : Type 0 where
  pub partials : List AsrPartial
  pub finals : List AsrFinal
  pub text_final : Option TextFinal

abbrev pub no_stream_result : StreamResult
no_stream_result = record { partials = []; finals = []; text_final = none }

pub data Error (E : Type 0) : Type 0 where
  protocol_error : Errors.Error → Error E
  transport_error : E → Error E
  -- The use of a nil stream, at which the source panics.
  nil_stream : Error E

-- `consumeMessageWithDone`, which changes the result only if there is no error; a format's `%T` is
-- left out.
unfoldable pub consume_message_with_done :
    Message → StreamResult → Result Errors.Error (StreamResult × Bool)
consume_message_with_done (Message.server_hello m) r =
    if m.ready
    then ok (r, false)
    else err (new_error Codes.sidecar_unavailable (codes "sidecar is not ready") [])
consume_message_with_done (Message.asr_partial m) r =
    ok (record r { partials = r.partials ++ m ∷ [] }, false)
consume_message_with_done (Message.asr_final m) r =
    ok (record r { finals = r.finals ++ m ∷ [] }, false)
consume_message_with_done (Message.text_final m) r = ok (record r { text_final = some m }, true)
consume_message_with_done (Message.error_message m) r = err (as_error m)
consume_message_with_done m r =
    err (new_error Codes.unexpected_message_type (codes "unexpected runtime message %T") [])

-- The other end, in a state `R`: what it sends when a message reaches it, whether the write of a
-- message fails, the error of a read that finds nothing before its deadline, and the test of such an
-- error.
pub record Peer (R E : Type 0) : Type 0 where
  pub answer : R → Message → R × List (Result E Message)
  pub write_error : R → Message → Option E
  pub timed_out : E
  pub is_timeout : E → Bool

-- A connection: what has come and is not read, and what was sent.
pub record Conn (R E : Type 0) : Type 0 where
  pub peer : R
  pub incoming : List (Result E Message)
  pub sent : List Message

pub record ClientStream (R E : Type 0) : Type 0 where
  pub version : Bytes
  pub conn : Conn R E
  pub result : StreamResult
  pub metadata : AudioMetadata
  pub sequence : ℤ
  pub closed : Bool

abbrev pub envelope : Bytes → MessageType → Envelope
envelope version type = record { version = version; type = type }

abbrev pub hello_message : Bytes → Message
hello_message version = Message.client_hello (record {
  envelope = envelope version Types.client_hello;
  client_name = default_client_name;
  session_id = default_session_id;
})

abbrev pub start_message : Bytes → AudioMetadata → Message
start_message version metadata = Message.audio_start (record {
  envelope = envelope version Types.audio_start;
  session_id = default_session_id;
  stream_id = default_stream_id;
  metadata = metadata;
})

abbrev pub frame_message : Bytes → ℤ → Bytes → Message
frame_message version sequence frame = Message.audio_frame (record {
  envelope = envelope version Types.audio_frame;
  session_id = default_session_id;
  stream_id = default_stream_id;
  sequence = sequence;
  payload_base64 = encode_to_string frame;
})

abbrev pub stop_message : Bytes → ℤ → Message
stop_message version sequence = Message.audio_stop (record {
  envelope = envelope version Types.audio_stop;
  session_id = default_session_id;
  stream_id = default_stream_id;
  last_sequence = sequence;
})
