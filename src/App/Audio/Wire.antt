-- ===== src/App/Audio/Wire.antt =====
-- `decodeIOSAudioWireMessage` and the choices that the buffering loop makes
-- (internal/app/ios_websocket.go). `encoding/json` is the parameter of the decoder.
use talka.Prelude.{
  ℕ, ◌%◌, Bool, true, not, ◌||◌, ◌≡◌, Result, ok, err, ◌>>=◌, or_fail, leb, ◌==◌, arith,
  if◌then◌else◌,
}
use talka.Prelude.Bytes.{Bytes, AllBytes, bytes_eq}
use talka.Prelude.Base64.{decode_string, encode_to_string, decode_string-encode_to_string}
use talka.Protocol.{MessageType}
use talka.Protocol.Types
use talka.Session.{EncryptedMessage}

-- `iosAudioWireMessage`.
pub record WireMessage : Type 0 where
  pub version : ℕ
  pub session_id : Bytes
  pub seq : ℕ
  pub type : MessageType
  pub nonce : Bytes
  pub ciphertext : Bytes
  pub tag : Bytes

pub data WireError : Type 0 where
  json_error : Bytes → WireError
  session_id_not_base64 nonce_not_base64 ciphertext_not_base64 tag_not_base64 : WireError

abbrev json_result {ℓ} : {A : Type ℓ} → Result Bytes A → Result WireError A
json_result (ok a) = ok a
json_result (err text) = err (WireError.json_error text)

module _ (unmarshal : Bytes → Result Bytes WireMessage) where
  pub decode_ios_audio_wire_message : Bytes → Result WireError EncryptedMessage
  decode_ios_audio_wire_message payload = do
    wire ← json_result (unmarshal payload)
    id ← or_fail (decode_string wire.session_id) WireError.session_id_not_base64
    n ← or_fail (decode_string wire.nonce) WireError.nonce_not_base64
    text ← or_fail (decode_string wire.ciphertext) WireError.ciphertext_not_base64
    t ← or_fail (decode_string wire.tag) WireError.tag_not_base64
    ok (record {
      version = wire.version;
      session_id = id;
      seq = wire.seq;
      type = wire.type;
      nonce = n;
      ciphertext = text;
      tag = t;
    })

-- `shouldLogIOSAudioMessage` and `iosWebSocketCanBuffer`.
should_log_ios_audio_message : EncryptedMessage → ℕ → Bool
should_log_ios_audio_message m buffered =
    if not (bytes_eq m.type Types.audio_frame) then true else buffered == 2 || m.seq % 50 == 0

unfoldable pub ios_web_socket_can_buffer : ℕ → Bool
ios_web_socket_can_buffer n = leb n 10000

-- The fields of a message as the phone puts them on the wire.
pub wire_of : EncryptedMessage → WireMessage
wire_of m = record {
  version = m.version;
  session_id = encode_to_string m.session_id;
  seq = m.seq;
  type = m.type;
  nonce = encode_to_string m.nonce;
  ciphertext = encode_to_string m.ciphertext;
  tag = encode_to_string m.tag;
}

-- A text that is read as a message whose four byte fields are in base64 is decoded to those bytes,
-- with the other fields kept.
pub decode_ios_audio_wire_message-wire_of :
    (unmarshal : Bytes → Result Bytes WireMessage) (payload : Bytes) (m : EncryptedMessage)
    → AllBytes m.session_id
    → AllBytes m.nonce
    → AllBytes m.ciphertext
    → AllBytes m.tag
    → unmarshal payload ≡ ok (wire_of m)
    → decode_ios_audio_wire_message unmarshal payload ≡ ok m
unfolding decode_ios_audio_wire_message wire_of
decode_ios_audio_wire_message-wire_of unmarshal payload m hs hn hc ht e = ground (
  arith,
  decode_string-encode_to_string m.session_id hs,
  decode_string-encode_to_string m.nonce hn,
  decode_string-encode_to_string m.ciphertext hc,
  decode_string-encode_to_string m.tag ht,
)
