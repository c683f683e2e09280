-- ===== src/Protocol/Codec/Laws.antt =====
-- What `Decode` and `ValidateAudioMetadata` (internal/protocol/codec.go) accept.
use talka.Prelude.{◌≡◌, refl, ◌↔◌, ◌≢◌, some, ok, arith, []}
use talka.Prelude.Int.{pos, ==ℤ_iff}
use talka.Prelude.Bytes.{bytes_eq_iff}
use talka.Protocol.{
  version_v1_alpha1, MessageType, encoding_pcm_s16le, Envelope, AudioMetadata, Message,
}
use talka.Protocol.Codec.{Json, Target, target_of, encode, decode, validate_audio_metadata}
use talka.Protocol.Types

-- The envelope that a message carries, and the struct that it is.
abbrev pub envelope_of : Message → Envelope
envelope_of (Message.client_hello m) = m.envelope
envelope_of (Message.server_hello m) = m.envelope
envelope_of (Message.pairing_confirm m) = m.envelope
envelope_of (Message.session_resume m) = m.envelope
envelope_of (Message.audio_start m) = m.envelope
envelope_of (Message.audio_frame m) = m.envelope
envelope_of (Message.audio_stop m) = m.envelope
envelope_of (Message.audio_cancel m) = m.envelope
envelope_of (Message.key_press m) = m.envelope
envelope_of (Message.asr_partial m) = m.envelope
envelope_of (Message.asr_final m) = m.envelope
envelope_of (Message.text_final m) = m.envelope
envelope_of (Message.error_message m) = m.envelope
envelope_of (Message.ping m) = m.envelope

abbrev pub struct_of : Message → Target
struct_of (Message.client_hello m) = Target.client_hello
struct_of (Message.server_hello m) = Target.server_hello
struct_of (Message.pairing_confirm m) = Target.pairing_confirm
struct_of (Message.session_resume m) = Target.session_resume
struct_of (Message.audio_start m) = Target.audio_start
struct_of (Message.audio_frame m) = Target.audio_frame
struct_of (Message.audio_stop m) = Target.audio_stop
struct_of (Message.audio_cancel m) = Target.audio_cancel
struct_of (Message.key_press m) = Target.key_press
struct_of (Message.asr_partial m) = Target.asr_partial
struct_of (Message.asr_final m) = Target.asr_final
struct_of (Message.text_final m) = Target.text_final
struct_of (Message.error_message m) = Target.error_message
struct_of (Message.ping m) = Target.ping

-- The message type that the source writes into a struct's envelope.
abbrev pub type_of : Target → MessageType
type_of Target.client_hello = Types.client_hello
type_of Target.server_hello = Types.server_hello
type_of Target.pairing_confirm = Types.pairing_confirm
type_of Target.session_resume = Types.session_resume
type_of Target.audio_start = Types.audio_start
type_of Target.audio_frame = Types.audio_frame
type_of Target.audio_stop = Types.audio_stop
type_of Target.audio_cancel = Types.audio_cancel
type_of Target.key_press = Types.key_press
type_of Target.asr_partial = Types.asr_partial
type_of Target.asr_final = Types.asr_final
type_of Target.text_final = Types.text_final
type_of Target.error_message = Types.error
type_of Target.ping = Types.ping

-- What is documented of `encoding/json`: for a message that it can represent (all of whose strings
-- are valid UTF-8) the written text reads back as the message, and its envelope as the envelope;
-- and a target is filled in with its own fields.
pub record JsonLaws (json : Json) : Type 1 where
  pub Representable : Message → Type 0
  pub unmarshal_envelope-marshal :
      (m : Message)
      → Representable m
      → json.unmarshal_envelope (json.marshal m) ≡ ok (envelope_of m)
  pub unmarshal-marshal :
      (m : Message) → Representable m → json.unmarshal (struct_of m) (json.marshal m) ≡ ok m

target_of-type_of : (t : Target) → target_of (type_of t) ≡ some t
unfolding target_of
target_of-type_of Target.client_hello = refl
target_of-type_of t = refl

-- Decoding what was encoded gives the message back, for each of the fourteen structs, if the text
-- format can represent it and its envelope has the protocol's version and the struct's message type.
pub decode-encode :
    (json : Json) (laws : JsonLaws json) (m : Message)
    → laws.Representable m
    → (envelope_of m).version ≡ version_v1_alpha1
    → (envelope_of m).type ≡ type_of (struct_of m)
    → decode json (encode json m) ≡ ok m
unfolding decode encode
decode-encode json laws m r v t =
    rw
      (
        laws.unmarshal_envelope-marshal m r,
        v,
        t,
        target_of-type_of (struct_of m),
        laws.unmarshal-marshal m r,
      )
      refl

-- The metadata that is accepted is exactly 16 kHz mono PCM in frames of 20 ms with a language.
pub validate_audio_metadata_iff :
    (m : AudioMetadata)
    → ((validate_audio_metadata m ≡ ok tt) ↔ (
        (m.encoding ≡ encoding_pcm_s16le)
        × (m.sample_rate ≡ pos 16000)
        × (m.channels ≡ pos 1)
        × (m.frame_duration_ms ≡ pos 20)
        × (m.language ≢ [])))
unfolding validate_audio_metadata
validate_audio_metadata_iff m =
    ground (arith, bytes_eq_iff m.encoding encoding_pcm_s16le, ==ℤ_iff m.sample_rate (pos 16000))
