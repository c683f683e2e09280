-- ===== src/Protocol.antt =====
-- internal/protocol/types.go: the messages of the audio protocol. A Go string is its bytes.
pub mod Types
pub mod Codes
pub mod Errors
pub mod Codec
use talka.Prelude.{ℕ, Bool, List}
use talka.Prelude.Int.{ℤ}
use talka.Prelude.Bytes.{Bytes, codes}

abbrev pub version_v1_alpha1 : Bytes
version_v1_alpha1 = codes "v1alpha1"

abbrev pub MessageType : Type 0
MessageType = Bytes

abbrev pub encoding_pcm_s16le : Bytes
encoding_pcm_s16le = codes "pcm_s16le"

pub record Envelope : Type 0 where
  pub version : Bytes
  pub type : MessageType

pub record AudioMetadata : Type 0 where
  pub sample_rate : ℤ
  pub channels : ℤ
  pub encoding : Bytes
  pub frame_duration_ms : ℤ
  pub language : Bytes

pub record ClientHello : Type 0 where
  pub envelope : Envelope
  pub client_name : Bytes
  pub session_id : Bytes

pub record ServerHello : Type 0 where
  pub envelope : Envelope
  pub runtime_name : Bytes
  pub ready : Bool

pub record PairingConfirm : Type 0 where
  pub envelope : Envelope
  pub session_id : Bytes
  pub pairing_id : Bytes

pub record SessionResume : Type 0 where
  pub envelope : Envelope
  pub session_id : Bytes

pub record AudioStart : Type 0 where
  pub envelope : Envelope
  pub session_id : Bytes
  pub stream_id : Bytes
  pub metadata : AudioMetadata

pub record AudioFrame : Type 0 where
  pub envelope : Envelope
  pub session_id : Bytes
  pub stream_id : Bytes
  pub sequence : ℤ
  pub payload_base64 : Bytes

pub record AudioStop : Type 0 where
  pub envelope : Envelope
  pub session_id : Bytes
  pub stream_id : Bytes
  pub last_sequence : ℤ

pub record AudioCancel : Type 0 where
  pub envelope : Envelope
  pub session_id : Bytes
  pub stream_id : Bytes
  pub reason : Bytes

abbrev pub KeyModifier : Type 0
KeyModifier = Bytes

pub record KeyPress : Type 0 where
  pub envelope : Envelope
  pub session_id : Bytes
  pub key : Bytes
  pub modifiers : List KeyModifier

pub record AsrPartial : Type 0 where
  pub envelope : Envelope
  pub session_id : Bytes
  pub stream_id : Bytes
  pub segment_index : ℤ
  pub text : Bytes

pub record AsrFinal : Type 0 where
  pub envelope : Envelope
  pub session_id : Bytes
  pub stream_id : Bytes
  pub segment_index : ℤ
  pub text : Bytes

pub record TextFinal : Type 0 where
  pub envelope : Envelope
  pub session_id : Bytes
  pub stream_id : Bytes
  pub text : Bytes

abbrev pub ErrorCode : Type 0
ErrorCode = Bytes

pub record ErrorMessage : Type 0 where
  pub envelope : Envelope
  pub code : ErrorCode
  pub message : Bytes

pub record Ping : Type 0 where
  pub envelope : Envelope
  pub nonce : Bytes

-- What `Decode` returns as `any`, and `Encode` takes.
pub data Message : Type 0 where
  client_hello : ClientHello → Message
  server_hello : ServerHello → Message
  pairing_confirm : PairingConfirm → Message
  session_resume : SessionResume → Message
  audio_start : AudioStart → Message
  audio_frame : AudioFrame → Message
  audio_stop : AudioStop → Message
  audio_cancel : AudioCancel → Message
  key_press : KeyPress → Message
  asr_partial : AsrPartial → Message
  asr_final : AsrFinal → Message
  text_final : TextFinal → Message
  error_message : ErrorMessage → Message
  ping : Ping → Message
