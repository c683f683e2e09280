-- ===== src/Tests.antt =====
-- Data to run the code on, and small stand-ins for the parameters of the models: a cipher that
-- appends an empty tag, primitives that copy bytes, and a text format of one byte. The theorems
-- are applied to them in the modules below.
mod Sessions
mod Recordings
mod Dictations
mod Services
mod Pairings
mod Keys
mod Frames
mod Service
mod Endpoints
mod Keychains
mod Drivers
mod Conversations
mod Shutdowns
use talka.Prelude.{
  ℕ, zero, suc, ◌+◌, ◌-◌, Bool, true, false, not, ◌≡◌, refl, Option, none, some, List, [], ◌∷◌,
  ◌++◌, Result, ok, err, arith, length, take, drop, replicate, length-append, length-replicate,
  length-take,
}
use talka.Prelude.Int.{pos}
use talka.Prelude.Bytes.{Bytes, codes, take-length-append, read_full, is_empty}
use talka.Prelude.Base64.{encode_to_string}
use talka.Protocol.{
  version_v1_alpha1, MessageType, Envelope, AudioMetadata, AudioStart, AudioFrame, AudioStop, Ping,
  Message,
}
use talka.Protocol.Types
use talka.Protocol.Codec.{Json}
use talka.Protocol.Codec.Laws.{envelope_of, JsonLaws}
use talka.Session.{Aead, State, StateMachine, EncryptedMessage}
use talka.Session.Peers.{AeadLaws, Delivery}
use talka.Crypto.{Primitives, KeyPair, Transcript}
use talka.Crypto.Keys.{PrimitivesLaws}

abbrev toy_aead : Aead
toy_aead = record {
  seal = λ key nonce text data'. text ++ replicate 16 0;
  unseal = λ key nonce sealed data'. some (take (length sealed - 16) sealed);
}

toy_aead-AeadLaws : AeadLaws toy_aead
toy_aead-AeadLaws = record {
  unseal-seal = λ key nonce text data'. ground (
    arith,
    length-append text (replicate 16 0),
    length-replicate {A = ℕ} 16 0,
    take-length-append text (replicate 16 0),
  );
  length-seal = λ key nonce text data'.
      ground (arith, length-append text (replicate 16 0), length-replicate {A = ℕ} 16 0);
}

abbrev nonce : Bytes
nonce = replicate 12 0

-- The two ends of a session.
abbrev phone : StateMachine
phone = record {
  session_id = 7 ∷ [];
  send_key = replicate 32 1;
  receive_key = replicate 32 2;
  inactivity_timeout = pos 100;
  state = State.active;
  last_activity = 0;
  next_local_seq = 1;
  last_remote_seq = 0;
  seen_remote_seq = [];
}

abbrev server : StateMachine
server = record phone { send_key = replicate 32 2; receive_key = replicate 32 1 }

abbrev first_message : EncryptedMessage
first_message = record {
  version = 1;
  session_id = 7 ∷ [];
  seq = 1;
  type = Types.ping;
  nonce = nonce;
  ciphertext = 3 ∷ [];
  tag = replicate 16 0;
}

-- A recording of one frame.
abbrev envelope : MessageType → Envelope
envelope t = record { version = version_v1_alpha1; type = t }

abbrev metadata : AudioMetadata
metadata = record {
  encoding = codes "pcm_s16le";
  sample_rate = pos 16000;
  channels = pos 1;
  frame_duration_ms = pos 20;
  language = codes "en";
}

abbrev audio_start : AudioStart
audio_start = record {
  envelope = envelope Types.audio_start;
  session_id = 7 ∷ [];
  stream_id = 9 ∷ [];
  metadata = metadata;
}

abbrev audio_frame : AudioFrame
audio_frame = record {
  envelope = envelope Types.audio_frame;
  session_id = 7 ∷ [];
  stream_id = 9 ∷ [];
  sequence = pos 1;
  payload_base64 = encode_to_string (5 ∷ 6 ∷ []);
}

abbrev audio_stop : AudioStop
audio_stop = record {
  envelope = envelope Types.audio_stop;
  session_id = 7 ∷ [];
  stream_id = 9 ∷ [];
  last_sequence = pos 1;
}

abbrev ping : Message
ping = Message.ping (record { envelope = envelope Types.ping; nonce = [] })

-- The message that a text of one byte stands for.
abbrev message_of : Bytes → Message
message_of (suc zero ∷ rest) = Message.audio_start audio_start
message_of (suc (suc zero) ∷ rest) = Message.audio_frame audio_frame
message_of (suc (suc (suc zero)) ∷ rest) = Message.audio_stop audio_stop
message_of other = ping

abbrev toy_json : Json
toy_json = record {
  marshal = λ m. [];
  unmarshal_envelope = λ text. ok (envelope_of (message_of text));
  unmarshal = λ target text. ok (message_of text);
}

abbrev toy_json-JsonLaws : JsonLaws toy_json
toy_json-JsonLaws = record {
  Representable = λ m. m ≡ ping;
  unmarshal_envelope-marshal = λ m e. rw e refl;
  unmarshal-marshal = λ m e. rw e refl;
}

abbrev delivery : ℕ → MessageType → Delivery
delivery n t = record { type = t; plaintext = n ∷ []; nonce = nonce; sent = n; received = n }

abbrev recording : List Delivery
recording =
    delivery 1 Types.audio_start ∷ delivery 2 Types.audio_frame ∷ delivery 3 Types.audio_stop ∷ []

abbrev toy_primitives : Primitives
toy_primitives = record {
  generate_key = λ rand. read_full 2 rand;
  public_of = λ key. key;
  is_private_key = λ key. true;
  is_public_key = λ key. true;
  ecdh = λ private public. some (private ++ public);
  sha256 = λ text. replicate 32 0;
  hmac_sha256 = λ key text. key;
  hkdf_sha256 = λ secret salt info size. some (take size (salt ++ replicate size 1));
}

toy_primitives-PrimitivesLaws : PrimitivesLaws toy_primitives
toy_primitives-PrimitivesLaws = record {
  hkdf_yields = λ secret salt info size h. (
    take size (salt ++ replicate size 1),
    refl,
    ground (
      arith,
      length-take size (salt ++ replicate size 1),
      length-append salt (replicate size 1),
      length-replicate {A = ℕ} size 1,
    ),
  );
}
