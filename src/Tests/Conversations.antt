-- ===== src/Tests/Conversations.antt =====
-- Runs of `handleIOSAudioStream` of internal/app/ios_websocket.go.
use talka.Prelude.{ℕ, some, [], ◌∷◌, Result, ok}
use talka.Prelude.Bytes.{Bytes}
use talka.Protocol.Types
use talka.Session.{EncryptedMessage}
use talka.App.Audio.Wire.{WireError}
use talka.App.Conversation.{handle_ios_audio_stream}
use talka.App.Conversation.Unpaired.{Harmless, handle_ios_audio_stream-unpaired}
use talka.Tests.{toy_aead, toy_json, metadata}
use talka.Tests.Dictations.{listener, connection, reading, no_providers}

abbrev a_key_press : Bytes → Result WireError EncryptedMessage
a_key_press payload = ok (record {
  version = 1;
  session_id = 7 ∷ [];
  seq = 1;
  type = Types.key_press;
  nonce = [];
  ciphertext = payload;
  tag = [];
})

abbrev no_time : ℕ → ℕ × ℕ
no_time index = (0, 0)

-- A masked frame with two bytes, and one that is cut off.
abbrev frames : Bytes
frames = 129 ∷ 130 ∷ 1 ∷ 2 ∷ 3 ∷ 4 ∷ 5 ∷ 6 ∷ 129 ∷ []

handle_ios_audio_stream-unpaired_example : Harmless (some no_providers) (some listener) (λ a.
    handle_ios_audio_stream reading connection toy_aead toy_json no_time a_key_press a frames
      (metadata, []))
handle_ios_audio_stream-unpaired_example =
    handle_ios_audio_stream-unpaired reading connection toy_aead toy_json no_time
      (some no_providers) (some listener) a_key_press frames (metadata, [])
