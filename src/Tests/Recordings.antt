-- ===== src/Tests/Recordings.antt =====
-- Runs of recordings: internal/app/ios_session.go, internal/session/audio_debug.go,
-- internal/asr/wav.go and internal/protocol/codec.go.
use talka.Prelude.{
  ℕ, zero, suc, ◌≡◌, refl, true, false, List, [], ◌∷◌, ◌++◌, map, Result, ok, arith, replicate,
}
use talka.Prelude.Int.{pos}
use talka.Prelude.Bytes.{Bytes, AllBytes, read_full}
use talka.Prelude.Base64.{decode_string, digit, encode_to_string}
use talka.Protocol.{Message}
use talka.Protocol.Codec.{decode, encode, target_of, validate_audio_metadata}
use talka.Protocol.Codec.Laws.{decode-encode}
use talka.Session.{decrypt, open_message, expire_if_idle, encrypt, seal_message, associated_data}
use talka.Session.Replay.{InOrder, accepted}
use talka.Session.Capture.{DiagnosticAudioCapture, encode_pcm16_wav}
use talka.Session.Capture.Streams.{capture_all, Frames, frame_messages, capture_stream}
use talka.Asr.Wav.{decode_pcm16le_wav}
use talka.Asr.Wav.Laws.{decode_pcm16le_wav-encode_pcm16_wav}
use talka.App.Audio.{
  Received, audio_message, decrypt_ios_audio_message, decrypt_from, decrypt_ios_audio_messages,
}
use talka.App.Audio.Delivered.{Carries, send, decrypt_ios_audio_messages-send}
use talka.App.Audio.Sound.{decrypting, seq_of, decrypt_ios_audio_messages_sound}
use talka.App.Audio.Wire.{WireMessage, wire_of}
use talka.Tests.{
  toy_aead, toy_aead-AeadLaws, toy_json, toy_json-JsonLaws, ping, phone, server, recording,
  metadata, audio_start, audio_frame, audio_stop, first_message,
}
use talka.Tests.Sessions.{in_step}

decode-encode_example : decode toy_json (encode toy_json ping) ≡ ok ping
decode-encode_example = decode-encode toy_json toy_json-JsonLaws ping refl refl refl

metadata_valid : validate_audio_metadata metadata ≡ ok tt
unfolding validate_audio_metadata
metadata_valid = refl

one_frame : Frames (9 ∷ []) 0 (audio_frame ∷ []) ((5 ∷ 6 ∷ []) ∷ [])
unfolding decode_string encode_to_string digit
one_frame = (refl, refl, refl, tt)

recording-Carries : Carries toy_json recording (
    Message.audio_start audio_start
    ∷ (frame_messages (audio_frame ∷ []) ++ Message.audio_stop audio_stop ∷ []))
unfolding decode target_of
recording-Carries = (refl, (refl, (refl, tt)))

decrypt_ios_audio_messages-send_example :
    (decrypt_ios_audio_messages toy_aead toy_json server (send toy_aead phone recording)).1
    ≡ ok (metadata, (5 ∷ 6 ∷ []) ∷ [])
decrypt_ios_audio_messages-send_example =
    decrypt_ios_audio_messages-send toy_aead toy_aead-AeadLaws toy_json phone server recording
      audio_start (audio_frame ∷ []) ((5 ∷ 6 ∷ []) ∷ []) audio_stop in_step (omega arith) refl refl
      (refl, refl, refl, (refl, refl, refl, (refl, refl, refl, tt))) recording-Carries
      metadata_valid one_frame refl

recording_decrypted :
    (decrypt_ios_audio_messages toy_aead toy_json server (send toy_aead phone recording)).1
    ≡ ok (metadata, (5 ∷ 6 ∷ []) ∷ [])
unfolding decrypt_ios_audio_messages decrypt_from decrypt_ios_audio_message audio_message decrypt
    open_message expire_if_idle send encrypt seal_message associated_data decode target_of
    validate_audio_metadata decode_string encode_to_string digit read_full
recording_decrypted = refl

abbrev pub received : List Received
received = send toy_aead phone recording

decrypt_ios_audio_messages_sound_example :
    (validate_audio_metadata metadata ≡ ok tt)
    × (accepted toy_aead server (map decrypting received) ≡ map seq_of received)
    × InOrder server.last_remote_seq server.seen_remote_seq (map seq_of received)
decrypt_ios_audio_messages_sound_example =
    decrypt_ios_audio_messages_sound toy_aead toy_json server received metadata ((5 ∷ 6 ∷ []) ∷ [])
      recording_decrypted

abbrev capture : DiagnosticAudioCapture
capture = record {
  enabled = true;
  metadata = record metadata { encoding = [] };
  stream_id = [];
  started = false;
  last_seq = pos 0;
  frame_count = 0;
  pcm = [];
}

capture_stream_example :
    (capture_all capture (
      Message.audio_start audio_start
      ∷ (frame_messages (audio_frame ∷ []) ++ Message.audio_stop audio_stop ∷ []))).1
    ≡ ok (
        record {
          metadata = metadata;
          stream_id = 9 ∷ [];
          frame_count = 1;
          wav = encode_pcm16_wav (5 ∷ 6 ∷ []) metadata;
        }
        ∷ [])
capture_stream_example =
    capture_stream capture audio_start (audio_frame ∷ []) ((5 ∷ 6 ∷ []) ∷ []) audio_stop
      metadata_valid (omega arith) one_frame refl refl

decode_pcm16le_wav-encode_pcm16_wav_example :
    decode_pcm16le_wav (encode_pcm16_wav (5 ∷ 6 ∷ 7 ∷ []) metadata) ≡ ok (5 ∷ 6 ∷ 7 ∷ [])
decode_pcm16le_wav-encode_pcm16_wav_example =
    decode_pcm16le_wav-encode_pcm16_wav (5 ∷ 6 ∷ 7 ∷ []) metadata (omega arith) refl refl

abbrev toy_wire : Bytes → Result Bytes WireMessage
toy_wire payload = ok (wire_of first_message)

zeros-AllBytes : (n : ℕ) → AllBytes (replicate n 0)
zeros-AllBytes zero = tt
zeros-AllBytes (suc n) = (omega arith, zeros-AllBytes n)
