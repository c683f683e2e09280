-- ===== src/Asr/FakeRuntime/Serves.antt =====
-- The client of internal/asr/client.go and the server of internal/asr/fake_runtime.go together.
use talka.Prelude.{
  ℕ, ◌+◌, ◌^◌, ◌<◌, ◌≡◌, Bool, true, false, none, some, List, [], ◌∷◌, ◌++◌, Result, ok, err, arith,
  length, if◌then◌else◌, inl, inr, Option-cases,
}
use talka.Prelude.Int.{pos}
use talka.Prelude.Bytes.{Bytes, AllBytes, bytes_eq_refl}
use talka.Prelude.Base64.{decode_string-encode_to_string}
use talka.Protocol.{version_v1_alpha1, AudioMetadata, AsrPartial, AsrFinal, TextFinal, Message}
use talka.Protocol.Types
use talka.Protocol.Codec.{validate_audio_metadata}
use talka.Protocol.Errors
use talka.Asr.Client.{
  Config, Peer, ClientStream, StreamResult, consume_message_with_done, default_session_id,
  default_stream_id, hello_message, start_message, no_stream_result,
}
use talka.Asr.Client.Calls.{
  write_json, drain_until_quiet, read_to_end, accept_frame, accept_frames, finish, greet,
  start_audio, new_stream, transcribe,
}
use talka.Asr.FakeRuntime.{
  StreamState, new_session, serve, serve_session, fake_partial_for_frame, fake_final_for_frames,
  envelope,
}

abbrev delivered : {E : Type 0} → List Message → List (Result E Message)
delivered [] = []
delivered (m ∷ ms) = ok m ∷ delivered ms

-- What the server sends at the stop after `n` frames.
abbrev pub segment_of : ℕ → AsrFinal
segment_of n = record {
  envelope = envelope Types.asr_final;
  session_id = default_session_id;
  stream_id = default_stream_id;
  segment_index = pos 1;
  text = fake_final_for_frames (pos n);
}

abbrev pub text_of : ℕ → TextFinal
text_of n = record {
  envelope = envelope Types.text_final;
  session_id = default_session_id;
  stream_id = default_stream_id;
  text = fake_final_for_frames (pos n);
}

-- The result of `n` frames.
abbrev pub heard : ℕ → List AsrPartial → StreamResult
heard n partials = record {
  partials = partials;
  finals = segment_of n ∷ [];
  text_final = some (text_of n);
}

module _ {E : Type 0} (error_text : Errors.Error → Bytes) (timed_out closed : E)
    (is_timeout : E → Bool) where
  -- The server at the other end; a read finds the connection closed once the session is over.
  abbrev pub fake_peer : Peer StreamState E
  fake_peer = record {
    answer = λ s m.
        let (s', ms) = serve_session error_text s m in
        (s', delivered ms ++ (if s'.over then err closed ∷ [] else []));
    write_error = λ s m. none;
    timed_out = timed_out;
    is_timeout = is_timeout;
  }

  -- A stream after `k` frames.
  abbrev serving : ℕ → StreamState
  serving k = record {
    ready = true;
    started = true;
    session_id = default_session_id;
    stream_id = default_stream_id;
    frames_received = pos k;
    expected_sequence = pos (k + 1);
    over = false;
  }

  abbrev Ready : ℕ → ClientStream StreamState E → Type 0
  Ready k s =
      (s.conn.peer ≡ serving k)
      × (s.conn.incoming ≡ [])
      × (s.sequence ≡ pos k)
      × (s.closed ≡ false)
      × (s.result.finals ≡ [])

  accept_frame-Ready :
      (frame : Bytes) (k : ℕ) (s : ClientStream StreamState E)
      → is_timeout timed_out ≡ true
      → k + 2 < 2 ^ 63
      → AllBytes frame
      → Ready k s
      → ((accept_frame fake_peer (pos (k + 1)) frame s).1 ≡ none)
        × Ready (k + 1) (accept_frame fake_peer (pos (k + 1)) frame s).0
  unfolding accept_frame write_json serve_session serve drain_until_quiet consume_message_with_done
  accept_frame-Ready frame k s quiet bound bytes ready =
      elim (Option-cases (fake_partial_for_frame (pos (k + 1)))) [
        | inl q ↦ ground (arith, quiet, q, decode_string-encode_to_string frame bytes)
        | inr (text, q) ↦ ground (arith, quiet, q, decode_string-encode_to_string frame bytes)
      ]

  abbrev pub EachBytes : List Bytes → Type 0
  EachBytes [] = Unit {0}
  EachBytes (f ∷ fs) = AllBytes f × EachBytes fs

  accept_frames-Ready :
      (frames : List Bytes) (k : ℕ) (s : ClientStream StreamState E)
      → is_timeout timed_out ≡ true
      → k + length frames + 1 < 2 ^ 63
      → EachBytes frames
      → Ready k s
      → ((accept_frames fake_peer k frames s).1 ≡ none)
        × Ready (k + length frames) (accept_frames fake_peer k frames s).0
  unfolding accept_frames
  accept_frames-Ready [] k s quiet bound bytes ready = ground arith
  accept_frames-Ready (f ∷ fs) k s quiet bound (b, bytes) ready =
      let (e, next) = accept_frame-Ready f k s quiet (omega arith) b ready in
      let rest =
        accept_frames-Ready fs (k + 1) (accept_frame fake_peer (pos (k + 1)) f s).0 quiet
          (omega arith) bytes next in
      ground (arith, e, rest)

  finish-Ready :
      (k : ℕ) (s : ClientStream StreamState E)
      → Ready k s
      → (finish fake_peer s).1 ≡ ok (heard k s.result.partials)
  unfolding finish write_json serve_session serve read_to_end consume_message_with_done
  finish-Ready k s ready = ground arith

  new_stream-Ready :
      (config : Config) (metadata : AudioMetadata)
      → is_timeout timed_out ≡ true
      → config.version ≡ version_v1_alpha1
      → validate_audio_metadata metadata ≡ ok tt
      → (s : ClientStream StreamState E) × ((new_stream fake_peer config metadata
            (record { peer = new_session true; incoming = []; sent = [] })).1
          ≡ ok (some s))
        × Ready 0 s
  unfolding new_stream greet start_audio new_session write_json serve_session serve
      drain_until_quiet consume_message_with_done
  new_stream-Ready config metadata quiet version valid =
      let s : ClientStream StreamState E = record {
        version = config.version;
        conn = record {
          peer = serving 0;
          incoming = [];
          sent = hello_message config.version ∷ start_message config.version metadata ∷ [];
        };
        result = no_stream_result;
        metadata = metadata;
        sequence = pos 0;
        closed = false;
      } in
      (
        s,
        ground (arith, quiet, version, valid, bytes_eq_refl version_v1_alpha1),
        ground (arith, version),
      )

  -- With a version that it knows and valid metadata, and fewer than 2^63 - 1 frames of bytes, a
  -- transcription on the server that is ready succeeds: its result holds the one final segment and
  -- the final text that the server has for that number of frames.
  pub transcribe-served :
      (config : Config) (metadata : AudioMetadata) (frames : List Bytes)
      → is_timeout timed_out ≡ true
      → config.version ≡ version_v1_alpha1
      → validate_audio_metadata metadata ≡ ok tt
      → length frames + 1 < 2 ^ 63
      → EachBytes frames
      → (partials : List AsrPartial) × ((transcribe fake_peer config metadata frames
            (record { peer = new_session true; incoming = []; sent = [] })).1
          ≡ ok (heard (length frames) partials))
  unfolding transcribe
  transcribe-served config metadata frames quiet version valid bound bytes =
      let (s, begun, ready) = new_stream-Ready config metadata quiet version valid in
      let (e, served) = accept_frames-Ready frames 0 s quiet (omega arith) bytes ready in
      let out = (accept_frames fake_peer 0 frames s).0 in
      (out.result.partials, ground (arith, begun, e, finish-Ready (0 + length frames) out served))
