-- ===== src/Asr/Provider.antt =====
-- The provider of internal/asr/provider.go that stands on the client, and what it makes of the
-- messages that the client has collected.
use talka.Prelude.{
  ℕ, ◌+◌, ◌^◌, ◌<◌, ◌≡◌, refl, Bool, true, Option, none, some, List, [], ◌∷◌, ◌++◌, Result, ok, err,
  arith, length, if◌then◌else◌, inl, inr, Bool-cases, ltb,
}
use talka.Prelude.Int.{pos}
use talka.Prelude.Bytes.{Bytes, codes, is_empty}
use talka.Prelude.Text.{trim_space}
use talka.Protocol.{
  version_v1_alpha1, encoding_pcm_s16le, AudioMetadata, AsrPartial, AsrFinal, TextFinal,
}
use talka.Protocol.Codec.{validate_audio_metadata}
use talka.Protocol.Errors
use talka.Asr.Client.{Config, StreamResult, Error, Peer, Conn}
use talka.Asr.Client.Calls.{transcribe}
use talka.Asr.FakeRuntime.{new_session, fake_final_for_frames, hello_text, hello_world_text}
use talka.Asr.FakeRuntime.Serves.{fake_peer, heard, EachBytes, transcribe-served}

-- `asr.Result`.
pub record AsrResult : Type 0 where
  pub partials : List AsrPartial
  pub final_segments : List AsrFinal
  pub transcript : Bytes

abbrev texts : List AsrFinal → Bytes
texts [] = []
texts (m ∷ ms) = m.text ++ texts ms

unfoldable pub join_final_segments : List AsrFinal → Bytes
join_final_segments [] = []
join_final_segments (m ∷ ms) = trim_space (texts (m ∷ ms))

-- The text of `TextFinal`, which is empty in its zero value.
abbrev text_in : Option TextFinal → Bytes
text_in none = []
text_in (some m) = m.text

unfoldable pub result_from_stream_result : StreamResult → AsrResult
result_from_stream_result s =
    let joined = join_final_segments s.finals in
    record {
      partials = s.partials;
      final_segments = s.finals;
      transcript = if is_empty joined then trim_space (text_in s.text_final) else joined;
    }

abbrev converted : {E : Type 0} → Result (Error E) StreamResult → Result (Error E) AsrResult
converted (err e) = err e
converted (ok s) = ok (result_from_stream_result s)

-- `SidecarProvider.Transcribe` over a connection that was dialled.
unfoldable pub sidecar_transcribe :
    {R E : Type 0}
    → Peer R E
    → Config
    → AudioMetadata
    → List Bytes
    → Conn R E
    → Conn R E × Result (Error E) AsrResult
sidecar_transcribe peer config metadata frames c =
    let (c', r) = transcribe peer config metadata frames c in (c', converted r)

-- `runtimeConfig` of `ManagedSidecarProvider`; `url` is that of the manager, if there is one.
unfoldable pub runtime_config : Option Bytes → Config → Config
runtime_config none config = config
runtime_config (some url) config =
    if is_empty (trim_space url) then config else record config { url = trim_space url }

abbrev pub default_audio_metadata : AudioMetadata
default_audio_metadata = record {
  sample_rate = pos 16000;
  channels = pos 1;
  encoding = encoding_pcm_s16le;
  frame_duration_ms = pos 20;
  language = codes "zh-CN";
}

hello_trims : trim_space hello_text ≡ hello_text
unfolding trim_space
hello_trims = refl

hello_world_trims : trim_space hello_world_text ≡ hello_world_text
unfolding trim_space
hello_world_trims = refl

heard_transcript :
    (n : ℕ) (partials : List AsrPartial)
    → (result_from_stream_result (heard n partials)).transcript ≡ fake_final_for_frames (pos n)
unfolding result_from_stream_result join_final_segments fake_final_for_frames
heard_transcript n partials = elim (Bool-cases (ltb n 2)) [
  | inl q ↦ ground (arith, q, hello_trims)
  | inr q ↦ ground (arith, q, hello_world_trims)
]

-- With a version that it knows and valid metadata, and fewer than 2^63 - 1 frames of bytes, the
-- provider on the server that is ready returns a result whose transcript is the final text that the
-- server has for that number of frames.
pub sidecar_transcribe-served :
    {E : Type 0} (error_text : Errors.Error → Bytes) (timed_out closed : E) (is_timeout : E → Bool)
    (config : Config) (metadata : AudioMetadata) (frames : List Bytes)
    → is_timeout timed_out ≡ true
    → config.version ≡ version_v1_alpha1
    → validate_audio_metadata metadata ≡ ok tt
    → length frames + 1 < 2 ^ 63
    → EachBytes error_text timed_out closed is_timeout frames
    → (r : AsrResult) × ((sidecar_transcribe
          (fake_peer error_text timed_out closed is_timeout)
          config
          metadata
          frames
          (record { peer = new_session true; incoming = []; sent = [] })).1
        ≡ ok r)
      × (r.transcript ≡ fake_final_for_frames (pos (length frames)))
unfolding sidecar_transcribe
sidecar_transcribe-served error_text timed_out closed is_timeout config metadata frames quiet
      version valid bound bytes =
    let (partials, e) =
      transcribe-served error_text timed_out closed is_timeout config metadata frames quiet version
        valid bound bytes in
    (
      result_from_stream_result (heard (length frames) partials),
      ground (arith, e),
      heard_transcript (length frames) partials,
    )
