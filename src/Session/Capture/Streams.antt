-- ===== src/Session/Capture/Streams.antt =====
-- What internal/session/audio_debug.go makes of a whole stream.
use mathlib.Core.List.{append_assoc, append-nil}
use talka.Prelude.{
  ℕ, ◌+◌, ◌^◌, ◌<◌, ◌≡◌, refl, ap, true, some, List, [], ◌∷◌, ◌++◌, ok, err, arith, length,
  if◌then◌else◌,
}
use talka.Prelude.Int.{pos, ==ℤ_iff}
use talka.Prelude.Bytes.{Bytes, bytes_eq_iff}
use talka.Prelude.Base64.{decode_string}
use talka.Protocol.{AudioStart, AudioFrame, AudioStop, Message}
use talka.Protocol.Codec.{validate_audio_metadata}
use talka.Session.Capture.{
  Error, DiagnosticAudioCapture, DiagnosticAudioCaptureResult, Step, capture_message,
  encode_pcm16_wav,
}

abbrev prepend : List DiagnosticAudioCaptureResult → Step → Step
prepend rs (c, err e) = (c, err e)
prepend rs (c, ok more) = (c, ok (rs ++ more))

-- A caller that stops at the first error.
pub capture_all : DiagnosticAudioCapture → List Message → Step
capture_all c [] = (c, ok [])
capture_all c (m ∷ ms) =
    let (c', r) = capture_message c m in
    elim r [ err e ↦ (c', err e) | ok rs ↦ prepend rs (capture_all c' ms) ]

-- The frames of a stream after the first `k`, with their payloads.
abbrev pub Frames : Bytes → ℕ → List AudioFrame → List Bytes → Type 0
Frames stream k [] [] = Unit {0}
Frames stream k [] (p ∷ ps) = ⊥
Frames stream k (m ∷ ms) [] = ⊥
Frames stream k (m ∷ ms) (p ∷ ps) =
    (m.stream_id ≡ stream)
    × (m.sequence ≡ pos (k + 1))
    × (decode_string m.payload_base64 ≡ some p)
    × Frames stream (k + 1) ms ps

abbrev pub join : List Bytes → Bytes
join [] = []
join (p ∷ ps) = p ++ join ps

abbrev pub frame_messages : List AudioFrame → List Message
frame_messages [] = []
frame_messages (m ∷ ms) = Message.audio_frame m ∷ frame_messages ms

capture_frame_next :
    (c : DiagnosticAudioCapture) (k : ℕ) (m : AudioFrame) (p : Bytes)
    → c.started ≡ true
    → c.last_seq ≡ pos k
    → k + 1 < 2 ^ 63
    → m.stream_id ≡ c.stream_id
    → m.sequence ≡ pos (k + 1)
    → decode_string m.payload_base64 ≡ some p
    → capture_message c (Message.audio_frame m) ≡ (
      record c {
        pcm = if c.enabled then c.pcm ++ p else c.pcm;
        last_seq = pos (k + 1);
        frame_count = c.frame_count + 1;
      },
      ok [],
    )
unfolding capture_message
capture_frame_next c k m p started last bound stream number payload =
    ground (arith, bytes_eq_iff m.stream_id c.stream_id, payload)

-- The result at the stop of a stream with these payloads after those captured.
abbrev result_of : DiagnosticAudioCapture → List Bytes → DiagnosticAudioCaptureResult
result_of c ps = record {
  metadata = c.metadata;
  stream_id = c.stream_id;
  frame_count = c.frame_count + length ps;
  wav = if c.enabled then encode_pcm16_wav (c.pcm ++ join ps) c.metadata else [];
}

capture_stop_next :
    (c : DiagnosticAudioCapture) (stop : AudioStop)
    → c.started ≡ true
    → stop.stream_id ≡ c.stream_id
    → stop.last_sequence ≡ c.last_seq
    → capture_all c (Message.audio_stop stop ∷ []) ≡ (c, ok (result_of c [] ∷ []))
unfolding capture_message capture_all
capture_stop_next c stop started stream last = ground (
  arith,
  bytes_eq_iff stop.stream_id c.stream_id,
  ==ℤ_iff stop.last_sequence c.last_seq,
  append-nil c.pcm,
)

-- Through the frames to the stop.
capture_rest :
    (c : DiagnosticAudioCapture) (k : ℕ) (ms : List AudioFrame) (ps : List Bytes) (stop : AudioStop)
    → c.started ≡ true
    → c.last_seq ≡ pos k
    → k + length ps < 2 ^ 63
    → Frames c.stream_id k ms ps
    → stop.stream_id ≡ c.stream_id
    → stop.last_sequence ≡ pos (k + length ps)
    → (capture_all c (frame_messages ms ++ Message.audio_stop stop ∷ [])).1
      ≡ ok (result_of c ps ∷ [])
unfolding capture_all
capture_rest c k [] [] stop started last bound frames stream number =
    ap (λ (s : Step). s.1) (capture_stop_next c stop started stream (ground arith))
capture_rest c k [] (p ∷ ps) stop started last bound frames stream number = absurd frames
capture_rest c k (m ∷ ms) [] stop started last bound frames stream number = absurd frames
capture_rest c k (m ∷ ms) (p ∷ ps) stop started last bound (s, n, d, frames) stream number =
    let c' : DiagnosticAudioCapture = record c {
      pcm = if c.enabled then c.pcm ++ p else c.pcm;
      last_seq = pos (k + 1);
      frame_count = c.frame_count + 1;
    } in
    ground (
      arith,
      capture_frame_next c k m p started last (omega arith) s n d,
      capture_rest c' (k + 1) ms ps stop started refl (omega arith) frames stream (ground arith),
      append_assoc c.pcm p (join ps),
    )

-- A stream of fewer than 2^63 frames that starts with valid metadata, whose frames carry the numbers 1, 2, ... and decode to
-- `ps`, and that stops at the number of its last frame, yields at its stop one result: the count of
-- the frames and, if the capture is enabled, the WAV file of all payloads in order. Whatever was
-- captured before the start is dropped.
pub capture_stream :
    (c : DiagnosticAudioCapture) (start : AudioStart) (ms : List AudioFrame) (ps : List Bytes)
    (stop : AudioStop)
    → validate_audio_metadata start.metadata ≡ ok tt
    → length ps < 2 ^ 63
    → Frames start.stream_id 0 ms ps
    → stop.stream_id ≡ start.stream_id
    → stop.last_sequence ≡ pos (length ps)
    → (capture_all c
        (Message.audio_start start ∷ (frame_messages ms ++ Message.audio_stop stop ∷ []))).1
      ≡ ok (
          record {
            metadata = start.metadata;
            stream_id = start.stream_id;
            frame_count = length ps;
            wav = if c.enabled then encode_pcm16_wav (join ps) start.metadata else [];
          }
          ∷ [])
unfolding capture_all capture_message
capture_stream c start ms ps stop valid bound frames stream number =
    let c' : DiagnosticAudioCapture = record c {
      metadata = start.metadata;
      stream_id = start.stream_id;
      started = true;
      last_seq = pos 0;
      frame_count = 0;
      pcm = [];
    } in
    ground (
      arith,
      valid,
      capture_rest c' 0 ms ps stop refl refl (omega arith) frames stream (ground arith),
    )

-- A message that is refused, for whatever reason, leaves the capture as it was.
pub capture_refused_keeps :
    (c : DiagnosticAudioCapture) (m : Message) (e : Error)
    → (capture_message c m).1 ≡ err e
    → (capture_message c m).0 ≡ c
unfolding capture_message
capture_refused_keeps c (Message.audio_start m) e h = ground arith
capture_refused_keeps c (Message.audio_frame m) e h = ground arith
capture_refused_keeps c (Message.audio_stop m) e h = refl
capture_refused_keeps c m e h = refl
