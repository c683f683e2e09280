-- ===== src/App/Streaming/Adapter.antt =====
-- `StreamingBatchAdapter` of internal/asr/provider.go: a whole recording by way of a stream. The
-- streaming provider is that of the handler in App/Streaming.
use talka.Prelude.{
  ◌≡◌, sym, ap, Option, none, some, List, [], ◌∷◌, ◌++◌, Result, ok, err, arith, inl, inr,
  Option-cases, Result-cases,
}
use mathlib.Core.List.{append_assoc, append-nil}
use talka.Prelude.Bytes.{Bytes}
use talka.App.Dictation.{AsrRequest, AsrResult}
use talka.App.Streaming.{StreamingProvider}
use talka.App.Streaming.Batch.{StreamLaws}

module _ {W E S : Type 0} (provider : StreamingProvider W E S) where
  -- The loop over the frames, up to the first error.
  unfoldable pub accept_frames : S → List Bytes → W → W × Option E
  accept_frames stream [] w = (w, none)
  accept_frames stream (frame ∷ frames) w =
      let (w', e) = provider.accept_frame stream frame w in
      elim e [ some failed ↦ (w', some failed) | none ↦ accept_frames stream frames w' ]

  abbrev closed : S → W × Result E AsrResult → W × Result E AsrResult
  closed stream (w, r) = (provider.close stream w, r)

  abbrev finished : S → W × Option E → W × Result E AsrResult
  finished stream (w, some e) = (w, err e)
  finished stream (w, none) = provider.finish stream w

  abbrev on_stream : AsrRequest → W × Result E S → W × Result E AsrResult
  on_stream request (w, err e) = (w, err e)
  on_stream request (w, ok stream) =
      closed stream (finished stream (accept_frames stream request.frames w))

  -- `Transcribe`.
  unfoldable pub transcribe : AsrRequest → W → W × Result E AsrResult
  transcribe request w = on_stream request (provider.new_stream request.metadata w)

  module _ (laws : StreamLaws provider) where
    accept_frames-given :
        (s : S) (frames : List Bytes) (w : W)
        → (accept_frames s frames w).1 ≡ none
        → laws.given (accept_frames s frames w).0 s
          ≡ ((laws.given w s).0, (laws.given w s).1 ++ frames)
    unfolding accept_frames
    accept_frames-given s [] w e =
        ap (λ (l : List Bytes). ((laws.given w s).0, l)) (sym (append-nil (laws.given w s).1))
    accept_frames-given s (frame ∷ frames) w e =
        elim (Option-cases (provider.accept_frame s frame w).1) [
          | inr (failed, q) ↦ absurd (ground (arith, q, e))
          | inl q ↦
              let w' = (provider.accept_frame s frame w).0 in
              let rest = accept_frames-given s frames w' (ground (arith, q, e)) in
              let one = laws.accepts s frame w q in
              ground (arith, q, rest, one, append_assoc (laws.given w s).1 (frame ∷ []) frames)
        ]

    -- A recording that the adapter transcribes without an error has reached a new stream of the
    -- recogniser whole and in order, under its own metadata, before the stream was finished, and the
    -- answer is the stream's; the stream is closed.
    pub transcribe-given :
        (request : AsrRequest) (w : W) (result : AsrResult)
        → (transcribe request w).1 ≡ ok result
        → (s : S) × (v : W) × (laws.given v s ≡ (request.metadata, request.frames))
          × ((provider.finish s v).1 ≡ ok result)
          × ((transcribe request w).0 ≡ provider.close s (provider.finish s v).0)
    unfolding transcribe
    transcribe-given request w result e =
        elim (Result-cases (provider.new_stream request.metadata w).1) [
          | inl (failed, q) ↦ absurd (ground (arith, q, e))
          | inr (s, q) ↦
              let u = (provider.new_stream request.metadata w).0 in
              let v = (accept_frames s request.frames u).0 in
              elim (Option-cases (accept_frames s request.frames u).1) [
                | inr (failed, k) ↦ absurd (ground (arith, q, k, e))
                | inl k ↦ (
                  s,
                  v,
                  ground (
                    arith,
                    accept_frames-given s request.frames u k,
                    laws.opens request.metadata w s q,
                  ),
                  ground (arith, q, k, e),
                  ground (arith, q, k),
                )
              ]
        ]
