-- ===== src/App/Dictation/Laws.antt =====
-- The pipeline of internal/app/pipeline.go on the language model of internal/llm and the clipboard
-- of internal/inject.
use talka.Prelude.{
  ◌≡◌, refl, subst, Bool, Option, none, some, List, [], Result, ok, err, arith, inl, inr,
  Bool-cases, Result-cases, ◌≢◌, ◌↔◌,
}
use talka.Prelude.Bytes.{Bytes, is_empty}
use talka.Prelude.Text.{trim_space}
use talka.Prelude.Text.Laws.{trim_space-trim_space}
use talka.Protocol.{AudioMetadata}
use talka.Inject.{MacOsPasteInjector, insert, Receipt}
use talka.Inject.Laws.{ClipboardLaws, PreflightKeeps, insert-Outcome}
use talka.Llm.{OllamaChatRequest, OllamaProvider, HttpResponse, CleanupStatus, cleanup}
use talka.Llm.Laws.{Keeps, is_empty_lem, cleanup-Keeps}
use talka.App.Dictation.{
  AsrResult, AsrProvider, Pipeline, ProcessResult, Error, prepare_asr_result, prepare_audio_frames,
  insert_text, process_audio_frames,
}

-- What is kept of a dictation that was heard as `raw`: the text is empty only if `raw` is, and is
-- `raw` unless it was cleaned, and if it could not be inserted the error holds it.
abbrev pub Dictated : {E : Type 0} → Bytes → Option ProcessResult × Option (Error E) → Type 0
Dictated raw (none, e) = ⊥
Dictated raw (some r, none) =
    (r.raw_transcript ≡ raw)
    × ((r.final_text ≡ []) ↔ (raw ≡ []))
    × (r.cleanup.status ≢ CleanupStatus.cleaned → r.final_text ≡ raw)
Dictated raw (some r, some (Error.insert_error e)) =
    (r.raw_transcript ≡ raw)
    × ((r.final_text ≡ []) ↔ (raw ≡ []))
    × (r.cleanup.status ≢ CleanupStatus.cleaned → r.final_text ≡ raw)
    × (e.recovery.failed_text ≡ r.final_text)
Dictated raw (some r, some e) = ⊥

module _ {W E : Type 0} (call : Bytes → OllamaChatRequest → W → W × Result E HttpResponse)
    (content_of : Bytes → Result E Bytes) (timeout_like : E → Bool) (ollama : OllamaProvider)
    (permission_denied : E → Bool) (i : MacOsPasteInjector W E) where
  -- The pipeline that `newPipelineFromConfig` builds, but for the recogniser, the health check and
  -- the presses of keys.
  abbrev pub pipeline : AsrProvider W E → Pipeline W E
  pipeline asr = record {
    asr = some asr;
    llm = some (record {
      cleanup =
          λ text w. let (w', r) = cleanup call content_of timeout_like ollama text w in (w', ok r);
      health_check = none;
    });
    injector = some (record { insert = insert permission_denied i; key_press = none });
  }

  abbrev Prepared : Bytes → Result (Error E) ProcessResult → Type 0
  Prepared raw (err e) = ⊥
  Prepared raw (ok r) =
      (r.raw_transcript ≡ raw)
      × ((r.final_text ≡ []) ↔ (raw ≡ []))
      × (r.cleanup.status ≢ CleanupStatus.cleaned → r.final_text ≡ raw)

  prepare_asr_result-Prepared :
      (asr : AsrProvider W E) (t : AsrResult) (w : W)
      → Prepared (trim_space t.transcript) (prepare_asr_result (pipeline asr) t w).1
  unfolding prepare_asr_result
  prepare_asr_result-Prepared asr t w = elim (Bool-cases (is_empty (trim_space t.transcript))) [
    | inl q ↦ ground (arith, q, is_empty_lem (trim_space t.transcript) q)
    | inr q ↦
        let kept = cleanup-Keeps call content_of timeout_like ollama (trim_space t.transcript) w in
        let kept' : Keeps (trim_space t.transcript)
            (cleanup call content_of timeout_like ollama (trim_space t.transcript) w).1 =
          subst
            (λ raw.
              Keeps raw (cleanup call content_of timeout_like ollama (trim_space t.transcript) w).1)
            (trim_space-trim_space t.transcript) kept in
        rw (prepare_asr_result, q, Prepared) (refl, kept'.1, kept'.2)
  ]

  prepare_audio_frames-Prepared :
      (asr : AsrProvider W E) (metadata : AudioMetadata) (frames : List Bytes) (w : W)
      (t : AsrResult)
      → (asr.transcribe (record { metadata = metadata; frames = frames }) w).1 ≡ ok t
      → Prepared (trim_space t.transcript) (prepare_audio_frames (pipeline asr) metadata frames w).1
  unfolding prepare_audio_frames
  prepare_audio_frames-Prepared asr metadata frames w t heard = rw heard (
      prepare_asr_result-Prepared asr t
        (asr.transcribe (record { metadata = metadata; frames = frames }) w).0)

  abbrev Inserted : Bytes → Result (Error E) Receipt → Type 0
  Inserted text (ok receipt) = Unit {0}
  Inserted text (err (Error.insert_error e)) = e.recovery.failed_text ≡ text
  Inserted text (err e) = ⊥

  insert_text-Inserted :
      (asr : AsrProvider W E) (content : W → Bytes) (laws : ClipboardLaws i.clipboard content)
      (text : Bytes) (w : W)
      → PreflightKeeps i content
      → Inserted text (insert_text (pipeline asr) text w).1
  unfolding insert_text
  insert_text-Inserted asr content laws text w keeps =
      let out = insert-Outcome permission_denied i content laws text w keeps in
      elim (Result-cases (insert permission_denied i text w).1) [
        | inl (e, q) ↦ ground (arith, q, out)
        | inr (r, q) ↦ ground (arith, q, out)
      ]

  after :
      {raw : Bytes} (r : ProcessResult) (e : Error E)
      → Prepared raw (ok r)
      → Inserted r.final_text (err e)
      → Dictated raw (some r, some e)
  after r (Error.insert_error e) (heard, empty, same) held = (heard, empty, same, held)
  after r e kept held = absurd held

  -- With a recogniser that heard `t`, the language model and a clipboard that behaves as documented,
  -- a dictation ends in a result whose text is empty only if the trimmed transcript is, and is that
  -- transcript unless the model cleaned it; the only error there can be is one of the insertion,
  -- and it carries that text.
  pub process_audio_frames-Dictated :
      (asr : AsrProvider W E) (content : W → Bytes) (laws : ClipboardLaws i.clipboard content)
      (metadata : AudioMetadata) (frames : List Bytes) (w : W) (t : AsrResult)
      → PreflightKeeps i content
      → (asr.transcribe (record { metadata = metadata; frames = frames }) w).1 ≡ ok t
      → Dictated (trim_space t.transcript) (process_audio_frames (pipeline asr) metadata frames w).1
  unfolding process_audio_frames prepare_audio_frames
  process_audio_frames-Dictated asr content laws metadata frames w t keeps heard =
      let out = prepare_audio_frames (pipeline asr) metadata frames w in
      let prepared = prepare_audio_frames-Prepared asr metadata frames w t heard in
      elim (Result-cases out.1) [
        | inl (e, q) ↦ absurd (subst (Prepared (trim_space t.transcript)) q prepared)
        | inr (r, q) ↦
            let kept = subst (Prepared (trim_space t.transcript)) q prepared in
            let inserted = insert_text-Inserted asr content laws r.final_text out.0 keeps in
            elim (Result-cases (insert_text (pipeline asr) r.final_text out.0).1) [
              | inr (receipt, k) ↦ rw (q, k) kept
              | inl (e, k) ↦ rw (q, k) (after r e kept (subst (Inserted r.final_text) k inserted))
            ]
      ]
