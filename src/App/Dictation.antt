-- ===== src/App/Dictation.antt =====
-- internal/app/pipeline.go: a recording is recognised, its transcript cleaned and the text inserted.
-- The providers are the fields of `Pipeline`, over a state `W` and with errors `E`; a duration is
-- left out.
pub mod Laws
pub mod KeyPresses
use talka.Prelude.{
  Bool, true, false, not, Option, none, some, List, [], ◌∷◌, Result, ok, err, ◌>>=◌, if◌then◌else◌,
}
use talka.Prelude.Bytes.{Bytes, codes, is_empty, bytes_eq}
use talka.Prelude.Text.{trim_space}
use talka.Protocol.{AudioMetadata, KeyPress}
use talka.Inject
use talka.Inject.{Receipt, InsertError, KeyPressRequest}
use talka.Llm.{CleanupStatus, CleanupResult}

-- `asr.Request` and what the pipeline reads of `asr.Result`.
pub record AsrRequest : Type 0 where
  pub metadata : AudioMetadata
  pub frames : List Bytes

pub record AsrResult : Type 0 where
  pub transcript : Bytes

-- The optional methods are those of `readinessChecker`, `healthChecker` and `shutdowner`.
pub record AsrProvider (W E : Type 0) : Type 0 where
  pub transcribe : AsrRequest → W → W × Result E AsrResult
  pub ensure_ready : Option (W → W × Option E)
  pub health_check : Option (W → W × Option E)
  pub shutdown : Option (W → W × Option E)

pub record LlmProvider (W E : Type 0) : Type 0 where
  pub cleanup : Bytes → W → W × Result E CleanupResult
  pub health_check : Option (W → W × Option E)

pub record TextInjector (W E : Type 0) : Type 0 where
  pub insert : Bytes → W → W × Result (InsertError E) Receipt
  pub key_press : Option (KeyPressRequest → W → W × Option E)

pub record Pipeline (W E : Type 0) : Type 0 where
  pub asr : Option (AsrProvider W E)
  pub llm : Option (LlmProvider W E)
  pub injector : Option (TextInjector W E)

pub record ProcessResult : Type 0 where
  pub raw_transcript : Bytes
  pub final_text : Bytes
  pub cleanup : CleanupResult
  pub receipt : Receipt

pub data Error (E : Type 0) : Type 0 where
  asr_not_configured llm_not_configured injector_not_configured : Error E
  key_press_not_configured : Error E
  provider_error : E → Error E
  insert_error : InsertError E → Error E
  unsupported_key unsupported_modifier : Bytes → Error E

abbrev no_receipt : Receipt
no_receipt = record {
  target = [];
  status = [];
  restore_status = Inject.RestoreStatus.unset;
  warning_code = [];
  warning_message = [];
}

abbrev pub no_result : ProcessResult
no_result = record {
  raw_transcript = [];
  final_text = [];
  cleanup = record {
    text = [];
    raw_transcript = [];
    status = CleanupStatus.cleaned;
    provider = [];
  };
  receipt = no_receipt;
}

module _ {E : Type 0} where
  unfoldable pub key_modifier : Bytes → Result (Error E) Inject.KeyModifier
  key_modifier m =
      if bytes_eq m (codes "cmd")
      then ok Inject.KeyModifier.command
      else if bytes_eq m (codes "alt")
      then ok Inject.KeyModifier.alt
      else if bytes_eq m (codes "shift")
      then ok Inject.KeyModifier.shift
      else err (Error.unsupported_modifier m)

  unfoldable pub key_modifiers : List Bytes → Result (Error E) (List Inject.KeyModifier)
  key_modifiers [] = ok []
  key_modifiers (m ∷ ms) = do k ← key_modifier m; ks ← key_modifiers ms; ok (k ∷ ks)

module _ {W E : Type 0} where
  abbrev called : W × Option E → W × Option (Error E)
  called (w, none) = (w, none)
  called (w, some e) = (w, some (Error.provider_error e))

  -- `EnsureASRReady`.
  unfoldable pub ensure_asr_ready : Pipeline W E → W → W × Option (Error E)
  ensure_asr_ready p w = elim p.asr [
    | none ↦ (w, some Error.asr_not_configured)
    | some asr ↦ elim asr.ensure_ready [
      | some ensure ↦ called (ensure w)
      | none ↦ elim asr.health_check [ some check ↦ called (check w) | none ↦ (w, none) ]
    ]
  ]

  -- `CheckLLM`.
  unfoldable pub check_llm : Pipeline W E → W → W × Option (Error E)
  check_llm p w = elim p.llm [
    | none ↦ (w, some Error.llm_not_configured)
    | some llm ↦ elim llm.health_check [ some check ↦ called (check w) | none ↦ (w, none) ]
  ]

  unfoldable pub shutdown : Pipeline W E → W → W × Option (Error E)
  shutdown p w = elim p.asr [
    | none ↦ (w, none)
    | some asr ↦ elim asr.shutdown [ some stop ↦ called (stop w) | none ↦ (w, none) ]
  ]

  -- `prepareASRResult`; a call of a provider that is nil panics in the source, and is an error here.
  unfoldable pub prepare_asr_result :
      Pipeline W E → AsrResult → W → W × Result (Error E) ProcessResult
  prepare_asr_result p transcript w =
      let raw = trim_space transcript.transcript in
      elim (is_empty raw) [
        | true ↦ (w, ok no_result)
        | false ↦ elim p.llm [
          | none ↦ (w, err Error.llm_not_configured)
          | some llm ↦
              let (w', r) = llm.cleanup raw w in
              elim r [
                | err e ↦ (w', err (Error.provider_error e))
                | ok cleanup ↦ (
                  w',
                  ok (record {
                    raw_transcript = raw;
                    final_text = cleanup.text;
                    cleanup = cleanup;
                    receipt = no_receipt;
                  }),
                )
              ]
        ]
      ]

  -- `PrepareAudioFrames`.
  unfoldable pub prepare_audio_frames :
      Pipeline W E → AudioMetadata → List Bytes → W → W × Result (Error E) ProcessResult
  prepare_audio_frames p metadata frames w = elim p.asr [
    | none ↦ (w, err Error.asr_not_configured)
    | some asr ↦
        let (w', r) = asr.transcribe (record { metadata = metadata; frames = frames }) w in
        elim r [
          | err e ↦ (w', err (Error.provider_error e))
          | ok transcript ↦ prepare_asr_result p transcript w'
        ]
  ]

  unfoldable pub insert_text : Pipeline W E → Bytes → W → W × Result (Error E) Receipt
  insert_text p text w = elim p.injector [
    | none ↦ (w, err Error.injector_not_configured)
    | some injector ↦
        let (w', r) = injector.insert text w in
        elim r [ err e ↦ (w', err (Error.insert_error e)) | ok receipt ↦ (w', ok receipt) ]
  ]

  -- `ProcessAudioFrames`, which returns the result beside an error of the insertion; the zero
  -- result of another error is `none`.
  unfoldable pub process_audio_frames :
      Pipeline W E → AudioMetadata → List Bytes → W → W × (Option ProcessResult × Option (Error E))
  process_audio_frames p metadata frames w =
      let (w', r) = prepare_audio_frames p metadata frames w in
      elim r [
        | err e ↦ (w', (none, some e))
        | ok result ↦
            let (w'', inserted) = insert_text p result.final_text w' in
            elim inserted [
              | err e ↦ (w'', (some result, some e))
              | ok receipt ↦ (w'', (some (record result { receipt = receipt }), none))
            ]
      ]

  unfoldable pub press_key : Pipeline W E → KeyPressRequest → W → W × Option (Error E)
  press_key p request w = elim p.injector [
    | none ↦ (w, some Error.injector_not_configured)
    | some injector ↦ elim injector.key_press [
      | none ↦ (w, some Error.key_press_not_configured)
      | some key_press ↦ called (key_press request w)
    ]
  ]

  -- `handleIOSKeyPress` of internal/app/ios_websocket.go.
  unfoldable pub handle_ios_key_press : Pipeline W E → KeyPress → W → W × Option (Error E)
  handle_ios_key_press p message w =
      if bytes_eq message.key (codes "enter")
      then (elim (key_modifiers message.modifiers) [
        | err e ↦ (w, some e)
        | ok ks ↦ press_key p (record { key = Inject.Key.enter; modifiers = ks }) w
      ])
      else (w, some (Error.unsupported_key message.key))

  -- `queueIOSFinalTextInsertion`, which runs on its own when the reply is sent; its result goes to
  -- the log and the trace.
  unfoldable pub queue_ios_final_text_insertion :
      Option (Pipeline W E) → Bytes → W → W × Option (Result (Error E) Receipt)
  queue_ios_final_text_insertion pipeline text w =
      if is_empty (trim_space text) then (w, none) else (elim pipeline [
        | none ↦ (w, none)
        | some p ↦ let (w', r) = insert_text p text w in (w', some r)
      ])
