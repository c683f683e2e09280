-- ===== src/Tests/Dictations.antt =====
-- Runs of a dictation: internal/inject/macos.go, internal/llm/ollama_provider.go,
-- internal/app/pipeline.go and ios_websocket.go.
use talka.Prelude.{
  ℕ, ◌≡◌, refl, Bool, true, false, none, some, List, [], ◌∷◌, ◌++◌, Result, ok, arith,
}
use talka.Prelude.Int.{pos}
use talka.Prelude.Bytes.{Bytes, codes}
use talka.Prelude.Bytes.{read_full}
use talka.Prelude.Base64.{decode_string, encode_to_string, digit}
use talka.Prelude.Text.{trim_space}
use talka.Protocol.Codec.{decode, target_of, validate_audio_metadata}
use talka.App.Audio.Delivered.{send}
use talka.Session.{decrypt, encrypt, open_message, seal_message, associated_data, expire_if_idle}
use talka.Protocol.{AudioMetadata}
use talka.Session.{StateMachine}
use talka.Inject.{MacOsPasteInjector, insert}
use talka.Inject.Laws.{ClipboardLaws, PreflightKeeps, Outcome, insert-Outcome}
use talka.Llm.{OllamaChatRequest, OllamaProvider, HttpResponse, cleanup}
use talka.Llm.Laws.{Keeps, cleanup-Keeps}
use talka.App.Audio.{Received, decrypt_ios_audio_message, decrypt_ios_audio_messages}
use talka.App.Dictation.{AsrProvider, Pipeline, process_audio_frames}
use talka.App.Dictation.Laws.{pipeline, Dictated, process_audio_frames-Dictated}
use talka.App.Replies.{Reading}
use talka.App.Streaming.{
  StreamingProvider, Connection, Stream, Progress, no_stream, stream_from, check_start, check_frame,
  check_stop, handle_message,
}
use talka.App.Streaming.Batch.{StreamLaws, stream_from-batch}
use talka.Tests.{toy_aead, toy_json, server, metadata}
use talka.Tests.Recordings.{received}

-- The world is the clipboard.
abbrev injector : MacOsPasteInjector Bytes ℕ
injector = record {
  clipboard = record { read = λ w. (w, ok w); write = λ b w. (b, none) };
  paste_driver = record { paste = λ w. (w, none); preflight = none; key_press = none };
  restore_clipboard = true;
  restore_delay = 150;
  waiter = λ delay w. (w, none);
}

abbrev returned : Bytes → Result ℕ Bytes
returned w = ok w

held : (b w : Bytes) → returned w ≡ ok b → b ≡ w
held b w e = ground (arith, e)

abbrev injector_laws : ClipboardLaws injector.clipboard (λ w. w)
injector_laws = record {
  read_returns = λ w b e. held b w e;
  read_keeps = λ w. refl;
  write_sets = λ b w e. refl;
}

no_preflight : PreflightKeeps injector (λ w. w)
no_preflight preflight w e = cc

abbrev denied : ℕ → Bool
denied e = false

insert-Outcome_example :
    Outcome denied injector
      (λ w. w)
      injector_laws
      (codes "old")
      (codes "new")
      (insert denied injector (codes "new") (codes "old"))
insert-Outcome_example =
    insert-Outcome denied injector (λ w. w) injector_laws (codes "new") (codes "old") no_preflight

abbrev answer : Bytes → OllamaChatRequest → Bytes → Bytes × Result ℕ HttpResponse
answer url request w =
    (w, ok (record { status_code = 200; status = codes "200 OK"; body = codes " Hi. " }))

abbrev content_of : Bytes → Result ℕ Bytes
content_of body = ok body

abbrev ollama : OllamaProvider
ollama = record { base_url = codes "http://a"; model = codes "m"; timeout = pos 30 }

cleanup-Keeps_example :
    Keeps (trim_space (codes " hi ")) (cleanup answer content_of denied ollama (codes " hi ") []).1
cleanup-Keeps_example = cleanup-Keeps answer content_of denied ollama (codes " hi ") []

abbrev recogniser : AsrProvider Bytes ℕ
recogniser = record {
  transcribe = λ request w. (w, ok (record { transcript = codes " hi " }));
  ensure_ready = none;
  health_check = none;
  shutdown = none;
}

process_audio_frames-Dictated_example :
    Dictated
      (trim_space (codes " hi "))
      (process_audio_frames
        (pipeline answer content_of denied ollama denied injector recogniser)
        metadata
        ((5 ∷ 6 ∷ []) ∷ [])
        (codes "old")).1
process_audio_frames-Dictated_example =
    process_audio_frames-Dictated answer content_of denied ollama denied injector recogniser
      (λ w. w) injector_laws metadata ((5 ∷ 6 ∷ []) ∷ []) (codes "old")
      (record { transcript = codes " hi " }) no_preflight refl

-- A stream that keeps what it is given.
abbrev pub Heard : Type 0
Heard = AudioMetadata × List Bytes

abbrev pub listener : StreamingProvider Heard ℕ ℕ
listener = record {
  new_stream = λ m w. ((m, []), ok 0);
  accept_frame = λ s p w. ((w.0, w.1 ++ p ∷ []), none);
  finish = λ s w. (w, ok (record { transcript = codes "hi" }));
  close = λ s w. w;
}

abbrev pub listener_laws : StreamLaws listener
listener_laws = record { given = λ w s. w; opens = λ m w s e. refl; accepts = λ s p w e. refl }

abbrev pub connection : Connection Heard ℕ
connection = record { write_json = λ r w. (w, none); write_close = λ c w. (w, none) }

abbrev pub reading : Reading ℕ
reading = record {
  text = λ e. [];
  deadline_exceeded = λ e. false;
  runtime_error = λ e. none;
  lower_unicode = λ s. s;
}

abbrev pub no_providers : Pipeline Heard ℕ
no_providers = record { asr = none; llm = none; injector = none }

abbrev heard : Heard
heard = (metadata, (5 ∷ 6 ∷ []) ∷ [])

abbrev streamed : Heard × (StateMachine × Progress ℕ ℕ)
streamed =
    stream_from reading connection no_providers listener toy_aead toy_json server no_stream received
      (record metadata { encoding = [] }, [])

abbrev last : Stream ℕ
last = record {
  stream = some 0;
  stream_id = 9 ∷ [];
  metadata = metadata;
  started = true;
  frames = 1;
  messages = 3;
}

reaches_stop : streamed ≡ (heard, (streamed.1.0, Progress.at_stop last 0))
unfolding stream_from send encrypt expire_if_idle read_full decrypt_ios_audio_message decrypt
    open_message seal_message decode handle_message check_start validate_audio_metadata check_frame
    decode_string encode_to_string digit check_stop target_of associated_data
reaches_stop = refl

stream_from-batch_example :
    (used : List Received) × (rest : List Received) × (received ≡ used ++ rest)
    × (decrypt_ios_audio_messages toy_aead toy_json server used ≡ (streamed.1.0, ok heard))
stream_from-batch_example =
    stream_from-batch reading connection no_providers listener listener_laws toy_aead toy_json
      server streamed.1.0 received (record metadata { encoding = [] }, []) heard last 0 reaches_stop
