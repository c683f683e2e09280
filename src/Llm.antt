-- ===== src/Llm.antt =====
-- internal/llm/ollama_provider.go: the cleanup of a transcript by a language model. What the server
-- answers, and how JSON is read, is a parameter; `E` is the errors of the HTTP client and of JSON.
pub mod Laws
pub mod Fake
use talka.Prelude.{
  ℕ, Bool, true, false, not, List, [], ◌∷◌, ◌++◌, Result, ok, err, ◌>>=◌, ◌>>◌, guard, take, ◌==◌,
  if◌then◌else◌,
}
use talka.Prelude.Int.{ℤ, pos, is_positive}
use talka.Prelude.Bytes.{Bytes, codes, is_empty}
use talka.Prelude.Text.{trim_space, trim_right}

pub data CleanupStatus : Type 0 where
  cleaned fallback_timeout fallback_error : CleanupStatus

-- `llm.Result`.
pub record CleanupResult : Type 0 where
  pub text : Bytes
  pub raw_transcript : Bytes
  pub status : CleanupStatus
  pub provider : Bytes

pub data CleanupMode : Type 0 where
  segment final : CleanupMode

unfoldable pub segment_cleanup_system_prompt : Bytes
segment_cleanup_system_prompt =
    codes
      "You are a strict dictation segment cleaner. The input text is produced by ASR, so use the local context in the transcript to fix obvious speech-recognition mistakes, homophones, word-boundary errors, punctuation, and mixed Chinese-English recognition errors. Add only light punctuation, simple spacing normalization, and obvious duplicate cleanup when necessary. Do not add facts. Do not change meaning. Do not summarize. Do not use markdown. Do not include explanations or commentary. Output only the cleaned segment text."

unfoldable pub final_cleanup_system_prompt : Bytes
final_cleanup_system_prompt =
    codes
      "You are a strict dictation finalizer. Your job is to merge the dictated text into the final insertable result while preserving the speaker's exact meaning and tone. The input text is produced by ASR, so use the local context in the transcript to fix obvious speech-recognition mistakes, homophones, word-boundary errors, punctuation, and mixed Chinese-English recognition errors. Do not add facts. Do not change meaning. Do not summarize unless explicitly asked. Do not use markdown. Do not include explanations or commentary. Output only the final cleaned text."

pub record OllamaChatMessage : Type 0 where
  pub role : Bytes
  pub content : Bytes

pub record OllamaChatRequest : Type 0 where
  pub model : Bytes
  pub messages : List OllamaChatMessage
  pub stream : Bool
  pub think : Bool

-- A timeout is in seconds.
pub record OllamaConfig : Type 0 where
  pub base_url : Bytes
  pub model : Bytes
  pub timeout : ℤ

pub record OllamaProvider : Type 0 where
  pub base_url : Bytes
  pub model : Bytes
  pub timeout : ℤ

abbrev if_blank : Bytes → Bytes → Bytes
if_blank s d = if is_empty (trim_space s) then d else s

abbrev slash : ℕ
slash = 47

-- `NewOllamaProvider`, but for the HTTP client.
unfoldable pub new_ollama_provider : OllamaConfig → OllamaProvider
new_ollama_provider config = record {
  base_url = trim_right slash (if_blank config.base_url (codes "http://localhost:11434"));
  model = if_blank config.model (codes "qwen3:8b");
  timeout = if is_positive config.timeout then config.timeout else pos 30;
}

unfoldable pub prompt_for_cleanup : CleanupMode → Bytes → List OllamaChatMessage
prompt_for_cleanup mode transcript =
    record {
      role = codes "system";
      content = elim mode [
        | CleanupMode.segment ↦ segment_cleanup_system_prompt
        | CleanupMode.final ↦ final_cleanup_system_prompt
      ];
    }
    ∷ record { role = codes "user"; content = trim_space transcript }
    ∷ []

pub record HttpResponse : Type 0 where
  pub status_code : ℕ
  pub status : Bytes
  pub body : Bytes

pub data Error (E : Type 0) : Type 0 where
  request_failed : E → Error E
  -- The address, the status, the model and what the body says.
  returned : Bytes → Bytes → Bytes → Bytes → Error E
  not_json : E → Error E
  empty_cleanup_text : Error E

-- `call` sends a request to an address in the state `W` of the server; `content_of` reads the
-- content of the message of a response; `timeout_like` is the test of an error in
-- `isTimeoutLike`, which no error of the provider itself passes.
module _ {W E : Type 0} (call : Bytes → OllamaChatRequest → W → W × Result E HttpResponse)
    (content_of : Bytes → Result E Bytes) (timeout_like : E → Bool) where
  abbrev pub is_timeout_like : Error E → Bool
  is_timeout_like (Error.request_failed e) = timeout_like e
  is_timeout_like (Error.not_json e) = timeout_like e
  is_timeout_like e = false

  read_chat : OllamaProvider → Result E HttpResponse → Result (Error E) Bytes
  read_chat p (err e) = err (Error.request_failed e)
  read_chat p (ok r) =
      if r.status_code == 200
      then (elim (content_of r.body) [ err e ↦ err (Error.not_json e) | ok c ↦ ok c ])
      else err (Error.returned p.base_url r.status p.model (trim_space (take 512 r.body)))

  unfoldable pub chat : OllamaProvider → OllamaChatRequest → W → W × Result (Error E) Bytes
  unfolding read_chat
  chat p request w =
      let (w', r) = call (p.base_url ++ codes "/api/chat") request w in (w', read_chat p r)

  abbrev not_empty : Bytes → Result (Error E) Bytes
  not_empty text = do
    guard (not (is_empty (trim_space text))) Error.empty_cleanup_text
    ok (trim_space text)

  unfoldable pub cleanup_strict : OllamaProvider → Bytes → W → W × Result (Error E) Bytes
  cleanup_strict p transcript w =
      let request : OllamaChatRequest = record {
        model = p.model;
        messages = prompt_for_cleanup CleanupMode.final (trim_space transcript);
        stream = false;
        think = false;
      } in
      let (w', r) = chat p request w in (w', r >>= not_empty)

  abbrev result_of : Bytes → Bytes → CleanupStatus → CleanupResult
  result_of text raw status = record {
    text = text;
    raw_transcript = raw;
    status = status;
    provider = codes "ollama";
  }

  unfoldable pub cleaned_or_raw : Bytes → Result (Error E) Bytes → CleanupResult
  cleaned_or_raw raw (err e) =
      if is_timeout_like e
      then result_of raw raw CleanupStatus.fallback_timeout
      else result_of raw raw CleanupStatus.fallback_error
  cleaned_or_raw raw (ok text) =
      if is_empty (trim_space text)
      then result_of raw raw CleanupStatus.fallback_error
      else result_of (trim_space text) raw CleanupStatus.cleaned

  -- `Cleanup`, which returns no error.
  unfoldable pub cleanup : OllamaProvider → Bytes → W → W × CleanupResult
  cleanup p transcript w =
      let raw = trim_space transcript in
      elim (is_empty raw) [
        | true ↦ (w, result_of [] [] CleanupStatus.cleaned)
        | false ↦ let (w', r) = cleanup_strict p raw w in (w', cleaned_or_raw raw r)
      ]
