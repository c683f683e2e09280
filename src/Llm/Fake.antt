-- ===== src/Llm/Fake.antt =====
-- internal/llm/fake_provider.go, and `HealthCheck` of ollama_provider.go.
use talka.Prelude.{Option, none, some, [], ◌∷◌, ◌++◌, Result, ok, err, take, ◌==◌, if◌then◌else◌}
use talka.Prelude.Bytes.{Bytes, codes, bytes_eq}
use talka.Prelude.Text.{trim_space, fields, join_with}
use talka.Llm.{CleanupStatus, CleanupResult, OllamaProvider, HttpResponse}
use talka.Llm

pub data FailureMode : Type 0 where
  no_failure timeout failure : FailureMode

-- The sentence that the fake provider punctuates, in Chinese: its two halves.
abbrev weather : Bytes
weather =
    228 ∷ 187 ∷ 138 ∷ 229 ∷ 164 ∷ 169 ∷ 229 ∷ 164 ∷ 169 ∷ 230 ∷ 176 ∷ 148 ∷ 228 ∷ 184 ∷ 141 ∷ 233
    ∷ 148 ∷ 153 ∷ []

abbrev meeting : Bytes
meeting =
    230 ∷ 136 ∷ 145 ∷ 228 ∷ 187 ∷ 172 ∷ 228 ∷ 184 ∷ 139 ∷ 229 ∷ 141 ∷ 136 ∷ 228 ∷ 184 ∷ 164 ∷ 231
    ∷ 130 ∷ 185 ∷ 229 ∷ 188 ∷ 128 ∷ 228 ∷ 188 ∷ 154 ∷ []

abbrev comma : Bytes
comma = 239 ∷ 188 ∷ 140 ∷ []

abbrev full_stop : Bytes
full_stop = 227 ∷ 128 ∷ 130 ∷ []

unfoldable pub clean_dictation : Bytes → Bytes
clean_dictation transcript =
    let normalized = join_with (codes " ") (fields (trim_space transcript)) in
    if bytes_eq normalized (weather ++ meeting)
    then weather ++ (comma ++ (meeting ++ full_stop))
    else normalized

abbrev fake_result : Bytes → Bytes → CleanupStatus → CleanupResult
fake_result text raw status = record {
  text = text;
  raw_transcript = raw;
  status = status;
  provider = codes "fake-ollama";
}

-- `Cleanup`, which returns no error.
unfoldable pub fake_cleanup : FailureMode → Bytes → CleanupResult
fake_cleanup FailureMode.timeout transcript =
    fake_result (trim_space transcript) (trim_space transcript) CleanupStatus.fallback_timeout
fake_cleanup FailureMode.failure transcript =
    fake_result (trim_space transcript) (trim_space transcript) CleanupStatus.fallback_error
fake_cleanup FailureMode.no_failure transcript =
    fake_result (clean_dictation (trim_space transcript)) (trim_space transcript)
      CleanupStatus.cleaned

-- `get` is a request by GET; the model is not named in the error.
module _ {W E : Type 0} (get : Bytes → W → W × Result E HttpResponse) where
  abbrev healthy : OllamaProvider → Result E HttpResponse → Option (Llm.Error E)
  healthy p (err e) = some (Llm.Error.request_failed e)
  healthy p (ok r) =
      if r.status_code == 200
      then none
      else some (Llm.Error.returned p.base_url r.status [] (trim_space (take 512 r.body)))

  unfoldable pub health_check : OllamaProvider → W → W × Option (Llm.Error E)
  health_check p w = let (w', r) = get (p.base_url ++ codes "/api/tags") w in (w', healthy p r)
