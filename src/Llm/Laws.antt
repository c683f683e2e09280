-- ===== src/Llm/Laws.antt =====
-- What the cleanup of internal/llm/ollama_provider.go returns.
use talka.Prelude.{
  ◌≡◌, ◌≢◌, ◌↔◌, refl, Bool, true, false, [], ◌∷◌, Result, ok, err, arith, inl, inr, Bool-cases,
}
use talka.Prelude.Bytes.{Bytes, is_empty}
use talka.Prelude.Text.{trim_space}
use talka.Llm.{
  OllamaChatRequest, OllamaProvider, HttpResponse, CleanupStatus, CleanupResult, Error,
  cleanup_strict, cleaned_or_raw, cleanup, is_timeout_like,
}

-- The text of a result for the transcript `raw`.
abbrev pub Keeps : Bytes → CleanupResult → Type 0
Keeps raw r =
    (r.raw_transcript ≡ raw)
    × ((r.text ≡ []) ↔ (raw ≡ []))
    × (r.status ≢ CleanupStatus.cleaned → r.text ≡ raw)

pub is_empty_lem : (s : Bytes) → is_empty s ≡ true → s ≡ []
is_empty_lem [] h = refl
is_empty_lem (x ∷ xs) h = cc

pub not_empty_lem : (s : Bytes) → is_empty s ≡ false → s ≢ []
not_empty_lem [] h e = cc
not_empty_lem (x ∷ xs) h e = cc

module _ {W E : Type 0} (call : Bytes → OllamaChatRequest → W → W × Result E HttpResponse)
    (content_of : Bytes → Result E Bytes) (timeout_like : E → Bool) where
  cleaned_or_raw-Keeps :
      (raw : Bytes) (r : Result (Error E) Bytes)
      → raw ≢ []
      → Keeps raw (cleaned_or_raw call content_of timeout_like raw r)
  unfolding cleaned_or_raw
  cleaned_or_raw-Keeps raw (err e) given =
      elim (Bool-cases (is_timeout_like call content_of timeout_like e)) [
        | inl q ↦ ground (arith, q)
        | inr q ↦ ground (arith, q)
      ]
  cleaned_or_raw-Keeps raw (ok text) given = elim (Bool-cases (is_empty (trim_space text))) [
    | inl q ↦ ground (arith, q)
    | inr q ↦ ground (arith, q, not_empty_lem (trim_space text) q)
  ]

  -- Whatever the server answers, the result holds the trimmed transcript; its text is empty only if
  -- that is, and is the trimmed transcript itself unless the status says that it was cleaned.
  pub cleanup-Keeps :
      (p : OllamaProvider) (transcript : Bytes) (w : W)
      → Keeps (trim_space transcript) (cleanup call content_of timeout_like p transcript w).1
  unfolding cleanup
  cleanup-Keeps p transcript w = elim (Bool-cases (is_empty (trim_space transcript))) [
    | inl q ↦ ground (arith, q, is_empty_lem (trim_space transcript) q)
    | inr q ↦ ground (
      arith,
      q,
      cleaned_or_raw-Keeps (trim_space transcript)
          (cleanup_strict call content_of timeout_like p (trim_space transcript) w).1
          (not_empty_lem (trim_space transcript) q),
    )
  ]
