-- ===== src/App/Pipelines.antt =====
-- Which audio pipeline is in use (internal/app/app.go): `retainPipelineLocked`, `retirePipeline` and
-- the change of the pipeline in `handleConfig`. A pipeline is a number, as its address in the
-- source. The shutdown of one is counted where the source starts it.
pub mod Safety
pub mod Ended
use talka.Prelude.{
  ℕ, ◌+◌, ◌-◌, ◌≤◌, ◌<◌, ◌≡◌, Bool, true, false, Option, none, some, ltb, leb, ◌==◌, if◌then◌else◌,
}

-- A key that is missing from `pipelineRefs` reads as 0, and `delete` makes a key missing.
pub record Pipelines : Type 0 where
  pub current : Option ℕ
  pub pipeline_refs : ℕ → ℕ
  pub retired_pipelines : ℕ → Bool
  pub shutdowns : ℕ → ℕ

abbrev pub update {ℓ} : {A : Type ℓ} → (ℕ → A) → ℕ → A → ℕ → A
update f k v q = if q == k then v else f q

-- `shutdownPipelineAsync`.
abbrev shutdown_pipeline_async : ℕ → Pipelines → Pipelines
shutdown_pipeline_async p s = record s { shutdowns = update s.shutdowns p (s.shutdowns p + 1) }

-- `retainPipelineLocked`.
unfoldable pub retain : ℕ → Pipelines → Pipelines
retain p s = record s { pipeline_refs = update s.pipeline_refs p (s.pipeline_refs p + 1) }

-- The function that `retainPipelineLocked` returns.
unfoldable pub release : ℕ → Pipelines → Pipelines
release p s =
    if leb (s.pipeline_refs p) 1
    then (let s' : Pipelines = record s { pipeline_refs = update s.pipeline_refs p 0 } in
        if s.retired_pipelines p
        then shutdown_pipeline_async p
            (record s' { retired_pipelines = update s.retired_pipelines p false })
        else s')
    else record s { pipeline_refs = update s.pipeline_refs p (s.pipeline_refs p - 1) }

unfoldable pub retire : ℕ → Pipelines → Pipelines
retire p s =
    if ltb 0 (s.pipeline_refs p)
    then record s { retired_pipelines = update s.retired_pipelines p true }
    else shutdown_pipeline_async p s

-- The first critical section of `handleConfig`.
unfoldable pub set_pipeline : ℕ → Pipelines → Pipelines
set_pipeline new s = record s { current = some new }

abbrev pub is_current : Pipelines → ℕ → Bool
is_current s q = elim s.current [ none ↦ false | some p ↦ p == q ]
