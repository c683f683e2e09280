-- ===== src/App/Pipelines/Safety.antt =====
-- A pipeline is shut down once, after its last user is done, and not before it is replaced.
-- Requests and changes of the configuration run side by side: a step is one critical section.
use talka.Prelude.{
  ℕ, ◌+◌, ◌-◌, ◌<◌, ◌≡◌, Bool, true, false, Option, none, some, arith, ◌==◌, if◌then◌else◌,
}
use talka.App.Pipelines.{Pipelines, update, retain, release, retire, set_pipeline, is_current}

-- The service with the requests that run: how many hold each pipeline, which replaced pipelines
-- `handleConfig` has still to retire, and which pipelines have been built.
pub record System : Type 0 where
  pub pipelines : Pipelines
  pub holders : ℕ → ℕ
  pub to_retire : ℕ → Bool
  pub built : ℕ → Bool

-- The pipeline that a change of the configuration replaces, if any, is to be retired.
abbrev pub replaced : Option ℕ → (ℕ → Bool) → ℕ → Bool
replaced none waiting = waiting
replaced (some p) waiting = update waiting p true

pub data Step (s : System) : System → Type 0 where
  -- A request takes the current pipeline.
  begins :
      (p : ℕ)
      → s.pipelines.current ≡ some p
      → Step s (record s {
        pipelines = retain p s.pipelines;
        holders = update s.holders p (s.holders p + 1);
      })
  -- It calls the function that it was given.
  ends :
      (p : ℕ)
      → 0 < s.holders p
      → Step s (record s {
        pipelines = release p s.pipelines;
        holders = update s.holders p (s.holders p - 1);
      })
  -- `handleConfig` has built a pipeline and makes it the current one.
  configures :
      (new : ℕ)
      → s.built new ≡ false
      → Step s (record s {
        pipelines = set_pipeline new s.pipelines;
        to_retire = replaced s.pipelines.current s.to_retire;
        built = update s.built new true;
      })
  -- It retires the one that it replaced.
  retires :
      (p : ℕ)
      → s.to_retire p ≡ true
      → Step s
          (record s { pipelines = retire p s.pipelines; to_retire = update s.to_retire p false })

pub data Reach (s : System) : System → Type 0 where
  here : Reach s s
  next : {t u : System} → Reach s t → Step t u → Reach s u

abbrev pub count : Bool → ℕ
count b = if b then 1 else 0

-- A pipeline that was built is the current one, or waits to be retired, or is retired and in use, or
-- has been shut down: one of the four, once.
pub record Sound (s : System) (q : ℕ) : Type 0 where
  pub counted : s.pipelines.pipeline_refs q ≡ s.holders q
  pub one_place :
      count (is_current s.pipelines q)
        + count (s.to_retire q)
        + count (s.pipelines.retired_pipelines q)
        + s.pipelines.shutdowns q
      ≡ count (s.built q)
  pub retired_in_use : s.pipelines.retired_pipelines q ≡ true → 0 < s.holders q
  pub shut_unused : 0 < s.pipelines.shutdowns q → s.holders q ≡ 0
  pub used_built : 0 < s.holders q → s.built q ≡ true

Step-Sound : {s t : System} → Step s t → ((q : ℕ) → Sound s q) → (q : ℕ) → Sound t q
unfolding retain release retire set_pipeline
Step-Sound {s} (begins p is) v q = let u = v q in let w = v p in ground arith
Step-Sound {s} (ends p held) v q = let u = v q in let w = v p in ground arith
Step-Sound {s} (configures new fresh) v q = let u = v q in let w = v new in ground arith
Step-Sound {s} (retires p waits) v q = let u = v q in let w = v p in ground arith

-- The service as `NewWithPipeline` makes it.
abbrev pub started : ℕ → System
started p = record {
  pipelines = record {
    current = some p;
    pipeline_refs = λ q. 0;
    retired_pipelines = λ q. false;
    shutdowns = λ q. 0;
  };
  holders = λ q. 0;
  to_retire = λ q. false;
  built = λ q. q == p;
}

pub started-Sound : (p q : ℕ) → Sound (started p) q
started-Sound p q = ground arith

pub Reach-Sound : {s t : System} → Reach s t → ((q : ℕ) → Sound s q) → (q : ℕ) → Sound t q
Reach-Sound here v = v
Reach-Sound (next r st) v = Step-Sound st (Reach-Sound r v)

-- In every state that the service can reach, however requests and changes of the configuration
-- interleave, a pipeline that has been shut down has been shut down once, and is neither current
-- nor held by a request.
pub shutdown_unused :
    (p : ℕ) (s : System) (q : ℕ)
    → Reach (started p) s
    → 0 < s.pipelines.shutdowns q
    → (s.pipelines.shutdowns q ≡ 1) × (s.holders q ≡ 0) × (is_current s.pipelines q ≡ false)
shutdown_unused p s q r h = let v = Reach-Sound r (started-Sound p) q in ground arith

-- None is forgotten: a pipeline that was built, is no longer current nor waiting to be retired, and
-- is held by no request, has been shut down exactly once.
pub replaced_is_shut_down :
    (p : ℕ) (s : System) (q : ℕ)
    → Reach (started p) s
    → s.built q ≡ true
    → is_current s.pipelines q ≡ false
    → s.to_retire q ≡ false
    → s.holders q ≡ 0
    → s.pipelines.shutdowns q ≡ 1
replaced_is_shut_down p s q r b c t h = let v = Reach-Sound r (started-Sound p) q in ground arith
