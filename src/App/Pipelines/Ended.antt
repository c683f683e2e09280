-- ===== src/App/Pipelines/Ended.antt =====
-- The end of the service: `Shutdown` of internal/app/app.go over the reference counts. Its loop runs
-- without the lock, beside the requests and changes of the configuration.
use talka.Prelude.{
  ℕ, zero, suc, ◌+◌, ◌<◌, ◌≤◌, ◌≡◌, true, false, not, ◌&&◌, List, [], ◌∷◌, arith, ltb, ◌==◌, inl,
  inr, Option-cases, if◌then◌else◌,
}
use talka.App.Pipelines.{Pipelines, retain, release, retire, set_pipeline, is_current}
use talka.App.Pipelines.Safety.{
  System, Step, begins, ends, configures, retires, Reach, started, Reach-Sound, started-Sound,
}
use talka.App.Service.Connections.{retired_below, to_shut_down, count_shutdown}

-- How often a pipeline is in a list.
abbrev occurs : ℕ → List ℕ → ℕ
occurs q [] = 0
occurs q (p ∷ ps) = (if p == q then 1 else 0) + occurs q ps

-- The service while the loop of `Shutdown` runs, with the pipelines that are left to it: a step of
-- the service, or a round of the loop.
pub data Closing (s : System) : List ℕ → System → List ℕ → Type 0 where
  serves : {t : System} (left : List ℕ) → Step s t → Closing s left t left
  shuts :
      (q : ℕ) (left : List ℕ)
      → Closing s (q ∷ left) (record s { pipelines = count_shutdown q s.pipelines }) left

pub data Closes (s : System) (left : List ℕ) : System → List ℕ → Type 0 where
  here : Closes s left s left
  next :
      {t u : System} {more rest : List ℕ}
      → Closes s left t more
      → Closing t more u rest
      → Closes s left u rest

Step-shutdowns :
    {s t : System} (q : ℕ) → Step s t → s.pipelines.shutdowns q ≤ t.pipelines.shutdowns q
unfolding retain release retire set_pipeline
Step-shutdowns q (begins p is) = ground arith
Step-shutdowns q (ends p held) = ground arith
Step-shutdowns q (configures new fresh) = ground arith
Step-shutdowns q (retires p waits) = ground arith

Closing-shutdowns :
    {s t : System} {left rest : List ℕ} (q : ℕ)
    → Closing s left t rest
    → s.pipelines.shutdowns q + occurs q left ≤ t.pipelines.shutdowns q + occurs q rest
unfolding count_shutdown
Closing-shutdowns q (serves left st) = let m = Step-shutdowns q st in omega arith
Closing-shutdowns q (shuts p left) = ground arith

Closes-shutdowns :
    {s : System} {left : List ℕ} {t : System} {rest : List ℕ} (q : ℕ)
    → Closes s left t rest
    → s.pipelines.shutdowns q + occurs q left ≤ t.pipelines.shutdowns q + occurs q rest
Closes-shutdowns q here = omega arith
Closes-shutdowns q (next r st) = omega (arith, Closes-shutdowns q r, Closing-shutdowns q st)

occurs-retired_below :
    (q n : ℕ) (p : Pipelines)
    → occurs q (retired_below n p)
      ≡ (if ltb q n then (if p.retired_pipelines q && not (is_current p q) then 1 else 0) else 0)
unfolding retired_below
occurs-retired_below q zero p = ground arith
occurs-retired_below q (suc n) p = ground (arith, occurs-retired_below q n p)

-- Where the service takes the pipelines for the loop of `Shutdown`: one that it has built, that is
-- no longer waiting to be retired, is in the list or has been shut down already, and not both.
collected_once :
    (p : ℕ) (s : System) (q n : ℕ)
    → Reach (started p) s
    → s.built q ≡ true
    → s.to_retire q ≡ false
    → q < n
    → s.pipelines.shutdowns q + occurs q (to_shut_down n s.pipelines) ≡ 1
unfolding to_shut_down
collected_once p s q n r b waits below =
    let v = Reach-Sound r (started-Sound p) q in
    elim (Option-cases s.pipelines.current) [
      | inl gone ↦ ground (arith, gone, v.one_place, occurs-retired_below q n s.pipelines)
      | inr (c, is) ↦ ground (arith, is, v.one_place, occurs-retired_below q n s.pipelines)
    ]

-- Whenever the service is shut down, and however the loop of `Shutdown` interleaves with requests and
-- changes of the configuration: when the loop is done, every pipeline that had been built, was no
-- longer waiting to be retired and had a number below the bound of the loop when `Shutdown` collected
-- the pipelines has been shut down, the ones that requests still hold among them.
pub shutdown-all :
    (p : ℕ) (s t : System) (q n : ℕ)
    → Reach (started p) s
    → s.built q ≡ true
    → s.to_retire q ≡ false
    → q < n
    → Closes s (to_shut_down n s.pipelines) t []
    → 0 < t.pipelines.shutdowns q
shutdown-all p s t q n r b waits below done =
    omega (arith, collected_once p s q n r b waits below, Closes-shutdowns q done)

-- A retired pipeline that the loop shuts down while one request still holds it is shut down again
-- when that request ends.
count_shutdown-release :
    (q : ℕ) (s : Pipelines)
    → s.retired_pipelines q ≡ true
    → s.pipeline_refs q ≡ 1
    → (release q (count_shutdown q s)).shutdowns q ≡ s.shutdowns q + 2
unfolding release count_shutdown
count_shutdown-release q s retired last = ground (arith, retired, last)
