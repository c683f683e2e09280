-- ===== src/Tests/Service.antt =====
-- Runs of the pipelines of internal/app/app.go and of internal/app/latency_trace.go.
use talka.Prelude.{◌+◌, ◌-◌, ◌≡◌, refl, true, false, List, [], ◌∷◌, arith}
use talka.Prelude.Int.{pos}
use talka.Prelude.Bytes.{codes}
use talka.App.Pipelines.{update, retain, release, retire, set_pipeline, is_current}
use talka.App.Pipelines.Safety.{
  System, Step, Reach, started, replaced, shutdown_unused, replaced_is_shut_down,
}
use talka.App.Latency.{LatencyRecorder, new_latency_recorder}
use talka.App.Latency.Index.{WellFormed}
use talka.App.Latency.Laws
use talka.App.Latency.Laws.{Edit, Call, run, recorder-WellFormed, update_finds}

-- A request takes the pipeline 0, the configuration puts 1 in its place and retires 0, and the
-- request ends.
abbrev held : System
held = record (started 0) {
  pipelines = retain 0 (started 0).pipelines;
  holders = update (started 0).holders 0 ((started 0).holders 0 + 1);
}

abbrev configured : System
configured = record held {
  pipelines = set_pipeline 1 held.pipelines;
  to_retire = replaced held.pipelines.current held.to_retire;
  built = update held.built 1 true;
}

abbrev retired : System
retired = record configured {
  pipelines = retire 0 configured.pipelines;
  to_retire = update configured.to_retire 0 false;
}

abbrev ended : System
ended = record retired {
  pipelines = release 0 retired.pipelines;
  holders = update retired.holders 0 (retired.holders 0 - 1);
}

reaches_ended : Reach (started 0) ended
unfolding retain
reaches_ended =
    Reach.next
      (Reach.next (Reach.next (Reach.next Reach.here (Step.begins 0 refl)) (Step.configures 1 refl))
        (Step.retires 0 refl))
      (Step.ends 0 (omega arith))

shutdown_unused_example :
    (ended.pipelines.shutdowns 0 ≡ 1)
    × (ended.holders 0 ≡ 0)
    × (is_current ended.pipelines 0 ≡ false)
unfolding retain release retire set_pipeline
shutdown_unused_example = shutdown_unused 0 ended 0 reaches_ended (omega arith)

replaced_is_shut_down_example : ended.pipelines.shutdowns 0 ≡ 1
unfolding retain release retire set_pipeline
replaced_is_shut_down_example = replaced_is_shut_down 0 ended 0 reaches_ended refl refl refl refl

abbrev asr_done : Edit
asr_done = record { apply = λ t. record t { asr_ms = pos 40 }; keeps = λ t. refl }

abbrev history : List Call
history =
    Call.starts (codes "t1") (codes "phone") 1
    ∷ Call.starts (codes "t2") (codes "phone") 2
    ∷ Call.updates (codes "t1") asr_done
    ∷ []

recorder-WellFormed_example : WellFormed (run (new_latency_recorder (pos 1)) history)
recorder-WellFormed_example = recorder-WellFormed (pos 1) history

abbrev recorder : LatencyRecorder
recorder = run (new_latency_recorder (pos 2)) history

recorder_is-WellFormed : WellFormed recorder
recorder_is-WellFormed =
    Laws.run-WellFormed (new_latency_recorder (pos 2)) history (Laws.new-WellFormed (pos 2))
