-- ===== src/Tests/Shutdowns.antt =====
-- A run of `Shutdown` of internal/app/app.go beside a request.
use talka.Prelude.{◌-◌, ◌<◌, ◌≡◌, refl, ◌==◌, true, false, [], ◌∷◌, arith}
use talka.App.Pipelines.{update, retain, release, retire, set_pipeline}
use talka.App.Pipelines.Safety.{System, Step, Reach, started}
use talka.App.Pipelines.Ended.{Closing, Closes, shutdown-all}
use talka.App.Service.Connections.{to_shut_down, retired_below, count_shutdown}

-- A request holds the first pipeline, which a change of the configuration replaces and retires; the
-- loop of `Shutdown` meets the end of the request.
abbrev held_by_one : System
held_by_one = record {
  pipelines = retain 0 (started 0).pipelines;
  holders = update (λ q. 0) 0 1;
  to_retire = λ q. false;
  built = λ q. q == 0;
}

abbrev replaced_once : System
replaced_once = record held_by_one {
  pipelines = set_pipeline 1 held_by_one.pipelines;
  to_retire = update (λ q. false) 0 true;
  built = update (λ q. q == 0) 1 true;
}

abbrev retired_once : System
retired_once = record replaced_once {
  pipelines = retire 0 replaced_once.pipelines;
  to_retire = update replaced_once.to_retire 0 false;
}

retired_in_use : Reach (started 0) retired_once
unfolding set_pipeline retain retire
retired_in_use =
    Reach.next (Reach.next (Reach.next Reach.here (Step.begins 0 refl)) (Step.configures 1 refl))
      (Step.retires 0 refl)

abbrev after_first_round : System
after_first_round = record retired_once { pipelines = count_shutdown 1 retired_once.pipelines }

abbrev after_request : System
after_request = record after_first_round {
  pipelines = release 0 after_first_round.pipelines;
  holders = update after_first_round.holders 0 (after_first_round.holders 0 - 1);
}

abbrev after_loop : System
after_loop = record after_request { pipelines = count_shutdown 0 after_request.pipelines }

to_shut_down_both : to_shut_down 2 retired_once.pipelines ≡ 1 ∷ 0 ∷ []
unfolding to_shut_down retired_below set_pipeline retire retain
to_shut_down_both = refl

closes : Closes retired_once (1 ∷ 0 ∷ []) after_loop []
closes =
    Closes.next
      (Closes.next (Closes.next Closes.here (Closing.shuts 1 (0 ∷ [])))
        (Closing.serves (0 ∷ []) (Step.ends 0 (omega arith))))
      (Closing.shuts 0 [])

shutdown-all_example : 0 < after_loop.pipelines.shutdowns 0
shutdown-all_example =
    shutdown-all 0 retired_once after_loop 0 2 retired_in_use refl refl (omega arith)
      (rw to_shut_down_both closes)
