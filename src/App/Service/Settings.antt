-- ===== src/App/Service/Settings.antt =====
-- `handleConfig`, `New` and `NewWithPipeline` of internal/app/app.go.
use talka.Prelude.{
  ℕ, false, Option, none, some, List, [], ◌∷◌, ◌++◌, Result, ok, err, length, if◌then◌else◌,
}
use talka.Prelude.Int.{pos}
use talka.Prelude.Bytes.{Bytes, codes, bytes_eq}
use talka.Prelude.Paths.{dir}
use talka.Pairing
use talka.Pairing.Manager.{new_manager}
use talka.Config.{Config, Issue, validate}
use talka.Config.Files
use talka.Config.Files.{save}
use talka.App.Latency.{new_latency_recorder}
use talka.App.Pipelines.{Pipelines, retire, set_pipeline}
use talka.App.Build
use talka.App.Build.{Parts, new_pipeline_from_config}
use talka.App.Service.{
  App, Environment, Request, Response, Payload, ComponentReadiness, Details, write_error,
  write_error_with, method_not_allowed, write_json, is_get,
}

pub data NewError : Type 0 where
  pipeline_error : Build.Error → NewError
  validation_error : List Issue → NewError

abbrev not_ready : ComponentReadiness
not_ready = record { ready = false; error = [] }

-- The configuration of the manager; no limit of failures is given.
unfoldable pub manager_config : Config → Pairing.Config
manager_config c = new_manager (record {
  server_device_id = codes "talka-mac";
  server_device_name = c.server.service_name;
  pairing_ttl = pos 120_000_000_000;
  inactivity_timeout = pos 600_000_000_000;
  max_failures = pos 0;
})

-- `writeConfigError`; the errors of `Validate` are all of the type `ValidationError`.
unfoldable pub config_error : List Issue → Response
config_error found =
    write_error_with 400 (codes "invalid_config") (codes "configuration is invalid")
      (Details.issues found)

module _ {S W E A I : Type 0} (env : Environment S W E A I) where
  -- `buildPipelineFromConfig`.
  unfoldable pub build : Config → Bytes → Result Build.Error (Parts A I)
  build c config_dir = new_pipeline_from_config env.unicode env.recogniser env.injector c config_dir

  unfoldable pub fresh_app : Config → Bytes → ℕ → S → Bytes → W → Parts A I → App S W A I
  fresh_app c config_path now store rand w parts = record {
    cfg = c;
    config_path = config_path;
    config_dir = dir config_path;
    started_at = now;
    devices = [];
    pairing = none;
    pipelines = record {
      current = some 0;
      pipeline_refs = λ _. 0;
      retired_pipelines = λ _. false;
      shutdowns = λ _. 0;
    };
    built = parts ∷ [];
    asr_status = not_ready;
    ollama_status = not_ready;
    ios_sessions = [];
    ios_audio_conns = [];
    ios_pairing = none;
    manager_config = manager_config c;
    manager = record { store = store; rand = rand; pending = none };
    latency_recorder = new_latency_recorder (pos 20);
    outside = w;
  }

  -- `New`, with `NewWithPipeline` behind it; the recogniser's warm-up ends in `set_asr_status`.
  unfoldable pub new : Config → Bytes → ℕ → S → Bytes → W → Result NewError (App S W A I)
  new c config_path now store rand w = elim (build c (dir config_path)) [
    | err e ↦ err (NewError.pipeline_error e)
    | ok parts ↦ elim (validate env.unicode (env.files.stat w) c (dir config_path)) [
      | issue ∷ issues ↦ err (NewError.validation_error (issue ∷ issues))
      | [] ↦ ok (fresh_app c config_path now store rand w parts)
    ]
  ]

  -- `previousPipeline != nil && previousPipeline != pipeline`; a pipeline that was just built is
  -- another than the previous one.
  unfoldable pub replace_pipeline : ℕ → Pipelines → Pipelines
  replace_pipeline fresh p = elim p.current [
    | none ↦ set_pipeline fresh p
    | some previous ↦ retire previous (set_pipeline fresh p)
  ]

  -- The change of the configuration, once it is written.
  unfoldable pub update_config : Config → Parts A I → App S W A I → App S W A I
  update_config c parts a = record a {
    cfg = c;
    pipelines = replace_pipeline (length a.built) a.pipelines;
    built = a.built ++ parts ∷ [];
  }

  -- What is done with the answer of `Save`.
  unfoldable pub config_saved :
      Config → Parts A I → W × Option (Files.Error E) → App S W A I → App S W A I × Response
  config_saved c parts (w, some e) a = (
    record a { outside = w },
    write_error 500 (codes "config_write_failed") (codes "failed to write config"),
  )
  config_saved c parts (w, none) a = (
    update_config c parts (record a { outside = w }),
    write_json (Payload.config_payload a.config_path c),
  )

  unfoldable pub put_config : Config → App S W A I → App S W A I × Response
  put_config c a = elim (validate env.unicode (env.files.stat a.outside) c a.config_dir) [
    | issue ∷ issues ↦ (a, config_error (issue ∷ issues))
    | [] ↦ elim (build c a.config_dir) [
      | err e ↦ (
        a,
        write_error_with 400 (codes "invalid_config")
            (codes "configuration cannot initialize the audio pipeline") (Details.diagnostic e),
      )
      | ok parts ↦ config_saved c parts (save env.unicode env.files a.config_path c a.outside) a
    ]
  ]

  unfoldable pub handle_config : Request → App S W A I → App S W A I × Response
  handle_config r a =
      if is_get r
      then (a, write_json (Payload.config_payload a.config_path a.cfg))
      else if bytes_eq r.method (codes "PUT")
      then elim (env.decode_config r.body) [
        | none ↦ (a, write_error 400 (codes "invalid_request") (codes "invalid config payload"))
        | some c ↦ put_config c a
      ]
      else (a, method_not_allowed (codes "config endpoint only accepts GET or PUT"))
