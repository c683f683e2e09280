-- ===== src/App/Service/WellFormed.antt =====
-- The invariant of the service of internal/app/app.go and ios_session.go over all that can happen to
-- it.
pub mod Changes
pub mod Calls
use talka.Prelude.{
  ℕ, ◌≡◌, refl, ap, Bool, true, false, Option, none, some, List, [], ◌∷◌, ◌++◌, Result, ok, err,
  arith, inl, inr, Bool-cases, Option-cases, Result-cases, length, get_elem?-last, List-cases,
  if-holds, not,
}
use talka.Prelude.Bytes.{Bytes, bytes_eq, codes, is_empty}
use talka.Prelude.Paths.{dir}
use talka.Prelude.Text.{trim_prefix, has_suffix}
use talka.Prelude.Dict.{delete, Every, insert-Every, delete-Every}
use talka.Pairing
use talka.Pairing.{PendingPairing, StartResponse, PairingResult}
use talka.Pairing.World.{World, Readings}
use talka.Pairing.Manager.{start, complete, resume}
use talka.Pairing.Pending.{
  shown, Started, Completed, start-Started, complete-Completed, resume-keeps,
}
use talka.Config.{Config, validate}
use talka.Config.Files
use talka.Session.{StateMachine}
use talka.App.Service.Connections.{put_machine, held_for_a_while}
use talka.App.Pipelines.{Pipelines, retain, release, retire, set_pipeline}
use talka.App.Build.{Parts}
use talka.App.Service.{
  App, Environment, Request, Response, Device, IosAudioSession, PairingSession, ComponentReadiness,
  in_use_of, IosPairingResponse, is_get, is_post,
}
use talka.App.Service.Handlers.{
  set_asr_status, refresh_ollama_status, handle_status, handle_devices, pairing_started,
  handle_pairing_start, device_to_forget, handle_device_actions, handle_accessibility_open,
  handle_diagnostics_export,
}
use talka.App.Service.Settings.{
  manager_config, build, fresh_app, new, replace_pipeline, update_config, config_saved, put_config,
  handle_config,
}
use talka.App.Service.Phones.{
  PairError, pairing_request, resume_request, connect, completed, resumed, answered,
  handle_ios_pairing_challenge, complete_ios_pairing, resume_ios_pairing, handle_ios_pair,
  handle_ios_resume,
}
use talka.App.Service.Serve.{Endpoint, Event, called, warmed_up, serve, serve_at, step, run}

abbrev pub IsListed : Bytes → Device → Type 0
IsListed k d = (d.id ≡ k) × (d.paired ≡ true)

abbrev pub IsOwned : Bytes → IosAudioSession → Type 0
IsOwned k s = s.device_id ≡ k

-- The part of an answer to `Start` that the settings window shows.
abbrev pub window : Option StartResponse → Option PairingSession
window none = none
window (some s) =
    some (record { pairing_id = s.pairing_id; pin = s.pin; expires_at = s.expires_at })

-- The pairing that is shown in the window and told to phones is the one that the manager checks.
pub record Announced (pairing : Option PairingSession) (told : Option StartResponse)
    (pending : Option PendingPairing) : Type 0 where
  pub challenged : told ≡ shown pending
  pub displayed : pairing ≡ window told

module _ {S W E A I : Type 0} (env : Environment S W E A I) where
  -- The pipeline in use is the one that the configuration asks for.
  pub record Configured (c : Config) (config_dir : Bytes) (pipelines : Pipelines)
      (built : List (Parts A I)) : Type 0 where
    pub parts : Parts A I
    pub asked : build env c config_dir ≡ ok parts
    pub in_use : in_use_of pipelines built ≡ some parts

  pub record WellFormed (a : App S W A I) : Type 0 where
    pub listed : Every IsListed a.devices
    pub owned : Every IsOwned a.ios_sessions
    pub announced : Announced a.pairing a.ios_pairing a.manager.pending
    pub configured : Configured a.cfg a.config_dir a.pipelines a.built
