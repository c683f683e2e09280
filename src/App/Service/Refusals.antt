-- ===== src/App/Service/Refusals.antt =====
-- What a request to internal/app/app.go and ios_session.go leaves behind when it is refused.
use talka.Prelude.{ℕ, ◌≡◌, false, ◌==◌, arith}
use talka.Pairing.World.{Readings}
use talka.App.Service.{App, Environment, Request, Response}
use talka.App.Service.Handlers.{
  refresh_ollama_status, handle_status, handle_devices, pairing_started, handle_pairing_start,
  handle_device_actions, handle_accessibility_open, handle_diagnostics_export,
}
use talka.App.Service.Settings.{config_saved, put_config, handle_config, config_error}
use talka.App.Service.Phones.{
  completed, resumed, answered, handle_ios_pairing_challenge, complete_ios_pairing,
  resume_ios_pairing, handle_ios_pair, handle_ios_resume,
}
use talka.App.Service.Serve.{Endpoint, serve_at}

module _ {S W E A I : Type 0} (env : Environment S W E A I) where
  -- `b` is `a` but for the manager, the readiness of the parts and what is outside.
  abbrev pub Same : App S W A I → App S W A I → Type 0
  Same a b =
      (b.devices ≡ a.devices)
      × (b.ios_sessions ≡ a.ios_sessions)
      × (b.pairing ≡ a.pairing)
      × (b.ios_pairing ≡ a.ios_pairing)
      × (b.pipelines ≡ a.pipelines)
      × (b.built ≡ a.built)
      × (b.cfg ≡ a.cfg)

  abbrev Refused : App S W A I → App S W A I × Response → Type 0
  Refused a (b, reply) = (reply.status == 200) ≡ false → Same a b

  config-Refused : (r : Request) (a : App S W A I) → Refused a (handle_config env r a)
  unfolding handle_config put_config config_saved config_error
  config-Refused r a = ground arith

  pairing_start-Refused :
      (now : ℕ) (r : Request) (a : App S W A I) → Refused a (handle_pairing_start env now r a)
  unfolding handle_pairing_start pairing_started
  pairing_start-Refused now r a = ground arith

  pair-Refused :
      (t : Readings) (r : Request) (a : App S W A I) → Refused a (handle_ios_pair env t r a)
  unfolding handle_ios_pair complete_ios_pairing answered completed
  pair-Refused t r a = ground arith

  resume-Refused :
      (t : Readings) (r : Request) (a : App S W A I) → Refused a (handle_ios_resume env t r a)
  unfolding handle_ios_resume resume_ios_pairing answered resumed
  resume-Refused t r a = ground arith

  -- Whatever is asked of the service, if the answer is not 200 then the devices, the sessions, the
  -- pairing that is shown, the pipelines and the configuration are as they were.
  pub serve_at-Refused :
      (endpoint : Endpoint) (now : ℕ) (t : Readings) (r : Request) (a : App S W A I)
      → ((serve_at env endpoint now t r a).1.status == 200) ≡ false
      → Same a (serve_at env endpoint now t r a).0
  unfolding serve_at handle_status refresh_ollama_status handle_devices handle_device_actions
      handle_accessibility_open handle_diagnostics_export handle_ios_pairing_challenge
  serve_at-Refused Endpoint.status now t r a = ground arith
  serve_at-Refused Endpoint.devices now t r a = ground arith
  serve_at-Refused Endpoint.pairing_start now t r a = pairing_start-Refused now r a
  serve_at-Refused Endpoint.pairing_challenge now t r a = ground arith
  serve_at-Refused Endpoint.resume now t r a = resume-Refused t r a
  serve_at-Refused Endpoint.config now t r a = config-Refused r a
  serve_at-Refused Endpoint.diagnostics_export now t r a = ground arith
  serve_at-Refused Endpoint.accessibility_open now t r a = ground arith
  serve_at-Refused Endpoint.pair now t r a = pair-Refused t r a
  serve_at-Refused Endpoint.device_actions now t r a = ground arith
