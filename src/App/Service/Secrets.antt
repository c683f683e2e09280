-- ===== src/App/Service/Secrets.antt =====
-- The PIN: which answers of internal/app/app.go and ios_session.go tell of it.
use talka.Prelude.{ℕ, ◌≡◌, Option, none, some, arith}
use talka.Prelude.Bytes.{Bytes}
use talka.Pairing.{StartResponse}
use talka.Pairing.World.{Readings}
use talka.App.Service.{App, Environment, Request, PairingSession}
use talka.App.Service.Handlers.{
  refresh_ollama_status, status_of, is_active, redacted, handle_status, handle_devices,
  pairing_started, handle_pairing_start, handle_device_actions, handle_accessibility_open,
  handle_diagnostics_export,
}
use talka.App.Service.Settings.{config_saved, put_config, handle_config}
use talka.App.Service.Phones.{
  completed, resumed, answered, handle_ios_pairing_challenge, complete_ios_pairing,
  resume_ios_pairing, handle_ios_pair, handle_ios_resume,
}
use talka.App.Service.Serve.{Endpoint, serve_at}

abbrev pub displaying : Bytes → Option PairingSession → Option PairingSession
displaying pin none = none
displaying pin (some p) = some (record p { pin = pin })

abbrev pub telling : Bytes → Option StartResponse → Option StartResponse
telling pin none = none
telling pin (some s) = some (record s { pin = pin })

module _ {S W E A I : Type 0} (env : Environment S W E A I) where
  -- The same service, which has kept another PIN to show.
  abbrev pub with_pin : Bytes → App S W A I → App S W A I
  with_pin pin a = record a {
    pairing = displaying pin a.pairing;
    ios_pairing = telling pin a.ios_pairing;
  }

  status-Hides :
      (pin : Bytes) (now : ℕ) (r : Request) (a : App S W A I)
      → (handle_status env now r (with_pin pin a)).1 ≡ (handle_status env now r a).1
  unfolding handle_status status_of refresh_ollama_status is_active
  status-Hides pin now r a = ground arith

  diagnostics-Hides :
      (pin : Bytes) (r : Request) (a : App S W A I)
      → (handle_diagnostics_export env r (with_pin pin a)).1 ≡ (handle_diagnostics_export env r a).1
  unfolding handle_diagnostics_export redacted
  diagnostics-Hides pin r a = ground arith

  challenge-Hides :
      (pin : Bytes) (r : Request) (a : App S W A I)
      → (handle_ios_pairing_challenge r (with_pin pin a)).1 ≡ (handle_ios_pairing_challenge r a).1
  unfolding handle_ios_pairing_challenge
  challenge-Hides pin r a = ground arith

  pair-Hides :
      (pin : Bytes) (t : Readings) (r : Request) (a : App S W A I)
      → (handle_ios_pair env t r (with_pin pin a)).1 ≡ (handle_ios_pair env t r a).1
  unfolding handle_ios_pair complete_ios_pairing answered completed
  pair-Hides pin t r a = ground arith

  resume-Hides :
      (pin : Bytes) (t : Readings) (r : Request) (a : App S W A I)
      → (handle_ios_resume env t r (with_pin pin a)).1 ≡ (handle_ios_resume env t r a).1
  unfolding handle_ios_resume resume_ios_pairing answered resumed
  resume-Hides pin t r a = ground arith

  config-Hides :
      (pin : Bytes) (r : Request) (a : App S W A I)
      → (handle_config env r (with_pin pin a)).1 ≡ (handle_config env r a).1
  unfolding handle_config put_config config_saved
  config-Hides pin r a = ground arith

  start-Hides :
      (pin : Bytes) (now : ℕ) (r : Request) (a : App S W A I)
      → (handle_pairing_start env now r (with_pin pin a)).1 ≡ (handle_pairing_start env now r a).1
  unfolding handle_pairing_start pairing_started
  start-Hides pin now r a = ground arith

  -- The PIN that the service has kept for its window is never told again: every endpoint answers
  -- every request as if another PIN had been kept, the export of diagnostics among them.
  pub serve_at-Hides :
      (pin : Bytes) (endpoint : Endpoint) (now : ℕ) (t : Readings) (r : Request) (a : App S W A I)
      → (serve_at env endpoint now t r (with_pin pin a)).1 ≡ (serve_at env endpoint now t r a).1
  unfolding serve_at handle_devices handle_accessibility_open handle_device_actions
  serve_at-Hides pin Endpoint.status now t r a = status-Hides pin now r a
  serve_at-Hides pin Endpoint.devices now t r a = ground arith
  serve_at-Hides pin Endpoint.pairing_start now t r a = start-Hides pin now r a
  serve_at-Hides pin Endpoint.pairing_challenge now t r a = challenge-Hides pin r a
  serve_at-Hides pin Endpoint.resume now t r a = resume-Hides pin t r a
  serve_at-Hides pin Endpoint.config now t r a = config-Hides pin r a
  serve_at-Hides pin Endpoint.diagnostics_export now t r a = diagnostics-Hides pin r a
  serve_at-Hides pin Endpoint.accessibility_open now t r a = ground arith
  serve_at-Hides pin Endpoint.pair now t r a = pair-Hides pin t r a
  serve_at-Hides pin Endpoint.device_actions now t r a = ground arith
