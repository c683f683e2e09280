-- ===== src/App/Service/Serve.antt =====
-- `Handler` of internal/app/app.go: which endpoint a request goes to, and the service as a state
-- machine over what happens to it. A handler holds the mutex while it reads or changes the state, so
-- a call is one step; `handleConfig` builds and writes before it takes it, and retires the previous
-- pipeline afterwards, which App/Pipelines/Safety has as steps of their own.
use talka.Prelude.{ℕ, Option, List, [], ◌∷◌}
use talka.Prelude.Bytes.{Bytes, codes}
use talka.Session.{EncryptedMessage}
use talka.Pairing.World.{Readings}
use talka.App.Service.{App, Environment, Request, Response}
use talka.App.Service.Handlers.{
  set_asr_status, handle_status, handle_devices, handle_pairing_start, handle_device_actions,
  handle_accessibility_open, handle_diagnostics_export,
}
use talka.App.Service.Settings.{handle_config}
use talka.App.Service.Connections.{
  register_ios_audio_conn, unregister_ios_audio_conn, process_encrypted_ios_audio_session,
}
use talka.App.Service.Phones.{handle_ios_pairing_challenge, handle_ios_pair, handle_ios_resume}

-- The endpoints but for "/v1/session/audio", which is upgraded to a WebSocket connection.
pub data Endpoint : Type 0 where
  status devices pairing_start pairing_challenge resume config : Endpoint
  diagnostics_export accessibility_open pair device_actions : Endpoint

-- What is registered with the `ServeMux`.
abbrev pub handler : List (Bytes × Endpoint)
handler =
    (codes "/v1/status", Endpoint.status)
    ∷ (codes "/v1/devices", Endpoint.devices)
    ∷ (codes "/v1/pairing/start", Endpoint.pairing_start)
    ∷ (codes "/v1/ios/pairing/challenge", Endpoint.pairing_challenge)
    ∷ (codes "/v1/ios/resume", Endpoint.resume)
    ∷ (codes "/v1/config", Endpoint.config)
    ∷ (codes "/v1/diagnostics/export", Endpoint.diagnostics_export)
    ∷ (codes "/v1/permissions/accessibility/open", Endpoint.accessibility_open)
    ∷ (codes "/v1/ios/pair", Endpoint.pair)
    ∷ (codes "/v1/devices/", Endpoint.device_actions)
    ∷ []

-- A request, with the readings of the clock that are made while it is handled.
pub record Call : Type 0 where
  pub endpoint : Endpoint
  pub request : Request
  pub now : ℕ
  pub readings : Readings

-- What happens to the service: a request, the end of the recogniser's warm-up, a phone that connects,
-- disconnects, or has sent its audio as a whole.
pub data Event : Type 0 where
  connected disconnected : ℕ → Event
  received : (ℕ → ℕ × ℕ) → Bytes → List EncryptedMessage → Event
  called : Call → Event
  warmed_up : Option Bytes → Event

module _ {S W E A I : Type 0} (env : Environment S W E A I) where
  unfoldable pub serve_at : Endpoint → ℕ → Readings → Request → App S W A I → App S W A I × Response
  serve_at Endpoint.status now t r a = handle_status env now r a
  serve_at Endpoint.devices now t r a = handle_devices env r a
  serve_at Endpoint.pairing_start now t r a = handle_pairing_start env now r a
  serve_at Endpoint.pairing_challenge now t r a = handle_ios_pairing_challenge r a
  serve_at Endpoint.resume now t r a = handle_ios_resume env t r a
  serve_at Endpoint.config now t r a = handle_config env r a
  serve_at Endpoint.diagnostics_export now t r a = handle_diagnostics_export env r a
  serve_at Endpoint.accessibility_open now t r a = handle_accessibility_open env r a
  serve_at Endpoint.pair now t r a = handle_ios_pair env t r a
  serve_at Endpoint.device_actions now t r a = handle_device_actions env r a

  unfoldable pub serve : Call → App S W A I → App S W A I × Response
  serve c a = serve_at c.endpoint c.now c.readings c.request a

  unfoldable pub step : Event → App S W A I → App S W A I
  step (called c) a = (serve c a).0
  step (connected conn) a = register_ios_audio_conn conn a
  step (disconnected conn) a = unregister_ios_audio_conn conn a
  step (received clock id messages) a =
      (process_encrypted_ios_audio_session env clock id messages a).0
  step (warmed_up e) a = set_asr_status env e a

  unfoldable pub run : List Event → App S W A I → App S W A I
  run [] a = a
  run (e ∷ es) a = run es (step e a)
