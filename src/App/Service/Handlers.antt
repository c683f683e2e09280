-- ===== src/App/Service/Handlers.antt =====
-- The endpoints of internal/app/app.go that the settings window calls, but for `handleConfig`.
use talka.Prelude.{
  ℕ, ◌+◌, ◌-◌, ◌/◌, Bool, true, false, not, ◌&&◌, ◌||◌, Option, none, some, List, [], ◌∷◌, ◌++◌,
  Result, ok, err, ltb, length, if◌then◌else◌,
}
use talka.Prelude.Bytes.{Bytes, codes, is_empty}
use talka.Prelude.Text.{trim_prefix, trim_suffix, has_suffix}
use talka.Prelude.Dict.{delete, values}
use talka.Pairing
use talka.Pairing.{StartResponse}
use talka.Pairing.World.{World}
use talka.Pairing.Manager.{start}
use talka.Config.{Config}
use talka.App.Service.{
  App, Environment, Request, Response, Payload, ComponentReadiness, PairingSession, StatusResponse,
  write_error, method_not_allowed, write_json, is_get, is_post, in_use_of,
}

-- `readinessFromError`, on the text of the error.
unfoldable pub readiness_from_error : Option Bytes → ComponentReadiness
readiness_from_error (some text) = record { ready = false; error = text }
readiness_from_error none = record { ready = true; error = [] }

unfoldable pub aggregate_status : ComponentReadiness → ComponentReadiness → Bytes
aggregate_status asr ollama =
    if asr.ready && ollama.ready
    then codes "running"
    else if not (is_empty asr.error) || not (is_empty ollama.error)
    then codes "error"
    else codes "starting"

-- `time.Since(a.startedAt).Round(time.Second) / time.Second` in nanoseconds: a half rounds up.
unfoldable pub uptime_seconds : ℕ → ℕ → ℕ
uptime_seconds started now = (now - started + 500_000_000) / 1_000_000_000

unfoldable pub is_active : Option PairingSession → ℕ → Bool
is_active none now = false
is_active (some p) now = ltb now p.expires_at

-- `diagnosticsRedactions`.
unfoldable pub diagnostics_redactions : Config → List Bytes
diagnostics_redactions c =
    codes "pairing.pin"
    ∷ codes "session.keys"
    ∷ ((if c.logging.capture_audio then [] else codes "raw_audio" ∷ [])
        ++ (if c.logging.capture_transcript then [] else codes "full_transcript" ∷ []))

unfoldable pub redacted : Option PairingSession → Option PairingSession
redacted none = none
redacted (some p) = some (record p { pin = codes "[redacted]" })

abbrev arrow : Bytes
arrow = 226 ∷ 134 ∷ 146 ∷ []

-- With U+2192 for each arrow.
abbrev accessibility_message : Bytes
accessibility_message =
    codes "Open System Settings "
    ++ (arrow ++ codes " Privacy & Security " ++ arrow ++ codes " Accessibility")

abbrev pub pairing_lifetime_seconds : ℕ
pairing_lifetime_seconds = 120

module _ {S W E A I : Type 0} (env : Environment S W E A I) where
  -- `setASRStatus`.
  unfoldable pub set_asr_status : Option Bytes → App S W A I → App S W A I
  set_asr_status e a = record a { asr_status = readiness_from_error e }

  unfoldable pub refresh_ollama_status : App S W A I → App S W A I
  refresh_ollama_status a = elim (in_use_of a.pipelines a.built) [
    | none ↦ record a {
      ollama_status = readiness_from_error (some (codes "llm provider is not configured"));
    }
    | some parts ↦
        let (w, e) = env.check_llm parts.llm a.outside in
        record a { ollama_status = readiness_from_error e; outside = w }
  ]

  -- `now` is the reading of the clock.
  unfoldable pub status_of : ℕ → App S W A I → StatusResponse
  status_of now a = record {
    service_name = a.cfg.server.service_name;
    state = aggregate_status a.asr_status a.ollama_status;
    config_path = a.config_path;
    uptime_seconds = uptime_seconds a.started_at now;
    device_count = length a.devices;
    pairing_active = is_active a.pairing now;
    asr = record {
      provider = a.cfg.asr.provider;
      model_profile = a.cfg.asr.sherpa_onnx.model_profile;
      sample_rate = a.cfg.asr.sample_rate;
      mode = a.cfg.asr.mode;
      ready = a.asr_status.ready;
      error = a.asr_status.error;
    };
    ollama = record {
      base_url = a.cfg.llm.base_url;
      model = a.cfg.llm.model;
      timeout_seconds = a.cfg.llm.timeout_seconds;
      ready = a.ollama_status.ready;
      error = a.ollama_status.error;
    };
    injection = record {
      mode = a.cfg.injection.mode;
      restore_clipboard = a.cfg.injection.restore_clipboard;
      paste_broker_socket = env.paste_broker_socket;
    };
    accessibility = codes "unknown";
  }

  unfoldable pub handle_status : ℕ → Request → App S W A I → App S W A I × Response
  handle_status now r a =
      if not (is_get r)
      then (a, method_not_allowed (codes "status endpoint only accepts GET"))
      else (let a' = refresh_ollama_status a in
          (a', write_json (Payload.status_payload (status_of now a'))))

  unfoldable pub handle_devices : Request → App S W A I → App S W A I × Response
  handle_devices r a =
      if not (is_get r)
      then (a, method_not_allowed (codes "devices endpoint only accepts GET"))
      else (a, write_json (Payload.devices_payload (values a.devices)))

  unfoldable pub pairing_started :
      World S × Result Pairing.Error StartResponse → App S W A I → App S W A I × Response
  pairing_started (w, err e) a = (
    record a { manager = w },
    write_error 500 (codes "pairing_start_failed") (codes "pairing start failed"),
  )
  pairing_started (w, ok s) a = (
    record a {
      manager = w;
      pairing = some (record { pairing_id = s.pairing_id; pin = s.pin; expires_at = s.expires_at });
      ios_pairing = some s;
    },
    write_json (
        Payload.started_payload (record {
          pairing_id = s.pairing_id;
          pin = s.pin;
          expires_at = s.expires_at;
          expires_in_seconds = pairing_lifetime_seconds;
        })),
  )

  -- `now` is the reading of the clock in `Start`.
  unfoldable pub handle_pairing_start : ℕ → Request → App S W A I → App S W A I × Response
  handle_pairing_start now r a =
      if not (is_post r)
      then (a, method_not_allowed (codes "pairing start endpoint only accepts POST"))
      else pairing_started (start env.primitives env.store a.manager_config now a.manager) a

  -- The identifier of the device in the path of a request to forget it.
  unfoldable pub device_to_forget : Bytes → Bytes
  device_to_forget path = trim_suffix (trim_suffix path (codes "/forget")) (codes "/")

  unfoldable pub handle_device_actions : Request → App S W A I → App S W A I × Response
  handle_device_actions r a =
      let path = trim_prefix r.path (codes "/v1/devices/") in
      let id = device_to_forget path in
      if not (has_suffix path (codes "/forget"))
      then (a, write_error 404 (codes "not_found") (codes "unknown device action"))
      else if is_empty id
      then (a, write_error 400 (codes "invalid_request") (codes "device id is required"))
      else if not (is_post r)
      then (a, method_not_allowed (codes "forget endpoint only accepts POST"))
      else (
        record a { devices = delete id a.devices },
        write_json (Payload.forgotten_payload (record { device_id = id; forgotten = true })),
      )

  unfoldable pub handle_accessibility_open : Request → App S W A I → App S W A I × Response
  handle_accessibility_open r a =
      if not (is_post r)
      then (a, method_not_allowed (codes "accessibility endpoint only accepts POST"))
      else (
        a,
        write_json (
            Payload.accessibility_payload (record {
              permission = codes "accessibility";
              opened = false;
              settings_url =
                  codes
                    "x-apple.systempreferences:com.apple.preference.security?Privacy_Accessibility";
              message = accessibility_message;
            })),
      )

  unfoldable pub handle_diagnostics_export : Request → App S W A I → App S W A I × Response
  handle_diagnostics_export r a =
      if not (is_get r)
      then (a, method_not_allowed (codes "diagnostics export endpoint only accepts GET"))
      else (
        a,
        write_json (
            Payload.diagnostics_payload (record {
              cfg = a.cfg;
              devices = values a.devices;
              pairing = redacted a.pairing;
              redactions = diagnostics_redactions a.cfg;
              latency_traces = a.latency_recorder.traces;
            })),
      )
