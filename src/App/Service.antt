-- ===== src/App/Service.antt =====
-- internal/app/app.go and ios_session.go: the state of the service, what its endpoints are asked and
-- what they answer. JSON is a parameter: a body is read by the decoders of `Environment`, and an
-- answer is the value that is encoded. Logging is left out; `capture_audio` and the other settings
-- of the log are only written to it.
pub mod Handlers
pub mod Settings
pub mod Phones
pub mod Connections
pub mod Serve
pub mod WellFormed
pub mod Refusals
pub mod Answers
pub mod Admission
pub mod Forgotten
pub mod Secrets
pub mod Restart
pub mod Names
use talka.Prelude.{Result, ℕ, Bool, true, false, Option, none, some, List, get_elem?}
use talka.Prelude.Int.{ℤ}
use talka.Prelude.Bytes.{Bytes, codes, bytes_eq}
use talka.Crypto.{Primitives}
use talka.Protocol.Codec.{Json}
use talka.Session.{Aead, StateMachine}
use talka.Pairing.{Store, StartResponse}
use talka.Pairing
use talka.Pairing.World.{World}
use talka.Llm.{OllamaProvider}
use talka.Config.{Config, Issue}
use talka.Config.Files.{Files}
use talka.App.Pipelines.{Pipelines}
use talka.App.Build
use talka.App.Build.{Parts, ModelFiles}
use talka.App.Dictation.{Pipeline}
use talka.App.Latency.{LatencyTrace, LatencyRecorder}

pub record ComponentReadiness : Type 0 where
  pub ready : Bool
  pub error : Bytes

pub record Device : Type 0 where
  pub id : Bytes
  pub name : Bytes
  pub paired : Bool
  pub last_seen_at : ℕ

pub record PairingSession : Type 0 where
  pub pairing_id : Bytes
  pub pin : Bytes
  pub expires_at : ℕ

pub record IosAudioSession : Type 0 where
  pub device_id : Bytes
  pub machine : StateMachine

-- `IOSPairingCompleteRequest`.
pub record CompleteRequest : Type 0 where
  pub pairing_id : Bytes
  pub device_id : Bytes
  pub device_name : Bytes
  pub client_identity_public_key : Bytes
  pub client_ephemeral_public_key : Bytes
  pub client_confirmation : Bytes

-- `IOSResumeRequest`.
pub record ResumptionRequest : Type 0 where
  pub pairing_id : Bytes
  pub device_id : Bytes
  pub device_name : Bytes
  pub client_identity_public_key : Bytes
  pub client_ephemeral_public_key : Bytes

-- What the service reaches outside of its own state: the primitives of crypto, the store of devices
-- `S`, files and the language model's server in a world `W`, the recogniser and the drivers (`A` and
-- `I`), the decoders of JSON bodies, `TALKA_PASTE_BROKER_SOCKET`, and for the audio
-- of phones the cipher, the JSON of messages and the pipeline that is made of its parts.
-- `check_llm` gives the text of the error.
pub record Environment (S W E A I : Type 0) : Type 0 where
  pub primitives : Primitives
  pub store : Store S
  pub files : Files W E
  pub unicode : Bytes → Bytes
  pub recogniser : ModelFiles → Result Bytes A
  pub injector : Bool → I
  pub check_llm : OllamaProvider → W → W × Option Bytes
  pub decode_complete : Bytes → Option CompleteRequest
  pub decode_resumption : Bytes → Option ResumptionRequest
  pub decode_config : Bytes → Option Config
  pub paste_broker_socket : Bytes
  pub aead : Aead
  pub json : Json
  pub as_pipeline : Parts A I → Pipeline W E

-- A pipeline is the position in `built` of what it is made of. The manager is its configuration,
-- which never changes, and its world.
pub record App (S W A I : Type 0) : Type 0 where
  pub cfg : Config
  pub config_path : Bytes
  pub config_dir : Bytes
  pub started_at : ℕ
  pub devices : List (Bytes × Device)
  pub pairing : Option PairingSession
  pub pipelines : Pipelines
  pub built : List (Parts A I)
  pub asr_status : ComponentReadiness
  pub ollama_status : ComponentReadiness
  pub ios_sessions : List (Bytes × IosAudioSession)
  pub ios_audio_conns : List ℕ
  pub ios_pairing : Option StartResponse
  pub manager_config : Pairing.Config
  pub manager : World S
  pub latency_recorder : LatencyRecorder
  pub outside : W

-- What a handler reads of an HTTP request.
pub record Request : Type 0 where
  pub method : Bytes
  pub path : Bytes
  pub host : Bytes
  pub tls : Bool
  pub body : Bytes

pub record AsrStatusResponse : Type 0 where
  pub provider : Bytes
  pub model_profile : Bytes
  pub sample_rate : ℤ
  pub mode : Bytes
  pub ready : Bool
  pub error : Bytes

pub record OllamaStatusResponse : Type 0 where
  pub base_url : Bytes
  pub model : Bytes
  pub timeout_seconds : ℤ
  pub ready : Bool
  pub error : Bytes

pub record InjectionStatusResponse : Type 0 where
  pub mode : Bytes
  pub restore_clipboard : Bool
  pub paste_broker_socket : Bytes

pub record StatusResponse : Type 0 where
  pub service_name : Bytes
  pub state : Bytes
  pub config_path : Bytes
  pub uptime_seconds : ℕ
  pub device_count : ℕ
  pub pairing_active : Bool
  pub asr : AsrStatusResponse
  pub ollama : OllamaStatusResponse
  pub injection : InjectionStatusResponse
  pub accessibility : Bytes

pub record PairingStartResponse : Type 0 where
  pub pairing_id : Bytes
  pub pin : Bytes
  pub expires_at : ℕ
  pub expires_in_seconds : ℕ

pub record ForgetDeviceResponse : Type 0 where
  pub device_id : Bytes
  pub forgotten : Bool

pub record AccessibilityOpenResponse : Type 0 where
  pub permission : Bytes
  pub opened : Bool
  pub settings_url : Bytes
  pub message : Bytes

pub record ChallengeResponse : Type 0 where
  pub pairing_id : Bytes
  pub expires_at : ℕ
  pub server_device_id : Bytes
  pub server_device_name : Bytes
  pub server_identity_public_key : Bytes
  pub server_ephemeral_public_key : Bytes

pub record IosPairingResponse : Type 0 where
  pub device_id : Bytes
  pub device_name : Bytes
  pub server_device_id : Bytes
  pub server_device_name : Bytes
  pub server_identity_public_key : Bytes
  pub server_ephemeral_public_key : Bytes
  pub server_confirmation : Bytes
  pub session_id : Bytes
  pub audio_websocket_url : Bytes

-- `DiagnosticsPairingSession` has the fields of `PairingSession`.
pub record DiagnosticsExportResponse : Type 0 where
  pub cfg : Config
  pub devices : List Device
  pub pairing : Option PairingSession
  pub redactions : List Bytes
  pub latency_traces : List LatencyTrace

-- The `details` of an error: a diagnostic, or the issues of a configuration.
pub data Details : Type 0 where
  no_details : Details
  diagnostic : Build.Error → Details
  issues : List Issue → Details

pub record ApiError : Type 0 where
  pub code : Bytes
  pub message : Bytes
  pub details : Details

pub data Payload : Type 0 where
  status_payload : StatusResponse → Payload
  devices_payload : List Device → Payload
  started_payload : PairingStartResponse → Payload
  forgotten_payload : ForgetDeviceResponse → Payload
  config_payload : Bytes → Config → Payload
  accessibility_payload : AccessibilityOpenResponse → Payload
  challenge_payload : ChallengeResponse → Payload
  paired_payload : IosPairingResponse → Payload
  diagnostics_payload : DiagnosticsExportResponse → Payload
  error_payload : ApiError → Payload

-- What `writeJSON` writes.
pub record Response : Type 0 where
  pub status : ℕ
  pub payload : Payload

abbrev pub status_ok : ℕ
status_ok = 200

abbrev pub write_error_with : ℕ → Bytes → Bytes → Details → Response
write_error_with status code message details = record {
  status = status;
  payload = Payload.error_payload (record { code = code; message = message; details = details });
}

-- `writeError` with nil details.
abbrev pub write_error : ℕ → Bytes → Bytes → Response
write_error status code message = write_error_with status code message Details.no_details

abbrev pub method_not_allowed : Bytes → Response
method_not_allowed message = write_error 405 (codes "method_not_allowed") message

abbrev pub write_json : Payload → Response
write_json payload = record { status = status_ok; payload = payload }

abbrev pub is_get : Request → Bool
is_get r = bytes_eq r.method (codes "GET")

abbrev pub is_post : Request → Bool
is_post r = bytes_eq r.method (codes "POST")

-- The pipeline that is in use.
abbrev pub in_use_of : {A I : Type 0} → Pipelines → List (Parts A I) → Option (Parts A I)
in_use_of pipelines built = elim pipelines.current [ none ↦ none | some p ↦ get_elem? built p ]
