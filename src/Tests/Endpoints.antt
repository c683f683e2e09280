-- ===== src/Tests/Endpoints.antt =====
-- The service with one configuration, one phone, and stand-ins for what is outside.
use talka.Prelude.{ℕ, ◌≡◌, refl, Bool, false, none, some, List, [], ◌∷◌, ◌++◌, ok, ◌↔◌, replicate}
use talka.Prelude.Bytes.{Bytes, codes}
use talka.Prelude.Text.{trim_space, to_lower}
use talka.Prelude.Base64.{encode_to_string, decode_string, digit}
use talka.Prelude.Dict.{lookup, insert}
use talka.Prelude.Paths.{dir}
use talka.Config
use talka.Config.{Config, default, Stat, validate}
use talka.Config.Files.{Files, save, write_config}
use talka.Config.Files.Saved.{FilesLaws}
use talka.Pairing.FakeStore.{FakeStore, fake_store, fake_store-StoreLaws, empty_store}
use talka.Pairing.World.{Readings}
use talka.App.Build.{
  Parts, new_pipeline_from_config, new_asr_provider_from_config, new_llm_provider_from_config,
  new_text_injector_from_config,
}
use talka.App.Service.{
  App, Environment, Request, Payload, ChallengeResponse, CompleteRequest, ResumptionRequest,
  IosAudioSession,
}
use talka.App.Service.Settings.{manager_config, new, fresh_app, build}
use talka.App.Service.Serve.{
  Endpoint, Event, called, warmed_up, connected, disconnected, Call, run, step, serve, serve_at,
}
use talka.App.Service.WellFormed.{WellFormed}
use talka.App.Service.WellFormed.Calls.{run-WellFormed}
use talka.Pairing.Pin.{random_hex, random_pin}
use talka.App.Service.Handlers.{
  handle_pairing_start, pairing_started, handle_status, handle_device_actions,
}
use talka.App.Service.Phones.{
  handle_ios_pair, handle_ios_resume, complete_ios_pairing, pairing_request, decode_required_base64,
  answered, completed, connect, handle_ios_pairing_challenge,
}
use talka.App.Service.Settings.{handle_config, put_config, config_saved}
use talka.App.Service.Refusals.{Same, serve_at-Refused}
use talka.App.Service.Answers.{Admitted}
use talka.App.Service.Admission.{serve_at-Admitted}
use talka.App.Service.Forgotten.{forgotten_device_resumes}
use talka.App.Service.Secrets.{with_pin, serve_at-Hides}
use talka.App.Service.Names.{as_told, challenge_transcript_iff}
use talka.App.Service.Restart.{Lasts, handle_config-Lasts}
use talka.Crypto.{
  compute_shared_secret, compute_pairing_confirmation, compute_transcript_mac, random_session_id,
  generate_x25519_key_pair, derive_session_keys,
}
use talka.Session.{new_state_machine}
use talka.Prelude.Bytes.{read_full}
use talka.Pairing.FakeStore.{load_local_identity, save_local_identity, save_trusted_device}
use talka.Pairing.Manager.{
  new_manager, start, load_or_create_local_identity, complete, complete_pending, confirm, establish,
}
use talka.Pairing.Transcripts.{pairing_transcript, expected_confirmation, validate_public_key}
use talka.Tests.Pairings
use talka.Tests.{toy_primitives, toy_aead, toy_json}

abbrev same : Bytes → Bytes
same s = s

-- The world is the text of the file.
abbrev files : Files Bytes ℕ
files = record {
  stat = λ w p. Stat.found;
  read_file = λ w p. ok w;
  mkdir_all = λ d w. (w, none);
  write_file = λ p text w. (text, none);
  decode = λ text c. ok default;
  encode = λ c. ok (codes "{}");
}

abbrev complete_request : CompleteRequest
complete_request = record {
  pairing_id = codes "ab";
  device_id = codes " phone";
  device_name = codes "Phone";
  client_identity_public_key = encode_to_string (3 ∷ []);
  client_ephemeral_public_key = encode_to_string (4 ∷ []);
  client_confirmation = encode_to_string (codes "123456" ++ replicate 26 1);
}

abbrev resumption_request : ResumptionRequest
resumption_request = record {
  pairing_id = codes "ab";
  device_id = codes "phone";
  device_name = codes "Phone";
  client_identity_public_key = encode_to_string (3 ∷ []);
  client_ephemeral_public_key = encode_to_string (4 ∷ []);
}

abbrev env : Environment FakeStore Bytes ℕ ℕ Bool
env = record {
  primitives = toy_primitives;
  store = fake_store;
  files = files;
  unicode = same;
  recogniser = λ m. ok 0;
  injector = λ restore. restore;
  check_llm = λ llm w. (w, none);
  decode_complete = λ body. some complete_request;
  decode_resumption = λ body. some resumption_request;
  decode_config = λ body. some default;
  paste_broker_socket = [];
  aead = toy_aead;
  json = toy_json;
  as_pipeline = λ parts. record { asr = none; llm = none; injector = none };
}

abbrev request_to : Bytes → Bytes → Request
request_to method path = record {
  method = method;
  path = path;
  host = codes "mac:1";
  tls = false;
  body = [];
}

abbrev put_request : Request
put_request = request_to (codes "PUT") (codes "/v1/config")

abbrev readings : Readings
readings = record { checked = 10; started = 11; paired = 12; seen = 13 }

abbrev config_path : Bytes
config_path = codes "/c.yaml"

abbrev rand : Bytes
rand = replicate 60 5

default_parts : (parts : Parts ℕ Bool) × (build env default (dir config_path) ≡ ok parts)
unfolding build new_pipeline_from_config new_asr_provider_from_config new_llm_provider_from_config
    new_text_injector_from_config trim_space to_lower Config.normalize_asr_provider
default_parts = (_, refl)

abbrev app : App FakeStore Bytes ℕ Bool
app = fresh_app env default config_path 1 empty_store rand [] default_parts.0

starts : new env default config_path 1 empty_store rand [] ≡ ok app
unfolding new fresh_app validate trim_space Config.validate_asr Config.normalize_asr_provider
    to_lower Config.validate_provider Config.validate_sherpa_onnx Config.model_type_of
    Config.validate_path Config.must_exist Config.validate_llm build new_pipeline_from_config
    new_asr_provider_from_config new_llm_provider_from_config new_text_injector_from_config
    default_parts
starts = refl

abbrev start_call : Call
start_call = record {
  endpoint = Endpoint.pairing_start;
  request = request_to (codes "POST") (codes "/v1/pairing/start");
  now = 3;
  readings = readings;
}

abbrev events : List Event
events =
    connected 4
    ∷ warmed_up none
    ∷ called start_call
    ∷ called (record start_call { endpoint = Endpoint.config; request = put_request })
    ∷ disconnected 4
    ∷ []

run-WellFormed_example : WellFormed env (run env events app)
run-WellFormed_example =
    run-WellFormed env default config_path 1 empty_store rand [] app events starts

abbrev get_status : Request
get_status = request_to (codes "DELETE") (codes "/v1/status")

serve_at-Refused_example : Same env app (serve_at env Endpoint.status 5 readings get_status app).0
unfolding serve_at handle_status
serve_at-Refused_example = serve_at-Refused env Endpoint.status 5 readings get_status app refl

-- A pairing is pending, and the phone confirms it.
abbrev awaiting : App FakeStore Bytes ℕ Bool
awaiting = record app { manager = Pairings.world; manager_config = Pairings.config }

abbrev phone_session : IosAudioSession
phone_session = record { device_id = codes "phone"; machine = Pairings.machine }

phone_admitted :
    lookup
      (codes "phone")
      (serve_at env Endpoint.pair 5 readings
        (request_to (codes "POST") (codes "/v1/ios/pair"))
        awaiting).0.ios_sessions
    ≡ some phone_session
unfolding serve_at handle_ios_pair complete_ios_pairing pairing_request decode_required_base64
    decode_string encode_to_string trim_space answered completed connect insert lookup complete
    complete_pending confirm establish expected_confirmation validate_public_key
    compute_shared_secret compute_pairing_confirmation compute_transcript_mac random_session_id
    read_full derive_session_keys new_state_machine save_trusted_device fresh_app digit
phone_admitted = refl

serve_at-Admitted_example :
    Admitted env Endpoint.pair readings
      (request_to (codes "POST") (codes "/v1/ios/pair"))
      awaiting
      (codes "phone")
      phone_session
serve_at-Admitted_example =
    serve_at-Admitted env fake_store-StoreLaws Endpoint.pair 5 readings
      (request_to (codes "POST") (codes "/v1/ios/pair")) awaiting (codes "phone") phone_session
      phone_admitted

-- The phone is stored and has a session.
abbrev paired_app : App FakeStore Bytes ℕ Bool
paired_app = record app {
  manager = Pairings.trusting;
  manager_config = Pairings.config;
  ios_sessions = (codes "phone", phone_session) ∷ [];
}

abbrev forget_request : Request
forget_request = request_to (codes "POST") (codes "/v1/devices/phone/forget")

abbrev resume_call : Request
resume_call = request_to (codes "POST") (codes "/v1/ios/resume")

forgotten_device_resumes_example :
    ((handle_device_actions env forget_request paired_app).0.ios_sessions ≡ paired_app.ios_sessions)
    × ((handle_ios_resume env readings resume_call
          (handle_device_actions env forget_request paired_app).0).1
        ≡ (handle_ios_resume env readings resume_call paired_app).1)
forgotten_device_resumes_example =
    forgotten_device_resumes env readings forget_request resume_call paired_app

abbrev shown_app : App FakeStore Bytes ℕ Bool
shown_app = record app {
  pairing = some (record { pairing_id = codes "ab"; pin = codes "123456"; expires_at = 9 });
}

abbrev export_request : Request
export_request = request_to (codes "GET") (codes "/v1/diagnostics/export")

serve_at-Hides_example :
    (serve_at env Endpoint.diagnostics_export 5 readings export_request
      (with_pin env (codes "000000") shown_app)).1
    ≡ (serve_at env Endpoint.diagnostics_export 5 readings export_request shown_app).1
serve_at-Hides_example =
    serve_at-Hides env (codes "000000") Endpoint.diagnostics_export 5 readings export_request
      shown_app

files_laws : FilesLaws files default
files_laws = record {
  mkdir_keeps = λ d p w e. refl;
  write_keeps = λ q text p w e. refl;
  reads_back = λ q text w e. refl;
  decodes_back = λ text e. refl;
}

put_accepted : (handle_config env put_request app).1.status ≡ 200
unfolding handle_config fresh_app put_config config_saved save write_config validate trim_space
    Config.validate_asr Config.normalize_asr_provider to_lower Config.validate_provider
    Config.validate_sherpa_onnx Config.model_type_of Config.validate_path Config.must_exist
    Config.validate_llm build new_pipeline_from_config new_asr_provider_from_config
    new_llm_provider_from_config new_text_injector_from_config
put_accepted = refl

handle_config-Lasts_example : Lasts env default app (handle_config env put_request app)
unfolding fresh_app
handle_config-Lasts_example =
    handle_config-Lasts env put_request default app files_laws refl refl refl put_accepted

abbrev challenge_request : Request
challenge_request = request_to (codes "GET") (codes "/v1/ios/pairing/challenge")

abbrev told : ChallengeResponse
told = record {
  pairing_id = codes "0505050505050505";
  expires_at = 120_000_000_003;
  server_device_id = codes "talka-mac";
  server_device_name = codes "Talka";
  server_identity_public_key = codes "BQU=";
  server_ephemeral_public_key = codes "BQU=";
}

is_told :
    (handle_ios_pairing_challenge challenge_request
      (run env (called start_call ∷ []) app)).1.payload
    ≡ Payload.challenge_payload told
unfolding handle_ios_pairing_challenge run step serve serve_at handle_pairing_start start fresh_app
    load_or_create_local_identity generate_x25519_key_pair pairing_started random_hex random_pin
    read_full encode_to_string digit new_manager manager_config load_local_identity
    save_local_identity
is_told = refl

challenge_transcript_iff_example :
    (pairing_transcript
        (as_told env told (run env (called start_call ∷ []) app).manager_config)
        Pairings.pending
        Pairings.request
      ≡ pairing_transcript
          (run env (called start_call ∷ []) app).manager_config
          Pairings.pending
          Pairings.request)
    ↔ ((run env (called start_call ∷ []) app).cfg.server.service_name ≡ codes "Talka")
challenge_transcript_iff_example =
    challenge_transcript_iff env default config_path 1 empty_store rand [] app
      (called start_call ∷ []) challenge_request told Pairings.pending Pairings.request starts
      is_told
