-- ===== src/App/Service/Names.antt =====
-- The name that internal/app tells a phone, and the one that its pairing manager goes by.
use talka.Prelude.{
  ℕ, ◌≡◌, ◌↔◌, refl, ◌∙◌, List, [], ◌∷◌, ok, arith, inl, inr, Result-cases, List-cases,
}
use talka.Prelude.Bytes.{Bytes, codes}
use talka.Prelude.Paths.{dir}
use talka.Pairing
use talka.Pairing.{PendingPairing, PairingRequest}
use talka.Pairing.World.{Readings}
use talka.Pairing.Manager.{new_manager}
use talka.Pairing.Transcripts.{pairing_transcript}
use talka.Config.{Config, validate}
use talka.App.Service.{App, Environment, Request, Payload, ChallengeResponse}
use talka.App.Service.Handlers.{
  set_asr_status, refresh_ollama_status, handle_status, handle_devices, pairing_started,
  handle_pairing_start, handle_device_actions, handle_accessibility_open, handle_diagnostics_export,
}
use talka.App.Service.Settings.{
  manager_config, build, fresh_app, new, config_saved, update_config, put_config, handle_config,
}
use talka.App.Service.Phones.{
  connect, completed, resumed, answered, handle_ios_pairing_challenge, complete_ios_pairing,
  resume_ios_pairing, handle_ios_pair, handle_ios_resume,
}
use talka.App.Service.Connections.{
  register_ios_audio_conn, unregister_ios_audio_conn, put_machine,
  process_encrypted_ios_audio_session,
}
use talka.App.Service.Serve.{
  Endpoint, Event, called, warmed_up, connected, disconnected, received, serve, serve_at, step, run,
}

module _ {S W E A I : Type 0} (env : Environment S W E A I) where
  -- No request changes the configuration of the manager.
  serve_at-manager_config :
      (endpoint : Endpoint) (now : ℕ) (t : Readings) (r : Request) (a : App S W A I)
      → (serve_at env endpoint now t r a).0.manager_config ≡ a.manager_config
  unfolding serve_at handle_status refresh_ollama_status handle_devices handle_pairing_start
      pairing_started handle_device_actions handle_accessibility_open handle_diagnostics_export
      handle_config put_config config_saved update_config handle_ios_pairing_challenge
      handle_ios_pair complete_ios_pairing completed connect handle_ios_resume resume_ios_pairing
      resumed answered
  serve_at-manager_config Endpoint.status now t r a = ground arith
  serve_at-manager_config Endpoint.devices now t r a = ground arith
  serve_at-manager_config Endpoint.pairing_start now t r a = ground arith
  serve_at-manager_config Endpoint.pairing_challenge now t r a = ground arith
  serve_at-manager_config Endpoint.resume now t r a = ground arith
  serve_at-manager_config Endpoint.config now t r a = ground arith
  serve_at-manager_config Endpoint.diagnostics_export now t r a = ground arith
  serve_at-manager_config Endpoint.accessibility_open now t r a = ground arith
  serve_at-manager_config Endpoint.pair now t r a = ground arith
  serve_at-manager_config Endpoint.device_actions now t r a = ground arith

  step-manager_config :
      (e : Event) (a : App S W A I) → (step env e a).manager_config ≡ a.manager_config
  unfolding step serve set_asr_status register_ios_audio_conn unregister_ios_audio_conn
      process_encrypted_ios_audio_session put_machine
  step-manager_config (called c) a = serve_at-manager_config c.endpoint c.now c.readings c.request a
  step-manager_config (warmed_up e) a = refl
  step-manager_config (connected conn) a = refl
  step-manager_config (disconnected conn) a = refl
  step-manager_config (received clock id messages) a = ground arith

  run-manager_config :
      (es : List Event) (a : App S W A I) → (run env es a).manager_config ≡ a.manager_config
  unfolding run
  run-manager_config [] a = refl
  run-manager_config (e ∷ es) a = run-manager_config es (step env e a) ∙ step-manager_config e a

  new-manager_config :
      (c : Config) (config_path : Bytes) (now : ℕ) (store : S) (rand : Bytes) (w : W)
      (a : App S W A I)
      → new env c config_path now store rand w ≡ ok a
      → a.manager_config ≡ manager_config c
  unfolding new fresh_app
  new-manager_config c config_path now store rand w a e =
      elim (Result-cases (build env c (dir config_path))) [
        | inl (failed, q) ↦ absurd (ground (arith, q, e))
        | inr (parts, q) ↦
            elim (List-cases (validate env.unicode (env.files.stat w) c (dir config_path))) [
              | inr (issue, issues, k) ↦ absurd (ground (arith, q, k, e))
              | inl k ↦ ground (arith, q, k, e)
            ]
      ]

  -- The manager's configuration, with the names that the phone was told in a challenge.
  abbrev pub as_told : ChallengeResponse → Pairing.Config → Pairing.Config
  as_told ch m = record m {
    server_device_id = ch.server_device_id;
    server_device_name = ch.server_device_name;
  }

  challenge_names :
      (r : Request) (a : App S W A I) (ch : ChallengeResponse)
      → (handle_ios_pairing_challenge r a).1.payload ≡ Payload.challenge_payload ch
      → (ch.server_device_id ≡ codes "talka-mac")
        × (ch.server_device_name ≡ a.cfg.server.service_name)
  unfolding handle_ios_pairing_challenge
  challenge_names r a ch e = ground (arith, e)

  same_names :
      (ch : ChallengeResponse) (m : Pairing.Config) (p : PendingPairing) (q : PairingRequest)
      → ch.server_device_id ≡ m.server_device_id
      → (pairing_transcript (as_told ch m) p q ≡ pairing_transcript m p q)
        ↔ (ch.server_device_name ≡ m.server_device_name)
  unfolding pairing_transcript
  same_names ch m p q id = ground (arith, id)

  -- Whatever has happened to the service since it started: a phone that makes its transcript with
  -- the names of the challenge makes the one that the manager checks exactly if the name of the
  -- service is the one it started with.
  pub challenge_transcript_iff :
      (c : Config) (config_path : Bytes) (now : ℕ) (store : S) (rand : Bytes) (w : W)
      (a : App S W A I) (es : List Event) (r : Request) (ch : ChallengeResponse)
      (p : PendingPairing) (q : PairingRequest)
      → new env c config_path now store rand w ≡ ok a
      → (handle_ios_pairing_challenge r (run env es a)).1.payload ≡ Payload.challenge_payload ch
      → (pairing_transcript (as_told ch (run env es a).manager_config) p q
          ≡ pairing_transcript (run env es a).manager_config p q)
        ↔ ((run env es a).cfg.server.service_name ≡ c.server.service_name)
  unfolding manager_config new_manager
  challenge_transcript_iff c config_path now store rand w a es r ch p q e told =
      let b = run env es a in
      let kept : b.manager_config ≡ manager_config c =
        run-manager_config es a ∙ new-manager_config c config_path now store rand w a e in
      let (id, name) = challenge_names r b ch told in
      let same = same_names ch b.manager_config p q (ground (arith, kept, id)) in
      ground (arith, kept, name, same)
