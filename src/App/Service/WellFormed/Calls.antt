-- ===== src/App/Service/WellFormed/Calls.antt =====
-- Every call of the service keeps its invariant.
use talka.Prelude.{
  ℕ, ◌≡◌, refl, subst, Option, none, some, List, [], ◌∷◌, Result, ok, err, arith, inl, inr,
  Bool-cases, Option-cases, Result-cases, List-cases, if-holds, not,
}
use talka.Prelude.Bytes.{Bytes, bytes_eq, codes, is_empty}
use talka.Prelude.Paths.{dir}
use talka.Prelude.Dict.{lookup}
use talka.Prelude.Text.{trim_prefix, has_suffix}
use talka.Pairing.World.{Readings}
use talka.Pairing.Pending.{start-Started, complete-Completed, resume-keeps}
use talka.Config.{Config, validate}
use talka.Config.Files
use talka.App.Build.{Parts}
use talka.App.Service.{
  App, Environment, Request, Response, in_use_of, IosPairingResponse, is_get, is_post,
}
use talka.App.Service.Handlers.{
  set_asr_status, refresh_ollama_status, handle_status, handle_devices, handle_pairing_start,
  device_to_forget, handle_device_actions, handle_accessibility_open, handle_diagnostics_export,
}
use talka.App.Service.Settings.{build, fresh_app, new, config_saved, put_config, handle_config}
use talka.App.Service.Phones.{
  PairError, pairing_request, resume_request, answered, handle_ios_pairing_challenge,
  complete_ios_pairing, resume_ios_pairing, handle_ios_pair, handle_ios_resume,
}
use talka.App.Service.Connections.{
  machine_of, register_ios_audio_conn, unregister_ios_audio_conn,
  process_encrypted_ios_audio_session,
}
use talka.App.Service.Serve.{
  Endpoint, Event, called, warmed_up, connected, disconnected, received, serve, serve_at, step, run,
}
use talka.App.Service.WellFormed.{WellFormed}
use talka.App.Service.WellFormed.Changes.{
  start-WellFormed, completed-WellFormed, resumed-WellFormed, update_config-WellFormed,
  around-WellFormed, connections-WellFormed, put_machine-WellFormed, held-WellFormed,
  forget-WellFormed,
}

module _ {S W E A I : Type 0} (env : Environment S W E A I) where
  abbrev Kept : App S W A I × Response → Type 0
  Kept q = WellFormed env q.0

  config_saved-WellFormed :
      (a : App S W A I) (c : Config) (parts : Parts A I) (q : W × Option (Files.Error E))
      → WellFormed env a
      → build env c a.config_dir ≡ ok parts
      → WellFormed env (config_saved env c parts q a).0
  unfolding config_saved
  config_saved-WellFormed a c parts (w, some e) v b =
      around-WellFormed env a a.asr_status a.ollama_status w v
  config_saved-WellFormed a c parts (w, none) v b =
      update_config-WellFormed env (record a { outside = w }) c parts
        (around-WellFormed env a a.asr_status a.ollama_status w v) b

  put_config-WellFormed :
      (a : App S W A I) (c : Config) → WellFormed env a → WellFormed env (put_config env c a).0
  unfolding put_config
  put_config-WellFormed a c v =
      elim (List-cases (validate env.unicode (env.files.stat a.outside) c a.config_dir)) [
        | inr (issue, issues, q) ↦ rw (q, put_config) v
        | inl q ↦ elim (Result-cases (build env c a.config_dir)) [
          | inl (e, k) ↦ rw (q, k, put_config) v
          | inr (parts, k) ↦ rw (q, k, put_config) (config_saved-WellFormed a c parts _ v k)
        ]
      ]

  config-WellFormed :
      (a : App S W A I) (r : Request) → WellFormed env a → WellFormed env (handle_config env r a).0
  unfolding handle_config
  config-WellFormed a r v = elim (Bool-cases (is_get r)) [
    | inl get ↦ rw get v
    | inr get ↦ elim (Bool-cases (bytes_eq r.method (codes "PUT"))) [
      | inr put ↦ rw (get, put) v
      | inl put ↦ elim (Option-cases (env.decode_config r.body)) [
        | inl q ↦ rw (get, put, q) v
        | inr (c, q) ↦ rw (get, put, q) (put_config-WellFormed a c v)
      ]
    ]
  ]

  status-WellFormed :
      (a : App S W A I) (now : ℕ) (r : Request)
      → WellFormed env a
      → WellFormed env (handle_status env now r a).0
  unfolding handle_status refresh_ollama_status
  status-WellFormed a now r v = elim (Bool-cases (is_get r)) [
    | inr get ↦ rw get v
    | inl get ↦ elim (Option-cases (in_use_of a.pipelines a.built)) [
      | inl q ↦
          rw (get, q, refresh_ollama_status) (around-WellFormed env a a.asr_status _ a.outside v)
      | inr (parts, q) ↦
          rw (get, q, refresh_ollama_status) (around-WellFormed env a a.asr_status _ _ v)
    ]
  ]

  pairing_start-WellFormed :
      (a : App S W A I) (now : ℕ) (r : Request)
      → WellFormed env a
      → WellFormed env (handle_pairing_start env now r a).0
  unfolding handle_pairing_start
  pairing_start-WellFormed a now r v = elim (Bool-cases (is_post r)) [
    | inr post ↦ rw post v
    | inl post ↦ rw post (
        start-WellFormed env a _ v
          (start-Started env.primitives env.store a.manager_config now a.manager))
  ]

  device_actions-WellFormed :
      (a : App S W A I) (r : Request)
      → WellFormed env a
      → WellFormed env (handle_device_actions env r a).0
  unfolding handle_device_actions
  device_actions-WellFormed a r v =
      let path = trim_prefix r.path (codes "/v1/devices/") in
      if-holds Kept (not (has_suffix path (codes "/forget"))) v (
        if-holds Kept (is_empty (device_to_forget env path)) v (
          if-holds Kept (not (is_post r)) v
            (forget-WellFormed env a (device_to_forget env path) v)))

  answered-WellFormed :
      (code message : Bytes) (q : App S W A I × Result PairError IosPairingResponse)
      → WellFormed env q.0
      → WellFormed env (answered code message q).0
  unfolding answered
  answered-WellFormed code message (a, ok p) v = v
  answered-WellFormed code message (a, err e) v = v

  pair-WellFormed :
      (a : App S W A I) (t : Readings) (r : Request)
      → WellFormed env a
      → WellFormed env (handle_ios_pair env t r a).0
  unfolding handle_ios_pair complete_ios_pairing
  pair-WellFormed a t r v = elim (Bool-cases (is_post r)) [
    | inr post ↦ rw post v
    | inl post ↦ elim (Option-cases (env.decode_complete r.body)) [
      | inl q ↦ rw (post, q) v
      | inr (request, q) ↦ elim (Result-cases (pairing_request request)) [
        | inl (e, k) ↦ rw (post, q, k, complete_ios_pairing) (answered-WellFormed _ _ (a, err e) v)
        | inr (p, k) ↦
            rw (post, q, k, complete_ios_pairing)
              (answered-WellFormed _ _ _ (
                completed-WellFormed env a r _ v
                  (complete-Completed env.primitives env.store a.manager_config t p a.manager)))
      ]
    ]
  ]

  resume-WellFormed :
      (a : App S W A I) (t : Readings) (r : Request)
      → WellFormed env a
      → WellFormed env (handle_ios_resume env t r a).0
  unfolding handle_ios_resume resume_ios_pairing
  resume-WellFormed a t r v = elim (Bool-cases (is_post r)) [
    | inr post ↦ rw post v
    | inl post ↦ elim (Option-cases (env.decode_resumption r.body)) [
      | inl q ↦ rw (post, q) v
      | inr (request, q) ↦ elim (Result-cases (resume_request request)) [
        | inl (e, k) ↦ rw (post, q, k, resume_ios_pairing) (answered-WellFormed _ _ (a, err e) v)
        | inr (p, k) ↦
            rw (post, q, k, resume_ios_pairing)
              (answered-WellFormed _ _ _ (
                resumed-WellFormed env a r _ v (
                  resume-keeps env.primitives env.store a.manager_config t.started t.seen p
                    a.manager)))
      ]
    ]
  ]

  serve_at-WellFormed :
      (endpoint : Endpoint) (now : ℕ) (t : Readings) (r : Request) (a : App S W A I)
      → WellFormed env a
      → WellFormed env (serve_at env endpoint now t r a).0
  unfolding serve_at handle_devices handle_accessibility_open handle_diagnostics_export
      handle_ios_pairing_challenge
  serve_at-WellFormed Endpoint.status now t r a v = status-WellFormed a now r v
  serve_at-WellFormed Endpoint.devices now t r a v = if-holds Kept (not (is_get r)) v v
  serve_at-WellFormed Endpoint.pairing_start now t r a v = pairing_start-WellFormed a now r v
  serve_at-WellFormed Endpoint.pairing_challenge now t r a v =
      if-holds Kept (not (is_get r)) v
        (elim (Option-cases a.ios_pairing) [ inl q ↦ rw q v | inr (s, q) ↦ rw q v ])
  serve_at-WellFormed Endpoint.resume now t r a v = resume-WellFormed a t r v
  serve_at-WellFormed Endpoint.config now t r a v = config-WellFormed a r v
  serve_at-WellFormed Endpoint.diagnostics_export now t r a v = if-holds Kept (not (is_get r)) v v
  serve_at-WellFormed Endpoint.accessibility_open now t r a v = if-holds Kept (not (is_post r)) v v
  serve_at-WellFormed Endpoint.pair now t r a v = pair-WellFormed a t r v
  serve_at-WellFormed Endpoint.device_actions now t r a v = device_actions-WellFormed a r v

  step-WellFormed : (e : Event) (a : App S W A I) → WellFormed env a → WellFormed env (step env e a)
  unfolding step serve set_asr_status register_ios_audio_conn unregister_ios_audio_conn
      process_encrypted_ios_audio_session
  step-WellFormed (called c) a v = serve_at-WellFormed c.endpoint c.now c.readings c.request a v
  step-WellFormed (connected conn) a v = connections-WellFormed env a _ v
  step-WellFormed (disconnected conn) a v = connections-WellFormed env a _ v
  step-WellFormed (received clock id messages) a v =
      put_machine-WellFormed env id _ _
        (held-WellFormed env a (machine_of (lookup id a.ios_sessions)) _ v)
  step-WellFormed (warmed_up e) a v = around-WellFormed env a _ a.ollama_status a.outside v

  run_from-WellFormed :
      (es : List Event) (a : App S W A I) → WellFormed env a → WellFormed env (run env es a)
  unfolding run
  run_from-WellFormed [] a v = v
  run_from-WellFormed (e ∷ es) a v = run_from-WellFormed es (step env e a) (step-WellFormed e a v)

  new-WellFormed :
      (c : Config) (config_path : Bytes) (now : ℕ) (store : S) (rand : Bytes) (w : W)
      (a : App S W A I)
      → new env c config_path now store rand w ≡ ok a
      → WellFormed env a
  unfolding new fresh_app
  new-WellFormed c config_path now store rand w a e =
      elim (Result-cases (build env c (dir config_path))) [
        | inl (failed, q) ↦ absurd (ground (arith, q, e))
        | inr (parts, q) ↦
            elim (List-cases (validate env.unicode (env.files.stat w) c (dir config_path))) [
              | inr (issue, issues, k) ↦ absurd (ground (arith, q, k, e))
              | inl k ↦
                  let made : fresh_app env c config_path now store rand w parts ≡ a =
                    ground (arith, q, k, e) in
                  subst (WellFormed env) made (record {
                    listed = tt;
                    owned = tt;
                    announced = record { challenged = refl; displayed = refl };
                    configured = record { parts = parts; asked = q; in_use = refl };
                  })
            ]
      ]

  -- Whatever happens to a service that has started: every device is listed under its own id and as
  -- paired, every session is kept under the device it belongs to, the pairing that the window shows
  -- and that phones are told is the one that the manager checks, with the same PIN, and the pipeline
  -- in use is the one that the current configuration asks for.
  pub run-WellFormed :
      (c : Config) (config_path : Bytes) (now : ℕ) (store : S) (rand : Bytes) (w : W)
      (a : App S W A I) (es : List Event)
      → new env c config_path now store rand w ≡ ok a
      → WellFormed env (run env es a)
  run-WellFormed c config_path now store rand w a es e =
      run_from-WellFormed es a (new-WellFormed c config_path now store rand w a e)
