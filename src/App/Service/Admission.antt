-- ===== src/App/Service/Admission.antt =====
-- Which phones get a session with the service of internal/app/app.go and ios_session.go.
use talka.Prelude.{
  ℕ, ◌≡◌, refl, ap, ◌∙◌, sym, some, Result, ok, err, arith, inl, inr, Bool-cases, Option-cases,
  Result-cases,
}
use talka.Prelude.Bytes.{Bytes, codes}
use talka.Prelude.Dict.{lookup}
use talka.Pairing.{StoreLaws}
use talka.Pairing.World.{Readings}
use talka.Pairing.Manager.{complete, resume}
use talka.App.Service.{App, Environment, Request, IosAudioSession, IosPairingResponse, is_post}
use talka.App.Service.Handlers.{
  refresh_ollama_status, handle_status, handle_devices, pairing_started, handle_pairing_start,
  handle_device_actions, handle_accessibility_open, handle_diagnostics_export,
}
use talka.App.Service.Settings.{config_saved, update_config, put_config, handle_config}
use talka.App.Service.Phones.{
  PairError, pairing_request, resume_request, answered, handle_ios_pairing_challenge,
  complete_ios_pairing, resume_ios_pairing, handle_ios_pair, handle_ios_resume,
}
use talka.App.Service.Serve.{Endpoint, serve_at}
use talka.App.Service.Answers.{Admitted, completed-Admitted, resumed-Admitted}

module _ {S W E A I : Type 0} (env : Environment S W E A I) where
  answered-keeps :
      (code message : Bytes) (q : App S W A I × Result PairError IosPairingResponse)
      → (answered code message q).0 ≡ q.0
  unfolding answered
  answered-keeps code message (a, ok p) = refl
  answered-keeps code message (a, err e) = refl

  pair-Admitted :
      (t : Readings) (r : Request) (a : App S W A I) (k : Bytes) (s : IosAudioSession)
      → lookup k (handle_ios_pair env t r a).0.ios_sessions ≡ some s
      → Admitted env Endpoint.pair t r a k s
  unfolding handle_ios_pair complete_ios_pairing
  pair-Admitted t r a k s h = elim (Bool-cases (is_post r)) [
    | inr post ↦ inl (ground (arith, post, h))
    | inl post ↦ elim (Option-cases (env.decode_complete r.body)) [
      | inl q ↦ inl (ground (arith, post, q, h))
      | inr (request, q) ↦
          let reply = complete_ios_pairing env t r request a in
          let kept =
            answered-keeps (codes "pairing_failed") (codes "pairing completion failed") reply in
          elim (Result-cases (pairing_request request)) [
            | inl (e, j) ↦ inl (ground (arith, post, q, j, kept, h))
            | inr (p, j) ↦
                completed-Admitted env t r request p a k s
                  (complete env.primitives env.store a.manager_config t p a.manager) q j refl
                  (ground (arith, post, q, j, kept, h))
          ]
    ]
  ]

  resume-Admitted :
      (laws : StoreLaws env.store) (t : Readings) (r : Request) (a : App S W A I) (k : Bytes)
      (s : IosAudioSession)
      → lookup k (handle_ios_resume env t r a).0.ios_sessions ≡ some s
      → Admitted env Endpoint.resume t r a k s
  unfolding handle_ios_resume resume_ios_pairing
  resume-Admitted laws t r a k s h = elim (Bool-cases (is_post r)) [
    | inr post ↦ inl (ground (arith, post, h))
    | inl post ↦ elim (Option-cases (env.decode_resumption r.body)) [
      | inl q ↦ inl (ground (arith, post, q, h))
      | inr (request, q) ↦
          let reply = resume_ios_pairing env t r request a in
          let kept = answered-keeps (codes "resume_failed") (codes "iOS resume failed") reply in
          elim (Result-cases (resume_request request)) [
            | inl (e, j) ↦ inl (ground (arith, post, q, j, kept, h))
            | inr (p, j) ↦
                resumed-Admitted env laws t r request p a k s
                  (resume env.primitives env.store a.manager_config t.started t.seen p a.manager) q
                  j refl (ground (arith, post, q, j, kept, h))
          ]
    ]
  ]

  -- The other endpoints leave the sessions alone.
  config-sessions :
      (r : Request) (a : App S W A I) → (handle_config env r a).0.ios_sessions ≡ a.ios_sessions
  unfolding handle_config put_config config_saved update_config
  config-sessions r a = ground arith

  status-sessions :
      (now : ℕ) (r : Request) (a : App S W A I)
      → (handle_status env now r a).0.ios_sessions ≡ a.ios_sessions
  unfolding handle_status refresh_ollama_status
  status-sessions now r a = ground arith

  start-sessions :
      (now : ℕ) (r : Request) (a : App S W A I)
      → (handle_pairing_start env now r a).0.ios_sessions ≡ a.ios_sessions
  unfolding handle_pairing_start pairing_started
  start-sessions now r a = ground arith

  forget-sessions :
      (r : Request) (a : App S W A I)
      → (handle_device_actions env r a).0.ios_sessions ≡ a.ios_sessions
  unfolding handle_device_actions
  forget-sessions r a = ground arith

  -- With a store that keeps what is saved in it: whatever is asked of the service, a session that a
  -- phone has afterwards is the one that it had before, unless the request was one to pair or to
  -- resume. Then it can be the session of the manager's answer to this request, for the phone that
  -- the request names: to a pairing request the manager has answered after the request presented the
  -- confirmation that the PIN of the pending pairing gives, and to a request to resume, when the
  -- phone is stored with the identity key that the request shows.
  pub serve_at-Admitted :
      (laws : StoreLaws env.store) (endpoint : Endpoint) (now : ℕ) (t : Readings) (r : Request)
      (a : App S W A I) (k : Bytes) (s : IosAudioSession)
      → lookup k (serve_at env endpoint now t r a).0.ios_sessions ≡ some s
      → Admitted env endpoint t r a k s
  unfolding serve_at handle_devices handle_accessibility_open handle_diagnostics_export
      handle_ios_pairing_challenge
  serve_at-Admitted laws Endpoint.status now t r a k s h =
      ap (lookup k) (sym (status-sessions now r a)) ∙ h
  serve_at-Admitted laws Endpoint.devices now t r a k s h = ground (arith, h)
  serve_at-Admitted laws Endpoint.pairing_start now t r a k s h =
      ap (lookup k) (sym (start-sessions now r a)) ∙ h
  serve_at-Admitted laws Endpoint.pairing_challenge now t r a k s h = ground (arith, h)
  serve_at-Admitted laws Endpoint.resume now t r a k s h = resume-Admitted laws t r a k s h
  serve_at-Admitted laws Endpoint.config now t r a k s h =
      ap (lookup k) (sym (config-sessions r a)) ∙ h
  serve_at-Admitted laws Endpoint.diagnostics_export now t r a k s h = ground (arith, h)
  serve_at-Admitted laws Endpoint.accessibility_open now t r a k s h = ground (arith, h)
  serve_at-Admitted laws Endpoint.pair now t r a k s h = pair-Admitted t r a k s h
  serve_at-Admitted laws Endpoint.device_actions now t r a k s h =
      ap (lookup k) (sym (forget-sessions r a)) ∙ h
