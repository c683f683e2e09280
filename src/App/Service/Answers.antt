-- ===== src/App/Service/Answers.antt =====
-- What an answer of the pairing manager, to a phone that pairs or that resumes, does to the sessions
-- of the service (internal/app/ios_session.go).
use talka.Prelude.{◌≡◌, ◌∙◌, sym, ◌⊎◌, some, Result, ok, err, arith, inl, inr, Bool-cases}
use talka.Prelude.Bytes.{Bytes, bytes_eq, bytes_eq_iff}
use talka.Prelude.Dict.{lookup, lookup-insert}
use talka.Pairing
use talka.Pairing.{StoreLaws, TrustedDevice, PairingRequest, ResumeRequest, PairingResult}
use talka.Pairing.World.{World, Readings}
use talka.Pairing.Manager.{complete, resume}
use talka.Pairing.Confirmation.{Confirmed, complete-Confirmed}
use talka.Pairing.Trust.{resume_ok, resume-client_device_id}
use talka.App.Service.{
  App, Environment, Request, CompleteRequest, ResumptionRequest, IosAudioSession,
}
use talka.App.Service.Phones.{pairing_request, resume_request, connect, completed, resumed}
use talka.App.Service.Serve.{Endpoint}

module _ {S W E A I : Type 0} (env : Environment S W E A I) where
  -- The request has just paired the phone `k`: what it decodes to was accepted by the manager, which
  -- has checked its confirmation, and the session is the one of the manager's answer.
  pub record JustPaired (t : Readings) (r : Request) (a : App S W A I) (k : Bytes)
      (s : IosAudioSession) : Type 0 where
    pub payload : CompleteRequest
    pub request : PairingRequest
    pub after : World S
    pub result : PairingResult
    pub decoded : env.decode_complete r.body ≡ some payload
    pub read : pairing_request payload ≡ ok request
    pub completes :
        complete env.primitives env.store a.manager_config t request a.manager ≡ (after, ok result)
    pub confirmed :
        Confirmed env.primitives env.store a.manager_config t request a.manager after result
    pub id : k ≡ request.client_device_id
    pub session : s ≡ record { device_id = k; machine = result.server_session }

  -- The request has just resumed the phone `k`: what it decodes to was accepted by the manager, the
  -- phone is stored with the identity key that the request shows, and the session is the one of the
  -- manager's answer.
  pub record JustResumed (t : Readings) (r : Request) (a : App S W A I) (k : Bytes)
      (s : IosAudioSession) : Type 0 where
    pub payload : ResumptionRequest
    pub request : ResumeRequest
    pub stored : TrustedDevice
    pub after : World S
    pub result : PairingResult
    pub decoded : env.decode_resumption r.body ≡ some payload
    pub read : resume_request payload ≡ ok request
    pub resumes :
        resume env.primitives env.store a.manager_config t.started t.seen request a.manager
        ≡ (after, ok result)
    pub id : k ≡ request.client_device_id
    pub found : env.store.load_trusted_device k a.manager.store ≡ ok stored
    pub same_key : stored.identity_public_key ≡ request.client_identity_public_key
    pub session : s ≡ record { device_id = k; machine = result.server_session }

  -- How the phone `k` has the session `s` after a request to an endpoint.
  abbrev pub Admitted :
      Endpoint → Readings → Request → App S W A I → Bytes → IosAudioSession → Type 0
  Admitted Endpoint.pair t r a k s = (lookup k a.ios_sessions ≡ some s) ⊎ JustPaired t r a k s
  Admitted Endpoint.resume t r a k s = (lookup k a.ios_sessions ≡ some s) ⊎ JustResumed t r a k s
  Admitted endpoint t r a k s = lookup k a.ios_sessions ≡ some s

  sessions-connect :
      (p : PairingResult) (a : App S W A I) (k : Bytes) (s : IosAudioSession)
      → lookup k (connect p a).ios_sessions ≡ some s
      → (lookup k a.ios_sessions ≡ some s)
        ⊎ ((k ≡ p.client_device_id) × (s ≡ record { device_id = k; machine = p.server_session }))
  unfolding connect
  sessions-connect p a k s h =
      let entry : IosAudioSession = record {
        device_id = p.client_device_id;
        machine = p.server_session;
      } in
      let moved = lookup-insert p.client_device_id k entry a.ios_sessions in
      elim (Bool-cases (bytes_eq p.client_device_id k)) [
        | inl same ↦
            let id = (bytes_eq_iff p.client_device_id k).0 same in
            inr (sym id, ground (arith, moved, same, id, h))
        | inr other ↦ inl (ground (arith, moved, other, h))
      ]

  pub completed-Admitted :
      (t : Readings) (r : Request) (payload : CompleteRequest) (p : PairingRequest)
      (a : App S W A I) (k : Bytes) (s : IosAudioSession)
      (q : World S × Result Pairing.Error PairingResult)
      → env.decode_complete r.body ≡ some payload
      → pairing_request payload ≡ ok p
      → complete env.primitives env.store a.manager_config t p a.manager ≡ q
      → lookup k (completed r q a).0.ios_sessions ≡ some s
      → Admitted Endpoint.pair t r a k s
  unfolding completed
  completed-Admitted t r payload p a k s (w, err e) decoded read done h = inl h
  completed-Admitted t r payload p a k s (w, ok result) decoded read done h =
      elim (sessions-connect result (record a { manager = w }) k s h) [
        | inl before ↦ inl before
        | inr (same, session) ↦
            let v =
              complete-Confirmed env.primitives env.store a.manager_config t p a.manager w result
                done in
            inr (record {
              payload = payload;
              request = p;
              after = w;
              result = result;
              decoded = decoded;
              read = read;
              completes = done;
              confirmed = v;
              id = same ∙ v.client_id;
              session = session;
            })
      ]

  pub resumed-Admitted :
      (laws : StoreLaws env.store) (t : Readings) (r : Request) (payload : ResumptionRequest)
      (p : ResumeRequest) (a : App S W A I) (k : Bytes) (s : IosAudioSession)
      (q : World S × Result Pairing.Error PairingResult)
      → env.decode_resumption r.body ≡ some payload
      → resume_request payload ≡ ok p
      → resume env.primitives env.store a.manager_config t.started t.seen p a.manager ≡ q
      → lookup k (resumed r q a).0.ios_sessions ≡ some s
      → Admitted Endpoint.resume t r a k s
  unfolding resumed
  resumed-Admitted laws t r payload p a k s (w, err e) decoded read done h = inl h
  resumed-Admitted laws t r payload p a k s (w, ok result) decoded read done h =
      elim (sessions-connect result (record a { manager = w }) k s h) [
        | inl before ↦ inl before
        | inr (same, session) ↦
            let (d, found, key, seen, pending) =
              resume_ok env.primitives env.store laws a.manager_config t.started t.seen p a.manager
                w result done in
            let id =
              same
              ∙ resume-client_device_id env.primitives env.store laws a.manager_config t.started
                  t.seen p a.manager w result done in
            inr (record {
              payload = payload;
              request = p;
              stored = d;
              after = w;
              result = result;
              decoded = decoded;
              read = read;
              resumes = done;
              id = id;
              found = rw id found;
              same_key = key;
              session = session;
            })
      ]
