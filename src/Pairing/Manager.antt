-- ===== src/Pairing/Manager.antt =====
-- internal/pairing/manager.go and `loadOrCreateLocalIdentity` of store.go. `Complete` holds the
-- mutex throughout, so a call is one step on the `World`; `Start` assigns `pending` in its last
-- step. The cryptographic primitives and the store are parameters.
use talka.Prelude.{
  ℕ, ◌+◌, Bool, true, false, not, Option, none, some, List, Result, ok, err, if◌then◌else◌, ltb,
}
use talka.Prelude.Int.{pos, pos_part, ltb_ℤ, is_positive}
use talka.Prelude.Bytes.{Bytes, bytes_eq}
use talka.Crypto.{
  KeyPair, Transcript, Primitives, random_session_id, generate_x25519_key_pair, derive_session_keys,
}
use talka.Crypto
use talka.Session.{StateMachine, new_state_machine}
use talka.Pairing.{
  Error, LocalIdentity, TrustedDevice, Store, Config, PendingPairing, StartResponse, PairingRequest,
  ResumeRequest, PairingResult,
}
use talka.Pairing.Pin.{random_hex, random_pin}
use talka.Pairing.World.{Readings, M, ◌>>=◌, ◌>>◌, pure, lift, require, draw, write_store}
use talka.Pairing.Transcripts.{
  crypto, session, pairing_transcript, resume_transcript, validate_public_key,
  expected_confirmation, resume_confirmation,
}

-- Durations are in nanoseconds.
-- `NewManager`: a limit that is not positive gets its default.
unfoldable pub new_manager : Config → Config
new_manager c = record c {
  pairing_ttl = if is_positive c.pairing_ttl then c.pairing_ttl else pos 120_000_000_000;
  inactivity_timeout =
      if is_positive c.inactivity_timeout then c.inactivity_timeout else pos 30_000_000_000;
  max_failures = if is_positive c.max_failures then c.max_failures else pos 3;
}

-- `failures >= MaxFailures`.
abbrev pub at_limit : Config → ℕ → Bool
at_limit c failures = not (ltb_ℤ (pos failures) c.max_failures)

abbrev is_not_found : Error → Bool
is_not_found Error.local_identity_not_found = true
is_not_found _ = false

module _ (prim : Primitives) {S : Type 0} (st : Store S) where
  abbrev generate : M S KeyPair
  generate = draw (generate_x25519_key_pair prim) (Error.crypto_failed Crypto.Error.generate_failed)

  use_or_create : Result Error LocalIdentity → M S KeyPair
  use_or_create (ok identity) = do
    require (prim.is_private_key identity.private_key) Error.invalid_private_key
    pure (record { private = identity.private_key; public = identity.public_key })
  use_or_create (err e) =
      if is_not_found e
      then (do
        generated ← generate
        write_store (
            st.save_local_identity
              (record { private_key = generated.private; public_key = generated.public }))
        pure generated)
      else lift (err e)

  -- `loadOrCreateLocalIdentity`.
  unfoldable pub load_or_create_local_identity : M S KeyPair
  unfolding use_or_create
  load_or_create_local_identity w = use_or_create (st.load_local_identity w.store) w

  -- `Start`; `now` is the reading of the clock.
  unfoldable pub start : Config → ℕ → M S StartResponse
  unfolding load_or_create_local_identity
  start c now = do
    identity ← load_or_create_local_identity
    ephemeral ← generate
    pairing_id ← draw (random_hex 8) Error.rand_failed
    pin ← draw random_pin Error.rand_failed
    λ w. (
      record w {
        pending = some (record {
          pairing_id = pairing_id;
          pin = pin;
          expires_at = now + pos_part c.pairing_ttl;
          failures = 0;
          server_identity = identity;
          server_ephemeral = ephemeral;
        });
      },
      ok (record {
        pairing_id = pairing_id;
        pin = pin;
        expires_at = now + pos_part c.pairing_ttl;
        server_identity_public_key = identity.public;
        server_ephemeral_public_key = ephemeral.public;
      }),
    )

  -- The last steps that `Complete` and `Resume` have in common: a session id, the keys and the
  -- server's session.
  unfoldable pub establish : Config → ℕ → List Bytes → Transcript → M S (Bytes × StateMachine)
  establish c started secrets t = do
    session_id ← draw random_session_id Error.rand_failed
    keys ← lift (crypto (derive_session_keys prim secrets session_id t))
    machine ← lift (
        session (
          new_state_machine
            (record {
              session_id = session_id;
              send_key = keys.server_to_client_key;
              receive_key = keys.client_to_server_key;
              inactivity_timeout = c.inactivity_timeout;
            })
            started))
    pure (session_id, machine)

  -- A wrong confirmation is counted, and is an error either way.
  unfoldable pub confirm : Config → PendingPairing → Bool → M S (Unit {0})
  confirm c p true w = (w, ok tt)
  confirm c p false w = (
    record w { pending = some (record p { failures = p.failures + 1 }) },
    err (if at_limit c (p.failures + 1) then Error.rate_limited else Error.invalid_pin),
  )

  -- `Complete` with a pairing that is pending under the request's id.
  unfoldable pub complete_pending :
      Config → Readings → PendingPairing → PairingRequest → M S PairingResult
  complete_pending c t p r = do
    require (not (at_limit c p.failures)) Error.rate_limited
    require (not (ltb p.expires_at t.checked)) Error.expired_pin
    lift (validate_public_key prim r.client_identity_public_key)
    lift (validate_public_key prim r.client_ephemeral_public_key)
    (secrets, expected) ← lift (expected_confirmation prim c p r)
    confirm c p (bytes_eq r.client_confirmation expected)
    (session_id, machine) ← establish c t.started secrets (pairing_transcript c p r)
    let device : TrustedDevice = record {
      device_id = r.client_device_id;
      device_name = r.client_device_name;
      identity_public_key = r.client_identity_public_key;
      paired_at = t.paired;
      last_seen_at = t.seen;
    }
    write_store (st.save_trusted_device device)
    λ w. (
      record w { pending = none },
      ok (record {
        pairing_id = r.pairing_id;
        session_id = session_id;
        client_device_id = r.client_device_id;
        client_device_name = r.client_device_name;
        server_device_id = c.server_device_id;
        server_device_name = c.server_device_name;
        server_identity_public_key = p.server_identity.public;
        server_ephemeral_public_key = p.server_ephemeral.public;
        confirmation = expected;
        server_session = machine;
        device = device;
      }),
    )

  complete_with : Config → Readings → PairingRequest → Option PendingPairing → M S PairingResult
  complete_with c t r none = lift (err Error.invalid_pin)
  complete_with c t r (some p) =
      if bytes_eq r.pairing_id p.pairing_id
      then complete_pending c t p r
      else lift (err Error.invalid_pin)

  -- `Complete`.
  unfoldable pub complete : Config → Readings → PairingRequest → M S PairingResult
  unfolding complete_with
  complete c t r w = complete_with c t r w.pending w

  -- `Resume`; `started` and `seen` are the readings of the clock. An error of the store on loading
  -- the device is reported as an unknown device.
  resume_with : Config → ℕ → ℕ → ResumeRequest → Result Error TrustedDevice → M S PairingResult
  resume_with c started seen r (err e) = lift (err Error.unknown_device)
  resume_with c started seen r (ok trusted) = do
    require (bytes_eq trusted.identity_public_key r.client_identity_public_key) Error.unknown_device
    identity ← load_or_create_local_identity
    ephemeral ← generate
    (secrets, confirmation) ← lift (resume_confirmation prim c identity ephemeral r)
    (session_id, machine) ← establish c started secrets (resume_transcript c identity ephemeral r)
    let device : TrustedDevice = record trusted { last_seen_at = seen }
    write_store (st.save_trusted_device device)
    pure (record {
      pairing_id = r.pairing_id;
      session_id = session_id;
      client_device_id = r.client_device_id;
      client_device_name = r.client_device_name;
      server_device_id = c.server_device_id;
      server_device_name = c.server_device_name;
      server_identity_public_key = identity.public;
      server_ephemeral_public_key = ephemeral.public;
      confirmation = confirmation;
      server_session = machine;
      device = device;
    })

  unfoldable pub resume : Config → ℕ → ℕ → ResumeRequest → M S PairingResult
  unfolding resume_with
  resume c started seen r w =
      resume_with c started seen r (st.load_trusted_device r.client_device_id w.store) w

  -- `ForgetDevice`.
  unfoldable pub forget_device : Bytes → M S (Unit {0})
  forget_device id = write_store (st.delete_trusted_device id)
