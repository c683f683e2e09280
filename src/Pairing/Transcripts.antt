-- ===== src/Pairing/Transcripts.antt =====
-- What a client has to confirm: the transcripts and the checks of internal/pairing/manager.go, and
-- `validatePublicKey` of store.go.
use talka.Prelude.{some, List, [], ◌∷◌, Result, ok, err, ◌>>=◌, guard, if◌then◌else◌}
use talka.Prelude.Bytes.{Bytes, codes, is_empty}
use talka.Crypto.{
  KeyPair, Transcript, Primitives, flow_pairing, flow_resume, compute_shared_secret,
  compute_pairing_confirmation, compute_resume_confirmation,
}
use talka.Crypto
use talka.Session
use talka.Pairing.{Error, Config, PendingPairing, PairingRequest, ResumeRequest}

abbrev pub crypto : {A : Type 0} → Result Crypto.Error A → Result Error A
crypto (ok a) = ok a
crypto (err e) = err (Error.crypto_failed e)

abbrev pub session : {A : Type 0} → Result Session.Error A → Result Error A
session (ok a) = ok a
session (err e) = err (Error.session_failed e)

transcript_of : Bytes → Config → Bytes → Bytes → Bytes → Bytes → Bytes → Bytes → Bytes → Transcript
transcript_of flow c pairing_id device_id device_name client_identity client_ephemeral
      server_identity server_ephemeral =
    record {
      version = codes "v1alpha1";
      flow = flow;
      pairing_id = pairing_id;
      client_device_id = device_id;
      client_device_name = device_name;
      server_device_id = c.server_device_id;
      server_device_name = c.server_device_name;
      client_ephemeral_public_key = client_ephemeral;
      server_ephemeral_public_key = server_ephemeral;
      client_identity_public_key = client_identity;
      server_identity_public_key = server_identity;
    }

unfoldable pub pairing_transcript : Config → PendingPairing → PairingRequest → Transcript
unfolding transcript_of
pairing_transcript c p r =
    transcript_of flow_pairing c r.pairing_id r.client_device_id r.client_device_name
      r.client_identity_public_key r.client_ephemeral_public_key p.server_identity.public
      p.server_ephemeral.public

unfoldable pub resume_transcript : Config → KeyPair → KeyPair → ResumeRequest → Transcript
unfolding transcript_of
resume_transcript c identity ephemeral r =
    transcript_of flow_resume c r.pairing_id r.client_device_id r.client_device_name
      r.client_identity_public_key r.client_ephemeral_public_key identity.public ephemeral.public

module _ (prim : Primitives) where
  -- `validatePublicKey`.
  unfoldable pub validate_public_key : Bytes → Result Error (Unit {0})
  validate_public_key key =
      if is_empty key
      then err Error.public_key_required
      else guard (prim.is_public_key key) Error.invalid_public_key

  -- What the client's confirmation is compared with, behind the two shared secrets.
  unfoldable pub expected_confirmation :
      Config → PendingPairing → PairingRequest → Result Error (List Bytes × Bytes)
  expected_confirmation c p r = do
    ee ←
        crypto (
          compute_shared_secret prim (some p.server_ephemeral.private)
            r.client_ephemeral_public_key)
    ss ←
        crypto
          (compute_shared_secret prim (some p.server_identity.private) r.client_identity_public_key)
    expected ←
        crypto (compute_pairing_confirmation prim (ee ∷ ss ∷ []) p.pin (pairing_transcript c p r))
    ok (ee ∷ ss ∷ [], expected)

  -- What the server confirms to a client that resumes, behind the two shared secrets.
  unfoldable pub resume_confirmation :
      Config → KeyPair → KeyPair → ResumeRequest → Result Error (List Bytes × Bytes)
  resume_confirmation c identity ephemeral r = do
    ee ← crypto (compute_shared_secret prim (some ephemeral.private) r.client_ephemeral_public_key)
    ss ← crypto (compute_shared_secret prim (some identity.private) r.client_identity_public_key)
    confirmation ←
        crypto (
          compute_resume_confirmation prim (ee ∷ ss ∷ [])
            (resume_transcript c identity ephemeral r))
    ok (ee ∷ ss ∷ [], confirmation)
