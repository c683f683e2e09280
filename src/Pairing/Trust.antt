-- ===== src/Pairing/Trust.antt =====
-- Which devices are trusted: pairing, resuming and forgetting (internal/pairing/manager.go) over any
-- store that keeps what is saved in it.
use talka.Prelude.{ℕ, ◌≡◌, refl, ◌≢◌, ok, err, arith, if◌then◌else◌, Result-cases, inl, inr}
use talka.Prelude.Bytes.{Bytes, bytes_eq, bytes_eq_iff, bytes_eq_refl}
use talka.Crypto.{Primitives}
use talka.Pairing.{
  Error, Store, StoreLaws, Storable, Config, PairingRequest, ResumeRequest, PairingResult,
  TrustedDevice,
}
use talka.Pairing.World.{World, Readings}
use talka.Pairing.Manager.{complete, resume, forget_device}
use talka.Pairing.Confirmation.{complete-Confirmed, establish-keeps}
use talka.Pairing.Pending.{load_or_create-keeps}

module _ (prim : Primitives) {S : Type 0} (st : Store S) (laws : StoreLaws st) (c : Config) where
  -- A device that has paired, and whose texts are valid UTF-8, is trusted: it is loaded under its id with the identity key that it
  -- confirmed, and every other device is as it was before.
  pub complete_trusts :
      (t : Readings) (r : PairingRequest) (w w' : World S) (result : PairingResult) (id : Bytes)
      → Storable result.device
      → complete prim st c t r w ≡ (w', ok result)
      → (st.load_trusted_device id w'.store ≡ (
          if bytes_eq r.client_device_id id
          then ok result.device
          else st.load_trusted_device id w.store))
        × (result.device.identity_public_key ≡ r.client_identity_public_key)
  complete_trusts t r w w' result id storable e =
      let v = complete-Confirmed prim st c t r w w' result e in
      (
        rw (v.stored, laws.load-save result.device id w.store storable v.saved, v.device_id) refl,
        v.device_key,
      )

  -- A device that is not stored, or whose identity key is another than the stored one, is refused
  -- as unknown, and nothing changes.
  pub resume_refuses :
      (started seen : ℕ) (r : ResumeRequest) (w : World S)
      → ((d : TrustedDevice)
          → st.load_trusted_device r.client_device_id w.store ≡ ok d
          → d.identity_public_key ≢ r.client_identity_public_key)
      → resume prim st c started seen r w ≡ (w, err Error.unknown_device)
  unfolding resume
  resume_refuses started seen r w strange =
      elim (Result-cases (st.load_trusted_device r.client_device_id w.store)) [
        | inl (e, missing) ↦ ground (arith, missing)
        | inr (d, found) ↦ ground (
          arith,
          found,
          strange d found,
          bytes_eq_iff d.identity_public_key r.client_identity_public_key,
        )
      ]

  -- A device that was forgotten cannot resume, whatever it sends, until it pairs again.
  resume-forget_device :
      (started seen : ℕ) (r : ResumeRequest) (w : World S)
      → (forget_device prim st r.client_device_id w).1 ≡ ok tt
      → resume prim st c started seen r (forget_device prim st r.client_device_id w).0
        ≡ ((forget_device prim st r.client_device_id w).0, err Error.unknown_device)
  unfolding forget_device
  resume-forget_device started seen r w done =
      resume_refuses started seen r (forget_device prim st r.client_device_id w).0 λ d found.
        ground (
          arith,
          laws.load-delete r.client_device_id r.client_device_id w.store done,
          bytes_eq_refl r.client_device_id,
          found,
        )

  -- Only a stored device that shows its stored identity key resumes. It stays the device that it
  -- was, but for the time when it was last seen, and a pairing that is pending stays pending.
  pub resume_ok :
      (started seen : ℕ) (r : ResumeRequest) (w w' : World S) (result : PairingResult)
      → resume prim st c started seen r w ≡ (w', ok result)
      → (d : TrustedDevice) × (st.load_trusted_device r.client_device_id w.store ≡ ok d)
        × (d.identity_public_key ≡ r.client_identity_public_key)
        × (result.device ≡ record d { last_seen_at = seen })
        × (w'.pending ≡ w.pending)
  unfolding resume
  resume_ok started seen r w w' result e =
      elim (Result-cases (st.load_trusted_device r.client_device_id w.store)) [
        | inl (failed, missing) ↦ absurd (ground (arith, missing))
        | inr (d, found) ↦ (
          d,
          found,
          ground (arith, found, bytes_eq_iff d.identity_public_key r.client_identity_public_key),
          ground (arith, found),
          grind (arith, found, establish-keeps, load_or_create-keeps),
        )
      ]

  pub resume-client_device_id :
      (started seen : ℕ) (r : ResumeRequest) (w w' : World S) (result : PairingResult)
      → resume prim st c started seen r w ≡ (w', ok result)
      → result.client_device_id ≡ r.client_device_id
  unfolding resume
  resume-client_device_id started seen r w w' result e =
      elim (Result-cases (st.load_trusted_device r.client_device_id w.store)) [
        | inl (failed, missing) ↦ absurd (ground (arith, missing))
        | inr (d, found) ↦ ground (arith, found)
      ]
