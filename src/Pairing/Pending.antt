-- ===== src/Pairing/Pending.antt =====
-- What the pairing that is pending looks like from outside, and which calls of
-- internal/pairing/manager.go change it.
use talka.Prelude.{
  ℕ, ◌≡◌, Option, none, some, Result, ok, err, arith, inl, inr, Bool-cases, Option-cases,
  Result-cases,
}
use talka.Prelude.Bytes.{bytes_eq}
use talka.Crypto.{Primitives}
use talka.Pairing.{
  Error, Store, Config, PendingPairing, StartResponse, PairingRequest, ResumeRequest, PairingResult,
}
use talka.Pairing.World.{World, Readings}
use talka.Pairing.Transcripts.{expected_confirmation, pairing_transcript}
use talka.Pairing.Manager.{
  load_or_create_local_identity, start, confirm, complete_pending, complete, resume,
}
use talka.Pairing.Confirmation.{establish-keeps}

-- The answer to `Start` that tells of a pending pairing.
abbrev pub shown : Option PendingPairing → Option StartResponse
shown none = none
shown (some p) = some (record {
  pairing_id = p.pairing_id;
  pin = p.pin;
  expires_at = p.expires_at;
  server_identity_public_key = p.server_identity.public;
  server_ephemeral_public_key = p.server_ephemeral.public;
})

abbrev pub Started : {S : Type 0} → World S → World S × Result Error StartResponse → Type 0
Started w (w', ok s) = shown w'.pending ≡ some s
Started w (w', err e) = w'.pending ≡ w.pending

abbrev pub Completed : {S : Type 0} → World S → World S × Result Error PairingResult → Type 0
Completed w (w', ok r) = w'.pending ≡ none
Completed w (w', err e) = shown w'.pending ≡ shown w.pending

module _ (prim : Primitives) {S : Type 0} (st : Store S) where
  pub load_or_create-keeps :
      (w : World S) → (load_or_create_local_identity prim st w).0.pending ≡ w.pending
  unfolding load_or_create_local_identity
  load_or_create-keeps w = ground arith

  pub start-Started : (c : Config) (now : ℕ) (w : World S) → Started w (start prim st c now w)
  unfolding start
  start-Started c now w = ground (arith, load_or_create-keeps w)

  complete_pending-Completed :
      (c : Config) (t : Readings) (p : PendingPairing) (r : PairingRequest) (w : World S)
      → w.pending ≡ some p
      → Completed w (complete_pending prim st c t p r w)
  unfolding complete_pending confirm
  complete_pending-Completed c t p r w was =
      elim (Result-cases (expected_confirmation prim c p r)) [
        | inl (failed, refused) ↦ ground (arith, refused)
        | inr ((secrets, expected), derived) ↦ ground (
          arith,
          derived,
          was,
          establish-keeps prim st c t.started secrets (pairing_transcript c p r) w,
        )
      ]

  -- A call of `Complete` that fails leaves the pairing as it is shown, with the same PIN; one that
  -- succeeds uses it up.
  pub complete-Completed :
      (c : Config) (t : Readings) (r : PairingRequest) (w : World S)
      → Completed w (complete prim st c t r w)
  unfolding complete
  complete-Completed c t r w = elim (Option-cases w.pending) [
    | inl none' ↦ ground (arith, none')
    | inr (p, was) ↦ elim (Bool-cases (bytes_eq r.pairing_id p.pairing_id)) [
      | inl same ↦ ground (arith, was, same, complete_pending-Completed c t p r w was)
      | inr other ↦ ground (arith, was, other)
    ]
  ]

  pub resume-keeps :
      (c : Config) (started seen : ℕ) (r : ResumeRequest) (w : World S)
      → (resume prim st c started seen r w).0.pending ≡ w.pending
  unfolding resume
  resume-keeps c started seen r w =
      elim (Result-cases (st.load_trusted_device r.client_device_id w.store)) [
        | inl (failed, missing) ↦ ground (arith, missing)
        | inr (d, found) ↦ grind (arith, found, establish-keeps, load_or_create-keeps)
      ]
