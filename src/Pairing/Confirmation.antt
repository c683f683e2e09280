-- ===== src/Pairing/Confirmation.antt =====
-- Who can pair: what `Complete` of internal/pairing/manager.go has checked when it succeeds.
use talka.Prelude.{
  ℕ, ◌≤◌, ◌≡◌, false, none, some, List, ok, arith, Bool-cases, Option-cases, Result-cases, inl, inr,
}
use talka.Prelude.Bytes.{Bytes, bytes_eq, bytes_eq_iff}
use talka.Crypto.{Primitives, Transcript}
use talka.Pairing.{Store, Config, PendingPairing, PairingRequest, PairingResult}
use talka.Pairing.World.{World, Readings}
use talka.Pairing.Transcripts.{expected_confirmation, pairing_transcript}
use talka.Pairing.Manager.{at_limit, confirm, establish, complete_pending, complete}

module _ (prim : Primitives) {S : Type 0} (st : Store S) where
  -- What holds of a call of `Complete` that succeeds with `result` and leaves `w'`.
  pub record Confirmed (c : Config) (t : Readings) (r : PairingRequest) (w w' : World S)
      (result : PairingResult) : Type 0 where
    pub pending : PendingPairing
    pub secrets : List Bytes
    pub expected : Bytes
    pub was_pending : w.pending ≡ some pending
    pub same_id : r.pairing_id ≡ pending.pairing_id
    pub below_limit : at_limit c pending.failures ≡ false
    pub in_time : t.checked ≤ pending.expires_at
    pub derived : expected_confirmation prim c pending r ≡ ok (secrets, expected)
    pub confirmed : r.client_confirmation ≡ expected
    pub answered : result.confirmation ≡ expected
    pub client_id : result.client_device_id ≡ r.client_device_id
    pub device_id : result.device.device_id ≡ r.client_device_id
    pub device_key : result.device.identity_public_key ≡ r.client_identity_public_key
    pub saved : (st.save_trusted_device result.device w.store).1 ≡ ok tt
    pub stored : w'.store ≡ (st.save_trusted_device result.device w.store).0
    pub used_up : w'.pending ≡ none

  pub establish-keeps :
      (c : Config) (started : ℕ) (secrets : List Bytes) (tr : Transcript) (w : World S)
      → ((establish prim st c started secrets tr w).0.store ≡ w.store)
        × ((establish prim st c started secrets tr w).0.pending ≡ w.pending)
  unfolding establish
  establish-keeps c started secrets tr w = ground arith

  module _ (c : Config) (t : Readings) (r : PairingRequest) (w w' : World S)
      (result : PairingResult) where
    complete_pending-Confirmed :
        (p : PendingPairing)
        → w.pending ≡ some p
        → r.pairing_id ≡ p.pairing_id
        → complete_pending prim st c t p r w ≡ (w', ok result)
        → Confirmed c t r w w' result
    unfolding complete_pending confirm
    complete_pending-Confirmed p was same e =
        elim (Result-cases (expected_confirmation prim c p r)) [
          | inl (failed, refused) ↦ absurd (ground (arith, refused))
          | inr ((secrets, expected), derived) ↦
              let keeps = establish-keeps c t.started secrets (pairing_transcript c p r) w in
              record {
                pending = p;
                secrets = secrets;
                expected = expected;
                was_pending = was;
                same_id = same;
                below_limit = ground (arith, derived);
                in_time = ground (arith, derived);
                derived = derived;
                confirmed = ground (arith, derived, bytes_eq_iff r.client_confirmation expected);
                answered = ground (arith, derived);
                client_id = ground (arith, derived);
                device_id = ground (arith, derived);
                device_key = ground (arith, derived);
                saved = ground (arith, derived, keeps);
                stored = ground (arith, derived, keeps);
                used_up = ground (arith, derived);
              }
        ]

    -- Whoever completes a pairing has presented, in time and before the limit of failures, the id
    -- of the pending pairing and exactly the confirmation that the PIN and both key exchanges
    -- give; the device is saved under the id and the identity key that were confirmed, and no
    -- pairing is pending afterwards.
    pub complete-Confirmed :
        complete prim st c t r w ≡ (w', ok result) → Confirmed c t r w w' result
    unfolding complete
    complete-Confirmed e = elim (Option-cases w.pending) [
      | inl none' ↦ absurd (ground (arith, none'))
      | inr (p, was) ↦ elim (Bool-cases (bytes_eq r.pairing_id p.pairing_id)) [
        | inl same ↦
            complete_pending-Confirmed p was ((bytes_eq_iff r.pairing_id p.pairing_id).0 same)
              (ground (arith, was, same))
        | inr other ↦ absurd (ground (arith, was, other))
      ]
    ]
