-- ===== src/Pairing/Lockout.antt =====
-- How often a PIN can be guessed: the count of failures in internal/pairing/manager.go.
use talka.Prelude.{
  ◌+◌, ◌≤◌, ◌≡◌, ◌≢◌, true, false, Option, none, some, List, [], ◌∷◌, ok, err, arith, if◌then◌else◌,
  Bool-cases, Option-cases, Result-cases, ◌⊎◌, inl, inr,
}
use talka.Prelude.Int.{pos_part}
use talka.Prelude.Bytes.{Bytes, bytes_eq, bytes_eq_iff}
use talka.Crypto.{Primitives}
use talka.Pairing.{Error, Store, Config, PendingPairing, PairingRequest}
use talka.Pairing.World.{World, Readings}
use talka.Pairing.Transcripts.{expected_confirmation, validate_public_key, pairing_transcript}
use talka.Pairing.Manager.{at_limit, confirm, complete_pending, complete}
use talka.Pairing.Confirmation.{establish-keeps}

-- What a call may do to a pending pairing: nothing, use it up, or count one more failure while it
-- is below the limit.
abbrev pub Moves : Config → PendingPairing → Option PendingPairing → Type 0
Moves c p new =
    (new ≡ some p)
    ⊎ (new ≡ none)
    ⊎ ((at_limit c p.failures ≡ false) × (new ≡ some (record p { failures = p.failures + 1 })))

module _ (prim : Primitives) {S : Type 0} (st : Store S) (c : Config) where
  complete_pending-Moves :
      (t : Readings) (r : PairingRequest) (w : World S) (p : PendingPairing)
      → w.pending ≡ some p
      → Moves c p (complete_pending prim st c t p r w).0.pending
  unfolding complete_pending confirm
  complete_pending-Moves t r w p was = elim (Result-cases (expected_confirmation prim c p r)) [
    | inl (failed, refused) ↦ inl (ground (arith, refused))
    | inr ((secrets, expected), derived) ↦
        let keeps = establish-keeps prim st c t.started secrets (pairing_transcript c p r) w in
        ground (arith, derived, keeps)
  ]

  complete-some :
      (t : Readings) (r : PairingRequest) (w : World S) (p : PendingPairing)
      → w.pending ≡ some p
      → complete prim st c t r w ≡ (
          if bytes_eq r.pairing_id p.pairing_id
          then complete_pending prim st c t p r w
          else (w, err Error.invalid_pin))
  unfolding complete
  complete-some t r w p was = ground (arith, was)

  complete-none :
      (t : Readings) (r : PairingRequest) (w : World S)
      → w.pending ≡ none
      → complete prim st c t r w ≡ (w, err Error.invalid_pin)
  unfolding complete
  complete-none t r w was = ground (arith, was)

  -- A call with a pending pairing leaves it, uses it up, or counts one failure.
  complete-Moves :
      (t : Readings) (r : PairingRequest) (w : World S) (p : PendingPairing)
      → w.pending ≡ some p
      → Moves c p (complete prim st c t r w).0.pending
  complete-Moves t r w p was = elim (Bool-cases (bytes_eq r.pairing_id p.pairing_id)) [
    | inl same ↦ rw (complete-some t r w p was, same) (complete_pending-Moves t r w p was)
    | inr other ↦ inl (rw (complete-some t r w p was, other) was)
  ]

  -- Any number of calls one after another: the world at the end.
  pub attempts : List (Readings × PairingRequest) → World S → World S
  attempts [] w = w
  attempts ((t, r) ∷ calls) w = attempts calls (complete prim st c t r w).0

  -- A pairing that is pending has not failed more often than the limit allows.
  abbrev pub WithinLimit : Option PendingPairing → Type 0
  WithinLimit none = Unit {0}
  WithinLimit (some p) = p.failures ≤ pos_part c.max_failures

  Moves-WithinLimit :
      (p : PendingPairing) (new : Option PendingPairing)
      → p.failures ≤ pos_part c.max_failures
      → Moves c p new
      → WithinLimit new
  Moves-WithinLimit p new h (inl e) = rw e h
  Moves-WithinLimit p new h (inr (inl e)) = rw e tt
  Moves-WithinLimit p new h (inr (inr (below, e))) = rw e (ground arith)

  -- However many requests are sent one after another, a pending pairing that counts no more wrong
  -- confirmations than the limit never comes to count more.
  pub attempts-WithinLimit :
      (calls : List (Readings × PairingRequest)) (w : World S)
      → WithinLimit w.pending
      → WithinLimit (attempts calls w).pending
  unfolding attempts
  attempts-WithinLimit [] w h = h
  attempts-WithinLimit ((t, r) ∷ calls) w h =
      attempts-WithinLimit calls (complete prim st c t r w).0 (elim (Option-cases w.pending) [
        | inl empty ↦ rw (complete-none t r w empty, empty) tt
        | inr (p, was) ↦
            Moves-WithinLimit p (complete prim st c t r w).0.pending (rw was at h)
              (complete-Moves t r w p was)
      ])

  -- Once the limit is reached every request for the pairing is refused as rate limited and any
  -- other as an invalid PIN, the right confirmation included, and nothing changes.
  pub locked_out :
      (t : Readings) (r : PairingRequest) (w : World S) (p : PendingPairing)
      → w.pending ≡ some p
      → at_limit c p.failures ≡ true
      → complete prim st c t r w ≡ (
        w,
        err (if bytes_eq r.pairing_id p.pairing_id then Error.rate_limited else Error.invalid_pin),
      )
  unfolding complete_pending
  locked_out t r w p was limit = rw (complete-some t r w p was) (ground (arith, limit))

  -- A wrong confirmation for a pairing in time and below the limit, with sound keys, is counted,
  -- and reported as rate limited exactly if it was the last one allowed.
  pub wrong_confirmation_counts :
      (t : Readings) (r : PairingRequest) (w : World S) (p : PendingPairing) (secrets : List Bytes)
      (expected : Bytes)
      → w.pending ≡ some p
      → r.pairing_id ≡ p.pairing_id
      → at_limit c p.failures ≡ false
      → t.checked ≤ p.expires_at
      → validate_public_key prim r.client_identity_public_key ≡ ok tt
      → validate_public_key prim r.client_ephemeral_public_key ≡ ok tt
      → expected_confirmation prim c p r ≡ ok (secrets, expected)
      → r.client_confirmation ≢ expected
      → complete prim st c t r w ≡ (
        record w { pending = some (record p { failures = p.failures + 1 }) },
        err (if at_limit c (p.failures + 1) then Error.rate_limited else Error.invalid_pin),
      )
  unfolding complete_pending confirm
  wrong_confirmation_counts t r w p secrets expected was same below time v v' derived wrong =
      rw (complete-some t r w p was) (
        ground (
          arith,
          bytes_eq_iff r.pairing_id p.pairing_id,
          bytes_eq_iff r.client_confirmation expected,
          derived,
          v,
          v',
        ))
