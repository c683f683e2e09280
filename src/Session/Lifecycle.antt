-- ===== src/Session/Lifecycle.antt =====
-- The states of a session (internal/session/session.go): active, then expired or forgotten.
use talka.Prelude.{ℕ, ◌≡◌, refl, ◌≢◌, true, List, [], ◌∷◌, err, arith}
use talka.Prelude.Int.{sub_ℕ, ltb_ℤ}
use talka.Prelude.Bytes.{Bytes}
use talka.Protocol.{MessageType}
use talka.Session.{
  Aead, Error, State, StateMachine, EncryptedMessage, expire_if_idle, state_of, invalidate_trust,
  encrypt, decrypt,
}
use talka.Session.Replay.{Call, step, run, accepts, accepted}

-- The error that a session in a state answers with, and whether it is over.
abbrev pub refusal : State → Error
refusal State.active = Error.expired
refusal State.expired = Error.expired
refusal State.forgotten = Error.forgotten

abbrev IsOver : StateMachine → Type 0
IsOver s = s.state ≢ State.active

expire-IsOver : (now : ℕ) (s : StateMachine) → IsOver s → expire_if_idle now s ≡ s
unfolding expire_if_idle
expire-IsOver now s h = ground arith

expire_if_idle-idle :
    (now : ℕ) (s : StateMachine)
    → s.state ≡ State.active
    → ltb_ℤ s.inactivity_timeout (sub_ℕ now s.last_activity) ≡ true
    → expire_if_idle now s ≡ record s { state = State.expired }
unfolding expire_if_idle
expire_if_idle-idle now s a h = ground arith

module _ (aead : Aead) where
  -- A session that is over refuses to encrypt and to decrypt, with the error of its state, and
  -- the refused call changes nothing and draws no randomness.
  pub refuses_when_over :
      (now later : ℕ) (rand : Bytes) (s : StateMachine) (type : MessageType) (plaintext : Bytes)
      (m : EncryptedMessage)
      → s.state ≢ State.active
      → (encrypt aead now later rand s type plaintext ≡ (s, rand, err (refusal s.state)))
        × (decrypt aead now later s m ≡ (s, err (refusal s.state)))
  unfolding encrypt decrypt
  refuses_when_over now later rand s type plaintext m h = ground (arith, expire-IsOver now s h)

  step-IsOver :
      (s : StateMachine) (c : Call) → IsOver s → IsOver (step aead s c) × (accepts aead s c ≡ [])
  unfolding step accepts encrypt decrypt state_of invalidate_trust
  step-IsOver s (Call.encrypts now later rand type p) h = ground (arith, expire-IsOver now s h)
  step-IsOver s (Call.decrypts now later m) h = ground (arith, expire-IsOver now s h)
  step-IsOver s (Call.asks_state now) h = ground (arith, expire-IsOver now s h)
  step-IsOver s Call.invalidates h = (λ e. cc, refl)

  -- An expired or forgotten session never becomes active again and accepts no message, whatever
  -- is called.
  pub over_for_good :
      (s : StateMachine) (cs : List Call)
      → s.state ≢ State.active
      → ((run aead s cs).state ≢ State.active) × (accepted aead s cs ≡ [])
  unfolding run accepted
  over_for_good s [] h = (h, refl)
  over_for_good s (c ∷ cs) h =
      let (h', none) = step-IsOver s c h in
      let (h'', nones) = over_for_good (step aead s c) cs h' in (h'', rw (none, nones) refl)

  step-forgotten :
      (s : StateMachine) (c : Call)
      → s.state ≡ State.forgotten
      → (step aead s c).state ≡ State.forgotten
  unfolding step encrypt decrypt state_of invalidate_trust expire_if_idle
  step-forgotten s (Call.encrypts now later rand type p) h = ground arith
  step-forgotten s (Call.decrypts now later m) h = ground arith
  step-forgotten s (Call.asks_state now) h = ground arith
  step-forgotten s Call.invalidates h = refl

  run-forgotten :
      (s : StateMachine) (cs : List Call)
      → s.state ≡ State.forgotten
      → (run aead s cs).state ≡ State.forgotten
  unfolding run
  run-forgotten s [] h = h
  run-forgotten s (c ∷ cs) h = run-forgotten (step aead s c) cs (step-forgotten s c h)

  -- Once trust is withdrawn the session stays forgotten, in whatever state it was, and accepts
  -- nothing more.
  pub invalidate_trust_final :
      (s : StateMachine) (cs : List Call)
      → ((run aead (invalidate_trust s) cs).state ≡ State.forgotten)
        × (accepted aead (invalidate_trust s) cs ≡ [])
  unfolding invalidate_trust
  invalidate_trust_final s cs =
      let t : StateMachine = invalidate_trust s in
      (run-forgotten t cs refl, (over_for_good t cs (λ e. cc)).1)

  -- An active session that is used after more than its timeout is expired by that call, which
  -- fails and changes nothing else.
  pub expires_when_idle :
      (now later : ℕ) (rand : Bytes) (s : StateMachine) (type : MessageType) (plaintext : Bytes)
      (m : EncryptedMessage)
      → s.state ≡ State.active
      → ltb_ℤ s.inactivity_timeout (sub_ℕ now s.last_activity) ≡ true
      → let t : StateMachine = record s { state = State.expired } in
        (encrypt aead now later rand s type plaintext ≡ (t, rand, err Error.expired))
        × (decrypt aead now later s m ≡ (t, err Error.expired))
        × (state_of now s ≡ (t, State.expired))
  unfolding encrypt decrypt state_of
  expires_when_idle now later rand s type plaintext m a h =
      let e = expire_if_idle-idle now s a h in (ground (arith, e), ground (arith, e), rw e refl)

  -- A message that `Decrypt` refuses leaves the counters, the keys and the time of the last
  -- activity as they were; at most the state turns to expired.
  pub refused_keeps :
      (now later : ℕ) (s : StateMachine) (m : EncryptedMessage) (e : Error)
      → (decrypt aead now later s m).1 ≡ err e
      → (decrypt aead now later s m).0 ≡ expire_if_idle now s
  unfolding decrypt
  refused_keeps now later s m e h = ground arith
