-- ===== src/Session/Replay.antt =====
-- No message is accepted twice: what `Decrypt` of internal/session/session.go lets through, over
-- any sequence of calls of a session's methods.
use talka.Prelude.{
  ℕ, ◌+◌, ◌^◌, ◌≤◌, ◌<◌, true, false, ◌≡◌, refl, ◌↔◌, List, [], ◌∷◌, ◌++◌, Result, ok, err, arith,
  length, inl, inr, Result-cases,
}
use talka.Prelude.Bytes.{Bytes}
use talka.Protocol.{MessageType}
use talka.Session.{
  Aead, Error, StateMachine, EncryptedMessage, next_u64, seen, expire_if_idle, state_of,
  invalidate_trust, open_message, encrypt, decrypt,
}

-- A call of a method, with what it reads of the clock and of the random source.
pub data Call : Type 0 where
  encrypts : (now later : ℕ) → Bytes → MessageType → Bytes → Call
  decrypts : (now later : ℕ) → EncryptedMessage → Call
  asks_state : (now : ℕ) → Call
  invalidates : Call

if_ok : Result Error Bytes → ℕ → List ℕ
if_ok (ok plaintext) n = n ∷ []
if_ok (err e) n = []

module _ (aead : Aead) where
  unfoldable pub step : StateMachine → Call → StateMachine
  step s (encrypts now later rand type plaintext) = (encrypt aead now later rand s type plaintext).0
  step s (decrypts now later m) = (decrypt aead now later s m).0
  step s (asks_state now) = (state_of now s).0
  step s invalidates = invalidate_trust s

  unfoldable pub run : StateMachine → List Call → StateMachine
  run s [] = s
  run s (c ∷ cs) = run (step s c) cs

  -- The sequence number of the message that a call accepts.
  unfoldable pub accepts : StateMachine → Call → List ℕ
  unfolding if_ok
  accepts s (decrypts now later m) = if_ok (decrypt aead now later s m).1 m.seq
  accepts s (encrypts now later rand type plaintext) = []
  accepts s (asks_state now) = []
  accepts s invalidates = []

  -- The sequence numbers that a history accepts, oldest first.
  unfoldable pub accepted : StateMachine → List Call → List ℕ
  accepted s [] = []
  accepted s (c ∷ cs) = accepts s c ++ accepted (step s c) cs

-- Each number is the successor of the one before, and none of those seen up to then.
abbrev pub InOrder : ℕ → List ℕ → List ℕ → Type 0
InOrder last before [] = Unit {0}
InOrder last before (n ∷ ns) =
    (n ≡ next_u64 last) × (seen n before ≡ false) × InOrder n (n ∷ before) ns

-- What one call does to the record of accepted numbers.
abbrev Records : StateMachine → StateMachine → List ℕ → Type 0
Records s t [] = (t.last_remote_seq ≡ s.last_remote_seq) × (t.seen_remote_seq ≡ s.seen_remote_seq)
Records s t (n ∷ ns) =
    (ns ≡ [])
    × (n ≡ next_u64 s.last_remote_seq)
    × (seen n s.seen_remote_seq ≡ false)
    × (t.last_remote_seq ≡ n)
    × (t.seen_remote_seq ≡ n ∷ s.seen_remote_seq)

module _ (aead : Aead) where
  open_message-ok :
      (s : StateMachine) (m : EncryptedMessage) (p : Bytes)
      → open_message aead s m ≡ ok p
      → (m.seq ≡ next_u64 s.last_remote_seq) × (seen m.seq s.seen_remote_seq ≡ false)
  unfolding open_message
  open_message-ok s m p e = ground arith

  expire-keeps : (now : ℕ) (s : StateMachine) → Records s (expire_if_idle now s) []
  unfolding expire_if_idle
  expire-keeps now s = ground arith

  -- `Decrypt` either leaves the record alone, or accepts the next number.
  decrypt-Records :
      (now later : ℕ) (s : StateMachine) (m : EncryptedMessage)
      → Records s (decrypt aead now later s m).0 (if_ok (decrypt aead now later s m).1 m.seq)
  unfolding decrypt if_ok
  decrypt-Records now later s m =
      let s' : StateMachine = expire_if_idle now s in
      elim (Result-cases (open_message aead s' m)) [
        | inl (e, refused) ↦ ground (arith, expire-keeps now s, refused)
        | inr (p, opened) ↦
            ground (arith, expire-keeps now s, opened, open_message-ok s' m p opened)
      ]

  pub step-Records : (s : StateMachine) (c : Call) → Records s (step aead s c) (accepts aead s c)
  unfolding step accepts encrypt state_of invalidate_trust
  step-Records s (encrypts now later rand type plaintext) = ground (arith, expire-keeps now s)
  step-Records s (decrypts now later m) = decrypt-Records now later s m
  step-Records s (asks_state now) = expire-keeps now s
  step-Records s invalidates = (refl, refl)

  InOrder-append :
      (s t : StateMachine) (ns ms : List ℕ)
      → Records s t ns
      → InOrder t.last_remote_seq t.seen_remote_seq ms
      → InOrder s.last_remote_seq s.seen_remote_seq (ns ++ ms)
  InOrder-append s t [] ms r h = rw (← r.0, ← r.1) h
  InOrder-append s t (n ∷ ns) ms (none, next, new, last, all) h =
      rw none (next, new, rw (last, all) at h)

  -- In any history of a session, whatever the messages, the clock and the counters' wrap, each
  -- accepted sequence number is the successor (as a uint64) of the one accepted before it, and
  -- none of those accepted earlier: no message is accepted twice.
  pub accepted-InOrder :
      (s : StateMachine) (cs : List Call)
      → InOrder s.last_remote_seq s.seen_remote_seq (accepted aead s cs)
  unfolding accepted
  accepted-InOrder s [] = tt
  accepted-InOrder s (c ∷ cs) =
      InOrder-append s (step aead s c) (accepts aead s c) (accepted aead (step aead s c) cs)
        (step-Records s c) (accepted-InOrder (step aead s c) cs)

-- The seen numbers are 1 up to the last one.
pub record SeenUpTo (s : StateMachine) : Type 0 where
  pub covers : (n : ℕ) → (seen n s.seen_remote_seq ≡ true) ↔ ((1 ≤ n) × (n ≤ s.last_remote_seq))

module _ (aead : Aead) where
  Records-SeenUpTo :
      (s t : StateMachine) (ns : List ℕ)
      → Records s t ns
      → s.last_remote_seq + 1 < 2 ^ 64
      → SeenUpTo s
      → SeenUpTo t × (t.last_remote_seq ≤ s.last_remote_seq + 1)
  Records-SeenUpTo s t [] (last, all) h v =
      (record { covers = λ n. rw (last, all) (v.covers n) }, omega arith)
  Records-SeenUpTo s t (m ∷ ms) (none, next, new, last, all) h v =
      (record { covers = λ n. rw (last, all) (ground (arith, v.covers n)) }, ground arith)

  -- As long as fewer than 2^64 calls are made, a session has seen exactly the numbers from 1 to
  -- the last one that it accepted.
  pub run-SeenUpTo :
      (s : StateMachine) (cs : List Call)
      → s.last_remote_seq + length cs < 2 ^ 64
      → SeenUpTo s
      → SeenUpTo (run aead s cs)
  unfolding run
  run-SeenUpTo s [] h v = v
  run-SeenUpTo s (c ∷ cs) h v =
      let (v', grows) =
        Records-SeenUpTo s (step aead s c) (accepts aead s c) (step-Records aead s c) (omega arith)
          v in
      run-SeenUpTo (step aead s c) cs (omega arith) v'
