-- ===== src/App/Audio/Sound.antt =====
-- What `decryptIOSAudioMessages` (internal/app/ios_session.go) returns, whatever it is given.
use talka.Prelude.{
  ℕ, ◌+◌, ◌≡◌, refl, true, false, List, [], ◌∷◌, ok, arith, map, subst, inl, inr, ◌⊎◌, Result-cases,
}
use talka.Prelude.Bytes.{Bytes}
use talka.Protocol.{AudioMetadata, Message}
use talka.Protocol.Codec.{Json, validate_audio_metadata}
use talka.Session.{Aead, StateMachine, decrypt}
use talka.Session.Replay.{Call, step, accepts, accepted, InOrder, accepted-InOrder}
use talka.App.Audio.{
  Audio, no_audio, audio_message, Received, decrypt_ios_audio_message, decrypt_from,
  decrypt_ios_audio_messages,
}

-- Once started, the metadata is valid; before, there are no frames, and it has not stopped.
abbrev pub WellFormed : Audio → Type 0
WellFormed a =
    ((a.started ≡ true) × (validate_audio_metadata a.metadata ≡ ok tt))
    ⊎ ((a.started ≡ false) × (a.stopped ≡ false))

audio_message-WellFormed :
    (a a' : Audio) (m : Message) → WellFormed a → audio_message a m ≡ ok a' → WellFormed a'
unfolding audio_message
audio_message-WellFormed a a' (Message.audio_start m) w e = ground arith
audio_message-WellFormed a a' (Message.audio_frame m) w e = ground arith
audio_message-WellFormed a a' (Message.audio_stop m) w e = ground arith
audio_message-WellFormed a a' m w e = ground arith

-- What `Decrypt` was called with.
abbrev pub decrypting : Received → Call
decrypting r = Call.decrypts r.now r.later r.message

abbrev pub seq_of : Received → ℕ
seq_of r = r.message.seq

module _ (aead : Aead) (json : Json) where
  decrypt_from-WellFormed :
      (index : ℕ) (machine : StateMachine) (a a' : Audio) (rs : List Received)
      → WellFormed a
      → (decrypt_from aead json index machine a rs).1 ≡ ok a'
      → WellFormed a'
  unfolding decrypt_from
  decrypt_from-WellFormed index machine a a' [] w e = ground (arith, e)
  decrypt_from-WellFormed index machine a a' (r ∷ rs) w e =
      elim (Result-cases (decrypt_ios_audio_message aead json machine r).1) [
        | inl (x, q) ↦ ground arith
        | inr (m, q) ↦ elim (Result-cases (audio_message a m)) [
          | inl (x, q') ↦ ground arith
          | inr (next, q') ↦
              decrypt_from-WellFormed (index + 1) (decrypt_ios_audio_message aead json machine r).0
                next a' rs (audio_message-WellFormed a next m w q') (ground arith)
        ]
      ]

  decrypted_is_accepted :
      (machine : StateMachine) (r : Received) (m : Message)
      → (decrypt_ios_audio_message aead json machine r).1 ≡ ok m
      → (accepts aead machine (decrypting r) ≡ seq_of r ∷ [])
        × ((decrypt_ios_audio_message aead json machine r).0 ≡ step aead machine (decrypting r))
  unfolding decrypt_ios_audio_message accepts step
  decrypted_is_accepted machine r m e =
      elim (Result-cases (decrypt aead r.now r.later machine r.message).1) [
        | inl (x, q) ↦ ground arith
        | inr (p, q) ↦ ground arith
      ]

  decrypt_from-accepted :
      (index : ℕ) (machine : StateMachine) (a a' : Audio) (rs : List Received)
      → (decrypt_from aead json index machine a rs).1 ≡ ok a'
      → accepted aead machine (map decrypting rs) ≡ map seq_of rs
  unfolding decrypt_from accepted
  decrypt_from-accepted index machine a a' [] e = refl
  decrypt_from-accepted index machine a a' (r ∷ rs) e =
      elim (Result-cases (decrypt_ios_audio_message aead json machine r).1) [
        | inl (x, q) ↦ ground arith
        | inr (m, q) ↦ elim (Result-cases (audio_message a m)) [
          | inl (x, q') ↦ ground arith
          | inr (next, q') ↦
              let (one, after) = decrypted_is_accepted machine r m q in
              let rest =
                decrypt_from-accepted (index + 1) (decrypt_ios_audio_message aead json machine r).0
                  next a' rs (ground arith) in
              ground (arith, one, after, rest)
        ]
      ]

  -- If a recording is returned, its metadata was found valid, and the session accepted every one of
  -- its messages, each with the sequence number after the one before it.
  pub decrypt_ios_audio_messages_sound :
      (machine : StateMachine) (rs : List Received) (metadata : AudioMetadata) (frames : List Bytes)
      → (decrypt_ios_audio_messages aead json machine rs).1 ≡ ok (metadata, frames)
      → (validate_audio_metadata metadata ≡ ok tt)
        × (accepted aead machine (map decrypting rs) ≡ map seq_of rs)
        × InOrder machine.last_remote_seq machine.seen_remote_seq (map seq_of rs)
  unfolding decrypt_ios_audio_messages
  decrypt_ios_audio_messages_sound machine rs metadata frames e =
      elim (Result-cases (decrypt_from aead json 0 machine no_audio rs).1) [
        | inl (x, q) ↦ ground arith
        | inr (a, q) ↦
            let all = decrypt_from-accepted 0 machine no_audio a rs q in
            (
              ground (arith, decrypt_from-WellFormed 0 machine no_audio a rs (inr (refl, refl)) q),
              all,
              subst (InOrder machine.last_remote_seq machine.seen_remote_seq) all
                  (accepted-InOrder aead machine (map decrypting rs)),
            )
      ]
