-- ===== src/App/Streaming/Batch.antt =====
-- The streaming handler of internal/app/ios_websocket.go beside `decryptIOSAudioMessages` of
-- ios_session.go, which the server uses for a recogniser that does not stream.
use talka.Prelude.{
  ℕ, ◌+◌, ◌≡◌, refl, ap, subst, true, false, none, some, List, [], ◌∷◌, ◌++◌, ok, arith, inl, inr,
  length, length-append, Option-cases, Result-cases,
}
use talka.Prelude.Bytes.{Bytes}
use talka.Protocol.{AudioMetadata, AudioStart, AudioFrame, AudioStop, Message}
use talka.Protocol.Codec.{Json}
use talka.Session.{Aead, StateMachine}
use talka.App.Audio.{
  Audio, no_audio, audio_message, Received, decrypt_ios_audio_message, decrypt_from,
  decrypt_ios_audio_messages,
}
use talka.App.Dictation.{Pipeline, handle_ios_key_press}
use talka.App.Replies.{Reading}
use talka.App.Streaming.{
  StreamingProvider, Connection, Stream, no_stream, Turn, Progress, check_start, check_frame,
  check_stop, handle_message, stream_from,
}

-- What a stream of the recogniser has been given, as its two methods change it.
pub record StreamLaws {W E S : Type 0} (provider : StreamingProvider W E S) : Type 0 where
  pub given : W → S → AudioMetadata × List Bytes
  pub opens :
      (m : AudioMetadata) (w : W) (s : S)
      → (provider.new_stream m w).1 ≡ ok s
      → given (provider.new_stream m w).0 s ≡ (m, [])
  pub accepts :
      (s : S) (p : Bytes) (w : W)
      → (provider.accept_frame s p w).1 ≡ none
      → given (provider.accept_frame s p w).0 s ≡ ((given w s).0, (given w s).1 ++ p ∷ [])

module _ {W E S : Type 0} (reading : Reading E) (connection : Connection W E) (pipe : Pipeline W E)
    (provider : StreamingProvider W E S) (laws : StreamLaws provider) where
  -- The recording so far, as the batch would have collected it.
  abbrev audio_of : Stream S → W → Audio
  audio_of s w = elim s.stream [
    | none ↦ no_audio
    | some stream ↦ record {
      metadata = (laws.given w stream).0;
      stream_id = s.stream_id;
      frames = (laws.given w stream).1;
      started = true;
      stopped = false;
    }
  ]

  abbrev Consistent : Stream S → W → Type 0
  Consistent s w = elim s.stream [
    | none ↦ (s.started ≡ false) × (s.frames ≡ 0)
    | some stream ↦ (s.started ≡ true) × (s.frames ≡ length (laws.given w stream).1)
  ]

  abbrev Follows : Stream S → Message → W → W × Turn S E → Type 0
  Follows s m w (w', Turn.goes_on next) =
      Consistent next w' × (audio_message (audio_of s w) m ≡ ok (audio_of next w'))
  Follows s m w (w', Turn.stops last stream) =
      (w' ≡ w)
      × (last ≡ s)
      × (s.stream ≡ some stream)
      × (audio_message (audio_of s w) m ≡ ok (record (audio_of s w) { stopped = true }))
  Follows s m w (w', Turn.ends e) = Unit {0}

  start-Follows :
      (s : Stream S) (m : AudioStart) (w : W)
      → Consistent s w
      → Follows s
          (Message.audio_start m)
          w
          (handle_message reading connection pipe provider s (Message.audio_start m) w)
  unfolding handle_message audio_message check_start
  start-Follows s m w c = elim (Result-cases (check_start s m)) [
    | inl (e, q) ↦ ground (arith, q)
    | inr (x, q) ↦ elim (Result-cases (provider.new_stream m.metadata w).1) [
      | inl (e, k) ↦ ground (arith, q, k)
      | inr (stream, k) ↦ ground (arith, q, k, laws.opens m.metadata w stream k)
    ]
  ]

  frame-Follows :
      (s : Stream S) (m : AudioFrame) (w : W)
      → Consistent s w
      → Follows s
          (Message.audio_frame m)
          w
          (handle_message reading connection pipe provider s (Message.audio_frame m) w)
  unfolding handle_message audio_message check_frame
  frame-Follows s m w c = elim (Result-cases (check_frame s m)) [
    | inl (e, q) ↦ ground (arith, q)
    | inr ((stream, p), q) ↦ elim (Option-cases (provider.accept_frame stream p w).1) [
      | inr (e, k) ↦ ground (arith, q, k)
      | inl k ↦
          ground
            (arith, q, k, laws.accepts stream p w k, length-append (laws.given w stream).1 (p ∷ []))
    ]
  ]

  stop-Follows :
      (s : Stream S) (m : AudioStop) (w : W)
      → Consistent s w
      → Follows s
          (Message.audio_stop m)
          w
          (handle_message reading connection pipe provider s (Message.audio_stop m) w)
  unfolding handle_message audio_message check_stop
  stop-Follows s m w c = elim (Result-cases (check_stop s m)) [
    | inl (e, q) ↦ ground (arith, q)
    | inr (stream, q) ↦ ground (arith, q)
  ]

  handle_message-Follows :
      (s : Stream S) (m : Message) (w : W)
      → Consistent s w
      → Follows s m w (handle_message reading connection pipe provider s m w)
  unfolding handle_message
  handle_message-Follows s (Message.audio_start m) w c = start-Follows s m w c
  handle_message-Follows s (Message.audio_frame m) w c = frame-Follows s m w c
  handle_message-Follows s (Message.audio_stop m) w c = stop-Follows s m w c
  handle_message-Follows s (Message.key_press m) w c =
      elim (Option-cases (handle_ios_key_press pipe m w).1) [
        | inl q ↦ rw (q, Follows) tt
        | inr (e, q) ↦ rw (q, Follows) tt
      ]
  handle_message-Follows s m w c = tt

  -- What the batch would have collected at a stop.
  abbrev collected : Stream S → S → W → Audio
  collected last stream w = record {
    metadata = (laws.given w stream).0;
    stream_id = last.stream_id;
    frames = (laws.given w stream).1;
    started = true;
    stopped = true;
  }

  module _ (aead : Aead) (json : Json) where
    abbrev Batched :
        ℕ → StateMachine → Audio → List Received → W × (StateMachine × Progress S E) → Type 0
    Batched index machine a rs (w', (machine', Progress.at_stop last stream)) =
        (used : List Received) × (rest : List Received) × (rs ≡ used ++ rest)
        × (decrypt_from aead json index machine a used ≡ (machine', ok (collected last stream w')))
    Batched index machine a rs (w', (machine', other)) = Unit {0}

    Batched-cons :
        (index : ℕ) (machine machine' : StateMachine) (a a' : Audio) (r : Received)
        (rs : List Received) (m : Message) (out : W × (StateMachine × Progress S E))
        → decrypt_ios_audio_message aead json machine r ≡ (machine', ok m)
        → audio_message a m ≡ ok a'
        → Batched (index + 1) machine' a' rs out
        → Batched index machine a (r ∷ rs) out
    unfolding decrypt_from
    Batched-cons index machine machine' a a' r rs m
          (w', (last_machine, Progress.at_stop last stream)) d q (used, rest, e, batch) =
        (r ∷ used, rest, ap (λ xs. r ∷ xs) e, ground (arith, d, q, batch))
    Batched-cons index machine machine' a a' r rs m (w', (last_machine, other)) d q b = tt

    after_turn :
        (index : ℕ) (machine machine' : StateMachine) (s : Stream S) (r : Received)
        (rs : List Received) (m : Message) (w w' : W) (turn : Turn S E)
        → decrypt_ios_audio_message aead json machine r ≡ (machine', ok m)
        → handle_message reading connection pipe provider
            (record s { messages = s.messages + 1 })
            m
            w
          ≡ (w', turn)
        → Follows (record s { messages = s.messages + 1 }) m w (w', turn)
        → ((next : Stream S)
            → Consistent next w'
            → Batched
                (index + 1)
                machine'
                (audio_of next w')
                rs
                (stream_from reading connection pipe provider aead json machine' next rs w'))
        → Batched index machine
            (audio_of s w)
            (r ∷ rs)
            (stream_from reading connection pipe provider aead json machine s (r ∷ rs) w)
    unfolding stream_from decrypt_from
    after_turn index machine machine' s r rs m w w' (Turn.goes_on next) d h (c, q) rec =
        let out = stream_from reading connection pipe provider aead json machine' next rs w' in
        let step : out
            ≡ stream_from reading connection pipe provider aead json machine s (r ∷ rs) w =
          ground (arith, d, h) in
        subst (Batched index machine (audio_of s w) (r ∷ rs)) step (
          Batched-cons index machine machine' (audio_of s w) (audio_of next w') r rs m out d q
            (rec next c))
    after_turn index machine machine' s r rs m w w' (Turn.stops last stream) d h (e, l, o, q) rec =
        let step : (w', (machine', Progress.at_stop last stream))
            ≡ stream_from reading connection pipe provider aead json machine s (r ∷ rs) w =
          ground (arith, d, h) in
        subst (Batched index machine (audio_of s w) (r ∷ rs)) step
          (r ∷ [], rs, refl, ground (arith, d, e, l, o, q))
    after_turn index machine machine' s r rs m w w' (Turn.ends ending) d h f rec =
        let step : (w', (machine', Progress.over (record s { messages = s.messages + 1 }) ending))
            ≡ stream_from reading connection pipe provider aead json machine s (r ∷ rs) w =
          ground (arith, d, h) in
        subst (Batched index machine (audio_of s w) (r ∷ rs)) step tt

    stream_from-Batched :
        (index : ℕ) (machine : StateMachine) (s : Stream S) (rs : List Received) (w : W)
        → Consistent s w
        → Batched index machine
            (audio_of s w)
            rs
            (stream_from reading connection pipe provider aead json machine s rs w)
    unfolding stream_from
    stream_from-Batched index machine s [] w c = tt
    stream_from-Batched index machine s (r ∷ rs) w c =
        let out = decrypt_ios_audio_message aead json machine r in
        let s' : Stream S = record s { messages = s.messages + 1 } in
        elim (Result-cases out.1) [
          | inl (e, q) ↦ rw (q, Batched) tt
          | inr (m, q) ↦
              let turn = handle_message reading connection pipe provider s' m w in
              after_turn index machine out.0 s r rs m w turn.0 turn.1 (ground (arith, q)) refl
                (handle_message-Follows s' m w c)
                (λ next c'. stream_from-Batched (index + 1) out.0 next rs turn.0 c')
        ]

-- When the streaming handler reaches a stop, the messages up to it are some that the batch takes: it
-- collects from them the metadata and the frames that the stream of the recogniser was given,
-- in that order, and leaves the session as the streaming handler does.
pub stream_from-batch :
    {W E S : Type 0} (reading : Reading E) (connection : Connection W E) (pipe : Pipeline W E)
    (provider : StreamingProvider W E S) (laws : StreamLaws provider) (aead : Aead) (json : Json)
    (machine machine' : StateMachine) (rs : List Received) (w w' : W) (last : Stream S) (stream : S)
    → stream_from reading connection pipe provider aead json machine no_stream rs w
      ≡ (w', (machine', Progress.at_stop last stream))
    → (used : List Received) × (rest : List Received) × (rs ≡ used ++ rest)
      × (decrypt_ios_audio_messages aead json machine used ≡ (machine', ok (laws.given w' stream)))
unfolding decrypt_ios_audio_messages
stream_from-batch reading connection pipe provider laws aead json machine machine' rs w w' last
      stream e =
    let (used, rest, split, batch) =
      subst (Batched reading connection pipe provider laws aead json 0 machine no_audio rs) e (
        stream_from-Batched reading connection pipe provider laws aead json 0 machine no_stream rs w
          (refl, refl)) in
    (used, rest, split, ground (arith, batch))
