-- ===== src/App/Buffering/Bounded.antt =====
-- What the buffering loop of internal/app/ios_websocket.go hands on.
use mathlib.Core.List.{append_assoc}
use talka.Prelude.{
  ◌+◌, ◌≤◌, ◌≡◌, refl, ap, subst, true, false, List, [], ◌∷◌, ◌++◌, arith, length, length-append,
  inl, inr, Bool-cases,
}
use talka.Prelude.Bytes.{bytes_eq}
use talka.Protocol.Types
use talka.Session.{EncryptedMessage}
use talka.App.Audio.Wire.{ios_web_socket_can_buffer}
use talka.App.Streaming.{ReadEnd}
use talka.App.Buffering.{Buffered, complete, limit_exceeded, stopped_reading, buffer_messages}

-- No message but the last is a stop, and the last is.
abbrev pub StopsAtEnd : List EncryptedMessage → Type 0
StopsAtEnd [] = ⊥
StopsAtEnd (m ∷ []) = bytes_eq m.type Types.audio_stop ≡ true
StopsAtEnd (m ∷ n ∷ rest) = (bytes_eq m.type Types.audio_stop ≡ false) × StopsAtEnd (n ∷ rest)

-- What the loop makes of `before`, the last message and `rest`.
abbrev Collected :
    List EncryptedMessage → EncryptedMessage → List EncryptedMessage → Buffered → Type 0
Collected before last rest (complete ms) =
    (used : List EncryptedMessage) × (left : List EncryptedMessage) × (rest ≡ used ++ left)
    × (ms ≡ before ++ last ∷ used)
    × (length ms ≤ 10000)
    × StopsAtEnd (last ∷ used)
Collected before last rest other = Unit {0}

fits :
    (before : List EncryptedMessage) (last : EncryptedMessage)
    → ios_web_socket_can_buffer (length (before ++ last ∷ []) + 1) ≡ true
    → length (before ++ last ∷ []) + 1 ≤ 10000
unfolding ios_web_socket_can_buffer
fits before last k = ground (arith, k)

longer :
    (before : List EncryptedMessage) (last m : EncryptedMessage) (rest : List EncryptedMessage)
    (b : Buffered)
    → bytes_eq last.type Types.audio_stop ≡ false
    → Collected (before ++ last ∷ []) m rest b
    → Collected before last (m ∷ rest) b
longer before last m rest (complete ms) q (used, left, e, f, n, stops) = (
  m ∷ used,
  left,
  ap (λ xs. m ∷ xs) e,
  ground (arith, f, append_assoc before (last ∷ []) (m ∷ used)),
  n,
  (q, stops),
)
longer before last m rest limit_exceeded q c = tt
longer before last m rest (stopped_reading end) q c = tt

buffer_messages-Collected :
    (before : List EncryptedMessage) (last : EncryptedMessage) (rest : List EncryptedMessage)
    (end : ReadEnd)
    → length before + 1 ≤ 10000
    → Collected before last rest (buffer_messages (before ++ last ∷ []) last rest end)
unfolding buffer_messages
buffer_messages-Collected before last [] end bound =
    elim (Bool-cases (bytes_eq last.type Types.audio_stop)) [
      | inl q ↦
          rw (q, Collected)
            ([], [], refl, refl, ground (arith, length-append before (last ∷ [])), q)
      | inr q ↦ rw (q, Collected) tt
    ]
buffer_messages-Collected before last (m ∷ rest) end bound =
    let sofar = before ++ last ∷ [] in
    elim (Bool-cases (bytes_eq last.type Types.audio_stop)) [
      | inl q ↦
          rw (q, Collected)
            ([], m ∷ rest, refl, refl, ground (arith, length-append before (last ∷ [])), q)
      | inr q ↦ elim (Bool-cases (ios_web_socket_can_buffer (length sofar + 1))) [
        | inr k ↦ rw (q, k, Collected) tt
        | inl k ↦
            let small = fits before last k in
            let rec = buffer_messages-Collected sofar m rest end small in
            let step : buffer_messages (sofar ++ m ∷ []) m rest end
                ≡ buffer_messages sofar last (m ∷ rest) end =
              ground (arith, q, k) in
            subst (Collected before last (m ∷ rest)) step
              (longer before last m rest (buffer_messages (sofar ++ m ∷ []) m rest end) q rec)
      ]
    ]

-- What the loop hands on starts with the first message, goes on with those that come next, is of at
-- most 10,000 messages, and ends with the first stop.
pub buffer_messages_bounded :
    (first : EncryptedMessage) (rest ms : List EncryptedMessage) (end : ReadEnd)
    → buffer_messages (first ∷ []) first rest end ≡ complete ms
    → (used : List EncryptedMessage) × (left : List EncryptedMessage) × (rest ≡ used ++ left)
      × (ms ≡ first ∷ used)
      × (length ms ≤ 10000)
      × StopsAtEnd (first ∷ used)
buffer_messages_bounded first rest ms end e =
    subst (Collected [] first rest) e (buffer_messages-Collected [] first rest end (omega arith))
