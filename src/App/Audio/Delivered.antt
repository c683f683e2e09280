-- ===== src/App/Audio/Delivered.antt =====
-- A recording that a phone sends over a session (internal/session/session.go) and that the server
-- decrypts and collects (internal/app/ios_session.go).
use mathlib.Core.List.{append_assoc, append-nil}
use talka.Prelude.{
  ℕ, ◌+◌, ◌^◌, ◌<◌, ◌≡◌, refl, true, List, [], ◌∷◌, ◌++◌, Result, ok, err, arith, length,
  length-append, inl, inr, Result-cases,
}
use talka.Prelude.Bytes.{Bytes, bytes_eq_iff}
use talka.Protocol.{AudioStart, AudioFrame, AudioStop, Message}
use talka.Protocol.Codec.{Json, decode, validate_audio_metadata}
use talka.Session.{Aead, State, StateMachine, encrypt, nonce_size}
use talka.Session.Peers.{AeadLaws, InStep, Delivery, Timely, decrypt-encrypt, read_full-all}
use talka.Session.Capture.Streams.{Frames, frame_messages}
use talka.App.Audio.{
  Error, Audio, no_audio, audio_message, Received, decrypt_ios_audio_message, decrypt_from,
  decrypt_ios_audio_messages,
}

-- The switch over a whole recording.
collect : Audio → List Message → Result Error Audio
collect a [] = ok a
collect a (m ∷ ms) = elim (audio_message a m) [ err e ↦ err e | ok a' ↦ collect a' ms ]

-- The plaintexts decode to these messages.
abbrev pub Carries : Json → List Delivery → List Message → Type 0
Carries json [] [] = Unit {0}
Carries json [] (m ∷ ms) = ⊥
Carries json (d ∷ ds) [] = ⊥
Carries json (d ∷ ds) (m ∷ ms) = (decode json d.plaintext ≡ ok m) × Carries json ds ms

-- What the phone sends: it encrypts each message in turn, and stops at an error.
unfoldable pub send : Aead → StateMachine → List Delivery → List Received
send aead a [] = []
send aead a (d ∷ ds) =
    let (a', rest, r) = encrypt aead d.sent d.sent d.nonce a d.type d.plaintext in
    elim r [
      | err e ↦ []
      | ok m ↦ record { message = m; now = d.received; later = d.received } ∷ send aead a' ds
    ]

module _ (aead : Aead) (laws : AeadLaws aead) (json : Json) where
  decrypt_from-send :
      (index : ℕ) (a b : StateMachine) (audio audio' : Audio) (ds : List Delivery)
      (ms : List Message)
      → InStep a b
      → a.next_local_seq + length ds < 2 ^ 64
      → a.state ≡ State.active
      → b.state ≡ State.active
      → Timely a.inactivity_timeout b.inactivity_timeout a.last_activity b.last_activity ds
      → Carries json ds ms
      → collect audio ms ≡ ok audio'
      → (decrypt_from aead json index b audio (send aead a ds)).1 ≡ ok audio'
  unfolding decrypt_from send collect decrypt_ios_audio_message
  decrypt_from-send index a b audio audio' [] [] v bound la lb t c e = e
  decrypt_from-send index a b audio audio' [] (m ∷ ms) v bound la lb t c e = absurd c
  decrypt_from-send index a b audio audio' (d ∷ ds) [] v bound la lb t c e = absurd c
  decrypt_from-send index a b audio audio' (d ∷ ds) (m ∷ ms) v bound la lb (ta, tb, n, t) (dm, c)
        e =
      let (enc, dec, v') =
        decrypt-encrypt aead laws a b d.sent d.sent d.received d.received d.nonce d.nonce [] d.type
          d.plaintext v (omega arith) (la, ta) (lb, tb) (read_full-all nonce_size d.nonce n) in
      let a' : StateMachine = record a {
        last_activity = d.sent;
        next_local_seq = a.next_local_seq + 1;
      } in
      let b' : StateMachine = record b {
        last_activity = d.received;
        last_remote_seq = a.next_local_seq;
        seen_remote_seq = a.next_local_seq ∷ b.seen_remote_seq;
      } in
      elim (Result-cases (audio_message audio m)) [
        | inl (x, q) ↦ ground (arith, q, e)
        | inr (next, q) ↦
            let rest =
              decrypt_from-send (index + 1) a' b' next audio' ds ms v' (omega arith) la lb t c
                (ground (arith, q, e)) in
            ground (arith, enc, dec, dm, q, rest)
      ]

-- The frames after those collected, up to the stop.
collect-frames :
    (a : Audio) (ms : List AudioFrame) (ps : List Bytes) (stop : AudioStop)
    → a.started ≡ true
    → Frames a.stream_id (length a.frames) ms ps
    → stop.stream_id ≡ a.stream_id
    → collect a (frame_messages ms ++ Message.audio_stop stop ∷ [])
      ≡ ok (record a { frames = a.frames ++ ps; stopped = true })
unfolding collect audio_message
collect-frames a [] [] stop started frames stream =
    ground (arith, bytes_eq_iff stop.stream_id a.stream_id, append-nil a.frames)
collect-frames a [] (p ∷ ps) stop started frames stream = absurd frames
collect-frames a (m ∷ ms) [] stop started frames stream = absurd frames
collect-frames a (m ∷ ms) (p ∷ ps) stop started (s, n, d, frames) stream =
    let a' : Audio = record a { frames = a.frames ++ p ∷ [] } in
    let longer : length (a.frames ++ p ∷ []) ≡ length a.frames + 1 =
      length-append a.frames (p ∷ []) in
    ground (
      arith,
      bytes_eq_iff m.stream_id a.stream_id,
      d,
      collect-frames a' ms ps stop started (rw longer frames) stream,
      append_assoc a.frames (p ∷ []) ps,
    )

collect_all :
    (start : AudioStart) (ms : List AudioFrame) (ps : List Bytes) (stop : AudioStop)
    → validate_audio_metadata start.metadata ≡ ok tt
    → Frames start.stream_id 0 ms ps
    → stop.stream_id ≡ start.stream_id
    → collect no_audio
        (Message.audio_start start ∷ (frame_messages ms ++ Message.audio_stop stop ∷ []))
      ≡ ok (record {
        metadata = start.metadata;
        stream_id = start.stream_id;
        frames = ps;
        started = true;
        stopped = true;
      })
unfolding collect audio_message
collect_all start ms ps stop valid frames stream =
    let begun : Audio = record no_audio {
      metadata = start.metadata;
      stream_id = start.stream_id;
      started = true;
    } in
    ground (arith, valid, collect-frames begun ms ps stop refl frames stream)

-- With a lawful cipher, and both ends of the session active and a counter that does not wrap, a
-- recording that a phone in step with the server sends in time - a start with valid metadata,
-- frames with the numbers 1, 2, ... whose payloads decode to `ps`, and a stop of the same stream,
-- whatever count the stop carries - is decrypted and collected to its metadata and its payloads in
-- order.
pub decrypt_ios_audio_messages-send :
    (aead : Aead) (laws : AeadLaws aead) (json : Json) (a b : StateMachine) (ds : List Delivery)
    (start : AudioStart) (ms : List AudioFrame) (ps : List Bytes) (stop : AudioStop)
    → InStep a b
    → a.next_local_seq + length ds < 2 ^ 64
    → a.state ≡ State.active
    → b.state ≡ State.active
    → Timely a.inactivity_timeout b.inactivity_timeout a.last_activity b.last_activity ds
    → Carries json ds
        (Message.audio_start start ∷ (frame_messages ms ++ Message.audio_stop stop ∷ []))
    → validate_audio_metadata start.metadata ≡ ok tt
    → Frames start.stream_id 0 ms ps
    → stop.stream_id ≡ start.stream_id
    → (decrypt_ios_audio_messages aead json b (send aead a ds)).1 ≡ ok (start.metadata, ps)
unfolding decrypt_ios_audio_messages
decrypt_ios_audio_messages-send aead laws json a b ds start ms ps stop v bound la lb t c valid
      frames stream =
    let begun : Audio = record no_audio {
      metadata = start.metadata;
      stream_id = start.stream_id;
      started = true;
    } in
    let all = collect_all start ms ps stop valid frames stream in
    ground (
      arith,
      decrypt_from-send aead laws json 0 a b no_audio (record begun { frames = ps; stopped = true })
          ds (Message.audio_start start ∷ (frame_messages ms ++ Message.audio_stop stop ∷ [])) v
          bound la lb t c all,
    )
