-- ===== src/Asr/Client/Sent.antt =====
-- What the client of internal/asr/client.go sends in a transcription.
use mathlib.Core.List.{append_assoc, append-nil}
use talka.Prelude.{
  ℕ, ◌+◌, ◌≡◌, true, false, none, some, List, [], ◌∷◌, ◌++◌, ok, arith, length, inl, inr,
  Option-cases, Result-cases,
}
use talka.Prelude.Int.{pos}
use talka.Prelude.Bytes.{Bytes}
use talka.Protocol.{AudioMetadata, Message}
use talka.Asr.Client.{
  Config, Peer, Conn, ClientStream, StreamResult, hello_message, start_message, frame_message,
  stop_message,
}
use talka.Asr.Client.Calls.{
  write_json, drain_until_quiet, read_to_end, accept_frame, accept_frames, finish, greet,
  start_audio, new_stream, transcribe,
}

-- The frames, numbered from `k + 1` on.
abbrev pub frames_after : Bytes → ℕ → List Bytes → List Message
frames_after version k [] = []
frames_after version k (f ∷ fs) =
    frame_message version (pos (k + 1)) f ∷ frames_after version (k + 1) fs

module _ {R E : Type 0} (peer : Peer R E) where
  write_json-sent :
      (m : Message) (c : Conn R E)
      → (write_json peer m c).1 ≡ none
      → (write_json peer m c).0.sent ≡ c.sent ++ m ∷ []
  unfolding write_json
  write_json-sent m c h = elim (Option-cases (peer.write_error c.peer m)) [
    | inl q ↦ ground (arith, q, h)
    | inr (e, q) ↦ ground (arith, q, h)
  ]

  -- A stream that has sent `sent` and numbered its last frame `k`.
  pub record At (version : Bytes) (sent : List Message) (k : ℕ) (s : ClientStream R E)
      : Type 0 where
    pub version_is : s.version ≡ version
    pub sent_is : s.conn.sent ≡ sent
    pub sequence_is : s.sequence ≡ pos k
    pub is_open : s.closed ≡ false

  accept_frame-At :
      (version frame : Bytes) (sent : List Message) (k : ℕ) (s : ClientStream R E)
      → At version sent k s
      → (accept_frame peer (pos (k + 1)) frame s).1 ≡ none
      → At version
          (sent ++ frame_message version (pos (k + 1)) frame ∷ [])
          (k + 1)
          (accept_frame peer (pos (k + 1)) frame s).0
  unfolding accept_frame
  accept_frame-At version frame sent k s at h =
      let out = write_json peer (frame_message s.version (pos (k + 1)) frame) s.conn in
      elim (Option-cases out.1) [
        | inr (e, q) ↦ absurd (ground (arith, at.is_open, q, h))
        | inl q ↦
            let written = write_json-sent (frame_message s.version (pos (k + 1)) frame) s.conn q in
            elim (Result-cases (drain_until_quiet peer out.0.incoming s.result).1.1) [
              | inl (e, d) ↦ absurd (ground (arith, at.is_open, q, d, h))
              | inr (b, d) ↦ record {
                version_is = ground (arith, at.is_open, at.version_is, q, d);
                sent_is = ground (arith, at.is_open, at.version_is, at.sent_is, written, q, d);
                sequence_is = ground (arith, at.is_open, q, d);
                is_open = ground (arith, at.is_open, q, d);
              }
            ]
      ]

  accept_frames-At :
      (version : Bytes) (frames : List Bytes) (sent : List Message) (k : ℕ) (s : ClientStream R E)
      → At version sent k s
      → (accept_frames peer k frames s).1 ≡ none
      → At version
          (sent ++ frames_after version k frames)
          (k + length frames)
          (accept_frames peer k frames s).0
  unfolding accept_frames
  accept_frames-At version [] sent k s at h = record {
    version_is = at.version_is;
    sent_is = ground (arith, at.sent_is, append-nil sent);
    sequence_is = ground (arith, at.sequence_is);
    is_open = at.is_open;
  }
  accept_frames-At version (f ∷ fs) sent k s at h =
      let out = accept_frame peer (pos (k + 1)) f s in
      elim (Option-cases out.1) [
        | inr (e, q) ↦ absurd (ground (arith, q, h))
        | inl q ↦
            let m = frame_message version (pos (k + 1)) f in
            let next = accept_frame-At version f sent k s at q in
            let rest =
              accept_frames-At version fs (sent ++ m ∷ []) (k + 1) out.0 next
                (ground (arith, q, h)) in
            record {
              version_is = ground (arith, q, rest.version_is);
              sent_is = ground (
                arith,
                q,
                rest.sent_is,
                append_assoc sent (m ∷ []) (frames_after version (k + 1) fs),
              );
              sequence_is = ground (arith, q, rest.sequence_is);
              is_open = ground (arith, q, rest.is_open);
            }
      ]

  finish-sent :
      (version : Bytes) (sent : List Message) (k : ℕ) (s : ClientStream R E) (result : StreamResult)
      → At version sent k s
      → (finish peer s).1 ≡ ok result
      → (finish peer s).0.conn.sent ≡ sent ++ stop_message version (pos k) ∷ []
  unfolding finish
  finish-sent version sent k s result at h =
      let out = write_json peer (stop_message s.version s.sequence) s.conn in
      elim (Option-cases out.1) [
        | inr (e, q) ↦ absurd (ground (arith, at.is_open, q, h))
        | inl q ↦
            let written = write_json-sent (stop_message s.version s.sequence) s.conn q in
            elim (Option-cases (read_to_end peer out.0.incoming s.result).1.1) [
              | inr (e, d) ↦ absurd (ground (arith, at.is_open, q, d, h))
              | inl d ↦
                  ground
                    (arith, at.is_open, at.version_is, at.sent_is, at.sequence_is, written, q, d)
            ]
      ]

  greet-sent :
      (config : Config) (c : Conn R E) (result : StreamResult)
      → (greet peer config c).1 ≡ ok result
      → (greet peer config c).0.sent ≡ c.sent ++ hello_message config.version ∷ []
  unfolding greet
  greet-sent config c result h =
      let out = write_json peer (hello_message config.version) c in
      elim (Option-cases out.1) [
        | inr (e, q) ↦ absurd (ground (arith, q, h))
        | inl q ↦ ground (arith, q, h, write_json-sent (hello_message config.version) c q)
      ]

  start_audio-At :
      (config : Config) (metadata : AudioMetadata) (result : StreamResult) (c : Conn R E)
      (s : ClientStream R E)
      → (start_audio peer config metadata result c).1 ≡ ok (some s)
      → At config.version (c.sent ++ start_message config.version metadata ∷ []) 0 s
  unfolding start_audio
  start_audio-At config metadata result c s h =
      let out = write_json peer (start_message config.version metadata) c in
      elim (Option-cases out.1) [
        | inr (e, q) ↦ absurd (ground (arith, q, h))
        | inl q ↦
            let written = write_json-sent (start_message config.version metadata) c q in
            elim (Result-cases (drain_until_quiet peer out.0.incoming result).1.1) [
              | inl (e, d) ↦ absurd (ground (arith, q, d, h))
              | inr (true, d) ↦ absurd (ground (arith, q, d, h))
              | inr (false, d) ↦ record {
                version_is = ground (arith, q, d, h);
                sent_is = ground (arith, written, q, d, h);
                sequence_is = ground (arith, q, d, h);
                is_open = ground (arith, q, d, h);
              }
            ]
      ]

  new_stream-At :
      (config : Config) (metadata : AudioMetadata) (c : Conn R E) (s : ClientStream R E)
      → (new_stream peer config metadata c).1 ≡ ok (some s)
      → At config.version
          ((c.sent ++ hello_message config.version ∷ [])
            ++ start_message config.version metadata ∷ [])
          0
          s
  unfolding new_stream
  new_stream-At config metadata c s h = elim (Result-cases (greet peer config c).1) [
    | inl (e, q) ↦ absurd (ground (arith, q, h))
    | inr (result, q) ↦
        let out = (greet peer config c).0 in
        let at = start_audio-At config metadata result out s (ground (arith, q, h)) in
        record {
          version_is = at.version_is;
          sent_is = ground (arith, at.sent_is, greet-sent config c result q);
          sequence_is = at.sequence_is;
          is_open = at.is_open;
        }
  ]

  -- Whatever the server does, a transcription that succeeds on a fresh connection has sent a hello, a
  -- start with the metadata, every frame in base64 with the numbers 1, 2, ... and a stop that bears
  -- the number of the last, in this order and nothing else.
  pub transcribe-sent :
      (config : Config) (metadata : AudioMetadata) (frames : List Bytes) (c : Conn R E)
      (result : StreamResult)
      → c.sent ≡ []
      → (transcribe peer config metadata frames c).1 ≡ ok result
      → (transcribe peer config metadata frames c).0.sent
        ≡ hello_message config.version
          ∷ start_message config.version metadata
          ∷ (frames_after config.version 0 frames
              ++ stop_message config.version (pos (length frames)) ∷ [])
  unfolding transcribe
  transcribe-sent config metadata frames c result fresh h =
      let v = config.version in
      let begun = new_stream peer config metadata c in
      elim (Result-cases begun.1) [
        | inl (e, q) ↦ absurd (ground (arith, q, h))
        | inr (none, q) ↦ absurd (ground (arith, q, h))
        | inr (some s, q) ↦
            let at = new_stream-At config metadata c s q in
            let out = accept_frames peer 0 frames s in
            elim (Option-cases out.1) [
              | inr (e, k) ↦ absurd (ground (arith, q, k, h))
              | inl k ↦
                  let at' =
                    accept_frames-At v frames
                      ((c.sent ++ hello_message v ∷ []) ++ start_message v metadata ∷ []) 0 s at
                      k in
                  let sent =
                    finish-sent v
                      (((c.sent ++ hello_message v ∷ []) ++ start_message v metadata ∷ [])
                        ++ frames_after v 0 frames)
                      (0 + length frames) out.0 result at' (ground (arith, q, k, h)) in
                  ground (arith, q, k, sent, fresh)
            ]
      ]
