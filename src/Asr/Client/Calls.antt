-- ===== src/Asr/Client/Calls.antt =====
-- The calls of the client of internal/asr/client.go on a connection that was dialled.
use talka.Prelude.{
  ℕ, ◌+◌, Bool, true, false, Option, none, some, List, [], ◌∷◌, ◌++◌, Result, ok, err,
  if◌then◌else◌,
}
use talka.Prelude.Int.{ℤ, pos, is_positive, next_int}
use talka.Prelude.Bytes.{Bytes, codes}
use talka.Protocol.{AudioMetadata, Message}
use talka.Protocol.Codes
use talka.Protocol.Errors.{new_error, as_error}
use talka.Asr.Client.{
  Config, StreamResult, no_stream_result, Error, consume_message_with_done, Peer, Conn,
  ClientStream, hello_message, start_message, frame_message, stop_message,
}

module _ {R E : Type 0} (peer : Peer R E) where
  -- `conn.WriteJSON`.
  unfoldable pub write_json : Message → Conn R E → Conn R E × Option E
  write_json m c = elim (peer.write_error c.peer m) [
    | some e ↦ (c, some e)
    | none ↦
        let (peer', replies) = peer.answer c.peer m in
        (record { peer = peer'; incoming = c.incoming ++ replies; sent = c.sent ++ m ∷ [] }, none)
  ]

  -- `readMessage` of what has come: what is left, and the message.
  abbrev read_message : List (Result E Message) → List (Result E Message) × Result (Error E) Message
  read_message [] = ([], err (Error.transport_error peer.timed_out))
  read_message (err e ∷ rest) = (rest, err (Error.transport_error e))
  read_message (ok m ∷ rest) = (rest, ok m)

  -- `drainUntilQuiet`: what is left, the result so far, and whether the final text has come.
  unfoldable pub drain_until_quiet :
      List (Result E Message)
      → StreamResult
      → List (Result E Message) × (StreamResult × Result (Error E) Bool)
  drain_until_quiet [] r = (
    [],
    (
      r,
      if peer.is_timeout peer.timed_out
          then ok false
          else err (Error.transport_error peer.timed_out),
    ),
  )
  drain_until_quiet (err e ∷ rest) r =
      (rest, (r, if peer.is_timeout e then ok false else err (Error.transport_error e)))
  drain_until_quiet (ok m ∷ rest) r = elim (consume_message_with_done m r) [
    | err e ↦ (rest, (r, err (Error.protocol_error e)))
    | ok (r', true) ↦ (rest, (r', ok true))
    | ok (r', false) ↦ drain_until_quiet rest r'
  ]

  -- The loop of `Finish`.
  unfoldable pub read_to_end :
      List (Result E Message)
      → StreamResult
      → List (Result E Message) × (StreamResult × Option (Error E))
  read_to_end [] r = ([], (r, some (Error.transport_error peer.timed_out)))
  read_to_end (err e ∷ rest) r = (rest, (r, some (Error.transport_error e)))
  read_to_end (ok m ∷ rest) r = elim (consume_message_with_done m r) [
    | err e ↦ (rest, (r, some (Error.protocol_error e)))
    | ok (r', true) ↦ (rest, (r', none))
    | ok (r', false) ↦ read_to_end rest r'
  ]

  -- `AcceptFrame` of a stream that is not nil. The result is `s.result` in every branch.
  unfoldable pub accept_frame : ℤ → Bytes → ClientStream R E → ClientStream R E × Option (Error E)
  accept_frame given frame s = elim s.closed [
    | true ↦ (
      s,
      some (
          Error.protocol_error
            (new_error Codes.invalid_message (codes "sidecar stream is closed") [])),
    )
    | false ↦
        let sequence = if is_positive given then given else next_int s.sequence in
        let (conn, unwritten) = write_json (frame_message s.version sequence frame) s.conn in
        elim unwritten [
          | some e ↦ (record s { conn = conn }, some (Error.transport_error e))
          | none ↦
              let (left, drained) = drain_until_quiet conn.incoming s.result in
              let s' : ClientStream R E = record s {
                conn = record conn { incoming = left };
                result = drained.0;
                sequence = sequence;
              } in
              elim drained.1 [ err e ↦ (s', some e) | ok finished ↦ (s', none) ]
        ]
  ]

  unfoldable pub finish : ClientStream R E → ClientStream R E × Result (Error E) StreamResult
  finish s = elim s.closed [
    | true ↦ (
      s,
      err (
          Error.protocol_error
            (new_error Codes.invalid_message (codes "sidecar stream is closed") [])),
    )
    | false ↦
        let (conn, unwritten) = write_json (stop_message s.version s.sequence) s.conn in
        elim unwritten [
          | some e ↦ (record s { conn = conn }, err (Error.transport_error e))
          | none ↦
              let (left, out) = read_to_end conn.incoming s.result in
              let s' : ClientStream R E = record s {
                conn = record conn { incoming = left };
                result = out.0;
              } in
              elim out.1 [ some e ↦ (s', err e) | none ↦ (s', ok out.0) ]
        ]
  ]

  -- `NewStream` over a connection that was dialled: the connection, which it closes unless it
  -- returns a stream. The stream may be nil with no error.
  unfoldable pub greet : Config → Conn R E → Conn R E × Result (Error E) StreamResult
  greet config c =
      let (conn, unwritten) = write_json (hello_message config.version) c in
      elim unwritten [
        | some e ↦ (conn, err (Error.transport_error e))
        | none ↦
            let (left, r) = read_message conn.incoming in
            let conn' : Conn R E = record conn { incoming = left } in
            elim r [
              | err e ↦ (conn', err e)
              | ok m ↦ elim (consume_message_with_done m no_stream_result) [
                | err e ↦ (conn', err (Error.protocol_error e))
                | ok (result, finished) ↦ (conn', ok result)
              ]
            ]
      ]

  unfoldable pub start_audio :
      Config
      → AudioMetadata
      → StreamResult
      → Conn R E
      → Conn R E × Result (Error E) (Option (ClientStream R E))
  start_audio config metadata result c =
      let (conn, unwritten) = write_json (start_message config.version metadata) c in
      elim unwritten [
        | some e ↦ (conn, err (Error.transport_error e))
        | none ↦
            let (left, drained) = drain_until_quiet conn.incoming result in
            let conn' : Conn R E = record conn { incoming = left } in
            elim drained.1 [
              | err e ↦ (conn', err e)
              | ok true ↦ (conn', ok none)
              | ok false ↦ (
                conn',
                ok (
                    some (record {
                      version = config.version;
                      conn = conn';
                      result = drained.0;
                      metadata = metadata;
                      sequence = pos 0;
                      closed = false;
                    })),
              )
            ]
      ]

  unfoldable pub new_stream :
      Config → AudioMetadata → Conn R E → Conn R E × Result (Error E) (Option (ClientStream R E))
  new_stream config metadata c =
      let (conn, r) = greet config c in
      elim r [ err e ↦ (conn, err e) | ok result ↦ start_audio config metadata result conn ]

  -- The loop of `Transcribe`, from the frame of this index on.
  unfoldable pub accept_frames :
      ℕ → List Bytes → ClientStream R E → ClientStream R E × Option (Error E)
  accept_frames index [] s = (s, none)
  accept_frames index (frame ∷ frames) s =
      let (s', e) = accept_frame (pos (index + 1)) frame s in
      elim e [ some e' ↦ (s', some e') | none ↦ accept_frames (index + 1) frames s' ]

  -- `Transcribe` over a connection that was dialled.
  unfoldable pub transcribe :
      Config → AudioMetadata → List Bytes → Conn R E → Conn R E × Result (Error E) StreamResult
  transcribe config metadata frames c =
      let (conn, r) = new_stream config metadata c in
      elim r [
        | err e ↦ (conn, err e)
        | ok none ↦ (conn, err Error.nil_stream)
        | ok (some stream) ↦
            let (s, failed) = accept_frames 0 frames stream in
            elim failed [
              | some e ↦ (s.conn, err e)
              | none ↦ let (s', result) = finish s in (s'.conn, result)
            ]
      ]

  -- `HealthCheck` over a connection that was dialled.
  unfoldable pub health_check : Config → Conn R E → Conn R E × Option (Error E)
  health_check config c =
      let (conn, unwritten) = write_json (hello_message config.version) c in
      elim unwritten [
        | some e ↦ (conn, some (Error.transport_error e))
        | none ↦
            let (left, r) = read_message conn.incoming in
            let conn' : Conn R E = record conn { incoming = left } in
            elim r [
              | err e ↦ (conn', some e)
              | ok (Message.server_hello m) ↦ if m.ready then (conn', none) else (
                conn',
                some (
                    Error.protocol_error
                      (new_error Codes.sidecar_unavailable (codes "sidecar is not ready") [])),
              )
              | ok (Message.error_message m) ↦ (conn', some (Error.protocol_error (as_error m)))
              | ok m ↦ (
                conn',
                some (
                    Error.protocol_error (
                      new_error Codes.unexpected_message_type (codes "health check received %T")
                        [])),
              )
            ]
      ]
