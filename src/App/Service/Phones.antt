-- ===== src/App/Service/Phones.antt =====
-- The endpoints of internal/app/ios_session.go, which a phone calls to pair and to resume, and the
-- audio that it has sent as a whole.
use talka.Prelude.{true, not, none, some, ◌++◌, Result, ok, err, ◌>>=◌, if◌then◌else◌}
use talka.Prelude.Bytes.{Bytes, codes, is_empty}
use talka.Prelude.Text.{trim_space}
use talka.Prelude.Base64.{encode_to_string, decode_string}
use talka.Prelude.Dict.{insert}
use talka.Pairing
use talka.Pairing.{PairingRequest, ResumeRequest, PairingResult}
use talka.Pairing.World.{World, Readings}
use talka.Pairing.Manager.{complete, resume}
use talka.App.Service.{
  App, Environment, Request, Response, Payload, CompleteRequest, ResumptionRequest,
  IosPairingResponse, write_error, method_not_allowed, write_json, is_get, is_post,
}

-- The errors of `decodeRequiredBase64`, with the name of the field, and those of the manager.
pub data PairError : Type 0 where
  required undecodable : Bytes → PairError
  manager_error : Pairing.Error → PairError

unfoldable pub decode_required_base64 : Bytes → Bytes → Result PairError Bytes
decode_required_base64 value field =
    if is_empty (trim_space value)
    then err (PairError.required field)
    else elim (decode_string (trim_space value)) [
      | none ↦ err (PairError.undecodable field)
      | some decoded ↦ ok decoded
    ]

unfoldable pub pairing_request : CompleteRequest → Result PairError PairingRequest
pairing_request q = do
  identity ←
      decode_required_base64 q.client_identity_public_key (codes "client_identity_public_key")
  ephemeral ←
      decode_required_base64 q.client_ephemeral_public_key (codes "client_ephemeral_public_key")
  confirmation ← decode_required_base64 q.client_confirmation (codes "client_confirmation")
  ok (record {
    pairing_id = trim_space q.pairing_id;
    client_device_id = trim_space q.device_id;
    client_device_name = trim_space q.device_name;
    client_identity_public_key = identity;
    client_ephemeral_public_key = ephemeral;
    client_confirmation = confirmation;
  })

unfoldable pub resume_request : ResumptionRequest → Result PairError ResumeRequest
resume_request q = do
  identity ←
      decode_required_base64 q.client_identity_public_key (codes "client_identity_public_key")
  ephemeral ←
      decode_required_base64 q.client_ephemeral_public_key (codes "client_ephemeral_public_key")
  ok (record {
    pairing_id = trim_space q.pairing_id;
    client_device_id = trim_space q.device_id;
    client_device_name = trim_space q.device_name;
    client_identity_public_key = identity;
    client_ephemeral_public_key = ephemeral;
  })

-- `audioWebSocketURL`; the device's identifier is not escaped.
unfoldable pub audio_web_socket_url : Request → Bytes → Bytes
audio_web_socket_url r device_id =
    (if r.tls then codes "wss" else codes "ws")
    ++ (codes "://" ++ (r.host ++ (codes "/v1/session/audio?device_id=" ++ device_id)))

-- `iosPairingResponseFromResult`.
unfoldable pub ios_pairing_response_from_result : Request → PairingResult → IosPairingResponse
ios_pairing_response_from_result r p = record {
  device_id = p.client_device_id;
  device_name = p.client_device_name;
  server_device_id = p.server_device_id;
  server_device_name = p.server_device_name;
  server_identity_public_key = encode_to_string p.server_identity_public_key;
  server_ephemeral_public_key = encode_to_string p.server_ephemeral_public_key;
  server_confirmation = encode_to_string p.confirmation;
  session_id = encode_to_string p.session_id;
  audio_websocket_url = audio_web_socket_url r p.client_device_id;
}

module _ {S W A I : Type 0} where
  -- The device is listed and its session is put in place of the one that it had.
  unfoldable pub connect : PairingResult → App S W A I → App S W A I
  connect p a = record a {
    devices =
        insert p.client_device_id
          (record {
            id = p.client_device_id;
            name = p.client_device_name;
            paired = true;
            last_seen_at = p.device.last_seen_at;
          })
          a.devices;
    ios_sessions =
        insert p.client_device_id
          (record { device_id = p.client_device_id; machine = p.server_session }) a.ios_sessions;
  }

  -- What is done with the answer of `Complete`, and of `Resume`.
  unfoldable pub completed :
      Request
      → World S × Result Pairing.Error PairingResult
      → App S W A I
      → App S W A I × Result PairError IosPairingResponse
  completed r (w, err e) a = (record a { manager = w }, err (PairError.manager_error e))
  completed r (w, ok p) a = (
    record (connect p (record a { manager = w })) { pairing = none; ios_pairing = none },
    ok (ios_pairing_response_from_result r p),
  )

  unfoldable pub resumed :
      Request
      → World S × Result Pairing.Error PairingResult
      → App S W A I
      → App S W A I × Result PairError IosPairingResponse
  resumed r (w, err e) a = (record a { manager = w }, err (PairError.manager_error e))
  resumed r (w, ok p) a =
      (connect p (record a { manager = w }), ok (ios_pairing_response_from_result r p))

  -- The answer to a phone: its result, or an error with `code` and `message`.
  unfoldable pub answered :
      Bytes → Bytes → App S W A I × Result PairError IosPairingResponse → App S W A I × Response
  answered code message (a, err e) = (a, write_error 400 code message)
  answered code message (a, ok p) = (a, write_json (Payload.paired_payload p))

  unfoldable pub handle_ios_pairing_challenge : Request → App S W A I → App S W A I × Response
  handle_ios_pairing_challenge r a =
      if not (is_get r)
      then (a, method_not_allowed (codes "iOS pairing challenge endpoint only accepts GET"))
      else elim a.ios_pairing [
        | none ↦ (a, write_error 404 (codes "pairing_not_active") (codes "no active pairing PIN"))
        | some start ↦ (
          a,
          write_json (
              Payload.challenge_payload (record {
                pairing_id = start.pairing_id;
                expires_at = start.expires_at;
                server_device_id = codes "talka-mac";
                server_device_name = a.cfg.server.service_name;
                server_identity_public_key = encode_to_string start.server_identity_public_key;
                server_ephemeral_public_key = encode_to_string start.server_ephemeral_public_key;
              })),
        )
      ]

module _ {S W E A I : Type 0} (env : Environment S W E A I) where
  -- `completeIOSPairing`.
  unfoldable pub complete_ios_pairing :
      Readings
      → Request
      → CompleteRequest
      → App S W A I
      → App S W A I × Result PairError IosPairingResponse
  complete_ios_pairing t r q a = elim (pairing_request q) [
    | err e ↦ (a, err e)
    | ok p ↦ completed r (complete env.primitives env.store a.manager_config t p a.manager) a
  ]

  -- `resumeIOSPairing`.
  unfoldable pub resume_ios_pairing :
      Readings
      → Request
      → ResumptionRequest
      → App S W A I
      → App S W A I × Result PairError IosPairingResponse
  resume_ios_pairing t r q a = elim (resume_request q) [
    | err e ↦ (a, err e)
    | ok p ↦
        resumed r (resume env.primitives env.store a.manager_config t.started t.seen p a.manager) a
  ]

  unfoldable pub handle_ios_pair : Readings → Request → App S W A I → App S W A I × Response
  handle_ios_pair t r a =
      if not (is_post r)
      then (a, method_not_allowed (codes "iOS pairing endpoint only accepts POST"))
      else elim (env.decode_complete r.body) [
        | none ↦ (a, write_error 400 (codes "invalid_request") (codes "decode iOS pairing payload"))
        | some q ↦
            answered (codes "pairing_failed") (codes "pairing completion failed")
              (complete_ios_pairing t r q a)
      ]

  unfoldable pub handle_ios_resume : Readings → Request → App S W A I → App S W A I × Response
  handle_ios_resume t r a =
      if not (is_post r)
      then (a, method_not_allowed (codes "iOS resume endpoint only accepts POST"))
      else elim (env.decode_resumption r.body) [
        | none ↦ (a, write_error 400 (codes "invalid_request") (codes "invalid iOS resume payload"))
        | some q ↦
            answered (codes "resume_failed") (codes "iOS resume failed")
              (resume_ios_pairing t r q a)
      ]
