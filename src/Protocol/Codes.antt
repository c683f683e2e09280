-- ===== src/Protocol/Codes.antt =====
-- The error codes of internal/protocol/types.go.
use talka.Prelude.Bytes.{codes}
use talka.Protocol.{ErrorCode}

abbrev pub invalid_version : ErrorCode
invalid_version = codes "invalid_version"

abbrev pub unsupported_encoding : ErrorCode
unsupported_encoding = codes "unsupported_encoding"

abbrev pub invalid_audio_metadata : ErrorCode
invalid_audio_metadata = codes "invalid_audio_metadata"

abbrev pub out_of_order_audio_frame : ErrorCode
out_of_order_audio_frame = codes "out_of_order_audio_frame"

abbrev pub sidecar_unavailable : ErrorCode
sidecar_unavailable = codes "sidecar_unavailable"

abbrev pub unexpected_message_type : ErrorCode
unexpected_message_type = codes "unexpected_message_type"

abbrev pub invalid_message : ErrorCode
invalid_message = codes "invalid_message"
