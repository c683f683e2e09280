-- ===== src/Protocol/Types.antt =====
-- The message types of internal/protocol/types.go.
use talka.Prelude.Bytes.{codes}
use talka.Protocol.{MessageType}

abbrev pub client_hello : MessageType
client_hello = codes "client_hello"

abbrev pub server_hello : MessageType
server_hello = codes "server_hello"

abbrev pub pairing_confirm : MessageType
pairing_confirm = codes "pairing_confirm"

abbrev pub session_resume : MessageType
session_resume = codes "session_resume"

abbrev pub audio_start : MessageType
audio_start = codes "audio_start"

abbrev pub audio_frame : MessageType
audio_frame = codes "audio_frame"

abbrev pub audio_stop : MessageType
audio_stop = codes "audio_stop"

abbrev pub audio_cancel : MessageType
audio_cancel = codes "audio_cancel"

abbrev pub key_press : MessageType
key_press = codes "key_press"

abbrev pub asr_partial : MessageType
asr_partial = codes "asr_partial"

abbrev pub asr_final : MessageType
asr_final = codes "asr_final"

abbrev pub text_final : MessageType
text_final = codes "text_final"

abbrev pub error : MessageType
error = codes "error"

abbrev pub ping : MessageType
ping = codes "ping"
