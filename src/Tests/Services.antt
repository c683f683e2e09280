-- ===== src/Tests/Services.antt =====
-- Runs of the parts around a dictation: internal/asr/client.go with fake_runtime.go, internal/mdns,
-- internal/config and internal/app/production_pipeline.go.
use talka.Prelude.{
  Result, ℕ, ◌≡◌, ◌↔◌, refl, Bool, true, false, none, some, List, [], ◌∷◌, ◌++◌, ok, arith, length,
  ◌≤◌,
}
use talka.Prelude.Int.{ℤ, pos}
use talka.Prelude.Bytes.{Bytes, codes}
use talka.Prelude.Text.{trim_space, to_lower}
use talka.Protocol.{version_v1_alpha1, AsrPartial}
use talka.Protocol.Codec.{validate_audio_metadata}
use talka.Protocol.Errors
use talka.Asr.Client
use talka.Asr.Client.{Conn, StreamResult, hello_message, start_message, stop_message}
use talka.Asr.Client.Calls.{transcribe}
use talka.Asr.Client.Sent.{frames_after, transcribe-sent}
use talka.Asr.FakeRuntime.{StreamState, new_session}
use talka.Asr.FakeRuntime.Serves.{fake_peer, heard, EachBytes, transcribe-served}
use talka.Asr.FakeRuntime.{fake_final_for_frames}
use talka.Asr.Provider.{AsrResult, sidecar_transcribe, sidecar_transcribe-served}
use talka.Asr.RuntimeSupport.{
  BoundedLogBuffer, write_all, written, last_bytes, write_all-last_bytes,
}
use talka.Mdns
use talka.Mdns.{
  Descriptor, new_descriptor, with_pairing, txt_records, validate_txt, pairing_required,
  pairing_paired,
}
use talka.Mdns.Announced.{Built, begins, changes, validate_txt-Built}
use talka.Mdns.Publisher.{
  Action, System, Run, start_called, stop_called, stop_ends, here, next, no_calls, start,
  run_process, take_process, kill_process, arguments,
}
use talka.Mdns.Publisher.Balanced.{Follows, run-Follows}
use talka.Config
use talka.Config.{default, Stat, validate}
use talka.Config.Files.{Files, save, write_config}
use talka.Config.Files.Saved.{FilesLaws}
use talka.App.Build.{
  ModelFiles, is_ok, new_pipeline_from_config, Supported, new_pipeline_from_config_iff,
}
use talka.Session.{EncryptedMessage}
use talka.Protocol.Types
use talka.App.Streaming.{ReadEnd}
use talka.App.Buffering.{complete, buffer_messages}
use talka.App.Buffering.Bounded.{StopsAtEnd, buffer_messages_bounded}
use talka.App.Audio.Wire.{ios_web_socket_can_buffer}
use talka.Tests.{metadata, first_message}

abbrev same : Bytes → Bytes
same s = s

abbrev no_text : Errors.Error → Bytes
no_text e = []

abbrev always : ℕ → Bool
always e = true

abbrev client_config : Client.Config
client_config = record { url = []; version = version_v1_alpha1; timeout = pos 1 }

abbrev two_frames : List Bytes
two_frames = (5 ∷ 6 ∷ []) ∷ (7 ∷ []) ∷ []

two_frames-EachBytes : EachBytes no_text 0 1 always two_frames
two_frames-EachBytes = ((omega arith, (omega arith, tt)), ((omega arith, tt), tt))

abbrev fresh : Conn StreamState ℕ
fresh = record { peer = new_session true; incoming = []; sent = [] }

metadata_valid : validate_audio_metadata metadata ≡ ok tt
unfolding validate_audio_metadata
metadata_valid = refl

served :
    (partials : List AsrPartial) × ((transcribe
        (fake_peer no_text 0 1 always)
        client_config
        metadata
        two_frames
        fresh).1
      ≡ ok (heard 2 partials))
served =
    transcribe-served no_text 0 1 always client_config metadata two_frames refl refl metadata_valid
      (omega arith) two_frames-EachBytes

transcribe-sent_example :
    (transcribe (fake_peer no_text 0 1 always) client_config metadata two_frames fresh).0.sent
    ≡ hello_message version_v1_alpha1
      ∷ start_message version_v1_alpha1 metadata
      ∷ (frames_after version_v1_alpha1 0 two_frames ++ stop_message version_v1_alpha1 (pos 2) ∷ [])
transcribe-sent_example =
    transcribe-sent (fake_peer no_text 0 1 always) client_config metadata two_frames fresh
      (heard 2 served.0) refl served.1

abbrev laptop : Descriptor
laptop = record {
  service_type = codes "_talka._tcp";
  device_name = codes "My Mac";
  pairing = pairing_required;
}

abbrev paired_laptop : Descriptor
paired_laptop = record laptop { pairing = pairing_paired }

laptop_begins : new_descriptor same (codes "My Mac") pairing_required ≡ ok laptop
unfolding new_descriptor Mdns.validate_device_name trim_space to_lower Mdns.check_characters
    Mdns.validate_pairing_state
laptop_begins = refl

laptop_pairs : with_pairing pairing_paired laptop ≡ ok paired_laptop
unfolding with_pairing Mdns.validate_pairing_state
laptop_pairs = refl

paired_laptop-Built : Built same paired_laptop
paired_laptop-Built =
    changes pairing_paired laptop paired_laptop
      (begins (codes "My Mac") pairing_required laptop laptop_begins) laptop_pairs

validate_txt-Built_example : validate_txt same (txt_records paired_laptop) ≡ ok tt
validate_txt-Built_example = validate_txt-Built same paired_laptop paired_laptop-Built

abbrev numeral : ℤ → Bytes
numeral n = codes "1"

-- A process is started; `Stop` takes it; another is started before the first is killed, which fails.
abbrev announced : List Action
announced =
    Action.starts 7 (arguments same numeral laptop (pos 1))
    ∷ Action.takes 7
    ∷ Action.starts 8 (arguments same numeral laptop (pos 1))
    ∷ Action.kills 7 (some (codes "no such process"))
    ∷ []

abbrev running : System
running = record { publisher = record { process = some 8; started = true }; stopping = [] }

calls : Run same numeral no_calls announced running
unfolding start run_process take_process kill_process validate_txt txt_records Mdns.entry_value
    Mdns.validate_device_name trim_space to_lower Mdns.check_characters Mdns.validate_pairing_state
calls =
    next
      (next (next (next here (start_called false laptop (pos 1) (ok 7))) stop_called)
        (start_called false laptop (pos 1) (ok 8)))
      (stop_ends [] [] 7 (some (codes "no such process")) none refl)

run-Follows_example : Follows no_calls announced running
run-Follows_example = run-Follows same numeral calls refl

-- The world is the text of the file.
abbrev files : Files Bytes ℕ
files = record {
  stat = λ w p. Stat.found;
  read_file = λ w p. ok w;
  mkdir_all = λ d w. (w, none);
  write_file = λ p text w. (text, none);
  decode = λ text c. ok default;
  encode = λ c. ok (codes "{}");
}

files_laws : FilesLaws files default
files_laws = record {
  mkdir_keeps = λ d p w e. refl;
  write_keeps = λ q text p w e. refl;
  reads_back = λ q text w e. refl;
  decodes_back = λ text e. refl;
}

default_saved : (save same files (codes "/c.yaml") default []).1 ≡ none
unfolding save validate trim_space Config.validate_asr Config.normalize_asr_provider to_lower
    Config.validate_provider Config.validate_sherpa_onnx Config.model_type_of Config.validate_path
    Config.must_exist Config.validate_llm write_config
default_saved = refl

abbrev all_found : Bytes → Stat
all_found p = Stat.found

default_valid : validate same all_found default (codes ".") ≡ []
unfolding validate trim_space Config.validate_asr Config.normalize_asr_provider to_lower
    Config.validate_provider Config.validate_sherpa_onnx Config.model_type_of Config.validate_path
    Config.must_exist Config.validate_llm
default_valid = refl

abbrev parts_of : ModelFiles → Result Bytes ℕ
parts_of m = ok 0

abbrev injector_of : Bool → Bool
injector_of restore = restore

new_pipeline_from_config_iff_example :
    (is_ok (new_pipeline_from_config same parts_of injector_of default (codes ".")) ≡ true)
    ↔ Supported same parts_of injector_of default (codes ".")
new_pipeline_from_config_iff_example =
    new_pipeline_from_config_iff same parts_of injector_of all_found default (codes ".")
      default_valid

sidecar_transcribe-served_example :
    (r : AsrResult) × ((sidecar_transcribe
        (fake_peer no_text 0 1 always)
        client_config
        metadata
        two_frames
        fresh).1
      ≡ ok r)
    × (r.transcript ≡ fake_final_for_frames (pos 2))
sidecar_transcribe-served_example =
    sidecar_transcribe-served no_text 0 1 always client_config metadata two_frames refl refl
      metadata_valid (omega arith) two_frames-EachBytes

abbrev start_of : EncryptedMessage
start_of = record first_message { type = Types.audio_start }

abbrev stop_of : EncryptedMessage
stop_of = record first_message { type = Types.audio_stop }

buffered :
    buffer_messages (start_of ∷ []) start_of (stop_of ∷ start_of ∷ []) ReadEnd.close_frame
    ≡ complete (start_of ∷ stop_of ∷ [])
unfolding buffer_messages ios_web_socket_can_buffer
buffered = refl

buffer_messages_bounded_example :
    (used : List EncryptedMessage) × (left : List EncryptedMessage) × (stop_of ∷ start_of ∷ []
      ≡ used ++ left)
    × (start_of ∷ stop_of ∷ [] ≡ start_of ∷ used)
    × (length (start_of ∷ stop_of ∷ []) ≤ 10000)
    × StopsAtEnd (start_of ∷ used)
buffer_messages_bounded_example =
    buffer_messages_bounded start_of (stop_of ∷ start_of ∷ []) (start_of ∷ stop_of ∷ [])
      ReadEnd.close_frame buffered

abbrev small_buffer : BoundedLogBuffer
small_buffer = record { max_bytes = 3; buffer = [] }

write_all-last_bytes_example :
    (write_all (codes "ab" ∷ codes "cd" ∷ []) small_buffer).buffer
    ≡ last_bytes 3 (written (codes "ab" ∷ codes "cd" ∷ []))
write_all-last_bytes_example =
    write_all-last_bytes (codes "ab" ∷ codes "cd" ∷ []) small_buffer [] refl
