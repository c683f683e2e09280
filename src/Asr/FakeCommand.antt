-- ===== src/Asr/FakeCommand.antt =====
-- cmd/talka-fake-asr/main.go: the command that checks a fake recogniser. `strconv.Atoi`, the reading of
-- a file and the connection that each call of the client dials are parameters; `serve` runs the
-- server of Asr/FakeRuntime until it is told to stop, and is left out with what
-- goes to standard error.
use talka.Prelude.{
  Bool, true, false, not, ◌&&◌, ◌||◌, Option, none, some, List, [], ◌∷◌, ◌++◌, Result, ok, err,
  if◌then◌else◌,
}
use talka.Prelude.Int.{ℤ, pos, ◌==ℤ◌}
use talka.Prelude.Bytes.{Bytes, codes, is_empty, bytes_eq}
use talka.Prelude.Text.{trim_space}
use talka.Protocol.{
  version_v1_alpha1, encoding_pcm_s16le, AudioMetadata, AsrPartial, AsrFinal, TextFinal, ErrorCode,
}
use talka.Protocol.Codes
use talka.Asr.Client.{Config, StreamResult, Error, Peer, Conn, new_client}
use talka.Asr.Client.Calls.{health_check, transcribe}
use talka.Asr.FakeRuntime.{hello_text, hello_world_text}
use talka.Asr.Split.{split_pcm_frames}

pub data CommandError (E : Type 0) : Type 0 where
  fixture_required invalid_metadata_accepted : CommandError E
  value_required unknown_argument not_an_integer : Bytes → CommandError E
  unreadable : Bytes → CommandError E
  partials_changed final_changed text_final_changed : CommandError E
  client_error : Error E → CommandError E
  unexpected_code : ErrorCode → CommandError E

pub record Options : Type 0 where
  pub url : Bytes
  pub fixture : Bytes
  pub sample_rate : ℤ

abbrev default_options : Options
default_options = record {
  url = codes "ws://127.0.0.1:19080/ws";
  fixture = [];
  sample_rate = pos 16000;
}

-- `isHelpArg`.
abbrev is_help_arg : Bytes → Bool
is_help_arg arg = bytes_eq arg (codes "--help") || bytes_eq arg (codes "-h")

abbrev asks_for_help : List Bytes → Bool
asks_for_help [] = false
asks_for_help (arg ∷ args) = is_help_arg arg

-- `validateDeterministicOutputs`.
abbrev partials_expected : List AsrPartial → Bool
partials_expected (p ∷ q ∷ []) = bytes_eq p.text hello_text && bytes_eq q.text hello_world_text
partials_expected other = false

abbrev finals_expected : List AsrFinal → Bool
finals_expected (f ∷ []) = bytes_eq f.text hello_world_text
finals_expected other = false

abbrev text_expected : Option TextFinal → Bool
text_expected none = false
text_expected (some t) = bytes_eq t.text hello_world_text

unfoldable pub validate_deterministic_outputs :
    {E : Type 0} → StreamResult → Option (CommandError E)
validate_deterministic_outputs r =
    if not (partials_expected r.partials)
    then some CommandError.partials_changed
    else if not (finals_expected r.finals)
    then some CommandError.final_changed
    else if not (text_expected r.text_final)
    then some CommandError.text_final_changed
    else none

-- `talka-fake-asr` and its subcommands on standard output: the lines, and the error. A usage text
-- stands for itself.
pub data Line : Type 0 where
  usage health_ready text_final_line : Bytes → Line
  partial_line final_line : ℤ → Bytes → Line
  error_line : ErrorCode → Bytes → Line

abbrev partial_lines : List AsrPartial → List Line
partial_lines [] = []
partial_lines (p ∷ ps) = Line.partial_line p.segment_index p.text ∷ partial_lines ps

abbrev final_lines : List AsrFinal → List Line
final_lines [] = []
final_lines (f ∷ fs) = Line.final_line f.segment_index f.text ∷ final_lines fs

abbrev text_line : Option TextFinal → Line
text_line none = Line.text_final_line []
text_line (some t) = Line.text_final_line t.text

-- What is printed of a result.
unfoldable pub result_lines : StreamResult → List Line
result_lines r = partial_lines r.partials ++ (final_lines r.finals ++ text_line r.text_final ∷ [])

-- The flags of `smoke`.
abbrev is_flag : Bytes → Bool
is_flag flag =
    bytes_eq flag (codes "--url")
    || bytes_eq flag (codes "--fixture")
    || bytes_eq flag (codes "--sample-rate")

module _ {E : Type 0} (atoi : Bytes → Option ℤ) where
  -- A flag of `smoke` with its value.
  unfoldable pub set_option : Bytes → Bytes → Options → Result (CommandError E) Options
  set_option flag value o =
      if bytes_eq flag (codes "--url")
      then ok (record o { url = value })
      else if bytes_eq flag (codes "--fixture")
      then ok (record o { fixture = value })
      else if bytes_eq flag (codes "--sample-rate")
      then (elim (atoi value) [
        | none ↦ err (CommandError.not_an_integer value)
        | some n ↦ ok (record o { sample_rate = n })
      ])
      else err (CommandError.unknown_argument flag)

  -- The loop over the arguments of `smoke`.
  unfoldable pub smoke_options : Options → List Bytes → Result (CommandError E) Options
  smoke_options o [] = ok o
  smoke_options o (flag ∷ []) = err (
      if is_flag flag then CommandError.value_required flag else CommandError.unknown_argument flag)
  smoke_options o (flag ∷ value ∷ rest) = elim (set_option flag value o) [
    | err e ↦ err e
    | ok o' ↦ smoke_options o' rest
  ]

-- The loop over the arguments of `health`.
unfoldable pub health_url : {E : Type 0} → Bytes → List Bytes → Result (CommandError E) Bytes
health_url url [] = ok url
health_url url (flag ∷ []) = err (
    if bytes_eq flag (codes "--url")
    then CommandError.value_required flag
    else CommandError.unknown_argument flag)
health_url url (flag ∷ value ∷ rest) = elim (bytes_eq flag (codes "--url")) [
  | true ↦ health_url value rest
  | false ↦ err (CommandError.unknown_argument flag)
]

-- The metadata of `smoke`.
unfoldable pub smoke_metadata : ℤ → AudioMetadata
smoke_metadata rate = record {
  sample_rate = rate;
  channels = pos 1;
  encoding = encoding_pcm_s16le;
  frame_duration_ms = pos 20;
  language = codes "zh-CN";
}

-- `code_of` and `text_of` are `protocol.ErrorCodeOf` and `Error` of an error of the client, `fresh` is
-- a connection that was just dialled.
module _ {R E : Type 0} (peer : Peer R E) (fresh : Conn R E) (code_of : Error E → ErrorCode)
    (text_of : Error E → Bytes) where
  abbrev client : Bytes → Config
  client url =
      new_client (record { url = url; version = version_v1_alpha1; timeout = pos 2_000_000_000 })

  abbrev told : Error E → Line
  told e = Line.error_line (code_of e) (trim_space (text_of e))

  unfoldable pub run_health : List Bytes → List Line × Option (CommandError E)
  run_health args = elim (asks_for_help args) [
    | true ↦ (Line.usage (codes "health") ∷ [], none)
    | false ↦ elim (health_url {E = E} (default_options.url) args) [
      | err e ↦ ([], some e)
      | ok url ↦ elim (health_check peer (client url) fresh).1 [
        | some e ↦ ([], some (CommandError.client_error e))
        | none ↦ (Line.health_ready url ∷ [], none)
      ]
    ]
  ]

  -- The second transcription of `smoke`, whose encoding is not supported, after what was printed.
  unfoldable pub check_refusal :
      Bytes → AudioMetadata → List Bytes → List Line → List Line × Option (CommandError E)
  check_refusal url metadata frames printed =
      elim (transcribe peer (client url) (record metadata { encoding = codes "opus" }) frames
        fresh).1 [
          | ok r ↦ (printed, some CommandError.invalid_metadata_accepted)
          | err e ↦
              if bytes_eq (code_of e) Codes.unsupported_encoding
              then (printed ++ told e ∷ [], none)
              else (printed, some (CommandError.unexpected_code (code_of e)))
        ]

  -- `smoke` on the file's bytes.
  unfoldable pub smoke : Options → Bytes → List Line × Option (CommandError E)
  smoke o pcm =
      let frames = split_pcm_frames pcm (pos 640) in
      let metadata = smoke_metadata o.sample_rate in
      elim (health_check peer (client o.url) fresh).1 [
        | some e ↦ ([], some (CommandError.client_error e))
        | none ↦ elim (transcribe peer (client o.url) metadata frames fresh).1 [
          | err e ↦
              if not (o.sample_rate ==ℤ pos 16000)
              then (told e ∷ [], none)
              else ([], some (CommandError.client_error e))
          | ok r ↦ elim (validate_deterministic_outputs {E = E} r) [
            | some changed ↦ ([], some changed)
            | none ↦ check_refusal o.url metadata frames (result_lines r)
          ]
        ]
      ]

  unfoldable pub run_smoke :
      (Bytes → Option ℤ) → (Bytes → Option Bytes) → List Bytes → List Line × Option (CommandError E)
  run_smoke atoi read_file args = elim (asks_for_help args) [
    | true ↦ (Line.usage (codes "smoke") ∷ [], none)
    | false ↦ elim (smoke_options {E = E} atoi default_options args) [
      | err e ↦ ([], some e)
      | ok o ↦ elim (is_empty o.fixture) [
        | true ↦ ([], some CommandError.fixture_required)
        | false ↦ elim (read_file o.fixture) [
          | none ↦ ([], some (CommandError.unreadable o.fixture))
          | some pcm ↦ smoke o pcm
        ]
      ]
    ]
  ]
