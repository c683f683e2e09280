-- ===== src/Mdns.antt =====
-- internal/mdns: the announcement of the server on the local network.
pub mod Announced
pub mod Publisher
use talka.Prelude.{
  ℕ, zero, suc, ◌+◌, Bool, true, false, not, ◌&&◌, ◌||◌, Option, none, some, List, [], ◌∷◌, ◌++◌,
  Result, ok, err, ◌>>=◌, ◌>>◌, guard, or_fail, length, leb, ltb, ◌==◌, if◌then◌else◌,
}
use talka.Prelude.Bytes.{Bytes, codes, bytes_eq, is_empty}
use talka.Prelude.Text.{trim_space, to_lower, contains}

abbrev pub service_type : Bytes
service_type = codes "_talka._tcp"

abbrev pub protocol_version : Bytes
protocol_version = codes "1"

abbrev pub protocol_name : Bytes
protocol_name = codes "talka-stream-v1"

abbrev pub PairingState : Type 0
PairingState = Bytes

abbrev pub pairing_required : PairingState
pairing_required = codes "required"

abbrev pub pairing_paired : PairingState
pairing_paired = codes "paired"

pub record Descriptor : Type 0 where
  pub service_type : Bytes
  pub device_name : Bytes
  pub pairing : PairingState

pub data Error : Type 0 where
  name_required name_with_space invalid_character control_character bad_pairing_state : Error
  secret_like_term : Bytes → Error
  not_four_entries wrong_version wrong_protocol : Error
  not_key_value wrong_key : ℕ → Error

abbrev forbidden_terms : List Bytes
forbidden_terms =
    codes "pin"
    ∷ codes "key"
    ∷ codes "token"
    ∷ codes "session"
    ∷ codes "audio"
    ∷ codes "transcript"
    ∷ codes "challenge"
    ∷ []

abbrev check_terms : Bytes → List Bytes → Result Error (Unit {0})
check_terms lower [] = ok tt
check_terms lower (term ∷ terms) =
    if contains lower term then err (Error.secret_like_term term) else check_terms lower terms

abbrev c1_control : Bytes → Bool
c1_control [] = false
c1_control (b ∷ rest) = leb 128 b && leb b 159

-- The loop over the characters: '=', NUL, line feed, carriage return and tab, and then what
-- `unicode.IsControl` holds of, which is U+0000 to U+001F and U+007F to U+009F. Of the last, those
-- from U+0080 on are the byte 194 and the byte of their number.
unfoldable pub check_characters : Bytes → Result Error (Unit {0})
check_characters [] = ok tt
check_characters (a ∷ rest) =
    let checked = check_characters rest in
    if a == 61 || a == 0 || a == 10 || a == 13 || a == 9
    then err Error.invalid_character
    else if ltb a 32 || a == 127 || a == 194 && c1_control rest
    then err Error.control_character
    else checked

-- `ValidateDeviceName`; `unicode` is `strings.ToLower` on what is not all ASCII.
module _ (unicode : Bytes → Bytes) where
  unfoldable pub validate_device_name : Bytes → Result Error (Unit {0})
  validate_device_name name = do
    guard (not (is_empty (trim_space name))) Error.name_required
    guard (bytes_eq (trim_space name) name) Error.name_with_space
    check_terms (to_lower unicode name) forbidden_terms
    check_characters name

unfoldable pub validate_pairing_state : PairingState → Result Error (Unit {0})
validate_pairing_state s =
    guard (bytes_eq s pairing_required || bytes_eq s pairing_paired) Error.bad_pairing_state

module _ (unicode : Bytes → Bytes) where
  unfoldable pub new_descriptor : Bytes → PairingState → Result Error Descriptor
  new_descriptor name pairing = do
    validate_device_name unicode name
    validate_pairing_state pairing
    ok (record { service_type = service_type; device_name = name; pairing = pairing })

-- `TXTRecords`.
unfoldable pub txt_records : Descriptor → List Bytes
txt_records d =
    (codes "version=" ++ protocol_version)
    ∷ (codes "device_name=" ++ d.device_name)
    ∷ (codes "protocol=" ++ protocol_name)
    ∷ (codes "pairing=" ++ d.pairing)
    ∷ []

unfoldable pub with_pairing : PairingState → Descriptor → Result Error Descriptor
with_pairing pairing d = do validate_pairing_state pairing; ok (record d { pairing = pairing })

-- `strings.Cut(entry, "=")`.
abbrev cut_from : Bytes → Bytes → Option (Bytes × Bytes)
cut_from before [] = none
cut_from before (c ∷ rest) =
    if c == 61 then some (before, rest) else cut_from (before ++ c ∷ []) rest

-- A round of the loop of `ValidateTXT`: the value of the entry with the wanted key.
unfoldable pub entry_value : ℕ → Bytes → Bytes → Result Error Bytes
entry_value i want entry = do
  (key, value) ← or_fail (cut_from [] entry) (Error.not_key_value i)
  guard (not (is_empty key)) (Error.not_key_value i)
  guard (bytes_eq key want) (Error.wrong_key i)
  ok value

-- `ValidateTXT`, whose loop is written out over the four keys.
module _ (unicode : Bytes → Bytes) where
  unfoldable pub validate_txt : List Bytes → Result Error (Unit {0})
  validate_txt (a ∷ b ∷ c ∷ d ∷ []) = do
    version ← entry_value 0 (codes "version") a
    guard (bytes_eq version protocol_version) Error.wrong_version
    name ← entry_value 1 (codes "device_name") b
    validate_device_name unicode name
    protocol ← entry_value 2 (codes "protocol") c
    guard (bytes_eq protocol protocol_name) Error.wrong_protocol
    pairing ← entry_value 3 (codes "pairing") d
    validate_pairing_state pairing
  validate_txt entries = err Error.not_four_entries
