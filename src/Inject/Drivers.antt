-- ===== src/Inject/Drivers.antt =====
-- The drivers of internal/inject/macos.go that run programs of the Mac, and the answers of the paste
-- broker (internal/inject/broker.go). How a program runs, and what a broker answers, is a parameter.
use talka.Prelude.{
  Bool, true, false, ◌||◌, Option, none, some, List, [], ◌∷◌, ◌++◌, Result, ok, err, ◌>>=◌,
  if◌then◌else◌,
}
use talka.Prelude.Bytes.{Bytes, codes, is_empty, bytes_eq}
use talka.Prelude.Text.{trim_space, to_lower, contains, has_prefix, join_with}
use talka.Inject.{Key, KeyModifier, KeyPressRequest, PasteDriver}

-- `X` is the errors of what is called; the literal prefix of an error's text is left out.
pub data DriverError (X : Type 0) : Type 0 where
  accessibility_permission_denied : Bytes → DriverError X
  command_failed : X → Bytes → DriverError X
  unsupported_key : Key → DriverError X
  unsupported_modifier : KeyModifier → DriverError X
  broker_returned : Bytes → DriverError X
  not_configured : DriverError X

-- `errors.Is(err, ErrAccessibilityPermissionDenied)`.
abbrev pub permission_denied : {X : Type 0} → DriverError X → Bool
permission_denied (DriverError.accessibility_permission_denied said) = true
permission_denied e = false

entries_without : Bytes → List Bytes → List Bytes
entries_without prefix [] = []
entries_without prefix (item ∷ env) =
    let rest = entries_without prefix env in if has_prefix item prefix then rest else item ∷ rest

-- `appendLocale`.
unfoldable pub append_locale : List Bytes → Bytes → Bytes → List Bytes
unfolding entries_without
append_locale env key value =
    let prefix = key ++ codes "=" in entries_without prefix env ++ (prefix ++ value) ∷ []

-- `forceUTF8Locale`.
unfoldable pub force_utf8_locale : List Bytes → List Bytes
force_utf8_locale env =
    append_locale (append_locale env (codes "LANG") (codes "en_US.UTF-8")) (codes "LC_CTYPE")
      (codes "en_US.UTF-8")

abbrev modifier_words : {X : Type 0} → List KeyModifier → Result (DriverError X) (List Bytes)
modifier_words [] = ok []
modifier_words (KeyModifier.command ∷ ms) = do
  ws ← modifier_words ms
  ok (codes "command down" ∷ ws)
modifier_words (KeyModifier.alt ∷ ms) = do ws ← modifier_words ms; ok (codes "option down" ∷ ws)
modifier_words (KeyModifier.shift ∷ ms) = do ws ← modifier_words ms; ok (codes "shift down" ∷ ws)
modifier_words (KeyModifier.other_modifier m ∷ ms) =
    err (DriverError.unsupported_modifier (KeyModifier.other_modifier m))

abbrev using_modifiers : List Bytes → Bytes
using_modifiers [] = []
using_modifiers (w ∷ ws) = codes " using {" ++ join_with (codes ", ") (w ∷ ws) ++ codes "}"

-- The script of `appleScriptPasteDriver.KeyPress`.
unfoldable pub key_press_script : {X : Type 0} → KeyPressRequest → Result (DriverError X) Bytes
key_press_script r = elim r.key [
  | Key.other_key k ↦ err (DriverError.unsupported_key (Key.other_key k))
  | Key.enter ↦ do
    ws ← modifier_words r.modifiers
    ok (codes "tell application \"System Events\" to key code 36" ++ using_modifiers ws)
]

-- `run` runs a script with `osascript`: its output, and the error if it fails. `unicode` is
-- `strings.ToLower` on what is not all ASCII.
module _ {W X : Type 0} (run : Bytes → W → W × Bytes × Option X) (unicode : Bytes → Bytes) where
  unfoldable pub refused_by_macos : Bytes → Bool
  refused_by_macos output =
      let lower = to_lower unicode output in
      contains lower (codes "assistive access")
      || contains lower (codes "not authorized to send apple events")
      || contains lower (codes "not authorised to send apple events")
      || contains lower (codes "-1743")

  unfoldable pub run_script : Bytes → W → W × Option (DriverError X)
  unfolding refused_by_macos
  run_script script w =
      let (w', output, failed) = run script w in
      elim failed [
        | none ↦ (w', none)
        | some e ↦ (
          w',
          some (
              if refused_by_macos output
              then DriverError.accessibility_permission_denied (trim_space output)
              else DriverError.command_failed e (trim_space output)),
        )
      ]

  -- `appleScriptPasteDriver.KeyPress`.
  unfoldable pub apple_script_key_press : KeyPressRequest → W → W × Option (DriverError X)
  apple_script_key_press r w = elim (key_press_script r) [
    | err e ↦ (w, some e)
    | ok script ↦ run_script script w
  ]

  -- `appleScriptPasteDriver`, which has no preflight.
  unfoldable pub apple_script_paste_driver : PasteDriver W (DriverError X)
  apple_script_paste_driver = record {
    paste =
        run_script
          (codes "tell application \"System Events\" to keystroke \"v\" using command down");
    preflight = none;
    key_press = some apple_script_key_press;
  }

-- The answer of the broker's socket, at the end of `requestEnvelope`.
unfoldable pub broker_answer : {X : Type 0} → Bool → Bytes → Option (DriverError X)
broker_answer true error = none
broker_answer false error =
    if bytes_eq error (codes "accessibility_missing")
    then some (DriverError.accessibility_permission_denied error)
    else some
        (DriverError.broker_returned (if is_empty error then codes "unknown_error" else error))
