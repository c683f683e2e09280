-- ===== src/Inject.antt =====
-- internal/inject/macos.go and fake.go: the insertion of a text by way of the clipboard. The world
-- `W` is the Mac's and `E` the errors of the drivers; a context is part of the world.
pub mod Laws
pub mod Drivers
pub mod Brokers
use talka.Prelude.{
  ℕ, Bool, true, false, Option, none, some, List, [], Result, ok, err, if◌then◌else◌,
}
use talka.Prelude.Int.{ℤ, is_positive, pos_part}
use talka.Prelude.Bytes.{Bytes, codes, bytes_eq}

abbrev macos_paste_target : Bytes
macos_paste_target = codes "macos_clipboard_paste"

abbrev clipboard_restore_warning_code : Bytes
clipboard_restore_warning_code = codes "clipboard_restore_failed"

abbrev accessibility_recovery_message : Bytes
accessibility_recovery_message =
    codes "Talka needs Accessibility or Automation permission before it can paste into other apps."

abbrev paste_failure_recovery_message : Bytes
paste_failure_recovery_message = codes "Talka could not paste the final text into the active app."

abbrev clipboard_read_failure_message : Bytes
clipboard_read_failure_message = codes "Talka could not read the current clipboard before paste."

abbrev clipboard_write_failure_message : Bytes
clipboard_write_failure_message =
    codes "Talka could not write the final text to the clipboard for paste."

abbrev clipboard_restore_warning_message : Bytes
clipboard_restore_warning_message =
    codes "Talka pasted successfully but could not restore the prior clipboard."

pub data FailureCode : Type 0 where
  accessibility_missing paste_failed clipboard_read_failed clipboard_write_failed : FailureCode

pub data RecoveryAction : Type 0 where
  open_accessibility_guidance copy_failed_text : RecoveryAction

pub record Recovery : Type 0 where
  pub action : RecoveryAction
  pub failed_text : Bytes
  pub volatile : Bool

pub record InsertError (E : Type 0) : Type 0 where
  pub code : FailureCode
  pub user_message : Bytes
  pub recovery : Recovery
  pub cause : E

-- `unset` is the empty string.
pub data RestoreStatus : Type 0 where
  unset disabled restored skipped_changed restore_failed : RestoreStatus

pub record Receipt : Type 0 where
  pub target : Bytes
  pub status : Bytes
  pub restore_status : RestoreStatus
  pub warning_code : Bytes
  pub warning_message : Bytes

-- `KeyEnter` or another key.
pub data Key : Type 0 where
  enter : Key
  other_key : Bytes → Key

pub data KeyModifier : Type 0 where
  command alt shift : KeyModifier
  other_modifier : Bytes → KeyModifier

pub record KeyPressRequest : Type 0 where
  pub key : Key
  pub modifiers : List KeyModifier

pub record Clipboard (W E : Type 0) : Type 0 where
  pub read : W → W × Result E Bytes
  pub write : Bytes → W → W × Option E

-- The optional methods are those of `PastePreflightDriver` and `KeyPressDriver`.
pub record PasteDriver (W E : Type 0) : Type 0 where
  pub paste : W → W × Option E
  pub preflight : Option (W → W × Option E)
  pub key_press : Option (KeyPressRequest → W → W × Option E)

-- A delay is in milliseconds.
pub record MacOsPasteOptions (W E : Type 0) : Type 0 where
  pub clipboard : Option (Clipboard W E)
  pub paste_driver : Option (PasteDriver W E)
  pub restore_clipboard : Bool
  pub restore_delay : ℤ
  pub waiter : Option (ℕ → W → W × Option E)

pub record MacOsPasteInjector (W E : Type 0) : Type 0 where
  pub clipboard : Clipboard W E
  pub paste_driver : PasteDriver W E
  pub restore_clipboard : Bool
  pub restore_delay : ℕ
  pub waiter : ℕ → W → W × Option E

abbrev pub or_default {ℓ} : {A : Type ℓ} → Option A → A → A
or_default none d = d
or_default (some a) d = a

module _ {W E : Type 0} where
  unfoldable pub new_macos_paste_injector :
      Clipboard W E
      → PasteDriver W E
      → (ℕ → W → W × Option E)
      → MacOsPasteOptions W E
      → MacOsPasteInjector W E
  new_macos_paste_injector system default_driver sleep options = record {
    clipboard = or_default options.clipboard system;
    paste_driver = or_default options.paste_driver default_driver;
    restore_clipboard = options.restore_clipboard;
    restore_delay =
        if is_positive options.restore_delay then pos_part options.restore_delay else 150;
    waiter = or_default options.waiter sleep;
  }

abbrev pub failure : {E : Type 0} → FailureCode → Bytes → RecoveryAction → Bytes → E → InsertError E
failure code message action text cause = record {
  code = code;
  user_message = message;
  recovery = record { action = action; failed_text = text; volatile = true };
  cause = cause;
}

abbrev pub inserted_receipt : RestoreStatus → Receipt
inserted_receipt s = record {
  target = macos_paste_target;
  status = codes "inserted";
  restore_status = s;
  warning_code = [];
  warning_message = [];
}

abbrev pub receipt_of_failed_restore : Receipt
receipt_of_failed_restore = record (inserted_receipt RestoreStatus.restore_failed) {
  warning_code = clipboard_restore_warning_code;
  warning_message = clipboard_restore_warning_message;
}

-- `permission_denied` is the test `errors.Is(err, ErrAccessibilityPermissionDenied)`.
module _ {E : Type 0} (permission_denied : E → Bool) where
  unfoldable pub insert_error_for_paste_failure : E → Bytes → InsertError E
  insert_error_for_paste_failure e text =
      if permission_denied e
      then failure FailureCode.accessibility_missing accessibility_recovery_message
          RecoveryAction.open_accessibility_guidance text e
      else failure FailureCode.paste_failed paste_failure_recovery_message
          RecoveryAction.copy_failed_text text e

module _ {W E : Type 0} (permission_denied : E → Bool) where
  -- The end of `Insert`, from the second read of the clipboard on.
  unfoldable pub restore : MacOsPasteInjector W E → Bytes → Bytes → W → W × Receipt
  restore i original text w =
      let (w', r) = i.clipboard.read w in
      elim r [
        | err e ↦ (w', receipt_of_failed_restore)
        | ok current ↦ elim (bytes_eq current text) [
          | false ↦ (w', inserted_receipt RestoreStatus.skipped_changed)
          | true ↦
              let (w'', failed) = i.clipboard.write original w' in
              elim failed [
                | some e ↦ (w'', receipt_of_failed_restore)
                | none ↦ (w'', inserted_receipt RestoreStatus.restored)
              ]
        ]
      ]

  -- From the paste on.
  unfoldable pub paste_text :
      MacOsPasteInjector W E → Bytes → Bytes → W → W × Result (InsertError E) Receipt
  paste_text i original text w =
      let (w', failed) = i.paste_driver.paste w in
      elim failed [
        | some e ↦ (w', err (insert_error_for_paste_failure permission_denied e text))
        | none ↦ elim i.restore_clipboard [
          | false ↦ (w', ok (inserted_receipt RestoreStatus.disabled))
          | true ↦
              let (w'', stopped) = i.waiter i.restore_delay w' in
              elim stopped [
                | some e ↦ (w'', ok (inserted_receipt RestoreStatus.unset))
                | none ↦ let (w3, r) = restore i original text w'' in (w3, ok r)
              ]
        ]
      ]

  -- From the first read of the clipboard on.
  unfoldable pub copy_and_paste :
      MacOsPasteInjector W E → Bytes → W → W × Result (InsertError E) Receipt
  copy_and_paste i text w =
      let (w', r) = i.clipboard.read w in
      elim r [
        | err e ↦ (
          w',
          err (
              failure FailureCode.clipboard_read_failed clipboard_read_failure_message
                RecoveryAction.copy_failed_text text e),
        )
        | ok original ↦
            let (w'', failed) = i.clipboard.write text w' in
            elim failed [
              | some e ↦ (
                w'',
                err (
                    failure FailureCode.clipboard_write_failed clipboard_write_failure_message
                      RecoveryAction.copy_failed_text text e),
              )
              | none ↦ paste_text i original text w''
            ]
      ]

  unfoldable pub insert : MacOsPasteInjector W E → Bytes → W → W × Result (InsertError E) Receipt
  insert i text w = elim i.paste_driver.preflight [
    | none ↦ copy_and_paste i text w
    | some preflight ↦
        let (w', failed) = preflight w in
        elim failed [
          | some e ↦ (w', err (insert_error_for_paste_failure permission_denied e text))
          | none ↦ copy_and_paste i text w'
        ]
  ]

-- `FakeInjector.Insert`.
abbrev pub fake_insert : Bytes → Receipt
fake_insert text = record {
  target = codes "fake";
  status = codes "inserted";
  restore_status = RestoreStatus.unset;
  warning_code = [];
  warning_message = [];
}
