-- ===== src/Inject/Laws.antt =====
-- What `Insert` of internal/inject/macos.go does to the clipboard, and what its errors carry.
use talka.Prelude.{
  ◌≡◌, ◌≢◌, Bool, true, false, Option, none, some, Result, ok, err, arith, inl, inr, Bool-cases,
  Option-cases, Result-cases,
}
use talka.Prelude.Bytes.{Bytes, bytes_eq, bytes_eq_refl}
use talka.Inject.{
  FailureCode, RecoveryAction, InsertError, RestoreStatus, Receipt, Clipboard, MacOsPasteInjector,
  insert_error_for_paste_failure, restore, paste_text, copy_and_paste, insert,
}

-- What `pbpaste` and `pbcopy` are documented to do: a read leaves the clipboard, and returns it if
-- it succeeds; a write that succeeds sets it.
pub record ClipboardLaws {W E : Type 0} (c : Clipboard W E) (content : W → Bytes) : Type 0 where
  pub read_returns : (w : W) (b : Bytes) → (c.read w).1 ≡ ok b → b ≡ content w
  pub read_keeps : (w : W) → content (c.read w).0 ≡ content w
  pub write_sets : (b : Bytes) (w : W) → (c.write b w).1 ≡ none → content (c.write b w).0 ≡ b

module _ {W E : Type 0} (permission_denied : E → Bool) (i : MacOsPasteInjector W E)
    (content : W → Bytes) (laws : ClipboardLaws i.clipboard content) where
  -- What the status of a receipt says of the clipboard.
  abbrev pub Holds : Bytes → Bytes → RestoreStatus → W → Type 0
  Holds original text RestoreStatus.restored w = content w ≡ original
  Holds original text RestoreStatus.skipped_changed w = content w ≢ text
  Holds original text status w = Unit {0}

  restore-Holds :
      (original text : Bytes) (w : W)
      → Holds original text
          (restore permission_denied i original text w).1.restore_status
          (restore permission_denied i original text w).0
  unfolding restore
  restore-Holds original text w = elim (Result-cases (i.clipboard.read w).1) [
    | inl (e, q) ↦ ground (arith, q)
    | inr (current, q) ↦ elim (Bool-cases (bytes_eq current text)) [
      | inl same ↦ elim (Option-cases (i.clipboard.write original (i.clipboard.read w).0).1) [
        | inl written ↦
            ground
              (arith, q, same, written, laws.write_sets original (i.clipboard.read w).0 written)
        | inr (e, refused) ↦ ground (arith, q, same, refused)
      ]
      | inr changed ↦
          let returned = laws.read_returns w current q in
          let kept = laws.read_keeps w in
          ground (arith, q, changed, returned, kept, bytes_eq_refl text)
    ]
  ]

  -- What an error says of its cause, and what it advises.
  abbrev pub Advised : InsertError E → Type 0
  Advised e = elim e.code [
    | FailureCode.accessibility_missing ↦
        (permission_denied e.cause ≡ true)
        × (e.recovery.action ≡ RecoveryAction.open_accessibility_guidance)
    | FailureCode.paste_failed ↦
        (permission_denied e.cause ≡ false) × (e.recovery.action ≡ RecoveryAction.copy_failed_text)
    | FailureCode.clipboard_read_failed ↦ e.recovery.action ≡ RecoveryAction.copy_failed_text
    | FailureCode.clipboard_write_failed ↦ e.recovery.action ≡ RecoveryAction.copy_failed_text
  ]

  -- What the result of an insertion of `text` says, where the clipboard held `original` before.
  abbrev pub Outcome : Bytes → Bytes → W × Result (InsertError E) Receipt → Type 0
  Outcome original text (w, err e) =
      (e.recovery.failed_text ≡ text) × (e.recovery.volatile ≡ true) × Advised e
  Outcome original text (w, ok r) = Holds original text r.restore_status w

  paste_text-Outcome :
      (original text : Bytes) (w : W)
      → Outcome original text (paste_text permission_denied i original text w)
  unfolding paste_text insert_error_for_paste_failure
  paste_text-Outcome original text w = elim (Option-cases (i.paste_driver.paste w).1) [
    | inr (e, q) ↦ elim (Bool-cases (permission_denied e)) [
      | inl denied ↦ ground (arith, q, denied)
      | inr other ↦ ground (arith, q, other)
    ]
    | inl pasted ↦ elim (Bool-cases i.restore_clipboard) [
      | inr disabled ↦ ground (arith, pasted, disabled)
      | inl enabled ↦
          let w' = (i.paste_driver.paste w).0 in
          elim (Option-cases (i.waiter i.restore_delay w').1) [
            | inr (e, stopped) ↦ ground (arith, pasted, enabled, stopped)
            | inl waited ↦ ground (
              arith,
              pasted,
              enabled,
              waited,
              restore-Holds original text (i.waiter i.restore_delay w').0,
            )
          ]
    ]
  ]

  copy_and_paste-Outcome :
      (text : Bytes) (w : W) → Outcome (content w) text (copy_and_paste permission_denied i text w)
  unfolding copy_and_paste
  copy_and_paste-Outcome text w = elim (Result-cases (i.clipboard.read w).1) [
    | inl (e, q) ↦ ground (arith, q)
    | inr (original, q) ↦
        let w' = (i.clipboard.read w).0 in
        elim (Option-cases (i.clipboard.write text w').1) [
          | inr (e, refused) ↦ ground (arith, q, refused)
          | inl written ↦ ground (
            arith,
            q,
            written,
            laws.read_returns w original q,
            paste_text-Outcome original text (i.clipboard.write text w').0,
          )
        ]
  ]

-- A preflight leaves the clipboard.
abbrev pub PreflightKeeps : {W E : Type 0} → MacOsPasteInjector W E → (W → Bytes) → Type 0
PreflightKeeps {W} {E} i content =
    (preflight : W → W × Option E) (w : W)
    → i.paste_driver.preflight ≡ some preflight
    → content (preflight w).0 ≡ content w

-- With a clipboard that behaves as documented and a preflight that leaves it, an insertion that
-- reports the clipboard as restored leaves it as it was before, and one that reports it as changed
-- in the meantime leaves something other than the text there. Every error carries the text, as
-- volatile. One with the code of a missing permission has a cause that is a denied permission, and
-- advises to open the settings; one with the code of a failed paste has another cause, and like the
-- errors of the clipboard it advises to copy the text.
pub insert-Outcome :
    {W E : Type 0} (permission_denied : E → Bool) (i : MacOsPasteInjector W E) (content : W → Bytes)
    (laws : ClipboardLaws i.clipboard content) (text : Bytes) (w : W)
    → PreflightKeeps i content
    → Outcome permission_denied i content laws (content w) text (insert permission_denied i text w)
unfolding insert insert_error_for_paste_failure
insert-Outcome permission_denied i content laws text w keeps =
    elim (Option-cases i.paste_driver.preflight) [
      | inl none_given ↦
          ground (arith, none_given, copy_and_paste-Outcome permission_denied i content laws text w)
      | inr (preflight, given) ↦ elim (Option-cases (preflight w).1) [
        | inl passed ↦ ground (
          arith,
          given,
          passed,
          keeps preflight w given,
          copy_and_paste-Outcome permission_denied i content laws text (preflight w).0,
        )
        | inr (e, q) ↦ elim (Bool-cases (permission_denied e)) [
          | inl denied ↦ ground (arith, given, q, denied)
          | inr other ↦ ground (arith, given, q, other)
        ]
      ]
    ]
