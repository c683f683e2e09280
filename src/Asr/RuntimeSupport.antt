-- ===== src/Asr/RuntimeSupport.antt =====
-- `boundedLogBuffer` and `overrideFlagValue` of internal/asr/runtime_support.go, and the errors of
-- runtime_errors.go. A buffer holds its mutex throughout each call.
use mathlib.Core.List.{append_assoc, append-nil}
use talka.Prelude.{
  ℕ, zero, suc, ◌+◌, ◌-◌, ◌≤◌, ◌≡◌, refl, ap, sym, ◌∙◌, Option, none, some, List, [], ◌∷◌, ◌++◌,
  arith, length, length-append, length-drop, drop, ltb, if◌then◌else◌, inl, inr, Bool-cases,
}
use talka.Prelude.Int.{ℤ, pos_part, is_positive}
use talka.Prelude.Bytes.{Bytes, codes, is_empty, bytes_eq}
use talka.Prelude.Text.{trim_space}

pub record BoundedLogBuffer : Type 0 where
  pub max_bytes : ℕ
  pub buffer : Bytes

-- `newBoundedLogBuffer`.
unfoldable pub new_bounded_log_buffer : ℤ → BoundedLogBuffer
new_bounded_log_buffer max = record {
  max_bytes = if is_positive max then pos_part max else 16384;
  buffer = [];
}

-- `Write`, which fails never.
unfoldable pub write : Bytes → BoundedLogBuffer → BoundedLogBuffer
write p b =
    let all = b.buffer ++ p in
    record b {
      buffer = if ltb b.max_bytes (length all) then drop (length all - b.max_bytes) all else all;
    }

-- `String` and `Reset`.
unfoldable pub text : BoundedLogBuffer → Bytes
text b = trim_space b.buffer

unfoldable pub reset : BoundedLogBuffer → BoundedLogBuffer
reset b = record b { buffer = [] }

abbrev with_value : Bytes → List Bytes → List Bytes
with_value value [] = value ∷ []
with_value value (old ∷ rest) = value ∷ rest

-- `overrideFlagValue`.
unfoldable pub override_flag_value : List Bytes → Bytes → Bytes → List Bytes
override_flag_value [] flag value = flag ∷ value ∷ []
override_flag_value (a ∷ args) flag value =
    let rest = override_flag_value args flag value in
    if bytes_eq a flag then a ∷ with_value value args else a ∷ rest

-- `RuntimeError`; its cause is the text of an error, if there is one.
pub record RuntimeError : Type 0 where
  pub code : Bytes
  pub message : Bytes
  pub cause : Option Bytes
  pub detail : Bytes

unfoldable pub diagnostic : RuntimeError → Bytes
diagnostic e =
    if is_empty e.detail then (elim e.cause [ none ↦ [] | some said ↦ said ]) else e.detail

unfoldable pub error_text : RuntimeError → Bytes
error_text e =
    if is_empty (diagnostic e) then e.message else e.message ++ codes ": " ++ diagnostic e

-- The writes to a buffer, in order.
unfoldable pub write_all : List Bytes → BoundedLogBuffer → BoundedLogBuffer
write_all [] b = b
write_all (p ∷ ps) b = write_all ps (write p b)

abbrev pub written : List Bytes → Bytes
written [] = []
written (p ∷ ps) = p ++ written ps

-- The last `n` bytes.
abbrev pub last_bytes : ℕ → Bytes → Bytes
last_bytes n xs = drop (length xs - n) xs

drop_nil : (n : ℕ) → drop {A = ℕ} n [] ≡ []
drop_nil zero = refl
drop_nil (suc n) = refl

drop-drop : (a b : ℕ) (xs : Bytes) → drop a (drop b xs) ≡ drop (b + a) xs
drop-drop a zero xs = ground arith
drop-drop zero (suc b) [] = ground arith
drop-drop (suc a) (suc b) [] = sym (drop_nil (suc b + suc a))
drop-drop a (suc b) (x ∷ xs) =
    let same : suc (b + a) ≡ suc b + a = omega arith in
    drop-drop a b xs ∙ ap (λ n. drop n (x ∷ xs)) same

drop-append : (k : ℕ) (xs ys : Bytes) → k ≤ length xs → drop k (xs ++ ys) ≡ drop k xs ++ ys
drop-append zero xs ys h = refl
drop-append (suc k) [] ys h = absurd (omega arith)
drop-append (suc k) (x ∷ xs) ys h = drop-append k xs ys (omega arith)

write-last_bytes :
    (b : BoundedLogBuffer) (xs p : Bytes)
    → b.buffer ≡ last_bytes b.max_bytes xs
    → (write p b).buffer ≡ last_bytes b.max_bytes (xs ++ p)
unfolding write
write-last_bytes b xs p h =
    let k = length xs - b.max_bytes in
    let all : b.buffer ++ p ≡ drop k (xs ++ p) =
      ap (λ ys. ys ++ p) h ∙ sym (drop-append k xs p (omega arith)) in
    let size = length-drop k (xs ++ p) in
    let whole = length-append xs p in
    elim (Bool-cases (ltb b.max_bytes (length (drop k (xs ++ p))))) [
      | inl q ↦
          let over = length (drop k (xs ++ p)) - b.max_bytes in
          let total : k + over ≡ length (xs ++ p) - b.max_bytes = ground (arith, q, size, whole) in
          rw (all, q) (drop-drop over k (xs ++ p) ∙ ap (λ n. drop n (xs ++ p)) total)
      | inr q ↦
          let total : k ≡ length (xs ++ p) - b.max_bytes = ground (arith, q, size, whole) in
          rw (all, q) (ap (λ n. drop n (xs ++ p)) total)
    ]

-- After any writes, a buffer that held the last bytes of `xs` that it has room for holds the last
-- bytes of `xs` and of all that was written.
pub write_all-last_bytes :
    (ps : List Bytes) (b : BoundedLogBuffer) (xs : Bytes)
    → b.buffer ≡ last_bytes b.max_bytes xs
    → (write_all ps b).buffer ≡ last_bytes b.max_bytes (xs ++ written ps)
unfolding write_all write
write_all-last_bytes [] b xs h = ground (arith, h, append-nil xs)
write_all-last_bytes (p ∷ ps) b xs h =
    let step = write-last_bytes b xs p h in
    write_all-last_bytes ps (write p b) (xs ++ p) step
    ∙ ap (last_bytes b.max_bytes) (append_assoc xs p (written ps))
