-- ===== src/Prelude/Base64.antt =====
-- `base64.StdEncoding` of `encoding/base64`: padding is required, line breaks are skipped, and the
-- unused bits of the last digit are not looked at.
use Prim.Native.Nat.{ℕ, ◌+◌, ◌-◌, ◌*◌, ◌/◌, ◌%◌, ◌<◌}
use mathlib.Core.Path.{◌≡◌, refl}
use mathlib.Core.Bool.{Bool, true, false, ◌&&◌, ◌||◌}
use mathlib.Core.Option.{Option, none, some}
use mathlib.Core.List.{[], ◌∷◌}
use native.Mathlib.Omega.{arith}
use talka.Prelude.Tests.{ltb, leb, ◌==◌, if◌then◌else◌}
use talka.Prelude.Bytes.{Bytes, AllBytes, is_empty}

unfoldable pub digit : ℕ → ℕ
digit n =
    if ltb n 26
    then b'A' + n
    else if ltb n 52
    then b'a' + (n - 26)
    else if ltb n 62
    then b'0' + (n - 52)
    else if n == 62
    then b'+'
    else b'/'

value : ℕ → Option ℕ
value c =
    if leb b'A' c && leb c b'Z'
    then some (c - b'A')
    else if leb b'a' c && leb c b'z'
    then some (c - b'a' + 26)
    else if leb b'0' c && leb c b'9'
    then some (c - b'0' + 52)
    else if c == b'+'
    then some 62
    else if c == b'/'
    then some 63
    else none

abbrev pad : ℕ
pad = b'='

-- `EncodeToString`.
unfoldable pub encode_to_string : Bytes → Bytes
encode_to_string [] = []
encode_to_string (a ∷ []) = digit (a / 4) ∷ digit (a % 4 * 16) ∷ pad ∷ pad ∷ []
encode_to_string (a ∷ b ∷ []) =
    digit (a / 4) ∷ digit (a % 4 * 16 + b / 16) ∷ digit (b % 16 * 4) ∷ pad ∷ []
encode_to_string (a ∷ b ∷ c ∷ rest) =
    digit (a / 4)
    ∷ digit (a % 4 * 16 + b / 16)
    ∷ digit (b % 16 * 4 + c / 64)
    ∷ digit (c % 64)
    ∷ encode_to_string rest

skip_breaks : Bytes → Bytes
skip_breaks [] = []
skip_breaks (c ∷ cs) = if c == 10 || c == 13 then skip_breaks cs else c ∷ skip_breaks cs

-- The bytes of the last group of four digits, and of one before it.
last_one : Option ℕ → Option ℕ → Bool → Option Bytes
last_one (some x) (some y) true = some ((x * 4 + y / 16) ∷ [])
last_one _ _ _ = none

last_two : Option ℕ → Option ℕ → Option ℕ → Bool → Option Bytes
last_two (some x) (some y) (some z) true = some ((x * 4 + y / 16) ∷ (y % 16 * 16 + z / 4) ∷ [])
last_two _ _ _ _ = none

three : Option ℕ → Option ℕ → Option ℕ → Option ℕ → Option Bytes → Option Bytes
three (some x) (some y) (some z) (some u) (some more) =
    some ((x * 4 + y / 16) ∷ (y % 16 * 16 + z / 4) ∷ (z % 4 * 64 + u) ∷ more)
three _ _ _ _ _ = none

decode_groups : Bytes → Option Bytes
decode_groups [] = some []
decode_groups (a ∷ b ∷ c ∷ d ∷ rest) =
    let more = decode_groups rest in
    if c == pad
    then last_one (value a) (value b) (d == pad && is_empty rest)
    else if d == pad
    then last_two (value a) (value b) (value c) (is_empty rest)
    else three (value a) (value b) (value c) (value d) more
decode_groups _ = none

-- `DecodeString`.
unfoldable pub decode_string : Bytes → Option Bytes
unfolding skip_breaks decode_groups last_one last_two three value
decode_string s = decode_groups (skip_breaks s)

-- A digit is read back, and is no padding and no line break.
record IsDigit (c n : ℕ) : Type 0 where
  means : value c ≡ some n
  no_pad : (c == pad) ≡ false
  no_break : (c == 10 || c == 13) ≡ false

digit-IsDigit : (n : ℕ) → n < 64 → IsDigit (digit n) n
unfolding digit value
digit-IsDigit n h = record { means = ground arith; no_pad = ground arith; no_break = ground arith }

skip_breaks-encode_to_string :
    (xs : Bytes) → AllBytes xs → skip_breaks (encode_to_string xs) ≡ encode_to_string xs
unfolding skip_breaks encode_to_string
skip_breaks-encode_to_string [] h = refl
skip_breaks-encode_to_string (a ∷ []) (h, _) =
    let p = digit-IsDigit (a / 4) (omega arith) in
    let q = digit-IsDigit (a % 4 * 16) (omega arith) in ground (arith, p.no_break, q.no_break)
skip_breaks-encode_to_string (a ∷ b ∷ []) (h, (k, _)) =
    let p = digit-IsDigit (a / 4) (omega arith) in
    let q = digit-IsDigit (a % 4 * 16 + b / 16) (omega arith) in
    let r = digit-IsDigit (b % 16 * 4) (omega arith) in
    ground (arith, p.no_break, q.no_break, r.no_break)
skip_breaks-encode_to_string (a ∷ b ∷ c ∷ rest) (h, (k, (l, more))) =
    let p = digit-IsDigit (a / 4) (omega arith) in
    let q = digit-IsDigit (a % 4 * 16 + b / 16) (omega arith) in
    let r = digit-IsDigit (b % 16 * 4 + c / 64) (omega arith) in
    let t = digit-IsDigit (c % 64) (omega arith) in
    ground (
      arith,
      p.no_break,
      q.no_break,
      r.no_break,
      t.no_break,
      skip_breaks-encode_to_string rest more,
    )

decode_groups-encode_to_string :
    (xs : Bytes) → AllBytes xs → decode_groups (encode_to_string xs) ≡ some xs
unfolding decode_groups encode_to_string last_one last_two three
decode_groups-encode_to_string [] h = refl
decode_groups-encode_to_string (a ∷ []) (h, _) =
    let p = digit-IsDigit (a / 4) (omega arith) in
    let q = digit-IsDigit (a % 4 * 16) (omega arith) in ground (arith, p.means, q.means)
decode_groups-encode_to_string (a ∷ b ∷ []) (h, (k, _)) =
    let p = digit-IsDigit (a / 4) (omega arith) in
    let q = digit-IsDigit (a % 4 * 16 + b / 16) (omega arith) in
    let r = digit-IsDigit (b % 16 * 4) (omega arith) in
    ground (arith, p.means, q.means, r.means, r.no_pad)
decode_groups-encode_to_string (a ∷ b ∷ c ∷ rest) (h, (k, (l, more))) =
    let p = digit-IsDigit (a / 4) (omega arith) in
    let q = digit-IsDigit (a % 4 * 16 + b / 16) (omega arith) in
    let r = digit-IsDigit (b % 16 * 4 + c / 64) (omega arith) in
    let t = digit-IsDigit (c % 64) (omega arith) in
    ground (
      arith,
      p.means,
      q.means,
      r.means,
      r.no_pad,
      t.means,
      t.no_pad,
      decode_groups-encode_to_string rest more,
    )

-- Decoding what was encoded gives the bytes back.
pub decode_string-encode_to_string :
    (xs : Bytes) → AllBytes xs → decode_string (encode_to_string xs) ≡ some xs
unfolding decode_string
decode_string-encode_to_string xs h =
    rw (skip_breaks-encode_to_string xs h) (decode_groups-encode_to_string xs h)
