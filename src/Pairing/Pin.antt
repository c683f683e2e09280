-- ===== src/Pairing/Pin.antt =====
-- `randomPIN` and `randomHex` of internal/pairing/manager.go. A random source is the list of the
-- bytes that it will give; a source that ends makes the read fail.
use talka.Prelude.{
  ℕ, zero, suc, ◌+◌, ◌/◌, ◌%◌, ◌≤◌, ◌<◌, ◌≡◌, refl, Option, none, some, [], ◌∷◌, arith, leb, ltb,
  ◌==◌, if◌then◌else◌, length, Bool, true, false, ◌-◌, ==_iff, Bool-cases, Option-cases, inl, inr,
}
use talka.Prelude.Finite.{every, every-at}
use talka.Prelude.Bytes.{Bytes, read_full}

-- The inner loop: bytes from 250 on are thrown away, so that ten digits share the rest evenly.
random_digit : Bytes → Option (ℕ × Bytes)
random_digit [] = none
random_digit (byte ∷ rest) =
    let again = random_digit rest in if leb 250 byte then again else some (b'0' + byte % 10, rest)

random_digits : ℕ → Bytes → Option (Bytes × Bytes)
random_digits zero rand = some ([], rand)
random_digits (suc n) rand = elim (random_digit rand) [
  | none ↦ none
  | some (digit, rest) ↦ elim (random_digits n rest) [
    | none ↦ none
    | some (digits, left) ↦ some (digit ∷ digits, left)
  ]
]

abbrev pub pin_length : ℕ
pin_length = 6

-- The PIN, and what the source still holds.
unfoldable pub random_pin : Bytes → Option (Bytes × Bytes)
unfolding random_digits random_digit
random_pin rand = random_digits pin_length rand

abbrev hex_digit : ℕ → ℕ
hex_digit n = if ltb n 10 then b'0' + n else b'a' + (n - 10)

-- `hex.EncodeToString`.
hex_encode : Bytes → Bytes
hex_encode [] = []
hex_encode (x ∷ xs) = hex_digit (x / 16) ∷ hex_digit (x % 16) ∷ hex_encode xs

unfoldable pub random_hex : ℕ → Bytes → Option (Bytes × Bytes)
unfolding read_full hex_encode
random_hex size rand = elim (read_full size rand) [
  | none ↦ none
  | some (raw, rest) ↦ some (hex_encode raw, rest)
]

abbrev pub AllDigits : Bytes → Type 0
AllDigits [] = Unit {0}
AllDigits (x ∷ xs) = (b'0' ≤ x) × (x ≤ b'9') × AllDigits xs

random_digit_range :
    (rand : Bytes) (d : ℕ) (rest : Bytes)
    → random_digit rand ≡ some (d, rest)
    → (b'0' ≤ d) × (d ≤ b'9')
unfolding random_digit
random_digit_range [] d rest e = cc
random_digit_range (x ∷ xs) d rest e = ground (arith, random_digit_range xs d rest)

random_digits_range :
    (n : ℕ) (rand pin rest : Bytes)
    → random_digits n rand ≡ some (pin, rest)
    → (length pin ≡ n) × AllDigits pin
unfolding random_digits
random_digits_range zero rand pin rest e = ground arith
random_digits_range (suc n) rand pin rest e = elim (Option-cases (random_digit rand)) [
  | inl dry ↦ absurd (ground (arith, dry))
  | inr ((d, more), drawn) ↦ elim (Option-cases (random_digits n more)) [
    | inl dry ↦ absurd (ground (arith, drawn, dry))
    | inr ((ds, left), drawn') ↦ ground (
      arith,
      drawn,
      drawn',
      random_digit_range rand d more drawn,
      random_digits_range n more ds left drawn',
    )
  ]
]

-- The number of bytes that the loop does not throw away.
abbrev pub usable : Bytes → ℕ
usable [] = 0
usable (x ∷ xs) = (if leb 250 x then 0 else 1) + usable xs

random_digit-usable :
    (rand : Bytes)
    → 0 < usable rand
    → (d : ℕ) × (rest : Bytes) × (random_digit rand ≡ some (d, rest))
      × (usable rand ≡ 1 + usable rest)
unfolding random_digit
random_digit-usable [] h = absurd (omega arith)
random_digit-usable (x ∷ xs) h = elim (Bool-cases (leb 250 x)) [
  | inl thrown ↦
      let (d, rest, drawn, left) = random_digit-usable xs (ground (arith, thrown)) in
      (d, rest, ground (arith, thrown, drawn), ground (arith, thrown, left))
  | inr kept ↦ (b'0' + x % 10, xs, ground (arith, kept), ground (arith, kept))
]

random_digits-usable :
    (n : ℕ) (rand : Bytes)
    → n ≤ usable rand
    → (pin : Bytes) × (rest : Bytes) × (random_digits n rand ≡ some (pin, rest))
unfolding random_digits
random_digits-usable zero rand h = ([], rand, refl)
random_digits-usable (suc n) rand h =
    let (d, more, drawn, left) = random_digit-usable rand (omega arith) in
    let (ds, rest, drawn') = random_digits-usable n more (omega arith) in
    (d ∷ ds, rest, ground (arith, drawn, drawn'))

-- A source with six bytes below 250 somewhere in it gives a PIN, of six decimal digits.
pub random_pin_digits :
    (rand : Bytes)
    → pin_length ≤ usable rand
    → (pin : Bytes) × (rest : Bytes) × (random_pin rand ≡ some (pin, rest))
      × (length pin ≡ pin_length)
      × AllDigits pin
unfolding random_pin
random_pin_digits rand h =
    let (pin, rest, drawn) = random_digits-usable pin_length rand h in
    let (size, digits) = random_digits_range pin_length rand pin rest drawn in
    (pin, rest, drawn, size, digits)

abbrev gives : Option (ℕ × Bytes) → ℕ → Bool
gives none d = false
gives (some (digit, rest)) d = digit == b'0' + d

-- How many of the bytes below `n` make the first digit drawn `d`.
pub favourable : ℕ → ℕ → ℕ
favourable zero d = 0
favourable (suc n) d = (if gives (random_digit (n ∷ [])) d then 1 else 0) + favourable n d

favourable_table : every (λ d. favourable 256 d == 25) 10 ≡ true
unfolding every favourable random_digit
favourable_table = refl

-- The digits are unbiased: of the 256 values of a byte, 25 give each of the ten digits.
pub random_digit_unbiased : (d : ℕ) → d < 10 → favourable 256 d ≡ 25
random_digit_unbiased d h =
    (==_iff _ 25).0 (every-at (λ e. favourable 256 e == 25) 10 d h favourable_table)
