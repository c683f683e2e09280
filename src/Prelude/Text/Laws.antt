-- ===== src/Prelude/Text/Laws.antt =====
-- `strings.TrimSpace` trims all there is.
use Prim.Native.Nat.{ℕ, zero, suc}
use mathlib.Core.Path.{◌≡◌, refl, ap, sym, ◌∙◌}
use mathlib.Core.Logic.{◌⊎◌, inl, inr}
use mathlib.Core.List.{[], ◌∷◌, ◌++◌, reverse, reverse-append, reverse-reverse}
use native.Mathlib.Omega.{arith}
use talka.Prelude.Bytes.{Bytes}
use talka.Prelude.Text.{leading_space, trailing_space, skip_spaces, trim_space}

number-cases : (n : ℕ) → (n ≡ 0) ⊎ ((k : ℕ) × (n ≡ suc k))
number-cases zero = inl refl
number-cases (suc k) = inr (k, refl)

module _ (width : Bytes → ℕ) where
  pub skip_spaces_none : (s : Bytes) → width s ≡ 0 → skip_spaces width 0 s ≡ s
  unfolding skip_spaces
  skip_spaces_none [] h = refl
  skip_spaces_none (x ∷ xs) h = ground (arith, h)

  width-skip_spaces : (k : ℕ) (s : Bytes) → width [] ≡ 0 → width (skip_spaces width k s) ≡ 0
  unfolding skip_spaces
  width-skip_spaces k [] h = h
  width-skip_spaces (suc k) (x ∷ xs) h = width-skip_spaces k xs h
  width-skip_spaces zero (x ∷ xs) h = elim (number-cases (width (x ∷ xs))) [
    | inl e ↦ ground (arith, e)
    | inr (k, e) ↦ ground (arith, e, width-skip_spaces k xs h)
  ]

  -- What is skipped, in front of what is left.
  skipped : (k : ℕ) (s : Bytes) → (d : Bytes) × (s ≡ d ++ skip_spaces width k s)
  unfolding skip_spaces
  skipped k [] = ([], refl)
  skipped (suc k) (x ∷ xs) = let (d, e) = skipped k xs in (x ∷ d, ap (λ ys. x ∷ ys) e)
  skipped zero (x ∷ xs) = elim (number-cases (width (x ∷ xs))) [
    | inl e ↦ ([], ground (arith, e))
    | inr (k, e) ↦ let (d, q) = skipped k xs in (x ∷ d, ground (arith, e, q))
  ]

leading_space-append : (p q : Bytes) → leading_space (p ++ q) ≡ 0 → leading_space p ≡ 0
unfolding leading_space
leading_space-append [] q h = refl
leading_space-append (a ∷ []) [] h = h
leading_space-append (a ∷ []) (b ∷ []) h = ground arith
leading_space-append (a ∷ []) (b ∷ c ∷ q) h = ground arith
leading_space-append (a ∷ b ∷ []) [] h = h
leading_space-append (a ∷ b ∷ []) (c ∷ q) h = ground arith
leading_space-append (a ∷ b ∷ c ∷ p) q h = h

-- The white space around a string is gone once it is trimmed.
pub trim_space-trim_space : (s : Bytes) → trim_space (trim_space s) ≡ trim_space s
unfolding trim_space
trim_space-trim_space s =
    let left = skip_spaces leading_space 0 s in
    let right = skip_spaces trailing_space 0 (reverse left) in
    let (d, q) = skipped trailing_space 0 (reverse left) in
    let whole : left ≡ reverse right ++ reverse d =
      sym (reverse-reverse left) ∙ ap reverse q ∙ reverse-append d right in
    let nothing_left : leading_space left ≡ 0 = width-skip_spaces leading_space 0 s refl in
    let leads = leading_space-append (reverse right) (reverse d) (rw (sym whole) nothing_left) in
    let trails = width-skip_spaces trailing_space 0 (reverse left) refl in
    rw
      (
        skip_spaces_none leading_space (reverse right) leads,
        reverse-reverse right,
        skip_spaces_none trailing_space right trails,
      )
      refl
