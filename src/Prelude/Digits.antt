-- ===== src/Prelude/Digits.antt =====
-- Python's `str` of a number that is not negative, and `str.isdecimal` with `int` of a text. Digits
-- beyond ASCII are an argument: the digit that Unicode gives a code point, if it gives one.
use Prim.Native.Char.{Char, nul, code}
use Prim.Native.Nat.{ℕ, zero, suc, ◌+◌, ◌*◌, ◌-◌, ◌/◌, ◌%◌, ◌<◌}
use Prim.Native.String
use Prim.Native.String.append.{nil as append_nil, cons as append_cons}
use Prim.Native.String.{String}
use mathlib.Core.Path.{◌≡◌, refl, ap, ◌∙◌}
use mathlib.Core.Bool.{◌&&◌}
use mathlib.Core.Option.{Option, none, some}
use mathlib.Core.Logic.{inl, inr}
use native.Mathlib.Omega.{arith}
use gptrader_mw_v.Prelude.Tests.{leb, ltb, Bool-cases, ◌==◌, if◌then◌else◌}

-- The text behind a prefix: `startswith` and `removeprefix`.
unfoldable pub after_prefix : String → String → Option String
after_prefix String.[] s = some s
after_prefix (String.◌∷◌ c prefix) String.[] = none
after_prefix (String.◌∷◌ c prefix) (String.◌∷◌ d s) =
    let rest = after_prefix prefix s in if code c == code d then rest else none

-- The character of a text at a place counted from zero.
abbrev pub char_of : ℕ → String → Char
char_of n String.[] = nul
char_of zero (String.◌∷◌ c s) = c
char_of (suc n) (String.◌∷◌ c s) = char_of n s

abbrev pub digit_char : ℕ → Char
digit_char d = char_of d "0123456789"

-- The digits of a number in front of a text. A number has no more digits than its successor.
unfoldable pub write_digits : ℕ → ℕ → String → String
write_digits zero n s = s
write_digits (suc fuel) n s =
    let rest = write_digits fuel (n / 10) (String.◌∷◌ (digit_char (n % 10)) s) in
    if ltb n 10 then String.◌∷◌ (digit_char n) s else rest

unfoldable pub str_ℕ : ℕ → String
unfolding write_digits
str_ℕ n = write_digits (suc n) n String.[]

module _ (unicode_digit : ℕ → Option ℕ) where
  abbrev pub digit_of : ℕ → Option ℕ
  digit_of c =
      if leb 48 c && leb c 57 then some (c - 48) else if ltb c 128 then none else unicode_digit c

  -- Reads digits after those that made `total`.
  unfoldable pub read_digits : ℕ → String → Option ℕ
  read_digits total String.[] = some total
  read_digits total (String.◌∷◌ c s) = elim (digit_of (code c)) [
    | none ↦ none
    | some d ↦ read_digits (total * 10 + d) s
  ]

  -- `int(s)` if `s.isdecimal()`
  unfoldable pub read_ℕ : String → Option ℕ
  unfolding read_digits
  read_ℕ String.[] = none
  read_ℕ (String.◌∷◌ c s) = read_digits 0 (String.◌∷◌ c s)

-- The text behind a prefix that was put in front of it.
pub after_prefix-++ : (p s : String) → after_prefix p (String.◌++◌ p s) ≡ some s
unfolding after_prefix
after_prefix-++ String.[] s = ap (after_prefix String.[]) (λ i. append_nil s i)
after_prefix-++ (String.◌∷◌ c p) s =
    ap (after_prefix (String.◌∷◌ c p)) (λ i. append_cons c p s i)
    ∙ ground (arith, after_prefix-++ p s)

code-digit_char : (d : ℕ) → d < 10 → code (digit_char d) ≡ 48 + d
code-digit_char zero h = refl
code-digit_char (suc zero) h = refl
code-digit_char (suc (suc zero)) h = refl
code-digit_char (suc (suc (suc zero))) h = refl
code-digit_char (suc (suc (suc (suc zero)))) h = refl
code-digit_char (suc (suc (suc (suc (suc zero))))) h = refl
code-digit_char (suc (suc (suc (suc (suc (suc zero)))))) h = refl
code-digit_char (suc (suc (suc (suc (suc (suc (suc zero))))))) h = refl
code-digit_char (suc (suc (suc (suc (suc (suc (suc (suc zero)))))))) h = refl
code-digit_char (suc (suc (suc (suc (suc (suc (suc (suc (suc zero))))))))) h = refl
code-digit_char (suc (suc (suc (suc (suc (suc (suc (suc (suc (suc n)))))))))) h =
    absurd (omega arith)

module _ (unicode_digit : ℕ → Option ℕ) where
  digit_of-digit : (d : ℕ) → d < 10 → digit_of unicode_digit (code (digit_char d)) ≡ some d
  digit_of-digit d h = rw (code-digit_char d h) (ground arith)

  read_digits-digit :
      (total d : ℕ) (s : String)
      → d < 10
      → read_digits unicode_digit total (String.◌∷◌ (digit_char d) s)
        ≡ read_digits unicode_digit (total * 10 + d) s
  unfolding read_digits
  read_digits-digit total d s h = rw (digit_of-digit d h, read_digits) refl

  read_ℕ-write_digits :
      (fuel n : ℕ) (s : String)
      → n < fuel
      → read_ℕ unicode_digit (write_digits fuel n s) ≡ read_digits unicode_digit n s
  unfolding read_ℕ write_digits
  read_ℕ-write_digits zero n s h = absurd (omega arith)
  read_ℕ-write_digits (suc fuel) n s h = elim (Bool-cases (ltb n 10)) [
    | inl small ↦ rw small (
        read_digits-digit 0 n s (ground arith)
        ∙ ap (λ m. read_digits unicode_digit m s) (omega arith))
    | inr large ↦ rw large (
        read_ℕ-write_digits fuel (n / 10) (String.◌∷◌ (digit_char (n % 10)) s) (ground arith)
        ∙ read_digits-digit (n / 10) (n % 10) s (omega arith)
        ∙ ap (λ m. read_digits unicode_digit m s) (omega arith))
  ]

  -- What `str` writes is a text of digits, and `int` reads it back.
  pub read_ℕ-str_ℕ : (n : ℕ) → read_ℕ unicode_digit (str_ℕ n) ≡ some n
  unfolding read_digits str_ℕ
  read_ℕ-str_ℕ n = read_ℕ-write_digits (suc n) n String.[] (omega arith)
