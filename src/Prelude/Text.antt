-- ===== src/Prelude/Text.antt =====
-- Python's `str`: whitespace, `strip`, and the comparison of whole texts.
use Prim.Native.Nat.{ℕ}
use Prim.Native.Char.{code}
use Prim.Native.String
use Prim.Native.String.append.{nil as append_nil, cons as append_cons}
use Prim.Native.String.{String}
use mathlib.Core.Path.{◌≡◌, refl, sym, ap, ◌∙◌}
use native.Mathlib.Omega.{arith}
use mathlib.Core.List.{List, [], ◌∷◌}
use mathlib.Core.Bool.{Bool, true, false, ◌&&◌, ◌||◌, not}
use text.Mathlib.Text.{◌==◌ as str_eq}
use gptrader_mw_v.Prelude.Tests.{leb, ◌==◌, if◌then◌else◌}

-- The code points for which `str.isspace` holds: those that `strip` takes away.
abbrev pub is_space : ℕ → Bool
is_space c =
    leb 9 c && leb c 13
    || leb 28 c && leb c 32
    || c == 133
    || c == 160
    || c == 5760
    || leb 8192 c && leb c 8202
    || c == 8232
    || c == 8233
    || c == 8239
    || c == 8287
    || c == 12288

-- `not value.strip()`: nothing but whitespace.
unfoldable pub is_blank : String → Bool
is_blank String.[] = true
is_blank (String.◌∷◌ c s) = is_space (code c) && is_blank s

unfoldable pub is_empty : String → Bool
is_empty String.[] = true
is_empty (String.◌∷◌ c s) = false

unfoldable pub strip_left : String → String
strip_left String.[] = String.[]
strip_left (String.◌∷◌ c s) =
    let rest = strip_left s in if is_space (code c) then rest else String.◌∷◌ c s

-- Drops a character that is whitespace and has only whitespace behind it.
unfoldable pub strip_right : String → String
unfolding is_empty
strip_right String.[] = String.[]
strip_right (String.◌∷◌ c s) =
    let rest = strip_right s in
    if is_space (code c) && is_empty rest then String.[] else String.◌∷◌ c rest

unfoldable pub strip : String → String
unfolding strip_left strip_right
strip s = strip_left (strip_right s)

-- `not value or value != value.strip()` is how the source refuses a text that is not canonical.
unfoldable pub is_canonical : String → Bool
unfolding strip is_empty
is_canonical s = not (is_empty s) && str_eq s (strip s)

unfoldable pub is_in : String → List String → Bool
is_in s [] = false
is_in s (t ∷ ts) = str_eq s t || is_in s ts

-- `len(set(values)) == len(values)`
unfoldable pub all_distinct : List String → Bool
unfolding is_in
all_distinct [] = true
all_distinct (s ∷ ss) = not (is_in s ss) && all_distinct ss

-- A text is stripped to nothing exactly when it is blank.
pub strip_right-is_blank : (s : String) → is_empty (strip_right s) ≡ is_blank s
unfolding strip_right is_blank
strip_right-is_blank String.[] = refl
strip_right-is_blank (String.◌∷◌ c s) = ground (arith, strip_right-is_blank s)

-- A concatenation is blank exactly when both parts are.
pub is_blank-++ : (s t : String) → is_blank (String.◌++◌ s t) ≡ (is_blank s && is_blank t)
unfolding is_blank
is_blank-++ String.[] t = ap is_blank (λ i. append_nil t i)
is_blank-++ (String.◌∷◌ c s) t =
    ap is_blank (λ i. append_cons c s t i) ∙ by_cases (is_space (code c)) (is_blank-++ s t)
  where
    by_cases :
        (b : Bool)
        → is_blank (String.◌++◌ s t) ≡ (is_blank s && is_blank t)
        → (b && is_blank (String.◌++◌ s t)) ≡ ((b && is_blank s) && is_blank t)
    by_cases true h = h
    by_cases false h = refl

strip_right-strip_right : (s : String) → strip_right (strip_right s) ≡ strip_right s
unfolding strip_right is_empty
strip_right-strip_right String.[] = refl
strip_right-strip_right (String.◌∷◌ c s) = ground (arith, strip_right-strip_right s)

strip_left-strip_left : (s : String) → strip_left (strip_left s) ≡ strip_left s
unfolding strip_left
strip_left-strip_left String.[] = refl
strip_left-strip_left (String.◌∷◌ c s) = ground (arith, strip_left-strip_left s)

strip_right-strip_left : (s : String) → strip_right (strip_left s) ≡ strip_left (strip_right s)
unfolding strip_left strip_right is_empty
strip_right-strip_left String.[] = refl
strip_right-strip_left (String.◌∷◌ c s) = ground (arith, strip_right-strip_left s)

pub strip-strip : (s : String) → strip (strip s) ≡ strip s
unfolding strip
strip-strip s =
    ap strip_left (strip_right-strip_left (strip_right s))
    ∙ strip_left-strip_left (strip_right (strip_right s))
    ∙ ap strip_left (strip_right-strip_right s)

strip_left-is_blank : (s : String) → is_blank (strip_left s) ≡ is_blank s
unfolding strip_left is_blank
strip_left-is_blank String.[] = refl
strip_left-is_blank (String.◌∷◌ c s) = ground (arith, strip_left-is_blank s)

-- What `strip` leaves is empty exactly for a blank text.
pub strip-is_blank : (s : String) → is_empty (strip s) ≡ is_blank s
unfolding strip
strip-is_blank s =
    ap is_empty (sym (strip_right-strip_left s))
    ∙ strip_right-is_blank (strip_left s)
    ∙ strip_left-is_blank s
