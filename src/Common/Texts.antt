-- ===== src/Common/Texts.antt =====
-- Texts as lists of character codes, with what `String.prototype` and a regular expression read of them.
use Prim.Native.Nat.{ℕ, ◌+◌, ◌-◌, ◌*◌}
use Prim.Native.Char.{code}
use Prim.Native.String.{String, [] as empty, ◌∷◌ as ◌then◌}
use mathlib.Core.Path.{◌≡◌, refl}
use mathlib.Core.Bool.{Bool, true, false, ◌&&◌, ◌||◌}
use mathlib.Core.List.{List, [], ◌∷◌, ◌++◌}
use native.Mathlib.Omega.{arith}
use swafri_backend.Common.Tests.{◌==◌, leb, if◌then◌else◌}

abbrev pub codes : String → List ℕ
codes empty = []
codes (c then s) = code c ∷ codes s

abbrev pub same_text : List ℕ → List ℕ → Bool
same_text [] [] = true
same_text [] (b ∷ ys) = false
same_text (a ∷ xs) [] = false
same_text (a ∷ xs) (b ∷ ys) = a == b && same_text xs ys

module _ (p : ℕ → Bool) where
  abbrev pub take_while : List ℕ → List ℕ
  take_while [] = []
  take_while (c ∷ cs) = if p c then c ∷ take_while cs else []

  abbrev pub drop_while : List ℕ → List ℕ
  drop_while [] = []
  drop_while (c ∷ cs) = if p c then drop_while cs else c ∷ cs

  abbrev pub all_of : List ℕ → Bool
  all_of [] = true
  all_of (c ∷ cs) = p c && all_of cs

  -- A text in the class, with a text after it that does not begin in the class.
  abbrev pub starts_in : List ℕ → Bool
  starts_in [] = false
  starts_in (c ∷ cs) = p c

  pub take_while-append :
      (xs ys : List ℕ) → all_of xs ≡ true → starts_in ys ≡ false → take_while (xs ++ ys) ≡ xs
  take_while-append [] [] h k = refl
  take_while-append [] (y ∷ ys) h k = ground (arith)
  take_while-append (x ∷ xs) ys h k = ground (arith, take_while-append xs ys)

  pub drop_while-append :
      (xs ys : List ℕ) → all_of xs ≡ true → starts_in ys ≡ false → drop_while (xs ++ ys) ≡ ys
  drop_while-append [] [] h k = refl
  drop_while-append [] (y ∷ ys) h k = ground (arith)
  drop_while-append (x ∷ xs) ys h k = ground (arith, drop_while-append xs ys)

-- `\w`, `\s` and `\d`.
abbrev pub is_digit : ℕ → Bool
is_digit c = leb 48 c && leb c 57

abbrev pub is_word : ℕ → Bool
is_word c = is_digit c || leb 65 c && leb c 90 || c == 95 || leb 97 c && leb c 122

abbrev pub is_space : ℕ → Bool
is_space c =
    leb 9 c && leb c 13
    || c == 32
    || c == 160
    || c == 5760
    || leb 8192 c && leb c 8202
    || c == 8232
    || c == 8233
    || c == 8239
    || c == 8287
    || c == 12288
    || c == 65279

-- `parseInt` in base ten, of digits; the code's numbers are exact up to 2 ^ 53.
abbrev pub parse_digits : ℕ → List ℕ → ℕ
parse_digits acc [] = acc
parse_digits acc (c ∷ cs) = parse_digits (acc * 10 + (c - 48)) cs
