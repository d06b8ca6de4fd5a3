-- ===== src/Prelude/Text.antt =====
-- Rust's text: a `str` is the list of its UTF-8 bytes.
use Prim.Native.Nat.{ℕ, zero, suc, ◌-◌}
use Prim.Native.Char.{code}
use Prim.Native.String.{String}
use mathlib.Core.Path.{◌≡◌, refl}
use mathlib.Core.Bool.{Bool, true, false, ◌&&◌, ◌||◌}
use mathlib.Core.Logic.{◌↔◌}
use mathlib.Core.List.{List, [], ◌∷◌, ◌++◌}
use mathlib.Core.Option.{Option, none, some}
use native.Mathlib.Omega.{arith}
use ze_db.Prelude.Tests.{◌==◌, leb, if◌then◌else◌}
use ze_db.Prelude.Lists.{length}

abbrev pub Text : Type 0
Text = List ℕ

-- The code points of a literal.
abbrev pub codes : String → Text
codes String.[] = []
codes (String.◌∷◌ c s) = code c ∷ codes s

-- `==` on two texts.
unfoldable pub text_eq : Text → Text → Bool
text_eq [] [] = true
text_eq (x ∷ a) (y ∷ b) = x == y && text_eq a b
text_eq _ _ = false

pub text_eq_iff : (a b : Text) → (text_eq a b ≡ true) ↔ (a ≡ b)
unfolding text_eq
text_eq_iff (x ∷ a) (y ∷ b) = ground (arith, text_eq_iff a b)
text_eq_iff _ _ = ground arith

pub text_eq_refl : (a : Text) → text_eq a a ≡ true
text_eq_refl a = (text_eq_iff a a).1 refl

-- `contains` on a list of texts.
unfoldable pub contains_text : List Text → Text → Bool
contains_text [] t = false
contains_text (x ∷ xs) t = text_eq x t || contains_text xs t

abbrev within : ℕ → ℕ → ℕ → Bool
within lo hi c = leb lo c && leb c hi

unfoldable pub is_ascii_digit : ℕ → Bool
is_ascii_digit c = within b'0' b'9' c

unfoldable pub is_ascii_alphabetic : ℕ → Bool
is_ascii_alphabetic c = within b'a' b'z' c || within b'A' b'Z' c

unfoldable pub is_ascii_alphanumeric : ℕ → Bool
unfolding is_ascii_digit is_ascii_alphabetic
is_ascii_alphanumeric c = is_ascii_alphabetic c || is_ascii_digit c

-- `to_ascii_uppercase` of a byte.
abbrev pub to_ascii_upper : ℕ → ℕ
to_ascii_upper c = if within b'a' b'z' c then c - 32 else c

-- `char::is_control`, at an ASCII character.
unfoldable pub is_control : ℕ → Bool
is_control c = leb c 31 || c == 127

-- `strip_prefix`.
unfoldable pub strip_prefix : Text → Text → Option Text
strip_prefix [] t = some t
strip_prefix (p ∷ ps) [] = none
strip_prefix (p ∷ ps) (c ∷ cs) = if p == c then strip_prefix ps cs else none

-- `text.starts_with(prefix)`, with the pattern first.
unfoldable pub starts_with : Text → Text → Bool
starts_with [] t = true
starts_with (p ∷ ps) [] = false
starts_with (p ∷ ps) (c ∷ cs) = p == c && starts_with ps cs

-- `str::replace`: non-overlapping occurrences from the left; the number counts the characters
-- of an occurrence that are still to be dropped. The pattern is not empty.
unfoldable pub replace_from : ℕ → Text → Text → Text → Text
replace_from skip pat val [] = []
replace_from (suc skip) pat val (c ∷ cs) = replace_from skip pat val cs
replace_from zero pat val (c ∷ cs) = elim (starts_with pat (c ∷ cs)) [
  | true ↦ val ++ replace_from (length pat - 1) pat val cs
  | false ↦ c ∷ replace_from zero pat val cs
]

unfoldable pub replace : Text → Text → Text → Text
unfolding replace_from starts_with
replace pat val t = replace_from 0 pat val t

pub starts_with-append : (p t : Text) → starts_with p (p ++ t) ≡ true
unfolding starts_with
starts_with-append [] t = refl
starts_with-append (c ∷ p) t = ground (arith, starts_with-append p t)
