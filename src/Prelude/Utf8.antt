-- ===== src/Prelude/Utf8.antt =====
-- `trim`, `lines` and the like where a text is its UTF-8 bytes.
use Prim.Native.Nat.{ℕ, zero, suc}
use mathlib.Core.Bool.{Bool, true, false, ◌&&◌, ◌||◌, not}
use mathlib.Core.List.{List, [], ◌∷◌, reverse}
use mathlib.Core.Option.{Option, none, some}
use ze_db.Prelude.Tests.{◌==◌, ltb, leb, if◌then◌else◌}
use ze_db.Prelude.Lists.{length, drop}
use ze_db.Prelude.Text.{Text, is_control, starts_with}

abbrev within : ℕ → ℕ → ℕ → Bool
within lo hi c = leb lo c && leb c hi

abbrev one : ℕ → Bool
one c = within 9 13 c || c == 32

abbrev two : ℕ → ℕ → Bool
two c d = c == 0xc2 && (d == 0x85 || d == 0xa0)

abbrev three : ℕ → ℕ → ℕ → Bool
three c d e =
    (c == 0xe1 && d == 0x9a && e == 0x80)
    || (c == 0xe2 && d == 0x80 && (within 0x80 0x8a e || e == 0xa8 || e == 0xa9 || e == 0xaf))
    || (c == 0xe2 && d == 0x81 && e == 0x9f)
    || (c == 0xe3 && d == 0x80 && e == 0x80)

-- The bytes of the White_Space character that the text begins with, or 0.
unfoldable pub white_width : Text → ℕ
white_width [] = 0
white_width (c ∷ []) = if one c then 1 else 0
white_width (c ∷ d ∷ []) = if one c then 1 else if two c d then 2 else 0
white_width (c ∷ d ∷ e ∷ t) =
    if one c then 1 else if two c d then 2 else if three c d e then 3 else 0

-- The same for the end of a text, whose bytes come last first.
unfoldable pub white_width_back : Text → ℕ
white_width_back [] = 0
white_width_back (c ∷ []) = if one c then 1 else 0
white_width_back (c ∷ d ∷ []) = if one c then 1 else if two d c then 2 else 0
white_width_back (c ∷ d ∷ e ∷ t) =
    if one c then 1 else if two d c then 2 else if three e d c then 3 else 0

-- At most one round for each byte.
unfoldable pub strip_white : (Text → ℕ) → ℕ → Text → Text
strip_white width zero t = t
strip_white width (suc fuel) t =
    let rest = strip_white width fuel (drop (width t) t) in if width t == 0 then t else rest

unfoldable pub trim_start : Text → Text
unfolding strip_white white_width
trim_start t = strip_white white_width (length t) t

unfoldable pub trim_end : Text → Text
unfolding strip_white white_width_back
trim_end t = reverse (strip_white white_width_back (length t) (reverse t))

unfoldable pub trim : Text → Text
unfolding trim_start trim_end
trim t = trim_end (trim_start t)

abbrev push_front : ℕ → List Text → List Text
push_front c [] = (c ∷ []) ∷ []
push_front c (l ∷ ls) = (c ∷ l) ∷ ls

-- `str::lines`: a line ends at a newline, or at a carriage return and a newline.
unfoldable pub lines : Text → List Text
lines [] = []
lines (c ∷ []) = if c == b'\n' then [] ∷ [] else (c ∷ []) ∷ []
lines (c ∷ d ∷ cs) =
    let rest = lines (d ∷ cs) in
    if c == b'\n' then [] ∷ rest else if c == b'\r' && d == b'\n' then rest else push_front c rest

abbrev pub is_empty : Text → Bool
is_empty [] = true
is_empty (c ∷ cs) = false

-- A byte-wise `<` on texts, the order of a `BTreeMap<String, _>`.
unfoldable pub text_lt : Text → Text → Bool
text_lt a [] = false
text_lt [] (y ∷ b) = true
text_lt (x ∷ a) (y ∷ b) = not (leb y x) || (x == y && text_lt a b)

-- `haystack.contains(needle)`, with the needle first.
unfoldable pub contains_part : Text → Text → Bool
unfolding starts_with
contains_part needle [] = is_empty needle
contains_part needle (c ∷ cs) = starts_with needle (c ∷ cs) || contains_part needle cs

-- `char::is_control` of the character that the text begins with: U+0080 to U+009F are two bytes.
abbrev high_control : ℕ → Text → Bool
high_control c [] = false
high_control c (d ∷ t) = c == 0xc2 && within 0x80 0x9f d

abbrev starts_control : ℕ → Text → Bool
starts_control c t = is_control c || high_control c t

unfoldable pub has_control : Text → Bool
unfolding is_control
has_control [] = false
has_control (c ∷ t) = starts_control c t || has_control t

unfoldable pub has_white : Text → Bool
unfolding white_width
has_white [] = false
has_white (c ∷ t) = not (white_width (c ∷ t) == 0) || has_white t

-- The bytes that may follow the first byte of a character: how many, and the range of the next.
abbrev pub lead : ℕ → Option (ℕ × ℕ × ℕ)
lead c =
    if ltb c 0x80
    then some (0, 0, 0)
    else if within 0xc2 0xdf c
    then some (1, 0x80, 0xbf)
    else if c == 0xe0
    then some (2, 0xa0, 0xbf)
    else if c == 0xed
    then some (2, 0x80, 0x9f)
    else if within 0xe1 0xef c
    then some (2, 0x80, 0xbf)
    else if c == 0xf0
    then some (3, 0x90, 0xbf)
    else if within 0xf1 0xf3 c
    then some (3, 0x80, 0xbf)
    else if c == 0xf4
    then some (3, 0x80, 0x8f)
    else none

-- `String::from_utf8` succeeds.
unfoldable pub utf8_loop : ℕ → ℕ → ℕ → Text → Bool
utf8_loop zero lo hi [] = true
utf8_loop (suc n) lo hi [] = false
utf8_loop zero lo hi (c ∷ cs) = elim (lead c) [
  | none ↦ false
  | some (n, lo', hi') ↦ utf8_loop n lo' hi' cs
]
utf8_loop (suc n) lo hi (c ∷ cs) = within lo hi c && utf8_loop n 0x80 0xbf cs

unfoldable pub is_utf8 : Text → Bool
is_utf8 t = utf8_loop 0 0 0 t
