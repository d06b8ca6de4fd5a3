-- ===== src/Repo/Template/Pieces.antt =====
-- A template as pieces of plain text and placeholders, and how one replacement acts on it.
use ze_db.Prelude.{
  ℕ, zero, suc, ◌<◌, ◌≡◌, refl, ◌∙◌, true, false, not, List, [], ◌∷◌, ◌++◌, some, arith,
}
use ze_db.Prelude.Tests.{◌==◌, if◌then◌else◌}
use ze_db.Prelude.Lists.{length, length-append, all}
use ze_db.Prelude.Text.{
  is_ascii_alphanumeric, Text, text_eq, strip_prefix, starts_with, replace_from,
}
use ze_db.Repo.Template.{
  after_open, until_close, is_word_char, is_placeholder_name, push_name, scan, placeholders,
}
use ze_db.Repo.Template.Scan.{scan_end, scan_round}

pub data Piece : Type 0 where
  lit : Text → Piece
  hole : Text → Piece

-- No `$`, and so no placeholder.
abbrev pub IsPlain : Text → Type 0
IsPlain t = all (λ c. not (c == b'$')) t ≡ true

abbrev pub emit : List Piece → Text
emit [] = []
emit (lit t ∷ ps) = t ++ emit ps
emit (hole name ∷ ps) = b'$' ∷ b'{' ∷ (name ++ b'}' ∷ emit ps)

abbrev pub IsTemplate : List Piece → Type 0
IsTemplate [] = Unit
IsTemplate (lit t ∷ ps) = IsPlain t × IsTemplate ps
IsTemplate (hole name ∷ ps) = (is_placeholder_name name ≡ true) × IsTemplate ps

abbrev pub IsWord : Text → Type 0
IsWord name = all is_word_char name ≡ true

pub IsWord-of_name : (name : Text) → is_placeholder_name name ≡ true → IsWord name
unfolding is_placeholder_name
IsWord-of_name [] h = refl
IsWord-of_name (c ∷ name) h = ground arith

word_char_ends : (c : ℕ) → is_word_char c ≡ true → (c == b'}') ≡ false
unfolding is_word_char is_ascii_alphanumeric
word_char_ends c h = ground arith

word_char_plain : (c : ℕ) → is_word_char c ≡ true → not (c == b'$') ≡ true
unfolding is_word_char is_ascii_alphanumeric
word_char_plain c h = ground arith

pub IsWord-IsPlain : (name : Text) → IsWord name → IsPlain name
IsWord-IsPlain [] h = refl
IsWord-IsPlain (c ∷ name) h = ground (arith, word_char_plain c, IsWord-IsPlain name)

-- How the scan reads a template.

after_open-plain : (t rest : Text) → IsPlain t → after_open (t ++ rest) ≡ after_open rest
unfolding after_open strip_prefix
after_open-plain [] rest h = refl
after_open-plain (c ∷ t) rest h = ground (arith, after_open-plain t rest)

until_close-word :
    (name rest : Text) → IsWord name → until_close (name ++ b'}' ∷ rest) ≡ some (name, rest)
unfolding until_close
until_close-word [] rest h = refl
until_close-word (c ∷ name) rest h = ground (arith, word_char_ends c, until_close-word name rest)

abbrev pub names_of : List Piece → List Text → List Text
names_of [] names = names
names_of (lit t ∷ ps) names = names_of ps names
names_of (hole name ∷ ps) names = names_of ps (push_name name names)

scan_same :
    (fuel : ℕ) (a b : Text) (names : List Text)
    → after_open a ≡ after_open b
    → scan (suc fuel) a names ≡ scan (suc fuel) b names
unfolding scan
scan_same fuel a b names e = rw (e, scan)

open_hole : (name rest : Text) → after_open (b'$' ∷ b'{' ∷ (name ++ rest)) ≡ some (name ++ rest)
unfolding after_open strip_prefix
open_hole name rest = refl

length-hole : (name rest : Text) → length rest < length (b'$' ∷ b'{' ∷ (name ++ b'}' ∷ rest))
length-hole name rest = omega (arith, length-append {0} name (b'}' ∷ rest))

pub scan-emit :
    (fuel : ℕ) (ps : List Piece) (names : List Text)
    → IsTemplate ps
    → length (emit ps) < fuel
    → scan fuel (emit ps) names ≡ some (names_of ps names)
scan-emit zero ps names h l = absurd (omega arith)
scan-emit (suc fuel) [] names h l = scan_end fuel [] names (unfold after_open in refl)
scan-emit (suc fuel) (lit t ∷ ps) names h l =
    scan_same fuel (t ++ emit ps) (emit ps) names (after_open-plain t (emit ps) h.0)
    ∙ scan-emit (suc fuel) ps names h.1 (omega (arith, length-append {0} t (emit ps)))
scan-emit (suc fuel) (hole name ∷ ps) names h l =
    scan_round fuel _ (name ++ b'}' ∷ emit ps) name (emit ps) names
      (open_hole name (b'}' ∷ emit ps)) (until_close-word name (emit ps) (IsWord-of_name name h.0))
    ∙ scan-emit fuel ps (push_name name names) h.1 (omega (arith, length-hole name (emit ps)))

pub placeholders-emit : (ps : List Piece) → IsTemplate ps → placeholders (emit ps) ≡ names_of ps []
unfolding placeholders
placeholders-emit ps h = rw (scan-emit (suc (length (emit ps))) ps [] h (omega arith))

-- How one replacement acts on a template.

abbrev pub put : Text → Text → List Piece → List Piece
put name value [] = []
put name value (lit t ∷ ps) = lit t ∷ put name value ps
put name value (hole m ∷ ps) = (if text_eq name m then lit value else hole m) ∷ put name value ps

pub replace_from-skip :
    (u pat value rest : Text)
    → replace_from (length u) pat value (u ++ rest) ≡ replace_from 0 pat value rest
unfolding replace_from
replace_from-skip [] pat value rest = refl
replace_from-skip (c ∷ u) pat value rest = replace_from-skip u pat value rest

pub replace_from-plain :
    (t pat value rest : Text)
    → IsPlain t
    → replace_from 0 (b'$' ∷ pat) value (t ++ rest) ≡ t ++ replace_from 0 (b'$' ∷ pat) value rest
unfolding replace_from starts_with
replace_from-plain [] pat value rest h = refl
replace_from-plain (c ∷ t) pat value rest h = ground (arith, replace_from-plain t pat value rest)

pub starts_with-word :
    (name m rest : Text)
    → IsWord name
    → IsWord m
    → starts_with (name ++ b'}' ∷ []) (m ++ b'}' ∷ rest) ≡ text_eq name m
unfolding starts_with text_eq
starts_with-word [] [] rest h k = refl
starts_with-word [] (d ∷ m) rest h k = ground (arith, word_char_ends d)
starts_with-word (c ∷ name) [] rest h k = ground (arith, word_char_ends c)
starts_with-word (c ∷ name) (d ∷ m) rest h k = ground (arith, starts_with-word name m rest)
