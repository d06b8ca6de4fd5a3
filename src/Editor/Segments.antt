-- ===== src/Editor/Segments.antt =====
-- The statements and directives of a buffer.
use ze_db.Prelude.{ℕ, ◌+◌, ◌≡◌, ◌⊎◌, refl, Bool, true, not, [], ◌∷◌, ◌++◌, some}
use ze_db.Prelude.Tests.{◌==◌}
use ze_db.Prelude.Lists.{length, all}
use ze_db.Prelude.Text.{Text}
use ze_db.Intelligence.Tokens.{is_boundary}
use ze_db.Editor.{Ranges, is_directive}
use ze_db.Editor.Modes.{Mode, code, read, among_code}

-- No semicolon of the text stands among code.
abbrev pub IsUncut : Text → Type 0
IsUncut t = (m : Mode) × (read code t ≡ some m)

-- Nor is it within a string or a comment at its end.
abbrev pub EndsInCode : Text → Type 0
EndsInCode t = (m : Mode) × (read code t ≡ some m) × (among_code m ≡ true)

-- The text ends with a newline that is in no string and in no block comment.
abbrev pub EndsInLine : Text → Type 0
EndsInLine t = (front : Text) × (t ≡ front ++ b'\n' ∷ []) × (read code t ≡ some code)

abbrev pub is_line : Text → Bool
is_line t = all (λ c. not (c == b'\n')) t

-- A segment, what separates it from the next, and the text behind: a statement and its semicolon, a
-- directive and its newline or the end of the text, or what stands before a directive.
abbrev pub Cuts : Text → Text → Text → Type 0
Cuts body separator more =
    ((separator ≡ b';' ∷ []) × EndsInCode body)
    ⊎ (((separator ≡ b'\n' ∷ []) ⊎ ((separator ≡ []) × (more ≡ [])))
        × (is_line body ≡ true)
        × (is_directive (body ++ (separator ++ more)) ≡ true))
    ⊎ ((separator ≡ []) × EndsInLine body × (is_directive more ≡ true))

-- The ranges cut the text, which begins at an offset, into segments without a gap or an overlap,
-- and each end of a range is a boundary between characters.
abbrev pub Tiles : ℕ → Text → Ranges → Type 0
Tiles at t [] = ⊥
Tiles at t ((from, to) ∷ []) =
    (from ≡ at) × (to ≡ at + length t) × (is_boundary t ≡ true) × IsUncut t
Tiles at t ((from, to) ∷ r ∷ rs) =
    (body : Text) × (separator : Text) × (more : Text) × (from ≡ at)
    × (to ≡ at + length body)
    × (t ≡ body ++ (separator ++ more))
    × (is_boundary t ≡ true)
    × (is_boundary (separator ++ more) ≡ true)
    × Cuts body separator more
    × Tiles (to + length separator) more (r ∷ rs)

pub Tiles-cons :
    (at to : ℕ) (t body separator more : Text) (rs : Ranges)
    → to ≡ at + length body
    → t ≡ body ++ (separator ++ more)
    → is_boundary t ≡ true
    → is_boundary (separator ++ more) ≡ true
    → Cuts body separator more
    → Tiles (to + length separator) more rs
    → Tiles at t ((at, to) ∷ rs)
Tiles-cons at to t body separator more [] e split a b c h = absurd h
Tiles-cons at to t body separator more (r ∷ rs) e split a b c h =
    (body, separator, more, refl, e, split, a, b, c, h)
