-- ===== src/Editor/Modes.antt =====
-- What a byte of a buffer is: code, or part of a string or a comment. Nothing here refers to the
-- loop of `split_statements`.
use ze_db.Prelude.{
  ℕ, ◌≡◌, refl, inl, inr, Bool, true, false, not, ◌&&◌, [], ◌∷◌, ◌++◌, Option, none, some,
}
use ze_db.Prelude.Tests.{◌==◌, Option-cases, if◌then◌else◌}
use ze_db.Prelude.Text.{Text}
use ze_db.Editor.{is_any_quote}

-- What has been read: code; a dash or a slash, which may begin a comment; the inside of a string
-- with this quote, behind a backslash or not; a line comment; a block comment, behind a star or
-- not.
pub data Mode : Type 0 where
  code dash slash line block star : Mode
  quoted escape : ℕ → Mode

-- A semicolon among code ends the statement.
abbrev pub code_byte : ℕ → Option Mode
code_byte c =
    if c == b';'
    then none
    else some (
        if is_any_quote c
        then Mode.quoted c
        else if c == b'-'
        then dash
        else if c == b'/'
        then slash
        else code)

abbrev pub next : Mode → ℕ → Option Mode
next code c = code_byte c
next dash c = if c == b'-' then some line else code_byte c
next slash c = if c == b'*' then some block else code_byte c
next line c = some (if c == b'\n' then code else line)
next block c = some (if c == b'*' then star else block)
next star c = some (if c == b'/' then code else if c == b'*' then star else block)
next (quoted q) c = some (
    if c == b'\\' && not (q == b'`') then Mode.escape q else if c == q then code else Mode.quoted q)
next (escape q) c = some (Mode.quoted q)

abbrev pub or_stop : (Mode → Option Mode) → Option Mode → Option Mode
or_stop f none = none
or_stop f (some m) = f m

-- The mode behind a text; none if a semicolon in it ends the statement.
unfoldable pub read : Mode → Text → Option Mode
read m [] = some m
read m (c ∷ cs) = or_stop (λ m'. read m' cs) (next m c)

abbrev pub among_code : Mode → Bool
among_code code = true
among_code dash = true
among_code slash = true
among_code _ = false

pub read-append : (m : Mode) (s t : Text) → read m (s ++ t) ≡ or_stop (λ m'. read m' t) (read m s)
unfolding read
read-append m [] t = refl
read-append m (c ∷ s) t = elim (Option-cases (next m c)) [
  | inl e ↦ rw (e, or_stop) refl
  | inr (m', e) ↦ rw (e, or_stop) (read-append m' s t)
]
