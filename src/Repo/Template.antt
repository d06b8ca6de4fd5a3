-- ===== src/Repo/Template.antt =====
-- crates/zedb-core/src/repo/template.rs: the `${name}` placeholders of migration SQL.
-- A `str` is the list of its UTF-8 bytes; the marks that are searched for are ASCII, so the
-- positions are those of the characters. A `BTreeMap` is an association list.
pub mod Scan
pub mod Pieces
pub mod Render
pub mod Fill
pub mod Accept
use ze_db.Prelude.{
  ℕ, zero, suc, ◌≡◌, refl, Bool, true, false, not, ◌&&◌, ◌||◌, List, [], ◌∷◌, ◌++◌, Option, none,
  some,
}
use ze_db.Prelude.Tests.{◌==◌, if◌then◌else◌}
use ze_db.Prelude.Lists.{length, all, keep}
use ze_db.Prelude.Text.{
  Text, codes, text_eq, contains_text, is_ascii_alphabetic, is_ascii_alphanumeric, starts_with,
  strip_prefix, replace,
}

-- The two errors of `RepoError` that `render` returns.
pub data RenderError : Type 0 where
  invalid_identifier : Text → Text → RenderError
  missing_param : Text → RenderError

pub data Rendered (A : Type 0) : Type 0 where
  ok : A → Rendered A
  err : RenderError → Rendered A

infixl 5 ◌>>=◌
abbrev pub ◌>>=◌ : {A B : Type 0} → Rendered A → (A → Rendered B) → Rendered B
ok x >>= next = next x
err problem >>= next = err problem

pub >>=-eq-ok :
    {A B : Type 0} (first : Rendered A) (next : A → Rendered B) {y : B}
    → (first >>= next) ≡ ok y
    → (x : A) × (first ≡ ok x) × (next x ≡ ok y)
>>=-eq-ok (ok x) next e = (x, refl, e)
>>=-eq-ok (err problem) next e = cc

abbrev pub builtin_params : List Text
builtin_params = codes "db" ∷ codes "cluster" ∷ []

-- `rest.find("${")`, and the slice behind it.
unfoldable pub after_open : Text → Option Text
after_open [] = none
after_open (c ∷ cs) = elim (strip_prefix (b'$' ∷ b'{' ∷ []) (c ∷ cs)) [
  | some rest ↦ some rest
  | none ↦ after_open cs
]

-- `rest.find('}')`: the slices before and behind it.
unfoldable pub until_close : Text → Option (Text × Text)
until_close [] = none
until_close (c ∷ cs) = elim (c == b'}') [
  | true ↦ some ([], cs)
  | false ↦ elim (until_close cs) [ none ↦ none | some (name, rest) ↦ some (c ∷ name, rest) ]
]

unfoldable pub is_word_char : ℕ → Bool
is_word_char c = is_ascii_alphanumeric c || c == b'_'

abbrev pub is_empty : Text → Bool
is_empty [] = true
is_empty (c ∷ cs) = false

unfoldable pub is_placeholder_name : Text → Bool
is_placeholder_name name = not (is_empty name) && all is_word_char name

unfoldable pub push_name : Text → List Text → List Text
push_name name names =
    if is_placeholder_name name && not (contains_text names name) then names ++ name ∷ [] else names

-- The `while let` loop, on fuel; each round shortens `rest` by three characters at least.
unfoldable pub scan : ℕ → Text → List Text → Option (List Text)
scan zero rest names = none
scan (suc fuel) rest names = elim (after_open rest) [
  | none ↦ some names
  | some opened ↦ elim (until_close opened) [
    | none ↦ some names
    | some (name, rest') ↦ scan fuel rest' (push_name name names)
  ]
]

abbrev or_empty : Option (List Text) → List Text
or_empty none = []
or_empty (some names) = names

unfoldable pub placeholders : Text → List Text
placeholders sql = or_empty (scan (suc (length sql)) sql [])

unfoldable pub undeclared_placeholders : Text → List Text → List Text
undeclared_placeholders sql declared =
    keep (λ name. not (contains_text declared name)) (placeholders sql)

unfoldable pub is_identifier : Text → Bool
is_identifier [] = false
is_identifier (c ∷ cs) = (is_ascii_alphabetic c || c == b'_') && all is_word_char cs

-- `values.get(name)`.
unfoldable pub lookup : Text → List (Text × Text) → Option Text
lookup k [] = none
lookup k ((j, v) ∷ m) = if text_eq j k then some v else lookup k m

-- `format!("${{{name}}}")`.
abbrev pub braced : Text → Text
braced name = b'$' ∷ b'{' ∷ (name ++ b'}' ∷ [])

-- One round of the loop in `render`.
unfoldable pub substitute : List (Text × Text) → Text → Text → Rendered Text
substitute values name rendered = elim (lookup name values) [
  | none ↦ err (missing_param name)
  | some value ↦
      if contains_text builtin_params name && not (is_identifier value)
      then err (invalid_identifier name value)
      else ok (replace (braced name) value rendered)
]

unfoldable pub render_names : List (Text × Text) → List Text → Text → Rendered Text
render_names values [] rendered = ok rendered
render_names values (name ∷ names) rendered =
    substitute values name rendered >>= render_names values names

unfoldable pub render : Text → List (Text × Text) → Rendered Text
render sql values = render_names values (placeholders sql) sql
