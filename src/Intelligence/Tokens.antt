-- ===== src/Intelligence/Tokens.antt =====
-- crates/zedb-ch/src/schema_intelligence/tokens.rs: the tokenizer of the editor, on bytes.
pub mod Utf8
pub mod Skips
pub mod Spans
use Prim.Native.Nat.{min, max}
use ze_db.Prelude.{
  ℕ, zero, suc, ◌+◌, ◌-◌, ◌≤◌, Bool, true, false, not, ◌&&◌, ◌||◌, List, [], ◌∷◌, ◌++◌, Option,
  none, some,
}
use mathlib.Core.Option.{map}
use ze_db.Prelude.Tests.{ltb, leb, ◌==◌, if◌then◌else◌}
use ze_db.Prelude.Lists.{length, take, drop, keep}
use ze_db.Prelude.Text.{Text, text_eq, is_ascii_alphabetic, is_ascii_alphanumeric}

-- `Token`: the ends of the range are byte offsets.
pub record Token : Type 0 where
  pub text : Text
  pub start : ℕ
  pub stop : ℕ
  pub identifier : Bool

-- An offset, and the text behind it.
abbrev pub Cursor : Type 0
Cursor = ℕ × Text

-- `sql[index..]` does not panic: the offset in front of the rest is a character boundary.
unfoldable pub is_boundary : Text → Bool
is_boundary [] = true
is_boundary (b ∷ bs) = not (leb 0x80 b && ltb b 0xc0)

-- The bytes of the character with this first byte, in valid UTF-8.
unfoldable pub width : ℕ → ℕ
width c = if ltb c 0x80 then 1 else if ltb c 0xe0 then 2 else if ltb c 0xf0 then 3 else 4

-- `char_len` at the head of the rest; `none` is a panic.
unfoldable pub char_len : Text → Option ℕ
char_len [] = some 1
char_len (c ∷ cs) = if is_boundary (c ∷ cs) then some (width c) else none

abbrev pub is_word_byte : ℕ → Bool
is_word_byte c = is_ascii_alphanumeric c || c == b'_'

unfoldable pub is_ascii_whitespace : ℕ → Bool
is_ascii_whitespace c = c == b' ' || c == 9 || c == 10 || c == 12 || c == 13

-- `(index + n).min(bytes.len())`
abbrev pub advance : ℕ → Cursor → Cursor
advance n (i, rest) = (i + min n (length rest), drop n rest)

-- The loop behind `--`.
unfoldable pub skip_line : ℕ → Text → Cursor
skip_line i [] = (i, [])
skip_line i (c ∷ cs) = if c == 10 then (i, c ∷ cs) else skip_line (i + 1) cs

-- The loop behind `/*`.
unfoldable pub skip_block : ℕ → Text → Cursor
skip_block i [] = (i, [])
skip_block i (c ∷ []) = (i, c ∷ [])
skip_block i (c ∷ d ∷ cs) = elim (c == b'*' && d == b'/') [
  | true ↦ (i, c ∷ d ∷ cs)
  | false ↦ skip_block (i + 1) (d ∷ cs)
]

-- The loop behind a quote, with its escapes of two bytes.
unfoldable pub skip_string : ℕ → ℕ → Text → Cursor
skip_string q i [] = (i, [])
skip_string q i (c ∷ []) = (i + 1, [])
skip_string q i (c ∷ d ∷ cs) = elim (c == b'\\') [
  | true ↦ skip_string q (i + 2) cs
  | false ↦ elim (c == q) [ true ↦ (i + 1, d ∷ cs) | false ↦ skip_string q (i + 1) (d ∷ cs) ]
]

-- The loop over the bytes of a word.
unfoldable pub skip_word : ℕ → Text → Cursor
skip_word i [] = (i, [])
skip_word i (c ∷ cs) = if is_word_byte c then skip_word (i + 1) cs else (i, c ∷ cs)

-- The loop behind a backtick: where the name ends, and where the loop does, from the backtick on.
-- `none` is a panic.
unfoldable pub name_loop : ℕ → ℕ → Text → Option (ℕ × ℕ)
name_loop zero k rest = none
name_loop (suc f) k [] = some (k, k)
name_loop (suc f) k (c ∷ cs) = elim (c == b'\\') [
  | true ↦ elim (char_len cs) [
    | none ↦ none
    | some n ↦ name_loop f (k + min (1 + n) (length (c ∷ cs))) (drop n cs)
  ]
  | false ↦ elim (c == b'`') [
    | true ↦ some (k, k + 1)
    | false ↦ elim (char_len (c ∷ cs)) [
      | none ↦ none
      | some n ↦ name_loop f (k + n) (drop n (c ∷ cs))
    ]
  ]
]

-- A round of `tokenize`: nothing, a token, or a panic, and where the next begins.
pub data Round : Type 0 where
  skip : Cursor → Round
  found : Token → Cursor → Round
  panicked : Round

-- A token of the rest from offset `i` to `j`; a slice panics off a boundary.
abbrev pub slice_token : Bool → ℕ → Text → Cursor → Round
slice_token identifier i rest (j, more) =
    if is_boundary more
    then Round.found
        (record { text = take (j - i) rest; start = i; stop = j; identifier = identifier })
        (j, more)
    else Round.panicked

abbrev pub quoted_token : ℕ → Text → Option (ℕ × ℕ) → Round
quoted_token i rest none = Round.panicked
quoted_token i rest (some (inner, total)) =
    if is_boundary (drop inner rest)
    then Round.found
        (record { text = take inner rest; start = i; stop = i + 1 + total; identifier = true })
        (i + 1 + total, drop total rest)
    else Round.panicked

abbrev pub char_token : ℕ → Text → Option ℕ → Round
char_token i rest none = Round.panicked
char_token i rest (some n) = slice_token false i rest (i + n, drop n rest)

abbrev pub head_is : ℕ → Text → Bool
head_is b [] = false
head_is b (c ∷ cs) = c == b

abbrev pub is_quote : ℕ → Bool
is_quote c = c == b'\'' || c == b'"'

abbrev pub starts_word : ℕ → Bool
starts_word c = is_ascii_alphabetic c || c == b'_'

-- The rest begins with `c`.
unfoldable pub round : ℕ → ℕ → Text → Round
round i c cs = elim (is_ascii_whitespace c) [
  | true ↦ Round.skip (i + 1, cs)
  | false ↦ elim (c == b'-' && head_is b'-' cs) [
    | true ↦ Round.skip (skip_line (i + 2) (drop 1 cs))
    | false ↦ elim (c == b'/' && head_is b'*' cs) [
      | true ↦ Round.skip (advance 2 (skip_block (i + 2) (drop 1 cs)))
      | false ↦ elim (c == b'`') [
        | true ↦ quoted_token i cs (name_loop (suc (length cs)) 0 cs)
        | false ↦ elim (is_quote c) [
          | true ↦ Round.skip (skip_string c (i + 1) cs)
          | false ↦ elim (starts_word c) [
            | true ↦ slice_token true i (c ∷ cs) (skip_word (i + 1) cs)
            | false ↦ char_token i (c ∷ cs) (char_len (c ∷ cs))
          ]
        ]
      ]
    ]
  ]
]

-- What a round adds to the tokens behind it.
abbrev pub behind_round : (ℕ → Text → Option (List Token)) → Round → Option (List Token)
behind_round next (Round.skip (j, more)) = next j more
behind_round next (Round.found t (j, more)) = map (λ ts. t ∷ ts) (next j more)
behind_round next Round.panicked = none

-- The loop of `tokenize`; `none` is a panic, or fuel that ran out.
unfoldable pub tokenize_loop : ℕ → ℕ → Text → Option (List Token)
tokenize_loop zero i rest = none
tokenize_loop (suc f) i [] = some []
tokenize_loop (suc f) i (c ∷ cs) = behind_round (tokenize_loop f) (round i c cs)

unfoldable pub tokenize : Text → Option (List Token)
tokenize sql = tokenize_loop (suc (length sql)) 0 sql
