-- ===== src/Intelligence/Tokens/Spans.antt =====
-- The ranges of the tokens, and that none of the tokenizer's slices panics.
use ze_db.Prelude.{
  ℕ, zero, suc, ◌+◌, ◌≤◌, ◌<◌, ◌≡◌, refl, sym, inl, inr, Bool, true, false, ◌&&◌, List, [], ◌∷◌,
  Option, none, some, arith,
}
use mathlib.Core.Path.{subst}
use ze_db.Prelude.Tests.{◌==◌, Bool-cases}
use ze_db.Prelude.Lists.{length, drop, length-drop}
use ze_db.Prelude.Text.{Text, is_ascii_alphabetic}
use ze_db.Prelude.Utf8.{is_utf8}
use ze_db.Intelligence.Tokens.{
  Token, Cursor, char_len, is_ascii_whitespace, skip_string, skip_word, name_loop, Round,
  slice_token, quoted_token, char_token, head_is, is_quote, starts_word, round, behind_round,
  tokenize_loop, tokenize,
}
use ze_db.Intelligence.Tokens.Utf8.{
  IsValid, IsWithin, IsValid-IsWithin, IsValid-boundary, char_len-IsValid, tail-IsWithin,
  ascii-IsValid,
}
use ze_db.Intelligence.Tokens.Skips.{
  Reaches, NameEnds, skip_line-Reaches, skip_block-Reaches, skip_string-Reaches, skip_word-Reaches,
  name_loop-NameEnds,
}

-- The round ends behind its first byte, at a character, and its token lies between.
abbrev pub Onward : ℕ → Text → Cursor → Type 0
Onward i rest (j, more) = (i < j) × (j + length more ≡ i + length rest) × IsValid more

abbrev pub Advances : ℕ → Text → Round → Type 0
Advances i rest (Round.skip x) = Onward i rest x
Advances i rest (Round.found t x) = (t.start ≡ i) × (t.stop ≡ x.0) × Onward i rest x
Advances i rest Round.panicked = ⊥

Reaches-Onward : (i c : ℕ) (cs : Text) (x : Cursor) → Reaches (i + 1) cs x → Onward i (c ∷ cs) x
Reaches-Onward i c cs x (le, sum, v) = (omega arith, omega arith, v)

slice_token-Advances :
    (identifier : Bool) (i : ℕ) (rest : Text) (x : Cursor)
    → Onward i rest x
    → Advances i rest (slice_token identifier i rest x)
slice_token-Advances identifier i rest (j, more) (lt, sum, v) =
    rw (IsValid-boundary more v) (refl, refl, (lt, sum, v))

quoted_token-Advances :
    (i c : ℕ) (cs : Text) (x : Option (ℕ × ℕ))
    → NameEnds 0 cs x
    → Advances i (c ∷ cs) (quoted_token i cs x)
quoted_token-Advances i c cs none (a, b, e, le, v, w) = absurd cc
quoted_token-Advances i c cs (some (inner, total)) (a, b, e, le, v, w) =
    let p' : inner ≡ 0 + a = cc in
    let p : inner ≡ a = omega arith in
    let q' : total ≡ 0 + b = cc in
    let q : total ≡ b = omega arith in
    rw (p, q, IsValid-boundary (drop a cs) v)
      (refl, refl, (omega arith, omega (arith, length-drop b cs), w))

head_is-length : (b : ℕ) (cs : Text) → head_is b cs ≡ true → 1 ≤ length cs
head_is-length b [] h = absurd cc
head_is-length b (c ∷ cs) h = omega arith

drop_one-IsWithin : (cs : Text) → IsValid cs → IsWithin (drop 1 cs)
drop_one-IsWithin [] v = IsValid-IsWithin [] v
drop_one-IsWithin (c ∷ cs) v = tail-IsWithin c cs (IsValid-IsWithin (c ∷ cs) v)

-- Behind the two bytes that open a comment.
comment-Onward :
    (i c b : ℕ) (cs : Text) (x : Cursor)
    → head_is b cs ≡ true
    → Reaches (i + 2) (drop 1 cs) x
    → Onward i (c ∷ cs) x
comment-Onward i c b cs x h (le, sum, v) =
    let pos = head_is-length b cs h in (omega arith, omega (arith, length-drop 1 cs), v)

-- The rounds that are neither blanks nor comments.
word_round-Advances :
    (i c : ℕ) (cs : Text)
    → IsValid (c ∷ cs)
    → (c < 0x80 → IsValid cs)
    → Advances i (c ∷ cs) (elim (c == b'`') [
      | true ↦ quoted_token i cs (name_loop (suc (length cs)) 0 cs)
      | false ↦ elim (is_quote c) [
        | true ↦ Round.skip (skip_string c (i + 1) cs)
        | false ↦ elim (starts_word c) [
          | true ↦ slice_token true i (c ∷ cs) (skip_word (i + 1) cs)
          | false ↦ char_token i (c ∷ cs) (char_len (c ∷ cs))
        ]
      ]
    ])
unfolding is_ascii_alphabetic
word_round-Advances i c cs v tail = elim (Bool-cases (c == b'`')) [
  | inl t ↦ rw t (
      quoted_token-Advances i c cs _
        (name_loop-NameEnds (suc (length cs)) 0 cs (omega arith) (tail (ground arith))))
  | inr a ↦ elim (Bool-cases (is_quote c)) [
    | inl t ↦
        let ascii : c < 0x80 = ground arith in
        rw (a, t)
          (Reaches-Onward i c cs _
            (skip_string-Reaches c (i + 1) cs ascii (IsValid-IsWithin cs (tail ascii))))
    | inr b ↦ elim (Bool-cases (starts_word c)) [
      | inl t ↦
          rw (a, b, t)
            (slice_token-Advances true i (c ∷ cs) _
              (Reaches-Onward i c cs _ (skip_word-Reaches (i + 1) cs (tail (ground arith)))))
      | inr d ↦
          let (n, e, le, w) = char_len-IsValid c cs v in
          rw (a, b, d, e)
            (slice_token-Advances false i (c ∷ cs) (i + suc n, drop n cs)
              (omega arith, omega (arith, length-drop n cs), w))
    ]
  ]
]

pub round-Advances : (i c : ℕ) (cs : Text) → IsValid (c ∷ cs) → Advances i (c ∷ cs) (round i c cs)
unfolding round is_ascii_whitespace
round-Advances i c cs v =
    let tail : c < 0x80 → IsValid cs = λ lt. ascii-IsValid c cs lt (IsValid-IsWithin (c ∷ cs) v) in
    elim (Bool-cases (is_ascii_whitespace c)) [
      | inl t ↦ rw (t, round) (omega arith, omega arith, tail (ground arith))
      | inr a ↦ elim (Bool-cases (c == b'-' && head_is b'-' cs)) [
        | inl t ↦
            rw (a, t, round)
              (comment-Onward i c b'-' cs _ (ground arith) (
                skip_line-Reaches (i + 2) (drop 1 cs) (drop_one-IsWithin cs (tail (ground arith)))))
        | inr b ↦ elim (Bool-cases (c == b'/' && head_is b'*' cs)) [
          | inl t ↦
              rw (a, b, t, round)
                (comment-Onward i c b'*' cs _ (ground arith) (
                  skip_block-Reaches (i + 2) (drop 1 cs)
                    (drop_one-IsWithin cs (tail (ground arith)))))
          | inr d ↦ rw (a, b, d, round) (word_round-Advances i c cs v tail)
        ]
      ]
    ]

-- The tokens from offset `i` to `n`: in order, not empty, and apart.
abbrev pub Spans : ℕ → ℕ → List Token → Type 0
Spans i n [] = i ≤ n
Spans i n (t ∷ ts) = (i ≤ t.start) × (t.start < t.stop) × Spans t.stop n ts

Spans-earlier : (i j n : ℕ) (ts : List Token) → i ≤ j → Spans j n ts → Spans i n ts
Spans-earlier i j n [] le h = omega arith
Spans-earlier i j n (t ∷ ts) le (a, b, c) = (omega arith, b, c)

abbrev Finds : ℕ → ℕ → Option (List Token) → Type 0
Finds i n x = (ts : List Token) × (x ≡ some ts) × Spans i n ts

behind_round-Finds :
    (i n : ℕ) (rest : Text) (next : ℕ → Text → Option (List Token)) (x : Round)
    → i + length rest ≡ n
    → Advances i rest x
    → ((j : ℕ) (more : Text) → i < j → j + length more ≡ n → IsValid more → Finds j n (next j more))
    → Finds i n (behind_round next x)
behind_round-Finds i n rest next (Round.skip (j, more)) e (lt, sum, v) later =
    let (ts, p, s) = later j more lt (omega arith) v in
    (ts, p, Spans-earlier i j n ts (omega arith) s)
behind_round-Finds i n rest next (Round.found t (j, more)) e (a, b, (lt, sum, v)) later =
    let (ts, p, s) = later j more lt (omega arith) v in
    (t ∷ ts, rw p refl, (omega arith, omega arith, subst (λ z. Spans z n ts) (sym b) s))
behind_round-Finds i n rest next Round.panicked e h later = absurd h

tokenize_loop-Finds :
    (f i n : ℕ) (rest : Text)
    → length rest < f
    → i + length rest ≡ n
    → IsValid rest
    → Finds i n (tokenize_loop f i rest)
unfolding tokenize_loop
tokenize_loop-Finds zero i n rest h e v = absurd (omega arith)
tokenize_loop-Finds (suc f) i n [] h e v = ([], refl, omega arith)
tokenize_loop-Finds (suc f) i n (c ∷ cs) h e v =
    behind_round-Finds i n (c ∷ cs) (tokenize_loop f) (round i c cs) e (round-Advances i c cs v)
      (λ j more lt sum w. tokenize_loop-Finds f j n more (omega arith) sum w)

-- The tokenizer ends without a panic on every text, and its tokens are not empty, do not overlap,
-- and come in the order of the text, within it.
pub tokenize-Spans :
    (sql : Text)
    → is_utf8 sql ≡ true
    → (tokens : List Token) × (tokenize sql ≡ some tokens) × Spans 0 (length sql) tokens
unfolding tokenize is_utf8
tokenize-Spans sql h =
    tokenize_loop-Finds (suc (length sql)) 0 (length sql) sql (omega arith) (omega arith) h
