-- ===== src/Intelligence/Statement/Marks.antt =====
-- Where the tokens `;` stand in the text.
use mathlib.Core.List.{append_assoc}
use mathlib.Core.Path.{subst}
use ze_db.Prelude.{
  ℕ, zero, suc, ◌+◌, ◌-◌, ◌<◌, ◌≡◌, refl, sym, ap, ◌∙◌, ◌⊎◌, inl, inr, Bool, true, false, ◌&&◌,
  List, [], ◌∷◌, ◌++◌, Option, none, some, arith,
}
use ze_db.Prelude.Tests.{◌==◌, Bool-cases}
use ze_db.Prelude.Lists.{length, length-append, take, drop, get_elem?, get_elem?-append_self, All}
use ze_db.Prelude.Text.{Text, text_eq}
use ze_db.Prelude.Utf8.{is_utf8}
use ze_db.Intelligence.Tokens.{
  Token, Cursor, is_word_byte, skip_line, skip_block, skip_string, skip_word, Round, slice_token,
  quoted_token, char_token, head_is, is_quote, starts_word, round, behind_round, is_boundary,
  is_ascii_whitespace, tokenize_loop, tokenize,
}
use ze_db.Intelligence.Tokens.Utf8.{IsValid}
use ze_db.Intelligence.Tokens.Spans.{Advances, round-Advances}
use ze_db.Intelligence.Statement.{semicolons}

-- The text ends with `more`.
abbrev EndsWith : Text → Text → Type 0
EndsWith more t = (front : Text) × (t ≡ front ++ more)

EndsWith-cons : (more t : Text) (c : ℕ) → EndsWith more t → EndsWith more (c ∷ t)
EndsWith-cons more t c (front, e) = (c ∷ front, ap (λ s. c ∷ s) e)

EndsWith-trans : (a b c : Text) → EndsWith a b → EndsWith b c → EndsWith a c
EndsWith-trans a b c (f, e) (g, h) = (g ++ f, h ∙ ap (λ s. g ++ s) e ∙ sym (append_assoc g f a))

drop-EndsWith : (n : ℕ) (t : Text) → EndsWith (drop n t) t
drop-EndsWith zero t = ([], refl)
drop-EndsWith (suc n) [] = ([], refl)
drop-EndsWith (suc n) (c ∷ t) = EndsWith-cons (drop n t) t c (drop-EndsWith n t)

skip_line-EndsWith : (i : ℕ) (t : Text) → EndsWith (skip_line i t).1 t
unfolding skip_line
skip_line-EndsWith i [] = ([], refl)
skip_line-EndsWith i (c ∷ t) = elim (Bool-cases (c == 10)) [
  | inl e ↦ rw (e, skip_line) ([], refl)
  | inr e ↦ rw (e, skip_line) (EndsWith-cons _ t c (skip_line-EndsWith (i + 1) t))
]

skip_word-EndsWith : (i : ℕ) (t : Text) → EndsWith (skip_word i t).1 t
unfolding skip_word
skip_word-EndsWith i [] = ([], refl)
skip_word-EndsWith i (c ∷ t) = elim (Bool-cases (is_word_byte c)) [
  | inl e ↦ rw (e, skip_word) (EndsWith-cons _ t c (skip_word-EndsWith (i + 1) t))
  | inr e ↦ rw (e, skip_word) ([], refl)
]

skip_block-EndsWith : (i : ℕ) (t : Text) → EndsWith (skip_block i t).1 t
unfolding skip_block
skip_block-EndsWith i [] = ([], refl)
skip_block-EndsWith i (c ∷ []) = ([], refl)
skip_block-EndsWith i (c ∷ d ∷ t) = elim (Bool-cases (c == b'*' && d == b'/')) [
  | inl e ↦ rw (e, skip_block) ([], refl)
  | inr e ↦ rw (e, skip_block) (EndsWith-cons _ (d ∷ t) c (skip_block-EndsWith (i + 1) (d ∷ t)))
]

skip_string-EndsWith : (q i : ℕ) (t : Text) → EndsWith (skip_string q i t).1 t
unfolding skip_string
skip_string-EndsWith q i [] = ([], refl)
skip_string-EndsWith q i (c ∷ []) = (c ∷ [], refl)
skip_string-EndsWith q i (c ∷ d ∷ t) = elim (Bool-cases (c == b'\\')) [
  | inl e ↦
      rw (e, skip_string)
        (EndsWith-cons _ (d ∷ t) c (EndsWith-cons _ t d (skip_string-EndsWith q (i + 2) t)))
  | inr e ↦ elim (Bool-cases (c == q)) [
    | inl u ↦ rw (e, u, skip_string) (c ∷ [], refl)
    | inr u ↦
        rw (e, u, skip_string) (EndsWith-cons _ (d ∷ t) c (skip_string-EndsWith q (i + 1) (d ∷ t)))
  ]
]

-- A round at `c` goes on in the text, and a token `;` begins with a semicolon or a backtick.
abbrev Opens : ℕ → Type 0
Opens c = (c ≡ b';') ⊎ (c ≡ b'`')

abbrev GoesOn : ℕ → Text → Round → Type 0
GoesOn c cs (Round.skip x) = EndsWith x.1 (c ∷ cs)
GoesOn c cs (Round.found t x) =
    EndsWith x.1 (c ∷ cs) × (text_eq t.text (b';' ∷ []) ≡ true → Opens c)
GoesOn c cs Round.panicked = Unit

take-semicolon : (k c : ℕ) (cs : Text) → text_eq (take k (c ∷ cs)) (b';' ∷ []) ≡ true → c ≡ b';'
unfolding text_eq
take-semicolon zero c cs e = absurd cc
take-semicolon (suc k) c cs e = ground arith

slice_token-GoesOn :
    (identifier : Bool) (i c : ℕ) (cs : Text) (x : Cursor)
    → EndsWith x.1 (c ∷ cs)
    → GoesOn c cs (slice_token identifier i (c ∷ cs) x)
slice_token-GoesOn identifier i c cs (j, more) h = elim (Bool-cases (is_boundary more)) [
  | inl e ↦ rw e (h, λ t. inl (take-semicolon (j - i) c cs t))
  | inr e ↦ rw e tt
]

quoted_token-GoesOn :
    (i c : ℕ) (cs : Text) (x : Option (ℕ × ℕ)) → c ≡ b'`' → GoesOn c cs (quoted_token i cs x)
quoted_token-GoesOn i c cs none e = tt
quoted_token-GoesOn i c cs (some (inner, total)) e =
    elim (Bool-cases (is_boundary (drop inner cs))) [
      | inl b ↦ rw b (EndsWith-cons _ cs c (drop-EndsWith total cs), λ t. inr e)
      | inr b ↦ rw b tt
    ]

char_token-GoesOn : (i c : ℕ) (cs : Text) (x : Option ℕ) → GoesOn c cs (char_token i (c ∷ cs) x)
char_token-GoesOn i c cs none = tt
char_token-GoesOn i c cs (some n) =
    slice_token-GoesOn false i c cs (i + n, drop n (c ∷ cs)) (drop-EndsWith n (c ∷ cs))

same_byte : (c d : ℕ) → (c == d) ≡ true → c ≡ d
same_byte c d e = ground arith

round-GoesOn : (i c : ℕ) (cs : Text) → GoesOn c cs (round i c cs)
unfolding round
round-GoesOn i c cs =
    let behind_two = drop-EndsWith 1 cs in
    elim (Bool-cases (is_ascii_whitespace c)) [
      | inl t ↦ rw (t, round) (c ∷ [], refl)
      | inr a ↦ elim (Bool-cases (c == b'-' && head_is b'-' cs)) [
        | inl t ↦
            rw (a, t, round)
              (EndsWith-cons _ cs c (
                EndsWith-trans _ (drop 1 cs) cs (skip_line-EndsWith (i + 2) (drop 1 cs))
                  behind_two))
        | inr b ↦ elim (Bool-cases (c == b'/' && head_is b'*' cs)) [
          | inl t ↦
              let (_, more) = skip_block (i + 2) (drop 1 cs) in
              rw (a, b, t, round)
                (EndsWith-cons (drop 2 more) cs c (
                  EndsWith-trans (drop 2 more) (drop 1 cs) cs
                    (EndsWith-trans (drop 2 more) more (drop 1 cs) (drop-EndsWith 2 more)
                      (skip_block-EndsWith (i + 2) (drop 1 cs)))
                    behind_two))
          | inr d ↦ elim (Bool-cases (c == b'`')) [
            | inl t ↦ rw (a, b, d, t, round) (quoted_token-GoesOn i c cs _ (same_byte c b'`' t))
            | inr e ↦ elim (Bool-cases (is_quote c)) [
              | inl t ↦
                  rw (a, b, d, e, t, round)
                    (EndsWith-cons _ cs c (skip_string-EndsWith c (i + 1) cs))
              | inr f ↦ elim (Bool-cases (starts_word c)) [
                | inl t ↦
                    rw (a, b, d, e, f, t, round)
                      (slice_token-GoesOn true i c cs (skip_word (i + 1) cs)
                        (EndsWith-cons _ cs c (skip_word-EndsWith (i + 1) cs)))
                | inr g ↦ rw (a, b, d, e, f, g, round) (char_token-GoesOn i c cs _)
              ]
            ]
          ]
        ]
      ]
    ]

-- At the offset there is a semicolon, or the backtick of a quoted name.
abbrev pub Mark : Text → ℕ → Type 0
Mark sql p = (get_elem? sql p ≡ some b';') ⊎ (get_elem? sql p ≡ some b'`')

abbrev Marked : Text → Option (List Token) → Type 0
Marked sql x = (ts : List Token) × (x ≡ some ts) × All (Mark sql) (semicolons ts)

at_rest :
    (sql : Text) (i c : ℕ) (cs : Text)
    → EndsWith (c ∷ cs) sql
    → i + length (c ∷ cs) ≡ length sql
    → get_elem? sql i ≡ some c
at_rest sql i c cs (front, e) n =
    let whole = ap length e in
    let at : length front ≡ i = omega (arith, length-append front (c ∷ cs)) in
    rw e (subst (λ k. get_elem? (front ++ c ∷ cs) k ≡ some c) at (get_elem?-append_self front cs c))

opened-Mark : (sql : Text) (i c : ℕ) → get_elem? sql i ≡ some c → Opens c → Mark sql i
opened-Mark sql i c e h = elim h [ inl s ↦ inl (e ∙ ap some s) | inr s ↦ inr (e ∙ ap some s) ]

behind_round-Marked :
    (sql : Text) (i c : ℕ) (cs : Text) (next : ℕ → Text → Option (List Token)) (x : Round)
    → EndsWith (c ∷ cs) sql
    → i + length (c ∷ cs) ≡ length sql
    → Advances i (c ∷ cs) x
    → GoesOn c cs x
    → ((j : ℕ) (more : Text)
        → i < j
        → j + length more ≡ length sql
        → IsValid more
        → EndsWith more sql
        → Marked sql (next j more))
    → Marked sql (behind_round next x)
behind_round-Marked sql i c cs next (Round.skip (j, more)) w n (lt, sum, v) g later =
    later j more lt (omega arith) v (EndsWith-trans more (c ∷ cs) sql g w)
behind_round-Marked sql i c cs next (Round.found t (j, more)) w n (a, b, (lt, sum, v)) (g, h)
      later =
    let (ts, e, marks) = later j more lt (omega arith) v (EndsWith-trans more (c ∷ cs) sql g w) in
    (
      t ∷ ts,
      rw e refl,
      elim (Bool-cases (text_eq t.text (b';' ∷ []))) [
        | inl y ↦ rw y (rw a (opened-Mark sql i c (at_rest sql i c cs w n) (h y)), marks)
        | inr y ↦ rw y marks
      ],
    )
behind_round-Marked sql i c cs next Round.panicked w n h g later = absurd h

tokenize_loop-Marked :
    (sql : Text) (f i : ℕ) (rest : Text)
    → length rest < f
    → EndsWith rest sql
    → i + length rest ≡ length sql
    → IsValid rest
    → Marked sql (tokenize_loop f i rest)
unfolding tokenize_loop
tokenize_loop-Marked sql zero i rest h w n v = absurd (omega arith)
tokenize_loop-Marked sql (suc f) i [] h w n v = ([], refl, tt)
tokenize_loop-Marked sql (suc f) i (c ∷ cs) h w n v =
    behind_round-Marked sql i c cs (tokenize_loop f) (round i c cs) w n (round-Advances i c cs v)
      (round-GoesOn i c cs)
      (λ j more lt sum u g. tokenize_loop-Marked sql f j more (omega arith) g sum u)

pub tokenize-Marked : (sql : Text) → is_utf8 sql ≡ true → Marked sql (tokenize sql)
unfolding tokenize is_utf8
tokenize-Marked sql h =
    tokenize_loop-Marked sql (suc (length sql)) 0 sql (omega arith) ([], refl) (omega arith) h
