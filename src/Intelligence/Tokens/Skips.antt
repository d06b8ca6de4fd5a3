-- ===== src/Intelligence/Tokens/Skips.antt =====
-- Where the inner loops of the tokenizer end.
use Prim.Native.Nat.{min}
use ze_db.Prelude.{
  ℕ, zero, suc, ◌+◌, ◌≤◌, ◌<◌, ◌≡◌, refl, ◌∙◌, inl, inr, true, ◌&&◌, [], ◌∷◌, Option, some, arith,
}
use mathlib.Core.Path.{subst}
use ze_db.Prelude.Tests.{◌==◌, Bool-cases}
use native.Mathlib.Nat.{add_assoc}
use ze_db.Prelude.Lists.{length, drop, length-drop}
use ze_db.Prelude.Text.{Text, is_ascii_alphabetic, is_ascii_alphanumeric, is_ascii_digit}
use ze_db.Intelligence.Tokens.{
  Cursor, char_len, is_word_byte, advance, skip_line, skip_block, skip_string, skip_word, name_loop,
}
use ze_db.Intelligence.Tokens.Utf8.{
  IsValid, IsWithin, IsValid-IsWithin, empty-IsValid, char_len-IsValid, tail-IsWithin,
  ascii-IsValid, ascii_here-IsValid,
}

-- The cursor is in the rest from offset `i` on, and a character begins there.
abbrev pub Reaches : ℕ → Text → Cursor → Type 0
Reaches i rest (j, more) = (i ≤ j) × (j + length more ≡ i + length rest) × IsValid more

-- One byte further on.
Reaches-next :
    (i : ℕ) (c : ℕ) (cs : Text) (x : Cursor) → Reaches (i + 1) cs x → Reaches i (c ∷ cs) x
Reaches-next i c cs x (a, b, v) = (omega arith, omega arith, v)

drop_nil : (n : ℕ) → drop {A = ℕ} n [] ≡ []
drop_nil zero = refl
drop_nil (suc n) = refl

zero_plus : (n : ℕ) → 0 + n ≡ n
zero_plus n = omega arith

plus_zero : (n : ℕ) → n + 0 ≡ n
plus_zero n = omega arith

suc_plus : (m n : ℕ) → suc m + n ≡ suc (m + n)
suc_plus m n = omega arith

pub skip_line-Reaches : (i : ℕ) (rest : Text) → IsWithin rest → Reaches i rest (skip_line i rest)
unfolding skip_line
skip_line-Reaches i [] h = (omega arith, refl, empty-IsValid)
skip_line-Reaches i (c ∷ cs) h = elim (Bool-cases (c == 10)) [
  | inl t ↦ rw t (omega arith, refl, ascii_here-IsValid c cs (ground arith) h)
  | inr f ↦ rw f (Reaches-next i c cs _ (skip_line-Reaches (i + 1) cs (tail-IsWithin c cs h)))
]

pub skip_block-Reaches :
    (i : ℕ) (rest : Text) → IsWithin rest → Reaches i rest (advance 2 (skip_block i rest))
unfolding skip_block
skip_block-Reaches i [] h = (omega arith, omega arith, empty-IsValid)
skip_block-Reaches i (c ∷ []) h = (omega arith, omega arith, empty-IsValid)
skip_block-Reaches i (c ∷ d ∷ cs) h = elim (Bool-cases (c == b'*' && d == b'/')) [
  | inl t ↦
      rw (t, skip_block)
        (omega arith, omega arith, ascii-IsValid d cs (ground arith) (tail-IsWithin c (d ∷ cs) h))
  | inr f ↦
      rw (f, skip_block)
        (Reaches-next i c (d ∷ cs) _
          (skip_block-Reaches (i + 1) (d ∷ cs) (tail-IsWithin c (d ∷ cs) h)))
]

pub skip_string-Reaches :
    (q i : ℕ) (rest : Text) → q < 0x80 → IsWithin rest → Reaches i rest (skip_string q i rest)
unfolding skip_string
skip_string-Reaches q i [] ascii h = (omega arith, refl, empty-IsValid)
skip_string-Reaches q i (c ∷ []) ascii h = (omega arith, omega arith, empty-IsValid)
skip_string-Reaches q i (c ∷ d ∷ cs) ascii h =
    let h' = tail-IsWithin c (d ∷ cs) h in
    elim (Bool-cases (c == b'\\')) [
      | inl t ↦
          let (a, b, v) = skip_string-Reaches q (i + 2) cs ascii (tail-IsWithin d cs h') in
          rw (t, skip_string) (omega arith, omega arith, v)
      | inr f ↦ elim (Bool-cases (c == q)) [
        | inl t ↦
            rw (f, t, skip_string)
              (omega arith, omega arith, ascii-IsValid c (d ∷ cs) (ground arith) h)
        | inr g ↦
            rw (f, g, skip_string)
              (Reaches-next i c (d ∷ cs) _ (skip_string-Reaches q (i + 1) (d ∷ cs) ascii h'))
      ]
    ]

pub is_word_byte-ascii : (c : ℕ) → is_word_byte c ≡ true → c < 0x80
unfolding is_ascii_alphanumeric is_ascii_alphabetic is_ascii_digit
is_word_byte-ascii c h = ground arith

pub skip_word-Reaches : (i : ℕ) (rest : Text) → IsValid rest → Reaches i rest (skip_word i rest)
unfolding skip_word
skip_word-Reaches i [] h = (omega arith, refl, empty-IsValid)
skip_word-Reaches i (c ∷ cs) h = elim (Bool-cases (is_word_byte c)) [
  | inl t ↦ rw t (
      Reaches-next i c cs _ (
        skip_word-Reaches (i + 1) cs
          (ascii-IsValid c cs (is_word_byte-ascii c t) (IsValid-IsWithin (c ∷ cs) h))))
  | inr f ↦ rw f (omega arith, refl, h)
]

-- Where a name between backticks ends, and where its loop does, past `k` bytes.
abbrev pub NameEnds : ℕ → Text → Option (ℕ × ℕ) → Type 0
NameEnds k rest x =
    (a b : ℕ) × (x ≡ some (k + a, k + b))
    × (b ≤ length rest)
    × IsValid (drop a rest)
    × IsValid (drop b rest)

drop-drop : (m n : ℕ) (t : Text) → drop n (drop m t) ≡ drop (m + n) t
drop-drop zero n t = rw (zero_plus n) refl
drop-drop (suc m) n (c ∷ t) = rw (suc_plus m n) (drop-drop m n t)
drop-drop (suc m) n [] = rw (suc_plus m n) (drop_nil n)

-- The loop goes on behind `m` bytes.
NameEnds-behind :
    (k m : ℕ) (rest : Text) (x : Option (ℕ × ℕ))
    → m ≤ length rest
    → NameEnds (k + m) (drop m rest) x
    → NameEnds k rest x
NameEnds-behind k m rest x le (a, b, e, short, v, w) = (
  m + a,
  m + b,
  e ∙ rw (add_assoc k m a, add_assoc k m b) refl,
  omega (arith, length-drop m rest),
  subst IsValid (drop-drop m a rest) v,
  subst IsValid (drop-drop m b rest) w,
)

-- The character behind a backslash.
escaped_char :
    (c : ℕ) (cs : Text)
    → IsValid cs
    → (n : ℕ) × (char_len cs ≡ some n)
      × (1 ≤ min (1 + n) (length (c ∷ cs)))
      × IsValid (drop n cs)
      × (drop n cs ≡ drop (min (1 + n) (length (c ∷ cs))) (c ∷ cs))
unfolding char_len
escaped_char c [] v = (1, refl, omega arith, empty-IsValid, refl)
escaped_char c (d ∷ ds) v =
    let (n, e, le, w) = char_len-IsValid d ds v in
    let m : min (1 + suc n) (length (c ∷ d ∷ ds)) ≡ suc (suc n) = omega arith in
    (suc n, e, omega arith, w, rw m refl)

pub name_loop-NameEnds :
    (f k : ℕ) (rest : Text) → length rest < f → IsValid rest → NameEnds k rest (name_loop f k rest)
unfolding name_loop
name_loop-NameEnds zero k rest h v = absurd (omega arith)
name_loop-NameEnds (suc f) k [] h v = (0, 0, rw (plus_zero k) refl, omega arith, v, v)
name_loop-NameEnds (suc f) k (c ∷ cs) h v = elim (Bool-cases (c == b'\\')) [
  | inl t ↦
      let (n, e, pos, w, same) =
        escaped_char c cs (ascii-IsValid c cs (ground arith) (IsValid-IsWithin (c ∷ cs) v)) in
      let m = min (1 + n) (length (c ∷ cs)) in
      let shorter : length (drop m (c ∷ cs)) < f = omega (arith, length-drop m (c ∷ cs)) in
      rw (t, e, same, name_loop)
        (NameEnds-behind k m (c ∷ cs) _ (omega arith)
          (name_loop-NameEnds f (k + m) (drop m (c ∷ cs)) shorter (subst IsValid same w)))
  | inr nt ↦ elim (Bool-cases (c == b'`')) [
    | inl t ↦
        rw (nt, t, name_loop)
          (
            0,
            1,
            rw (plus_zero k) refl,
            omega arith,
            v,
            ascii-IsValid c cs (ground arith) (IsValid-IsWithin (c ∷ cs) v),
          )
    | inr g ↦
        let (n, e, le, w) = char_len-IsValid c cs v in
        let shorter : length (drop n cs) < f = omega (arith, length-drop n cs) in
        rw (nt, g, e, name_loop)
          (NameEnds-behind k (suc n) (c ∷ cs) _ (omega arith)
            (name_loop-NameEnds f (k + suc n) (drop n cs) shorter w))
  ]
]
