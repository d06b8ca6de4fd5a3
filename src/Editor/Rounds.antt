-- ===== src/Editor/Rounds.antt =====
-- What a round of `split_statements` reads.
use ze_db.Prelude.{
  ℕ, ◌+◌, ◌≤◌, ◌≡◌, ◌⊎◌, refl, sym, ap, ◌∙◌, inl, inr, true, false, ◌&&◌, [], ◌∷◌, some, arith,
}
use ze_db.Prelude.Tests.{◌==◌, ==_iff, Bool-cases, if◌then◌else◌}
use ze_db.Prelude.Lists.{length, length-append, drop}
use ze_db.Prelude.Text.{Text}
use ze_db.Intelligence.Tokens.{Cursor, skip_line}
use ze_db.Editor.{is_any_quote, head_is, skip_quoted, skip_comment, Round, round}
use ze_db.Editor.Modes.{
  Mode, code, dash, slash, line, block, quoted, code_byte, next, read, among_code,
}
use ze_db.Editor.Skips.{
  Eats, Eats-next, Closed, AtNewline, skip_line-Eats, skip_quoted-Eats, skip_comment-Eats,
}

-- The mode at the head of a round: what may begin a comment does not, and a line comment is over.
abbrev pub Here : Mode → Text → Type 0
Here m t =
    (m ≡ code)
    ⊎ ((m ≡ dash) × (head_is b'-' t ≡ false))
    ⊎ ((m ≡ slash) × (head_is b'*' t ≡ false))
    ⊎ ((m ≡ line) × (head_is b'\n' t ≡ true))

abbrev pub Ready : Mode → Text → Type 0
Ready m t = Here m t ⊎ (t ≡ [])

Here-code_byte :
    (m : Mode) (c : ℕ) (cs : Text) → Here m (c ∷ cs) → (c == b'\n') ≡ false → next m c ≡ code_byte c
Here-code_byte m c cs (inl e) f = rw e refl
Here-code_byte m c cs (inr (inl (e, h))) f = rw (e, h, next) refl
Here-code_byte m c cs (inr (inr (inl (e, h)))) f = rw (e, h, next) refl
Here-code_byte m c cs (inr (inr (inr (e, h)))) f = cc

Here-among_code :
    (m : Mode) (c : ℕ) (cs : Text) → Here m (c ∷ cs) → (c == b'\n') ≡ false → among_code m ≡ true
Here-among_code m c cs (inl e) f = rw e refl
Here-among_code m c cs (inr (inl (e, h))) f = rw e refl
Here-among_code m c cs (inr (inr (inl (e, h)))) f = rw e refl
Here-among_code m c cs (inr (inr (inr (e, h)))) f = cc

Here-newline :
    (m : Mode) (c : ℕ) (cs : Text) → Here m (c ∷ cs) → (c == b'\n') ≡ true → next m c ≡ some code
Here-newline m c cs (inl e) t = rw e (ground arith)
Here-newline m c cs (inr (inl (e, h))) t = rw e (ground arith)
Here-newline m c cs (inr (inr (inl (e, h)))) t = rw e (ground arith)
Here-newline m c cs (inr (inr (inr (e, h)))) t = rw (e, t, next) refl

Eats-map :
    (P Q : Mode → Text → Type 0) (m : Mode) (i : ℕ) (t : Text) (x : Cursor)
    → ((m' : Mode) → P m' x.1 → Q m' x.1)
    → Eats P m i t x
    → Eats Q m i t x
Eats-map P Q m i t x f h = record {
  eaten = h.eaten;
  mode = h.mode;
  split = h.split;
  offset = h.offset;
  reads = h.reads;
  there = f h.mode h.there;
}

Closed-Ready : (m : Mode) (t : Text) → Closed m t → Ready m t
Closed-Ready m t (inl e) = inl (inl e)
Closed-Ready m t (inr e) = inr e

AtNewline-Ready : (m : Mode) (t : Text) → AtNewline m t → Ready m t
AtNewline-Ready m t (e, inl d) = inr d
AtNewline-Ready m t (e, inr h) = inl (inr (inr (inr (e, h))))

Eats-shorter :
    (P : Mode → Text → Type 0) (m : Mode) (i : ℕ) (t : Text) (x : Cursor)
    → Eats P m i t x
    → length x.1 ≤ length t
Eats-shorter P m i t x h = let e = ap length h.split in omega (arith, length-append h.eaten x.1)

abbrev pub RoundIs : Mode → ℕ → ℕ → Text → Round → Type 0
RoundIs m i c cs Round.cut = (c ≡ b';') × (among_code m ≡ true)
RoundIs m i c cs Round.newline = (c ≡ b'\n') × (next m c ≡ some code)
RoundIs m i c cs (Round.go x) = Eats Ready m i (c ∷ cs) x × (length x.1 ≤ length cs)

-- Both bytes begin a comment.
go_on :
    (P : Mode → Text → Type 0) (m m' : Mode) (i c : ℕ) (cs : Text) (x : Cursor)
    → ((n : Mode) → P n x.1 → Ready n x.1)
    → next m c ≡ some m'
    → Eats P m' (i + 1) cs x
    → Eats Ready m i (c ∷ cs) x × (length x.1 ≤ length cs)
go_on P m m' i c cs x f e h = (
  Eats-next Ready m m' i c cs x e (Eats-map P Ready m' (i + 1) cs x f h),
  Eats-shorter P m' (i + 1) cs x h,
)

quote_mode : (c : ℕ) → is_any_quote c ≡ true → code_byte c ≡ some (quoted c)
quote_mode c h = ground arith

dash_line : (i : ℕ) (cs : Text) → head_is b'-' cs ≡ true → Eats AtNewline dash i cs (skip_line i cs)
unfolding skip_line
dash_line i [] h = cc
dash_line i (d ∷ ds) h =
    let no_newline : (d == b'\n') ≡ false = ground arith in
    rw no_newline (
      Eats-next AtNewline dash line i d ds (skip_line (i + 1) ds) (rw h refl)
        (skip_line-Eats (i + 1) ds))

slash_block :
    (i : ℕ) (cs : Text)
    → head_is b'*' cs ≡ true
    → Eats Closed slash i cs (skip_comment (i + 1) (drop 1 cs))
slash_block i [] h = cc
slash_block i (d ∷ ds) h =
    Eats-next Closed slash block i d ds (skip_comment (i + 1) ds) (rw h refl)
      (skip_comment-Eats block (i + 1) ds (inl refl))

plain_mode : ℕ → Mode
plain_mode c = if c == b'-' then dash else if c == b'/' then slash else code

plain_byte :
    (c : ℕ) → is_any_quote c ≡ false → (c == b';') ≡ false → code_byte c ≡ some (plain_mode c)
unfolding plain_mode
plain_byte c h k = rw (k, h) refl

plain_Here :
    (c : ℕ) (cs : Text)
    → (c == b'-' && head_is b'-' cs) ≡ false
    → (c == b'/' && head_is b'*' cs) ≡ false
    → Here (plain_mode c) cs
unfolding plain_mode
plain_Here c cs h k = elim (Bool-cases (c == b'-')) [
  | inl t ↦ rw t (inr (inl (refl, rw t at h)))
  | inr f ↦ elim (Bool-cases (c == b'/')) [
    | inl t ↦ rw (f, t) (inr (inr (inl (refl, rw t at k))))
    | inr g ↦ rw (f, g) (inl refl)
  ]
]

dashes :
    (m : Mode) (i c : ℕ) (cs : Text)
    → next m c ≡ code_byte c
    → (c == b'-' && head_is b'-' cs) ≡ true
    → Eats Ready m i (c ∷ cs) (skip_line (i + 1) cs) × (length (skip_line (i + 1) cs).1 ≤ length cs)
dashes m i c cs same t =
    let first : next m c ≡ some dash = same ∙ ground arith in
    go_on AtNewline m dash i c cs (skip_line (i + 1) cs)
      (λ n. AtNewline-Ready n (skip_line (i + 1) cs).1) first (dash_line (i + 1) cs (ground arith))

opens :
    (m : Mode) (i c : ℕ) (cs : Text)
    → next m c ≡ code_byte c
    → (c == b'/' && head_is b'*' cs) ≡ true
    → let x = skip_comment (i + 2) (drop 1 cs) in
      Eats Ready m i (c ∷ cs) x × (length x.1 ≤ length cs)
opens m i c cs same t =
    let first : next m c ≡ some slash = same ∙ ground arith in
    let two : i + 1 + 1 ≡ i + 2 = omega arith in
    rw (sym two) (
      go_on Closed m slash i c cs (skip_comment (i + 1 + 1) (drop 1 cs))
        (λ n. Closed-Ready n (skip_comment (i + 1 + 1) (drop 1 cs)).1) first
        (slash_block (i + 1) cs (ground arith)))

plain :
    (m : Mode) (i c : ℕ) (cs : Text)
    → next m c ≡ some (plain_mode c)
    → Here (plain_mode c) cs
    → Eats Ready m i (c ∷ cs) (i + 1, cs) × (length cs ≤ length cs)
unfolding read
plain m i c cs e h =
    go_on Ready m (plain_mode c) i c cs (i + 1, cs) (λ n r. r) e
      (record {
        eaten = [];
        mode = plain_mode c;
        split = refl;
        offset = inr (omega arith);
        reads = refl;
        there = inl h;
      })

skip_line-cons :
    (i c : ℕ) (cs : Text) → (c == b'\n') ≡ false → skip_line i (c ∷ cs) ≡ skip_line (i + 1) cs
unfolding skip_line
skip_line-cons i c cs h = rw h refl

pub round-RoundIs :
    (m : Mode) (i c : ℕ) (cs : Text) → Here m (c ∷ cs) → RoundIs m i c cs (round i c cs)
unfolding round
round-RoundIs m i c cs h = elim (Bool-cases (c == b'\n')) [
  | inl t ↦ rw (t, round) ((==_iff c b'\n').0 t, Here-newline m c cs h t)
  | inr f1 ↦
      let same = Here-code_byte m c cs h f1 in
      elim (Bool-cases (is_any_quote c)) [
        | inl t ↦
            rw (f1, t, round)
              (go_on Closed m (quoted c) i c cs (skip_quoted c (i + 1) cs)
                (λ n. Closed-Ready n (skip_quoted c (i + 1) cs).1) (same ∙ quote_mode c t)
                (skip_quoted-Eats c (i + 1) cs))
        | inr f2 ↦ elim (Bool-cases (c == b'-' && head_is b'-' cs)) [
          | inl t ↦ rw (f1, f2, t, round, skip_line-cons i c cs f1) (dashes m i c cs same t)
          | inr f3 ↦ elim (Bool-cases (c == b'/' && head_is b'*' cs)) [
            | inl t ↦ rw (f1, f2, f3, t, round) (opens m i c cs same t)
            | inr f4 ↦ elim (Bool-cases (c == b';')) [
              | inl t ↦
                  rw (f1, f2, f3, f4, t, round) ((==_iff c b';').0 t, Here-among_code m c cs h f1)
              | inr f5 ↦
                  rw (f1, f2, f3, f4, f5, round)
                    (plain m i c cs (same ∙ plain_byte c f2 f5) (plain_Here c cs f3 f4))
            ]
          ]
        ]
      ]
]
