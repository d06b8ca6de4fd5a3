-- ===== src/Editor/Skips.antt =====
-- Where the inner loops of `split_statements` end.
use ze_db.Prelude.{
  ℕ, ◌+◌, ◌≡◌, ◌⊎◌, refl, ap, ◌∙◌, inl, inr, true, false, not, ◌&&◌, [], ◌∷◌, ◌++◌, some, arith,
}
use ze_db.Prelude.Tests.{◌==◌, Bool-cases, if◌then◌else◌}
use ze_db.Prelude.Lists.{length}
use ze_db.Prelude.Text.{Text}
use ze_db.Intelligence.Tokens.{Cursor, skip_line}
use ze_db.Editor.{head_is, skip_quoted, skip_comment}
use ze_db.Editor.Modes.{Mode, code, line, block, star, quoted, escape, next, read, or_stop}

-- From `m` the loop eats a text and leaves the cursor behind it, in a mode that holds of `P`.
pub record Eats (P : Mode → Text → Type 0) (m : Mode) (i : ℕ) (t : Text) (x : Cursor) : Type 0 where
  pub eaten : Text
  pub mode : Mode
  pub split : t ≡ eaten ++ x.1
  pub offset : (x.1 ≡ []) ⊎ (x.0 ≡ i + length eaten)
  pub reads : read m eaten ≡ some mode
  pub there : P mode x.1

-- Code goes on behind the loop, or the text has ended.
abbrev pub Closed : Mode → Text → Type 0
Closed m more = (m ≡ code) ⊎ (more ≡ [])

-- One byte further on.
pub Eats-next :
    (P : Mode → Text → Type 0) (m m' : Mode) (i c : ℕ) (t : Text) (x : Cursor)
    → next m c ≡ some m'
    → Eats P m' (i + 1) t x
    → Eats P m i (c ∷ t) x
unfolding read
Eats-next P m m' i c t x e h = record {
  eaten = c ∷ h.eaten;
  mode = h.mode;
  split = ap (λ u. c ∷ u) h.split;
  offset = elim h.offset [ inl d ↦ inl d | inr d ↦ inr (omega arith) ];
  reads = rw (e, or_stop) h.reads;
  there = h.there;
}

-- The line comment goes up to a newline, or to the end.
abbrev pub AtNewline : Mode → Text → Type 0
AtNewline m more = (m ≡ line) × ((more ≡ []) ⊎ (head_is b'\n' more ≡ true))

pub skip_line-Eats : (i : ℕ) (t : Text) → Eats AtNewline line i t (skip_line i t)
unfolding skip_line read
skip_line-Eats i [] = record {
  eaten = [];
  mode = line;
  split = refl;
  offset = inl refl;
  reads = refl;
  there = (refl, inl refl);
}
skip_line-Eats i (c ∷ cs) = elim (Bool-cases (c == b'\n')) [
  | inl t ↦ rw t (record {
    eaten = [];
    mode = line;
    split = refl;
    offset = inr (omega arith);
    reads = refl;
    there = (refl, inr t);
  })
  | inr f ↦ rw f (
      Eats-next AtNewline line line i c cs (skip_line (i + 1) cs) (rw f refl)
        (skip_line-Eats (i + 1) cs))
]

at_end :
    (P : Mode → Text → Type 0) (m m' : Mode) (i j c : ℕ)
    → next m c ≡ some m'
    → P m' []
    → Eats P m i (c ∷ []) (j, [])
unfolding read
at_end P m m' i j c e p = record {
  eaten = c ∷ [];
  mode = m';
  split = refl;
  offset = inl refl;
  reads = rw (e, or_stop) refl;
  there = p;
}

pub skip_quoted-Eats : (q i : ℕ) (t : Text) → Eats Closed (quoted q) i t (skip_quoted q i t)
unfolding skip_quoted read
skip_quoted-Eats q i [] = record {
  eaten = [];
  mode = quoted q;
  split = refl;
  offset = inl refl;
  reads = refl;
  there = inr refl;
}
skip_quoted-Eats q i (c ∷ []) = at_end Closed (quoted q) _ i _ c refl (inr refl)
skip_quoted-Eats q i (c ∷ d ∷ cs) = elim (Bool-cases (c == b'\\' && not (q == b'`'))) [
  | inl t ↦
      rw (t, skip_quoted)
        (Eats-next Closed (quoted q) (escape q) i c (d ∷ cs) _ (rw t refl) (
          Eats-next Closed (escape q) (quoted q) (i + 1) d cs _ refl
            (let e : i + 1 + 1 ≡ i + 2 = omega arith in rw e (skip_quoted-Eats q (i + 2) cs))))
  | inr f ↦ elim (Bool-cases (c == q)) [
    | inl t ↦
        rw (f, t, skip_quoted)
          (record {
            eaten = c ∷ [];
            mode = code;
            split = refl;
            offset = inr (omega arith);
            reads = rw (f, t, or_stop) refl;
            there = inl refl;
          })
    | inr g ↦
        rw (f, g, skip_quoted)
          (Eats-next Closed (quoted q) (quoted q) i c (d ∷ cs) _ (rw (f, g) refl)
            (skip_quoted-Eats q (i + 1) (d ∷ cs)))
  ]
]

-- In a block comment, and not before its end.
abbrev pub InComment : Mode → Text → Type 0
InComment m t = (m ≡ block) ⊎ ((m ≡ star) × (head_is b'/' t ≡ false))

abbrev comment_mode : ℕ → Mode
comment_mode c = if c == b'*' then star else block

comment_next :
    (m : Mode) (c : ℕ) (cs : Text) → InComment m (c ∷ cs) → next m c ≡ some (comment_mode c)
comment_next m c cs (inl e) = rw e refl
comment_next m c cs (inr (e, f)) = rw (e, f, next) refl

comment_stays :
    (c d : ℕ) (cs : Text) → (c == b'*' && d == b'/') ≡ false → InComment (comment_mode c) (d ∷ cs)
comment_stays c d cs h = elim (Bool-cases (c == b'*')) [
  | inl t ↦ rw t (inr (refl, rw t at h))
  | inr f ↦ rw f (inl refl)
]

pub skip_comment-Eats :
    (m : Mode) (i : ℕ) (t : Text) → InComment m t → Eats Closed m i t (skip_comment i t)
unfolding skip_comment read
skip_comment-Eats m i [] h = record {
  eaten = [];
  mode = m;
  split = refl;
  offset = inl refl;
  reads = refl;
  there = inr refl;
}
skip_comment-Eats m i (c ∷ []) h =
    at_end Closed m (comment_mode c) i (i + 1) c (comment_next m c [] h) (inr refl)
skip_comment-Eats m i (c ∷ d ∷ cs) h = elim (Bool-cases (c == b'*' && d == b'/')) [
  | inl t ↦
      let cc' : (c == b'*') ≡ true = ground arith in
      let dd : (d == b'/') ≡ true = ground arith in
      let first : next m c ≡ some star = comment_next m c (d ∷ cs) h ∙ rw cc' refl in
      rw (t, skip_comment)
        (record {
          eaten = c ∷ d ∷ [];
          mode = code;
          split = refl;
          offset = inr (omega arith);
          reads = rw (first, or_stop, dd) refl;
          there = inl refl;
        })
  | inr f ↦
      rw (f, skip_comment)
        (Eats-next Closed m (comment_mode c) i c (d ∷ cs) _ (comment_next m c (d ∷ cs) h)
          (skip_comment-Eats (comment_mode c) (i + 1) (d ∷ cs) (comment_stays c d cs f)))
]
