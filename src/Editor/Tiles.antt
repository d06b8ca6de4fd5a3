-- ===== src/Editor/Tiles.antt =====
-- The ranges of `split_statements` cut the buffer at its semicolons and around its directives.
use Prim.Native.Nat.{min}
use mathlib.Core.Path.{subst}
use mathlib.Core.List.{append-nil, append_assoc}
use ze_db.Prelude.{
  ℕ, zero, suc, ◌+◌, ◌≤◌, ◌<◌, ◌≡◌, ◌⊎◌, refl, sym, ap, ◌∙◌, inl, inr, Bool, true, false, [], ◌∷◌,
  ◌++◌, Option, none, some, arith,
}
use ze_db.Prelude.Tests.{ltb, lt→ltb, ◌==◌, ==_iff, Bool-cases}
use ze_db.Prelude.Lists.{length, length-append, drop}
use ze_db.Prelude.Text.{Text}
use ze_db.Prelude.Utf8.{is_utf8}
use ze_db.Intelligence.Tokens.{Cursor, is_boundary, skip_line}
use ze_db.Intelligence.Tokens.Utf8.{
  IsValid, IsWithin, IsValid-IsWithin, IsValid-boundary, tail-IsWithin, ascii-IsValid,
  empty-IsValid,
}
use ze_db.Editor.{
  Ranges, Round, round, is_directive, directive_line_end, behind_round, behind_line, push_if,
  split_loop, split_statements,
}
use ze_db.Editor.Modes.{Mode, code, next, read, read-append, or_stop, among_code}
use ze_db.Editor.Rounds.{Here, Ready, RoundIs, round-RoundIs}
use ze_db.Editor.Skips.{Eats}
use ze_db.Editor.Segments.{Tiles, Tiles-cons, is_line}

-- The line that a cursor is on: up to the newline, or to the end of the text.
abbrev Lines : ℕ → Text → Cursor → Type 0
Lines i t x =
    (body : Text) × (t ≡ body ++ x.1)
    × (x.0 ≡ i + length body)
    × (is_line body ≡ true)
    × ((x.1 ≡ []) ⊎ ((more : Text) × (x.1 ≡ b'\n' ∷ more)))

skip_line-Lines : (i : ℕ) (t : Text) → Lines i t (skip_line i t)
unfolding skip_line
skip_line-Lines i [] = ([], refl, omega arith, refl, inl refl)
skip_line-Lines i (c ∷ cs) = elim (Bool-cases (c == b'\n')) [
  | inl t ↦ rw t ([], refl, omega arith, refl, inr (cs, ap (λ d. d ∷ cs) ((==_iff c b'\n').0 t)))
  | inr f ↦
      let (body, split, offset, single, stops) = skip_line-Lines (i + 1) cs in
      rw f (c ∷ body, ap (λ u. c ∷ u) split, omega arith, rw (f, single) refl, stops)
]

append-IsWithin : (s t : Text) → IsWithin (s ++ t) → IsWithin t
append-IsWithin [] t h = h
append-IsWithin (c ∷ s) t h = append-IsWithin s t (tail-IsWithin c (s ++ t) h)

-- The start of a line, behind what the segment has so far.
abbrev AtLine : Text → Mode → Text → Type 0
AtLine b m rest =
    (m ≡ code) × IsValid rest × ((b ≡ []) ⊎ ((front : Text) × (b ≡ front ++ b'\n' ∷ [])))

-- The variables of the loop: the segment begins at `start`, `b` of it has been read, and the cursor
-- is behind that.
record At (len start : ℕ) (line_begin : Bool) (i : ℕ) (b rest : Text) : Type 0 where
  mode : Mode
  reads : read code b ≡ some mode
  ready : Ready mode rest
  offset : (rest ≡ []) ⊎ (i ≡ start + length b)
  whole : start + length (b ++ rest) ≡ len
  begins : is_boundary (b ++ rest) ≡ true
  within : IsWithin rest
  line : (line_begin ≡ true) → AtLine b mode rest

abbrev Holds : ℕ → ℕ → Type 0
Holds f len =
    (start : ℕ) (line_begin : Bool) (i : ℕ) (b rest : Text)
    → length rest < f
    → At len start line_begin i b rest
    → Tiles start (b ++ rest) (split_loop f len start line_begin i rest)

-- The cursor is behind what has been read, since the text has not ended.
offset_here : (i n c : ℕ) (cs : Text) → (((c ∷ cs) ≡ []) ⊎ (i ≡ n)) → i ≡ n
offset_here i n c cs (inl e) = cc
offset_here i n c cs (inr e) = e

-- A segment begins at the cursor.
fresh :
    (len i : ℕ) (line_begin : Bool) (rest : Text)
    → i + length rest ≡ len
    → IsValid rest
    → At len i line_begin i [] rest
unfolding read
fresh len i line_begin rest whole v = record {
  mode = code;
  reads = refl;
  ready = inl (inl refl);
  offset = inr (omega arith);
  whole = whole;
  begins = IsValid-boundary rest v;
  within = IsValid-IsWithin rest v;
  line = λ _. (refl, v, inl refl);
}

module _ (f len start i c : ℕ) (line_begin : Bool) (cs b : Text) (ih : Holds f len)
    (short : length cs < f) (h : At len start line_begin i b (c ∷ cs)) where
  here : i ≡ start + length b
  here = offset_here i (start + length b) c cs h.offset

  at_cut :
      c ≡ b';'
      → among_code h.mode ≡ true
      → Tiles start (b ++ c ∷ cs) ((start, i) ∷ split_loop f len (i + 1) false (i + 1) cs)
  unfolding is_boundary
  at_cut e among =
      let v = ascii-IsValid c cs (omega arith) h.within in
      let whole = h.whole in
      let sum = length-append b (c ∷ cs) in
      let at = here in
      Tiles-cons start i (b ++ c ∷ cs) b (b';' ∷ []) cs (split_loop f len (i + 1) false (i + 1) cs)
        at (ap (λ d. b ++ d ∷ cs) e) h.begins refl (inl (refl, (h.mode, h.reads, among)))
        (ih (i + 1) false (i + 1) [] cs short (fresh len (i + 1) false cs (omega arith) v))

  at_newline :
      c ≡ b'\n'
      → next h.mode c ≡ some code
      → Tiles start (b ++ c ∷ cs) (split_loop f len start true (i + 1) cs)
  unfolding read
  at_newline e reads =
      let v = ascii-IsValid c cs (omega arith) h.within in
      let assoc = append_assoc b (c ∷ []) cs in
      let at = here in
      subst (λ t. Tiles start t (split_loop f len start true (i + 1) cs)) assoc
        (ih start true (i + 1) (b ++ c ∷ []) cs short (record {
          mode = code;
          reads = read-append code b (c ∷ []) ∙ rw (h.reads, or_stop, reads) refl;
          ready = inl (inl refl);
          offset = inr (omega (arith, length-append b (c ∷ [])));
          whole = rw assoc h.whole;
          begins = rw assoc h.begins;
          within = IsValid-IsWithin cs v;
          line = λ _. (refl, v, inr (b, ap (λ d. b ++ d ∷ []) e));
        }))

  at_go :
      (x : Cursor)
      → Eats Ready h.mode i (c ∷ cs) x
      → length x.1 ≤ length cs
      → Tiles start (b ++ c ∷ cs) (split_loop f len start false x.0 x.1)
  at_go (j, more) e fewer =
      let assoc : (b ++ e.eaten) ++ more ≡ b ++ c ∷ cs =
        append_assoc b e.eaten more ∙ ap (λ t. b ++ t) (sym e.split) in
      let at = here in
      subst (λ t. Tiles start t (split_loop f len start false j more)) assoc
        (ih start false j (b ++ e.eaten) more (omega arith) (record {
          mode = e.mode;
          reads = read-append code b e.eaten ∙ rw (h.reads, or_stop) e.reads;
          ready = e.there;
          offset = elim e.offset [
            | inl d ↦ inl d
            | inr d ↦ inr (omega (arith, length-append b e.eaten))
          ];
          whole = rw assoc h.whole;
          begins = rw assoc h.begins;
          within = append-IsWithin e.eaten more (subst IsWithin e.split h.within);
          line = λ q. cc;
        }))

  of_round :
      (x : Round)
      → RoundIs h.mode i c cs x
      → Tiles start (b ++ c ∷ cs) (behind_round (split_loop f len) start i cs x)
  of_round Round.cut (e, among) = at_cut e among
  of_round Round.newline (e, reads) = at_newline e reads
  of_round (Round.go x) (e, fewer) = at_go x e fewer

  Ready-Here : Ready h.mode (c ∷ cs) → Here h.mode (c ∷ cs)
  Ready-Here (inl r) = r
  Ready-Here (inr e) = cc

  round-Tiles :
      Tiles start (b ++ c ∷ cs) (behind_round (split_loop f len) start i cs (round i c cs))
  round-Tiles = of_round (round i c cs) (round-RoundIs h.mode i c cs (Ready-Here h.ready))

min_len : (n len : ℕ) → n ≤ len → min n len ≡ n
min_len n len h = omega arith

-- A directive is a segment of its own.
directive-Tiles :
    (f len i c : ℕ) (cs : Text)
    → Holds f len
    → length cs < f
    → i + length (c ∷ cs) ≡ len
    → IsValid (c ∷ cs)
    → is_directive (c ∷ cs) ≡ true
    → let x = skip_line i (c ∷ cs) in
      let j = min (x.0 + 1) len in
      Tiles i (c ∷ cs) ((i, x.0) ∷ split_loop f len j true j (drop 1 x.1))
unfolding is_boundary
directive-Tiles f len i c cs ih short whole v d =
    of_line (skip_line i (c ∷ cs)) (skip_line-Lines i (c ∷ cs))
  where
    of_line :
        (x : Cursor)
        → Lines i (c ∷ cs) x
        → Tiles i
            (c ∷ cs)
            ((i, x.0) ∷ split_loop f len (min (x.0 + 1) len) true (min (x.0 + 1) len) (drop 1 x.1))
    of_line (to, more) (body, split, offset, single, inl e) =
        let split' : c ∷ cs ≡ body ++ [] = split ∙ ap (λ t. body ++ t) e in
        let n = ap length split' in
        let all_read : to ≡ len = omega (arith, length-append body []) in
        let j : min (to + 1) len ≡ to + 0 = omega arith in
        rw (e, j)
          (Tiles-cons i to (c ∷ cs) body [] [] _ offset split' (IsValid-boundary (c ∷ cs) v) refl
            (inr (inl (inr (refl, refl), single, subst (λ t. is_directive t ≡ true) split' d)))
            (ih (to + 0) true (to + 0) [] [] (omega arith)
              (fresh len (to + 0) true [] (omega arith) empty-IsValid)))
    of_line (to, more) (body, split, offset, single, inr (behind, e)) =
        let split' : c ∷ cs ≡ body ++ b'\n' ∷ behind = split ∙ ap (λ t. body ++ t) e in
        let n = ap length split' in
        let sum = length-append body (b'\n' ∷ behind) in
        let j : min (to + 1) len ≡ to + 1 = omega arith in
        let within =
          append-IsWithin body (b'\n' ∷ behind)
            (subst IsWithin split' (IsValid-IsWithin (c ∷ cs) v)) in
        rw (e, j)
          (Tiles-cons i to (c ∷ cs) body (b'\n' ∷ []) behind _ offset split'
            (IsValid-boundary (c ∷ cs) v) refl
            (inr (inl (inl refl, single, subst (λ t. is_directive t ≡ true) split' d)))
            (ih (to + 1) true (to + 1) [] behind (omega arith) (
              fresh len (to + 1) true behind (omega arith)
                (ascii-IsValid b'\n' behind (omega arith) within))))

-- What stands before a directive on its line's start is a segment, unless it is nothing.
before_line :
    (f len start i c : ℕ) (cs b : Text)
    → At len start true i b (c ∷ cs)
    → i ≡ start + length b
    → read code b ≡ some code
    → IsValid (c ∷ cs)
    → is_directive (c ∷ cs) ≡ true
    → ((b ≡ []) ⊎ ((front : Text) × (b ≡ front ++ b'\n' ∷ [])))
    → (rs : Ranges) → Tiles i (c ∷ cs) rs
    → Tiles start (b ++ c ∷ cs) (push_if (ltb start i) (start, i) rs)
before_line f len start i c cs b h at reads v d (inl e) rs tiles =
    let n = ap length e in
    let same : i ≡ start = omega arith in
    let not_before : ltb start start ≡ false = ground arith in
    rw (same, not_before, e) (subst (λ k. Tiles k (c ∷ cs) rs) same tiles)
before_line f len start i c cs b h at reads v d (inr (front, e)) rs tiles =
    let n = ap length e in
    let sum = length-append front (b'\n' ∷ []) in
    let before : ltb start i ≡ true = lt→ltb start i (omega arith) in
    let none_between : i ≡ i + 0 = omega arith in
    rw before (
      Tiles-cons start i (b ++ c ∷ cs) b [] (c ∷ cs) rs at refl h.begins
        (IsValid-boundary (c ∷ cs) v) (inr (inr (refl, (front, e, reads), d)))
        (subst (λ k. Tiles k (c ∷ cs) rs) none_between tiles))

line-Tiles :
    (f len start i c : ℕ) (cs b : Text)
    → Holds f len
    → length cs < f
    → At len start true i b (c ∷ cs)
    → (x : Option Cursor) → directive_line_end i (c ∷ cs) ≡ x
    → Tiles start (b ++ c ∷ cs) (behind_line (split_loop f len) len start i c cs x)
unfolding directive_line_end
line-Tiles f len start i c cs b ih short h none e = round-Tiles f len start i c true cs b ih short h
line-Tiles f len start i c cs b ih short h (some x) e = elim (Bool-cases (is_directive (c ∷ cs))) [
  | inr f ↦ let e' = rw f at e in cc
  | inl d ↦
      let e' = rw d at e in
      let same : skip_line i (c ∷ cs) ≡ x = cc in
      let (at_code, v, before) = h.line refl in
      let at = offset_here i (start + length b) c cs h.offset in
      let whole = h.whole in
      let sum = length-append b (c ∷ cs) in
      let tiles = directive-Tiles f len i c cs ih short (omega arith) v d in
      rw (sym same)
        (before_line f len start i c cs b h at (h.reads ∙ ap some at_code) v d before _ tiles)
]

split_loop-Tiles :
    (f len start : ℕ) (line_begin : Bool) (i : ℕ) (b rest : Text)
    → length rest < f
    → At len start line_begin i b rest
    → Tiles start (b ++ rest) (split_loop f len start line_begin i rest)
unfolding split_loop
split_loop-Tiles zero len start line_begin i b rest short h = absurd (omega arith)
split_loop-Tiles (suc f) len start line_begin i b [] short h =
    (refl, sym h.whole, h.begins, (h.mode, rw (append-nil b) h.reads))
split_loop-Tiles (suc f) len start true i b (c ∷ cs) short h =
    line-Tiles f len start i c cs b (split_loop-Tiles f len) (omega arith) h
      (directive_line_end i (c ∷ cs)) refl
split_loop-Tiles (suc f) len start false i b (c ∷ cs) short h =
    round-Tiles f len start i c false cs b (split_loop-Tiles f len) (omega arith) h

-- The ranges of `split_statements` cut a buffer into segments, without a gap or an overlap, and
-- each begins and ends between characters, so that a slice by it does not panic. Two segments are
-- separated by a semicolon that stands among code, or by the newline behind a directive; or by
-- nothing, if the second is a directive or the first is one that ends the buffer. A segment that is
-- no directive has no other semicolon among code, and if a directive comes behind it, it ends with
-- a newline in no string and no block comment. A directive is a single line.
pub split_statements-Tiles :
    (text : Text) → is_utf8 text ≡ true → Tiles 0 text (split_statements text)
unfolding split_statements is_utf8
split_statements-Tiles text valid =
    split_loop-Tiles (suc (length text)) (length text) 0 true 0 [] text (omega arith)
      (fresh (length text) 0 true text (omega arith) valid)
