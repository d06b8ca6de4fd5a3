-- ===== src/Intelligence/Tokens/Utf8.antt =====
-- Character boundaries in valid UTF-8, for the tokenizer.
use ze_db.Prelude.{
  ℕ, zero, suc, ◌≤◌, ◌<◌, ◌≡◌, refl, sym, ◌∙◌, ◌⊎◌, inl, inr, Bool, true, false, ◌&&◌, [], ◌∷◌,
  Option, none, some, arith,
}
use mathlib.Core.Path.{subst}
use ze_db.Prelude.Tests.{ltb, leb, ◌==◌, if◌then◌else◌}
use ze_db.Prelude.Lists.{length, drop}
use ze_db.Prelude.Text.{Text}
use ze_db.Prelude.Utf8.{lead, utf8_loop}
use ze_db.Intelligence.Tokens.{is_boundary, width, char_len}

-- What a first byte tells: how many bytes follow, all beyond ASCII.
abbrev Fits : ℕ → Option (ℕ × ℕ × ℕ) → Type 0
Fits c none = Unit
Fits c (some (n, lo, hi)) =
    ((n ≡ 0) ⊎ (0x80 ≤ lo)) × (width c ≡ suc n) × (is_boundary (c ∷ []) ≡ true)

record IsLead (c : ℕ) (x : Option (ℕ × ℕ × ℕ)) : Type 0 where
  fits : Fits c x

if-IsLead :
    (c : ℕ) (b : Bool) (x y : Option (ℕ × ℕ × ℕ))
    → (b ≡ true → Fits c x)
    → (b ≡ false → IsLead c y)
    → IsLead c (if b then x else y)
if-IsLead c true x y h k = record { fits = h refl }
if-IsLead c false x y h k = k refl

lead-IsLead : (c : ℕ) → IsLead c (lead c)
unfolding width is_boundary
lead-IsLead c =
    if-IsLead c (ltb c 0x80) (some (0, 0, 0)) _ (λ a. (inl refl, ground arith, ground arith))
      λ a.
        if-IsLead c (leb 0xc2 c && leb c 0xdf) (some (1, 0x80, 0xbf)) _
          (λ b. (inr (omega arith), ground arith, ground arith))
          λ b.
            if-IsLead c (c == 0xe0) (some (2, 0xa0, 0xbf)) _
              (λ d. (inr (omega arith), ground arith, ground arith))
              λ d.
                if-IsLead c (c == 0xed) (some (2, 0x80, 0x9f)) _
                  (λ e. (inr (omega arith), ground arith, ground arith))
                  λ e.
                    if-IsLead c (leb 0xe1 c && leb c 0xef) (some (2, 0x80, 0xbf)) _
                      (λ f. (inr (omega arith), ground arith, ground arith))
                      λ f.
                        if-IsLead c (c == 0xf0) (some (3, 0x90, 0xbf)) _
                          (λ g. (inr (omega arith), ground arith, ground arith))
                          λ g.
                            if-IsLead c (leb 0xf1 c && leb c 0xf3) (some (3, 0x80, 0xbf)) _
                              (λ h. (inr (omega arith), ground arith, ground arith))
                              λ h.
                                if-IsLead c (c == 0xf4) (some (3, 0x80, 0x8f)) _
                                  (λ k. (inr (omega arith), ground arith, ground arith))
                                  λ k. record { fits = tt }

lead_ascii : (c : ℕ) → c < 0x80 → lead c ≡ some (0, 0, 0)
lead_ascii c h = let a : ltb c 0x80 ≡ true = ground arith in rw a refl

-- The text is valid UTF-8, and begins at a boundary.
abbrev pub IsValid : Text → Type 0
IsValid t = utf8_loop 0 0 0 t ≡ true

-- The rest of a valid text, within a character perhaps.
abbrev pub IsWithin : Text → Type 0
IsWithin t = (n : ℕ) × (lo : ℕ) × (hi : ℕ) × (0x80 ≤ lo) × (utf8_loop n lo hi t ≡ true)

utf8_loop_zero : (lo hi : ℕ) (t : Text) → utf8_loop 0 lo hi t ≡ utf8_loop 0 0 0 t
unfolding utf8_loop
utf8_loop_zero lo hi [] = refl
utf8_loop_zero lo hi (c ∷ cs) = refl

pub IsValid-IsWithin : (t : Text) → IsValid t → IsWithin t
IsValid-IsWithin t h = (0, 0x80, 0x80, omega arith, utf8_loop_zero 0x80 0x80 t ∙ h)

and_left : (a b : Bool) → (a && b) ≡ true → a ≡ true
and_left true b h = refl
and_left false b h = h

and_right : (a b : Bool) → (a && b) ≡ true → b ≡ true
and_right true b h = h
and_right false b h = absurd cc

pub drop-IsValid :
    (n lo hi : ℕ) (t : Text) → utf8_loop n lo hi t ≡ true → (n ≤ length t) × IsValid (drop n t)
unfolding utf8_loop
drop-IsValid zero lo hi t h = (omega arith, sym (utf8_loop_zero lo hi t) ∙ h)
drop-IsValid (suc n) lo hi [] h = absurd cc
drop-IsValid (suc n) lo hi (c ∷ cs) h =
    let rest : utf8_loop n 0x80 0xbf cs ≡ true = and_right (leb lo c && leb c hi) _ h in
    let le : n ≤ length cs = (drop-IsValid n 0x80 0xbf cs rest).0 in
    (omega arith, (drop-IsValid n 0x80 0xbf cs rest).1)

-- The first byte of a character tells what follows.
first_byte :
    (c : ℕ) (cs : Text)
    → IsValid (c ∷ cs)
    → (n lo hi : ℕ) × (lead c ≡ some (n, lo, hi)) × (utf8_loop n lo hi cs ≡ true)
unfolding utf8_loop
first_byte c cs h = go (lead c) refl h
  where
    go :
        (x : Option (ℕ × ℕ × ℕ))
        → lead c ≡ x
        → elim x [ none ↦ false | some (n, lo, hi) ↦ utf8_loop n lo hi cs ] ≡ true
        → (n lo hi : ℕ) × (lead c ≡ some (n, lo, hi)) × (utf8_loop n lo hi cs ≡ true)
    go none e k = absurd cc
    go (some (n, lo, hi)) e k = (n, lo, hi, e, k)

-- A character at the head of a valid text.
pub char_len-IsValid :
    (c : ℕ) (cs : Text)
    → IsValid (c ∷ cs)
    → (n : ℕ) × (char_len (c ∷ cs) ≡ some (suc n)) × (n ≤ length cs) × IsValid (drop n cs)
unfolding char_len is_boundary
char_len-IsValid c cs h =
    let (n, lo, hi, e, k) = first_byte c cs h in
    let (_, w, b) = subst (Fits c) e (lead-IsLead c).fits in
    let (le, v) = drop-IsValid n lo hi cs k in (n, rw (b, w) refl, le, v)

pub IsValid-boundary : (t : Text) → IsValid t → is_boundary t ≡ true
unfolding is_boundary
IsValid-boundary [] h = refl
IsValid-boundary (c ∷ cs) h =
    let (n, lo, hi, e, k) = first_byte c cs h in (subst (Fits c) e (lead-IsLead c).fits).2

pub tail-IsWithin : (c : ℕ) (cs : Text) → IsWithin (c ∷ cs) → IsWithin cs
unfolding utf8_loop
tail-IsWithin c cs (zero, lo, hi, b, h) =
    let (n, lo', hi', e, k) = first_byte c cs h in
    elim (subst (Fits c) e (lead-IsLead c).fits).0 [
      | inl z ↦ IsValid-IsWithin cs (drop-IsValid 0 lo' hi' cs (rw z at k)).1
      | inr le ↦ (n, lo', hi', le, k)
    ]
tail-IsWithin c cs (suc n, lo, hi, b, h) = (n, 0x80, 0xbf, omega arith, and_right _ _ h)

-- Behind an ASCII byte a character begins.
pub ascii-IsValid : (c : ℕ) (cs : Text) → c < 0x80 → IsWithin (c ∷ cs) → IsValid cs
unfolding utf8_loop
ascii-IsValid c cs lt (zero, lo, hi, b, h) = rw (lead_ascii c lt, utf8_loop) at h
ascii-IsValid c cs lt (suc n, lo, hi, b, h) =
    let w : (leb lo c && leb c hi) ≡ true = and_left _ (utf8_loop n 0x80 0xbf cs) h in
    absurd (ground arith)

-- An ASCII byte is a character.
pub ascii_here-IsValid : (c : ℕ) (cs : Text) → c < 0x80 → IsWithin (c ∷ cs) → IsValid (c ∷ cs)
unfolding utf8_loop
ascii_here-IsValid c cs lt (zero, lo, hi, b, h) = h
ascii_here-IsValid c cs lt (suc n, lo, hi, b, h) =
    let w : (leb lo c && leb c hi) ≡ true = and_left _ (utf8_loop n 0x80 0xbf cs) h in
    absurd (ground arith)

pub empty-IsValid : IsValid []
unfolding utf8_loop
empty-IsValid = refl
