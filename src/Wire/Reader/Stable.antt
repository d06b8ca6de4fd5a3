-- ===== src/Wire/Reader/Stable.antt =====
-- Readers on more input: what was read from the front of a text is read from the whole, too.
use ze_db.Prelude.{
  ℕ, zero, suc, ◌≤◌, ◌≡◌, refl, ◌⊎◌, inl, inr, Bool, true, false, [], ◌∷◌, ◌++◌, arith,
}
use ze_db.Prelude.Tests.{ltb, if◌then◌else◌, Bool-cases}
use ze_db.Prelude.Lists.{length, drop, length-append, length-drop, take-append_le}
use ze_db.Prelude.Text.{Text}
use ze_db.Wire.Reader.{
  ChError, unexpected_end, over_limit, varuint_too_long, header_not_utf8, varuint_overflow, Input,
  Read, ok, err, panicked, bind, Reader, ◌>>=◌, return, fail, crash, consume, ensure, take_bytes,
  u8, varuint_loop, varuint, bounded_len, header_string,
}

abbrev pub extend : Text → Input → Input
extend more i = record i { rest = i.rest ++ more }

-- The outcome on a text, and the outcome on the same text with `more` behind it.
abbrev pub Agrees : {A : Type 0} → Text → Read A → Read A → Type 0
Agrees more (ok a i) y = y ≡ ok a (extend more i)
Agrees more (err e) y = (e ≡ unexpected_end) ⊎ (y ≡ err e)
Agrees more panicked y = y ≡ panicked

-- No bytes come back.
abbrev pub Shrinks : {A : Type 0} → Input → Read A → Type 0
Shrinks i (ok a j) = length j.rest ≤ length i.rest
Shrinks i (err e) = Unit
Shrinks i panicked = Unit

pub record IsStable {A : Type 0} (p : Reader A) : Type 0 where
  pub agrees : (more : Text) (i : Input) → Agrees more (p i) (p (extend more i))
  pub shrinks : (i : Input) → Shrinks i (p i)

Shrinks-trans :
    {A : Type 0} (i j : Input) (x : Read A)
    → length j.rest ≤ length i.rest
    → Shrinks j x
    → Shrinks i x
Shrinks-trans i j (ok a l) h k = omega arith
Shrinks-trans i j (err e) h k = tt
Shrinks-trans i j panicked h k = tt

bind-Shrinks :
    {A B : Type 0} (i : Input) (x : Read A) (f : A → Reader B)
    → Shrinks i x
    → ((a : A) → IsStable (f a))
    → Shrinks i (bind x f)
bind-Shrinks i (ok a j) f h k = Shrinks-trans i j (f a j) h ((k a).shrinks j)
bind-Shrinks i (err e) f h k = tt
bind-Shrinks i panicked f h k = tt

bind-Agrees :
    {A B : Type 0} (more : Text) (x y : Read A) (f : A → Reader B)
    → Agrees more x y
    → ((a : A) → IsStable (f a))
    → Agrees more (bind x f) (bind y f)
bind-Agrees more (ok a i) y f h k = rw h ((k a).agrees more i)
bind-Agrees more (err e) y f (inl q) k = inl q
bind-Agrees more (err e) y f (inr q) k = inr (rw q refl)
bind-Agrees more panicked y f h k = rw h refl

pub >>=-IsStable :
    {A B : Type 0} (p : Reader A) (f : A → Reader B)
    → IsStable p
    → ((a : A) → IsStable (f a))
    → IsStable (p >>= f)
>>=-IsStable p f h k = record {
  agrees = λ more i. bind-Agrees more (p i) (p (extend more i)) f (h.agrees more i) k;
  shrinks = λ i. bind-Shrinks i (p i) f (h.shrinks i) k;
}

pub return-IsStable : {A : Type 0} (a : A) → IsStable (return a)
return-IsStable a = record { agrees = λ more i. refl; shrinks = λ i. omega arith }

pub fail-IsStable : {A : Type 0} (e : ChError) → IsStable (fail {A = A} e)
fail-IsStable e = record { agrees = λ more i. inr refl; shrinks = λ i. tt }

pub crash-IsStable : {A : Type 0} → IsStable (crash {A = A})
crash-IsStable = record { agrees = λ more i. refl; shrinks = λ i. tt }

pub if-IsStable :
    {A : Type 0} (b : Bool) (p q : Reader A)
    → IsStable p
    → IsStable q
    → IsStable (if b then p else q)
if-IsStable true p q h k = h
if-IsStable false p q h k = k

pub consume-IsStable : (n : ℕ) → IsStable (consume n)
unfolding consume
consume-IsStable n = record {
  agrees =
      λ more i. elim (Bool-cases (ltb i.budget n)) [ inl t ↦ rw t (inr refl) | inr f ↦ rw f refl ];
  shrinks =
      λ i. elim (Bool-cases (ltb i.budget n)) [ inl t ↦ rw t tt | inr f ↦ rw f (omega arith) ];
}

pub ensure-IsStable : (n : ℕ) → IsStable (ensure n)
unfolding ensure
ensure-IsStable n = record {
  agrees =
      λ more i. elim (Bool-cases (ltb i.budget n)) [ inl t ↦ rw t (inr refl) | inr f ↦ rw f refl ];
  shrinks =
      λ i. elim (Bool-cases (ltb i.budget n)) [ inl t ↦ rw t tt | inr f ↦ rw f (omega arith) ];
}

drop-append_le : (n : ℕ) (s t : Text) → n ≤ length s → drop n (s ++ t) ≡ drop n s ++ t
drop-append_le zero s t h = refl
drop-append_le (suc n) [] t h = absurd (omega arith)
drop-append_le (suc n) (c ∷ s) t h = drop-append_le n s t (omega arith)

take_bytes-Agrees :
    (n : ℕ) (more : Text) (i : Input) → Agrees more (take_bytes n i) (take_bytes n (extend more i))
unfolding take_bytes
take_bytes-Agrees n more i = elim (Bool-cases (ltb (length i.rest) n)) [
  | inl t ↦ rw t (inl refl)
  | inr f ↦
      let le : n ≤ length i.rest = ground arith in
      let g : ltb (length (i.rest ++ more)) n ≡ false = ground (arith, length-append i.rest more) in
      rw (f, g, take-append_le n i.rest more le, drop-append_le n i.rest more le) refl
]

take_bytes-Shrinks : (n : ℕ) (i : Input) → Shrinks i (take_bytes n i)
unfolding take_bytes
take_bytes-Shrinks n i = elim (Bool-cases (ltb (length i.rest) n)) [
  | inl t ↦ rw t tt
  | inr f ↦ rw f (omega (arith, length-drop n i.rest))
]

pub take_bytes-IsStable : (n : ℕ) → IsStable (take_bytes n)
take_bytes-IsStable n = record { agrees = take_bytes-Agrees n; shrinks = take_bytes-Shrinks n }

pub u8-IsStable : IsStable u8
unfolding u8
u8-IsStable = >>=-IsStable (take_bytes 1) _ (take_bytes-IsStable 1) (λ a. return-IsStable _)

pub varuint_loop-IsStable : (rounds shift out : ℕ) → IsStable (varuint_loop rounds shift out)
unfolding varuint_loop
varuint_loop-IsStable zero shift out = fail-IsStable varuint_too_long
varuint_loop-IsStable (suc rounds) shift out = >>=-IsStable u8 _ u8-IsStable λ b.
    if-IsStable _ _ _ (fail-IsStable varuint_overflow)
      (if-IsStable _ _ _ (return-IsStable _) (varuint_loop-IsStable rounds _ _))

pub bounded_len-IsStable : (most : ℕ) → IsStable (bounded_len most)
unfolding bounded_len varuint
bounded_len-IsStable most =
    >>=-IsStable (varuint_loop 10 0 0) _ (varuint_loop-IsStable 10 0 0)
      λ len. if-IsStable _ _ _ (fail-IsStable over_limit) (return-IsStable len)

pub header_string-IsStable : (most : ℕ) → IsStable (header_string most)
unfolding header_string
header_string-IsStable most = >>=-IsStable (bounded_len most) _ (bounded_len-IsStable most) λ len.
    >>=-IsStable (take_bytes len) _ (take_bytes-IsStable len)
      λ bytes. if-IsStable _ _ _ (return-IsStable bytes) (fail-IsStable header_not_utf8)

pub ruleset stable = (
  >>=-IsStable, return-IsStable, fail-IsStable, crash-IsStable, if-IsStable, consume-IsStable,
  ensure-IsStable, take_bytes-IsStable, u8-IsStable, bounded_len-IsStable, header_string-IsStable,
)
