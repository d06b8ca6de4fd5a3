-- ===== src/Wire/Reader/Safe.antt =====
-- Readers that do not panic, whatever bytes they read.
use ze_db.Prelude.{ℕ, zero, suc, ◌<◌, Bool, true, false, [], ◌∷◌}
use ze_db.Prelude.Tests.{ltb, if◌then◌else◌}
use ze_db.Prelude.Lists.{length, drop, All}
use ze_db.Prelude.Text.{Text}
use ze_db.Wire.Reader.{
  ChError, Input, Read, ok, err, panicked, bind, Reader, ◌>>=◌, return, fail, consume, ensure,
  take_bytes, u8, varuint_loop, varuint, bounded_len,
}

abbrev pub AreBytes : Text → Type 0
AreBytes t = All (λ b. b < 256) t

abbrev pub Ends : {A : Type 0} → Read A → Type 0
Ends (ok a i) = AreBytes i.rest
Ends (err e) = Unit
Ends panicked = ⊥

pub record IsSafe {A : Type 0} (p : Reader A) : Type 0 where
  pub ends : (i : Input) → AreBytes i.rest → Ends (p i)

bind-Ends :
    {A B : Type 0} (x : Read A) (f : A → Reader B)
    → Ends x
    → ((a : A) → IsSafe (f a))
    → Ends (bind x f)
bind-Ends (ok a i) f h k = (k a).ends i h
bind-Ends (err e) f h k = tt
bind-Ends panicked f h k = h

pub >>=-IsSafe :
    {A B : Type 0} (p : Reader A) (f : A → Reader B)
    → IsSafe p
    → ((a : A) → IsSafe (f a))
    → IsSafe (p >>= f)
>>=-IsSafe p f h k = record { ends = λ i b. bind-Ends (p i) f (h.ends i b) k }

pub return-IsSafe : {A : Type 0} (a : A) → IsSafe (return a)
return-IsSafe a = record { ends = λ i b. b }

pub fail-IsSafe : {A : Type 0} (e : ChError) → IsSafe (fail {A = A} e)
fail-IsSafe e = record { ends = λ i b. tt }

pub if-IsSafe :
    {A : Type 0} (b : Bool) (p q : Reader A) → IsSafe p → IsSafe q → IsSafe (if b then p else q)
if-IsSafe true p q h k = h
if-IsSafe false p q h k = k

if-Ends : {A : Type 0} (b : Bool) (x y : Read A) → Ends x → Ends y → Ends (if b then x else y)
if-Ends true x y h k = h
if-Ends false x y h k = k

pub consume-IsSafe : (n : ℕ) → IsSafe (consume n)
unfolding consume
consume-IsSafe n = record { ends = λ i b. if-Ends (ltb i.budget n) _ _ tt b }

pub ensure-IsSafe : (n : ℕ) → IsSafe (ensure n)
unfolding ensure
ensure-IsSafe n = record { ends = λ i b. if-Ends (ltb i.budget n) _ _ tt b }

pub drop-AreBytes : (n : ℕ) (t : Text) → AreBytes t → AreBytes (drop n t)
drop-AreBytes zero t h = h
drop-AreBytes (suc n) [] h = tt
drop-AreBytes (suc n) (c ∷ t) h = drop-AreBytes n t h.1

pub take_bytes-IsSafe : (n : ℕ) → IsSafe (take_bytes n)
unfolding take_bytes
take_bytes-IsSafe n = record {
  ends = λ i b. if-Ends (ltb (length i.rest) n) _ _ tt (drop-AreBytes n i.rest b);
}

pub u8-IsSafe : IsSafe u8
unfolding u8
u8-IsSafe = >>=-IsSafe (take_bytes 1) _ (take_bytes-IsSafe 1) (λ a. return-IsSafe _)

varuint_loop-IsSafe : (rounds shift out : ℕ) → IsSafe (varuint_loop rounds shift out)
unfolding varuint_loop
varuint_loop-IsSafe zero shift out = fail-IsSafe _
varuint_loop-IsSafe (suc rounds) shift out = >>=-IsSafe u8 _ u8-IsSafe λ b.
    if-IsSafe _ _ _ (fail-IsSafe _)
      (if-IsSafe _ _ _ (return-IsSafe _) (varuint_loop-IsSafe rounds _ _))

pub bounded_len-IsSafe : (most : ℕ) → IsSafe (bounded_len most)
unfolding bounded_len varuint
bounded_len-IsSafe most =
    >>=-IsSafe (varuint_loop 10 0 0) _ (varuint_loop-IsSafe 10 0 0)
      λ len. if-IsSafe _ _ _ (fail-IsSafe _) (return-IsSafe len)

pub ruleset safe = (
  >>=-IsSafe, return-IsSafe, fail-IsSafe, if-IsSafe, consume-IsSafe, ensure-IsSafe,
  take_bytes-IsSafe, u8-IsSafe, bounded_len-IsSafe,
)
