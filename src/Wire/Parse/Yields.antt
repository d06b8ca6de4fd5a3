-- ===== src/Wire/Parse/Yields.antt =====
-- Readers whose values have a property.
use ze_db.Prelude.{Bool, true, false}
use ze_db.Prelude.Tests.{if◌then◌else◌}
use ze_db.Wire.Reader.{
  ChError, Input, Read, ok, err, panicked, bind, Reader, ◌>>=◌, ◌>>◌, return, fail,
}

abbrev pub Holds : {A : Type 0} → (A → Type 0) → Read A → Type 0
Holds Q (ok a i) = Q a
Holds Q (err e) = Unit
Holds Q panicked = Unit

-- What the reader gives has `Q`.
pub record Yields {A : Type 0} (Q : A → Type 0) (p : Reader A) : Type 0 where
  pub yields : (i : Input) → Holds Q (p i)

pub bind-Holds :
    {A B : Type 0} (P : A → Type 0) (Q : B → Type 0) (x : Read A) (f : A → Input → Read B)
    → Holds P x
    → ((a : A) (i : Input) → P a → Holds Q (f a i))
    → Holds Q (bind x f)
bind-Holds P Q (ok a i) f h k = k a i h
bind-Holds P Q (err e) f h k = tt
bind-Holds P Q panicked f h k = tt

pub anything : {A : Type 0} (x : Read A) → Holds (λ a. Unit) x
anything (ok a i) = tt
anything (err e) = tt
anything panicked = tt

pub both-Yields :
    {A B : Type 0} (P : A → Type 0) (Q : B → Type 0) (p : Reader A) (f : A → Reader B)
    → Yields P p
    → ((a : A) → P a → Yields Q (f a))
    → Yields Q (p >>= f)
both-Yields P Q p f h k = record {
  yields = λ i. bind-Holds P Q (p i) f (h.yields i) (λ a j q. (k a q).yields j);
}

pub >>=-Yields :
    {A B : Type 0} (Q : B → Type 0) (p : Reader A) (f : A → Reader B)
    → ((a : A) → Yields Q (f a))
    → Yields Q (p >>= f)
>>=-Yields Q p f k = record {
  yields = λ i. bind-Holds (λ a. Unit) Q (p i) f (anything (p i)) (λ a j q. (k a).yields j);
}

pub >>-Yields :
    {A : Type 0} (Q : A → Type 0) (p : Reader (Unit {0})) (q : Reader A)
    → Yields Q q
    → Yields Q (p >> q)
>>-Yields Q p q h = >>=-Yields Q p (λ _. q) (λ _. h)

pub return-Yields : {A : Type 0} (Q : A → Type 0) (a : A) → Q a → Yields Q (return a)
return-Yields Q a h = record { yields = λ i. h }

pub fail-Yields : {A : Type 0} (Q : A → Type 0) (e : ChError) → Yields Q (fail e)
fail-Yields Q e = record { yields = λ i. tt }

pub if-Yields :
    {A : Type 0} (Q : A → Type 0) (b : Bool) (p q : Reader A)
    → Yields Q p
    → Yields Q q
    → Yields Q (if b then p else q)
if-Yields Q true p q h k = h
if-Yields Q false p q h k = k
