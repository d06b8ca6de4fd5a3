-- ===== src/Value/Denotes.antt =====
-- What a displayed decimal denotes.
use native.Mathlib.Nat.{
  mul_assoc, mul_right_comm, add-mul, pow-suc, one-le-pow, mod-lt, div-add-mod',
}
use ze_db.Prelude.{
  ℕ, zero, suc, ◌+◌, ◌-◌, ◌*◌, ◌/◌, ◌%◌, ◌^◌, ◌≤◌, ◌<◌, ◌≡◌, refl, sym, ap, ◌∙◌, inl, inr, true,
  false, [], ◌∷◌, ◌++◌, arith,
}
use mathlib.Core.List.{append-nil}
use ze_db.Prelude.Tests.{ltb, Bool-cases, if◌then◌else◌}
use ze_db.Prelude.Lists.{length, length-append, All, All-append}
use ze_db.Prelude.Text.{Text}
use ze_db.Wire.Types.{ℤ, pos, negsuc}
use ze_db.Value.{decimal_loop, decimal, integer, negate, zeros, pad, loses_sign, display_decimal}

-- The number that digits denote, behind a number.
unfoldable pub read_on : ℕ → Text → ℕ
read_on n [] = n
read_on n (c ∷ cs) = read_on (n * 10 + (c - 48)) cs

abbrev pub read_digits : Text → ℕ
read_digits t = read_on 0 t

read_on-append : (n : ℕ) (s t : Text) → read_on n (s ++ t) ≡ read_on (read_on n s) t
unfolding read_on
read_on-append n [] t = refl
read_on-append n (c ∷ s) t = read_on-append (n * 10 + (c - 48)) s t

digit_back : (n d : ℕ) → read_on n ((48 + d) ∷ []) ≡ n * 10 + d
unfolding read_on
digit_back n d = omega arith

decimal_loop-read : (f n : ℕ) → n < f → read_digits (decimal_loop f n) ≡ n
unfolding decimal_loop
decimal_loop-read zero n h = absurd (omega arith)
decimal_loop-read (suc f) n h = elim (Bool-cases (ltb n 10)) [
  | inl t ↦ rw t (digit_back 0 n ∙ omega arith)
  | inr g ↦
      let ih : read_digits (decimal_loop f (n / 10)) ≡ n / 10 =
        decimal_loop-read f (n / 10) (ground arith) in
      rw
        (
          g,
          read_on-append 0 (decimal_loop f (n / 10)) ((48 + n % 10) ∷ []),
          ih,
          digit_back (n / 10) (n % 10),
        )
        (omega arith)
]

pub read-decimal : (n : ℕ) → read_digits (decimal n) ≡ n
unfolding decimal
read-decimal n = decimal_loop-read (suc n) n (omega arith)

-- The digits of a number below a power of ten are no more than its exponent.
decimal_loop-length : (f n s : ℕ) → n < f → n < 10 ^ suc s → length (decimal_loop f n) ≤ suc s
unfolding decimal_loop
decimal_loop-length zero n s h k = absurd (omega arith)
decimal_loop-length (suc f) n zero h k =
    let t : ltb n 10 ≡ true = ground arith in rw t (omega arith)
decimal_loop-length (suc f) n (suc s) h k = elim (Bool-cases (ltb n 10)) [
  | inl t ↦ rw t (omega arith)
  | inr g ↦
      let p = 10 ^ suc s in
      let k' : n < p * 10 = rw (pow-suc 10 (suc s)) at k in
      let ih = decimal_loop-length f (n / 10) s (ground arith) (omega arith) in
      rw g (omega (arith, length-append (decimal_loop f (n / 10)) ((48 + n % 10) ∷ [])))
]

length-zeros : (n : ℕ) → length (zeros n) ≡ n
unfolding zeros
length-zeros zero = refl
length-zeros (suc n) = omega (arith, length-zeros n)

length-pad : (w : ℕ) (t : Text) → length t ≤ w → length (pad w t) ≡ w
unfolding pad
length-pad w t h =
    omega (arith, length-append (zeros (w - length t)) t, length-zeros (w - length t))

read_digits-zeros : (n : ℕ) (t : Text) → read_digits (zeros n ++ t) ≡ read_digits t
unfolding zeros read_on
read_digits-zeros zero t = refl
read_digits-zeros (suc n) t = read_digits-zeros n t

-- Digits behind a number.
read_on-shift : (n : ℕ) (t : Text) → read_on n t ≡ n * 10 ^ length t + read_digits t
unfolding read_on
read_on-shift n [] = omega arith
read_on-shift n (c ∷ cs) =
    let d = c - 48 in
    let p = 10 ^ length cs in
    let a : n * 10 ^ suc (length cs) ≡ n * p * 10 =
      rw (pow-suc 10 (length cs)) (sym (mul_assoc n p 10)) in
    let b : (n * 10 + d) * p ≡ n * p * 10 + d * p =
      add-mul (n * 10) d p ∙ ap (λ z. z + d * p) (mul_right_comm n 10 p) in
    let u = read_on-shift (n * 10 + d) cs in
    let v = read_on-shift (0 * 10 + d) cs in
    let e : 0 * 10 + d ≡ d = omega arith in
    let z : (0 * 10 + d) * p ≡ d * p = ap (λ z. z * p) e in omega (arith, u, v, a, b, z)

abbrev pub IsDigit : ℕ → Type 0
IsDigit c = (48 ≤ c) × (c ≤ 57)

decimal_loop-IsDigit : (f n : ℕ) → All IsDigit (decimal_loop f n)
unfolding decimal_loop
decimal_loop-IsDigit zero n = tt
decimal_loop-IsDigit (suc f) n = elim (Bool-cases (ltb n 10)) [
  | inl t ↦ rw t ((omega arith, ground arith), tt)
  | inr g ↦ rw g (
      All-append IsDigit (decimal_loop f (n / 10)) ((48 + n % 10) ∷ [])
        (decimal_loop-IsDigit f (n / 10)) ((omega arith, omega arith), tt))
]

zeros-IsDigit : (n : ℕ) → All IsDigit (zeros n)
unfolding zeros
zeros-IsDigit zero = tt
zeros-IsDigit (suc n) = ((omega arith, omega arith), zeros-IsDigit n)

decimal-length : (n : ℕ) → 1 ≤ length (decimal n)
unfolding decimal decimal_loop
decimal-length n = elim (Bool-cases (ltb n 10)) [
  | inl t ↦ rw t (omega arith)
  | inr g ↦ rw g (omega (arith, length-append (decimal_loop n (n / 10)) ((48 + n % 10) ∷ [])))
]

-- Digits in front of the point, and behind it, if there are any.
abbrev point : Text → Text
point [] = []
point (c ∷ cs) = b'.' ∷ c ∷ cs

-- The text is `m / 10 ^ scale`, with `scale` digits behind the point.
abbrev pub Denotes : ℕ → ℕ → Text → Type 0
Denotes m scale t =
    (whole fraction : Text) × (t ≡ whole ++ point fraction)
    × (1 ≤ length whole)
    × (length fraction ≡ scale)
    × All IsDigit (whole ++ fraction)
    × (read_digits (whole ++ fraction) ≡ m)

length-point : (s : ℕ) (t : Text) → length t ≡ suc s → b'.' ∷ t ≡ point t
length-point s [] h = absurd (omega arith)
length-point s (c ∷ cs) h = refl

digits-Denotes :
    (m s : ℕ)
    → Denotes m (suc s) (decimal (m / 10 ^ suc s) ++ b'.' ∷ pad (suc s) (decimal (m % 10 ^ suc s)))
unfolding pad decimal
digits-Denotes m s =
    let d = 10 ^ suc s in
    let whole = decimal (m / d) in
    let r = m % d in
    let fraction = pad (suc s) (decimal r) in
    let small : r < d = mod-lt m (one-le-pow (suc s) 10 (omega arith)) in
    let len : length fraction ≡ suc s =
      length-pad (suc s) (decimal r) (decimal_loop-length (suc r) r s (omega arith) small) in
    let back : read_digits fraction ≡ r =
      read_digits-zeros (suc s - length (decimal r)) (decimal r) ∙ read-decimal r in
    (
      whole,
      fraction,
      ap (λ z. whole ++ z) (length-point s fraction len),
      decimal-length (m / d),
      len,
      All-append IsDigit whole fraction (decimal_loop-IsDigit (suc (m / d)) (m / d)) (
          All-append IsDigit (zeros (suc s - length (decimal r))) (decimal r)
            (zeros-IsDigit (suc s - length (decimal r))) (decimal_loop-IsDigit (suc r) r)),
      read_on-append 0 whole fraction
          ∙ rw (read-decimal (m / d), read_on-shift (m / d) fraction, len, back) (div-add-mod' m d),
    )

whole-Denotes : (n : ℕ) → Denotes n 0 (decimal n)
unfolding decimal
whole-Denotes n = (
  decimal n,
  [],
  sym (append-nil (decimal n)),
  decimal-length n,
  refl,
  rw (append-nil (decimal n)) (decimal_loop-IsDigit (suc n) n),
  rw (append-nil (decimal n)) (read-decimal n),
)

sign_whole :
    (n q : ℕ)
    → (if loses_sign (negsuc n) (negate q) then b'-' ∷ [] else []) ++ integer (negate q)
      ≡ b'-' ∷ decimal q
sign_whole n zero = refl
sign_whole n (suc q) = refl

-- The sign, and the text of the absolute value.
abbrev pub Shows : ℤ → ℕ → Text → Type 0
Shows (pos n) scale t = Denotes n scale t
Shows (negsuc n) scale t = (body : Text) × (t ≡ b'-' ∷ body) × Denotes (suc n) scale body

-- With a scale up to 38 a decimal is shown as it is: a minus if it is negative, and decimal digits
-- that denote its absolute value, at least one in front of the point, and behind it as many as the
-- scale tells.
pub display_decimal-Shows :
    (value : ℤ) (scale : ℕ) → scale ≤ 38 → Shows value scale (display_decimal value scale)
unfolding display_decimal
display_decimal-Shows (pos n) zero h = whole-Denotes n
display_decimal-Shows (negsuc n) zero h = (decimal (suc n), refl, whole-Denotes (suc n))
display_decimal-Shows (pos n) (suc scale) h =
    let f : ltb 38 (suc scale) ≡ false = ground arith in rw f (digits-Denotes n scale)
display_decimal-Shows (negsuc n) (suc scale) h =
    let f : ltb 38 (suc scale) ≡ false = ground arith in
    let d = 10 ^ suc scale in
    rw (f, sign_whole n (suc n / d))
      (
        decimal (suc n / d) ++ b'.' ∷ pad (suc scale) (decimal (suc n % d)),
        refl,
        digits-Denotes (suc n) scale,
      )
