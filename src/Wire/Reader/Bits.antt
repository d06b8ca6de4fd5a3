-- ===== src/Wire/Reader/Bits.antt =====
-- The bits that a `Reader` puts together: `|` of numbers without a common bit.
use Prim.Native.Nat.{bit_or, bit_or-bitwise, digits, max}
use ze_db.Prelude.{ℕ, zero, suc, ◌+◌, ◌*◌, ◌/◌, ◌%◌, ◌^◌, ◌≤◌, ◌<◌, ◌≡◌, refl, ◌∙◌, arith}
use native.Mathlib.Numerals.{unary_clauses}
use native.Mathlib.Nat.{pow-suc, mul_assoc}

twice_power : (c s : ℕ) → c * 2 ^ suc s ≡ c * 2 ^ s * 2
twice_power c s = simp (pow-suc, mul_assoc) refl

digits-or : (n a c s : ℕ) → a ≤ n → a < 2 ^ s → digits (λ b. b) max n a (c * 2 ^ s) ≡ a + c * 2 ^ s
digits-or zero zero c s h k = omega arith
digits-or zero (suc a) c s h k = absurd (omega arith)
digits-or (suc n) zero c s h k = omega arith
digits-or (suc n) (suc a) c zero h k = absurd (omega arith)
digits-or (suc n) (suc a) c (suc s) h k =
    let z = c * 2 ^ s in
    let e : z * 2 / 2 ≡ z = omega arith in
    let f : z * 2 % 2 ≡ 0 = omega arith in
    let lt : suc a < 2 ^ s * 2 = simp unary_clauses at k in
    let ih = digits-or n (suc a / 2) c s (omega arith) (omega arith) in
    rw (twice_power c s, e, f, ih) (omega arith)

-- A number over the bits of another.
pub bit_or-eq-add : (a c s : ℕ) → a < 2 ^ s → bit_or a (c * 2 ^ s) ≡ a + c * 2 ^ s
bit_or-eq-add a c s h = bit_or-bitwise a (c * 2 ^ s) ∙ digits-or a a c s (omega arith) h
