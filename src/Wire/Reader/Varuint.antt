-- ===== src/Wire/Reader/Varuint.antt =====
-- `Reader::varuint` on what a writer of such numbers puts.
use Prim.Native.Nat.{bit_or}
use native.Mathlib.Nat.{mul_assoc, mul_right_comm, mul-le-mul_right, add-mul, mod-eq_of_lt, pow-suc}
use native.Mathlib.Numerals.{unary_clauses}
use ze_db.Prelude.{
  ℕ, zero, suc, ◌+◌, ◌*◌, ◌/◌, ◌%◌, ◌^◌, ◌≤◌, ◌<◌, ◌≡◌, refl, sym, ap, ◌∙◌, inl, inr, true, false,
  ◌&&◌, [], ◌∷◌, ◌++◌, arith,
}
use ze_db.Prelude.Tests.{ltb, ◌==◌, Bool-cases, if◌then◌else◌}
use ze_db.Prelude.Lists.{length}
use ze_db.Prelude.Text.{Text}
use ze_db.Wire.Reader.{Input, ok, return, take_bytes, u8, varuint_loop, varuint}
use ze_db.Wire.Reader.Bits.{bit_or-eq-add}

-- The bytes of a number: seven bits in each, the lowest first, and the eighth bit on all but the
-- last. A number of 64 bits takes ten bytes at most.
abbrev pub encode_loop : ℕ → ℕ → Text
encode_loop zero v = []
encode_loop (suc n) v = if ltb v 128 then v ∷ [] else (v % 128 + 128) ∷ encode_loop n (v / 128)

abbrev pub encode : ℕ → Text
encode v = encode_loop 10 v

abbrev at : Text → ℕ → Input
at rest budget = record { rest = rest; budget = budget }

u8-cons : (b : ℕ) (bs : Text) (n : ℕ) → u8 (at (b ∷ bs) n) ≡ ok b (at bs n)
unfolding u8 take_bytes
u8-cons b bs n = let f : ltb (length (b ∷ bs)) 1 ≡ false = ground arith in rw f refl

varuint_step :
    (rounds shift out b : ℕ) (bs : Text) (n : ℕ)
    → (shift == 63 && ltb 1 b) ≡ false
    → varuint_loop (suc rounds) shift out (at (b ∷ bs) n)
      ≡ (let out' = bit_or out ((b % 128 * 2 ^ shift) % 2 ^ 64) in
            if ltb b 128 then return out' else varuint_loop rounds (shift + 7) out')
          (at bs n)
unfolding varuint_loop
varuint_step rounds shift out b bs n h = rw (u8-cons b bs n, h) refl

-- A round puts its seven bits over those before.
joined :
    (out m s : ℕ)
    → out < 2 ^ s
    → m * 2 ^ s < 2 ^ 64
    → bit_or out ((m * 2 ^ s) % 2 ^ 64) ≡ out + m * 2 ^ s
joined out m s h k = rw (mod-eq_of_lt k) (bit_or-eq-add out m s h)

one_bit : (s v : ℕ) → s ≡ 63 → v * 2 ^ s < 2 ^ 64 → v < 2
one_bit s v e h = let k = rw e at h in omega (arith, k)

no_overflow : (s v : ℕ) → v * 2 ^ s < 2 ^ 64 → (s == 63 && ltb 1 v) ≡ false
no_overflow s v h = elim (Bool-cases (s == 63)) [
  | inl t ↦
      let lt : v < 2 = one_bit s v (ground arith) h in
      let f : ltb 1 v ≡ false = ground arith in rw (t, f) refl
  | inr f ↦ rw f refl
]

power7 : (s : ℕ) → 2 ^ (s + 7) ≡ 2 ^ s * 128
power7 s = simp (pow-suc, unary_clauses) (omega arith)

-- A number in its low seven bits and the rest.
split7 : (v p : ℕ) → v * p ≡ v % 128 * p + v / 128 * p * 128
split7 v p =
    let e : v ≡ v % 128 + v / 128 * 128 = omega arith in
    ap (λ z. z * p) e
    ∙ add-mul (v % 128) (v / 128 * 128) p
    ∙ ap (λ z. v % 128 * p + z) (mul_right_comm (v / 128) 128 p)

-- The last byte.
varuint_loop-last :
    (r s out v : ℕ) (rest : Text) (n : ℕ)
    → v < 128
    → out < 2 ^ s
    → v * 2 ^ s < 2 ^ 64
    → varuint_loop (suc r) s out (at (v ∷ rest) n) ≡ ok (out + v * 2 ^ s) (at rest n)
varuint_loop-last r s out v rest n lt below h =
    let e : v % 128 ≡ v = omega arith in
    let t : ltb v 128 ≡ true = ground arith in
    varuint_step r s out v rest n (no_overflow s v h) ∙ rw (e, t, joined out v s below h) refl

-- A byte with more behind it.
varuint_loop-more :
    (r s out v : ℕ) (rest : Text) (n : ℕ)
    → (s == 63) ≡ false
    → out < 2 ^ s
    → v * 2 ^ s < 2 ^ 64
    → varuint_loop (suc r) s out (at ((v % 128 + 128) ∷ rest) n)
      ≡ varuint_loop r (s + 7) (out + v % 128 * 2 ^ s) (at rest n)
varuint_loop-more r s out v rest n early below h =
    let e : (v % 128 + 128) % 128 ≡ v % 128 = omega arith in
    let f : ltb (v % 128 + 128) 128 ≡ false = ground arith in
    let small : v % 128 * 2 ^ s < 2 ^ 64 = omega (arith, split7 v (2 ^ s)) in
    let c : (s == 63 && ltb 1 (v % 128 + 128)) ≡ false = rw early refl in
    varuint_step r s out (v % 128 + 128) rest n c
    ∙ rw (e, f, joined out (v % 128) s below small) refl

-- What is left of the number, at the next round.
next_round :
    (s out v : ℕ)
    → out < 2 ^ s
    → v * 2 ^ s < 2 ^ 64
    → (out + v % 128 * 2 ^ s < 2 ^ (s + 7))
      × (v / 128 * 2 ^ (s + 7) < 2 ^ 64)
      × (out + v % 128 * 2 ^ s + v / 128 * 2 ^ (s + 7) ≡ out + v * 2 ^ s)
next_round s out v below h =
    let p = 2 ^ s in
    let q : v / 128 * 2 ^ (s + 7) ≡ v / 128 * p * 128 =
      rw (power7 s) (sym (mul_assoc (v / 128) p 128)) in
    let le : v % 128 * p ≤ 127 * p = mul-le-mul_right p (omega arith) in
    (omega (arith, power7 s), omega (arith, split7 v p, q), omega (arith, split7 v p, q))

varuint_loop-encode :
    (r s out v : ℕ) (rest : Text) (n : ℕ)
    → s + 7 * suc r ≡ 70
    → out < 2 ^ s
    → v * 2 ^ s < 2 ^ 64
    → varuint_loop (suc r) s out (at (encode_loop (suc r) v ++ rest) n)
      ≡ ok (out + v * 2 ^ s) (at rest n)
varuint_loop-encode zero s out v rest n e below h =
    let lt : v < 2 = one_bit s v (omega arith) h in
    let t : ltb v 128 ≡ true = ground arith in
    rw t (varuint_loop-last zero s out v rest n (omega arith) below h)
varuint_loop-encode (suc r) s out v rest n e below h = elim (Bool-cases (ltb v 128)) [
  | inl t ↦ rw t (varuint_loop-last (suc r) s out v rest n (ground arith) below h)
  | inr f ↦
      let early : (s == 63) ≡ false = ground arith in
      let (below', h', same) = next_round s out v below h in
      rw f (
        varuint_loop-more (suc r) s out v (encode_loop (suc r) (v / 128) ++ rest) n early below h
        ∙ varuint_loop-encode r (s + 7) _ (v / 128) rest n (omega arith) below' h'
        ∙ rw same refl)
]

-- A number of 64 bits comes back, and what stands behind it is left.
pub varuint-encode :
    (v : ℕ) (rest : Text) (budget : ℕ)
    → v < 2 ^ 64
    → varuint (record { rest = encode v ++ rest; budget = budget })
      ≡ ok v (record { rest = rest; budget = budget })
unfolding varuint
varuint-encode v rest budget h =
    let e : 0 + v * 2 ^ 0 ≡ v = omega arith in
    varuint_loop-encode 9 0 0 v rest budget (omega arith) (omega arith) (omega arith) ∙ rw e refl
