-- ===== src/Value.antt =====
-- The `Display` of a decimal in crates/zedb-core/src/value.rs.
pub mod Denotes
use ze_db.Prelude.{
  ℕ, zero, suc, ◌+◌, ◌-◌, ◌/◌, ◌%◌, ◌^◌, Bool, true, false, ◌&&◌, List, [], ◌∷◌, ◌++◌,
}
use ze_db.Prelude.Tests.{ltb, if◌then◌else◌}
use ze_db.Prelude.Lists.{length}
use ze_db.Prelude.Text.{Text}
use ze_db.Wire.Types.{ℤ, pos, negsuc}

-- The digits of a number, as Rust writes it.
unfoldable pub decimal_loop : ℕ → ℕ → Text
decimal_loop zero n = []
decimal_loop (suc f) n =
    let front = decimal_loop f (n / 10) in
    if ltb n 10 then (48 + n) ∷ [] else front ++ (48 + n % 10) ∷ []

unfoldable pub decimal : ℕ → Text
decimal n = decimal_loop (suc n) n

-- `{v}` of a signed integer.
abbrev pub integer : ℤ → Text
integer (pos n) = decimal n
integer (negsuc n) = b'-' ∷ decimal (suc n)

abbrev pub negate : ℕ → ℤ
negate zero = pos 0
negate (suc n) = negsuc n

-- `value / divisor`, towards zero, and `(value % divisor).unsigned_abs()`.
abbrev pub quotient : ℤ → ℕ → ℤ
quotient (pos n) d = pos (n / d)
quotient (negsuc n) d = negate (suc n / d)

abbrev pub unsigned_rest : ℤ → ℕ → ℕ
unsigned_rest (pos n) d = n % d
unsigned_rest (negsuc n) d = suc n % d

unfoldable pub zeros : ℕ → Text
zeros zero = []
zeros (suc n) = 48 ∷ zeros n

-- `{:0>width$}`
unfoldable pub pad : ℕ → Text → Text
pad width t = zeros (width - length t) ++ t

-- `value < 0 && int == 0`
abbrev pub loses_sign : ℤ → ℤ → Bool
loses_sign (negsuc n) (pos zero) = true
loses_sign _ _ = false

-- `Value::Decimal` of `Display`. `10i128.checked_pow` overflows past 38.
unfoldable pub display_decimal : ℤ → ℕ → Text
display_decimal value zero = integer value
display_decimal value (suc scale) =
    if ltb 38 (suc scale)
    then integer value ++ b'e' ∷ b'-' ∷ decimal (suc scale)
    else (let divisor = 10 ^ suc scale in
        let int = quotient value divisor in
        let sign = if loses_sign value int then b'-' ∷ [] else [] in
        sign ++ integer int ++ b'.' ∷ pad (suc scale) (decimal (unsigned_rest value divisor)))
