-- ===== src/Intelligence/Statement.antt =====
-- `statement_bounds` and `current_statement` of crates/zedb-ch/src/schema_intelligence/tokens.rs.
pub mod Cut
pub mod Marks
use Prim.Native.Nat.{min, max}
use mathlib.Core.Option.{map}
use ze_db.Prelude.{ℕ, zero, suc, ◌+◌, ◌-◌, Bool, true, false, List, [], ◌∷◌, Option, none, some}
use ze_db.Prelude.Tests.{ltb, leb, if◌then◌else◌}
use ze_db.Prelude.Lists.{length, take, drop, find}
use ze_db.Prelude.Text.{Text, text_eq}
use ze_db.Intelligence.Tokens.{Token, tokenize, is_boundary}

-- The offsets of the semicolons.
abbrev pub semicolons : List Token → List ℕ
semicolons [] = []
semicolons (t ∷ ts) =
    let rest = semicolons ts in if text_eq t.text (b';' ∷ []) then t.start ∷ rest else rest

abbrev pub larger : ℕ → Option ℕ → ℕ
larger n none = n
larger n (some m) = max n m

-- `filter(|pos| pos < cursor).max()`
unfoldable pub latest : ℕ → List ℕ → Option ℕ
latest cursor [] = none
latest cursor (p ∷ ps) =
    let rest = latest cursor ps in if ltb p cursor then some (larger p rest) else rest

abbrev pub behind : Option ℕ → ℕ
behind none = 0
behind (some p) = p + 1

abbrev pub or_end : ℕ → Option ℕ → ℕ
or_end n none = n
or_end n (some p) = p

abbrev pub range_of : ℕ → ℕ → List ℕ → ℕ × ℕ
range_of n cursor ps =
    let start = behind (latest cursor ps) in
    (start, max (or_end n (find (λ p. leb cursor p) ps)) start)

-- `none` is a panic of the tokenizer.
unfoldable pub statement_bounds : Text → ℕ → Option (ℕ × ℕ)
statement_bounds sql cursor =
    map (λ tokens. range_of (length sql) (min cursor (length sql)) (semicolons tokens))
      (tokenize sql)
