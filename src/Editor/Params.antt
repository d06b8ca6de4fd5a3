-- ===== src/Editor/Params.antt =====
-- `params_at` of crates/zedb-app/src/features/query/buffer.rs, and the `lookup` of
-- `resolve_query_variables` there.
pub mod Scope
use ze_db.Prelude.{
  ℕ, ◌+◌, ◌≤◌, Bool, true, false, not, ◌&&◌, List, [], ◌∷◌, ◌++◌, Option, none, some,
}
use ze_db.Prelude.Tests.{leb, ltb, if◌then◌else◌}
use ze_db.Prelude.Lists.{any, keep, find}
use ze_db.Prelude.Text.{Text, text_eq}

-- A declaration: its offset, its name and its value.
pub record Declaration : Type 0 where
  pub at : ℕ
  pub name : Text
  pub value : Text

-- `Iterator::rfind`.
abbrev pub or_first {ℓ} : {A : Type ℓ} → Option A → Option A → Option A
or_first none o = o
or_first (some a) o = some a

abbrev pub only {ℓ} : {A : Type ℓ} → Bool → A → Option A
only true a = some a
only false a = none

abbrev pub rfind {ℓ} : {A : Type ℓ} → (A → Bool) → List A → Option A
rfind p [] = none
rfind p (x ∷ xs) = or_first (rfind p xs) (only (p x) x)

abbrev pub value_of : Option Declaration → Option Text
value_of none = none
value_of (some d) = some d.value

-- `offset.is_none_or(|o| *at <= o)` and `offset.is_some_and(|o| *at > o)`
abbrev pub above : Option ℕ → Declaration → Bool
above none d = true
above (some o) d = leb d.at o

abbrev pub below : Option ℕ → Declaration → Bool
below none d = false
below (some o) d = ltb o d.at

-- The value in effect: of the nearest declaration above, or of the first below.
unfoldable pub in_effect : List Declaration → Option ℕ → Text → Option Text
in_effect ds offset name = value_of (
    or_first (rfind (λ d. text_eq d.name name && above offset d) ds)
      (find (λ d. text_eq d.name name && below offset d) ds))

abbrev pub push_value : Text → Option Text → List (Text × Text) → List (Text × Text)
push_value name none result = result
push_value name (some value) result = result ++ (name, value) ∷ []

abbrev pub has_name : Text → List (Text × Text) → Bool
has_name name result = any (λ r. text_eq r.0 name) result

-- A round of the loop of `params_at`.
unfoldable pub add_param :
    List Declaration → Option ℕ → List (Text × Text) → Declaration → List (Text × Text)
add_param ds offset result d =
    if has_name d.name result then result else push_value d.name (in_effect ds offset d.name) result

unfoldable pub params_loop :
    List Declaration → Option ℕ → List (Text × Text) → List Declaration → List (Text × Text)
params_loop all offset result [] = result
params_loop all offset result (d ∷ ds) = params_loop all offset (add_param all offset result d) ds

unfoldable pub params_at : List Declaration → Option ℕ → List (Text × Text)
params_at ds offset = params_loop ds offset [] ds

-- The loop of `lookup` over the declarations of the name, with `nearest_above` and `first_below`.
unfoldable pub lookup_loop :
    ℕ → Option Declaration → Option Declaration → List Declaration → Option Declaration
lookup_loop o nearest_above first_below [] = or_first nearest_above first_below
lookup_loop o nearest_above first_below (d ∷ ds) =
    lookup_loop o (if leb d.at o then some d else nearest_above)
      (if leb d.at o then first_below else or_first first_below (some d)) ds

-- `next_back`
abbrev pub last_of : List Declaration → Option Declaration
last_of [] = none
last_of (d ∷ ds) = or_first (last_of ds) (some d)

abbrev pub lookup_in : Option ℕ → List Declaration → Option Declaration
lookup_in none ds = last_of ds
lookup_in (some o) ds = lookup_loop o none none ds

-- `lookup`; the offset is where the use stands in the buffer, if that is known.
unfoldable pub lookup : List Declaration → Option ℕ → Text → Option Text
lookup ds offset name = value_of (lookup_in offset (keep (λ d. text_eq d.name name) ds))
