-- ===== src/Pool/Entries.antt =====
-- The map of the pool, as laws.
use mathlib.Core.Path.{subst}
use ze_db.Prelude.{ℕ, zero, suc, ◌≡◌, inl, inr, List, [], ◌∷◌, none, some, arith}
use ze_db.Prelude.Tests.{Option-cases, if◌then◌else◌}
use ze_db.Prelude.Text.{Text, text_eq, text_eq_iff}
use ze_db.Prelude.Lists.{All}
use ze_db.Pool.{ChConfig, PoolEntry, Entries, get, remove, insert, pick}

pub get-remove :
    (k j : Text) (es : Entries) → get j (remove k es) ≡ (if text_eq k j then none else get j es)
unfolding get remove
get-remove k j [] = ground arith
get-remove k j ((i, e) ∷ es) =
    ground (arith, text_eq_iff k j, text_eq_iff i k, text_eq_iff i j, get-remove k j es)

pub get-insert :
    (k j : Text) (e : PoolEntry) (es : Entries)
    → get j (insert k e es) ≡ (if text_eq k j then some e else get j es)
unfolding get insert
get-insert k j e es = ground (arith, get-remove k j es)

-- What holds of all connects holds of the one picked and of the others.
pub pick-All :
    (P : Text × ChConfig → Type 0) (n : ℕ) (ts : List (Text × ChConfig)) (t : Text × ChConfig)
    (us : List (Text × ChConfig))
    → All P ts
    → pick n ts ≡ some (t, us)
    → P t × All P us
unfolding pick
pick-All P n [] t us h e = cc
pick-All P zero (t' ∷ ts) t us h e =
    let q : t' ≡ t = cc in let r : ts ≡ us = cc in (subst P q h.0, subst (All P) r h.1)
pick-All P (suc n) (t' ∷ ts) t us h e = elim (Option-cases (pick n ts)) [
  | inl gone ↦ let e' = rw gone at e in cc
  | inr ((u, vs), found) ↦
      let e' = rw found at e in
      let q : u ≡ t = cc in
      let r : t' ∷ vs ≡ us = cc in
      let ih = pick-All P n ts u vs h.1 found in (subst P q ih.0, subst (All P) r (h.0, ih.1))
]
