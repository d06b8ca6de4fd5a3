-- ===== src/Repo/Template/Scan.antt =====
-- The scan for placeholders: the fuel, and the list of names.
use ze_db.Prelude.{
  ℕ, zero, suc, ◌+◌, ◌≤◌, ◌<◌, ◌≡◌, refl, ◌∙◌, ◌&&◌, true, false, not, List, [], ◌∷◌, ◌++◌, Option,
  none, some, arith, inl, inr,
}
use ze_db.Prelude.Tests.{Bool-cases, Option-cases}
use ze_db.Prelude.Lists.{length, All, All-append}
use ze_db.Prelude.Text.{Text, text_eq, text_eq_iff, contains_text, strip_prefix}
use ze_db.Repo.Template.{
  after_open, until_close, is_placeholder_name, push_name, scan, placeholders,
}

length-strip_prefix :
    (p t rest : Text) → strip_prefix p t ≡ some rest → length t ≡ length p + length rest
unfolding strip_prefix
length-strip_prefix [] t rest e = ground arith
length-strip_prefix (a ∷ p) [] rest e = cc
length-strip_prefix (a ∷ p) (b ∷ t) rest e = ground (arith, length-strip_prefix p t rest)

length-after_open : (t opened : Text) → after_open t ≡ some opened → length opened + 2 ≤ length t
unfolding after_open
length-after_open [] opened e = cc
length-after_open (a ∷ t) opened e =
    ground
      (arith, length-strip_prefix (b'$' ∷ b'{' ∷ []) (a ∷ t) opened, length-after_open t opened)

length-until_close :
    (t name rest : Text) → until_close t ≡ some (name, rest) → length rest < length t
unfolding until_close
length-until_close [] name rest e = cc
length-until_close (c ∷ t) name rest e = elim (Option-cases (until_close t)) [
  | inl p ↦ ground arith
  | inr ((name', rest'), p) ↦ ground (arith, length-until_close t name' rest' p)
]

-- No name twice.
abbrev pub Distinct : List Text → Type 0
Distinct [] = Unit
Distinct (n ∷ ns) = (contains_text ns n ≡ false) × Distinct ns

abbrev pub IsName : Text → Type 0
IsName name = is_placeholder_name name ≡ true

text_eq_comm : (a b : Text) → text_eq a b ≡ text_eq b a
text_eq_comm a b = ground (arith, text_eq_iff a b, text_eq_iff b a)

contains_text-concat :
    (ns : List Text) (m n : Text)
    → contains_text ns n ≡ false
    → text_eq m n ≡ false
    → contains_text (ns ++ m ∷ []) n ≡ false
unfolding contains_text
contains_text-concat [] m n h k = ground arith
contains_text-concat (x ∷ ns) m n h k = ground (arith, contains_text-concat ns m n)

pub Distinct-concat :
    (ns : List Text) (m : Text) → Distinct ns → contains_text ns m ≡ false → Distinct (ns ++ m ∷ [])
unfolding contains_text
Distinct-concat [] m d h = (refl, tt)
Distinct-concat (n ∷ ns) m d h = (
  contains_text-concat ns m n d.0 (text_eq_comm m n ∙ ground arith),
  Distinct-concat ns m d.1 (ground arith),
)

push_name-Distinct :
    (name : Text) (names : List Text)
    → All IsName names
    → Distinct names
    → All IsName (push_name name names) × Distinct (push_name name names)
unfolding push_name
push_name-Distinct name names a d =
    elim (Bool-cases (is_placeholder_name name && not (contains_text names name))) [
      | inl new ↦ rw new (
        All-append IsName names (name ∷ []) a (ground arith, tt),
        Distinct-concat names name d (ground arith),
      )
      | inr old ↦ rw old (a, d)
    ]

pub scan_end :
    (fuel : ℕ) (rest : Text) (names : List Text)
    → after_open rest ≡ none
    → scan (suc fuel) rest names ≡ some names
unfolding scan
scan_end fuel rest names p = ground arith

scan_open :
    (fuel : ℕ) (rest opened : Text) (names : List Text)
    → after_open rest ≡ some opened
    → until_close opened ≡ none
    → scan (suc fuel) rest names ≡ some names
unfolding scan
scan_open fuel rest opened names p q = ground arith

pub scan_round :
    (fuel : ℕ) (rest opened name rest' : Text) (names : List Text)
    → after_open rest ≡ some opened
    → until_close opened ≡ some (name, rest')
    → scan (suc fuel) rest names ≡ scan fuel rest' (push_name name names)
unfolding scan
scan_round fuel rest opened name rest' names p q = rw (p, scan) (rw (q, scan))

abbrev IsScanned : Option (List Text) → Type 0
IsScanned r = (found : List Text) × (r ≡ some found) × All IsName found × Distinct found

scan-IsScanned :
    (fuel : ℕ) (rest : Text) (names : List Text)
    → length rest < fuel
    → All IsName names
    → Distinct names
    → IsScanned (scan fuel rest names)
scan-IsScanned zero rest names h a d = absurd (omega arith)
scan-IsScanned (suc fuel) rest names h a d = elim (Option-cases (after_open rest)) [
  | inl p ↦ (names, scan_end fuel rest names p, a, d)
  | inr (opened, p) ↦ elim (Option-cases (until_close opened)) [
    | inl q ↦ (names, scan_open fuel rest opened names p q, a, d)
    | inr ((name, rest'), q) ↦
        let (a', d') = push_name-Distinct name names a d in
        rw (scan_round fuel rest opened name rest' names p q) (
          scan-IsScanned fuel rest' (push_name name names)
            (omega (arith, length-after_open rest opened p, length-until_close opened name rest' q))
            a' d')
  ]
]

-- The scan never runs out of fuel, and the names that it returns are non-empty words, each once.
pub placeholders-Distinct :
    (sql : Text)
    → (scan (suc (length sql)) sql [] ≡ some (placeholders sql))
      × All IsName (placeholders sql)
      × Distinct (placeholders sql)
unfolding placeholders
placeholders-Distinct sql =
    let (found, e, a, d) = scan-IsScanned (suc (length sql)) sql [] (omega arith) tt tt in
    rw e (refl, a, d)
