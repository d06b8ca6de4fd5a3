-- ===== src/Tail/Sql.antt =====
-- The part of SQL that a tail's queries are written in: the texts of two kinds of SELECT, and the rows
-- that they stand for.
use mathlib.Core.List.{reverse, reverse-cons}
use mathlib.Core.Path.{subst}
use ze_db.Prelude.{
  ℕ, zero, suc, ◌-◌, ◌≤◌, ◌<◌, ◌≡◌, refl, sym, ap, ◌∙◌, ◌⊎◌, inl, inr, Bool, true, false, ◌||◌,
  List, [], ◌∷◌, ◌++◌, arith,
}
use ze_db.Prelude.Tests.{ltb, leb, ◌==◌, Bool-cases}
use ze_db.Prelude.Lists.{
  length, length-append, take, take-append_le, drop, any, keep, keep-cons_true, keep-cons_false,
  All, All-append,
}
use ze_db.Prelude.Text.{Text, codes, starts_with, replace_from, replace}
use ze_db.Value.{decimal}
use ze_db.Tail.{TailQuery, quote_ident, seed_sql, poll_sql}

pub data Direction : Type 0 where
  ascending descending : Direction

pub data Comparison : Type 0 where
  greater at_least : Comparison

abbrev pub direction_text : Direction → Text
direction_text ascending = codes " ASC"
direction_text descending = codes " DESC"

abbrev pub comparison_text : Comparison → Text
comparison_text greater = codes " > "
comparison_text at_least = codes " >= "

-- A name in backticks. In these a backtick and a backslash would be escapes.
abbrev pub name_text : Text → Text
name_text name = codes "`" ++ name ++ codes "`"

abbrev pub IsPlain : Text → Type 0
IsPlain name = any (λ c. c == b'`' || c == b'\\') name ≡ false

-- A direction in front of a limit.
abbrev pub limited_text : Direction → Text
limited_text ascending = codes " ASC LIMIT "
limited_text descending = codes " DESC LIMIT "

-- The first `limit` rows of the body, ordered, whose key compares so with `n`.
abbrev pub compared_text : Text → Text → Comparison → ℕ → Direction → ℕ → Text
compared_text body key c n d limit =
    codes "SELECT * FROM ("
    ++ body
    ++ codes ") WHERE "
    ++ name_text key
    ++ comparison_text c
    ++ decimal n
    ++ codes " ORDER BY "
    ++ name_text key
    ++ limited_text d
    ++ decimal limit

-- The first `limit` rows of the body in one order, put in another.
abbrev pub reordered_text : Text → Text → Direction → ℕ → Direction → Text
reordered_text body key inner limit outer =
    codes "SELECT * FROM (SELECT * FROM ("
    ++ body
    ++ codes ") ORDER BY "
    ++ name_text key
    ++ limited_text inner
    ++ decimal limit
    ++ codes ") ORDER BY "
    ++ name_text key
    ++ direction_text outer

module _ {A : Type 0} (rank : A → ℕ) where
  unfoldable pub insert : A → List A → List A
  insert x [] = x ∷ []
  insert x (y ∷ ys) = elim (leb (rank x) (rank y)) [ true ↦ x ∷ y ∷ ys | false ↦ y ∷ insert x ys ]

  unfoldable pub sort : List A → List A
  unfolding insert
  sort [] = []
  sort (x ∷ xs) = insert x (sort xs)

  abbrev pub ordered : Direction → List A → List A
  ordered ascending rows = sort rows
  ordered descending rows = reverse (sort rows)

  abbrev pub passes : Comparison → ℕ → A → Bool
  passes greater n x = ltb n (rank x)
  passes at_least n x = leb n (rank x)

  abbrev pub compared : Comparison → ℕ → Direction → ℕ → List A → List A
  compared c n d limit rows = take limit (ordered d (keep (passes c n) rows))

  abbrev pub reordered : Direction → ℕ → Direction → List A → List A
  reordered inner limit outer rows = ordered outer (take limit (ordered inner rows))

  -- No two rows have the same key.
  abbrev pub Ascends : List A → Type 0
  Ascends [] = Unit
  Ascends (x ∷ xs) = All (λ y. rank x < rank y) xs × Ascends xs

  insert-le : (x y : A) (ys : List A) → rank x ≤ rank y → insert x (y ∷ ys) ≡ x ∷ y ∷ ys
  unfolding insert
  insert-le x y ys h = let t : leb (rank x) (rank y) ≡ true = ground arith in rw (t, insert) refl

  insert-gt : (x y : A) (ys : List A) → rank y < rank x → insert x (y ∷ ys) ≡ y ∷ insert x ys
  unfolding insert
  insert-gt x y ys h = let f : leb (rank x) (rank y) ≡ false = ground arith in rw (f, insert) refl

  le_or_gt : (x y : A) → (rank x ≤ rank y) ⊎ (rank y < rank x)
  le_or_gt x y = elim (Bool-cases (leb (rank x) (rank y))) [
    | inl t ↦ inl (ground arith)
    | inr f ↦ inr (ground arith)
  ]

  module _ (P : A → Type 0) where
    All-insert : (x : A) (ys : List A) → P x → All P ys → All P (insert x ys)
    unfolding insert
    All-insert x [] p h = (p, tt)
    All-insert x (y ∷ ys) p h = elim (le_or_gt x y) [
      | inl le ↦ subst (All P) (sym (insert-le x y ys le)) (p, h)
      | inr gt ↦ subst (All P) (sym (insert-gt x y ys gt)) (h.0, All-insert x ys p h.1)
    ]

    pub All-sort : (xs : List A) → All P xs → All P (sort xs)
    unfolding sort
    All-sort [] h = tt
    All-sort (x ∷ xs) h = All-insert x (sort xs) h.0 (All-sort xs h.1)

    All-reverse : (xs : List A) → All P xs → All P (reverse xs)
    All-reverse [] h = tt
    All-reverse (x ∷ xs) h =
        rw reverse-cons (All-append P (reverse xs) (x ∷ []) (All-reverse xs h.1) (h.0, tt))

  insert-first : (x : A) (ys : List A) → All (λ y. rank x < rank y) ys → insert x ys ≡ x ∷ ys
  unfolding insert
  insert-first x [] h = refl
  insert-first x (y ∷ ys) h = insert-le x y ys (let a = h.0 in omega arith)

  sort-concat :
      (x : A) (xs : List A) → All (λ y. rank x < rank y) xs → sort (xs ++ x ∷ []) ≡ x ∷ sort xs
  unfolding sort
  sort-concat x [] h = insert-first x [] tt
  sort-concat x (y ∷ ys) h = ap (insert y) (sort-concat x ys h.1) ∙ insert-gt y x (sort ys) h.0

  pub sort-reverse : (xs : List A) → Ascends xs → sort (reverse xs) ≡ xs
  unfolding sort
  sort-reverse [] h = refl
  sort-reverse (x ∷ xs) h =
      rw reverse-cons (
        sort-concat x (reverse xs) (All-reverse _ xs h.0) ∙ ap (λ ys. x ∷ ys) (sort-reverse xs h.1))

  pub drop-Ascends : (k : ℕ) (xs : List A) → Ascends xs → Ascends (drop k xs)
  drop-Ascends zero xs h = h
  drop-Ascends (suc k) [] h = tt
  drop-Ascends (suc k) (x ∷ xs) h = drop-Ascends k xs h.1

  module _ (n : ℕ) where
    abbrev behind : A → Bool
    behind x = ltb n (rank x)

    keep-insert-true :
        (x : A) (ys : List A)
        → behind x ≡ true
        → keep behind (insert x ys) ≡ insert x (keep behind ys)
    unfolding insert
    keep-insert-true x [] t = keep-cons_true behind x [] t
    keep-insert-true x (y ∷ ys) t = elim (le_or_gt x y) [
      | inl le ↦
          let u : behind y ≡ true = ground arith in
          ap (keep behind) (insert-le x y ys le)
          ∙ keep-cons_true behind x (y ∷ ys) t
          ∙ ap (λ zs. x ∷ zs) (keep-cons_true behind y ys u)
          ∙ sym (insert-le x y (keep behind ys) le)
          ∙ ap (insert x) (sym (keep-cons_true behind y ys u))
      | inr gt ↦ ap (keep behind) (insert-gt x y ys gt) ∙ elim (Bool-cases (behind y)) [
        | inl u ↦
            keep-cons_true behind y (insert x ys) u
            ∙ ap (λ zs. y ∷ zs) (keep-insert-true x ys t)
            ∙ sym (insert-gt x y (keep behind ys) gt)
            ∙ ap (insert x) (sym (keep-cons_true behind y ys u))
        | inr v ↦
            keep-cons_false behind y (insert x ys) v
            ∙ keep-insert-true x ys t
            ∙ ap (insert x) (sym (keep-cons_false behind y ys v))
      ]
    ]

    keep-insert-false :
        (x : A) (ys : List A) → behind x ≡ false → keep behind (insert x ys) ≡ keep behind ys
    unfolding insert
    keep-insert-false x [] f = keep-cons_false behind x [] f
    keep-insert-false x (y ∷ ys) f = elim (le_or_gt x y) [
      | inl le ↦ ap (keep behind) (insert-le x y ys le) ∙ keep-cons_false behind x (y ∷ ys) f
      | inr gt ↦ ap (keep behind) (insert-gt x y ys gt) ∙ elim (Bool-cases (behind y)) [
        | inl u ↦
            keep-cons_true behind y (insert x ys) u
            ∙ ap (λ zs. y ∷ zs) (keep-insert-false x ys f)
            ∙ sym (keep-cons_true behind y ys u)
        | inr v ↦
            keep-cons_false behind y (insert x ys) v
            ∙ keep-insert-false x ys f
            ∙ sym (keep-cons_false behind y ys v)
      ]
    ]

    -- It is the same to order the rows behind a key, and to take those of the ordered rows.
    pub sort-keep :
        (xs : List A) → sort (keep (λ x. ltb n (rank x)) xs) ≡ keep (λ x. ltb n (rank x)) (sort xs)
    unfolding sort
    sort-keep [] = refl
    sort-keep (x ∷ xs) = elim (Bool-cases (behind x)) [
      | inl t ↦
          ap sort (keep-cons_true behind x xs t)
          ∙ ap (insert x) (sort-keep xs)
          ∙ sym (keep-insert-true x (sort xs) t)
      | inr f ↦
          ap sort (keep-cons_false behind x xs f)
          ∙ sort-keep xs
          ∙ sym (keep-insert-false x (sort xs) f)
    ]

  length-reverse : (xs : List A) → length (reverse xs) ≡ length xs
  length-reverse [] = refl
  length-reverse (x ∷ xs) =
      let ih = length-reverse xs in
      rw reverse-cons (omega (arith, length-append (reverse xs) (x ∷ [])))

  take_nil : (n : ℕ) → take {A = A} n [] ≡ []
  take_nil zero = refl
  take_nil (suc n) = refl

  take_all : (n : ℕ) (xs : List A) → length xs ≤ n → take n xs ≡ xs
  take_all n [] h = take_nil n
  take_all zero (x ∷ xs) h = absurd (omega arith)
  take_all (suc n) (x ∷ xs) h = ap (λ ys. x ∷ ys) (take_all n xs (omega arith))

  -- The last rows, in the other order.
  take-reverse : (n : ℕ) (xs : List A) → take n (reverse xs) ≡ reverse (drop (length xs - n) xs)
  take-reverse n [] = let z : 0 - n ≡ 0 = omega arith in rw z (take_nil n)
  take-reverse n (x ∷ xs) = elim (Bool-cases (leb n (length xs))) [
    | inl t ↦
        let few : n ≤ length (reverse xs) = rw (length-reverse xs) (ground arith) in
        let k : suc (length xs) - n ≡ suc (length xs - n) = ground arith in
        rw (k, reverse-cons) (take-append_le n (reverse xs) (x ∷ []) few ∙ take-reverse n xs)
    | inr f ↦
        let k : suc (length xs) - n ≡ 0 = ground arith in
        rw k (take_all n (reverse (x ∷ xs)) (rw (length-reverse (x ∷ xs)) (ground arith)))
  ]

  -- The newest rows, put in order again.
  pub sort-newest :
      (n : ℕ) (xs : List A) → Ascends xs → sort (take n (reverse xs)) ≡ drop (length xs - n) xs
  sort-newest n xs h =
      ap sort (take-reverse n xs)
      ∙ sort-reverse (drop (length xs - n) xs) (drop-Ascends (length xs - n) xs h)

-- The names and the queries of the tail are texts of this kind.
replace-plain : (t : Text) → IsPlain t → replace_from 0 (codes "`") (codes "``") t ≡ t
unfolding replace_from starts_with
replace-plain [] h = refl
replace-plain (c ∷ cs) h =
    let e : starts_with (codes "`") (c ∷ cs) ≡ false = ground arith in
    rw (e, replace_from) (ap (λ ds. c ∷ ds) (replace-plain cs (ground arith)))

quote_ident-plain : (name : Text) → IsPlain name → quote_ident name ≡ name_text name
unfolding quote_ident replace
quote_ident-plain name h = rw (replace-plain name h) refl

module _ (q : TailQuery) (plain : IsPlain q.key) where
  pub seed_sql-reordered :
      (n : ℕ) → seed_sql q n ≡ reordered_text q.body q.key descending n ascending
  unfolding seed_sql
  seed_sql-reordered n = rw (quote_ident-plain q.key plain) refl

  pub poll_sql-compared :
      (n limit : ℕ)
      → poll_sql q (decimal n) limit ≡ compared_text q.body q.key greater n ascending limit
  unfolding poll_sql
  poll_sql-compared n limit = rw (quote_ident-plain q.key plain) refl
