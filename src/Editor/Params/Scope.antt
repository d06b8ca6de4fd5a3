-- ===== src/Editor/Params/Scope.antt =====
-- The two ways to look a declaration up agree.
use ze_db.Prelude.{
  ℕ, ◌≡◌, ◌⊎◌, refl, sym, ap, ◌∙◌, inl, inr, Bool, true, false, ◌&&◌, List, [], ◌∷◌, ◌++◌, Option,
  none, some, arith,
}
use ze_db.Prelude.Tests.{leb, ltb, Bool-cases, Option-cases, if◌then◌else◌}
use ze_db.Prelude.Lists.{any, keep, keep-cons_true, keep-cons_false, find}
use ze_db.Prelude.Text.{Text, text_eq, text_eq_iff, text_eq_refl}
use ze_db.Editor.Params.{
  Declaration, or_first, rfind, value_of, above, below, in_effect, has_name, add_param, params_loop,
  params_at, lookup_loop, last_of, lookup_in, lookup,
}

-- The value of a name among pairs.
abbrev pub value_in : Text → List (Text × Text) → Option Text
value_in name [] = none
value_in name ((n, v) ∷ ps) = if text_eq n name then some v else value_in name ps

or_first_assoc {ℓ} :
    {A : Type ℓ} (a b c : Option A) → or_first (or_first a b) c ≡ or_first a (or_first b c)
or_first_assoc none b c = refl
or_first_assoc (some a) b c = refl

or_first_id {ℓ} : {A : Type ℓ} (a : Option A) → or_first a none ≡ a
or_first_id none = refl
or_first_id (some a) = refl

not_above : (o : ℕ) (d : Declaration) → leb d.at o ≡ true → ltb o d.at ≡ false
not_above o d h = ground arith

not_below : (o : ℕ) (d : Declaration) → leb d.at o ≡ false → ltb o d.at ≡ true
not_below o d h = ground arith

loop_above :
    (o : ℕ) (a b : Option Declaration) (d : Declaration) (ds : List Declaration)
    → leb d.at o ≡ true
    → lookup_loop o a b (d ∷ ds) ≡ lookup_loop o (some d) b ds
unfolding lookup_loop
loop_above o a b d ds h = rw (h, lookup_loop) refl

loop_below :
    (o : ℕ) (a b : Option Declaration) (d : Declaration) (ds : List Declaration)
    → leb d.at o ≡ false
    → lookup_loop o a b (d ∷ ds) ≡ lookup_loop o a (or_first b (some d)) ds
unfolding lookup_loop
loop_below o a b d ds h = rw (h, lookup_loop) refl

module _ (name : Text) where
  abbrev named : Declaration → Bool
  named d = text_eq d.name name

  abbrev is_above : ℕ → Declaration → Bool
  is_above o d = text_eq d.name name && above (some o) d

  abbrev is_below : ℕ → Declaration → Bool
  is_below o d = text_eq d.name name && below (some o) d

  lookup_loop-find :
      (o : ℕ) (a b : Option Declaration) (ds : List Declaration)
      → lookup_loop o a b (keep named ds)
        ≡ or_first (or_first (rfind (is_above o) ds) a) (or_first b (find (is_below o) ds))
  unfolding lookup_loop
  lookup_loop-find o a b [] = rw (or_first_id b) refl
  lookup_loop-find o a b (d ∷ ds) = elim (Bool-cases (text_eq d.name name)) [
    | inr f ↦
        ap (lookup_loop o a b) (keep-cons_false named d ds f)
        ∙ lookup_loop-find o a b ds
        ∙ rw (f, find, or_first_id (rfind (is_above o) ds)) refl
    | inl t ↦ elim (Bool-cases (leb d.at o)) [
      | inl u ↦
          let first = loop_above o a b d (keep named ds) u in
          let known : rfind (is_above o) (d ∷ ds) ≡ or_first (rfind (is_above o) ds) (some d) =
            rw (t, u) refl in
          let beyond : find (is_below o) (d ∷ ds) ≡ find (is_below o) ds =
            rw (t, not_above o d u, find) refl in
          ap (lookup_loop o a b) (keep-cons_true named d ds t)
          ∙ first
          ∙ lookup_loop-find o (some d) b ds
          ∙ rw (known, beyond, or_first_assoc (rfind (is_above o) ds) (some d) a) refl
      | inr u ↦
          let first = loop_below o a b d (keep named ds) u in
          let known : rfind (is_above o) (d ∷ ds) ≡ rfind (is_above o) ds =
            rw (t, u, or_first_id (rfind (is_above o) ds)) refl in
          let here : find (is_below o) (d ∷ ds) ≡ some d = rw (t, not_below o d u, find) refl in
          ap (lookup_loop o a b) (keep-cons_true named d ds t)
          ∙ first
          ∙ lookup_loop-find o a (or_first b (some d)) ds
          ∙ rw (known, here, or_first_assoc b (some d) (find (is_below o) ds)) refl
    ]
  ]

  last_of-rfind :
      (ds : List Declaration)
      → last_of (keep named ds) ≡ rfind (λ d. text_eq d.name name && above none d) ds
  last_of-rfind [] = refl
  last_of-rfind (d ∷ ds) = elim (Bool-cases (text_eq d.name name)) [
    | inl t ↦
        let ih = last_of-rfind ds in
        let last : rfind (λ e. text_eq e.name name && above none e) (d ∷ ds)
            ≡ or_first (rfind (λ e. text_eq e.name name && above none e) ds) (some d) =
          rw t refl in
        ap last_of (keep-cons_true named d ds t) ∙ ap (λ o. or_first o (some d)) ih ∙ sym last
    | inr f ↦
        let ih = last_of-rfind ds in
        let same : rfind (λ e. text_eq e.name name && above none e) (d ∷ ds)
            ≡ rfind (λ e. text_eq e.name name && above none e) ds =
          rw (f, or_first_id (rfind (λ e. text_eq e.name name && above none e) ds)) refl in
        ap last_of (keep-cons_false named d ds f) ∙ ih ∙ sym same
  ]

  no_later : (ds : List Declaration) → find (λ d. text_eq d.name name && below none d) ds ≡ none
  no_later [] = refl
  no_later (d ∷ ds) = elim (Bool-cases (text_eq d.name name)) [
    | inl t ↦ rw (t, find) (no_later ds)
    | inr f ↦ rw (f, find) (no_later ds)
  ]

  in_effect-lookup :
      (ds : List Declaration) (offset : Option ℕ) → in_effect ds offset name ≡ lookup ds offset name
  unfolding in_effect lookup
  in_effect-lookup ds none = ap value_of (
      ap (or_first (rfind (λ d. text_eq d.name name && above none d) ds)) (no_later ds)
      ∙ or_first_id (rfind (λ d. text_eq d.name name && above none d) ds)
      ∙ sym (last_of-rfind ds))
  in_effect-lookup ds (some o) = ap value_of (
      sym (
        lookup_loop-find o none none ds
        ∙ ap (λ a. or_first a (find (is_below o) ds)) (or_first_id (rfind (is_above o) ds))))

  keep-undeclared : (ds : List Declaration) → any named ds ≡ false → keep named ds ≡ []
  keep-undeclared [] h = refl
  keep-undeclared (d ∷ ds) h = elim (Bool-cases (text_eq d.name name)) [
    | inl t ↦ let h' = rw t at h in cc
    | inr f ↦ keep-cons_false named d ds f ∙ keep-undeclared ds (rw f at h)
  ]

  in_effect-undeclared :
      (ds : List Declaration) (offset : Option ℕ)
      → any named ds ≡ false
      → in_effect ds offset name ≡ none
  unfolding lookup lookup_loop
  in_effect-undeclared ds none h =
      in_effect-lookup ds none ∙ ap (λ ks. value_of (lookup_in none ks)) (keep-undeclared ds h)
  in_effect-undeclared ds (some o) h =
      in_effect-lookup ds (some o)
      ∙ ap (λ ks. value_of (lookup_in (some o) ks)) (keep-undeclared ds h)

  value_in-append :
      (ps : List (Text × Text)) (n v : Text)
      → value_in name (ps ++ (n, v) ∷ [])
        ≡ or_first (value_in name ps) (if text_eq n name then some v else none)
  value_in-append [] n v = refl
  value_in-append ((m, w) ∷ ps) n v = elim (Bool-cases (text_eq m name)) [
    | inl t ↦ rw t refl
    | inr f ↦ rw f (value_in-append ps n v)
  ]

  has_name-value_in :
      (ps : List (Text × Text))
      → ((has_name name ps ≡ true) × ((v : Text) × (value_in name ps ≡ some v)))
        ⊎ ((has_name name ps ≡ false) × (value_in name ps ≡ none))
  has_name-value_in [] = inr (refl, refl)
  has_name-value_in ((m, w) ∷ ps) = elim (Bool-cases (text_eq m name)) [
    | inl t ↦ inl (rw t refl, (w, rw t refl))
    | inr f ↦ rw f (has_name-value_in ps)
  ]

  abbrev expected : List Declaration → Option ℕ → List Declaration → Option Text
  expected all offset ds = if any named ds then in_effect all offset name else none

  -- A declaration of another name adds nothing for this one.
  add_other :
      (all : List Declaration) (offset : Option ℕ) (result : List (Text × Text)) (d : Declaration)
      → text_eq d.name name ≡ false
      → value_in name (add_param all offset result d) ≡ value_in name result
  unfolding add_param
  add_other all offset result d f = elim (Bool-cases (has_name d.name result)) [
    | inl t ↦ rw t refl
    | inr g ↦ elim (Option-cases (in_effect all offset d.name)) [
      | inl e ↦ rw (g, e) refl
      | inr (v, e) ↦
          rw (g, e)
            (value_in-append result d.name v ∙ rw (f, or_first_id (value_in name result)) refl)
    ]
  ]

  add_same :
      (all : List Declaration) (offset : Option ℕ) (result : List (Text × Text)) (d : Declaration)
      → d.name ≡ name
      → value_in name (add_param all offset result d)
        ≡ or_first (value_in name result) (in_effect all offset name)
  unfolding add_param
  add_same all offset result d same = elim (has_name-value_in result) [
    | inl (t, (v, e)) ↦ rw (same, t, e) refl
    | inr (f, e) ↦ elim (Option-cases (in_effect all offset name)) [
      | inl gone ↦ rw (same, f, gone, e) refl
      | inr (v, there) ↦
          rw (same, f, there) (value_in-append result name v ∙ rw (e, text_eq_refl name) refl)
    ]
  ]

  twice : (a b c : Option Text) → (c ≡ b) ⊎ (c ≡ none) → or_first (or_first a b) c ≡ or_first a b
  twice none none c (inl e) = e
  twice none none c (inr e) = e
  twice none (some b) c h = refl
  twice (some a) b c h = refl

  expected_cases :
      (all : List Declaration) (offset : Option ℕ) (ds : List Declaration)
      → (expected all offset ds ≡ in_effect all offset name) ⊎ (expected all offset ds ≡ none)
  expected_cases all offset ds = elim (Bool-cases (any named ds)) [
    | inl t ↦ inl (rw t refl)
    | inr f ↦ inr (rw f refl)
  ]

  whole :
      (ds : List Declaration) (offset : Option ℕ) → expected ds offset ds ≡ in_effect ds offset name
  whole ds offset = elim (Bool-cases (any named ds)) [
    | inl t ↦ rw t refl
    | inr f ↦ rw f (sym (in_effect-undeclared ds offset f))
  ]

  params_loop-value :
      (all : List Declaration) (offset : Option ℕ) (result : List (Text × Text))
      (ds : List Declaration)
      → value_in name (params_loop all offset result ds)
        ≡ or_first (value_in name result) (expected all offset ds)
  unfolding params_loop
  params_loop-value all offset result [] = sym (or_first_id (value_in name result))
  params_loop-value all offset result (d ∷ ds) = elim (Bool-cases (text_eq d.name name)) [
    | inr f ↦
        params_loop-value all offset (add_param all offset result d) ds
        ∙ ap (λ o. or_first o (expected all offset ds)) (add_other all offset result d f)
        ∙ rw f refl
    | inl t ↦
        params_loop-value all offset (add_param all offset result d) ds
        ∙ ap (λ o. or_first o (expected all offset ds))
            (add_same all offset result d ((text_eq_iff d.name name).0 t))
        ∙ twice (value_in name result) (in_effect all offset name) (expected all offset ds)
            (expected_cases all offset ds)
        ∙ rw t refl
  ]

  -- What `params_at` gives for a name at an offset, or without one, is what the lookup of
  -- `resolve_query_variables` gives there, on the same declarations: nothing if the name is not
  -- declared.
  pub params_at-lookup :
      (ds : List Declaration) (offset : Option ℕ)
      → value_in name (params_at ds offset) ≡ lookup ds offset name
  unfolding params_at
  params_at-lookup ds offset =
      params_loop-value ds offset [] ds ∙ whole ds offset ∙ in_effect-lookup ds offset
