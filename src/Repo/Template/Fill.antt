-- ===== src/Repo/Template/Fill.antt =====
-- The text that rendering a template gives.
use ze_db.Prelude.{
  ◌≡◌, refl, ap, ◌∙◌, true, false, not, ◌&&◌, List, [], ◌∷◌, ◌++◌, Option, none, some, arith, inl,
  inr,
}
use ze_db.Prelude.Tests.{Bool-cases}
use ze_db.Prelude.Lists.{All, All-append, All-map}
use ze_db.Prelude.Text.{Text, text_eq, text_eq_iff, text_eq_refl, contains_text, replace}
use ze_db.Repo.Template.{
  ok, builtin_params, is_identifier, lookup, is_placeholder_name, push_name, substitute,
  render_names, render,
}
use ze_db.Repo.Template.Scan.{IsName, placeholders-Distinct}
use ze_db.Repo.Template.Pieces.{
  Piece, lit, hole, IsPlain, IsWord, IsWord-of_name, emit, IsTemplate, names_of, put,
  placeholders-emit,
}
use ze_db.Repo.Template.Render.{replace-emit}

put-IsTemplate :
    (name value : Text) (ps : List Piece)
    → IsPlain value
    → IsTemplate ps
    → IsTemplate (put name value ps)
put-IsTemplate name value [] v h = tt
put-IsTemplate name value (lit t ∷ ps) v h = (h.0, put-IsTemplate name value ps v h.1)
put-IsTemplate name value (hole m ∷ ps) v h = elim (Bool-cases (text_eq name m)) [
  | inl same ↦ rw same (v, put-IsTemplate name value ps v h.1)
  | inr other ↦ rw other (h.0, put-IsTemplate name value ps v h.1)
]

module _ (values : List (Text × Text)) where
  -- The value that `render` accepts for a name: present, an identifier where the name is built
  -- in, and with no `$` that a later round would read again.
  abbrev pub Supplied : Text → Type 0
  Supplied m =
      (v : Text) × (lookup m values ≡ some v)
      × IsPlain v
      × ((contains_text builtin_params m && not (is_identifier v)) ≡ false)

  abbrev pub HolesSupplied : List Piece → Type 0
  HolesSupplied [] = Unit
  HolesSupplied (lit t ∷ ps) = HolesSupplied ps
  HolesSupplied (hole m ∷ ps) = Supplied m × HolesSupplied ps

  abbrev pub value_of : Option Text → Text
  value_of none = []
  value_of (some v) = v

  abbrev pub fill : List Piece → Text
  fill [] = []
  fill (lit t ∷ ps) = t ++ fill ps
  fill (hole m ∷ ps) = value_of (lookup m values) ++ fill ps

  abbrev Covered : List Text → List Piece → Type 0
  Covered names [] = Unit
  Covered names (lit t ∷ ps) = Covered names ps
  Covered names (hole m ∷ ps) = (contains_text names m ≡ true) × Covered names ps

  fill-put :
      (name value : Text) (ps : List Piece)
      → lookup name values ≡ some value
      → fill (put name value ps) ≡ fill ps
  fill-put name value [] e = refl
  fill-put name value (lit t ∷ ps) e = ap (◌++◌ t) (fill-put name value ps e)
  fill-put name value (hole m ∷ ps) e = elim (Bool-cases (text_eq name m)) [
    | inl same ↦ rw same (rw (← (text_eq_iff name m).0 same, e, fill-put name value ps e))
    | inr other ↦ rw other (ap (◌++◌ (value_of (lookup m values))) (fill-put name value ps e))
  ]

  Covered-put :
      (name value : Text) (names : List Text) (ps : List Piece)
      → Covered (name ∷ names) ps
      → Covered names (put name value ps)
  unfolding contains_text
  Covered-put name value names [] c = tt
  Covered-put name value names (lit t ∷ ps) c = Covered-put name value names ps c
  Covered-put name value names (hole m ∷ ps) c = elim (Bool-cases (text_eq name m)) [
    | inl same ↦ rw same (Covered-put name value names ps c.1)
    | inr other ↦ rw other (rw other at c.0, Covered-put name value names ps c.1)
  ]

  emit-Covered : (ps : List Piece) → Covered [] ps → emit ps ≡ fill ps
  emit-Covered [] c = refl
  emit-Covered (lit t ∷ ps) c = ap (◌++◌ t) (emit-Covered ps c)
  emit-Covered (hole m ∷ ps) c = unfold contains_text in cc

  substitute-emit :
      (name : Text) (ps : List Piece) (s : Supplied name)
      → IsWord name
      → IsTemplate ps
      → substitute values name (emit ps) ≡ ok (emit (put name s.0 ps))
  unfolding substitute replace
  substitute-emit name ps (v, e, p, b) w h =
      rw (e, substitute) (rw b (ap ok (replace-emit name v ps w h)))

  render_names-emit :
      (names : List Text) (ps : List Piece)
      → All Supplied names
      → All IsWord names
      → IsTemplate ps
      → Covered names ps
      → render_names values names (emit ps) ≡ ok (fill ps)
  unfolding render_names
  render_names-emit [] ps s w h c = ap ok (emit-Covered ps c)
  render_names-emit (name ∷ names) ps s w h c = rw (substitute-emit name ps s.0 w.0 h) (
      render_names-emit names (put name s.0.0 ps) s.1 w.1 (put-IsTemplate name s.0.0 ps s.0.2 h)
        (Covered-put name s.0.0 names ps c)
      ∙ ap ok (fill-put name s.0.0 ps s.0.1))

  push_name-Supplied :
      (name : Text) (names : List Text)
      → Supplied name
      → All Supplied names
      → All Supplied (push_name name names)
  unfolding push_name
  push_name-Supplied name names s a =
      elim (Bool-cases (is_placeholder_name name && not (contains_text names name))) [
        | inl new ↦ rw new (All-append Supplied names (name ∷ []) a (s, tt))
        | inr old ↦ rw old a
      ]

  names_of-Supplied :
      (ps : List Piece) (names : List Text)
      → HolesSupplied ps
      → All Supplied names
      → All Supplied (names_of ps names)
  names_of-Supplied [] names h a = a
  names_of-Supplied (lit t ∷ ps) names h a = names_of-Supplied ps names h a
  names_of-Supplied (hole m ∷ ps) names h a =
      names_of-Supplied ps (push_name m names) h.1 (push_name-Supplied m names h.0 a)

contains_text-append_left :
    (ns : List Text) (ms : List Text) (m : Text)
    → contains_text ns m ≡ true
    → contains_text (ns ++ ms) m ≡ true
unfolding contains_text
contains_text-append_left [] ms m h = cc
contains_text-append_left (n ∷ ns) ms m h = ground (arith, contains_text-append_left ns ms m)

contains_text-concat_self : (ns : List Text) (m : Text) → contains_text (ns ++ m ∷ []) m ≡ true
unfolding contains_text
contains_text-concat_self [] m = ground (arith, text_eq_refl m)
contains_text-concat_self (n ∷ ns) m = ground (arith, contains_text-concat_self ns m)

push_name-keeps :
    (name : Text) (names : List Text) (m : Text)
    → contains_text names m ≡ true
    → contains_text (push_name name names) m ≡ true
unfolding push_name
push_name-keeps name names m h = ground (arith, contains_text-append_left names (name ∷ []) m)

push_name-adds :
    (name : Text) (names : List Text)
    → is_placeholder_name name ≡ true
    → contains_text (push_name name names) name ≡ true
unfolding push_name
push_name-adds name names h = ground (arith, contains_text-concat_self names name)

names_of-keeps :
    (ps : List Piece) (names : List Text) (m : Text)
    → contains_text names m ≡ true
    → contains_text (names_of ps names) m ≡ true
names_of-keeps [] names m h = h
names_of-keeps (lit t ∷ ps) names m h = names_of-keeps ps names m h
names_of-keeps (hole n ∷ ps) names m h =
    names_of-keeps ps (push_name n names) m (push_name-keeps n names m h)

module _ (values : List (Text × Text)) where
  names_of-Covered :
      (ps : List Piece) (names : List Text) → IsTemplate ps → Covered values (names_of ps names) ps
  names_of-Covered [] names h = tt
  names_of-Covered (lit t ∷ ps) names h = names_of-Covered ps names h.1
  names_of-Covered (hole m ∷ ps) names h = (
    names_of-keeps ps (push_name m names) m (push_name-adds m names h.0),
    names_of-Covered ps (push_name m names) h.1,
  )

  -- Rendering a template of plain pieces and placeholders whose values are supplied and hold no
  -- `$` puts each value in the place of its placeholder, at every occurrence, and keeps the rest.
  pub render-emit :
      (ps : List Piece)
      → IsTemplate ps
      → HolesSupplied values ps
      → render (emit ps) values ≡ ok (fill values ps)
  unfolding render
  render-emit ps h s =
      let (_, names, _) = placeholders-Distinct (emit ps) in
      rw (placeholders-emit ps h) (
        render_names-emit values (names_of ps []) ps (names_of-Supplied values ps [] s tt)
          (All-map IsName IsWord (names_of ps []) IsWord-of_name
            (rw (placeholders-emit ps h) at names))
          h (names_of-Covered ps [] h))
