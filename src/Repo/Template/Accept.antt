-- ===== src/Repo/Template/Accept.antt =====
-- When `render` succeeds.
use ze_db.Prelude.{◌≡◌, refl, false, not, ◌&&◌, List, [], ◌∷◌, some, arith, inl, inr, ◌↔◌}
use ze_db.Prelude.Tests.{Option-cases}
use ze_db.Prelude.Lists.{All}
use ze_db.Prelude.Text.{Text, contains_text, replace}
use ze_db.Repo.Template.{
  >>=-eq-ok, ok, builtin_params, is_identifier, lookup, braced, placeholders, substitute,
  render_names, render,
}

module _ (values : List (Text × Text)) where
  -- What `render` asks of one placeholder's value.
  abbrev pub Accepts : Text → Type 0
  Accepts m =
      (v : Text) × (lookup m values ≡ some v)
      × ((contains_text builtin_params m && not (is_identifier v)) ≡ false)

  substitute-eq-ok : (m : Text) (t r : Text) → substitute values m t ≡ ok r → Accepts m
  unfolding substitute
  substitute-eq-ok m t r e = elim (Option-cases (lookup m values)) [
    | inl p ↦ ground arith
    | inr (v, p) ↦ (v, p, ground arith)
  ]

  substitute_total : (m : Text) (t : Text) → Accepts m → (r : Text) × (substitute values m t ≡ ok r)
  unfolding substitute
  substitute_total m t (v, e, b) = (replace (braced m) v t, rw (e, substitute) (rw b))

  render_names-eq-ok :
      (names : List Text) (t r : Text) → render_names values names t ≡ ok r → All Accepts names
  unfolding render_names
  render_names-eq-ok [] t r e = tt
  render_names-eq-ok (m ∷ names) t r e =
      let (t', p, q) = >>=-eq-ok (substitute values m t) (render_names values names) e in
      (substitute-eq-ok m t t' p, render_names-eq-ok names t' r q)

  render_names_total :
      (names : List Text) (t : Text)
      → All Accepts names
      → (r : Text) × (render_names values names t ≡ ok r)
  unfolding render_names
  render_names_total [] t a = (t, refl)
  render_names_total (m ∷ names) t a =
      let (t', p) = substitute_total m t a.0 in
      let (r, q) = render_names_total names t' a.1 in (r, rw p q)

  -- `render` succeeds exactly when each placeholder of the text has a value, and the value of
  -- `db` and of `cluster` is an identifier.
  pub render_iff :
      (sql : Text) → All Accepts (placeholders sql) ↔ ((r : Text) × (render sql values ≡ ok r))
  unfolding render
  render_iff sql = (
    λ a. render_names_total (placeholders sql) sql a,
    λ (r, e). render_names-eq-ok (placeholders sql) sql r e,
  )
