-- ===== src/Repo/Template/Render.antt =====
-- What one replacement of `${name}` does to a template.
use ze_db.Prelude.{
  ℕ, ◌-◌, ◌≡◌, refl, sym, ap, ◌∙◌, true, false, List, [], ◌∷◌, ◌++◌, arith, inl, inr,
}
use ze_db.Prelude.Tests.{Bool-cases}
use ze_db.Prelude.Lists.{length}
use ze_db.Prelude.Text.{Text, text_eq, text_eq_iff, text_eq_refl, starts_with, replace_from}
use ze_db.Repo.Template.{braced}
use ze_db.Repo.Template.Pieces.{
  Piece, lit, hole, IsWord, IsWord-of_name, IsWord-IsPlain, emit, IsTemplate, put,
  replace_from-skip, replace_from-plain, starts_with-word,
}
use mathlib.Core.List.{append_assoc}

replace_from_miss :
    (pat value : Text) (c : ℕ) (cs : Text)
    → starts_with pat (c ∷ cs) ≡ false
    → replace_from 0 pat value (c ∷ cs) ≡ c ∷ replace_from 0 pat value cs
unfolding replace_from
replace_from_miss pat value c cs h = rw (h, replace_from)

replace_from_hit :
    (pat value : Text) (c : ℕ) (cs : Text)
    → starts_with pat (c ∷ cs) ≡ true
    → replace_from 0 pat value (c ∷ cs) ≡ value ++ replace_from (length pat - 1) pat value cs
unfolding replace_from
replace_from_hit pat value c cs h = rw (h, replace_from)

starts_with-braced :
    (name m rest : Text)
    → IsWord name
    → IsWord m
    → starts_with (braced name) (b'$' ∷ b'{' ∷ (m ++ b'}' ∷ rest)) ≡ text_eq name m
unfolding starts_with
starts_with-braced name m rest hn hm = starts_with-word name m rest hn hm

-- The replacement of `${name}` at another placeholder, and at its own.
replace_other :
    (name value m rest : Text)
    → IsWord name
    → IsWord m
    → text_eq name m ≡ false
    → replace_from 0 (braced name) value (b'$' ∷ b'{' ∷ (m ++ b'}' ∷ rest))
      ≡ b'$' ∷ b'{' ∷ (m ++ b'}' ∷ replace_from 0 (braced name) value rest)
replace_other name value m rest hn hm ne =
    replace_from_miss (braced name) value b'$' _ (starts_with-braced name m rest hn hm ∙ ne)
    ∙ ap (◌∷◌ b'$') (
        replace_from-plain (b'{' ∷ m) _ value (b'}' ∷ rest) (IsWord-IsPlain m hm)
        ∙ ap (◌++◌ (b'{' ∷ m)) (replace_from-plain (b'}' ∷ []) _ value rest refl))

replace_own :
    (name value rest : Text)
    → IsWord name
    → replace_from 0 (braced name) value (b'$' ∷ b'{' ∷ (name ++ b'}' ∷ rest))
      ≡ value ++ replace_from 0 (braced name) value rest
replace_own name value rest hn =
    replace_from_hit (braced name) value b'$' _
      (starts_with-braced name name rest hn hn ∙ text_eq_refl name)
    ∙ ap (◌++◌ value) (
        ap (λ k. replace_from k (braced name) value (b'{' ∷ (name ++ b'}' ∷ rest))) (omega arith)
        ∙ ap
            (λ t. replace_from (length (b'{' ∷ (name ++ b'}' ∷ []))) (braced name) value (b'{' ∷ t))
            (sym (append_assoc name (b'}' ∷ []) rest))
        ∙ replace_from-skip (b'{' ∷ (name ++ b'}' ∷ [])) (braced name) value rest)

replace_hole :
    (name value m : Text) (ps : List Piece)
    → IsWord name
    → IsWord m
    → replace_from 0 (braced name) value (emit ps) ≡ emit (put name value ps)
    → replace_from 0 (braced name) value (emit (hole m ∷ ps)) ≡ emit (put name value (hole m ∷ ps))
replace_hole name value m ps hn hm ih = elim (Bool-cases (text_eq name m)) [
  | inl same ↦
      rw same (rw (← (text_eq_iff name m).0 same) (replace_own name value (emit ps) hn ∙ rw ih))
  | inr other ↦ rw other (replace_other name value m (emit ps) hn hm other ∙ rw ih)
]

pub replace-emit :
    (name value : Text) (ps : List Piece)
    → IsWord name
    → IsTemplate ps
    → replace_from 0 (braced name) value (emit ps) ≡ emit (put name value ps)
replace-emit name value [] hn h = unfold replace_from in refl
replace-emit name value (lit t ∷ ps) hn h =
    replace_from-plain t _ value (emit ps) h.0 ∙ ap (◌++◌ t) (replace-emit name value ps hn h.1)
replace-emit name value (hole m ∷ ps) hn h =
    replace_hole name value m ps hn (IsWord-of_name m h.0) (replace-emit name value ps hn h.1)
