-- ===== src/Sync/Names.antt =====
-- The names of the merged connections.
use ze_db.Prelude.{
  ◌≡◌, refl, sym, ap, ◌∙◌, false, List, [], ◌∷◌, ◌++◌, Option, none, some, map, inl, inr, arith,
}
use mathlib.Core.Path.{subst}
use ze_db.Prelude.Tests.{Bool-cases, Option-cases}
use ze_db.Prelude.Text.{Text, text_eq, contains_text}
use ze_db.Prelude.Utf8.{is_empty}
use ze_db.Repo.Template.Scan.{Distinct, Distinct-concat}
use ze_db.Sync.Connections.{
  ConnectionConfig, Url, Merged, is_acceptable, guarded, update_first, merge_new, merge_step,
  merge_loop, merge_synced_connections,
}
use ze_db.Sync.Merge.{update_first-eq-some}

abbrev pub names : List ConnectionConfig → List Text
names cs = map (λ c. c.name) cs

names-append :
    (cs : List ConnectionConfig) (c : ConnectionConfig)
    → names (cs ++ c ∷ []) ≡ names cs ++ c.name ∷ []
names-append [] c = refl
names-append (d ∷ cs) c = ap (λ ns. d.name ∷ ns) (names-append cs c)

module _ (url : Text → Option Url) where
  names-update_first :
      (incoming : ConnectionConfig) (cs ds : List ConnectionConfig)
      → update_first url incoming cs ≡ some ds
      → names ds ≡ names cs
  unfolding update_first
  names-update_first incoming [] ds e = cc
  names-update_first incoming (c ∷ cs) ds e = elim (update_first-eq-some url incoming c cs ds e) [
    | inl k ↦ ap names k
    | inr (es, u, k) ↦ ap names k ∙ ap (λ ns. c.name ∷ ns) (names-update_first incoming cs es u)
  ]

  update_first-eq-none :
      (incoming : ConnectionConfig) (cs : List ConnectionConfig)
      → update_first url incoming cs ≡ none
      → contains_text (names cs) incoming.name ≡ false
  unfolding update_first contains_text
  update_first-eq-none incoming [] e = refl
  update_first-eq-none incoming (c ∷ cs) e = elim (Bool-cases (text_eq c.name incoming.name)) [
    | inl t ↦ ground (arith, t, e)
    | inr f ↦ elim (Option-cases (update_first url incoming cs)) [
      | inl n ↦ let ih = update_first-eq-none incoming cs n in ground (arith, f, ih)
      | inr (es, k) ↦ ground (arith, f, k, e)
    ]
  ]

  merge_new-Distinct :
      (incoming : ConnectionConfig) (merged : List ConnectionConfig) (seen : List Text)
      → contains_text (names merged) incoming.name ≡ false
      → Distinct (names merged)
      → Distinct (names (merge_new url incoming (merged, seen)).0)
  merge_new-Distinct incoming merged seen new d =
      elim (Bool-cases (contains_text seen incoming.name)) [
        | inl t ↦ rw t d
        | inr f ↦ elim (Bool-cases (is_acceptable url incoming)) [
          | inl a ↦
              rw (f, a)
                (subst Distinct (sym (names-append merged (guarded url incoming)))
                  (Distinct-concat (names merged) incoming.name d new))
          | inr r ↦ rw (f, r) d
        ]
      ]

  merge_step-Distinct :
      (incoming : ConnectionConfig) (state : Merged)
      → Distinct (names state.0)
      → Distinct (names (merge_step url incoming state).0)
  unfolding merge_step
  merge_step-Distinct incoming (merged, seen) d = elim (Bool-cases (is_empty incoming.name)) [
    | inl t ↦ rw t d
    | inr f ↦ elim (Option-cases (update_first url incoming merged)) [
      | inl n ↦
          rw (f, n)
            (merge_new-Distinct incoming merged seen (update_first-eq-none incoming merged n) d)
      | inr (ds, k) ↦ rw (f, k) (subst Distinct (sym (names-update_first incoming merged ds k)) d)
    ]
  ]

  merge_loop-Distinct :
      (pulled : List ConnectionConfig) (state : Merged)
      → Distinct (names state.0)
      → Distinct (names (merge_loop url pulled state))
  unfolding merge_loop
  merge_loop-Distinct [] state d = d
  merge_loop-Distinct (incoming ∷ pulled) state d =
      merge_loop-Distinct pulled _ (merge_step-Distinct incoming state d)

  -- Where the local names are distinct, so are the merged ones, whatever the synced list holds:
  -- a name is the key of a connection's password.
  pub merge_synced_connections-Distinct :
      (here pulled : List ConnectionConfig)
      → Distinct (names here)
      → Distinct (names (merge_synced_connections url here pulled))
  unfolding merge_synced_connections
  merge_synced_connections-Distinct here pulled d = merge_loop-Distinct pulled _ d
