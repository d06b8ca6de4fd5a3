-- ===== src/Sync/Merge.antt =====
-- Lists of connections that are merged: what a synced list may change in a local one.
use ze_db.Prelude.{◌≡◌, refl, true, List, [], ◌∷◌, ◌++◌, Option, none, some, inl, inr, ◌⊎◌, sym}
use mathlib.Core.Path.{subst}
use native.Mathlib.Omega.{arith}
use ze_db.Prelude.Tests.{Bool-cases, Option-cases}
use ze_db.Prelude.Lists.{All}
use ze_db.Prelude.Text.{Text, text_eq, contains_text}
use ze_db.Prelude.Utf8.{is_empty}
use ze_db.Sync.Connections.{
  production, ConnectionConfig, Url, Merged, is_acceptable, adopt, update_first, merge_new,
  merge_step, merge_loop, merge_synced_connections,
}

-- A connection but for the login that a sync may change.
abbrev pub authority : ConnectionConfig → ConnectionConfig
authority c = record c { user = []; database = none }

module _ (url : Text → Option Url) where
  abbrev pub IsGuarded : ConnectionConfig → Type 0
  IsGuarded c =
      (c.read_only ≡ true)
      × (c.tier ≡ production)
      × (c.driver ≡ [])
      × (c.cloud ≡ none)
      × (is_acceptable url c ≡ true)

  -- The local connections in their order, and guarded ones behind them.
  abbrev pub Extends : List ConnectionConfig → List ConnectionConfig → Type 0
  Extends [] ms = All IsGuarded ms
  Extends (l ∷ ls) [] = ⊥
  Extends (l ∷ ls) (m ∷ ms) = (authority m ≡ authority l) × Extends ls ms

  Extends-self : (ls : List ConnectionConfig) → Extends ls ls
  Extends-self [] = tt
  Extends-self (l ∷ ls) = (refl, Extends-self ls)

  Extends-append :
      (ls ms : List ConnectionConfig) (c : ConnectionConfig)
      → Extends ls ms
      → IsGuarded c
      → Extends ls (ms ++ c ∷ [])
  Extends-append [] [] c h g = (g, tt)
  Extends-append [] (m ∷ ms) c h g = (h.0, Extends-append [] ms c h.1 g)
  Extends-append (l ∷ ls) [] c h g = elim h [ ]
  Extends-append (l ∷ ls) (m ∷ ms) c h g = (h.0, Extends-append ls ms c h.1 g)

  pub update_first-eq-some :
      (incoming c : ConnectionConfig) (cs ds : List ConnectionConfig)
      → update_first url incoming (c ∷ cs) ≡ some ds
      → (ds ≡ adopt url incoming c ∷ cs)
        ⊎ ((es : List ConnectionConfig) × (update_first url incoming cs ≡ some es) × (ds ≡ c ∷ es))
  unfolding update_first
  update_first-eq-some incoming c cs ds e = elim (Bool-cases (text_eq c.name incoming.name)) [
    | inl t ↦ inl (ground (arith, t, e))
    | inr f ↦ elim (Option-cases (update_first url incoming cs)) [
      | inl n ↦ ground (arith, f, n, e)
      | inr (es, k) ↦ inr (es, k, ground (arith, f, k, e))
    ]
  ]

  update_first-Extends :
      (incoming : ConnectionConfig) (ls ms ds : List ConnectionConfig)
      → Extends ls ms
      → update_first url incoming ms ≡ some ds
      → Extends ls ds
  unfolding update_first
  update_first-Extends incoming [] [] ds h e = cc
  update_first-Extends incoming [] (m ∷ ms) ds h e =
      elim (update_first-eq-some incoming m ms ds e) [
        | inl k ↦ subst (Extends []) (sym k) h
        | inr (es, u, k) ↦
            subst (Extends []) (sym k) (h.0, update_first-Extends incoming [] ms es h.1 u)
      ]
  update_first-Extends incoming (l ∷ ls) [] ds h e = elim h [ ]
  update_first-Extends incoming (l ∷ ls) (m ∷ ms) ds h e =
      elim (update_first-eq-some incoming m ms ds e) [
        | inl k ↦ subst (Extends (l ∷ ls)) (sym k) h
        | inr (es, u, k) ↦
            subst (Extends (l ∷ ls)) (sym k) (h.0, update_first-Extends incoming ls ms es h.1 u)
      ]

  merge_new-Extends :
      (incoming : ConnectionConfig) (ls merged : List ConnectionConfig) (seen : List Text)
      → Extends ls merged
      → Extends ls (merge_new url incoming (merged, seen)).0
  merge_new-Extends incoming ls merged seen h =
      elim (Bool-cases (contains_text seen incoming.name)) [
        | inl t ↦ rw t h
        | inr f ↦ elim (Bool-cases (is_acceptable url incoming)) [
          | inl a ↦ rw (f, a) (Extends-append ls merged _ h (refl, refl, refl, refl, a))
          | inr r ↦ rw (f, r) h
        ]
      ]

  merge_step-Extends :
      (incoming : ConnectionConfig) (ls : List ConnectionConfig) (state : Merged)
      → Extends ls state.0
      → Extends ls (merge_step url incoming state).0
  unfolding merge_step
  merge_step-Extends incoming ls (merged, seen) h = elim (Bool-cases (is_empty incoming.name)) [
    | inl t ↦ rw t h
    | inr f ↦ elim (Option-cases (update_first url incoming merged)) [
      | inl n ↦ rw (f, n) (merge_new-Extends incoming ls merged seen h)
      | inr (ds, k) ↦ rw (f, k) (update_first-Extends incoming ls merged ds h k)
    ]
  ]

  merge_loop-Extends :
      (pulled ls : List ConnectionConfig) (state : Merged)
      → Extends ls state.0
      → Extends ls (merge_loop url pulled state)
  unfolding merge_loop
  merge_loop-Extends [] ls state h = h
  merge_loop-Extends (incoming ∷ pulled) ls state h =
      merge_loop-Extends pulled ls _ (merge_step-Extends incoming ls state h)

  -- Whatever a synced list holds, each local connection stays in its place, and but for its
  -- user and database it stays as it was. What is added behind them is read-only, marked as
  -- production, without driver settings or a cloud link, and all its endpoints are acceptable.
  pub merge_synced_connections-Extends :
      (ls pulled : List ConnectionConfig) → Extends ls (merge_synced_connections url ls pulled)
  unfolding merge_synced_connections
  merge_synced_connections-Extends ls pulled = merge_loop-Extends pulled ls _ (Extends-self ls)
