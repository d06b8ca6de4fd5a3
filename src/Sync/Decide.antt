-- ===== src/Sync/Decide.antt =====
-- What one pass of the sync decides, and what it leaves behind.
use ze_db.Prelude.{
  ℕ, ◌≡◌, ◌≢◌, refl, sym, ap, ◌∙◌, ◌↔◌, ◌⊎◌, inl, inr, Bool, true, false, not, List, Option, none,
  some, arith,
}
use mathlib.Core.Path.{subst}
use ze_db.Prelude.Tests.{Bool-cases}
use ze_db.Prelude.Text.{Text, text_eq, text_eq_iff, text_eq_refl}
use ze_db.Sync.Connections.{ConnectionConfig}
use ze_db.Sync.Preferences.{Preferences, sanitized_preferences}
use ze_db.Sync.Tick.{
  Payload, PayloadRead, failed, found, Outside, Reconcile, up_to_date, apply_repo, push_local,
  push_local_conflict, in_step, applied, pushed, tick_failed, crashed, is_hash, decide, reconcile,
  content_hash, payload_hash, hash_of, build_payload, read_payload, load_state, stamp_state, finish,
  committed, written, pulled, push_settings, act, tick_on, run_sync_tick, Tick,
}

is_hash-eq-true :
    (known : Option Text) (hash : Text) → is_hash known hash ≡ true → known ≡ some hash
is_hash-eq-true none hash e = cc
is_hash-eq-true (some k) hash e = ap some ((text_eq_iff k hash).0 e)

decide-eq-apply_repo : (a b : Bool) → decide a b ≡ apply_repo → a ≡ false
decide-eq-apply_repo false b e = refl
decide-eq-apply_repo true true e = cc
decide-eq-apply_repo true false e = cc

not-eq-false : (b : Bool) → not b ≡ false → b ≡ true
not-eq-false true e = refl
not-eq-false false e = cc

decide-false : (b : Bool) → decide false b ≡ apply_repo
decide-false true = refl
decide-false false = refl

text_eq-eq-false : (a b : Text) → text_eq a b ≡ false → a ≢ b
text_eq-eq-false a b f e = let k = (text_eq_iff a b).1 e in cc

≢-text_eq : (a b : Text) → a ≢ b → text_eq a b ≡ false
≢-text_eq a b n = elim (Bool-cases (text_eq a b)) [
  | inl t ↦ elim (n ((text_eq_iff a b).0 t)) [ ]
  | inr f ↦ f
]

on_different :
    (local_hash hash : Text) (last_synced : Option Text)
    → reconcile local_hash (some hash) last_synced ≡ apply_repo
    → (hash ≢ local_hash) × (last_synced ≡ some local_hash)
unfolding reconcile
on_different local_hash hash last_synced e = elim (Bool-cases (text_eq hash local_hash)) [
  | inl t ↦ ground (arith, t, e)
  | inr f ↦
      let known = decide-eq-apply_repo _ _ (rw f at e) in
      (
        text_eq-eq-false hash local_hash f,
        is_hash-eq-true last_synced local_hash (not-eq-false _ known),
      )
]

some-injective : (a b : Text) → some a ≡ some b → a ≡ b
some-injective a b e = cc

on_same :
    (local_hash hash : Text)
    → hash ≢ local_hash
    → reconcile local_hash (some hash) (some local_hash) ≡ apply_repo
unfolding reconcile
on_same local_hash hash n =
    rw (≢-text_eq hash local_hash n, text_eq_refl local_hash)
      (decide-false (not (text_eq local_hash hash)))

-- The repository's settings are applied exactly when they differ from the local ones and the
-- local ones are those of the last sync: an edit that is not synced yet is never overwritten.
pub reconcile_iff :
    (local_hash : Text) (repo_hash last_synced : Option Text)
    → (reconcile local_hash repo_hash last_synced ≡ apply_repo) ↔ (
        (hash : Text) × (repo_hash ≡ some hash)
        × (hash ≢ local_hash)
        × (last_synced ≡ some local_hash))
unfolding reconcile
reconcile_iff local_hash none last_synced = (λ e. cc, λ (hash, e, _, _). cc)
reconcile_iff local_hash (some hash) last_synced = (
  λ e. let (n, k) = on_different local_hash hash last_synced e in (hash, refl, n, k),
  λ (other, e, n, k).
      subst (λ l. reconcile local_hash (some hash) l ≡ apply_repo) (sym k)
        (on_same local_hash hash (λ q. n (sym (some-injective hash other e) ∙ q))),
)

module _ (o : Outside) where
  -- The outcomes of a push. `hash` is what it stamps.
  abbrev pub Pushes : Text → Tick o → Type 0
  Pushes hash (pushed c, w) = (v : o.World) × (w ≡ stamp_state o hash v)
  Pushes hash (tick_failed text, w) = Unit
  Pushes hash (in_step, w) = ⊥
  Pushes hash (applied payload h, w) = ⊥
  Pushes hash (crashed, w) = ⊥

  finish-Pushes :
      (c : Bool) (hash : Text) (x : Option Text × o.World) → Pushes hash (finish o c hash x)
  finish-Pushes c hash (none, w) = (w, refl)
  finish-Pushes c hash (some first, w) = tt

  committed-Pushes :
      (c : Bool) (hash : Text) (x : Option Text × o.World) → Pushes hash (committed o c hash x)
  committed-Pushes c hash (none, w) = finish-Pushes c hash _
  committed-Pushes c hash (some first, w) = tt

  written-Pushes :
      (c : Bool) (hash author : Text) (x : Option Text × o.World)
      → Pushes hash (written o c hash author x)
  written-Pushes c hash author (none, w) = committed-Pushes c hash _
  written-Pushes c hash author (some first, w) = tt

  push_settings-Pushes :
      (c : Bool) (e : Option Text) (p : Preferences) (cs : List ConnectionConfig) (w : o.World)
      → Pushes (content_hash o p cs) (push_settings o c e p cs w)
  unfolding push_settings
  push_settings-Pushes c none p cs w = written-Pushes c _ _ _
  push_settings-Pushes c (some text) p cs w = tt

  -- What a pass leaves, by its outcome: `repo` is what was read, `v` where the pull ended.
  abbrev pub Accounts :
      Preferences → List ConnectionConfig → o.World → Option Text → Option Payload → Tick o → Type 0
  Accounts p cs v pull_error repo (in_step, w) =
      (w ≡ v) ⊎ (w ≡ stamp_state o (content_hash o p cs) v)
  Accounts p cs v pull_error repo (applied payload hash, w) =
      (w ≡ v)
      × (repo ≡ some payload)
      × (hash ≡ payload_hash o payload)
      × (hash ≢ content_hash o p cs)
      × ((load_state o v).last_synced_hash ≡ some (content_hash o p cs))
  Accounts p cs v pull_error repo (pushed c, w) =
      (pull_error ≡ none) × ((u : o.World) × (w ≡ stamp_state o (content_hash o p cs) u))
  Accounts p cs v pull_error repo (tick_failed text, w) = Unit
  Accounts p cs v pull_error repo (crashed, w) = ⊥

  abbrev pub repo_of : PayloadRead → Option Payload
  repo_of (failed text) = none
  repo_of (found repo) = repo

  Accounts-of_Pushes :
      (p : Preferences) (cs : List ConnectionConfig) (v : o.World) (repo : Option Payload)
      (t : Tick o)
      → Pushes (content_hash o p cs) t
      → Accounts p cs v none repo t
  Accounts-of_Pushes p cs v repo (pushed c, w) h = (refl, h)
  Accounts-of_Pushes p cs v repo (tick_failed text, w) h = tt
  Accounts-of_Pushes p cs v repo (in_step, w) h = elim h [ ]
  Accounts-of_Pushes p cs v repo (applied payload hash, w) h = elim h [ ]
  Accounts-of_Pushes p cs v repo (crashed, w) h = elim h [ ]

  push_settings-Accounts :
      (c : Bool) (e : Option Text) (repo : Option Payload) (p : Preferences)
      (cs : List ConnectionConfig) (v : o.World)
      → Accounts p cs v e repo (push_settings o c e p cs v)
  unfolding push_settings
  push_settings-Accounts c none repo p cs v =
      Accounts-of_Pushes p cs v repo _ (push_settings-Pushes c none p cs v)
  push_settings-Accounts c (some text) repo p cs v = tt

  act-Accounts :
      (d : Reconcile) (e : Option Text) (repo : Option Payload) (p : Preferences)
      (cs : List ConnectionConfig) (v : o.World)
      → reconcile (content_hash o p cs) (hash_of o repo) (load_state o v).last_synced_hash ≡ d
      → Accounts p cs v e repo (act o d e repo p cs v)
  unfolding reconcile
  act-Accounts up_to_date e repo p cs v k =
      elim (Bool-cases (is_hash (load_state o v).last_synced_hash (content_hash o p cs))) [
        | inl t ↦ inl (rw t refl)
        | inr f ↦ inr (rw f refl)
      ]
  act-Accounts apply_repo e none p cs v k = cc
  act-Accounts apply_repo e (some payload) p cs v k =
      let (n, same) = on_different _ (payload_hash o payload) _ k in (refl, refl, refl, n, same)
  act-Accounts push_local e repo p cs v k = push_settings-Accounts false e repo p cs v
  act-Accounts push_local_conflict e repo p cs v k = push_settings-Accounts true e repo p cs v

  tick_on-Accounts :
      (x : PayloadRead) (e : Option Text) (p : Preferences) (cs : List ConnectionConfig)
      (v : o.World)
      → Accounts p cs v e (repo_of x) (tick_on o x e p cs v)
  tick_on-Accounts (failed text) e p cs v = tt
  tick_on-Accounts (found repo) e p cs v = act-Accounts _ e repo p cs v refl

  -- Every pass of the sync is accounted for. It hands over the repository's settings only if
  -- they differ from the local ones and the local ones are those of the last sync, and writes
  -- nothing then. It reports a push only if the pull did not fail, and then the hash of the local
  -- settings is stamped last. In step, it writes the stamp at most. It never panics.
  pub run_sync_tick-Accounts :
      (p : Preferences) (cs : List ConnectionConfig) (w : o.World)
      → Accounts p cs
          (pulled o w).1
          (pulled o w).0
          (repo_of (read_payload o (pulled o w).1))
          (run_sync_tick o p cs w)
  unfolding run_sync_tick
  run_sync_tick-Accounts p cs w =
      tick_on-Accounts (read_payload o (pulled o w).1) (pulled o w).0 p cs (pulled o w).1

  hash_of_same :
      (p q : Preferences) (cs : List ConnectionConfig)
      → sanitized_preferences p ≡ sanitized_preferences q
      → content_hash o p cs ≡ content_hash o q cs
  unfolding content_hash
  hash_of_same p q cs e = rw e refl

  payload_hash-build_payload :
      (p : Preferences) (cs : List ConnectionConfig) (time : ℕ) (author : Text)
      → payload_hash o (build_payload p cs time author) ≡ content_hash o p cs
  unfolding build_payload sanitized_preferences
  payload_hash-build_payload p cs time author = hash_of_same _ p cs refl

  -- A machine that finds in the repository what a machine of the same settings pushed is in
  -- step, whatever the two differ in locally, whoever pushed, and whenever.
  pub run_sync_tick-in_step :
      (p q : Preferences) (cs : List ConnectionConfig) (w : o.World) (time : ℕ) (author : Text)
      → sanitized_preferences p ≡ sanitized_preferences q
      → read_payload o (pulled o w).1 ≡ found (some (build_payload q cs time author))
      → (run_sync_tick o p cs w).0 ≡ in_step
  unfolding run_sync_tick reconcile
  run_sync_tick-in_step p q cs w time author same e = rw e (
      rw
        (
          payload_hash-build_payload q cs time author,
          hash_of_same p q cs same,
          text_eq_refl (content_hash o q cs),
        )
        refl)
