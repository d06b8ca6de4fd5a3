-- ===== src/Pool/Key.antt =====
-- What the key of a pooled connection tells apart.
use ze_db.Prelude.{
  ℕ, zero, suc, ◌/◌, ◌≡◌, ◌≢◌, ◌↔◌, refl, sym, ap, ◌∙◌, inl, inr, Bool, true, false, [], ◌∷◌, ◌++◌,
  Option, none, some, arith,
}
use ze_db.Prelude.Tests.{ltb, Bool-cases}
use ze_db.Prelude.Lists.{All, All-append}
use ze_db.Prelude.Text.{Text, codes}
use ze_db.Prelude.Utf8.{trim}
use ze_db.Value.{decimal, decimal_loop}
use ze_db.Value.Denotes.{read_digits, read-decimal}
use ze_db.Pool.{
  ChConfig, Outside, bar, or_empty, show_port, show_flag, session_digest, key_of_url, key_text,
  pool_key,
}

abbrev pub NoBar : Text → Type 0
NoBar = All (λ (c : ℕ). c ≢ bar)

-- Two texts that go on behind a bar, and have none before it.
split_bar : (s t x y : Text) → NoBar s → NoBar t → s ++ bar ∷ x ≡ t ++ bar ∷ y → (s ≡ t) × (x ≡ y)
split_bar [] [] x y h k e = (refl, cc)
split_bar [] (d ∷ t) x y h k e = absurd (k.0 (cc))
split_bar (c ∷ s) [] x y h k e = absurd (h.0 (cc))
split_bar (c ∷ s) (d ∷ t) x y h k e = let (a, b) = split_bar s t x y h.1 k.1 (cc) in (cc, b)

decimal_loop-NoBar : (f n : ℕ) → NoBar (decimal_loop f n)
unfolding decimal_loop
decimal_loop-NoBar zero n = tt
decimal_loop-NoBar (suc f) n = elim (Bool-cases (ltb n 10)) [
  | inl t ↦ rw t (λ e. ground arith, tt)
  | inr g ↦ rw g (
      All-append (λ (c : ℕ). c ≢ bar) (decimal_loop f (n / 10)) _ (decimal_loop-NoBar f (n / 10))
        (λ e. omega arith, tt))
]

decimal-NoBar : (n : ℕ) → NoBar (decimal n)
unfolding decimal
decimal-NoBar n = decimal_loop-NoBar (suc n) n

show_port-NoBar : (p : Option ℕ) → NoBar (show_port p)
show_port-NoBar none = omega arith
show_port-NoBar (some p) =
    All-append (λ (c : ℕ). c ≢ bar) (codes "Some(") (decimal p ++ codes ")") (omega arith)
      (All-append (λ (c : ℕ). c ≢ bar) (decimal p) (codes ")") (decimal-NoBar p) (omega arith))

show_flag-NoBar : (b : Bool) → NoBar (show_flag b)
show_flag-NoBar true = omega arith
show_flag-NoBar false = omega arith

append_right_cancel : (s t : Text) (c : ℕ) → s ++ c ∷ [] ≡ t ++ c ∷ [] → s ≡ t
append_right_cancel [] [] c e = refl
append_right_cancel [] (d ∷ []) c e = cc
append_right_cancel [] (d ∷ d' ∷ t) c e = cc
append_right_cancel (d ∷ []) [] c e = cc
append_right_cancel (d ∷ d' ∷ s) [] c e = cc
append_right_cancel (d ∷ s) (d' ∷ t) c e = let ih = append_right_cancel s t c (cc) in cc

show_port-injective : (p q : Option ℕ) → show_port p ≡ show_port q → p ≡ q
show_port-injective none none e = refl
show_port-injective none (some q) e = cc
show_port-injective (some p) none e = cc
show_port-injective (some p) (some q) e =
    let same : decimal p ≡ decimal q = append_right_cancel (decimal p) (decimal q) b')' (cc) in
    ap some (sym (read-decimal p) ∙ ap read_digits same ∙ read-decimal q)

show_flag-injective : (a b : Bool) → show_flag a ≡ show_flag b → a ≡ b
show_flag-injective true true e = refl
show_flag-injective true false e = cc
show_flag-injective false true e = cc
show_flag-injective false false e = refl

key_of_url-some :
    (parsed : Option (Text × Option Text)) (t k : Text) → key_of_url parsed t ≡ some k → t ≡ k
key_of_url-some none t k h = cc
key_of_url-some (some (user, none)) t k h = ground arith
key_of_url-some (some (user, some password)) t k h = cc

pool_key-key_text :
    (o : Outside) (a : ChConfig) (k : Text) → pool_key o a ≡ some k → key_text o a ≡ k
unfolding pool_key
pool_key-key_text o a k h =
    ground (arith, key_of_url-some (o.parse_url (trim a.url)) (key_text o a) k)

-- The parts of a configuration that the key writes out have no bar.
pub record IsPlain (a : ChConfig) : Type 0 where
  pub url : NoBar (trim a.url)
  pub user : NoBar a.user
  pub database : NoBar (or_empty a.database)

-- The same server, as the same user, in the same database and with the same session.
pub record SameSession (o : Outside) (a b : ChConfig) : Type 0 where
  pub endpoint : trim a.url ≡ trim b.url
  pub native_port : a.native_port ≡ b.native_port
  pub user : a.user ≡ b.user
  pub database : or_empty a.database ≡ or_empty b.database
  pub read_only : a.read_only ≡ b.read_only
  pub session : session_digest o a ≡ session_digest o b

key_text-SameSession :
    (o : Outside) (a b : ChConfig)
    → IsPlain a
    → IsPlain b
    → key_text o a ≡ key_text o b
    → SameSession o a b
unfolding key_text
key_text-SameSession o a b h k e =
    let (e1, r1) = split_bar _ _ _ _ h.url k.url e in
    let (e2, r2) =
      split_bar _ _ _ _ (show_port-NoBar a.native_port) (show_port-NoBar b.native_port) r1 in
    let (e3, r3) = split_bar _ _ _ _ h.user k.user r2 in
    let (e4, r4) = split_bar _ _ _ _ h.database k.database r3 in
    let (e5, r5) =
      split_bar _ _ _ _ (show_flag-NoBar a.read_only) (show_flag-NoBar b.read_only) r4 in
    record {
      endpoint = e1;
      native_port = show_port-injective _ _ e2;
      user = e3;
      database = e4;
      read_only = show_flag-injective _ _ e5;
      session = r5;
    }

SameSession-key_text :
    (o : Outside) (a b : ChConfig) → SameSession o a b → key_text o a ≡ key_text o b
unfolding key_text
SameSession-key_text o a b s =
    simp (s.endpoint, s.native_port, s.user, s.database, s.read_only, s.session)

-- Two configurations that have keys, and whose URL, user and database hold no `|`, have the same
-- key exactly when they name the same server, port, user and database, are both read-only or
-- neither, and have the same digest of password and settings.
pub pool_key-SameSession :
    (o : Outside) (a b : ChConfig) (j k : Text)
    → IsPlain a
    → IsPlain b
    → pool_key o a ≡ some j
    → pool_key o b ≡ some k
    → (j ≡ k) ↔ SameSession o a b
pool_key-SameSession o a b j k h h' e e' =
    let p = pool_key-key_text o a j e in
    let q = pool_key-key_text o b k e' in
    (
      λ same. key_text-SameSession o a b h h' (p ∙ same ∙ sym q),
      λ s. sym p ∙ SameSession-key_text o a b s ∙ q,
    )
