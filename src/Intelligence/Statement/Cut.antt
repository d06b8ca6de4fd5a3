-- ===== src/Intelligence/Statement/Cut.antt =====
-- The statement around the cursor.
use Prim.Native.Nat.{min, max}
use mathlib.Core.Option.{some-injective}
use mathlib.Core.Path.{subst}
use ze_db.Prelude.{
  ℕ, suc, ◌+◌, ◌≤◌, ◌<◌, ◌≡◌, refl, sym, ◌∙◌, ◌⊎◌, inl, inr, Bool, true, false, ◌||◌, List, [], ◌∷◌,
  Option, none, some, arith,
}
use ze_db.Prelude.Tests.{ltb, leb, ◌==◌, Bool-cases, if◌then◌else◌}
use ze_db.Prelude.Lists.{length, find, any, All, All-map}
use ze_db.Prelude.Text.{Text, text_eq}
use ze_db.Prelude.Utf8.{is_utf8}
use ze_db.Intelligence.Tokens.{Token, tokenize}
use ze_db.Intelligence.Tokens.Spans.{Spans, tokenize-Spans}
use ze_db.Intelligence.Statement.Marks.{Mark, tokenize-Marked}
use ze_db.Intelligence.Statement.{
  semicolons, larger, latest, behind, or_end, range_of, statement_bounds,
}

-- Offsets in ascending order, from `i` on and below `n`.
abbrev IsAscending : ℕ → ℕ → List ℕ → Type 0
IsAscending i n [] = Unit
IsAscending i n (p ∷ ps) = (i ≤ p) × (p < n) × IsAscending (suc p) n ps

IsAscending-All : (i n : ℕ) (ps : List ℕ) → IsAscending i n ps → All (λ p. i ≤ p) ps
IsAscending-All i n [] h = tt
IsAscending-All i n (p ∷ ps) (a, b, h) =
    (a, All-map _ _ ps (λ q le. omega arith) (IsAscending-All (suc p) n ps h))

IsAscending-earlier : (i j n : ℕ) (ps : List ℕ) → i ≤ j → IsAscending j n ps → IsAscending i n ps
IsAscending-earlier i j n [] le h = tt
IsAscending-earlier i j n (p ∷ ps) le (a, b, h) = (omega arith, b, h)

Spans-le : (i n : ℕ) (ts : List Token) → Spans i n ts → i ≤ n
Spans-le i n [] h = h
Spans-le i n (t ∷ ts) (a, b, h) = let le = Spans-le t.stop n ts h in omega arith

semicolons-IsAscending :
    (i n : ℕ) (ts : List Token) → Spans i n ts → IsAscending i n (semicolons ts)
semicolons-IsAscending i n [] h = tt
semicolons-IsAscending i n (t ∷ ts) (a, b, h) =
    let le = Spans-le t.stop n ts h in
    let rest = semicolons-IsAscending t.stop n ts h in
    elim (Bool-cases (text_eq t.text (b';' ∷ []))) [
      | inl e ↦ rw e (
        a,
        omega arith,
        IsAscending-earlier (suc t.start) t.stop n (semicolons ts) (omega arith) rest,
      )
      | inr e ↦ rw e (IsAscending-earlier i t.stop n (semicolons ts) (omega arith) rest)
    ]

-- `m` is the last of the offsets in front of the cursor, or there is none.
abbrev IsLatest : ℕ → List ℕ → Option ℕ → Type 0
IsLatest c ps none = All (λ p. c ≤ p) ps
IsLatest c ps (some m) = (m < c) × All (λ p. (p ≤ m) ⊎ (c ≤ p)) ps × (any (λ p. p == m) ps ≡ true)

or_true : (b : Bool) → (b || true) ≡ true
or_true true = refl
or_true false = refl

any_here : (p : ℕ) (ps : List ℕ) → any (λ q. q == p) (p ∷ ps) ≡ true
any_here p ps = let here : (p == p) ≡ true = ground arith in rw here refl

any_later :
    (m p : ℕ) (ps : List ℕ) → any (λ q. q == m) ps ≡ true → any (λ q. q == m) (p ∷ ps) ≡ true
any_later m p ps h = rw h (or_true (p == m))

IsLatest-step :
    (c p : ℕ) (ps : List ℕ) (b : Bool) (x : Option ℕ)
    → ltb p c ≡ b
    → IsLatest c ps x
    → IsLatest c (p ∷ ps) (if b then some (larger p x) else x)
IsLatest-step c p ps true none e h =
    (ground arith, (inl (omega arith), All-map _ _ ps (λ q le. inr le) h), any_here p ps)
IsLatest-step c p ps true (some m) e (lt, all, is) = elim (Bool-cases (leb p m)) [
  | inl t ↦
      let top : max p m ≡ m = ground arith in
      subst (λ z. IsLatest c (p ∷ ps) (some z)) (sym top)
        (lt, (inl (ground arith), all), any_later m p ps is)
  | inr f ↦
      let top : max p m ≡ p = ground arith in
      subst (λ z. IsLatest c (p ∷ ps) (some z)) (sym top)
        (
          ground arith,
          (
            inl (omega arith),
            All-map _ _ ps (λ q side. elim side [ inl le ↦ inl (ground arith) | inr le ↦ inr le ])
                all,
          ),
          any_here p ps,
        )
]
IsLatest-step c p ps false none e h = (ground arith, h)
IsLatest-step c p ps false (some m) e (lt, all, is) =
    (lt, (inr (ground arith), all), any_later m p ps is)

latest-IsLatest : (c : ℕ) (ps : List ℕ) → IsLatest c ps (latest c ps)
unfolding latest
latest-IsLatest c [] = tt
latest-IsLatest c (p ∷ ps) =
    IsLatest-step c p ps (ltb p c) (latest c ps) refl (latest-IsLatest c ps)

-- `m` is the first of the offsets from the cursor on, or there is none.
abbrev IsNext : ℕ → ℕ → List ℕ → Option ℕ → Type 0
IsNext n c ps none = All (λ p. p < c) ps
IsNext n c ps (some m) =
    (c ≤ m) × (m < n) × All (λ p. (m ≤ p) ⊎ (p < c)) ps × (any (λ p. p == m) ps ≡ true)

IsNext-step :
    (n c p : ℕ) (ps : List ℕ) (b : Bool) (x : Option ℕ)
    → leb c p ≡ b
    → p < n
    → IsAscending (suc p) n ps
    → IsNext n c ps x
    → IsNext n c (p ∷ ps) (elim b [ true ↦ some p | false ↦ x ])
IsNext-step n c p ps true x e below up h = (
  ground arith,
  below,
  (inl (omega arith), All-map _ _ ps (λ q le. inl (omega arith)) (IsAscending-All (suc p) n ps up)),
  any_here p ps,
)
IsNext-step n c p ps false none e below up h = (ground arith, h)
IsNext-step n c p ps false (some m) e below up (le, lt, all, is) =
    (le, lt, (inr (ground arith), all), any_later m p ps is)

find-IsNext :
    (i n c : ℕ) (ps : List ℕ) → IsAscending i n ps → IsNext n c ps (find (λ p. leb c p) ps)
find-IsNext i n c [] h = tt
find-IsNext i n c (p ∷ ps) (a, b, h) =
    IsNext-step n c p ps (leb c p) (find (λ q. leb c q) ps) refl b h (find-IsNext (suc p) n c ps h)

-- The range holds the cursor `c` and no semicolon, and ends at semicolons or at the ends of the
-- text, of length `n`.
abbrev pub IsStatement : ℕ → ℕ → List ℕ → ℕ × ℕ → Type 0
IsStatement n c ps (a, b) =
    (a ≤ c)
    × (c ≤ b)
    × (b ≤ n)
    × All (λ p. (p < a) ⊎ (b ≤ p)) ps
    × ((a ≡ 0) ⊎ (any (λ p. p + 1 == a) ps ≡ true))
    × ((b ≡ n) ⊎ (any (λ p. p == b) ps ≡ true))

All-zip {ℓ κ μ ν} :
    {A : Type ℓ} (P : A → Type κ) (Q : A → Type μ) (R : A → Type ν) (xs : List A)
    → ((x : A) → P x → Q x → R x)
    → All P xs
    → All Q xs
    → All R xs
All-zip P Q R [] f h k = tt
All-zip P Q R (x ∷ xs) f h k = (f x h.0 k.0, All-zip P Q R xs f h.1 k.1)

any_next : (m : ℕ) (ps : List ℕ) → any (λ p. p == m) ps ≡ true → any (λ p. p + 1 == m + 1) ps ≡ true
any_next m [] h = absurd cc
any_next m (p ∷ ps) h = elim (Bool-cases (p == m)) [
  | inl t ↦ let e : (p + 1 == m + 1) ≡ true = ground arith in rw e refl
  | inr f ↦ let g : (p + 1 == m + 1) ≡ false = ground arith in rw g (any_next m ps (rw f at h))
]

cut-IsStatement :
    (n c : ℕ) (ps : List ℕ) (x y : Option ℕ)
    → c ≤ n
    → IsLatest c ps x
    → IsNext n c ps y
    → IsStatement n c ps (behind x, or_end n y)
cut-IsStatement n c ps none none le h k = (
  omega arith,
  le,
  omega arith,
  All-zip _ _ _ ps (λ p a b. absurd (omega arith)) h k,
  inl refl,
  inl refl,
)
cut-IsStatement n c ps none (some m) le h (a, lt, all, is) = (
  omega arith,
  a,
  omega arith,
  All-zip _ _ _ ps (λ p d e. elim e [ inl u ↦ inr u | inr u ↦ absurd (omega arith) ]) h all,
  inl refl,
  inr is,
)
cut-IsStatement n c ps (some m) none le (lt, all, is) k = (
  omega arith,
  le,
  omega arith,
  All-zip _ _ _ ps (λ p d e. elim d [ inl u ↦ inl (omega arith) | inr u ↦ absurd (omega arith) ])
      all k,
  inr (any_next m ps is),
  inl refl,
)
cut-IsStatement n c ps (some m) (some m') le (lt, all, is) (a, lt', all', is') = (
  omega arith,
  a,
  omega arith,
  All-zip _ _ _ ps
      (λ p d e. elim d [
        | inl u ↦ inl (omega arith)
        | inr u ↦ elim e [ inl w ↦ inr w | inr w ↦ absurd (omega arith) ]
      ])
      all all',
  inr (any_next m ps is),
  inr is',
)

range_of-IsStatement :
    (n c : ℕ) (ps : List ℕ) → c ≤ n → IsAscending 0 n ps → IsStatement n c ps (range_of n c ps)
range_of-IsStatement n c ps le up =
    let a = behind (latest c ps) in
    let b = or_end n (find (λ p. leb c p) ps) in
    let cut =
      cut-IsStatement n c ps (latest c ps) (find (λ p. leb c p) ps) le (latest-IsLatest c ps)
        (find-IsNext 0 n c ps up) in
    let start_le : a ≤ c = cut.0 in
    let le_end : c ≤ b = cut.1 in
    let end : max b a ≡ b = omega arith in subst (λ z. IsStatement n c ps (a, z)) (sym end) cut

-- In every text of valid UTF-8 the statement around the cursor is found without a panic: a range with
-- the cursor, cut to the text's length, in it, in which no token `;` begins, and which begins at 0 or
-- one byte behind the begin of such a token, and stops at the begin of one or at the text's end. The
-- tokens are those of `tokenize`, and where a token `;` begins the text has a semicolon or a backtick.
pub statement_bounds-IsStatement :
    (sql : Text) (cursor : ℕ)
    → is_utf8 sql ≡ true
    → (tokens : List Token) × (range : ℕ × ℕ) × (tokenize sql ≡ some tokens)
      × (statement_bounds sql cursor ≡ some range)
      × IsStatement (length sql) (min cursor (length sql)) (semicolons tokens) range
      × All (Mark sql) (semicolons tokens)
unfolding statement_bounds
statement_bounds-IsStatement sql cursor h =
    let (tokens, e, spans) = tokenize-Spans sql h in
    let (marked, e', marks) = tokenize-Marked sql h in
    let c = min cursor (length sql) in
    (
      tokens,
      range_of (length sql) c (semicolons tokens),
      e,
      rw e refl,
      range_of-IsStatement (length sql) c (semicolons tokens) (omega arith)
          (semicolons-IsAscending 0 (length sql) tokens spans),
      subst (λ ts. All (Mark sql) (semicolons ts)) (some-injective _ _ (sym e' ∙ e)) marks,
    )
