-- ===== src/Runner/Numbers.antt =====
-- The sets of migration numbers of runner/tracking.rs, which are kept in ascending order.
use ze_db.Prelude.{
  ℕ, ◌≤◌, ◌<◌, ◌≡◌, refl, sym, ap, ◌∙◌, Bool, true, ◌&&◌, ◌||◌, List, [], ◌∷◌, ◌++◌, some, arith,
  inl, inr,
}
use ze_db.Prelude.Tests.{◌==◌, ltb, Bool-cases}
use ze_db.Prelude.Lists.{All, All-append, All-map, keep}
use ze_db.Runner.Tracking.{insert_number, number_set, has_number}
use ze_db.Runner.Actions.{last_of}
use mathlib.Core.Option.{some-injective}
use mathlib.Core.List.{reverse, reverse-cons}

abbrev pub IsAscending : List ℕ → Type 0
IsAscending [] = Unit
IsAscending (n ∷ ns) = All (λ k. n < k) ns × IsAscending ns

abbrev pub IsDescending : List ℕ → Type 0
IsDescending [] = Unit
IsDescending (n ∷ ns) = All (λ k. k < n) ns × IsDescending ns

insert_number-above :
    (b n : ℕ) (ns : List ℕ) → b < n → All (λ k. b < k) ns → All (λ k. b < k) (insert_number n ns)
unfolding insert_number
insert_number-above b n [] h a = (h, tt)
insert_number-above b n (x ∷ ns) h a = elim (Bool-cases (ltb n x)) [
  | inl lt ↦ rw lt (h, a)
  | inr ge ↦ rw ge (elim (Bool-cases (n == x)) [
    | inl same ↦ rw same a
    | inr other ↦ rw other (a.0, insert_number-above b n ns h a.1)
  ])
]

insert_number-IsAscending :
    (n : ℕ) (ns : List ℕ) → IsAscending ns → IsAscending (insert_number n ns)
unfolding insert_number
insert_number-IsAscending n [] a = (tt, tt)
insert_number-IsAscending n (x ∷ ns) a = elim (Bool-cases (ltb n x)) [
  | inl lt ↦
      rw lt ((ground arith, All-map (λ k. x < k) (λ k. n < k) ns (λ k h. ground arith) a.0), a)
  | inr ge ↦ rw ge (elim (Bool-cases (n == x)) [
    | inl same ↦ rw same a
    | inr other ↦
        rw other (insert_number-above x n ns (ground arith) a.0, insert_number-IsAscending n ns a.1)
  ])
]

pub number_set-IsAscending : (ns : List ℕ) → IsAscending (number_set ns)
unfolding number_set
number_set-IsAscending [] = tt
number_set-IsAscending (n ∷ ns) =
    insert_number-IsAscending n (number_set ns) (number_set-IsAscending ns)

has_number-insert_number :
    (n : ℕ) (ns : List ℕ) (k : ℕ) → has_number (insert_number n ns) k ≡ (n == k || has_number ns k)
unfolding has_number insert_number
has_number-insert_number n [] k = refl
has_number-insert_number n (x ∷ ns) k = ground (arith, has_number-insert_number n ns k)

pub has_number-number_set : (ns : List ℕ) (k : ℕ) → has_number (number_set ns) k ≡ has_number ns k
unfolding has_number number_set
has_number-number_set [] k = refl
has_number-number_set (n ∷ ns) k =
    has_number-insert_number n (number_set ns) k ∙ rw (has_number-number_set ns k)

-- The last of an ascending list is its largest.
last_of-IsAscending :
    (ns : List ℕ) (n : ℕ)
    → IsAscending ns
    → has_number ns n ≡ true
    → (top : ℕ) × (last_of ns ≡ some top) × (n ≤ top)
unfolding has_number
last_of-IsAscending [] n a h = cc
last_of-IsAscending (x ∷ []) n a h = (x, refl, ground arith)
last_of-IsAscending (x ∷ y ∷ ns) n a h = elim (Bool-cases (x == n)) [
  | inl here ↦
      let (top, e, le) = last_of-IsAscending (y ∷ ns) y a.1 (ground arith) in (top, e, ground arith)
  | inr there ↦ last_of-IsAscending (y ∷ ns) n a.1 (ground arith)
]

last_of-has_number : (ns : List ℕ) (top : ℕ) → last_of ns ≡ some top → has_number ns top ≡ true
unfolding has_number
last_of-has_number [] top e = cc
last_of-has_number (x ∷ []) top e = let same = some-injective x top e in ground arith
last_of-has_number (x ∷ y ∷ ns) top e = let ih = last_of-has_number (y ∷ ns) top e in ground arith

-- The last of an ascending list is one of its numbers, and no other is larger.
pub last_of-IsLargest :
    (ns : List ℕ) (n : ℕ)
    → IsAscending ns
    → has_number ns n ≡ true
    → (top : ℕ) × (last_of ns ≡ some top)
      × (has_number ns top ≡ true)
      × ((k : ℕ) → has_number ns k ≡ true → k ≤ top)
last_of-IsLargest ns n a h =
    let (top, e, le) = last_of-IsAscending ns n a h in
    (
      top,
      e,
      last_of-has_number ns top e,
      λ k hk.
          let (top', e', le') = last_of-IsAscending ns k a hk in
          let same = some-injective top' top (sym e' ∙ e) in omega arith,
    )

IsDescending-concat :
    (ns : List ℕ) (n : ℕ) → IsDescending ns → All (λ k. n < k) ns → IsDescending (ns ++ n ∷ [])
IsDescending-concat [] n d a = (tt, tt)
IsDescending-concat (x ∷ ns) n d a =
    (All-append (λ k. k < x) ns (n ∷ []) d.0 (a.0, tt), IsDescending-concat ns n d.1 a.1)

All-reverse : (P : ℕ → Type 0) (ns : List ℕ) → All P ns → All P (reverse ns)
All-reverse P [] a = tt
All-reverse P (n ∷ ns) a =
    rw reverse-cons (All-append P (reverse ns) (n ∷ []) (All-reverse P ns a.1) (a.0, tt))

pub reverse-IsDescending : (ns : List ℕ) → IsAscending ns → IsDescending (reverse ns)
reverse-IsDescending [] a = tt
reverse-IsDescending (n ∷ ns) a = rw reverse-cons (
    IsDescending-concat (reverse ns) n (reverse-IsDescending ns a.1)
      (All-reverse (λ k. n < k) ns a.0))

pub has_number-append :
    (ns ms : List ℕ) (k : ℕ) → has_number (ns ++ ms) k ≡ (has_number ns k || has_number ms k)
unfolding has_number
has_number-append [] ms k = refl
has_number-append (n ∷ ns) ms k = ground (arith, has_number-append ns ms k)

pub has_number-reverse : (ns : List ℕ) (k : ℕ) → has_number (reverse ns) k ≡ has_number ns k
unfolding has_number
has_number-reverse [] k = refl
has_number-reverse (n ∷ ns) k =
    rw reverse-cons
      (has_number-append (reverse ns) (n ∷ []) k ∙ ground (arith, has_number-reverse ns k))

All-keep : (P : ℕ → Type 0) (p : ℕ → Bool) (ns : List ℕ) → All P ns → All P (keep p ns)
All-keep P p [] a = tt
All-keep P p (n ∷ ns) a = elim (Bool-cases (p n)) [
  | inl in_set ↦ rw (in_set, keep) (a.0, All-keep P p ns a.1)
  | inr out ↦ rw (out, keep) (All-keep P p ns a.1)
]

pub keep-IsDescending : (p : ℕ → Bool) (ns : List ℕ) → IsDescending ns → IsDescending (keep p ns)
keep-IsDescending p [] d = tt
keep-IsDescending p (n ∷ ns) d = elim (Bool-cases (p n)) [
  | inl in_set ↦ rw (in_set, keep) (All-keep (λ k. k < n) p ns d.0, keep-IsDescending p ns d.1)
  | inr out ↦ rw (out, keep) (keep-IsDescending p ns d.1)
]

pub has_number-keep :
    (p : ℕ → Bool) (ns : List ℕ) (k : ℕ) → has_number (keep p ns) k ≡ (has_number ns k && p k)
unfolding has_number
has_number-keep p [] k = refl
has_number-keep p (n ∷ ns) k = elim (Bool-cases (p n)) [
  | inl in_set ↦
      rw (in_set, keep)
        (elim (Bool-cases (n == k)) [
          | inl same ↦
              let e : n ≡ k = ground arith in ground (arith, has_number-keep p ns k, in_set, ap p e)
          | inr other ↦ rw other (has_number-keep p ns k)
        ])
  | inr out ↦
      rw (out, keep)
        (elim (Bool-cases (n == k)) [
          | inl same ↦
              let e : n ≡ k = ground arith in ground (arith, has_number-keep p ns k, out, ap p e)
          | inr other ↦ rw other (has_number-keep p ns k)
        ])
]
