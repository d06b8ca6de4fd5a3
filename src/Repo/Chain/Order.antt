-- ===== src/Repo/Chain/Order.antt =====
-- What holds of every chain that `discover_chain` accepts.
use ze_db.Prelude.{ℕ, ◌≤◌, ◌<◌, ◌≡◌, List, [], ◌∷◌, arith, inl, inr, ◌⊎◌}
use ze_db.Prelude.Tests.{leb, Bool-cases}
use ze_db.Prelude.Lists.{All, All-map}
use ze_db.Repo.Chain.{insert_by_number, sort_by_number, check_pair, check_windows}
use ze_db.Repo.Chain.Disk.{ok, >>=-eq-ok}
use ze_db.Repo.Chain.Parse.{Migration}

-- No number below in the rest, with `≤` before the pairs are checked and `<` behind it.
abbrev pub Above : ℕ → List Migration → Type 0
Above n ms = All (λ m. n ≤ m.number) ms

abbrev pub IsSorted : List Migration → Type 0
IsSorted [] = Unit
IsSorted (m ∷ ms) = Above m.number ms × IsSorted ms

-- `b` may follow `a`: a larger number and no earlier month.
abbrev pub Follows : Migration → Migration → Type 0
Follows a b =
    (a.number < b.number) × ((a.year < b.year) ⊎ ((a.year ≡ b.year) × (a.month ≤ b.month)))

abbrev pub IsChain : List Migration → Type 0
IsChain [] = Unit
IsChain (m ∷ ms) = All (Follows m) ms × IsChain ms

Above-insert :
    (n : ℕ) (m : Migration) (ms : List Migration)
    → n ≤ m.number
    → Above n ms
    → Above n (insert_by_number m ms)
unfolding insert_by_number
Above-insert n m [] h a = (h, tt)
Above-insert n m (x ∷ ms) h a = elim (Bool-cases (leb m.number x.number)) [
  | inl le ↦ rw le (h, a)
  | inr gt ↦ rw gt (a.0, Above-insert n m ms h a.1)
]

Above-trans : (n k : ℕ) (ms : List Migration) → n ≤ k → Above k ms → Above n ms
Above-trans n k ms h a = All-map (λ m. k ≤ m.number) (λ m. n ≤ m.number) ms (λ m l. omega arith) a

insert-IsSorted :
    (m : Migration) (ms : List Migration) → IsSorted ms → IsSorted (insert_by_number m ms)
unfolding insert_by_number
insert-IsSorted m [] s = (tt, tt)
insert-IsSorted m (x ∷ ms) s = elim (Bool-cases (leb m.number x.number)) [
  | inl le ↦ rw le ((ground arith, Above-trans m.number x.number ms (ground arith) s.0), s)
  | inr gt ↦ rw gt (Above-insert x.number m ms (ground arith) s.0, insert-IsSorted m ms s.1)
]

pub sort-IsSorted : (ms : List Migration) → IsSorted (sort_by_number ms)
unfolding sort_by_number
sort-IsSorted [] = tt
sort-IsSorted (m ∷ ms) = insert-IsSorted m (sort_by_number ms) (sort-IsSorted ms)

check_pair-Follows : (a b : Migration) → a.number ≤ b.number → check_pair a b ≡ ok tt → Follows a b
check_pair-Follows a b h e = ground arith

Follows-trans : (a b c : Migration) → Follows a b → Follows b c → Follows a c
Follows-trans a b c h k = ground arith

pub check_windows-IsChain :
    (ms : List Migration) → IsSorted ms → check_windows ms ≡ ok tt → IsChain ms
unfolding check_windows
check_windows-IsChain [] s e = tt
check_windows-IsChain (a ∷ []) s e = (tt, tt)
check_windows-IsChain (a ∷ b ∷ ms) s e =
    let (u, p, q) = >>=-eq-ok (check_pair a b) (λ _. check_windows (b ∷ ms)) e in
    let f = check_pair-Follows a b s.0.0 p in
    let chain = check_windows-IsChain (b ∷ ms) s.1 q in
    ((f, All-map (Follows b) (Follows a) ms (λ c k. Follows-trans a b c f k) chain.0), chain)

All-insert :
    (P : Migration → Type 0) (m : Migration) (ms : List Migration)
    → P m
    → All P ms
    → All P (insert_by_number m ms)
unfolding insert_by_number
All-insert P m [] h a = (h, tt)
All-insert P m (x ∷ ms) h a = elim (Bool-cases (leb m.number x.number)) [
  | inl le ↦ rw le (h, a)
  | inr gt ↦ rw gt (a.0, All-insert P m ms h a.1)
]

pub All-sort : (P : Migration → Type 0) (ms : List Migration) → All P ms → All P (sort_by_number ms)
unfolding sort_by_number
All-sort P [] a = tt
All-sort P (m ∷ ms) a = All-insert P m (sort_by_number ms) a.0 (All-sort P ms a.1)
