-- ===== src/Repo/Chain/Dated.antt =====
-- The numbers and dates of what `parse_migration` accepts.
use ze_db.Prelude.{
  ℕ, ◌+◌, ◌-◌, ◌*◌, ◌^◌, ◌≤◌, ◌<◌, ◌≡◌, true, List, [], ◌∷◌, ◌++◌, Option, arith, inl, inr,
}
use ze_db.Prelude.Tests.{Bool-cases}
use ze_db.Prelude.Lists.{length, all, All, All-append}
use ze_db.Prelude.Text.{Text, codes, is_ascii_digit}
use ze_db.Repo.Chain.{is_some, check_depth, collect, collect_entry}
use ze_db.Repo.Chain.Disk.{
  Entry, file, symlink, dir, Entries, nil, cons, ok, >>=-eq-ok, regular_file,
}
use ze_db.Repo.Chain.Parse.{
  Migration, is_digits, decimal, decimal_from, check_path, read_class, read_targeted,
  parse_migration,
}
use mathlib.Core.Path.{subst}
use native.Mathlib.Nat.{pow-suc, mul_comm, mul_assoc}

-- What every parsed directory satisfies.
abbrev pub IsDated : Migration → Type 0
IsDated m = (m.number < 100000) × (m.year < 10000) × (1 ≤ m.month) × (m.month ≤ 12)

decimal_from-bound :
    (t : Text) (acc bound : ℕ)
    → all is_ascii_digit t ≡ true
    → acc < bound
    → decimal_from acc t < bound * 10 ^ length t
unfolding is_ascii_digit
decimal_from-bound [] acc bound h l = omega arith
decimal_from-bound (c ∷ t) acc bound h l =
    let ih =
      decimal_from-bound t (acc * 10 + (c - b'0')) (bound * 10) (ground arith) (ground arith) in
    rw (pow-suc, mul_comm (10 ^ length t) 10) (rw (mul_assoc bound 10 (10 ^ length t)) at ih)

pub decimal_bound : (width : ℕ) (t : Text) → is_digits width t ≡ true → decimal t < 10 ^ width
unfolding is_digits
decimal_bound width t h =
    let e : length t ≡ width = ground arith in
    subst (λ w. decimal t < 10 ^ w) e
      (omega (arith, decimal_from-bound t 0 1 (ground arith) (omega arith)))

pub check_path-dated :
    (parts : List Text) (year month number : Text)
    → check_path parts ≡ ok (year, month, number)
    → (is_digits 4 year ≡ true)
      × (is_digits 5 number ≡ true)
      × (1 ≤ decimal month)
      × (decimal month ≤ 12)
unfolding check_path
check_path-dated [] year month number e = cc
check_path-dated (y ∷ []) year month number e = cc
check_path-dated (y ∷ m ∷ []) year month number e = cc
check_path-dated (y ∷ m ∷ n ∷ []) year month number e = ground arith
check_path-dated (y ∷ m ∷ n ∷ x ∷ rest) year month number e = cc

module _ (parse_targeted : Text → Option (List Text)) where
  parse_migration-IsDated :
      (parts : List Text) (es : Entries) (m : Migration)
      → parse_migration parse_targeted parts es ≡ ok m
      → IsDated m
  unfolding parse_migration
  parse_migration-IsDated parts es m e =
      let ((year, month, number), p, e1) = >>=-eq-ok (check_path parts) _ e in
      let (class, _, e2) =
        >>=-eq-ok (read_class parse_targeted (regular_file (codes "rollback.sql") es)) _ e1 in
      let (targeted, _, e3) =
        >>=-eq-ok (read_targeted parse_targeted (regular_file (codes "targeted.toml") es)) _ e2 in
      let (y, n, lo, hi) = check_path-dated parts year month number p in
      ground (arith, decimal_bound 4 year y, decimal_bound 5 number n)

  mutual
    unfolding collect

    pub collect-IsDated :
        (parts : List Text) (depth : ℕ) (es : Entries) (found : List Migration)
        → collect parse_targeted parts depth es ≡ ok found
        → All IsDated found
    collect-IsDated parts depth nil found e = ground arith
    collect-IsDated parts depth (cons x es) found e =
        let (here, p, e1) = >>=-eq-ok (collect_entry parse_targeted parts depth x) _ e in
        let (more, q, e2) = >>=-eq-ok (collect parse_targeted parts depth es) _ e1 in
        ground (
          arith,
          All-append IsDated here more (collect_entry-IsDated parts depth x here p)
              (collect-IsDated parts depth es more q),
        )

    collect_entry-IsDated :
        (parts : List Text) (depth : ℕ) (e : Entry) (found : List Migration)
        → collect_entry parse_targeted parts depth e ≡ ok found
        → All IsDated found
    collect_entry-IsDated parts depth (file name c) found h = ground arith
    collect_entry-IsDated parts depth (symlink name o) found h = cc
    collect_entry-IsDated parts depth (dir name es) found h =
        elim (Bool-cases (is_some (regular_file (codes "upgrade.sql") es))) [
          | inl leaf ↦
              let (m, p, q) =
                >>=-eq-ok (parse_migration parse_targeted (parts ++ name ∷ []) es)
                  (λ m. ok (m ∷ [])) (rw (leaf, collect_entry) at h) in
              ground (arith, parse_migration-IsDated (parts ++ name ∷ []) es m p)
          | inr inner ↦
              let (u, p, q) =
                >>=-eq-ok (check_depth (depth + 1))
                  (λ _. collect parse_targeted (parts ++ name ∷ []) (depth + 1) es)
                  (rw (inner, collect_entry) at h) in
              collect-IsDated (parts ++ name ∷ []) (depth + 1) es found q
        ]
