-- ===== src/Repo/Chain/Disk.antt =====
-- The part of a file system that the chain reads, and the errors of reading a repository.
use ze_db.Prelude.{ℕ, ◌≡◌, refl, Option, none, some}
use ze_db.Prelude.Tests.{if◌then◌else◌}
use ze_db.Prelude.Text.{Text, text_eq}

-- `unreadable` stands for an input error, for bytes that are no text, and for a file above the
-- limit of `read_repo_file`.
pub data Contents : Type 0 where
  readable : Text → Contents
  unreadable : Contents

mutual
  -- A symbolic link carries the contents of the regular file that it leads to, if it does.
  pub data Entry : Type 0 where
    file : Text → Contents → Entry
    symlink : Text → Option Contents → Entry
    dir : Text → Entries → Entry

  pub data Entries : Type 0 where
    nil : Entries
    cons : Entry → Entries → Entries

-- Why a layout is refused, in place of the message's text.
pub data LayoutProblem : Type 0 where
  too_deep symlinked invalid_path unreadable_file bad_rollback_class : LayoutProblem
  duplicate_number : ℕ → LayoutProblem
  dated_before : ℕ → ℕ → LayoutProblem
  undeclared_param : Text → LayoutProblem

-- `RepoError`, of which reading the chain returns these.
pub data RepoError : Type 0 where
  layout : LayoutProblem → RepoError
  config : RepoError

pub data Result {ℓ} (A : Type ℓ) : Type ℓ where
  ok : A → Result A
  err : RepoError → Result A

infixl 5 ◌>>=◌ ◌>>◌
abbrev pub ◌>>=◌ {ℓ κ} : {A : Type ℓ} {B : Type κ} → Result A → (A → Result B) → Result B
ok x >>= next = next x
err problem >>= next = err problem

abbrev pub ◌>>◌ {ℓ} : {B : Type ℓ} → Result (Unit {0}) → Result B → Result B
check >> next = check >>= λ _. next

pub >>=-eq-ok {ℓ κ} :
    {A : Type ℓ} {B : Type κ} (read : Result A) (next : A → Result B) {y : B}
    → (read >>= next) ≡ ok y
    → (x : A) × (read ≡ ok x) × (next x ≡ ok y)
>>=-eq-ok (ok x) next e = (x, refl, e)
>>=-eq-ok (err problem) next e = cc

pub ok-injective {ℓ} : {A : Type ℓ} (a b : A) → ok a ≡ ok b → a ≡ b
ok-injective a b e = cc

abbrev or_else : Option Contents → Option Contents → Option Contents
or_else (some c) o = some c
or_else none o = o

abbrev file_of : Text → Entry → Option Contents
file_of name (file n c) = if text_eq n name then some c else none
file_of name (symlink n o) = if text_eq n name then o else none
file_of name (dir n es) = none

-- `dir.join(name)`, if it `is_file()`: that test follows a symbolic link.
unfoldable pub regular_file : Text → Entries → Option Contents
regular_file name nil = none
regular_file name (cons e es) = or_else (file_of name e) (regular_file name es)

-- `read_repo_file`
abbrev pub read_repo_file : Option Contents → Result Text
read_repo_file (some (readable t)) = ok t
read_repo_file (some unreadable) = err (layout unreadable_file)
read_repo_file none = err (layout unreadable_file)
