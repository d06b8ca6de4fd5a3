-- ===== src/Runner/Execution.antt =====
-- crates/zedb-ch/src/runner/execution.rs: one migration's script against one database.
use ze_db.Prelude.{
  ℕ, zero, suc, ◌+◌, ◌/◌, ◌%◌, Bool, true, false, not, ◌&&◌, List, [], ◌∷◌, ◌++◌, Option, none,
  some,
}
use ze_db.Prelude.Tests.{leb, ltb, if◌then◌else◌}
use ze_db.Prelude.Lists.{any, keep, find}
use ze_db.Prelude.Text.{Text, codes, text_eq, starts_with, replace}
use ze_db.Prelude.Utf8.{is_empty, lines, trim, text_lt}
use ze_db.Repo.Template.{placeholders, lookup}
use ze_db.Runner.Base.{needs_cluster, unresolved, Result, ok, err, Runner, is_some}

abbrev pub Params : Type 0
Params = List (Text × Text)

-- `BTreeMap::insert`, on a list in the order of its keys.
unfoldable pub insert_param : Text → Text → Params → Params
insert_param k v [] = (k, v) ∷ []
insert_param k v ((j, w) ∷ m) =
    if text_eq j k
    then (k, v) ∷ m
    else if text_lt k j
    then (k, v) ∷ (j, w) ∷ m
    else (j, w) ∷ insert_param k v m

abbrev add_cluster : Option Text → Bool → Params → Params
add_cluster (some cluster) no_cluster m = insert_param (codes "cluster") cluster m
add_cluster none true m = insert_param (codes "cluster") (codes "unused") m
add_cluster none false m = m

abbrev add_default : Text → Option Text → Params → Params
add_default name (some v) m = insert_param name v m
add_default name none m = m

abbrev add_defaults : List (Text × Option Text) → Params → Params
add_defaults [] m = m
add_defaults ((name, d) ∷ ds) m = add_defaults ds (add_default name d m)

abbrev add_overrides : Params → Params → Params
add_overrides [] m = m
add_overrides ((name, v) ∷ vs) m = add_overrides vs (insert_param name v m)

-- The values at hand for one database: later layers win.
unfoldable pub params_for : Runner → Text → Params
unfolding insert_param
params_for r database = add_overrides r.options.overrides (
    add_defaults r.config.params
      (add_cluster r.options.cluster r.options.no_cluster (insert_param (codes "db") database [])))

abbrev check_unresolved : Text → Params → List Text → Result Params
check_unresolved database m [] = ok m
check_unresolved database m (n ∷ ns) =
    if text_eq n (codes "cluster")
    then err (needs_cluster database)
    else err (unresolved database (n ∷ ns))

unfoldable pub resolve_params : Runner → Text → Text → Result Params
resolve_params r database sql =
    let m = params_for r database in
    check_unresolved database m (keep (λ n. not (is_some (lookup n m))) (placeholders sql))

-- `redact_params`
unfoldable pub redact_params : Text → Params → Text
redact_params text [] = text
redact_params text ((name, value) ∷ m) =
    redact_params
      (if not (text_eq name (codes "db"))
          && not (text_eq name (codes "cluster"))
          && not (is_empty value)
        then replace value (codes "[redacted]") text
        else text)
      m

-- A line of SQL that is neither blank nor a comment.
unfoldable pub is_code_line : Text → Bool
unfolding trim starts_with
is_code_line line = not (is_empty (trim line)) && not (starts_with (codes "--") (trim line))

unfoldable pub has_code : Text → Bool
unfolding lines is_code_line
has_code statement = any is_code_line (lines statement)

-- A decimal number's digits; the fuel is above their count.
unfoldable pub show_from : ℕ → ℕ → Text → Text
show_from zero n acc = acc
show_from (suc f) n acc =
    let digits = (n % 10 + b'0') ∷ acc in
    let more = show_from f (n / 10) digits in if ltb n 10 then digits else more

unfoldable pub show : ℕ → Text
unfolding show_from
show n = show_from (suc n) n []

-- `{:.120}`: the first characters of a text.
unfoldable pub take_chars : ℕ → Text → Text
take_chars n [] = []
take_chars zero (b ∷ t) = elim (leb 128 b && ltb b 192) [
  | true ↦ b ∷ take_chars zero t
  | false ↦ []
]
take_chars (suc n) (b ∷ t) = elim (leb 128 b && ltb b 192) [
  | true ↦ b ∷ take_chars (suc n) t
  | false ↦ b ∷ take_chars n t
]

abbrev line_or_mark : Option Text → Text
line_or_mark none = codes "?"
line_or_mark (some line) = trim line

-- The message of a failed statement, before it is redacted.
unfoldable pub failure_text : ℕ → ℕ → Text → Text → Text
unfolding show take_chars
failure_text index count statement error =
    codes "statement "
    ++ (show (index + 1)
        ++ (codes "/"
            ++ (show count
                ++ (codes " ["
                    ++ (take_chars 120 (line_or_mark (find is_code_line (lines statement)))
                        ++ (codes "]: " ++ error))))))
