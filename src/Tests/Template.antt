-- ===== src/Tests/Template.antt =====
-- crates/zedb-core/src/repo/template.rs on concrete texts.
use ze_db.Prelude.{ℕ, ◌≡◌, ◌↔◌, suc, refl, List, [], ◌∷◌, Option, some}
use ze_db.Prelude.Lists.{length, All}
use ze_db.Prelude.Text.{Text, codes, contains_text, text_eq, replace}
use ze_db.Repo.Template.{
  ok, scan, placeholders, render, render_names, substitute, push_name, lookup, is_placeholder_name,
  is_word_char, is_identifier, after_open, until_close,
}
use ze_db.Repo.Template.Scan.{IsName, Distinct, placeholders-Distinct}
use ze_db.Repo.Template.Pieces.{Piece, lit, hole, emit}
use ze_db.Repo.Template.Fill.{fill, render-emit}
use ze_db.Repo.Template.Accept.{Accepts, render_iff}

abbrev values : List (Text × Text)
values = (codes "db", codes "shop") ∷ (codes "ttl", codes "30 DAY") ∷ []

abbrev pieces : List Piece
pieces =
    lit (codes "ALTER TABLE ") ∷ hole (codes "db") ∷ lit (codes ".t TTL ") ∷ hole (codes "ttl") ∷ []

abbrev sql : Text
sql = codes "ALTER TABLE ${db}.t TTL ${ttl}"

placeholders_twice : placeholders (codes "${a}${b c}${a}${") ≡ codes "a" ∷ []
unfolding placeholders scan after_open until_close push_name is_placeholder_name is_word_char
    contains_text ze_db.Prelude.Text.strip_prefix ze_db.Prelude.Text.is_ascii_alphanumeric text_eq
placeholders_twice = refl

render-sql : render sql values ≡ ok (codes "ALTER TABLE shop.t TTL 30 DAY")
unfolding render render_names placeholders scan after_open ze_db.Prelude.Text.strip_prefix
    until_close push_name is_placeholder_name is_word_char ze_db.Prelude.Text.is_ascii_alphanumeric
    contains_text text_eq substitute lookup is_identifier replace
render-sql = refl

placeholders-Distinct_example :
    (scan (suc (length sql)) sql [] ≡ some (placeholders sql))
    × All IsName (placeholders sql)
    × Distinct (placeholders sql)
placeholders-Distinct_example = placeholders-Distinct sql

render-emit_example : render (emit pieces) values ≡ ok (fill values pieces)
unfolding is_placeholder_name is_word_char lookup is_identifier contains_text text_eq
    ze_db.Prelude.Text.is_ascii_alphanumeric
render-emit_example =
    render-emit values pieces (refl, (refl, (refl, (refl, tt))))
      ((codes "shop", refl, refl, refl), ((codes "30 DAY", refl, refl, refl), tt))

render_iff_example :
    All (Accepts values) (placeholders sql) ↔ ((r : Text) × (render sql values ≡ ok r))
render_iff_example = render_iff values sql
