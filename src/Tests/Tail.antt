-- ===== src/Tests/Tail.antt =====
-- Runs of a live tail, on a table that grows by one row.
use mathlib.Core.List.{reverse}
use ze_db.Prelude.{
  ℕ, ◌+◌, ◌-◌, ◌*◌, ◌≤◌, ◌<◌, ◌≡◌, ◌≢◌, ◌⊎◌, refl, sym, ap, ◌∙◌, inl, inr, Bool, true, false, List,
  [], ◌∷◌, ◌++◌, Option, none, some, arith,
}
use ze_db.Prelude.Tests.{if◌then◌else◌}
use ze_db.Prelude.Lists.{get_elem?}
use ze_db.Prelude.Text.{Text, codes, text_eq}
use ze_db.Wire.Types.{Value, ColumnMeta}
use ze_db.Tail.{Outside, TailQuery, Row, tail_seed, is_simple_table_source, key_literal}
use ze_db.Tail.Poll.{Tab, Request, Reply, poll_request, land, position}
use ze_db.Tail.Server.{Server, view, IsKeyed, Grows, rank_at, number_of}
use ze_db.Tail.Sql.{
  Direction, ascending, descending, Comparison, greater, at_least, compared_text, reordered_text,
  compared, reordered, sort, insert,
}
use mathlib.Core.Option.{some-injective}
use mathlib.Core.Path.{subst}
use ze_db.Tail.Land.{Tails, Shown, poll, polls}
use ze_db.Tail.Shown.{Shown-Grows}
use ze_db.Tail.CatchUp.{seed-Shown, polls-catch_up}
use ze_db.Tail.Overlap.{overlap-Twice}

abbrev display : Outside
display = record {
  is_finite = λ b. true;
  show_float = λ b. [];
  show_uuid = λ t. t;
  show_date = λ d. [];
  show_time = λ s n. [];
}

abbrev tailed : TailQuery
tailed = record { body = codes "SELECT * FROM t"; key = codes "k"; limit = 1 }

abbrev row : ℕ → Row
row n = Value.uint n ∷ []

abbrev columns : List ColumnMeta
columns = record { name = codes "k"; type_name = codes "UInt64" } ∷ []

-- The rows in the order in which the server has them.
abbrev content : Bool → List Row
content false = row 1 ∷ []
content true = row 2 ∷ row 1 ∷ []

abbrev rows_reply : List Row → Reply
rows_reply rows = Reply.answered (record { columns = columns; rows = rows })

-- The queries that the server knows, and what it answers from the rows.
abbrev Query : Type 0
Query = Text × (List Row → List Row)

abbrev comparing : ℕ → Comparison → Direction → Query
comparing n c d =
    (compared_text (codes "SELECT * FROM t") (codes "k") c n d 1, compared (rank_at 0) c n d 1)

abbrev reordering : Direction → Direction → Query
reordering inner outer = (
  reordered_text (codes "SELECT * FROM t") (codes "k") inner tail_seed outer,
  reordered (rank_at 0) inner tail_seed outer,
)

abbrev known : List Query
known =
    comparing 1 greater ascending
    ∷ comparing 1 greater descending
    ∷ comparing 1 at_least ascending
    ∷ comparing 1 at_least descending
    ∷ comparing 2 greater ascending
    ∷ comparing 2 greater descending
    ∷ comparing 2 at_least ascending
    ∷ comparing 2 at_least descending
    ∷ reordering ascending ascending
    ∷ reordering ascending descending
    ∷ reordering descending ascending
    ∷ reordering descending descending
    ∷ []

abbrev answer_from : List Query → Text → List Row → Reply
answer_from [] sql rows = Reply.failed []
answer_from ((text, run) ∷ queries) sql rows =
    if text_eq text sql then rows_reply (run rows) else answer_from queries sql rows

reply : Bool → Text → Reply
reply t sql = answer_from known sql (content t)

reorders :
    (t : Bool) (inner outer : Direction)
    → reply t (reordering inner outer).0 ≡ rows_reply ((reordering inner outer).1 (content t))
unfolding reply text_eq ze_db.Value.decimal ze_db.Value.decimal_loop
reorders t ascending ascending = refl
reorders t ascending descending = refl
reorders t descending ascending = refl
reorders t descending descending = refl

compares_1 :
    (t : Bool) (c : Comparison) (d : Direction)
    → reply t (comparing 1 c d).0 ≡ rows_reply ((comparing 1 c d).1 (content t))
unfolding reply text_eq ze_db.Value.decimal ze_db.Value.decimal_loop
compares_1 t greater ascending = refl
compares_1 t greater descending = refl
compares_1 t at_least ascending = refl
compares_1 t at_least descending = refl

compares_2 :
    (t : Bool) (c : Comparison) (d : Direction)
    → reply t (comparing 2 c d).0 ≡ rows_reply ((comparing 2 c d).1 (content t))
unfolding reply text_eq ze_db.Value.decimal ze_db.Value.decimal_loop
compares_2 t greater ascending = refl
compares_2 t greater descending = refl
compares_2 t at_least ascending = refl
compares_2 t at_least descending = refl

-- The rows of the table.
one_of :
    (t : Bool) (front back : List Row) (r : Row)
    → sort (rank_at 0) (content t) ≡ front ++ r ∷ back
    → (r ≡ row 1) ⊎ (r ≡ row 2)
unfolding sort insert
one_of false [] back r h = inl (cc)
one_of false (x ∷ []) back r h = cc
one_of false (x ∷ y ∷ front) back r h = cc
one_of true [] back r h = inl (cc)
one_of true (x ∷ []) back r h = inr (cc)
one_of true (x ∷ y ∷ []) back r h = cc
one_of true (x ∷ y ∷ z ∷ front) back r h = cc

compares :
    (t : Bool) (front back : List Row) (r : Row) (n : ℕ) (c : Comparison) (d : Direction)
    → sort (rank_at 0) (content t) ≡ front ++ r ∷ back
    → number_of (get_elem? r 0) ≡ some n
    → reply t (comparing n c d).0 ≡ rows_reply ((comparing n c d).1 (content t))
compares t front back r n c d split number = elim (one_of t front back r split) [
  | inl e ↦
      let same : 1 ≡ n =
        some-injective _ _ (ap (λ x. number_of (get_elem? x 0)) (sym e) ∙ number) in
      subst (λ k. reply t (comparing k c d).0 ≡ rows_reply ((comparing k c d).1 (content t))) same
        (compares_1 t c d)
  | inr e ↦
      let same : 2 ≡ n =
        some-injective _ _ (ap (λ x. number_of (get_elem? x 0)) (sym e) ∙ number) in
      subst (λ k. reply t (comparing k c d).0 ≡ rows_reply ((comparing k c d).1 (content t))) same
        (compares_2 t c d)
]

key_column : position (codes "k") columns ≡ some 0
unfolding position text_eq
key_column = refl

abbrev server : Server display tailed
server = record {
  Table = Bool;
  reply = reply;
  columns = columns;
  index = 0;
  content = content;
  key_column = key_column;
  plain = refl;
  compares = λ t front back r n c d numbers. compares t front back r n c d;
  reorders = λ t inner outer numbers. reorders t inner outer;
}

IsKeyed-content : (t : Bool) → IsKeyed server t
unfolding sort insert
IsKeyed-content false = record { ascends = (tt, tt); numbers = ((1, refl), tt) }
IsKeyed-content true = record {
  ascends = ((omega arith, tt), (tt, tt));
  numbers = ((2, refl), ((1, refl), tt));
}

growth : Grows server false true
unfolding sort insert
growth = record { new = row 2 ∷ []; added = refl }

some_rows : view server false ≢ []
unfolding sort insert
some_rows e = cc

abbrev fresh : Tab
fresh = record {
  tail = some (record {
    query = tailed;
    last = none;
    key_index = 0;
    cap = none;
    generation = 7;
    error = none;
  });
  pending = none;
  columns = [];
  rows = [];
  result_rows = 0;
  has_result = true;
  result_columns = 0;
}

fresh-Tails : Tails server 7 fresh none
fresh-Tails = record {
  state = _;
  tail = refl;
  query = refl;
  current = refl;
  uncapped = refl;
  key = refl;
}

polls-catch_up_example :
    row 1 ∷ row 2 ∷ [] ≡ [] ++ reverse (polls server 7 (false ∷ true ∷ true ∷ true ∷ []) fresh).rows
unfolding sort insert
polls-catch_up_example =
    polls-catch_up server 7 false (true ∷ []) 2 fresh fresh-Tails some_rows (IsKeyed-content false)
      (growth, tt) (IsKeyed-content true, tt) (omega arith)

-- The seed saw one row; then the table has two.
grown-Shown : Shown server 7 true [] (row 2 ∷ []) (poll server 7 false fresh)
unfolding growth
grown-Shown =
    Shown-Grows server 7 false true [] [] (poll server 7 false fresh)
      (seed-Shown server 7 false fresh fresh-Tails some_rows (IsKeyed-content false)) growth

overlap-Twice_example :
    let tab = poll server 7 false fresh in
    (r : Request) × (poll_request true 7 tab ≡ some r)
    × ((land display r (reply true r.sql) (land display r (reply true r.sql) tab)).rows
        ≡ row 2 ∷ row 2 ∷ tab.rows)
overlap-Twice_example =
    overlap-Twice server 7 true [] (row 2 ∷ []) (poll server 7 false fresh) grown-Shown
      (IsKeyed-content true)

-- A source that is one table, and one that is not.
simple_source : is_simple_table_source (codes "`my db`.t") ≡ true
unfolding is_simple_table_source ze_db.Prelude.Text.is_ascii_alphanumeric
simple_source = refl

aliased_source : is_simple_table_source (codes "db.t AS t") ≡ false
unfolding is_simple_table_source ze_db.Prelude.Text.is_ascii_alphanumeric
aliased_source = refl

quoted_key : key_literal display (Value.string (codes "a'b")) ≡ some (codes "'a\\'b'")
unfolding key_literal ze_db.Prelude.Text.replace
quoted_key = refl
