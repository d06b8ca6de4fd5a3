-- ===== src/Tail/Server.antt =====
-- What a tail relies on of the ClickHouse server: what SQL says of two kinds of SELECT.
use mathlib.Core.Option.{some-injective}
use mathlib.Core.Path.{subst}
use ze_db.Prelude.{
  ℕ, ◌-◌, ◌≤◌, ◌<◌, ◌≡◌, refl, sym, ap, ◌∙◌, Bool, false, List, [], ◌∷◌, ◌++◌, Option, none, some,
  arith,
}
use ze_db.Prelude.Tests.{ltb, lt→ltb}
use ze_db.Prelude.Lists.{
  length, take, drop, get_elem?, keep, keep-cons_true, keep-cons_false, All, All-map,
  All-append_right,
}
use ze_db.Prelude.Text.{Text}
use ze_db.Wire.Types.{pos, Value, ColumnMeta}
use ze_db.Value.{decimal}
use ze_db.Tail.{
  Outside, TailQuery, Row, tail_seed, seed_sql, poll_sql, key_literal, of_value, row_key,
}
use ze_db.Tail.Poll.{Reply, position}
use ze_db.Tail.Sql.{
  Direction, ascending, descending, Comparison, greater, IsPlain, compared_text, reordered_text,
  sort, compared, reordered, Ascends, All-sort, sort-keep, sort-newest, seed_sql-reordered,
  poll_sql-compared,
}

-- The newest rows of a result in ascending order of its key.
abbrev pub newest : ℕ → List Row → List Row
newest n rows = drop (length rows - n) rows

-- The keys that the laws are stated for: integers that are not negative.
abbrev pub key_number : Value → Option ℕ
key_number (Value.uint n) = some n
key_number (Value.uint128 n) = some n
key_number (Value.int (pos n)) = some n
key_number (Value.int128 (pos n)) = some n
key_number _ = none

abbrev pub number_of : Option Value → Option ℕ
number_of none = none
number_of (some v) = key_number v

abbrev pub HasNumber : ℕ → Row → Type 0
HasNumber index r = (n : ℕ) × (number_of (get_elem? r index) ≡ some n)

abbrev pub or_zero : Option ℕ → ℕ
or_zero none = 0
or_zero (some n) = n

abbrev pub rank_at : ℕ → Row → ℕ
rank_at index r = or_zero (number_of (get_elem? r index))

-- The tables that a tail's query may read, one state of the database each, and the rows that the
-- query's body has there, in any order. The two laws are what SQL says of a SELECT from the body, at
-- the limits of the tail: with WHERE, ORDER BY and LIMIT, against the number of a row's key; and
-- with an ORDER BY around another. They are asked of both comparisons and of both directions.
pub record Server (o : Outside) (q : TailQuery) : Type 1 where
  pub Table : Type 0
  pub reply : Table → Text → Reply
  pub columns : List ColumnMeta
  pub index : ℕ
  pub content : Table → List Row
  pub key_column : position q.key columns ≡ some index
  pub plain : IsPlain q.key
  pub compares :
      (t : Table) (front back : List Row) (r : Row) (n : ℕ) (c : Comparison) (d : Direction)
      → All (HasNumber index) (content t)
      → sort (rank_at index) (content t) ≡ front ++ r ∷ back
      → number_of (get_elem? r index) ≡ some n
      → reply t (compared_text q.body q.key c n d q.limit)
        ≡ Reply.answered (record {
          columns = columns;
          rows = compared (rank_at index) c n d q.limit (content t);
        })
  pub reorders :
      (t : Table) (inner outer : Direction)
      → All (HasNumber index) (content t)
      → reply t (reordered_text q.body q.key inner tail_seed outer)
        ≡ Reply.answered (record {
          columns = columns;
          rows = reordered (rank_at index) inner tail_seed outer (content t);
        })

not_before : (m n : ℕ) → m ≤ n → ltb n m ≡ false
not_before m n h = ground arith

key_literal-number :
    (o : Outside) (v : Value) (n : ℕ) → key_number v ≡ some n → key_literal o v ≡ some (decimal n)
unfolding key_literal
key_literal-number o (Value.uint m) n e = cc
key_literal-number o (Value.uint128 m) n e = cc
key_literal-number o (Value.int (pos m)) n e = cc
key_literal-number o (Value.int128 (pos m)) n e = cc
key_literal-number o _ n e = cc

of_value-number :
    (o : Outside) (v : Option Value) (n : ℕ)
    → number_of v ≡ some n
    → of_value o v ≡ some (decimal n)
of_value-number o none n e = cc
of_value-number o (some v) n e = key_literal-number o v n e

module _ {o : Outside} {q : TailQuery} (sv : Server o q) where
  abbrev pub rank : Row → ℕ
  rank = rank_at sv.index

  -- The rows of the query's body in ascending order of the key.
  abbrev pub view : sv.Table → List Row
  view t = sort rank (sv.content t)

  abbrev pub HasKey : Row → Type 0
  HasKey r = (last : Text) × (row_key o sv.index r ≡ some last)

  -- The keys are integers that are not negative, and distinct.
  pub record IsKeyed (t : sv.Table) : Type 0 where
    pub ascends : Ascends rank (view t)
    pub numbers : All (HasNumber sv.index) (sv.content t)

  -- Rows are only added, with greater keys.
  pub record Grows (t u : sv.Table) : Type 0 where
    pub new : List Row
    pub added : view u ≡ view t ++ new

  row_key-number :
      (r : Row) (n : ℕ)
      → number_of (get_elem? r sv.index) ≡ some n
      → row_key o sv.index r ≡ some (decimal n)
  unfolding row_key
  row_key-number r n e = of_value-number o (get_elem? r sv.index) n e

  module _ (t : sv.Table) (keyed : IsKeyed t) where
    numbers-view : All (HasNumber sv.index) (view t)
    numbers-view = All-sort rank (HasNumber sv.index) (sv.content t) keyed.numbers

    pub keys-view : All HasKey (view t)
    keys-view =
        All-map (HasNumber sv.index) HasKey (view t)
          (λ r h. (decimal h.0, row_key-number r h.0 h.1)) numbers-view

    -- The first query of a tail asks for the newest rows, in order.
    pub seeds :
        sv.reply t (seed_sql q tail_seed)
        ≡ Reply.answered (record { columns = sv.columns; rows = newest tail_seed (view t) })
    seeds =
        ap (sv.reply t) (seed_sql-reordered q sv.plain tail_seed)
        ∙ sv.reorders t descending ascending keyed.numbers
        ∙ ap (λ rows. Reply.answered (record { columns = sv.columns; rows = rows }))
            (sort-newest rank tail_seed (view t) keyed.ascends)

    -- The queries behind the key of a row ask for the rows with greater keys, in order.
    pub polls-view :
        (front back : List Row) (r : Row) (last : Text)
        → view t ≡ front ++ r ∷ back
        → row_key o sv.index r ≡ some last
        → sv.reply t (poll_sql q last q.limit)
          ≡ Reply.answered (record {
            columns = sv.columns;
            rows = take q.limit (keep (λ x. ltb (rank r) (rank x)) (view t));
          })
    polls-view front back r last split key =
        let (n, number) =
          (All-append_right (HasNumber sv.index) front (r ∷ back)
            (subst (All (HasNumber sv.index)) split numbers-view)).0 in
        let same : last ≡ decimal n = some-injective _ _ (sym key ∙ row_key-number r n number) in
        let at : rank r ≡ n = ap or_zero number in
        ap (λ l. sv.reply t (poll_sql q l q.limit)) same
        ∙ ap (sv.reply t) (poll_sql-compared q sv.plain n q.limit)
        ∙ sv.compares t front back r n greater ascending keyed.numbers split number
        ∙ ap (λ rows. Reply.answered (record { columns = sv.columns; rows = take q.limit rows }))
            (sort-keep rank n (sv.content t)
              ∙ ap (λ k. keep (λ x. ltb k (rank x)) (view t)) (sym at))

  module _ (r : Row) where
    abbrev is_later : Row → Bool
    is_later x = ltb (rank r) (rank x)

    keep_later : (rows : List Row) → All (λ y. rank r < rank y) rows → keep is_later rows ≡ rows
    keep_later [] h = refl
    keep_later (x ∷ xs) h =
        keep-cons_true is_later x xs (lt→ltb (rank r) (rank x) h.0)
        ∙ ap (λ ys. x ∷ ys) (keep_later xs h.1)

    -- The rows with a greater key than a row's are those behind it.
    pub keep-behind :
        (front back : List Row)
        → Ascends rank (front ++ r ∷ back)
        → keep (λ x. ltb (rank r) (rank x)) (front ++ r ∷ back) ≡ back
    keep-behind [] back h =
        keep-cons_false is_later r back (not_before (rank r) (rank r) (omega arith))
        ∙ keep_later back h.0
    keep-behind (x ∷ front) back h =
        let below = All-append_right (λ y. rank x < rank y) front (r ∷ back) h.0 in
        keep-cons_false is_later x (front ++ r ∷ back)
          (not_before (rank x) (rank r) (let b = below.0 in omega arith))
        ∙ keep-behind front back h.1
