-- ===== src/Wire/Stream/Loop.antt =====
-- One run of the loop of `push` against the rows of the whole text.
use ze_db.Prelude.{
  ℕ, zero, suc, ◌≤◌, ◌<◌, ◌≡◌, refl, sym, ap, ◌∙◌, inl, inr, true, false, List, [], ◌∷◌, ◌++◌,
  arith,
}
use mathlib.Core.Path.{subst}
use ze_db.Prelude.Tests.{◌==◌, Bool-cases}
use ze_db.Prelude.Lists.{length, length-append}
use ze_db.Prelude.Text.{Text}
use ze_db.Wire.Types.{ChType, Value, Outside}
use ze_db.Wire.Reader.{ChError, unexpected_end, rows_after_no_columns, incomplete_row, Input, Read}
use ze_db.Wire.Reader.Stable.{Shrinks, Agrees}
use ze_db.Wire.Rows.{at_row, Rows, Outcome, prepend, after_row, read_row, rows_loop, read_rows}
use ze_db.Wire.Rows.Stable.{read_row-IsStable}
use ze_db.Wire.Rows.Fuel.{read_rows_step}
use ze_db.Wire.Stream.{is_incomplete, prepend_row, push_row, push_loop}

-- The error of a response that ends within a row is one for both decoders.
abbrev pub settle_error : ChError → ChError
settle_error unexpected_end = incomplete_row
settle_error rows_after_no_columns = incomplete_row
settle_error e = e

abbrev pub settle : Outcome Rows → Outcome Rows
settle (Outcome.done rows) = Outcome.done rows
settle (Outcome.failed e) = Outcome.failed (settle_error e)
settle Outcome.stopped = Outcome.stopped

abbrev pub append_rows : Rows → Outcome Rows → Outcome Rows
append_rows rows (Outcome.done more) = Outcome.done (rows ++ more)
append_rows rows (Outcome.failed e) = Outcome.failed e
append_rows rows Outcome.stopped = Outcome.stopped

pub append_rows_nil : (x : Outcome Rows) → append_rows [] x ≡ x
append_rows_nil (Outcome.done more) = refl
append_rows_nil (Outcome.failed e) = refl
append_rows_nil Outcome.stopped = refl

prepend-append_rows :
    (row : List Value) (rows : Rows) (x : Outcome Rows)
    → prepend row (append_rows rows x) ≡ append_rows (row ∷ rows) x
prepend-append_rows row rows (Outcome.done more) = refl
prepend-append_rows row rows (Outcome.failed e) = refl
prepend-append_rows row rows Outcome.stopped = refl

prepend-eq-append_rows :
    (row : List Value) (x : Outcome Rows) → prepend row x ≡ append_rows (row ∷ []) x
prepend-eq-append_rows row (Outcome.done more) = refl
prepend-eq-append_rows row (Outcome.failed e) = refl
prepend-eq-append_rows row Outcome.stopped = refl

-- What `finish` makes of a buffer.
abbrev pub close_buffer : Text → Outcome Rows
close_buffer [] = Outcome.done []
close_buffer (b ∷ bs) = Outcome.failed incomplete_row

-- Reading a row from nothing asks for more, or stands still.
abbrev pub IsSoft : Read (List Value) → Type 0
IsSoft (Read.ok row i) = Unit
IsSoft (Read.err e) = e ≡ unexpected_end
IsSoft Read.panicked = ⊥

pub is_incomplete-eq-true : (e : ChError) → is_incomplete e ≡ true → e ≡ unexpected_end
is_incomplete-eq-true unexpected_end h = refl
is_incomplete-eq-true _ h = cc

module _ (o : Outside) (types : List ChType) where
  -- The outcome of the loop on the buffer `x`, for every text `q` that may follow.
  abbrev pub Feeds : Text → Outcome Rows × Text → Type 0
  Feeds x (Outcome.done rows, rest) =
      (length rest ≤ length x)
      × (settle (read_rows o types rest) ≡ close_buffer rest)
      × ((q : Text) → read_rows o types (x ++ q) ≡ append_rows rows (read_rows o types (rest ++ q)))
  Feeds x (Outcome.failed e, rest) = (q : Text) → read_rows o types (x ++ q) ≡ Outcome.failed e
  Feeds x (Outcome.stopped, rest) = (q : Text) → read_rows o types (x ++ q) ≡ Outcome.stopped

  nothing : settle (read_rows o types []) ≡ close_buffer []
  unfolding read_rows rows_loop
  nothing = refl

  -- A buffer whose row is incomplete, or takes no bytes.
  blocked-Feeds :
      (x : Text) → settle (read_rows o types x) ≡ close_buffer x → Feeds x (Outcome.done [], x)
  blocked-Feeds x h = (omega arith, h, λ q. sym (append_rows_nil (read_rows o types (x ++ q))))

  prepend_row-Feeds :
      (row : List Value) (x rest : Text) (y : Outcome Rows × Text)
      → length rest ≤ length x
      → ((q : Text) → read_rows o types (x ++ q) ≡ prepend row (read_rows o types (rest ++ q)))
      → Feeds rest y
      → Feeds x (prepend_row row y)
  prepend_row-Feeds row x rest (Outcome.done rows, left) le step (le', blocked, more) = (
    omega arith,
    blocked,
    λ q.
        step q
        ∙ ap (prepend row) (more q)
        ∙ prepend-append_rows row rows (read_rows o types (left ++ q)),
  )
  prepend_row-Feeds row x rest (Outcome.failed e, left) le step more =
      λ q. step q ∙ ap (prepend row) (more q)
  prepend_row-Feeds row x rest (Outcome.stopped, left) le step more =
      λ q. step q ∙ ap (prepend row) (more q)

  -- A row read from the front of a buffer is read from the whole.
  row_behind :
      (b : ℕ) (bs q : Text) (row : List Value) (i : Input)
      → read_row o types (at_row (b ∷ bs)) ≡ Read.ok row i
      → length i.rest < length (b ∷ bs)
      → read_rows o types (b ∷ bs ++ q) ≡ prepend row (read_rows o types (i.rest ++ q))
  row_behind b bs q row i e lt =
      let same =
        subst (λ x. Agrees q x (read_row o types (at_row (b ∷ bs ++ q)))) e
          ((read_row-IsStable o types).agrees q (at_row (b ∷ bs))) in
      let shorter : (length (i.rest ++ q) == length (b ∷ bs ++ q)) ≡ false =
        ground (arith, length-append i.rest q, length-append bs q) in
      read_rows_step o types b (bs ++ q) ∙ rw (same, shorter, after_row)

  no_bytes : (t : Text) → (length t == 0) ≡ true → t ≡ []
  no_bytes [] h = refl
  no_bytes (b ∷ bs) h = absurd (ground arith)

  -- A row that takes no bytes.
  stalled :
      (x : Text) (row : List Value) (i : Input)
      → read_row o types (at_row x) ≡ Read.ok row i
      → (length i.rest == length x) ≡ true
      → settle (read_rows o types x) ≡ close_buffer x
  stalled [] row i e t = nothing
  stalled (b ∷ bs) row i e t = rw (read_rows_step o types b bs, e, t, after_row) refl

  -- A row that the buffer ends in.
  cut_off :
      (x : Text)
      → read_row o types (at_row x) ≡ Read.err unexpected_end
      → settle (read_rows o types x) ≡ close_buffer x
  cut_off [] e = nothing
  cut_off (b ∷ bs) e = rw (read_rows_step o types b bs, e, after_row) refl

  Agrees-behind :
      (b : ℕ) (bs q : Text) (r : Read (List Value))
      → read_row o types (at_row (b ∷ bs)) ≡ r
      → Agrees q r (read_row o types (at_row (b ∷ bs ++ q)))
  Agrees-behind b bs q r e =
      subst (λ x. Agrees q x (read_row o types (at_row (b ∷ bs ++ q)))) e
        ((read_row-IsStable o types).agrees q (at_row (b ∷ bs)))

  fails_behind :
      (b : ℕ) (bs q : Text) (e : ChError)
      → is_incomplete e ≡ false
      → Agrees q (Read.err e) (read_row o types (at_row (b ∷ bs ++ q)))
      → read_rows o types (b ∷ bs ++ q) ≡ Outcome.failed e
  fails_behind b bs q e f (inl h) = cc
  fails_behind b bs q e f (inr h) = read_rows_step o types b (bs ++ q) ∙ rw (h, after_row) refl

  module _ (soft : IsSoft (read_row o types (at_row []))) where
    fails_at :
        (x q : Text) (e : ChError)
        → is_incomplete e ≡ false
        → read_row o types (at_row x) ≡ Read.err e
        → read_rows o types (x ++ q) ≡ Outcome.failed e
    fails_at [] q e f h = let k = subst IsSoft h soft in cc
    fails_at (b ∷ bs) q e f h = fails_behind b bs q e f (Agrees-behind b bs q (Read.err e) h)

    panics_at :
        (x q : Text)
        → read_row o types (at_row x) ≡ Read.panicked
        → read_rows o types (x ++ q) ≡ Outcome.stopped
    panics_at [] q h = absurd (subst IsSoft h soft)
    panics_at (b ∷ bs) q h =
        read_rows_step o types b (bs ++ q)
        ∙ rw (Agrees-behind b bs q Read.panicked h, after_row) refl

    read-Feeds :
        (next : Text → Outcome Rows × Text) (x : Text) (row : List Value) (i : Input)
        → read_row o types (at_row x) ≡ Read.ok row i
        → length i.rest < length x
        → ((t : Text) → length t < length x → Feeds t (next t))
        → Feeds x (push_row next x (Read.ok row i))
    read-Feeds next [] row i e lt feeds = absurd (omega arith)
    read-Feeds next (b ∷ bs) row i e lt feeds =
        let f : (length i.rest == length (b ∷ bs)) ≡ false = ground arith in
        elim (Bool-cases (length i.rest == 0)) [
          | inl t ↦
              rw (f, t, push_row)
                (
                  omega arith,
                  nothing,
                  λ q.
                      row_behind b bs q row i e lt
                      ∙ rw (no_bytes i.rest t) (prepend-eq-append_rows row (read_rows o types q)),
                )
          | inr s ↦
              rw (f, s, push_row)
                (prepend_row-Feeds row (b ∷ bs) i.rest (next i.rest) (omega arith)
                  (λ q. row_behind b bs q row i e lt) (feeds i.rest lt))
        ]

    push_row-Feeds :
        (next : Text → Outcome Rows × Text) (x : Text) (r : Read (List Value))
        → read_row o types (at_row x) ≡ r
        → Shrinks (at_row x) r
        → ((t : Text) → length t < length x → Feeds t (next t))
        → Feeds x (push_row next x r)
    push_row-Feeds next x (Read.ok row i) e le feeds =
        elim (Bool-cases (length i.rest == length x)) [
          | inl t ↦ rw (t, push_row) (blocked-Feeds x (stalled x row i e t))
          | inr f ↦ read-Feeds next x row i e (ground arith) feeds
        ]
    push_row-Feeds next x (Read.err k) e le feeds = elim (Bool-cases (is_incomplete k)) [
      | inl t ↦
          rw (t, push_row)
            (blocked-Feeds x (cut_off x (e ∙ ap Read.err (is_incomplete-eq-true k t))))
      | inr f ↦ rw (f, push_row) (λ q. fails_at x q k f e)
    ]
    push_row-Feeds next x Read.panicked e le feeds = λ q. panics_at x q e

    pub push_loop-Feeds :
        (fuel : ℕ) (x : Text) → length x < fuel → Feeds x (push_loop o fuel types x)
    unfolding push_loop
    push_loop-Feeds zero x h = absurd (omega arith)
    push_loop-Feeds (suc fuel) x h =
        push_row-Feeds (push_loop o fuel types) x (read_row o types (at_row x)) refl
          ((read_row-IsStable o types).shrinks (at_row x))
          (λ t lt. push_loop-Feeds fuel t (omega arith))
