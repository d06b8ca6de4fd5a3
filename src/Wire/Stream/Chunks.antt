-- ===== src/Wire/Stream/Chunks.antt =====
-- A response in chunks against the whole response.
use ze_db.Prelude.{
  ℕ, suc, ◌+◌, ◌≤◌, ◌≡◌, refl, sym, ap, ◌∙◌, inl, inr, false, List, [], ◌∷◌, ◌++◌, none, some,
  arith,
}
use mathlib.Core.Path.{subst}
use mathlib.Core.List.{append-nil, append_assoc}
use ze_db.Prelude.Tests.{ltb, Bool-cases, if◌then◌else◌}
use ze_db.Prelude.Lists.{length, length-append}
use ze_db.Prelude.Text.{Text}
use ze_db.Wire.Types.{ChType, ColumnMeta, QueryResult, Outside}
use ze_db.Wire.Reader.{
  unexpected_end, no_header, incomplete_row, Read, max_stream_buffer_bytes,
  max_materialized_response_bytes, take_bytes, u8, varuint_loop, varuint, bounded_len,
}
use ze_db.Wire.Reader.Stable.{Shrinks, Agrees}
use ze_db.Wire.Rows
use ze_db.Wire.Rows.{
  at_row, Header, read_header, Rows, Outcome, read_row, read_rows, result_of, decode,
}
use ze_db.Wire.Rows.Stable.{read_header-IsStable}
use ze_db.Wire.Stream.{
  StreamingDecoder, new, is_incomplete, Step, header_step, try_decode_header, drained, take_rows,
  behind_header, with_columns, push, finish_buffer, finish,
}
use ze_db.Wire.Stream.Loop.{
  settle, append_rows, append_rows_nil, close_buffer, IsSoft, is_incomplete-eq-true, Feeds,
  push_loop-Feeds,
}

abbrev pub concat : List Text → Text
concat [] = []
concat (c ∷ cs) = c ++ concat cs

abbrev pub also : Rows → Step Rows → Step Rows
also rows (x, d) = (append_rows rows x, d)

abbrev pub after_push : (StreamingDecoder → Step Rows) → Step Rows → Step Rows
after_push next (Outcome.done rows, d) = also rows (next d)
after_push next (Outcome.failed e, d) = (Outcome.failed e, d)
after_push next (Outcome.stopped, d) = (Outcome.stopped, d)

abbrev pub close_rows : Rows → Outcome (Unit {0}) → Outcome Rows
close_rows rows (Outcome.done u) = Outcome.done rows
close_rows rows (Outcome.failed e) = Outcome.failed e
close_rows rows Outcome.stopped = Outcome.stopped

-- The rows of all pushes, if `finish` has nothing against them.
abbrev pub finished : Step Rows → Outcome Rows
finished (Outcome.done rows, d) = close_rows rows (finish d)
finished (Outcome.failed e, d) = Outcome.failed e
finished (Outcome.stopped, d) = Outcome.stopped

pub finished-also :
    (rows : Rows) (s : Step Rows) → finished (also rows s) ≡ append_rows rows (finished s)
finished-also rows (Outcome.done more, d) = close (finish d)
  where
    close : (x : Outcome Unit) → close_rows (rows ++ more) x ≡ append_rows rows (close_rows more x)
    close (Outcome.done u) = refl
    close (Outcome.failed e) = refl
    close Outcome.stopped = refl
finished-also rows (Outcome.failed e, d) = refl
finished-also rows (Outcome.stopped, d) = refl

settle-append_rows :
    (rows : Rows) (x : Outcome Rows) → settle (append_rows rows x) ≡ append_rows rows (settle x)
settle-append_rows rows (Outcome.done more) = refl
settle-append_rows rows (Outcome.failed e) = refl
settle-append_rows rows Outcome.stopped = refl

module _ (o : Outside) where
  -- Every chunk is pushed, until a push fails.
  unfoldable pub feed : StreamingDecoder → List Text → Step Rows
  feed d [] = (Outcome.done [], d)
  feed d (c ∷ cs) = after_push (λ d'. feed d' cs) (push o d c)

  abbrev pub stream : List Text → Outcome Rows
  stream chunks = finished (feed new chunks)

  abbrev behind : Text → Read Header → Outcome Rows
  behind text (Read.ok h i) = read_rows o h.types i.rest
  behind text (Read.err e) =
      if is_incomplete e then close_rows [] (finish_buffer no_header text) else Outcome.failed e
  behind text Read.panicked = Outcome.stopped

  -- The rows of a whole text, without chunks: no header is no rows in an empty text.
  abbrev pub rows_of : Text → Outcome Rows
  rows_of text = behind text (read_header (at_row text))

  has_room :
      (d : StreamingDecoder) (c : Text) (m : ℕ)
      → length (d.buffer ++ c) + m ≤ max_stream_buffer_bytes
      → push o d c ≡ with_columns o d.columns (record d { buffer = d.buffer ++ c })
  unfolding push
  has_room d c m h =
      let f : ltb max_stream_buffer_bytes (length d.buffer + length c) ≡ false =
        ground (arith, length-append d.buffer c) in
      rw f refl

  -- Rows that a buffer gave, in front of the rest of the response.
  in_front :
      (types : List ChType) (rows : Rows) (rest q : Text) (s : Step Rows)
      → settle (finished s) ≡ settle (read_rows o types (rest ++ q))
      → settle (finished (also rows s)) ≡ settle (append_rows rows (read_rows o types (rest ++ q)))
  in_front types rows rest q s e =
      ap settle (finished-also rows s)
      ∙ settle-append_rows rows (finished s)
      ∙ ap (append_rows rows) e
      ∙ sym (settle-append_rows rows (read_rows o types (rest ++ q)))

  -- The chunks that come behind the loop of `push`.
  behind_loop :
      (types : List ChType) (x q : Text) (d : StreamingDecoder)
      (next : StreamingDecoder → Step Rows) (y : Outcome Rows × Text)
      → Feeds o types x y
      → ((rest : Text)
          → length rest ≤ length x
          → settle (read_rows o types rest) ≡ close_buffer rest
          → settle (finished (next (record d { buffer = rest })))
            ≡ settle (read_rows o types (rest ++ q)))
      → settle (finished (after_push next (drained o d y))) ≡ settle (read_rows o types (x ++ q))
  behind_loop types x q d next (Outcome.done rows, rest) (le, blocked, more) later =
      in_front types rows rest q (next (record d { buffer = rest })) (later rest le blocked)
      ∙ sym (ap settle (more q))
  behind_loop types x q d next (Outcome.failed e, rest) more later = sym (ap settle (more q))
  behind_loop types x q d next (Outcome.stopped, rest) more later = sym (ap settle (more q))

  nothing_left :
      (b : Text) → settle (close_rows [] (finish_buffer incomplete_row b)) ≡ close_buffer b
  nothing_left [] = refl
  nothing_left (c ∷ cs) = refl

  -- A decoder that has read the header.
  abbrev opened : List ColumnMeta → List ChType → Text → StreamingDecoder
  opened columns types b = record { buffer = b; columns = some columns; types = types }

  feed-opened :
      (columns : List ColumnMeta) (types : List ChType) (b : Text) (chunks : List Text)
      → IsSoft (read_row o types (at_row []))
      → length b + length (concat chunks) ≤ max_stream_buffer_bytes
      → settle (read_rows o types b) ≡ close_buffer b
      → settle (finished (feed (opened columns types b) chunks))
        ≡ settle (read_rows o types (b ++ concat chunks))
  unfolding feed finish take_rows
  feed-opened columns types b [] soft room blocked =
      rw (append-nil b) (nothing_left b ∙ sym blocked)
  feed-opened columns types b (c ∷ cs) soft room blocked =
      let room' : length (b ++ c) + length (concat cs) ≤ max_stream_buffer_bytes =
        omega (arith, length-append b c, length-append c (concat cs)) in
      rw
        (
          has_room (opened columns types b) c (length (concat cs)) room',
          sym (append_assoc b c (concat cs)),
        )
        (behind_loop types (b ++ c) (concat cs) (opened columns types (b ++ c)) (λ d'. feed d' cs) _
          (push_loop-Feeds o types soft (suc (length (b ++ c))) (b ++ c) (omega arith))
          (λ rest le. feed-opened columns types rest cs soft (omega arith)))

  -- A decoder that waits for the header.
  abbrev waiting : Text → StreamingDecoder
  waiting b = record { buffer = b; columns = none; types = [] }

  -- Reading a row of these columns from nothing asks for more, or stands still.
  abbrev pub HeaderIsSoft : Read Header → Type 0
  HeaderIsSoft (Read.ok h i) = IsSoft (read_row o h.types (at_row []))
  HeaderIsSoft (Read.err e) = Unit
  HeaderIsSoft Read.panicked = Unit

  settle-close :
      (b : Text)
      → settle (close_rows [] (finish_buffer no_header b))
        ≡ close_rows [] (finish_buffer no_header b)
  settle-close [] = refl
  settle-close (c ∷ cs) = refl

  -- The chunk `x` of the buffer, and the rest `q` of the response.
  header_chunk :
      (x : Text) (cs : List Text) (r w : Read Header)
      → read_header (at_row x) ≡ r
      → Shrinks (at_row x) r
      → Agrees (concat cs) r w
      → HeaderIsSoft w
      → length x + length (concat cs) ≤ max_stream_buffer_bytes
      → (r ≡ Read.err unexpected_end
          → settle (finished (feed (waiting x) cs)) ≡ settle (behind (x ++ concat cs) w))
      → settle
          (finished (after_push (λ d'. feed d' cs) (behind_header o (header_step (waiting x) r))))
        ≡ settle (behind (x ++ concat cs) w)
  unfolding take_rows
  header_chunk x cs (Read.ok h i) w e le agrees soft room later = rw agrees (
      behind_loop h.types i.rest (concat cs) (opened h.columns h.types i.rest) (λ d'. feed d' cs) _
        (push_loop-Feeds o h.types (subst HeaderIsSoft agrees soft) (suc (length i.rest)) i.rest
          (omega arith))
        (λ rest le'.
          feed-opened h.columns h.types rest cs (subst HeaderIsSoft agrees soft) (omega arith)))
  header_chunk x cs (Read.err k) w e le agrees soft room later =
      elim (Bool-cases (is_incomplete k)) [
        | inl t ↦ rw t (
            ap settle (finished-also [] _ ∙ append_rows_nil _)
            ∙ later (ap Read.err (is_incomplete-eq-true k t)))
        | inr f ↦ elim agrees [ inl u ↦ absurd cc | inr u ↦ rw (f, u, f) refl ]
      ]
  header_chunk x cs Read.panicked w e le agrees soft room later = rw agrees refl

  feed-waiting :
      (b : Text) (chunks : List Text)
      → read_header (at_row b) ≡ Read.err unexpected_end
      → HeaderIsSoft (read_header (at_row (b ++ concat chunks)))
      → length b + length (concat chunks) ≤ max_stream_buffer_bytes
      → settle (finished (feed (waiting b) chunks)) ≡ settle (rows_of (b ++ concat chunks))
  unfolding feed finish try_decode_header
  feed-waiting b [] e soft room = rw (append-nil b, e) refl
  feed-waiting b (c ∷ cs) e soft room =
      let x = b ++ c in
      let room' : length x + length (concat cs) ≤ max_stream_buffer_bytes =
        omega (arith, length-append b c, length-append c (concat cs)) in
      let whole = sym (append_assoc b c (concat cs)) in
      rw (has_room (waiting b) c (length (concat cs)) room', whole)
        (header_chunk x cs (read_header (at_row x)) (read_header (at_row (x ++ concat cs))) refl
          (read_header-IsStable.shrinks (at_row x))
          (read_header-IsStable.agrees (concat cs) (at_row x))
          (subst (λ t. HeaderIsSoft (read_header (at_row t))) whole soft) room'
          (λ e'.
            feed-waiting x cs e' (subst (λ t. HeaderIsSoft (read_header (at_row t))) whole soft)
              room'))

  -- A response is the same rows in whatever chunks it comes, if it fits into the buffer: those of
  -- the whole text. The errors for a response that ends within a row, and for rows that take no
  -- bytes, count as one; the columns must not be such that reading a row from nothing panics, or
  -- fails with another error than that for the end of the text.
  pub stream-eq-rows_of :
      (chunks : List Text)
      → length (concat chunks) ≤ max_stream_buffer_bytes
      → HeaderIsSoft (read_header (at_row (concat chunks)))
      → settle (stream chunks) ≡ settle (rows_of (concat chunks))
  unfolding read_header bounded_len varuint varuint_loop u8 take_bytes
  stream-eq-rows_of chunks room soft = feed-waiting [] chunks refl soft (omega arith)

  result_of-rows :
      (columns : List ColumnMeta) (x : Outcome Rows) (q : QueryResult)
      → result_of o columns x ≡ Outcome.done q
      → x ≡ Outcome.done q.rows
  result_of-rows columns (Outcome.done rows) q h = cc
  result_of-rows columns (Outcome.failed e) q h = absurd cc
  result_of-rows columns Outcome.stopped q h = absurd cc

  behind_header-rows :
      (text : Text) (r : Read Header) (q : QueryResult)
      → Rows.behind_header o r ≡ Outcome.done q
      → behind text r ≡ Outcome.done q.rows
  behind_header-rows text (Read.ok h i) q e = result_of-rows h.columns _ q e
  behind_header-rows text (Read.err k) q e = absurd cc
  behind_header-rows text Read.panicked q e = absurd cc

  decode-rows :
      (text : Text) (q : QueryResult)
      → decode o text ≡ Outcome.done q
      → rows_of text ≡ Outcome.done q.rows
  unfolding decode
  decode-rows text q h = elim (Bool-cases (ltb max_materialized_response_bytes (length text))) [
    | inl t ↦ let k = rw t at h in absurd cc
    | inr f ↦ behind_header-rows text (read_header (at_row text)) q (rw f at h)
  ]

  settle-done :
      (x : Outcome Rows) (rows : Rows) → settle x ≡ Outcome.done rows → x ≡ Outcome.done rows
  settle-done (Outcome.done more) rows h = h
  settle-done (Outcome.failed e) rows h = absurd cc
  settle-done Outcome.stopped rows h = absurd cc

  -- A response that decodes as a whole gives the same rows in chunks.
  pub decode-stream :
      (chunks : List Text) (q : QueryResult)
      → length (concat chunks) ≤ max_stream_buffer_bytes
      → HeaderIsSoft (read_header (at_row (concat chunks)))
      → decode o (concat chunks) ≡ Outcome.done q
      → stream chunks ≡ Outcome.done q.rows
  decode-stream chunks q room soft h =
      settle-done (stream chunks) q.rows
        (stream-eq-rows_of chunks room soft ∙ ap settle (decode-rows (concat chunks) q h))
