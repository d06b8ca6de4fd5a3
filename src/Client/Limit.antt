-- ===== src/Client/Limit.antt =====
-- The rows that `query_stream` delivers.
use ze_db.Prelude.{
  ℕ, zero, suc, ◌+◌, ◌-◌, ◌≤◌, ◌≡◌, refl, sym, ◌∙◌, inl, inr, false, List, [], ◌∷◌, ◌++◌, Option,
  none, some, arith,
}
use mathlib.Core.Path.{subst}
use mathlib.Core.List.{append-nil}
use ze_db.Prelude.Tests.{ltb, Bool-cases}
use ze_db.Prelude.Lists.{length, take}
use ze_db.Wire.Types.{Value, QueryResult, Outside}
use ze_db.Wire.Reader.{max_stream_buffer_bytes}
use ze_db.Wire.Rows.{Rows, Outcome, at_row, read_header, decode}
use ze_db.Wire.Stream.{StreamingDecoder, Step, push, finish}
use ze_db.Wire.Stream.Loop.{append_rows}
use ze_db.Wire.Stream.Chunks.{
  concat, finished-also, HeaderIsSoft, decode-stream, after_push, close_rows, finished, feed,
  stream,
}
use ze_db.Client.{
  Event, Arrival, Ending, Run, start, progress_of, saturating_add, behind_push, with_received,
  close, leftover, ended, round, behind_round, query_loop, query_stream,
}
use ze_db.Client.Delivered.{
  delivered, chunks_of, IsUnbroken, Delivers, quiet, held, remaining, DeliversFrom,
  announce-DeliversFrom,
}

module _ (row_limit : ℕ) where
  -- The rest of the rows.
  split_rows :
      (more all : Rows) (x : Outcome Rows)
      → append_rows more x ≡ Outcome.done all
      → (rest : Rows) × (x ≡ Outcome.done rest) × (all ≡ more ++ rest)
  split_rows more all (Outcome.done rest) h = (rest, refl, cc)
  split_rows more all (Outcome.failed e) h = absurd cc
  split_rows more all Outcome.stopped h = absurd cc

  behind_push-DeliversFrom :
      (s : Run) (y : Step Rows) (feed_on : StreamingDecoder → Step Rows)
      (next : Run → List Event × Ending) (all : Rows)
      → finished (after_push feed_on y) ≡ Outcome.done all
      → held s ≤ row_limit
      → ((t : Run) (rest : Rows)
          → finished (feed_on t.decoder) ≡ Outcome.done rest
          → held t ≤ row_limit
          → DeliversFrom row_limit t rest (next t))
      → DeliversFrom row_limit s all (behind_round next (behind_push row_limit s y))
  behind_push-DeliversFrom s (Outcome.done more, d) feed_on next all h room later =
      let (rest, e, q) =
        split_rows more all (finished (feed_on d)) (sym (finished-also more (feed_on d)) ∙ h) in
      rw q (
        announce-DeliversFrom row_limit s.sent_columns (record s { decoder = d }) d.columns more
          rest next room (λ t same. later t rest (rw same e)))
  behind_push-DeliversFrom s (Outcome.failed e, d) feed_on next all h room later = absurd cc
  behind_push-DeliversFrom s (Outcome.stopped, d) feed_on next all h room later = absurd cc

  no_rows_left : (rs : Rows) → ltb 0 (length rs) ≡ false → rs ≡ []
  no_rows_left [] h = refl
  no_rows_left (r ∷ rs) h = absurd (ground arith)

  take_none : (n : ℕ) → take {A = List Value} n [] ≡ []
  take_none zero = refl
  take_none (suc n) = refl

  close-Delivers :
      (sent : ℕ) (front all : Rows) (n : ℕ) (events : List Event) (x : Outcome Unit)
      → close_rows [] x ≡ Outcome.done all
      → delivered events ≡ front
      → Delivers sent
          (front ++ take n all)
          (ltb n (length all))
          (close events (record { rows = sent + length front; capped = false }) x)
  close-Delivers sent front all n events (Outcome.done u) h d =
      let e : all ≡ [] = cc in
      let f : ltb n 0 ≡ false = ground arith in rw (e, take_none n, append-nil front, f) (d, refl)
  close-Delivers sent front all n events (Outcome.failed e) h d = absurd cc
  close-Delivers sent front all n events Outcome.stopped h d = absurd cc

  ended-DeliversFrom :
      (s : Run) (all : Rows)
      → close_rows [] (finish s.decoder) ≡ Outcome.done all
      → DeliversFrom row_limit s all (ended (leftover s))
  ended-DeliversFrom s all h = elim (Bool-cases (ltb 0 (length s.pending_rows))) [
    | inl t ↦ rw t (
        close-Delivers s.sent_rows s.pending_rows all (remaining row_limit s) _ (finish s.decoder) h
          (append-nil s.pending_rows))
    | inr f ↦
        let e = no_rows_left s.pending_rows f in
        let n : s.sent_rows ≡ s.sent_rows + length s.pending_rows = rw e (omega arith) in
        rw f (
          subst
            (λ z.
              Delivers s.sent_rows (s.pending_rows ++ take (remaining row_limit s) all)
                (ltb (remaining row_limit s) (length all))
                (close (progress_of s.received_bytes ∷ []) (record { rows = z; capped = false })
                  (finish s.decoder)))
            (sym n)
            (close-Delivers s.sent_rows s.pending_rows all (remaining row_limit s) _
              (finish s.decoder) h (sym e)))
  ]

  module _ (o : Outside) where
    query_loop-DeliversFrom :
        (s : Run) (arrivals : List Arrival) (all : Rows)
        → IsUnbroken arrivals
        → finished (feed o s.decoder (chunks_of arrivals)) ≡ Outcome.done all
        → held s ≤ row_limit
        → DeliversFrom row_limit s all (query_loop o row_limit s arrivals)
    unfolding query_loop round feed
    query_loop-DeliversFrom s [] all whole h room = ended-DeliversFrom s all h
    query_loop-DeliversFrom s (Arrival.chunk c ∷ later) all whole h room =
        behind_push-DeliversFrom
          (record s { received_bytes = saturating_add s.received_bytes (length c) })
          (push o s.decoder c) (λ d. feed o d (chunks_of later))
          (λ t. query_loop o row_limit t later) all h room
          (λ t rest. query_loop-DeliversFrom t later rest whole)
    query_loop-DeliversFrom s (Arrival.broken ∷ later) all whole h room = absurd whole
    query_loop-DeliversFrom s (Arrival.tick p ∷ later) all whole h room =
        quiet s.sent_rows _ _ (with_received s.received_bytes p ∷ []) _ (no_rows p)
          (query_loop-DeliversFrom s later all whole h room)
      where
        no_rows : (p : Option _) → delivered (with_received s.received_bytes p ∷ []) ≡ []
        no_rows none = refl
        no_rows (some p) = refl

    -- A body that arrives whole, in chunks that give the rows `all`, with ticks of the timer at any
    -- place between them: the `Rows` events hold the first `row_limit` of the rows, in order, the
    -- summary counts them, and it is capped when there are more.
    pub delivered-query_stream :
        (arrivals : List Arrival) (all : Rows)
        → IsUnbroken arrivals
        → stream o (chunks_of arrivals) ≡ Outcome.done all
        → let (events, ending) = query_stream o row_limit arrivals in
          (delivered events ≡ take row_limit all)
          × (ending
              ≡ Ending.summary (record {
                rows = length (take row_limit all);
                capped = ltb row_limit (length all);
              }))
    delivered-query_stream arrivals all whole h =
        let n : row_limit - 0 ≡ row_limit = omega arith in
        let z : start.sent_rows + length (take row_limit all) ≡ length (take row_limit all) =
          omega arith in
        rw (n, z) at (query_loop-DeliversFrom start arrivals all whole h (omega arith))

    -- Let a response of at most `max_stream_buffer_bytes` (64 MiB) arrive whole, cut into chunks
    -- anywhere, with ticks of the timer at any place between them, and let its columns be such that
    -- to read a row of them where no bytes are left gives a row, or asks for more bytes. If `decode`
    -- reads the response, then the `Rows` events of `query_stream` hold the first `row_limit` of the
    -- rows that it reads, in order, the summary counts them, and it is capped when there are more.
    pub delivered-decode :
        (arrivals : List Arrival) (q : QueryResult)
        → IsUnbroken arrivals
        → length (concat (chunks_of arrivals)) ≤ max_stream_buffer_bytes
        → HeaderIsSoft o (read_header (at_row (concat (chunks_of arrivals))))
        → decode o (concat (chunks_of arrivals)) ≡ Outcome.done q
        → let (events, ending) = query_stream o row_limit arrivals in
          (delivered events ≡ take row_limit q.rows)
          × (ending
              ≡ Ending.summary (record {
                rows = length (take row_limit q.rows);
                capped = ltb row_limit (length q.rows);
              }))
    delivered-decode arrivals q whole room soft h =
        delivered-query_stream arrivals q.rows whole
          (decode-stream o (chunks_of arrivals) q room soft h)
