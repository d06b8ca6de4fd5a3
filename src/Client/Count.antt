-- ===== src/Client/Count.antt =====
-- How many rows `query_stream` delivers, and how many it reports.
use ze_db.Prelude.{
  ℕ, ◌+◌, ◌-◌, ◌≤◌, ◌≡◌, refl, ◌∙◌, inl, inr, Bool, true, false, ◌||◌, List, [], ◌∷◌, ◌++◌, Option,
  none, some, arith,
}
use mathlib.Core.List.{append-nil}
use ze_db.Prelude.Tests.{ltb, Bool-cases, if◌then◌else◌}
use ze_db.Prelude.Lists.{length, length-append, take, length-take_le}
use ze_db.Wire.Types.{ColumnMeta, Outside}
use ze_db.Wire.Rows.{Rows, Outcome}
use ze_db.Wire.Stream.{Step, push, finish}
use ze_db.Client.{
  Event, QueryProgress, QueryStreamSummary, Arrival, Ending, Run, start, progress_of,
  saturating_add, announce, flush_if, cap_if, take_up, behind_push, with_received, close, ended,
  round, behind_round, query_loop, query_stream,
}
use ze_db.Client.Delivered.{delivered, delivered-append, or_true, held}

-- A summary reports these rows.
abbrev pub Reports : ℕ → Ending → Type 0
Reports n (Ending.summary s) = s.rows ≡ n
Reports n (Ending.error e) = Unit
Reports n Ending.broken_body = Unit
Reports n Ending.stopped = Unit

module _ (row_limit : ℕ) where
  abbrev Counts : ℕ → List Event × Ending → Type 0
  Counts sent (es, r) =
      (sent + length (delivered es) ≤ row_limit) × Reports (sent + length (delivered es)) r

  quiet-Counts :
      (sent : ℕ) (pre : List Event) (x : List Event × Ending)
      → delivered pre ≡ []
      → Counts sent x
      → Counts sent (pre ++ x.0, x.1)
  quiet-Counts sent pre (es, r) h k = rw (delivered-append pre es, h) k

  flush-Counts :
      (sent : ℕ) (front : Rows) (pre : List Event) (x : List Event × Ending)
      → delivered pre ≡ []
      → Counts (sent + length front) x
      → Counts sent ((pre ++ Event.rows front ∷ []) ++ x.0, x.1)
  flush-Counts sent front pre (es, r) h k =
      let n : sent + length (front ++ delivered es) ≡ sent + length front + length (delivered es) =
        omega (arith, length-append front (delivered es)) in
      let d : delivered ((pre ++ Event.rows front ∷ []) ++ es) ≡ front ++ delivered es =
        delivered-append (pre ++ Event.rows front ∷ []) es
        ∙ rw (delivered-append pre (Event.rows front ∷ []), h, append-nil front) refl in
      rw (d, n) k

  flush_if-Counts :
      (flushed capped : Bool) (s : Run) (pre : List Event) (next : Run → List Event × Ending)
      → delivered pre ≡ []
      → held s ≤ row_limit
      → ((t : Run) → held t ≤ row_limit → Counts t.sent_rows (next t))
      → Counts s.sent_rows (behind_round next (cap_if capped (flush_if (flushed || capped) pre s)))
  flush_if-Counts flushed true s pre next h room later = rw (or_true flushed) (
      flush-Counts s.sent_rows s.pending_rows pre
        (
          progress_of s.received_bytes ∷ [],
          Ending.summary (record { rows = s.sent_rows + length s.pending_rows; capped = true }),
        )
        h (omega arith, omega arith))
  flush_if-Counts true false s pre next h room later =
      let t = record s { sent_rows = s.sent_rows + length s.pending_rows; pending_rows = [] } in
      flush-Counts s.sent_rows s.pending_rows pre (next t) h (later t (omega arith))
  flush_if-Counts false false s pre next h room later =
      quiet-Counts s.sent_rows pre (next s) h (later s room)

  -- The rows that are kept fit.
  kept_fits :
      (s : Run) (taken : Rows)
      → held s ≤ row_limit
      → let kept =
          if ltb (row_limit - held s) (length taken)
          then take (row_limit - held s) taken
          else taken in
        s.sent_rows + length (s.pending_rows ++ kept) ≤ row_limit
  kept_fits s taken room = elim (Bool-cases (ltb (row_limit - held s) (length taken))) [
    | inl t ↦ rw t (
        omega (
          arith,
          length-append s.pending_rows (take (row_limit - held s) taken),
          length-take_le (row_limit - held s) taken,
        ))
    | inr f ↦ rw f (ground (arith, length-append s.pending_rows taken))
  ]

  take_up-Counts :
      (taken : Rows) (s : Run) (pre : List Event) (next : Run → List Event × Ending)
      → delivered pre ≡ []
      → held s ≤ row_limit
      → ((t : Run) → held t ≤ row_limit → Counts t.sent_rows (next t))
      → Counts s.sent_rows (behind_round next (take_up row_limit taken (pre, s)))
  unfolding take_up
  take_up-Counts [] s pre next h room later = quiet-Counts s.sent_rows pre (next s) h (later s room)
  take_up-Counts (row ∷ more) s pre next h room later =
      flush_if-Counts _ _ _ pre next h (kept_fits s (row ∷ more) room) later

  announce-Counts :
      (b : Bool) (s : Run) (taken : Rows) (known : Option (List ColumnMeta))
      (next : Run → List Event × Ending)
      → held s ≤ row_limit
      → ((t : Run) → held t ≤ row_limit → Counts t.sent_rows (next t))
      → Counts s.sent_rows (behind_round next (take_up row_limit taken (announce b s known)))
  announce-Counts true s taken known next = take_up-Counts taken s [] next refl
  announce-Counts false s taken none next = take_up-Counts taken s [] next refl
  announce-Counts false s taken (some cs) next =
      take_up-Counts taken (record s { sent_columns = true }) (Event.columns cs ∷ []) next refl

  behind_push-Counts :
      (s : Run) (y : Step Rows) (next : Run → List Event × Ending)
      → held s ≤ row_limit
      → ((t : Run) → held t ≤ row_limit → Counts t.sent_rows (next t))
      → Counts s.sent_rows (behind_round next (behind_push row_limit s y))
  behind_push-Counts s (Outcome.done taken, d) next room later =
      announce-Counts s.sent_columns (record s { decoder = d }) taken d.columns next room later
  behind_push-Counts s (Outcome.failed e, d) next room later = (omega arith, tt)
  behind_push-Counts s (Outcome.stopped, d) next room later = (omega arith, tt)

  close-Counts :
      (sent : ℕ) (events : List Event) (s : QueryStreamSummary) (x : Outcome Unit)
      → sent + length (delivered events) ≤ row_limit
      → s.rows ≡ sent + length (delivered events)
      → Counts sent (close events s x)
  close-Counts sent events s (Outcome.done u) h k = (h, k)
  close-Counts sent events s (Outcome.failed e) h k = (h, tt)
  close-Counts sent events s Outcome.stopped h k = (h, tt)

  ended-Counts :
      (flushed : Bool) (s : Run)
      → held s ≤ row_limit
      → Counts s.sent_rows (ended (flush_if flushed [] s))
  ended-Counts true s room =
      close-Counts s.sent_rows _ _ (finish s.decoder) (rw (append-nil s.pending_rows) room)
        (rw (append-nil s.pending_rows) refl)
  ended-Counts false s room =
      close-Counts s.sent_rows _ _ (finish s.decoder) (omega arith) (omega arith)

  module _ (o : Outside) where
    query_loop-Counts :
        (s : Run) (arrivals : List Arrival)
        → held s ≤ row_limit
        → Counts s.sent_rows (query_loop o row_limit s arrivals)
    unfolding query_loop round
    query_loop-Counts s [] room = ended-Counts _ s room
    query_loop-Counts s (Arrival.chunk c ∷ later) room =
        behind_push-Counts
          (record s { received_bytes = saturating_add s.received_bytes (length c) })
          (push o s.decoder c) (λ t. query_loop o row_limit t later) room
          (λ t. query_loop-Counts t later)
    query_loop-Counts s (Arrival.broken ∷ later) room = (omega arith, tt)
    query_loop-Counts s (Arrival.tick p ∷ later) room =
        quiet-Counts s.sent_rows (with_received s.received_bytes p ∷ [])
          (query_loop o row_limit s later) (no_rows p) (query_loop-Counts s later room)
      where
        no_rows :
            (p : Option QueryProgress) → delivered (with_received s.received_bytes p ∷ []) ≡ []
        no_rows none = refl
        no_rows (some p) = refl

    -- Whatever arrives, and however it ends: no more rows than the limit are delivered, and a
    -- summary reports just those that were.
    pub query_stream-Reports :
        (arrivals : List Arrival)
        → let (events, ending) = query_stream o row_limit arrivals in
          (length (delivered events) ≤ row_limit) × Reports (length (delivered events)) ending
    query_stream-Reports arrivals =
        let (events, ending) = query_stream o row_limit arrivals in
        let z : 0 + length (delivered events) ≡ length (delivered events) = omega arith in
        rw z at (query_loop-Counts start arrivals (omega arith))
