-- ===== src/Client.antt =====
-- `query_stream` of crates/zedb-ch/src/client/streaming.rs, from the first byte of the body on.
pub mod Delivered
pub mod Limit
pub mod Order
pub mod Count
use ze_db.Prelude.{
  ℕ, zero, suc, ◌+◌, ◌-◌, ◌^◌, Bool, true, false, ◌||◌, List, [], ◌∷◌, ◌++◌, Option, none, some,
}
use ze_db.Prelude.Tests.{ltb, leb, if◌then◌else◌}
use ze_db.Prelude.Lists.{length, take}
use ze_db.Prelude.Text.{Text}
use ze_db.Wire.Types.{Value, ColumnMeta, Outside}
use ze_db.Wire.Reader.{ChError}
use ze_db.Wire.Rows.{Rows, Outcome}
use ze_db.Wire.Stream.{StreamingDecoder, new, Step, push, finish}

pub record QueryProgress : Type 0 where
  pub read_rows : Option ℕ
  pub read_bytes : Option ℕ
  pub total_rows : Option ℕ
  pub received_bytes : ℕ

-- `QueryStreamEvent`. `Started` comes before the body.
pub data Event : Type 0 where
  columns : List ColumnMeta → Event
  rows : Rows → Event
  progress : QueryProgress → Event

pub record QueryStreamSummary : Type 0 where
  pub rows : ℕ
  pub capped : Bool

-- What `select!` may bring: a chunk of the body, its failure, or a tick of the timer with what
-- `query_progress` found.
pub data Arrival : Type 0 where
  chunk : Text → Arrival
  broken : Arrival
  tick : Option QueryProgress → Arrival

-- `broken_body`: the error of the HTTP client. `stopped`: a panic.
pub data Ending : Type 0 where
  summary : QueryStreamSummary → Ending
  error : ChError → Ending
  broken_body stopped : Ending

-- The variables of the loop.
pub record Run : Type 0 where
  pub decoder : StreamingDecoder
  pub sent_columns : Bool
  pub sent_rows : ℕ
  pub pending_rows : Rows
  pub received_bytes : ℕ

abbrev pub start : Run
start = record {
  decoder = new;
  sent_columns = false;
  sent_rows = 0;
  pending_rows = [];
  received_bytes = 0;
}

-- The events of a round of the loop, and how it goes on.
pub data Round : Type 0 where
  continue : List Event → Run → Round
  return : List Event → Ending → Round

abbrev pub progress_of : ℕ → Event
progress_of n =
    Event.progress
      (record { read_rows = none; read_bytes = none; total_rows = none; received_bytes = n })

abbrev pub saturating_add : ℕ → ℕ → ℕ
saturating_add m n = if ltb (m + n) (2 ^ 64) then m + n else 2 ^ 64 - 1

-- The columns, once they are known, unless they are sent.
abbrev pub announce : Bool → Run → Option (List ColumnMeta) → List Event × Run
announce true s known = ([], s)
announce false s none = ([], s)
announce false s (some cs) = (Event.columns cs ∷ [], record s { sent_columns = true })

-- The pending rows go out.
abbrev pub flush : List Event → Run → List Event × Run
flush events s = (
  events ++ Event.rows s.pending_rows ∷ [],
  record s { sent_rows = s.sent_rows + length s.pending_rows; pending_rows = [] },
)

abbrev pub flush_if : Bool → List Event → Run → List Event × Run
flush_if true events s = flush events s
flush_if false events s = (events, s)

abbrev pub cap_if : Bool → List Event × Run → Round
cap_if true (events, s) =
    Round.return (events ++ progress_of s.received_bytes ∷ [])
      (Ending.summary (record { rows = s.sent_rows; capped = true }))
cap_if false (events, s) = Round.continue events s

-- The rows of a chunk, behind the announcement of the columns.
unfoldable pub take_up : ℕ → Rows → List Event × Run → Round
take_up row_limit [] (events, s) = Round.continue events s
take_up row_limit (row ∷ more) (events, s) =
    let remaining = row_limit - (s.sent_rows + length s.pending_rows) in
    let capped = ltb remaining (length (row ∷ more)) in
    let kept = if capped then take remaining (row ∷ more) else row ∷ more in
    let s' = record s { pending_rows = s.pending_rows ++ kept } in
    cap_if capped (flush_if (leb 512 (length s'.pending_rows) || capped) events s')

abbrev pub behind_push : ℕ → Run → Step Rows → Round
behind_push row_limit s (Outcome.done taken, d) =
    take_up row_limit taken (announce s.sent_columns (record s { decoder = d }) d.columns)
behind_push row_limit s (Outcome.failed e, d) = Round.return [] (Ending.error e)
behind_push row_limit s (Outcome.stopped, d) = Round.return [] Ending.stopped

abbrev pub with_received : ℕ → Option QueryProgress → Event
with_received n none = progress_of n
with_received n (some p) = Event.progress (record p { received_bytes = n })

abbrev pub close : List Event → QueryStreamSummary → Outcome (Unit {0}) → List Event × Ending
close events s (Outcome.done u) = (events, Ending.summary s)
close events s (Outcome.failed e) = (events, Ending.error e)
close events s Outcome.stopped = (events, Ending.stopped)

abbrev pub leftover : Run → List Event × Run
leftover s = flush_if (ltb 0 (length s.pending_rows)) [] s

-- Behind the loop.
abbrev pub ended : List Event × Run → List Event × Ending
ended (events, s) =
    close (events ++ progress_of s.received_bytes ∷ [])
      (record { rows = s.sent_rows; capped = false }) (finish s.decoder)

abbrev pub behind_round : (Run → List Event × Ending) → Round → List Event × Ending
behind_round next (Round.continue events s) = let (more, r) = next s in (events ++ more, r)
behind_round next (Round.return events r) = (events, r)

module _ (o : Outside) (row_limit : ℕ) where
  unfoldable pub round : Run → Arrival → Round
  round s (Arrival.chunk c) =
      let s' = record s { received_bytes = saturating_add s.received_bytes (length c) } in
      behind_push row_limit s' (push o s'.decoder c)
  round s Arrival.broken = Round.return [] Ending.broken_body
  round s (Arrival.tick p) = Round.continue (with_received s.received_bytes p ∷ []) s

  -- The loop, on the arrivals up to the end of the body.
  unfoldable pub query_loop : Run → List Arrival → List Event × Ending
  query_loop s [] = ended (leftover s)
  query_loop s (a ∷ later) = behind_round (λ s'. query_loop s' later) (round s a)

  abbrev pub query_stream : List Arrival → List Event × Ending
  query_stream arrivals = query_loop start arrivals
