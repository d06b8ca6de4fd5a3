-- ===== src/Client/Order.antt =====
-- The order of the events of `query_stream`.
use ze_db.Prelude.{
  ℕ, ◌+◌, ◌≡◌, refl, sym, ◌∙◌, ◌⊎◌, inl, inr, Bool, true, false, ◌&&◌, List, [], ◌∷◌, ◌++◌, Option,
  none, some,
}
use mathlib.Core.Path.{subst}
use mathlib.Core.List.{append_assoc}
use ze_db.Prelude.Tests.{ltb, Bool-cases}
use ze_db.Prelude.Lists.{length}
use ze_db.Prelude.Text.{Text}
use ze_db.Wire.Types.{ColumnMeta, Outside}
use ze_db.Wire.Reader.{max_stream_buffer_bytes, Read}
use ze_db.Wire.Rows.{Header, Rows, Outcome, at_row, read_header}
use ze_db.Wire.Stream.{
  StreamingDecoder, is_incomplete, Step, header_step, try_decode_header, drained, take_rows,
  behind_header, with_columns, push, finish,
}
use ze_db.Client.{
  Event, QueryProgress, QueryStreamSummary, Arrival, Ending, Run, start, progress_of,
  saturating_add, announce, flush_if, cap_if, take_up, behind_push, with_received, close, leftover,
  ended, round, behind_round, query_loop, query_stream,
}

-- The columns come once, and before all rows; the flag tells whether they came.
abbrev pub in_order : Bool → List Event → Bool
in_order seen [] = true
in_order true (Event.columns cs ∷ es) = false
in_order false (Event.columns cs ∷ es) = in_order true es
in_order seen (Event.rows taken ∷ es) = seen && in_order seen es
in_order seen (Event.progress p ∷ es) = in_order seen es

-- What a push gives while the columns are not known.
abbrev KnowsRows : Step Rows → Type 0
KnowsRows (Outcome.done taken, d) = d.columns ≡ none → taken ≡ []
KnowsRows (Outcome.failed e, d) = Unit
KnowsRows (Outcome.stopped, d) = Unit

module _ (o : Outside) where
  drained-KnowsRows :
      (d : StreamingDecoder) (y : Outcome Rows × Text) (columns : List ColumnMeta)
      → d.columns ≡ some columns
      → KnowsRows (drained o d y)
  drained-KnowsRows d (Outcome.done taken, rest) columns h = λ k. absurd cc
  drained-KnowsRows d (Outcome.failed e, rest) columns h = tt
  drained-KnowsRows d (Outcome.stopped, rest) columns h = tt

  header-KnowsRows :
      (d : StreamingDecoder) (r : Read Header) → KnowsRows (behind_header o (header_step d r))
  unfolding take_rows
  header-KnowsRows d (Read.ok h i) =
      drained-KnowsRows (record { buffer = i.rest; columns = some h.columns; types = h.types }) _
        h.columns refl
  header-KnowsRows d (Read.err e) = elim (Bool-cases (is_incomplete e)) [
    | inl t ↦ rw t (λ k. refl)
    | inr f ↦ rw f tt
  ]
  header-KnowsRows d Read.panicked = tt

  known-KnowsRows :
      (known : Option (List ColumnMeta)) (d : StreamingDecoder)
      → d.columns ≡ known
      → KnowsRows (with_columns o known d)
  unfolding take_rows try_decode_header
  known-KnowsRows none d h = header-KnowsRows d (read_header (at_row d.buffer))
  known-KnowsRows (some cs) d h = drained-KnowsRows d _ cs h

  push-KnowsRows : (d : StreamingDecoder) (c : Text) → KnowsRows (push o d c)
  unfolding push
  push-KnowsRows d c =
      elim (Bool-cases (ltb max_stream_buffer_bytes (length d.buffer + length c))) [
        | inl t ↦ rw t tt
        | inr f ↦ rw f (known-KnowsRows d.columns (record d { buffer = d.buffer ++ c }) refl)
      ]

-- With the columns sent, the order is that no more come.
in_order-append :
    (es fs : List Event)
    → in_order true es ≡ true
    → in_order true fs ≡ true
    → in_order true (es ++ fs) ≡ true
in_order-append [] fs h k = k
in_order-append (Event.columns cs ∷ es) fs h k = h
in_order-append (Event.rows taken ∷ es) fs h k = in_order-append es fs h k
in_order-append (Event.progress p ∷ es) fs h k = in_order-append es fs h k

abbrev HoldsOrder : Bool → List Event × Ending → Type 0
HoldsOrder b (es, r) = in_order b es ≡ true

-- Events behind `pre`, with which the columns are sent.
abbrev Opens : Bool → List Event → Type 0
Opens b pre = (es : List Event) → in_order b (pre ++ es) ≡ in_order true es

module _ (row_limit : ℕ) (b : Bool) (pre : List Event) (opens : Opens b pre) where
  flush_if-HoldsOrder :
      (flushed capped : Bool) (s : Run) (next : Run → List Event × Ending)
      → s.sent_columns ≡ true
      → ((t : Run) → t.sent_columns ≡ true → HoldsOrder true (next t))
      → HoldsOrder b (behind_round next (cap_if capped (flush_if flushed pre s)))
  flush_if-HoldsOrder true true s next h later =
      rw (append_assoc pre (Event.rows s.pending_rows ∷ []) (progress_of s.received_bytes ∷ []))
        (opens _)
  flush_if-HoldsOrder true false s next h later =
      let t = record s { sent_rows = s.sent_rows + length s.pending_rows; pending_rows = [] } in
      rw (append_assoc pre (Event.rows s.pending_rows ∷ []) (next t).0) (opens _ ∙ later t h)
  flush_if-HoldsOrder false true s next h later = opens _
  flush_if-HoldsOrder false false s next h later = opens _ ∙ later s h

  take_up-HoldsOrder :
      (taken : Rows) (s : Run) (next : Run → List Event × Ending)
      → s.sent_columns ≡ true
      → ((t : Run) → t.sent_columns ≡ true → HoldsOrder true (next t))
      → HoldsOrder b (behind_round next (take_up row_limit taken (pre, s)))
  unfolding take_up
  take_up-HoldsOrder [] s next h later = opens _ ∙ later s h
  take_up-HoldsOrder (row ∷ more) s next h later = flush_if-HoldsOrder _ _ _ next h later

-- Without the columns, no rows are pending.
abbrev IsReady : Run → Type 0
IsReady s = (s.sent_columns ≡ true) ⊎ ((s.sent_columns ≡ false) × (s.pending_rows ≡ []))

close-HoldsOrder :
    (b : Bool) (events : List Event) (s : QueryStreamSummary) (x : Outcome Unit)
    → in_order b events ≡ true
    → HoldsOrder b (close events s x)
close-HoldsOrder b events s (Outcome.done u) h = h
close-HoldsOrder b events s (Outcome.failed e) h = h
close-HoldsOrder b events s Outcome.stopped h = h

ended-HoldsOrder :
    (flushed : Bool) (s : Run)
    → in_order s.sent_columns (flush_if flushed [] s).0 ≡ true
    → HoldsOrder s.sent_columns (ended (flush_if flushed [] s))
ended-HoldsOrder true s h =
    close-HoldsOrder s.sent_columns _ _ (finish s.decoder) (calm s.sent_columns h)
  where
    calm :
        (b : Bool)
        → in_order b (Event.rows s.pending_rows ∷ []) ≡ true
        → in_order b (Event.rows s.pending_rows ∷ progress_of s.received_bytes ∷ []) ≡ true
    calm true h = refl
    calm false h = h
ended-HoldsOrder false s h =
    close-HoldsOrder s.sent_columns _ _ (finish s.decoder) (calm s.sent_columns)
  where
    calm : (b : Bool) → in_order b (progress_of s.received_bytes ∷ []) ≡ true
    calm true = refl
    calm false = refl

leftover-in_order : (s : Run) → IsReady s → in_order s.sent_columns (leftover s).0 ≡ true
leftover-in_order s (inl h) = elim (Bool-cases (ltb 0 (length s.pending_rows))) [
  | inl t ↦ rw t (subst (λ z. in_order z (Event.rows s.pending_rows ∷ []) ≡ true) (sym h) refl)
  | inr f ↦ rw f (subst (λ z. in_order z [] ≡ true) (sym h) refl)
]
leftover-in_order s (inr (h, p)) =
    let f : ltb 0 (length s.pending_rows) ≡ false = rw p refl in
    rw f (subst (λ z. in_order z [] ≡ true) (sym h) refl)

no_events : (b : Bool) → in_order b [] ≡ true
no_events true = refl
no_events false = refl

module _ (o : Outside) (row_limit : ℕ) where
  announce-HoldsOrder :
      (b : Bool) (s : Run) (taken : Rows) (known : Option (List ColumnMeta))
      (next : Run → List Event × Ending)
      → s.sent_columns ≡ b
      → IsReady s
      → (known ≡ none → taken ≡ [])
      → ((t : Run) → IsReady t → HoldsOrder t.sent_columns (next t))
      → HoldsOrder b (behind_round next (take_up row_limit taken (announce b s known)))
  unfolding take_up
  announce-HoldsOrder true s taken known next h ready rows_known later =
      take_up-HoldsOrder row_limit true [] (λ es. refl) taken s next h
        (λ t k. subst (λ z. HoldsOrder z (next t)) k (later t (inl k)))
  announce-HoldsOrder false s taken none next h ready rows_known later =
      rw (rows_known refl) (subst (λ z. HoldsOrder z (next s)) h (later s ready))
  announce-HoldsOrder false s taken (some cs) next h ready rows_known later =
      take_up-HoldsOrder row_limit false (Event.columns cs ∷ []) (λ es. refl) taken
        (record s { sent_columns = true }) next refl
        (λ t k. subst (λ z. HoldsOrder z (next t)) k (later t (inl k)))

  behind_push-HoldsOrder :
      (s : Run) (y : Step Rows) (next : Run → List Event × Ending)
      → IsReady s
      → KnowsRows y
      → ((t : Run) → IsReady t → HoldsOrder t.sent_columns (next t))
      → HoldsOrder s.sent_columns (behind_round next (behind_push row_limit s y))
  behind_push-HoldsOrder s (Outcome.done taken, d) next ready knows later =
      announce-HoldsOrder s.sent_columns (record s { decoder = d }) taken d.columns next refl ready
        knows later
  behind_push-HoldsOrder s (Outcome.failed e, d) next ready knows later = no_events s.sent_columns
  behind_push-HoldsOrder s (Outcome.stopped, d) next ready knows later = no_events s.sent_columns

  tick-HoldsOrder :
      (b : Bool) (n : ℕ) (p : Option QueryProgress) (x : List Event × Ending)
      → HoldsOrder b x
      → HoldsOrder b (with_received n p ∷ x.0, x.1)
  tick-HoldsOrder true n none x h = h
  tick-HoldsOrder true n (some p) x h = h
  tick-HoldsOrder false n none x h = h
  tick-HoldsOrder false n (some p) x h = h

  query_loop-HoldsOrder :
      (s : Run) (arrivals : List Arrival)
      → IsReady s
      → HoldsOrder s.sent_columns (query_loop o row_limit s arrivals)
  unfolding query_loop round
  query_loop-HoldsOrder s [] ready = ended-HoldsOrder _ s (leftover-in_order s ready)
  query_loop-HoldsOrder s (Arrival.chunk c ∷ later) ready =
      behind_push-HoldsOrder
        (record s { received_bytes = saturating_add s.received_bytes (length c) })
        (push o s.decoder c) (λ t. query_loop o row_limit t later) ready
        (push-KnowsRows o s.decoder c) (λ t. query_loop-HoldsOrder t later)
  query_loop-HoldsOrder s (Arrival.broken ∷ later) ready = no_events s.sent_columns
  query_loop-HoldsOrder s (Arrival.tick p ∷ later) ready =
      tick-HoldsOrder s.sent_columns s.received_bytes p (query_loop o row_limit s later)
        (query_loop-HoldsOrder s later ready)

  -- Whatever arrives, and however it ends: the columns come at most once, and no rows before them.
  pub query_stream-in_order :
      (arrivals : List Arrival) → in_order false (query_stream o row_limit arrivals).0 ≡ true
  query_stream-in_order arrivals = query_loop-HoldsOrder start arrivals (inr (refl, refl))
