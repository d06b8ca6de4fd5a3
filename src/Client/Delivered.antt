-- ===== src/Client/Delivered.antt =====
-- The rows that a round of `query_stream` delivers.
use ze_db.Prelude.{
  ℕ, ◌+◌, ◌-◌, ◌≤◌, ◌<◌, ◌≡◌, refl, sym, ap, ◌∙◌, inl, inr, Bool, true, false, ◌||◌, List, [], ◌∷◌,
  ◌++◌, Option, none, some, arith,
}
use mathlib.Core.List.{append-nil, append_assoc}
use ze_db.Prelude.Tests.{ltb, leb, Bool-cases}
use ze_db.Prelude.Lists.{length, length-append, take, take-append_le, take-append_ge}
use ze_db.Prelude.Text.{Text}
use ze_db.Wire.Types.{ColumnMeta}
use ze_db.Wire.Rows.{Rows}
use ze_db.Client.{
  Event, Arrival, Ending, Run, progress_of, announce, flush_if, cap_if, take_up, behind_round,
}

-- The rows of all `Rows` events.
abbrev pub delivered : List Event → Rows
delivered [] = []
delivered (Event.columns cs ∷ es) = delivered es
delivered (Event.rows taken ∷ es) = taken ++ delivered es
delivered (Event.progress p ∷ es) = delivered es

abbrev pub chunks_of : List Arrival → List Text
chunks_of [] = []
chunks_of (Arrival.chunk c ∷ later) = c ∷ chunks_of later
chunks_of (Arrival.broken ∷ later) = chunks_of later
chunks_of (Arrival.tick p ∷ later) = chunks_of later

-- The body does not fail.
abbrev pub IsUnbroken : List Arrival → Type 0
IsUnbroken [] = Unit
IsUnbroken (Arrival.chunk c ∷ later) = IsUnbroken later
IsUnbroken (Arrival.broken ∷ later) = ⊥
IsUnbroken (Arrival.tick p ∷ later) = IsUnbroken later

pub delivered-append : (es fs : List Event) → delivered (es ++ fs) ≡ delivered es ++ delivered fs
delivered-append [] fs = refl
delivered-append (Event.columns cs ∷ es) fs = delivered-append es fs
delivered-append (Event.rows taken ∷ es) fs =
    ap (λ r. taken ++ r) (delivered-append es fs)
    ∙ sym (append_assoc taken (delivered es) (delivered fs))
delivered-append (Event.progress p ∷ es) fs = delivered-append es fs

-- These events and this ending deliver `all`, behind the rows sent before; `capped` as told.
abbrev pub Delivers : ℕ → Rows → Bool → List Event × Ending → Type 0
Delivers sent all capped (es, r) =
    (delivered es ≡ all)
    × (r ≡ Ending.summary (record { rows = sent + length all; capped = capped }))

pub quiet :
    (sent : ℕ) (all : Rows) (capped : Bool) (pre : List Event) (x : List Event × Ending)
    → delivered pre ≡ []
    → Delivers sent all capped x
    → Delivers sent all capped (pre ++ x.0, x.1)
quiet sent all capped pre (es, r) h (d, e) = (delivered-append pre es ∙ rw h d, e)

after_flush :
    (sent : ℕ) (front all : Rows) (capped : Bool) (pre : List Event) (x : List Event × Ending)
    → delivered pre ≡ []
    → Delivers (sent + length front) all capped x
    → Delivers sent (front ++ all) capped ((pre ++ Event.rows front ∷ []) ++ x.0, x.1)
after_flush sent front all capped pre (es, r) h (d, e) = (
  delivered-append (pre ++ Event.rows front ∷ []) es
      ∙ rw (delivered-append pre (Event.rows front ∷ []), h, append-nil front, d) refl,
  let n : sent + length front + length all ≡ sent + length (front ++ all) =
        omega (arith, length-append front all) in
      e ∙ rw n refl,
)

pub or_true : (b : Bool) → (b || true) ≡ true
or_true true = refl
or_true false = refl

abbrev pub held : Run → ℕ
held s = s.sent_rows + length s.pending_rows

module _ (row_limit : ℕ) where
  abbrev pub remaining : Run → ℕ
  remaining s = row_limit - held s

  -- From `s` on the rows `rs` come, of which as many are delivered as remain.
  abbrev pub DeliversFrom : Run → Rows → List Event × Ending → Type 0
  DeliversFrom s rs x =
      Delivers s.sent_rows (s.pending_rows ++ take (remaining s) rs) (ltb (remaining s) (length rs))
        x

  capped-DeliversFrom :
      (s : Run) (pre : List Event) (more rest : Rows) (n : ℕ)
      → delivered pre ≡ []
      → remaining s < length more
      → let front = s.pending_rows ++ take (remaining s) more in
        DeliversFrom s (more ++ rest) (
          (pre ++ Event.rows front ∷ []) ++ progress_of n ∷ [],
          Ending.summary (record { rows = s.sent_rows + length front; capped = true }),
        )
  capped-DeliversFrom s pre more rest n h lt =
      let over : ltb (remaining s) (length (more ++ rest)) ≡ true =
        ground (arith, length-append more rest) in
      let front = s.pending_rows ++ take (remaining s) more in
      rw (over, take-append_le (remaining s) more rest (omega arith))
        (
          delivered-append (pre ++ Event.rows front ∷ []) (progress_of n ∷ [])
              ∙ rw
                  (
                    delivered-append pre (Event.rows front ∷ []),
                    h,
                    append-nil front,
                    append-nil front,
                  )
                  refl,
          refl,
        )

  -- What remains behind rows that fit.
  fits :
      (s : Run) (more rest : Rows)
      → length more ≤ remaining s
      → held s ≤ row_limit
      → (s.pending_rows ++ take (remaining s) (more ++ rest)
          ≡ (s.pending_rows ++ more) ++ take (remaining s - length more) rest)
        × (ltb (remaining s) (length (more ++ rest))
            ≡ ltb (remaining s - length more) (length rest))
  fits s more rest le room = (
    rw (take-append_ge (remaining s) more rest le) (sym (append_assoc s.pending_rows more _)),
    ground (arith, length-append more rest),
  )

  uncapped-DeliversFrom :
      (b : Bool) (s : Run) (pre : List Event) (more rest : Rows) (next : Run → List Event × Ending)
      → delivered pre ≡ []
      → length more ≤ remaining s
      → held s ≤ row_limit
      → ((t : Run) → t.decoder ≡ s.decoder → held t ≤ row_limit → DeliversFrom t rest (next t))
      → DeliversFrom s (more ++ rest) (
          behind_round next
            (cap_if false (flush_if b pre (record s { pending_rows = s.pending_rows ++ more }))))
  uncapped-DeliversFrom true s pre more rest next h le room later =
      let front = s.pending_rows ++ more in
      let t = record s { sent_rows = s.sent_rows + length front; pending_rows = [] } in
      let room' : held t ≤ row_limit = omega (arith, length-append s.pending_rows more) in
      let n : row_limit - (s.sent_rows + length front + 0) ≡ remaining s - length more =
        omega (arith, length-append s.pending_rows more) in
      let (d, e) = fits s more rest le room in
      rw (d, e)
        (after_flush s.sent_rows front (take (remaining s - length more) rest) _ pre (next t) h
          (rw n at (later t refl room')))
  uncapped-DeliversFrom false s pre more rest next h le room later =
      let front = s.pending_rows ++ more in
      let t = record s { pending_rows = front } in
      let room' : held t ≤ row_limit = omega (arith, length-append s.pending_rows more) in
      let n : row_limit - (s.sent_rows + length front) ≡ remaining s - length more =
        omega (arith, length-append s.pending_rows more) in
      let (d, e) = fits s more rest le room in
      rw (d, e) (quiet s.sent_rows _ _ pre (next t) h (rw n at (later t refl room')))

  take_up-DeliversFrom :
      (s : Run) (pre : List Event) (more rest : Rows) (next : Run → List Event × Ending)
      → delivered pre ≡ []
      → held s ≤ row_limit
      → ((t : Run) → t.decoder ≡ s.decoder → held t ≤ row_limit → DeliversFrom t rest (next t))
      → DeliversFrom s (more ++ rest) (behind_round next (take_up row_limit more (pre, s)))
  unfolding take_up
  take_up-DeliversFrom s pre [] rest next h room later =
      quiet s.sent_rows _ _ pre (next s) h (later s refl room)
  take_up-DeliversFrom s pre (row ∷ more) rest next h room later =
      elim (Bool-cases (ltb (remaining s) (length (row ∷ more)))) [
        | inl t ↦
            rw (t, or_true (leb 512 (length (s.pending_rows ++ take (remaining s) (row ∷ more)))))
              (capped-DeliversFrom s pre (row ∷ more) rest s.received_bytes h (ground arith))
        | inr f ↦
            rw f (uncapped-DeliversFrom _ s pre (row ∷ more) rest next h (ground arith) room later)
      ]

  pub announce-DeliversFrom :
      (b : Bool) (s : Run) (known : Option (List ColumnMeta)) (more rest : Rows)
      (next : Run → List Event × Ending)
      → held s ≤ row_limit
      → ((t : Run) → t.decoder ≡ s.decoder → held t ≤ row_limit → DeliversFrom t rest (next t))
      → DeliversFrom s
          (more ++ rest)
          (behind_round next (take_up row_limit more (announce b s known)))
  announce-DeliversFrom true s known more rest next room later =
      take_up-DeliversFrom s [] more rest next refl room later
  announce-DeliversFrom false s none more rest next room later =
      take_up-DeliversFrom s [] more rest next refl room later
  announce-DeliversFrom false s (some cs) more rest next room later =
      take_up-DeliversFrom (record s { sent_columns = true }) (Event.columns cs ∷ []) more rest next
        refl room later
