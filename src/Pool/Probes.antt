-- ===== src/Pool/Probes.antt =====
-- How often a server that does not answer is tried.
use ze_db.Prelude.{
  ℕ, zero, suc, ◌+◌, ◌-◌, ◌*◌, ◌≤◌, ◌≡◌, ◌≢◌, refl, sym, ap, ◌∙◌, inl, inr, Bool, true, false, List,
  [], ◌∷◌, ◌++◌, Option, none, some, arith,
}
use ze_db.Prelude.Tests.{Bool-cases, Option-cases, if◌then◌else◌}
use ze_db.Prelude.Lists.{All}
use ze_db.Prelude.Text.{Text, text_eq, text_eq_iff}
use ze_db.Pool.{
  ChConfig, PoolEntry, Outside, retry_after, pool_key, get, Process, is_closed, start, Answer,
  answer, disabled, pooled, spawn, pooled_answer, evict, demand_entry, connect_pooled, landed,
  Event, pick, step, run,
}
use ze_db.Pool.Entries.{get-remove, get-insert}

-- The background connects for a key that are in flight.
abbrev pub count : Text → List (Text × ChConfig) → ℕ
count k [] = 0
count k ((j, cfg) ∷ ts) = (if text_eq j k then 1 else 0) + count k ts

-- The background connects for a key that a run starts.
abbrev pub started : Outside → Text → Process → List Event → ℕ
started o k s [] = 0
started o k s (e ∷ es) =
    (count k (step o s e).background - count k s.background) + started o k (step o s e) es

-- No connect succeeds, and the entry of the key is not evicted.
abbrev pub IsDown : Outside → Text → Event → Type 0
IsDown o k (Event.drop_broken cfg) = pool_key o cfg ≢ some k
IsDown o k (Event.background_landed n made) = made ≡ false
IsDown o k (Event.foreground_landed n made) = made ≡ false
IsDown o k _ = Unit

-- The entry, when `n` connects have been started by the time `now`.
abbrev Rate : ℕ → ℕ → Option PoolEntry → Type 0
Rate n now none = n ≡ 0
Rate n now (some PoolEntry.connecting) = n * retry_after ≤ now + retry_after
Rate n now (some (PoolEntry.failed at)) = (n * retry_after ≤ at + retry_after) × (at ≤ now)
Rate n now (some (PoolEntry.ready c)) = ⊥

Rate-bound : (n now : ℕ) (e : Option PoolEntry) → Rate n now e → n * retry_after ≤ now + retry_after
Rate-bound n now none h = rw h (omega arith)
Rate-bound n now (some PoolEntry.connecting) h = h
Rate-bound n now (some (PoolEntry.failed at)) h = omega arith
Rate-bound n now (some (PoolEntry.ready c)) h = absurd h

Rate-later : (n now t : ℕ) (e : Option PoolEntry) → Rate n now e → Rate n (now + t) e
Rate-later n now t none h = h
Rate-later n now t (some PoolEntry.connecting) h = omega arith
Rate-later n now t (some (PoolEntry.failed at)) h = omega arith
Rate-later n now t (some (PoolEntry.ready c)) h = absurd h

-- A connect is started only where none was, or five minutes after a failure.
Rate-connect :
    (n : ℕ) (s : Process) (e : Option PoolEntry)
    → answer s e ≡ Answer.connect
    → Rate n s.now e
    → suc n * retry_after ≤ s.now + retry_after
unfolding answer
Rate-connect n s none a h = rw h (omega arith)
Rate-connect n s (some PoolEntry.connecting) a h = cc
Rate-connect n s (some (PoolEntry.ready c)) a h = absurd h
Rate-connect n s (some (PoolEntry.failed at)) a h = ground arith

count-append :
    (k : Text) (ts us : List (Text × ChConfig)) → count k (ts ++ us) ≡ count k ts + count k us
count-append k [] us = omega arith
count-append k (t ∷ ts) us = omega (arith, count-append k ts us)

count-pick :
    (k : Text) (n : ℕ) (ts : List (Text × ChConfig)) (t : Text × ChConfig)
    (us : List (Text × ChConfig))
    → pick n ts ≡ some (t, us)
    → count k us ≤ count k ts
unfolding pick
count-pick k n [] t us e = cc
count-pick k zero (t' ∷ ts) t us e = let same : ts ≡ us = cc in rw (sym same) (omega arith)
count-pick k (suc n) (t' ∷ ts) t us e = elim (Option-cases (pick n ts)) [
  | inl gone ↦ let e' = rw gone at e in cc
  | inr ((u, vs), found) ↦
      let e' = rw found at e in
      let same : t' ∷ vs ≡ us = cc in rw (sym same) (omega (arith, count-pick k n ts u vs found))
]

module _ (k : Text) where
  -- After a step from `s` with `n` connects started, of which it starts as many as the list shows.
  abbrev Goes : ℕ → Process → Process → Type 0
  Goes n s t = Rate (n + (count k t.background - count k s.background)) t.now (get k t.entries)

  stays : (n : ℕ) (s : Process) → Rate n s.now (get k s.entries) → Goes n s s
  stays n s h =
      let e : n + (count k s.background - count k s.background) ≡ n = omega arith in rw e h

  failed-Goes :
      (j : Text) (cfg : ChConfig) (n : ℕ) (s t : Process)
      → count k t.background ≤ count k s.background
      → t.now ≡ s.now
      → t.entries ≡ s.entries
      → Rate n s.now (get k s.entries)
      → Goes n s (landed j cfg false t)
  unfolding landed
  failed-Goes j cfg n s t fewer same kept h =
      let e : n + (count k t.background - count k s.background) ≡ n = omega arith in
      elim (Bool-cases (text_eq j k)) [
        | inl b ↦
            rw (e, get-insert j k (PoolEntry.failed t.now) t.entries, b)
              (let q = Rate-bound n s.now (get k s.entries) h in omega arith, omega arith)
        | inr b ↦ rw (e, get-insert j k (PoolEntry.failed t.now) t.entries, b, same, kept) h
      ]

  connect-Goes :
      (j : Text) (cfg : ChConfig) (runtime : Bool) (n : ℕ) (s : Process)
      → answer s (get j s.entries) ≡ Answer.connect
      → Rate n s.now (get k s.entries)
      → Goes n s (spawn runtime j cfg s)
  connect-Goes j cfg false n s a h = stays n s h
  connect-Goes j cfg true n s a h =
      let grown = count-append k s.background ((j, cfg) ∷ []) in
      let entry = get-insert j k PoolEntry.connecting s.entries in
      elim (Bool-cases (text_eq j k)) [
        | inl b ↦
            let same : j ≡ k = (text_eq_iff j k).0 b in
            let a' : answer s (get k s.entries) ≡ Answer.connect = rw same at a in
            let one : count k ((j, cfg) ∷ []) ≡ 1 = rw b refl in
            let e : n + (count k (s.background ++ (j, cfg) ∷ []) - count k s.background) ≡ suc n =
              omega arith in
            rw (e, entry, b) (Rate-connect n s (get k s.entries) a' h)
        | inr b ↦
            let no_more : count k ((j, cfg) ∷ []) ≡ 0 = rw b refl in
            let e : n + (count k (s.background ++ (j, cfg) ∷ []) - count k s.background) ≡ n =
              omega arith in
            rw (e, entry, b) h
      ]

  answered-Goes :
      (j : Text) (cfg : ChConfig) (runtime : Bool) (n : ℕ) (s : Process) (a : Answer)
      → answer s (get j s.entries) ≡ a
      → Rate n s.now (get k s.entries)
      → Goes n s (pooled_answer runtime j cfg s a).1
  answered-Goes j cfg runtime n s (Answer.hand_out c) a h = stays n s h
  answered-Goes j cfg runtime n s Answer.wait a h = stays n s h
  answered-Goes j cfg runtime n s Answer.connect a h = connect-Goes j cfg runtime n s a h

  pooled-Goes :
      (o : Outside) (cfg : ChConfig) (runtime : Bool) (n : ℕ) (s : Process)
      → Rate n s.now (get k s.entries)
      → Goes n s (pooled o runtime cfg s).1
  unfolding pooled
  pooled-Goes o cfg runtime n s h = elim (Bool-cases (disabled o)) [
    | inl t ↦ rw t (stays n s h)
    | inr f ↦ elim (Option-cases (pool_key o cfg)) [
      | inl e ↦ rw (f, e) (stays n s h)
      | inr (j, e) ↦ rw (f, e) (answered-Goes j cfg runtime n s (answer s (get j s.entries)) refl h)
    ]
  ]

  -- `connect_pooled` changes nothing that counts.
  demanded-Goes :
      (j : Text) (cfg : ChConfig) (n : ℕ) (s : Process) (e : Option PoolEntry)
      → Rate n s.now (get k s.entries)
      → Goes n s (demand_entry j cfg s e).1
  demanded-Goes j cfg n s none h = stays n s h
  demanded-Goes j cfg n s (some PoolEntry.connecting) h = stays n s h
  demanded-Goes j cfg n s (some (PoolEntry.failed at)) h = stays n s h
  demanded-Goes j cfg n s (some (PoolEntry.ready c)) h = elim (Bool-cases (is_closed s c)) [
    | inl t ↦ rw t (stays n s h)
    | inr f ↦ rw f (stays n s h)
  ]

  connect_pooled-Goes :
      (o : Outside) (cfg : ChConfig) (n : ℕ) (s : Process)
      → Rate n s.now (get k s.entries)
      → Goes n s (connect_pooled o cfg s).1
  unfolding connect_pooled
  connect_pooled-Goes o cfg n s h = elim (Bool-cases (disabled o)) [
    | inl t ↦ rw t (stays n s h)
    | inr f ↦ elim (Option-cases (pool_key o cfg)) [
      | inl e ↦ rw (f, e) (stays n s h)
      | inr (j, e) ↦ rw (f, e) (demanded-Goes j cfg n s (get j s.entries) h)
    ]
  ]

  evict-Goes :
      (o : Outside) (cfg : ChConfig) (n : ℕ) (s : Process)
      → pool_key o cfg ≢ some k
      → Rate n s.now (get k s.entries)
      → Goes n s (evict o cfg s)
  unfolding evict
  evict-Goes o cfg n s other h = elim (Option-cases (pool_key o cfg)) [
    | inl e ↦ rw e (stays n s h)
    | inr (j, e) ↦ elim (Bool-cases (text_eq j k)) [
      | inl b ↦ absurd (other (e ∙ ap some ((text_eq_iff j k).0 b)))
      | inr b ↦
          let z : n + (count k s.background - count k s.background) ≡ n = omega arith in
          rw (e, get-remove j k s.entries, b, z) h
    ]
  ]

  step-Goes :
      (o : Outside) (e : Event) (n : ℕ) (s : Process)
      → IsDown o k e
      → Rate n s.now (get k s.entries)
      → Goes n s (step o s e)
  unfolding step
  step-Goes o (Event.ask runtime cfg) n s d h = pooled-Goes o cfg runtime n s h
  step-Goes o (Event.drop_broken cfg) n s d h = evict-Goes o cfg n s d h
  step-Goes o (Event.demand cfg) n s d h = connect_pooled-Goes o cfg n s h
  step-Goes o (Event.background_landed m made) n s d h = elim (Option-cases (pick m s.background)) [
    | inl e ↦ rw e (stays n s h)
    | inr (((j, cfg), others), e) ↦
        rw (e, d)
          (failed-Goes j cfg n s (record s { background = others })
            (count-pick k m s.background (j, cfg) others e) refl refl h)
  ]
  step-Goes o (Event.foreground_landed m made) n s d h = elim (Option-cases (pick m s.foreground)) [
    | inl e ↦ rw e (stays n s h)
    | inr (((j, cfg), others), e) ↦
        rw (e, d)
          (failed-Goes j cfg n s (record s { foreground = others }) (omega arith) refl refl h)
  ]
  step-Goes o (Event.closes c) n s d h = stays n s h
  step-Goes o (Event.passes t) n s d h =
      let e : n + (count k s.background - count k s.background) ≡ n = omega arith in
      rw e (Rate-later n s.now t (get k s.entries) h)

  run-Rate :
      (o : Outside) (es : List Event) (n : ℕ) (s : Process)
      → All (IsDown o k) es
      → Rate n s.now (get k s.entries)
      → Rate (n + started o k s es) (run o s es).now (get k (run o s es).entries)
  unfolding run
  run-Rate o [] n s d h = let e : n + 0 ≡ n = omega arith in rw e h
  run-Rate o (e ∷ es) n s d h =
      let added = count k (step o s e).background - count k s.background in
      let sum : n + (added + started o k (step o s e) es)
          ≡ n + added + started o k (step o s e) es =
        omega arith in
      rw sum (run-Rate o es (n + added) (step o s e) d.1 (step-Goes o e n s d.0 h))

-- While no connect succeeds and the entry of a key is not evicted, `pooled` starts one connect for
-- the key and at most one more for each five minutes that pass, whatever is asked and however
-- often.
pub started_bound :
    (o : Outside) (k : Text) (events : List Event)
    → All (IsDown o k) events
    → started o k start events * retry_after ≤ (run o start events).now + retry_after
unfolding get
started_bound o k events d =
    let s = run o start events in
    let n = started o k start events in
    let reached : Rate (0 + n) s.now (get k s.entries) = run-Rate k o events 0 start d refl in
    let none_before : 0 + n ≡ n = omega arith in
    Rate-bound n s.now (get k s.entries) (rw none_before at reached)
