-- ===== src/Pool/Settle.antt =====
-- No entry of the pool stays without an answer: once the connects in flight end, none is waited for.
use ze_db.Prelude.{
  ℕ, zero, suc, ◌-◌, ◌<◌, ◌≡◌, ◌≢◌, ◌⊎◌, refl, sym, ap, ◌∙◌, inl, inr, Bool, true, false, ◌||◌,
  List, [], ◌∷◌, ◌++◌, Option, none, some, arith,
}
use ze_db.Prelude.Tests.{ltb, ltb→lt, Bool-cases, Option-cases}
use ze_db.Prelude.Lists.{length, any}
use ze_db.Prelude.Text.{Text, text_eq}
use ze_db.Pool.{
  ChConfig, PoolEntry, Entries, Outside, retry_after, pool_key, get, remove, insert, Process,
  is_closed, start, Answer, answer, disabled, pooled, pooled_answer, evict, demand_entry,
  connect_pooled, landed, Event, pick, background_ends, step, run,
}
use ze_db.Pool.Entries.{get-remove, get-insert}

-- A background connect for the key is in flight.
abbrev in_flight : Text → List (Text × ChConfig) → Bool
in_flight k ts = any (λ t. text_eq t.0 k) ts

-- A key that is marked as connecting has a connect in flight.
abbrev Waits : Entries → List (Text × ChConfig) → Type 0
Waits es ts = (k : Text) → get k es ≡ some PoolEntry.connecting → in_flight k ts ≡ true

in_flight-append :
    (k : Text) (ts us : List (Text × ChConfig))
    → in_flight k (ts ++ us) ≡ (in_flight k ts || in_flight k us)
in_flight-append k [] us = refl
in_flight-append k (t ∷ ts) us = ground (arith, in_flight-append k ts us)

-- Of the connects for another key none is lost.
in_flight-pick :
    (n : ℕ) (ts : List (Text × ChConfig)) (k j : Text) (cfg : ChConfig)
    (us : List (Text × ChConfig))
    → pick n ts ≡ some ((k, cfg), us)
    → text_eq k j ≡ false
    → in_flight j ts ≡ true
    → in_flight j us ≡ true
unfolding pick
in_flight-pick n [] k j cfg us e f h = cc
in_flight-pick zero ((k', cfg') ∷ ts) k j cfg us e f h = ground arith
in_flight-pick (suc n) (t ∷ ts) k j cfg us e f h = elim (Option-cases (pick n ts)) [
  | inl gone ↦ let e' = rw gone at e in cc
  | inr ((u, vs), found) ↦
      let e' = rw found at e in
      let same : t ∷ vs ≡ us = cc in
      let found' : pick n ts ≡ some ((k, cfg), vs) = cc in
      rw (sym same) (ground (arith, in_flight-pick n ts k j cfg vs found' f))
]

length-pick :
    (n : ℕ) (ts : List (Text × ChConfig))
    → n < length ts
    → (t : Text × ChConfig) × (us : List (Text × ChConfig)) × (pick n ts ≡ some (t, us))
      × (length ts ≡ suc (length us))
unfolding pick
length-pick n [] h = absurd (omega arith)
length-pick zero (t ∷ ts) h = (t, ts, refl, refl)
length-pick (suc n) (t ∷ ts) h =
    let (u, us, e, l) = length-pick n ts (omega arith) in
    (u, t ∷ us, rw (e, pick) refl, omega arith)

Waits-remove :
    (k : Text) (es : Entries) (ts : List (Text × ChConfig)) → Waits es ts → Waits (remove k es) ts
Waits-remove k es ts h j e = h j (ground (arith, get-remove k j es))

-- A connect has ended: its key is no longer marked.
Waits-insert :
    (k : Text) (x : PoolEntry) (es : Entries) (ts us : List (Text × ChConfig))
    → x ≢ PoolEntry.connecting
    → ((j : Text) → text_eq k j ≡ false → in_flight j ts ≡ true → in_flight j us ≡ true)
    → Waits es ts
    → Waits (insert k x es) us
Waits-insert k x es ts us done kept h j e = elim (Bool-cases (text_eq k j)) [
  | inl t ↦ absurd (done (ground (arith, get-insert k j x es)))
  | inr f ↦ kept j f (h j (ground (arith, get-insert k j x es)))
]

Waits-spawn :
    (k : Text) (cfg : ChConfig) (es : Entries) (ts : List (Text × ChConfig))
    → Waits es ts
    → Waits (insert k PoolEntry.connecting es) (ts ++ (k, cfg) ∷ [])
Waits-spawn k cfg es ts h j e =
    ground
      (arith, get-insert k j PoolEntry.connecting es, in_flight-append j ts ((k, cfg) ∷ []), h j)

abbrev Settled : Process → Type 0
Settled s = Waits s.entries s.background

landed-Settled :
    (k : Text) (cfg : ChConfig) (made : Bool) (s : Process) (ts : List (Text × ChConfig))
    → ((j : Text) → text_eq k j ≡ false → in_flight j ts ≡ true → in_flight j s.background ≡ true)
    → Waits s.entries ts
    → Settled (landed k cfg made s)
unfolding landed
landed-Settled k cfg true s ts kept h =
    Waits-insert k (PoolEntry.ready (length s.sockets)) s.entries ts s.background (λ e. cc) kept h
landed-Settled k cfg false s ts kept h =
    Waits-insert k (PoolEntry.failed s.now) s.entries ts s.background (λ e. cc) kept h

answered-Settled :
    (runtime : Bool) (k : Text) (cfg : ChConfig) (s : Process) (a : Answer)
    → Settled s
    → Settled (pooled_answer runtime k cfg s a).1
answered-Settled runtime k cfg s (Answer.hand_out c) h = h
answered-Settled runtime k cfg s Answer.wait h = h
answered-Settled false k cfg s Answer.connect h = h
answered-Settled true k cfg s Answer.connect h = Waits-spawn k cfg s.entries s.background h

pooled-Settled :
    (o : Outside) (runtime : Bool) (cfg : ChConfig) (s : Process)
    → Settled s
    → Settled (pooled o runtime cfg s).1
unfolding pooled
pooled-Settled o runtime cfg s h = elim (Bool-cases (disabled o)) [
  | inl t ↦ rw t h
  | inr f ↦ elim (Option-cases (pool_key o cfg)) [
    | inl e ↦ rw (f, e) h
    | inr (k, e) ↦ rw (f, e) (answered-Settled runtime k cfg s (answer s (get k s.entries)) h)
  ]
]

-- `connect_pooled` leaves the entries and the connects in the background alone.
demanded-Settled :
    (k : Text) (cfg : ChConfig) (s : Process) (e : Option PoolEntry)
    → Settled s
    → Settled (demand_entry k cfg s e).1
demanded-Settled k cfg s none h = h
demanded-Settled k cfg s (some PoolEntry.connecting) h = h
demanded-Settled k cfg s (some (PoolEntry.failed at)) h = h
demanded-Settled k cfg s (some (PoolEntry.ready c)) h = elim (Bool-cases (is_closed s c)) [
  | inl t ↦ rw t h
  | inr f ↦ rw f h
]

connect_pooled-Settled :
    (o : Outside) (cfg : ChConfig) (s : Process) → Settled s → Settled (connect_pooled o cfg s).1
unfolding connect_pooled
connect_pooled-Settled o cfg s h = elim (Bool-cases (disabled o)) [
  | inl t ↦ rw t h
  | inr f ↦ elim (Option-cases (pool_key o cfg)) [
    | inl e ↦ rw (f, e) h
    | inr (k, e) ↦ rw (f, e) (demanded-Settled k cfg s (get k s.entries) h)
  ]
]

evict-Settled : (o : Outside) (cfg : ChConfig) (s : Process) → Settled s → Settled (evict o cfg s)
unfolding evict
evict-Settled o cfg s h = elim (Option-cases (pool_key o cfg)) [
  | inl e ↦ rw e h
  | inr (k, e) ↦ rw e (Waits-remove k s.entries s.background h)
]

step-Settled : (o : Outside) (s : Process) (e : Event) → Settled s → Settled (step o s e)
unfolding step
step-Settled o s (Event.ask runtime cfg) h = pooled-Settled o runtime cfg s h
step-Settled o s (Event.drop_broken cfg) h = evict-Settled o cfg s h
step-Settled o s (Event.demand cfg) h = connect_pooled-Settled o cfg s h
step-Settled o s (Event.background_landed n made) h = elim (Option-cases (pick n s.background)) [
  | inl e ↦ rw e h
  | inr (((k, cfg), others), e) ↦ rw e (
      landed-Settled k cfg made (record s { background = others }) s.background
        (λ j f. in_flight-pick n s.background k j cfg others e f) h)
]
step-Settled o s (Event.foreground_landed n made) h = elim (Option-cases (pick n s.foreground)) [
  | inl e ↦ rw e h
  | inr (((k, cfg), others), e) ↦ rw e (
      landed-Settled k cfg made (record s { foreground = others }) s.background
        (λ j f flight. flight) h)
]
step-Settled o s (Event.closes c) h = h
step-Settled o s (Event.passes t) h = h

run-Settled : (o : Outside) (s : Process) (es : List Event) → Settled s → Settled (run o s es)
unfolding run
run-Settled o s [] h = h
run-Settled o s (e ∷ es) h = run-Settled o (step o s e) es (step-Settled o s e h)

-- The places and outcomes with which that many connects end, in some order.
abbrev pub Exhausts : ℕ → List (ℕ × Bool) → Type 0
Exhausts n [] = n ≡ 0
Exhausts zero (l ∷ ls) = ⊥
Exhausts (suc n) (l ∷ ls) = (l.0 < suc n) × Exhausts n ls

abbrev pub land_all : List (ℕ × Bool) → List Event
land_all [] = []
land_all ((n, made) ∷ ls) = Event.background_landed n made ∷ land_all ls

landed-background :
    (k : Text) (cfg : ChConfig) (made : Bool) (s : Process)
    → (landed k cfg made s).background ≡ s.background
unfolding landed
landed-background k cfg true s = refl
landed-background k cfg false s = refl

nil_of_length : (ts : List (Text × ChConfig)) → length ts ≡ 0 → ts ≡ []
nil_of_length [] h = refl
nil_of_length (t ∷ ts) h = absurd (omega arith)

start-Settled : Settled start
unfolding get
start-Settled k e = cc

land_all-empties :
    (o : Outside) (m : ℕ) (ls : List (ℕ × Bool)) (s : Process)
    → length s.background ≡ m
    → Exhausts m ls
    → (run o s (land_all ls)).background ≡ []
unfolding run step
land_all-empties o m [] s l h = nil_of_length s.background (l ∙ h)
land_all-empties o zero (x ∷ ls) s l h = absurd h
land_all-empties o (suc m) ((n, made) ∷ ls) s l h =
    let ((k, cfg), us, e, shorter) = length-pick n s.background (omega (arith, h.0)) in
    let s' = landed k cfg made (record s { background = us }) in
    let ended : background_ends made s (pick n s.background) ≡ s' =
      ap (λ p. background_ends made s p) e in
    let left : s'.background ≡ us = landed-background k cfg made (record s { background = us }) in
    let count : length s'.background ≡ m = rw left (omega arith) in
    let ih = land_all-empties o m ls s' count h.1 in
    ap (λ q. (run o q (land_all ls)).background) ended ∙ ih

-- What `pooled` makes of the entry: it hands out a client, starts a connect, the only one in
-- flight, or the last connect failed less than five minutes ago.
abbrev pub Moves : Outside → ChConfig → Text → Process → Type 0
Moves o cfg k s =
    ((c : ℕ) × ((pooled o true cfg s).0 ≡ some c))
    ⊎ ((pooled o true cfg s).1.background ≡ (k, cfg) ∷ [])
    ⊎ ((at : ℕ) × (get k s.entries ≡ some (PoolEntry.failed at)) × (s.now - at < retry_after))

answered-Moves :
    (cfg : ChConfig) (k : Text) (s : Process) (e : Option PoolEntry)
    → s.background ≡ []
    → e ≢ some PoolEntry.connecting
    → ((c : ℕ) × ((pooled_answer true k cfg s (answer s e)).0 ≡ some c))
      ⊎ ((pooled_answer true k cfg s (answer s e)).1.background ≡ (k, cfg) ∷ [])
      ⊎ ((at : ℕ) × (e ≡ some (PoolEntry.failed at)) × (s.now - at < retry_after))
unfolding answer
answered-Moves cfg k s none none_left h = inr (inl (ap (λ b. b ++ (k, cfg) ∷ []) none_left))
answered-Moves cfg k s (some PoolEntry.connecting) none_left h = absurd (h refl)
answered-Moves cfg k s (some (PoolEntry.ready c)) none_left h = elim (Bool-cases (is_closed s c)) [
  | inl t ↦ rw t (inr (inl (ap (λ b. b ++ (k, cfg) ∷ []) none_left)))
  | inr f ↦ rw f (inl (c, refl))
]
answered-Moves cfg k s (some (PoolEntry.failed at)) none_left h =
    elim (Bool-cases (ltb (s.now - at) retry_after)) [
      | inl t ↦ inr (inr (at, refl, ltb→lt (s.now - at) retry_after t))
      | inr f ↦ rw f (inr (inl (ap (λ b. b ++ (k, cfg) ∷ []) none_left)))
    ]

pooled-Moves :
    (o : Outside) (cfg : ChConfig) (k : Text) (s : Process)
    → disabled o ≡ false
    → pool_key o cfg ≡ some k
    → s.background ≡ []
    → Settled s
    → Moves o cfg k s
unfolding pooled
pooled-Moves o cfg k s f e none_left h =
    let unmarked : get k s.entries ≢ some PoolEntry.connecting =
      λ marked. let flight = h k marked in let flight' = rw none_left at flight in cc in
    rw (f, e) (answered-Moves cfg k s (get k s.entries) none_left unmarked)

-- Whatever has happened in the process: when the background connects in flight have ended, in any
-- order and each well or badly, a call of `pooled` waits for none of them. For a configuration
-- with a key, in the context of a runtime and with the native transport on, it hands out a client,
-- or starts a connect, or the last one failed less than five minutes ago.
pub land_all-Moves :
    (o : Outside) (events : List Event) (landings : List (ℕ × Bool)) (cfg : ChConfig) (k : Text)
    → disabled o ≡ false
    → pool_key o cfg ≡ some k
    → Exhausts (length (run o start events).background) landings
    → Moves o cfg k (run o (run o start events) (land_all landings))
land_all-Moves o events landings cfg k f e h =
    let s = run o start events in
    pooled-Moves o cfg k (run o s (land_all landings)) f e
      (land_all-empties o (length s.background) landings s refl h)
      (run-Settled o s (land_all landings) (run-Settled o start events start-Settled))
