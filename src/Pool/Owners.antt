-- ===== src/Pool/Owners.antt =====
-- A pooled client serves the key that it was connected for.
use ze_db.Prelude.{
  ℕ, ◌≡◌, ◌⊎◌, sym, ap, ◌∙◌, inl, inr, Bool, true, false, List, [], ◌∷◌, ◌++◌, Option, none, some,
  arith,
}
use ze_db.Prelude.Tests.{Bool-cases, Option-cases}
use ze_db.Prelude.Lists.{
  length, All, All-append, get_elem?, get_elem?-append_left, get_elem?-append_self,
}
use ze_db.Prelude.Text.{Text, text_eq, text_eq_iff}
use ze_db.Pool.{
  ChConfig, PoolEntry, Entries, Outside, pool_key, get, remove, insert, Process, is_closed, start,
  Answer, answer, remove_key, dial, demand_entry, disabled, pooled, spawn, pooled_answer, evict,
  Demanded, connect_pooled, landed, Event, pick, background_ends, foreground_ends, step, run,
}
use ze_db.Pool.Entries.{get-remove, get-insert, pick-All}

module _ (o : Outside) where
  abbrev IsKeyed : Text × ChConfig → Type 0
  IsKeyed (k, cfg) = pool_key o cfg ≡ some k

  -- The socket was connected for a configuration with this key.
  abbrev pub Serves : List ChConfig → Text → ℕ → Type 0
  Serves sockets k c =
      (cfg : ChConfig) × (get_elem? sockets c ≡ some cfg) × (pool_key o cfg ≡ some k)

  pub record IsOwned (s : Process) : Type 0 where
    pub background : All IsKeyed s.background
    pub foreground : All IsKeyed s.foreground
    pub ready :
        (k : Text) (c : ℕ) → get k s.entries ≡ some (PoolEntry.ready c) → Serves s.sockets k c

  Serves-append : (xs ys : List ChConfig) (k : Text) (c : ℕ) → Serves xs k c → Serves (xs ++ ys) k c
  Serves-append xs ys k c (cfg, e, h) = (cfg, get_elem?-append_left xs ys c cfg e, h)

  AllServe : List ChConfig → Entries → Type 0
  AllServe sockets es =
      (k : Text) (c : ℕ) → get k es ≡ some (PoolEntry.ready c) → Serves sockets k c

  AllServe-remove :
      (sockets : List ChConfig) (es : Entries) (j : Text)
      → AllServe sockets es
      → AllServe sockets (remove j es)
  unfolding AllServe
  AllServe-remove sockets es j h k c e = h k c (ground (arith, get-remove j k es))

  -- A new entry that names no client, or one that serves its key.
  AllServe-insert :
      (sockets : List ChConfig) (es : Entries) (j : Text) (x : PoolEntry)
      → ((c : ℕ) → x ≡ PoolEntry.ready c → Serves sockets j c)
      → AllServe sockets es
      → AllServe sockets (insert j x es)
  unfolding AllServe
  AllServe-insert sockets es j x new h k c e = elim (Bool-cases (text_eq j k)) [
    | inl t ↦
        let same : j ≡ k = (text_eq_iff j k).0 t in
        rw (sym same) (new c (ground (arith, get-insert j k x es)))
    | inr f ↦ h k c (ground (arith, get-insert j k x es))
  ]

  landed-IsOwned :
      (k : Text) (cfg : ChConfig) (made : Bool) (s : Process)
      → pool_key o cfg ≡ some k
      → IsOwned s
      → IsOwned (landed k cfg made s)
  unfolding landed AllServe
  landed-IsOwned k cfg true s keyed h = record {
    background = h.background;
    foreground = h.foreground;
    ready =
        AllServe-insert (s.sockets ++ cfg ∷ []) s.entries k (PoolEntry.ready (length s.sockets))
          (λ c e.
            let same : length s.sockets ≡ c = cc in
            (cfg, rw (sym same) (get_elem?-append_self s.sockets [] cfg), keyed))
          (λ j c e. Serves-append s.sockets (cfg ∷ []) j c (h.ready j c e));
  }
  landed-IsOwned k cfg false s keyed h = record {
    background = h.background;
    foreground = h.foreground;
    ready = AllServe-insert s.sockets s.entries k (PoolEntry.failed s.now) (λ c e. cc) h.ready;
  }

  spawn-IsOwned :
      (runtime : Bool) (k : Text) (cfg : ChConfig) (s : Process)
      → pool_key o cfg ≡ some k
      → IsOwned s
      → IsOwned (spawn runtime k cfg s)
  unfolding AllServe
  spawn-IsOwned false k cfg s keyed h = h
  spawn-IsOwned true k cfg s keyed h = record {
    background = All-append IsKeyed s.background _ h.background (keyed, tt);
    foreground = h.foreground;
    ready = AllServe-insert s.sockets s.entries k PoolEntry.connecting (λ c e. cc) h.ready;
  }

  pooled-IsOwned :
      (runtime : Bool) (cfg : ChConfig) (s : Process)
      → IsOwned s
      → IsOwned (pooled o runtime cfg s).1
  unfolding pooled
  pooled-IsOwned runtime cfg s h = elim (Bool-cases (disabled o)) [
    | inl t ↦ rw t h
    | inr f ↦ elim (Option-cases (pool_key o cfg)) [
      | inl e ↦ rw (f, e) h
      | inr (k, e) ↦ rw (f, e) (answered-IsOwned runtime k cfg s (answer s (get k s.entries)) e h)
    ]
  ]
    where
      answered-IsOwned :
          (runtime : Bool) (k : Text) (cfg : ChConfig) (s : Process) (a : Answer)
          → pool_key o cfg ≡ some k
          → IsOwned s
          → IsOwned (pooled_answer runtime k cfg s a).1
      answered-IsOwned runtime k cfg s (Answer.hand_out c) keyed h = h
      answered-IsOwned runtime k cfg s Answer.wait keyed h = h
      answered-IsOwned runtime k cfg s Answer.connect keyed h =
          spawn-IsOwned runtime k cfg s keyed h

  remove_key-IsOwned : (k : Option Text) (s : Process) → IsOwned s → IsOwned (remove_key k s)
  unfolding AllServe
  remove_key-IsOwned none s h = h
  remove_key-IsOwned (some k) s h = record {
    background = h.background;
    foreground = h.foreground;
    ready = AllServe-remove s.sockets s.entries k h.ready;
  }

  dial-IsOwned :
      (k : Text) (cfg : ChConfig) (s : Process)
      → pool_key o cfg ≡ some k
      → IsOwned s
      → IsOwned (dial k cfg s).1
  dial-IsOwned k cfg s keyed h = record {
    background = h.background;
    foreground = All-append IsKeyed s.foreground _ h.foreground (keyed, tt);
    ready = h.ready;
  }

  demand_entry-IsOwned :
      (k : Text) (cfg : ChConfig) (s : Process) (e : Option PoolEntry)
      → pool_key o cfg ≡ some k
      → IsOwned s
      → IsOwned (demand_entry k cfg s e).1
  demand_entry-IsOwned k cfg s none keyed h = dial-IsOwned k cfg s keyed h
  demand_entry-IsOwned k cfg s (some PoolEntry.connecting) keyed h = dial-IsOwned k cfg s keyed h
  demand_entry-IsOwned k cfg s (some (PoolEntry.failed at)) keyed h = dial-IsOwned k cfg s keyed h
  demand_entry-IsOwned k cfg s (some (PoolEntry.ready c)) keyed h =
      elim (Bool-cases (is_closed s c)) [
        | inl t ↦ rw t (dial-IsOwned k cfg s keyed h)
        | inr f ↦ rw f h
      ]

  connect_pooled-IsOwned :
      (cfg : ChConfig) (s : Process) → IsOwned s → IsOwned (connect_pooled o cfg s).1
  unfolding connect_pooled
  connect_pooled-IsOwned cfg s h = elim (Bool-cases (disabled o)) [
    | inl t ↦ rw t h
    | inr f ↦ elim (Option-cases (pool_key o cfg)) [
      | inl e ↦ rw (f, e) h
      | inr (k, e) ↦ rw (f, e) (demand_entry-IsOwned k cfg s (get k s.entries) e h)
    ]
  ]

  background_ends-IsOwned :
      (n : ℕ) (made : Bool) (s : Process)
      → IsOwned s
      → IsOwned (background_ends made s (pick n s.background))
  background_ends-IsOwned n made s h = elim (Option-cases (pick n s.background)) [
    | inl e ↦ rw e h
    | inr (((k, cfg), others), e) ↦
        let (keyed, left) = pick-All IsKeyed n s.background (k, cfg) others h.background e in
        let h' : IsOwned (record s { background = others }) = record {
          background = left;
          foreground = h.foreground;
          ready = h.ready;
        } in
        rw e (landed-IsOwned k cfg made (record s { background = others }) keyed h')
  ]

  foreground_ends-IsOwned :
      (n : ℕ) (made : Bool) (s : Process)
      → IsOwned s
      → IsOwned (foreground_ends made s (pick n s.foreground))
  foreground_ends-IsOwned n made s h = elim (Option-cases (pick n s.foreground)) [
    | inl e ↦ rw e h
    | inr (((k, cfg), others), e) ↦
        let (keyed, left) = pick-All IsKeyed n s.foreground (k, cfg) others h.foreground e in
        let h' : IsOwned (record s { foreground = others }) = record {
          background = h.background;
          foreground = left;
          ready = h.ready;
        } in
        rw e (landed-IsOwned k cfg made (record s { foreground = others }) keyed h')
  ]

  step-IsOwned : (s : Process) (e : Event) → IsOwned s → IsOwned (step o s e)
  unfolding step evict
  step-IsOwned s (Event.ask runtime cfg) h = pooled-IsOwned runtime cfg s h
  step-IsOwned s (Event.drop_broken cfg) h = remove_key-IsOwned (pool_key o cfg) s h
  step-IsOwned s (Event.demand cfg) h = connect_pooled-IsOwned cfg s h
  step-IsOwned s (Event.background_landed n made) h = background_ends-IsOwned n made s h
  step-IsOwned s (Event.foreground_landed n made) h = foreground_ends-IsOwned n made s h
  step-IsOwned s (Event.closes c) h = record {
    background = h.background;
    foreground = h.foreground;
    ready = h.ready;
  }
  step-IsOwned s (Event.passes t) h = record {
    background = h.background;
    foreground = h.foreground;
    ready = h.ready;
  }

  run-IsOwned : (s : Process) (es : List Event) → IsOwned s → IsOwned (run o s es)
  unfolding run
  run-IsOwned s [] h = h
  run-IsOwned s (e ∷ es) h = run-IsOwned (step o s e) es (step-IsOwned s e h)

  start-IsOwned : IsOwned start
  unfolding get
  start-IsOwned = record { background = tt; foreground = tt; ready = λ k c e. cc }

  -- The client is a socket that was connected for a configuration with the key of `cfg`, and it
  -- has not closed.
  abbrev pub HandsOut : Process → ChConfig → ℕ → Type 0
  HandsOut s cfg c =
      (made_for : ChConfig) × (get_elem? s.sockets c ≡ some made_for)
      × (pool_key o made_for ≡ pool_key o cfg)
      × (is_closed s c ≡ false)

  answer-ready :
      (s : Process) (e : Option PoolEntry) (c : ℕ)
      → answer s e ≡ Answer.hand_out c
      → (e ≡ some (PoolEntry.ready c)) × (is_closed s c ≡ false)
  unfolding answer
  answer-ready s none c h = cc
  answer-ready s (some PoolEntry.connecting) c h = cc
  answer-ready s (some (PoolEntry.failed at)) c h = ground arith
  answer-ready s (some (PoolEntry.ready d)) c h = elim (Bool-cases (is_closed s d)) [
    | inl t ↦ let h' = rw t at h in cc
    | inr f ↦
        let h' = rw f at h in
        let same : d ≡ c = cc in (ap (λ x. some (PoolEntry.ready x)) same, rw (sym same) f)
  ]

  pooled-ready :
      (runtime : Bool) (cfg : ChConfig) (s : Process) (c : ℕ)
      → (pooled o runtime cfg s).0 ≡ some c
      → (k : Text) × (pool_key o cfg ≡ some k)
        × (get k s.entries ≡ some (PoolEntry.ready c))
        × (is_closed s c ≡ false)
  unfolding pooled
  pooled-ready runtime cfg s c h = elim (Bool-cases (disabled o)) [
    | inl t ↦ let h' = rw t at h in cc
    | inr f ↦ elim (Option-cases (pool_key o cfg)) [
      | inl e ↦ let h' = rw (f, e) at h in cc
      | inr (k, e) ↦
          let h' = rw (f, e) at h in
          let (there, alive) =
            answer-ready s (get k s.entries) c (of_answer k (answer s (get k s.entries)) h') in
          (k, e, there, alive)
    ]
  ]
    where
      of_answer :
          (k : Text) (a : Answer)
          → (pooled_answer runtime k cfg s a).0 ≡ some c
          → a ≡ Answer.hand_out c
      of_answer k (Answer.hand_out d) e = cc
      of_answer k Answer.wait e = cc
      of_answer k Answer.connect e = cc

  connect_pooled-ready :
      (cfg : ChConfig) (s : Process) (c : ℕ)
      → (connect_pooled o cfg s).0 ≡ Demanded.client c
      → (k : Text) × (pool_key o cfg ≡ some k)
        × (get k s.entries ≡ some (PoolEntry.ready c))
        × (is_closed s c ≡ false)
  unfolding connect_pooled
  connect_pooled-ready cfg s c h = elim (Bool-cases (disabled o)) [
    | inl t ↦ let h' = rw t at h in cc
    | inr f ↦ elim (Option-cases (pool_key o cfg)) [
      | inl e ↦ let h' = rw (f, e) at h in cc
      | inr (k, e) ↦
          let h' = rw (f, e) at h in
          let (there, alive) = of_entry k (get k s.entries) h' in (k, e, there, alive)
    ]
  ]
    where
      of_entry :
          (k : Text) (e : Option PoolEntry)
          → (demand_entry k cfg s e).0 ≡ Demanded.client c
          → (e ≡ some (PoolEntry.ready c)) × (is_closed s c ≡ false)
      of_entry k none q = cc
      of_entry k (some PoolEntry.connecting) q = cc
      of_entry k (some (PoolEntry.failed at)) q = cc
      of_entry k (some (PoolEntry.ready d)) q = elim (Bool-cases (is_closed s d)) [
        | inl t ↦ let q' = rw t at q in cc
        | inr f ↦
            let q' = rw f at q in
            let same : d ≡ c = cc in (ap (λ x. some (PoolEntry.ready x)) same, rw (sym same) f)
      ]

  -- A call hands the client out of the pool.
  abbrev pub Gives : Process → ChConfig → Bool → ℕ → Type 0
  Gives s cfg runtime c =
      ((pooled o runtime cfg s).0 ≡ some c) ⊎ ((connect_pooled o cfg s).0 ≡ Demanded.client c)

  ready-HandsOut :
      (cfg : ChConfig) (s : Process) (c : ℕ) (k : Text)
      → IsOwned s
      → pool_key o cfg ≡ some k
      → get k s.entries ≡ some (PoolEntry.ready c)
      → is_closed s c ≡ false
      → HandsOut s cfg c
  ready-HandsOut cfg s c k h keyed e alive =
      let (made_for, there, same) = h.ready k c e in (made_for, there, same ∙ sym keyed, alive)

-- Whatever has happened in the process, in any order: a client that `pooled` or `connect_pooled`
-- hands out of the pool for a configuration was connected for one with the same key, and has not
-- closed.
pub run-HandsOut :
    (o : Outside) (events : List Event) (cfg : ChConfig) (runtime : Bool) (c : ℕ)
    → Gives o (run o start events) cfg runtime c
    → HandsOut o (run o start events) cfg c
run-HandsOut o events cfg runtime c (inl e) =
    let s = run o start events in
    let (k, keyed, there, alive) = pooled-ready o runtime cfg s c e in
    ready-HandsOut o cfg s c k (run-IsOwned o start events (start-IsOwned o)) keyed there alive
run-HandsOut o events cfg runtime c (inr e) =
    let s = run o start events in
    let (k, keyed, there, alive) = connect_pooled-ready o cfg s c e in
    ready-HandsOut o cfg s c k (run-IsOwned o start events (start-IsOwned o)) keyed there alive
