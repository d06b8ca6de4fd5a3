-- ===== src/Tail/CatchUp.antt =====
-- A tail shows every row, once and in order, when each poll lands before the next is asked.
use mathlib.Core.List.{reverse, reverse-reverse, append-nil}
use mathlib.Core.Path.{subst}
use ze_db.Prelude.{
  ℕ, zero, suc, ◌-◌, ◌*◌, ◌≤◌, ◌≡◌, ◌≢◌, refl, sym, ap, ◌∙◌, List, [], ◌∷◌, ◌++◌, none, arith,
}
use ze_db.Prelude.Lists.{length, length-append, length-drop, take, drop, All, All-append_right}
use ze_db.Tail.{Outside, TailQuery, Row, tail_seed}
use ze_db.Tail.Poll.{Tab, land}
use ze_db.Tail.Server.{Server, view, newest, HasKey, IsKeyed, Grows, seeds, keys-view}
use ze_db.Tail.Land.{
  take-drop, concat_last, poll, polls, Tails, Shown, request, reply_of, request-Tails, land-seed,
}
use ze_db.Tail.Shown.{Shown-Grows, poll-Shown}

module _ {o : Outside} {q : TailQuery} (sv : Server o q) (generation : ℕ) where
  -- Each table is the one before with rows added.
  abbrev pub Chain : sv.Table → List sv.Table → Type 0
  Chain t [] = Unit
  Chain t (u ∷ us) = Grows sv t u × Chain u us

  abbrev pub last_of : sv.Table → List sv.Table → sv.Table
  last_of t [] = t
  last_of t (u ∷ us) = last_of u us

  abbrev pub repeat : ℕ → sv.Table → List sv.Table
  repeat zero t = []
  repeat (suc n) t = t ∷ repeat n t

  -- The first reply with rows.
  landed_seed :
      (t : sv.Table) (tab : Tab) (batch : List Row)
      → Tails sv generation tab none
      → batch ≢ []
      → All (HasKey sv) batch
      → view sv t ≡ take (length (view sv t) - tail_seed) (view sv t) ++ batch
      → Shown sv generation t
          (take (length (view sv t) - tail_seed) (view sv t))
          []
          (land o (request sv generation none) (reply_of sv generation batch) tab)
  landed_seed t tab [] h some_rows keys parts = absurd (some_rows refl)
  landed_seed t tab (y ∷ ys) h some_rows keys parts =
      let (before, z, split, key) = concat_last o sv.index y ys in
      let (next, z_key) =
        (All-append_right (HasKey sv) before (z ∷ []) (subst (All (HasKey sv)) split keys)).0 in
      let (tails, pending, rows) = land-seed sv generation tab y ys next h (key ∙ z_key) in
      record {
        shown = y ∷ ys;
        older = before;
        r = z;
        last = next;
        tails = tails;
        settled = pending;
        on_screen = rows;
        ends = split;
        cursor = z_key;
        parts =
            parts
            ∙ ap (λ rs. take (length (view sv t) - tail_seed) (view sv t) ++ rs)
                (sym (append-nil (y ∷ ys)));
      }

  newest_some : (rows : List Row) → rows ≢ [] → newest tail_seed rows ≢ []
  newest_some [] h e = h e
  newest_some (x ∷ xs) h e =
      let n = ap length e in
      absurd (omega (arith, length-drop (length (x ∷ xs) - tail_seed) (x ∷ xs)))

  pub seed-Shown :
      (t : sv.Table) (tab : Tab)
      → Tails sv generation tab none
      → view sv t ≢ []
      → IsKeyed sv t
      → Shown sv generation t
          (take (length (view sv t) - tail_seed) (view sv t))
          []
          (poll sv generation t tab)
  unfolding poll
  seed-Shown t tab h some_rows keyed =
      let k = length (view sv t) - tail_seed in
      let parts : view sv t ≡ take k (view sv t) ++ newest tail_seed (view sv t) =
        sym (take-drop k (view sv t)) in
      let keys =
        All-append_right (HasKey sv) (take k (view sv t)) _
          (subst (All (HasKey sv)) parts (keys-view sv t keyed)) in
      rw (request-Tails sv generation tab none h, seeds sv t keyed)
        (landed_seed t tab (newest tail_seed (view sv t)) h (newest_some (view sv t) some_rows) keys
          parts)

  polls-Shown :
      (t : sv.Table) (ts : List sv.Table) (front back : List Row) (tab : Tab)
      → Shown sv generation t front back tab
      → Chain t ts
      → All (IsKeyed sv) ts
      → (behind : List Row) × Shown sv generation
          (last_of t ts)
          front
          behind
          (polls sv generation ts tab)
  unfolding polls
  polls-Shown t [] front back tab h c k = (back, h)
  polls-Shown t (u ∷ us) front back tab h c k =
      polls-Shown u us front (drop q.limit (back ++ c.0.new)) (poll sv generation u tab)
        (poll-Shown sv generation u front (back ++ c.0.new) tab
          (Shown-Grows sv generation t u front back tab h c.0) k.0)
        c.1 k.1

  nil_of_length : (rows : List Row) → length rows ≤ 0 → rows ≡ []
  nil_of_length [] h = refl
  nil_of_length (x ∷ xs) h = absurd (omega arith)

  one_round : (l n m : ℕ) → l ≤ suc n * m → l - m ≤ n * m
  one_round l n m h = grind arith

  -- Without new rows the backlog is worked off, a batch at a time.
  repeat-Shown :
      (n : ℕ) (t : sv.Table) (front back : List Row) (tab : Tab)
      → Shown sv generation t front back tab
      → IsKeyed sv t
      → length back ≤ n * q.limit
      → Shown sv generation t front [] (polls sv generation (repeat n t) tab)
  unfolding polls
  repeat-Shown zero t front back tab h k few =
      let e : back ≡ [] = nil_of_length back (omega arith) in
      subst (λ b. Shown sv generation t front b tab) e h
  repeat-Shown (suc n) t front back tab h k few =
      let left = poll-Shown sv generation t front back tab h k in
      let fewer : length (drop q.limit back) ≤ n * q.limit =
        let m = one_round (length back) n q.limit few in omega (arith, length-drop q.limit back) in
      repeat-Shown n t front (drop q.limit back) (poll sv generation t tab) left k fewer

  polls-append :
      (ts us : List sv.Table) (tab : Tab)
      → polls sv generation (ts ++ us) tab ≡ polls sv generation us (polls sv generation ts tab)
  unfolding polls
  polls-append [] us tab = refl
  polls-append (t ∷ ts) us tab = polls-append ts us (poll sv generation t tab)

  behind_few :
      (u : sv.Table) (front behind : List Row) (tab : Tab) (n : ℕ)
      → Shown sv generation u front behind tab
      → length (view sv u) ≤ n * q.limit
      → length behind ≤ n * q.limit
  behind_few u front behind tab n h enough =
      let whole = ap length h.parts in
      omega (arith, length-append front (h.shown ++ behind), length-append h.shown behind)

  last_of-IsKeyed :
      (t : sv.Table) (ts : List sv.Table)
      → IsKeyed sv t
      → All (IsKeyed sv) ts
      → IsKeyed sv (last_of t ts)
  last_of-IsKeyed t [] k ks = k
  last_of-IsKeyed t (u ∷ us) k ks = last_of-IsKeyed u us ks.0 ks.1

  Shown-view :
      (t : sv.Table) (front : List Row) (tab : Tab)
      → Shown sv generation t front [] tab
      → view sv t ≡ front ++ reverse tab.rows
  Shown-view t front tab h =
      h.parts
      ∙ ap (λ rs. front ++ rs)
          (append-nil h.shown ∙ sym (reverse-reverse h.shown) ∙ ap reverse (sym h.on_screen))

  -- Let the server answer a SELECT as SQL says, the name of the key being plain, and let the keys of
  -- the rows be integers that are not negative, all distinct. Let each poll of a tail without a cap
  -- land before the next is asked, let the table have a row at the first, and grow between the polls
  -- only by rows with greater keys. When it has stopped growing, and as many polls have followed as
  -- its rows need at `limit` rows each, the grid holds all its rows from the seed on, each once and
  -- in order: those of the first table but its newest 20 come before them.
  pub polls-catch_up :
      (t : sv.Table) (ts : List sv.Table) (n : ℕ) (tab : Tab)
      → Tails sv generation tab none
      → view sv t ≢ []
      → IsKeyed sv t
      → Chain t ts
      → All (IsKeyed sv) ts
      → length (view sv (last_of t ts)) ≤ n * q.limit
      → view sv (last_of t ts)
        ≡ take (length (view sv t) - tail_seed) (view sv t)
          ++ reverse (polls sv generation ((t ∷ ts) ++ repeat n (last_of t ts)) tab).rows
  unfolding polls
  polls-catch_up t ts n tab h some_rows keyed chain all_keyed enough =
      let u = last_of t ts in
      let front = take (length (view sv t) - tail_seed) (view sv t) in
      let seeded = seed-Shown t tab h some_rows keyed in
      let (behind, grown) =
        polls-Shown t ts front [] (poll sv generation t tab) seeded chain all_keyed in
      let tab' = polls sv generation ts (poll sv generation t tab) in
      let few : length behind ≤ n * q.limit = behind_few u front behind tab' n grown enough in
      let caught =
        repeat-Shown n u front behind tab' grown (last_of-IsKeyed t ts keyed all_keyed) few in
      let ran : polls sv generation ((t ∷ ts) ++ repeat n u) tab
          ≡ polls sv generation (repeat n u) tab' =
        polls-append (t ∷ ts) (repeat n u) tab in
      Shown-view u front (polls sv generation ((t ∷ ts) ++ repeat n u) tab)
        (subst (Shown sv generation u front []) (sym ran) caught)
