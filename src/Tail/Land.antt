-- ===== src/Tail/Land.antt =====
-- What the reply to a poll does to the tab, and what a tail shows.
use mathlib.Core.List.{reverse, append-nil}
use ze_db.Prelude.{
  ℕ, zero, suc, ◌≡◌, refl, ap, true, List, [], ◌∷◌, ◌++◌, Option, none, some, arith,
}
use ze_db.Prelude.Tests.{◌==◌}
use ze_db.Prelude.Lists.{take, drop}
use ze_db.Prelude.Text.{Text}
use ze_db.Tail.{Outside, TailQuery, Row, row_key, last_key}
use ze_db.Tail.Poll.{
  TailState, Tab, Request, Reply, sql_of, is_none, poll_request, land, prepend_tail,
}
use ze_db.Tail.Server.{Server, view}

-- A list with a last element.
pub concat_last :
    (o : Outside) (index : ℕ) (x : Row) (xs : List Row)
    → (front : List Row) × (r : Row) × (x ∷ xs ≡ front ++ r ∷ [])
      × (last_key o index (x ∷ xs) ≡ row_key o index r)
unfolding last_key
concat_last o index x [] = ([], x, refl, refl)
concat_last o index x (y ∷ ys) =
    let (front, r, e, k) = concat_last o index y ys in (x ∷ front, r, ap (λ zs. x ∷ zs) e, k)

pub last_key-append :
    (o : Outside) (index : ℕ) (xs : List Row) (y : Row) (ys : List Row)
    → last_key o index (xs ++ y ∷ ys) ≡ last_key o index (y ∷ ys)
unfolding last_key
last_key-append o index [] y ys = refl
last_key-append o index (x ∷ []) y ys = refl
last_key-append o index (x ∷ x' ∷ xs) y ys = last_key-append o index (x' ∷ xs) y ys

pub take-drop {ℓ} : {A : Type ℓ} (n : ℕ) (xs : List A) → take n xs ++ drop n xs ≡ xs
take-drop zero xs = refl
take-drop (suc n) [] = refl
take-drop (suc n) (x ∷ xs) = ap (λ ys. x ∷ ys) (take-drop n xs)

module _ {o : Outside} {q : TailQuery} (sv : Server o q) (generation : ℕ) where
  -- One poll that lands before anything else happens.
  abbrev pub land_reply : sv.Table → Tab → Option Request → Tab
  land_reply t tab none = tab
  land_reply t tab (some r) = land o r (sv.reply t r.sql) tab

  unfoldable pub poll : sv.Table → Tab → Tab
  poll t tab = land_reply t tab (poll_request true generation tab)

  unfoldable pub polls : List sv.Table → Tab → Tab
  polls [] tab = tab
  polls (t ∷ ts) tab = polls ts (poll t tab)

  -- The tail's query and generation, without a cap, and its last key.
  pub record Tails (tab : Tab) (last : Option Text) : Type 0 where
    pub state : TailState
    pub tail : tab.tail ≡ some state
    pub query : state.query ≡ q
    pub current : state.generation ≡ generation
    pub uncapped : state.cap ≡ none
    pub key : state.last ≡ last

  -- The rows of the table are those older than the tail, those on the screen, and those behind.
  pub record Shown (t : sv.Table) (front back : List Row) (tab : Tab) : Type 0 where
    pub shown : List Row
    pub older : List Row
    pub r : Row
    pub last : Text
    pub tails : Tails tab (some last)
    pub settled : tab.pending ≡ none
    pub on_screen : tab.rows ≡ reverse shown
    pub ends : shown ≡ older ++ r ∷ []
    pub cursor : row_key o sv.index r ≡ some last
    pub parts : view sv t ≡ front ++ (shown ++ back)

  abbrev pub request : Option Text → Request
  request last = record {
    sql = sql_of q last;
    key = q.key;
    priming = is_none last;
    cap = none;
    generation = generation;
  }

  same_generation : (n : ℕ) → (n == n) ≡ true
  same_generation n = ground arith

  pub request-Tails :
      (tab : Tab) (last : Option Text)
      → Tails tab last
      → poll_request true generation tab ≡ some (request last)
  unfolding poll_request
  request-Tails tab last h =
      let s = h.state in
      let e : (s.generation == generation) ≡ true = ground (arith, h.current) in
      rw (h.tail, e) (simp (h.query, h.key, h.uncapped))

  abbrev pub reply_of : List Row → Reply
  reply_of rows = Reply.answered (record { columns = sv.columns; rows = rows })

  -- A reply without rows changes nothing that is shown.
  pub land-nothing :
      (tab : Tab) (last : Option Text) (r : Option Text)
      → Tails tab last
      → Tails (land o (request r) (reply_of []) tab) last
        × ((land o (request r) (reply_of []) tab).pending ≡ tab.pending)
        × ((land o (request r) (reply_of []) tab).rows ≡ tab.rows)
  unfolding land
  land-nothing tab last r h =
      let e : (h.state.generation == generation) ≡ true = ground (arith, h.current) in
      rw (h.tail, e)
        (
          record {
            state = record h.state { error = none };
            tail = refl;
            query = h.query;
            current = h.current;
            uncapped = h.uncapped;
            key = h.key;
          },
          refl,
          refl,
        )

  -- A batch behind a key goes in front of what is shown.
  pub land-behind :
      (tab : Tab) (asked : Text) (last : Option Text) (y : Row) (ys : List Row) (next : Text)
      → Tails tab last
      → tab.pending ≡ none
      → last_key o sv.index (y ∷ ys) ≡ some next
      → let tab' = land o (request (some asked)) (reply_of (y ∷ ys)) tab in
        Tails tab' (some next) × (tab'.pending ≡ none) × (tab'.rows ≡ reverse (y ∷ ys) ++ tab.rows)
  unfolding land prepend_tail
  land-behind tab asked last y ys next h settled k =
      let e : (h.state.generation == generation) ≡ true = ground (arith, h.current) in
      rw (h.tail, e, sv.key_column, k, settled)
        (
          record {
            state = record h.state { error = none; key_index = sv.index; last = some next };
            tail = refl;
            query = h.query;
            current = h.current;
            uncapped = h.uncapped;
            key = refl;
          },
          refl,
          refl,
        )

  -- The seed takes the place of what is shown.
  pub land-seed :
      (tab : Tab) (y : Row) (ys : List Row) (next : Text)
      → Tails tab none
      → last_key o sv.index (y ∷ ys) ≡ some next
      → let tab' = land o (request none) (reply_of (y ∷ ys)) tab in
        Tails tab' (some next) × (tab'.pending ≡ none) × (tab'.rows ≡ reverse (y ∷ ys))
  unfolding land prepend_tail
  land-seed tab y ys next h k =
      let e : (h.state.generation == generation) ≡ true = ground (arith, h.current) in
      rw (h.tail, e, sv.key_column, k)
        (
          record {
            state = record h.state { error = none; key_index = sv.index; last = some next };
            tail = refl;
            query = h.query;
            current = h.current;
            uncapped = h.uncapped;
            key = refl;
          },
          refl,
          append-nil (reverse (y ∷ ys)),
        )
