-- ===== src/Tail/Overlap.antt =====
-- What a tail shows when a poll is asked before the one before it has landed.
use mathlib.Core.List.{reverse}
use mathlib.Core.Path.{subst}
use ze_db.Prelude.{ℕ, ◌≡◌, ap, ◌∙◌, true, List, [], ◌∷◌, ◌++◌, none, some}
use ze_db.Prelude.Lists.{take, All, All-append_right}
use ze_db.Prelude.Text.{Text}
use ze_db.Tail.{Outside, TailQuery, Row}
use ze_db.Tail.Poll.{Tab, Request, poll_request, land}
use ze_db.Tail.Server.{Server, HasKey, IsKeyed}
use ze_db.Tail.Land.{
  concat_last, Tails, Shown, request, reply_of, request-Tails, land-nothing, land-behind,
}
use ze_db.Tail.Shown.{reply-behind, batch-HasKey}

module _ {o : Outside} {q : TailQuery} (sv : Server o q) (generation : ℕ) where
  lands_twice :
      (tab : Tab) (last : Text) (batch : List Row)
      → Tails sv generation tab (some last)
      → tab.pending ≡ none
      → All (HasKey sv) batch
      → let r = request sv generation (some last) in
        (land o r (reply_of sv generation batch) (land o r (reply_of sv generation batch) tab)).rows
        ≡ reverse batch ++ (reverse batch ++ tab.rows)
  lands_twice tab last [] h settled keys =
      let (tails, pending, rows) = land-nothing sv generation tab (some last) (some last) h in
      let tab' = land o (request sv generation (some last)) (reply_of sv generation []) tab in
      (land-nothing sv generation tab' (some last) (some last) tails).2 ∙ rows
  lands_twice tab last (y ∷ ys) h settled keys =
      let (before, z, split, key) = concat_last o sv.index y ys in
      let (next, z_key) =
        (All-append_right (HasKey sv) before (z ∷ []) (subst (All (HasKey sv)) split keys)).0 in
      let (tails, pending, rows) =
        land-behind sv generation tab last (some last) y ys next h settled (key ∙ z_key) in
      let tab' = land o (request sv generation (some last)) (reply_of sv generation (y ∷ ys)) tab in
      (land-behind sv generation tab' last (some next) y ys next tails pending (key ∙ z_key)).2
      ∙ ap (λ rs. reverse (y ∷ ys) ++ rs) rows

  -- Let a tail without a cap, whose seed has landed, show the rows up to its last key, and let the
  -- keys of the table be integers that are not negative, all distinct. If a poll is asked, and asked
  -- again before its reply has come, of a table that stays the same, then both are one query: when
  -- both replies have landed, the rows behind the last key, `limit` of them at most, are on the screen
  -- twice.
  pub overlap-Twice :
      (t : sv.Table) (front back : List Row) (tab : Tab)
      → Shown sv generation t front back tab
      → IsKeyed sv t
      → (r : Request) × (poll_request true generation tab ≡ some r)
        × ((land o r (sv.reply t r.sql) (land o r (sv.reply t r.sql) tab)).rows
            ≡ reverse (take q.limit back) ++ (reverse (take q.limit back) ++ tab.rows))
  overlap-Twice t front back tab h keyed =
      let keys = batch-HasKey sv generation t front back tab h keyed in
      (
        request sv generation (some h.last),
        request-Tails sv generation tab (some h.last) h.tails,
        rw (reply-behind sv generation t front back tab h keyed)
            (lands_twice tab h.last (take q.limit back) h.tails h.settled keys),
      )
