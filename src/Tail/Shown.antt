-- ===== src/Tail/Shown.antt =====
-- What a tail shows when each poll lands before the next is asked.
use mathlib.Core.List.{reverse, reverse-append, append_assoc}
use mathlib.Core.Path.{subst}
use ze_db.Prelude.{ℕ, ◌≡◌, sym, ap, ◌∙◌, List, [], ◌∷◌, ◌++◌, some}
use ze_db.Prelude.Tests.{ltb}
use ze_db.Prelude.Lists.{take, drop, keep, All, All-append_left, All-append_right}
use ze_db.Tail.{Outside, TailQuery, Row, poll_sql}
use ze_db.Tail.Poll.{Tab, land}
use ze_db.Tail.Server.{
  Server, view, rank, HasKey, IsKeyed, Grows, keep-behind, polls-view, keys-view,
}
use ze_db.Tail.Sql.{Ascends}
use ze_db.Tail.Land.{
  take-drop, concat_last, poll, Shown, request, request-Tails, reply_of, land-nothing, land-behind,
}

module _ {o : Outside} {q : TailQuery} (sv : Server o q) (generation : ℕ) where
  -- What a batch adds to what is shown.
  land-Shown :
      (t : sv.Table) (front back : List Row) (tab : Tab) (batch behind : List Row)
      → (h : Shown sv generation t front back tab)
      → view sv t ≡ front ++ (h.shown ++ (batch ++ behind))
      → All (HasKey sv) batch
      → Shown sv generation t front behind
          (land o (request sv generation (some h.last)) (reply_of sv generation batch) tab)
  land-Shown t front back tab [] behind h parts keys =
      let (tails, pending, rows) =
        land-nothing sv generation tab (some h.last) (some h.last) h.tails in
      record {
        shown = h.shown;
        older = h.older;
        r = h.r;
        last = h.last;
        tails = tails;
        settled = pending ∙ h.settled;
        on_screen = rows ∙ h.on_screen;
        ends = h.ends;
        cursor = h.cursor;
        parts = parts;
      }
  land-Shown t front back tab (y ∷ ys) behind h parts keys =
      let (before, z, split, key) = concat_last o sv.index y ys in
      let (next, z_key) =
        (All-append_right (HasKey sv) before (z ∷ []) (subst (All (HasKey sv)) split keys)).0 in
      let (tails, pending, rows) =
        land-behind sv generation tab h.last (some h.last) y ys next h.tails h.settled
          (key ∙ z_key) in
      record {
        shown = h.shown ++ y ∷ ys;
        older = h.shown ++ before;
        r = z;
        last = next;
        tails = tails;
        settled = pending;
        on_screen =
            rows
            ∙ ap (λ rs. reverse (y ∷ ys) ++ rs) h.on_screen
            ∙ sym (reverse-append h.shown (y ∷ ys));
        ends = ap (λ rs. h.shown ++ rs) split ∙ sym (append_assoc h.shown before (z ∷ []));
        cursor = z_key;
        parts = parts ∙ ap (λ rs. front ++ rs) (sym (append_assoc h.shown (y ∷ ys) behind));
      }

  -- What the table gains is behind.
  pub Shown-Grows :
      (t u : sv.Table) (front back : List Row) (tab : Tab)
      → Shown sv generation t front back tab
      → (g : Grows sv t u) → Shown sv generation u front (back ++ g.new) tab
  Shown-Grows t u front back tab h g = record {
    shown = h.shown;
    older = h.older;
    r = h.r;
    last = h.last;
    tails = h.tails;
    settled = h.settled;
    on_screen = h.on_screen;
    ends = h.ends;
    cursor = h.cursor;
    parts =
        g.added
        ∙ ap (λ rs. rs ++ g.new) h.parts
        ∙ append_assoc front (h.shown ++ back) g.new
        ∙ ap (λ rs. front ++ rs) (append_assoc h.shown back g.new);
  }

  module _ (t : sv.Table) (front back : List Row) (tab : Tab)
      (h : Shown sv generation t front back tab) (keyed : IsKeyed sv t) where
    at_cursor : view sv t ≡ (front ++ h.older) ++ h.r ∷ back
    at_cursor =
        h.parts
        ∙ ap (λ rs. front ++ (rs ++ back)) h.ends
        ∙ ap (λ rs. front ++ rs) (append_assoc h.older (h.r ∷ []) back)
        ∙ sym (append_assoc front h.older (h.r ∷ back))

    kept : keep (λ x. ltb (rank sv h.r) (rank sv x)) (view sv t) ≡ back
    kept =
        ap (λ rs. keep (λ x. ltb (rank sv h.r) (rank sv x)) rs) at_cursor
        ∙ keep-behind sv h.r (front ++ h.older) back
            (subst (Ascends (rank sv)) at_cursor keyed.ascends)

    -- A poll brings the oldest of the rows that are behind.
    pub reply-behind :
        sv.reply t (poll_sql q h.last q.limit) ≡ reply_of sv generation (take q.limit back)
    reply-behind =
        polls-view sv t keyed (front ++ h.older) back h.r h.last at_cursor h.cursor
        ∙ ap (λ rs. reply_of sv generation (take q.limit rs)) kept

    pub batch_parts : view sv t ≡ front ++ (h.shown ++ (take q.limit back ++ drop q.limit back))
    batch_parts = h.parts ∙ ap (λ rs. front ++ (h.shown ++ rs)) (sym (take-drop q.limit back))

    pub batch-HasKey : All (HasKey sv) (take q.limit back)
    batch-HasKey = All-append_left (HasKey sv) (take q.limit back) (drop q.limit back) (
        All-append_right (HasKey sv) h.shown _ (
          All-append_right (HasKey sv) front _
            (subst (All (HasKey sv)) batch_parts (keys-view sv t keyed))))

  -- A poll takes a batch off the rows that are behind.
  pub poll-Shown :
      (t : sv.Table) (front back : List Row) (tab : Tab)
      → Shown sv generation t front back tab
      → IsKeyed sv t
      → Shown sv generation t front (drop q.limit back) (poll sv generation t tab)
  unfolding poll
  poll-Shown t front back tab h keyed =
      rw
        (
          request-Tails sv generation tab (some h.last) h.tails,
          reply-behind t front back tab h keyed,
        )
        (land-Shown t front back tab (take q.limit back) (drop q.limit back) h
          (batch_parts t front back tab h keyed) (batch-HasKey t front back tab h keyed))
