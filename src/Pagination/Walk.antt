-- ===== src/Pagination/Walk.antt =====
-- Following next_cursor from the first page to the last.
use mathlib.Core.Option
use governor_api.Prelude.{
  ℕ, zero, suc, ◌<◌, String, ◌≡◌, refl, sym, ap, ◌∙◌, ◌↔◌, inl, inr, Bool, false, Option, none,
  some, List, ◌++◌, Memᴰ, length, ◌==◌, arith, if◌then◌else◌,
}
use governor_api.Db.{User}
use governor_api.Pagination.{Page, before_by, page_of, list_users}
use governor_api.Pagination.Slices.{take, drop, take-drop, length-drop}
use governor_api.Pagination.Sorted.{IsSorted, mem-order_by, order_by-mem, length-order_by}
use governor_api.Pagination.Cursor.{
  Listing, after_cursor, list_users-page, full-text, sorted_rows, orders, sorted, At, listed-full,
  rows_of-after, Answers, page_of-Answers, At-next,
}

module _ (less : String → String → Bool) (lower : String → String) where
  -- A client that asks for pages until there is no next cursor, at most so many times.
  abbrev pub walk_pages : ℕ → ℕ → String → Bool → String → List User → Option (List User)
  walk_pages zero limit sort_by ascending cursor selected = none
  walk_pages (suc n) limit sort_by ascending cursor selected =
      elim (list_users less lower (after_cursor limit sort_by ascending cursor) selected) [
        | none ↦ none
        | some page ↦
            let rest = walk_pages n limit sort_by ascending page.next_cursor selected in
            if page.next_cursor == ""
            then some page.records
            else Option.map (λ records. page.records ++ records) rest
      ]

walk_page :
    (q : Listing) (n : ℕ) (cursor : String) (rest : List User)
    → At q cursor rest
    → (page : Page)
    → list_users q.less q.lower (after_cursor q.limit q.sort_by q.ascending cursor) q.selected
      ≡ some page
    → Answers q rest page
    → ((next : String)
        → At q next (drop q.limit rest)
        → length (drop q.limit rest) < n
        → walk_pages q.less q.lower n q.limit q.sort_by q.ascending next q.selected
          ≡ some (drop q.limit rest))
    → length rest < suc n
    → walk_pages q.less q.lower (suc n) q.limit q.sort_by q.ascending cursor q.selected ≡ some rest
walk_page q n cursor rest at page answer (inl (records, ends)) deeper enough =
    rw (answer, ends, walk_pages) (ap some records)
walk_page q n cursor rest at page answer (inr (front, (l, split, more, records, next))) deeper
      enough =
    let (done, (last, is_last, is)) = At-next q cursor rest front l at split in
    let given : (q.key l == "") ≡ false =
      full-text (q.key l)
        (λ empty. listed-full q done (drop q.limit rest) last is (sym is_last ∙ empty)) in
    let goes_on =
      deeper (q.key l) (inr (done, (last, is_last, is)))
        (omega (arith, length-drop q.limit rest, q.positive, more, enough)) in
    rw (answer, next, given, goes_on, walk_pages)
      (ap (λ r. some (r ++ drop q.limit rest)) records ∙ ap some (take-drop q.limit rest))

walk_pages-rest :
    (q : Listing) (n : ℕ) (cursor : String) (rest : List User)
    → At q cursor rest
    → length rest < n
    → walk_pages q.less q.lower n q.limit q.sort_by q.ascending cursor q.selected ≡ some rest
walk_pages-rest q zero cursor rest at enough = absurd (omega arith)
walk_pages-rest q (suc n) cursor rest at enough =
    let p = after_cursor q.limit q.sort_by q.ascending cursor in
    let answer =
      list_users-page q.less q.lower p q.key q.ascending q.selected q.of_column refl
      ∙ ap (λ rows. some (page_of q.less q.lower p q.key rows)) (rows_of-after q cursor rest at) in
    walk_page q n cursor rest at (page_of q.less q.lower p q.key (take (suc q.limit) rest)) answer
      (page_of-Answers q cursor rest)
      (λ next after. walk_pages-rest q n next (drop q.limit rest) after) enough

-- A client that starts without a cursor and follows next_cursor until there is none gets every
-- selected row once, sorted by the column, and asks for at most one page more than there are rows:
-- for pages of at least one row, a column other than the email that is a key and never empty, and an
-- order of the database that is strict and total.
pub walk_pages_all :
    (q : Listing)
    → (rows : List User) × (walk_pages q.less q.lower
          (suc (length q.selected))
          q.limit
          q.sort_by
          q.ascending
          ""
          q.selected
        ≡ some rows)
      × IsSorted q.key (before_by q.less q.lower q.ascending q.key) (orders q) rows
      × (length rows ≡ length q.selected)
      × ((u : User) → Memᴰ u rows ↔ Memᴰ u q.selected)
walk_pages_all q =
    let before = before_by q.less q.lower q.ascending q.key in
    let same = length-order_by q.key before (orders q) q.selected in
    (
      sorted_rows q,
      walk_pages-rest q (suc (length q.selected)) "" (sorted_rows q) (inl (refl, refl))
          (omega (arith, same)),
      sorted q,
      same,
      λ u. (
        mem-order_by q.key before (orders q) u q.selected,
        order_by-mem q.key before (orders q) u q.selected,
      ),
    )
