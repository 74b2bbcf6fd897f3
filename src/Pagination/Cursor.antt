-- ===== src/Pagination/Cursor.antt =====
-- What a cursor stands for, and the page that follows it.
use mathlib.Core.List.{append_assoc}
use mathlib.Core.List.Memᴰ
use governor_api.Prelude.{
  ℕ, suc, ◌≤◌, ◌<◌, String, ◌≡◌, ◌≢◌, refl, sym, ap, subst, ◌∙◌, ◌⊎◌, inl, inr, Bool, true, false,
  some, List, [], ◌∷◌, ◌++◌, Memᴰ, filter, length, HasDistinct, Bool-cases, Option-cases, ◌==◌,
  eq_iff, nat_eq, ltb, arith,
}
use governor_api.Db.{User}
use governor_api.Pagination.{
  PaginationParams, Page, asc, desc, equal_fold, is_keyword, column, order_by, before_by,
  cursor_clause, next_cursor_of, rows_of, page_of, list_users,
}
use governor_api.Pagination.Slices.{
  take, drop, last_of, take-drop, take-all, take-take, length-take, last-cases,
}
use governor_api.Pagination.Sorted.{
  IsOrder, Orders, before_by-Orders, IsSorted, order_by-IsSorted, mem-order_by, filter-order_by,
  filter-after, filter_ext, filter_all,
}

abbrev pub order_text : Bool → String
order_text true = asc
order_text false = desc

-- The parameters of a page after a cursor, or of the first page.
abbrev pub after_cursor : ℕ → String → Bool → String → PaginationParams
after_cursor limit sort_by ascending cursor = record {
  limit = limit;
  last = false;
  next_cursor = cursor;
  prev_cursor = "";
  sort_by = sort_by;
  sort_order = order_text ascending;
}

pub list_users-page :
    (less : String → String → Bool) (lower : String → String) (p : PaginationParams)
    (key : User → String) (ascending : Bool) (selected : List User)
    → column p.sort_by ≡ some key
    → p.sort_order ≡ order_text ascending
    → list_users less lower p selected
      ≡ some (page_of less lower p key (rows_of less lower p key ascending selected))
unfolding list_users is_keyword
list_users-page less lower p key true selected of_column order =
    rw (of_column, order, list_users) refl
list_users-page less lower p key false selected of_column order =
    rw (of_column, order, list_users) refl

pub fold-asc : equal_fold asc asc ≡ true
unfolding equal_fold
fold-asc = refl

pub fold-desc : equal_fold asc desc ≡ false
unfolding equal_fold
fold-desc = refl

pub full-text : (s : String) → s ≢ "" → (s == "") ≡ false
full-text s full = elim (Bool-cases (s == "")) [
  | inl empty ↦ absurd (full ((eq_iff s "").0 empty))
  | inr test ↦ test
]

pub clause-after :
    (less : String → String → Bool) (lower : String → String) (limit : ℕ) (sort_by : String)
    (key : User → String) (ascending : Bool) (l u : User)
    → equal_fold sort_by "email" ≡ false
    → key l ≢ ""
    → cursor_clause less lower (after_cursor limit sort_by ascending (key l)) key u
      ≡ before_by less lower ascending key l u
clause-after less lower limit sort_by key true l u plain full =
    rw (full-text (key l) full, plain, fold-asc, cursor_clause) refl
clause-after less lower limit sort_by key false l u plain full =
    rw (full-text (key l) full, plain, fold-desc, cursor_clause) refl

-- A listing by a column, other than the email, that is a key of the selected rows and never empty, in
-- one direction, with the order of texts in the database.
pub record Listing : Type 0 where
  pub less : String → String → Bool
  pub lower : String → String
  pub order : IsOrder less
  pub limit : ℕ
  pub positive : 1 ≤ limit
  pub sort_by : String
  pub key : User → String
  pub ascending : Bool
  pub selected : List User
  pub of_column : column sort_by ≡ some key
  pub plain : equal_fold sort_by "email" ≡ false
  pub keys : HasDistinct key selected
  pub full : (u : User) → Memᴰ u selected → key u ≢ ""

module _ (q : Listing) where
  abbrev pub sorted_rows : List User
  sorted_rows = order_by (before_by q.less q.lower q.ascending q.key) q.selected

  -- A cursor is the key of the last row before those that are left.
  abbrev pub Passed : String → List User → Type 0
  Passed cursor rest =
      (front : List User) × ((l : User) × (cursor ≡ q.key l)
        × (sorted_rows ≡ (front ++ l ∷ []) ++ rest))

  abbrev pub At : String → List User → Type 0
  At cursor rest = (cursor ≡ "") × (sorted_rows ≡ rest) ⊎ Passed cursor rest

  abbrev pub orders : Orders q.key (before_by q.less q.lower q.ascending q.key)
  orders = before_by-Orders q.less q.lower q.ascending q.key q.order

  abbrev pub sorted : IsSorted q.key (before_by q.less q.lower q.ascending q.key) orders sorted_rows
  sorted =
      order_by-IsSorted q.key (before_by q.less q.lower q.ascending q.key) orders q.selected q.keys

  -- A row of the query has a q.key that is not empty.
  pub listed-full :
      (front rest : List User) (l : User) → sorted_rows ≡ (front ++ l ∷ []) ++ rest → q.key l ≢ ""
  listed-full front rest l is =
      let listed =
        subst (Memᴰ l) (sym is)
          (Memᴰ.append_left rest (Memᴰ.append_right front (Memᴰ.head refl))) in
      q.full l
        (mem-order_by q.key (before_by q.less q.lower q.ascending q.key) orders l q.selected listed)

  pub filtered :
      (cursor : String) (rest : List User)
      → At cursor rest
      → filter
          (cursor_clause q.less q.lower (after_cursor q.limit q.sort_by q.ascending cursor) q.key)
          sorted_rows
        ≡ rest
  filtered cursor rest (inl (none_yet, is)) =
      filter_all _ sorted_rows (λ u _. rw none_yet refl) ∙ is
  filtered cursor rest (inr (front, (l, at, is))) =
      let before = before_by q.less q.lower q.ascending q.key in
      let given = listed-full front rest l is in
      rw at (
        filter_ext _ (before l) sorted_rows
          (λ u. clause-after q.less q.lower q.limit q.sort_by q.key q.ascending l u q.plain given))
      ∙ ap (filter (before l)) is
      ∙ filter-after q.key before orders front rest l
          (subst (IsSorted q.key before orders) is sorted)

  pub rows_of-after :
      (cursor : String) (rest : List User)
      → At cursor rest
      → rows_of q.less q.lower
          (after_cursor q.limit q.sort_by q.ascending cursor)
          q.key
          q.ascending
          q.selected
        ≡ take (suc q.limit) rest
  rows_of-after cursor rest at = ap (take (suc q.limit)) (
      filter-order_by q.key (before_by q.less q.lower q.ascending q.key) orders
        (cursor_clause q.less q.lower (after_cursor q.limit q.sort_by q.ascending cursor) q.key)
        q.selected q.keys
      ∙ filtered cursor rest at)

  -- The rest, and no cursor; or as many rows as the q.limit, and the q.key of the last of them.
  abbrev pub Answers : List User → Page → Type 0
  Answers rest page =
      (page.records ≡ rest) × (page.next_cursor ≡ "")
      ⊎ ((front : List User) × ((l : User) × (take q.limit rest ≡ front ++ l ∷ [])
            × (q.limit < length rest)
            × (page.records ≡ take q.limit rest)
            × (page.next_cursor ≡ q.key l)))

  next_is :
      (cursor : String) (l : User) (records : List User)
      → last_of records ≡ some l
      → next_cursor_of (after_cursor q.limit q.sort_by q.ascending cursor) q.key records true
        ≡ q.key l
  next_is cursor l records last = elim (Bool-cases (cursor == "")) [
    | inl empty ↦ rw (last, empty, next_cursor_of) refl
    | inr given ↦ rw (last, given, next_cursor_of) refl
  ]

  next_none :
      (cursor : String) (records : List User)
      → next_cursor_of (after_cursor q.limit q.sort_by q.ascending cursor) q.key records false ≡ ""
  next_none cursor records = elim (Option-cases (last_of records)) [
    | inl none_left ↦ rw (none_left, next_cursor_of) refl
    | inr (l, last) ↦ elim (Bool-cases (cursor == "")) [
      | inl empty ↦ rw (last, empty, next_cursor_of) refl
      | inr given ↦ rw (last, given, next_cursor_of) refl
    ]
  ]

  pub page_of-Answers :
      (cursor : String) (rest : List User)
      → Answers rest (
          page_of q.less q.lower
            (after_cursor q.limit q.sort_by q.ascending cursor)
            q.key
            (take (suc q.limit) rest))
  page_of-Answers cursor rest = elim (Bool-cases (ltb q.limit (length rest))) [
    | inl more ↦
        let is_more : nat_eq (length (take (suc q.limit) rest)) (suc q.limit) ≡ true =
          ground (arith, length-take (suc q.limit) rest (ground (arith, more))) in
        elim (last-cases (take q.limit rest)) [
          | inl (empty, _) ↦ absurd (
              omega (
                arith,
                q.positive,
                length-take q.limit rest (ground (arith, more)),
                ap length empty,
              ))
          | inr (front, (l, ends, last)) ↦ inr (
            front,
            (
              l,
              ends,
              ground (arith, more),
              rw is_more (take-take q.limit rest),
              rw (is_more, take-take q.limit rest) (next_is cursor l (take q.limit rest) last),
            ),
          )
        ]
    | inr last ↦
        let whole : take (suc q.limit) rest ≡ rest =
          take-all (suc q.limit) rest (ground (arith, last)) in
        let no_more : nat_eq (length (take (suc q.limit) rest)) (suc q.limit) ≡ false =
          ground (arith, ap length whole, last) in
        inl (rw no_more whole, rw (no_more, whole) (next_none cursor rest))
  ]

  -- The next cursor stands before the rows that the page leaves.
  pub At-next :
      (cursor : String) (rest front : List User) (l : User)
      → At cursor rest
      → take q.limit rest ≡ front ++ l ∷ []
      → Passed (q.key l) (drop q.limit rest)
  At-next cursor rest front l (inl (_, is)) ends =
      (front, (l, refl, is ∙ sym (take-drop q.limit rest) ∙ ap (λ r. r ++ drop q.limit rest) ends))
  At-next cursor rest front l (inr (done, (last, _, is))) ends = (
    (done ++ last ∷ []) ++ front,
    (
      l,
      refl,
      is
          ∙ ap (λ r. (done ++ last ∷ []) ++ r)
              (sym (take-drop q.limit rest) ∙ ap (λ r. r ++ drop q.limit rest) ends)
          ∙ sym (append_assoc (done ++ last ∷ []) (front ++ l ∷ []) (drop q.limit rest))
          ∙ ap (λ r. r ++ drop q.limit rest)
              (sym (append_assoc (done ++ last ∷ []) front (l ∷ []))),
    ),
  )
