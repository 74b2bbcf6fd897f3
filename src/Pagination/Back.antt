-- ===== src/Pagination/Back.antt =====
-- Back from the next page: prev_cursor leads to the page before.
use mathlib.Core.List.Memᴰ
use mathlib.Core.List.{append_assoc, reverse, reverse-append, reverse-reverse}
use governor_api.Prelude.{
  eq_of_some, ℕ, zero, suc, ◌⊎◌, Memᴰ, ◌≤◌, String, ◌≡◌, ◌≢◌, refl, sym, ap, subst, ◌∙◌, inl, inr,
  Bool, true, false, not, some, List, [], ◌∷◌, ◌++◌, filter, filter-HasDistinct, length, nat_eq,
  ltb, Bool-cases, arith, if◌then◌else◌,
}
use governor_api.Db.{User}
use governor_api.Pagination.{
  PaginationParams, Page, turned, equal_fold, before_by, cursor_clause, prev_cursor_of, rows_of,
  page_of, list_users,
}
use governor_api.Pagination.Slices.{
  take, drop, first_of, take-drop, take-all, take-take, length-take, length-drop,
}
use governor_api.Pagination.Sorted.{
  before_by-Orders, IsSorted, filter-order_by, filter-before, filter_ext, order_by-mem,
}
use governor_api.Pagination.Reversed.{length-reverse, order_by-turned}
use governor_api.Pagination.Cursor.{
  Listing, order_text, after_cursor, list_users-page, full-text, fold-asc, fold-desc, listed-full,
  sorted_rows, orders, sorted, At, rows_of-after, Answers, page_of-Answers, At-next,
}

-- The parameters of a page before a cursor, as parsePagination turns the order around.
abbrev pub before_cursor : ℕ → String → Bool → String → PaginationParams
before_cursor limit sort_by ascending cursor = record {
  limit = limit;
  last = false;
  next_cursor = "";
  prev_cursor = cursor;
  sort_by = sort_by;
  sort_order = turned true (order_text ascending);
}

turned-order : (ascending : Bool) → turned true (order_text ascending) ≡ order_text (not ascending)
turned-order true = refl
turned-order false = refl

turns :
    (less : String → String → Bool) (lower : String → String) (ascending : Bool)
    (key : User → String) (x y : User)
    → before_by less lower (not ascending) key x y ≡ before_by less lower ascending key y x
turns less lower true key x y = refl
turns less lower false key x y = refl

clause-before :
    (less : String → String → Bool) (lower : String → String) (limit : ℕ) (sort_by : String)
    (key : User → String) (ascending : Bool) (f u : User)
    → equal_fold sort_by "email" ≡ false
    → key f ≢ ""
    → cursor_clause less lower (before_cursor limit sort_by ascending (key f)) key u
      ≡ before_by less lower ascending key u f
clause-before less lower limit sort_by key true f u plain full =
    rw (full-text (key f) full, plain, fold-desc, cursor_clause) refl
clause-before less lower limit sort_by key false f u plain full =
    rw (full-text (key f) full, plain, fold-asc, cursor_clause) refl

-- Of the rows that the query returns, at most as many as the limit are kept.
cut :
    (limit : ℕ) (xs : List User)
    → (if nat_eq (length (take (suc limit) xs)) (suc limit)
        then take limit (take (suc limit) xs)
        else take (suc limit) xs)
      ≡ take limit xs
cut limit xs = elim (Bool-cases (ltb limit (length xs))) [
  | inl more ↦
      let full : nat_eq (length (take (suc limit) xs)) (suc limit) ≡ true =
        ground (arith, length-take (suc limit) xs (ground (arith, more))) in
      rw full (take-take limit xs)
  | inr few ↦
      let whole = take-all (suc limit) xs (ground (arith, few)) in
      let short : nat_eq (length (take (suc limit) xs)) (suc limit) ≡ false =
        ground (arith, ap length whole, few) in
      rw short (whole ∙ sym (take-all limit xs (ground (arith, few))))
]

take-append : (xs ys : List User) (n : ℕ) → length xs ≡ n → take n (xs ++ ys) ≡ xs
take-append xs ys n e = subst (λ k. take k (xs ++ ys) ≡ xs) e (go xs)
  where
    go : (xs : List User) → take (length xs) (xs ++ ys) ≡ xs
    go [] = refl
    go (x ∷ xs) = ap (λ l. x ∷ l) (go xs)

nonempty : (xs : List User) → 1 ≤ length xs → (f : User) × ((back : List User) × (xs ≡ f ∷ back))
nonempty [] le = absurd (omega arith)
nonempty (x ∷ xs) le = (x, (xs, refl))

first-take : (n : ℕ) (x : User) (xs : List User) → 1 ≤ n → first_of (take n (x ∷ xs)) ≡ some x
first-take zero x xs le = absurd (omega arith)
first-take (suc n) x xs le = refl

-- From a page on to the next, and back by its previous cursor.
pub record Returns (q : Listing) (first : Page) : Type 0 where
  pub second : Page
  pub third : Page
  pub on :
      list_users q.less q.lower
        (after_cursor q.limit q.sort_by q.ascending first.next_cursor)
        q.selected
      ≡ some second
  pub back :
      list_users q.less q.lower
        (before_cursor q.limit q.sort_by q.ascending second.prev_cursor)
        q.selected
      ≡ some third
  pub same : third.records ≡ first.records

module _ (q : Listing) where
  first-full :
      (front back : List User) (f : User) → sorted_rows q ≡ front ++ f ∷ back → q.key f ≢ ""
  first-full front back f is =
      listed-full q front back f (is ∙ sym (append_assoc front (f ∷ []) back))

  rows_of-before :
      (front back : List User) (f : User)
      → sorted_rows q ≡ front ++ f ∷ back
      → rows_of q.less q.lower
          (before_cursor q.limit q.sort_by q.ascending (q.key f))
          q.key
          (not q.ascending)
          q.selected
        ≡ take (suc q.limit) (reverse front)
  rows_of-before front back f is =
      let before = before_by q.less q.lower q.ascending q.key in
      let other = before_by q.less q.lower (not q.ascending) q.key in
      let p =
        cursor_clause q.less q.lower (before_cursor q.limit q.sort_by q.ascending (q.key f))
          q.key in
      let flips = before_by-Orders q.less q.lower (not q.ascending) q.key q.order in
      ap (take (suc q.limit)) (
        order_by-turned q.key before other (orders q) flips (turns q.less q.lower q.ascending q.key)
          (filter p q.selected) (filter-HasDistinct q.key p q.selected q.keys)
        ∙ ap reverse (
            filter-order_by q.key before (orders q) p q.selected q.keys
            ∙ filter_ext p (λ u. before u f) (sorted_rows q)
                (λ u.
                  clause-before q.less q.lower q.limit q.sort_by q.key q.ascending f u q.plain
                    (first-full front back f is))
            ∙ ap (filter (λ u. before u f)) is
            ∙ filter-before q.key before (orders q) front back f
                (subst (IsSorted q.key before (orders q)) is (sorted q))))

  -- The page before a row has the rows before it, as many as the limit.
  page_before :
      (done page back : List User) (f : User)
      → sorted_rows q ≡ (done ++ page) ++ f ∷ back
      → length page ≡ q.limit
      → (third : Page) × (list_users q.less q.lower
            (before_cursor q.limit q.sort_by q.ascending (q.key f))
            q.selected
          ≡ some third)
        × (third.records ≡ page)
  page_before done page back f is size =
      let p = before_cursor q.limit q.sort_by q.ascending (q.key f) in
      let rows = take (suc q.limit) (reverse (done ++ page)) in
      (
        page_of q.less q.lower p q.key rows,
        list_users-page q.less q.lower p q.key (not q.ascending) q.selected q.of_column
              (turned-order q.ascending)
            ∙ ap (λ rows. some (page_of q.less q.lower p q.key rows))
                (rows_of-before (done ++ page) back f is),
        rw (full-text (q.key f) (first-full (done ++ page) back f is)) (
            ap reverse (
              cut q.limit (reverse (done ++ page))
              ∙ ap (take q.limit) (reverse-append done page)
              ∙ take-append (reverse page) (reverse done) q.limit (length-reverse page ∙ size))
            ∙ reverse-reverse page),
      )

  -- A page after a cursor starts with the first row that is left, whose key is its previous cursor.
  prev_cursor-after :
      (cursor : String) (back : List User) (f : User)
      → cursor ≢ ""
      → (page_of q.less q.lower
          (after_cursor q.limit q.sort_by q.ascending cursor)
          q.key
          (take (suc q.limit) (f ∷ back))).prev_cursor
        ≡ q.key f
  prev_cursor-after cursor back f given =
      rw
        (
          cut q.limit (f ∷ back),
          first-take q.limit f back q.positive,
          full-text cursor given,
          prev_cursor_of,
        )
        refl

  -- No cursor, or the key of a selected row.
  abbrev pub IsCursor : String → Type 0
  IsCursor cursor = (cursor ≡ "") ⊎ ((l : User) × Memᴰ l q.selected × (cursor ≡ q.key l))

  split_at :
      (l : User) (xs : List User)
      → Memᴰ l xs
      → (front : List User) × ((back : List User) × (xs ≡ (front ++ l ∷ []) ++ back))
  split_at l (x ∷ xs) (Memᴰ.head e) = ([], (xs, ap (λ z. z ∷ xs) (sym e)))
  split_at l (x ∷ xs) (Memᴰ.tail m) =
      let (front, (back, is)) = split_at l xs m in (x ∷ front, (back, ap (λ r. x ∷ r) is))
  split_at l [] m = absurd (Memᴰ.not-nil m)

  stands : (cursor : String) → IsCursor cursor → (rest : List User) × At q cursor rest
  stands cursor (inl none_yet) = (sorted_rows q, inl (none_yet, refl))
  stands cursor (inr (l, m, is)) =
      let before = before_by q.less q.lower q.ascending q.key in
      let listed = order_by-mem q.key before (orders q) l q.selected m in
      let (front, (back, split)) = split_at l (sorted_rows q) listed in
      (back, inr (front, (l, is, split)))

  list_users-page_after :
      (cursor : String) (rest : List User) (at : At q cursor rest)
      → list_users q.less q.lower (after_cursor q.limit q.sort_by q.ascending cursor) q.selected
        ≡ some (
            page_of q.less q.lower
              (after_cursor q.limit q.sort_by q.ascending cursor)
              q.key
              (take (suc q.limit) rest))
  list_users-page_after cursor rest at =
      let p = after_cursor q.limit q.sort_by q.ascending cursor in
      list_users-page q.less q.lower p q.key q.ascending q.selected q.of_column refl
      ∙ ap (λ rows. some (page_of q.less q.lower p q.key rows)) (rows_of-after q cursor rest at)

  -- The rows before those that are left.
  passed_rows :
      (cursor : String) (rest : List User)
      → At q cursor rest
      → (done : List User) × (sorted_rows q ≡ done ++ rest)
  passed_rows cursor rest (inl (_, is)) = ([], is)
  passed_rows cursor rest (inr (front, (l, _, is))) = (front ++ l ∷ [], is)

  -- The page that follows is not empty where there is a next cursor, so there is a way back.
  back_from :
      (cursor : String) (rest : List User) (at : At q cursor rest) (first : Page)
      → Answers q rest first
      → first.next_cursor ≢ ""
      → Returns q first
  back_from cursor rest at first (inl (_, ends)) more = absurd (more ends)
  back_from cursor rest at first (inr (front, (l, ends, longer, records, next))) more =
      let (f, (back, left)) =
        nonempty (drop q.limit rest) (omega (arith, length-drop q.limit rest, longer)) in
      let on_way =
        list_users-page_after (q.key l) (drop q.limit rest)
          (inr (At-next q cursor rest front l at ends)) in
      let (done, is) = passed_rows cursor rest at in
      let split = sym (take-drop q.limit rest) ∙ ap (λ r. take q.limit rest ++ r) left in
      let (third, answer, same) =
        page_before done (take q.limit rest) back f
          (is ∙ ap (λ r. done ++ r) split ∙ sym (append_assoc done (take q.limit rest) (f ∷ back)))
          (length-take q.limit rest (omega (arith, longer))) in
      record {
        second =
            page_of q.less q.lower (after_cursor q.limit q.sort_by q.ascending (q.key l)) q.key
              (take (suc q.limit) (f ∷ back));
        third = third;
        on = rw next (
            on_way
            ∙ ap
                (λ r. some (
                  page_of q.less q.lower (after_cursor q.limit q.sort_by q.ascending (q.key l))
                    q.key (take (suc q.limit) r)))
                left);
        back = rw (prev_cursor-after (q.key l) back f (λ empty. more (next ∙ empty))) answer;
        same = same ∙ sym records;
      }

-- From any page that has a next cursor, where it was reached without a cursor or by the key of a
-- selected row, the next page has a previous cursor that leads back to exactly the rows of the page,
-- with the same limit, column and order.
pub back_to_page :
    (q : Listing) (cursor : String) (first : Page)
    → IsCursor q cursor
    → list_users q.less q.lower (after_cursor q.limit q.sort_by q.ascending cursor) q.selected
      ≡ some first
    → first.next_cursor ≢ ""
    → Returns q first
back_to_page q cursor first known answer more =
    let (rest, at) = stands q cursor known in
    let is = eq_of_some (sym (list_users-page_after q cursor rest at) ∙ answer) in
    back_from q cursor rest at first (subst (Answers q rest) is (page_of-Answers q cursor rest))
      more
