-- ===== src/Pagination/Parse.antt =====
-- What parsePagination promises of the parameters that it accepts.
use governor_api.Prelude.{
  ℕ, ◌≤◌, ℤ, pos, negsuc, String, ◌≡◌, refl, subst, ◌⊎◌, inl, inr, true, false, not, ◌&&◌, ◌||◌,
  some, eq_of_some, Bool-cases, Option-cases, parse_int, ◌==◌, eq_iff, arith,
}
use governor_api.Pagination.{
  Query, PaginationParams, max_pagination_size, asc, desc, get_query, has_query, or_empty, limit_of,
  parse_limit, parse_sort, turned, with_params, parse_pagination,
}

pub record IsValid (p : PaginationParams) : Type 0 where
  pub at_least_one : 1 ≤ p.limit
  pub at_most : p.limit ≤ max_pagination_size
  pub one_cursor : (p.next_cursor ≡ "") ⊎ (p.prev_cursor ≡ "")
  pub last_alone : p.last ≡ true → (p.next_cursor ≡ "") × (p.prev_cursor ≡ "")
  pub turned_order :
      (p.last || not (p.prev_cursor == "")) ≡ true → (p.sort_order ≡ asc) ⊎ (p.sort_order ≡ desc)

limit_of_bounds : (val : ℤ) → (1 ≤ limit_of val) × (limit_of val ≤ max_pagination_size)
limit_of_bounds (pos val) = ground arith
limit_of_bounds (negsuc val) = (omega arith, omega arith)

parse_limit_bounds :
    (query : Query) (limit : ℕ)
    → parse_limit query ≡ some limit
    → (1 ≤ limit) × (limit ≤ max_pagination_size)
unfolding parse_limit
parse_limit_bounds query limit e = elim (Option-cases (get_query "limit" query)) [
  | inl absent ↦
      let same : 100 ≡ limit = eq_of_some (rw (absent, parse_limit) at e) in
      (omega (arith, same), omega (arith, same))
  | inr (text, found) ↦ elim (Option-cases (parse_int text)) [
    | inl bad ↦ cc (rw (found, bad, parse_limit) at e)
    | inr (val, good) ↦
        let same : limit_of val ≡ limit = eq_of_some (rw (found, good, parse_limit) at e) in
        subst (λ n. (1 ≤ n) × (n ≤ max_pagination_size)) same (limit_of_bounds val)
  ]
]

turned-cases : (order : String) → (turned true order ≡ asc) ⊎ (turned true order ≡ desc)
turned-cases order = elim (Bool-cases (order == asc)) [
  | inl is_asc ↦ inr (rw is_asc refl)
  | inr other ↦ inl (rw other refl)
]

with_params-IsValid :
    (query : Query) (limit : ℕ) (sort_by sort_order : String) (p : PaginationParams)
    → (1 ≤ limit) × (limit ≤ max_pagination_size)
    → with_params query limit sort_by sort_order ≡ some p
    → IsValid p
with_params-IsValid query limit sort_by sort_order p bounds e =
    let last = has_query "last" query in
    let next = or_empty (get_query "next_cursor" query) in
    let prev = or_empty (get_query "prev_cursor" query) in
    elim (Bool-cases (last && (not (prev == "") || not (next == "")))) [
      | inl clash ↦ cc (rw clash at e)
      | inr alone ↦ elim (Bool-cases (not (prev == "") && not (next == ""))) [
        | inl clash ↦ cc (rw (alone, clash) at e)
        | inr one ↦ subst IsValid (eq_of_some (rw (alone, one) at e)) (record {
          at_least_one = bounds.0;
          at_most = bounds.1;
          one_cursor = one_of next prev one;
          last_alone = λ is_last.
              let n : (next == "") ≡ true = ground (arith, alone, is_last) in
              let v : (prev == "") ≡ true = ground (arith, alone, is_last) in
              ((eq_iff next "").0 n, (eq_iff prev "").0 v);
          turned_order = λ back. rw back (turned-cases sort_order);
        })
      ]
    ]
  where
    one_of :
        (next prev : String)
        → (not (prev == "") && not (next == "")) ≡ false
        → (next ≡ "") ⊎ (prev ≡ "")
    one_of next prev one = elim (Bool-cases (next == "")) [
      | inl empty ↦ inl ((eq_iff next "").0 empty)
      | inr full ↦ inr ((eq_iff prev "").0 (ground (arith, one, full)))
    ]

-- Parameters that parsePagination accepts have a limit of at least one and at most the maximal page
-- size, at most one cursor, and none for the last page; for the last page and for a previous one
-- the order is exactly asc or desc.
pub parse_pagination-IsValid :
    (query : Query) (p : PaginationParams) → parse_pagination query ≡ some p → IsValid p
unfolding parse_pagination
parse_pagination-IsValid query p e = elim (Option-cases (parse_limit query)) [
  | inl bad ↦ cc (rw (bad, parse_pagination) at e)
  | inr (limit, good) ↦ elim (Option-cases (parse_sort query)) [
    | inl bad ↦ cc (rw (good, bad, parse_pagination) at e)
    | inr ((sort_by, sort_order), sorted) ↦
        with_params-IsValid query limit sort_by sort_order p (parse_limit_bounds query limit good)
          (rw (good, sorted, parse_pagination) at e)
  ]
]
