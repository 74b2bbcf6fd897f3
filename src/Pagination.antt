-- ===== src/Pagination.antt =====
-- pkg/api/v1beta1: parsePagination and the cursors of pagination.go, and listUsers of users.go on the
-- rows that its filters select. The order of texts in the database, its LOWER and its answer to an
-- order other than asc or desc are not in the repository; the first two are arguments, and the last
-- is a failure.
mod Slices
pub mod Parse
pub mod Sorted
pub mod Cursor
pub mod Walk
pub mod Reversed
pub mod Back
use mathlib.Core.List.{reverse}
use governor_api.Prelude.{
  ℕ, suc, ◌+◌, ℤ, pos, negsuc, String, Bool, true, false, ◌&&◌, ◌||◌, not, Option, none, some, List,
  [], ◌∷◌, map, filter, length, ltb, leb, nat_eq, codes, parse_int, ◌==◌, if◌then◌else◌,
}
use governor_api.Db.{User}
use governor_api.Pagination.Slices.{take, last_of, first_of}

abbrev pub max_pagination_size : ℕ
max_pagination_size = 1000

abbrev pub default_pagination_size : ℕ
default_pagination_size = 100

abbrev pub desc : String
desc = "desc"

abbrev pub asc : String
asc = "asc"

pub record PaginationParams : Type 0 where
  pub limit : ℕ
  pub last : Bool
  pub next_cursor : String
  pub prev_cursor : String
  pub sort_by : String
  pub sort_order : String

-- The parameters of the URL, in their order.
abbrev pub Query : Type 0
Query = List (String × String)

-- c.GetQuery(key)
unfoldable pub get_query : String → Query → Option String
get_query key [] = none
get_query key ((k, value) ∷ rest) = if k == key then some value else get_query key rest

abbrev pub lower_char : ℕ → ℕ
lower_char c = if leb b'A' c && leb c b'Z' then c + 32 else c

-- strings.EqualFold, where one of the texts is ASCII: its folding of letters, with the long s and the
-- Kelvin sign.
abbrev pub fold_char : ℕ → ℕ
fold_char c =
    if leb b'A' c && leb c b'Z'
    then c + 32
    else (if nat_eq c 383 then b's' else (if nat_eq c 8490 then b'k' else c))

abbrev pub codes_equal : List ℕ → List ℕ → Bool
codes_equal [] [] = true
codes_equal [] (d ∷ ds) = false
codes_equal (c ∷ cs) [] = false
codes_equal (c ∷ cs) (d ∷ ds) = nat_eq c d && codes_equal cs ds

unfoldable pub equal_fold : String → String → Bool
equal_fold s t = codes_equal (map fold_char (codes s)) (map fold_char (codes t))

-- The keywords of the database are ASCII.
unfoldable pub is_keyword : String → String → Bool
is_keyword word text = codes_equal (map lower_char (codes text)) (codes word)

abbrev pub limit_of : ℤ → ℕ
limit_of (pos val) =
    if ltb max_pagination_size val
    then max_pagination_size
    else (if nat_eq val 0 then default_pagination_size else val)
limit_of (negsuc val) = default_pagination_size

unfoldable pub parse_limit : Query → Option ℕ
parse_limit query = elim (get_query "limit" query) [
  | none ↦ some default_pagination_size
  | some text ↦ elim (parse_int text) [ none ↦ none | some val ↦ some (limit_of val) ]
]

-- The column and the order.
unfoldable pub parse_sort : Query → Option (String × String)
parse_sort query = elim (get_query "sort_by" query) [
  | none ↦ some ("id", asc)
  | some sort_by ↦ elim (get_query "sort_order" query) [
    | none ↦ some (sort_by, asc)
    | some sort_order ↦
        if equal_fold sort_order asc && equal_fold sort_order desc
        then none
        else some (sort_by, sort_order)
  ]
]

abbrev pub or_empty : Option String → String
or_empty none = ""
or_empty (some text) = text

abbrev pub has_query : String → Query → Bool
has_query key query = elim (get_query key query) [ none ↦ false | some _ ↦ true ]

-- For the last page and for a previous one the order is turned around.
abbrev pub turned : Bool → String → String
turned backwards sort_order =
    if backwards then (if sort_order == asc then desc else asc) else sort_order

abbrev pub with_params : Query → ℕ → String → String → Option PaginationParams
with_params query limit sort_by sort_order =
    let last = has_query "last" query in
    let next_cursor = or_empty (get_query "next_cursor" query) in
    let prev_cursor = or_empty (get_query "prev_cursor" query) in
    if last && (not (prev_cursor == "") || not (next_cursor == ""))
    then none
    else (if not (prev_cursor == "") && not (next_cursor == "")
        then none
        else some (record {
          limit = limit;
          last = last;
          next_cursor = next_cursor;
          prev_cursor = prev_cursor;
          sort_by = sort_by;
          sort_order = turned (last || not (prev_cursor == "")) sort_order;
        }))

unfoldable pub parse_pagination : Query → Option PaginationParams
parse_pagination query = elim (parse_limit query) [
  | none ↦ none
  | some limit ↦ elim (parse_sort query) [
    | none ↦ none
    | some (sort_by, sort_order) ↦ with_params query limit sort_by sort_order
  ]
]

-- allowedSortCols, and the column that getStructValueByString reads.
unfoldable pub column : String → Option (User → String)
column sort_by =
    if equal_fold sort_by "name"
    then some (λ u. u.name)
    else (if equal_fold sort_by "email"
        then some (λ u. u.email)
        else (if equal_fold sort_by "id" then some (λ u. u.id) else none))

abbrev pub next_cursor_of : PaginationParams → (User → String) → List User → Bool → String
next_cursor_of p key records has_more_records = elim (last_of records) [
  | none ↦ ""
  | some last ↦
      if p.last
      then ""
      else (if not (p.next_cursor == "") && not has_more_records
          then ""
          else (if p.next_cursor == "" && p.prev_cursor == "" && not has_more_records
              then ""
              else key last))
]

abbrev pub prev_cursor_of : PaginationParams → (User → String) → List User → Bool → String
prev_cursor_of p key records has_more_records = elim (first_of records) [
  | none ↦ ""
  | some first ↦
      if (not (p.prev_cursor == "") || p.last) && not has_more_records
      then ""
      else (if p.prev_cursor == "" && p.next_cursor == "" && not p.last then "" else key first)
]

pub record Page : Type 0 where
  pub records : List User
  pub next_cursor : String
  pub prev_cursor : String

abbrev pub insert : (User → User → Bool) → User → List User → List User
insert before x [] = x ∷ []
insert before x (y ∷ ys) =
    let rest = insert before x ys in if before x y then x ∷ y ∷ ys else y ∷ rest

-- ORDER BY
unfoldable pub order_by : (User → User → Bool) → List User → List User
order_by before [] = []
order_by before (x ∷ xs) = insert before x (order_by before xs)

module _ (less : String → String → Bool) (lower : String → String) where
  abbrev pub before_by : Bool → (User → String) → User → User → Bool
  before_by ascending key x y = if ascending then less (key x) (key y) else less (key y) (key x)

  -- LOWER(…) on the column and the cursor, for the column email only
  abbrev pub formatted : String → String → String
  formatted sort_by text = if equal_fold sort_by "email" then lower text else text

  -- getCursorClause
  abbrev pub cursor_clause : PaginationParams → (User → String) → User → Bool
  cursor_clause p key u =
      let cursor = if p.next_cursor == "" then p.prev_cursor else p.next_cursor in
      let arg = formatted p.sort_by cursor in
      let value = formatted p.sort_by (key u) in
      if p.next_cursor == "" && p.prev_cursor == ""
      then true
      else (if equal_fold asc p.sort_order then less arg value else less value arg)

  abbrev pub backwards : PaginationParams → Bool
  backwards p = p.last || not (p.prev_cursor == "")

  -- The answer from the rows of the query, of which there is one more than the limit if there are more.
  abbrev pub page_of : PaginationParams → (User → String) → List User → Page
  page_of p key users =
      let has_more_records = nat_eq (length users) (suc p.limit) in
      let cut = if has_more_records then take p.limit users else users in
      let records = if backwards p then reverse cut else cut in
      record {
        records = records;
        next_cursor = next_cursor_of p key records has_more_records;
        prev_cursor = prev_cursor_of p key records has_more_records;
      }

  abbrev pub rows_of : PaginationParams → (User → String) → Bool → List User → List User
  rows_of p key ascending selected =
      take (suc p.limit)
        (order_by (before_by ascending key) (filter (cursor_clause p key) selected))

  unfoldable pub list_users : PaginationParams → List User → Option Page
  list_users p selected = elim (column p.sort_by) [
    | none ↦ none
    | some key ↦
        if is_keyword asc p.sort_order
        then some (page_of p key (rows_of p key true selected))
        else (if is_keyword desc p.sort_order
            then some (page_of p key (rows_of p key false selected))
            else none)
  ]
