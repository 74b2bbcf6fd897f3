-- ===== src/Tests/Pages.antt =====
-- Pages of users: three users in pages of two, in the order of the code points of their identifiers.
use mathlib.Core.List.{head-eq_of_cons-eq, tail-eq_of_cons-eq}
use Prim.Native.String.{String as Text}
use text.Mathlib.TextEquality.{Char-path}
use governor_api.Prelude.{
  ℕ, inl, inr, Bool-cases, String, ◌≡◌, ◌≢◌, refl, ◌↔◌, Bool, true, false, some, List, [], ◌∷◌,
  Memᴰ, any, any_iff, length, codes, ltb, nat_eq, ◌==◌, eq_iff, arith, if◌then◌else◌,
}
use governor_api.Db.{User}
use governor_api.Pagination.{
  PaginationParams, Query, parse_pagination, parse_limit, parse_sort, get_query, equal_fold, column,
  Page, list_users, is_keyword, order_by, before_by,
}
use governor_api.Pagination.Back.{Returns, back_to_page}
use governor_api.Pagination.Walk.{walk_pages, walk_pages_all}
use governor_api.Pagination.Cursor.{Listing, after_cursor, orders}
use governor_api.Pagination.Parse.{IsValid, parse_pagination-IsValid}
use governor_api.Pagination.Sorted.{IsOrder, IsSorted}
use governor_api.Tests.Sample.{ann}

abbrev code_less : List ℕ → List ℕ → Bool
code_less [] [] = false
code_less [] (d ∷ ds) = true
code_less (c ∷ cs) [] = false
code_less (c ∷ cs) (d ∷ ds) =
    let rest = code_less cs ds in if ltb c d then true else if nat_eq c d then rest else false

code_less_irrefl : (cs : List ℕ) → code_less cs cs ≡ false
code_less_irrefl [] = refl
code_less_irrefl (c ∷ cs) = ground (arith, code_less_irrefl cs)

code_less_trans :
    (cs ds es : List ℕ) → code_less cs ds ≡ true → code_less ds es ≡ true → code_less cs es ≡ true
code_less_trans [] [] es p q = q
code_less_trans [] (d ∷ ds) [] p q = q
code_less_trans [] (d ∷ ds) (e ∷ es) p q = refl
code_less_trans (c ∷ cs) [] es p q = cc
code_less_trans (c ∷ cs) (d ∷ ds) [] p q = q
code_less_trans (c ∷ cs) (d ∷ ds) (e ∷ es) p q = ground (arith, code_less_trans cs ds es)

code_less_total : (cs ds : List ℕ) → cs ≢ ds → code_less cs ds ≡ false → code_less ds cs ≡ true
code_less_total [] [] apart p = absurd (apart refl)
code_less_total [] (d ∷ ds) apart p = cc
code_less_total (c ∷ cs) [] apart p = refl
code_less_total (c ∷ cs) (d ∷ ds) apart p = elim (Bool-cases (nat_eq c d)) [
  | inl hit ↦
      let same : c ≡ d = ground (arith, hit) in
      let rest : code_less cs ds ≡ false = ground (arith, p, hit) in
      let deeper = code_less_total cs ds (λ e. apart (cc (same, e))) rest in
      ground (arith, deeper, hit)
  | inr miss ↦ ground (arith, p, miss)
]

codes-inj : (s t : String) → codes s ≡ codes t → s ≡ t
codes-inj Text.[] Text.[] e = refl
codes-inj Text.[] (Text.◌∷◌ d ds) e = cc
codes-inj (Text.◌∷◌ c cs) Text.[] e = cc
codes-inj (Text.◌∷◌ c cs) (Text.◌∷◌ d ds) e =
    cc (Char-path c d (head-eq_of_cons-eq e), codes-inj cs ds (tail-eq_of_cons-eq e))

abbrev text_less : String → String → Bool
text_less s t = code_less (codes s) (codes t)

text_less-IsOrder : IsOrder text_less
text_less-IsOrder = record {
  irrefl = λ s. code_less_irrefl (codes s);
  trans = λ s t u. code_less_trans (codes s) (codes t) (codes u);
  total = λ s t apart. code_less_total (codes s) (codes t) (λ e. apart (codes-inj s t e));
}

abbrev user_of : String → User
user_of id = record ann { id = id }

abbrev trio : List User
trio = user_of "b" ∷ user_of "a" ∷ user_of "c" ∷ []

apart_from :
    (s : String) (xs : List User)
    → any (λ u. u.id == s) xs ≡ false
    → (y : User) → Memᴰ y xs
    → y.id ≢ s
apart_from s xs none_is y m e =
    cc ((any_iff (λ u. u.id == s) xs).1 (y, m, (eq_iff y.id s).1 e), none_is)

id_column : column "id" ≡ some (λ (u : User). u.id)
unfolding column equal_fold
id_column = refl

id_plain : equal_fold "id" "email" ≡ false
unfolding equal_fold
id_plain = refl

abbrev by_id : Listing
by_id = record {
  less = text_less;
  lower = λ s. s;
  order = text_less-IsOrder;
  limit = 2;
  positive = omega arith;
  sort_by = "id";
  key = λ u. u.id;
  ascending = true;
  selected = trio;
  of_column = id_column;
  plain = id_plain;
  keys = (
    apart_from "b" (user_of "a" ∷ user_of "c" ∷ []) refl,
    (apart_from "a" (user_of "c" ∷ []) refl, (apart_from "c" [] refl, tt)),
  );
  full = apart_from "" trio refl;
}

walk_pages_all_example :
    (rows : List User) × (walk_pages text_less (λ s. s) 4 2 "id" true "" trio ≡ some rows)
    × IsSorted (λ u. u.id) (before_by text_less (λ s. s) true (λ u. u.id)) (orders by_id) rows
    × (length rows ≡ 3)
    × ((u : User) → Memᴰ u rows ↔ Memᴰ u trio)
walk_pages_all_example = walk_pages_all by_id

abbrev last_page : Query
last_page = ("last", "") ∷ ("limit", "5000") ∷ []

abbrev last_params : PaginationParams
last_params = record {
  limit = 1000;
  last = true;
  next_cursor = "";
  prev_cursor = "";
  sort_by = "id";
  sort_order = "desc";
}

last_parsed : parse_pagination last_page ≡ some last_params
unfolding parse_pagination parse_limit parse_sort get_query
last_parsed = refl

parse_pagination-IsValid_example : IsValid last_params
parse_pagination-IsValid_example = parse_pagination-IsValid last_page last_params last_parsed

abbrev first : Page
first = record { records = user_of "a" ∷ user_of "b" ∷ []; next_cursor = "b"; prev_cursor = "" }

first_page : list_users text_less (λ s. s) (after_cursor 2 "id" true "") trio ≡ some first
unfolding list_users column equal_fold is_keyword order_by
first_page = refl

b-full : ◌≢◌ {A = String} "b" ""
b-full = ground (arith, eq_iff "b" "")

back_to_page_example : Returns by_id first
back_to_page_example = back_to_page by_id "" first (inl refl) first_page b-full

-- The order is turned around to ascending where it is spelled in capitals.
capitals :
    parse_pagination (("last", "") ∷ ("sort_by", "id") ∷ ("sort_order", "ASC") ∷ [])
    ≡ some (record last_params { limit = 100; sort_order = "asc" })
unfolding parse_pagination parse_limit parse_sort get_query equal_fold
capitals = refl
