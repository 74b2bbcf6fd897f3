-- ===== src/Membership/Grouping.antt =====
-- GROUP BY: one row for each pair of a group and a user, with the aggregates of the rows of the pair.
use mathlib.Core.List.Memᴰ
use mathlib.Core.Option
use governor_api.Prelude.{
  String, ◌≡◌, refl, sym, ◌↔◌, ◌⊎◌, inl, inr, Bool, true, ◌||◌, Option, none, some, List, [], ◌∷◌,
  map, Memᴰ, arith, eq_iff, eq_refl, if◌then◌else◌, ap, Bool-cases, Option-cases,
}
use governor_api.Membership.{
  EnumeratedMembership, same_key, merge, add_to_group, group_rows, select_row, aggregate,
}

-- The row of a pair.
pub find_row : String → String → List EnumeratedMembership → Option EnumeratedMembership
find_row g u [] = none
find_row g u (row ∷ rows) = if same_key row g u then some row else find_row g u rows

-- What GROUP BY computes for a pair, by recursion on the rows.
abbrev pub merge_into : Option EnumeratedMembership → EnumeratedMembership → EnumeratedMembership
merge_into none row = row
merge_into (some g) row = merge g row

abbrev pub summary : String → String → List EnumeratedMembership → Option EnumeratedMembership
summary g u [] = none
summary g u (row ∷ rows) =
    let rest = summary g u rows in if same_key row g u then some (merge_into rest row) else rest

find_row-add_to_group :
    (row : EnumeratedMembership) (groups : List EnumeratedMembership) (g u : String)
    → find_row g u (add_to_group row groups) ≡ (
        if same_key row g u
        then some (merge_into (find_row g u groups) row)
        else find_row g u groups)
unfolding find_row add_to_group
find_row-add_to_group row [] g u = ground arith
find_row-add_to_group row (x ∷ groups) g u = ground (
  arith,
  find_row-add_to_group row groups g u,
  eq_iff x.group_id row.group_id,
  eq_iff x.user_id row.user_id,
  eq_iff x.group_id g,
  eq_iff x.user_id u,
  eq_iff row.group_id g,
  eq_iff row.user_id u,
)

find_row-group_rows :
    (rows : List EnumeratedMembership) (g u : String)
    → find_row g u (group_rows rows) ≡ summary g u rows
unfolding group_rows find_row
find_row-group_rows [] g u = refl
find_row-group_rows (row ∷ rows) g u =
    rw (find_row-add_to_group row (group_rows rows) g u, find_row-group_rows rows g u)

-- No pair has two rows.
abbrev pub HasUniqueKeys : List EnumeratedMembership → Type 0
HasUniqueKeys [] = Unit
HasUniqueKeys (row ∷ rows) = (find_row row.group_id row.user_id rows ≡ none) × HasUniqueKeys rows

add_to_group-HasUniqueKeys :
    (row : EnumeratedMembership) (groups : List EnumeratedMembership)
    → HasUniqueKeys groups
    → HasUniqueKeys (add_to_group row groups)
unfolding add_to_group find_row
add_to_group-HasUniqueKeys row [] h = (refl, tt)
add_to_group-HasUniqueKeys row (x ∷ groups) (new, h) =
    elim (Bool-cases (same_key x row.group_id row.user_id)) [
      | inl same ↦ rw same (new, h)
      | inr other ↦ rw other (
          (
            ground (
              arith,
              find_row-add_to_group row groups x.group_id x.user_id,
              eq_iff x.group_id row.group_id,
              eq_iff x.user_id row.user_id,
              eq_iff row.group_id x.group_id,
              eq_iff row.user_id x.user_id,
            ),
            add_to_group-HasUniqueKeys row groups h,
          ))
    ]

group_rows-HasUniqueKeys : (rows : List EnumeratedMembership) → HasUniqueKeys (group_rows rows)
unfolding group_rows
group_rows-HasUniqueKeys [] = tt
group_rows-HasUniqueKeys (row ∷ rows) =
    add_to_group-HasUniqueKeys row (group_rows rows) (group_rows-HasUniqueKeys rows)

find_row-select_row :
    (g u : String) (rows : List EnumeratedMembership)
    → find_row g u (map select_row rows) ≡ Option.map select_row (find_row g u rows)
unfolding find_row
find_row-select_row g u [] = refl
find_row-select_row g u (row ∷ rows) = ground (arith, find_row-select_row g u rows)

map-HasUniqueKeys :
    (rows : List EnumeratedMembership) → HasUniqueKeys rows → HasUniqueKeys (map select_row rows)
map-HasUniqueKeys [] h = tt
map-HasUniqueKeys (row ∷ rows) (new, h) =
    (ground (arith, find_row-select_row row.group_id row.user_id rows), map-HasUniqueKeys rows h)

pub aggregate-HasUniqueKeys : (rows : List EnumeratedMembership) → HasUniqueKeys (aggregate rows)
unfolding aggregate
aggregate-HasUniqueKeys rows = map-HasUniqueKeys (group_rows rows) (group_rows-HasUniqueKeys rows)

pub find_row-aggregate :
    (rows : List EnumeratedMembership) (g u : String)
    → find_row g u (aggregate rows) ≡ Option.map select_row (summary g u rows)
unfolding aggregate
find_row-aggregate rows g u =
    rw (find_row-select_row g u (group_rows rows), find_row-group_rows rows g u)

pub mem-find_row :
    (g u : String) (rows : List EnumeratedMembership) (row : EnumeratedMembership)
    → find_row g u rows ≡ some row
    → Memᴰ row rows × (row.group_id ≡ g) × (row.user_id ≡ u)
unfolding find_row
mem-find_row g u [] row e = cc
mem-find_row g u (x ∷ rows) row e = elim (Bool-cases (same_key x g u)) [
  | inl same ↦
      let here : x ≡ row = ground arith in
      (
        Memᴰ.head (sym here),
        ground (arith, eq_iff x.group_id g),
        ground (arith, eq_iff x.user_id u, eq_iff x.group_id g),
      )
  | inr other ↦ let (m, p, q) = mem-find_row g u rows row (rw other at e) in (Memᴰ.tail m, p, q)
]

pub find_row-mem :
    (rows : List EnumeratedMembership) (row : EnumeratedMembership)
    → HasUniqueKeys rows
    → Memᴰ row rows
    → find_row row.group_id row.user_id rows ≡ some row
unfolding find_row
find_row-mem [] row h m = absurd (Memᴰ.not-nil m)
find_row-mem (x ∷ rows) row (new, h) (Memᴰ.head e) =
    rw e (rw (eq_refl x.group_id, eq_refl x.user_id))
find_row-mem (x ∷ rows) row (new, h) (Memᴰ.tail m) =
    ground (
      arith,
      find_row-mem rows row h m,
      eq_iff x.group_id row.group_id,
      eq_iff x.user_id row.user_id,
    )

-- A row of the pair with the flag set.
abbrev pub Flagged :
    (EnumeratedMembership → Bool) → String → String → List EnumeratedMembership → Type 0
Flagged flag g u rows =
    (row : EnumeratedMembership) × Memᴰ row rows
    × (row.group_id ≡ g)
    × (row.user_id ≡ u)
    × (flag row ≡ true)

Flagged-cons :
    (flag : EnumeratedMembership → Bool) (g u : String) (x : EnumeratedMembership)
    (rows : List EnumeratedMembership)
    → Flagged flag g u rows
    → Flagged flag g u (x ∷ rows)
Flagged-cons flag g u x rows (r, m, p, q, f) = (r, Memᴰ.tail m, p, q, f)

same_key_iff :
    (row : EnumeratedMembership) (g u : String)
    → (same_key row g u ≡ true) ↔ ((row.group_id ≡ g) × (row.user_id ≡ u))
same_key_iff row g u = ground (arith, eq_iff row.group_id g, eq_iff row.user_id u)

-- A pair has a summary exactly if it has a row.
pub summary-some :
    (g u : String) (rows : List EnumeratedMembership) (s : EnumeratedMembership)
    → summary g u rows ≡ some s
    → Flagged (λ _. true) g u rows
summary-some g u [] s e = cc
summary-some g u (row ∷ rows) s e = elim (Bool-cases (same_key row g u)) [
  | inl same ↦ let (p, q) = (same_key_iff row g u).0 same in (row, Memᴰ.head refl, p, q, refl)
  | inr other ↦ Flagged-cons (λ _. true) g u row rows (summary-some g u rows s (rw other at e))
]

pub summary-mem :
    (rows : List EnumeratedMembership) (row : EnumeratedMembership)
    → Memᴰ row rows
    → (s : EnumeratedMembership) × (summary row.group_id row.user_id rows ≡ some s)
summary-mem [] row m = absurd (Memᴰ.not-nil m)
summary-mem (x ∷ rows) row (Memᴰ.head e) = (
  merge_into (summary row.group_id row.user_id rows) x,
  rw (
      (same_key_iff x row.group_id row.user_id).1
        (ap (λ r. r.group_id) (sym e), ap (λ r. r.user_id) (sym e))),
)
summary-mem (x ∷ rows) row (Memᴰ.tail m) =
    let (s, e) = summary-mem rows row m in
    elim (Bool-cases (same_key x row.group_id row.user_id)) [
      | inl same ↦ (merge s x, rw same (ap some (ap (λ o. merge_into o x) e)))
      | inr other ↦ (s, rw other e)
    ]

-- A flag that is aggregated by OR is set in the summary exactly if it is set in a row of the pair.
module _ (flag : EnumeratedMembership → Bool)
    (or : (a b : EnumeratedMembership) → flag (merge a b) ≡ flag a || flag b) where
  pub Flagged-summary :
      (g u : String) (rows : List EnumeratedMembership) (s : EnumeratedMembership)
      → summary g u rows ≡ some s
      → flag s ≡ true
      → Flagged flag g u rows
  Flagged-summary g u [] s e set = cc
  Flagged-summary g u (row ∷ rows) s e set = elim (Bool-cases (same_key row g u)) [
    | inr other ↦ Flagged-cons flag g u row rows (Flagged-summary g u rows s (rw other at e) set)
    | inl same ↦ elim (Bool-cases (flag row)) [
      | inl here ↦ let (p, q) = (same_key_iff row g u).0 same in (row, Memᴰ.head refl, p, q, here)
      | inr unset ↦ elim (Option-cases (summary g u rows)) [
        | inl empty ↦ cc (rw (empty, same) at e)
        | inr (t, found) ↦ Flagged-cons flag g u row rows (
            Flagged-summary g u rows t found (
              let whole : some (merge t row) ≡ some s = rw (found, same) at e in
              ground (arith, or t row)))
      ]
    ]
  ]

  flag-merge :
      (t x s : EnumeratedMembership)
      → some (merge t x) ≡ some s
      → (flag t ≡ true) ⊎ (flag x ≡ true)
      → flag s ≡ true
  flag-merge t x s e set = ground (arith, or t x)

  pub summary-Flagged :
      (g u : String) (rows : List EnumeratedMembership) (s : EnumeratedMembership)
      → Flagged flag g u rows
      → summary g u rows ≡ some s
      → flag s ≡ true
  summary-Flagged g u [] s (r, m, p, q, f) e = absurd (Memᴰ.not-nil m)
  summary-Flagged g u (x ∷ rows) s (r, Memᴰ.head same, p, q, f) e =
      let key = (same_key_iff x g u).1 (rw same at p, rw same at q) in
      elim (Option-cases (summary g u rows)) [
        | inl empty ↦ let whole : some x ≡ some s = rw (empty, key) at e in ground arith
        | inr (t, found) ↦ flag-merge t x s (rw (found, key) at e) (inr (rw same at f))
      ]
  summary-Flagged g u (x ∷ rows) s (r, Memᴰ.tail m, p, q, f) e =
      elim (Bool-cases (same_key x g u)) [
        | inr other ↦ summary-Flagged g u rows s (r, m, p, q, f) (rw other at e)
        | inl key ↦ elim (Option-cases (summary g u rows)) [
          | inl empty ↦ let (t, found) = summary-mem rows r m in cc (rw (p, q) at found)
          | inr (t, found) ↦
              flag-merge t x s (rw (found, key) at e)
                (inl (summary-Flagged g u rows t (r, m, p, q, f) found))
        ]
      ]
