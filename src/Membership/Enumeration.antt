-- ===== src/Membership/Enumeration.antt =====
-- What an enumeration of memberships promises, and that grouping keeps the promise of the raw rows.
use mathlib.Core.Option
use governor_api.Prelude.{
  String, ◌≡◌, refl, sym, ap, subst, ◌∙◌, ◌||◌, ◌↔◌, Bool, true, false, Option, none, some, List,
  Memᴰ, arith,
}
use governor_api.Db.{GroupMembership, Db, live}
use governor_api.Hierarchy.Acyclic.{Above}
use governor_api.Membership.{EnumeratedMembership, merge, select_row, aggregate}
use governor_api.Membership.Grouping.{
  find_row, summary, HasUniqueKeys, Flagged, aggregate-HasUniqueKeys, find_row-aggregate,
  mem-find_row, find_row-mem, summary-some, summary-mem, Flagged-summary, summary-Flagged,
}

-- A row of `group_memberships` of a group that is not deleted.
abbrev pub Direct : Db → String → String → GroupMembership → Type 0
Direct db g u m =
    Memᴰ m db.memberships × (live db m.group_id ≡ true) × (m.group_id ≡ g) × (m.user_id ≡ u)

-- A direct member.
abbrev pub IsDirect : Db → String → String → Type 0
IsDirect db g u = (m : GroupMembership) × Direct db g u m

abbrev pub IsDirectAdmin : Db → String → String → Type 0
IsDirectAdmin db g u = (m : GroupMembership) × Direct db g u m × (m.is_admin ≡ true)

-- A member of the group or of one below it, by hierarchies between groups that are not deleted.
abbrev pub IsMember : Db → String → String → Type 0
IsMember db g u = (below : String) × Above db g below × IsDirect db below u

-- A query asks for some pairs of a group and a user.
abbrev pub Scope : Type 1
Scope = String → String → Type 0

abbrev pub HasRow : String → String → List EnumeratedMembership → Type 0
HasRow = Flagged (λ _. true)

-- The answer to a query: one row for each pair that is asked for of a member and its group, which
-- says whether the membership is direct and whether it has admin rights; a row that is not direct
-- has no expiry.
pub record IsEnumeration (scope : Scope) (db : Db) (rows : List EnumeratedMembership) : Type 0 where
  pub unique : HasUniqueKeys rows
  pub sound : (g u : String) → HasRow g u rows → IsMember db g u × scope g u
  pub complete : (g u : String) → IsMember db g u → scope g u → HasRow g u rows
  pub direct :
      (row : EnumeratedMembership)
      → Memᴰ row rows
      → (row.direct ≡ true) ↔ IsDirect db row.group_id row.user_id
  pub admin :
      (row : EnumeratedMembership)
      → Memᴰ row rows
      → (row.is_admin ≡ true) ↔ IsDirectAdmin db row.group_id row.user_id
  pub indirect :
      (row : EnumeratedMembership)
      → Memᴰ row rows
      → row.direct ≡ false
      → (row.expires_at ≡ none) × (row.admin_expires_at ≡ none)

-- The rows before GROUP BY.
pub record IsRaw (scope : Scope) (db : Db) (raw : List EnumeratedMembership) : Type 0 where
  pub sound :
      (row : EnumeratedMembership)
      → Memᴰ row raw
      → IsMember db row.group_id row.user_id × scope row.group_id row.user_id
  pub complete : (g u : String) → IsMember db g u → scope g u → HasRow g u raw
  pub sound_direct :
      (row : EnumeratedMembership)
      → Memᴰ row raw
      → row.direct ≡ true
      → IsDirect db row.group_id row.user_id
  pub sound_admin :
      (row : EnumeratedMembership)
      → Memᴰ row raw
      → row.is_admin ≡ true
      → IsDirectAdmin db row.group_id row.user_id
  pub complete_direct :
      (g u : String) → IsDirect db g u → scope g u → Flagged (λ r. r.direct) g u raw
  pub complete_admin :
      (g u : String) → IsDirectAdmin db g u → scope g u → Flagged (λ r. r.is_admin) g u raw

-- A row of the aggregate is the selected summary of its pair.
aggregate-summary :
    (raw : List EnumeratedMembership) (g u : String) (row : EnumeratedMembership)
    → Memᴰ row (aggregate raw)
    → row.group_id ≡ g
    → row.user_id ≡ u
    → (s : EnumeratedMembership) × (summary g u raw ≡ some s) × (select_row s ≡ row)
aggregate-summary raw g u row m p q =
    let found : find_row g u (aggregate raw) ≡ some row =
      subst (λ x. find_row x u (aggregate raw) ≡ some row) p
        (subst (λ y. find_row row.group_id y (aggregate raw) ≡ some row) q
          (find_row-mem (aggregate raw) row (aggregate-HasUniqueKeys raw) m)) in
    let e : Option.map select_row (summary g u raw) ≡ some row =
      sym (find_row-aggregate raw g u) ∙ found in
    go (summary g u raw) refl e
  where
    go :
        (o : Option EnumeratedMembership)
        → summary g u raw ≡ o
        → Option.map select_row o ≡ some row
        → (s : EnumeratedMembership) × (summary g u raw ≡ some s) × (select_row s ≡ row)
    go none is e = cc
    go (some s) is e = (s, is, cc)

-- And every summary is selected.
summary-aggregate :
    (raw : List EnumeratedMembership) (g u : String) (s : EnumeratedMembership)
    → summary g u raw ≡ some s
    → HasRow g u (aggregate raw)
summary-aggregate raw g u s is =
    let (m, p, q) =
      mem-find_row g u (aggregate raw) (select_row s)
        (find_row-aggregate raw g u ∙ ap (Option.map select_row) is) in
    (select_row s, m, p, q, refl)

select_row-flags :
    (s row : EnumeratedMembership)
    → select_row s ≡ row
    → (row.direct ≡ s.direct)
      × (row.is_admin ≡ s.is_admin)
      × (row.direct ≡ false → (row.expires_at ≡ none) × (row.admin_expires_at ≡ none))
select_row-flags s row e = ground arith

-- Grouping keeps the promise.
module _ (scope : Scope) (db : Db) (raw : List EnumeratedMembership) (h : IsRaw scope db raw) where
  aggregate_sound : (g u : String) → HasRow g u (aggregate raw) → IsMember db g u × scope g u
  aggregate_sound g u (row, m, p, q, _) =
      let (s, is, _) = aggregate-summary raw g u row m p q in
      let (r, n, p', q', _) = summary-some g u raw s is in
      subst (λ x. IsMember db x u × scope x u) p'
        (subst (λ y. IsMember db r.group_id y × scope r.group_id y) q' (h.sound r n))

  aggregate_complete : (g u : String) → IsMember db g u → scope g u → HasRow g u (aggregate raw)
  aggregate_complete g u member asked =
      let (r, n, p, q, _) = h.complete g u member asked in
      let (s, is) = summary-mem raw r n in
      summary-aggregate raw g u s (
        subst (λ x. summary x u raw ≡ some s) p
          (subst (λ y. summary r.group_id y raw ≡ some s) q is))

  -- For each of the two flags.
  module _ (flag : EnumeratedMembership → Bool) (P : String → String → Type 0)
      (or : (a b : EnumeratedMembership) → flag (merge a b) ≡ flag a || flag b)
      (selected : (s row : EnumeratedMembership) → select_row s ≡ row → flag row ≡ flag s)
      (raw_sound : (row : EnumeratedMembership)
        → Memᴰ row raw
        → flag row ≡ true
        → P row.group_id row.user_id)
      (raw_complete : (g u : String) → P g u → scope g u → Flagged flag g u raw) where
    aggregate-flag :
        (row : EnumeratedMembership)
        → Memᴰ row (aggregate raw)
        → (flag row ≡ true) ↔ P row.group_id row.user_id
    aggregate-flag row m =
        let g = row.group_id in
        let u = row.user_id in
        let (s, is, e) = aggregate-summary raw g u row m refl refl in
        (
          λ set.
              let (r, n, p, q, f) =
                Flagged-summary flag or g u raw s is (sym (selected s row e) ∙ set) in
              subst (λ x. P x u) p (subst (λ y. P r.group_id y) q (raw_sound r n f)),
          λ holds.
              selected s row e
              ∙ summary-Flagged flag or g u raw s
                  (raw_complete g u holds (aggregate_sound g u (row, m, refl, refl, refl)).1) is,
        )

  pub aggregate-IsEnumeration : IsEnumeration scope db (aggregate raw)
  aggregate-IsEnumeration = record {
    unique = aggregate-HasUniqueKeys raw;
    sound = aggregate_sound;
    complete = aggregate_complete;
    direct =
        aggregate-flag (λ r. r.direct) (IsDirect db) (λ a b. refl)
          (λ s row e. (select_row-flags s row e).0) h.sound_direct h.complete_direct;
    admin =
        aggregate-flag (λ r. r.is_admin) (IsDirectAdmin db) (λ a b. refl)
          (λ s row e. (select_row-flags s row e).1) h.sound_admin h.complete_admin;
    indirect = λ row m.
        let (s, _, e) = aggregate-summary raw row.group_id row.user_id row m refl refl in
        (select_row-flags s row e).2;
  }
