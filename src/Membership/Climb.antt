-- ===== src/Membership/Climb.antt =====
-- The recursion up the hierarchies: it ends while they have no cycle, and it reaches exactly the
-- groups above those of the rows that it starts with.
use mathlib.Core.List.Memᴰ
use mathlib.Core.Option
use governor_api.Prelude.{
  ℕ, zero, suc, ◌+◌, ◌<◌, String, ◌≡◌, refl, sym, ap, subst, ◌∙◌, ◌↔◌, inl, inr, ⊎_elim, Bool, true,
  Option, some, List, [], ◌∷◌, ◌++◌, map, Memᴰ, Memᴰ-filter, Memᴰ-flat_map, length, filter, arith,
  ◌==◌, eq_iff, Option-cases, eq_of_some,
}
use governor_api.Db.{GroupMembership, GroupHierarchy, Db, live}
use governor_api.Hierarchy.{live_hierarchies}
use governor_api.Hierarchy.Walks.{Walk}
use governor_api.Hierarchy.Cycle.{LiveEdge, IsAcyclic}
use governor_api.Hierarchy.Acyclic.{Walk-bound}
use governor_api.Membership.{
  EnumeratedMembership, direct_row, indirect_row, climb, recurse, recursion_fuel,
}
use governor_api.Membership.Enumeration.{
  Direct, IsDirect, IsDirectAdmin, IsMember, Scope, HasRow, IsRaw,
}

not-mem_of_nil :
    {row : EnumeratedMembership} {out : List EnumeratedMembership}
    → some [] ≡ some out
    → Memᴰ row out
    → ⊥
not-mem_of_nil {row} e m = Memᴰ.not-nil (subst (λ o. Memᴰ row o) (sym (eq_of_some e)) m)

module _ (expiry : GroupHierarchy → Option ℕ) (db : Db) where
  abbrev Climbs : EnumeratedMembership → EnumeratedMembership → Type 0
  Climbs a row =
      (b : GroupHierarchy) × Memᴰ b (live_hierarchies db)
      × (a.group_id ≡ b.member_group_id)
      × (row ≡ indirect_row expiry a b)

  mem-climb :
      (row : EnumeratedMembership) (rows : List EnumeratedMembership)
      → Memᴰ row (climb expiry db rows) ↔ ((a : EnumeratedMembership) × Memᴰ a rows × Climbs a row)
  unfolding climb
  mem-climb row rows =
      let up = λ (a : EnumeratedMembership).
        map (indirect_row expiry a)
          (filter (λ b. a.group_id == b.member_group_id) (live_hierarchies db)) in
      let (into, back) = Memᴰ-flat_map up row rows in
      (
        λ m.
            let (a, n, k) = into m in
            let (b, l, e) = Memᴰ.of_map (indirect_row expiry a) _ k in
            let (old, test) =
              (Memᴰ-filter (λ (b : GroupHierarchy). a.group_id == b.member_group_id) b
                  (live_hierarchies db)).0
                l in
            (a, n, (b, old, (eq_iff a.group_id b.member_group_id).0 test, sym e)),
        λ (a, n, climbs).
            let (b, l, e, is) = climbs in
            back (
              a,
              n,
              subst (λ r. Memᴰ r (up a)) (sym is)
                  (Memᴰ.map (indirect_row expiry a) (
                    (Memᴰ-filter (λ (b : GroupHierarchy). a.group_id == b.member_group_id) b
                        (live_hierarchies db)).1
                      (l, (eq_iff a.group_id b.member_group_id).1 e))),
            ),
      )

  -- After k rounds each row lies k hierarchies above some group.
  abbrev IsAtLevel : ℕ → List EnumeratedMembership → Type 0
  IsAtLevel k rows =
      (row : EnumeratedMembership)
      → Memᴰ row rows
      → (w : String) × Walk (LiveEdge db) k row.group_id w

  climb-IsAtLevel :
      (k : ℕ) (rows : List EnumeratedMembership)
      → IsAtLevel k rows
      → IsAtLevel (suc k) (climb expiry db rows)
  climb-IsAtLevel k rows level row m =
      let (a, n, climbs) = (mem-climb row rows).0 m in
      let (b, l, e, is) = climbs in
      let (w, walk) = level a n in
      (w, (a.group_id, (b, l, ap (λ r. r.group_id) (sym is), sym e), walk))

  pub recurse-total :
      (fuel k : ℕ) (rows : List EnumeratedMembership)
      → IsAcyclic db
      → IsAtLevel k rows
      → length db.hierarchies < fuel + k
      → (out : List EnumeratedMembership) × (recurse expiry db fuel rows ≡ some out)
  unfolding recurse
  recurse-total zero k [] acyclic level lt = ([], refl)
  recurse-total zero k (row ∷ rows) acyclic level lt =
      let (w, walk) = level row (Memᴰ.head refl) in
      absurd (omega (arith, Walk-bound db k row.group_id w acyclic walk))
  recurse-total (suc fuel) k [] acyclic level lt = ([], refl)
  recurse-total (suc fuel) k (row ∷ rows) acyclic level lt =
      let (out, ends) =
        recurse-total fuel (suc k) (climb expiry db (row ∷ rows)) acyclic
          (climb-IsAtLevel k (row ∷ rows) level) (omega arith) in
      ((row ∷ rows) ++ out, ap (Option.map (λ above. (row ∷ rows) ++ above)) ends)

  -- What holds of the first rows and is passed on by a step holds of all rows.
  recurse-All :
      (P : EnumeratedMembership → Type 0)
      → ((a row : EnumeratedMembership) → P a → Climbs a row → P row)
      → (fuel : ℕ) (rows out : List EnumeratedMembership) → recurse expiry db fuel rows ≡ some out
      → ((row : EnumeratedMembership) → Memᴰ row rows → P row)
      → (row : EnumeratedMembership) → Memᴰ row out
      → P row
  unfolding recurse
  recurse-All P step zero [] out e first row m = absurd (not-mem_of_nil e m)
  recurse-All P step zero (x ∷ rows) out e first row m = cc
  recurse-All P step (suc fuel) [] out e first row m = absurd (not-mem_of_nil e m)
  recurse-All P step (suc fuel) (x ∷ rows) out e first row m =
      elim (Option-cases (recurse expiry db fuel (climb expiry db (x ∷ rows)))) [
        | inl lost ↦ cc (rw lost at e)
        | inr (above, found) ↦
            let whole : (x ∷ rows) ++ above ≡ out = eq_of_some (rw found at e) in
            ⊎_elim (first row)
              (recurse-All P step fuel (climb expiry db (x ∷ rows)) above found
                (λ r n.
                  let (a, k, climbs) = (mem-climb r (x ∷ rows)).0 n in step a r (first a k) climbs)
                row)
              (Memᴰ.append_cases (x ∷ rows) (subst (λ o. Memᴰ row o) (sym whole) m))
      ]

  -- The rows are kept, and every step from a row of the result leads to one.
  recurse-closed :
      (fuel : ℕ) (rows out : List EnumeratedMembership)
      → recurse expiry db fuel rows ≡ some out
      → ((row : EnumeratedMembership) → Memᴰ row rows → Memᴰ row out)
        × ((a row : EnumeratedMembership) → Memᴰ a out → Climbs a row → Memᴰ row out)
  unfolding recurse
  recurse-closed zero [] out e =
      (λ row m. absurd (Memᴰ.not-nil m), λ a row m c. absurd (not-mem_of_nil e m))
  recurse-closed zero (x ∷ rows) out e = cc
  recurse-closed (suc fuel) [] out e =
      (λ row m. absurd (Memᴰ.not-nil m), λ a row m c. absurd (not-mem_of_nil e m))
  recurse-closed (suc fuel) (x ∷ rows) out e =
      elim (Option-cases (recurse expiry db fuel (climb expiry db (x ∷ rows)))) [
        | inl lost ↦ cc (rw lost at e)
        | inr (above, found) ↦
            let whole : (x ∷ rows) ++ above ≡ out = eq_of_some (rw found at e) in
            let (kept, closed) = recurse-closed fuel (climb expiry db (x ∷ rows)) above found in
            (
              λ row m. subst (λ o. Memᴰ row o) whole (Memᴰ.append_left above m),
              λ a row m climbs.
                  subst (λ o. Memᴰ row o) whole
                    (Memᴰ.append_right (x ∷ rows) (
                      ⊎_elim (λ old. kept row ((mem-climb row (x ∷ rows)).1 (a, old, climbs)))
                        (λ later. closed a row later climbs)
                        (Memᴰ.append_cases (x ∷ rows) (subst (λ o. Memᴰ a o) (sym whole) m)))),
            )
      ]

-- The rows of a query that starts from the memberships of some users, in groups that are not deleted.
module _ (expiry : GroupHierarchy → Option ℕ) (db : Db) (keep : GroupMembership → Bool)
    (Asked : String → Type 0)
    (keep_iff : (m : GroupMembership)
      → (keep m ≡ true) ↔ ((live db m.group_id ≡ true) × Asked m.user_id)) where
  abbrev start : List EnumeratedMembership
  start = map direct_row (filter keep db.memberships)

  abbrev scope : Scope
  scope g u = Asked u

  start-Direct :
      (row : EnumeratedMembership)
      → Memᴰ row start
      → (m : GroupMembership) × Direct db row.group_id row.user_id m
        × Asked row.user_id
        × (row ≡ direct_row m)
  start-Direct row n =
      let (m, k, e) = Memᴰ.of_map direct_row (filter keep db.memberships) n in
      let (listed, kept) = (Memᴰ-filter keep m db.memberships).0 k in
      let (alive, asked) = (keep_iff m).0 kept in
      (
        m,
        (listed, alive, ap (λ r. r.group_id) e, ap (λ r. r.user_id) e),
        subst Asked (ap (λ r. r.user_id) e) asked,
        sym e,
      )

  direct-start :
      (g u : String) (m : GroupMembership) → Direct db g u m → Asked u → Memᴰ (direct_row m) start
  direct-start g u m (listed, alive, p, q) asked = Memᴰ.map direct_row (
      (Memᴰ-filter keep m db.memberships).1
        (listed, (keep_iff m).1 (alive, subst Asked (sym q) asked)))

  -- What a row stands for.
  record Stands (row : EnumeratedMembership) : Type 0 where
    member : IsMember db row.group_id row.user_id
    asked : Asked row.user_id
    direct : row.direct ≡ true → IsDirect db row.group_id row.user_id
    admin : row.is_admin ≡ true → IsDirectAdmin db row.group_id row.user_id

  start-Stands : (row : EnumeratedMembership) → Memᴰ row start → Stands row
  start-Stands row n =
      let (m, d, asked, e) = start-Direct row n in
      record {
        member = (row.group_id, (0, refl), (m, d));
        asked = asked;
        direct = λ _. (m, d);
        admin = λ set. (m, d, ap (λ r. r.is_admin) (sym e) ∙ set);
      }

  Climbs-Stands : (a row : EnumeratedMembership) → Stands a → Climbs expiry db a row → Stands row
  Climbs-Stands a row s (b, l, e, is) =
      let (below, (n, walk), d) = s.member in
      let user : a.user_id ≡ row.user_id = ap (λ r. r.user_id) (sym is) in
      record {
        member = (
          below,
          (suc n, (a.group_id, (b, l, ap (λ r. r.group_id) (sym is), sym e), walk)),
          subst (λ u. IsDirect db below u) user d,
        );
        asked = subst Asked user s.asked;
        direct = λ set. cc (ap (λ r. r.direct) is);
        admin = λ set. cc (ap (λ r. r.is_admin) is);
      }

  module _ (out : List EnumeratedMembership)
      (ends : recurse expiry db (recursion_fuel db) start ≡ some out) where
    out-Stands : (row : EnumeratedMembership) → Memᴰ row out → Stands row
    out-Stands =
        recurse-All expiry db Stands Climbs-Stands (recursion_fuel db) start out ends start-Stands

    -- The row of a direct membership is among them, and from it the rows of the groups above.
    out-above :
        (g u : String) (m : GroupMembership) (n : ℕ)
        → Direct db m.group_id u m
        → Asked u
        → Walk (LiveEdge db) n g m.group_id
        → HasRow g u out
    out-above g u m zero d asked e = (
      direct_row m,
      (recurse-closed expiry db (recursion_fuel db) start out ends).0 (direct_row m)
          (direct-start m.group_id u m d asked),
      sym e,
      d.3,
      refl,
    )
    out-above g u m (suc n) d asked (v, (b, l, p, q), walk) =
        let (row, k, r, s, _) = out-above v u m n d asked walk in
        (
          indirect_row expiry row b,
          (recurse-closed expiry db (recursion_fuel db) start out ends).1 row
              (indirect_row expiry row b) k (b, l, r ∙ sym q, refl),
          p,
          s,
          refl,
        )

    pub out-IsRaw : IsRaw scope db out
    out-IsRaw = record {
      sound = λ row m. let s = out-Stands row m in (s.member, s.asked);
      complete = λ g u member asked.
          let (below, above, is_direct) = member in
          let (m, d) = is_direct in
          let (n, walk) = above in
          out-above g u m n (d.0, d.1, refl, d.3) asked
            (subst (λ w. Walk (LiveEdge db) n g w) (sym d.2) walk);
      sound_direct = λ row m. (out-Stands row m).direct;
      sound_admin = λ row m. (out-Stands row m).admin;
      complete_direct = λ g u is_direct asked.
          let (m, d) = is_direct in
          (
            direct_row m,
            (recurse-closed expiry db (recursion_fuel db) start out ends).0 (direct_row m)
                (direct-start g u m d asked),
            d.2,
            d.3,
            refl,
          );
      complete_admin = λ g u is_admin asked.
          let (m, d, set) = is_admin in
          (
            direct_row m,
            (recurse-closed expiry db (recursion_fuel db) start out ends).0 (direct_row m)
                (direct-start g u m d asked),
            d.2,
            d.3,
            set,
          );
    }

  pub start-recurse :
      IsAcyclic db
      → (out : List EnumeratedMembership) × (recurse expiry db (recursion_fuel db) start ≡ some out)
  start-recurse acyclic =
      recurse-total expiry db (recursion_fuel db) 0 start acyclic (λ row m. (row.group_id, refl))
        (omega arith)
