-- ===== src/Hierarchy/Acyclic.antt =====
-- While the hierarchies have no cycle, walks are short, and the check asks whether the parent is
-- already below the member.
use governor_api.Prelude.{
  ℕ, zero, suc, ◌+◌, ◌≤◌, String, ◌≡◌, refl, sym, ◌↔◌, ◌⊎◌, inl, inr, Bool, true, false, some, List,
  [], ◌∷◌, length, length-filter-le, ◌&&◌, arith,
}
use governor_api.Db.{GroupHierarchy, Db, live}
use governor_api.Hierarchy.{
  Adjacency, collect, append_member, live_hierarchies, search_keys, would_create_cycle,
}
use governor_api.Hierarchy.Walks.{Walk, HasCycle, Walk-append, Walk-mono}
use governor_api.Hierarchy.Adjacency.{Edge, length-append_member}
use governor_api.Hierarchy.Cycle.{
  search_keys_total, search_keys_sound, search_keys_bound, LiveEdge, IsAcyclic, NewEdge, Edge-live,
  HasCycle-mono, would_create_cycle_decides,
}

length-collect :
    (h : Adjacency) (rows : List GroupHierarchy) → length (collect h rows) ≤ length h + length rows
unfolding collect
length-collect h [] = omega arith
length-collect h (row ∷ rows) =
    let h' = append_member row.parent_group_id row.member_group_id h in
    omega (
      arith,
      length-collect h' rows,
      length-append_member row.parent_group_id row.member_group_id h,
    )

-- No walk is longer than the table.
pub Walk-bound :
    (db : Db) (n : ℕ) (u w : String)
    → IsAcyclic db
    → Walk (LiveEdge db) n u w
    → n ≤ length db.hierarchies
Walk-bound db n u w acyclic walk =
    let h = collect [] (live_hierarchies db) in let (b, ends) = search_keys_total h in go b ends
  where
    go :
        (b : Bool)
        → search_keys (collect [] (live_hierarchies db)) ≡ some b
        → n ≤ length db.hierarchies
    go true ends = absurd (
        acyclic (
          HasCycle-mono (Edge (collect [] (live_hierarchies db))) (LiveEdge db)
            (λ x y. (Edge-live db x y).0)
            (search_keys_sound (collect [] (live_hierarchies db)) ends)))
    go false ends = omega (
      arith,
      search_keys_bound (collect [] (live_hierarchies db)) ends n u w (
          Walk-mono (LiveEdge db) (Edge (collect [] (live_hierarchies db)))
            (λ x y. (Edge-live db x y).1) n u w walk),
      length-collect [] (live_hierarchies db),
      length-filter-le
          (λ (row : GroupHierarchy). live db row.parent_group_id && live db row.member_group_id)
          db.hierarchies,
    )

-- The member is the parent, or the parent is below it.
abbrev pub Above : Db → String → String → Type 0
Above db u w = (n : ℕ) × Walk (LiveEdge db) n u w

-- A walk that uses the new hierarchy leaves it for the last time at the member and comes to it for
-- the first time at the parent.
split_at_new :
    (db : Db) (p m : String) (n : ℕ) (u w : String)
    → Walk (NewEdge db p m) n u w
    → Walk (LiveEdge db) n u w ⊎ Above db m w × Above db u p
split_at_new db p m zero u w e = inl e
split_at_new db p m (suc n) u w (v, inl edge, walk) = elim (split_at_new db p m n v w walk) [
  | inl old ↦ inl (v, edge, old)
  | inr (after, before) ↦ inr (after, (suc before.0, (v, edge, before.1)))
]
split_at_new db p m (suc n) u w (v, inr (e, e'), walk) = elim (split_at_new db p m n v w walk) [
  | inl old ↦ inr ((n, rw e' old), (0, sym e))
  | inr (after, _) ↦ inr (after, (0, sym e))
]

NewEdge-cycle_iff :
    (db : Db) (p m : String) → IsAcyclic db → HasCycle (NewEdge db p m) ↔ Above db m p
NewEdge-cycle_iff db p m acyclic = (into, back)
  where
    into : HasCycle (NewEdge db p m) → Above db m p
    into (u, n, walk) = elim (split_at_new db p m (suc n) u u walk) [
      | inl old ↦ absurd (acyclic (u, n, old))
      | inr ((k, after), (j, before)) ↦ (k + j, Walk-append (LiveEdge db) k j m u p after before)
    ]

    back : Above db m p → HasCycle (NewEdge db p m)
    back (n, walk) = (
      p,
      n,
      (m, inr (refl, refl), Walk-mono (LiveEdge db) (NewEdge db p m) (λ u v e. inl e) n m p walk),
    )

-- While the hierarchies have no cycle, the check answers true exactly when the parent is the member
-- or lies below it.
would_create_cycle_iff :
    (db : Db) (parent member : String)
    → IsAcyclic db
    → (would_create_cycle db parent member ≡ some true) ↔ Above db member parent
would_create_cycle_iff db p m acyclic =
    let (b, ends, iff) = would_create_cycle_decides db p m in
    let (into, back) = NewEdge-cycle_iff db p m acyclic in
    (λ e. into (iff.0 (cc)), λ above. cc (iff.1 (back above)))
