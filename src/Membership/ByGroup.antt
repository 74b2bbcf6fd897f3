-- ===== src/Membership/ByGroup.antt =====
-- membershipsByGroupQuery enumerates the memberships of a group, as the other two queries do.
pub mod Nodes
pub mod Tree
use mathlib.Core.List.Memᴰ
use mathlib.Core.Option
use governor_api.Prelude.{
  String, ◌≡◌, refl, sym, ap, subst, ◌∙◌, ◌↔◌, inl, inr, ⊎_elim, Bool, true, false, Option, some,
  List, Memᴰ, Memᴰ-filter, Memᴰ-flat_map, map, filter, arith, ◌==◌, eq_iff, ◌&&◌,
}
use governor_api.Db.{GroupMembership, Db, live}
use governor_api.Hierarchy.Cycle.{IsAcyclic}
use governor_api.Hierarchy.Acyclic.{Above}
use governor_api.Membership.{
  EnumeratedMembership, Node, root_node, joined_row, join_memberships, ensure_root, aggregate,
  memberships_by_group, hierarchical_groups,
}
use governor_api.Membership.Grouping.{Flagged}
use governor_api.Membership.Enumeration.{
  Direct, IsDirect, IsDirectAdmin, IsMember, Scope, HasRow, IsRaw, IsEnumeration,
  aggregate-IsEnumeration,
}
use governor_api.Membership.ByGroup.Tree.{
  IsPlaced, hierarchical_groups-total, ensure_root-IsPlaced, mem-ensure_root, ensure_root-below,
}

abbrev pub only_group : String → Scope
only_group group_id g u = g ≡ group_id

module _ (db : Db) (root : String) where
  abbrev joins : Node → GroupMembership → Bool
  joins node m = m.group_id == node.group_id && live db m.group_id

  joins_iff :
      (node : Node) (m : GroupMembership)
      → (joins node m ≡ true) ↔ ((m.group_id ≡ node.group_id) × (live db m.group_id ≡ true))
  joins_iff node m = ground (arith, eq_iff m.group_id node.group_id)

  mem-join :
      (row : EnumeratedMembership) (nodes : List Node)
      → Memᴰ row (join_memberships db root nodes) ↔ (
          (node : Node) × Memᴰ node nodes
          × (m : GroupMembership) × Direct db node.group_id row.user_id m
          × (row ≡ joined_row root node m))
  unfolding join_memberships
  mem-join row nodes =
      let at = λ (node : Node). map (joined_row root node) (filter (joins node) db.memberships) in
      let (into, back) = Memᴰ-flat_map at row nodes in
      (
        λ k.
            let (node, l, j) = into k in
            let (m, i, e) = Memᴰ.of_map (joined_row root node) _ j in
            let (listed, test) = (Memᴰ-filter (joins node) m db.memberships).0 i in
            let (p, q) = (joins_iff node m).0 test in
            (node, l, m, (listed, q, p, ap (λ (r : EnumeratedMembership). r.user_id) e), sym e),
        λ (node, l, m, d, e). back (
          node,
          l,
          subst (λ r. Memᴰ r (at node)) (sym e)
              (Memᴰ.map (joined_row root node) (
                (Memᴰ-filter (joins node) m db.memberships).1
                  (d.0, (joins_iff node m).1 (d.2, d.1)))),
        ),
      )

  joined_row-fields :
      (node : Node) (m : GroupMembership) (row : EnumeratedMembership)
      → row ≡ joined_row root node m
      → (row.group_id ≡ root)
        × (row.direct ≡ node.direct)
        × (row.is_admin ≡ true → (node.direct ≡ true) × (m.is_admin ≡ true))
  joined_row-fields node m row e = ground arith

  module _ (nodes : List Node) (ends : hierarchical_groups db root ≡ some nodes) where
    abbrev raw : List EnumeratedMembership
    raw = join_memberships db root (ensure_root root nodes)

    raw-IsMember :
        (row : EnumeratedMembership)
        → Memᴰ row raw
        → IsMember db row.group_id row.user_id × (row.group_id ≡ root)
    raw-IsMember row k =
        let (node, l, m, d, e) = (mem-join row (ensure_root root nodes)).0 k in
        let (at, _, _) = joined_row-fields node m row e in
        let placed = ensure_root-IsPlaced db root nodes ends node l in
        ⊎_elim
          (λ above.
            ((node.group_id, subst (λ g. Above db g node.group_id) (sym at) above, (m, d)), at))
          (λ dead. cc (dead, ap (live db) d.2, d.1)) placed.0

    -- A direct row comes from a membership of the group itself.
    raw-direct :
        (row : EnumeratedMembership) (node : Node) (m : GroupMembership)
        → Memᴰ node (ensure_root root nodes)
        → Direct db node.group_id row.user_id m
        → row ≡ joined_row root node m
        → node.direct ≡ true
        → Direct db row.group_id row.user_id m
    raw-direct row node m l d e set =
        let (at, _, _) = joined_row-fields node m row e in
        let here = (ensure_root-IsPlaced db root nodes ends node l).1 set in
        (d.0, d.1, d.2 ∙ here ∙ sym at, d.3)

    -- The row that the root contributes.
    root-row :
        (g u : String) (m : GroupMembership)
        → Direct db g u m
        → g ≡ root
        → Memᴰ (joined_row root (root_node root) m) raw
    root-row g u m d at =
        (mem-join (joined_row root (root_node root) m) (ensure_root root nodes)).1 (
          root_node root,
          mem-ensure_root db root nodes ends (root_node root) (inl refl),
          m,
          (d.0, d.1, d.2 ∙ at, refl),
          refl,
        )

    raw-IsRaw : IsRaw (only_group root) db raw
    raw-IsRaw = record {
      sound = raw-IsMember;
      complete = λ g u member at.
          let (below, above, is_direct) = member in
          let (m, d) = is_direct in
          let (node, l, e) =
            ensure_root-below db root nodes ends below (subst (λ x. Above db x below) at above) in
          (
            joined_row root node m,
            (mem-join (joined_row root node m) (ensure_root root nodes)).1
                (node, l, m, (d.0, d.1, d.2 ∙ sym e, refl), refl),
            sym at,
            d.3,
            refl,
          );
      sound_direct = λ row k set.
          let (node, l, m, d, e) = (mem-join row (ensure_root root nodes)).0 k in
          let (_, flag, _) = joined_row-fields node m row e in
          (m, raw-direct row node m l d e (sym flag ∙ set));
      sound_admin = λ row k set.
          let (node, l, m, d, e) = (mem-join row (ensure_root root nodes)).0 k in
          let (_, _, rights) = joined_row-fields node m row e in
          let (direct, admin) = rights set in (m, raw-direct row node m l d e direct, admin);
      complete_direct = λ g u is_direct at.
          let (m, d) = is_direct in
          (joined_row root (root_node root) m, root-row g u m d at, sym at, d.3, refl);
      complete_admin = λ g u is_admin at.
          let (m, d, set) = is_admin in
          (joined_row root (root_node root) m, root-row g u m d at, sym at, d.3, set);
    }

-- While the hierarchies have no cycle, GetMembersOfGroup ends, and its rows are the enumeration of
-- the memberships in the group.
pub memberships_by_group-IsEnumeration :
    (db : Db) (group_id : String)
    → IsAcyclic db
    → (rows : List EnumeratedMembership) × (memberships_by_group db group_id ≡ some rows)
      × IsEnumeration (only_group group_id) db rows
unfolding memberships_by_group
memberships_by_group-IsEnumeration db group_id acyclic =
    let (nodes, ends) = hierarchical_groups-total db group_id acyclic in
    (
      aggregate (join_memberships db group_id (ensure_root group_id nodes)),
      ap (Option.map (λ ns. aggregate (join_memberships db group_id (ensure_root group_id ns))))
          ends,
      aggregate-IsEnumeration (only_group group_id) db _ (raw-IsRaw db group_id nodes ends),
    )
