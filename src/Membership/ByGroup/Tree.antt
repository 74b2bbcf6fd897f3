-- ===== src/Membership/ByGroup/Tree.antt =====
-- The tree that the query builds: it is built in enough rounds, and which groups it holds.
use mathlib.Core.List.Memᴰ
use governor_api.Prelude.{
  ℕ, zero, suc, ◌+◌, ◌≤◌, ◌<◌, String, ◌≡◌, refl, sym, ap, subst, ◌∙◌, ◌⊎◌, inl, inr, ⊎_elim, true,
  false, some, List, [], ◌∷◌, Memᴰ, Memᴰ-filter, length, arith, ◌==◌, eq_iff, ◌&&◌, Bool-cases,
}
use governor_api.Db.{GroupHierarchy, Db, live}
use governor_api.Hierarchy.Walks.{Walk, Walk-snoc}
use governor_api.Hierarchy.Cycle.{LiveEdge, IsAcyclic}
use governor_api.Hierarchy.Acyclic.{Above, Walk-bound}
use governor_api.Membership.{
  Node, new_nodes, root_nodes, root_node, child_node, descend, recurse_union, hierarchical_groups,
  ensure_root, recursion_fuel,
}
use governor_api.Membership.ByGroup.Nodes.{
  IsChild, mem-descend, new_nodes-sub, new_nodes-cover, recurse_union-All, recurse_union-closed,
}

module _ (db : Db) (root : String) where
  -- In round k the group lies k hierarchies below the root, or it is deleted and its parent does.
  abbrev IsBelow : ℕ → Node → Type 0
  IsBelow k n =
      Walk (LiveEdge db) k root n.group_id
      ⊎ ((j : ℕ) × (x : String) × (k ≡ suc j)
          × Walk (LiveEdge db) j root x
          × (live db n.group_id ≡ false))

  abbrev IsLevel : ℕ → List Node → Type 0
  IsLevel k nodes = (n : Node) → Memᴰ n nodes → IsBelow k n

  live-edge :
      (b : GroupHierarchy)
      → Memᴰ b db.hierarchies
      → live db b.parent_group_id ≡ true
      → live db b.member_group_id ≡ true
      → LiveEdge db b.parent_group_id b.member_group_id
  live-edge b m p q = (
    b,
    (Memᴰ-filter
          (λ (row : GroupHierarchy). live db row.parent_group_id && live db row.member_group_id) b
          db.hierarchies).1
        (m, ground arith),
    refl,
    refl,
  )

  child-IsBelow : (k : ℕ) (a n : Node) → IsBelow k a → IsChild db a n → IsBelow (suc k) n
  child-IsBelow k a n (inr (j, x, e, walk, dead)) (b, m, p, alive, is) = cc
  child-IsBelow k a n (inl walk) (b, m, p, alive, is) =
      elim (Bool-cases (live db b.member_group_id)) [
        | inl living ↦ inl (
            Walk-snoc (LiveEdge db) k root a.group_id n.group_id walk (
              let edge = live-edge b m (subst (λ g. live db g ≡ true) p alive) living in
              subst (λ g. LiveEdge db g n.group_id) (sym p)
                (subst (λ g. LiveEdge db b.parent_group_id g)
                  (ap (λ (c : Node). c.group_id) (sym is)) edge)))
        | inr dead ↦ inr (
          k,
          a.group_id,
          refl,
          walk,
          subst (λ g. live db g ≡ false) (ap (λ (c : Node). c.group_id) (sym is)) dead,
        )
      ]

  -- The next round, new rows or not.
  descend-IsLevel :
      (k : ℕ) (seen nodes : List Node)
      → IsLevel k nodes
      → IsLevel (suc k) (new_nodes seen (descend db nodes))
  descend-IsLevel k seen nodes level n m =
      let (a, l, child) = (mem-descend db n nodes).0 (new_nodes-sub seen (descend db nodes) n m) in
      child-IsBelow k a n (level a l) child

  IsBelow-bound : (k : ℕ) (n : Node) → IsAcyclic db → IsBelow k n → k ≤ suc (length db.hierarchies)
  IsBelow-bound k n acyclic (inl walk) = omega (arith, Walk-bound db k root n.group_id acyclic walk)
  IsBelow-bound k n acyclic (inr (j, x, e, walk, dead)) =
      omega (arith, Walk-bound db j root x acyclic walk)

  recurse_union-total :
      (fuel k : ℕ) (seen working : List Node)
      → IsAcyclic db
      → IsLevel k working
      → suc (length db.hierarchies) < fuel + k
      → (out : List Node) × (recurse_union fuel db seen working ≡ some out)
  unfolding recurse_union
  recurse_union-total zero k seen [] acyclic level lt = (seen, refl)
  recurse_union-total zero k seen (x ∷ working) acyclic level lt =
      absurd (omega (arith, IsBelow-bound k x acyclic (level x (Memᴰ.head refl))))
  recurse_union-total (suc fuel) k seen [] acyclic level lt = (seen, refl)
  recurse_union-total (suc fuel) k seen (x ∷ working) acyclic level lt =
      recurse_union-total fuel (suc k) _ _ acyclic (descend-IsLevel k seen (x ∷ working) level)
        (omega arith)

  root_nodes-group : (n : Node) → Memᴰ n (root_nodes db root) → n.group_id ≡ root
  root_nodes-group n m =
      let (b, k, e) = Memᴰ.of_map _ _ m in
      let (listed, test) =
        (Memᴰ-filter (λ (b : GroupHierarchy). b.parent_group_id == root) b db.hierarchies).0 k in
      ap (λ (c : Node). c.group_id) (sym e) ∙ (eq_iff b.parent_group_id root).0 test

  pub hierarchical_groups-total :
      IsAcyclic db → (nodes : List Node) × (hierarchical_groups db root ≡ some nodes)
  unfolding hierarchical_groups
  hierarchical_groups-total acyclic =
      recurse_union-total (suc (recursion_fuel db)) 0 _ _ acyclic
        (λ n m. inl (sym (root_nodes-group n (new_nodes-sub [] (root_nodes db root) n m))))
        (omega arith)

  -- A node of the result: its group is below the root or deleted, and only the root's are direct.
  abbrev pub IsPlaced : Node → Type 0
  IsPlaced n =
      (Above db root n.group_id ⊎ (live db n.group_id ≡ false))
      × (n.direct ≡ true → n.group_id ≡ root)

  child-IsPlaced : (a n : Node) → IsPlaced a → IsChild db a n → IsPlaced n
  child-IsPlaced a n (inr dead, _) (b, m, p, alive, is) = cc
  child-IsPlaced a n (inl (k, walk), _) (b, m, p, alive, is) = (
    ⊎_elim (λ w. inl (suc k, w)) (λ (j, x, e, w, dead). inr dead)
        (child-IsBelow k a n (inl walk) (b, m, p, alive, is)),
    λ set. cc (ap (λ (c : Node). c.direct) is),
  )

  module _ (nodes : List Node) (ends : hierarchical_groups db root ≡ some nodes) where
    nodes-IsPlaced : (n : Node) → Memᴰ n nodes → IsPlaced n
    unfolding hierarchical_groups
    nodes-IsPlaced =
        let first : (n : Node) → Memᴰ n (new_nodes [] (root_nodes db root)) → IsPlaced n = λ n m.
          let at = root_nodes-group n (new_nodes-sub [] (root_nodes db root) n m) in
          (inl (0, sym at), λ _. at) in
        recurse_union-All db IsPlaced child-IsPlaced (suc (recursion_fuel db)) _ _ nodes ends first
          first

    nodes-closed :
        ((n : Node) → Memᴰ n (root_nodes db root) → Memᴰ n nodes)
        × ((a n : Node) → Memᴰ a nodes → IsChild db a n → Memᴰ n nodes)
    unfolding hierarchical_groups
    nodes-closed =
        let (kept, closed) =
          recurse_union-closed db (suc (recursion_fuel db)) _ _ nodes ends (λ a n m c. inl m) in
        (
          λ n m.
              ⊎_elim (λ none_seen. absurd (Memᴰ.not-nil none_seen)) (kept n)
                (new_nodes-cover [] (root_nodes db root) n m),
          closed,
        )

    -- Below a node of the tree every group is in the tree.
    nodes-below :
        (n : ℕ) (a : Node) (g : String)
        → Memᴰ a nodes
        → Walk (LiveEdge db) n a.group_id g
        → (c : Node) × Memᴰ c nodes × (c.group_id ≡ g)
    nodes-below zero a g m e = (a, m, e)
    nodes-below (suc n) a g m (v, (b, l, p, q), walk) =
        let (listed, alive) =
          (Memᴰ-filter
              (λ (row : GroupHierarchy). live db row.parent_group_id && live db row.member_group_id)
              b db.hierarchies).0
            l in
        let both : (live db b.parent_group_id ≡ true) × (live db b.member_group_id ≡ true) =
          ground arith in
        nodes-below n (child_node a b) g
          (nodes-closed.1 a (child_node a b) m
            (b, listed, sym p, subst (λ x. live db x ≡ true) p both.0, refl))
          (subst (λ x. Walk (LiveEdge db) n x g) (sym q) walk)

    pub ensure_root-IsPlaced : (n : Node) → Memᴰ n (ensure_root root nodes) → IsPlaced n
    unfolding ensure_root
    ensure_root-IsPlaced n m =
        ⊎_elim (λ e. rw e (inl (0, refl), λ _. refl)) (nodes-IsPlaced n)
          (Memᴰ.cases_cons (new_nodes-sub [] (root_node root ∷ nodes) n m))

    pub mem-ensure_root :
        (n : Node) → (n ≡ root_node root) ⊎ Memᴰ n nodes → Memᴰ n (ensure_root root nodes)
    unfolding ensure_root
    mem-ensure_root n h =
        ⊎_elim (λ none_seen. absurd (Memᴰ.not-nil none_seen)) (λ m. m)
          (new_nodes-cover [] (root_node root ∷ nodes) n (⊎_elim Memᴰ.head Memᴰ.tail h))

    -- Every group below the root is in the tree.
    pub ensure_root-below :
        (g : String)
        → Above db root g
        → (c : Node) × Memᴰ c (ensure_root root nodes) × (c.group_id ≡ g)
    ensure_root-below g (zero, e) = (root_node root, mem-ensure_root (root_node root) (inl refl), e)
    ensure_root-below g (suc n, walk) =
        let (v, edge, rest) = walk in
        let (b, l, p, q) = edge in
        let (listed, alive) =
          (Memᴰ-filter
              (λ (row : GroupHierarchy). live db row.parent_group_id && live db row.member_group_id)
              b db.hierarchies).0
            l in
        let start : Node = record {
          group_id = b.parent_group_id;
          comparator = some b.member_group_id;
          direct = true;
        } in
        let first : Memᴰ start (root_nodes db root) = Memᴰ.map _ (
          (Memᴰ-filter (λ (b : GroupHierarchy). b.parent_group_id == root) b db.hierarchies).1
            (listed, (eq_iff b.parent_group_id root).1 p)) in
        let (c, m, e) =
          nodes-below (suc n) start g (nodes-closed.0 start first)
            (subst (λ x. Walk (LiveEdge db) (suc n) x g) (sym p) walk) in
        (c, mem-ensure_root c (inr m), e)
