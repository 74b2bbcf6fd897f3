-- ===== src/Membership/ByGroup/Nodes.antt =====
-- The tree of groups below a group: the recursion with UNION ends, and it reaches what lies below.
use mathlib.Core.List.Memᴰ
use governor_api.Prelude.{
  ℕ, zero, suc, String, ◌≡◌, refl, sym, subst, ◌∙◌, ◌↔◌, ◌⊎◌, inl, inr, ⊎_elim, Bool, true, Option,
  none, some, List, [], ◌∷◌, ◌++◌, map, Memᴰ, Memᴰ-filter, Memᴰ-flat_map, filter, any, any_iff,
  arith, ◌==◌, eq_iff, ◌&&◌, Bool-cases, eq_of_some,
}
use governor_api.Db.{GroupHierarchy, Db, live}
use governor_api.Membership.{Node, same_node, new_nodes, child_node, descend, recurse_union}

same_node_iff : (a b : Node) → (same_node a b ≡ true) ↔ (a ≡ b)
same_node_iff a b = go a.comparator b.comparator refl refl
  where
    go :
        (s t : Option String)
        → a.comparator ≡ s
        → b.comparator ≡ t
        → (same_node a b ≡ true) ↔ (a ≡ b)
    go none none p q = ground (arith, eq_iff a.group_id b.group_id)
    go none (some t) p q = ground (arith, eq_iff a.group_id b.group_id)
    go (some s) none p q = ground (arith, eq_iff a.group_id b.group_id)
    go (some s) (some t) p q = ground (arith, eq_iff a.group_id b.group_id, eq_iff s t)

pub new_nodes-sub :
    (seen nodes : List Node) (n : Node) → Memᴰ n (new_nodes seen nodes) → Memᴰ n nodes
unfolding new_nodes
new_nodes-sub seen [] n m = m
new_nodes-sub seen (x ∷ nodes) n m = elim (Bool-cases (any (λ other. same_node other x) seen)) [
  | inl old ↦ Memᴰ.tail (new_nodes-sub seen nodes n (rw old at m))
  | inr new ↦
      let m' : Memᴰ n (x ∷ new_nodes (x ∷ seen) nodes) = rw new at m in
      ⊎_elim Memᴰ.head (λ k. Memᴰ.tail (new_nodes-sub (x ∷ seen) nodes n k)) (Memᴰ.cases_cons m')
]

pub new_nodes-cover :
    (seen nodes : List Node) (n : Node) → Memᴰ n nodes → Memᴰ n seen ⊎ Memᴰ n (new_nodes seen nodes)
unfolding new_nodes
new_nodes-cover seen [] n m = absurd (Memᴰ.not-nil m)
new_nodes-cover seen (x ∷ nodes) n m = elim (Bool-cases (any (λ other. same_node other x) seen)) [
  | inl old ↦ rw old (
      ⊎_elim
        (λ e.
          let (y, k, same) = (any_iff (λ other. same_node other x) seen).0 old in
          inl (Memᴰ.cast (e ∙ sym ((same_node_iff y x).0 same)) k))
        (new_nodes-cover seen nodes n) (Memᴰ.cases_cons m))
  | inr new ↦ rw new (
      ⊎_elim (λ e. inr (Memᴰ.head e))
        (λ k.
          ⊎_elim (λ j. ⊎_elim (λ e. inr (Memᴰ.head e)) inl (Memᴰ.cases_cons j))
            (λ j. inr (Memᴰ.tail j)) (new_nodes-cover (x ∷ seen) nodes n k))
        (Memᴰ.cases_cons m))
]

module _ (db : Db) where
  abbrev pub IsChild : Node → Node → Type 0
  IsChild a n =
      (b : GroupHierarchy) × Memᴰ b db.hierarchies
      × (a.group_id ≡ b.parent_group_id)
      × (live db a.group_id ≡ true)
      × (n ≡ child_node a b)

  abbrev follows : Node → GroupHierarchy → Bool
  follows a b = a.group_id == b.parent_group_id && live db a.group_id

  follows_iff :
      (a : Node) (b : GroupHierarchy)
      → (follows a b ≡ true) ↔ ((a.group_id ≡ b.parent_group_id) × (live db a.group_id ≡ true))
  follows_iff a b = ground (arith, eq_iff a.group_id b.parent_group_id)

  pub mem-descend :
      (n : Node) (nodes : List Node)
      → Memᴰ n (descend db nodes) ↔ ((a : Node) × Memᴰ a nodes × IsChild a n)
  unfolding descend
  mem-descend n nodes =
      let down = λ (a : Node). map (child_node a) (filter (follows a) db.hierarchies) in
      let (into, back) = Memᴰ-flat_map down n nodes in
      (
        λ m.
            let (a, k, l) = into m in
            let (b, j, e) = Memᴰ.of_map (child_node a) _ l in
            let (listed, test) = (Memᴰ-filter (follows a) b db.hierarchies).0 j in
            let (p, q) = (follows_iff a b).0 test in (a, k, (b, listed, p, q, sym e)),
        λ (a, k, child).
            let (b, listed, p, q, e) = child in
            back (
              a,
              k,
              subst (λ x. Memᴰ x (down a)) (sym e)
                  (Memᴰ.map (child_node a) (
                    (Memᴰ-filter (follows a) b db.hierarchies).1
                      (listed, (follows_iff a b).1 (p, q)))),
            ),
      )

  pub recurse_union-All :
      (P : Node → Type 0)
      → ((a n : Node) → P a → IsChild a n → P n)
      → (fuel : ℕ) (seen working out : List Node) → recurse_union fuel db seen working ≡ some out
      → ((n : Node) → Memᴰ n seen → P n)
      → ((n : Node) → Memᴰ n working → P n)
      → (n : Node) → Memᴰ n out
      → P n
  unfolding recurse_union
  recurse_union-All P step zero seen [] out e hs hw n m =
      hs n (subst (Memᴰ n) (sym (eq_of_some e)) m)
  recurse_union-All P step zero seen (x ∷ working) out e hs hw n m = cc
  recurse_union-All P step (suc fuel) seen [] out e hs hw n m =
      hs n (subst (Memᴰ n) (sym (eq_of_some e)) m)
  recurse_union-All P step (suc fuel) seen (x ∷ working) out e hs hw n m =
      let new = new_nodes seen (descend db (x ∷ working)) in
      let hn : (k : Node) → Memᴰ k new → P k = λ k j.
        let (a, l, child) = (mem-descend k (x ∷ working)).0 (new_nodes-sub seen _ k j) in
        step a k (hw a l) child in
      recurse_union-All P step fuel (seen ++ new) new out e
        (λ k j. ⊎_elim (hs k) (hn k) (Memᴰ.append_cases seen j)) hn n m

  -- A node that has been seen is still to be expanded, or its children have been seen.
  abbrev IsExpanded : List Node → List Node → Type 0
  IsExpanded seen working = (a n : Node) → Memᴰ a seen → IsChild a n → Memᴰ a working ⊎ Memᴰ n seen

  pub recurse_union-closed :
      (fuel : ℕ) (seen working out : List Node)
      → recurse_union fuel db seen working ≡ some out
      → IsExpanded seen working
      → ((n : Node) → Memᴰ n seen → Memᴰ n out)
        × ((a n : Node) → Memᴰ a out → IsChild a n → Memᴰ n out)
  unfolding recurse_union
  recurse_union-closed zero seen [] out e h =
      let whole : seen ≡ out = eq_of_some e in
      (
        λ n m. subst (Memᴰ n) whole m,
        λ a n m c.
            ⊎_elim (λ left. absurd (Memᴰ.not-nil left)) (subst (Memᴰ n) whole)
              (h a n (subst (Memᴰ a) (sym whole) m) c),
      )
  recurse_union-closed zero seen (x ∷ working) out e h = cc
  recurse_union-closed (suc fuel) seen [] out e h =
      let whole : seen ≡ out = eq_of_some e in
      (
        λ n m. subst (Memᴰ n) whole m,
        λ a n m c.
            ⊎_elim (λ left. absurd (Memᴰ.not-nil left)) (subst (Memᴰ n) whole)
              (h a n (subst (Memᴰ a) (sym whole) m) c),
      )
  recurse_union-closed (suc fuel) seen (x ∷ working) out e h =
      let new = new_nodes seen (descend db (x ∷ working)) in
      let (kept, closed) = recurse_union-closed fuel (seen ++ new) new out e (λ a n m c.
        ⊎_elim
          (λ old. inr (
            ⊎_elim
              (λ left. ⊎_elim (Memᴰ.append_left new) (Memᴰ.append_right seen) (
                new_nodes-cover seen (descend db (x ∷ working)) n
                  ((mem-descend n (x ∷ working)).1 (a, left, c))))
              (Memᴰ.append_left new) (h a n old c)))
          inl (Memᴰ.append_cases seen m)) in
      (λ n m. kept n (Memᴰ.append_left new m), closed)
