-- ===== src/Hierarchy/Adjacency.antt =====
-- What the map of slices holds: the edges of the rows from which it was collected.
use mathlib.Core.List.Memᴰ
use governor_api.Prelude.{
  ◌≤◌, suc, String, ◌≡◌, refl, sym, ◌↔◌, ◌⊎◌, inl, inr, ⊎_elim, Option, none, some, List, [], ◌∷◌,
  ◌++◌, Memᴰ, length, arith, ◌==◌, eq_iff, eq-cases, if◌then◌else◌,
}
use governor_api.Db.{GroupHierarchy}
use governor_api.Hierarchy.{Adjacency, lookup, append_member, collect, keys}

abbrev pub or_nil : Option (List String) → List String
or_nil none = []
or_nil (some members) = members

-- hierarchies[id]
abbrev pub members_of : Adjacency → String → List String
members_of hierarchies id = or_nil (lookup id hierarchies)

abbrev pub Edge : Adjacency → String → String → Type 0
Edge hierarchies u v = Memᴰ v (members_of hierarchies u)

pub members_of-append_member :
    (p m u : String) (h : Adjacency)
    → members_of (append_member p m h) u
      ≡ (if p == u then members_of h u ++ m ∷ [] else members_of h u)
unfolding lookup append_member
members_of-append_member p m u [] = ground arith
members_of-append_member p m u ((k, ms) ∷ rest) =
    ground (arith, members_of-append_member p m u rest, eq_iff k p, eq_iff k u, eq_iff p u)

pub Edge-append_member :
    (p m : String) (h : Adjacency) (u v : String)
    → Edge (append_member p m h) u v ↔ (Edge h u v ⊎ (p ≡ u) × (m ≡ v))
Edge-append_member p m h u v = elim (eq-cases p u) [
  | inl (test, e) ↦
      rw (members_of-append_member p m u h, test)
        (
          λ x.
              ⊎_elim inl (λ l. inr (e, sym (Memᴰ.eq_of_singleton l)))
                (Memᴰ.append_cases (members_of h u) x),
          ⊎_elim (Memᴰ.append_left (m ∷ []))
              (λ (_, new). Memᴰ.append_right (members_of h u) (Memᴰ.head (sym new))),
        )
  | inr (test, ne) ↦
      rw (members_of-append_member p m u h, test) (inl, ⊎_elim (λ x. x) (λ (e, _). absurd (ne e)))
]

abbrev pub RowEdge : List GroupHierarchy → String → String → Type 0
RowEdge rows u v =
    (row : GroupHierarchy) × Memᴰ row rows × (row.parent_group_id ≡ u) × (row.member_group_id ≡ v)

pub Edge-collect :
    (h : Adjacency) (rows : List GroupHierarchy) (u v : String)
    → Edge (collect h rows) u v ↔ (Edge h u v ⊎ RowEdge rows u v)
unfolding collect
Edge-collect h [] u v = (inl, ⊎_elim (λ e. e) (λ r. absurd (Memᴰ.not-nil r.1)))
Edge-collect h (row ∷ rows) u v =
    let h' = append_member row.parent_group_id row.member_group_id h in
    let (into, back) = Edge-collect h' rows u v in
    let (split, join) = Edge-append_member row.parent_group_id row.member_group_id h u v in
    (
      λ e.
          ⊎_elim (λ old. ⊎_elim inl (λ new. inr (row, Memᴰ.head refl, new.0, new.1)) (split old))
            (λ r. inr (r.0, Memᴰ.tail r.1, r.2, r.3)) (into e),
      ⊎_elim (λ e. back (inl (join (inl e))))
          (λ (r, m, p, q). elim (Memᴰ.cases_cons m) [
            | inl same ↦ back (inl (join (inr (rw same at p, rw same at q))))
            | inr later ↦ back (inr (r, later, p, q))
          ]),
    )

-- The map has no more keys than there are rows.
pub length-append_member :
    (p m : String) (h : Adjacency) → length (append_member p m h) ≤ suc (length h)
unfolding append_member
length-append_member p m [] = omega arith
length-append_member p m ((k, ms) ∷ rest) = ground (arith, length-append_member p m rest)

pub mem-keys : (h : Adjacency) (u v : String) → Edge h u v → Memᴰ u (keys h)
unfolding lookup
mem-keys [] u v e = absurd (Memᴰ.not-nil e)
mem-keys ((k, ms) ∷ rest) u v e = elim (eq-cases k u) [
  | inl (test, same) ↦ Memᴰ.head (rw same refl)
  | inr (test, _) ↦ Memᴰ.tail (mem-keys rest u v (rw test at e))
]
