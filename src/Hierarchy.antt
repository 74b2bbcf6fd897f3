-- ===== src/Hierarchy.antt =====
-- HierarchyWouldCreateCycle of internal/dbtools/membership_enumeration.go: the search for a cycle
-- among the hierarchies of groups that are not deleted. The map of slices is an association list in
-- the order of insertion; the proofs are in the modules below.
pub mod Walks
pub mod Adjacency
pub mod Search
pub mod Cycle
pub mod Acyclic
use governor_api.Prelude.{
  ℕ, zero, suc, String, Bool, true, false, ◌&&◌, Option, none, some, List, [], ◌∷◌, ◌++◌, map,
  length, filter, ◌==◌, if◌then◌else◌,
}
use governor_api.Db.{GroupHierarchy, Db, live}

abbrev pub Adjacency : Type 0
Adjacency = List (String × List String)

unfoldable pub lookup : String → Adjacency → Option (List String)
lookup id [] = none
lookup id ((key, members) ∷ rest) = if key == id then some members else lookup id rest

-- hierarchies[parent] = append(hierarchies[parent], member)
unfoldable pub append_member : String → String → Adjacency → Adjacency
append_member parent member [] = (parent, member ∷ []) ∷ []
append_member parent member ((key, members) ∷ rest) =
    if key == parent
    then (key, members ++ member ∷ []) ∷ rest
    else (key, members) ∷ append_member parent member rest

-- The loop over the rows.
unfoldable pub collect : Adjacency → List GroupHierarchy → Adjacency
collect hierarchies [] = hierarchies
collect hierarchies (row ∷ rows) =
    collect (append_member row.parent_group_id row.member_group_id hierarchies) rows

-- contains(list, item)
unfoldable pub contains : List String → String → Bool
contains [] item = false
contains (i ∷ list) item = if i == item then true else contains list item

-- A loop that returns true at the first element for which the walk does; `none` is a walk that did
-- not end.
unfoldable pub any_walk : (String → Option Bool) → List String → Option Bool
any_walk walk [] = some false
any_walk walk (e ∷ es) = elim (walk e) [
  | none ↦ none
  | some found ↦ let rest = any_walk walk es in if found then some true else rest
]

unfoldable pub walk_node : ℕ → Adjacency → String → List String → Option Bool
walk_node zero hierarchies id visited = none
walk_node (suc fuel) hierarchies id visited = elim (lookup id hierarchies) [
  | none ↦ some false
  | some members ↦
      let deeper = any_walk (λ e. walk_node fuel hierarchies e (visited ++ id ∷ [])) members in
      if contains visited id then some true else deeper
]

-- The rows that the two inner joins keep.
abbrev pub live_hierarchies : Db → List GroupHierarchy
live_hierarchies db =
    filter (λ row. live db row.parent_group_id && live db row.member_group_id) db.hierarchies

unfoldable pub with_new : Db → String → String → Adjacency
with_new db parent member = append_member parent member (collect [] (live_hierarchies db))

abbrev pub keys : Adjacency → List String
keys = map (λ entry. entry.0)

-- The last loop, over the keys of the map.
unfoldable pub search_keys : Adjacency → Option Bool
search_keys hierarchies =
    any_walk (λ id. walk_node (suc (length hierarchies)) hierarchies id []) (keys hierarchies)

unfoldable pub would_create_cycle : Db → String → String → Option Bool
would_create_cycle db parent member = search_keys (with_new db parent member)
