-- ===== src/Hierarchy/Cycle.antt =====
-- HierarchyWouldCreateCycle decides whether the hierarchies have a cycle.
use mathlib.Core.List.Memᴰ
use governor_api.Prelude.{
  ℕ, zero, suc, ◌≤◌, String, ◌≡◌, refl, ◌↔◌, ◌⊎◌, inl, inr, ⊎_elim, Bool, true, false, some, [],
  length, arith,
}
use governor_api.Db.{Db}
use governor_api.Hierarchy.{
  Adjacency, lookup, collect, live_hierarchies, with_new, keys, search_keys, would_create_cycle,
}
use governor_api.Hierarchy.Walks.{Relation, Walk, HasCycle, Walk-longer, Walk-mono}
use governor_api.Hierarchy.Adjacency.{Edge, RowEdge, Edge-collect, Edge-append_member, mem-keys}
use governor_api.Hierarchy.Search.{
  fresh-nil, any_walk-true, any_walk-false, any_walk-total, walk_node_total, walk_node_sound,
  walk_node_complete,
}

pub search_keys_total : (h : Adjacency) → (b : Bool) × (search_keys h ≡ some b)
unfolding search_keys
search_keys_total h =
    any_walk-total _ (keys h)
      (λ id m. walk_node_total (suc (length h)) h id [] (omega (arith, fresh-nil h)))

-- The answer true is a cycle, and the answer false bounds every walk.
pub search_keys_sound : (h : Adjacency) → search_keys h ≡ some true → HasCycle (Edge h)
unfolding search_keys
search_keys_sound h e =
    let (id, m, found) = any_walk-true _ (keys h) e in
    walk_node_sound (suc (length h)) h id [] (λ x none_visited. absurd (Memᴰ.not-nil none_visited))
      found

pub search_keys_bound :
    (h : Adjacency)
    → search_keys h ≡ some false
    → (n : ℕ) (u w : String) → Walk (Edge h) n u w
    → n ≤ length h
unfolding search_keys
search_keys_bound h e zero u w walk = omega arith
search_keys_bound h e (suc n) u w walk =
    let ends = any_walk-false _ (keys h) e u (mem-keys h u walk.0 walk.1) in
    omega (arith, walk_node_complete (suc (length h)) h u [] ends (suc n) w walk)

pub search_keys_complete : (h : Adjacency) → search_keys h ≡ some false → ¬ HasCycle (Edge h)
search_keys_complete h e (u, n, walk) =
    let (k, le, long) = Walk-longer (Edge h) u n walk (suc (length h)) in
    absurd (omega (arith, search_keys_bound h e k u u long))

pub search_keys_decides :
    (h : Adjacency) → (b : Bool) × (search_keys h ≡ some b) × ((b ≡ true) ↔ HasCycle (Edge h))
search_keys_decides h = let (b, ends) = search_keys_total h in (b, ends, answer b ends)
  where
    answer : (b : Bool) → search_keys h ≡ some b → (b ≡ true) ↔ HasCycle (Edge h)
    answer true ends = (λ _. search_keys_sound h ends, λ _. refl)
    answer false ends = (λ e. cc, λ cycle. absurd (search_keys_complete h ends cycle))

-- A hierarchy between two groups that are not deleted.
abbrev pub LiveEdge : Db → Relation
LiveEdge db = RowEdge (live_hierarchies db)

abbrev pub IsAcyclic : Db → Type 0
IsAcyclic db = ¬ HasCycle (LiveEdge db)

-- The live hierarchies and the new one.
abbrev pub NewEdge : Db → String → String → Relation
NewEdge db parent member u v = LiveEdge db u v ⊎ (parent ≡ u) × (member ≡ v)

Edge-nil : (u v : String) → Edge [] u v → ⊥
unfolding lookup
Edge-nil u v e = Memᴰ.not-nil e

pub Edge-live :
    (db : Db) (u v : String) → Edge (collect [] (live_hierarchies db)) u v ↔ LiveEdge db u v
Edge-live db u v =
    let (into, back) = Edge-collect [] (live_hierarchies db) u v in
    (λ e. ⊎_elim (λ old. absurd (Edge-nil u v old)) (λ r. r) (into e), λ r. back (inr r))

Edge-with_new : (db : Db) (p m u v : String) → Edge (with_new db p m) u v ↔ NewEdge db p m u v
unfolding with_new
Edge-with_new db p m u v =
    let (split, join) = Edge-append_member p m (collect [] (live_hierarchies db)) u v in
    let (into, back) = Edge-live db u v in
    (
      λ e. ⊎_elim (λ old. inl (into old)) inr (split e),
      λ e. join (⊎_elim (λ old. inl (back old)) inr e),
    )

pub HasCycle-mono : (E F : Relation) → ((u v : String) → E u v → F u v) → HasCycle E → HasCycle F
HasCycle-mono E F f (u, n, walk) = (u, n, Walk-mono E F f (suc n) u u walk)

-- The check always answers, and its answer is true exactly when the hierarchies between groups that
-- are not deleted, together with the new one, have a cycle.
pub would_create_cycle_decides :
    (db : Db) (parent member : String)
    → (b : Bool) × (would_create_cycle db parent member ≡ some b)
      × ((b ≡ true) ↔ HasCycle (NewEdge db parent member))
unfolding would_create_cycle
would_create_cycle_decides db p m =
    let (b, ends, iff) = search_keys_decides (with_new db p m) in
    let (into, back) = iff in
    (
      b,
      ends,
      (
        λ e.
            HasCycle-mono (Edge (with_new db p m)) (NewEdge db p m)
              (λ u v. (Edge-with_new db p m u v).0) (into e),
        λ c. back (
            HasCycle-mono (NewEdge db p m) (Edge (with_new db p m))
              (λ u v. (Edge-with_new db p m u v).1) c),
      ),
    )
