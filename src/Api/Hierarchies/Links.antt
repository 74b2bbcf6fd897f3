-- ===== src/Api/Hierarchies/Links.antt =====
-- The hierarchies with one more: the check of addMemberGroup keeps them free of cycles.
use mathlib.Core.List.Memᴰ
use governor_api.Prelude.{
  ℕ, String, ◌≡◌, ◌≢◌, inl, inr, ⊎_elim, false, Option, none, some, [], ◌∷◌, ◌++◌, Memᴰ-filter,
  ◌&&◌,
}
use governor_api.Db.{Db, GroupHierarchy, live}
use governor_api.Hierarchy.{would_create_cycle}
use governor_api.Hierarchy.Walks.{HasCycle}
use governor_api.Hierarchy.Cycle.{
  LiveEdge, IsAcyclic, NewEdge, HasCycle-mono, would_create_cycle_decides,
}
use governor_api.Membership.{all_memberships}
use governor_api.Membership.ByUser.{all_memberships-IsEnumeration}
use governor_api.Api.{Env}
use governor_api.Api.Audit.{insert_audit, audit_group_hierarchy_created}
use governor_api.Api.Hierarchies.{new_hierarchy, insert_hierarchy}

-- The rows after the handler: the new hierarchy and its audit event.
abbrev pub added : Env → Db → String → String → Option ℕ → Db
added env db parent member expires =
    let row = new_hierarchy env parent member expires in
    insert_audit (audit_group_hierarchy_created env.audit_id env.user row)
      (insert_hierarchy env row db)

-- A check that answers false was made on hierarchies with no cycle, and none comes with the new one.
not-cycle :
    (db : Db) (p m : String) → would_create_cycle db p m ≡ some false → ¬ HasCycle (NewEdge db p m)
not-cycle db p m e cycle =
    let (b, ends, iff) = would_create_cycle_decides db p m in cc (iff.1 cycle)

pub before-IsAcyclic :
    (db : Db) (p m : String) → would_create_cycle db p m ≡ some false → IsAcyclic db
before-IsAcyclic db p m e cycle =
    not-cycle db p m e (HasCycle-mono (LiveEdge db) (NewEdge db p m) (λ u v. inl) cycle)

LiveEdge-added :
    (env : Env) (db : Db) (p m : String) (expires : Option ℕ) (u v : String)
    → LiveEdge (added env db p m expires) u v
    → NewEdge db p m u v
LiveEdge-added env db p m expires u v (row, n, is_u, is_v) =
    let test = λ (r : GroupHierarchy). live db r.parent_group_id && live db r.member_group_id in
    let new = new_hierarchy env p m expires in
    let (listed, alive) = (Memᴰ-filter test row (db.hierarchies ++ new ∷ [])).0 n in
    ⊎_elim (λ old. inl (row, (Memᴰ-filter test row db.hierarchies).1 (old, alive), is_u, is_v))
      (λ last. let e = Memᴰ.eq_of_singleton last in inr (rw e at is_u, rw e at is_v))
      (Memᴰ.append_cases db.hierarchies listed)

pub added-IsAcyclic :
    (env : Env) (db : Db) (p m : String) (expires : Option ℕ)
    → would_create_cycle db p m ≡ some false
    → IsAcyclic (added env db p m expires)
added-IsAcyclic env db p m expires e cycle = not-cycle db p m e (
    HasCycle-mono (LiveEdge (added env db p m expires)) (NewEdge db p m)
      (LiveEdge-added env db p m expires) cycle)

pub enumerates : (db : Db) → IsAcyclic db → all_memberships db ≢ none
enumerates db acyclic e = let (rows, ends, _) = all_memberships-IsEnumeration db acyclic in cc
