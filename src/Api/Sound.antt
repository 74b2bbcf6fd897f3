-- ===== src/Api/Sound.antt =====
-- What the database promises between two requests, and that each statement of the handlers keeps it.
-- Neither is a constraint of the database: the code checks for a row of the pair, and for a cycle.
use governor_api.Prelude.{
  String, ◌≡◌, ◌≢◌, true, false, ◌&&◌, ◌==◌, eq_iff, eq_refl, Memᴰ, any_iff, some, arith,
}
use governor_api.Db.{
  Db, Group, GroupMembership, GroupHierarchy, live, find_group, is_null, find-some,
}
use governor_api.Db.Keys.{HasKeys}
use governor_api.Hierarchy.Cycle.{IsAcyclic}
use governor_api.Api.{Env}
use governor_api.Api.Hierarchies.{linked}
use governor_api.Api.Members.{membership_exists}

abbrev pub member_pair : GroupMembership → String × String
member_pair m = (m.group_id, m.user_id)

abbrev pub hierarchy_pair : GroupHierarchy → String × String
hierarchy_pair h = (h.parent_group_id, h.member_group_id)

abbrev pub HasMemberKeys : Db → Type 0
HasMemberKeys db = HasKeys (λ m. m.id) member_pair db.memberships

abbrev pub HasHierarchyKeys : Db → Type 0
HasHierarchyKeys db = HasKeys (λ h. h.id) hierarchy_pair db.hierarchies

-- No cycle, and different identifiers and pairs in both tables.
pub record IsSound (db : Db) : Type 0 where
  pub acyclic : IsAcyclic db
  pub member_keys : HasMemberKeys db
  pub hierarchy_keys : HasHierarchyKeys db

-- The database gives a new row an identifier that no row has, and that no hierarchy refers to.
pub record IsFresh (env : Env) (db : Db) : Type 0 where
  pub no_member : (m : GroupMembership) → Memᴰ m db.memberships → m.id ≢ env.fresh_id
  pub no_hierarchy : (h : GroupHierarchy) → Memᴰ h db.hierarchies → h.id ≢ env.fresh_id
  pub no_reference :
      (h : GroupHierarchy)
      → Memᴰ h db.hierarchies
      → (h.parent_group_id ≢ env.fresh_id) × (h.member_group_id ≢ env.fresh_id)

pub not-membership_exists :
    (env : Env) (db : Db) (group_id user_id : String)
    → membership_exists env db group_id user_id ≡ false
    → (m : GroupMembership) → Memᴰ m db.memberships
    → member_pair m ≢ (group_id, user_id)
not-membership_exists env db group_id user_id absent m listed same =
    let test = λ (m : GroupMembership). m.group_id == group_id && m.user_id == user_id in
    let g : (m.group_id == group_id) ≡ true = (eq_iff m.group_id group_id).1 (cc same) in
    let u : (m.user_id == user_id) ≡ true = (eq_iff m.user_id user_id).1 (cc same) in
    let found = (any_iff test db.memberships).1 (m, listed, ground (arith, g, u)) in
    cc (found, absent)

find_group-live :
    (db : Db) (id : String) (g : Group) → find_group db id ≡ some g → live db g.id ≡ true
find_group-live db id g found =
    let (listed, test) = find-some (λ g. g.id == id && is_null g.deleted_at) db.groups found in
    (any_iff (λ (h : Group). h.id == g.id && is_null h.deleted_at) db.groups).1
      (g, listed, ground (arith, test, eq_refl g.id))

pub not-linked :
    (env : Env) (db : Db) (id : String) (parent member : Group)
    → find_group db id ≡ some member
    → linked env db parent.id member.id ≡ false
    → (h : GroupHierarchy) → Memᴰ h db.hierarchies
    → hierarchy_pair h ≢ (parent.id, member.id)
not-linked env db id parent member found absent h listed same =
    let test = λ (h : GroupHierarchy).
      live db h.member_group_id
      && h.parent_group_id == parent.id
      && h.member_group_id == member.id in
    let is_member : h.member_group_id ≡ member.id = cc same in
    let alive : live db h.member_group_id ≡ true =
      rw is_member (find_group-live db id member found) in
    let p : (h.parent_group_id == parent.id) ≡ true =
      (eq_iff h.parent_group_id parent.id).1 (cc same) in
    let m : (h.member_group_id == member.id) ≡ true =
      (eq_iff h.member_group_id member.id).1 is_member in
    let linked' = (any_iff test db.hierarchies).1 (h, listed, ground (arith, alive, p, m)) in
    cc (linked', absent)
