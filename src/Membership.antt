-- ===== src/Membership.antt =====
-- The enumeration of memberships, internal/dbtools/membership_enumeration.go: the rows that the three
-- recursive queries return. A `WITH RECURSIVE … UNION ALL` is a recursion on fuel over the working
-- table, which is `none` if rows are left when the fuel is used up; a row of a query is an
-- `EnumeratedMembership` whose models are not populated.
pub mod Grouping
pub mod Climb
pub mod Enumeration
pub mod ByUser
pub mod ByGroup
pub mod Diff
pub mod Gained
pub mod Agreement
use mathlib.Core.Option
use governor_api.Prelude.{
  ℕ, zero, suc, String, Bool, true, false, not, ◌&&◌, ◌||◌, Option, none, some, List, [], ◌∷◌, ◌++◌,
  map, max, length, filter, any, flat_map, ◌==◌, if◌then◌else◌,
}
use governor_api.Db.{Group, User, GroupMembership, GroupHierarchy, Db, live}
use governor_api.Hierarchy.{live_hierarchies}

pub record EnumeratedMembership : Type 0 where
  pub group_id : String
  pub group : Option Group
  pub user_id : String
  pub user : Option User
  pub is_admin : Bool
  pub expires_at : Option ℕ
  pub admin_expires_at : Option ℕ
  pub direct : Bool

-- MAX, which passes over NULL.
abbrev pub max_time : Option ℕ → Option ℕ → Option ℕ
max_time none t = t
max_time (some s) none = some s
max_time (some s) (some t) = some (max s t)

-- The first SELECT of the first two queries.
abbrev pub direct_row : GroupMembership → EnumeratedMembership
direct_row m = record {
  group_id = m.group_id;
  group = none;
  user_id = m.user_id;
  user = none;
  is_admin = m.is_admin;
  expires_at = m.expires_at;
  admin_expires_at = m.admin_expires_at;
  direct = true;
}

-- The second SELECT; the queries differ in the column `expires_at`.
abbrev pub indirect_row :
    (GroupHierarchy → Option ℕ) → EnumeratedMembership → GroupHierarchy → EnumeratedMembership
indirect_row expiry a b = record {
  group_id = b.parent_group_id;
  group = none;
  user_id = a.user_id;
  user = none;
  is_admin = false;
  expires_at = expiry b;
  admin_expires_at = none;
  direct = false;
}

module _ (expiry : GroupHierarchy → Option ℕ) (db : Db) where
  pub climb : List EnumeratedMembership → List EnumeratedMembership
  climb rows =
      flat_map
        (λ a.
          map (indirect_row expiry a)
            (filter (λ b. a.group_id == b.member_group_id) (live_hierarchies db)))
        rows

  pub recurse : ℕ → List EnumeratedMembership → Option (List EnumeratedMembership)
  recurse zero [] = some []
  recurse zero (_ ∷ _) = none
  recurse (suc fuel) [] = some []
  recurse (suc fuel) (row ∷ rows) =
      Option.map (λ above. (row ∷ rows) ++ above) (recurse fuel (climb (row ∷ rows)))

abbrev pub same_key : EnumeratedMembership → String → String → Bool
same_key row group_id user_id = row.group_id == group_id && row.user_id == user_id

-- The aggregates of two rows of one group.
abbrev pub merge : EnumeratedMembership → EnumeratedMembership → EnumeratedMembership
merge a b = record a {
  is_admin = a.is_admin || b.is_admin;
  expires_at = max_time a.expires_at b.expires_at;
  admin_expires_at = max_time a.admin_expires_at b.admin_expires_at;
  direct = a.direct || b.direct;
}

pub add_to_group : EnumeratedMembership → List EnumeratedMembership → List EnumeratedMembership
add_to_group row [] = row ∷ []
add_to_group row (g ∷ groups) =
    if same_key g row.group_id row.user_id
    then merge g row ∷ groups
    else g ∷ add_to_group row groups

-- GROUP BY group_id, user_id
pub group_rows : List EnumeratedMembership → List EnumeratedMembership
group_rows [] = []
group_rows (row ∷ rows) = add_to_group row (group_rows rows)

-- CASE WHEN BOOL_OR(direct) THEN … ELSE NULL END
abbrev pub select_row : EnumeratedMembership → EnumeratedMembership
select_row row =
    if row.direct then row else record row { expires_at = none; admin_expires_at = none }

pub aggregate : List EnumeratedMembership → List EnumeratedMembership
aggregate rows = map select_row (group_rows rows)

-- A round for each row of the table, and one more.
abbrev pub recursion_fuel : Db → ℕ
recursion_fuel db = suc (length db.hierarchies)

abbrev pub direct_rows : Db → List EnumeratedMembership
direct_rows db = map direct_row (filter (λ m. live db m.group_id) db.memberships)

-- allMembershipsQuery
pub all_memberships : Db → Option (List EnumeratedMembership)
all_memberships db =
    Option.map aggregate (recurse (λ b. b.expires_at) db (recursion_fuel db) (direct_rows db))

abbrev pub direct_rows_of : Db → String → List EnumeratedMembership
direct_rows_of db user_id =
    map direct_row (filter (λ m. m.user_id == user_id && live db m.group_id) db.memberships)

-- membershipsByUserQuery
pub memberships_by_user : Db → String → Option (List EnumeratedMembership)
memberships_by_user db user_id =
    Option.map aggregate (recurse (λ _. none) db (recursion_fuel db) (direct_rows_of db user_id))

-- A row of the tables `hierarchical_groups` and `ensure_root` of membershipsByGroupQuery.
pub record Node : Type 0 where
  pub group_id : String
  pub comparator : Option String
  pub direct : Bool

abbrev same_text : Option String → Option String → Bool
same_text none none = true
same_text (some s) (some t) = s == t
same_text _ _ = false

abbrev same_flag : Bool → Bool → Bool
same_flag true b = b
same_flag false b = not b

abbrev pub same_node : Node → Node → Bool
same_node a b =
    a.group_id == b.group_id && same_text a.comparator b.comparator && same_flag a.direct b.direct

-- The rows of a list that are not in another and not listed before.
pub new_nodes : List Node → List Node → List Node
new_nodes seen [] = []
new_nodes seen (node ∷ nodes) =
    let rest = new_nodes (node ∷ seen) nodes in
    let same = new_nodes seen nodes in
    if any (λ other. same_node other node) seen then same else node ∷ rest

abbrev pub root_nodes : Db → String → List Node
root_nodes db root =
    map
      (λ b. record {
        group_id = b.parent_group_id;
        comparator = some b.member_group_id;
        direct = true;
      })
      (filter (λ b. b.parent_group_id == root) db.hierarchies)

abbrev pub child_node : Node → GroupHierarchy → Node
child_node a b = record {
  group_id = b.member_group_id;
  comparator = some a.group_id;
  direct = false;
}

pub descend : Db → List Node → List Node
descend db nodes =
    flat_map
      (λ a.
        map (child_node a)
          (filter (λ b. a.group_id == b.parent_group_id && live db a.group_id) db.hierarchies))
      nodes

-- `WITH RECURSIVE … UNION`: a round continues with the rows that are new.
pub recurse_union : ℕ → Db → List Node → List Node → Option (List Node)
recurse_union zero db seen [] = some seen
recurse_union zero db seen (_ ∷ _) = none
recurse_union (suc fuel) db seen [] = some seen
recurse_union (suc fuel) db seen (node ∷ nodes) =
    let new = new_nodes seen (descend db (node ∷ nodes)) in recurse_union fuel db (seen ++ new) new

pub hierarchical_groups : Db → String → Option (List Node)
hierarchical_groups db root =
    let first = new_nodes [] (root_nodes db root) in
    recurse_union (suc (recursion_fuel db)) db first first

abbrev pub root_node : String → Node
root_node root = record { group_id = root; comparator = none; direct = true }

-- SELECT $1, NULL, TRUE UNION SELECT * FROM hierarchical_groups
pub ensure_root : String → List Node → List Node
ensure_root root nodes = new_nodes [] (root_node root ∷ nodes)

-- A row of the join, with the columns over which the last SELECT aggregates.
abbrev pub joined_row : String → Node → GroupMembership → EnumeratedMembership
joined_row root node m = record {
  group_id = root;
  group = none;
  user_id = m.user_id;
  user = none;
  is_admin = if node.direct then m.is_admin else false;
  expires_at = m.expires_at;
  admin_expires_at = m.admin_expires_at;
  direct = node.direct;
}

pub join_memberships : Db → String → List Node → List EnumeratedMembership
join_memberships db root nodes =
    flat_map
      (λ node.
        map (joined_row root node)
          (filter (λ m. m.group_id == node.group_id && live db m.group_id) db.memberships))
      nodes

-- membershipsByGroupQuery
pub memberships_by_group : Db → String → Option (List EnumeratedMembership)
memberships_by_group db root =
    Option.map (λ nodes. aggregate (join_memberships db root (ensure_root root nodes)))
      (hierarchical_groups db root)
