-- ===== src/Tests/Sample.antt =====
-- Three groups, of which `old` is deleted; `dev` is below `staff`, and ann is a member of `dev`.
use governor_api.Prelude.{ℕ, ◌≡◌, refl, false, true, String, Option, none, some, [], ◌∷◌}
use governor_api.Db.{Group, User, GroupMembership, GroupHierarchy, Db}
use governor_api.Hierarchy.{
  would_create_cycle, search_keys, with_new, collect, append_member, any_walk, walk_node, lookup,
  contains,
}
use governor_api.Hierarchy.Cycle.{IsAcyclic}
use governor_api.Api.Hierarchies.Links.{before-IsAcyclic}
use governor_api.Api.{Env, State}

abbrev group_named : String → Option ℕ → Group
group_named id deleted = record {
  id = id;
  name = id;
  slug = id;
  description = "a group";
  note = "";
  approver_group = none;
  deleted_at = deleted;
}

abbrev pub staff : Group
staff = group_named "staff" none

abbrev pub dev : Group
dev = group_named "dev" none

abbrev old : Group
old = group_named "old" (some 5)

abbrev pub ann : User
ann = record {
  id = "ann";
  external_id = some "x1";
  name = "Ann";
  email = "ann@example.com";
  status = some "active";
  avatar_url = none;
  github_id = none;
  github_username = none;
  deleted_at = none;
}

abbrev pub ann_in_dev : GroupMembership
ann_in_dev = record {
  id = "m1";
  group_id = "dev";
  user_id = "ann";
  is_admin = true;
  expires_at = some 40;
  admin_expires_at = none;
}

abbrev pub dev_in_staff : GroupHierarchy
dev_in_staff = record {
  id = "h1";
  parent_group_id = "staff";
  member_group_id = "dev";
  expires_at = some 90;
}

abbrev pub flat : Db
flat = record {
  groups = staff ∷ dev ∷ old ∷ [];
  users = ann ∷ [];
  memberships = ann_in_dev ∷ [];
  hierarchies = [];
  requests = [];
  organizations = [];
  group_organizations = [];
  group_applications = [];
  applications = [];
  app_requests = [];
  extensions = [];
  extension_resource_definitions = [];
  audit_events = [];
}

abbrev pub sample : Db
sample = record flat { hierarchies = dev_in_staff ∷ [] }

abbrev pub calm : Env
calm = record {
  fails = λ _. false;
  fails_at = 9;
  fresh_id = "new";
  is_lost = λ _. false;
  is_uuid = λ _. true;
  slug_of = λ s. s;
  lower = λ s. s;
  audit_id = "audit";
  now = 10;
  user = some ann;
  has_relations = true;
}

abbrev pub state_of : Db → State
state_of db = record { db = db; tx = none; published = []; response = none }

pub flat_check : would_create_cycle flat "staff" "dev" ≡ some false
unfolding would_create_cycle search_keys with_new collect append_member any_walk walk_node lookup
    contains
flat_check = refl

pub sample_check : would_create_cycle sample "staff" "old" ≡ some false
unfolding would_create_cycle search_keys with_new collect append_member any_walk walk_node lookup
    contains
sample_check = refl

pub cycle_check : would_create_cycle sample "dev" "staff" ≡ some true
unfolding would_create_cycle search_keys with_new collect append_member any_walk walk_node lookup
    contains
cycle_check = refl

pub flat-IsAcyclic : IsAcyclic flat
flat-IsAcyclic = before-IsAcyclic flat "staff" "dev" flat_check

pub sample-IsAcyclic : IsAcyclic sample
sample-IsAcyclic = before-IsAcyclic sample "staff" "old" sample_check
