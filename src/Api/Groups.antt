-- ===== src/Api/Groups.antt =====
-- createGroup, updateGroup and deleteGroup of pkg/api/v1alpha1/groups.go. slug.Make is a part of the
-- environment.
pub mod Runs
pub mod Creation
pub mod Live
pub mod Keep
pub mod Clear
use governor_api.Prelude.{
  ℕ, String, Bool, false, true, not, ◌&&◌, ◌||◌, Option, none, some, List, [], ◌∷◌, ◌++◌, map,
  filter, leb, nat_eq, codes, ◌==◌, if◌then◌else◌,
}
use governor_api.Db.{
  Db, Group, GroupMembership, GroupMembershipRequest, GroupOrganization, GroupApplication, is_null,
}
use governor_api.Api.{
  begin_tx, find_group_row, insert_row, update_row, delete_row, delete_memberships, delete_requests,
  delete_organizations, delete_applications, Env, Action, create, update, delete, Event, groups,
  applications, Handler, ◌>>=◌, ◌>>◌, send_error, committed_rows, begin, check, one, actor_id,
}
use governor_api.Api.Events.{bind_json}
use governor_api.Api.Audit.{audit_group_created, audit_group_updated, audit_group_deleted}
use governor_api.Api.Writes.{write, commit_audited, announce, publish_each, is_loaded, delete_all}
use governor_api.Api.Members.{group_of_request}

pub record GroupReq : Type 0 where
  pub name : String
  pub description : String
  pub note : String
  pub approver_group_id : String

-- A-Z, a-z, 0-9, and ( ) [ ] & - . with the space characters of `\s`.
abbrev pub is_name_char : ℕ → Bool
is_name_char c =
    (leb b'A' c && leb c b'Z')
    || (leb b'a' c && leb c b'z')
    || (leb b'0' c && leb c b'9')
    || nat_eq c b'('
    || nat_eq c b')'
    || nat_eq c b'['
    || nat_eq c b']'
    || nat_eq c 9
    || nat_eq c 10
    || nat_eq c 12
    || nat_eq c 13
    || nat_eq c 32
    || nat_eq c b'&'
    || nat_eq c b'-'
    || nat_eq c b'.'

abbrev pub all_name_chars : List ℕ → Bool
all_name_chars [] = true
all_name_chars (c ∷ cs) = is_name_char c && all_name_chars cs

-- MatchString with the anchors and `+`
abbrev pub group_name_checker : List ℕ → Bool
group_name_checker [] = false
group_name_checker (c ∷ cs) = all_name_chars (c ∷ cs)

abbrev pub create_group_request_validator : Group → Bool
create_group_request_validator group =
    if group.name == "" || group.description == ""
    then false
    else group_name_checker (codes group.name)

abbrev pub approver_of : String → Option String
approver_of id = if id == "" then none else some id

module _ (env : Env) where
  abbrev pub new_group : GroupReq → Group
  new_group req = record {
    id = env.fresh_id;
    name = req.name;
    slug = env.slug_of req.name;
    description = req.description;
    note = req.note;
    approver_group = approver_of req.approver_group_id;
    deleted_at = none;
  }

  abbrev pub group_event : Action → String → Event
  group_event action group_id = record {
    subject = groups;
    action = action;
    audit_id = env.audit_id;
    group_id = group_id;
    user_id = "";
    application_id = "";
    actor_id = actor_id env;
  }

  abbrev pub insert_group : Group → Db → Db
  insert_group row db = record db { groups = db.groups ++ row ∷ [] }

  abbrev pub save_group : Group → Db → Db
  save_group new db = record db { groups = map (λ g. if g.id == new.id then new else g) db.groups }

  unfoldable pub create_group : Option GroupReq → Handler (Unit {0})
  create_group body = do
    req ← bind_json env body
    let group = new_group req
    if not (create_group_request_validator group) then send_error 400 else do
      check env begin_tx 400
      _ ← begin
      write env insert_row (insert_group group)
      commit_audited env (audit_group_created env.audit_id env.user group)
      announce env (group_event create group.id) 202

  abbrev pub edited : Group → GroupReq → Group
  edited group req = record group {
    approver_group = approver_of req.approver_group_id;
    description = req.description;
  }

  unfoldable pub update_group : String → Option GroupReq → Handler (Unit {0})
  update_group id body = do
    rows ← committed_rows
    group ← one env find_group_row 404 500 (group_of_request env rows id)
    req ← bind_json env body
    check env begin_tx 400
    _ ← begin
    write env update_row (save_group (edited group req))
    commit_audited env (audit_group_updated env.audit_id env.user (edited group req))
    announce env (group_event update group.id) 202

  -- What qm.Load brings with the group; links to applications are soft-deleted.
  abbrev pub memberships_of : Db → Group → List GroupMembership
  memberships_of db group = filter (λ m. m.group_id == group.id) db.memberships

  abbrev pub requests_of : Db → Group → List GroupMembershipRequest
  requests_of db group = filter (λ r. r.group_id == group.id) db.requests

  abbrev pub organizations_of : Db → Group → List GroupOrganization
  organizations_of db group = filter (λ l. l.group_id == group.id) db.group_organizations

  abbrev pub applications_of : Db → Group → List GroupApplication
  applications_of db group =
      filter (λ l. l.group_id == group.id && is_null l.deleted_at) db.group_applications

  abbrev pub drop_memberships : List GroupMembership → Db → Db
  drop_memberships loaded db = record db {
    memberships = delete_all (λ m. m.id) loaded db.memberships;
  }

  abbrev pub drop_requests : List GroupMembershipRequest → Db → Db
  drop_requests loaded db = record db { requests = delete_all (λ r. r.id) loaded db.requests }

  abbrev pub drop_organizations : List GroupOrganization → Db → Db
  drop_organizations loaded db = record db {
    group_organizations = delete_all (λ l. l.id) loaded db.group_organizations;
  }

  abbrev pub drop_applications : List GroupApplication → Db → Db
  drop_applications loaded db = record db {
    group_applications =
        map
          (λ l.
            if is_loaded (λ l. l.id) loaded l then record l { deleted_at = some env.now } else l)
          db.group_applications;
  }

  -- UPDATE groups SET deleted_at = … WHERE id = …
  abbrev pub soft_delete_group : Group → Db → Db
  soft_delete_group group db = record db {
    groups =
        map (λ g. if g.id == group.id then record g { deleted_at = some env.now } else g) db.groups;
  }

  abbrev pub unlink_event : GroupApplication → Event
  unlink_event app = record {
    subject = applications;
    action = delete;
    audit_id = env.audit_id;
    group_id = app.group_id;
    user_id = "";
    application_id = app.application_id;
    actor_id = actor_id env;
  }

  unfoldable pub delete_group : String → Handler (Unit {0})
  delete_group id = do
    rows ← committed_rows
    group ← one env find_group_row 404 500 (group_of_request env rows id)
    check env begin_tx 400
    _ ← begin
    write env delete_memberships (drop_memberships (memberships_of rows group))
    write env delete_requests (drop_requests (requests_of rows group))
    write env delete_organizations (drop_organizations (organizations_of rows group))
    let app_links = applications_of rows group
    write env delete_applications (drop_applications app_links)
    write env delete_row (soft_delete_group group)
    commit_audited env (audit_group_deleted env.audit_id env.user group)
    publish_each env 0 (map unlink_event app_links)
    announce env (group_event delete group.id) 202
