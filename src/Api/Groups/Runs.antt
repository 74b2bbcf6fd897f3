-- ===== src/Api/Groups/Runs.antt =====
-- What every run of the handlers of groups does.
use governor_api.Prelude.{
  any, String, ◌≡◌, refl, not, not-false, ◌&&◌, ◌==◌, Option, none, some, List, [], map, filter,
  if◌then◌else◌,
}
use governor_api.Db.{
  GroupOrganization, GroupMembershipRequest, GroupMembership, Db, Group, GroupApplication, is_null,
}
use governor_api.Api.{
  begin_tx, find_group_row, insert_row, update_row, delete_row, delete_memberships, delete_requests,
  delete_organizations, delete_applications, Env, update, delete, Event, applications, State, ok,
  returned, send_error,
}
use governor_api.Api.Rules.{Post, After-end, After-check, After-one, After-if, After-bind}
use governor_api.Api.Chain.{◌>>=◌}
use governor_api.Api.Events.{After-bind_json}
use governor_api.Api.Writes.{publish_each}
use governor_api.Api.Writes.Runs.{
  Effect, WriteRun, refused, early, stored_alone, heard, publish_each-heard, After-write,
  After-commit_audited, After-announce,
}
use governor_api.Api.Members.{group_of_request}
use governor_api.Api.Groups.{
  GroupReq, create_group_request_validator, new_group, insert_group, save_group, create_group,
  edited, update_group, memberships_of, requests_of, organizations_of, applications_of,
  drop_memberships, drop_requests, drop_organizations, drop_applications, soft_delete_group,
  unlink_event, delete_group,
}
use governor_api.Api.Groups.Creation.{Asked, group_recorded, group_told, creation, valid_fields}

-- Every run of createGroup, whichever calls fail, is a refusal that changes nothing, or commits
-- exactly the group of the request with its audit event: its name is of letters, digits, space
-- characters and a few others, it has a description, its slug comes from the name, and it has an
-- approver group if one is given; and then publishes the event of its creation, unless the event
-- bus fails.
pub create_group-WriteRun :
    (env : Env) (body : Option GroupReq) (s : State)
    → s.tx ≡ none
    → WriteRun (creation env body s.db) s (create_group env body s).0 (create_group env body s).1
unfolding create_group
create_group-WriteRun env body s idle =
    let effect = creation env body s.db in
    let P : Post = WriteRun effect s in
    let K = λ (_ : Unit {0}) (t : State). P (ok tt) t in
    let stop : P returned (record s { tx = none; response = some 400 }) = refused 400 refl refl in
    After-end P (create_group env body s) (do
      (req, bound) ← After-bind_json P K env s body _ (early effect s idle 400)
      let group = new_group env req
      valid ←
          After-if P K s (not (create_group_request_validator group)) (send_error 400) _
            (λ _. early effect s idle 400)
      _ ← After-check P K env s begin_tx 400 _ (λ _. early effect s idle 400)
      let started = record s { tx = some s.db }
      _ ← After-write P K env started insert_row (insert_group env group) _ stop
      let waiting = record s { tx = some (insert_group env group s.db) }
      _ ← After-commit_audited P K env waiting _ _ stop
      let (named, described, legal) = valid_fields env req (not-false valid)
      let a : Asked body = record {
        req = req;
        bound = bound;
        named = named;
        described = described;
        legal = legal;
      }
      After-announce effect env s a _ _ refl (stored_alone effect s a refl))

-- A request for a group that is there, by its identifier or its slug.
pub record Edited (env : Env) (id : String) (body : Option GroupReq) (db : Db) : Type 0 where
  pub group : Group
  pub req : GroupReq
  pub found : group_of_request env db id ≡ some group
  pub bound : body ≡ some req

abbrev pub edition :
    (env : Env) (id : String) (body : Option GroupReq) (db : Db) → Effect (Edited env id body db)
edition env id body db = record {
  result = λ a.
      let new = record a.group {
        description = a.req.description;
        approver_group =
            if a.req.approver_group_id == "" then none else some a.req.approver_group_id;
      } in
      group_recorded env "group.updated" a.group.id
        (record db { groups = map (λ g. if g.id == a.group.id then new else g) db.groups });
  first = λ a. [];
  last = λ a. group_told env update a.group.id;
  code = 202;
}

-- Every run of updateGroup, whichever calls fail, is a refusal that changes nothing, or commits the
-- new description and the new approver group of the group, and nothing else of it, with the audit
-- event, and then publishes the event of the update, unless the event bus fails.
pub update_group-WriteRun :
    (env : Env) (id : String) (body : Option GroupReq) (s : State)
    → s.tx ≡ none
    → WriteRun
        (edition env id body s.db)
        s
        (update_group env id body s).0
        (update_group env id body s).1
unfolding update_group
update_group-WriteRun env id body s idle =
    let effect = edition env id body s.db in
    let P : Post = WriteRun effect s in
    let K = λ (_ : Unit {0}) (t : State). P (ok tt) t in
    let stop : P returned (record s { tx = none; response = some 400 }) = refused 400 refl refl in
    After-end P (update_group env id body s) (do
      (group, found) ←
          After-one P K env s find_group_row 404 500 (group_of_request env s.db id) _
            (λ code _. early effect s idle code)
      (req, bound) ← After-bind_json P K env s body _ (early effect s idle 400)
      _ ← After-check P K env s begin_tx 400 _ (λ _. early effect s idle 400)
      let started = record s { tx = some s.db }
      _ ← After-write P K env started update_row (save_group env (edited env group req)) _ stop
      let waiting = record s { tx = some (save_group env (edited env group req) s.db) }
      _ ← After-commit_audited P K env waiting _ _ stop
      let a : Edited env id body s.db = record {
        group = group;
        req = req;
        found = found;
        bound = bound;
      }
      After-announce effect env s a _ _ refl (stored_alone effect s a refl))

pub record Deleted (env : Env) (id : String) (db : Db) : Type 0 where
  pub group : Group
  pub found : group_of_request env db id ≡ some group

-- The links of the group to applications, and the event that tells of one that is removed, on the
-- subject of the applications themselves.
abbrev pub links_of : Db → String → List GroupApplication
links_of db group_id =
    filter (λ l. l.group_id == group_id && is_null l.deleted_at) db.group_applications

abbrev pub unlink_told : Env → GroupApplication → Event
unlink_told env link = record {
  subject = applications;
  action = delete;
  audit_id = env.audit_id;
  group_id = link.group_id;
  user_id = "";
  application_id = link.application_id;
  actor_id = elim env.user [ none ↦ "" | some actor ↦ actor.id ];
}

-- The rows without the memberships, requests and links of the group, found by their identifiers.
abbrev pub emptied : Env → Group → Db → Db
emptied env group db =
    let members = filter (λ (m : GroupMembership). m.group_id == group.id) db.memberships in
    let asked = filter (λ (r : GroupMembershipRequest). r.group_id == group.id) db.requests in
    let linked =
      filter (λ (l : GroupOrganization). l.group_id == group.id) db.group_organizations in
    record db {
      memberships = filter (λ m. not (any (λ x. x.id == m.id) members)) db.memberships;
      requests = filter (λ r. not (any (λ x. x.id == r.id) asked)) db.requests;
      group_organizations =
          filter (λ l. not (any (λ x. x.id == l.id) linked)) db.group_organizations;
      group_applications =
          map
            (λ l.
              if any (λ x. x.id == l.id) (links_of db group.id)
              then record l { deleted_at = some env.now }
              else l)
            db.group_applications;
    }

abbrev pub deletion : (env : Env) (id : String) (db : Db) → Effect (Deleted env id db)
deletion env id db = record {
  result = λ a. group_recorded env "group.deleted" a.group.id (record (emptied env a.group db) {
    groups =
        map (λ g. if g.id == a.group.id then record g { deleted_at = some env.now } else g)
          db.groups;
  });
  first = λ a. heard env 0 (map (unlink_told env) (links_of db a.group.id));
  last = λ a. group_told env delete a.group.id;
  code = 202;
}

-- Every run of deleteGroup, whichever calls fail, is a refusal that changes nothing, or commits that
-- the group is deleted, with its memberships, requests and links and the audit event, and then
-- publishes, for each application that was linked, a deletion on the subject of applications, but for
-- those that the event bus loses, and, unless it fails, the event of the deletion of the group.
pub delete_group-WriteRun :
    (env : Env) (id : String) (s : State)
    → s.tx ≡ none
    → WriteRun (deletion env id s.db) s (delete_group env id s).0 (delete_group env id s).1
unfolding delete_group
delete_group-WriteRun env id s idle =
    let effect = deletion env id s.db in
    let P : Post = WriteRun effect s in
    let K = λ (_ : Unit {0}) (t : State). P (ok tt) t in
    let stop : P returned (record s { tx = none; response = some 400 }) = refused 400 refl refl in
    let in_tx = λ (db : Db). record s { tx = some db } in
    After-end P (delete_group env id s) (do
      (group, found) ←
          After-one P K env s find_group_row 404 500 (group_of_request env s.db id) _
            (λ code _. early effect s idle code)
      _ ← After-check P K env s begin_tx 400 _ (λ _. early effect s idle 400)
      let without = λ (db : Db). drop_memberships env (memberships_of env s.db group) db
      _ ← After-write P K env (in_tx s.db) delete_memberships without _ stop
      let two = without s.db
      let drop = drop_requests env (requests_of env s.db group)
      _ ← After-write P K env (in_tx two) delete_requests drop _ stop
      let three = drop two
      let unlink = drop_organizations env (organizations_of env s.db group)
      _ ← After-write P K env (in_tx three) delete_organizations unlink _ stop
      let four = unlink three
      let links = applications_of env s.db group
      _ ← After-write P K env (in_tx four) delete_applications (drop_applications env links) _ stop
      let five = drop_applications env links four
      _ ← After-write P K env (in_tx five) delete_row (soft_delete_group env group) _ stop
      _ ← After-commit_audited P K env (in_tx (soft_delete_group env group five)) _ _ stop
      let a : Deleted env id s.db = record { group = group; found = found }
      After-bind P K (publish_each env 0 (map (unlink_event env) links) _) _ (
          rw (publish_each-heard env 0 (map (unlink_event env) links))
            (After-announce effect env s a _ _ refl refl)))
