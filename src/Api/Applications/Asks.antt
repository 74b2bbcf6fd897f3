-- ===== src/Api/Applications/Asks.antt =====
-- What every run of createGroupAppRequest and deleteGroupAppRequest does.
use governor_api.Prelude.{
  String, ◌≡◌, refl, false, not, not-false, Option, none, some, [], ◌∷◌, ◌==◌, eq_iff,
}
use governor_api.Db.{Db, Group, User, Application, GroupApplicationRequest}
use governor_api.Api.{
  begin_tx, find_group_row, find_app_row, find_row, insert_row, delete_row, Env, create, revoke,
  application_link_requests, State, ok, returned, send_error,
}
use governor_api.Api.Chain.{◌>>=◌}
use governor_api.Api.Rules.{Post, After-end, After-check, After-one, After-if, After-match}
use governor_api.Api.Events.{After-bind_json}
use governor_api.Api.Audit.{
  insert_audit, audit_group_application_request_created, audit_group_application_request_revoked,
}
use governor_api.Api.Writes.Runs.{
  Effect, WriteRun, refused, early, stored_alone, After-write, After-commit_audited, After-announce,
}
use governor_api.Api.Members.{group_of_request}
use governor_api.Api.Applications.{
  CreateGroupAppReq, find_application, link_exists, find_app_request, app_request_exists,
  new_app_request, insert_app_request, delete_app_request, application_event, create_app_request_as,
  create_group_app_request, delete_app_request_as, delete_group_app_request,
}

-- A request for a link that is neither there nor asked for, to an application with an approver group.
pub record Asking (env : Env) (gid : String) (body : Option CreateGroupAppReq) (db : Db)
    : Type 0 where
  pub actor : User
  pub group : Group
  pub req : CreateGroupAppReq
  pub app : Application
  pub approver : String
  pub acts : env.user ≡ some actor
  pub found_group : group_of_request env db gid ≡ some group
  pub bound : body ≡ some req
  pub found_app : find_application env db req.application_id ≡ some app
  pub needs : app.approver_group_id ≡ some approver
  pub absent : link_exists env db group.id app.id ≡ false
  pub not_asked : app_request_exists env db group.id app.id ≡ false

abbrev pub asking :
    (env : Env) (gid : String) (body : Option CreateGroupAppReq) (db : Db)
    → Effect (Asking env gid body db)
asking env gid body db = record {
  result = λ a.
      let request = new_app_request env a.actor a.group.id a.app.id a.approver a.req in
      insert_audit (audit_group_application_request_created env.audit_id env.user request)
        (insert_app_request env request db);
  first = λ a. [];
  last = λ a. application_event env application_link_requests create a.group.id a.app.id ∷ [];
  code = 204;
}

-- Every run of createGroupAppRequest, whichever calls fail, is a refusal that changes nothing, or
-- commits exactly the request of the actor for a link that is neither there nor asked for, to be
-- approved by the approver group that the application has now, with its audit event, and then
-- publishes the event of the request, unless the event bus fails.
pub create_group_app_request-WriteRun :
    (env : Env) (gid : String) (body : Option CreateGroupAppReq) (s : State)
    → s.tx ≡ none
    → WriteRun
        (asking env gid body s.db)
        s
        (create_group_app_request env gid body s).0
        (create_group_app_request env gid body s).1
unfolding create_group_app_request create_app_request_as
create_group_app_request-WriteRun env gid body s idle =
    let effect = asking env gid body s.db in
    let P : Post = WriteRun effect s in
    let K = λ (_ : Unit {0}) (t : State). P (ok tt) t in
    let stop : P returned (record s { tx = none; response = some 400 }) = refused 400 refl refl in
    After-end P (create_group_app_request env gid body s) (do
      (actor, acts) ← After-match P K s env.user _ _ (λ _. early effect s idle 401)
      (group, found_group) ←
          After-one P K env s find_group_row 404 500 (group_of_request env s.db gid) _
            (λ code _. early effect s idle code)
      (req, bound) ← After-bind_json P K env s body _ (early effect s idle 400)
      _ ←
          After-if P K s (req.application_id == "") (send_error 400) _
            (λ _. early effect s idle 400)
      _ ←
          After-if P K s (not (env.is_uuid req.application_id)) (send_error 400) _
            (λ _. early effect s idle 400)
      (app, found_app) ←
          After-one P K env s find_app_row 400 500 (find_application env s.db req.application_id) _
            (λ code _. early effect s idle code)
      (approver, needs) ← After-match P K s app.approver_group_id _ _ (λ _. early effect s idle 400)
      absent ←
          After-if P K s (link_exists env s.db group.id app.id) (send_error 409) _
            (λ _. early effect s idle 409)
      not_asked ←
          After-if P K s (app_request_exists env s.db group.id app.id) (send_error 409) _
            (λ _. early effect s idle 409)
      _ ← After-check P K env s begin_tx 400 _ (λ _. early effect s idle 400)
      let insert = insert_app_request env (new_app_request env actor group.id app.id approver req)
      _ ← After-write P K env (record s { tx = some s.db }) insert_row insert _ stop
      let request = new_app_request env actor group.id app.id approver req
      _ ←
          After-commit_audited P K env (record s { tx = some (insert s.db) })
            (audit_group_application_request_created env.audit_id env.user request) _ stop
      let a : Asking env gid body s.db = record {
        actor = actor;
        group = group;
        req = req;
        app = app;
        approver = approver;
        acts = acts;
        found_group = found_group;
        bound = bound;
        found_app = found_app;
        needs = needs;
        absent = absent;
        not_asked = not_asked;
      }
      After-announce effect env s a _ _ refl (stored_alone effect s a refl))

-- A request of the actor for the group.
pub record Revoking (env : Env) (gid rid : String) (db : Db) : Type 0 where
  pub actor : User
  pub group : Group
  pub request : GroupApplicationRequest
  pub acts : env.user ≡ some actor
  pub found_group : group_of_request env db gid ≡ some group
  pub found : find_app_request env db rid ≡ some request
  pub of_group : request.group_id ≡ group.id
  pub own : request.requester_user_id ≡ actor.id

abbrev pub revoking : (env : Env) (gid rid : String) (db : Db) → Effect (Revoking env gid rid db)
revoking env gid rid db = record {
  result = λ a.
      insert_audit (audit_group_application_request_revoked env.audit_id env.user a.request)
        (delete_app_request env a.request db);
  first = λ a. [];
  last = λ a.
      application_event env application_link_requests revoke a.group.id a.request.application_id
      ∷ [];
  code = 204;
}

-- Every run of deleteGroupAppRequest, whichever calls fail, is a refusal that changes nothing, or
-- commits exactly that a request of the actor for the group is gone, with the audit event of its
-- revocation, and then publishes the event of it, unless the event bus fails.
pub delete_group_app_request-WriteRun :
    (env : Env) (gid rid : String) (s : State)
    → s.tx ≡ none
    → WriteRun
        (revoking env gid rid s.db)
        s
        (delete_group_app_request env gid rid s).0
        (delete_group_app_request env gid rid s).1
unfolding delete_group_app_request delete_app_request_as
delete_group_app_request-WriteRun env gid rid s idle =
    let effect = revoking env gid rid s.db in
    let P : Post = WriteRun effect s in
    let K = λ (_ : Unit {0}) (t : State). P (ok tt) t in
    let stop : P returned (record s { tx = none; response = some 400 }) = refused 400 refl refl in
    After-end P (delete_group_app_request env gid rid s) (do
      (actor, acts) ← After-match P K s env.user _ _ (λ _. early effect s idle 401)
      (group, found_group) ←
          After-one P K env s find_group_row 404 500 (group_of_request env s.db gid) _
            (λ code _. early effect s idle code)
      (request, found) ←
          After-one P K env s find_row 404 500 (find_app_request env s.db rid) _
            (λ code _. early effect s idle code)
      of_group ←
          After-if P K s (not (request.group_id == group.id)) (send_error 400) _
            (λ _. early effect s idle 400)
      own ←
          After-if P K s (not (request.requester_user_id == actor.id)) (send_error 400) _
            (λ _. early effect s idle 400)
      _ ← After-check P K env s begin_tx 400 _ (λ _. early effect s idle 400)
      let remove = delete_app_request env request
      _ ← After-write P K env (record s { tx = some s.db }) delete_row remove _ stop
      _ ←
          After-commit_audited P K env (record s { tx = some (remove s.db) })
            (audit_group_application_request_revoked env.audit_id env.user request) _ stop
      let a : Revoking env gid rid s.db = record {
        actor = actor;
        group = group;
        request = request;
        acts = acts;
        found_group = found_group;
        found = found;
        of_group = (eq_iff request.group_id group.id).0 (not-false of_group);
        own = (eq_iff request.requester_user_id actor.id).0 (not-false own);
      }
      After-announce effect env s a _ _ refl (stored_alone effect s a refl))
