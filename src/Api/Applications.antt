-- ===== src/Api/Applications.antt =====
-- pkg/api/v1alpha1/group_applications.go: the links of a group to applications. A link to an
-- application with an approver group is asked for by a user, and approved or denied by a member of
-- that group.
pub mod Links
pub mod Asks
pub mod Process
pub mod Unique
use governor_api.Prelude.{
  String, Bool, true, false, not, Option, none, some, List, [], ◌∷◌, ◌++◌, map, filter, any, ◌==◌,
  ◌&&◌, if◌then◌else◌,
}
use governor_api.Db.{
  Db, User, Application, GroupApplication, GroupApplicationRequest, is_null, find,
}
use governor_api.Membership.{EnumeratedMembership, memberships_by_user}
use governor_api.Api.{
  begin_tx, find_group_row, find_app_row, find_row, exists_row, memberships_before, insert_row,
  delete_row, audit, audit_context, commit_tx, publish_request, Env, Action, create, delete,
  approve, deny, revoke, Subject, application_links, application_link_requests, Event, ok, Handler,
  ◌>>=◌, ◌>>◌, send_error, await, committed_rows, begin, commit, emit, check, check_tx, one,
  actor_id,
}
use governor_api.Api.Events.{bind_json}
use governor_api.Api.Audit.{
  insert_audit, audit_group_application_created, audit_group_application_deleted,
  audit_group_application_approved, audit_group_application_denied,
  audit_group_application_request_created, audit_group_application_request_revoked,
}
use governor_api.Api.Writes.{change_rows, write, commit_audited, announce}
use governor_api.Api.Members.{group_of_request}

pub record CreateGroupAppReq : Type 0 where
  pub application_id : String
  pub note : String

module _ (env : Env) where
  -- The application of a request, by its id, or by its slug where the text is not a UUID.
  abbrev pub application_of_request : Db → String → Option Application
  application_of_request db oid =
      if env.is_uuid oid
      then find (λ a. a.id == oid && is_null a.deleted_at) db.applications
      else find (λ a. a.slug == oid && is_null a.deleted_at) db.applications

  abbrev pub find_application : Db → String → Option Application
  find_application db id = find (λ a. a.id == id && is_null a.deleted_at) db.applications

  -- A link that is not deleted, of a group and an application.
  abbrev pub is_link : String → String → GroupApplication → Bool
  is_link group_id application_id l =
      l.group_id == group_id && l.application_id == application_id && is_null l.deleted_at

  abbrev pub find_link : Db → String → String → Option GroupApplication
  find_link db group_id application_id =
      find (is_link group_id application_id) db.group_applications

  abbrev pub link_exists : Db → String → String → Bool
  link_exists db group_id application_id =
      any (is_link group_id application_id) db.group_applications

  abbrev pub find_app_request : Db → String → Option GroupApplicationRequest
  find_app_request db rid = find (λ r. r.id == rid) db.app_requests

  abbrev pub is_pending : String → String → GroupApplicationRequest → Bool
  is_pending group_id application_id r =
      r.group_id == group_id && r.application_id == application_id

  abbrev pub app_request_exists : Db → String → String → Bool
  app_request_exists db group_id application_id =
      any (is_pending group_id application_id) db.app_requests

  abbrev pub new_link : String → String → GroupApplication
  new_link group_id application_id = record {
    id = env.fresh_id;
    group_id = group_id;
    application_id = application_id;
    deleted_at = none;
  }

  abbrev pub insert_link : GroupApplication → Db → Db
  insert_link row db = record db { group_applications = db.group_applications ++ row ∷ [] }

  -- Delete with hardDelete false
  abbrev pub delete_link : GroupApplication → Db → Db
  delete_link old db = record db {
    group_applications =
        map (λ l. if l.id == old.id then record l { deleted_at = some env.now } else l)
          db.group_applications;
  }

  abbrev pub insert_app_request : GroupApplicationRequest → Db → Db
  insert_app_request row db = record db { app_requests = db.app_requests ++ row ∷ [] }

  abbrev pub delete_app_request : GroupApplicationRequest → Db → Db
  delete_app_request old db = record db {
    app_requests = filter (λ r. not (r.id == old.id)) db.app_requests;
  }

  abbrev pub application_event : Subject → Action → String → String → Event
  application_event subject action group_id application_id = record {
    subject = subject;
    action = action;
    audit_id = env.audit_id;
    group_id = group_id;
    user_id = "";
    application_id = application_id;
    actor_id = actor_id env;
  }

  -- A failing insert leaves the transaction open.
  unfoldable pub add_group_application : String → String → Handler (Unit {0})
  add_group_application gid oid = do
    rows ← committed_rows
    group ← one env find_group_row 404 500 (group_of_request env rows gid)
    app ← one env find_app_row 404 500 (application_of_request rows oid)
    check env exists_row 500
    if link_exists rows group.id app.id then send_error 409 else do
      if not (is_null app.approver_group_id) then send_error 400 else do
        let link = new_link group.id app.id
        check env begin_tx 400
        _ ← begin
        check env insert_row 400
        change_rows (insert_link link)
        commit_audited env (audit_group_application_created env.audit_id env.user link)
        announce env (application_event application_links create group.id app.id) 204

  unfoldable pub remove_group_application : String → String → Handler (Unit {0})
  remove_group_application gid oid = do
    rows ← committed_rows
    group ← one env find_group_row 404 500 (group_of_request env rows gid)
    app ← one env find_app_row 404 500 (application_of_request rows oid)
    link ← one env find_row 404 500 (find_link rows group.id app.id)
    check env begin_tx 400
    _ ← begin
    write env delete_row (delete_link link)
    commit_audited env (audit_group_application_deleted env.audit_id env.user link)
    announce env (application_event application_links delete group.id app.id) 204

  abbrev pub new_app_request :
      User → String → String → String → CreateGroupAppReq → GroupApplicationRequest
  new_app_request actor group_id application_id approver req = record {
    id = env.fresh_id;
    group_id = group_id;
    application_id = application_id;
    approver_group_id = approver;
    requester_user_id = actor.id;
    note = some req.note;
  }

  unfoldable pub create_app_request_as :
      User → String → Option CreateGroupAppReq → Handler (Unit {0})
  create_app_request_as actor gid body = do
    rows ← committed_rows
    group ← one env find_group_row 404 500 (group_of_request env rows gid)
    req ← bind_json env body
    if req.application_id == "" then send_error 400 else do
      if not (env.is_uuid req.application_id) then send_error 400 else do
        app ← one env find_app_row 400 500 (find_application rows req.application_id)
        elim app.approver_group_id [
          | none ↦ send_error 400
          | some approver ↦ do
            if link_exists rows group.id app.id then send_error 409 else do
              if app_request_exists rows group.id app.id then send_error 409 else do
                let request = new_app_request actor group.id app.id approver req
                check env begin_tx 400
                _ ← begin
                write env insert_row (insert_app_request request)
                commit_audited env
                    (audit_group_application_request_created env.audit_id env.user request)
                announce env (application_event application_link_requests create group.id app.id)
                    204
        ]

  unfoldable pub create_group_app_request : String → Option CreateGroupAppReq → Handler (Unit {0})
  create_group_app_request gid body = elim env.user [
    | none ↦ send_error 401
    | some actor ↦ create_app_request_as actor gid body
  ]

  unfoldable pub delete_app_request_as : User → String → String → Handler (Unit {0})
  delete_app_request_as actor gid rid = do
    rows ← committed_rows
    group ← one env find_group_row 404 500 (group_of_request env rows gid)
    request ← one env find_row 404 500 (find_app_request rows rid)
    if not (request.group_id == group.id) then send_error 400 else do
      if not (request.requester_user_id == actor.id) then send_error 400 else do
        check env begin_tx 400
        _ ← begin
        write env delete_row (delete_app_request request)
        commit_audited env (audit_group_application_request_revoked env.audit_id env.user request)
        announce env
            (application_event application_link_requests revoke group.id request.application_id) 204

  unfoldable pub delete_group_app_request : String → String → Handler (Unit {0})
  delete_group_app_request gid rid = elim env.user [
    | none ↦ send_error 401
    | some actor ↦ delete_app_request_as actor gid rid
  ]

  -- The loop over the memberships of the user.
  abbrev pub is_approver : GroupApplicationRequest → List EnumeratedMembership → Bool
  is_approver request memberships = any (λ m. request.approver_group_id == m.group_id) memberships

  -- request.Delete on the connection, with no transaction
  abbrev pub delete_app_request_now : GroupApplicationRequest → Handler (Unit {0})
  delete_app_request_now request s = (ok tt, record s { db = delete_app_request request s.db })

  abbrev pub audit_approved_link : GroupApplication → Db → Db
  audit_approved_link link db =
      insert_audit (audit_group_application_created env.audit_id env.user link)
        (insert_audit (audit_group_application_approved env.audit_id env.user link) db)

  unfoldable pub approve_app_request : Db → GroupApplicationRequest → Handler (Unit {0})
  approve_app_request rows request = do
    check env exists_row 500
    if link_exists rows request.group_id request.application_id
        then (do check env delete_row 400; delete_app_request_now request; send_error 409)
        else (do
          let link = new_link request.group_id request.application_id
          check env begin_tx 400
          _ ← begin
          write env insert_row (insert_link link)
          write env delete_row (delete_app_request request)
          write env audit (audit_approved_link link)
          check_tx env audit_context 400
          check_tx env commit_tx 400
          commit
          check env publish_request 400
          emit (
              application_event application_link_requests approve link.group_id link.application_id)
          announce env
              (application_event application_links create link.group_id link.application_id) 204)

  -- A failing delete leaves the transaction open, and the audit context is set after the commit.
  unfoldable pub deny_app_request : GroupApplicationRequest → Handler (Unit {0})
  deny_app_request request = do
    check env begin_tx 400
    _ ← begin
    check env delete_row 400
    change_rows (delete_app_request request)
    write env audit (insert_audit (audit_group_application_denied env.audit_id env.user request))
    check_tx env commit_tx 400
    commit
    check_tx env audit_context 400
    announce env
        (application_event application_link_requests deny request.group_id request.application_id)
        204

  abbrev pub concerns : GroupApplicationRequest → String → Bool
  concerns request group_id =
      not (not (request.group_id == group_id) && not (request.approver_group_id == group_id))

  -- The request body is the action.
  unfoldable pub process_app_request_as :
      User → String → String → Option String → Handler (Unit {0})
  process_app_request_as actor gid rid body = do
    rows ← committed_rows
    group ← one env find_group_row 404 500 (group_of_request env rows gid)
    request ← one env find_row 404 500 (find_app_request rows rid)
    if not (concerns request group.id) then send_error 400 else do
      if request.requester_user_id == actor.id then send_error 400 else do
        app ← one env find_app_row 400 500 (find_application rows request.application_id)
        elim app.approver_group_id [
          | none ↦ send_error 400
          | some approver ↦ do
            if not (request.approver_group_id == approver) then send_error 400 else do
              check env memberships_before 500
              memberships ← await (memberships_by_user rows actor.id)
              if not (is_approver request memberships) then send_error 401 else do
                action ← bind_json env body
                if action == "approve"
                    then approve_app_request rows request
                    else do if action == "deny" then deny_app_request request else send_error 400
        ]

  unfoldable pub process_group_app_request : String → String → Option String → Handler (Unit {0})
  process_group_app_request gid rid body = elim env.user [
    | none ↦ send_error 401
    | some actor ↦ process_app_request_as actor gid rid body
  ]
