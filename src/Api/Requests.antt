-- ===== src/Api/Requests.antt =====
-- pkg/api/v1alpha1/group_membership.go: the requests to join a group, or to become an admin of it. A
-- request is created by its user, and ends revoked by its user, or approved or denied by another.
pub mod Process
pub mod Runs
pub mod Keep
pub mod Ask
pub mod Asks
use mathlib.Core.Option
use governor_api.Prelude.{
  ℕ, String, Bool, true, false, not, Option, none, some, List, [], ◌∷◌, ◌++◌, filter, any, ◌==◌,
  ◌&&◌, ◌||◌, if◌then◌else◌,
}
use governor_api.Db.{Db, User, GroupMembership, GroupMembershipRequest, AuditEvent, find, find_user}
use governor_api.Membership.{EnumeratedMembership, memberships_by_user}
use governor_api.Membership.Diff.{find_member_diff}
use governor_api.Api.{
  begin_tx, find_group_row, find_user_row, find_row, exists_row, memberships_before, insert_row,
  update_row, delete_row, audit, audit_context, memberships_after, commit_tx, publish_request, Env,
  Action, create, approve, deny, revoke, Event, member_requests, State, ok, Handler, ◌>>=◌, ◌>>◌,
  pure, send_error, rollback_with_error, await, or_panic, respond, set_tx, committed_rows, begin,
  commit, emit, check, one, check_tx, actor_id,
}
use governor_api.Api.Events.{bind_json, publish_members}
use governor_api.Api.Audit.{
  insert_audit, audit_group_membership_created, audit_group_membership_request_created,
  audit_group_membership_revoked, audit_group_membership_denied, audit_group_membership_approved,
}
use governor_api.Api.Members.{
  is_active_user, group_of_request, find_membership, membership_exists, insert_membership,
  save_membership,
}

pub record CreateGroupMemberReq : Type 0 where
  pub is_admin : Bool
  pub note : String
  pub expires_at : Option ℕ
  pub admin_expires_at : Option ℕ
  pub kind : String

module _ (env : Env) where
  abbrev pub request_event : Action → String → String → Event
  request_event action group_id user_id = record {
    subject = member_requests;
    action = action;
    audit_id = env.audit_id;
    group_id = group_id;
    user_id = user_id;
    application_id = "";
    actor_id = actor_id env;
  }

  abbrev pub find_request : Db → String → Option GroupMembershipRequest
  find_request db rid = find (λ r. r.id == rid) db.requests

  abbrev pub has_request : Db → String → String → Bool
  has_request db group_id user_id =
      any (λ r. r.user_id == user_id && r.group_id == group_id) db.requests

  abbrev pub delete_request : GroupMembershipRequest → Db → Db
  delete_request old db = record db { requests = filter (λ r. not (r.id == old.id)) db.requests }

  -- The audit event of a request, with the rows after it, or `none` for a kind that is not known.
  abbrev pub audited : Option Db → Handler Db
  audited none = rollback_with_error true 400
  audited (some db) = do check_tx env audit 400; set_tx (some db); pure db

  -- The membership that a request asks for.
  abbrev pub asked : GroupMembershipRequest → GroupMembership
  asked request = record {
    id = env.fresh_id;
    group_id = request.group_id;
    user_id = request.user_id;
    is_admin = request.is_admin;
    expires_at = request.expires_at;
    admin_expires_at = request.admin_expires_at;
  }

  abbrev pub promoted_by : GroupMembershipRequest → GroupMembership → GroupMembership
  promoted_by request m = record m { is_admin = true; admin_expires_at = request.admin_expires_at }

  -- Whether there is nothing left to approve. A promotion without a membership panics.
  abbrev pub already : GroupMembershipRequest → Option GroupMembership → Handler Bool
  already request existing =
      if request.kind == "new_member"
      then pure (elim existing [ none ↦ false | some _ ↦ true ])
      else (if request.kind == "admin_promotion"
          then or_panic existing >>= (λ m. pure m.is_admin)
          else pure false)

  abbrev pub apply_request : GroupMembershipRequest → Option GroupMembership → Db → Handler Db
  apply_request request existing db =
      if request.kind == "new_member"
      then (do
        check_tx env insert_row 400
        let applied = insert_membership env (asked request) db
        set_tx (some applied)
        pure applied)
      else (if request.kind == "admin_promotion"
          then (do
            m ← or_panic existing
            check_tx env update_row 400
            let applied = save_membership env (promoted_by request m) db
            set_tx (some applied)
            pure applied)
          else pure db)

  abbrev pub audit_end :
      (String → Option User → GroupMembershipRequest → Option AuditEvent)
      → GroupMembershipRequest
      → Db
      → Option Db
  audit_end event_of request db =
      Option.map (λ event. insert_audit event db) (event_of env.audit_id env.user request)

  abbrev pub audit_approval : GroupMembershipRequest → Db → Option Db
  audit_approval request db =
      Option.map
        (λ event.
          insert_audit (audit_group_membership_created env.audit_id env.user (asked request))
            (insert_audit event db))
        (audit_group_membership_approved env.audit_id env.user (asked request) request.kind)

  -- request.Delete on the connection, with no transaction
  abbrev pub delete_committed : GroupMembershipRequest → Handler (Unit {0})
  delete_committed request s = (ok tt, record s { db = delete_request request s.db })

  abbrev pub drop_request : GroupMembershipRequest → Handler (Unit {0})
  drop_request request = do check env delete_row 400; delete_committed request; send_error 409

  pub approve_request : Db → GroupMembershipRequest → Handler (Unit {0})
  approve_request rows request = do
    user ← one env find_user_row 400 500 (find_user rows request.user_id)
    check env exists_row 500
    let existing = find_membership env rows request.group_id request.user_id
    done ← already request existing
    if done then drop_request request else do
      check env begin_tx 400
      start ← begin
      check_tx env memberships_before 400
      before ← await (memberships_by_user start user.id)
      applied ← apply_request request existing start
      check_tx env delete_row 400
      let deleted = delete_request request applied
      set_tx (some deleted)
      result ← audited (audit_approval request deleted)
      check_tx env audit_context 400
      check_tx env memberships_after 400
      after ← await (memberships_by_user result user.id)
      check_tx env commit_tx 400
      commit
      if not (is_active_user user) then respond 204 else do
        check env publish_request 400
        emit (request_event approve request.group_id request.user_id)
        publish_members env 0 create (find_member_diff before after)
        respond 204

  -- A failing delete leaves the transaction open.
  pub deny_request : GroupMembershipRequest → Handler (Unit {0})
  deny_request request = do
    check env begin_tx 400
    start ← begin
    check env delete_row 400
    let deleted = delete_request request start
    set_tx (some deleted)
    _ ← audited (audit_end audit_group_membership_denied request deleted)
    check_tx env commit_tx 400
    commit
    check_tx env audit_context 400
    check env publish_request 400
    emit (request_event deny request.group_id request.user_id)
    respond 204

  -- The request body is the action.
  pub process_as : User → String → String → Option String → Handler (Unit {0})
  process_as actor gid rid body = do
    rows ← committed_rows
    group ← one env find_group_row 404 500 (group_of_request env rows gid)
    request ← one env find_row 404 500 (find_request rows rid)
    if not (request.group_id == group.id) then send_error 400 else do
      if request.user_id == actor.id then send_error 400 else do
        action ← bind_json env body
        if action == "approve"
            then approve_request rows request
            else do if action == "deny" then deny_request request else send_error 400

  pub process_group_request : String → String → Option String → Handler (Unit {0})
  process_group_request gid rid body = elim env.user [
    | none ↦ send_error 401
    | some actor ↦ process_as actor gid rid body
  ]

  -- Of a request by a service there is no owner to compare with.
  abbrev pub owns_request : GroupMembershipRequest → Bool
  owns_request request = elim env.user [ none ↦ true | some actor ↦ request.user_id == actor.id ]

  pub delete_group_request : String → String → Handler (Unit {0})
  delete_group_request gid rid = do
    rows ← committed_rows
    group ← one env find_group_row 404 500 (group_of_request env rows gid)
    request ← one env find_row 404 500 (find_request rows rid)
    if not (request.group_id == group.id) then send_error 400 else do
      if not (owns_request request) then send_error 400 else do
        check env begin_tx 400
        start ← begin
        check_tx env delete_row 400
        let deleted = delete_request request start
        set_tx (some deleted)
        _ ← audited (audit_end audit_group_membership_revoked request deleted)
        check_tx env audit_context 400
        check_tx env commit_tx 400
        commit
        check env publish_request 400
        emit (request_event revoke group.id (actor_id env))
        respond 204

  abbrev pub new_request : String → String → CreateGroupMemberReq → String → GroupMembershipRequest
  new_request group_id user_id req kind = record {
    id = env.fresh_id;
    group_id = group_id;
    user_id = user_id;
    is_admin = req.is_admin;
    note = req.note;
    expires_at = req.expires_at;
    kind = kind;
    admin_expires_at = req.admin_expires_at;
  }

  abbrev pub insert_request : GroupMembershipRequest → Db → Db
  insert_request row db = record db { requests = db.requests ++ row ∷ [] }

  -- The kind of a request, a new member by default; `none` for one that is not known.
  abbrev pub kind_of : CreateGroupMemberReq → Option String
  kind_of req =
      if req.kind == ""
      then some "new_member"
      else (if req.kind == "new_member" || req.kind == "admin_promotion"
          then some req.kind
          else none)

  -- A new member is not in the group, and an admin to be is.
  abbrev pub kind_fits : String → Bool → Bool
  kind_fits kind in_group = if kind == "new_member" then not in_group else in_group

  -- ctxUser.R: the memberships and requests that the middleware has loaded, if it has.
  abbrev pub relations : Db → Option Db
  relations rows = if env.has_relations then some rows else none

  pub create_as : User → String → Option CreateGroupMemberReq → Handler (Unit {0})
  create_as actor gid body = do
    req ← bind_json env body
    elim (kind_of req) [
      | none ↦ send_error 400
      | some kind ↦ do
        rows ← committed_rows
        group ← one env find_group_row 404 500 (group_of_request env rows gid)
        loaded ← or_panic (relations rows)
        let in_group = membership_exists env loaded group.id actor.id
        if not (kind_fits kind in_group) then send_error 400 else do
          if has_request loaded group.id actor.id then send_error 409 else do
            let request = new_request group.id actor.id req kind
            check env begin_tx 400
            start ← begin
            check_tx env insert_row 400
            let inserted = insert_request request start
            set_tx (some inserted)
            _ ← audited (audit_end audit_group_membership_request_created request inserted)
            check_tx env audit_context 400
            check_tx env commit_tx 400
            commit
            check env publish_request 400
            emit (request_event create group.id actor.id)
            respond 204
    ]

  pub create_group_request : String → Option CreateGroupMemberReq → Handler (Unit {0})
  create_group_request gid body = elim env.user [
    | none ↦ send_error 401
    | some actor ↦ create_as actor gid body
  ]
