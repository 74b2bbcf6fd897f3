-- ===== src/Api/Self.antt =====
-- removeAuthenticatedUserGroup and updateAuthenticatedUser of pkg/api/v1alpha1/authenticated_user.go:
-- what users change of their own. The rows of the preferences for notifications are no part of the
-- database modelled; the calls that change them and read them back are, and their audit event.
pub mod Runs
use governor_api.Prelude.{String, Bool, not, Option, none, some, List, [], ◌∷◌, if◌then◌else◌}
use governor_api.Db.{Db, User, AuditEvent}
use governor_api.Api.{
  Call, begin_tx, find_group_row, find_row, update_row, delete_row, audit, audit_context, commit_tx,
  preferences, preferences_after, Env, update, delete, Handler, ◌>>=◌, ◌>>◌, pure, send_error,
  respond, committed_rows, begin, commit, check, one, check_tx,
}
use governor_api.Api.Events.{bind_json, member_event}
use governor_api.Api.Audit.{
  insert_audit, audit_user_updated, audit_group_membership_deleted,
  audit_notification_preferences_updated,
}
use governor_api.Api.Writes.{write, commit_audited, announce, change_rows}
use governor_api.Api.Members.{is_active_user, group_of_request, find_membership, delete_membership}
use governor_api.Api.Users.{user_event, save_user}

pub record AuthenticatedUserReq : Type 0 where
  pub avatar_url : Option String
  pub github_username : Option String
  -- len(req.NotificationPreferences) > 0
  pub has_preferences : Bool

-- A field that is given replaces the old value.
abbrev pub given_field : Option String → Option String → Option String
given_field none old = old
given_field (some text) old = some text

module _ (env : Env) where
  abbrev pub leave_group : String → User → Handler (Unit {0})
  leave_group gid user = do
    rows ← committed_rows
    group ← one env find_group_row 404 500 (group_of_request env rows gid)
    membership ← one env find_row 404 500 (find_membership env rows group.id user.id)
    check env begin_tx 400
    _ ← begin
    write env delete_row (delete_membership env membership)
    commit_audited env (audit_group_membership_deleted env.audit_id env.user membership)
    if not (is_active_user user)
        then respond 204
        else announce env (member_event env delete gid user.id) 204

  unfoldable pub remove_authenticated_user_group : String → Handler (Unit {0})
  remove_authenticated_user_group gid = elim env.user as (λ _. Handler (Unit {0})) [
    | none ↦ send_error 401
    | some user ↦ leave_group gid user
  ]

  abbrev pub edited_user : User → AuthenticatedUserReq → User
  edited_user user req = record user {
    avatar_url = given_field req.avatar_url user.avatar_url;
    github_username = given_field req.github_username user.github_username;
  }

  -- handleUpdateNotificationPreferencesRequests: its rows and audit event, and the read of the rows.
  abbrev pub update_preferences : User → Handler (Unit {0})
  update_preferences user = do
    check_tx env preferences 400
    change_rows (insert_audit (audit_notification_preferences_updated env.audit_id env.user user))
    check_tx env preferences_after 500
    pure tt

  abbrev pub finish_edit : User → Handler (Unit {0})
  finish_edit user = do
    check_tx env commit_tx 400
    commit
    announce env (user_event env update user.id) 202

  abbrev pub edit_user : Option AuthenticatedUserReq → User → Handler (Unit {0})
  edit_user body user = do
    req ← bind_json env body
    check env begin_tx 400
    _ ← begin
    write env update_row (save_user env (edited_user user req))
    write env audit (insert_audit (audit_user_updated env.audit_id env.user user))
    check_tx env audit_context 400
    if req.has_preferences then update_preferences user else pure tt
    finish_edit user

  unfoldable pub update_authenticated_user : Option AuthenticatedUserReq → Handler (Unit {0})
  update_authenticated_user body = elim env.user as (λ _. Handler (Unit {0})) [
    | none ↦ send_error 401
    | some user ↦ edit_user body user
  ]
