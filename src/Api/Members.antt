-- ===== src/Api/Members.antt =====
-- pkg/api/v1alpha1/group_membership.go: the handlers that change the members of a group.
pub mod Runs
pub mod Add
pub mod Remove
pub mod Update
use governor_api.Prelude.{
  ℕ, String, Bool, true, false, not, Option, none, some, List, [], ◌∷◌, ◌++◌, map, filter, any,
  ◌==◌, ◌&&◌, ◌||◌, if◌then◌else◌,
}
use governor_api.Db.{Db, Group, User, GroupMembership, is_null, find, find_user}
use governor_api.Membership.{EnumeratedMembership, memberships_by_user}
use governor_api.Membership.Diff.{find_member_diff}
use governor_api.Api.{
  begin_tx, find_group_row, find_user_row, find_row, exists_row, memberships_before, insert_row,
  update_row, delete_row, audit, audit_context, memberships_after, commit_tx, publish_last, Env,
  create, update, delete, Handler, ◌>>=◌, ◌>>◌, send_error, await, respond, set_tx, committed_rows,
  begin, commit, emit, check, one, check_tx,
}
use governor_api.Api.Events.{bind_json, member_event, publish_members}
use governor_api.Api.Audit.{
  insert_audit, audit_group_membership_created, audit_group_membership_updated,
  audit_group_membership_deleted, audit_group_member_promoted, audit_group_member_demoted,
}

pub record AddGroupMemberReq : Type 0 where
  pub is_admin : Bool
  pub expires_at : Option ℕ
  pub admin_expires_at : Option ℕ

pub record UpdateGroupMemberReq : Type 0 where
  pub is_admin : Bool
  pub admin_expires_at : Option ℕ

abbrev pub status_of : User → String
status_of user = elim user.status [ none ↦ "" | some status ↦ status ]

abbrev pub is_active_user : User → Bool
is_active_user user = status_of user == "active" || status_of user == "suspended"

module _ (env : Env) where
  -- The group of a request, by its id, or by its slug where the text is not a UUID.
  abbrev pub group_of_request : Db → String → Option Group
  group_of_request db gid =
      if env.is_uuid gid
      then find (λ g. g.id == gid && is_null g.deleted_at) db.groups
      else find (λ g. g.slug == gid && is_null g.deleted_at) db.groups

  abbrev pub find_membership : Db → String → String → Option GroupMembership
  find_membership db group_id user_id =
      find (λ m. m.group_id == group_id && m.user_id == user_id) db.memberships

  abbrev pub membership_exists : Db → String → String → Bool
  membership_exists db group_id user_id =
      any (λ m. m.group_id == group_id && m.user_id == user_id) db.memberships

  abbrev pub new_membership : String → String → AddGroupMemberReq → GroupMembership
  new_membership group_id user_id req = record {
    id = env.fresh_id;
    group_id = group_id;
    user_id = user_id;
    is_admin = req.is_admin;
    expires_at = req.expires_at;
    admin_expires_at = req.admin_expires_at;
  }

  abbrev pub insert_membership : GroupMembership → Db → Db
  insert_membership row db = record db { memberships = db.memberships ++ row ∷ [] }

  -- UPDATE and DELETE go by the primary key.
  abbrev pub save_membership : GroupMembership → Db → Db
  save_membership new db = record db {
    memberships = map (λ row. if row.id == new.id then new else row) db.memberships;
  }

  abbrev pub delete_membership : GroupMembership → Db → Db
  delete_membership old db = record db {
    memberships = filter (λ row. not (row.id == old.id)) db.memberships;
  }

  pub add_group_member : String → String → Option AddGroupMemberReq → Handler (Unit {0})
  add_group_member gid uid body = do
    rows ← committed_rows
    group ← one env find_group_row 404 500 (group_of_request rows gid)
    user ← one env find_user_row 404 500 (find_user rows uid)
    req ← bind_json env body
    check env exists_row 500
    if membership_exists rows group.id user.id then send_error 409 else do
      check env begin_tx 400
      start ← begin
      check_tx env memberships_before 400
      before ← await (memberships_by_user start user.id)
      check_tx env insert_row 400
      let row = new_membership group.id user.id req
      let inserted = insert_membership row start
      set_tx (some inserted)
      check_tx env audit 400
      let audited = insert_audit (audit_group_membership_created env.audit_id env.user row) inserted
      set_tx (some audited)
      check_tx env audit_context 400
      check_tx env memberships_after 400
      after ← await (memberships_by_user audited user.id)
      check_tx env commit_tx 400
      commit
      if not (is_active_user user)
          then respond 204
          else do publish_members env 0 create (find_member_diff before after); respond 204

  -- The actor of the request is the user, and does not step down as an admin.
  abbrev pub changes_own : User → GroupMembership → Bool → Bool
  changes_own user membership is_admin = elim env.user [
    | none ↦ false
    | some actor ↦ actor.id == user.id && not (membership.is_admin && not is_admin)
  ]

  abbrev pub update_audit : GroupMembership → GroupMembership → Db → Db
  update_audit original new = insert_audit (
      if new.is_admin && not original.is_admin
      then audit_group_member_promoted env.audit_id env.user new
      else (if original.is_admin && not new.is_admin
          then audit_group_member_demoted env.audit_id env.user new
          else audit_group_membership_updated env.audit_id env.user new))

  unfoldable pub update_group_member :
      String → String → Option UpdateGroupMemberReq → Handler (Unit {0})
  update_group_member gid uid body = do
    rows ← committed_rows
    group ← one env find_group_row 404 500 (group_of_request rows gid)
    user ← one env find_user_row 404 500 (find_user rows uid)
    req ← bind_json env body
    original ← one env find_row 404 500 (find_membership rows group.id user.id)
    if changes_own user original req.is_admin then send_error 400 else do
      let new = record original { is_admin = req.is_admin; admin_expires_at = req.admin_expires_at }
      check env begin_tx 400
      start ← begin
      check_tx env update_row 400
      let updated = save_membership new start
      set_tx (some updated)
      check_tx env audit 400
      set_tx (some (update_audit original new updated))
      check_tx env audit_context 400
      check_tx env commit_tx 400
      commit
      check env publish_last 400
      emit (member_event env update group.id user.id)
      respond 204

  pub remove_group_member : String → String → Handler (Unit {0})
  remove_group_member gid uid = do
    rows ← committed_rows
    group ← one env find_group_row 404 500 (group_of_request rows gid)
    user ← one env find_user_row 404 500 (find_user rows uid)
    membership ← one env find_row 404 500 (find_membership rows group.id user.id)
    check env begin_tx 400
    start ← begin
    check_tx env memberships_before 400
    before ← await (memberships_by_user start user.id)
    check_tx env delete_row 400
    let deleted = delete_membership membership start
    set_tx (some deleted)
    check_tx env audit 400
    let audited =
        insert_audit (audit_group_membership_deleted env.audit_id env.user membership) deleted
    set_tx (some audited)
    check_tx env audit_context 400
    check_tx env memberships_after 400
    after ← await (memberships_by_user audited user.id)
    check_tx env commit_tx 400
    commit
    if not (is_active_user user)
        then respond 204
        else do publish_members env 0 delete (find_member_diff after before); respond 204
