-- ===== src/Api/Hierarchies.antt =====
-- pkg/api/v1alpha1/group_hierarchies.go: the handlers that change the hierarchies.
pub mod Links
pub mod Add
pub mod Remove
pub mod Update
use governor_api.Prelude.{
  ℕ, zero, suc, String, Bool, true, false, not, Option, none, some, List, [], ◌∷◌, ◌++◌, map,
  filter, any, nat_eq, ◌==◌, ◌&&◌, if◌then◌else◌,
}
use governor_api.Db.{Db, Group, User, GroupHierarchy, live, find, find_group}
use governor_api.Hierarchy.{would_create_cycle}
use governor_api.Membership.{EnumeratedMembership, all_memberships}
use governor_api.Membership.Diff.{find_member_diff}
use governor_api.Api.{
  Call, begin_tx, find_parent, find_member, find_row, exists_row, cycle_check, memberships_before,
  insert_row, update_row, delete_row, audit, audit_context, memberships_after, commit_tx,
  publish_last, Env, Action, create, update, delete, Subject, members, hierarchies, Event, State,
  Handler, ◌>>=◌, ◌>>◌, pure, send_error, rollback_with_error, await, respond, set_tx, begin,
  commit, emit, check, check_tx, one_tx, actor_id,
}
use governor_api.Api.Events.{bind_json, members_event, publish_members}
use governor_api.Api.Audit.{
  insert_audit, audit_group_hierarchy_created, audit_group_hierarchy_updated,
  audit_group_hierarchy_deleted,
}

pub record AddMemberGroupReq : Type 0 where
  pub expires_at : Option ℕ
  pub member_group_id : String

module _ (env : Env) where
  abbrev pub hierarchies_event : Action → String → Event
  hierarchies_event action group_id = record {
    subject = hierarchies;
    action = action;
    audit_id = env.audit_id;
    group_id = group_id;
    user_id = "";
    application_id = "";
    actor_id = actor_id env;
  }

  abbrev pub new_hierarchy : String → String → Option ℕ → GroupHierarchy
  new_hierarchy parent member expires = record {
    id = env.fresh_id;
    parent_group_id = parent;
    member_group_id = member;
    expires_at = expires;
  }

  abbrev pub insert_hierarchy : GroupHierarchy → Db → Db
  insert_hierarchy row db = record db { hierarchies = db.hierarchies ++ row ∷ [] }

  abbrev pub linked : Db → String → String → Bool
  linked db parent member =
      any
        (λ row.
          live db row.member_group_id
          && row.parent_group_id == parent
          && row.member_group_id == member)
        db.hierarchies

  pub add_member_group : String → Option AddMemberGroupReq → Handler (Unit {0})
  add_member_group parent_group_id body = do
    req ← bind_json env body
    check env begin_tx 400
    start ← begin
    parent ← one_tx env find_parent 404 500 (find_group start parent_group_id)
    member ← one_tx env find_member 404 500 (find_group start req.member_group_id)
    check_tx env exists_row 500
    -- `err` is nil here
    if linked start parent.id member.id then rollback_with_error false 409 else do
      check_tx env cycle_check 500
      creates_cycle ← await (would_create_cycle start parent.id member.id)
      if creates_cycle then rollback_with_error true 400 else do
        check_tx env memberships_before 400
        before ← await (all_memberships start)
        check_tx env insert_row 400
        let row = new_hierarchy parent.id member.id req.expires_at
        let inserted = insert_hierarchy row start
        set_tx (some inserted)
        check_tx env audit 400
        let audited =
            insert_audit (audit_group_hierarchy_created env.audit_id env.user row) inserted
        set_tx (some audited)
        check_tx env audit_context 400
        check_tx env memberships_after 400
        after ← await (all_memberships audited)
        check_tx env commit_tx 400
        commit
        publish_members env 0 create (find_member_diff before after)
        check env publish_last 400
        emit (hierarchies_event create parent_group_id)
        respond 204

  -- The rows of a pair, of deleted groups too.
  abbrev pub find_hierarchy : Db → String → String → Option GroupHierarchy
  find_hierarchy db parent member =
      find (λ row. row.parent_group_id == parent && row.member_group_id == member) db.hierarchies

  -- UPDATE and DELETE go by the primary key.
  abbrev pub save_hierarchy : GroupHierarchy → Db → Db
  save_hierarchy new db = record db {
    hierarchies = map (λ row. if row.id == new.id then new else row) db.hierarchies;
  }

  abbrev pub delete_hierarchy : GroupHierarchy → Db → Db
  delete_hierarchy old db = record db {
    hierarchies = filter (λ row. not (row.id == old.id)) db.hierarchies;
  }

  -- The request body is the new expiry.
  unfoldable pub update_member_group : String → String → Option (Option ℕ) → Handler (Unit {0})
  update_member_group parent_group_id member_group_id body = do
    expires_at ← bind_json env body
    check env begin_tx 400
    start ← begin
    hierarchy ← one_tx env find_row 400 400 (find_hierarchy start parent_group_id member_group_id)
    let new = record hierarchy { expires_at = expires_at }
    check_tx env update_row 400
    let updated = save_hierarchy new start
    set_tx (some updated)
    check_tx env audit 400
    set_tx (some (insert_audit (audit_group_hierarchy_updated env.audit_id env.user new) updated))
    check_tx env audit_context 400
    check_tx env commit_tx 400
    commit
    check env publish_last 400
    emit (hierarchies_event update hierarchy.parent_group_id)
    respond 204

  pub remove_member_group : String → String → Handler (Unit {0})
  remove_member_group parent_group_id member_group_id = do
    check env begin_tx 400
    start ← begin
    hierarchy ← one_tx env find_row 404 400 (find_hierarchy start parent_group_id member_group_id)
    check_tx env memberships_before 400
    before ← await (all_memberships start)
    check_tx env delete_row 400
    let deleted = delete_hierarchy hierarchy start
    set_tx (some deleted)
    check_tx env audit 400
    let audited =
        insert_audit (audit_group_hierarchy_deleted env.audit_id env.user hierarchy) deleted
    set_tx (some audited)
    check_tx env audit_context 400
    check_tx env memberships_after 400
    after ← await (all_memberships audited)
    check_tx env commit_tx 400
    commit
    publish_members env 0 delete (find_member_diff after before)
    check env publish_last 400
    emit (hierarchies_event delete parent_group_id)
    respond 204
