-- ===== src/Api/Audit.antt =====
-- The audit events of internal/dbtools/hooks.go, without their changesets.
use governor_api.Prelude.{
  ◌≡◌, refl, false, String, Option, none, some, [], ◌∷◌, ◌++◌, ◌==◌, if◌then◌else◌,
}
use governor_api.Db.{
  User, Group, GroupApplication, GroupApplicationRequest, GroupMembership, GroupMembershipRequest,
  GroupHierarchy, AuditEvent, Db,
}

abbrev actor_of : Option User → Option String
actor_of none = none
actor_of (some u) = some u.id

abbrev pub insert_audit : AuditEvent → Db → Db
insert_audit event db = record db { audit_events = db.audit_events ++ event ∷ [] }

abbrev hierarchy_audit_event : String → String → Option User → GroupHierarchy → AuditEvent
hierarchy_audit_event action p_id actor m = record {
  parent_id = some p_id;
  actor_id = actor_of actor;
  action = action;
  subject_group_id = some m.parent_group_id;
  subject_user_id = none;
  subject_application_id = none;
}

abbrev pub audit_group_hierarchy_created : String → Option User → GroupHierarchy → AuditEvent
audit_group_hierarchy_created = hierarchy_audit_event "group.hierarchy.added"

abbrev pub audit_group_hierarchy_updated : String → Option User → GroupHierarchy → AuditEvent
audit_group_hierarchy_updated = hierarchy_audit_event "group.hierarchy.updated"

abbrev pub audit_group_hierarchy_deleted : String → Option User → GroupHierarchy → AuditEvent
audit_group_hierarchy_deleted = hierarchy_audit_event "group.hierarchy.removed"

abbrev membership_audit_event : String → String → Option User → GroupMembership → AuditEvent
membership_audit_event action p_id actor m = record {
  parent_id = some p_id;
  actor_id = actor_of actor;
  action = action;
  subject_group_id = some m.group_id;
  subject_user_id = some m.user_id;
  subject_application_id = none;
}

abbrev pub audit_group_membership_created : String → Option User → GroupMembership → AuditEvent
audit_group_membership_created = membership_audit_event "group.member.added"

abbrev pub audit_group_membership_updated : String → Option User → GroupMembership → AuditEvent
audit_group_membership_updated = membership_audit_event "group.member.updated"

abbrev pub audit_group_membership_deleted : String → Option User → GroupMembership → AuditEvent
audit_group_membership_deleted = membership_audit_event "group.member.removed"

abbrev pub audit_group_member_demoted : String → Option User → GroupMembership → AuditEvent
audit_group_member_demoted = membership_audit_event "group.member.demoted"

abbrev pub audit_group_member_promoted : String → Option User → GroupMembership → AuditEvent
audit_group_member_promoted = membership_audit_event "group.member.promoted"

abbrev user_audit_event : String → String → Option User → User → AuditEvent
user_audit_event action p_id actor u = record {
  parent_id = some p_id;
  actor_id = actor_of actor;
  action = action;
  subject_group_id = none;
  subject_user_id = some u.id;
  subject_application_id = none;
}

abbrev pub audit_user_created_with_actor : String → Option User → User → AuditEvent
audit_user_created_with_actor = user_audit_event "user.created"

abbrev pub audit_user_deleted : String → Option User → User → AuditEvent
audit_user_deleted = user_audit_event "user.deleted"

abbrev pub audit_user_updated : String → Option User → User → AuditEvent
audit_user_updated = user_audit_event "user.updated"

abbrev pub audit_notification_preferences_updated : String → Option User → User → AuditEvent
audit_notification_preferences_updated = user_audit_event "notification_preferences.updated"

abbrev group_audit_event : String → String → Option User → Group → AuditEvent
group_audit_event action p_id actor g = record {
  parent_id = some p_id;
  actor_id = actor_of actor;
  action = action;
  subject_group_id = some g.id;
  subject_user_id = none;
  subject_application_id = none;
}

abbrev pub audit_group_created : String → Option User → Group → AuditEvent
audit_group_created = group_audit_event "group.created"

abbrev pub audit_group_updated : String → Option User → Group → AuditEvent
audit_group_updated = group_audit_event "group.updated"

abbrev pub audit_group_deleted : String → Option User → Group → AuditEvent
audit_group_deleted = group_audit_event "group.deleted"

abbrev application_audit_event : String → String → Option User → String → String → AuditEvent
application_audit_event action p_id actor group_id application_id = record {
  parent_id = some p_id;
  actor_id = actor_of actor;
  action = action;
  subject_group_id = some group_id;
  subject_user_id = none;
  subject_application_id = some application_id;
}

module _ (p_id : String) (actor : Option User) where
  abbrev pub audit_group_application_created : GroupApplication → AuditEvent
  audit_group_application_created m =
      application_audit_event "group.application.linked" p_id actor m.group_id m.application_id

  abbrev pub audit_group_application_deleted : GroupApplication → AuditEvent
  audit_group_application_deleted m =
      application_audit_event "group.application.unlinked" p_id actor m.group_id m.application_id

  -- The first of the two events of an approval; that of the link follows it.
  abbrev pub audit_group_application_approved : GroupApplication → AuditEvent
  audit_group_application_approved m =
      application_audit_event "group.application.request.approved" p_id actor m.group_id
        m.application_id

  abbrev pub audit_group_application_denied : GroupApplicationRequest → AuditEvent
  audit_group_application_denied r =
      application_audit_event "group.application.request.denied" p_id actor r.group_id
        r.application_id

  abbrev pub audit_group_application_request_created : GroupApplicationRequest → AuditEvent
  audit_group_application_request_created r =
      application_audit_event "group.application.request.created" p_id actor r.group_id
        r.application_id

  abbrev pub audit_group_application_request_revoked : GroupApplicationRequest → AuditEvent
  audit_group_application_request_revoked r =
      application_audit_event "group.application.request.revoked" p_id actor r.group_id
        r.application_id

-- An event of a request; `none` for a kind that is not known.
abbrev request_audit_event :
    String → String → String → Option User → String → String → String → Option AuditEvent
request_audit_event joining promotion p_id actor kind group_id user_id =
    let event : String → AuditEvent = λ action. record {
      parent_id = some p_id;
      actor_id = actor_of actor;
      action = action;
      subject_group_id = some group_id;
      subject_user_id = some user_id;
      subject_application_id = none;
    } in
    if kind == "new_member"
    then some (event joining)
    else (if kind == "admin_promotion" then some (event promotion) else none)

abbrev pub audit_group_membership_request_created :
    String → Option User → GroupMembershipRequest → Option AuditEvent
audit_group_membership_request_created p_id actor r =
    request_audit_event "group.member.request.created" "admin.promotion.request.created" p_id actor
      r.kind r.group_id r.user_id

abbrev pub audit_group_membership_revoked :
    String → Option User → GroupMembershipRequest → Option AuditEvent
audit_group_membership_revoked p_id actor r =
    request_audit_event "group.member.request.revoked" "admin.promotion.request.revoked" p_id actor
      r.kind r.group_id r.user_id

abbrev pub audit_group_membership_denied :
    String → Option User → GroupMembershipRequest → Option AuditEvent
audit_group_membership_denied p_id actor r =
    request_audit_event "group.member.request.denied" "admin.promotion.request.denied" p_id actor
      r.kind r.group_id r.user_id

-- The event of the approval; that of a new membership follows it.
abbrev pub audit_group_membership_approved :
    String → Option User → GroupMembership → String → Option AuditEvent
audit_group_membership_approved p_id actor m kind =
    request_audit_event "group.member.request.approved" "admin.promotion.request.approved" p_id
      actor kind m.group_id m.user_id

pub audit_group_membership_approved-unknown :
    (p_id : String) (actor : Option User) (m : GroupMembership) (kind : String)
    → (kind == "new_member") ≡ false
    → (kind == "admin_promotion") ≡ false
    → audit_group_membership_approved p_id actor m kind ≡ none
audit_group_membership_approved-unknown p_id actor m kind joining promotion =
    rw (joining, promotion) refl
