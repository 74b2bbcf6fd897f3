-- ===== src/Api/Requests/Keep.antt =====
-- The handlers of requests keep the database sound.
use mathlib.Core.Option
use governor_api.Prelude.{
  inl, inr, String, ◌≡◌, refl, sym, subst, true, Option, none, some, ◌==◌, ◌&&◌, eq_iff, arith,
  eq_of_some,
}
use governor_api.Db.{Db, GroupMembership, GroupMembershipRequest, AuditEvent, find-some, find-none}
use governor_api.Db.Keys.{insert-HasKeys, save-HasKeys}
use governor_api.Api.{Env, State}
use governor_api.Api.Sound.{IsSound, IsFresh, member_pair}
use governor_api.Api.Requests.{asked, promoted_by, process_group_request}
use governor_api.Api.Requests.{CreateGroupMemberReq, create_group_request, delete_group_request}
use governor_api.Api.Requests.Process.{
  Applied, joins, promotes, unchanged, dropped, approved, denied,
}
use governor_api.Api.Requests.Ask.{create_group_request-CreateRun, delete_group_request-RevokeRun}
use governor_api.Api.Requests.Runs.{process_group_request-ProcessRun}

-- Events and requests do not matter.
pub audit_map-IsSound :
    (db : Db) (f : AuditEvent → Db) (o : Option AuditEvent) (result : Db)
    → ((e : AuditEvent) → IsSound (f e))
    → Option.map f o ≡ some result
    → IsSound result
audit_map-IsSound db f none result keeps e = cc
audit_map-IsSound db f (some event) result keeps e = subst IsSound (eq_of_some e) (keeps event)

Applied-IsSound :
    (env : Env) (db : Db) (r : GroupMembershipRequest) (applied : Db)
    → IsFresh env db
    → IsSound db
    → Applied env db r applied
    → IsSound applied
Applied-IsSound env db r applied fresh sound (joins _ absent is) = subst IsSound (sym is) (record {
  acyclic = sound.acyclic;
  member_keys =
      insert-HasKeys (λ m. m.id) member_pair db.memberships (asked env r) sound.member_keys
        fresh.no_member
        (λ m listed same.
          let test = λ (m : GroupMembership). m.group_id == r.group_id && m.user_id == r.user_id in
          let g : (m.group_id == r.group_id) ≡ true = (eq_iff m.group_id r.group_id).1 (cc same) in
          let u : (m.user_id == r.user_id) ≡ true = (eq_iff m.user_id r.user_id).1 (cc same) in
          let no_match = find-none test db.memberships absent m listed in
          ground (arith, g, u, no_match));
  hierarchy_keys = sound.hierarchy_keys;
})
Applied-IsSound env db r applied fresh sound (promotes m _ is _ e) = subst IsSound (sym e) (record {
  acyclic = sound.acyclic;
  member_keys =
      let test = λ (m : GroupMembership). m.group_id == r.group_id && m.user_id == r.user_id in
      save-HasKeys (λ m. m.id) member_pair db.memberships m (promoted_by env r m) sound.member_keys
        (find-some test db.memberships is).0 refl refl;
  hierarchy_keys = sound.hierarchy_keys;
})

pub process_group_request-IsSound :
    (env : Env) (gid rid : String) (body : Option String) (s : State)
    → IsFresh env s.db
    → IsSound s.db
    → IsSound (process_group_request env gid rid body s).1.db
process_group_request-IsSound env gid rid body s fresh sound =
    elim (process_group_request-ProcessRun env gid rid body s) [
      | unchanged same ↦ subst IsSound (sym same) sound
      | dropped d _ _ is ↦ subst IsSound (sym is) (record {
        acyclic = sound.acyclic;
        member_keys = sound.member_keys;
        hierarchy_keys = sound.hierarchy_keys;
      })
      | approved d applied _ grants is ↦
          let kept = Applied-IsSound env s.db d.request applied fresh sound grants in
          audit_map-IsSound s.db _ _ _
            (λ e. record {
              acyclic = kept.acyclic;
              member_keys = kept.member_keys;
              hierarchy_keys = kept.hierarchy_keys;
            })
            is
      | denied d _ is ↦
          audit_map-IsSound s.db _ _ _
            (λ e. record {
              acyclic = sound.acyclic;
              member_keys = sound.member_keys;
              hierarchy_keys = sound.hierarchy_keys;
            })
            is
    ]

pub create_group_request-IsSound :
    (env : Env) (gid : String) (body : Option CreateGroupMemberReq) (s : State)
    → IsSound s.db
    → IsSound (create_group_request env gid body s).1.db
create_group_request-IsSound env gid body s sound =
    elim (create_group_request-CreateRun env gid body s).0 [
      | inl same ↦ subst IsSound (sym same) sound
      | inr c ↦ subst IsSound (sym c.stored) (record {
        acyclic = sound.acyclic;
        member_keys = sound.member_keys;
        hierarchy_keys = sound.hierarchy_keys;
      })
    ]

pub delete_group_request-IsSound :
    (env : Env) (gid rid : String) (s : State)
    → IsSound s.db
    → IsSound (delete_group_request env gid rid s).1.db
delete_group_request-IsSound env gid rid s sound =
    elim (delete_group_request-RevokeRun env gid rid s) [
      | inl same ↦ subst IsSound (sym same) sound
      | inr c ↦ subst IsSound (sym c.stored) (record {
        acyclic = sound.acyclic;
        member_keys = sound.member_keys;
        hierarchy_keys = sound.hierarchy_keys;
      })
    ]
