-- ===== src/Api/Groups/Keep.antt =====
-- The handlers of groups keep the database sound.
use governor_api.Prelude.{String, ◌≡◌, refl, sym, Option, none, not}
use governor_api.Db.Keys.{delete-HasKeys}
use governor_api.Api.{Env, State}
use governor_api.Api.Sound.{IsSound, IsFresh, member_pair}
use governor_api.Api.Writes.{is_loaded}
use governor_api.Api.Writes.Runs.{WriteRun-keeps}
use governor_api.Api.Groups.{
  GroupReq, new_group, insert_group, save_group, edited, create_group, update_group, delete_group,
  memberships_of, soft_delete_group,
}
use governor_api.Api.Groups.Live.{
  live_iff, group_of_request-live, LiveEdge-shrinks, live-soft_delete_group, live-save_group,
  live-insert_group,
}
use governor_api.Api.Groups.Creation.{creation}
use governor_api.Api.Groups.Runs.{
  edition, deletion, emptied, create_group-WriteRun, update_group-WriteRun, delete_group-WriteRun,
}

pub create_group-IsSound :
    (env : Env) (body : Option GroupReq) (s : State)
    → s.tx ≡ none
    → IsFresh env s.db
    → IsSound s.db
    → IsSound (create_group env body s).1.db
create_group-IsSound env body s idle fresh sound =
    WriteRun-keeps IsSound (creation env body s.db) s _ _ sound
      (λ a. record {
        acyclic =
            LiveEdge-shrinks s.db (insert_group env (new_group env a.req) s.db) refl
              (λ h listed.
                let (parent, member) = fresh.no_reference h listed in
                let insert = live-insert_group env s.db (new_group env a.req) in
                (
                  insert h.parent_group_id (λ e. parent (sym e)),
                  insert h.member_group_id (λ e. member (sym e)),
                ))
              sound.acyclic;
        member_keys = sound.member_keys;
        hierarchy_keys = sound.hierarchy_keys;
      })
      (create_group-WriteRun env body s idle)

pub update_group-IsSound :
    (env : Env) (id : String) (body : Option GroupReq) (s : State)
    → s.tx ≡ none
    → IsSound s.db
    → IsSound (update_group env id body s).1.db
update_group-IsSound env id body s idle sound =
    WriteRun-keeps IsSound (edition env id body s.db) s _ _ sound
      (λ a.
        let (listed, null) = group_of_request-live env s.db id a.group a.found in
        let was = (live_iff s.db a.group.id).1 (a.group, listed, refl, null) in
        let save = λ (x : String). live-save_group env s.db (edited env a.group a.req) x was in
        record {
          acyclic =
              LiveEdge-shrinks s.db (save_group env (edited env a.group a.req) s.db) refl
                (λ h _. (save h.parent_group_id, save h.member_group_id)) sound.acyclic;
          member_keys = sound.member_keys;
          hierarchy_keys = sound.hierarchy_keys;
        })
      (update_group-WriteRun env id body s idle)

pub delete_group-IsSound :
    (env : Env) (id : String) (s : State)
    → s.tx ≡ none
    → IsSound s.db
    → IsSound (delete_group env id s).1.db
delete_group-IsSound env id s idle sound =
    WriteRun-keeps IsSound (deletion env id s.db) s _ _ sound
      (λ a.
        let drop = live-soft_delete_group env (emptied env a.group s.db) a.group in
        record {
          acyclic =
              LiveEdge-shrinks s.db (soft_delete_group env a.group (emptied env a.group s.db)) refl
                (λ h _. (drop h.parent_group_id, drop h.member_group_id)) sound.acyclic;
          member_keys =
              delete-HasKeys (λ m. m.id) member_pair s.db.memberships
                (λ m. not (is_loaded (λ m. m.id) (memberships_of env s.db a.group) m))
                sound.member_keys;
          hierarchy_keys = sound.hierarchy_keys;
        })
      (delete_group-WriteRun env id s idle)
