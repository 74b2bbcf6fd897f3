-- ===== src/Api/Server/Keeps.antt =====
-- Every route keeps the database sound.
use governor_api.Prelude.{Bool, subst, sym, Option, none, String, ◌≡◌, refl, inl, inr, List}
use governor_api.Db.{Db, User}
use governor_api.Api.{Env, State, Outcome, ok, returned, panicked, hung, continue}
use governor_api.Api.Rules.{After}
use governor_api.Api.Sound.{IsSound, IsFresh}
use governor_api.Api.Hierarchies.Add.{add_member_group-IsSound}
use governor_api.Api.Hierarchies.Update.{update_member_group-IsSound}
use governor_api.Api.Hierarchies.Remove.{remove_member_group-IsSound}
use governor_api.Api.Members.Add.{add_group_member-IsSound}
use governor_api.Api.Members.Update.{update_group_member-IsSound}
use governor_api.Api.Members.Remove.{remove_group_member-IsSound}
use governor_api.Api.Requests.Keep.{
  process_group_request-IsSound, create_group_request-IsSound, delete_group_request-IsSound,
}
use governor_api.Api.Groups.Keep.{create_group-IsSound, update_group-IsSound, delete_group-IsSound}
use governor_api.Api.Users.Runs.{create_user-IsSound, delete_user-IsSound}
use governor_api.Api.Users.Update.{update_user-IsSound}
use governor_api.Api.Self.Runs.{
  remove_authenticated_user_group-IsSound, update_authenticated_user-IsSound,
}
use governor_api.Api.Login.{user_auth_required}
use governor_api.Api.Login.Passes.{
  registered, LoginStops, LoginPasses, skips_login, has_row, registers,
}
use governor_api.Api.Login.Runs.{user_auth_required-LoginPasses}
use governor_api.Api.Auth.{OidcUserInfo, Token, Context, group_auth_required}
use governor_api.Api.Server.{
  Request, put_member, patch_member, delete_member, post_hierarchy, patch_hierarchy,
  delete_hierarchy, put_request, put_group, delete_group_at, group_param, role_of, handle, serve,
  idle, UserRequest, put_self, delete_own_group, post_request, revoke_request, post_group,
  post_user, put_user, delete_user_at, role_of_user, handle_user, serve_user,
}
use governor_api.Api.Auth.Keeps.{group_auth_required-Stays, continue-keeps}

handle-IsSound :
    (env : Env) (request : Request) (db : Db)
    → IsFresh env db
    → IsSound db
    → IsSound (handle env request (idle db)).1.db
handle-IsSound env (put_member gid uid body) db fresh sound =
    add_group_member-IsSound env gid uid body (idle db) refl fresh sound
handle-IsSound env (patch_member gid uid body) db fresh sound =
    update_group_member-IsSound env gid uid body (idle db) refl sound
handle-IsSound env (delete_member gid uid) db fresh sound =
    remove_group_member-IsSound env gid uid (idle db) refl sound
handle-IsSound env (post_hierarchy gid body) db fresh sound =
    add_member_group-IsSound env gid body (idle db) refl fresh sound
handle-IsSound env (patch_hierarchy gid member_id body) db fresh sound =
    update_member_group-IsSound env gid member_id body (idle db) refl sound
handle-IsSound env (delete_hierarchy gid member_id) db fresh sound =
    remove_member_group-IsSound env gid member_id (idle db) refl sound
handle-IsSound env (put_request gid rid body) db fresh sound =
    process_group_request-IsSound env gid rid body (idle db) fresh sound
handle-IsSound env (put_group gid body) db fresh sound =
    update_group-IsSound env gid body (idle db) refl sound
handle-IsSound env (delete_group_at gid) db fresh sound =
    delete_group-IsSound env gid (idle db) refl sound

user-IsFresh :
    (env : Env) (user : Option User) (loaded : Bool) (db : Db)
    → IsFresh env db
    → IsFresh (record env { user = user; has_relations = loaded }) db
user-IsFresh env user loaded db fresh = record {
  no_member = fresh.no_member;
  no_hierarchy = fresh.no_hierarchy;
  no_reference = fresh.no_reference;
}

pub serve-IsSound :
    (env : Env) (slugs : List String) (token : Token) (request : Request) (db : Db)
    → IsFresh env db
    → IsSound db
    → IsSound (serve env slugs token request (idle db)).1.db
serve-IsSound env slugs token request db fresh sound =
    continue-keeps IsSound (idle db)
      (group_auth_required env (role_of request) slugs token (group_param request) (idle db)) _
      (group_auth_required-Stays env slugs (idle db) (role_of request) token (group_param request))
      sound
      (λ ctx _.
        handle-IsSound (record env { user = ctx.current_user }) request db
          (user-IsFresh env ctx.current_user env.has_relations db fresh) sound)

registered-IsFresh :
    (env : Env) (db : Db) (info : OidcUserInfo)
    → IsFresh env db
    → IsFresh env (registered env db info)
registered-IsFresh env db info fresh = record {
  no_member = fresh.no_member;
  no_hierarchy = fresh.no_hierarchy;
  no_reference = fresh.no_reference;
}

registered-IsSound :
    (env : Env) (db : Db) (info : OidcUserInfo) → IsSound db → IsSound (registered env db info)
registered-IsSound env db info sound = record {
  acyclic = sound.acyclic;
  member_keys = sound.member_keys;
  hierarchy_keys = sound.hierarchy_keys;
}

handle_user-IsSound :
    (env : Env) (request : UserRequest) (s : State)
    → s.tx ≡ none
    → IsFresh env s.db
    → IsSound s.db
    → IsSound (handle_user env request s).1.db
handle_user-IsSound env (put_self body) s closed fresh sound =
    update_authenticated_user-IsSound env body s closed sound
handle_user-IsSound env (delete_own_group gid) s closed fresh sound =
    remove_authenticated_user_group-IsSound env gid s closed sound
handle_user-IsSound env (post_request gid body) s closed fresh sound =
    create_group_request-IsSound env gid body s sound
handle_user-IsSound env (revoke_request gid rid) s closed fresh sound =
    delete_group_request-IsSound env gid rid s sound
handle_user-IsSound env (post_group body) s closed fresh sound =
    create_group-IsSound env body s closed fresh sound
handle_user-IsSound env (post_user body) s closed fresh sound =
    create_user-IsSound env body s closed sound
handle_user-IsSound env (put_user id body) s closed fresh sound =
    update_user-IsSound env id body s closed sound
handle_user-IsSound env (delete_user_at id) s closed fresh sound =
    delete_user-IsSound env id s closed sound

pub serve_user-IsSound :
    (env : Env) (slugs : List String) (token : Token) (header : List String)
    (user_info : Option OidcUserInfo) (request : UserRequest) (db : Db)
    → IsFresh env db
    → IsSound db
    → IsSound (serve_user env slugs token header user_info request (idle db)).1.db
serve_user-IsSound env slugs token header user_info request db fresh sound =
    go (user_auth_required env (role_of_user request) slugs token header user_info (idle db)) (
      user_auth_required-LoginPasses env (role_of_user request) slugs token header user_info
        (idle db) sound.acyclic)
  where
    stops :
        (o : Outcome (Unit {0})) (t : State)
        → LoginStops env (role_of_user request) slugs token header user_info (idle db) o t
        → IsSound t.db
    stops o t (_, inl same, _) = subst IsSound (sym same) sound
    stops o t (_, inr (info, _, _, _, is), _) =
        subst IsSound (sym is) (registered-IsSound env db info sound)

    passed :
        (ctx : Context) (t : State)
        → t ≡ idle db
        → IsSound
            (handle_user
              (record env { user = ctx.current_user; has_relations = ctx.has_relations })
              request
              t).1.db
    passed ctx t is =
        subst
          (λ x.
            IsSound
              (handle_user
                (record env { user = ctx.current_user; has_relations = ctx.has_relations }) request
                x).1.db)
          (sym is)
          (handle_user-IsSound _ request (idle db) refl
            (user-IsFresh env ctx.current_user ctx.has_relations db fresh) sound)

    go :
        (r : Outcome Context × State)
        → After
            (LoginStops env (role_of_user request) slugs token header user_info (idle db))
            (LoginPasses env (role_of_user request) slugs token user_info (idle db))
            r
        → IsSound
            (continue r (λ ctx.
              handle_user
                (record env { user = ctx.current_user; has_relations = ctx.has_relations })
                request)).1.db
    go (ok ctx, t) (skips_login _ _ is) = passed ctx t is
    go (ok ctx, t) (has_row _ _ _ _ _ _ is) = passed ctx t is
    go (ok ctx, t) (registers info _ _ _ _ is closed) =
        handle_user-IsSound _ request t closed
          (user-IsFresh env ctx.current_user ctx.has_relations t.db
            (subst (IsFresh env) (sym is) (registered-IsFresh env db info fresh)))
          (subst IsSound (sym is) (registered-IsSound env db info sound))
    go (returned, t) h = stops returned t h
    go (panicked, t) h = stops panicked t h
    go (hung, t) h = stops hung t h
