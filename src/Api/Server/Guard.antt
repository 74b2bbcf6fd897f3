-- ===== src/Api/Server/Guard.antt =====
-- Whom the routes let change the database.
use governor_api.Prelude.{
  subst, Option, none, ℕ, ap, String, ◌≡◌, ◌≢◌, ◌⊎◌, inl, inr, true, false, some, List,
}
use governor_api.Db.{Db, Group, User, find_group}
use governor_api.Hierarchy.{contains}
use governor_api.Hierarchy.Cycle.{IsAcyclic}
use governor_api.Api.{Env, State, Outcome, ok, returned, panicked, hung, continue}
use governor_api.Api.Rules.{After}
use governor_api.Api.Login.{user_auth_required}
use governor_api.Api.Login.Passes.{
  MayPass, IsConfirmed, LoginStops, LoginPasses, skips_login, has_row, registers,
}
use governor_api.Api.Login.Runs.{user_auth_required-LoginPasses}
use governor_api.Api.Auth.{
  AuthRole, auth_role_admin, OidcUserInfo, Token, Context, user_of_token, group_auth_required,
}
use governor_api.Api.Auth.Groups.{Allowed, IsGovernor}
use governor_api.Api.Auth.Pass.{Passes, no_scope, allowed, group_auth_required-Allowed}
use governor_api.Api.Server.{
  Request, group_param, role_of, handle, serve, idle, UserRequest, role_of_user, handle_user,
  serve_user,
}

-- While the hierarchies have no cycle, a request for a group by its UUID that changes the database,
-- by a route of groups, members or hierarchies or by deciding on a request to join, comes with a
-- token without the OIDC scope, or from a user whom the role of the route allows: a direct member
-- of the group with admin rights that have not expired, or for the rights of another member, for
-- the deletion of the group and for a request to join also a governor admin, or for a request to
-- join also a member of the approver group.
pub serve-Allowed :
    (env : Env) (slugs : List String) (token : Token) (request : Request) (db : Db)
    → IsAcyclic db
    → env.is_uuid (group_param request) ≡ true
    → (serve env slugs token request (idle db)).1.db ≢ db
    → (contains token.roles "openid" ≡ false)
      ⊎ ((group : Group) × ((user : User) × (find_group db (group_param request) ≡ some group)
            × (user_of_token env db token.user ≡ some user)
            × Allowed env.now (role_of request) db slugs group user.id))
serve-Allowed env slugs token request db acyclic is_uuid changes =
    go (group_auth_required env (role_of request) slugs token (group_param request) (idle db))
      (group_auth_required-Allowed env (role_of request) slugs token (group_param request) (idle db)
        acyclic is_uuid)
      changes
  where
    go :
        (r : Outcome Context × State)
        → After
            (λ o t. (o ≡ returned) × ((code : ℕ) × (t ≡ record (idle db) { response = some code })))
            (Passes env (role_of request) slugs token (group_param request) (idle db))
            r
        → (continue r (λ ctx. handle (record env { user = ctx.current_user }) request)).1.db ≢ db
        → (contains token.roles "openid" ≡ false)
          ⊎ ((group : Group) × ((user : User) × (find_group db (group_param request) ≡ some group)
                × (user_of_token env db token.user ≡ some user)
                × Allowed env.now (role_of request) db slugs group user.id))
    go (ok ctx, t) (no_scope e _ _) changed = inl e
    go (ok ctx, t) (allowed group user fg fu may _ _) changed = inr (group, (user, fg, fu, may))
    go (returned, t) (_, (_, e)) changed = absurd (changed (ap (λ (x : State). x.db) e))
    go (panicked, t) (_, (_, e)) changed = absurd (changed (ap (λ (x : State). x.db) e))
    go (hung, t) (_, (_, e)) changed = absurd (changed (ap (λ (x : State). x.db) e))

-- While the hierarchies have no cycle, a request for a new user, or to change or delete one, that
-- changes the database, comes with a token without the OIDC scope, from a user who is a governor
-- admin, or from one who had no row and whom the provider confirms, so that a row was added first.
pub serve_user-Guarded :
    (env : Env) (slugs : List String) (token : Token) (header : List String)
    (user_info : Option OidcUserInfo) (request : UserRequest) (db : Db)
    → IsAcyclic db
    → role_of_user request ≡ auth_role_admin
    → (serve_user env slugs token header user_info request (idle db)).1.db ≢ db
    → (contains token.roles "openid" ≡ false)
      ⊎ (((user : User) × (user_of_token env db token.user ≡ some user)
            × IsGovernor db slugs user.id)
          ⊎ ((info : OidcUserInfo) × (user_info ≡ some info)
              × (user_of_token env db token.user ≡ none)
              × IsConfirmed token info))
serve_user-Guarded env slugs token header user_info request db acyclic role changes =
    go (user_auth_required env (role_of_user request) slugs token header user_info (idle db))
      (user_auth_required-LoginPasses env (role_of_user request) slugs token header user_info
        (idle db) acyclic)
      changes
  where
    Guarded : Type 0
    Guarded =
        (contains token.roles "openid" ≡ false)
        ⊎ (((user : User) × (user_of_token env db token.user ≡ some user)
              × IsGovernor db slugs user.id)
            ⊎ ((info : OidcUserInfo) × (user_info ≡ some info)
                × (user_of_token env db token.user ≡ none)
                × IsConfirmed token info))

    stops :
        (o : Outcome (Unit {0})) (t : State)
        → LoginStops env (role_of_user request) slugs token header user_info (idle db) o t
        → t.db ≢ db
        → Guarded
    stops o t (_, inl same, _) changed = absurd (changed same)
    stops o t (_, inr (info, bound, missing, confirmed, _), _) changed =
        inr (inr (info, bound, missing, confirmed))

    go :
        (r : Outcome Context × State)
        → After
            (LoginStops env (role_of_user request) slugs token header user_info (idle db))
            (LoginPasses env (role_of_user request) slugs token user_info (idle db))
            r
        → (continue r (λ ctx.
            handle_user
              (record env { user = ctx.current_user; has_relations = ctx.has_relations })
              request)).1.db
          ≢ db
        → Guarded
    go (ok ctx, t) (skips_login e _ _) changed = inl e
    go (ok ctx, t) (has_row user _ found may _ _ _) changed =
        inr (inl (user, found, subst (λ (r : AuthRole). MayPass r db slugs user.id) role may))
    go (ok ctx, t) (registers info bound missing confirmed _ _ _) changed =
        inr (inr (info, bound, missing, confirmed))
    go (returned, t) h changed = stops returned t h changed
    go (panicked, t) h changed = stops panicked t h changed
    go (hung, t) h changed = stops hung t h changed
