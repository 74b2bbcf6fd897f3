-- ===== src/Api/Login.antt =====
-- mwUserAuthRequired of pkg/api/v1alpha1/auth.go: the user of a token, who is registered at the first
-- request. What the OIDC provider says of a token (internal/auth) is an argument.
pub mod Runs
pub mod Passes
use governor_api.Prelude.{
  ℕ, String, Bool, true, false, not, Option, none, some, List, [], ◌∷◌, ◌++◌, length, nat_eq, ◌==◌,
  if◌then◌else◌,
}
use governor_api.Db.{Db, User}
use governor_api.Hierarchy.{contains}
use governor_api.Membership.{memberships_by_user}
use governor_api.Api.{
  begin_tx, find_user_row, insert_row, audit, audit_context, memberships_before, commit_tx,
  publish_last, admin_groups, Env, Event, users, create, Handler, ◌>>=◌, ◌>>◌, pure, send_error,
  await, set_tx, committed_rows, begin, commit, emit, check, check_tx,
}
use governor_api.Api.Audit.{insert_audit, audit_user_created_with_actor}
use governor_api.Api.Events.{bind_json}
use governor_api.Api.Auth.{
  AuthRole, auth_role_user, auth_role_admin, auth_role_group_member, auth_role_group_admin,
  auth_role_admin_or_group_admin, auth_role_admin_or_group_admin_or_group_approver, Token, Context,
  OidcUserInfo, no_context, governs, unless_401, user_of_token,
}

module _ (env : Env) where
  -- The column `status` has the default `active`.
  abbrev pub new_user : OidcUserInfo → User
  new_user info = record {
    id = env.fresh_id;
    external_id = some info.sub;
    name = info.name;
    email = info.email;
    status = some "active";
    avatar_url = none;
    github_id = none;
    github_username = none;
    deleted_at = none;
  }

  abbrev pub insert_user : User → Db → Db
  insert_user row db = record db { users = db.users ++ row ∷ [] }

  abbrev pub user_context : User → Bool → Context
  user_context user is_admin = record no_context {
    current_user = some user;
    is_admin = some is_admin;
  }

  -- A user who is found is loaded with memberships and requests.
  abbrev pub known_context : User → Bool → Context
  known_context user is_admin = record (user_context user is_admin) { has_relations = true }

  -- There is no user in the context yet.
  abbrev pub users_event : String → Event
  users_event user_id = record {
    subject = users;
    action = create;
    audit_id = env.audit_id;
    group_id = "";
    user_id = user_id;
    application_id = "";
    actor_id = "";
  }

  -- The header is split at spaces. A failing insert leaves the transaction open.
  pub register : Token → List String → Option OidcUserInfo → Handler Context
  register token header user_info = if not (nat_eq (length header) 2) then send_error 401 else do
    info ← bind_json env user_info
    if info.name == "" then send_error 400 else do
      if not (info.email == token.subject) then send_error 400 else do
        if not (info.sub == token.user) then send_error 400 else do
          check env begin_tx 400
          start ← begin
          check env insert_row 400
          let user = new_user info
          let inserted = insert_user user start
          set_tx (some inserted)
          check_tx env audit 400
          set_tx (
              some (
                insert_audit (audit_user_created_with_actor env.audit_id (some user) user)
                  inserted))
          check_tx env audit_context 400
          check_tx env commit_tx 400
          commit
          check env publish_last 400
          emit (users_event user.id)
          pure (user_context user false)

  abbrev pub decide_user : AuthRole → User → Bool → Handler Context
  decide_user auth_role_user user is_admin = pure (known_context user is_admin)
  decide_user auth_role_admin user is_admin = unless_401 env is_admin (known_context user is_admin)
  decide_user auth_role_group_member user is_admin = send_error 401
  decide_user auth_role_group_admin user is_admin = send_error 401
  decide_user auth_role_admin_or_group_admin user is_admin = send_error 401
  decide_user auth_role_admin_or_group_admin_or_group_approver user is_admin = send_error 401

  pub known : AuthRole → List String → Db → User → Handler Context
  known role slugs rows user = do
    check env memberships_before 500
    enumerated ← await (memberships_by_user rows user.id)
    check env admin_groups 500
    decide_user role user (governs env rows slugs enumerated)

  unfoldable pub user_auth_required :
      AuthRole → List String → Token → List String → Option OidcUserInfo → Handler Context
  user_auth_required role slugs token header user_info =
      if not (contains token.roles "openid") then pure no_context else do
        if token.user == "" then send_error 401 else do
          check env find_user_row 500
          rows ← committed_rows
          elim (user_of_token env rows token.user) [
            | none ↦ register token header user_info
            | some user ↦ known role slugs rows user
          ]
