-- ===== src/Api/Server.antt =====
-- pkg/api/v1alpha1/router.go: every route that changes groups, members, hierarchies, requests to join
-- or users, each with its middleware.
-- Of the routes that only read no handler is here: what they change is the registration of a user by
-- mwUserAuthRequired, which comes before the handlers here too.
-- A token with no OIDC scope, of a service, passes the middleware, and no user is in the context then.
-- The scopes of the route are checked before, by the middleware of ginauth.
pub mod Keeps
pub mod Reach
pub mod Guard
use governor_api.Prelude.{ℕ, String, Option, none, [], List}
use governor_api.Db.{Db}
use governor_api.Api.{Env, State, Handler, ◌>>=◌}
use governor_api.Api.Hierarchies.{
  AddMemberGroupReq, add_member_group, update_member_group, remove_member_group,
}
use governor_api.Api.Members.{
  AddGroupMemberReq, UpdateGroupMemberReq, add_group_member, update_group_member,
  remove_group_member,
}
use governor_api.Api.Requests.{
  CreateGroupMemberReq, process_group_request, create_group_request, delete_group_request,
}
use governor_api.Api.Groups.{GroupReq, create_group, update_group, delete_group}
use governor_api.Api.Users.{UserReq, create_user, update_user, delete_user}
use governor_api.Api.Self.{
  AuthenticatedUserReq, remove_authenticated_user_group, update_authenticated_user,
}
use governor_api.Api.Login.{user_auth_required}
use governor_api.Api.Auth.{
  AuthRole, OidcUserInfo, auth_role_user, auth_role_admin, auth_role_group_admin,
  auth_role_admin_or_group_admin, auth_role_admin_or_group_admin_or_group_approver, Token,
  group_auth_required,
}

pub data Request : Type 0 where
  put_member : String → String → Option AddGroupMemberReq → Request
  patch_member : String → String → Option UpdateGroupMemberReq → Request
  delete_member : String → String → Request
  post_hierarchy : String → Option AddMemberGroupReq → Request
  patch_hierarchy : String → String → Option (Option ℕ) → Request
  delete_hierarchy : String → String → Request
  put_request : String → String → Option String → Request
  put_group : String → Option GroupReq → Request
  delete_group_at : String → Request

-- c.Param("id")
abbrev pub group_param : Request → String
group_param (put_member gid uid body) = gid
group_param (patch_member gid uid body) = gid
group_param (delete_member gid uid) = gid
group_param (post_hierarchy gid body) = gid
group_param (patch_hierarchy gid member_id body) = gid
group_param (delete_hierarchy gid member_id) = gid
group_param (put_request gid rid body) = gid
group_param (put_group gid body) = gid
group_param (delete_group_at gid) = gid

abbrev pub role_of : Request → AuthRole
role_of (put_member gid uid body) = auth_role_group_admin
role_of (patch_member gid uid body) = auth_role_admin_or_group_admin
role_of (delete_member gid uid) = auth_role_group_admin
role_of (post_hierarchy gid body) = auth_role_group_admin
role_of (patch_hierarchy gid member_id body) = auth_role_group_admin
role_of (delete_hierarchy gid member_id) = auth_role_group_admin
role_of (put_request gid rid body) = auth_role_admin_or_group_admin_or_group_approver
role_of (put_group gid body) = auth_role_group_admin
role_of (delete_group_at gid) = auth_role_admin_or_group_admin

abbrev pub handle : Env → Request → Handler (Unit {0})
handle env (put_member gid uid body) = add_group_member env gid uid body
handle env (patch_member gid uid body) = update_group_member env gid uid body
handle env (delete_member gid uid) = remove_group_member env gid uid
handle env (post_hierarchy gid body) = add_member_group env gid body
handle env (patch_hierarchy gid member_id body) = update_member_group env gid member_id body
handle env (delete_hierarchy gid member_id) = remove_member_group env gid member_id
handle env (put_request gid rid body) = process_group_request env gid rid body
handle env (put_group gid body) = update_group env gid body
handle env (delete_group_at gid) = delete_group env gid

abbrev pub serve : Env → List String → Token → Request → Handler (Unit {0})
serve env slugs token request = do
  ctx ← group_auth_required env (role_of request) slugs token (group_param request)
  handle (record env { user = ctx.current_user }) request

-- The routes that no group is checked for: what users do with their own row, memberships and requests
-- to join a group, new groups, and the routes of users, for governor admins.
pub data UserRequest : Type 0 where
  put_self : Option AuthenticatedUserReq → UserRequest
  delete_own_group : String → UserRequest
  post_request : String → Option CreateGroupMemberReq → UserRequest
  revoke_request : String → String → UserRequest
  post_group : Option GroupReq → UserRequest
  post_user : Option UserReq → UserRequest
  put_user : String → Option UserReq → UserRequest
  delete_user_at : String → UserRequest

abbrev pub role_of_user : UserRequest → AuthRole
role_of_user (put_self body) = auth_role_user
role_of_user (delete_own_group gid) = auth_role_user
role_of_user (post_request gid body) = auth_role_user
role_of_user (revoke_request gid rid) = auth_role_user
role_of_user (post_group body) = auth_role_user
role_of_user (post_user body) = auth_role_admin
role_of_user (put_user id body) = auth_role_admin
role_of_user (delete_user_at id) = auth_role_admin

abbrev pub handle_user : Env → UserRequest → Handler (Unit {0})
handle_user env (put_self body) = update_authenticated_user env body
handle_user env (delete_own_group gid) = remove_authenticated_user_group env gid
handle_user env (post_request gid body) = create_group_request env gid body
handle_user env (revoke_request gid rid) = delete_group_request env gid rid
handle_user env (post_group body) = create_group env body
handle_user env (post_user body) = create_user env body
handle_user env (put_user id body) = update_user env id body
handle_user env (delete_user_at id) = delete_user env id

abbrev pub serve_user :
    Env → List String → Token → List String → Option OidcUserInfo → UserRequest → Handler (Unit {0})
serve_user env slugs token header user_info request = do
  ctx ← user_auth_required env (role_of_user request) slugs token header user_info
  handle_user (record env { user = ctx.current_user; has_relations = ctx.has_relations }) request

-- A request starts with no transaction.
abbrev pub idle : Db → State
idle db = record { db = db; tx = none; published = []; response = none }
