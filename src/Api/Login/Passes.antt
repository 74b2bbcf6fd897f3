-- ===== src/Api/Login/Passes.antt =====
-- mwUserAuthRequired: who may pass, and what a request leaves.
use governor_api.Prelude.{
  String, ◌≡◌, ◌↔◌, ◌⊎◌, Bool, true, false, Option, none, some, List, [], ◌∷◌, ◌++◌, length, nat_eq,
  ◌==◌,
}
use governor_api.Db.{Db, User}
use governor_api.Hierarchy.{contains}
use governor_api.Api.{Call, Env, State, returned}
use governor_api.Api.Rules.{Post}
use governor_api.Api.Auth.{
  AuthRole, auth_role_user, auth_role_admin, auth_role_group_member, auth_role_group_admin,
  auth_role_admin_or_group_admin, auth_role_admin_or_group_admin_or_group_approver, Token, Context,
  OidcUserInfo, no_context, user_of_token,
}
use governor_api.Api.Auth.Groups.{IsGovernor}

-- The row of a user whom the provider confirms, and the rows with it and its audit event.
abbrev pub newcomer : Env → OidcUserInfo → User
newcomer env info = record {
  id = env.fresh_id;
  external_id = some info.sub;
  name = info.name;
  email = info.email;
  status = some "active";
  avatar_url = none;
  github_id = none;
  github_username = none;
  deleted_at = none;
}

abbrev pub registered : Env → Db → OidcUserInfo → Db
registered env db info = record db {
  users = db.users ++ newcomer env info ∷ [];
  audit_events =
      db.audit_events
      ++ record {
        parent_id = some env.audit_id;
        actor_id = some env.fresh_id;
        action = "user.created";
        subject_group_id = none;
        subject_user_id = some env.fresh_id;
        subject_application_id = none;
      }
        ∷ [];
}

-- What a handler finds of a user, who is loaded with its relations only where it had a row.
abbrev pub login_context : User → Bool → Bool → Context
login_context user is_admin loaded = record {
  current_user = some user;
  is_admin = some is_admin;
  is_group_admin = none;
  is_group_member = none;
  is_group_approver = none;
  has_relations = loaded;
}

-- The provider confirms the subject and the user of the token.
pub record IsConfirmed (token : Token) (info : OidcUserInfo) : Type 0 where
  pub named : (info.name == "") ≡ false
  pub email : info.email ≡ token.subject
  pub sub : info.sub ≡ token.user

-- What a user who has a row may pass.
abbrev pub MayPass : AuthRole → Db → List String → String → Type 0
MayPass auth_role_user db slugs u = Unit {0}
MayPass auth_role_admin db slugs u = IsGovernor db slugs u
MayPass auth_role_group_member db slugs u = ⊥
MayPass auth_role_group_admin db slugs u = ⊥
MayPass auth_role_admin_or_group_admin db slugs u = ⊥
MayPass auth_role_admin_or_group_admin_or_group_approver db slugs u = ⊥

pub data LoginPasses (env : Env) (role : AuthRole) (slugs : List String) (token : Token)
    (user_info : Option OidcUserInfo) (s : State) (ctx : Context) (t : State) : Type 0 where
  skips_login :
      contains token.roles "openid" ≡ false
      → ctx ≡ no_context
      → t ≡ s
      → LoginPasses env role slugs token user_info s ctx t
  has_row :
      (user : User) (is_admin : Bool)
      → user_of_token env s.db token.user ≡ some user
      → MayPass role s.db slugs user.id
      → (is_admin ≡ true) ↔ IsGovernor s.db slugs user.id
      → ctx ≡ login_context user is_admin true
      → t ≡ s
      → LoginPasses env role slugs token user_info s ctx t
  registers :
      (info : OidcUserInfo)
      → user_info ≡ some info
      → user_of_token env s.db token.user ≡ none
      → IsConfirmed token info
      → ctx ≡ login_context (newcomer env info) false false
      → t.db ≡ registered env s.db info
      → t.tx ≡ none
      → LoginPasses env role slugs token user_info s ctx t

-- Who passes where no call fails: a user with a row whom the role allows, and one without a row whom
-- the provider confirms, for a header of two parts.
abbrev pub MayLogin :
    Env → AuthRole → List String → Token → List String → Option OidcUserInfo → Db → Type 0
MayLogin env role slugs token header user_info db =
    (contains token.roles "openid" ≡ true)
    × ((token.user == "") ≡ false)
    × (((user : User) × (user_of_token env db token.user ≡ some user)
          × MayPass role db slugs user.id)
        ⊎ ((user_of_token env db token.user ≡ none)
            × (nat_eq (length header) 2 ≡ true)
            × ((info : OidcUserInfo) × (user_info ≡ some info) × IsConfirmed token info)))

-- A request that stops: the rows are as they were, or the user is registered and the event bus failed;
-- and where no call fails nobody stops who may pass.
abbrev pub LoginStops :
    Env → AuthRole → List String → Token → List String → Option OidcUserInfo → State → Post
LoginStops env role slugs token header user_info s o t =
    (o ≡ returned)
    × ((t.db ≡ s.db)
        ⊎ ((info : OidcUserInfo) × (user_info ≡ some info)
            × (user_of_token env s.db token.user ≡ none)
            × IsConfirmed token info
            × (t.db ≡ registered env s.db info)))
    × (((call : Call) → env.fails call ≡ false)
        → ¬ MayLogin env role slugs token header user_info s.db)
