-- ===== src/Api/Auth.antt =====
-- pkg/api/v1alpha1/auth.go: the middlewares that let a request pass, or answer it with an error. The
-- token itself is checked before, by the middleware of ginauth; what it found is a `Token`.
pub mod Scan
pub mod Groups
pub mod Pass
pub mod Admit
pub mod Keeps
use governor_api.Prelude.{
  ℕ, String, Bool, true, false, not, Option, none, some, List, [], ◌∷◌, ◌++◌, map, filter, any, ltb,
  ◌==◌, ◌&&◌, ◌||◌, if◌then◌else◌,
}
use governor_api.Db.{Db, Group, User, is_null, find, find_group, find_user}
use governor_api.Hierarchy.{contains}
use governor_api.Membership.{EnumeratedMembership, memberships_by_user}
use governor_api.Api.{
  begin_tx, find_group_row, find_user_row, insert_row, audit, audit_context, memberships_before,
  commit_tx, publish_last, admin_groups, Env, Event, users, create, Handler, ◌>>=◌, ◌>>◌, pure,
  send_error, await, or_panic, set_tx, committed_rows, begin, commit, emit, check, one, check_tx,
  actor_id,
}
use governor_api.Api.Audit.{insert_audit, audit_user_created_with_actor}

pub data AuthRole : Type 0 where
  auth_role_user auth_role_admin auth_role_group_member auth_role_group_admin : AuthRole
  auth_role_admin_or_group_admin auth_role_admin_or_group_admin_or_group_approver : AuthRole

-- What ginauth has put into the context: `jwt.roles`, `jwt.user` and `jwt.subject`.
pub record Token : Type 0 where
  pub roles : List String
  pub user : String
  pub subject : String

-- What the middlewares put there.
pub record Context : Type 0 where
  pub current_user : Option User
  pub is_admin : Option Bool
  pub is_group_admin : Option Bool
  pub is_group_member : Option Bool
  pub is_group_approver : Option Bool
  -- of the user
  pub has_relations : Bool

abbrev pub no_context : Context
no_context = record {
  current_user = none;
  is_admin = none;
  is_group_admin = none;
  is_group_member = none;
  is_group_approver = none;
  has_relations = false;
}

-- internal/auth: the claims that the OIDC provider returns.
pub record OidcUserInfo : Type 0 where
  pub name : String
  pub email : String
  pub sub : String

-- populateModels
abbrev pub populate_models : Db → List EnumeratedMembership → List EnumeratedMembership
populate_models db = map (λ (m : EnumeratedMembership). record m {
  group = find_group db m.group_id;
  user = find_user db m.user_id;
})

pub record Flags : Type 0 where
  pub member : Bool
  pub admin : Bool
  pub approver : Bool

abbrev pub no_flags : Flags
no_flags = record { member = false; admin = false; approver = false }

-- The rows of models.Groups(slug IN AdminGroups).
abbrev pub admin_group_rows : Db → List String → List Group
admin_group_rows db slugs = filter (λ g. contains slugs g.slug && is_null g.deleted_at) db.groups

module _ (env : Env) where
  -- The rights of a row, until they expire.
  abbrev pub has_rights : EnumeratedMembership → Bool
  has_rights m = elim m.admin_expires_at [
    | none ↦ m.is_admin
    | some t ↦ if ltb env.now t then m.is_admin else false
  ]

  -- m.GroupID, or m.Group.Slug for a request with a slug, which panics without a group.
  abbrev pub row_key : String → EnumeratedMembership → Option String
  row_key id m =
      if env.is_uuid id
      then some m.group_id
      else elim m.group [ none ↦ none | some g ↦ some g.slug ]

  -- The loop over the memberships, which ends at the group of the request.
  pub scan : String → Option String → List EnumeratedMembership → Flags → Option Flags
  scan id approver_group [] flags = some flags
  scan id approver_group (m ∷ ms) flags =
      let rest = scan id approver_group ms in
      elim (row_key id m) [
        | none ↦ none
        | some group_id ↦
            if id == group_id
            then some (record flags { member = true; admin = has_rights m })
            else (elim approver_group [
              | none ↦ rest flags
              | some a ↦
                  if a == group_id then rest (record flags { approver = true }) else rest flags
            ])
      ]

  -- The loop over the governor admin groups.
  abbrev pub governs : Db → List String → List EnumeratedMembership → Bool
  governs db slugs rows =
      let memberships = map (λ (m : EnumeratedMembership). m.group_id) rows in
      any (λ g. contains memberships g.id) (admin_group_rows db slugs)

  abbrev pub unless_401 : Bool → Context → Handler Context
  unless_401 allowed ctx = if allowed then pure ctx else send_error 401

  -- The last part of mwGroupAuthRequired.
  abbrev pub decide :
      AuthRole → Db → List String → List EnumeratedMembership → Flags → Context → Handler Context
  decide auth_role_group_member db slugs rows flags ctx = unless_401 flags.member ctx
  decide auth_role_group_admin db slugs rows flags ctx = unless_401 flags.admin ctx
  decide auth_role_admin_or_group_admin db slugs rows flags ctx = do
    check env admin_groups 500
    unless_401 (flags.admin || governs db slugs rows) ctx
  decide auth_role_admin_or_group_admin_or_group_approver db slugs rows flags ctx = do
    check env admin_groups 500
    unless_401 (flags.admin || governs db slugs rows || flags.approver) ctx
  decide auth_role_user db slugs rows flags ctx = send_error 401
  decide auth_role_admin db slugs rows flags ctx = send_error 401

  abbrev pub user_of_token : Db → String → Option User
  user_of_token db external =
      find
        (λ u.
          (elim u.external_id [ none ↦ false | some e ↦ e == external ]) && is_null u.deleted_at)
        db.users

  unfoldable pub group_auth_required : AuthRole → List String → Token → String → Handler Context
  group_auth_required role slugs token id =
      if not (contains token.roles "openid")
      then pure no_context
      else (if token.user == ""
          then send_error 401
          else (if id == "" then send_error 401 else do
            rows ← committed_rows
            group ← one env find_group_row 401 500 (find_group rows id)
            user ← one env find_user_row 401 500 (user_of_token rows token.user)
            check env memberships_before 500
            enumerated ← await (memberships_by_user rows user.id)
            let populated = populate_models rows enumerated
            flags ← or_panic (scan id group.approver_group populated no_flags)
            decide role rows slugs populated flags (record no_context {
              current_user = some user;
              is_group_admin = some flags.admin;
              is_group_member = some flags.member;
              is_group_approver = some flags.approver;
            })))
