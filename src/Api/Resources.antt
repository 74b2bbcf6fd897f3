-- ===== src/Api/Resources.antt =====
-- The middlewares before the handlers that change resources of extensions:
-- mwSystemExtensionResourceGroupAuth of pkg/api/v1alpha1/extension_resource_auth.go, and
-- mwExtensionResourcesEnabledCheck of extension_lifecycle.go. The first keeps the extension and the
-- definition that it has loaded in the context.
pub mod May
pub mod Access
use governor_api.Prelude.{
  String, Bool, true, false, not, Option, none, some, any, ◌==◌, ◌&&◌, if◌then◌else◌,
}
use governor_api.Db.{Db, User, Extension, ExtensionResourceDefinition, is_null, find}
use governor_api.Hierarchy.{contains}
use governor_api.Membership.{memberships_by_user}
use governor_api.Api.{
  find_extension_row, memberships_before, Env, Handler, ◌>>=◌, ◌>>◌, pure, send_error, await,
  committed_rows, check, one,
}
use governor_api.Api.Auth.{Token, Context}

-- The path of the request.
pub record ResourcePath : Type 0 where
  pub extension_slug : String
  pub erd_slug_plural : String
  pub erd_version : String

pub record Loaded : Type 0 where
  pub extension : Extension
  pub erd : ExtensionResourceDefinition

module _ (env : Env) (path : ResourcePath) where
  abbrev pub find_extension : Db → Option Extension
  find_extension db =
      find (λ e. e.slug == path.extension_slug && is_null e.deleted_at) db.extensions

  -- The first of the definitions that qm.Load brings with the extension.
  abbrev pub find_erd : Db → Extension → Option ExtensionResourceDefinition
  find_erd db extension =
      find
        (λ d.
          d.extension_id == extension.id
          && d.slug_plural == path.erd_slug_plural
          && d.version == path.erd_version
          && is_null d.deleted_at)
        db.extension_resource_definitions

  abbrev pub find_erd_for_extension_resource : Handler Loaded
  find_erd_for_extension_resource = do
    rows ← committed_rows
    extension ← one env find_extension_row 404 400 (find_extension rows)
    elim (find_erd rows extension) [
      | none ↦ send_error 404
      | some erd ↦ pure (record { extension = extension; erd = erd })
    ]

  -- The group of `AdminGroup`, unless it is null or empty.
  abbrev pub admin_group_of : ExtensionResourceDefinition → Option String
  admin_group_of erd = elim erd.admin_group [
    | none ↦ none
    | some id ↦ if id == "" then none else some id
  ]

  abbrev pub is_gov_admin : Context → Bool
  is_gov_admin ctx = elim ctx.is_admin [ none ↦ false | some admin ↦ admin ]

  -- The user is in the admin group of the definition, if it has one.
  abbrev pub in_admin_group : User → Loaded → Handler (Option Loaded)
  in_admin_group user loaded = elim (admin_group_of loaded.erd) [
    | none ↦ send_error 403
    | some admin_group_id ↦ do
      rows ← committed_rows
      check env memberships_before 500
      memberships ← await (memberships_by_user rows user.id)
      if any (λ m. m.group_id == admin_group_id) memberships
          then pure (some loaded)
          else send_error 403
  ]

  abbrev pub auth_user : Context → User → Handler (Option Loaded)
  auth_user ctx user =
      if is_gov_admin ctx
      then pure none
      else (do loaded ← find_erd_for_extension_resource; in_admin_group user loaded)

  abbrev pub resource_group_auth : Token → Context → Handler (Option Loaded)
  resource_group_auth token ctx =
      if not (contains token.roles "openid")
      then pure none
      else (elim ctx.current_user [ none ↦ send_error 401 | some user ↦ auth_user ctx user ])

  -- Only an extension and a definition that are not in the context yet are loaded.
  abbrev pub load : Option Loaded → Handler Loaded
  load none = find_erd_for_extension_resource
  load (some loaded) = pure loaded

  abbrev pub if_enabled : Loaded → Handler Loaded
  if_enabled loaded =
      if not loaded.extension.enabled
      then send_error 400
      else (if not loaded.erd.enabled then send_error 400 else pure loaded)

  abbrev pub enabled_check : Option Loaded → Handler Loaded
  enabled_check saved = do loaded ← load saved; if_enabled loaded

  -- Both, in the order of the routes.
  unfoldable pub resource_access : Token → Context → Handler Loaded
  resource_access token ctx = do saved ← resource_group_auth token ctx; enabled_check saved
