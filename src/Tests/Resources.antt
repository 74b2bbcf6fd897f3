-- ===== src/Tests/Resources.antt =====
-- Access to the resources of a definition whose admin group is `staff`.
use governor_api.Prelude.{◌≡◌, refl, true, false, none, some, [], ◌∷◌}
use governor_api.Db.{Db, Extension, ExtensionResourceDefinition, find}
use governor_api.Hierarchy.{contains}
use governor_api.Api.Rules.{After}
use governor_api.Api.Auth.{Token, Context, no_context}
use governor_api.Api.Resources.{ResourcePath, resource_access}
use governor_api.Api.Resources.May.{RefusesAccess, GrantsAccess}
use governor_api.Api.Resources.Access.{resource_access-GrantsAccess}
use governor_api.Tests.Sample.{sample, calm, state_of, ann}
use governor_api.Tests.Requests.{sample-IsSound}

abbrev dns : Extension
dns = record { id = "x1"; slug = "dns"; enabled = true; deleted_at = none }

abbrev zones : ExtensionResourceDefinition
zones = record {
  id = "d1";
  extension_id = "x1";
  slug_plural = "zones";
  version = "v1";
  enabled = true;
  admin_group = some "staff";
  deleted_at = none;
}

abbrev extended : Db
extended = record sample { extensions = dns ∷ []; extension_resource_definitions = zones ∷ [] }

abbrev path : ResourcePath
path = record { extension_slug = "dns"; erd_slug_plural = "zones"; erd_version = "v1" }

abbrev token : Token
token = record { roles = "openid" ∷ []; user = "x1"; subject = "ann@example.com" }

abbrev as_ann : Context
as_ann = record no_context { current_user = some ann; is_admin = some false }

resource_access-GrantsAccess_example :
    After
      (RefusesAccess calm path token as_ann (state_of extended))
      (GrantsAccess calm path token as_ann (state_of extended))
      (resource_access calm path token as_ann (state_of extended))
resource_access-GrantsAccess_example =
    resource_access-GrantsAccess calm path token as_ann (state_of extended) sample-IsSound.acyclic

nobody : (resource_access calm path token no_context (state_of extended)).1.response ≡ some 401
unfolding resource_access contains
nobody = refl

no_group :
    (resource_access calm path token as_ann (
      state_of (record extended {
        extension_resource_definitions = record zones { admin_group = some "" } ∷ [];
      }))).1.response
    ≡ some 403
unfolding resource_access contains find
no_group = refl
