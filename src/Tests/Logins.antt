-- ===== src/Tests/Logins.antt =====
-- Runs of mwUserAuthRequired.
use governor_api.Prelude.{String, ◌≡◌, refl, false, true, none, some, List, [], ◌∷◌}
use governor_api.Db.{find}
use governor_api.Hierarchy.{contains}
use governor_api.Api.{ok}
use governor_api.Api.Rules.{After}
use governor_api.Api.Auth.{auth_role_admin, Token, OidcUserInfo, user_of_token}
use governor_api.Api.Login.{users_event, user_auth_required}
use governor_api.Api.Login.Passes.{newcomer, login_context, registered, LoginStops, LoginPasses}
use governor_api.Api.Login.Runs.{user_auth_required-LoginPasses, first_request_passes}
use governor_api.Tests.Sample.{sample, calm, state_of, sample-IsAcyclic}

abbrev token : Token
token = record { roles = "openid" ∷ []; user = "x9"; subject = "eve@example.com" }

abbrev header : List String
header = "Bearer" ∷ "jwt" ∷ []

abbrev eve : OidcUserInfo
eve = record { name = "Eve"; email = "eve@example.com"; sub = "x9" }

user_auth_required-LoginPasses_example :
    After
      (LoginStops calm auth_role_admin ("admins" ∷ []) token header (some eve) (state_of sample))
      (LoginPasses calm auth_role_admin ("admins" ∷ []) token (some eve) (state_of sample))
      (user_auth_required calm auth_role_admin
        ("admins" ∷ [])
        token
        header
        (some eve)
        (state_of sample))
user_auth_required-LoginPasses_example =
    user_auth_required-LoginPasses calm auth_role_admin ("admins" ∷ []) token header (some eve)
      (state_of sample) sample-IsAcyclic

has_scope : contains token.roles "openid" ≡ true
unfolding contains
has_scope = refl

unregistered : user_of_token calm sample "x9" ≡ none
unfolding find
unregistered = refl

first_request_passes_example :
    user_auth_required calm auth_role_admin [] token header (some eve) (state_of sample) ≡ (
      ok (login_context (newcomer calm eve) false false),
      record (state_of sample) {
        db = registered calm sample eve;
        published = users_event calm "new" ∷ [];
      },
    )
first_request_passes_example =
    first_request_passes calm auth_role_admin [] token header eve (state_of sample) (λ _. refl)
      has_scope refl unregistered refl (record { named = refl; email = refl; sub = refl })
