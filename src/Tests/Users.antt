-- ===== src/Tests/Users.antt =====
-- Runs of the handlers of users.
use governor_api.Prelude.{◌≡◌, refl, ap, ◌⊎◌, false, Option, none, some, [], ◌∷◌, length, map, Memᴰ}
use governor_api.Db.{Db, User, find}
use governor_api.Hierarchy.{contains}
use governor_api.Api.{State}
use governor_api.Api.Auth.{OidcUserInfo, user_of_token}
use governor_api.Api.Auth.Groups.{IsGovernor}
use governor_api.Api.Login.{user_auth_required}
use governor_api.Api.Login.Passes.{IsConfirmed}
use governor_api.Api.Writes.Runs.{WriteRun}
use governor_api.Api.Users.{UserReq, create_user, update_user, activate}
use governor_api.Api.Users.Creation.{registration}
use governor_api.Api.Users.Runs.{create_user-WriteRun}
use governor_api.Api.Users.Update.{UpdateRun, update_user-UpdateRun}
use governor_api.Api.Users.Status.{Steps, update_user-Steps, begins, updates, UsersReach-pending}
use governor_api.Api.Server.{idle, UserRequest, put_user, serve_user}
use governor_api.Api.Server.Guard.{serve_user-Guarded}
use governor_api.Tests.Sample.{sample, sample-IsAcyclic, calm, ann, state_of}
use governor_api.Tests.Requests.{service}

abbrev nothing : UserReq
nothing = record {
  avatar_url = "";
  email = "";
  external_id = "";
  github_id = "";
  github_username = "";
  name = "";
  status = "";
}

abbrev carl : UserReq
carl = record nothing { email = "carl@example.com"; name = "Carl"; github_id = "-17" }

abbrev at : State
at = state_of sample

create_user-WriteRun_example :
    WriteRun
      (registration calm (some carl) sample)
      at
      (create_user calm (some carl) at).0
      (create_user calm (some carl) at).1
create_user-WriteRun_example = create_user-WriteRun calm (some carl) at refl

is_pending :
    map (λ u. u.status) (create_user calm (some carl) at).1.db.users
    ≡ some "active" ∷ some "pending" ∷ []
unfolding create_user
is_pending = refl

abbrev waiting : Db
waiting = record sample { users = record ann { status = some "pending" } ∷ [] }

abbrev activating : UserReq
activating = record nothing { status = "active" }

update_user-UpdateRun_example :
    UpdateRun calm "ann"
      (some activating)
      waiting
      (state_of waiting)
      (update_user calm "ann" (some activating) (state_of waiting)).0
      (update_user calm "ann" (some activating) (state_of waiting)).1
update_user-UpdateRun_example =
    update_user-UpdateRun calm "ann" (some activating) (state_of waiting) refl

two_events : length (update_user calm "ann" (some activating) (state_of waiting)).1.published ≡ 2
unfolding update_user activate find
two_events = refl

update_user-Steps_example :
    Steps waiting (update_user calm "ann" (some activating) (state_of waiting)).1.db
update_user-Steps_example = update_user-Steps calm "ann" (some activating) (state_of waiting) refl

abbrev renaming : UserReq
renaming = record nothing { name = "Anne" }

abbrev anne : User
anne = record ann { status = some "pending"; name = "Anne" }

anne_renamed : Memᴰ anne (update_user calm "ann" (some renaming) (idle waiting)).1.db.users
unfolding update_user find
anne_renamed = Memᴰ.head refl

UsersReach-pending_example :
    (old : User) × Memᴰ old waiting.users × (old.id ≡ "ann") × (old.status ≡ some "pending")
UsersReach-pending_example =
    UsersReach-pending waiting (update_user calm "ann" (some renaming) (idle waiting)).1.db
      (updates calm "ann" (some renaming) begins) anne anne_renamed refl

abbrev suspending : UserRequest
suspending = put_user "ann" (some (record nothing { status = "suspended" }))

ann_suspended :
    length (serve_user calm [] service [] none suspending (idle sample)).1.db.audit_events ≡ 1
unfolding user_auth_required update_user contains find
ann_suspended = refl

serve_user-Guarded_example :
    (contains service.roles "openid" ≡ false)
    ⊎ (((user : User) × (user_of_token calm sample service.user ≡ some user)
          × IsGovernor sample [] user.id)
        ⊎ ((info : OidcUserInfo) × (◌≡◌ {A = Option OidcUserInfo} none (some info))
            × (user_of_token calm sample service.user ≡ none)
            × IsConfirmed service info))
serve_user-Guarded_example =
    serve_user-Guarded calm [] service [] none suspending sample sample-IsAcyclic refl
      (λ same. cc (ann_suspended, ap (λ (db : Db). length db.audit_events) same))
