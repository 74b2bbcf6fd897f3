-- ===== src/Tests/Own.antt =====
-- Runs of the handlers by which users change what is their own: ann leaves `dev`.
use governor_api.Prelude.{◌≡◌, refl, []}
use governor_api.Db.{find}
use governor_api.Api.Writes.Runs.{WriteRun}
use governor_api.Api.Self.{remove_authenticated_user_group}
use governor_api.Api.Self.Runs.{leaving, remove_authenticated_user_group-WriteRun}
use governor_api.Tests.Sample.{sample, calm, state_of}

remove_authenticated_user_group-WriteRun_example :
    WriteRun
      (leaving calm "dev" sample)
      (state_of sample)
      (remove_authenticated_user_group calm "dev" (state_of sample)).0
      (remove_authenticated_user_group calm "dev" (state_of sample)).1
remove_authenticated_user_group-WriteRun_example =
    remove_authenticated_user_group-WriteRun calm "dev" (state_of sample) refl

has_left : (remove_authenticated_user_group calm "dev" (state_of sample)).1.db.memberships ≡ []
unfolding remove_authenticated_user_group find
has_left = refl
