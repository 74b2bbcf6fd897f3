-- ===== src/Tests/Groups.antt =====
-- Runs of the handlers of groups.
use governor_api.Prelude.{◌≡◌, refl, ◌⊎◌, some, []}
use governor_api.Db.{find}
use governor_api.Api.{State}
use governor_api.Api.Writes.Runs.{WriteRun}
use governor_api.Api.Groups.{GroupReq, create_group, update_group, delete_group}
use governor_api.Api.Groups.Creation.{creation}
use governor_api.Api.Groups.Runs.{
  edition, deletion, create_group-WriteRun, update_group-WriteRun, delete_group-WriteRun,
}
use governor_api.Api.Groups.Clear.{Cleared, delete_group-Cleared}
use governor_api.Tests.Sample.{sample, calm, state_of}
use governor_api.Tests.Requests.{sample-IsSound}

abbrev ops : GroupReq
ops = record { name = "Ops (day)"; description = "on call"; note = ""; approver_group_id = "staff" }

abbrev at : State
at = state_of sample

create_group-WriteRun_example :
    WriteRun
      (creation calm (some ops) sample)
      at
      (create_group calm (some ops) at).0
      (create_group calm (some ops) at).1
create_group-WriteRun_example = create_group-WriteRun calm (some ops) at refl

accepted : (create_group calm (some ops) at).1.response ≡ some 202
unfolding create_group
accepted = refl

no_exclamation : (create_group calm (some (record ops { name = "Ops!" })) at).1.response ≡ some 400
unfolding create_group
no_exclamation = refl

update_group-WriteRun_example :
    WriteRun
      (edition calm "dev" (some ops) sample)
      at
      (update_group calm "dev" (some ops) at).0
      (update_group calm "dev" (some ops) at).1
update_group-WriteRun_example = update_group-WriteRun calm "dev" (some ops) at refl

delete_group-WriteRun_example :
    WriteRun
      (deletion calm "dev" sample)
      at
      (delete_group calm "dev" at).0
      (delete_group calm "dev" at).1
delete_group-WriteRun_example = delete_group-WriteRun calm "dev" at refl

delete_group-Cleared_example :
    ((delete_group calm "dev" at).1.db ≡ sample)
    ⊎ Cleared calm "dev" sample (delete_group calm "dev" at).1.db
delete_group-Cleared_example = delete_group-Cleared calm "dev" at refl sample-IsSound

emptied : (delete_group calm "dev" at).1.db.memberships ≡ []
unfolding delete_group find
emptied = refl
