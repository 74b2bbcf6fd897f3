-- ===== src/Tests/Hierarchies.antt =====
-- Runs of the cycle check and of addMemberGroup.
use governor_api.Prelude.{◌==◌, ◌&&◌, ◌≡◌, refl, ◌↔◌, Bool, true, none, some}
use governor_api.Db.{find, is_null}
use governor_api.Hierarchy.{would_create_cycle}
use governor_api.Hierarchy.Walks.{HasCycle}
use governor_api.Hierarchy.Cycle.{NewEdge, IsAcyclic, would_create_cycle_decides}
use governor_api.Api.Hierarchies.{
  AddMemberGroupReq, add_member_group, update_member_group, remove_member_group,
}
use governor_api.Api.Hierarchies.Add.{AddRun, add_member_group-AddRun, add_member_group-IsAcyclic}
use governor_api.Api.Hierarchies.Update.{UpdateRun, update_member_group-UpdateRun}
use governor_api.Api.Hierarchies.Remove.{RemoveRun, remove_member_group-RemoveRun}
use governor_api.Tests.Sample.{
  sample, flat, calm, state_of, staff, dev, sample-IsAcyclic, flat-IsAcyclic,
}

would_create_cycle_decides_example :
    (b : Bool) × (would_create_cycle sample "dev" "staff" ≡ some b)
    × ((b ≡ true) ↔ HasCycle (NewEdge sample "dev" "staff"))
would_create_cycle_decides_example = would_create_cycle_decides sample "dev" "staff"

abbrev req : AddMemberGroupReq
req = record { expires_at = none; member_group_id = "dev" }

add_member_group-AddRun_example :
    AddRun calm "staff"
      (some req)
      (state_of flat)
      (add_member_group calm "staff" (some req) (state_of flat)).0
      (add_member_group calm "staff" (some req) (state_of flat)).1
add_member_group-AddRun_example =
    add_member_group-AddRun calm "staff" (some req) (state_of flat) refl

add_member_group-IsAcyclic_example :
    IsAcyclic (add_member_group calm "staff" (some req) (state_of flat)).1.db
add_member_group-IsAcyclic_example =
    add_member_group-IsAcyclic calm "staff" (some req) (state_of flat) refl flat-IsAcyclic

finds_staff : find (λ g. g.id == "staff" && is_null g.deleted_at) sample.groups ≡ some staff
unfolding find
finds_staff = refl

finds_dev : find (λ g. g.id == "dev" && is_null g.deleted_at) sample.groups ≡ some dev
unfolding find
finds_dev = refl

update_member_group-UpdateRun_example :
    UpdateRun calm "staff" "dev"
      (some (some 50))
      (state_of sample)
      (update_member_group calm "staff" "dev" (some (some 50)) (state_of sample)).0
      (update_member_group calm "staff" "dev" (some (some 50)) (state_of sample)).1
update_member_group-UpdateRun_example =
    update_member_group-UpdateRun calm "staff" "dev" (some (some 50)) (state_of sample) refl

remove_member_group-RemoveRun_example :
    RemoveRun calm "staff" "dev"
      (state_of sample)
      (remove_member_group calm "staff" "dev" (state_of sample)).0
      (remove_member_group calm "staff" "dev" (state_of sample)).1
remove_member_group-RemoveRun_example =
    remove_member_group-RemoveRun calm "staff" "dev" (state_of sample) refl sample-IsAcyclic
