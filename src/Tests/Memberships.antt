-- ===== src/Tests/Memberships.antt =====
-- The enumerations at the sample.
use governor_api.Prelude.{◌≡◌, ◌↔◌, some, List, Memᴰ}
use governor_api.Membership.{
  EnumeratedMembership, all_memberships, memberships_by_user, memberships_by_group,
}
use governor_api.Membership.Enumeration.{IsMember, IsEnumeration}
use governor_api.Membership.ByUser.{
  everyone, only_user, all_memberships-IsEnumeration, memberships_by_user-IsEnumeration,
}
use governor_api.Membership.ByGroup.{only_group, memberships_by_group-IsEnumeration}
use governor_api.Membership.Agreement.{Agrees, queries_agree}
use governor_api.Membership.Diff.{find_member_diff}
use governor_api.Membership.Gained.{find_member_diff-gained}
use governor_api.Tests.Sample.{flat, flat-IsAcyclic, sample, sample-IsAcyclic}

all_memberships-IsEnumeration_example :
    (rows : List EnumeratedMembership) × (all_memberships sample ≡ some rows)
    × IsEnumeration everyone sample rows
all_memberships-IsEnumeration_example = all_memberships-IsEnumeration sample sample-IsAcyclic

memberships_by_user-IsEnumeration_example :
    (rows : List EnumeratedMembership) × (memberships_by_user sample "ann" ≡ some rows)
    × IsEnumeration (only_user "ann") sample rows
memberships_by_user-IsEnumeration_example =
    memberships_by_user-IsEnumeration sample "ann" sample-IsAcyclic

memberships_by_group-IsEnumeration_example :
    (rows : List EnumeratedMembership) × (memberships_by_group sample "staff" ≡ some rows)
    × IsEnumeration (only_group "staff") sample rows
memberships_by_group-IsEnumeration_example =
    memberships_by_group-IsEnumeration sample "staff" sample-IsAcyclic

queries_agree_example :
    (by_user by_group : List EnumeratedMembership) × (memberships_by_user sample "ann"
      ≡ some by_user)
    × (memberships_by_group sample "staff" ≡ some by_group)
    × Agrees by_user by_group "staff" "ann"
queries_agree_example = queries_agree sample "staff" "ann" sample-IsAcyclic

abbrev before : List EnumeratedMembership
before = (memberships_by_user-IsEnumeration flat "ann" flat-IsAcyclic).0

abbrev after : List EnumeratedMembership
after = (memberships_by_user-IsEnumeration sample "ann" sample-IsAcyclic).0

-- With `dev` in `staff`, ann is in `staff`.
find_member_diff-gained_example :
    ((m : EnumeratedMembership) × Memᴰ m (find_member_diff before after) × (m.group_id ≡ "staff"))
    ↔ (IsMember sample "staff" "ann" × (¬ IsMember flat "staff" "ann"))
find_member_diff-gained_example =
    find_member_diff-gained flat sample "ann" before after flat-IsAcyclic sample-IsAcyclic
      (memberships_by_user-IsEnumeration flat "ann" flat-IsAcyclic).1
      (memberships_by_user-IsEnumeration sample "ann" sample-IsAcyclic).1 "staff"
