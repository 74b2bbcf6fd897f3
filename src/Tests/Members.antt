-- ===== src/Tests/Members.antt =====
-- Runs of the handlers of members.
use governor_api.Prelude.{refl, ◌≡◌, true, false, none, some, Memᴰ, subst, sym}
use governor_api.Db.{find}
use governor_api.Api.{State}
use governor_api.Api.Members.{
  AddGroupMemberReq, UpdateGroupMemberReq, add_group_member, update_group_member,
  remove_group_member,
}
use governor_api.Api.Members.Add.{JoinRun, add_group_member-JoinRun}
use governor_api.Api.Members.Update.{PromoteRun, update_group_member-PromoteRun, no_self_promotion}
use governor_api.Api.Members.Remove.{LeaveRun, remove_group_member-LeaveRun}
use governor_api.Tests.Sample.{sample, calm, ann, ann_in_dev, state_of, sample-IsAcyclic}

abbrev join : AddGroupMemberReq
join = record { is_admin = false; expires_at = some 30; admin_expires_at = none }

add_group_member-JoinRun_example :
    JoinRun calm "staff" "ann"
      (some join)
      (state_of sample)
      (add_group_member calm "staff" "ann" (some join) (state_of sample)).0
      (add_group_member calm "staff" "ann" (some join) (state_of sample)).1
add_group_member-JoinRun_example =
    add_group_member-JoinRun calm "staff" "ann" (some join) (state_of sample) refl sample-IsAcyclic

remove_group_member-LeaveRun_example :
    LeaveRun calm "dev" "ann"
      (state_of sample)
      (remove_group_member calm "dev" "ann" (state_of sample)).0
      (remove_group_member calm "dev" "ann" (state_of sample)).1
remove_group_member-LeaveRun_example =
    remove_group_member-LeaveRun calm "dev" "ann" (state_of sample) refl sample-IsAcyclic

abbrev keep_rights : UpdateGroupMemberReq
keep_rights = record { is_admin = true; admin_expires_at = some 99 }

update_group_member-PromoteRun_example :
    PromoteRun calm "dev" "ann"
      (some keep_rights)
      (state_of sample)
      (update_group_member calm "dev" "ann" (some keep_rights) (state_of sample)).0
      (update_group_member calm "dev" "ann" (some keep_rights) (state_of sample)).1
update_group_member-PromoteRun_example =
    update_group_member-PromoteRun calm "dev" "ann" (some keep_rights) (state_of sample) refl

-- Ann may not extend her own rights.
own_rights :
    (update_group_member calm "dev" "ann" (some keep_rights) (state_of sample)).1
    ≡ record (state_of sample) { response = some 400 }
unfolding update_group_member find
own_rights = refl

no_self_promotion_example : Memᴰ ann_in_dev (state_of sample).db.memberships
no_self_promotion_example =
    no_self_promotion calm "dev" "ann" (some keep_rights) (state_of sample) ann ann_in_dev refl refl
      (subst (λ (t : State). Memᴰ ann_in_dev t.db.memberships) (sym own_rights) (Memᴰ.head refl))
      refl refl
