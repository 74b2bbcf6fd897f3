-- ===== src/Tests/Requests.antt =====
-- Requests with their middleware.
use mathlib.Core.List.Memᴰ
use governor_api.Prelude.{
  String, ap, refl, ◌≡◌, ◌≢◌, ◌⊎◌, true, false, some, [], ◌∷◌, Memᴰ, length, ◌==◌, eq_iff,
}
use governor_api.Db.{Db, Group, User, find, find_group}
use governor_api.Hierarchy.{contains}
use governor_api.Membership.Enumeration.{IsMember}
use governor_api.Api.Rules.{After}
use governor_api.Api.Sound.{IsSound, IsFresh}
use governor_api.Api.Auth.{
  auth_role_group_member, auth_role_group_admin, Token, user_of_token, group_auth_required,
}
use governor_api.Api.Auth.Groups.{Allowed}
use governor_api.Api.Auth.Pass.{Passes, Refuses, group_auth_required-Allowed}
use governor_api.Api.Auth.Admit.{group_auth_required-Admits}
use governor_api.Api.Hierarchies.{update_member_group}
use governor_api.Api.Server.{Request, patch_hierarchy, serve, idle}
use governor_api.Api.Server.Reach.{initially, after, Reachable-IsSound}
use governor_api.Api.Server.Guard.{serve-Allowed}
use governor_api.Tests.Sample.{
  sample, calm, staff, ann, ann_in_dev, dev_in_staff, state_of, sample-IsAcyclic,
}

abbrev token : Token
token = record { roles = "openid" ∷ []; user = "x1"; subject = "ann@example.com" }

abbrev pub service : Token
service = record { roles = "write" ∷ []; user = ""; subject = "" }

group_auth_required-Allowed_example :
    After
      (Refuses (state_of sample))
      (Passes calm auth_role_group_admin ("admins" ∷ []) token "staff" (state_of sample))
      (group_auth_required calm auth_role_group_admin
        ("admins" ∷ [])
        token
        "staff"
        (state_of sample))
group_auth_required-Allowed_example =
    group_auth_required-Allowed calm auth_role_group_admin ("admins" ∷ []) token "staff"
      (state_of sample) sample-IsAcyclic refl

has_scope : contains token.roles "openid" ≡ true
unfolding contains
has_scope = refl

finds_staff : find_group sample "staff" ≡ some staff
unfolding find
finds_staff = refl

finds_ann : user_of_token calm sample "x1" ≡ some ann
unfolding find
finds_ann = refl

ann_in_staff : IsMember sample "staff" "ann"
ann_in_staff = (
  "dev",
  (1, ("dev", (dev_in_staff, Memᴰ.head refl, refl, refl), refl)),
  (ann_in_dev, (Memᴰ.head refl, refl, refl, refl)),
)

group_auth_required-Admits_example :
    After
      (λ _ _. ⊥)
      (λ ctx t. (ctx.current_user ≡ some ann) × (t ≡ state_of sample))
      (group_auth_required calm auth_role_group_member [] token "staff" (state_of sample))
group_auth_required-Admits_example =
    group_auth_required-Admits calm (λ _. refl) auth_role_group_member [] token "staff"
      (state_of sample) staff ann sample-IsAcyclic refl has_scope refl refl finds_staff finds_ann
      ann_in_staff

pub sample-IsSound : IsSound sample
sample-IsSound = record {
  acyclic = sample-IsAcyclic;
  member_keys = ((λ _ m. absurd (Memᴰ.not-nil m), tt), (λ _ m. absurd (Memᴰ.not-nil m), tt));
  hierarchy_keys = ((λ _ m. absurd (Memᴰ.not-nil m), tt), (λ _ m. absurd (Memᴰ.not-nil m), tt));
}

other_id : (s : String) → (s == "new") ≡ false → s ≢ "new"
other_id s differ e = cc ((eq_iff s "new").1 e, differ)

sample-IsFresh : IsFresh calm sample
sample-IsFresh = record {
  no_member = λ m listed. rw (Memᴰ.eq_of_singleton listed) (other_id "m1" refl);
  no_hierarchy = λ h listed. rw (Memᴰ.eq_of_singleton listed) (other_id "h1" refl);
  no_reference =
      λ h listed. rw (Memᴰ.eq_of_singleton listed) (other_id "staff" refl, other_id "dev" refl);
}

abbrev extend : Request
extend = patch_hierarchy "staff" "dev" (some (some 50))

Reachable-IsSound_example : IsSound (serve calm [] service extend (idle sample)).1.db
Reachable-IsSound_example =
    Reachable-IsSound [] sample (serve calm [] service extend (idle sample)).1.db sample-IsSound
      (after calm service extend initially sample-IsFresh)

extended : length (serve calm [] service extend (idle sample)).1.db.audit_events ≡ 1
unfolding group_auth_required contains update_member_group find
extended = refl

serve-Allowed_example :
    (contains service.roles "openid" ≡ false)
    ⊎ ((group : Group) × ((user : User) × (find_group sample "staff" ≡ some group)
          × (user_of_token calm sample "" ≡ some user)
          × Allowed calm.now auth_role_group_admin sample [] group user.id))
serve-Allowed_example =
    serve-Allowed calm [] service extend sample sample-IsAcyclic refl
      (λ same. cc (extended, ap (λ (db : Db). length db.audit_events) same))
