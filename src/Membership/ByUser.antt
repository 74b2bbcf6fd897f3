-- ===== src/Membership/ByUser.antt =====
-- allMembershipsQuery and membershipsByUserQuery enumerate the memberships.
use mathlib.Core.Option
use governor_api.Prelude.{String, ◌≡◌, ap, ◌↔◌, true, Option, some, List, arith, ◌==◌, eq_iff, ◌&&◌}
use governor_api.Db.{GroupMembership, Db, live}
use governor_api.Hierarchy.Cycle.{IsAcyclic}
use governor_api.Membership.{EnumeratedMembership, aggregate, all_memberships, memberships_by_user}
use governor_api.Membership.Enumeration.{IsEnumeration, aggregate-IsEnumeration, Scope}
use governor_api.Membership.Climb.{out-IsRaw, start-recurse}

abbrev pub everyone : Scope
everyone g u = Unit {0}

abbrev pub only_user : String → Scope
only_user user_id g u = u ≡ user_id

keep_all_iff :
    (db : Db) (m : GroupMembership)
    → (live db m.group_id ≡ true) ↔ ((live db m.group_id ≡ true) × Unit {0})
keep_all_iff db m = (λ h. (h, tt), λ (h, _). h)

keep_user_iff :
    (db : Db) (user_id : String) (m : GroupMembership)
    → ((m.user_id == user_id && live db m.group_id) ≡ true)
      ↔ ((live db m.group_id ≡ true) × (m.user_id ≡ user_id))
keep_user_iff db user_id m = ground (arith, eq_iff m.user_id user_id)

-- While the hierarchies have no cycle, GetAllGroupMemberships ends, and its rows are the
-- enumeration of all memberships: one row for each group and each member of it or of a group below
-- it, with the flags of the direct membership.
pub all_memberships-IsEnumeration :
    (db : Db)
    → IsAcyclic db
    → (rows : List EnumeratedMembership) × (all_memberships db ≡ some rows)
      × IsEnumeration everyone db rows
unfolding all_memberships
all_memberships-IsEnumeration db acyclic =
    let (out, ends) =
      start-recurse (λ b. b.expires_at) db (λ m. live db m.group_id) (λ _. Unit {0})
        (keep_all_iff db) acyclic in
    (
      aggregate out,
      ap (Option.map aggregate) ends,
      aggregate-IsEnumeration everyone db out (
          out-IsRaw (λ b. b.expires_at) db (λ m. live db m.group_id) (λ _. Unit {0})
            (keep_all_iff db) out ends),
    )

-- While the hierarchies have no cycle, GetMembershipsForUser ends, and its rows are the enumeration
-- of the memberships of the user.
pub memberships_by_user-IsEnumeration :
    (db : Db) (user_id : String)
    → IsAcyclic db
    → (rows : List EnumeratedMembership) × (memberships_by_user db user_id ≡ some rows)
      × IsEnumeration (only_user user_id) db rows
unfolding memberships_by_user
memberships_by_user-IsEnumeration db user_id acyclic =
    let keep = λ (m : GroupMembership). m.user_id == user_id && live db m.group_id in
    let (out, ends) =
      start-recurse (λ _. Option.none) db keep (λ u. u ≡ user_id) (keep_user_iff db user_id)
        acyclic in
    (
      aggregate out,
      ap (Option.map aggregate) ends,
      aggregate-IsEnumeration (only_user user_id) db out (
          out-IsRaw (λ _. Option.none) db keep (λ u. u ≡ user_id) (keep_user_iff db user_id) out
            ends),
    )
