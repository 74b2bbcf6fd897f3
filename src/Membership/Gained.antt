-- ===== src/Membership/Gained.antt =====
-- FindMemberDiff of the answers to GetMembershipsForUser before and after a change.
use governor_api.Prelude.{String, ◌≡◌, refl, sym, subst, ◌↔◌, ◌∙◌, some, List, Memᴰ, eq_of_some}
use governor_api.Db.{Db}
use governor_api.Hierarchy.Cycle.{IsAcyclic}
use governor_api.Membership.{EnumeratedMembership, memberships_by_user}
use governor_api.Membership.Enumeration.{IsMember, IsEnumeration}
use governor_api.Membership.ByUser.{only_user, memberships_by_user-IsEnumeration}
use governor_api.Membership.Diff.{find_member_diff, mem-find_member_diff}

pub user-IsEnumeration :
    (db : Db) (u : String)
    → IsAcyclic db
    → (rows : List EnumeratedMembership) → memberships_by_user db u ≡ some rows
    → IsEnumeration (only_user u) db rows
user-IsEnumeration db u acyclic rows is =
    let (listed, ends, enumerates) = memberships_by_user-IsEnumeration db u acyclic in
    subst (IsEnumeration (only_user u) db) (eq_of_some (sym ends ∙ is)) enumerates

-- Between two databases with no cycle, FindMemberDiff of the answers to GetMembershipsForUser lists
-- exactly the groups of which the user is a member, direct or not, in the second and was not in the
-- first: of these addGroupMember publishes events, and with the answers swapped removeGroupMember.
pub find_member_diff-gained :
    (db db' : Db) (u : String) (before after : List EnumeratedMembership)
    → IsAcyclic db
    → IsAcyclic db'
    → memberships_by_user db u ≡ some before
    → memberships_by_user db' u ≡ some after
    → (g : String)
    → ((m : EnumeratedMembership) × Memᴰ m (find_member_diff before after) × (m.group_id ≡ g))
      ↔ (IsMember db' g u × (¬ IsMember db g u))
find_member_diff-gained db db' u before after acyclic acyclic' is_before is_after g = (into, back)
  where
    old : IsEnumeration (only_user u) db before
    old = user-IsEnumeration db u acyclic before is_before

    new : IsEnumeration (only_user u) db' after
    new = user-IsEnumeration db' u acyclic' after is_after

    into :
        (m : EnumeratedMembership) × Memᴰ m (find_member_diff before after) × (m.group_id ≡ g)
        → IsMember db' g u × (¬ IsMember db g u)
    into (m, listed, is_g) =
        let (n, no_key) = (mem-find_member_diff before after m).0 listed in
        let (member, is_u) = new.sound m.group_id m.user_id (m, n, refl, refl, refl) in
        (
          subst (λ x. IsMember db' x u) is_g (subst (IsMember db' m.group_id) is_u member),
          λ was.
              let (b, k, p, q, _) = old.complete g u was refl in
              no_key (b, k, p ∙ sym is_g, q ∙ sym is_u),
        )

    back :
        IsMember db' g u × (¬ IsMember db g u)
        → (m : EnumeratedMembership) × Memᴰ m (find_member_diff before after) × (m.group_id ≡ g)
    back (is, was_not) =
        let (m, n, is_g, is_u, _) = new.complete g u is refl in
        (
          m,
          (mem-find_member_diff before after m).1 (
            n,
            λ (b, k, p, q).
                let (member, of_u) = old.sound b.group_id b.user_id (b, k, refl, refl, refl) in
                was_not (
                  subst (λ x. IsMember db x u) (p ∙ is_g)
                    (subst (IsMember db b.group_id) of_u member)),
          ),
          is_g,
        )
