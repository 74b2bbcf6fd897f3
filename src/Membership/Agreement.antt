-- ===== src/Membership/Agreement.antt =====
-- The views of a user and of a group agree.
use governor_api.Prelude.{String, ◌≡◌, refl, ◌↔◌, Bool, true, false, some, List, Memᴰ, subst, sym}
use governor_api.Db.{Db}
use governor_api.Hierarchy.Cycle.{IsAcyclic}
use governor_api.Membership.{EnumeratedMembership, memberships_by_user, memberships_by_group}
use governor_api.Membership.Enumeration.{HasRow, IsDirect, IsDirectAdmin}
use governor_api.Membership.ByUser.{memberships_by_user-IsEnumeration}
use governor_api.Membership.ByGroup.{memberships_by_group-IsEnumeration}

flag_of_iff {ℓ} : {P : Type ℓ} (a b : Bool) → (a ≡ true) ↔ P → (b ≡ true) ↔ P → a ≡ b
flag_of_iff true true p q = refl
flag_of_iff true false p q = cc (q.1 (p.0 refl))
flag_of_iff false true p q = cc (p.1 (q.0 refl))
flag_of_iff false false p q = refl

pub record Agrees (by_user by_group : List EnumeratedMembership) (g u : String) : Type 0 where
  pub listed : HasRow g u by_user ↔ HasRow g u by_group
  pub flags :
      (r s : EnumeratedMembership)
      → Memᴰ r by_user
      → Memᴰ s by_group
      → r.group_id ≡ s.group_id
      → r.user_id ≡ s.user_id
      → (r.direct ≡ s.direct) × (r.is_admin ≡ s.is_admin)

-- While the hierarchies have no cycle, GetMembershipsForUser of a user and GetMembersOfGroup of a
-- group both end; the group is listed for the user exactly if the user is listed for the group, and
-- then the two rows have the same flags `direct` and `is_admin`.
pub queries_agree :
    (db : Db) (g u : String)
    → IsAcyclic db
    → (by_user by_group : List EnumeratedMembership) × (memberships_by_user db u ≡ some by_user)
      × (memberships_by_group db g ≡ some by_group)
      × Agrees by_user by_group g u
queries_agree db g u acyclic =
    let (rows, ends, e) = memberships_by_user-IsEnumeration db u acyclic in
    let (rows', ends', e') = memberships_by_group-IsEnumeration db g acyclic in
    (
      rows,
      rows',
      ends,
      ends',
      record {
        listed = (
          λ h. e'.complete g u (e.sound g u h).0 refl,
          λ h. e.complete g u (e'.sound g u h).0 refl,
        );
        flags = λ r s m n p q. (
          flag_of_iff r.direct s.direct (e.direct r m) (
              subst (λ x. (s.direct ≡ true) ↔ IsDirect db x r.user_id) (sym p)
                (subst (λ y. (s.direct ≡ true) ↔ IsDirect db s.group_id y) (sym q)
                  (e'.direct s n))),
          flag_of_iff r.is_admin s.is_admin (e.admin r m) (
              subst (λ x. (s.is_admin ≡ true) ↔ IsDirectAdmin db x r.user_id) (sym p)
                (subst (λ y. (s.is_admin ≡ true) ↔ IsDirectAdmin db s.group_id y) (sym q)
                  (e'.admin s n))),
        );
      },
    )
