-- ===== src/Api/Auth/Groups.antt =====
-- mwGroupAuthRequired: whom it lets pass, for a request with a UUID.
use mathlib.Core.List.Memᴰ
use governor_api.Prelude.{
  ℕ, String, Bool, Bool-cases, ◌≡◌, refl, sym, ap, subst, ◌↔◌, ◌⊎◌, inl, inr, true, false, Option,
  none, some, eq_of_some, List, map, any_iff, Memᴰ, Memᴰ-map, ltb, if◌then◌else◌,
}
use governor_api.Db.{Db, Group}
use governor_api.Hierarchy.{contains}
use governor_api.Hierarchy.Search.{contains_iff}
use governor_api.Membership.{EnumeratedMembership, memberships_by_user}
use governor_api.Membership.Enumeration.{IsMember, IsDirectAdmin, IsEnumeration}
use governor_api.Membership.ByUser.{only_user}
use governor_api.Api.{Env}
use governor_api.Api.Auth.{
  AuthRole, auth_role_user, auth_role_admin, auth_role_group_member, auth_role_group_admin,
  auth_role_admin_or_group_admin, auth_role_admin_or_group_admin_or_group_approver, populate_models,
  admin_group_rows, has_rights, governs,
}

-- A member of a live group whose slug is configured as one of governor admins.
abbrev pub IsGovernor : Db → List String → String → Type 0
IsGovernor db slugs u = (g : Group) × Memᴰ g (admin_group_rows db slugs) × IsMember db g.id u

-- A member of the approver group of the group.
abbrev pub IsApprover : Db → Group → String → Type 0
IsApprover db group u = (a : String) × (group.approver_group ≡ some a) × IsMember db a u

-- A direct member with admin rights, in a row of the answer that does not say that they have expired.
pub record IsAdminNow (now : ℕ) (db : Db) (group_id u : String) : Type 0 where
  pub direct : IsDirectAdmin db group_id u
  pub rows : List EnumeratedMembership
  pub answer : memberships_by_user db u ≡ some rows
  pub row : EnumeratedMembership
  pub listed : Memᴰ row rows
  pub of_group : row.group_id ≡ group_id
  pub rights : row.is_admin ≡ true
  pub unexpired : (t : ℕ) → row.admin_expires_at ≡ some t → ltb now t ≡ true

-- What a role asks of a user, at a time.
abbrev pub Allowed : ℕ → AuthRole → Db → List String → Group → String → Type 0
Allowed now auth_role_group_member db slugs group u = IsMember db group.id u
Allowed now auth_role_group_admin db slugs group u = IsAdminNow now db group.id u
Allowed now auth_role_admin_or_group_admin db slugs group u =
    IsAdminNow now db group.id u ⊎ IsGovernor db slugs u
Allowed now auth_role_admin_or_group_admin_or_group_approver db slugs group u =
    IsAdminNow now db group.id u ⊎ (IsGovernor db slugs u ⊎ IsApprover db group u)
Allowed now auth_role_user db slugs group u = ⊥
Allowed now auth_role_admin db slugs group u = ⊥

-- The loop over the admin groups, for rows that are the memberships of the user.
pub governs-IsGovernor :
    (env : Env) (db : Db) (u : String) (rows : List EnumeratedMembership)
    → ((m : EnumeratedMembership) → Memᴰ m rows → IsMember db m.group_id u)
    → ((g : String) → IsMember db g u → (m : EnumeratedMembership) × Memᴰ m rows × (m.group_id ≡ g))
    → (slugs : List String) → (governs env db slugs rows ≡ true) ↔ IsGovernor db slugs u
governs-IsGovernor env db u rows sound finds slugs =
    let ids = map (λ (m : EnumeratedMembership). m.group_id) rows in
    let (into, back) = any_iff (λ (g : Group). contains ids g.id) (admin_group_rows db slugs) in
    (
      λ e.
          let (g, listed, has) = into e in
          let (m, n, is) = Memᴰ-map _ g.id rows ((contains_iff ids g.id).0 has) in
          (g, listed, subst (λ x. IsMember db x u) (sym is) (sound m n)),
      λ (g, listed, member).
          let (m, n, is) = finds g.id member in
          back (
            g,
            listed,
            (contains_iff ids g.id).1 (
                subst (λ x. Memᴰ x ids) is (Memᴰ.map (λ (m : EnumeratedMembership). m.group_id) n)),
          ),
    )

-- The answer of populate_models has the pairs and the rights of the enumeration.
module _ (env : Env) (db : Db) (u : String) (rows : List EnumeratedMembership)
    (enumerates : IsEnumeration (only_user u) db rows) where
  pub populated-IsMember :
      (m : EnumeratedMembership) → Memᴰ m (populate_models db rows) → IsMember db m.group_id u
  populated-IsMember m listed =
      let (r, n, e) = Memᴰ-map _ m rows listed in
      let (member, is_u) = enumerates.sound r.group_id r.user_id (r, n, refl, refl, refl) in
      subst (λ x. IsMember db x u) (sym (ap (λ (x : EnumeratedMembership). x.group_id) e))
        (subst (λ x. IsMember db r.group_id x) is_u member)

  pub populated-finds :
      (g : String)
      → IsMember db g u
      → (m : EnumeratedMembership) × Memᴰ m (populate_models db rows) × (m.group_id ≡ g)
  populated-finds g member =
      let (r, n, is_g, _, _) = enumerates.complete g u member refl in (_, Memᴰ.map _ n, is_g)

  pub populated-admin :
      (m : EnumeratedMembership)
      → memberships_by_user db u ≡ some rows
      → Memᴰ m (populate_models db rows)
      → has_rights env m ≡ true
      → IsAdminNow env.now db m.group_id u
  populated-admin m answer listed rights =
      let (r, n, e) = Memᴰ-map _ m rows listed in
      let (_, is_u) = enumerates.sound r.group_id r.user_id (r, n, refl, refl, refl) in
      let same : r.group_id ≡ m.group_id = sym (ap (λ (x : EnumeratedMembership). x.group_id) e) in
      let (set, unexpired) = holds r (subst (λ x. has_rights env x ≡ true) e rights) in
      record {
        direct =
            subst (λ x. IsDirectAdmin db x u) same
              (subst (λ x. IsDirectAdmin db r.group_id x) is_u ((enumerates.admin r n).0 set));
        rows = rows;
        answer = answer;
        row = r;
        listed = n;
        of_group = same;
        rights = set;
        unexpired = unexpired;
      }
    where
      by_expiry :
          (expires : Option ℕ) (is_admin : Bool)
          → (elim expires [ none ↦ is_admin | some t ↦ if ltb env.now t then is_admin else false ])
            ≡ true
          → (is_admin ≡ true) × ((t : ℕ) → expires ≡ some t → ltb env.now t ≡ true)
      by_expiry none is_admin rights = (rights, λ t e. cc)
      by_expiry (some t) is_admin rights = elim (Bool-cases (ltb env.now t)) [
        | inl later ↦
            (rw later at rights, λ u e. subst (λ x. ltb env.now x ≡ true) (eq_of_some e) later)
        | inr past ↦ let nothing : false ≡ true = rw past at rights in cc nothing
      ]

      holds :
          (r : EnumeratedMembership)
          → has_rights env r ≡ true
          → (r.is_admin ≡ true) × ((t : ℕ) → r.admin_expires_at ≡ some t → ltb env.now t ≡ true)
      holds r rights = by_expiry r.admin_expires_at r.is_admin rights

  pub governs_iff :
      (slugs : List String)
      → (governs env db slugs (populate_models db rows) ≡ true) ↔ IsGovernor db slugs u
  governs_iff slugs =
      governs-IsGovernor env db u (populate_models db rows) populated-IsMember populated-finds slugs
