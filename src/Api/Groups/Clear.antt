-- ===== src/Api/Groups/Clear.antt =====
-- What a deleted group leaves behind.
use governor_api.Prelude.{
  zero, suc, String, ◌≡◌, ◌≢◌, refl, sym, ap, ◌∙◌, ◌↔◌, ◌⊎◌, inl, inr, and_iff, true, false, ◌&&◌,
  none, some, Memᴰ, Memᴰ-map, Memᴰ-filter, Bool-cases, ◌==◌, eq_iff, eq-cases, if◌then◌else◌,
}
use governor_api.Db.{
  Db, Group, GroupMembership, GroupMembershipRequest, GroupOrganization, GroupApplication,
  GroupHierarchy, live, is_null,
}
use governor_api.Membership.Enumeration.{IsMember}
use governor_api.Api.{Env, State}
use governor_api.Api.Sound.{IsSound}
use governor_api.Api.Writes.{is_loaded}
use governor_api.Api.Writes.Loaded.{is_loaded-mem, delete_all-mem, delete_all_iff}
use governor_api.Api.Writes.Runs.{WriteRun-keeps}
use governor_api.Api.Members.{group_of_request}
use governor_api.Api.Groups.{applications_of, soft_delete_group, drop_applications, delete_group}
use governor_api.Api.Groups.Live.{live_iff}
use governor_api.Api.Groups.Runs.{deletion, emptied, delete_group-WriteRun}

pub record Cleared (env : Env) (gid : String) (db result : Db) : Type 0 where
  pub group : Group
  pub found : group_of_request env db gid ≡ some group
  pub gone : live result group.id ≡ false
  pub no_members : (user_id : String) → ¬ IsMember result group.id user_id
  pub memberships :
      (m : GroupMembership)
      → Memᴰ m result.memberships ↔ (Memᴰ m db.memberships × (m.group_id ≢ group.id))
  pub requests : (r : GroupMembershipRequest) → Memᴰ r result.requests → r.group_id ≢ group.id
  pub organizations :
      (l : GroupOrganization) → Memᴰ l result.group_organizations → l.group_id ≢ group.id
  pub applications :
      (l : GroupApplication)
      → Memᴰ l result.group_applications
      → l.group_id ≡ group.id
      → is_null l.deleted_at ≡ false
  pub hierarchies : result.hierarchies ≡ db.hierarchies

soft_deleted :
    (env : Env) (group : Group) (db : Db) → live (soft_delete_group env group db) group.id ≡ false
soft_deleted env group db = elim (Bool-cases (live (soft_delete_group env group db) group.id)) [
  | inl alive ↦
      let change =
        λ (g : Group). if g.id == group.id then record g { deleted_at = some env.now } else g in
      let (g', listed, same, null) = (live_iff (soft_delete_group env group db) group.id).0 alive in
      let (g, _, is) = Memᴰ-map change g' db.groups listed in absurd (none_left g g' is same null)
  | inr dead ↦ dead
]
  where
    none_left :
        (g g' : Group)
        → g' ≡ (if g.id == group.id then record g { deleted_at = some env.now } else g)
        → g'.id ≡ group.id
        → is_null g'.deleted_at ≡ true
        → ⊥
    none_left g g' is same null = elim (eq-cases g.id group.id) [
      | inl (hit, _) ↦
          let e : g' ≡ record g { deleted_at = some env.now } = rw hit at is in
          cc (ap (λ (x : Group). is_null x.deleted_at) e, null)
      | inr (miss, other) ↦
          let e : g' ≡ g = rw miss at is in absurd (other (sym (ap (λ (x : Group). x.id) e) ∙ same))
    ]

-- A group that is deleted has no members, direct or not.
not-IsMember-dead : (db : Db) (g u : String) → live db g ≡ false → ¬ IsMember db g u
not-IsMember-dead db g u dead (below, (zero, same), (m, (_, alive, is, _))) =
    let e : m.group_id ≡ g = is ∙ sym same in cc (ap (live db) e, alive, dead)
not-IsMember-dead db g u dead (below, (suc n, (v, (row, m, from, _), _)), _) =
    let (_, both) =
      (Memᴰ-filter (λ (h : GroupHierarchy). live db h.parent_group_id && live db h.member_group_id)
          row db.hierarchies).0
        m in
    let (alive, _) = (and_iff (live db row.parent_group_id) (live db row.member_group_id)).0 both in
    cc (ap (live db) from, alive, dead)

-- A link to an application is deleted, or was before.
unlinked :
    (env : Env) (db : Db) (group : Group) (l : GroupApplication)
    → Memᴰ l (drop_applications env (applications_of env db group) db).group_applications
    → l.group_id ≡ group.id
    → is_null l.deleted_at ≡ false
unlinked env db group l m of_group =
    let loaded = applications_of env db group in
    let drop = λ (l : GroupApplication).
      if is_loaded (λ l. l.id) loaded l then record l { deleted_at = some env.now } else l in
    let (old, listed, is) = Memᴰ-map drop l db.group_applications m in
    elim (Bool-cases (is_loaded (λ l. l.id) loaded old)) [
      | inl hit ↦
          let e : l ≡ record old { deleted_at = some env.now } = rw hit at is in
          ap (λ (x : GroupApplication). is_null x.deleted_at) e
      | inr miss ↦
          let e : l ≡ old = rw miss at is in
          elim (Bool-cases (is_null old.deleted_at)) [
            | inl null ↦
                let same : (old.group_id == group.id) ≡ true =
                  (eq_iff old.group_id group.id).1
                    (sym (ap (λ (x : GroupApplication). x.group_id) e) ∙ of_group) in
                let test =
                  λ (l : GroupApplication). l.group_id == group.id && is_null l.deleted_at in
                let holds =
                  (and_iff (old.group_id == group.id) (is_null old.deleted_at)).1 (same, null) in
                absurd
                  (cc (is_loaded-mem (λ l. l.id) test db.group_applications old listed holds, miss))
            | inr dead ↦ ap (λ (x : GroupApplication). is_null x.deleted_at) e ∙ dead
          ]
    ]

differs : (a b : String) → (a == b) ≡ false → a ≢ b
differs a b e same = cc ((eq_iff a b).1 same, e)

-- In a sound database, a run of deleteGroup, whichever calls fail, leaves the rows as they were, or
-- the group is deleted and has no members by either query, exactly its own memberships are gone, no
-- request to join it and no link to an organization is left, and every link to an application is
-- deleted; the rows of hierarchies stay.
pub delete_group-Cleared :
    (env : Env) (gid : String) (s : State)
    → s.tx ≡ none
    → IsSound s.db
    → ((delete_group env gid s).1.db ≡ s.db) ⊎ Cleared env gid s.db (delete_group env gid s).1.db
delete_group-Cleared env gid s idle sound =
    let db = s.db in
    WriteRun-keeps (λ result. (result ≡ db) ⊎ Cleared env gid db result) (deletion env gid db) s _ _
      (inl refl)
      (λ a.
        let group = a.group in
        let dead = soft_deleted env group (emptied env group db) in
        inr (record {
          group = group;
          found = a.found;
          gone = dead;
          no_members = λ u. not-IsMember-dead ((deletion env gid db).result a) group.id u dead;
          memberships = λ m.
              let (into, back) =
                delete_all_iff (λ m. m.id) (λ m. m.group_id == group.id) db.memberships
                  sound.member_keys.0 m in
              (
                λ kept. let (was, other) = into kept in (was, differs m.group_id group.id other),
                λ (was, other). back (was, apart m.group_id group.id other),
              );
          requests = λ r m.
              differs r.group_id group.id
                (delete_all-mem (λ r. r.id) (λ r. r.group_id == group.id) db.requests r m).1;
          organizations = λ l m.
              differs l.group_id group.id
                (delete_all-mem (λ l. l.id) (λ l. l.group_id == group.id) db.group_organizations l
                  m).1;
          applications = unlinked env db group;
          hierarchies = refl;
        }))
      (delete_group-WriteRun env gid s idle)
  where
    apart : (a b : String) → a ≢ b → (a == b) ≡ false
    apart a b ne = elim (eq-cases a b) [ inl (_, e) ↦ absurd (ne e) | inr (miss, _) ↦ miss ]
