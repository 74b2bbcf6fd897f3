-- ===== src/Api/Groups/Live.antt =====
-- Which groups are there after a statement on the table of groups, and that the hierarchies between
-- them have no cycle if no group comes to be at an end of one.
use governor_api.Prelude.{
  String, ◌≡◌, ◌≢◌, sym, ap, ◌∙◌, subst, ◌↔◌, inl, inr, and_iff, true, ◌&&◌, some, [], ◌∷◌, Memᴰ,
  Memᴰ-filter, Memᴰ-map, Memᴰ-append, any_iff, Bool-cases, ◌==◌, eq_iff, arith, if◌then◌else◌,
}
use mathlib.Core.List.Memᴰ
use governor_api.Db.{Db, Group, GroupHierarchy, live, is_null, find-some}
use governor_api.Hierarchy.Cycle.{IsAcyclic, LiveEdge, HasCycle-mono}
use governor_api.Api.{Env}
use governor_api.Api.Members.{group_of_request}
use governor_api.Api.Groups.{insert_group, save_group, soft_delete_group}

pub live_iff :
    (db : Db) (id : String)
    → (live db id ≡ true)
      ↔ ((g : Group) × Memᴰ g db.groups × (g.id ≡ id) × (is_null g.deleted_at ≡ true))
live_iff db id =
    let test = λ (g : Group). g.id == id && is_null g.deleted_at in
    let (into, back) = any_iff test db.groups in
    (
      λ e.
          let (g, listed, holds) = into e in
          let (same, alive) = (and_iff (g.id == id) (is_null g.deleted_at)).0 holds in
          (g, listed, (eq_iff g.id id).0 same, alive),
      λ (g, listed, same, alive). back (
        g,
        listed,
        (and_iff (g.id == id) (is_null g.deleted_at)).1 ((eq_iff g.id id).1 same, alive),
      ),
    )

pub group_of_request-live :
    (env : Env) (db : Db) (gid : String) (g : Group)
    → group_of_request env db gid ≡ some g
    → Memᴰ g db.groups × (is_null g.deleted_at ≡ true)
group_of_request-live env db gid g found = elim (Bool-cases (env.is_uuid gid)) [
  | inl uuid ↦
      let (listed, test) =
        find-some (λ g. g.id == gid && is_null g.deleted_at) db.groups (rw uuid at found) in
      (listed, ground (arith, test))
  | inr slug ↦
      let (listed, test) =
        find-some (λ g. g.slug == gid && is_null g.deleted_at) db.groups (rw slug at found) in
      (listed, ground (arith, test))
]

pub LiveEdge-shrinks :
    (db db' : Db)
    → db'.hierarchies ≡ db.hierarchies
    → ((h : GroupHierarchy)
        → Memᴰ h db.hierarchies
        → (live db' h.parent_group_id ≡ true → live db h.parent_group_id ≡ true)
          × (live db' h.member_group_id ≡ true → live db h.member_group_id ≡ true))
    → IsAcyclic db
    → IsAcyclic db'
LiveEdge-shrinks db db' same lives acyclic cycle =
    acyclic (HasCycle-mono (LiveEdge db') (LiveEdge db) edge cycle)
  where
    edge : (u v : String) → LiveEdge db' u v → LiveEdge db u v
    edge u v (row, m, p, q) =
        let test =
          λ (d : Db) (h : GroupHierarchy). live d h.parent_group_id && live d h.member_group_id in
        let (listed, alive) = (Memᴰ-filter (test db') row db'.hierarchies).0 m in
        let was_listed = subst (λ rows. Memᴰ row rows) same listed in
        let (parent, member) = lives row was_listed in
        let both =
          (and_iff (live db' row.parent_group_id) (live db' row.member_group_id)).0 alive in
        (
          row,
          (Memᴰ-filter (test db) row db.hierarchies).1 (
            was_listed,
            (and_iff (live db row.parent_group_id) (live db row.member_group_id)).1
                (parent both.0, member both.1),
          ),
          p,
          q,
        )

pub live-soft_delete_group :
    (env : Env) (db : Db) (group : Group) (id : String)
    → live (soft_delete_group env group db) id ≡ true
    → live db id ≡ true
live-soft_delete_group env db group id alive =
    let change =
      λ (g : Group). if g.id == group.id then record g { deleted_at = some env.now } else g in
    let (g', listed', same, null) = (live_iff (soft_delete_group env group db) id).0 alive in
    let (g, listed, is) = Memᴰ-map change g' db.groups listed' in
    elim (Bool-cases (g.id == group.id)) [
      | inl hit ↦ absurd (deleted g g' (rw hit at is) null)
      | inr miss ↦
          let e : g' ≡ g = rw miss at is in
          (live_iff db id).1 (
            g,
            listed,
            sym (ap (λ (x : Group). x.id) e) ∙ same,
            ap (λ (x : Group). is_null x.deleted_at) (sym e) ∙ null,
          )
    ]
  where
    deleted :
        (g g' : Group)
        → g' ≡ record g { deleted_at = some env.now }
        → is_null g'.deleted_at ≡ true
        → ⊥
    deleted g g' e null = cc (ap (λ (x : Group). is_null x.deleted_at) e, null)

pub live-save_group :
    (env : Env) (db : Db) (new : Group) (id : String)
    → live db new.id ≡ true
    → live (save_group env new db) id ≡ true
    → live db id ≡ true
live-save_group env db new id was alive =
    let change = λ (g : Group). if g.id == new.id then new else g in
    let (g', listed', same, null) = (live_iff (save_group env new db) id).0 alive in
    let (g, listed, is) = Memᴰ-map change g' db.groups listed' in
    elim (Bool-cases (g.id == new.id)) [
      | inl hit ↦
          let e : g' ≡ new = rw hit at is in
          subst (λ x. live db x ≡ true) (sym (ap (λ (x : Group). x.id) e) ∙ same) was
      | inr miss ↦
          let e : g' ≡ g = rw miss at is in
          (live_iff db id).1 (
            g,
            listed,
            sym (ap (λ (x : Group). x.id) e) ∙ same,
            ap (λ (x : Group). is_null x.deleted_at) (sym e) ∙ null,
          )
    ]

pub live-insert_group :
    (env : Env) (db : Db) (new : Group) (id : String)
    → new.id ≢ id
    → live (insert_group env new db) id ≡ true
    → live db id ≡ true
live-insert_group env db new id other alive =
    let (g, listed, same, null) = (live_iff (insert_group env new db) id).0 alive in
    elim ((Memᴰ-append g db.groups (new ∷ [])).0 listed) [
      | inl old ↦ (live_iff db id).1 (g, old, same, null)
      | inr is ↦ absurd (other (sym (ap (λ (x : Group). x.id) (Memᴰ.eq_of_singleton is)) ∙ same))
    ]
