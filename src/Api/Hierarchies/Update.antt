-- ===== src/Api/Hierarchies/Update.antt =====
-- updateMemberGroup: every run of it.
use governor_api.Prelude.{
  ℕ, String, ◌≡◌, refl, sym, subst, ◌⊎◌, inl, inr, true, Option, none, some, [], ◌∷◌, ◌++◌, map,
  Memᴰ, Memᴰ-map, Memᴰ-filter, ◌&&◌, ◌==◌, if◌then◌else◌, Bool-cases,
}
use governor_api.Db.{Db, GroupHierarchy, live, find-some}
use governor_api.Hierarchy.Cycle.{LiveEdge, IsAcyclic, HasCycle-mono}
use governor_api.Api.{
  Env, update, State, Outcome, ok, returned, find_row, update_row, audit, audit_context, commit_tx,
  publish_last, begin_tx,
}
use governor_api.Db.Keys.{save-HasKeys}
use governor_api.Api.Sound.{IsSound, hierarchy_pair}
use governor_api.Api.Chain.{◌>>=◌}
use governor_api.Api.Rules.{Post, After, After-end, After-check, After-check_tx, After-one_tx}
use governor_api.Api.Audit.{insert_audit, audit_group_hierarchy_updated}
use governor_api.Api.Hierarchies.{
  hierarchies_event, find_hierarchy, save_hierarchy, update_member_group,
}
use governor_api.Api.Hierarchies.Add.{Unchanged}

abbrev pub updated : Env → Db → GroupHierarchy → Option ℕ → Db
updated env db old expires_at =
    let new = record old { expires_at = expires_at } in
    insert_audit (audit_group_hierarchy_updated env.audit_id env.user new)
      (save_hierarchy env new db)

-- Every link of the new rows is one of the old rows.
updated-IsAcyclic :
    (env : Env) (db : Db) (parent member : String) (old : GroupHierarchy) (expires_at : Option ℕ)
    → find_hierarchy env db parent member ≡ some old
    → IsAcyclic db
    → IsAcyclic (updated env db old expires_at)
updated-IsAcyclic env db parent member old expires_at found acyclic cycle =
    let new = record old { expires_at = expires_at } in
    let test = λ (r : GroupHierarchy). live db r.parent_group_id && live db r.member_group_id in
    let save = λ (r : GroupHierarchy). if r.id == new.id then new else r in
    let in_table =
      (find-some (λ r. r.parent_group_id == parent && r.member_group_id == member) db.hierarchies
        found).0 in
    acyclic (
      HasCycle-mono (LiveEdge (updated env db old expires_at)) (LiveEdge db)
        (λ u v (row, n, p, q).
          let (saved, alive) = (Memᴰ-filter test row (map save db.hierarchies)).0 n in
          let (r, m, e) = Memᴰ-map save row db.hierarchies saved in
          elim (Bool-cases (r.id == new.id)) [
            | inl same ↦
                let is_new : row ≡ new = rw same at e in
                (
                  old,
                  (Memᴰ-filter test old db.hierarchies).1
                      (in_table, subst (λ x. test x ≡ true) is_new alive),
                  subst (λ (x : GroupHierarchy). x.parent_group_id ≡ u) is_new p,
                  subst (λ (x : GroupHierarchy). x.member_group_id ≡ v) is_new q,
                )
            | inr other ↦
                let is_r : row ≡ r = rw other at e in
                (
                  row,
                  (Memᴰ-filter test row db.hierarchies).1
                      (subst (λ x. Memᴰ x db.hierarchies) (sym is_r) m, alive),
                  p,
                  q,
                )
          ])
        cycle)

-- A committed run: the row of the pair has the new expiry.
pub record Updated (env : Env) (parent member : String) (body : Option (Option ℕ)) (s : State)
    (o : Outcome (Unit {0})) (t : State) : Type 0 where
  pub old : GroupHierarchy
  pub expires_at : Option ℕ
  pub bound : body ≡ some expires_at
  pub found : find_hierarchy env s.db parent member ≡ some old
  pub stored : t.db ≡ updated env s.db old expires_at
  pub acyclic : IsAcyclic s.db → IsAcyclic t.db
  pub closed : t.tx ≡ none
  pub announced :
      ((o ≡ ok tt)
        × (t.response ≡ some 204)
        × (t.published ≡ s.published ++ hierarchies_event env update old.parent_group_id ∷ []))
      ⊎ ((o ≡ returned) × (t.response ≡ some 400) × (t.published ≡ s.published))

pub data UpdateRun (env : Env) (parent member : String) (body : Option (Option ℕ)) (s : State)
    (o : Outcome (Unit {0})) (t : State) : Type 0 where
  refused :
      (code : ℕ)
      → Unchanged s t
      → t.tx ≡ none
      → o ≡ returned
      → t.response ≡ some code
      → UpdateRun env parent member body s o t
  committed : Updated env parent member body s o t → UpdateRun env parent member body s o t

update-UpdateRun :
    (env : Env) (parent member : String) (body : Option (Option ℕ)) (s : State)
    → s.tx ≡ none
    → After
        (UpdateRun env parent member body s)
        (λ _ t. UpdateRun env parent member body s (ok tt) t)
        (update_member_group env parent member body s)
unfolding update_member_group
update-UpdateRun env parent member none s idle = refused 400 (refl, refl) idle refl refl
update-UpdateRun env parent member (some expires_at) s idle =
    let P : Post = UpdateRun env parent member (some expires_at) s in
    let K = λ (_ : Unit {0}) (t : State). P (ok tt) t in
    let started = record s { tx = some s.db } in
    let stop : (code : ℕ) → P returned (record started { tx = none; response = some code }) =
      λ code. refused code (refl, refl) refl refl refl in
    do
      _ ← After-check P K env s begin_tx 400 _ (λ _. refused 400 (refl, refl) idle refl refl)
      (old, found) ←
          After-one_tx P K env started find_row 400 400 (find_hierarchy env s.db parent member) _
            (λ code _. stop code)
      let done = updated env s.db old expires_at
      let waiting = record s { tx = some done }
      _ ← After-check_tx P K env started update_row 400 _ (λ _. stop 400)
      _ ← After-check_tx P K env _ audit 400 _ (λ _. stop 400)
      _ ← After-check_tx P K env waiting audit_context 400 _ (λ _. stop 400)
      _ ← After-check_tx P K env waiting commit_tx 400 _ (λ _. stop 400)
      let run : (o : Outcome (Unit {0})) (t : State) → t.db ≡ done → t.tx ≡ none → _ → P o t =
          λ o t stored closed announced. committed (record {
            old = old;
            expires_at = expires_at;
            bound = refl;
            found = found;
            stored = stored;
            acyclic = λ before.
                subst IsAcyclic (sym stored)
                  (updated-IsAcyclic env s.db parent member old expires_at found before);
            closed = closed;
            announced = announced;
          })
      After-check P K env (record s { db = done; tx = none }) publish_last 400 _
          (λ _. run returned _ refl refl (inr (refl, refl, refl)))
          (λ _. run (ok tt) _ refl refl (inl (refl, refl, refl)))

-- Every run of updateMemberGroup, whichever calls fail, is a refusal that changes nothing,
-- or commits exactly the new expiry of the row of the pair and its audit event, makes no cycle where
-- there was none, and publishes the event of the hierarchy unless the event bus fails.
pub update_member_group-UpdateRun :
    (env : Env) (parent member : String) (body : Option (Option ℕ)) (s : State)
    → s.tx ≡ none
    → UpdateRun env parent member body s
        (update_member_group env parent member body s).0
        (update_member_group env parent member body s).1
update_member_group-UpdateRun env parent member body s idle =
    After-end (UpdateRun env parent member body s) (update_member_group env parent member body s)
      (update-UpdateRun env parent member body s idle)

pub update_member_group-IsSound :
    (env : Env) (parent member : String) (body : Option (Option ℕ)) (s : State)
    → s.tx ≡ none
    → IsSound s.db
    → IsSound (update_member_group env parent member body s).1.db
update_member_group-IsSound env parent member body s idle sound =
    elim (update_member_group-UpdateRun env parent member body s idle) [
      | refused _ (same, _) _ _ _ ↦ subst IsSound (sym same) sound
      | committed r ↦
          let (listed, _) =
            find-some (λ h. h.parent_group_id == parent && h.member_group_id == member)
              s.db.hierarchies r.found in
          subst IsSound (sym r.stored) (record {
            acyclic =
                updated-IsAcyclic env s.db parent member r.old r.expires_at r.found sound.acyclic;
            member_keys = sound.member_keys;
            hierarchy_keys =
                save-HasKeys (λ h. h.id) hierarchy_pair s.db.hierarchies r.old
                  (record r.old { expires_at = r.expires_at }) sound.hierarchy_keys listed refl
                  refl;
          })
    ]
