-- ===== src/Api/Requests/Process.antt =====
-- processGroupRequest: what a run does to the rows.
use governor_api.Prelude.{
  String, ◌≡◌, ◌≢◌, refl, sym, subst, ◌∙◌, eq_of_some, ◌⊎◌, inl, inr, Bool, true, false, Option,
  none, some, ◌==◌, eq_iff,
}
use governor_api.Db.{Db, Group, User, GroupMembership, GroupMembershipRequest}
use governor_api.Api.{insert_row, update_row, audit, Env, State, returned, panicked, Handler, ◌>>=◌}
use governor_api.Api.Rules.{Post, After, After-bind, After-check_tx, After-or_panic, After-if}
use governor_api.Api.Audit.{audit_group_membership_denied}
use governor_api.Api.Members.{group_of_request, find_membership, insert_membership, save_membership}
use governor_api.Api.Requests.{
  find_request, delete_request, audited, asked, promoted_by, already, apply_request, audit_end,
  audit_approval,
}

-- The membership of the user in the group, if there is one.
abbrev pub existing : Env → Db → GroupMembershipRequest → Option GroupMembership
existing env db r = find_membership env db r.group_id r.user_id

-- There is nothing left to approve.
abbrev pub IsSettled : Env → Db → GroupMembershipRequest → Type 0
IsSettled env db r =
    ((r.kind ≡ "new_member") × ((m : GroupMembership) × (existing env db r ≡ some m)))
    ⊎ ((r.kind ≡ "admin_promotion")
        × ((m : GroupMembership) × (existing env db r ≡ some m) × (m.is_admin ≡ true)))

-- What an approval gives: the membership asked for, or the rights of an admin to a member.
pub data Applied (env : Env) (db : Db) (r : GroupMembershipRequest) (applied : Db) : Type 0 where
  joins :
      r.kind ≡ "new_member"
      → existing env db r ≡ none
      → applied ≡ insert_membership env (asked env r) db
      → Applied env db r applied
  promotes :
      (m : GroupMembership)
      → r.kind ≡ "admin_promotion"
      → existing env db r ≡ some m
      → m.is_admin ≡ false
      → applied ≡ save_membership env (promoted_by env r m) db
      → Applied env db r applied

-- Who decides: not the user of the request, which is one of the group.
pub record Decided (env : Env) (gid rid : String) (db : Db) : Type 0 where
  pub actor : User
  pub group : Group
  pub request : GroupMembershipRequest
  pub acts : env.user ≡ some actor
  pub found_group : group_of_request env db gid ≡ some group
  pub found : find_request env db rid ≡ some request
  pub of_group : request.group_id ≡ group.id
  pub not_own : request.user_id ≢ actor.id

pub data ProcessRun (env : Env) (gid rid : String) (body : Option String) (db : Db) (t : State)
    : Type 0 where
  unchanged : t.db ≡ db → ProcessRun env gid rid body db t
  dropped :
      (d : Decided env gid rid db)
      → body ≡ some "approve"
      → IsSettled env db d.request
      → t.db ≡ delete_request env d.request db
      → ProcessRun env gid rid body db t
  approved :
      (d : Decided env gid rid db) (applied : Db)
      → body ≡ some "approve"
      → Applied env db d.request applied
      → audit_approval env d.request (delete_request env d.request applied) ≡ some t.db
      → ProcessRun env gid rid body db t
  denied :
      (d : Decided env gid rid db)
      → body ≡ some "deny"
      → audit_end env audit_group_membership_denied d.request (delete_request env d.request db)
        ≡ some t.db
      → ProcessRun env gid rid body db t

-- The three ways on after the check.
pub data Open (env : Env) (db : Db) (r : GroupMembershipRequest) : Type 0 where
  may_join : (r.kind == "new_member") ≡ true → existing env db r ≡ none → Open env db r
  may_promote :
      (m : GroupMembership)
      → (r.kind == "new_member") ≡ false
      → (r.kind == "admin_promotion") ≡ true
      → existing env db r ≡ some m
      → m.is_admin ≡ false
      → Open env db r
  unknown : (r.kind == "new_member") ≡ false → (r.kind == "admin_promotion") ≡ false → Open env db r

module _ (P : Post) {B : Type 0} (K : B → State → Type 0) (env : Env) where
  pub After-audited :
      (o : Option Db) (s : State) (f : Db → Handler B)
      → P returned (record s { tx = none; response = some 400 })
      → ((x : (d : Db) × (o ≡ some d)) → After P K (f x.0 (record s { tx = some x.0 })))
      → After P K ((audited env o >>= f) s)
  After-audited none s f bad good = bad
  After-audited (some d) s f bad good =
      After-bind P K (audited env (some d) s) f
        (After-check_tx P _ env s audit 400 _ (λ _. bad) λ _. good (d, refl))

  module _ (db : Db) (r : GroupMembershipRequest) (s : State) where
    pub After-already :
        (f : Bool → Handler B)
        → P panicked s
        → (IsSettled env db r → After P K (f true s))
        → (Open env db r → After P K (f false s))
        → After P K ((already env r (existing env db r) >>= f) s)
    After-already f bad settled open_way =
        let K' = λ (b : Bool) (t : State). After P K (f b t) in
        After-bind P K (already env r (existing env db r) s) f (
          After-if P K' s (r.kind == "new_member") _ _
            (λ joining. joins_case joining (existing env db r) refl)
            (λ other.
              After-if P K' s (r.kind == "admin_promotion") _ _
                (λ promotion.
                  After-or_panic P K' s (existing env db r) _ (λ _. bad)
                    (λ (m, is). admin_case other promotion m is m.is_admin refl))
                (λ neither. open_way (unknown other neither))))
      where
        joins_case :
            (r.kind == "new_member") ≡ true
            → (o : Option GroupMembership) → existing env db r ≡ o
            → After P K (f (elim o [ none ↦ false | some _ ↦ true ]) s)
        joins_case joining none is = open_way (may_join joining is)
        joins_case joining (some m) is =
            settled (inl ((eq_iff r.kind "new_member").0 joining, (m, is)))

        admin_case :
            (r.kind == "new_member") ≡ false
            → (r.kind == "admin_promotion") ≡ true
            → (m : GroupMembership) → existing env db r ≡ some m
            → (b : Bool) → m.is_admin ≡ b
            → After P K (f b s)
        admin_case other promotion m is true e =
            settled (inr ((eq_iff r.kind "admin_promotion").0 promotion, (m, is, e)))
        admin_case other promotion m is false e = open_way (may_promote m other promotion is e)

    -- The rows of an approval, in the transaction.
    abbrev Grants : Db → Type 0
    Grants applied =
        Applied env db r applied
        ⊎ (((r.kind == "new_member") ≡ false) × ((r.kind == "admin_promotion") ≡ false))

    pub After-apply :
        (f : Db → Handler B)
        → Open env db r
        → P panicked s
        → P returned (record s { tx = none; response = some 400 })
        → ((x : (applied : Db) × Grants applied)
            → (tx : Option Db) → After P K (f x.0 (record s { tx = tx })))
        → After P K ((apply_request env r (existing env db r) db >>= f) s)
    After-apply f open_way broken stop good =
        let K' = λ (d : Db) (t : State). After P K (f d t) in
        let old = existing env db r in
        After-bind P K (apply_request env r old db s) f (
          After-if P K' s (r.kind == "new_member") _ _
            (λ joining.
              After-check_tx P K' env s insert_row 400 _ (λ _. stop)
                λ _.
                  good
                    (_, inl (joins ((eq_iff r.kind "new_member").0 joining) (no_row joining) refl))
                    _)
            (λ other.
              After-if P K' s (r.kind == "admin_promotion") _ _
                (λ promotion.
                  After-or_panic P K' s old _ (λ _. broken)
                    λ (m, is).
                      After-check_tx P K' env s update_row 400 _ (λ _. stop)
                        λ _.
                          good
                            (
                              _,
                              inl (
                                  promotes m ((eq_iff r.kind "admin_promotion").0 promotion) is
                                    (no_admin other promotion m is) refl),
                            )
                            _)
                (λ neither. good (db, inr (other, neither)) s.tx)))
      where
        no_row : (r.kind == "new_member") ≡ true → existing env db r ≡ none
        no_row joining = elim open_way [
          | may_join _ is ↦ is
          | may_promote _ other _ _ _ ↦ cc (joining, other)
          | unknown other _ ↦ cc (joining, other)
        ]

        no_admin :
            (r.kind == "new_member") ≡ false
            → (r.kind == "admin_promotion") ≡ true
            → (m : GroupMembership) → existing env db r ≡ some m
            → m.is_admin ≡ false
        no_admin other promotion m is = elim open_way [
          | may_join joining _ ↦ cc (joining, other)
          | may_promote n _ _ is_n plain ↦
              subst (λ (x : GroupMembership). x.is_admin ≡ false) (eq_of_some (sym is_n ∙ is)) plain
          | unknown _ neither ↦ cc (promotion, neither)
        ]
