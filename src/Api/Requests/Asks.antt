-- ===== src/Api/Requests/Asks.antt =====
-- createGroupRequest: what may be asked for, and the rows with it.
use governor_api.Prelude.{
  not-true, and_iff, String, ◌≡◌, ◌≢◌, sym, subst, ◌∙◌, ◌⊎◌, inl, inr, Bool-cases, true, false,
  none, some, eq_of_some, [], ◌∷◌, ◌++◌, Memᴰ, any_iff, ◌&&◌, ◌==◌, eq_iff, eq-cases, arith,
}
use governor_api.Db.{Db, Group, User, GroupMembership, GroupMembershipRequest}
use governor_api.Api.Sound.{member_pair, not-membership_exists}
use governor_api.Api.{Env}
use governor_api.Api.Audit.{audit_group_membership_request_created}
use governor_api.Api.Members.{membership_exists}
use governor_api.Api.Requests.{
  CreateGroupMemberReq, relations, has_request, insert_request, new_request, kind_of, kind_fits,
  audit_end,
}

abbrev pub request_pair : GroupMembershipRequest → String × String
request_pair r = (r.group_id, r.user_id)

-- What the actor asks for, the kind that is stored, and the action that is recorded: to join a group
-- without a membership in it, which is what an empty kind means, or for admin rights with one.
pub data Asks (db : Db) (group_id user_id : String) (req : CreateGroupMemberReq)
    : String → String → Type 0 where
  to_join :
      (req.kind ≡ "") ⊎ (req.kind ≡ "new_member")
      → ((m : GroupMembership) → Memᴰ m db.memberships → member_pair m ≢ (group_id, user_id))
      → Asks db group_id user_id req "new_member" "group.member.request.created"
  to_be_admin :
      req.kind ≡ "admin_promotion"
      → ((m : GroupMembership) × Memᴰ m db.memberships × (member_pair m ≡ (group_id, user_id)))
      → Asks db group_id user_id req "admin_promotion" "admin.promotion.request.created"

-- The audit event of a request.
abbrev pub request_recorded : Env → String → String → String → Db → Db
request_recorded env action group_id user_id db = record db {
  audit_events =
      db.audit_events
      ++ record {
        parent_id = some env.audit_id;
        actor_id = elim env.user [ none ↦ none | some actor ↦ some actor.id ];
        action = action;
        subject_group_id = some group_id;
        subject_user_id = some user_id;
        subject_application_id = none;
      }
        ∷ [];
}

-- The rows with the request of the body.
abbrev pub requested : Env → Db → String → String → CreateGroupMemberReq → String → Db
requested env db group_id user_id req kind = record db {
  requests =
      db.requests
      ++ record {
        id = env.fresh_id;
        group_id = group_id;
        user_id = user_id;
        is_admin = req.is_admin;
        note = req.note;
        expires_at = req.expires_at;
        kind = kind;
        admin_expires_at = req.admin_expires_at;
      }
        ∷ [];
}

pub not-has_request :
    (env : Env) (db : Db) (g u : String)
    → has_request env db g u ≡ false
    → (r : GroupMembershipRequest) → Memᴰ r db.requests
    → request_pair r ≢ (g, u)
not-has_request env db g u absent r listed same =
    let test = λ (r : GroupMembershipRequest). r.user_id == u && r.group_id == g in
    let of_user : (r.user_id == u) ≡ true = (eq_iff r.user_id u).1 (cc same) in
    let of_group : (r.group_id == g) ≡ true = (eq_iff r.group_id g).1 (cc same) in
    let found = (any_iff test db.requests).1 (r, listed, ground (arith, of_user, of_group)) in
    cc (found, absent)

membership_exists-listed :
    (env : Env) (db : Db) (g u : String)
    → membership_exists env db g u ≡ true
    → (m : GroupMembership) × Memᴰ m db.memberships × (member_pair m ≡ (g, u))
membership_exists-listed env db g u there =
    let test = λ (m : GroupMembership). m.group_id == g && m.user_id == u in
    let (m, listed, same) = (any_iff test db.memberships).0 there in
    let (of_group, of_user) = (and_iff (m.group_id == g) (m.user_id == u)).0 same in
    let eg = (eq_iff m.group_id g).0 of_group in
    let eu = (eq_iff m.user_id u).0 of_user in (m, listed, cc (eg, eu))

pub relations-loaded :
    (env : Env) (db loaded : Db)
    → relations env db ≡ some loaded
    → (env.has_relations ≡ true) × (loaded ≡ db)
relations-loaded env db loaded is = elim (Bool-cases env.has_relations) [
  | inl set ↦ (set, eq_of_some (sym (rw set at is)))
  | inr unset ↦ let nothing : none ≡ some loaded = rw unset at is in cc nothing
]

module _ (env : Env) (db : Db) (group : Group) (actor : User) (req : CreateGroupMemberReq) where
  -- A kind that passes the checks, with what is stored for it.
  abbrev Fits : String → Type 0
  Fits kind =
      kind_fits env kind (membership_exists env db group.id actor.id) ≡ true
      → (result : Db)
      → audit_end env audit_group_membership_request_created
          (new_request env group.id actor.id req kind)
          (insert_request env (new_request env group.id actor.id req kind) db)
        ≡ some result
      → (action : String) × Asks db group.id actor.id req kind action
        × (result
            ≡ request_recorded env action group.id actor.id
                (requested env db group.id actor.id req kind))

  joining-Fits : (req.kind ≡ "") ⊎ (req.kind ≡ "new_member") → Fits "new_member"
  joining-Fits why fits result is = (
    _,
    to_join why (not-membership_exists env db group.id actor.id (not-true fits)),
    eq_of_some (sym is),
  )

  promotion-Fits : req.kind ≡ "admin_promotion" → Fits "admin_promotion"
  promotion-Fits why fits result is = (
    _,
    to_be_admin why (membership_exists-listed env db group.id actor.id fits),
    eq_of_some (sym is),
  )

  pub kind_of-Fits : (kind : String) → kind_of env req ≡ some kind → Fits kind
  kind_of-Fits kind is = elim (eq-cases req.kind "") [
    | inl (hit, e) ↦ subst Fits (eq_of_some (rw hit at is)) (joining-Fits (inl e))
    | inr (miss, _) ↦ elim (eq-cases req.kind "new_member") [
      | inl (hit, e) ↦
          let same : req.kind ≡ kind = eq_of_some (rw (miss, hit) at is) in
          subst Fits (sym e ∙ same) (joining-Fits (inr e))
      | inr (other, _) ↦ elim (eq-cases req.kind "admin_promotion") [
        | inl (hit, e) ↦
            let same : req.kind ≡ kind = eq_of_some (rw (miss, other, hit) at is) in
            subst Fits (sym e ∙ same) (promotion-Fits e)
        | inr (unknown, _) ↦
            let nothing : none ≡ some kind = rw (miss, other, unknown) at is in cc nothing
      ]
    ]
  ]
