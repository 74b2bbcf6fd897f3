-- ===== src/Api/Groups/Creation.antt =====
-- createGroup: the requests it accepts, and what it commits and publishes.
use mathlib.Core.List.Memᴰ
use governor_api.Prelude.{
  ℕ, String, ◌≡◌, ◌≢◌, sym, subst, eq-cases, ◌⊎◌, inl, inr, true, false, false, and_iff, ◌==◌, leb,
  codes, arith, Option, none, some, List, [], ◌∷◌, ◌++◌, Memᴰ, if◌then◌else◌,
}
use governor_api.Db.{Db}
use governor_api.Api.{Env, Action, create, Event, groups}
use governor_api.Api.Writes.Runs.{Effect}
use governor_api.Api.Groups.{
  GroupReq, is_name_char, all_name_chars, group_name_checker, create_group_request_validator,
  new_group,
}

-- The characters of a name: letters, digits, space characters and ( ) [ ] & - .
abbrev pub IsNameChar : ℕ → Type 0
IsNameChar c =
    ((leb b'A' c ≡ true) × (leb c b'Z' ≡ true))
    ⊎ (((leb b'a' c ≡ true) × (leb c b'z' ≡ true))
        ⊎ (((leb b'0' c ≡ true) × (leb c b'9' ≡ true))
            ⊎ ((c ≡ 9)
                ⊎ ((c ≡ 10)
                    ⊎ ((c ≡ 12)
                        ⊎ ((c ≡ 13)
                            ⊎ ((c ≡ 32)
                                ⊎ ((c ≡ b'(')
                                    ⊎ ((c ≡ b')')
                                        ⊎ ((c ≡ b'[')
                                            ⊎ ((c ≡ b']')
                                                ⊎ ((c ≡ b'&')
                                                    ⊎ ((c ≡ b'-') ⊎ (c ≡ b'.'))))))))))))))

-- A request for a new group, with a description and a name of these characters.
pub record Asked (body : Option GroupReq) : Type 0 where
  pub req : GroupReq
  pub bound : body ≡ some req
  pub named : req.name ≢ ""
  pub described : req.description ≢ ""
  pub legal : (c : ℕ) → Memᴰ c (codes req.name) → IsNameChar c

-- The audit event of a group, and the event that is published.
abbrev pub group_recorded : Env → String → String → Db → Db
group_recorded env action group_id db = record db {
  audit_events =
      db.audit_events
      ++ record {
        parent_id = some env.audit_id;
        actor_id = elim env.user [ none ↦ none | some actor ↦ some actor.id ];
        action = action;
        subject_group_id = some group_id;
        subject_user_id = none;
        subject_application_id = none;
      }
        ∷ [];
}

abbrev pub group_told : Env → Action → String → List Event
group_told env action group_id =
    record {
      subject = groups;
      action = action;
      audit_id = env.audit_id;
      group_id = group_id;
      user_id = "";
      application_id = "";
      actor_id = elim env.user [ none ↦ "" | some actor ↦ actor.id ];
    }
    ∷ []

abbrev pub creation : (env : Env) (body : Option GroupReq) → Db → Effect (Asked body)
creation env body db = record {
  result = λ a. group_recorded env "group.created" env.fresh_id (record db {
    groups =
        db.groups
        ++ record {
          id = env.fresh_id;
          name = a.req.name;
          slug = env.slug_of a.req.name;
          description = a.req.description;
          note = a.req.note;
          approver_group =
              if a.req.approver_group_id == "" then none else some a.req.approver_group_id;
          deleted_at = none;
        }
          ∷ [];
  });
  first = λ a. [];
  last = λ a. group_told env create env.fresh_id;
  code = 202;
}

legal_char : (c : ℕ) → is_name_char c ≡ true → IsNameChar c
legal_char c legal = ground (arith, legal)

legal_chars : (cs : List ℕ) → all_name_chars cs ≡ true → (c : ℕ) → Memᴰ c cs → IsNameChar c
legal_chars (x ∷ xs) all c (Memᴰ.head is) = legal_char c (
    subst (λ y. is_name_char y ≡ true) (sym is)
      ((and_iff (is_name_char x) (all_name_chars xs)).0 all).0)
legal_chars (x ∷ xs) all c (Memᴰ.tail listed) =
    legal_chars xs ((and_iff (is_name_char x) (all_name_chars xs)).0 all).1 c listed
legal_chars [] all c listed = absurd (Memᴰ.not-nil listed)

checked_chars : (cs : List ℕ) → group_name_checker cs ≡ true → (c : ℕ) → Memᴰ c cs → IsNameChar c
checked_chars [] checks c listed = absurd (Memᴰ.not-nil listed)
checked_chars (x ∷ xs) checks c listed = legal_chars (x ∷ xs) checks c listed

pub valid_fields :
    (env : Env) (req : GroupReq)
    → create_group_request_validator (new_group env req) ≡ true
    → (req.name ≢ "") × (req.description ≢ "") × ((c : ℕ) → Memᴰ c (codes req.name) → IsNameChar c)
valid_fields env req valid = elim (eq-cases req.name "") [
  | inl (hit, e) ↦ let nothing : false ≡ true = rw hit at valid in cc nothing
  | inr (named, apart) ↦ elim (eq-cases req.description "") [
    | inl (hit, e) ↦ let nothing : false ≡ true = rw (named, hit) at valid in cc nothing
    | inr (described, other) ↦
        (apart, other, checked_chars (codes req.name) (rw (named, described) at valid))
  ]
]
