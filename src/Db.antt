-- ===== src/Db.antt =====
-- The rows that the program reads and writes (internal/models, with db/migrations), and the state of
-- the database. Of each row the columns that the modelled code uses; a nullable column is an
-- `Option`, and a time is a number.
pub mod Keys
use mathlib.Core.List.Memᴰ
use governor_api.Prelude.{
  ℕ, ℤ, String, ◌≡◌, sym, subst, inl, inr, Bool, true, false, ◌&&◌, Option, none, some, List, [],
  ◌∷◌, Memᴰ, any, ◌==◌, if◌then◌else◌, Bool-cases, eq_of_some,
}

pub record Group : Type 0 where
  pub id : String
  pub name : String
  pub slug : String
  pub description : String
  pub note : String
  pub approver_group : Option String
  pub deleted_at : Option ℕ

pub record User : Type 0 where
  pub id : String
  pub external_id : Option String
  pub name : String
  pub email : String
  pub status : Option String
  pub avatar_url : Option String
  pub github_id : Option ℤ
  pub github_username : Option String
  pub deleted_at : Option ℕ

pub record GroupMembership : Type 0 where
  pub id : String
  pub group_id : String
  pub user_id : String
  pub is_admin : Bool
  pub expires_at : Option ℕ
  pub admin_expires_at : Option ℕ

pub record GroupHierarchy : Type 0 where
  pub id : String
  pub parent_group_id : String
  pub member_group_id : String
  pub expires_at : Option ℕ

pub record GroupMembershipRequest : Type 0 where
  pub id : String
  pub group_id : String
  pub user_id : String
  pub is_admin : Bool
  pub note : String
  pub expires_at : Option ℕ
  pub kind : String
  pub admin_expires_at : Option ℕ

pub record Organization : Type 0 where
  pub id : String
  pub name : String
  pub slug : String
  pub deleted_at : Option ℕ

pub record GroupOrganization : Type 0 where
  pub id : String
  pub group_id : String
  pub organization_id : String

pub record GroupApplication : Type 0 where
  pub id : String
  pub group_id : String
  pub application_id : String
  pub deleted_at : Option ℕ

pub record Application : Type 0 where
  pub id : String
  pub name : String
  pub slug : String
  pub approver_group_id : Option String
  pub deleted_at : Option ℕ

pub record GroupApplicationRequest : Type 0 where
  pub id : String
  pub group_id : String
  pub application_id : String
  pub approver_group_id : String
  pub requester_user_id : String
  pub note : Option String

pub record Extension : Type 0 where
  pub id : String
  pub slug : String
  pub enabled : Bool
  pub deleted_at : Option ℕ

pub record ExtensionResourceDefinition : Type 0 where
  pub id : String
  pub extension_id : String
  pub slug_plural : String
  pub version : String
  pub enabled : Bool
  pub admin_group : Option String
  pub deleted_at : Option ℕ

pub record AuditEvent : Type 0 where
  pub parent_id : Option String
  pub actor_id : Option String
  pub action : String
  pub subject_group_id : Option String
  pub subject_user_id : Option String
  pub subject_application_id : Option String

pub record Db : Type 0 where
  pub groups : List Group
  pub users : List User
  pub memberships : List GroupMembership
  pub hierarchies : List GroupHierarchy
  pub requests : List GroupMembershipRequest
  pub organizations : List Organization
  pub group_organizations : List GroupOrganization
  pub group_applications : List GroupApplication
  pub applications : List Application
  pub app_requests : List GroupApplicationRequest
  pub extensions : List Extension
  pub extension_resource_definitions : List ExtensionResourceDefinition
  pub audit_events : List AuditEvent

abbrev pub is_null {ℓ} : {A : Type ℓ} → Option A → Bool
is_null none = true
is_null (some _) = false

-- `INNER JOIN groups ON groups.id = … AND groups.deleted_at IS NULL`: `id` is the primary key.
abbrev pub live : Db → String → Bool
live db id = any (λ g. g.id == id && is_null g.deleted_at) db.groups

-- The first row for which a test holds, `One` of a query.
unfoldable pub find {ℓ} : {A : Type ℓ} → (A → Bool) → List A → Option A
find p [] = none
find p (x ∷ xs) = if p x then some x else find p xs

-- FindGroup, and Groups(qm.Where("id = ?", id)).One: deleted groups are left out.
abbrev pub find_group : Db → String → Option Group
find_group db id = find (λ g. g.id == id && is_null g.deleted_at) db.groups

abbrev pub find_user : Db → String → Option User
find_user db id = find (λ u. u.id == id && is_null u.deleted_at) db.users

module _ {ℓ} {A : Type ℓ} (p : A → Bool) where
  pub find-some : (xs : List A) {a : A} → find p xs ≡ some a → Memᴰ a xs × (p a ≡ true)
  unfolding find
  find-some [] e = cc
  find-some (x ∷ xs) e = elim (Bool-cases (p x)) [
    | inl holds ↦
        let same : x ≡ _ = eq_of_some (rw holds at e) in
        (Memᴰ.head (sym same), subst (λ a. p a ≡ true) same holds)
    | inr fails ↦ let (m, q) = find-some xs (rw fails at e) in (Memᴰ.tail m, q)
  ]

  pub find-none : (xs : List A) → find p xs ≡ none → (a : A) → Memᴰ a xs → p a ≡ false
  unfolding find
  find-none (x ∷ xs) e a (Memᴰ.head is) = elim (Bool-cases (p x)) [
    | inl holds ↦ cc (rw holds at e)
    | inr fails ↦ subst (λ y. p y ≡ false) (sym is) fails
  ]
  find-none (x ∷ xs) e a (Memᴰ.tail m) = elim (Bool-cases (p x)) [
    | inl holds ↦ cc (rw holds at e)
    | inr fails ↦ find-none xs (rw fails at e) a m
  ]
  find-none [] e a m = absurd (Memᴰ.not-nil m)
