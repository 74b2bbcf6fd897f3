-- ===== src/Membership/Diff.antt =====
-- FindMemberDiff of internal/dbtools/membership_enumeration.go.
use governor_api.Prelude.{
  ◌≡◌, refl, ◌↔◌, Bool, true, not, List, Memᴰ, Memᴰ-filter, any, any_iff, filter, arith, eq_iff,
  Bool-cases, inl, inr,
}
use governor_api.Membership.{EnumeratedMembership, same_key}

-- The map of keys is read only for the presence of a key.
abbrev before_map : List EnumeratedMembership → EnumeratedMembership → Bool
before_map before e = any (λ b. same_key b e.group_id e.user_id) before

pub find_member_diff :
    List EnumeratedMembership → List EnumeratedMembership → List EnumeratedMembership
find_member_diff before after = filter (λ e. not (before_map before e)) after

abbrev pub HasKey : List EnumeratedMembership → EnumeratedMembership → Type 0
HasKey rows e =
    (b : EnumeratedMembership) × Memᴰ b rows × (b.group_id ≡ e.group_id) × (b.user_id ≡ e.user_id)

before_map_iff :
    (before : List EnumeratedMembership) (e : EnumeratedMembership)
    → (before_map before e ≡ true) ↔ HasKey before e
before_map_iff before e =
    let (into, back) =
      any_iff (λ (b : EnumeratedMembership). same_key b e.group_id e.user_id) before in
    (
      λ h.
          let (b, m, same) = into h in
          let key : (b.group_id ≡ e.group_id) × (b.user_id ≡ e.user_id) =
            ground (arith, eq_iff b.group_id e.group_id, eq_iff b.user_id e.user_id) in
          (b, m, key.0, key.1),
      λ (b, m, p, q).
          back (b, m, ground (arith, eq_iff b.group_id e.group_id, eq_iff b.user_id e.user_id)),
    )

-- FindMemberDiff returns exactly the rows of the second list whose pair of group and user is in no
-- row of the first.
pub mem-find_member_diff :
    (before after : List EnumeratedMembership) (e : EnumeratedMembership)
    → Memᴰ e (find_member_diff before after) ↔ (Memᴰ e after × (¬ HasKey before e))
unfolding find_member_diff
mem-find_member_diff before after e =
    let (into, back) =
      Memᴰ-filter (λ (e : EnumeratedMembership). not (before_map before e)) e after in
    let (key, present) = before_map_iff before e in
    (
      λ m. let (k, new) = into m in (k, λ h. cc (present h)),
      λ (k, absent). back (
        k,
        elim (Bool-cases (before_map before e)) [
          | inl old ↦ absurd (absent (key old))
          | inr new ↦ rw new refl
        ],
      ),
    )
