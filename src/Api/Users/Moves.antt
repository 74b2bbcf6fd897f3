-- ===== src/Api/Users/Moves.antt =====
-- updateUser: the status that a user gets, and whether that activates the user.
use governor_api.Prelude.{
  String, ◌≡◌, ◌≢◌, ◌↔◌, ◌⊎◌, ◌∙◌, inl, inr, not, Bool-cases, eq-cases, eq_iff, eq_of_some, ◌==◌,
  refl, sym, ap, Bool, true, false, ◌&&◌, and_iff, Option, none, some,
}
use governor_api.Db.{User}
use governor_api.Api.Members.{status_of}
use governor_api.Api.Users.{UserReq, next_status}

-- A pending user who is made active.
abbrev pub Activates : User → UserReq → Type 0
Activates original req = (status_of original ≡ "pending") × (req.status ≡ "active")

-- The status after an update: the old one, or the one that is given, which is not pending, and
-- suspended only for an active user.
abbrev pub Follows : User → String → Option String → Type 0
Follows original asked status =
    ((asked ≡ "") × (status ≡ original.status))
    ⊎ ((status ≡ some asked)
        × (asked ≢ "pending")
        × (asked ≡ "suspended" → status_of original ≡ "active"))

pub next_status-Follows :
    (user : User) (asked : String) (status : Option String) (act : Bool)
    → next_status user asked ≡ some (status, act)
    → Follows user asked status
next_status-Follows user asked status act is = elim (eq-cases asked "") [
  | inl (hit, e) ↦
      let same = eq_of_some (rw hit at is) in
      inl (e, sym (ap (λ (p : Option String × Bool). p.0) same))
  | inr (miss, _) ↦ elim (eq-cases asked "pending") [
    | inl (hit, _) ↦ let nothing : none ≡ some (status, act) = rw (miss, hit) at is in cc nothing
    | inr (other, apart) ↦
        elim (Bool-cases (not (status_of user == "active") && asked == "suspended")) [
          | inl bad ↦
              let nothing : none ≡ some (status, act) = rw (miss, other, bad) at is in cc nothing
          | inr good ↦
              let same = eq_of_some (rw (miss, other, good) at is) in
              inr (sym (ap (λ (p : Option String × Bool). p.0) same), apart, was_active good)
        ]
  ]
]
  where
    was_active :
        (not (status_of user == "active") && asked == "suspended") ≡ false
        → asked ≡ "suspended"
        → status_of user ≡ "active"
    was_active good suspended =
        let equal = (eq_iff asked "suspended").1 suspended in
        elim (Bool-cases (status_of user == "active")) [
          | inl active ↦ (eq_iff (status_of user) "active").0 active
          | inr other ↦ let nothing : true ≡ false = rw (other, equal) at good in cc nothing
        ]

-- A status that is given is the new one, and which of them activate.
pub moves_lem :
    (user : User) (given : String) (status : Option String) (act : Bool)
    → next_status user given ≡ some (status, act)
    → ((act ≡ true) ↔ ((status_of user ≡ "pending") × (given ≡ "active")))
      × (given ≢ "" → status ≡ some given)
moves_lem user given status act is = elim (eq-cases given "") [
  | inl (hit, e) ↦
      let same = eq_of_some (rw hit at is) in
      let plain : false ≡ act = ap (λ (p : Option String × Bool). p.1) same in
      (
        (
          λ on. cc (on, plain),
          λ (_, active). absurd ((eq_apart "" "active" refl) (sym e ∙ active)),
        ),
        λ apart. absurd (apart e),
      )
  | inr (miss, _) ↦ elim (eq-cases given "pending") [
    | inl (hit, _) ↦ let nothing : none ≡ some (status, act) = rw (miss, hit) at is in cc nothing
    | inr (other, _) ↦
        elim (Bool-cases (not (status_of user == "active") && given == "suspended")) [
          | inl bad ↦
              let nothing : none ≡ some (status, act) = rw (miss, other, bad) at is in cc nothing
          | inr good ↦
              let same : (some given, status_of user == "pending" && given == "active")
                  ≡ (status, act) =
                eq_of_some (rw (miss, other, good) at is) in
              let flag = ap (λ (p : Option String × Bool). p.1) same in
              let (into, back) = and_iff (status_of user == "pending") (given == "active") in
              (
                (
                  λ on.
                      let (a, b) = into (flag ∙ on) in
                      ((eq_iff (status_of user) "pending").0 a, (eq_iff given "active").0 b),
                  λ (a, b).
                      sym flag
                      ∙ back ((eq_iff (status_of user) "pending").1 a, (eq_iff given "active").1 b),
                ),
                λ _. sym (ap (λ (p : Option String × Bool). p.0) same),
              )
        ]
  ]
]
  where
    eq_apart : (a b : String) → (a == b) ≡ false → a ≢ b
    eq_apart a b differ e = let equal = (eq_iff a b).1 e in cc (equal, differ)
