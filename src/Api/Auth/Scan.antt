-- ===== src/Api/Auth/Scan.antt =====
-- The loop of mwGroupAuthRequired over the memberships of a user, for a request with a UUID.
use mathlib.Core.List.Memᴰ
use governor_api.Prelude.{
  String, ◌≡◌, ◌≢◌, refl, sym, ap, ◌∙◌, ◌⊎◌, inl, inr, ⊎_elim, Bool, true, false, Option, none,
  some, List, [], ◌∷◌, Memᴰ, ◌==◌, eq-cases,
}
use governor_api.Membership.{EnumeratedMembership}
use governor_api.Api.{Env}
use governor_api.Api.Auth.{Flags, has_rights, scan}

module _ (env : Env) (id : String) (approver_group : Option String)
    (is_uuid : env.is_uuid id ≡ true) where
  abbrev pub Row : (EnumeratedMembership → Type 0) → List EnumeratedMembership → Type 0
  Row P rows = (m : EnumeratedMembership) × Memᴰ m rows × P m

  -- What each flag comes from, and that no membership of the group is passed over.
  pub record ScanResult (rows : List EnumeratedMembership) (flags : Flags) : Type 0 where
    pub result : Flags
    pub returns : scan env id approver_group rows flags ≡ some result
    pub member : result.member ≡ true → (flags.member ≡ true) ⊎ Row (λ m. m.group_id ≡ id) rows
    pub admin :
        result.admin ≡ true
        → (flags.admin ≡ true) ⊎ Row (λ m. (m.group_id ≡ id) × (has_rights env m ≡ true)) rows
    pub approver :
        result.approver ≡ true
        → (flags.approver ≡ true) ⊎ Row (λ m. approver_group ≡ some m.group_id) rows
    pub finds : (flags.member ≡ true) ⊎ Row (λ m. m.group_id ≡ id) rows → result.member ≡ true

  under :
      {P : EnumeratedMembership → Type 0} {m : EnumeratedMembership}
      {rows : List EnumeratedMembership} {C : Type 0}
      → C ⊎ Row P rows
      → C ⊎ Row P (m ∷ rows)
  under (inl c) = inl c
  under (inr (m, n, p)) = inr (m, Memᴰ.tail n, p)

  -- A row of another group only changes the flag of an approver.
  pass_over :
      (m : EnumeratedMembership) (ms : List EnumeratedMembership) (flags : Flags) (b : Bool)
      → scan env id approver_group (m ∷ ms) flags
        ≡ scan env id approver_group ms (record flags { approver = b })
      → (b ≡ true → (flags.approver ≡ true) ⊎ (approver_group ≡ some m.group_id))
      → id ≢ m.group_id
      → ScanResult ms (record flags { approver = b })
      → ScanResult (m ∷ ms) flags
  pass_over m ms flags b goes_on approves other r = record {
    result = r.result;
    returns = goes_on ∙ r.returns;
    member = λ e. under (r.member e);
    admin = λ e. under (r.admin e);
    approver = λ e. elim (r.approver e) [
      | inl set ↦ ⊎_elim inl (λ here. inr (m, Memᴰ.head refl, here)) (approves set)
      | inr (n, l, q) ↦ inr (n, Memᴰ.tail l, q)
    ];
    finds = λ h. r.finds (elim h [
      | inl set ↦ inl set
      | inr (n, Memᴰ.head is_m, q) ↦ absurd (other (cc (is_m, q)))
      | inr (n, Memᴰ.tail l, q) ↦ inr (n, l, q)
    ]);
  }

  -- A row of another group, with or without an approver group.
  scan_other :
      (m : EnumeratedMembership) (ms : List EnumeratedMembership) (flags : Flags)
      → ((f : Flags) → ScanResult ms f)
      → (o : Option String) → approver_group ≡ o
      → (id == m.group_id) ≡ false
      → id ≢ m.group_id
      → ScanResult (m ∷ ms) flags
  unfolding scan
  scan_other m ms flags rest none is miss other =
      pass_over m ms flags flags.approver (rw (scan, is_uuid, miss, is) refl) inl other (rest flags)
  scan_other m ms flags rest (some a) is miss other = elim (eq-cases a m.group_id) [
    | inl (hit, e) ↦
        pass_over m ms flags true (rw (scan, is_uuid, miss, is, hit) refl)
          (λ _. inr (is ∙ ap some e)) other (rest (record flags { approver = true }))
    | inr (apart, _) ↦
        pass_over m ms flags flags.approver (rw (scan, is_uuid, miss, is, apart) refl) inl other
          (rest flags)
  ]

  pub scan_lem : (rows : List EnumeratedMembership) (flags : Flags) → ScanResult rows flags
  unfolding scan
  scan_lem [] flags = record {
    result = flags;
    returns = refl;
    member = inl;
    admin = inl;
    approver = inl;
    finds = ⊎_elim (λ set. set) (λ (_, m, _). absurd (Memᴰ.not-nil m));
  }
  scan_lem (m ∷ ms) flags = elim (eq-cases id m.group_id) [
    | inl (hit, e) ↦ record {
      result = record flags { member = true; admin = has_rights env m };
      returns = rw (scan, is_uuid, hit) refl;
      member = λ _. inr (m, Memᴰ.head refl, sym e);
      admin = λ rights. inr (m, Memᴰ.head refl, (sym e, rights));
      approver = inl;
      finds = λ _. refl;
    }
    | inr (miss, other) ↦ scan_other m ms flags (scan_lem ms) approver_group refl miss other
  ]
