-- ===== src/Api/Chain.antt =====
-- Proofs that follow a handler by the rules of Api.Rules, written as do blocks in the order of its
-- steps: a rule is waiting for the proof about the rest.
infixl 5 ◌>>=◌
abbrev pub ◌>>=◌ {ℓ κ} :
    {X : Type ℓ} {Rest : X → Type κ} {Whole : Type κ}
    → (((x : X) → Rest x) → Whole)
    → ((x : X) → Rest x)
    → Whole
rule >>= rest = rule rest
