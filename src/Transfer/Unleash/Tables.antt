-- ===== src/Transfer/Unleash/Tables.antt =====
-- Reading a table that is an object literal, entry by entry: the operator tables of
-- src/modules/strategies/strategy.schema.ts and src/modules/transfer/external/unleash.adapter.ts.
use flagraft.Prelude.{
  true, some, List, [], ◌∷◌, String, ◌==◌, ◌≡◌, ◌⊎◌, refl, arith, inl, inr, eq_iff, subst, All,
  Bool-cases, Option-cases, or_else,
}
use flagraft.Evaluate.Constraint.{list_includes}
use flagraft.Evaluate.Flag.{Dictionary, lookup}
use flagraft.Strategies.Rules.{operators_by_type, allowed_operators}

-- What holds of every entry of a table holds of the one that is read.
pub lookup-All :
    {V : Type 0} (P : String → V → Type 0) (d : Dictionary V) (k : String) (v : V)
    → All (λ (e : String × V). P e.0 e.1) d
    → lookup k d ≡ some v
    → P k v
unfolding lookup
lookup-All P [] k v h found = ground arith
lookup-All P ((l, w) ∷ d) k v (h, hs) found = elim (Bool-cases (l == k)) [
  | inl here ↦
      let value : w ≡ v = ground (arith, here) in
      subst (P k) value (subst (λ x. P x w) ((eq_iff l k).0 here) h)
  | inr later ↦ lookup-All P d k v hs (ground (arith, later))
]

-- What holds of the types that have an operator.
pub allowed_operators-All :
    (op : String) (Q : String → Type 0) (type : String)
    → All (λ (e : String × List String). list_includes e.1 op ≡ true → Q e.0) operators_by_type
    → list_includes (allowed_operators type) op ≡ true
    → Q type
allowed_operators-All op Q type h allowed = elim (Option-cases (lookup type operators_by_type)) [
  | inl missing ↦
      let none_allowed = subst (λ o. list_includes (or_else o []) op ≡ true) missing allowed in cc
  | inr (ops, found) ↦
      lookup-All (λ t os. list_includes os op ≡ true → Q t) operators_by_type type ops h found
        (subst (λ o. list_includes (or_else o []) op ≡ true) found allowed)
]

-- The operators that only texts and enums have.
abbrev pub text_only : List String
text_only = "equals" ∷ "in" ∷ "notIn" ∷ []

abbrev pub IsTextType : String → Type 0
IsTextType type = (type ≡ "string") ⊎ (type ≡ "enum")

text_types :
    (op : String)
    → list_includes text_only op ≡ true
    → All
        (λ (e : String × List String). list_includes e.1 op ≡ true → IsTextType e.0)
        operators_by_type
text_types op which =
    let cases : (op ≡ "equals") ⊎ (op ≡ "in") ⊎ (op ≡ "notIn") =
      ground (arith, eq_iff op "equals", eq_iff op "in", eq_iff op "notIn") in
    elim cases [
      | inl e ↦
          rw e (λ _. inl refl, (λ _. inr refl, (λ h. cc, (λ h. cc, (λ h. cc, (λ h. cc, tt))))))
      | inr (inl e) ↦
          rw e (λ _. inl refl, (λ _. inr refl, (λ h. cc, (λ h. cc, (λ h. cc, (λ h. cc, tt))))))
      | inr (inr e) ↦
          rw e (λ _. inl refl, (λ _. inr refl, (λ h. cc, (λ h. cc, (λ h. cc, (λ h. cc, tt))))))
    ]

pub allowed-IsTextType :
    (op type : String)
    → list_includes text_only op ≡ true
    → list_includes (allowed_operators type) op ≡ true
    → IsTextType type
allowed-IsTextType op type which allowed =
    allowed_operators-All op IsTextType type (text_types op which) allowed

-- The operators that only numbers have.
abbrev pub number_only : List String
number_only = "neq" ∷ "lt" ∷ "gt" ∷ []

number_types :
    (op : String)
    → list_includes number_only op ≡ true
    → All
        (λ (e : String × List String). list_includes e.1 op ≡ true → e.0 ≡ "number")
        operators_by_type
number_types op which =
    let cases : (op ≡ "neq") ⊎ (op ≡ "lt") ⊎ (op ≡ "gt") =
      ground (arith, eq_iff op "neq", eq_iff op "lt", eq_iff op "gt") in
    elim cases [
      | inl e ↦ rw e (λ h. cc, (λ h. cc, (λ h. cc, (λ _. refl, (λ h. cc, (λ h. cc, tt))))))
      | inr (inl e) ↦ rw e (λ h. cc, (λ h. cc, (λ h. cc, (λ _. refl, (λ h. cc, (λ h. cc, tt))))))
      | inr (inr e) ↦ rw e (λ h. cc, (λ h. cc, (λ h. cc, (λ _. refl, (λ h. cc, (λ h. cc, tt))))))
    ]

pub allowed-number :
    (op type : String)
    → list_includes number_only op ≡ true
    → list_includes (allowed_operators type) op ≡ true
    → type ≡ "number"
allowed-number op type which allowed =
    allowed_operators-All op (λ t. t ≡ "number") type (number_types op which) allowed
