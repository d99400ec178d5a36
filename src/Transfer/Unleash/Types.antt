-- ===== src/Transfer/Unleash/Types.antt =====
-- The type of each context field of an Unleash export, from its use: `inferFieldTypes` of
-- src/modules/transfer/external/unleash.adapter.ts.
use flagraft.Prelude.{
  Bool, Option, none, some, List, [], ◌∷◌, ◌++◌, String, ◌==◌, ltb, length, map, is_some, or_else,
  option_map, if◌then◌else◌,
}
use flagraft.Evaluate.Constraint.{add_name}
use flagraft.Evaluate.Flag.{Dictionary, lookup}
use flagraft.Client.State.{assign}
use flagraft.Transfer.Unleash.{from_unleash_operator}
use flagraft.Transfer.Unleash.Document.{UnleashConstraint, UnleashField}

abbrev pub operator_family : Dictionary String
operator_family =
    ("SEMVER_EQ", "version")
    ∷ ("SEMVER_GT", "version")
    ∷ ("SEMVER_LT", "version")
    ∷ ("DATE_AFTER", "date")
    ∷ ("DATE_BEFORE", "date")
    ∷ ("NUM_EQ", "number")
    ∷ ("NUM_GT", "number")
    ∷ ("NUM_GTE", "number")
    ∷ ("NUM_LT", "number")
    ∷ ("NUM_LTE", "number")
    ∷ []

pub record InferredField : Type 0 where
  pub key : String
  pub type : String
  pub enum_values : Option (List String)
  pub description : Option String
  pub conflicted : Bool

-- The family that a constraint tells of, where its operator can be carried over.
unfoldable pub family_of : String → Option String
unfolding lookup
family_of operator =
    if is_some (lookup operator from_unleash_operator)
    then lookup operator operator_family
    else none

-- The loop that fills `families`.
unfoldable pub collect_families :
    List UnleashConstraint → Dictionary (List String) → Dictionary (List String)
unfolding family_of assign lookup
collect_families [] families = families
collect_families (c ∷ constraints) families =
    collect_families constraints (elim (family_of c.operator) [
      | none ↦ families
      | some family ↦
          assign c.context_name (add_name family (or_else (lookup c.context_name families) []))
            families
    ])

-- The set of the names, each at its first place.
unfoldable pub collect_names : List String → List String → List String
collect_names [] names = names
collect_names (n ∷ more) names = collect_names more (add_name n names)

-- `new Map(fields.map((field) => [field.name, field]))`
unfoldable pub declared_fields :
    List UnleashField → Dictionary UnleashField → Dictionary UnleashField
unfolding assign
declared_fields [] declared = declared
declared_fields (f ∷ fields) declared = declared_fields fields (assign f.name f declared)

abbrev first_of : List String → Option String
first_of [] = none
first_of (f ∷ families) = some f

abbrev pub inferred_type : List String → List String → String
inferred_type families legal_values =
    elim (if ltb 1 (length families) then none else first_of families) [
      | some family ↦ family
      | none ↦ if ltb 0 (length legal_values) then "enum" else "string"
    ]

unfoldable pub infer_field :
    Dictionary UnleashField → Dictionary (List String) → String → InferredField
unfolding lookup
infer_field declared families name =
    let field = lookup name declared in
    let seen = or_else (lookup name families) [] in
    let legal_values = or_else (option_map (λ (f : UnleashField). f.legal_values) field) [] in
    let type = inferred_type seen legal_values in
    record {
      key = name;
      type = type;
      enum_values = if type == "enum" then some legal_values else none;
      description = elim field [ none ↦ none | some f ↦ f.description ];
      conflicted = ltb 1 (length seen);
    }

unfoldable pub infer_field_types :
    List UnleashField → List UnleashConstraint → Dictionary InferredField
unfolding collect_families collect_names declared_fields infer_field
infer_field_types fields constraints =
    let families = collect_families constraints [] in
    let declared = declared_fields fields [] in
    map (λ name. (name, infer_field declared families name))
      (collect_names
        (map (λ (f : UnleashField). f.name) fields
          ++ map (λ (c : UnleashConstraint). c.context_name) constraints)
        [])
