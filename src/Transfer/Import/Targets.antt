-- ===== src/Transfer/Import/Targets.antt =====
-- Where the names of a document land: `resolveEnvironment` and the tables of `applyImport` of
-- src/modules/transfer/transfer.service.ts.
use flagraft.Prelude.{
  Bool, true, false, some, List, [], ◌∷◌, String, ◌==◌, ◌≡◌, ◌⊎◌, subst, arith, select, filter_map,
  inl, inr, All, Option-cases, Bool-cases, eq_iff,
}
use flagraft.Db.{Environment}
use flagraft.Evaluate.Constraint.{list_includes}
use flagraft.Evaluate.Flag.{Dictionary, lookup, inherited_names}
use flagraft.Client.State.{assign}
use flagraft.Transfer.Document.{NativeState}
use flagraft.Transfer.Import.{by_slug, resolve_environment, Target, target_of}

pub lookup-assign_cases :
    {V : Type 0} (s k : String) (v w : V) (d : Dictionary V)
    → lookup s (assign k v d) ≡ some w
    → (v ≡ w) ⊎ (lookup s d ≡ some w)
unfolding lookup assign
lookup-assign_cases s k v w [] h = ground (arith)
lookup-assign_cases s k v w ((l, u) ∷ d) h = ground (arith, lookup-assign_cases s k v w d)

pub lookup-assign_ne :
    {V : Type 0} (s k : String) (v : V) (d : Dictionary V)
    → (k == s) ≡ false
    → lookup s (assign k v d) ≡ lookup s d
unfolding lookup assign
lookup-assign_ne s k v [] ne = ground arith
lookup-assign_ne s k v ((l, u) ∷ d) ne =
    ground (arith, lookup-assign_ne s k v d ne, eq_iff l k, eq_iff l s, eq_iff k s)

-- An environment that a name lands in is one of those that slugs find.
resolve_environment_found :
    (name : String) (environment_map : Dictionary String) (slugs : Dictionary Environment)
    (e : Environment)
    → resolve_environment name environment_map slugs ≡ some e
    → (s : String) × (lookup s slugs ≡ some e)
unfolding resolve_environment
resolve_environment_found name environment_map slugs e h =
    elim (Option-cases (lookup name environment_map)) [
      | inr (slug, found) ↦ (slug, ground (arith, found))
      | inl unmapped ↦ elim (Bool-cases (list_includes inherited_names name)) [
        | inl inherited ↦ ground arith
        | inr own ↦ (name, ground arith)
      ]
    ]

-- A property of the environments holds of those that the document's names land in.
module _ (P : Environment → Type 0) where
  pub by_slug-All :
      (rows : List Environment) (slugs : Dictionary Environment) (s : String) (e : Environment)
      → All P rows
      → ((s : String) (e : Environment) → lookup s slugs ≡ some e → P e)
      → lookup s (by_slug rows slugs) ≡ some e
      → P e
  unfolding by_slug
  by_slug-All [] slugs s e h k found = k s e found
  by_slug-All (r ∷ rows) slugs s e (h, hs) k found =
      by_slug-All rows (assign r.slug r slugs) s e hs
        (λ t x q. elim (lookup-assign_cases t r.slug r x slugs q) [
          | inl same ↦ subst P same h
          | inr older ↦ k t x older
        ])
        found

  pub targets-All :
      (environment_map : Dictionary String) (slugs : Dictionary Environment)
      (entries : Dictionary NativeState)
      → ((s : String) (e : Environment) → lookup s slugs ≡ some e → P e)
      → All (λ (t : Target). P t.environment) (filter_map (target_of environment_map slugs) entries)
  targets-All environment_map slugs [] k = tt
  targets-All environment_map slugs ((name, state) ∷ entries) k =
      let rest = targets-All environment_map slugs entries k in
      elim (Option-cases (resolve_environment name environment_map slugs)) [
        | inl missing ↦ rw (missing, All) rest
        | inr (e, found) ↦
            let named = resolve_environment_found name environment_map slugs e found in
            rw (found, All) (k named.0 e named.1, rest)
      ]

pub select-All :
    {A : Type 0} (P : A → Type 0) (p : A → Bool) (xs : List A)
    → All P xs
    → All (λ x. (p x ≡ true) × P x) (select p xs)
select-All P p [] h = tt
select-All P p (x ∷ xs) (h, hs) = elim (Bool-cases (p x)) [
  | inl is_in ↦ rw (is_in, All) ((is_in, h), select-All P p xs hs)
  | inr is_out ↦ rw (is_out, All) (select-All P p xs hs)
]

pub All-select :
    {A : Type 0} (P : A → Type 0) (p : A → Bool) (xs : List A) → All P xs → All P (select p xs)
All-select P p [] h = tt
All-select P p (x ∷ xs) (h, hs) = elim (Bool-cases (p x)) [
  | inl is_in ↦ rw (is_in, All) (h, All-select P p xs hs)
  | inr is_out ↦ rw (is_out, All) (All-select P p xs hs)
]

pub All-both :
    {A : Type 0} (P Q : A → Type 0) (xs : List A) → All P xs → All Q xs → All (λ x. P x × Q x) xs
All-both P Q [] h k = tt
All-both P Q (x ∷ xs) (h, hs) (k, ks) = ((h, k), All-both P Q xs hs ks)
