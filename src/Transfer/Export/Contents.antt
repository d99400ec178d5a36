-- ===== src/Transfer/Export/Contents.antt =====
-- What the two loops of `exportProject` in src/modules/transfer/transfer.service.ts leave under a
-- slug of a flag's environments.
use flagraft.Prelude.{
  Bool, true, false, not, ◌&&◌, Option, none, some, List, [], ◌∷◌, ◌++◌, String, ◌≡◌, ◌==◌, refl,
  ap, arith, all, select, map, Bool-cases, Option-cases, inl, inr, eq_iff, eq_refl, if◌then◌else◌,
  sym, ◌∙◌,
}
use flagraft.Outcome.{Result, ok, err, Failure, type_error}
use flagraft.Evaluate.Constraint.{list_includes}
use flagraft.Evaluate.Flag.{Dictionary, StrategyDef, lookup, inherited_names, is_plain}
use flagraft.Client.State.{assign}
use flagraft.Transfer.Document.{NativeState}
use flagraft.Transfer.Import.Targets.{lookup-assign_ne}
use flagraft.Transfer.Export.{StateRow, StrategyRow, set_exported, push_row, push_rows}

abbrev pub has_plain_slug : StrategyRow → Bool
has_plain_slug row = is_plain row.slug

-- The state of the last row of a flag and a slug.
abbrev pub state_at : String → String → List StateRow → Option NativeState → Option NativeState
state_at flag_id slug [] before = before
state_at flag_id slug (row ∷ rows) before = state_at flag_id slug rows (
    if row.flag_id == flag_id && row.slug == slug
    then some (record { enabled = row.enabled; strategies = [] })
    else before)

abbrev pub strategies_at : String → String → List StrategyRow → List StrategyDef
strategies_at flag_id slug rows =
    map (λ (row : StrategyRow). record { constraints = row.constraints })
      (select (λ row. row.flag_id == flag_id && row.slug == slug) rows)

abbrev pub grown : List StrategyDef → Option NativeState → Option NativeState
grown defs none = none
grown defs (some state) = some (record state { strategies = state.strategies ++ defs })

lookup-assign :
    {V : Type 0} (k : String) (v : V) (d : Dictionary V) → lookup k (assign k v d) ≡ some v
unfolding lookup assign
lookup-assign k v [] = ground (arith, eq_refl k)
lookup-assign k v ((l, w) ∷ d) = ground (arith, eq_refl k, lookup-assign k v d)

lookup-assign_if :
    {V : Type 0} (slug k : String) (v : V) (d : Dictionary V)
    → lookup slug (assign k v d) ≡ (if k == slug then some v else lookup slug d)
lookup-assign_if slug k v d = elim (Bool-cases (k == slug)) [
  | inl same ↦ rw (same, sym ((eq_iff k slug).0 same)) (lookup-assign k v d)
  | inr other ↦ rw (other) (lookup-assign_ne slug k v d other)
]

pub lookup-set_exported :
    (flag_id slug : String) (rows : List StateRow) (envs : Dictionary NativeState)
    → lookup slug (set_exported flag_id rows envs) ≡ state_at flag_id slug rows (lookup slug envs)
unfolding set_exported
lookup-set_exported flag_id slug [] envs = refl
lookup-set_exported flag_id slug (row ∷ rows) envs =
    let new = assign row.slug (record { enabled = row.enabled; strategies = [] }) envs in
    elim (Bool-cases (row.flag_id == flag_id)) [
      | inr other ↦ rw (set_exported, other) (lookup-set_exported flag_id slug rows envs)
      | inl same ↦
          rw (set_exported, same)
            (lookup-set_exported flag_id slug rows new
              ∙ ap (state_at flag_id slug rows) (lookup-assign_if slug row.slug _ envs))
    ]

append_nil : {A : Type 0} (xs : List A) → xs ++ [] ≡ xs
append_nil [] = refl
append_nil (x ∷ xs) = ap (λ r. x ∷ r) (append_nil xs)

append_assoc : {A : Type 0} (xs ys zs : List A) → (xs ++ ys) ++ zs ≡ xs ++ (ys ++ zs)
append_assoc [] ys zs = refl
append_assoc (x ∷ xs) ys zs = ap (λ r. x ∷ r) (append_assoc xs ys zs)

grown_nil : (o : Option NativeState) → grown [] o ≡ o
grown_nil none = refl
grown_nil (some s) = ap (λ l. some (record s { strategies = l })) (append_nil s.strategies)

grown-grown :
    (ds es : List StrategyDef) (o : Option NativeState) → grown es (grown ds o) ≡ grown (ds ++ es) o
grown-grown ds es none = refl
grown-grown ds es (some s) =
    ap (λ l. some (record s { strategies = l })) (append_assoc s.strategies ds es)

-- A result under a slug.
abbrev pub Holds : String → Option NativeState → Result (Dictionary NativeState) → Type 0
Holds slug o r = (out : Dictionary NativeState) × ((r ≡ ok out) × (lookup slug out ≡ o))

unless-Holds :
    (b : Bool) (e : Failure) (slug : String) (envs : Dictionary NativeState)
    → not b ≡ true
    → Holds slug (lookup slug envs) (if b then err e else ok envs)
unless-Holds true e slug envs h = cc
unless-Holds false e slug envs h = (envs, (refl, refl))

abbrev row_def : String → StrategyRow → List StrategyDef
row_def slug row = if row.slug == slug then record { constraints = row.constraints } ∷ [] else []

-- The slug of a row that is asked for finds what the row's slug finds.
found_as :
    (slug k : String) (envs : Dictionary NativeState) (o : Option NativeState)
    → (k == slug) ≡ true
    → lookup k envs ≡ o
    → lookup slug envs ≡ o
found_as slug k envs o same e = ap (λ s. lookup s envs) (sym ((eq_iff k slug).0 same)) ∙ e

missing_row :
    (slug : String) (row : StrategyRow) (envs : Dictionary NativeState)
    → lookup row.slug envs ≡ none
    → grown (row_def slug row) (lookup slug envs) ≡ lookup slug envs
missing_row slug row envs e = elim (Bool-cases (row.slug == slug)) [
  | inl same ↦ rw (found_as slug row.slug envs none same e) refl
  | inr other ↦ rw (other) (grown_nil (lookup slug envs))
]

pushed_row :
    (slug : String) (row : StrategyRow) (envs : Dictionary NativeState) (state : NativeState)
    → lookup row.slug envs ≡ some state
    → lookup slug (
        assign row.slug
          (record state {
            strategies = state.strategies ++ (record { constraints = row.constraints } ∷ []);
          })
          envs)
      ≡ grown (row_def slug row) (lookup slug envs)
pushed_row slug row envs state e =
    lookup-assign_if slug row.slug _ envs ∙ elim (Bool-cases (row.slug == slug)) [
      | inl same ↦ rw (same, found_as slug row.slug envs (some state) same e) refl
      | inr other ↦ rw (other) (sym (grown_nil (lookup slug envs)))
    ]

push_row-Holds :
    (slug : String) (row : StrategyRow) (envs : Dictionary NativeState)
    → has_plain_slug row ≡ true
    → Holds slug (grown (row_def slug row) (lookup slug envs)) (push_row row envs)
unfolding push_row is_plain
push_row-Holds slug row envs plain = elim (Option-cases (lookup row.slug envs)) [
  | inl e ↦
      rw (push_row, e, missing_row slug row envs e)
        (unless-Holds (list_includes inherited_names row.slug) type_error slug envs plain)
  | inr (state, e) ↦ (_, (rw (push_row, e) refl, pushed_row slug row envs state e))
]

strategies_at_row :
    (flag_id slug : String) (row : StrategyRow) (rows : List StrategyRow)
    → (row.flag_id == flag_id) ≡ true
    → strategies_at flag_id slug (row ∷ rows) ≡ row_def slug row ++ strategies_at flag_id slug rows
strategies_at_row flag_id slug row rows same = elim (Bool-cases (row.slug == slug)) [
  | inl here ↦ rw (same, here) refl
  | inr other ↦ rw (same, other) refl
]

pub push_rows-Holds :
    (flag_id slug : String) (rows : List StrategyRow) (envs : Dictionary NativeState)
    → all has_plain_slug rows ≡ true
    → Holds slug
        (grown (strategies_at flag_id slug rows) (lookup slug envs))
        (push_rows flag_id rows envs)
unfolding push_rows
push_rows-Holds flag_id slug [] envs plain = (envs, (refl, sym (grown_nil (lookup slug envs))))
push_rows-Holds flag_id slug (row ∷ rows) envs plain = elim (Bool-cases (row.flag_id == flag_id)) [
  | inr other ↦ rw (push_rows, other) (push_rows-Holds flag_id slug rows envs (ground arith))
  | inl same ↦
      let first = push_row-Holds slug row envs (ground arith) in
      let rest = push_rows-Holds flag_id slug rows first.0 (ground arith) in
      (
        rest.0,
        (
          rw (push_rows, same, first.1.0) rest.1.0,
          rest.1.1
              ∙ ap (grown (strategies_at flag_id slug rows)) first.1.1
              ∙ grown-grown (row_def slug row) (strategies_at flag_id slug rows) (lookup slug envs)
              ∙ ap (λ ds. grown ds (lookup slug envs))
                  (sym (strategies_at_row flag_id slug row rows same)),
        ),
      )
]
