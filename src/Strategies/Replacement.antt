-- ===== src/Strategies/Replacement.antt =====
-- What `replaceStrategies` of src/modules/strategies/strategy.service.ts leaves in the database.
use flagraft.Prelude.{
  ℕ, suc, Bool, true, none, some, List, [], ◌∷◌, ◌++◌, String, ◌≡◌, refl, sym, ap, subst, ◌∙◌,
  arith, select, remove, all, map, eq_refl, Option-cases, inl, inr, select-append, select-remove,
  select-of_all, remove-append, remove-remove, remove-of_all,
}
use mathlib.Core.List.{append-nil}
use flagraft.Db.{Db, TargetingStrategy, FeatureFlag, Environment}
use flagraft.Db.Find.{flag_at, environment_at}
use flagraft.Outcome.{ok, err, Failure}
use flagraft.Evaluate.Runtime.{Runtime}
use flagraft.Evaluate.Flag.{StrategyDef}
use flagraft.Client.State.{sort_positions}
use flagraft.Strategies.Rules.{Rejection, load_field_rules}
use flagraft.Strategies.Service.{
  StrategyResponse, to_response, belongs_to, list_strategies, new_rows, first_illegal,
  replace_strategies,
}

module _ (fresh : ℕ → String) (flag_id environment_id : String) where
  new_rows-belongs_to :
      (i : ℕ) (ss : List StrategyDef)
      → all (belongs_to flag_id environment_id) (new_rows fresh flag_id environment_id i ss) ≡ true
  unfolding new_rows
  new_rows-belongs_to i [] = refl
  new_rows-belongs_to i (s ∷ ss) =
      ground (arith, eq_refl flag_id, eq_refl environment_id, new_rows-belongs_to (suc i) ss)

  -- The positions rise, so ordering by position changes nothing.
  sort_positions-new_rows :
      (i : ℕ) (ss : List StrategyDef)
      → sort_positions (new_rows fresh flag_id environment_id i ss)
        ≡ new_rows fresh flag_id environment_id i ss
  unfolding sort_positions new_rows
  sort_positions-new_rows i [] = refl
  sort_positions-new_rows i (s ∷ []) = refl
  sort_positions-new_rows i (s ∷ t ∷ ss) =
      rw (sort_positions-new_rows (suc i) (t ∷ ss)) (ground arith)

  -- The table that the transaction leaves.
  abbrev pub replaced : List StrategyDef → List TargetingStrategy → List TargetingStrategy
  replaced ss rows =
      remove (belongs_to flag_id environment_id) rows ++ new_rows fresh flag_id environment_id 0 ss

  select-replaced :
      (ss : List StrategyDef) (rows : List TargetingStrategy)
      → select (belongs_to flag_id environment_id) (replaced ss rows)
        ≡ new_rows fresh flag_id environment_id 0 ss
  select-replaced ss rows = rw (
    select-append (belongs_to flag_id environment_id)
        (remove (belongs_to flag_id environment_id) rows)
        (new_rows fresh flag_id environment_id 0 ss),
    select-remove (belongs_to flag_id environment_id) rows,
    select-of_all (belongs_to flag_id environment_id) (new_rows fresh flag_id environment_id 0 ss)
        (new_rows-belongs_to 0 ss),
  )

  remove-replaced :
      (ss : List StrategyDef) (rows : List TargetingStrategy)
      → remove (belongs_to flag_id environment_id) (replaced ss rows)
        ≡ remove (belongs_to flag_id environment_id) rows
  remove-replaced ss rows =
      rw
        (
          remove-append (belongs_to flag_id environment_id)
              (remove (belongs_to flag_id environment_id) rows)
              (new_rows fresh flag_id environment_id 0 ss),
          remove-remove (belongs_to flag_id environment_id) rows,
          remove-of_all (belongs_to flag_id environment_id)
              (new_rows fresh flag_id environment_id 0 ss) (new_rows-belongs_to 0 ss),
        )
        (append-nil _)

module _ (rt : Runtime) (safe_regex : String → Bool) (fresh : ℕ → String)
    (text : Rejection → String) (project_id flag_key slug : String) (ss : List StrategyDef)
    (db : Db) where
  -- The state in which a call ends that finds its flag and environment and nothing to refuse.
  replace_found :
      (f : FeatureFlag) (e : Environment)
      → flag_at db project_id flag_key ≡ some f
      → environment_at db project_id slug ≡ some e
      → first_illegal rt safe_regex (load_field_rules db project_id) ss ≡ none
      → replace_strategies rt safe_regex fresh text project_id flag_key slug ss db ≡ (
        ok (map to_response (new_rows fresh f.id e.id 0 ss)),
        record db { targeting_strategies = replaced fresh f.id e.id ss db.targeting_strategies },
      )
  unfolding replace_strategies
  replace_found f e hf he hi = rw (hf, he, hi)

module _ (project_id flag_key slug : String) (db : Db) where
  list_found :
      (f : FeatureFlag) (e : Environment) (rows : List TargetingStrategy)
      → flag_at db project_id flag_key ≡ some f
      → environment_at db project_id slug ≡ some e
      → list_strategies project_id flag_key slug (record db { targeting_strategies = rows }) ≡ (
        ok (map to_response (sort_positions (select (belongs_to f.id e.id) rows))),
        record db { targeting_strategies = rows },
      )
  unfolding list_strategies
  list_found f e rows hf he = rw (hf, he)

-- The numbers from `i` on, one for each.
abbrev pub numbers : {A : Type 0} → ℕ → List A → List ℕ
numbers i [] = []
numbers i (x ∷ xs) = i ∷ numbers (suc i) xs

position-new_rows :
    (fresh : ℕ → String) (f e : String) (i : ℕ) (ss : List StrategyDef)
    → map (λ (r : TargetingStrategy). r.position) (new_rows fresh f e i ss) ≡ numbers i ss
unfolding new_rows
position-new_rows fresh f e i [] = refl
position-new_rows fresh f e i (s ∷ ss) =
    ap (λ rest. i ∷ rest) (position-new_rows fresh f e (suc i) ss)

row_constraints-new_rows :
    (fresh : ℕ → String) (f e : String) (i : ℕ) (ss : List StrategyDef)
    → map (λ (r : TargetingStrategy). r.constraints) (new_rows fresh f e i ss)
      ≡ map (λ (s : StrategyDef). s.constraints) ss
unfolding new_rows
row_constraints-new_rows fresh f e i [] = refl
row_constraints-new_rows fresh f e i (s ∷ ss) =
    ap (λ rest. s.constraints ∷ rest) (row_constraints-new_rows fresh f e (suc i) ss)

constraints-new_rows :
    (fresh : ℕ → String) (f e : String) (i : ℕ) (ss : List StrategyDef)
    → map (λ (r : StrategyResponse). r.constraints) (map to_response (new_rows fresh f e i ss))
      ≡ map (λ (s : StrategyDef). s.constraints) ss
unfolding new_rows to_response
constraints-new_rows fresh f e i [] = refl
constraints-new_rows fresh f e i (s ∷ ss) =
    ap (λ rest. s.constraints ∷ rest) (constraints-new_rows fresh f e (suc i) ss)

module _ (project_id flag_key slug : String) (ss : List StrategyDef) (db : Db) where
  -- What a successful replacement with answer `rs` and final state `db'` has to satisfy.
  pub record IsReplaced (rs : List StrategyResponse) (db' : Db) : Type 0 where
    -- Listing afterwards gives the same answer.
    pub listed : list_strategies project_id flag_key slug db' ≡ (ok rs, db')
    -- The answer has the constraints of the request, in the request's order.
    pub in_order :
        map (λ (r : StrategyResponse). r.constraints) rs
        ≡ map (λ (s : StrategyDef). s.constraints) ss
    -- The rows of the flag and environment have the request's constraints and the positions from 0
    -- on, without a tie, so that ordering by position has one result.
    pub placed :
        (f : FeatureFlag) (e : Environment)
        → flag_at db project_id flag_key ≡ some f
        → environment_at db project_id slug ≡ some e
        → (map
              (λ (r : TargetingStrategy). r.position)
              (select (belongs_to f.id e.id) db'.targeting_strategies)
            ≡ numbers 0 ss)
          × (map
                (λ (r : TargetingStrategy). r.constraints)
                (select (belongs_to f.id e.id) db'.targeting_strategies)
              ≡ map (λ (s : StrategyDef). s.constraints) ss)
    -- Only the strategy table changes,
    pub one_table : db' ≡ record db { targeting_strategies = db'.targeting_strategies }
    -- and there only rows of the flag and environment that are named.
    pub other_rows :
        (f : FeatureFlag) (e : Environment)
        → flag_at db project_id flag_key ≡ some f
        → environment_at db project_id slug ≡ some e
        → remove (belongs_to f.id e.id) db'.targeting_strategies
          ≡ remove (belongs_to f.id e.id) db.targeting_strategies

  replaced-IsReplaced :
      (fresh : ℕ → String) (f : FeatureFlag) (e : Environment)
      → flag_at db project_id flag_key ≡ some f
      → environment_at db project_id slug ≡ some e
      → IsReplaced
          (map to_response (new_rows fresh f.id e.id 0 ss))
          (record db { targeting_strategies = replaced fresh f.id e.id ss db.targeting_strategies })
  replaced-IsReplaced fresh f e hf he = record {
    listed = rw (
      list_found project_id flag_key slug db f e _ hf he,
      select-replaced fresh f.id e.id ss db.targeting_strategies,
      sort_positions-new_rows fresh f.id e.id 0 ss,
    );
    in_order = constraints-new_rows fresh f.id e.id 0 ss;
    placed = λ f' e' hf' he'.
        let same_flag : f ≡ f' = ground arith in
        let same_environment : e ≡ e' = ground arith in
        let rows =
          ap
            (λ (g : FeatureFlag).
              select (belongs_to g.id e'.id) (replaced fresh f.id e.id ss db.targeting_strategies))
            (sym same_flag)
          ∙ (ap
                (λ (g : Environment).
                  select (belongs_to f.id g.id)
                    (replaced fresh f.id e.id ss db.targeting_strategies))
                (sym same_environment)
              ∙ select-replaced fresh f.id e.id ss db.targeting_strategies) in
        (
          ap (map (λ (r : TargetingStrategy). r.position)) rows
              ∙ position-new_rows fresh f.id e.id 0 ss,
          ap (map (λ (r : TargetingStrategy). r.constraints)) rows
              ∙ row_constraints-new_rows fresh f.id e.id 0 ss,
        );
    one_table = refl;
    other_rows = λ f' e' hf' he'.
        let same_flag : f ≡ f' = ground arith in
        let same_environment : e ≡ e' = ground arith in
        subst
          (λ (g : FeatureFlag).
            remove (belongs_to g.id e'.id) (replaced fresh f.id e.id ss db.targeting_strategies)
            ≡ remove (belongs_to g.id e'.id) db.targeting_strategies)
          same_flag
          (subst
            (λ (g : Environment).
              remove (belongs_to f.id g.id) (replaced fresh f.id e.id ss db.targeting_strategies)
              ≡ remove (belongs_to f.id g.id) db.targeting_strategies)
            same_environment (remove-replaced fresh f.id e.id ss db.targeting_strategies));
  }

-- A replacement that succeeds changes the strategy table alone, and there only rows of the flag
-- and environment that it names, which get the positions from 0 on; its answer has the constraints of the request in the request's
-- order, and listing the strategies afterwards gives the same answer.
pub replace_strategies-IsReplaced :
    (rt : Runtime) (safe_regex : String → Bool) (fresh : ℕ → String) (text : Rejection → String)
    (project_id flag_key slug : String) (ss : List StrategyDef) (db db' : Db)
    (rs : List StrategyResponse)
    → replace_strategies rt safe_regex fresh text project_id flag_key slug ss db ≡ (ok rs, db')
    → IsReplaced project_id flag_key slug ss db rs db'
replace_strategies-IsReplaced rt safe_regex fresh text project_id flag_key slug ss db db' rs h =
    elim (Option-cases (flag_at db project_id flag_key)) [
      | inl nf ↦ unfold replace_strategies in ground arith
      | inr (f, hf) ↦ elim (Option-cases (environment_at db project_id slug)) [
        | inl ne ↦ unfold replace_strategies in ground arith
        | inr (e, he) ↦
            elim (Option-cases (first_illegal rt safe_regex (load_field_rules db project_id) ss)) [
              | inr (r, bad) ↦ unfold replace_strategies in ground arith
              | inl legal ↦
                  let result =
                    sym (
                      replace_found rt safe_regex fresh text project_id flag_key slug ss db f e hf
                        he legal)
                    ∙ h in
                  let same_state = ap (λ r. r.1) result in
                  let same_answer : map to_response (new_rows fresh f.id e.id 0 ss) ≡ rs =
                    ground (arith, ap (λ r. r.0) result) in
                  subst (λ d. IsReplaced project_id flag_key slug ss db rs d) same_state
                    (subst
                      (λ r. IsReplaced project_id flag_key slug ss db r (record db {
                        targeting_strategies = replaced fresh f.id e.id ss db.targeting_strategies;
                      }))
                      same_answer
                      (replaced-IsReplaced project_id flag_key slug ss db fresh f e hf he))
            ]
      ]
    ]

-- The failing branches, one by one.
failure_cases :
    (rt : Runtime) (safe_regex : String → Bool) (fresh : ℕ → String) (text : Rejection → String)
    (project_id flag_key slug : String) (ss : List StrategyDef) (db db' : Db) (e : Failure)
    → replace_strategies rt safe_regex fresh text project_id flag_key slug ss db ≡ (err e, db')
    → db' ≡ db
unfolding replace_strategies
failure_cases rt safe_regex fresh text project_id flag_key slug ss db db' e h =
    elim (Option-cases (flag_at db project_id flag_key)) [
      | inl nf ↦ ground arith
      | inr (f, hf) ↦ elim (Option-cases (environment_at db project_id slug)) [
        | inl ne ↦ ground arith
        | inr (en, he) ↦
            elim (Option-cases (first_illegal rt safe_regex (load_field_rules db project_id) ss)) [
              | inl ok_all ↦ ground arith
              | inr (r, bad) ↦ ground arith
            ]
      ]
    ]

-- A replacement that fails changes nothing.
pub replace_strategies_failure :
    (rt : Runtime) (safe_regex : String → Bool) (fresh : ℕ → String) (text : Rejection → String)
    (project_id flag_key slug : String) (ss : List StrategyDef) (db : Db) (e : Failure)
    → (replace_strategies rt safe_regex fresh text project_id flag_key slug ss db).0 ≡ err e
    → (replace_strategies rt safe_regex fresh text project_id flag_key slug ss db).1 ≡ db
replace_strategies_failure rt safe_regex fresh text project_id flag_key slug ss db e h =
    let left = (replace_strategies rt safe_regex fresh text project_id flag_key slug ss db).1 in
    failure_cases rt safe_regex fresh text project_id flag_key slug ss db left e
      (ap (λ r. (r, left)) h)
