-- ===== src/Transfer/Export/Rows.antt =====
-- The rows that `exportProject` of src/modules/transfer/transfer.service.ts reads: which, and in what
-- order.
use Prim.Native.Nat.{Ordering, zero, suc, compare as compare_ℕ}
use Prim.Native.Char.{code}
use Prim.Native.String
use Prim.Native.String.compare as compare_text
use Prim.Native.Nat.compare as compare_nat
use text.Mathlib.Text.{is_eq}
use flagraft.Prelude.{
  ℕ, Bool, true, false, not, ◌&&◌, ◌||◌, Option, none, some, List, [], ◌∷◌, ◌==◌, ◌≡◌, refl, ap,
  sym, ◌∙◌, arith, any, select, filter_map, leb, Bool-cases, Option-cases, inl, inr,
}
use flagraft.Evaluate.Constraint.{list_includes}
use flagraft.Client.State.{text_le}
use flagraft.Db.{Db, FeatureFlag, TargetingStrategy}
use flagraft.Transfer.Export.{
  insert_row, order_by, StrategyRow, strategy_row, is_of_one, is_wanted, exported_flags, row_le,
  strategy_rows,
}

abbrev flip : Ordering → Ordering
flip Ordering.lt = Ordering.gt
flip Ordering.eq = Ordering.eq
flip Ordering.gt = Ordering.lt

flip-then : (o r : Ordering) → String.then (flip o) (flip r) ≡ flip (String.then o r)
flip-then Ordering.lt r = refl
flip-then Ordering.eq r = refl
flip-then Ordering.gt r = refl

compare_ℕ-flip : (m n : ℕ) → compare_ℕ n m ≡ flip (compare_ℕ m n)
compare_ℕ-flip zero zero = rw compare_nat.zero-zero refl
compare_ℕ-flip zero (suc n) = rw (compare_nat.zero-suc n, compare_nat.suc-zero n) refl
compare_ℕ-flip (suc m) zero = rw (compare_nat.suc-zero m, compare_nat.zero-suc m) refl
compare_ℕ-flip (suc m) (suc n) =
    rw (compare_nat.suc-suc n m, compare_nat.suc-suc m n) (compare_ℕ-flip m n)

compare-flip : (s t : String.String) → String.compare t s ≡ flip (String.compare s t)
compare-flip String.[] String.[] = rw compare_text.nil-nil refl
compare-flip String.[] (String.◌∷◌ d t) =
    rw (compare_text.nil-cons d t, compare_text.cons-nil d t) refl
compare-flip (String.◌∷◌ c s) String.[] =
    rw (compare_text.nil-cons c s, compare_text.cons-nil c s) refl
compare-flip (String.◌∷◌ c s) (String.◌∷◌ d t) =
    rw
      (
        compare_text.cons-cons d c t s,
        compare_text.cons-cons c d s t,
        compare_ℕ-flip (code c) (code d),
        compare-flip s t,
      )
      (flip-then (compare_ℕ (code c) (code d)) (String.compare s t))

abbrev is_le : Ordering → Bool
is_le o = elim o [ Ordering.gt ↦ false | _ ↦ true ]

is_le-flip : (o : Ordering) → is_le o ≡ false → is_le (flip o) ≡ true
is_le-flip Ordering.lt h = cc
is_le-flip Ordering.eq h = refl
is_le-flip Ordering.gt h = refl

is_le_of_eq : (o : Ordering) → is_eq o ≡ true → is_le o ≡ true
is_le_of_eq Ordering.lt h = cc
is_le_of_eq Ordering.eq h = refl
is_le_of_eq Ordering.gt h = cc

is_eq-flip : (o : Ordering) → is_eq (flip o) ≡ is_eq o
is_eq-flip Ordering.lt = refl
is_eq-flip Ordering.eq = refl
is_eq-flip Ordering.gt = refl

text_le_of_eq : (s t : String.String) → (s == t) ≡ true → text_le s t ≡ true
text_le_of_eq s t h = is_le_of_eq (String.compare s t) h

eq-flip : (s t : String.String) → (t == s) ≡ (s == t)
eq-flip s t = rw (compare-flip s t) (is_eq-flip (String.compare s t))

text_le_total : (s t : String.String) → text_le s t ≡ false → text_le t s ≡ true
text_le_total s t h = rw (text_le, compare-flip s t) (is_le-flip (String.compare s t) h)

-- Rows that an export lists one behind the other: by slug, and within a slug by position.
abbrev pub in_order : StrategyRow → StrategyRow → Bool
in_order r s = text_le r.slug s.slug && (not (r.slug == s.slug) || leb r.position s.position)

abbrev pub IsOrdered : List StrategyRow → Type 0
IsOrdered [] = Unit
IsOrdered (r ∷ []) = Unit
IsOrdered (r ∷ s ∷ rows) = (in_order r s ≡ true) × IsOrdered (s ∷ rows)

leb_total : (m n : ℕ) → leb m n ≡ false → leb n m ≡ true
leb_total m n h = ground arith

in_order_of :
    (same below left : Bool)
    → below ≡ true
    → (same ≡ true → left ≡ true)
    → (below && (not same || left)) ≡ true
in_order_of true below left h k = ground (arith, h, k refl)
in_order_of false below left h k = ground (arith, h)

row_le_sound : (r s : StrategyRow) → row_le r s ≡ true → in_order r s ≡ true
unfolding row_le
row_le_sound r s h = elim (Bool-cases (r.slug == s.slug)) [
  | inl same ↦
      in_order_of (r.slug == s.slug) (text_le r.slug s.slug) (leb r.position s.position)
        (text_le_of_eq r.slug s.slug same) (λ e. rw (row_le, same) at h)
  | inr other ↦
      in_order_of (r.slug == s.slug) (text_le r.slug s.slug) (leb r.position s.position)
        (rw (row_le, other) at h) (λ e. cc)
]

row_le_total : (r s : StrategyRow) → row_le r s ≡ false → in_order s r ≡ true
unfolding row_le
row_le_total r s h = elim (Bool-cases (r.slug == s.slug)) [
  | inl same ↦
      in_order_of (s.slug == r.slug) (text_le s.slug r.slug) (leb s.position r.position)
        (text_le_of_eq s.slug r.slug (eq-flip r.slug s.slug ∙ same))
        (λ e. leb_total r.position s.position (rw (row_le, same) at h))
  | inr other ↦
      in_order_of (s.slug == r.slug) (text_le s.slug r.slug) (leb s.position r.position)
        (text_le_total r.slug s.slug (rw (row_le, other) at h))
        (λ e. cc (sym (eq-flip r.slug s.slug) ∙ e, other))
]

insert_row-IsOrdered :
    (r : StrategyRow) (rows : List StrategyRow)
    → IsOrdered rows
    → IsOrdered (insert_row row_le r rows)
unfolding insert_row
insert_row-IsOrdered r [] h = tt
insert_row-IsOrdered r (s ∷ []) h = elim (Bool-cases (row_le r s)) [
  | inl e ↦ rw (insert_row, e) (row_le_sound r s e, tt)
  | inr e ↦ rw (insert_row, e) (row_le_total r s e, tt)
]
insert_row-IsOrdered r (s ∷ t ∷ rows) (h, hs) = elim (Bool-cases (row_le r s)) [
  | inl e ↦ rw (insert_row, e) (row_le_sound r s e, (h, hs))
  | inr e ↦ elim (Bool-cases (row_le r t)) [
    | inl e' ↦ rw (insert_row, e, e') (row_le_total r s e, (row_le_sound r t e', hs))
    | inr e' ↦
        let rest = insert_row-IsOrdered r (t ∷ rows) hs in
        rw (insert_row, e, e') (h, rw (insert_row, e') at rest)
  ]
]

order_by-IsOrdered : (rows : List StrategyRow) → IsOrdered (order_by row_le rows)
unfolding order_by
order_by-IsOrdered [] = tt
order_by-IsOrdered (r ∷ rows) =
    insert_row-IsOrdered r (order_by row_le rows) (order_by-IsOrdered rows)

module _ {A : Type 0} (le : A → A → Bool) (q : A → Bool) where
  any-insert_row : (a : A) (rows : List A) → any q (insert_row le a rows) ≡ any q (a ∷ rows)
  unfolding insert_row
  any-insert_row a [] = refl
  any-insert_row a (b ∷ rows) = ground (arith, any-insert_row a rows)

  any-order_by : (rows : List A) → any q (order_by le rows) ≡ any q rows
  unfolding order_by
  any-order_by [] = refl
  any-order_by (a ∷ rows) =
      any-insert_row a (order_by le rows) ∙ ap (λ b. q a || b) (any-order_by rows)

any-select :
    {A : Type 0} (p q : A → Bool) (rows : List A)
    → any q (select p rows) ≡ any (λ a. p a && q a) rows
any-select p q [] = refl
any-select p q (a ∷ rows) = ground (arith, any-select p q rows)

abbrev pub joined : {A B : Type 0} → (A → Option B) → (B → Bool) → A → Bool
joined f q a = elim (f a) [ none ↦ false | some b ↦ q b ]

any-filter_map :
    {A B : Type 0} (f : A → Option B) (q : B → Bool) (rows : List A)
    → any q (filter_map f rows) ≡ any (joined f q) rows
any-filter_map f q [] = refl
any-filter_map f q (a ∷ rows) = elim (Option-cases (f a)) [
  | inl e ↦ rw (any, joined, e) (any-filter_map f q rows)
  | inr (b, e) ↦ rw (any, joined, e) (ap (λ x. q b || x) (any-filter_map f q rows))
]

-- A flag that the call asks for.
abbrev pub is_asked : String.String → List String.String → FeatureFlag → Bool
is_asked project_id [] f = f.project_id == project_id
is_asked project_id (key ∷ keys) f = f.project_id == project_id && list_includes (key ∷ keys) f.key

any_cong :
    {A : Type 0} (p q : A → Bool) (rows : List A) → ((a : A) → p a ≡ q a) → any p rows ≡ any q rows
any_cong p q [] h = refl
any_cong p q (a ∷ rows) h = rw (h a, any_cong p q rows h) refl

is_asked_lem :
    (project_id : String.String) (keys : List String.String) (f : FeatureFlag)
    → (f.project_id == project_id && is_wanted keys f) ≡ is_asked project_id keys f
unfolding is_wanted
is_asked_lem project_id [] f = ground arith
is_asked_lem project_id (key ∷ keys) f = refl

pub any-exported_flags :
    (project_id : String.String) (keys : List String.String) (db : Db) (q : FeatureFlag → Bool)
    → any q (exported_flags project_id keys db)
      ≡ any (λ f. is_asked project_id keys f && q f) db.feature_flags
unfolding exported_flags is_wanted
any-exported_flags project_id keys db q =
    let asked = λ (f : FeatureFlag). f.project_id == project_id && is_wanted keys f in
    any-order_by _ q (select asked db.feature_flags)
    ∙ (any-select asked q db.feature_flags
        ∙ any_cong (λ f. asked f && q f) (λ f. is_asked project_id keys f && q f) db.feature_flags
            (λ f. ap (λ b. b && q f) (is_asked_lem project_id keys f)))

pub any-strategy_rows :
    (flags : List FeatureFlag) (db : Db) (q : StrategyRow → Bool)
    → any q (strategy_rows flags db)
      ≡ any
          (λ (row : TargetingStrategy).
            any (λ f. f.id == row.flag_id) flags && joined (strategy_row db) q row)
          db.targeting_strategies
unfolding strategy_rows is_of_one
any-strategy_rows flags db q =
    let own = λ (row : TargetingStrategy). is_of_one flags row.flag_id in
    any-order_by row_le q (filter_map (strategy_row db) (select own db.targeting_strategies))
    ∙ (any-filter_map (strategy_row db) q (select own db.targeting_strategies)
        ∙ any-select own (joined (strategy_row db) q) db.targeting_strategies)

pub strategy_rows-IsOrdered :
    (flags : List FeatureFlag) (db : Db) → IsOrdered (strategy_rows flags db)
unfolding strategy_rows
strategy_rows-IsOrdered flags db = order_by-IsOrdered (
    filter_map (strategy_row db)
      (select (λ (row : TargetingStrategy). is_of_one flags row.flag_id) db.targeting_strategies))
