-- ===== src/Transfer/Export/Complete.antt =====
-- The whole of `exportProject` of src/modules/transfer/transfer.service.ts.
use flagraft.Prelude.{Bool, Option, none, List, [], String, ◌≡◌, any, ◌&&◌, map, ◌==◌}
use flagraft.Db.{Db, Environment, FeatureFlag, TargetingStrategy}
use flagraft.Outcome.{Result, ok}
use flagraft.Evaluate.Flag.{lookup, is_plain}
use flagraft.Transfer.Document.{NativeState, NativeFlag}
use flagraft.Transfer.Export.Rows.{is_asked, joined, IsOrdered}
use flagraft.Transfer.Export.Contents.{state_at, strategies_at, grown}
use flagraft.Transfer.Export.{
  StateRow, StrategyRow, strategy_row, state_rows, strategy_rows, ExportEnvelope,
}

abbrev has_plain : Environment → Bool
has_plain e = is_plain e.slug

-- What an export has under a slug of a flag: the state of the flag's row there, with the
-- constraints of its strategies there in their order.
abbrev pub expected : String → List StateRow → List StrategyRow → FeatureFlag → Option NativeState
expected slug states strategies f =
    grown (strategies_at f.id slug strategies) (state_at f.id slug states none)

-- A flag by its texts, and what it has under a slug.
abbrev pub View : Type 0
View = String × (String × (Option String × Option NativeState))

abbrev pub written : String → NativeFlag → View
written slug f = (f.key, (f.name, (f.description, lookup slug f.environments)))

abbrev pub stored : String → List StateRow → List StrategyRow → FeatureFlag → View
stored slug states strategies f =
    (f.key, (f.name, (f.description, expected slug states strategies f)))

-- The result of an export is a document without warnings, with the flags of a list.
abbrev pub IsComplete : String → Db → List FeatureFlag → Result ExportEnvelope → Type 0
IsComplete slug db flags r =
    (out : ExportEnvelope) × ((r ≡ ok out)
      × ((out.warnings ≡ [])
          × (map (written slug) out.document.flags
              ≡ map (stored slug (state_rows flags db) (strategy_rows flags db)) flags)))

-- The flags that were asked for are those of a list, and its strategies stand in order: a test holds
-- of one of the flags just where it holds of a row that was asked for, and of one of the strategies
-- just where it holds of a row of one of the flags, with the slug of its environment.
abbrev pub IsChosen :
    String
    → List String
    → Db
    → (FeatureFlag → Bool)
    → (StrategyRow → Bool)
    → List FeatureFlag
    → Type 0
IsChosen project_id keys db q r flags =
    (any q flags ≡ any (λ f. is_asked project_id keys f && q f) db.feature_flags)
    × (IsOrdered (strategy_rows flags db)
        × (any r (strategy_rows flags db)
            ≡ any
                (λ (row : TargetingStrategy).
                  any (λ (f : FeatureFlag). f.id == row.flag_id) flags
                  && joined (strategy_row db) r row)
                db.targeting_strategies))
