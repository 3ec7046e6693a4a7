-- ===== src/Progress/Removal/Examples.antt =====
-- Tests of the removal of items, and its theorem at one of them.
use fast_task.Base.{true, none, ◌≡◌, refl, [], ◌∷◌, ◌*◌, pos}
use fast_task.Jobs.Model.{ok, err, err_revision}
use fast_task.Plans.Model.{DailyPlan, DailyPlanItem}
use fast_task.Progress.Fixtures.{second, env, today, item, db_with}
use fast_task.Progress.Removal.{
  PlanItemDeletion, PlanItemDeletionResult, Tools, Store, Selection, delete_plan_items,
}
use fast_task.Progress.Removal.Selected.{IsSelected}
use fast_task.Progress.Removal.Remains.{IsThinned, delete_plan_items-IsThinned}

abbrev tools : Tools
tools = record {
  zone_name = λ zone. zone;
  revision_id = "r1";
  item_sources = λ db items. ok [];
  input_text = λ expected ids removed sources. "input";
  items_text = λ items. "items";
  number_text = λ n. "2";
  ids_text = λ ids. "ids";
  hash = λ text. text;
}

abbrev other : DailyPlanItem
other = record (item "planned") { id = "j"; position = pos 2 }

abbrev desk : Store
desk = (record (db_with "planned" []) { items = other ∷ item "planned" ∷ [] }, [])

abbrev kept : DailyPlanItem
kept = record other { plan_revision = pos 2 }

abbrev thin : DailyPlan
thin = record today {
  current_revision = pos 2;
  revision = pos 2;
  manual_items_removed = true;
  updated_at = 1000 * second;
}

abbrev cleared : Store
cleared = (
  record (db_with "planned" []) {
    items = kept ∷ item "planned" ∷ [];
    plans = thin ∷ [];
    outbox =
        record {
          id = "o1";
          user_id = "ann";
          event_type = "daily_plan.items_deleted";
          payload_json = "{}";
          status = "pending";
          attempts = 0;
          created_at = 1000 * second;
          processed_at = none;
        }
        ∷ [];
  },
  record {
    id = "r1";
    plan_id = "p";
    revision = pos 2;
    input_snapshot = "input";
    input_hash = "input";
    plan_snapshot = "items";
    reason = "manual item deletion";
    created_at = 1000 * second;
  }
      ∷ [],
)

abbrev outcome : PlanItemDeletionResult
outcome = record { plan = thin; items = kept ∷ []; deleted_ids = "i" ∷ [] }

abbrev choice : PlanItemDeletion
choice = record { id = "i"; revision = pos 1 }

removes : delete_plan_items env tools "ann" "p" (pos 1) (choice ∷ []) desk ≡ ok (cleared, outcome)
unfolding delete_plan_items fast_task.Base.trim_space
removes = refl

refuses_stale :
    delete_plan_items env tools "ann" "p" (pos 1) (record choice { revision = pos 2 } ∷ []) desk
    ≡ err err_revision
unfolding delete_plan_items fast_task.Base.trim_space
refuses_stale = refl

delete_plan_items-IsThinned_example :
    (s : Selection) × IsSelected "ann" "p" (pos 1) (choice ∷ []) desk.0 s
    × IsThinned env "ann" (pos 1) s desk.0 cleared.0 outcome
delete_plan_items-IsThinned_example =
    delete_plan_items-IsThinned env tools "ann" "p" (pos 1) (choice ∷ []) desk cleared outcome
      removes
