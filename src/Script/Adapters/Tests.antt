-- ===== src/Script/Adapters/Tests.antt =====
-- Instances of the laws of adapters and of the tasks of scripts.
use Prim.Native.String.{String}
use package.text.Mathlib.TextEquality.{eq_iff}
use otservpp.Base.{ℕ, suc, ◌≡◌, ◌≢◌, ◌↔◌, refl, [], ◌∷◌, some, arith}
use otservpp.Script.Adapters.{Adapter, global_instance_adapter, static_inserts}
use otservpp.Script.Adapters.Laws.{IsDistinct, static_inserts-registered}

abbrev State : Type 0
State = ℕ × ℕ

abbrev task : Adapter State
task = record { adaptee = "Task"; apply = λ s. (suc s.0, s.1) }

abbrev scheduler : Adapter State
scheduler = record { adaptee = "Scheduler_G-callAfter"; apply = λ s. (s.0, suc s.1) }

scheduler_name :
    global_instance_adapter {S = State} "Scheduler" "callAfter" (λ s. (s.0, suc s.1)) ≡ scheduler
unfolding global_instance_adapter
scheduler_name = refl

task_not_scheduler : ◌≢◌ {A = String} "Task" "Scheduler_G-callAfter"
task_not_scheduler = ground (arith, eq_iff "Task" "Scheduler_G-callAfter")

distinct : IsDistinct (task ∷ scheduler ∷ [])
distinct n = ground (arith, eq_iff n "Task", eq_iff n "Scheduler_G-callAfter", task_not_scheduler)

static_inserts-registered_example :
    (static_inserts (task ∷ scheduler ∷ []) [] ≡ some (task ∷ scheduler ∷ []))
    ↔ (IsDistinct (task ∷ scheduler ∷ []) × (task ∷ scheduler ∷ [] ≡ task ∷ scheduler ∷ []))
static_inserts-registered_example =
    static_inserts-registered (task ∷ scheduler ∷ []) (task ∷ scheduler ∷ [])
