-- ===== src/Examples/WorkOrders.antt =====
-- A work order with an incident and a template of two tasks.
use fsm_backend.WorkOrders.Listing.{list_item, page_of}
use fsm_backend.WorkOrders.Parsing.{firsts, AreDistinct, parse-listed}
use fsm_backend.WorkOrders.Paging.{HaveDistinctStarts, first_pages-complete, first_pages}
use fsm_backend.WorkOrders.Readiness.{readiness-counts}
use fsm_backend.WorkOrders.TaskLife.{
  after_tasks-IsTimed, set_status, instantiate, after_tasks, TaskRequest, instantiate-instantiate,
}
use fsm_backend.WorkOrders.Stamps.{IsTimed}
use fsm_backend.Prelude.{
  Memᴰ, ◌-◌, ◌==◌, if◌then◌else◌, ◌⊎◌, ◌↔◌, refl, none, some, [], ◌∷◌, All, ℕ, String, ◌≡◌, true,
  arith, split_commas, trim, length, select, ◌<◌, ◌+◌, map, ◌≤◌, ◌*◌,
}
use mathlib.Core.List.{Permᴰ}
use fsm_backend.Memory.{memory}
use fsm_backend.Prisma.{create_all}
use fsm_backend.WorkOrders.Service.{ensure_work_order, ensure_incident}
use fsm_backend.Errors.{Thrown, ok, err}
use fsm_backend.WorkOrders.Types.{
  WorkOrderStatus, WorkOrder, WorkOrderTask, Store, Env, scheduled, completed, draft, normal, todo,
  done, skipped,
}
use fsm_backend.WorkOrders.Filters.{
  Dates, day_of, build_date_range, parse_statuses, unseen, nonempty_parts, read_statuses,
  read_status,
}
use fsm_backend.WorkOrders.Tasks.{
  create_tasks, new_tasks, template_tasks_of, list_tasks, compute_completion_readiness,
  instantiate_work_order_tasks,
}

trim_works : trim "  to do " ≡ "to do"
unfolding trim
trim_works = refl

split_works : split_commas "a,,b" ≡ "a" ∷ "" ∷ "b" ∷ []
unfolding split_commas
split_works = refl

parse_works : parse_statuses (some "DRAFT, SCHEDULED,DRAFT,") ≡ ok (some (draft ∷ scheduled ∷ []))
unfolding parse_statuses nonempty_parts split_commas trim read_statuses read_status unseen
parse_works = refl

parse-listed_example :
    (parse_statuses (some "SCHEDULED,COMPLETED,SCHEDULED")
      ≡ ok (some (firsts (scheduled ∷ completed ∷ scheduled ∷ []))))
    × AreDistinct (firsts (scheduled ∷ completed ∷ scheduled ∷ []))
    × ((t : WorkOrderStatus)
        → Memᴰ t (firsts (scheduled ∷ completed ∷ scheduled ∷ []))
          ↔ Memᴰ t (scheduled ∷ completed ∷ scheduled ∷ []))
parse-listed_example = parse-listed scheduled (completed ∷ scheduled ∷ [])

firsts_works : firsts (scheduled ∷ completed ∷ scheduled ∷ []) ≡ scheduled ∷ completed ∷ []
firsts_works = refl

readiness-counts_example :
    ((compute_completion_readiness (done ∷ todo ∷ skipped ∷ [])).done_count
        + (compute_completion_readiness (done ∷ todo ∷ skipped ∷ [])).skipped_count
        + (compute_completion_readiness (done ∷ todo ∷ skipped ∷ [])).pending
      ≡ (compute_completion_readiness (done ∷ todo ∷ skipped ∷ [])).total)
    × (((compute_completion_readiness (done ∷ todo ∷ skipped ∷ [])).is_ready ≡ true)
        ↔ (0 < length (done ∷ todo ∷ skipped ∷ []))
          × All (λ t. (t ≡ done) ⊎ (t ≡ skipped)) (done ∷ todo ∷ skipped ∷ []))
readiness-counts_example = readiness-counts (done ∷ todo ∷ skipped ∷ [])

-- The runtime's functions on dates, as they are on the second of January 1970.
abbrev dates : Dates
dates = record {
  parse_date = λ text. some 90000000;
  full_year = λ t. 1970;
  month = λ t. 0;
  date = λ t. 2;
  utc = λ y m d. 86400000;
  set_date = λ t d. (d - 1) * 86400000;
}

build_works :
    build_date_range dates (some "1970-01-02T01:00Z")
    ≡ ok (some (record { gte = 86400000; lt = 172800000 }))
unfolding build_date_range day_of
build_works = refl

abbrev work_order : WorkOrder
work_order = record {
  id = "work-order-1";
  org_id = some "org-1";
  customer_id = "customer-1";
  service_location_id = "location-1";
  assigned_technician_id = none;
  status = scheduled;
  priority = normal;
  summary = "Boiler";
  description = none;
  scheduled_start = some 90000000;
  scheduled_end = none;
  actual_start = none;
  actual_end = none;
}

abbrev env : Env
env = record { now = 1000; new_id = "new"; task_id = λ n. if n == 0 then "task-1" else "task-2" }

abbrev store : Store memory
unfolding memory
store = record {
  work_orders = work_order ∷ record work_order { id = "work-order-2"; scheduled_start = none } ∷ [];
  customers = [];
  locations = [];
  technicians = [];
  users = [];
  incidents =
      record {
        id = "incident-1";
        org_id = some "org-1";
        work_order_id = "work-order-1";
        template_id = some "template-1";
        title = "No heat";
        description = none;
        sort_order = 0;
        created_at = 5;
      }
      ∷ [];
  tasks = [];
  notes = [];
  line_items = [];
  templates =
      record { id = "template-1"; org_id = "org-1"; name = "Repair"; description = none } ∷ [];
  template_tasks =
      record {
        id = "t-2";
        template_id = "template-1";
        title = "Test";
        description = none;
        sort_order = 1;
        created_at = 1;
      }
      ∷ record {
        id = "t-1";
        template_id = "template-1";
        title = "Drain";
        description = none;
        sort_order = 0;
        created_at = 2;
      }
      ∷ [];
}

enough : (page_of memory (λ w. true) (λ o. 1) 1 1 store).total ≤ 2 * 1
unfolding memory page_of
enough = omega arith

distinct_starts : HaveDistinctStarts (select (λ w. true) (memory.rows store.work_orders))
unfolding memory
distinct_starts = ((λ e. absurd (cc), tt), (tt, tt))

first_pages-complete_example :
    Permᴰ
      (first_pages memory (λ w. true) (λ n o. n) 1 store 2)
      (map (list_item memory store) (select (λ w. true) (memory.rows store.work_orders)))
first_pages-complete_example =
    first_pages-complete memory (λ w. true) (λ n o. n) 1 store distinct_starts 2 enough

no_tasks : All IsTimed (memory.rows store.tasks)
unfolding memory
no_tasks = tt

abbrev instantiate_here : TaskRequest
instantiate_here = instantiate "work-order-1" "incident-1" none

abbrev finish : TaskRequest
finish = set_status "work-order-1" "task-1" done

after_tasks-IsTimed_example : All IsTimed (
    memory.rows
      (after_tasks memory
        ((env, "org-1", instantiate_here) ∷ (env, "org-1", finish) ∷ [])
        store).tasks)
after_tasks-IsTimed_example =
    after_tasks-IsTimed memory ((env, "org-1", instantiate_here) ∷ (env, "org-1", finish) ∷ [])
      store no_tasks

abbrev new_task_row : String → String → ℕ → WorkOrderTask
new_task_row id title sort_order = record {
  id = id;
  org_id = some "org-1";
  incident_id = "incident-1";
  title = title;
  description = none;
  status = todo;
  sort_order = sort_order;
  completed_at = none;
  created_at = 1000;
}

instantiate_works :
    (instantiate_work_order_tasks memory env "org-1" "work-order-1" "incident-1" none store).0
    ≡ ok (new_task_row "task-1" "Drain" 0 ∷ new_task_row "task-2" "Test" 1 ∷ [])
unfolding memory instantiate_work_order_tasks ensure_work_order ensure_incident create_tasks
    create_all new_tasks template_tasks_of list_tasks
instantiate_works = refl

instantiate-instantiate_example :
    (e : Thrown) × (instantiate_work_order_tasks memory env "org-1" "work-order-1" "incident-1"
        (some "template-2")
        (instantiate_work_order_tasks memory env "org-1" "work-order-1" "incident-1" none store).1
      ≡ (
        err e,
        (instantiate_work_order_tasks memory env "org-1" "work-order-1" "incident-1" none store).1,
      ))
instantiate-instantiate_example =
    instantiate-instantiate memory env env "org-1" "work-order-1" "incident-1" none
      (some "template-2") store (new_task_row "task-1" "Drain" 0)
      (new_task_row "task-2" "Test" 1 ∷ []) instantiate_works
