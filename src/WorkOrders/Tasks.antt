-- ===== src/WorkOrders/Tasks.antt =====
-- Tasks of incidents and the readiness of a work order. modules/work-orders/workOrders.service.ts
use fsm_backend.Prelude.{
  map, ℕ, suc, ◌-◌, String, Bool, true, false, not, ◌&&◌, Option, none, some, List, [], ◌∷◌,
  is_some, or_try, opt_eq, str_eq, truthy, count, length, ◌==◌, ltb,
}
use fsm_backend.Errors.{Thrown, app, M, ◌>>=◌, ◌>>◌, return, require, guard, gets, commit}
use fsm_backend.Prisma.{Database, unordered, ascending_then, id_unique, create_all, count_rows}
use fsm_backend.WorkOrders.Types.{
  TaskStatus, todo, done, skipped, WorkOrderIncident, WorkOrderTask, WorkTemplate, TemplateTask,
  Store, Env,
}
use fsm_backend.WorkOrders.Service.{ensure_work_order, ensure_incident, template_not_found}

abbrev pub tasks_already_instantiated : Thrown
tasks_already_instantiated = app (record {
  message = "Tasks already instantiated";
  status_code = 409;
  code = "TASKS_ALREADY_INSTANTIATED";
})

abbrev pub task_not_found : Thrown
task_not_found = app (record {
  message = "Work order task not found";
  status_code = 404;
  code = "WORK_ORDER_TASK_NOT_FOUND";
})

pub record CompletionReadiness : Type 0 where
  pub total : ℕ
  pub done_count : ℕ
  pub skipped_count : ℕ
  pub pending : ℕ
  pub is_ready : Bool

abbrev pub is_done : TaskStatus → Bool
is_done done = true
is_done _ = false

abbrev pub is_skipped : TaskStatus → Bool
is_skipped skipped = true
is_skipped _ = false

-- Neither test holds of one task, so `pending` is not cut off at 0.
unfoldable pub compute_completion_readiness : List TaskStatus → CompletionReadiness
compute_completion_readiness tasks =
    let total = length tasks in
    let done_tasks = count is_done tasks in
    let skipped_tasks = count is_skipped tasks in
    let pending = total - done_tasks - skipped_tasks in
    record {
      total = total;
      done_count = done_tasks;
      skipped_count = skipped_tasks;
      pending = pending;
      is_ready = ltb 0 total && pending == 0;
    }

-- `where: { orgId, incidentId }`
abbrev pub is_task_of : String → String → WorkOrderTask → Bool
is_task_of org_id incident_id t = opt_eq t.org_id (some org_id) && str_eq t.incident_id incident_id

abbrev pub new_task : Env → String → String → ℕ → TemplateTask → WorkOrderTask
new_task env org_id incident_id n t = record {
  id = env.task_id n;
  org_id = some org_id;
  incident_id = incident_id;
  title = t.title;
  description = t.description;
  status = todo;
  sort_order = t.sort_order;
  completed_at = none;
  created_at = env.now;
}

unfoldable pub new_tasks : Env → String → String → ℕ → List TemplateTask → List WorkOrderTask
new_tasks env org_id incident_id n [] = []
new_tasks env org_id incident_id n (t ∷ ts) =
    new_task env org_id incident_id n t ∷ new_tasks env org_id incident_id (suc n) ts

-- `input.status === TaskStatus.DONE ? new Date() : null`
unfoldable pub with_task_status : ℕ → TaskStatus → WorkOrderTask → WorkOrderTask
with_task_status now done t = record t { status = done; completed_at = some now }
with_task_status now todo t = record t { status = todo; completed_at = none }
with_task_status now skipped t = record t { status = skipped; completed_at = none }

module _ (p : Database) where
  -- `incident: { workOrderId }`: the incident of the task's foreign key is of the work order.
  abbrev pub in_work_order : Store p → String → WorkOrderTask → Bool
  in_work_order s work_order_id t = is_some (
      p.find_first unordered
        (λ (i : WorkOrderIncident).
          str_eq i.id t.incident_id && str_eq i.work_order_id work_order_id)
        s.incidents)

  -- `where: { id, orgId, incident: { workOrderId } }`
  abbrev pub is_task : Store p → String → String → String → WorkOrderTask → Bool
  is_task s org_id work_order_id id t =
      str_eq t.id id && (opt_eq t.org_id (some org_id) && in_work_order s work_order_id t)

  -- The tasks of a template in its order.
  unfoldable pub template_tasks_of : String → Store p → List TemplateTask
  template_tasks_of id s =
      p.find_many (ascending_then (λ t. t.sort_order) (λ t. t.created_at))
        (λ t. str_eq t.template_id id) s.template_tasks

  unfoldable pub create_tasks : List WorkOrderTask → M (Store p) (Unit {0})
  create_tasks rows s =
      commit s (λ t. record s { tasks = t }) (create_all p (id_unique (λ t. t.id)) rows s.tasks)

  unfoldable pub list_tasks : String → String → Store p → List WorkOrderTask
  list_tasks org_id incident_id s =
      p.find_many (ascending_then (λ t. t.sort_order) (λ t. t.created_at))
        (is_task_of org_id incident_id) s.tasks

  -- Creating no rows is left out in the source too.
  unfoldable pub instantiate_work_order_tasks :
      Env → String → String → String → Option String → M (Store p) (List WorkOrderTask)
  instantiate_work_order_tasks env org_id work_order_id incident_id input_template = do
    ensure_work_order p org_id work_order_id
    incident ← ensure_incident p org_id work_order_id incident_id
    template_id ← require (truthy (or_try input_template incident.template_id)) template_not_found
    existing_count ← gets λ s. count_rows p (is_task_of org_id incident_id) s.tasks
    guard (not (ltb 0 existing_count)) tasks_already_instantiated
    found ← gets λ s.
        p.find_first unordered
          (λ (t : WorkTemplate). str_eq t.id template_id && str_eq t.org_id org_id) s.templates
    template ← require found template_not_found
    tasks ← gets λ s. template_tasks_of template.id s
    create_tasks (new_tasks env org_id incident_id 0 tasks)
    gets λ s. list_tasks org_id incident_id s

  unfoldable pub get_work_order_completion_readiness :
      String → String → M (Store p) CompletionReadiness
  get_work_order_completion_readiness org_id work_order_id = gets λ s.
      compute_completion_readiness (
        map (λ (t : WorkOrderTask). t.status)
          (p.find_many unordered
            (λ t. opt_eq t.org_id (some org_id) && in_work_order s work_order_id t) s.tasks))

  unfoldable pub update_work_order_task_status :
      Env
      → String
      → String
      → String
      → TaskStatus
      → M (Store p) (Option WorkOrderTask × CompletionReadiness)
  update_work_order_task_status env org_id work_order_id task_id status = do
    ensure_work_order p org_id work_order_id
    found ← gets λ s. p.find_first unordered (is_task s org_id work_order_id task_id) s.tasks
    task ← require found task_not_found
    λ s.
        commit s (λ t. record s { tasks = t })
          (p.update [] (λ t. str_eq t.id task.id) (with_task_status env.now status) s.tasks)
    updated ← gets λ s. p.find_first unordered (λ t. str_eq t.id task.id) s.tasks
    readiness ← get_work_order_completion_readiness org_id work_order_id
    return (updated, readiness)
