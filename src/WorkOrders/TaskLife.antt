-- ===== src/WorkOrders/TaskLife.antt =====
-- Tasks over a series of requests. modules/work-orders/workOrders.service.ts
use fsm_backend.WorkOrders.Service.{is_own, ensure_work_order}
use fsm_backend.Prelude.{
  All-mem, ap, eq_refl, refl, inl, inr, String, true, false, Option, List, [], ◌∷◌, All, All-append,
  All-update_where, update_where, str_eq, Memᴰ, ◌≡◌, ◌⊎◌,
}
use fsm_backend.Errors.{Thrown, ok, err}
use fsm_backend.Prisma.{
  ascending_then, mem-find_many, Database, unordered, find_first-cases, update_free,
}
use fsm_backend.WorkOrders.Types.{TaskStatus, WorkOrder, WorkOrderTask, Store, Env}
use fsm_backend.WorkOrders.Tasks.{
  list_tasks, is_task_of, is_task, get_work_order_completion_readiness,
  instantiate_work_order_tasks, update_work_order_task_status, with_task_status, new_tasks,
  template_tasks_of,
}
use fsm_backend.WorkOrders.Stamps.{
  IsTimed, IsTimed-with_task_status, IsTimed-new_tasks, instantiate-cases,
}

-- The requests that write tasks.
pub data TaskRequest : Type 0 where
  instantiate : String → String → Option String → TaskRequest
  set_status : String → String → TaskStatus → TaskRequest

module _ (p : Database) where
  unfoldable pub after_task : Env → String → TaskRequest → Store p → Store p
  after_task env org_id (instantiate work_order_id incident_id template_id) s =
      (instantiate_work_order_tasks p env org_id work_order_id incident_id template_id s).1
  after_task env org_id (set_status work_order_id task_id status) s =
      (update_work_order_task_status p env org_id work_order_id task_id status s).1

  -- The store after requests of organizations, one after the other.
  unfoldable pub after_tasks : List (Env × String × TaskRequest) → Store p → Store p
  after_tasks [] s = s
  after_tasks ((env, org_id, q) ∷ qs) s = after_tasks qs (after_task env org_id q s)

  -- A change of status either throws and leaves the store, or writes one task of the work order.
  tasks-update :
      (env : Env) (org_id work_order_id id : String) (status : TaskStatus) (s : Store p)
      → ((update_work_order_task_status p env org_id work_order_id id status s).1.tasks ≡ s.tasks)
        ⊎ ((task : WorkOrderTask) × Memᴰ task (p.rows s.tasks)
            × (p.rows (update_work_order_task_status p env org_id work_order_id id status s).1.tasks
                ≡ update_where
                    (λ t. str_eq t.id task.id)
                    (with_task_status env.now status)
                    (p.rows s.tasks)))
  unfolding update_work_order_task_status ensure_work_order get_work_order_completion_readiness
  tasks-update env org_id work_order_id id status s =
      elim (find_first-cases p unordered
        (λ (w : WorkOrder). is_own w.org_id w.id org_id work_order_id) s.work_orders) [
          | inl (e, h) ↦ inl (rw e)
          | inr (w, e, h, m) ↦
              elim (find_first-cases p unordered (is_task p s org_id work_order_id id) s.tasks) [
                | inl (e1, h1) ↦ inl (rw (e, e1))
                | inr (task, e1, h1, m1) ↦
                    let (t, e2, q) =
                      update_free p (λ (r : WorkOrderTask). str_eq r.id task.id)
                        (with_task_status env.now status) s.tasks (eq_refl task.id) m1 in
                    inr (task, m1, rw (e, e1, e2) q)
              ]
        ]

  after_task-IsTimed :
      (env : Env) (org_id : String) (q : TaskRequest) (s : Store p)
      → All IsTimed (p.rows s.tasks)
      → All IsTimed (p.rows (after_task env org_id q s).tasks)
  unfolding after_task
  after_task-IsTimed env org_id (instantiate work_order_id incident_id template_id) s h =
      elim (instantiate-cases p env org_id work_order_id incident_id template_id s) [
        | inl (x, e) ↦ rw (e, after_task) h
        | inr (template, t, _, _, _, e, q) ↦
            rw (e, after_task, q)
              (All-append IsTimed (p.rows s.tasks)
                (new_tasks env org_id incident_id 0 (template_tasks_of p template.id s)) h
                (IsTimed-new_tasks env org_id incident_id 0 (template_tasks_of p template.id s)))
      ]
  after_task-IsTimed env org_id (set_status work_order_id task_id status) s h =
      elim (tasks-update env org_id work_order_id task_id status s) [
        | inl e ↦ rw (after_task, e) h
        | inr (task, m, q) ↦
            rw (after_task, q)
              (All-update_where IsTimed (λ t. str_eq t.id task.id) (with_task_status env.now status)
                (p.rows s.tasks) (λ t w k. IsTimed-with_task_status env.now status t) h)
      ]

  -- Over any sequence of instantiations and status changes of tasks, by any organizations, a task
  -- has a completion time exactly if it is done, if that holds of the tasks at the start.
  pub after_tasks-IsTimed :
      (qs : List (Env × String × TaskRequest)) (s : Store p)
      → All IsTimed (p.rows s.tasks)
      → All IsTimed (p.rows (after_tasks qs s).tasks)
  unfolding after_tasks
  after_tasks-IsTimed [] s h = h
  after_tasks-IsTimed ((env, org_id, q) ∷ qs) s h =
      after_tasks-IsTimed qs (after_task env org_id q s) (after_task-IsTimed env org_id q s h)

  mem-list_tasks :
      (org_id incident_id : String) (s : Store p) (task : WorkOrderTask)
      → Memᴰ task (list_tasks p org_id incident_id s)
      → Memᴰ task (p.rows s.tasks) × (is_task_of org_id incident_id task ≡ true)
  unfolding list_tasks
  mem-list_tasks org_id incident_id s task m =
      mem-find_many p (ascending_then (λ t. t.sort_order) (λ t. t.created_at))
        (is_task_of org_id incident_id) s.tasks m

  -- What an instantiation returns is stored, and of the incident.
  instantiated-mem :
      (env : Env) (org_id work_order_id incident_id : String) (input : Option String) (s : Store p)
      → (tasks : List WorkOrderTask) (task : WorkOrderTask)
      → (instantiate_work_order_tasks p env org_id work_order_id incident_id input s).0 ≡ ok tasks
      → Memᴰ task tasks
      → Memᴰ task (
          p.rows
            (instantiate_work_order_tasks p env org_id work_order_id incident_id input s).1.tasks)
        × (is_task_of org_id incident_id task ≡ true)
  instantiated-mem env org_id work_order_id incident_id input s tasks task done m =
      elim (instantiate-cases p env org_id work_order_id incident_id input s) [
        | inl (x, bad) ↦ absurd (cc (ap (λ r. r.0) bad))
        | inr (template, t, _, _, _, good, _) ↦
            let e : tasks ≡ list_tasks p org_id incident_id (record s { tasks = t }) =
              cc (ap (λ r. r.0) good) in
            rw good (mem-list_tasks org_id incident_id (record s { tasks = t }) task (rw (← e) m))
      ]

  -- Once an instantiation returned a task, another one for the same incident throws and leaves the
  -- store as it is, with whatever template.
  pub instantiate-instantiate :
      (env env' : Env) (org_id work_order_id incident_id : String) (input input' : Option String)
      (s : Store p)
      → (task : WorkOrderTask) (tasks : List WorkOrderTask)
      → (instantiate_work_order_tasks p env org_id work_order_id incident_id input s).0
        ≡ ok (task ∷ tasks)
      → (e : Thrown) × (instantiate_work_order_tasks p env' org_id work_order_id incident_id input'
            (instantiate_work_order_tasks p env org_id work_order_id incident_id input s).1
          ≡ (
            err e,
            (instantiate_work_order_tasks p env org_id work_order_id incident_id input s).1,
          ))
  instantiate-instantiate env env' org_id work_order_id incident_id input input' s task tasks done =
      let s1 = (instantiate_work_order_tasks p env org_id work_order_id incident_id input s).1 in
      elim (instantiate-cases p env' org_id work_order_id incident_id input' s1) [
        | inl (e, q) ↦ (e, q)
        | inr (template, t, _, _, none_there, _, _) ↦
            let (m, w) =
              instantiated-mem env org_id work_order_id incident_id input s (task ∷ tasks) task done
                (Memᴰ.head refl) in
            let no =
              All-mem (λ r. is_task_of org_id incident_id r ≡ false) (p.rows s1.tasks) none_there
                m in
            absurd (cc)
      ]
