-- ===== src/WorkOrders/Stamps.antt =====
-- Completion times of tasks. modules/work-orders/workOrders.service.ts
use fsm_backend.WorkOrders.Service.{
  work_order_not_found, ensure_work_order, template_not_found, incident_not_found, is_incident,
  is_own, ensure_incident,
}
use fsm_backend.Prelude.{
  arith, All-of_count, length-perm, length-select, Memᴰ, suc, Option-cases, truthy, or_try, ltb,
  Bool-cases, str_eq, ◌&&◌, eq_iff, refl, inl, inr, ℕ, String, Bool, false, Option, is_some, List,
  [], ◌∷◌, All, ◌≡◌, ◌⊎◌, ◌++◌,
}
use fsm_backend.Prisma.{create_all-cases, count_rows}
use fsm_backend.Errors.{p2002, prisma, Thrown, ok, err}
use fsm_backend.Prisma.{Database, unordered, find_first-cases, id_unique}
use fsm_backend.WorkOrders.Types.{
  WorkOrder, WorkTemplate, TaskStatus, todo, done, skipped, WorkOrderTask, TemplateTask, Store, Env,
}
use fsm_backend.WorkOrders.Tasks.{
  tasks_already_instantiated, template_tasks_of, list_tasks, is_task_of, create_tasks, is_done,
  instantiate_work_order_tasks, with_task_status, new_tasks,
}

-- A task has a completion time exactly if it is done.
abbrev pub has_time : WorkOrderTask → Bool
has_time t = is_some t.completed_at

abbrev pub IsTimed : WorkOrderTask → Type 0
IsTimed t = is_done t.status ≡ is_some t.completed_at

pub IsTimed-with_task_status :
    (now : ℕ) (st : TaskStatus) (t : WorkOrderTask) → IsTimed (with_task_status now st t)
unfolding with_task_status
IsTimed-with_task_status now done t = refl
IsTimed-with_task_status now todo t = refl
IsTimed-with_task_status now skipped t = refl

pub IsTimed-new_tasks :
    (env : Env) (org_id incident_id : String) (n : ℕ) (ts : List TemplateTask)
    → All IsTimed (new_tasks env org_id incident_id n ts)
unfolding new_tasks
IsTimed-new_tasks env org_id incident_id n [] = tt
IsTimed-new_tasks env org_id incident_id n (t ∷ ts) =
    (refl, IsTimed-new_tasks env org_id incident_id (suc n) ts)

module _ (p : Database) where
  -- What an instantiation does to the tasks: it throws and leaves the store, or the incident had none
  -- and gets those of a template of the organization.
  pub instantiate-cases :
      (env : Env) (org_id work_order_id incident_id : String) (input : Option String) (s : Store p)
      → ((e : Thrown) × (instantiate_work_order_tasks p env org_id work_order_id incident_id input s
            ≡ (err e, s)))
        ⊎ ((template : WorkTemplate) × (t : p.Table WorkOrderTask) × Memᴰ template
              (p.rows s.templates)
            × (template.org_id ≡ org_id)
            × All (λ r. is_task_of org_id incident_id r ≡ false) (p.rows s.tasks)
            × (instantiate_work_order_tasks p env org_id work_order_id incident_id input s ≡ (
              ok (list_tasks p org_id incident_id (record s { tasks = t })),
              record s { tasks = t },
            ))
            × (p.rows t
                ≡ p.rows s.tasks
                  ++ new_tasks env org_id incident_id 0 (template_tasks_of p template.id s)))
  unfolding instantiate_work_order_tasks ensure_work_order ensure_incident create_tasks
  instantiate-cases env org_id work_order_id incident_id input s =
      elim (find_first-cases p unordered
        (λ (w : WorkOrder). is_own w.org_id w.id org_id work_order_id) s.work_orders) [
          | inl (e, h) ↦ inl (work_order_not_found, rw e)
          | inr (w, e, h, m) ↦
              elim (find_first-cases p unordered (is_incident org_id work_order_id incident_id)
                s.incidents) [
                  | inl (e1, h1) ↦ inl (incident_not_found, rw (e, e1))
                  | inr (i, e1, h1, m1) ↦
                      elim (Option-cases (truthy (or_try input i.template_id))) [
                        | inl e2 ↦ inl (template_not_found, rw (e, e1, e2))
                        | inr (id, e2) ↦
                            elim (Bool-cases
                              (ltb 0 (count_rows p (is_task_of org_id incident_id) s.tasks))) [
                                | inl some_there ↦
                                    inl (tasks_already_instantiated, rw (e, e1, e2, some_there))
                                | inr none_there ↦
                                    elim (find_first-cases p unordered
                                      (λ (t : WorkTemplate).
                                        str_eq t.id id && str_eq t.org_id org_id)
                                      s.templates) [
                                        | inl (e3, h3) ↦
                                            inl (template_not_found, rw (e, e1, e2, none_there, e3))
                                        | inr (t, e3, h3, m3) ↦
                                            elim (create_all-cases p
                                              (id_unique (λ (r : WorkOrderTask). r.id))
                                              (new_tasks env org_id incident_id 0
                                                (template_tasks_of p t.id s))
                                              s.tasks) [
                                                | inl (x, bad) ↦ inl (
                                                  prisma (p2002 x),
                                                  rw (e, e1, e2, none_there, e3, bad),
                                                )
                                                | inr (u, good, q) ↦ inr (
                                                  t,
                                                  u,
                                                  m3,
                                                  (eq_iff t.org_id org_id).0 (ground arith),
                                                  none_counted org_id incident_id s none_there,
                                                  rw (e, e1, e2, none_there, e3, good),
                                                  q,
                                                )
                                              ]
                                      ]
                              ]
                      ]
                ]
        ]
    where
      none_counted :
          (org_id incident_id : String) (s : Store p)
          → ltb 0 (count_rows p (is_task_of org_id incident_id) s.tasks) ≡ false
          → All (λ r. is_task_of org_id incident_id r ≡ false) (p.rows s.tasks)
      none_counted org_id incident_id s h =
          All-of_count (is_task_of org_id incident_id) (p.rows s.tasks) (
            ground (
              arith,
              length-perm (p.find_many_perm unordered (is_task_of org_id incident_id) s.tasks),
              length-select (is_task_of org_id incident_id) (p.rows s.tasks),
            ))
