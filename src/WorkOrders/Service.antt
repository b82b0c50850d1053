-- ===== src/WorkOrders/Service.antt =====
-- Incidents, notes and line items of a work order. modules/work-orders/workOrders.service.ts
use fsm_backend.Prelude.{
  map, ℕ, ◌+◌, String, Bool, not, ◌&&◌, Option, none, some, List, [], or_else, or_try, opt_eq,
  str_eq, truthy, ◌==◌,
}
use fsm_backend.Errors.{Thrown, app, M, ◌>>=◌, ◌>>◌, return, require, guard, gets, commit, ok}
use fsm_backend.Prisma.{Database, unordered, ascending, descending_then, id_unique}
use fsm_backend.WorkOrders.Types.{
  WorkOrder, WorkOrderIncident, WorkNote, WorkOrderLineItem, WorkTemplate, User, Store, Env,
  IncidentInput, LineItemInput, LineItemUpdateInput,
}

abbrev pub work_order_not_found : Thrown
work_order_not_found =
    app (record {
      message = "Work order not found";
      status_code = 404;
      code = "WORK_ORDER_NOT_FOUND";
    })

abbrev pub template_not_found : Thrown
template_not_found = app (record {
  message = "Work template not found";
  status_code = 404;
  code = "WORK_TEMPLATE_NOT_FOUND";
})

abbrev pub incident_not_found : Thrown
incident_not_found = app (record {
  message = "Work order incident not found";
  status_code = 404;
  code = "WORK_ORDER_INCIDENT_NOT_FOUND";
})

abbrev pub incident_title_required : Thrown
incident_title_required = app (record {
  message = "Incident title required";
  status_code = 400;
  code = "INCIDENT_TITLE_REQUIRED";
})

abbrev pub line_item_not_found : Thrown
line_item_not_found = app (record {
  message = "Work order line item not found";
  status_code = 404;
  code = "WORK_ORDER_LINE_ITEM_NOT_FOUND";
})

-- `where: { id, orgId }` on a table whose `orgId` may be null.
abbrev pub is_own : Option String → String → String → String → Bool
is_own row_org row_id org_id id = str_eq row_id id && opt_eq row_org (some org_id)

-- `where: { orgId, workOrderId }`
abbrev pub belongs_to : Option String → String → String → String → Bool
belongs_to row_org row_work_order org_id work_order_id =
    opt_eq row_org (some org_id) && str_eq row_work_order work_order_id

abbrev pub is_incident : String → String → String → WorkOrderIncident → Bool
is_incident org_id work_order_id id i =
    str_eq i.id id && belongs_to i.org_id i.work_order_id org_id work_order_id

abbrev pub is_line_item : String → String → String → WorkOrderLineItem → Bool
is_line_item org_id work_order_id id l =
    str_eq l.id id && belongs_to l.org_id l.work_order_id org_id work_order_id

-- `(last?.sortOrder ?? -1) + 1`
abbrev pub next_sort_order : Option WorkOrderIncident → ℕ
next_sort_order none = 0
next_sort_order (some i) = i.sort_order + 1

abbrev pub template_name : Option WorkTemplate → Option String
template_name none = none
template_name (some t) = some t.name

abbrev pub template_description : Option WorkTemplate → Option String
template_description none = none
template_description (some t) = t.description

abbrev pub template_id : Option WorkTemplate → Option String
template_id none = none
template_id (some t) = some t.id

unfoldable pub new_incident :
    Env → String → String → IncidentInput → Option WorkTemplate → String → ℕ → WorkOrderIncident
new_incident env org_id work_order_id input template title sort_order = record {
  id = env.new_id;
  org_id = some org_id;
  work_order_id = work_order_id;
  template_id = template_id template;
  title = title;
  description = or_try input.description (template_description template);
  sort_order = sort_order;
  created_at = env.now;
}

abbrev pub new_line_item : Env → String → String → LineItemInput → WorkOrderLineItem
new_line_item env org_id work_order_id input = record {
  id = env.new_id;
  org_id = some org_id;
  work_order_id = work_order_id;
  description = input.description;
  quantity = input.quantity;
  unit_price_cents = input.unit_price_cents;
  created_at = env.now;
}

unfoldable pub update_line_item_fields : LineItemUpdateInput → WorkOrderLineItem → WorkOrderLineItem
update_line_item_fields input l = record l {
  description = or_else input.description l.description;
  quantity = or_else input.quantity l.quantity;
  unit_price_cents = or_else input.unit_price_cents l.unit_price_cents;
}

-- A note with its author, read through the foreign key.
pub record NoteDetail : Type 0 where
  pub id : String
  pub body : String
  pub created_at : ℕ
  pub author : Option User

module _ (p : Database) where
  unfoldable pub ensure_work_order : String → String → M (Store p) WorkOrder
  ensure_work_order org_id work_order_id = do
    found ←
        gets
          λ s. p.find_first unordered (λ w. is_own w.org_id w.id org_id work_order_id) s.work_orders
    require found work_order_not_found

  unfoldable pub ensure_template : String → String → M (Store p) WorkTemplate
  ensure_template org_id id = do
    found ←
        gets λ s. p.find_first unordered (λ t. str_eq t.id id && str_eq t.org_id org_id) s.templates
    require found template_not_found

  unfoldable pub ensure_incident : String → String → String → M (Store p) WorkOrderIncident
  ensure_incident org_id work_order_id incident_id = do
    found ←
        gets λ s. p.find_first unordered (is_incident org_id work_order_id incident_id) s.incidents
    require found incident_not_found

  -- `input.templateId ? await ensureTemplate(…) : null`
  unfoldable pub find_template : String → Option String → M (Store p) (Option WorkTemplate)
  find_template org_id none = return none
  find_template org_id (some id) = do template ← ensure_template org_id id; return (some template)

  unfoldable pub pick_sort_order : String → String → Option ℕ → M (Store p) ℕ
  pick_sort_order org_id work_order_id (some n) = return n
  pick_sort_order org_id work_order_id none = gets λ s. next_sort_order (
      p.find_first (descending_then (λ i. i.sort_order) (λ i. i.created_at))
        (λ i. belongs_to i.org_id i.work_order_id org_id work_order_id) s.incidents)

  unfoldable pub create_incident : WorkOrderIncident → M (Store p) (Unit {0})
  create_incident r s =
      commit s (λ t. record s { incidents = t }) (p.create (id_unique (λ i. i.id)) r s.incidents)

  unfoldable pub add_work_order_incident :
      Env → String → String → IncidentInput → M (Store p) WorkOrderIncident
  add_work_order_incident env org_id work_order_id input = do
    ensure_work_order org_id work_order_id
    template ← find_template org_id (truthy input.template_id)
    title ← require (truthy (or_try input.title (template_name template))) incident_title_required
    sort_order ← pick_sort_order org_id work_order_id input.sort_order
    create_incident (new_incident env org_id work_order_id input template title sort_order)
    return (new_incident env org_id work_order_id input template title sort_order)

  abbrev pub note_detail : Store p → WorkNote → NoteDetail
  note_detail s n = record {
    id = n.id;
    body = n.body;
    created_at = n.created_at;
    author = p.find_first unordered (λ u. str_eq u.id n.author_user_id) s.users;
  }

  unfoldable pub list_work_order_notes : String → String → M (Store p) (List NoteDetail)
  list_work_order_notes org_id work_order_id = do
    ensure_work_order org_id work_order_id
    gets λ s. map (note_detail s) (
        p.find_many (ascending (λ n. n.created_at))
          (λ n. belongs_to n.org_id n.work_order_id org_id work_order_id) s.notes)

  unfoldable pub add_work_order_note :
      Env → String → String → String → String → M (Store p) NoteDetail
  add_work_order_note env org_id work_order_id author_user_id body = do
    ensure_work_order org_id work_order_id
    let note : WorkNote = record {
      id = env.new_id;
      org_id = some org_id;
      work_order_id = work_order_id;
      author_user_id = author_user_id;
      body = body;
      created_at = env.now;
    }
    λ s. commit s (λ t. record s { notes = t }) (p.create (id_unique (λ n. n.id)) note s.notes)
    gets λ s. note_detail s note

  unfoldable pub list_work_order_line_items : String → String → M (Store p) (List WorkOrderLineItem)
  list_work_order_line_items org_id work_order_id = do
    ensure_work_order org_id work_order_id
    gets λ s.
        p.find_many (ascending (λ l. l.created_at))
          (λ l. belongs_to l.org_id l.work_order_id org_id work_order_id) s.line_items

  unfoldable pub add_work_order_line_item :
      Env → String → String → LineItemInput → M (Store p) WorkOrderLineItem
  add_work_order_line_item env org_id work_order_id input = do
    ensure_work_order org_id work_order_id
    λ s.
        commit s (λ t. record s { line_items = t })
          (p.create (id_unique (λ l. l.id)) (new_line_item env org_id work_order_id input)
            s.line_items)
    return (new_line_item env org_id work_order_id input)

  unfoldable pub update_work_order_line_item :
      String → String → String → LineItemUpdateInput → M (Store p) (Option WorkOrderLineItem)
  update_work_order_line_item org_id work_order_id line_item_id input = do
    ensure_work_order org_id work_order_id
    found ←
        gets
          λ s. p.find_first unordered (is_line_item org_id work_order_id line_item_id) s.line_items
    existing ← require found line_item_not_found
    λ s.
        commit s (λ t. record s { line_items = t })
          (p.update [] (λ l. str_eq l.id existing.id) (update_line_item_fields input) s.line_items)
    gets λ s. p.find_first unordered (λ l. str_eq l.id existing.id) s.line_items

  unfoldable pub delete_work_order_line_item : String → String → String → M (Store p) (Unit {0})
  delete_work_order_line_item org_id work_order_id line_item_id = do
    ensure_work_order org_id work_order_id
    count ← (λ s.
        let (t, n) = p.delete_many (is_line_item org_id work_order_id line_item_id) s.line_items in
        (ok n, record s { line_items = t }))
    guard (not (count == 0)) line_item_not_found
