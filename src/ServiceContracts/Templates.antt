-- ===== src/ServiceContracts/Templates.antt =====
-- The check of the templates that items name. modules/service-contracts/serviceContracts.service.ts
use fsm_backend.Prelude.{
  mem-distinct, Option-cases, Bool, refl, Memᴰ, All-mem, All-named, HasDistinctKeys, length,
  length-perm, length-select, inl, inr, arith, String, elem, distinct, Bool-cases, both, eq_iff,
  str_eq, truthy, some, ◌==◌, ◌≡◌, ◌⊎◌, ◌∙◌, sym, List, [], ◌∷◌, ==_iff, ◌&&◌,
}
use fsm_backend.Errors.{ok, err}
use fsm_backend.Prisma.{Database, unordered, count_rows}
use fsm_backend.ServiceContracts.Types.{WorkTemplate, Store, ItemInput}
use fsm_backend.ServiceContracts.Service.{
  template_ids, ensure_work_templates, work_template_not_found,
}

mem-template_ids :
    (k : String) (i : ItemInput) (is : List ItemInput)
    → Memᴰ i is
    → truthy i.work_template_id ≡ some k
    → Memᴰ k (template_ids is)
unfolding template_ids
mem-template_ids k i [] m h = elim m [ ]
mem-template_ids k i (j ∷ js) (Memᴰ.head e) h = rw (← e) (rw h (Memᴰ.head refl))
mem-template_ids k i (j ∷ js) (Memᴰ.tail m) h = elim (Option-cases (truthy j.work_template_id)) [
  | inl e ↦ rw e (mem-template_ids k i js m h)
  | inr (l, e) ↦ rw e (Memᴰ.tail (mem-template_ids k i js m h))
]

module _ (p : Database) where
  -- Each item names no template or one of the organization.
  abbrev pub HasTemplates : String → Store p → List ItemInput → Type 0
  HasTemplates org_id s items =
      (k : String) (i : ItemInput)
      → Memᴰ i items
      → truthy i.work_template_id ≡ some k
      → (t : WorkTemplate) × Memᴰ t (p.rows s.templates) × (t.org_id ≡ org_id) × (t.id ≡ k)

  pub ensure_work_templates-cases :
      (org_id : String) (items : List ItemInput) (s : Store p)
      → HasDistinctKeys (λ (t : WorkTemplate). t.id) (p.rows s.templates)
      → (ensure_work_templates p org_id items s ≡ (err work_template_not_found, s))
        ⊎ ((ensure_work_templates p org_id items s ≡ (ok tt, s)) × HasTemplates org_id s items)
  unfolding ensure_work_templates
  ensure_work_templates-cases org_id items s d =
      elim (Bool-cases (length (distinct (template_ids items)) == 0)) [
        | inl e ↦ inr (
          rw e,
          λ k i m h. absurd (
              none_named (distinct (template_ids items)) ((==_iff _ _).0 e)
                (mem-distinct k (template_ids items) (mem-template_ids k i items m h))),
        )
        | inr e ↦
            let named : WorkTemplate → Bool =
              λ t. str_eq t.org_id org_id && elem t.id (distinct (template_ids items)) in
            elim (Bool-cases
              (count_rows p named s.templates == length (distinct (template_ids items)))) [
                | inr other ↦ inl (rw (e, other))
                | inl same ↦
                    let many =
                      length-perm (p.find_many_perm unordered named s.templates)
                      ∙ length-select named (p.rows s.templates) in
                    let all =
                      All-named (λ (t : WorkTemplate). t.id) (λ t. str_eq t.org_id org_id)
                        (distinct (template_ids items)) (p.rows s.templates) d
                        (sym many ∙ (==_iff _ _).0 same) in
                    inr (
                      rw (e, same),
                      λ k i m h.
                          let (t, n, q) = All-mem _ (distinct (template_ids items)) all (
                            mem-distinct k (template_ids items) (mem-template_ids k i items m h)) in
                          (
                            t,
                            n,
                            (eq_iff t.org_id org_id).0 ((both _ _).0 q).0,
                            (eq_iff t.id k).0 ((both _ _).0 q).1,
                          ),
                    )
              ]
      ]
    where
      none_named : (ks : List String) → length ks ≡ 0 → {k : String} → Memᴰ k ks → ⊥
      none_named [] e m = elim m [ ]
      none_named (x ∷ xs) e m = absurd (omega arith)
