-- ===== src/SyncJobs/Queue.antt =====
-- What a run of the worker keeps of the queue.
use fsm_backend.SyncJobs.Rounds.{handle-IsRound, give_up, retry, after_claim, IsRound, IsWrite}
use fsm_backend.SyncJobs.Worker.{
  claimed, is_due, handle, candidates, process_pending_sync_jobs, handle_all, Externals,
}
use fsm_backend.SyncJobs.Types.{SyncJob, Store, Options}
use fsm_backend.Prelude.{
  refl, [], ◌∷◌, All-imp, ◌∙◌, sym, eq_iff, mem-perm, HasDistinctKeys-mem, mem-of_select, arith,
  mem-update_where, All-of_mem, All-mem, Bool-cases, update_where, All-take, ◌&&◌, Bool, true, inr,
  false, HasDistinctKeys-update_where, Memᴰ, inl, ◌≡◌, str_eq, ◌∷◌, All, HasDistinctKeys, List,
  String,
}
use fsm_backend.Prisma.{Database, ascending_null_then}
use fsm_backend.SyncJobs.Rounds.{complete, retry, give_up}
use fsm_backend.SyncJobs.Worker.{is_pending}
use fsm_backend.Errors.{Result-cases}

-- A write of a round leaves the id of a row.
id-IsWrite :
    {o : Options} {id : String} {js : List SyncJob} {f : SyncJob → SyncJob}
    → IsWrite o id js f
    → (j : SyncJob) → (f j).id ≡ j.id
id-IsWrite complete j = refl
id-IsWrite (retry job at m i h l e) j = refl
id-IsWrite (give_up job m i h l) j = refl

-- A round writes no row of another id.
pub mem-IsRound :
    (o : Options) (id : String) (js js' : List SyncJob) {job : SyncJob}
    → IsRound o id js js'
    → str_eq job.id id ≡ false
    → Memᴰ job js
    → Memᴰ job js'
mem-IsRound o id js js' {job} step ne m =
    let other : (w : SyncJob → Bool) (f : SyncJob → SyncJob) (xs : List SyncJob)
        → w job ≡ false
        → Memᴰ job xs
        → Memᴰ job (update_where w f xs) =
      λ w f xs out i. elim (mem-update_where w f xs i) [
        | inl (h, k) ↦ (let bad : true ≡ false = cc in cc)
        | inr (h, k) ↦ k
      ] in
    let m1 =
      other (λ r. str_eq r.id id && is_pending r.status) (claimed o.clock) js (ground arith) m in
    elim step [
      | inl (e, gone) ↦ rw e m1
      | inr (f, w, e) ↦ rw e (other (λ r. str_eq r.id id) f (after_claim o id js) ne m1)
    ]

pub HasDistinctKeys-after_claim :
    (o : Options) (id : String) (js : List SyncJob)
    → HasDistinctKeys (λ (j : SyncJob). j.id) js
    → HasDistinctKeys (λ (j : SyncJob). j.id) (after_claim o id js)
HasDistinctKeys-after_claim o id js d =
    HasDistinctKeys-update_where (λ (j : SyncJob). j.id)
      (λ r. str_eq r.id id && is_pending r.status) (claimed o.clock) js (λ a. refl) d

pub HasDistinctKeys-IsRound :
    (o : Options) (id : String) (js js' : List SyncJob)
    → IsRound o id js js'
    → HasDistinctKeys (λ (j : SyncJob). j.id) js
    → HasDistinctKeys (λ (j : SyncJob). j.id) js'
HasDistinctKeys-IsRound o id js js' step d =
    let d1 = HasDistinctKeys-after_claim o id js d in
    elim step [
      | inl (e, gone) ↦ rw e d1
      | inr (f, w, e) ↦ rw e (
          HasDistinctKeys-update_where (λ (j : SyncJob). j.id) (λ r. str_eq r.id id) f
            (after_claim o id js) (id-IsWrite w) d1)
    ]

module _ (p : Database) (x : Externals) (o : Options) where
  -- What every round of the batch keeps, the loop keeps.
  pub handle_all-keeps :
      (P : List SyncJob → Type 0) (cs : List SyncJob)
      → All (λ c. (js js' : List SyncJob) → IsRound o c.id js js' → P js → P js') cs
      → (s : Store p) → P (p.rows s.jobs)
      → P (p.rows (handle_all p x o cs s).1.jobs)
  unfolding handle_all
  handle_all-keeps P [] keep s h = h
  handle_all-keeps P (c ∷ cs) keep s h =
      let s1 = (handle p x o c s).1 in
      let h1 = keep.0 (p.rows s.jobs) (p.rows s1.jobs) (handle-IsRound p x o c s) h in
      let h2 = handle_all-keeps P cs keep.1 s1 h1 in
      elim (Result-cases (handle p x o c s).0) [
        | inl (n, e) ↦ elim (Result-cases (handle_all p x o cs s1).0) [
          | inl (k, g) ↦ rw (e, g) h2
          | inr (t, g) ↦ rw (e, g) h2
        ]
        | inr (t, e) ↦ rw e h1
      ]

  -- The batch holds jobs of the table that are due.
  candidates-AreDue :
      (s : Store p)
      → All (λ c. Memᴰ c (p.rows s.jobs) × (is_due o.now c ≡ true)) (candidates p x o s)
  unfolding candidates
  candidates-AreDue s =
      let order = ascending_null_then (λ (j : SyncJob). j.scheduled_at) (λ j. j.created_at) in
      let found = p.find_many order (is_due o.now) s.jobs in
      All-take (λ c. Memᴰ c (p.rows s.jobs) × (is_due o.now c ≡ true)) o.batch_size found
        (All-of_mem (λ c. Memᴰ c (p.rows s.jobs) × (is_due o.now c ≡ true)) found
          (λ c m.
            mem-of_select (is_due o.now) (p.rows s.jobs)
              (mem-perm (p.find_many_perm order (is_due o.now) s.jobs) m)))

  -- A run of the worker leaves every job that is not due (processing, completed, failed, or
  -- scheduled for later) as it was, if ids are distinct.
  pub run-not_due :
      (s : Store p) {job : SyncJob}
      → HasDistinctKeys (λ (j : SyncJob). j.id) (p.rows s.jobs)
      → Memᴰ job (p.rows s.jobs)
      → is_due o.now job ≡ false
      → Memᴰ job (p.rows (process_pending_sync_jobs p x o s).1.jobs)
  unfolding process_pending_sync_jobs
  run-not_due s {job} d m late =
      handle_all-keeps (Memᴰ job) (candidates p x o s)
        (All-imp (λ c. Memᴰ c (p.rows s.jobs) × (is_due o.now c ≡ true))
          (λ c. (js js' : List SyncJob) → IsRound o c.id js js' → Memᴰ job js → Memᴰ job js')
          (candidates p x o s)
          (λ c due js js' step i. mem-IsRound o c.id js js' step (other_id c due) i)
          (candidates-AreDue s))
        s m
    where
      other_id :
          (c : SyncJob)
          → Memᴰ c (p.rows s.jobs) × (is_due o.now c ≡ true)
          → str_eq job.id c.id ≡ false
      other_id c (i, due) = elim (Bool-cases (str_eq job.id c.id)) [
        | inr e ↦ e
        | inl e ↦
            let same : job ≡ c =
              All-mem (λ a. a.id ≡ c.id → a ≡ c) (p.rows s.jobs)
                (HasDistinctKeys-mem (λ (j : SyncJob). j.id) (p.rows s.jobs) d i) m
                ((eq_iff job.id c.id).0 e) in
            let due' : is_due o.now job ≡ true = rw same due in
            let bad : true ≡ false = sym due' ∙ late in cc
      ]
