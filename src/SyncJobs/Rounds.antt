-- ===== src/SyncJobs/Rounds.antt =====
-- What one round of the worker's loop writes to the queue.
use mathlib.Core.Path.{subst, ap₂}
use fsm_backend.Prelude.{
  ==_iff, false, All-of_count, Bool, All, count, ap, ◌∙◌, eq_iff, eq_refl, ℕ, String, ◌≡◌, refl,
  ◌⊎◌, inl, inr, true, ◌&&◌, ◌<◌, ◌≤◌, ◌+◌, List, Memᴰ, update_where, str_eq, Bool-cases, ltb,
  arith, ◌==◌,
}
use fsm_backend.Errors.{Result-cases, ok}
use fsm_backend.Prisma.{Database, unordered, find_first-cases, update_free}
use fsm_backend.SyncJobs.Types.{SyncJob, Store, Options}
use fsm_backend.SyncJobs.Worker.{
  message_of, is_retryable_error, Externals, is_pending, claimed, done, retried, given_up,
  retry_delay_ms, write_job, mark_completed, mark_failed, process_job, process_quick_books_webhook,
  attempt, settle, claim, handle,
}

-- The rows once a job is claimed.
abbrev pub after_claim : Options → String → List SyncJob → List SyncJob
after_claim o id js = update_where (λ r. str_eq r.id id && is_pending r.status) (claimed o.clock) js

-- The writes that end a round, for a job of the table with the round's id.
pub data IsWrite (o : Options) (id : String) (js : List SyncJob)
    : (SyncJob → SyncJob) → Type 0 where
  complete : IsWrite o id js (done o.clock)
  retry :
      (job : SyncJob) (at : ℕ) (message : String)
      → Memᴰ job js
      → str_eq job.id id ≡ true
      → job.attempts < o.max_attempts
      → at ≡ o.clock + retry_delay_ms job.attempts o.retry_base_ms
      → IsWrite o id js (retried at message)
  give_up :
      (job : SyncJob) (message : String)
      → Memᴰ job js
      → str_eq job.id id ≡ true
      → o.max_attempts ≤ job.attempts
      → IsWrite o id js (given_up o.clock message)

-- The round of a job that is not pending any more, or not in the table any more.
abbrev pub IsGone : Options → String → List SyncJob → Type 0
IsGone o id js =
    All (λ r. (str_eq r.id id && is_pending r.status) ≡ false) js
    ⊎ All (λ r. str_eq r.id id ≡ false) (after_claim o id js)

-- A round only claims its job, or claims it and ends with one write to it.
abbrev pub IsRound : Options → String → List SyncJob → List SyncJob → Type 0
IsRound o id js js' =
    (js' ≡ after_claim o id js) × IsGone o id js
    ⊎ ((f : SyncJob → SyncJob) × IsWrite o id (after_claim o id js) f
        × (js' ≡ update_where (λ r. str_eq r.id id) f (after_claim o id js)))

module _ (p : Database) (x : Externals) (o : Options) where
  write_job_ok :
      (id : String) (f : SyncJob → SyncJob) (s : Store p) (job : SyncJob)
      → str_eq job.id id ≡ true
      → Memᴰ job (p.rows s.jobs)
      → (t : p.Table SyncJob) × (write_job p x id f s ≡ (ok tt, record s { jobs = t }))
        × (p.rows t ≡ update_where (λ r. str_eq r.id id) f (p.rows s.jobs))
  unfolding write_job
  write_job_ok id f s job h m =
      let (t, e, q) = update_free p (λ r. str_eq r.id id) f s.jobs {r = job} h m in (t, rw e, q)

  jobs-process_job : (job : SyncJob) (s : Store p) → (process_job p x o job s).1.jobs ≡ s.jobs
  unfolding process_job process_quick_books_webhook
  jobs-process_job job s = ground arith

  -- The `try` and the `catch` of a claimed job.
  settle-IsWrite :
      (id : String) (job : SyncJob) (s : Store p)
      → str_eq job.id id ≡ true
      → Memᴰ job (p.rows s.jobs)
      → (f : SyncJob → SyncJob) × IsWrite o id (p.rows s.jobs) f
        × (p.rows (settle p x o job (attempt p x o job s)).1.jobs
            ≡ update_where (λ r. str_eq r.id job.id) f (p.rows s.jobs))
  unfolding settle attempt mark_completed mark_failed is_retryable_error
  settle-IsWrite id job s h m =
      let s1 = (process_job p x o job s).1 in
      let same = jobs-process_job job s in
      let m1 : Memᴰ job (p.rows s1.jobs) = rw same m in
      elim (Result-cases (process_job p x o job s).0) [
        | inl (r, e) ↦
            let (t, w, q) = write_job_ok job.id (done o.clock) s1 job (eq_refl job.id) m1 in
            (
              done o.clock,
              complete,
              rw (e, w)
                  (q
                    ∙ ap (λ t. update_where (λ r. str_eq r.id job.id) (done o.clock) (p.rows t))
                        same),
            )
        | inr (e, bad) ↦ elim (Bool-cases (ltb job.attempts o.max_attempts)) [
          | inl more ↦
              let at = o.clock + retry_delay_ms job.attempts o.retry_base_ms in
              let f = retried at (message_of x e) in
              let (t, w, q) = write_job_ok job.id f s1 job (eq_refl job.id) m1 in
              (
                f,
                retry job at (message_of x e) m h (ground arith) refl,
                rw (bad, more, w)
                    (q ∙ ap (λ t. update_where (λ r. str_eq r.id job.id) f (p.rows t)) same),
              )
          | inr last ↦
              let f = given_up o.clock (message_of x e) in
              let (t, w, q) = write_job_ok job.id f s1 job (eq_refl job.id) m1 in
              (
                f,
                give_up job (message_of x e) m h (ground arith),
                rw (bad, last, w)
                    (q ∙ ap (λ t. update_where (λ r. str_eq r.id job.id) f (p.rows t)) same),
              )
        ]
      ]

  pub rows-claim :
      (id : String) (s : Store p)
      → p.rows (claim p x o id s).1.jobs ≡ after_claim o id (p.rows s.jobs)
  unfolding claim
  rows-claim id s =
      (p.update_many_law (λ r. str_eq r.id id && is_pending r.status) (claimed o.clock) s.jobs).0

  pub count-claim :
      (id : String) (s : Store p)
      → (claim p x o id s).0
        ≡ ok (count (λ r. str_eq r.id id && is_pending r.status) (p.rows s.jobs))
  unfolding claim
  count-claim id s =
      ap ok
        (p.update_many_law (λ r. str_eq r.id id && is_pending r.status) (claimed o.clock) s.jobs).1

  -- A round claims its candidate, and ends with one write to it if it was still pending.
  pub handle-IsRound :
      (c : SyncJob) (s : Store p)
      → IsRound o c.id (p.rows s.jobs) (p.rows (handle p x o c s).1.jobs)
  unfolding handle
  handle-IsRound c s =
      let s1 = (claim p x o c.id s).1 in
      let q = rows-claim c.id s in
      let w : SyncJob → Bool = λ r. str_eq r.id c.id && is_pending r.status in
      let n = count w (p.rows s.jobs) in
      let ok_n = count-claim c.id s in
      elim (Bool-cases (n == 0)) [
        | inl zero_rows ↦ inl (
          rw (ok_n, zero_rows) q,
          inl (All-of_count w (p.rows s.jobs) ((==_iff n 0).0 zero_rows)),
        )
        | inr claimed_it ↦ elim (find_first-cases p unordered (λ r. str_eq r.id c.id) s1.jobs) [
          | inl (gone, h) ↦ inl (rw (ok_n, claimed_it, gone) q, inr (rw (← q) h))
          | inr (job, found, h, m) ↦
              let (f, w, k) = settle-IsWrite c.id job s1 h m in
              let same : job.id ≡ c.id = (eq_iff job.id c.id).0 h in
              inr (
                f,
                subst (λ js. IsWrite o c.id js f) q w,
                rw (ok_n, claimed_it, found)
                    (k
                      ∙ ap₂
                          (λ (i : String) (js : List SyncJob).
                            update_where (λ r. str_eq r.id i) f js)
                          same q),
              )
        ]
      ]
