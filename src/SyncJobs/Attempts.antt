-- ===== src/SyncJobs/Attempts.antt =====
-- Attempts, retries and claims of jobs.
use fsm_backend.SyncJobs.Types.{Store, SyncJob, Options}
use fsm_backend.Prelude.{
  suc, sym, ap, HasDistinctKeys-mem, ◌∙◌, eq_iff, count_one, inr, All-of_mem, one_of,
  All-update_where_with, inl, ◌&&◌, All-update_where, str_eq, count, ◌<◌, true, ◌*◌, suc, ◌≡◌,
  arith, HasDistinctKeys, Bool, All, ◌+◌, ◌^◌, ◌≤◌, List, refl, [], ◌∷◌, ℕ, String, ltb, leb,
  update_where, if◌then◌else◌,
}
use fsm_backend.Prisma.{Database}
use fsm_backend.Errors.{ok}
use fsm_backend.SyncJobs.Rounds.{
  rows-claim, count-claim, after_claim, IsWrite, IsRound, complete, retry, give_up,
}
use fsm_backend.SyncJobs.Worker.{
  candidates, given_up, retried, claim, claimed, done, process_pending_sync_jobs, Externals,
  is_pending,
}
use fsm_backend.SyncJobs.Queue.{
  HasDistinctKeys-after_claim, HasDistinctKeys-IsRound, handle_all-keeps,
}

-- A pending job has an attempt left, and no job has had more than the maximum.
abbrev pub has_attempts : ℕ → SyncJob → Bool
has_attempts most j = if is_pending j.status then ltb j.attempts most else leb j.attempts most

abbrev pub AreBounded : ℕ → List SyncJob → Type 0
AreBounded most js = All (λ j. has_attempts most j ≡ true) js

AreBounded-IsRound :
    (o : Options) (id : String) (js js' : List SyncJob)
    → IsRound o id js js'
    → HasDistinctKeys (λ (j : SyncJob). j.id) js
    → AreBounded o.max_attempts js
    → AreBounded o.max_attempts js'
AreBounded-IsRound o id js js' step d h =
    let P : SyncJob → Type 0 = λ j. has_attempts o.max_attempts j ≡ true in
    let h1 : All P (after_claim o id js) =
      All-update_where P (λ r. str_eq r.id id && is_pending r.status) (claimed o.clock) js
        (λ a w b. ground arith) h in
    elim step [ inl (e, gone) ↦ rw e h1 | inr (f, w, e) ↦ rw e (written f w h1) ]
  where
    written :
        (f : SyncJob → SyncJob)
        → IsWrite o id (after_claim o id js) f
        → AreBounded o.max_attempts (after_claim o id js)
        → AreBounded o.max_attempts (update_where (λ r. str_eq r.id id) f (after_claim o id js))
    written f complete b =
        All-update_where (λ j. has_attempts o.max_attempts j ≡ true) (λ r. str_eq r.id id) f
          (after_claim o id js) (λ a w k. ground arith) b
    written f (give_up job message m i l) b =
        All-update_where (λ j. has_attempts o.max_attempts j ≡ true) (λ r. str_eq r.id id) f
          (after_claim o id js) (λ a w k. ground arith) b
    written f (retry job at message m i l e) b =
        All-update_where_with (λ j. has_attempts o.max_attempts j ≡ true)
          (λ a. a.id ≡ job.id → a ≡ job) (λ r. str_eq r.id id) f (after_claim o id js)
          (λ a w k only.
            let same : a.id ≡ id = (eq_iff a.id id).0 w in
            let same' : job.id ≡ id = (eq_iff job.id id).0 i in
            let q : a ≡ job = only (same ∙ sym same') in
            let n : a.attempts < o.max_attempts = rw q l in ground arith)
          b
          (HasDistinctKeys-mem (λ (j : SyncJob). j.id) (after_claim o id js)
            (HasDistinctKeys-after_claim o id js d) m)

-- The rows of a job after the round that claims it.
pub data IsSettled (o : Options) (c : SyncJob) : SyncJob → Type 0 where
  is_done : IsSettled o c (done o.clock (claimed o.clock c))
  is_retried :
      (message : String)
      → c.attempts + 1 < o.max_attempts
      → IsSettled o c
          (retried (o.clock + o.retry_base_ms * 2 ^ c.attempts) message (claimed o.clock c))
  is_given_up :
      (message : String)
      → o.max_attempts ≤ c.attempts + 1
      → IsSettled o c (given_up o.clock message (claimed o.clock c))

module _ (p : Database) (x : Externals) (o : Options) where
  -- A run of the worker keeps each pending job below the maximum of attempts and each other job
  -- within it, if that held before and ids are distinct.
  pub run-AreBounded :
      (s : Store p)
      → HasDistinctKeys (λ (j : SyncJob). j.id) (p.rows s.jobs)
      → AreBounded o.max_attempts (p.rows s.jobs)
      → AreBounded o.max_attempts (p.rows (process_pending_sync_jobs p x o s).1.jobs)
  unfolding process_pending_sync_jobs
  run-AreBounded s d h =
      (handle_all-keeps p x o
        (λ js. HasDistinctKeys (λ (j : SyncJob). j.id) js × AreBounded o.max_attempts js)
        (candidates p x o s)
        (All-of_mem
          (λ c.
            (js js' : List SyncJob)
            → IsRound o c.id js js'
            → HasDistinctKeys (λ (j : SyncJob). j.id) js × AreBounded o.max_attempts js
            → HasDistinctKeys (λ (j : SyncJob). j.id) js' × AreBounded o.max_attempts js')
          (candidates p x o s)
          (λ c m js js' step k. (
            HasDistinctKeys-IsRound o c.id js js' step k.0,
            AreBounded-IsRound o c.id js js' step k.0 k.1,
          )))
        s (d, h)).1

  -- A claim takes at most one row, and a second claim of the same job right after it takes none,
  -- if ids are distinct.
  pub claim-claim :
      (o' : Options) (id : String) (s : Store p)
      → HasDistinctKeys (λ (j : SyncJob). j.id) (p.rows s.jobs)
      → ((n : ℕ) × ((claim p x o id s).0 ≡ ok n) × n ≤ 1)
        × ((claim p x o' id (claim p x o id s).1).0 ≡ ok 0)
  claim-claim o' id s d = (
    (_, count-claim p x o id s, at_most_one (p.rows s.jobs) d),
    count-claim p x o' id (claim p x o id s).1
        ∙ ap ok (rw (rows-claim p x o id s) (none_pending (p.rows s.jobs))),
  )
    where
      fewer :
          (js : List SyncJob)
          → count (λ r. str_eq r.id id && is_pending r.status) js
            ≤ count (one_of (λ (j : SyncJob). j.id) (λ j. true) id) js
      fewer [] = omega arith
      fewer (j ∷ js) = ground (arith, fewer js)

      at_most_one :
          (js : List SyncJob)
          → HasDistinctKeys (λ (j : SyncJob). j.id) js
          → count (λ r. str_eq r.id id && is_pending r.status) js ≤ 1
      at_most_one js k =
          omega (arith, fewer js, count_one (λ (j : SyncJob). j.id) (λ j. true) id js k)

      none_pending :
          (js : List SyncJob)
          → count (λ r. str_eq r.id id && is_pending r.status) (after_claim o id js) ≡ 0
      none_pending [] = refl
      none_pending (j ∷ js) = ground (arith, none_pending js)
