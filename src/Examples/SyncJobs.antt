-- ===== src/Examples/SyncJobs.antt =====
-- A queue with a due job and a completed one.
use fsm_backend.Prelude.{
  ◌≤◌, ne_text, ℕ, refl, none, some, [], ◌∷◌, Memᴰ, ◌≡◌, HasDistinctKeys, false,
}
use fsm_backend.Memory.{memory}
use fsm_backend.Errors.{ok}
use fsm_backend.SyncJobs.Types.{
  Store, SyncJob, Options, null, pending, completed, webhook, quickbooks,
}
use fsm_backend.SyncJobs.Worker.{Externals, claim, process_pending_sync_jobs}
use fsm_backend.SyncJobs.Queue.{run-not_due}
use fsm_backend.SyncJobs.Attempts.{AreBounded, run-AreBounded, claim-claim}

abbrev due_job : SyncJob
due_job = record {
  id = "job-1";
  org_id = "org-1";
  provider = quickbooks;
  connection_id = some "connection-1";
  type = webhook;
  status = pending;
  payload = null;
  attempts = 1;
  scheduled_at = some 50;
  started_at = none;
  completed_at = none;
  last_error = none;
  created_at = 10;
}

abbrev completed_job : SyncJob
completed_job = record due_job {
  id = "job-2";
  status = completed;
  attempts = 5;
  completed_at = some 60;
}

abbrev options : Options
options = record {
  now = 100;
  clock = 101;
  batch_size = 20;
  max_attempts = 5;
  retry_base_ms = 30000;
}

abbrev externals : Externals
externals = record { json_equals = λ a b. false; prisma_message = λ e. "error" }

abbrev store : Store memory
unfolding memory
store = record { jobs = due_job ∷ completed_job ∷ []; connections = [] }

store-distinct : HasDistinctKeys (λ (j : SyncJob). j.id) (memory.rows store.jobs)
unfolding memory
store-distinct = ((ne_text "job-2" "job-1" refl, tt), (tt, tt))

completed_in : Memᴰ completed_job (memory.rows store.jobs)
unfolding memory
completed_in = Memᴰ.tail (Memᴰ.head refl)

store-AreBounded : AreBounded 5 (memory.rows store.jobs)
unfolding memory
store-AreBounded = (refl, (refl, tt))

run-not_due_example :
    Memᴰ completed_job
      (memory.rows (process_pending_sync_jobs memory externals options store).1.jobs)
run-not_due_example = run-not_due memory externals options store store-distinct completed_in refl

run-AreBounded_example :
    AreBounded 5 (memory.rows (process_pending_sync_jobs memory externals options store).1.jobs)
run-AreBounded_example =
    run-AreBounded memory externals options store store-distinct store-AreBounded

claim-claim_example :
    ((n : ℕ) × ((claim memory externals options "job-1" store).0 ≡ ok n) × n ≤ 1)
    × ((claim memory externals options "job-1" (claim memory externals options "job-1" store).1).0
        ≡ ok 0)
claim-claim_example = claim-claim memory externals options options "job-1" store store-distinct
