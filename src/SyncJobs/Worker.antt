-- ===== src/SyncJobs/Worker.antt =====
-- One run of the worker. jobs/syncJobs.ts
use fsm_backend.Prelude.{
  ℕ, ◌+◌, ◌-◌, ◌*◌, ◌^◌, max, String, Bool, true, false, not, ◌&&◌, Option, none, some, List, [],
  ◌∷◌, take, or_else, opt_eq, truthy, str_eq, ltb, leb, ◌==◌, if◌then◌else◌,
}
use fsm_backend.Errors.{
  Thrown, app, prisma, plain, PrismaError, Result, ok, err, M, ◌>>=◌, ◌>>◌, return, throw, gets,
  commit,
}
use fsm_backend.Prisma.{Database, unordered, ascending_null_then}
use fsm_backend.SyncJobs.Types.{
  SyncJobStatus, pending, processing, completed, failed, IntegrationProvider, quickbooks,
  SyncJobType, webhook, manual, Json, null, string, array, object, Fields, end, field, SyncJob,
  Store, Options,
}

pub data Outcome : Type 0 where
  processed duplicate : Outcome

pub record WebhookPayload : Type 0 where
  pub idempotency_key : Option String
  pub event : Option Json

-- A property of an object.
unfoldable pub get_field : String → Fields → Option Json
get_field k end = none
get_field k (field j v fs) = if str_eq j k then some v else get_field k fs

abbrev pub as_string : Option Json → Option String
as_string (some (string s)) = some s
as_string _ = none

unfoldable pub read_webhook_payload : Json → WebhookPayload
unfolding get_field
read_webhook_payload (object fs) = record {
  idempotency_key = as_string (get_field "idempotencyKey" fs);
  event = get_field "event" fs;
}
read_webhook_payload (array xs) = record { idempotency_key = none; event = none }
read_webhook_payload _ = record { idempotency_key = none; event = none }

-- `retryBaseMs * Math.max(1, 2 ** Math.max(0, attempt - 1))`; `-` stops at 0, as the inner `max`.
unfoldable pub retry_delay_ms : ℕ → ℕ → ℕ
retry_delay_ms attempt retry_base_ms = retry_base_ms * max 1 (2 ^ (attempt - 1))

abbrev pub is_pending : SyncJobStatus → Bool
is_pending pending = true
is_pending _ = false

abbrev pub is_completed : SyncJobStatus → Bool
is_completed completed = true
is_completed _ = false

abbrev pub same_type : SyncJobType → SyncJobType → Bool
same_type webhook webhook = true
same_type manual manual = true
same_type _ _ = false

abbrev pub same_provider : IntegrationProvider → IntegrationProvider → Bool
same_provider quickbooks quickbooks = true

-- `data` of the claim.
abbrev pub claimed : ℕ → SyncJob → SyncJob
claimed clock j = record j {
  status = processing;
  started_at = some clock;
  attempts = j.attempts + 1;
  last_error = none;
}

-- `data` of `markCompleted`.
abbrev pub done : ℕ → SyncJob → SyncJob
done clock j = record j { status = completed; completed_at = some clock; last_error = none }

-- `data` of `markFailed`, with a retry and without.
abbrev pub retried : ℕ → String → SyncJob → SyncJob
retried at message j = record j {
  status = pending;
  scheduled_at = some at;
  last_error = some message;
}

abbrev pub given_up : ℕ → String → SyncJob → SyncJob
given_up clock message j = record j {
  status = failed;
  completed_at = some clock;
  last_error = some message;
}

-- `status: "PENDING", OR: [{ scheduledAt: null }, { scheduledAt: { lte: now } }]`
abbrev pub is_due : ℕ → SyncJob → Bool
is_due now j = is_pending j.status && elim j.scheduled_at [ none ↦ true | some at ↦ leb at now ]

-- What the run takes from the database and its client: whether a stored payload equals a JSON
-- value, and the message of an error of the client.
pub record Externals : Type 0 where
  pub json_equals : Json → Json → Bool
  pub prisma_message : PrismaError → String

unfoldable pub message_of : Externals → Thrown → String
message_of x (app e) = e.message
message_of x (plain m) = m
message_of x (prisma e) = x.prisma_message e

-- `error.message` is searched for "timeout" and "network", and every error is retryable all the
-- same.
unfoldable pub is_retryable_error : Thrown → Bool
is_retryable_error e = true

module _ (p : Database) (x : Externals) where
  -- `update` of a job by its id.
  unfoldable pub write_job : String → (SyncJob → SyncJob) → M (Store p) (Unit {0})
  write_job id f s =
      commit s (λ t. record s { jobs = t }) (p.update [] (λ r. str_eq r.id id) f s.jobs)

  unfoldable pub mark_completed : Options → String → M (Store p) (Unit {0})
  mark_completed o id = write_job id (done o.clock)

  unfoldable pub mark_failed : Options → SyncJob → Thrown → M (Store p) (Unit {0})
  mark_failed o job e =
      if ltb job.attempts o.max_attempts && is_retryable_error e
      then write_job job.id
          (retried (o.clock + retry_delay_ms job.attempts o.retry_base_ms) (message_of x e))
      else write_job job.id (given_up o.clock (message_of x e))

  -- The completed job of the same kind with the same key and event, if there is one.
  find_duplicate : SyncJob → Option String → Option Json → Store p → Option SyncJob
  find_duplicate job none event s = none
  find_duplicate job (some key) event s =
      p.find_first unordered
        (λ r.
          not (str_eq r.id job.id)
          && (str_eq r.org_id job.org_id
              && (same_provider r.provider job.provider
                  && (opt_eq r.connection_id job.connection_id
                      && (same_type r.type job.type
                          && (is_completed r.status
                              && x.json_equals r.payload (
                                  object (
                                    field "idempotencyKey" (string key)
                                      (field "event" (or_else event null) end)))))))))
        s.jobs

  -- `if (job.connectionId) updateMany(…)`
  touch_connection : Options → SyncJob → Option String → M (Store p) (Unit {0})
  touch_connection o job none = return tt
  touch_connection o job (some connection_id) = λ s. (
    ok tt,
    record s {
      connections =
          (p.update_many (λ c. str_eq c.id connection_id && str_eq c.org_id job.org_id)
            (λ c. record c { last_sync_at = some o.clock }) s.connections).0;
    },
  )

  process_new : Options → SyncJob → Option SyncJob → M (Store p) Outcome
  process_new o job (some found) = return duplicate
  process_new o job none = do touch_connection o job (truthy job.connection_id); return processed

  unfoldable pub process_quick_books_webhook : Options → SyncJob → M (Store p) Outcome
  unfolding find_duplicate touch_connection process_new
  process_quick_books_webhook o job = do
    let payload = read_webhook_payload job.payload
    found ← gets λ s. find_duplicate job (truthy payload.idempotency_key) payload.event s
    process_new o job found

  unfoldable pub process_job : Options → SyncJob → M (Store p) Outcome
  process_job o job =
      if same_provider job.provider quickbooks && same_type job.type webhook
      then process_quick_books_webhook o job
      else throw (plain "Unsupported sync job handler for QUICKBOOKS:MANUAL")

  -- The `try` block: the job is processed and marked as completed.
  unfoldable pub attempt : Options → SyncJob → M (Store p) Outcome
  attempt o job = do result ← process_job o job; mark_completed o job.id; return result

  -- The `catch`: what the loop counts for a job.
  unfoldable pub settle : Options → SyncJob → Result Outcome × Store p → Result ℕ × Store p
  settle o job (ok result, s) = (ok 1, s)
  settle o job (err e, s) = (mark_failed o job e >> return 0) s

  handle_found : Options → Option SyncJob → M (Store p) ℕ
  handle_found o none = return 0
  handle_found o (some job) = λ s. settle o job (attempt o job s)

  load_and_handle : Options → String → M (Store p) ℕ
  load_and_handle o id = do
    job ← gets λ s. p.find_first unordered (λ r. str_eq r.id id) s.jobs
    handle_found o job

  -- `updateMany` of the job if it is still pending; the number of rows.
  unfoldable pub claim : Options → String → M (Store p) ℕ
  claim o id s =
      let (t, n) =
        p.update_many (λ r. str_eq r.id id && is_pending r.status) (claimed o.clock) s.jobs in
      (ok n, record s { jobs = t })

  -- One round of the loop: 1 if the job was processed.
  unfoldable pub handle : Options → SyncJob → M (Store p) ℕ
  unfolding load_and_handle handle_found
  handle o candidate = do
    count ← claim o candidate.id
    (if count == 0 then return 0 else load_and_handle o candidate.id)

  unfoldable pub handle_all : Options → List SyncJob → M (Store p) ℕ
  handle_all o [] = return 0
  handle_all o (c ∷ cs) = do n ← handle o c; rest ← handle_all o cs; return (n + rest)

  unfoldable pub candidates : Options → Store p → List SyncJob
  candidates o s = take o.batch_size (
      p.find_many (ascending_null_then (λ j. j.scheduled_at) (λ j. j.created_at)) (is_due o.now)
        s.jobs)

  unfoldable pub process_pending_sync_jobs : Options → M (Store p) ℕ
  process_pending_sync_jobs o = do batch ← gets λ s. candidates o s; handle_all o batch
