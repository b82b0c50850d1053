-- ===== src/SyncJobs/Types.antt =====
-- The queue of synchronization jobs. prisma/schema.prisma, jobs/syncJobs.ts
use fsm_backend.Prelude.{ℕ, String, Bool, Option}
use fsm_backend.Prisma.{Database}

pub data SyncJobStatus : Type 0 where
  pending processing completed failed : SyncJobStatus

-- `IntegrationProvider` and `SyncJobType`
pub data IntegrationProvider : Type 0 where
  quickbooks : IntegrationProvider

pub data SyncJobType : Type 0 where
  webhook manual : SyncJobType

-- A JSON value; a number by its text.
mutual
  pub data Json : Type 0 where
    null : Json
    bool : Bool → Json
    number : String → Json
    string : String → Json
    array : Items → Json
    object : Fields → Json

  pub data Items : Type 0 where
    nil : Items
    cons : Json → Items → Items

  pub data Fields : Type 0 where
    end : Fields
    field : String → Json → Fields → Fields

pub record SyncJob : Type 0 where
  pub id : String
  pub org_id : String
  pub provider : IntegrationProvider
  pub connection_id : Option String
  pub type : SyncJobType
  pub status : SyncJobStatus
  pub payload : Json
  pub attempts : ℕ
  pub scheduled_at : Option ℕ
  pub started_at : Option ℕ
  pub completed_at : Option ℕ
  pub last_error : Option String
  pub created_at : ℕ

pub record IntegrationConnection : Type 0 where
  pub id : String
  pub org_id : String
  pub last_sync_at : Option ℕ

pub record Store (p : Database) : Type 0 where
  pub jobs : p.Table SyncJob
  pub connections : p.Table IntegrationConnection

-- `ProcessOptions` with its defaults filled in, and the clock's reading during the run.
pub record Options : Type 0 where
  pub now : ℕ
  pub clock : ℕ
  pub batch_size : ℕ
  pub max_attempts : ℕ
  pub retry_base_ms : ℕ
