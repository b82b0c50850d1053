-- ===== src/Geo/Types.antt =====
-- The tables of geo tracking. prisma/schema.prisma, modules/geo-tracking/dto/geoTracking.dto.ts
use fsm_backend.Prelude.{ℕ, String, Bool, Option, List, [], ◌∷◌, ◌&&◌, str_eq}
use fsm_backend.Prisma.{Unique, Database}

pub record Organization : Type 0 where
  pub id : String
  pub geo_retention_days : Option ℕ

pub record ServiceResource : Type 0 where
  pub id : String
  pub org_id : String

pub record GeoDevice : Type 0 where
  pub id : String
  pub org_id : String
  pub service_resource_id : String
  pub device_identifier : String
  pub label : Option String
  pub is_active : Bool
  pub created_at : ℕ

-- The primary key, and `@@unique([orgId, deviceIdentifier])`
abbrev pub device_unique : List (Unique GeoDevice)
device_unique =
    record { target = "id" ∷ []; clash = λ a b. str_eq a.id b.id }
    ∷ record {
      target = "orgId" ∷ "deviceIdentifier" ∷ [];
      clash = λ a b. str_eq a.org_id b.org_id && str_eq a.device_identifier b.device_identifier;
    }
    ∷ []

-- `F` is the type of floating-point numbers, which the service passes on as they are.
module _ (F : Type 0) where
  -- What is measured.
  pub record Position : Type 0 where
    pub latitude : F
    pub longitude : F
    pub accuracy_meters : Option F
    pub altitude_meters : Option F
    pub speed_mps : Option F
    pub heading_deg : Option F

  pub record GeoPing : Type 0 where
    pub id : String
    pub org_id : String
    pub device_id : String
    pub service_resource_id : String
    pub recorded_at : ℕ
    pub position : Position

  pub record Store (p : Database) : Type 0 where
    pub organizations : p.Table Organization
    pub resources : p.Table ServiceResource
    pub devices : p.Table GeoDevice
    pub pings : p.Table GeoPing

  -- `GeoPingIngestItem`, its time read.
  pub record PingInput : Type 0 where
    pub device_id : String
    pub recorded_at : ℕ
    pub position : Position

-- The clock, and the ids that the database generates; those of pings by their place.
pub record Env : Type 0 where
  pub now : ℕ
  pub new_id : String
  pub ping_id : ℕ → String

-- `GeoDeviceCreateInput`
pub record DeviceInput : Type 0 where
  pub service_resource_id : String
  pub device_identifier : String
  pub label : Option String
  pub is_active : Option Bool

-- `GeoPingsQuery`, its times read.
pub record PingsQuery : Type 0 where
  pub from_time : Option ℕ
  pub to_time : Option ℕ
  pub limit : ℕ
