-- ===== src/Examples/Geo.antt =====
-- An organization with a device, its pings and their removal.
use fsm_backend.Prelude.{
  Bool, ◌↔◌, distinct, ◌≡◌, ◌+◌, refl, none, some, [], ◌∷◌, ℕ, String, true, List, length, select,
}
use fsm_backend.Memory.{memory}
use fsm_backend.Prisma.{create_all}
use fsm_backend.Errors.{ok}
use fsm_backend.Geo.Types.{Position, GeoPing, Store, PingInput, Env}
use fsm_backend.Geo.Tracking.{make_pings, store_pings, ingest_geo_pings}
use fsm_backend.Geo.Cleanup.{cleanup_geo_pings, cleanup_each}
use fsm_backend.Geo.Retention.{IsRetained, cleanup-IsRetained}

abbrev env : Env
env = record { now = 1; new_id = "device-2"; ping_id = λ n. "ping-3" }

-- Numbers stand for the coordinates.
abbrev here : Position ℕ
here = record {
  latitude = 45;
  longitude = 12;
  accuracy_meters = none;
  altitude_meters = none;
  speed_mps = none;
  heading_deg = none;
}

abbrev ping : String → ℕ → GeoPing ℕ
ping id t = record {
  id = id;
  org_id = "org-1";
  device_id = "device-1";
  service_resource_id = "resource-1";
  recorded_at = t;
  position = here;
}

abbrev store : Store ℕ memory
unfolding memory
store = record {
  organizations = record { id = "org-1"; geo_retention_days = some 0 } ∷ [];
  resources = record { id = "resource-1"; org_id = "org-1" } ∷ [];
  devices =
      record {
        id = "device-1";
        org_id = "org-1";
        service_resource_id = "resource-1";
        device_identifier = "imei";
        label = none;
        is_active = true;
        created_at = 1;
      }
      ∷ [];
  pings = ping "ping-1" 5 ∷ ping "ping-2" 90000000 ∷ [];
}

-- Pings are kept for a day at least.
cleanup_works : (cleanup_geo_pings ℕ memory 100000000 store).1 ≡ 1
unfolding memory cleanup_geo_pings cleanup_each
cleanup_works = refl

cleanup-IsRetained_example :
    (kept : GeoPing ℕ → Bool) × (memory.rows (cleanup_geo_pings ℕ memory 100000000 store).0.pings
      ≡ select kept (memory.rows store.pings))
    × ((g : GeoPing ℕ)
        → (kept g ≡ true) ↔ IsRetained ℕ memory 100000000 (memory.rows store.organizations) g)
    × ((cleanup_geo_pings ℕ memory 100000000 store).1
          + length (memory.rows (cleanup_geo_pings ℕ memory 100000000 store).0.pings)
        ≡ length (memory.rows store.pings))
cleanup-IsRetained_example = cleanup-IsRetained ℕ memory 100000000 store

abbrev batch : List (PingInput ℕ)
batch = record { device_id = "device-1"; recorded_at = 100000000; position = here } ∷ []

ingest_works : (ingest_geo_pings ℕ memory env "org-1" batch store).0 ≡ ok 1
unfolding memory ingest_geo_pings distinct make_pings store_pings create_all
ingest_works = refl
