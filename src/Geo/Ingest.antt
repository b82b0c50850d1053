-- ===== src/Geo/Ingest.antt =====
-- The pings of a batch. modules/geo-tracking/geoTracking.service.ts
use fsm_backend.Prelude.{Bool, ℕ, String, ◌≡◌, true, Memᴰ, List, [], ◌∷◌, distinct, str_eq, ◌&&◌}
use mathlib.Core.List.Permᴰ
use fsm_backend.Prisma.{Database, unordered}
use fsm_backend.Geo.Types.{GeoDevice, GeoPing, Store, PingInput, Env}
use fsm_backend.Geo.Tracking.{is_active_device, device_ids, new_ping}

module _ (F : Type 0) (p : Database) (env : Env) (org_id : String) where
  -- The rows are those of the batch, each with an active device of the organization and its resource.
  abbrev pub AreMade : List GeoDevice → List (PingInput F) → List (GeoPing F) → Type 0
  AreMade all [] [] = Unit
  AreMade all [] (g ∷ gs) = ⊥
  AreMade all (i ∷ is) [] = ⊥
  AreMade all (i ∷ is) (g ∷ gs) =
      ((d : GeoDevice) × Memᴰ d all
        × (d.org_id ≡ org_id)
        × (d.is_active ≡ true)
        × (d.id ≡ i.device_id)
        × ((n : ℕ) × (g ≡ new_ping F env org_id n i d)))
      × AreMade all is gs

  abbrev ids_of : List (PingInput F) → List String
  ids_of pings = distinct (device_ids F pings)

  abbrev devices_of : List (PingInput F) → Store F p → List GeoDevice
  devices_of pings s = p.find_many unordered (is_active_device org_id (ids_of pings)) s.devices

  abbrev is_own_active : GeoDevice → Bool
  is_own_active d = str_eq d.org_id org_id && d.is_active
