-- ===== src/Geo/Tracking.antt =====
-- Devices and pings. modules/geo-tracking/geoTracking.service.ts
use fsm_backend.Prelude.{
  ℕ, suc, ◌==◌, leb, String, Bool, true, ◌&&◌, Option, none, some, List, [], ◌∷◌, map, length, take,
  elem, distinct, or_else, str_eq, if◌then◌else◌,
}
use fsm_backend.Errors.{
  Thrown, app, plain, Result, ok, err, M, ◌>>=◌, ◌>>◌, return, require, guard, gets, commit,
  catch_unique,
}
use fsm_backend.Prisma.{Database, unordered, descending, id_unique, create_all}
use fsm_backend.Geo.Types.{
  ServiceResource, GeoDevice, device_unique, GeoPing, Store, PingInput, Env, DeviceInput,
  PingsQuery,
}

abbrev pub service_resource_not_found : Thrown
service_resource_not_found = app (record {
  message = "Service resource not found";
  status_code = 404;
  code = "SERVICE_RESOURCE_NOT_FOUND";
})

abbrev pub geo_device_not_found : Thrown
geo_device_not_found =
    app (record {
      message = "Geo device not found";
      status_code = 404;
      code = "GEO_DEVICE_NOT_FOUND";
    })

abbrev pub geo_device_identifier_taken : Thrown
geo_device_identifier_taken = app (record {
  message = "Geo device identifier already registered";
  status_code = 409;
  code = "GEO_DEVICE_IDENTIFIER_TAKEN";
})

-- `deviceById.get(id)!` of a device that is missing
abbrev pub type_error : Thrown
type_error = plain "Cannot read properties of undefined (reading 'serviceResourceId')"

abbrev pub find_device : String → List GeoDevice → Option GeoDevice
find_device id [] = none
find_device id (d ∷ ds) = if str_eq d.id id then some d else find_device id ds

-- `where: { id: { in: deviceIds }, orgId, isActive: true }`
abbrev pub is_active_device : String → List String → GeoDevice → Bool
is_active_device org_id ids d = (str_eq d.org_id org_id && d.is_active) && elem d.id ids

module _ (F : Type 0) where
  abbrev pub device_ids : List (PingInput F) → List String
  device_ids pings = map (λ (i : PingInput F). i.device_id) pings

  abbrev pub new_ping : Env → String → ℕ → PingInput F → GeoDevice → GeoPing F
  new_ping env org_id n i d = record {
    id = env.ping_id n;
    org_id = org_id;
    device_id = i.device_id;
    service_resource_id = d.service_resource_id;
    recorded_at = i.recorded_at;
    position = i.position;
  }

  abbrev pub add_ping :
      Env
      → String
      → ℕ
      → PingInput F
      → Option GeoDevice
      → Result (List (GeoPing F))
      → Result (List (GeoPing F))
  add_ping env org_id n i none rest = err type_error
  add_ping env org_id n i (some d) (err e) = err e
  add_ping env org_id n i (some d) (ok gs) = ok (new_ping env org_id n i d ∷ gs)

  unfoldable pub make_pings :
      Env → String → List GeoDevice → ℕ → List (PingInput F) → Result (List (GeoPing F))
  make_pings env org_id ds n [] = ok []
  make_pings env org_id ds n (i ∷ is) =
      add_ping env org_id n i (find_device i.device_id ds) (make_pings env org_id ds (suc n) is)

  module _ (p : Database) where
    unfoldable pub ensure_service_resource : String → String → M (Store F p) ServiceResource
    ensure_service_resource org_id id = do
      found ← gets λ s.
          p.find_first unordered (λ (r : ServiceResource). str_eq r.id id && str_eq r.org_id org_id)
            s.resources
      require found service_resource_not_found

    abbrev pub new_device : Env → String → DeviceInput → GeoDevice
    new_device env org_id input = record {
      id = env.new_id;
      org_id = org_id;
      service_resource_id = input.service_resource_id;
      device_identifier = input.device_identifier;
      label = input.label;
      is_active = or_else input.is_active true;
      created_at = env.now;
    }

    unfoldable pub create_geo_device : Env → String → DeviceInput → M (Store F p) GeoDevice
    create_geo_device env org_id input = do
      ensure_service_resource org_id input.service_resource_id
      λ s. catch_unique "deviceIdentifier" geo_device_identifier_taken (
          commit s (λ t. record s { devices = t })
            (p.create device_unique (new_device env org_id input) s.devices))
      return (new_device env org_id input)

    unfoldable pub store_pings : List (GeoPing F) → M (Store F p) (Unit {0})
    store_pings rows s =
        commit s (λ t. record s { pings = t })
          (create_all p (id_unique (λ (g : GeoPing F). g.id)) rows s.pings)

    unfoldable pub ingest_geo_pings : Env → String → List (PingInput F) → M (Store F p) ℕ
    ingest_geo_pings env org_id pings = do
      devices ← gets λ s.
          p.find_many unordered (is_active_device org_id (distinct (device_ids pings))) s.devices
      guard (length devices == length (distinct (device_ids pings))) geo_device_not_found
      rows ← (λ s. (make_pings env org_id devices 0 pings, s))
      store_pings rows
      return (length rows)

    -- `where: { orgId, serviceResourceId }`
    abbrev pub is_ping_of : String → String → GeoPing F → Bool
    is_ping_of org_id resource_id g =
        str_eq g.org_id org_id && str_eq g.service_resource_id resource_id

    abbrev pub newest_first_of : Store F p → (GeoPing F → Bool) → ℕ → List (GeoPing F)
    newest_first_of s w limit =
        take limit (p.find_many (descending (λ (g : GeoPing F). g.recorded_at)) w s.pings)

    unfoldable pub get_latest_geo_ping : String → String → M (Store F p) (Option (GeoPing F))
    get_latest_geo_ping org_id resource_id = do
      ensure_service_resource org_id resource_id
      gets λ s.
          p.find_first (descending (λ (g : GeoPing F). g.recorded_at))
            (is_ping_of org_id resource_id) s.pings

    abbrev pub not_before : Option ℕ → ℕ → Bool
    not_before none t = true
    not_before (some u) t = leb u t

    abbrev pub not_after : Option ℕ → ℕ → Bool
    not_after none t = true
    not_after (some u) t = leb t u

    unfoldable pub list_geo_pings_for_resource :
        String → String → PingsQuery → M (Store F p) (List (GeoPing F) × ℕ)
    list_geo_pings_for_resource org_id resource_id query = do
      ensure_service_resource org_id resource_id
      items ← gets λ s.
          newest_first_of s
            (λ g.
              is_ping_of org_id resource_id g
              && (not_before query.from_time g.recorded_at
                  && not_after query.to_time g.recorded_at))
            query.limit
      return (items, length items)
