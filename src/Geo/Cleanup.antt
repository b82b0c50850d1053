-- ===== src/Geo/Cleanup.antt =====
-- The removal of old pings. jobs/geoPingCleanup.ts
use fsm_backend.Prelude.{
  max, ℕ, ◌+◌, ◌-◌, ◌*◌, ltb, Bool, true, ◌&&◌, List, [], ◌∷◌, or_else, str_eq,
}
use fsm_backend.Prisma.{Database, unordered}
use fsm_backend.Geo.Types.{Organization, GeoPing, Store}

-- `Math.max(1, org.geoRetentionDays ?? 365)`
abbrev pub retention_days : Organization → ℕ
retention_days o = max 1 (or_else o.geo_retention_days 365)

-- Times are not negative, so a cutoff before 1970 may as well be 0.
abbrev pub cutoff : ℕ → Organization → ℕ
cutoff reference o = reference - retention_days o * 24 * 60 * 60 * 1000

module _ (F : Type 0) where
  -- `where: { orgId: org.id, recordedAt: { lt: cutoff } }`
  abbrev pub is_expired : ℕ → GeoPing F → Organization → Bool
  is_expired reference g o = str_eq g.org_id o.id && ltb g.recorded_at (cutoff reference o)

  module _ (p : Database) where
    -- The loop over the organizations, with the number of pings removed so far.
    unfoldable pub cleanup_each :
        ℕ → List Organization → p.Table (GeoPing F) → ℕ → p.Table (GeoPing F) × ℕ
    cleanup_each reference [] t removed = (t, removed)
    cleanup_each reference (o ∷ os) t removed =
        let (u, n) = p.delete_many (λ g. is_expired reference g o) t in
        cleanup_each reference os u (removed + n)

    unfoldable pub cleanup_geo_pings : ℕ → Store F p → Store F p × ℕ
    cleanup_geo_pings reference s =
        let (t, removed) =
          cleanup_each reference
            (p.find_many unordered (λ (o : Organization). true) s.organizations) s.pings 0 in
        (record s { pings = t }, removed)
