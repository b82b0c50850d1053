-- ===== src/Scheduling/Defaults.antt =====
-- An organization has at most one default booking status.
use fsm_backend.Prisma.{unordered, find_first-cases, Database}
use fsm_backend.Prelude.{
  ◌∙◌, HasDistinctKeys-mem, All-imp, count_one, HasDistinctKeys, Memᴰ, count-append, ◌++◌,
  Bool-cases, ◌⊎◌, inl, inr, ℕ, ◌≤◌, String, ◌≡◌, refl, Bool, true, false, not, ◌&&◌, List, [], ◌∷◌,
  All, count, one_of, update_where, or_else, str_eq, eq_iff, arith,
}
use fsm_backend.Scheduling.Types.{status_name_unique, status_unique, Env, Store, BookingStatus}
use fsm_backend.Scheduling.Statuses.{
  update_booking_status, new_status, StatusInput, clear_defaults, create_booking_status,
  StatusUpdateInput, is_default_of, clear_default, update_status_fields,
}

abbrev pub status_id : BookingStatus → String
status_id r = r.id

-- How many default statuses an organization has.
abbrev pub defaults : String → List BookingStatus → ℕ
defaults o rs = count (is_default_of o) rs

defaults_clear_le :
    (o : String) (w : BookingStatus → Bool) (rs : List BookingStatus)
    → defaults o (update_where w clear_default rs) ≤ defaults o rs
defaults_clear_le o w [] = omega arith
defaults_clear_le o w (r ∷ rs) = ground (arith, defaults_clear_le o w rs)

defaults_cleared :
    (o : String) (rs : List BookingStatus)
    → defaults o (update_where (is_default_of o) clear_default rs) ≡ 0
defaults_cleared o [] = refl
defaults_cleared o (r ∷ rs) = ground (arith, defaults_cleared o rs)

-- The writes of `updateBookingStatus` to the table: the other defaults cleared, and the fields.
abbrev written : String → String → StatusUpdateInput → List BookingStatus → List BookingStatus
written o id input rs =
    update_where (λ r. str_eq r.id id) (update_status_fields input)
      (update_where (λ r. is_default_of o r && not (str_eq r.id id)) clear_default rs)

defaults-written_own :
    (o id : String) (input : StatusUpdateInput) (rs : List BookingStatus)
    → defaults o (written o id input rs) ≤ count (one_of status_id (λ r. true) id) rs
unfolding update_status_fields
defaults-written_own o id input [] = omega arith
defaults-written_own o id input (r ∷ rs) = ground (arith, defaults-written_own o id input rs)

defaults-written_other :
    (o org id : String) (input : StatusUpdateInput) (rs : List BookingStatus)
    → str_eq org o ≡ false
    → All (λ a. a.id ≡ id → a.org_id ≡ org) rs
    → defaults o (written org id input rs) ≤ defaults o rs
unfolding update_status_fields
defaults-written_other o org id input [] ne own = omega arith
defaults-written_other o org id input (r ∷ rs) ne own = ground (
  arith,
  defaults-written_other o org id input rs ne own.1,
  eq_iff r.id id,
  eq_iff r.org_id org,
  eq_iff org o,
  eq_iff r.org_id o,
)

-- A write of the fields that does not make the status the default.
defaults_kept :
    (o id : String) (input : StatusUpdateInput) (rs : List BookingStatus)
    → or_else input.is_default false ≡ false
    → defaults o (update_where (λ r. str_eq r.id id) (update_status_fields input) rs)
      ≤ defaults o rs
unfolding update_status_fields
defaults_kept o id input [] h = omega arith
defaults_kept o id input (r ∷ rs) h = ground (arith, defaults_kept o id input rs h)

module _ (p : Database) where
  -- The table once the former defaults are cleared.
  abbrev cleared : Bool → (BookingStatus → Bool) → Store p → p.Table BookingStatus
  cleared d w s = (clear_defaults p d w s).1.statuses

  rows-cleared :
      (w : BookingStatus → Bool) (s : Store p)
      → p.rows (cleared true w s) ≡ update_where w clear_default (p.rows s.statuses)
  unfolding clear_defaults
  rows-cleared w s = (p.update_many_law w clear_default s.statuses).0

  rows-uncleared : (w : BookingStatus → Bool) (s : Store p) → cleared false w s ≡ s.statuses
  unfolding clear_defaults
  rows-uncleared w s = refl

  -- The statuses after a creation: as they were, or with the new one behind the cleared ones.
  statuses-create :
      (env : Env) (org_id : String) (input : StatusInput) (d : Bool) (s : Store p)
      → or_else input.is_default false ≡ d
      → ((create_booking_status p env org_id input s).1.statuses ≡ s.statuses)
        ⊎ (p.rows (create_booking_status p env org_id input s).1.statuses
            ≡ p.rows (cleared d (is_default_of org_id) s) ++ new_status env org_id input ∷ [])
  unfolding create_booking_status clear_defaults
  statuses-create env org_id input true s e =
      elim (p.create_law status_unique (new_status env org_id input)
        (cleared true (is_default_of org_id) s)) [
          | inl (t, c, free, q) ↦ inr (rw (e, c) q)
          | inr (u, c, m, k) ↦ inl (rw (e, c))
        ]
  statuses-create env org_id input false s e =
      elim (p.create_law status_unique (new_status env org_id input)
        (cleared false (is_default_of org_id) s)) [
          | inl (t, c, free, q) ↦ inr (rw (e, c) q)
          | inr (u, c, m, k) ↦ inl (rw (e, c))
        ]

  -- The creation of a booking status gives no organization a second default status, if the
  -- organization had at most one.
  pub create-defaults :
      (env : Env) (org_id o : String) (input : StatusInput) (s : Store p)
      → defaults o (p.rows s.statuses) ≤ 1
      → defaults o (p.rows (create_booking_status p env org_id input s).1.statuses) ≤ 1
  unfolding new_status
  create-defaults env org_id o input s h = elim (Bool-cases (or_else input.is_default false)) [
    | inl e ↦ elim (statuses-create env org_id input true s e) [
      | inl q ↦ rw q h
      | inr q ↦
          rw (q, rows-cleared)
            (ground (
              arith,
              count-append (is_default_of o)
                  (update_where (is_default_of org_id) clear_default (p.rows s.statuses))
                  (new_status env org_id input ∷ []),
              defaults_clear_le o (is_default_of org_id) (p.rows s.statuses),
              defaults_cleared org_id (p.rows s.statuses),
              eq_iff org_id o,
            ))
    ]
    | inr e ↦ elim (statuses-create env org_id input false s e) [
      | inl q ↦ rw q h
      | inr q ↦
          rw (q, rows-uncleared)
            (ground (
              arith,
              count-append (is_default_of o) (p.rows s.statuses) (new_status env org_id input ∷ []),
            ))
    ]
  ]

  -- The other defaults of the organization.
  abbrev others : String → String → BookingStatus → Bool
  others org_id id r = is_default_of org_id r && not (str_eq r.id id)

  abbrev IsUpdated : String → String → StatusUpdateInput → Bool → Store p → Store p → Type 0
  IsUpdated org_id id input d s t =
      (r : BookingStatus) × Memᴰ r (p.rows s.statuses)
      × ((str_eq r.id id && str_eq r.org_id org_id) ≡ true)
      × (p.rows t.statuses
          ≡ update_where (λ r. str_eq r.id id) (update_status_fields input)
              (p.rows (cleared d (others org_id id) s)))

  -- The statuses after an update: as they were, or with the fields written.
  statuses-update :
      (org_id id : String) (input : StatusUpdateInput) (d : Bool) (s : Store p)
      → or_else input.is_default false ≡ d
      → ((update_booking_status p org_id id input s).1.statuses ≡ s.statuses)
        ⊎ IsUpdated org_id id input d s (update_booking_status p org_id id input s).1
  unfolding update_booking_status clear_defaults
  statuses-update org_id id input d s e =
      elim (find_first-cases p unordered (λ r. str_eq r.id id && str_eq r.org_id org_id)
        s.statuses) [
          | inl (missing, h) ↦ inl (rw missing)
          | inr (r, found, h, m) ↦ elim (Bool-cases d) [
            | inl is_true ↦
                let e' : or_else input.is_default false ≡ true = e ∙ is_true in
                elim (p.update_law status_name_unique (λ r. str_eq r.id id)
                  (update_status_fields input) (cleared true (others org_id id) s)) [
                    | inl (t, c, _, _, q) ↦ inr (r, m, h, rw (found, e', is_true, c) q)
                    | inr (inl (c, _)) ↦ inl (rw (found, e', c))
                    | inr (inr (u, x, c, _, _, _, _)) ↦ inl (rw (found, e', c))
                  ]
            | inr is_false ↦
                let e' : or_else input.is_default false ≡ false = e ∙ is_false in
                elim (p.update_law status_name_unique (λ r. str_eq r.id id)
                  (update_status_fields input) (cleared false (others org_id id) s)) [
                    | inl (t, c, _, _, q) ↦ inr (r, m, h, rw (found, e', is_false, c) q)
                    | inr (inl (c, _)) ↦ inl (rw (found, e', c))
                    | inr (inr (u, x, c, _, _, _, _)) ↦ inl (rw (found, e', c))
                  ]
          ]
        ]

  defaults-written :
      (org_id id o : String) (input : StatusUpdateInput) (rs : List BookingStatus)
      (r : BookingStatus)
      → HasDistinctKeys status_id rs
      → Memᴰ r rs
      → (str_eq r.id id && str_eq r.org_id org_id) ≡ true
      → defaults o rs ≤ 1
      → defaults o (written org_id id input rs) ≤ 1
  defaults-written org_id id o input rs r distinct m h one = elim (Bool-cases (str_eq org_id o)) [
    | inl own ↦
        let same : org_id ≡ o = (eq_iff org_id o).0 own in
        rw same (
          omega (
            arith,
            defaults-written_own o id input rs,
            count_one status_id (λ r. true) id rs distinct,
          ))
    | inr other ↦ omega (
      arith,
      defaults-written_other o org_id id input rs other (
          All-imp (λ a. a.id ≡ r.id → a ≡ r) _ rs
            (λ a only e.
              let same : a ≡ r = only (ground (arith, eq_iff r.id id)) in
              ground (arith, eq_iff r.org_id org_id))
            (HasDistinctKeys-mem status_id rs distinct m)),
    )
  ]

  -- An update of a booking status gives no organization a second default status, if the
  -- organization had at most one and status ids are distinct.
  pub update-defaults :
      (org_id id o : String) (input : StatusUpdateInput) (s : Store p)
      → HasDistinctKeys status_id (p.rows s.statuses)
      → defaults o (p.rows s.statuses) ≤ 1
      → defaults o (p.rows (update_booking_status p org_id id input s).1.statuses) ≤ 1
  update-defaults org_id id o input s distinct h =
      elim (Bool-cases (or_else input.is_default false)) [
        | inl e ↦ elim (statuses-update org_id id input true s e) [
          | inl q ↦ rw q h
          | inr (r, m, w, q) ↦
              rw (q, rows-cleared) (defaults-written org_id id o input _ r distinct m w h)
        ]
        | inr e ↦ elim (statuses-update org_id id input false s e) [
          | inl q ↦ rw q h
          | inr (r, m, w, q) ↦
              rw (q, rows-uncleared)
                (omega (arith, h, defaults_kept o id input (p.rows s.statuses) e))
        ]
      ]
