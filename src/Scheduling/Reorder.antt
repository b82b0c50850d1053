-- ===== src/Scheduling/Reorder.antt =====
-- Reordering the stops of a route, under the schema's constraint on their positions.
use fsm_backend.Prelude.{
  ℕ, suc, ◌+◌, String, ◌≡◌, refl, sym, ap, ◌∙◌, ◌⊎◌, inl, inr, true, false, not, ◌&&◌, List, [],
  ◌∷◌, Memᴰ, All, All-imp, HasDistinctKeys, HasDistinctKeys-mem, All-named, length, length-perm,
  length-select, update_where, update_where_same, mem-select, any-mem, any, select, str_eq, elem,
  eq_iff, ==_iff, ◌==◌, Bool-cases, arith, All-mem,
}
use fsm_backend.Errors.{Thrown, Result-cases, err, ok, prisma, p2002, p2025}
use fsm_backend.Prisma.{Database, unordered, clashes}
use fsm_backend.Scheduling.Types.{RouteStop, Store, position_unique}
use fsm_backend.Scheduling.Routes.{in_route, move_stop, renumber, reorder_route_stops, ensure_route}

abbrev pub stop_id : RouteStop → String
stop_id r = r.id

-- A stop of the route at a position.
abbrev pub IsTaken : String → String → ℕ → List RouteStop → Type 0
IsTaken org_id route_id k rs =
    (b : RouteStop) × Memᴰ b rs × (in_route org_id route_id b ≡ true) × (b.position ≡ k)

-- The positions that a list of ids would be given from `k + 1` on are all taken.
abbrev pub AreTaken : String → String → ℕ → List String → List RouteStop → Type 0
AreTaken org_id route_id k [] rs = Unit
AreTaken org_id route_id k (id ∷ ids) rs =
    IsTaken org_id route_id (k + 1) rs × AreTaken org_id route_id (suc k) ids rs

-- Each id names a stop of the route.
abbrev pub AreStops : String → String → List String → List RouteStop → Type 0
AreStops org_id route_id ids rs =
    All
      (λ id. (r : RouteStop) × Memᴰ r rs × ((in_route org_id route_id r && str_eq r.id id) ≡ true))
      ids

abbrev at_position : ℕ → RouteStop → RouteStop
at_position k r = record r { position = k }

-- Writing the position that the stop has.
move_same :
    (id : String) (k : ℕ) (rs : List RouteStop) (b : RouteStop)
    → HasDistinctKeys stop_id rs
    → Memᴰ b rs
    → str_eq b.id id ≡ true
    → b.position ≡ k
    → update_where (λ x. str_eq x.id id) (at_position k) rs ≡ rs
move_same id k rs b distinct m h e = update_where_same _ _ rs (
    All-imp (λ a. a.id ≡ b.id → a ≡ b) _ rs
      (λ a only w.
        let same : a ≡ b = only ((eq_iff a.id id).0 w ∙ sym ((eq_iff b.id id).0 h)) in
        let at : a.position ≡ k = ap (λ (r : RouteStop). r.position) same ∙ e in ground arith)
      (HasDistinctKeys-mem stop_id rs distinct m))

-- Another stop of the route at the position stands in the way.
move_clash :
    (org_id route_id id : String) (k : ℕ) (rs : List RouteStop) (b r : RouteStop)
    → Memᴰ b rs
    → in_route org_id route_id b ≡ true
    → b.position ≡ k
    → str_eq b.id id ≡ false
    → in_route org_id route_id r ≡ true
    → clashes position_unique (at_position k r) (select (λ s. not (str_eq s.id id)) rs) ≡ true
move_clash org_id route_id id k rs b r mb hb e not_b hr =
    let hit : any (λ s. str_eq r.org_id s.org_id && str_eq r.route_id s.route_id && k == s.position)
          (select (λ s. not (str_eq s.id id)) rs)
        ≡ true =
      any-mem _ {a = b} _
        (ground (
          arith,
          eq_iff r.org_id b.org_id,
          eq_iff r.route_id b.route_id,
          eq_iff r.org_id org_id,
          eq_iff b.org_id org_id,
          eq_iff r.route_id route_id,
          eq_iff b.route_id route_id,
        ))
        (mem-select (λ s. not (str_eq s.id id)) rs (rw not_b) mb) in
    rw hit

module _ (p : Database) (org_id route_id : String) where
  -- One update, to a position that is taken: it fails, or the stop was there.
  move_taken :
      (id : String) (k : ℕ) (s : Store p) (rs : List RouteStop)
      → p.rows s.stops ≡ rs
      → HasDistinctKeys stop_id rs
      → IsTaken org_id route_id k rs
      → ((r : RouteStop) × Memᴰ r rs × ((in_route org_id route_id r && str_eq r.id id) ≡ true))
      → ((x : Thrown) × (move_stop p id k s ≡ (err x, s)))
        ⊎ ((s' : Store p) × (move_stop p id k s ≡ (ok tt, s')) × (p.rows s'.stops ≡ rs))
  unfolding move_stop
  move_taken id k s rs same distinct (b, mb, hb, eb) (r, mr, hr) =
      elim (p.update_law position_unique (λ x. str_eq x.id id) (at_position k) s.stops) [
        | inr (inl (e, _)) ↦ inl (prisma p2025, rw e)
        | inr (inr (u, x, e, _, _, _, _)) ↦ inl (prisma (p2002 u.target), rw e)
        | inl (t, e, _, free, q) ↦ elim (Bool-cases (str_eq b.id id)) [
          | inl is_b ↦ inr (
            record s { stops = t },
            rw e,
            q
                ∙ ap (update_where (λ x. str_eq x.id id) (at_position k)) same
                ∙ move_same id k rs b distinct mb is_b eb,
          )
          | inr not_b ↦
              let open_place : clashes position_unique (at_position k r)
                    (select (λ x. not (str_eq x.id id)) rs)
                  ≡ false =
                All-mem _ rs (rw same at free) mr (ground arith) in
              let taken = move_clash org_id route_id id k rs b r mb hb eb not_b (ground arith) in
              absurd (ground arith)
        ]
      ]

  -- All the updates: one of them fails, or the stops were in that order already.
  renumber_taken :
      (k : ℕ) (ids : List String) (s : Store p) (rs : List RouteStop)
      → p.rows s.stops ≡ rs
      → HasDistinctKeys stop_id rs
      → AreTaken org_id route_id k ids rs
      → AreStops org_id route_id ids rs
      → ((x : Thrown) × ((renumber p k ids s).0 ≡ err x))
        ⊎ (p.rows (renumber p k ids s).1.stops ≡ rs)
  unfolding renumber
  renumber_taken k [] s rs same distinct taken stops = inr same
  renumber_taken k (id ∷ ids) s rs same distinct taken stops =
      elim (move_taken id (k + 1) s rs same distinct taken.0 stops.0) [
        | inl (x, e) ↦ inl (x, rw (e, renumber))
        | inr (s', e, same') ↦
            rw (e, renumber) (renumber_taken (suc k) ids s' rs same' distinct taken.1 stops.1)
      ]

  -- The guard of `reorderRouteStops` lets through only lists of ids of the route's stops.
  listed-AreStops :
      (ids : List String) (s : Store p)
      → HasDistinctKeys stop_id (p.rows s.stops)
      → length (p.find_many unordered (λ r. in_route org_id route_id r && elem r.id ids) s.stops)
        ≡ length ids
      → AreStops org_id route_id ids (p.rows s.stops)
  listed-AreStops ids s distinct e = All-named stop_id (in_route org_id route_id) ids _ distinct (
      sym (length-select (λ r. in_route org_id route_id r && elem r.id ids) (p.rows s.stops))
      ∙ sym (
          length-perm
            (p.find_many_perm unordered (λ r. in_route org_id route_id r && elem r.id ids) s.stops))
      ∙ e)

  -- On a route whose first positions are taken, reorderRouteStops leaves the stops as they are,
  -- whatever order it is given, if stop ids are distinct.
  pub reorder_unchanged :
      (ids : List String) (s : Store p)
      → HasDistinctKeys stop_id (p.rows s.stops)
      → AreTaken org_id route_id 0 ids (p.rows s.stops)
      → p.rows (reorder_route_stops p org_id route_id ids s).1.stops ≡ p.rows s.stops
  unfolding reorder_route_stops ensure_route
  reorder_unchanged ids s distinct taken =
      elim (Bool-cases (
        length (p.find_many unordered (λ r. in_route org_id route_id r && elem r.id ids) s.stops)
        == length ids)) [
          | inr no_match ↦ ground arith
          | inl match ↦
              elim (renumber_taken 0 ids s _ refl distinct taken
                (listed-AreStops ids s distinct ((==_iff _ _).0 match))) [
                  | inl (x, e) ↦ ground arith
                  | inr same ↦ elim (Result-cases (renumber p 0 ids s).0) [
                    | inl (u, e) ↦ ground arith
                    | inr (x, e) ↦ ground arith
                  ]
                ]
        ]
