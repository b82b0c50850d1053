-- ===== src/WorkOrders/Readiness.antt =====
-- When a work order is ready to be completed. modules/work-orders/workOrders.service.ts
use fsm_backend.Prelude.{
  inr, inl, ◌⊎◌, ◌<◌, ◌≤◌, ◌+◌, true, [], ◌∷◌, List, All, length, arith, count, refl, ◌≡◌, ◌↔◌,
}
use fsm_backend.WorkOrders.Types.{TaskStatus, todo, done, skipped}
use fsm_backend.WorkOrders.Tasks.{compute_completion_readiness, is_done, is_skipped}

done_or_skipped_le : (ts : List TaskStatus) → count is_done ts + count is_skipped ts ≤ length ts
done_or_skipped_le [] = omega arith
done_or_skipped_le (todo ∷ ts) = omega (arith, done_or_skipped_le ts)
done_or_skipped_le (done ∷ ts) = omega (arith, done_or_skipped_le ts)
done_or_skipped_le (skipped ∷ ts) = omega (arith, done_or_skipped_le ts)

All-is_done :
    (ts : List TaskStatus)
    → length ts ≤ count is_done ts + count is_skipped ts
    → All (λ t. (t ≡ done) ⊎ (t ≡ skipped)) ts
All-is_done [] h = tt
All-is_done (todo ∷ ts) h = absurd (omega (arith, done_or_skipped_le ts))
All-is_done (done ∷ ts) h = (inl refl, All-is_done ts (omega arith))
All-is_done (skipped ∷ ts) h = (inr refl, All-is_done ts (omega arith))

is_done-All :
    (ts : List TaskStatus)
    → All (λ t. (t ≡ done) ⊎ (t ≡ skipped)) ts
    → count is_done ts + count is_skipped ts ≡ length ts
is_done-All [] h = refl
is_done-All (t ∷ ts) (inl e, h) = rw e (omega (arith, is_done-All ts h))
is_done-All (t ∷ ts) (inr e, h) = rw e (omega (arith, is_done-All ts h))

-- The numbers of done, skipped and pending tasks add up to their total, and a work order is ready
-- exactly if it has tasks and all of them are done or skipped.
pub readiness-counts :
    (ts : List TaskStatus)
    → ((compute_completion_readiness ts).done_count
          + (compute_completion_readiness ts).skipped_count
          + (compute_completion_readiness ts).pending
        ≡ (compute_completion_readiness ts).total)
      × (((compute_completion_readiness ts).is_ready ≡ true)
          ↔ (0 < length ts) × All (λ t. (t ≡ done) ⊎ (t ≡ skipped)) ts)
unfolding compute_completion_readiness
readiness-counts ts = (
  omega (arith, done_or_skipped_le ts),
  (
    (λ h. (ground arith, All-is_done ts (ground (arith, done_or_skipped_le ts)))),
    (λ h. ground (arith, h.0, is_done-All ts h.1)),
  ),
)
