-- ===== src/TopBar/Laws.antt =====
-- The countdown of the top bar.
use elastic_ops.Prelude.{ℕ, ◌+◌, ◌-◌, ◌*◌, ◌/◌, ◌≤◌, ◌<◌, ltb, true, some, ◌≡◌, ◌↔◌, refl, arith}
use elastic_ops.TopBar.{next_in_seconds}

-- With auto-refresh on, the countdown is the time left until the interval has passed since the last
-- update, in seconds rounded up, so it is 0 exactly when the fetch is due.
pub countdown :
    (interval now updated_at : ℕ)
    → 0 < interval
    → (s : ℕ) × (next_in_seconds interval now updated_at ≡ some s)
      × (interval + updated_at ≤ now + 1000 * s)
      × ((s ≡ 0) ↔ (interval + updated_at ≤ now))
unfolding next_in_seconds
countdown interval now updated_at h =
    let on : ltb 0 interval ≡ true = ground arith in
    (
      (interval + updated_at - now + 999) / 1000,
      rw on refl,
      omega arith,
      ((λ e. omega arith), (λ e. omega arith)),
    )
