-- ===== src/Plans/Budget/Bounds.antt =====
-- What the budget that is left for a day promises.
use fast_task.Base.{
  ℕ, zero, suc, ◌+◌, ◌-◌, ◌*◌, ◌/◌, ◌≤◌, ◌<◌, min, List, ◌≡◌, ◌⊎◌, inl, inr, refl, arith, ℤ, pos,
  pos_part, if◌then◌else◌, ltb, Bool-cases,
}
use fast_task.Jobs.Support.{eq_ℤ}
use fast_task.Plans.Model.{DailyPlanItem}
use fast_task.Plans.Settings.{default_daily_budget}
use fast_task.Plans.Budget.{remaining_plan_budget, core_count, core_minutes}

abbrev pub effective : ℤ → ℕ
effective available =
    pos_part (if eq_ℤ available (pos 0) then pos default_daily_budget else available)

divided : (r s : ℕ) → s ≤ 3 → s ≤ r → (s * (r / s) ≤ r) × (0 < s → 1 ≤ r / s)
divided r zero h k = (omega arith, λ p. absurd (omega (arith, p)))
divided r (suc zero) h k = (omega arith, λ p. omega (arith, k))
divided r (suc (suc zero)) h k = (omega arith, λ p. omega (arith, k))
divided r (suc (suc (suc zero))) h k = (omega arith, λ p. omega (arith, k))
divided r (suc (suc (suc (suc s)))) h k = absurd (omega (arith, h))

shares :
    (b c m s : ℕ)
    → s ≡ min (min (3 - c) (3 - c)) (b - m)
    → ((s + c ≤ 3) ⊎ (s ≡ 0))
      × (s * (if ltb 0 s then (b - m) / s else 0) ≤ b - m)
      × ((b - m + m ≤ b) ⊎ (b - m ≡ 0))
      × (0 < s → 1 ≤ (if ltb 0 s then (b - m) / s else 0))
shares b c m s e =
    let d = divided (b - m) s (omega (arith, e)) (omega (arith, e)) in
    elim (Bool-cases (ltb 0 s)) [
      | inl h ↦ rw h (ground (arith, e), d.0, ground arith, d.1)
      | inr h ↦
          rw h (ground (arith, e), omega arith, ground arith, λ p. absurd (ground (arith, p, h)))
    ]

-- What is left of a day: at most three core items in all; the minutes of the new items fit into the
-- remaining minutes; those and the minutes already promised fit into the budget, unless nothing remains;
-- and every new item is worth at least a minute.
pub remaining_plan_budget-bounds :
    (items : List DailyPlanItem) (available : ℤ)
    → let left = remaining_plan_budget items available in
      ((left.slots + core_count items ≤ 3) ⊎ (left.slots ≡ 0))
      × (left.slots * left.target_minutes ≤ left.remaining_minutes)
      × ((left.remaining_minutes + core_minutes items ≤ effective available)
          ⊎ (left.remaining_minutes ≡ 0))
      × (0 < left.slots → 1 ≤ left.target_minutes)
unfolding remaining_plan_budget
remaining_plan_budget-bounds items available =
    shares (effective available) (core_count items) (core_minutes items)
      (remaining_plan_budget items available).slots refl
