-- ===== src/Resctl/Memory/Shrink.antt =====
-- The balloon targets of pkg/resctl/memory.go: the grid they lie on, and the one-step shrink.
use sandboxer.Prelude.{
  ℕ, zero, suc, ◌+◌, ◌-◌, ◌*◌, ◌/◌, ◌%◌, ◌^◌, ◌≤◌, ◌<◌, ◌≡◌, true, min, arith, refl, inl, inr,
  lt_or_le,
}
use sandboxer.Resctl.Memory.{
  memory_step, clamp_memory, align_down, saturating_add, saturating_sub, budget_from_target,
  target_for_budget, aligned_budget, round_up_target, aligned_budget_at_most_reservation,
  shrink_target_limit, next_shrink_target,
}

-- A target that the executor may ask for, and the Budget it leaves.
abbrev pub OnGrid : ℕ → ℕ → Type 0
OnGrid capacity target = (target % memory_step ≡ 0) × (target ≤ capacity)

-- The target for a Budget is on the grid and leaves at least the Budget that was asked for, and
-- less than one step more.
pub target_covers_budget :
    (capacity budget : ℕ)
    → OnGrid capacity (target_for_budget capacity budget)
      × (clamp_memory budget capacity ≤ aligned_budget capacity budget)
      × (aligned_budget capacity budget < clamp_memory budget capacity + memory_step)
unfolding target_for_budget aligned_budget budget_from_target saturating_sub align_down clamp_memory
target_covers_budget capacity budget = ground arith

-- A partial grant is never rounded up: the Budget taken from a reservation is at most that
-- reservation, and it is the largest Budget with a target on the grid that is.
pub reservation_is_largest :
    (capacity reservation target : ℕ)
    → capacity < 2 ^ 64
    → OnGrid capacity target
    → budget_from_target capacity target ≤ reservation
    → (aligned_budget_at_most_reservation capacity reservation ≤ reservation)
      × (budget_from_target capacity target
          ≤ aligned_budget_at_most_reservation capacity reservation)
unfolding aligned_budget_at_most_reservation round_up_target budget_from_target saturating_sub
    saturating_add clamp_memory
reservation_is_largest capacity reservation target small grid fits = ground arith

align_down_lem :
    (value : ℕ)
    → (align_down value memory_step % memory_step ≡ 0)
      × (align_down value memory_step ≤ value)
      × (value < align_down value memory_step + memory_step)
unfolding align_down
align_down_lem value = ground arith

shrink_target_limit_lem :
    (capacity accepted current : ℕ)
    → capacity < 2 ^ 63
    → accepted ≤ capacity
    → current ≤ capacity
    → shrink_target_limit capacity accepted current
      ≡ min capacity (min (accepted + memory_step) (capacity - current + memory_step))
unfolding shrink_target_limit saturating_add
shrink_target_limit_lem capacity accepted current small a c = ground arith

target_for_budget_lem :
    (capacity budget : ℕ)
    → (clamp_memory budget capacity + target_for_budget capacity budget ≤ capacity)
      × (target_for_budget capacity budget % memory_step ≡ 0)
unfolding target_for_budget align_down clamp_memory saturating_sub
target_for_budget_lem capacity budget = ground arith

budget_from_target_lem :
    (capacity target : ℕ)
    → target ≤ capacity
    → budget_from_target capacity target ≡ capacity - target
unfolding budget_from_target saturating_sub clamp_memory
budget_from_target_lem capacity target h = ground arith

-- A new shrink target lies strictly above the accepted one, on the grid, at most one step above
-- the accepted target and above what the balloon really holds, and it leaves the requested Budget.
pub shrink_is_bounded :
    (capacity accepted current requested next : ℕ)
    → capacity < 2 ^ 63
    → next_shrink_target capacity accepted current requested ≡ (next, true)
    → (accepted < next)
      × OnGrid capacity next
      × (next ≤ accepted + memory_step)
      × (next ≤ (capacity - current) + memory_step)
      × (clamp_memory requested capacity ≤ budget_from_target capacity next)
unfolding next_shrink_target
shrink_is_bounded capacity accepted current requested next small e = ground (
  arith,
  shrink_target_limit_lem capacity accepted current small,
  align_down_lem
      (min (target_for_budget capacity requested) (shrink_target_limit capacity accepted current)),
  target_for_budget_lem capacity requested,
  budget_from_target_lem capacity next,
)

-- The targets that are accepted when the guest's balloon reaches each one before the next report.
pub follow : ℕ → ℕ → ℕ → ℕ → ℕ
follow capacity requested accepted zero = accepted
follow capacity requested accepted (suc n) =
    follow capacity requested
      (next_shrink_target capacity accepted (budget_from_target capacity accepted) requested).0 n

shrink_step :
    (capacity requested accepted : ℕ)
    → capacity < 2 ^ 63
    → accepted % memory_step ≡ 0
    → accepted + memory_step < target_for_budget capacity requested
    → (next_shrink_target capacity accepted (budget_from_target capacity accepted) requested).0
      ≡ accepted + memory_step
unfolding next_shrink_target
shrink_step capacity requested accepted small grid far = ground (
  arith,
  shrink_target_limit_lem capacity accepted (budget_from_target capacity accepted) small,
  align_down_lem (
      min (target_for_budget capacity requested)
        (shrink_target_limit capacity accepted (budget_from_target capacity accepted))),
  target_for_budget_lem capacity requested,
  budget_from_target_lem capacity accepted,
)

shrink_stays :
    (capacity requested accepted current : ℕ)
    → target_for_budget capacity requested ≤ accepted + memory_step
    → (next_shrink_target capacity accepted current requested).0 ≡ accepted
unfolding next_shrink_target
shrink_stays capacity requested accepted current near = ground arith

follow_near :
    (capacity requested accepted n : ℕ)
    → target_for_budget capacity requested ≤ accepted + memory_step
    → follow capacity requested accepted n ≡ accepted
unfolding follow
follow_near capacity requested accepted zero near = refl
follow_near capacity requested accepted (suc n) near =
    rw (shrink_stays capacity requested accepted (budget_from_target capacity accepted) near)
      (follow_near capacity requested accepted n near)

-- When the guest follows each target, `n` reports take the accepted target up by `n` steps, or by
-- as many whole steps as lie strictly below the wanted target.
follow_lem :
    (n capacity requested accepted : ℕ)
    → capacity < 2 ^ 63
    → accepted % memory_step ≡ 0
    → accepted ≤ target_for_budget capacity requested
    → follow capacity requested accepted n
      ≡ accepted
        + min n ((target_for_budget capacity requested - accepted - 1) / memory_step) * memory_step
unfolding follow
follow_lem zero capacity requested accepted small grid above = omega arith
follow_lem (suc n) capacity requested accepted small grid above =
    elim (lt_or_le (accepted + memory_step) (target_for_budget capacity requested)) [
      | inl far ↦ rw (shrink_step capacity requested accepted small grid far) (
          omega (
            arith,
            follow_lem n capacity requested (accepted + memory_step) small (omega arith)
                (omega arith),
          ))
      | inr near ↦
          rw
            (
              shrink_stays capacity requested accepted (budget_from_target capacity accepted) near,
              follow_near capacity requested accepted n near,
            )
            (omega arith)
    ]

-- When the guest follows each target, the accepted target climbs by exactly one step a report, for
-- as many whole steps as lie strictly below the wanted target; with that many reports it stops, on
-- the grid, at most one step short of the target that was wanted and never beyond it.
pub shrink_converges :
    (n k capacity requested accepted : ℕ)
    → capacity < 2 ^ 63
    → accepted % memory_step ≡ 0
    → accepted ≤ target_for_budget capacity requested
    → target_for_budget capacity requested ≤ accepted + (n + 1) * memory_step
    → (target_for_budget capacity requested ≤ follow capacity requested accepted n + memory_step)
      × (follow capacity requested accepted n ≤ target_for_budget capacity requested)
      × (follow capacity requested accepted n % memory_step ≡ 0)
      × (follow capacity requested accepted k
          ≡ accepted
            + min k ((target_for_budget capacity requested - accepted - 1) / memory_step)
              * memory_step)
shrink_converges n k capacity requested accepted small grid above enough = omega (
  arith,
  follow_lem n capacity requested accepted small grid above,
  follow_lem k capacity requested accepted small grid above,
)
