-- ===== src/Resctl/Memory/Bounds.antt =====
-- The guest Budget and the host's memory.high that pkg/resctl/memory.go calculates.
use sandboxer.Prelude.{ℕ, ◌+◌, ◌-◌, ◌%◌, ◌^◌, ◌≤◌, ◌<◌, ◌≡◌, none, arith, min, max}
use sandboxer.Resctl.Memory.{
  memory_step, clamp_memory, align_down, saturating_add, saturating_sub, budget_from_target,
  target_for_budget, validate_balloon_size, calculate_memory_budget, budget_terms, MemoryBudget,
  calculated, reserve_of, settle_high, calculate_memory_high, MemoryHighResult,
}

-- A calculated Budget has room for the guest's demand and the headroom, up to the capacity; the
-- aligned request wastes less than one step; and the observed Budget covers both the accepted
-- target and what the guest really has.
pub budget_covers_demand :
    (capacity headroom target current available : ℕ) (b : MemoryBudget)
    → calculate_memory_budget capacity headroom target current available ≡ calculated b
    → (min capacity (current - available + headroom) ≤ b.requested_budget)
      × (b.requested_budget < current - available + headroom + memory_step)
      × (b.requested_budget ≤ capacity)
      × (current ≤ b.observed_budget)
      × (capacity - target ≤ b.observed_budget)
      × (b.observed_budget ≤ capacity)
unfolding calculate_memory_budget budget_terms target_for_budget align_down clamp_memory
    saturating_sub saturating_add budget_from_target
budget_covers_demand capacity headroom target current available b e = ground arith

-- The desired target of a calculated Budget is one that the balloon accepts, for a capacity that
-- is a multiple of the page size and below the balloon's range of pages.
pub desired_target_is_valid :
    (capacity headroom target current available : ℕ) (b : MemoryBudget)
    → capacity % 4096 ≡ 0
    → capacity < 2 ^ 44
    → calculate_memory_budget capacity headroom target current available ≡ calculated b
    → validate_balloon_size capacity b.desired_target ≡ none
unfolding calculate_memory_budget budget_terms validate_balloon_size target_for_budget align_down
    saturating_sub clamp_memory
desired_target_is_valid capacity headroom target current available b page small e = ground arith

reserve_of_lem :
    (granted ratio : ℕ)
    → (reserve_of granted ratio ≤ granted) × (min granted memory_step ≤ reserve_of granted ratio)
unfolding reserve_of
reserve_of_lem granted ratio = ground arith

settle_high_lem :
    (most high host : ℕ)
    → (settle_high most high host ≤ most)
      × (min host most ≤ settle_high most high host)
      × (min high most ≤ settle_high most high host)
      × (settle_high most high host ≡ max (min host most) (min high most))
unfolding settle_high
settle_high_lem most high host = ground arith

clamp_memory_lem : (value capacity : ℕ) → clamp_memory value capacity ≡ min value capacity
unfolding clamp_memory
clamp_memory_lem value capacity = ground arith

saturating_sub_lem : (a b : ℕ) → (saturating_sub a b).0 ≡ a - b
unfolding saturating_sub
saturating_sub_lem a b = ground arith

-- memory.high without overflow is the overhead and the Budget less the reserve, raised to what the
-- host uses already as far as memory.max allows. It never exceeds memory.max and keeps the overhead
-- and the guest's demand; the headroom is the Budget above the demand, and the reserve is at most
-- the headroom and at least a step of it, or all of it.
pub high_is_between :
    (capacity overhead budget demand ratio host : ℕ) (r : MemoryHighResult)
    → calculate_memory_high capacity overhead budget demand ratio host ≡ calculated r
    → (r.memory_max ≡ capacity + overhead)
      × (r.host_memory_high ≤ r.memory_max)
      × (min host r.memory_max ≤ r.host_memory_high)
      × (overhead + min demand (min budget capacity) ≤ r.host_memory_high)
      × (min r.granted_headroom memory_step ≤ r.pressure_reserve)
      × (r.pressure_reserve ≤ r.granted_headroom)
      × (r.granted_headroom ≡ min budget capacity - min demand (min budget capacity))
      × (r.host_memory_high
          ≡ max (min host r.memory_max) (overhead + (min budget capacity - r.pressure_reserve)))
unfolding calculate_memory_high saturating_add
high_is_between capacity overhead budget demand ratio host r e =
    let b = clamp_memory budget capacity in
    let d = clamp_memory demand b in
    let g = (saturating_sub b d).0 in
    let kept = (saturating_sub b (reserve_of g ratio)).0 in
    ground (
      arith,
      clamp_memory_lem budget capacity,
      clamp_memory_lem demand b,
      saturating_sub_lem b d,
      saturating_sub_lem b (reserve_of g ratio),
      reserve_of_lem g ratio,
      settle_high_lem (capacity + overhead) (overhead + kept) host,
    )
