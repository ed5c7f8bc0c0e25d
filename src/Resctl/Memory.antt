-- ===== src/Resctl/Memory.antt =====
-- pkg/resctl/memory.go: the integer formulas behind the guest Budget, the balloon target and the
-- host cgroup's memory.high. All quantities are uint64; a carry out of 64 bits is written out.
pub mod Bounds
pub mod Shrink
use sandboxer.Prelude.{
  ℕ, ◌+◌, ◌-◌, ◌*◌, ◌/◌, ◌%◌, ◌^◌, Bool, true, false, ltb, leb, ◌==◌, if◌then◌else◌, ◌||◌, min,
  Option, none, some, not,
}

-- resource.MemoryStep: 64 << 20.
abbrev pub memory_step : ℕ
memory_step = 67108864

-- resource.RatioScale.
abbrev pub ratio_scale : ℕ
ratio_scale = 1000000

-- balloonPageSize: 1 << 12.
abbrev pub balloon_page_size : ℕ
balloon_page_size = 4096

-- math.MaxUint64 and math.MaxUint32.
abbrev pub max_uint64 : ℕ
max_uint64 = 18446744073709551615

abbrev pub max_uint32 : ℕ
max_uint32 = 4294967295

-- The value, and whether it was cut.
unfoldable pub saturating_add : ℕ → ℕ → ℕ × Bool
saturating_add a b = if leb (2 ^ 64) (a + b) then (max_uint64, true) else (a + b, false)

unfoldable pub saturating_sub : ℕ → ℕ → ℕ × Bool
saturating_sub a b = if ltb a b then (0, true) else (a - b, false)

unfoldable pub clamp_memory : ℕ → ℕ → ℕ
clamp_memory value capacity = if ltb capacity value then capacity else value

unfoldable pub align_down : ℕ → ℕ → ℕ
align_down value step = if step == 0 then 0 else value - value % step

unfoldable pub budget_from_target : ℕ → ℕ → ℕ
budget_from_target capacity target = (saturating_sub capacity (clamp_memory target capacity)).0

unfoldable pub target_for_budget : ℕ → ℕ → ℕ
target_for_budget capacity budget =
    align_down (saturating_sub capacity (clamp_memory budget capacity)).0 memory_step

unfoldable pub aligned_budget : ℕ → ℕ → ℕ
aligned_budget capacity budget = budget_from_target capacity (target_for_budget capacity budget)

-- The part of alignedBudgetAtMostReservation for a target that is no multiple of the step.
unfoldable pub round_up_target : ℕ → ℕ → ℕ
round_up_target capacity target =
    let raised = saturating_add target (memory_step - target % memory_step) in
    if raised.1 || ltb capacity raised.0 then 0 else budget_from_target capacity raised.0

unfoldable pub aligned_budget_at_most_reservation : ℕ → ℕ → ℕ
aligned_budget_at_most_reservation capacity wanted =
    let reservation = clamp_memory wanted capacity in
    let target = (saturating_sub capacity reservation).0 in
    if reservation == capacity
    then capacity
    else if target % memory_step == 0
    then budget_from_target capacity target
    else round_up_target capacity target

-- The errors of memory.go.
pub data MemoryError : Type 0 where
  no_capacity bad_headroom bad_target bad_budget memory_overflow bad_ratio : MemoryError
  unaligned_capacity balloon_exceeds unaligned_balloon pfn_range : MemoryError

pub record MemoryBudget : Type 0 where
  pub capacity : ℕ
  pub headroom : ℕ
  pub balloon_target : ℕ
  pub guest_mem_available : ℕ
  pub target_budget : ℕ
  pub current_budget : ℕ
  pub observed_budget : ℕ
  pub demand_memory : ℕ
  pub raw_requested : ℕ
  pub desired_target : ℕ
  pub requested_budget : ℕ

-- A Go (value, error) whose value is meaningful next to ErrMemoryOverflow too.
pub data Calculated (A : Type 0) : Type 0 where
  calculated : A → Calculated A
  overflowed : A → Calculated A
  refused : MemoryError → Calculated A

unfoldable pub budget_terms : ℕ → ℕ → ℕ → ℕ → ℕ → MemoryBudget
budget_terms capacity headroom target current available =
    let demand = (saturating_sub current available).0 in
    let raw = clamp_memory (saturating_add demand headroom).0 capacity in
    let budget = budget_from_target capacity target in
    let desired = target_for_budget capacity raw in
    record {
      capacity = capacity;
      headroom = headroom;
      balloon_target = target;
      guest_mem_available = available;
      target_budget = budget;
      current_budget = current;
      observed_budget = if ltb budget current then current else budget;
      demand_memory = demand;
      raw_requested = raw;
      desired_target = desired;
      requested_budget = budget_from_target capacity desired;
    }

unfoldable pub calculate_memory_budget : ℕ → ℕ → ℕ → ℕ → ℕ → Calculated MemoryBudget
calculate_memory_budget capacity headroom target current available =
    if capacity == 0
    then refused no_capacity
    else if headroom == 0 || ltb capacity headroom
    then refused bad_headroom
    else if ltb capacity target
    then refused bad_target
    else if ltb capacity current
    then refused bad_budget
    else if (saturating_add (saturating_sub current available).0 headroom).1
    then overflowed (budget_terms capacity headroom target current available)
    else calculated (budget_terms capacity headroom target current available)

unfoldable pub shrink_target_limit : ℕ → ℕ → ℕ → ℕ
shrink_target_limit capacity accepted current =
    if ltb capacity accepted || ltb capacity current
    then 0
    else min capacity (
        min (saturating_add accepted memory_step).0
          (saturating_add (capacity - current) memory_step).0)

-- The target, and whether it is a new one.
unfoldable pub next_shrink_target : ℕ → ℕ → ℕ → ℕ → ℕ × Bool
next_shrink_target capacity accepted current requested =
    let desired = target_for_budget capacity requested in
    let next =
      align_down (min desired (shrink_target_limit capacity accepted current)) memory_step in
    if capacity == 0 || ltb capacity accepted || ltb capacity current
    then (accepted, false)
    else if leb desired accepted || leb (desired - accepted) memory_step
    then (accepted, false)
    else if leb next accepted
    then (accepted, false)
    else (next, true)

-- bits.Mul64 and bits.Div64 take the product in 128 bits; the increment is of a uint64.
unfoldable pub mul_div_ceil : ℕ → ℕ → ℕ → ℕ
mul_div_ceil a b divisor =
    if a * b % divisor == 0 then a * b / divisor else (a * b / divisor + 1) % 2 ^ 64

pub record MemoryHighResult : Type 0 where
  pub memory_max : ℕ
  pub granted_headroom : ℕ
  pub pressure_reserve : ℕ
  pub host_memory_high : ℕ

-- The reserve kept below the Budget: the fraction, at least one step, at most the headroom.
unfoldable pub reserve_of : ℕ → ℕ → ℕ
reserve_of granted ratio =
    let fraction = mul_div_ceil granted (ratio_scale - ratio) ratio_scale in
    let minimum = if ltb memory_step granted then memory_step else granted in
    let reserve = if ltb fraction minimum then minimum else fraction in
    if ltb granted reserve then granted else reserve

-- memory.high, never above memory.max, and raised to what the host already uses.
unfoldable pub settle_high : ℕ → ℕ → ℕ → ℕ
settle_high memory_max high host_current =
    let bounded = if ltb memory_max high then memory_max else high in
    if ltb bounded host_current
    then (if ltb memory_max host_current then memory_max else host_current)
    else bounded

unfoldable pub calculate_memory_high : ℕ → ℕ → ℕ → ℕ → ℕ → ℕ → Calculated MemoryHighResult
calculate_memory_high capacity overhead wanted used ratio host_current =
    let budget = clamp_memory wanted capacity in
    let demand = clamp_memory used budget in
    let granted = (saturating_sub budget demand).0 in
    let reserve = reserve_of granted ratio in
    let most = saturating_add capacity overhead in
    let high = saturating_add overhead (saturating_sub budget reserve).0 in
    let result : MemoryHighResult = record {
      memory_max = most.0;
      granted_headroom = granted;
      pressure_reserve = reserve;
      host_memory_high = settle_high most.0 high.0 host_current;
    } in
    if capacity == 0
    then refused no_capacity
    else if leb ratio_scale ratio
    then refused bad_ratio
    else if most.1 || high.1
    then overflowed result
    else calculated result

-- none is a nil error.
unfoldable pub validate_balloon_size : ℕ → ℕ → Option MemoryError
validate_balloon_size capacity balloon =
    if capacity == 0 || not (capacity % balloon_page_size == 0)
    then some unaligned_capacity
    else if ltb capacity balloon
    then some balloon_exceeds
    else if not (balloon % balloon_page_size == 0)
    then some unaligned_balloon
    else if ltb max_uint32 (balloon / balloon_page_size)
    then some pfn_range
    else none
