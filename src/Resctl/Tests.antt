-- ===== src/Resctl/Tests.antt =====
-- The theorems about pkg/resctl at concrete inputs, and runs of its functions.
use sandboxer.Prelude.{
  ℕ, ◌+◌, ◌-◌, ◌*◌, ◌/◌, ◌%◌, ◌≤◌, ◌<◌, ◌≡◌, refl, none, some, [], ◌∷◌, true, false, arith, ◌⊎◌,
  min, max,
}
use sandboxer.Resctl.Memory.{
  memory_step, clamp_memory, target_for_budget, next_shrink_target, calculate_memory_budget,
  budget_terms, calculate_memory_high, validate_balloon_size, calculated, saturating_add,
  saturating_sub, align_down, shrink_target_limit, reserve_of, settle_high, mul_div_ceil,
  MemoryHighResult, MemoryBudget,
}
use sandboxer.Resctl.Memory.Shrink.{shrink_converges, follow}
use sandboxer.Resctl.Memory.Bounds.{budget_covers_demand, high_is_between}
use sandboxer.Resctl.ChMemory.{Config, total_size, nonzero}
use sandboxer.Resctl.Balloon.{
  Client, Controller, Observation, observed, new_controller, set_desired_target, seed_cold_target,
  check_info, check_capacity, check_sizes, commit_observation, set_accepted_target,
}
use sandboxer.Resctl.Balloon.Apply.{
  apply_target, apply_desired_held_mode, after_desired, after_first_read, read_memory_observation,
  stamped, resize_and_confirm, confirm, refused_by, shrink_refused,
}
use sandboxer.Resctl.Balloon.Invariant.{
  IsConsistent, here, next, seeds_cold, applies, controller-IsConsistent,
}
use sandboxer.Resctl.Balloon.Exchange.{
  recording, AllowedShrink, Confirmed, LastRead, shrink_sends_one_step, apply_target_confirms,
}

abbrev gib : ℕ
gib = 1073741824

-- The target climbs by one step to 64 MiB when 512 MiB are wanted of 1 GiB.
next_shrink_target-first : next_shrink_target gib 0 gib (8 * memory_step) ≡ (memory_step, true)
unfolding next_shrink_target target_for_budget align_down shrink_target_limit saturating_add
    saturating_sub clamp_memory
next_shrink_target-first = refl

target-eight : target_for_budget gib (8 * memory_step) ≡ 8 * memory_step
unfolding target_for_budget align_down saturating_sub clamp_memory
target-eight = refl

shrink_converges_example :
    (target_for_budget gib (8 * memory_step) ≤ follow gib (8 * memory_step) 0 7 + memory_step)
    × (follow gib (8 * memory_step) 0 7 ≤ target_for_budget gib (8 * memory_step))
    × (follow gib (8 * memory_step) 0 7 % memory_step ≡ 0)
    × (follow gib (8 * memory_step) 0 3
        ≡ 0 + min 3 ((target_for_budget gib (8 * memory_step) - 0 - 1) / memory_step) * memory_step)
shrink_converges_example =
    shrink_converges 7 3 gib (8 * memory_step) 0 (omega arith) refl (omega arith)
      (omega (arith, target-eight))

abbrev terms : MemoryBudget
terms = budget_terms gib 134217728 0 gib 800000000

calculate_memory_budget-terms :
    calculate_memory_budget gib 134217728 0 gib 800000000 ≡ calculated terms
unfolding calculate_memory_budget saturating_add saturating_sub
calculate_memory_budget-terms = refl

budget_covers_demand_example :
    (min gib (gib - 800000000 + 134217728) ≤ terms.requested_budget)
    × (terms.requested_budget < gib - 800000000 + 134217728 + memory_step)
    × (terms.requested_budget ≤ gib)
    × (gib ≤ terms.observed_budget)
    × (gib - 0 ≤ terms.observed_budget)
    × (terms.observed_budget ≤ gib)
budget_covers_demand_example =
    budget_covers_demand gib 134217728 0 gib 800000000 terms calculate_memory_budget-terms

abbrev high : MemoryHighResult
high = record {
  memory_max = 1207959552;
  granted_headroom = 536870912;
  pressure_reserve = 67108864;
  host_memory_high = 1140850688;
}

calculate_memory_high-result :
    calculate_memory_high gib 134217728 gib 536870912 875000 1000000 ≡ calculated high
unfolding calculate_memory_high reserve_of settle_high mul_div_ceil saturating_add saturating_sub
    clamp_memory
calculate_memory_high-result = refl

high_is_between_example :
    (high.memory_max ≡ gib + 134217728)
    × (high.host_memory_high ≤ high.memory_max)
    × (min 1000000 high.memory_max ≤ high.host_memory_high)
    × (134217728 + min 536870912 (min gib gib) ≤ high.host_memory_high)
    × (min high.granted_headroom memory_step ≤ high.pressure_reserve)
    × (high.pressure_reserve ≤ high.granted_headroom)
    × (high.granted_headroom ≡ min gib gib - min 536870912 (min gib gib))
    × (high.host_memory_high
        ≡ max (min 1000000 high.memory_max) (134217728 + (min gib gib - high.pressure_reserve)))
high_is_between_example =
    high_is_between gib 134217728 gib 536870912 875000 1000000 high calculate_memory_high-result

-- A hypervisor with 1 GiB whose guest has given back nothing yet; its state is the balloon target.
abbrev memory : Config
memory = record { size = gib; hotplug_size = none; hotplugged_size = none; zones = none }

abbrev hypervisor : Client ℕ
hypervisor = record {
  now = λ w. (0, w);
  info = λ w. (
    some (record { memory = some memory; balloon_size = some w; memory_actual_size = some gib }),
    w,
  );
  resize = λ n w. (false, n);
}

abbrev cold : Controller
cold = (seed_cold_target 0 (new_controller gib)).1

applied : (apply_target hypervisor memory_step (new_controller gib) 0).0 ≡ none
unfolding apply_target after_desired set_desired_target apply_desired_held_mode after_first_read
    read_memory_observation stamped check_info check_capacity check_sizes total_size nonzero
    validate_balloon_size saturating_sub commit_observation refused_by resize_and_confirm confirm
    set_accepted_target new_controller
applied = refl

apply_target_confirms_example :
    Confirmed memory_step (apply_target hypervisor memory_step (new_controller gib) 0).1
    × LastRead hypervisor
        (new_controller gib).capacity
        memory_step
        (apply_target hypervisor memory_step (new_controller gib) 0)
    × (validate_balloon_size (new_controller gib).capacity memory_step ≡ none)
apply_target_confirms_example =
    apply_target_confirms hypervisor memory_step (new_controller gib) 0 applied

controller-IsConsistent_example : IsConsistent gib (apply_target hypervisor memory_step cold 0).1
controller-IsConsistent_example =
    controller-IsConsistent hypervisor gib (next (next here (seeds_cold 0)) (applies memory_step 0))

abbrev wanting : Controller
wanting = record {
  capacity = gib;
  state = record {
    desired_target = memory_step;
    accepted_target = 0;
    accepted_target_known = true;
    current_budget = gib;
    balloon_current = 0;
    balloon_current_known = true;
  };
  actual = record { current = 0; started = 0; finished = 0; sequence = 1; live = true };
}

-- The shrink is sent: its one request is logged.
shrink_is_sent :
    (apply_desired_held_mode (recording hypervisor) (some wanting.state) wanting (0, [])).2.1
    ≡ memory_step ∷ []
unfolding apply_desired_held_mode after_first_read read_memory_observation stamped check_info
    check_capacity check_sizes total_size nonzero validate_balloon_size saturating_sub
    commit_observation refused_by shrink_refused shrink_target_limit saturating_add
    resize_and_confirm confirm set_accepted_target recording
shrink_is_sent = refl

shrink_sends_one_step_example :
    let log =
      (apply_desired_held_mode (recording hypervisor) (some wanting.state) wanting (0, [])).2.1 in
    (log ≡ [])
    ⊎ ((o : Observation) × ((read_memory_observation hypervisor gib 0).0 ≡ observed o)
        × (log ≡ memory_step ∷ [])
        × AllowedShrink gib wanting.state o memory_step)
shrink_sends_one_step_example =
    shrink_sends_one_step hypervisor wanting.state wanting 0 (omega arith)
