-- ===== src/Resctl/Balloon.antt =====
-- pkg/resctl/balloon.go: the single writer of Cloud Hypervisor's balloon target. The HTTP client is
-- a parameter; a call that holds `apiMu` is one function on the controller and the client's state.
pub mod Exchange
pub mod Invariant
pub mod Apply
use sandboxer.Prelude.{
  ℕ, suc, ◌+◌, Option, none, some, Bool, true, false, ltb, leb, ◌==◌, if◌then◌else◌, ◌||◌, ◌&&◌,
  not,
}
use sandboxer.Resctl.Memory.{
  MemoryError, saturating_sub, budget_from_target, shrink_target_limit, validate_balloon_size,
}
use sandboxer.Resctl.ChMemory.{Config, ConfigError, Capacity, capacity_of, bad_config, total_size}

pub record BalloonState : Type 0 where
  pub desired_target : ℕ
  pub accepted_target : ℕ
  pub accepted_target_known : Bool
  pub current_budget : ℕ
  pub balloon_current : ℕ
  pub balloon_current_known : Bool

unfoldable pub target_reached : ℕ → BalloonState → Bool
target_reached capacity s =
    s.accepted_target_known
    && s.balloon_current_known
    && budget_from_target capacity s.accepted_target == s.current_budget

unfoldable pub observed_budget : ℕ → BalloonState → Option ℕ
observed_budget capacity s =
    let budget = budget_from_target capacity s.accepted_target in
    if not s.accepted_target_known || not s.balloon_current_known
    then none
    else some (if ltb budget s.current_budget then s.current_budget else budget)

-- balloonObservation; times are readings of the host clock.
pub record Observation : Type 0 where
  pub accepted_target : ℕ
  pub current_budget : ℕ
  pub balloon_current : ℕ
  pub started : ℕ
  pub finished : ℕ

-- BalloonActualObservation.
pub record Actual : Type 0 where
  pub current : ℕ
  pub started : ℕ
  pub finished : ℕ
  pub sequence : ℕ
  pub live : Bool

-- BalloonController, as far as it has state.
pub record Controller : Type 0 where
  pub capacity : ℕ
  pub state : BalloonState
  pub actual : Actual

unfoldable pub new_controller : ℕ → Controller
new_controller capacity = record {
  capacity = capacity;
  state = record {
    desired_target = 0;
    accepted_target = 0;
    accepted_target_known = false;
    current_budget = 0;
    balloon_current = 0;
    balloon_current_known = false;
  };
  actual = record { current = 0; started = 0; finished = 0; sequence = 0; live = false };
}

-- What vm.info reports; none is a missing JSON field.
pub record VmInfo : Type 0 where
  pub memory : Option Config
  pub balloon_size : Option ℕ
  pub memory_actual_size : Option ℕ

-- The HTTP client and the clock. `info` is none when the request, its status or its decoding fails;
-- `resize` says whether the request failed.
pub record Client (W : Type 0) : Type 0 where
  pub now : W → ℕ × W
  pub info : W → Option VmInfo × W
  pub resize : ℕ → W → Bool × W

pub data BalloonError : Type 0 where
  info_failed memory_missing balloon_missing actual_missing capacity_differs : BalloonError
  budget_exceeds shrink_deferred decision_changed step_exceeded : BalloonError
  resize_failed target_differs resize_failed_and_differs unconfirmed : BalloonError
  config : ConfigError → BalloonError
  invalid_size : MemoryError → BalloonError

pub data Read : Type 0 where
  observed : Observation → Read
  unread : BalloonError → Read

-- The checks of readMemoryObservation on the sizes of one vm.info.
unfoldable pub check_sizes : ℕ → ℕ → ℕ → ℕ → ℕ → Read
check_sizes capacity target budget started finished =
    let current = (saturating_sub capacity budget).0 in
    elim (validate_balloon_size capacity target) [
      | some e ↦ unread (invalid_size e)
      | none ↦
          if ltb capacity budget
          then unread budget_exceeds
          else elim (validate_balloon_size capacity current) [
            | some e ↦ unread (invalid_size e)
            | none ↦ observed (record {
              accepted_target = target;
              current_budget = budget;
              balloon_current = current;
              started = started;
              finished = finished;
            })
          ]
    ]

unfoldable pub check_capacity : ℕ → Config → ℕ → ℕ → ℕ → ℕ → Read
check_capacity capacity memory target budget started finished = elim (total_size memory) [
  | bad_config e ↦ unread (config e)
  | capacity_of n ↦
      if n == capacity
      then check_sizes capacity target budget started finished
      else unread capacity_differs
]

unfoldable pub check_info : ℕ → Option VmInfo → ℕ → ℕ → Read
check_info capacity none started finished = unread info_failed
check_info capacity (some i) started finished = elim i.memory [
  | none ↦ unread memory_missing
  | some memory ↦ elim i.balloon_size [
    | none ↦ unread balloon_missing
    | some target ↦ elim i.memory_actual_size [
      | none ↦ unread actual_missing
      | some budget ↦ check_capacity capacity memory target budget started finished
    ]
  ]
]

-- commitObservation.
unfoldable pub commit_observation : Observation → Controller → Controller
commit_observation o b = record b {
  state = record {
    desired_target = b.state.desired_target;
    accepted_target = o.accepted_target;
    accepted_target_known = true;
    current_budget = o.current_budget;
    balloon_current = o.balloon_current;
    balloon_current_known = true;
  };
  actual = record {
    current = o.balloon_current;
    started = o.started;
    finished = o.finished;
    sequence = suc b.actual.sequence;
    live = true;
  };
}

unfoldable pub set_accepted_target : ℕ → Controller → Controller
set_accepted_target target b = record b {
  state = record b.state { accepted_target = target; accepted_target_known = true };
}

unfoldable pub set_desired_target : ℕ → Controller → Option BalloonError × Controller
set_desired_target target b = elim (validate_balloon_size b.capacity target) [
  | some e ↦ (some (invalid_size e), b)
  | none ↦ (none, record b { state = record b.state { desired_target = target } })
]

unfoldable pub seed_cold_target : ℕ → Controller → Option BalloonError × Controller
seed_cold_target target b = elim (validate_balloon_size b.capacity target) [
  | some e ↦ (some (invalid_size e), b)
  | none ↦ (
    none,
    record b {
      actual = record b.actual { live = false };
      state = record {
        desired_target = target;
        accepted_target = target;
        accepted_target_known = true;
        current_budget = 0;
        balloon_current = 0;
        balloon_current_known = false;
      };
    },
  )
]

unfoldable pub seed_restored_state : ℕ → ℕ → Controller → Option BalloonError × Controller
seed_restored_state target current b = elim (validate_balloon_size b.capacity target) [
  | some e ↦ (some (invalid_size e), b)
  | none ↦ elim (validate_balloon_size b.capacity current) [
    | some e ↦ (some (invalid_size e), b)
    | none ↦ (
      none,
      record b {
        actual = record b.actual { live = false };
        state = record {
          desired_target = target;
          accepted_target = target;
          accepted_target_known = true;
          current_budget = budget_from_target b.capacity current;
          balloon_current = current;
          balloon_current_known = true;
        };
      },
    )
  ]
]
