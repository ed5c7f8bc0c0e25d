-- ===== src/Resctl/Balloon/Invariant.antt =====
-- What the balloon controller of pkg/resctl/balloon.go keeps of its state, whatever Cloud
-- Hypervisor answers.
use sandboxer.Prelude.{
  ℕ, ◌+◌, ◌%◌, ◌≤◌, ◌≡◌, Option, none, some, Bool, false, arith, ◌⊎◌, refl, if◌then◌else◌,
}
use sandboxer.Resctl.Memory.{
  saturating_sub, budget_from_target, clamp_memory, validate_balloon_size,
}
use sandboxer.Resctl.ChMemory.{Config}
use sandboxer.Resctl.Balloon.{
  BalloonState, Observation, Controller, Client, VmInfo, BalloonError, Read, observed, unread,
  check_sizes, check_capacity, check_info, commit_observation, set_accepted_target,
  set_desired_target, new_controller, seed_cold_target, seed_restored_state,
}
use sandboxer.Resctl.Balloon.Apply.{
  stamped, read_memory_observation, confirm, resize_and_confirm, after_first_read,
  apply_desired_held_mode, after_desired, apply_target, after_observe, observe, after_retry,
  retry_read, retry_accepted_target_held,
}

-- A size that the balloon can have.
abbrev pub Fits : ℕ → ℕ → Type 0
Fits capacity size = (size ≤ capacity) × (size % 4096 ≡ 0)

record IsSound (capacity : ℕ) (o : Observation) : Type 0 where
  target : Fits capacity o.accepted_target
  whole : o.current_budget + o.balloon_current ≡ capacity

pub record IsConsistent (capacity : ℕ) (b : Controller) : Type 0 where
  same_capacity : b.capacity ≡ capacity
  desired : Fits capacity b.state.desired_target
  accepted : Fits capacity b.state.accepted_target
  whole :
      (b.state.balloon_current_known ≡ false)
      ⊎ (b.state.current_budget + b.state.balloon_current ≡ capacity)

validate_balloon_size_lem :
    (capacity size : ℕ) → validate_balloon_size capacity size ≡ none → Fits capacity size
unfolding validate_balloon_size
validate_balloon_size_lem capacity size h = ground arith

check_sizes-IsSound :
    (capacity target budget started finished : ℕ) (o : Observation)
    → check_sizes capacity target budget started finished ≡ observed o
    → IsSound capacity o
unfolding check_sizes saturating_sub
check_sizes-IsSound capacity target budget started finished o e =
    ground (arith, validate_balloon_size_lem capacity target)

check_capacity-IsSound :
    (capacity : ℕ) (memory : Config) (target budget started finished : ℕ) (o : Observation)
    → check_capacity capacity memory target budget started finished ≡ observed o
    → IsSound capacity o
unfolding check_capacity
check_capacity-IsSound capacity memory target budget started finished o e =
    ground (arith, check_sizes-IsSound capacity target budget started finished o)

check_fields-IsSound :
    (capacity : ℕ) (i : VmInfo) (started finished : ℕ) (o : Observation)
    → check_info capacity (some i) started finished ≡ observed o
    → (memory : Option Config) (target budget : Option ℕ) → i.memory ≡ memory
    → i.balloon_size ≡ target
    → i.memory_actual_size ≡ budget
    → IsSound capacity o
unfolding check_info
check_fields-IsSound capacity i started finished o e none target budget m t b = ground arith
check_fields-IsSound capacity i started finished o e (some memory) none budget m t b = ground arith
check_fields-IsSound capacity i started finished o e (some memory) (some target) none m t b =
    ground arith
check_fields-IsSound capacity i started finished o e (some memory) (some target) (some budget) m t
      b =
    ground (arith, check_capacity-IsSound capacity memory target budget started finished o)

check_info-IsSound :
    (capacity : ℕ) (i : Option VmInfo) (started finished : ℕ) (o : Observation)
    → check_info capacity i started finished ≡ observed o
    → IsSound capacity o
unfolding check_info
check_info-IsSound capacity none started finished o e = ground arith
check_info-IsSound capacity (some i) started finished o e =
    check_fields-IsSound capacity i started finished o e i.memory i.balloon_size
      i.memory_actual_size refl refl refl

commit-IsConsistent :
    (capacity : ℕ) (o : Observation) (b : Controller)
    → IsSound capacity o
    → IsConsistent capacity b
    → IsConsistent capacity (commit_observation o b)
unfolding commit_observation
commit-IsConsistent capacity o b s c = ground arith

accept-IsConsistent :
    (capacity target : ℕ) (b : Controller)
    → Fits capacity target
    → IsConsistent capacity b
    → IsConsistent capacity (set_accepted_target target b)
unfolding set_accepted_target
accept-IsConsistent capacity target b f c = ground arith

set_desired-IsConsistent :
    (capacity target : ℕ) (b : Controller)
    → IsConsistent capacity b
    → IsConsistent capacity (set_desired_target target b).1
unfolding set_desired_target
set_desired-IsConsistent capacity target b c =
    ground (arith, validate_balloon_size_lem b.capacity target)

seed_cold-IsConsistent :
    (capacity target : ℕ) (b : Controller)
    → IsConsistent capacity b
    → IsConsistent capacity (seed_cold_target target b).1
unfolding seed_cold_target
seed_cold-IsConsistent capacity target b c =
    ground (arith, validate_balloon_size_lem b.capacity target)

seed_restored-IsConsistent :
    (capacity target current : ℕ) (b : Controller)
    → IsConsistent capacity b
    → IsConsistent capacity (seed_restored_state target current b).1
unfolding seed_restored_state budget_from_target saturating_sub clamp_memory
seed_restored-IsConsistent capacity target current b c = ground (
  arith,
  validate_balloon_size_lem b.capacity target,
  validate_balloon_size_lem b.capacity current,
)

-- A read of the device that yields only sound observations.
abbrev Sound : {W : Type 0} → ℕ → Read × W → Type 0
Sound capacity (unread e, w) = Unit
Sound capacity (observed o, w) = IsSound capacity o

stamped-Sound :
    {W : Type 0} (capacity : ℕ) (i : Option VmInfo) (started finished : ℕ) (r : Read)
    (before after : W)
    → check_info capacity i started finished ≡ r
    → Sound capacity (stamped r before after)
unfolding stamped
stamped-Sound capacity i started finished (unread e) before after h = tt
stamped-Sound capacity i started finished (observed o) before after h =
    check_info-IsSound capacity i started finished o h

module _ {W : Type 0} (ch : Client W) where
  read-Sound : (capacity : ℕ) (w : W) → Sound capacity (read_memory_observation ch capacity w)
  unfolding read_memory_observation
  read-Sound capacity w =
      let started = ch.now w in
      let reply = ch.info started.1 in
      let finished = ch.now reply.1 in
      stamped-Sound capacity reply.0 started.0 finished.0
        (check_info capacity reply.0 started.0 finished.0) reply.1 finished.1 refl

  confirm-IsConsistent :
      (capacity : ℕ) (failed : Bool) (b : Controller) (r : Read × W)
      → Sound capacity r
      → IsConsistent capacity b
      → IsConsistent capacity (confirm ch failed b r).1
  unfolding confirm
  confirm-IsConsistent capacity failed b (unread e, w) s c = c
  confirm-IsConsistent capacity failed b (observed o, w) s c =
      ground (arith, commit-IsConsistent capacity o b s c)

  fresh-Sound :
      (capacity : ℕ) (b : Controller) (w : W)
      → IsConsistent capacity b
      → Sound capacity (read_memory_observation ch b.capacity w)
  fresh-Sound capacity b w c = rw (c.same_capacity) (read-Sound capacity w)

  resize-IsConsistent :
      (capacity : ℕ) (b : Controller) (w : W)
      → IsConsistent capacity b
      → IsConsistent capacity (resize_and_confirm ch b w).1
  unfolding resize_and_confirm
  resize-IsConsistent capacity b w c =
      let reply = ch.resize b.state.desired_target w in
      confirm-IsConsistent capacity reply.0
        (if reply.0 then b else set_accepted_target b.state.desired_target b)
        (read_memory_observation ch b.capacity reply.1) (fresh-Sound capacity b reply.1 c)
        (ground (arith, accept-IsConsistent capacity b.state.desired_target b c.desired c))

  after_first-IsConsistent :
      (capacity : ℕ) (seen : Option BalloonState) (b : Controller) (r : Read × W)
      → Sound capacity r
      → IsConsistent capacity b
      → IsConsistent capacity (after_first_read ch seen b r).1
  unfolding after_first_read
  after_first-IsConsistent capacity none b (unread e, w) s c = resize-IsConsistent capacity b w c
  after_first-IsConsistent capacity (some seen) b (unread e, w) s c = c
  after_first-IsConsistent capacity seen b (observed o, w) s c =
      let b' = commit_observation o b in
      let c' = commit-IsConsistent capacity o b s c in
      ground (arith, c', resize-IsConsistent capacity b' w c')

  apply_held-IsConsistent :
      (capacity : ℕ) (seen : Option BalloonState) (b : Controller) (w : W)
      → IsConsistent capacity b
      → IsConsistent capacity (apply_desired_held_mode ch seen b w).1
  unfolding apply_desired_held_mode
  apply_held-IsConsistent capacity seen b w c = ground (
    arith,
    after_first-IsConsistent capacity seen b (read_memory_observation ch b.capacity w)
        (fresh-Sound capacity b w c) c,
  )

  after_desired-IsConsistent :
      (capacity : ℕ) (r : Option BalloonError × Controller) (w : W)
      → IsConsistent capacity r.1
      → IsConsistent capacity (after_desired ch r w).1
  unfolding after_desired
  after_desired-IsConsistent capacity (some e, b) w c = c
  after_desired-IsConsistent capacity (none, b) w c = apply_held-IsConsistent capacity none b w c

  after_observe-IsConsistent :
      (capacity : ℕ) (b : Controller) (r : Read × W)
      → Sound capacity r
      → IsConsistent capacity b
      → IsConsistent capacity (after_observe ch b r).1
  unfolding after_observe
  after_observe-IsConsistent capacity b (unread e, w) s c = c
  after_observe-IsConsistent capacity b (observed o, w) s c = commit-IsConsistent capacity o b s c

  retry_read-IsConsistent :
      (capacity : ℕ) (seen : BalloonState) (current : Bool) (b : Controller) (r : Read × W)
      → Sound capacity r
      → IsConsistent capacity b
      → IsConsistent capacity (retry_read ch seen current b r).1
  unfolding retry_read after_retry
  retry_read-IsConsistent capacity seen current b (unread e, w) s c = c
  retry_read-IsConsistent capacity seen current b (observed o, w) s c =
      ground (arith, commit-IsConsistent capacity o b s c)

-- What can happen to a controller: each call of its methods, with any client in any state.
pub data Step {W : Type 0} (ch : Client W) (b : Controller) : Controller → Type 0 where
  seeds_cold : (target : ℕ) → Step ch b (seed_cold_target target b).1
  seeds_restored : (target current : ℕ) → Step ch b (seed_restored_state target current b).1
  wants : (target : ℕ) → Step ch b (set_desired_target target b).1
  observes : (w : W) → Step ch b (observe ch b w).1
  applies : (target : ℕ) (w : W) → Step ch b (apply_target ch target b w).1
  applies_held :
      (seen : Option BalloonState) (w : W) → Step ch b (apply_desired_held_mode ch seen b w).1
  retries :
      (seen : BalloonState) (current : Bool) (w : W)
      → Step ch b (retry_accepted_target_held ch seen current b w).1

pub data Reach {W : Type 0} (ch : Client W) (s : Controller) : Controller → Type 0 where
  here : Reach ch s s
  next : {t u : Controller} → Reach ch s t → Step ch t u → Reach ch s u

Step-IsConsistent :
    {W : Type 0} (ch : Client W) (capacity : ℕ) {b b' : Controller}
    → IsConsistent capacity b
    → Step ch b b'
    → IsConsistent capacity b'
unfolding apply_target observe retry_accepted_target_held
Step-IsConsistent ch capacity {b = b} c (seeds_cold target) =
    seed_cold-IsConsistent capacity target b c
Step-IsConsistent ch capacity {b = b} c (seeds_restored target current) =
    seed_restored-IsConsistent capacity target current b c
Step-IsConsistent ch capacity {b = b} c (wants target) =
    set_desired-IsConsistent capacity target b c
Step-IsConsistent ch capacity {b = b} c (observes w) =
    after_observe-IsConsistent ch capacity b (read_memory_observation ch b.capacity w)
      (fresh-Sound ch capacity b w c) c
Step-IsConsistent ch capacity {b = b} c (applies target w) =
    after_desired-IsConsistent ch capacity (set_desired_target target b) w
      (set_desired-IsConsistent capacity target b c)
Step-IsConsistent ch capacity {b = b} c (applies_held seen w) =
    apply_held-IsConsistent ch capacity seen b w c
Step-IsConsistent ch capacity {b = b} c (retries seen current w) =
    retry_read-IsConsistent ch capacity seen current b (read_memory_observation ch b.capacity w)
      (fresh-Sound ch capacity b w c) c

new-IsConsistent : (capacity : ℕ) → IsConsistent capacity (new_controller capacity)
unfolding new_controller
new-IsConsistent capacity = ground arith

-- In every state that a new controller reaches, whatever the client answers, the wanted and the
-- accepted target are whole pages within the capacity, and once the balloon has been observed, the
-- guest's Budget and the balloon make up the capacity.
pub controller-IsConsistent :
    {W : Type 0} (ch : Client W) (capacity : ℕ) {b : Controller}
    → Reach ch (new_controller capacity) b
    → IsConsistent capacity b
controller-IsConsistent ch capacity here = new-IsConsistent capacity
controller-IsConsistent ch capacity (next r s) =
    Step-IsConsistent ch capacity (controller-IsConsistent ch capacity r) s
