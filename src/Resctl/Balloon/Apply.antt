-- ===== src/Resctl/Balloon/Apply.antt =====
-- The exchanges with Cloud Hypervisor of pkg/resctl/balloon.go: Observe, ApplyTarget, the guarded
-- shrink and the retry of an accepted target. Each returns its error, the controller, and the
-- client's state; the state that the source returns beside an error is the controller's own.
use sandboxer.Prelude.{ℕ, Option, none, some, Bool, ltb, leb, ◌==◌, if◌then◌else◌, ◌||◌, not}
use sandboxer.Resctl.Memory.{shrink_target_limit, validate_balloon_size}
use sandboxer.Resctl.Balloon.{
  BalloonState, Controller, Client, BalloonError, invalid_size, Read, observed, unread, check_info,
  commit_observation, set_accepted_target, set_desired_target, decision_changed, step_exceeded,
  shrink_deferred, resize_failed, target_differs, resize_failed_and_differs, unconfirmed,
}

abbrev pub Done : Type 0 → Type 0
Done W = Option BalloonError × Controller × W

-- The test of applyDesiredHeldMode between the first vm.info and an inflate.
unfoldable pub shrink_refused : BalloonState → Controller → Option BalloonError
shrink_refused seen b =
    let s = b.state in
    if not seen.accepted_target_known
      || not seen.balloon_current_known
      || not (s.accepted_target == seen.accepted_target)
      || ltb seen.current_budget s.current_budget
    then some decision_changed
    else if leb s.desired_target s.accepted_target
        || ltb (shrink_target_limit b.capacity s.accepted_target s.current_budget) s.desired_target
    then some step_exceeded
    else none

unfoldable pub refused_by : Option BalloonState → Controller → Option BalloonError
unfolding shrink_refused
refused_by none b = none
refused_by (some seen) b = shrink_refused seen b

-- The clock is read a second time on success alone.
unfoldable pub stamped : {W : Type 0} → Read → W → W → Read × W
stamped (unread e) before after = (unread e, before)
stamped (observed o) before after = (observed o, after)

module _ {W : Type 0} (ch : Client W) where
  -- readMemoryObservation.
  unfoldable pub read_memory_observation : ℕ → W → Read × W
  read_memory_observation capacity w =
      let started = ch.now w in
      let reply = ch.info started.1 in
      let finished = ch.now reply.1 in
      stamped (check_info capacity reply.0 started.0 finished.0) reply.1 finished.1

  -- What applyDesiredHeldMode makes of the second vm.info.
  unfoldable pub confirm : Bool → Controller → Read × W → Done W
  confirm failed b (unread e, w) = (some (if failed then resize_failed else unconfirmed), b, w)
  confirm failed b (observed o, w) =
      let b' = commit_observation o b in
      if o.accepted_target == b.state.desired_target
      then (none, b', w)
      else (some (if failed then resize_failed_and_differs else target_differs), b', w)

  -- vm.resize to the desired target, and its confirmation.
  unfoldable pub resize_and_confirm : Controller → W → Done W
  resize_and_confirm b w =
      let reply = ch.resize b.state.desired_target w in
      let b' = if reply.0 then b else set_accepted_target b.state.desired_target b in
      confirm reply.0 b' (read_memory_observation b.capacity reply.1)

  unfoldable pub after_first_read : Option BalloonState → Controller → Read × W → Done W
  after_first_read none b (unread e, w) = resize_and_confirm b w
  after_first_read (some seen) b (unread e, w) = (some shrink_deferred, b, w)
  after_first_read seen b (observed o, w) =
      let b' = commit_observation o b in
      if o.accepted_target == b.state.desired_target
      then (none, b', w)
      else elim (refused_by seen b') [ some e ↦ (some e, b', w) | none ↦ resize_and_confirm b' w ]

  -- applyDesiredHeldMode; `seen` is the decision sample of a shrink.
  unfoldable pub apply_desired_held_mode : Option BalloonState → Controller → W → Done W
  apply_desired_held_mode seen b w =
      elim (validate_balloon_size b.capacity b.state.desired_target) [
        | some e ↦ (some (invalid_size e), b, w)
        | none ↦ after_first_read seen b (read_memory_observation b.capacity w)
      ]

  unfoldable pub after_desired : Option BalloonError × Controller → W → Done W
  after_desired (some e, b) w = (some e, b, w)
  after_desired (none, b) w = apply_desired_held_mode none b w

  unfoldable pub apply_target : ℕ → Controller → W → Done W
  apply_target target b w = after_desired (set_desired_target target b) w

  unfoldable pub after_observe : Controller → Read × W → Done W
  after_observe b (unread e, w) = (some e, b, w)
  after_observe b (observed o, w) = (none, commit_observation o b, w)

  unfoldable pub observe : Controller → W → Done W
  observe b w = after_observe b (read_memory_observation b.capacity w)

  -- The guard of retryAcceptedTargetHeld; `current` is what stillCurrent says.
  unfoldable pub retry_refused : BalloonState → Bool → BalloonState → Bool
  retry_refused seen current s =
      not seen.accepted_target_known
      || not seen.balloon_current_known
      || not (s.desired_target == s.accepted_target)
      || not (s.accepted_target == seen.accepted_target)
      || not (s.balloon_current == seen.balloon_current)
      || leb s.accepted_target s.balloon_current
      || not current

  unfoldable pub after_retry : Controller → Bool × W → Done W
  after_retry b (failed, w) = (if failed then some resize_failed else none, b, w)

  unfoldable pub retry_read : BalloonState → Bool → Controller → Read × W → Done W
  retry_read seen current b (unread e, w) = (some e, b, w)
  retry_read seen current b (observed o, w) =
      let b' = commit_observation o b in
      if retry_refused seen current b'.state
      then (none, b', w)
      else after_retry b' (ch.resize b'.state.accepted_target w)

  unfoldable pub retry_accepted_target_held : BalloonState → Bool → Controller → W → Done W
  retry_accepted_target_held seen current b w =
      retry_read seen current b (read_memory_observation b.capacity w)
