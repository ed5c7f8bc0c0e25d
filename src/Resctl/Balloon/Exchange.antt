-- ===== src/Resctl/Balloon/Exchange.antt =====
-- What an exchange with Cloud Hypervisor establishes (pkg/resctl/balloon.go): a confirmed target,
-- and which resize requests a guarded shrink may send.
use sandboxer.Prelude.{
  ℕ, ◌+◌, ◌-◌, ◌^◌, ◌≤◌, ◌<◌, ◌≡◌, ◌∙◌, refl, Option, none, some, List, [], ◌∷◌, Bool, true, false,
  arith, ◌⊎◌, inl, inr, if◌then◌else◌, sym, ◌==◌, Bool-cases, Option-cases,
}
use sandboxer.Resctl.Memory.{
  memory_step, saturating_add, validate_balloon_size, shrink_target_limit,
}
use sandboxer.Resctl.Balloon.{
  BalloonState, Controller, Client, Observation, BalloonError, Read, observed, unread, check_info,
  commit_observation, set_accepted_target, set_desired_target,
}
use sandboxer.Resctl.Balloon.Apply.{
  stamped, shrink_refused, refused_by, read_memory_observation, confirm, resize_and_confirm,
  after_first_read, apply_desired_held_mode, after_desired, apply_target, Done,
}

-- What a controller holds when an exchange to a target returned no error.
pub record Confirmed (target : ℕ) (b : Controller) : Type 0 where
  accepted : b.state.accepted_target ≡ target
  wanted : b.state.desired_target ≡ target
  known : b.state.accepted_target_known ≡ true
  current_known : b.state.balloon_current_known ≡ true
  live : b.actual.live ≡ true

module _ {W : Type 0} (ch : Client W) where
  confirm-Confirmed :
      (failed : Bool) (b : Controller) (r : Read × W)
      → (confirm ch failed b r).0 ≡ none
      → Confirmed b.state.desired_target (confirm ch failed b r).1
  unfolding confirm commit_observation
  confirm-Confirmed failed b (unread e, w) h = ground arith
  confirm-Confirmed failed b (observed o, w) h = ground arith

  resize-Confirmed :
      (b : Controller) (w : W)
      → (resize_and_confirm ch b w).0 ≡ none
      → Confirmed b.state.desired_target (resize_and_confirm ch b w).1
  unfolding resize_and_confirm set_accepted_target
  resize-Confirmed b w h =
      let reply = ch.resize b.state.desired_target w in
      let b' = if reply.0 then b else set_accepted_target b.state.desired_target b in
      ground (arith, confirm-Confirmed reply.0 b' (read_memory_observation ch b.capacity reply.1))

  after_first-Confirmed :
      (seen : Option BalloonState) (b : Controller) (r : Read × W)
      → (after_first_read ch seen b r).0 ≡ none
      → Confirmed b.state.desired_target (after_first_read ch seen b r).1
  unfolding after_first_read commit_observation
  after_first-Confirmed none b (unread e, w) h = resize-Confirmed b w h
  after_first-Confirmed (some seen) b (unread e, w) h = ground arith
  after_first-Confirmed seen b (observed o, w) h =
      ground (arith, resize-Confirmed (commit_observation o b) w)

  held-Confirmed :
      (seen : Option BalloonState) (b : Controller) (w : W)
      → (apply_desired_held_mode ch seen b w).0 ≡ none
      → Confirmed b.state.desired_target (apply_desired_held_mode ch seen b w).1
  unfolding apply_desired_held_mode
  held-Confirmed seen b w h =
      ground (arith, after_first-Confirmed seen b (read_memory_observation ch b.capacity w))

-- The last exchange with Cloud Hypervisor was a vm.info that reported the target, and the controller
-- holds the sizes that it reported.
pub record LastRead {W : Type 0} (ch : Client W) (capacity target : ℕ) (d : Done W) : Type 0 where
  pub before : W
  pub seen : Observation
  pub read : read_memory_observation ch capacity before ≡ (observed seen, d.2)
  pub reports : seen.accepted_target ≡ target
  pub holds :
      (d.1.state.current_budget ≡ seen.current_budget)
      × (d.1.state.balloon_current ≡ seen.balloon_current)

module _ {W : Type 0} (ch : Client W) where
  confirm-LastRead :
      (failed : Bool) (b : Controller) (before : W) (r : Read × W)
      → read_memory_observation ch b.capacity before ≡ r
      → (confirm ch failed b r).0 ≡ none
      → LastRead ch b.capacity b.state.desired_target (confirm ch failed b r)
  unfolding confirm commit_observation
  confirm-LastRead failed b before (unread e, w) same h = absurd (ground arith)
  confirm-LastRead failed b before (observed o, w) same h =
      elim (Bool-cases (o.accepted_target == b.state.desired_target)) [
        | inl a ↦ rw a (record {
          before = before;
          seen = o;
          read = same;
          reports = ground arith;
          holds = (refl, refl);
        })
        | inr a ↦ absurd (ground arith)
      ]

  resize-LastRead :
      (b : Controller) (w : W)
      → (resize_and_confirm ch b w).0 ≡ none
      → LastRead ch b.capacity b.state.desired_target (resize_and_confirm ch b w)
  unfolding resize_and_confirm set_accepted_target
  resize-LastRead b w h =
      let reply = ch.resize b.state.desired_target w in
      let b' = set_accepted_target b.state.desired_target b in
      let r = read_memory_observation ch b.capacity reply.1 in
      elim (Bool-cases reply.0) [
        | inl a ↦
            let h' = rw (resize_and_confirm, a) at h in
            rw (resize_and_confirm, a) (confirm-LastRead true b reply.1 r refl h')
        | inr a ↦
            let h' = rw (resize_and_confirm, a) at h in
            rw (resize_and_confirm, a) (confirm-LastRead false b' reply.1 r refl h')
      ]

  after_first-LastRead :
      (b : Controller) (before : W) (r : Read × W)
      → read_memory_observation ch b.capacity before ≡ r
      → (after_first_read ch none b r).0 ≡ none
      → LastRead ch b.capacity b.state.desired_target (after_first_read ch none b r)
  unfolding after_first_read commit_observation refused_by
  after_first-LastRead b before (unread e, w) same h = resize-LastRead b w h
  after_first-LastRead b before (observed o, w) same h =
      elim (Bool-cases (o.accepted_target == b.state.desired_target)) [
        | inl a ↦ rw a (record {
          before = before;
          seen = o;
          read = same;
          reports = ground arith;
          holds = (refl, refl);
        })
        | inr a ↦ let h' = rw a at h in rw a (resize-LastRead (commit_observation o b) w h')
      ]

  held-LastRead :
      (b : Controller) (w : W)
      → (apply_desired_held_mode ch none b w).0 ≡ none
      → LastRead ch b.capacity b.state.desired_target (apply_desired_held_mode ch none b w)
  unfolding apply_desired_held_mode
  held-LastRead b w h =
      elim (Option-cases (validate_balloon_size b.capacity b.state.desired_target)) [
        | inl valid ↦
            let h' = rw (apply_desired_held_mode, valid) at h in
            rw (apply_desired_held_mode, valid)
              (after_first-LastRead b w (read_memory_observation ch b.capacity w) refl h')
        | inr (e, bad) ↦ absurd (ground arith)
      ]

-- A client that also keeps the resize requests sent through it, the last one first.
unfoldable pub recording : {W : Type 0} → Client W → Client (W × List ℕ)
recording ch = record {
  now = λ s. let r = ch.now s.0 in (r.0, (r.1, s.1));
  info = λ s. let r = ch.info s.0 in (r.0, (r.1, s.1));
  resize = λ n s. let r = ch.resize n s.0 in (r.0, (r.1, n ∷ s.1));
}

stamped-read : {W : Type 0} (r : Read) (before after : W) → (stamped r before after).0 ≡ r
unfolding stamped
stamped-read (unread e) before after = refl
stamped-read (observed o) before after = refl

stamped-log :
    {W : Type 0} (r : Read) (before after : W × List ℕ) (l : List ℕ)
    → before.1 ≡ l
    → after.1 ≡ l
    → (stamped r before after).1.1 ≡ l
unfolding stamped
stamped-log (unread e) before after l b a = b
stamped-log (observed o) before after l b a = a

module _ {W : Type 0} (ch : Client W) where
  read-log :
      (capacity : ℕ) (s : W × List ℕ)
      → (read_memory_observation (recording ch) capacity s).1.1 ≡ s.1
  unfolding read_memory_observation recording
  read-log capacity s =
      let started = ch.now s.0 in
      let reply = ch.info started.1 in
      let finished = ch.now reply.1 in
      stamped-log (check_info capacity reply.0 started.0 finished.0) (reply.1, s.1)
        (finished.1, s.1) s.1 refl refl

  -- The recording client reads what the client does.
  read-same :
      (capacity : ℕ) (s : W × List ℕ)
      → (read_memory_observation (recording ch) capacity s).0
        ≡ (read_memory_observation ch capacity s.0).0
  unfolding read_memory_observation recording
  read-same capacity s =
      let started = ch.now s.0 in
      let reply = ch.info started.1 in
      let finished = ch.now reply.1 in
      let r = check_info capacity reply.0 started.0 finished.0 in
      stamped-read r (reply.1, s.1) (finished.1, s.1) ∙ sym (stamped-read r reply.1 finished.1)

  confirm-log :
      (failed : Bool) (b : Controller) (r : Read × (W × List ℕ))
      → (confirm (recording ch) failed b r).2.1 ≡ r.1.1
  unfolding confirm
  confirm-log failed b (unread e, s) = refl
  confirm-log failed b (observed o, s) = ground arith

  resize-log :
      (b : Controller) (s : W × List ℕ)
      → (resize_and_confirm (recording ch) b s).2.1 ≡ b.state.desired_target ∷ s.1
  unfolding resize_and_confirm recording
  resize-log b s =
      let reply = ch.resize b.state.desired_target s.0 in
      let b' = if reply.0 then b else set_accepted_target b.state.desired_target b in
      let s' : W × List ℕ = (reply.1, b.state.desired_target ∷ s.1) in
      confirm-log reply.0 b' (read_memory_observation (recording ch) b.capacity s')
      ∙ read-log b.capacity s'

-- A target that a shrink may ask for, decided on the sample `seen`, when vm.info has just reported `o`.
abbrev pub AllowedShrink : ℕ → BalloonState → Observation → ℕ → Type 0
AllowedShrink capacity seen o target =
    (seen.accepted_target < target)
    × (target ≤ seen.accepted_target + memory_step)
    × (target ≤ capacity)
    × (o.accepted_target ≡ seen.accepted_target)
    × (o.current_budget ≤ seen.current_budget)
    × (o.current_budget ≤ capacity)
    × (target ≤ capacity - o.current_budget + memory_step)

shrink_refused_lem :
    (seen : BalloonState) (b : Controller)
    → b.capacity < 2 ^ 63
    → shrink_refused seen b ≡ none
    → (b.state.accepted_target ≡ seen.accepted_target)
      × (b.state.current_budget ≤ seen.current_budget)
      × (b.state.current_budget ≤ b.capacity)
      × (b.state.accepted_target < b.state.desired_target)
      × (b.state.desired_target ≤ b.state.accepted_target + memory_step)
      × (b.state.desired_target ≤ b.capacity)
      × (b.state.desired_target ≤ b.capacity - b.state.current_budget + memory_step)
unfolding shrink_refused shrink_target_limit saturating_add
shrink_refused_lem seen b small e = ground arith

shrink_refused-AllowedShrink :
    (seen : BalloonState) (b : Controller) (o : Observation)
    → b.capacity < 2 ^ 63
    → shrink_refused seen (commit_observation o b) ≡ none
    → AllowedShrink b.capacity seen o b.state.desired_target
unfolding commit_observation
shrink_refused-AllowedShrink seen b o small e =
    let (a, below, fits, above, step, within, near) =
      shrink_refused_lem seen (commit_observation o b) small e in
    (omega arith, omega arith, within, a, below, fits, near)

module _ {W : Type 0} (ch : Client W) where
  unless_refused : Option BalloonError → Controller → W × List ℕ → Done (W × List ℕ)
  unless_refused (some e) b s = (some e, b, s)
  unless_refused none b s = resize_and_confirm (recording ch) b s

  -- Nothing is sent, or the wanted target is, after a vm.info that `r` holds.
  abbrev Sends : BalloonState → Controller → Read → List ℕ → List ℕ → Type 0
  Sends seen b r before log =
      (log ≡ before)
      ⊎ ((o : Observation) × (r ≡ observed o)
          × (log ≡ b.state.desired_target ∷ before)
          × AllowedShrink b.capacity seen o b.state.desired_target)

  unless_refused-Sends :
      (seen : BalloonState) (b : Controller) (o : Observation) (s : W × List ℕ)
      (e : Option BalloonError)
      → b.capacity < 2 ^ 63
      → shrink_refused seen (commit_observation o b) ≡ e
      → Sends seen b (observed o) s.1 (unless_refused e (commit_observation o b) s).2.1
  unfolding unless_refused commit_observation
  unless_refused-Sends seen b o s (some e) small h = inl refl
  unless_refused-Sends seen b o s none small h = inr (
    o,
    refl,
    resize-log ch (commit_observation o b) s,
    shrink_refused-AllowedShrink seen b o small h,
  )

  after_first-Sends :
      (seen : BalloonState) (b : Controller) (r : Read × (W × List ℕ))
      → b.capacity < 2 ^ 63
      → Sends seen b r.0 r.1.1 (after_first_read (recording ch) (some seen) b r).2.1
  unfolding after_first_read refused_by commit_observation unless_refused
  after_first-Sends seen b (unread e, s) small = inl refl
  after_first-Sends seen b (observed o, s) small =
      let b' = commit_observation o b in
      let sent = unless_refused-Sends seen b o s (shrink_refused seen b') small refl in
      elim (Bool-cases (o.accepted_target == b.state.desired_target)) [
        | inl a ↦ rw a (inl refl)
        | inr a ↦ elim (Option-cases (shrink_refused seen b')) [
          | inl go ↦ rw (after_first_read, a, go) (unless_refused-Sends seen b o s none small go)
          | inr (e, refused) ↦ rw (after_first_read, a, refused) (inl refl)
        ]
      ]

  -- A guarded shrink sends at most one resize request, to the target that is wanted. It sends it
  -- only after a vm.info that reported the accepted target of the sample that decided the shrink and
  -- an actual Budget not above the sample's, and only when the wanted target lies above the accepted
  -- one, at most one step above it, within the capacity, and at most one step above the size that
  -- the balloon has at the reported Budget.
  pub shrink_sends_one_step :
      (seen : BalloonState) (b : Controller) (w : W)
      → b.capacity < 2 ^ 63
      → let log = (apply_desired_held_mode (recording ch) (some seen) b (w, [])).2.1 in
        (log ≡ [])
        ⊎ ((o : Observation) × ((read_memory_observation ch b.capacity w).0 ≡ observed o)
            × (log ≡ b.state.desired_target ∷ [])
            × AllowedShrink b.capacity seen o b.state.desired_target)
  unfolding apply_desired_held_mode read_memory_observation stamped
  shrink_sends_one_step seen b w small =
      let r = read_memory_observation (recording ch) b.capacity (w, []) in
      let raw = after_first-Sends seen b r small in
      let sent = rw (read-same ch b.capacity (w, []), read-log ch b.capacity (w, [])) at raw in
      elim (Option-cases (validate_balloon_size b.capacity b.state.desired_target)) [
        | inl valid ↦ rw (apply_desired_held_mode, valid) sent
        | inr (e, bad) ↦ rw (apply_desired_held_mode, bad) (inl refl)
      ]

  -- When ApplyTarget returns no error, the last exchange was a vm.info that reported the target: it
  -- is the accepted and the wanted one, it is a size the balloon can have, and the controller holds a
  -- live observation with the sizes of that vm.info.
  pub apply_target_confirms :
      (target : ℕ) (b : Controller) (w : W)
      → (apply_target ch target b w).0 ≡ none
      → Confirmed target (apply_target ch target b w).1
        × LastRead ch b.capacity target (apply_target ch target b w)
        × (validate_balloon_size b.capacity target ≡ none)
  unfolding apply_target after_desired set_desired_target
  apply_target_confirms target b w h =
      let b' : Controller = record b { state = record b.state { desired_target = target } } in
      elim (Option-cases (validate_balloon_size b.capacity target)) [
        | inl valid ↦
            let h' = rw (apply_target, set_desired_target, valid) at h in
            rw (apply_target, set_desired_target, valid)
              (held-Confirmed ch none b' w h', held-LastRead ch b' w h', refl)
        | inr (e, bad) ↦ absurd (ground arith)
      ]
