-- ===== src/Uffd/Install/Moves.antt =====
-- What an installation does to the page states.
use sandboxer.Prelude.{
  ℕ, ◌+◌, ◌*◌, ◌/◌, ◌%◌, ◌≤◌, ◌<◌, ◌≡◌, refl, Option, none, some, List, Bool, false, ltb, take,
  arith, ◌⊎◌, inl,
}
use sandboxer.Uffd.State.{PageStateMap, state_loaded, get, run_length, set_range_if}
use sandboxer.Uffd.State.Pages.{get-set_range_if}
use sandboxer.Uffd.State.Runs.{run_length-le}
use sandboxer.Uffd.AddressMap.{page_size}
use sandboxer.Uffd.Install.{
  IoctlError, IoReply, Ops, Handler, Completion, completed_bytes, bad_completion,
  checked_completion, Urgent, zero_clean, copy_clean, settle_urgent, finish_urgent,
  urgent_zero_locked, converge, urgent_copy, urgent_zero, none_done, settle_tail, finish_tail,
  execute_tail_io, eexist,
}

-- A page keeps its state, or goes from `expected` to Loaded as one of `n` pages from `idx`.
abbrev pub Moves : ℕ → ℕ → ℕ → ℕ → PageStateMap → PageStateMap → Type 0
Moves j idx n expected m m' =
    (get m' j ≡ get m j)
    ⊎ ((idx ≤ j) × (j < idx + n) × (get m j ≡ expected) × (get m' j ≡ state_loaded))

set_range_if-Moves :
    (j idx k n expected : ℕ) (m : PageStateMap)
    → k ≤ n
    → Moves j idx n expected m (set_range_if m idx (idx + k) expected state_loaded).1
set_range_if-Moves j idx k n expected m h =
    ground (arith, get-set_range_if m idx (idx + k) expected state_loaded j)

module _ {W : Type 0} (ops : Ops W) where
  settle_urgent-Moves :
      (j : ℕ) (m : PageStateMap) (fd dst idx expected done : ℕ) (e : Option IoctlError) (w : W)
      → done ≤ page_size
      → Moves j idx 1 expected m (settle_urgent ops m fd dst idx expected done e w).pages
  unfolding settle_urgent
  settle_urgent-Moves j m fd dst idx expected done none w h =
      ground (arith, set_range_if-Moves j idx (done / page_size) 1 expected m (omega arith))
  settle_urgent-Moves j m fd dst idx expected done (some eexist) w h = ground (
    arith,
    set_range_if-Moves j idx (done / page_size) 1 expected m (omega arith),
    set_range_if-Moves j idx 1 1 expected m (omega arith),
  )
  settle_urgent-Moves j m fd dst idx expected done (some e) w h =
      ground (arith, set_range_if-Moves j idx (done / page_size) 1 expected m (omega arith))

  checked_completion-le :
      (completed requested done : ℕ)
      → checked_completion completed requested ≡ completed_bytes done
      → (done ≤ requested) × (done % page_size ≡ 0)
  unfolding checked_completion
  checked_completion-le completed requested done h = ground arith

  finish_urgent-Moves :
      (j : ℕ) (m : PageStateMap) (fd dst idx expected : ℕ) (r : IoReply W)
      → Moves j idx 1 expected m (finish_urgent ops m fd dst idx expected r).pages
  unfolding finish_urgent
  finish_urgent-Moves j m fd dst idx expected r = go (checked_completion r.completed page_size) refl
    where
      go :
          (c : Completion)
          → checked_completion r.completed page_size ≡ c
          → Moves j idx 1 expected m
              (elim c as (λ x. Urgent W) [
                | bad_completion e ↦ record {
                  failure = some e;
                  tail_eligible = false;
                  pages = m;
                  world = r.world;
                }
                | completed_bytes done ↦
                    settle_urgent ops m fd dst idx expected done r.error r.world
              ]).pages
      go (bad_completion e) h = inl refl
      go (completed_bytes done) h =
          settle_urgent-Moves j m fd dst idx expected done r.error r.world
            (checked_completion-le r.completed page_size done h).0

  -- An urgent installation moves at most its own page, from the state that it has, to Loaded.
  abbrev pub Urges : ℕ → ℕ → PageStateMap → PageStateMap → Type 0
  Urges j idx m m' = (get m' j ≡ get m j) ⊎ ((j ≡ idx) × (get m' j ≡ state_loaded))

  pub urgent_copy-Urges :
      (j : ℕ) (h : Handler) (fd dst idx expected : ℕ) (bytes : List ℕ) (w : W)
      → Urges j idx h.pages (urgent_copy ops h fd dst idx expected bytes w).pages
  unfolding urgent_copy converge urgent_zero_locked
  urgent_copy-Urges j h fd dst idx expected bytes w = ground (
    arith,
    finish_urgent-Moves j h.pages fd dst idx expected (copy_clean ops h fd dst bytes w),
    finish_urgent-Moves j h.pages fd dst idx (get h.pages idx)
        (zero_clean ops h fd dst page_size w).0,
  )

  pub urgent_zero-Urges :
      (j : ℕ) (h : Handler) (fd dst idx expected : ℕ) (w : W)
      → Urges j idx h.pages (urgent_zero ops h fd dst idx expected w).pages
  unfolding urgent_zero converge urgent_zero_locked
  urgent_zero-Urges j h fd dst idx expected w = ground (
    arith,
    finish_urgent-Moves j h.pages fd dst idx expected (zero_clean ops h fd dst page_size w).0,
    finish_urgent-Moves j h.pages fd dst idx (get h.pages idx)
        (zero_clean ops h fd dst page_size w).0,
  )

  settle_tail-Moves :
      (j : ℕ) (m : PageStateMap) (idx expected len : ℕ) (shortened : Bool) (done : ℕ)
      (e : Option IoctlError) (w : W)
      → done ≤ len
      → Moves j idx
          (len / page_size)
          expected
          m
          (settle_tail ops m idx expected len shortened done e w).2
  unfolding settle_tail
  settle_tail-Moves j m idx expected len shortened done none w h = ground (
    arith,
    set_range_if-Moves j idx (done / page_size) (len / page_size) expected m (omega arith),
  )
  settle_tail-Moves j m idx expected len shortened done (some e) w h = ground (
    arith,
    set_range_if-Moves j idx (done / page_size) (len / page_size) expected m (omega arith),
  )

  finish_tail-Moves :
      (j : ℕ) (m : PageStateMap) (idx expected len : ℕ) (shortened : Bool) (r : IoReply W)
      → Moves j idx (len / page_size) expected m (finish_tail ops m idx expected len shortened r).2
  unfolding finish_tail
  finish_tail-Moves j m idx expected len shortened r = go (checked_completion r.completed len) refl
    where
      go :
          (c : Completion)
          → checked_completion r.completed len ≡ c
          → Moves j idx
              (len / page_size)
              expected
              m
              (elim c as (λ x. ℕ × Bool × PageStateMap × W) [
                | bad_completion e ↦ none_done ops m r.world
                | completed_bytes done ↦
                    settle_tail ops m idx expected len shortened done r.error r.world
              ]).2
      go (bad_completion e) h = inl refl
      go (completed_bytes done) h =
          settle_tail-Moves j m idx expected len shortened done r.error r.world
            (checked_completion-le r.completed len done h).0

  -- A tail moves only pages that it asked for and that were as expected, to Loaded.
  pub execute_tail_io-Moves :
      (j : ℕ) (h : Handler) (fd dst idx expected : ℕ) (bytes : Option (List ℕ)) (wanted : ℕ) (w : W)
      → Moves j idx
          (wanted / page_size)
          expected
          h.pages
          (execute_tail_io ops h fd dst idx expected bytes wanted w).2
  unfolding execute_tail_io
  execute_tail_io-Moves j h fd dst idx expected bytes wanted w =
      let n = run_length h.pages idx (wanted / page_size) expected in
      let len = n * page_size in
      let io : IoReply W = elim bytes [
        | none ↦ (zero_clean ops h fd dst len w).0
        | some b ↦ copy_clean ops h fd dst (take len b) w
      ] in
      ground (
        arith,
        run_length-le h.pages idx (wanted / page_size) expected,
        finish_tail-Moves j h.pages idx expected len (ltb len wanted) io,
      )
