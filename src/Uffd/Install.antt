-- ===== src/Uffd/Install.antt =====
-- The installations of pkg/uffd/fault.go and dirty.go: what the handler does to the guest's pages
-- while it holds installMu. The userfaultfd ioctls and the dirty set are a record of operations.
-- Statistics and log lines are left out.
pub mod Calls
pub mod Moves
use sandboxer.Prelude.{
  ℕ, ◌+◌, ◌-◌, ◌*◌, ◌/◌, ◌%◌, ◌^◌, Option, none, some, List, [], ◌∷◌, Bool, true, false, ltb, leb,
  ◌==◌, if◌then◌else◌, ◌||◌, ◌&&◌, not, length, take, replicate,
}
use sandboxer.Uffd.State.{PageStateMap, state_loaded, state_released, get, run_length, set_range_if}
use sandboxer.Uffd.AddressMap.{AddressMap, page_size, locate, owns}

-- The errors that the code tells apart; `mark_failed` is that of the dirty set.
pub data IoctlError : Type 0 where
  eexist eagain enoent einval eopnotsupp mark_failed : IoctlError
  errno : ℕ → IoctlError

-- `completed` is an int64, kept as its 64-bit pattern.
pub record IoReply (W : Type 0) : Type 0 where
  pub completed : ℕ
  pub error : Option IoctlError
  pub world : W

-- uffdOps, and Mark of the dirty set, which says whether it failed.
pub record Ops (W : Type 0) : Type 0 where
  pub copy : ℕ → ℕ → List ℕ → W → IoReply W
  pub zeropage : ℕ → ℕ → ℕ → W → IoReply W
  pub wake : ℕ → ℕ → ℕ → W → W
  pub mark : ℕ → ℕ → W → Bool × W

-- What an installation reads of the handler; `canceled` is whether the context has ended.
pub record Handler : Type 0 where
  pub addresses : AddressMap
  pub pages : PageStateMap
  pub canceled : Bool
  pub tracks_dirty : Bool

pub data FaultError : Type 0 where
  context_canceled registration_lost negative_completion excess_completion : FaultError
  unaligned_completion short_completion : FaultError
  ioctl : IoctlError → FaultError

pub data Completion : Type 0 where
  completed_bytes : ℕ → Completion
  bad_completion : FaultError → Completion

unfoldable pub checked_completion : ℕ → ℕ → Completion
checked_completion completed requested =
    if leb (2 ^ 63) completed
    then bad_completion negative_completion
    else if ltb requested completed
    then bad_completion excess_completion
    else if not (completed % page_size == 0)
    then bad_completion unaligned_completion
    else completed_bytes completed

abbrev pub is_eexist : Option IoctlError → Bool
is_eexist (some eexist) = true
is_eexist _ = false

abbrev pub unsupported : Option IoctlError → Bool
unsupported (some einval) = true
unsupported (some eopnotsupp) = true
unsupported _ = false

-- The result of an urgent installation: its error, whether a tail may follow, and the state.
pub record Urgent (W : Type 0) : Type 0 where
  pub failure : Option FaultError
  pub tail_eligible : Bool
  pub pages : PageStateMap
  pub world : W

module _ {W : Type 0} (ops : Ops W) where
  -- markInstall: whether it failed.
  unfoldable pub mark_install : Handler → ℕ → ℕ → ℕ → W → Bool × W
  mark_install h fd dst len w = elim (locate h.addresses dst) [
    | none ↦ (h.tracks_dirty, w)
    | some off ↦
        if not h.tracks_dirty
        then (false, w)
        else if not (owns h.addresses fd dst off len)
        then (true, w)
        else ops.mark off len w
  ]

  abbrev pub after_mark : IoReply W → Bool × W → IoReply W
  after_mark r (failed, w) = record r {
    error = if failed then some mark_failed else r.error;
    world = w;
  }

  -- copyCleanLocked.
  unfoldable pub copy_clean : Handler → ℕ → ℕ → List ℕ → W → IoReply W
  copy_clean h fd dst bytes w =
      let r = ops.copy fd dst bytes w in
      if is_eexist r.error then after_mark r (mark_install h fd dst (length bytes) r.world) else r

  -- zeroCleanLocked: also whether the kernel's zero page was used.
  unfoldable pub zero_clean : Handler → ℕ → ℕ → ℕ → W → IoReply W × Bool
  zero_clean h fd dst len w =
      let r = ops.zeropage fd dst len w in
      if r.completed == 0 && unsupported r.error
      then (copy_clean h fd dst (replicate len 0) r.world, false)
      else (if is_eexist r.error then after_mark r (mark_install h fd dst len r.world) else r, true)

  -- finishUrgent after the completion has been checked.
  pub settle_urgent : PageStateMap → ℕ → ℕ → ℕ → ℕ → ℕ → Option IoctlError → W → Urgent W
  settle_urgent m fd dst idx expected done error w =
      let pages = done / page_size in
      let committed =
        if ltb 0 pages then set_range_if m idx (idx + pages) expected state_loaded else (0, m) in
      let conflict : Urgent W = record {
        failure = none;
        tail_eligible = false;
        pages = committed.1;
        world = ops.wake fd dst page_size w;
      } in
      elim error [
        | none ↦ record {
          failure = if done == page_size then none else some short_completion;
          tail_eligible = done == page_size && committed.0 == 1;
          pages = committed.1;
          world = w;
        }
        | some eexist ↦ record conflict {
          pages =
              if done == 0
              then (set_range_if committed.1 idx (idx + 1) expected state_loaded).1
              else committed.1;
        }
        | some eagain ↦ conflict
        | some enoent ↦ conflict
        | some e ↦ record conflict { failure = some (ioctl e); world = w }
      ]

  unfoldable pub finish_urgent : PageStateMap → ℕ → ℕ → ℕ → ℕ → IoReply W → Urgent W
  unfolding settle_urgent
  finish_urgent m fd dst idx expected r = elim (checked_completion r.completed page_size) [
    | bad_completion e ↦ record {
      failure = some e;
      tail_eligible = false;
      pages = m;
      world = r.world;
    }
    | completed_bytes done ↦ settle_urgent m fd dst idx expected done r.error r.world
  ]

  unfoldable pub urgent_zero_locked : Handler → ℕ → ℕ → ℕ → ℕ → W → Urgent W
  urgent_zero_locked h fd dst idx expected w =
      finish_urgent h.pages fd dst idx expected (zero_clean h fd dst page_size w).0

  abbrev pub unchanged : Handler → Option FaultError → W → Urgent W
  unchanged h e w = record { failure = e; tail_eligible = false; pages = h.pages; world = w }

  -- What urgentCopy and urgentZero do where the page is no longer as expected.
  unfoldable pub converge : Handler → ℕ → ℕ → ℕ → W → Urgent W
  converge h fd dst idx w =
      let current = get h.pages idx in
      if current == state_loaded
      then unchanged h none (ops.wake fd dst page_size w)
      else record (urgent_zero_locked h fd dst idx current w) { tail_eligible = false }

  -- urgentCopy of one page of source data.
  unfoldable pub urgent_copy : Handler → ℕ → ℕ → ℕ → ℕ → List ℕ → W → Urgent W
  urgent_copy h fd dst idx expected bytes w =
      if h.canceled
      then unchanged h (some context_canceled) w
      else if not (owns h.addresses fd dst (idx * page_size % 2 ^ 64) page_size)
      then unchanged h (some registration_lost) w
      else if not (get h.pages idx == expected)
      then converge h fd dst idx w
      else finish_urgent h.pages fd dst idx expected (copy_clean h fd dst bytes w)

  unfoldable pub urgent_zero : Handler → ℕ → ℕ → ℕ → ℕ → W → Urgent W
  urgent_zero h fd dst idx expected w =
      if h.canceled
      then unchanged h (some context_canceled) w
      else if not (owns h.addresses fd dst (idx * page_size % 2 ^ 64) page_size)
      then unchanged h (some registration_lost) w
      else if not (get h.pages idx == expected)
      then converge h fd dst idx w
      else urgent_zero_locked h fd dst idx expected w

  -- The bytes done, whether the whole tail was installed, and the state.
  abbrev pub Tail : Type 0
  Tail = ℕ × Bool × PageStateMap × W

  abbrev pub none_done : PageStateMap → W → Tail
  none_done m w = (0, false, m, w)

  -- executeTailIO after the ioctl, for `len` bytes of which `done` are.
  pub settle_tail : PageStateMap → ℕ → ℕ → ℕ → Bool → ℕ → Option IoctlError → W → Tail
  settle_tail m idx expected len shortened done error w =
      let pages = done / page_size in
      let changed =
        if ltb 0 pages then set_range_if m idx (idx + pages) expected state_loaded else (0, m) in
      if ltb 0 pages && not (changed.0 == pages) then (done, false, changed.1, w) else elim error [
        | some e ↦ (done, false, changed.1, w)
        | none ↦ (done, done == len && not shortened, changed.1, w)
      ]

  unfoldable pub finish_tail : PageStateMap → ℕ → ℕ → ℕ → Bool → IoReply W → Tail
  unfolding settle_tail
  finish_tail m idx expected len shortened r = elim (checked_completion r.completed len) [
    | bad_completion e ↦ none_done m r.world
    | completed_bytes done ↦ settle_tail m idx expected len shortened done r.error r.world
  ]

  -- executeTailIO; `bytes` is none for a tail of zeroes.
  unfoldable pub execute_tail_io : Handler → ℕ → ℕ → ℕ → ℕ → Option (List ℕ) → ℕ → W → Tail
  execute_tail_io h fd dst idx expected bytes wanted w =
      let len = run_length h.pages idx (wanted / page_size) expected * page_size in
      if h.canceled || not (owns h.addresses fd dst (idx * page_size % 2 ^ 64) wanted)
      then none_done h.pages w
      else if len == 0
      then none_done h.pages w
      else finish_tail h.pages idx expected len (ltb len wanted) (elim bytes [
        | none ↦ (zero_clean h fd dst len w).0
        | some b ↦ copy_clean h fd dst (take len b) w
      ])
