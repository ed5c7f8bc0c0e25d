-- ===== src/Uffd/Fault.antt =====
-- Which pages a fault of pkg/uffd/fault.go populates. A window is the Offset, the End and the Kind of
-- a fetch.ChunkRun. `size` is an int64 that is not negative.
pub mod Bounds
use sandboxer.Prelude.{
  ℕ, ◌+◌, ◌-◌, ◌*◌, ◌/◌, ◌%◌, ◌^◌, Option, none, some, Bool, true, false, ltb, leb, ◌==◌,
  if◌then◌else◌, ◌||◌, ◌&&◌, not, min, max,
}
use sandboxer.Uffd.State.{PageStateMap, state_absent, run_length, run_bounds}
use sandboxer.Uffd.AddressMap.{AddressMap, page_size, ch_region_remaining, ch_region_bounds}

pub record Window : Type 0 where
  pub offset : ℕ
  pub end : ℕ
  pub is_data : Bool

unfoldable pub aligned_page_start : ℕ → ℕ
aligned_page_start offset =
    if offset % page_size == 0 then offset else (offset + page_size - offset % page_size) % 2 ^ 64

unfoldable pub aligned_page_end : ℕ → ℕ
aligned_page_end offset = offset - offset % page_size

unfoldable pub aligned_run_end : ℕ → ℕ → ℕ
aligned_run_end start end =
    if leb end start then start else start + (end - start) / page_size * page_size

-- The test that the fault's page starts too late to have an end.
abbrev pub is_last_page : ℕ → Bool
is_last_page offset = ltb (2 ^ 64 - 1 - page_size) offset

unfoldable pub valid_chunk_window : Option Window → ℕ → ℕ → Bool
valid_chunk_window none offset buffer = false
valid_chunk_window (some w) offset buffer =
    if not w.is_data || leb w.end w.offset
    then false
    else if ltb offset w.offset || is_last_page offset || ltb w.end (offset + page_size)
    then false
    else leb (w.end - w.offset) buffer

-- addressHardEnd.
unfoldable pub address_hard_end : AddressMap → ℕ → ℕ → ℕ → ℕ
address_hard_end a size offset most =
    let length = min most (size - offset) in
    let (remaining, found) = ch_region_remaining a offset length in
    let within = if found && ltb remaining length then remaining else length in
    if leb size offset then offset else offset + (within - within % page_size)

-- stateHardEnd.
unfoldable pub state_hard_end : AddressMap → PageStateMap → ℕ → ℕ → ℕ → ℕ → ℕ → ℕ
state_hard_end a m size offset idx expected most =
    offset
    + run_length m idx ((address_hard_end a size offset most - offset) / page_size) expected
      * page_size

-- chunkPopulationBounds: where to start, where to end, and whether there is more than the page.
unfoldable pub chunk_population_bounds :
    AddressMap → PageStateMap → ℕ → Window → ℕ → ℕ → ℕ × ℕ × Bool
chunk_population_bounds a m size w offset idx =
    let window_end = min (aligned_page_end w.end) (aligned_page_end size) in
    let page : ℕ × ℕ × Bool = (offset, (offset + page_size) % 2 ^ 64, false) in
    elim (ch_region_bounds a offset) [
      | none ↦ page
      | some (low, high) ↦
          let start = max (aligned_page_start w.offset) (aligned_page_start low) in
          let end = min window_end (aligned_page_end high) in
          let (first, last) = run_bounds m idx (start / page_size) (end / page_size) state_absent in
          if ltb offset start || is_last_page offset || ltb end (offset + page_size)
          then page
          else if first == last
          then page
          else (first * page_size, last * page_size, true)
    ]
