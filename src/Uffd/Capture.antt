-- ===== src/Uffd/Capture.antt =====
-- CaptureMemoryLayout of pkg/uffd/capture_layout.go: which holes of the memfd a snapshot keeps as
-- holes, and which it records as zeroes. `scanned` is what the scan returns; a size is an int64 that
-- is not negative.
pub mod Layout
use sandboxer.Prelude.{
  ℕ, zero, suc, ◌+◌, ◌-◌, ◌*◌, ◌/◌, Option, none, some, List, [], ◌∷◌, Bool, ltb, leb, ◌==◌,
  if◌then◌else◌, ◌||◌, length, get_or, min,
}
use sandboxer.Sparse.{Extent, append_run}
use sandboxer.Uffd.State.{PageStateMap, state_absent, state_loaded, state_released}
use sandboxer.Uffd.AddressMap.{page_size}

pub data CaptureError : Type 0 where
  closing scan_failed invalid_hole short_state_map invalid_state out_of_turns : CaptureError

pub data Captured : Type 0 where
  layout : List Extent → List Extent → Captured
  capture_failed : CaptureError → Captured

-- The loop over the pages of one hole, on fuel; then what follows the hole.
pub page_loop :
    ℕ
    → PageStateMap
    → ℕ
    → ℕ
    → List Extent
    → List Extent
    → (List Extent → List Extent → Captured)
    → Captured
page_loop zero m off end holes zeros after =
    if ltb off end then capture_failed out_of_turns else after holes zeros
page_loop (suc n) m off end holes zeros after =
    let page = off / page_size in
    let next = min end ((page + 1) * page_size) in
    let state = get_or m.pages page state_absent in
    let kept = page_loop n m next end (append_run off next holes) zeros after in
    let zeroed = page_loop n m next end holes (append_run off next zeros) after in
    if leb end off
    then after holes zeros
    else if leb (length m.pages) page
    then capture_failed short_state_map
    else if state == state_absent
    then kept
    else if state == state_released || state == state_loaded
    then zeroed
    else capture_failed invalid_state

-- The loop over the holes. A turn of the inner loop takes one byte at least.
pub hole_loop : PageStateMap → ℕ → ℕ → List Extent → List Extent → List Extent → Captured
unfolding page_loop
hole_loop m size previous [] holes zeros = layout holes zeros
hole_loop m size previous (r ∷ rs) holes zeros =
    let end = r.offset + r.size in
    let rest =
      page_loop r.size m r.offset end holes zeros (λ hs zs. hole_loop m size end rs hs zs) in
    if r.size == 0 || ltb r.offset previous || ltb size r.offset || ltb (size - r.offset) r.size
    then capture_failed invalid_hole
    else rest

unfoldable pub capture_memory_layout : Bool → PageStateMap → ℕ → Option (List Extent) → Captured
unfolding hole_loop
capture_memory_layout is_closing m size scanned =
    if is_closing then capture_failed closing else elim scanned [
      | none ↦ capture_failed scan_failed
      | some physical ↦ hole_loop m size 0 physical [] []
    ]
