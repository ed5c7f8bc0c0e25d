-- ===== src/Uffd/Tests.antt =====
-- The theorems about pkg/uffd at concrete inputs, and runs of its functions.
use sandboxer.Prelude.{
  ◌/◌, ◌%◌, true, List, not, false, some, ◌&&◌, ◌∷◌, [], ◌+◌, ◌-◌, ◌^◌, ◌≤◌, ◌<◌, ◌≡◌, ◌≢◌, refl,
  none, some, [], ◌∷◌, arith, ◌⊎◌, min, ◌&&◌,
}
use sandboxer.Sparse.{Extent, in_extents}
use sandboxer.Uffd.Fault.{Window, aligned_page_start, aligned_page_end, chunk_population_bounds}
use sandboxer.Uffd.Fault.Bounds.{chunk_population_bounds_lem}
use sandboxer.Uffd.Capture.{capture_memory_layout}
use sandboxer.Uffd.Capture.Layout.{Divides, is_absent, capture_memory_layout-Divides}
use sandboxer.Uffd.State.{PageStateMap, state_absent, state_loaded, get, run_length, run_bounds}
use sandboxer.Uffd.State.Runs.{run_bounds_maximal}
use sandboxer.Uffd.AddressMap.{
  AddressMap, new_address_map, process_ch, register_vma, add_uffd, after_register, bind_initial,
  page_size, ch_region_bounds, locate, registration, invalidate,
}
use sandboxer.Uffd.AddressMap.WellFormed.{IsWellFormed}
use sandboxer.Uffd.AddressMap.Lookup.{address, locate-registration, register_vma-locate}
use sandboxer.Uffd.AddressMap.Invalidate.{Clear, invalidate-Clear}
use sandboxer.Uffd.AddressMap.Reached.{
  Reach, here, next, registers, binds, adds, unmaps, map-IsWellFormed,
}

abbrev table : PageStateMap
table = record { pages = 0 ∷ 1 ∷ 1 ∷ 2 ∷ 1 ∷ [] }

run_length_two : run_length table 1 4 state_loaded ≡ 2
unfolding run_length
run_length_two = refl

run_bounds_maximal_example :
    let (start, end) = run_bounds table 2 0 5 state_loaded in
    ((1 < start) ⊎ (end ≤ 1) ⊎ (get table 1 ≡ state_loaded))
    × (0 ≤ start)
    × (start ≤ 2)
    × (2 < end)
    × (end ≤ min 5 5)
    × ((start ≡ 0) ⊎ (get table (start - 1) ≢ state_loaded))
    × ((end ≡ min 5 5) ⊎ (get table end ≢ state_loaded))
unfolding run_bounds get
run_bounds_maximal_example =
    run_bounds_maximal table 2 0 5 state_loaded 1 (omega arith) (omega arith) refl

-- The backend maps the whole memfd; CloudHypervisor maps it in two parts, around a hole.
abbrev empty_map : AddressMap
empty_map = new_address_map 16384

abbrev low_map : AddressMap
low_map = (register_vma empty_map process_ch 4096 8192 0).1

abbrev bound_map : AddressMap
bound_map = (bind_initial low_map 7).1

abbrev two_regions : AddressMap
two_regions = (add_uffd bound_map false true true 9 40960 8192 8192).1

two_regions-Reach : Reach (new_address_map 16384) two_regions
two_regions-Reach =
    next (next (next here (registers process_ch 4096 8192 0 (omega arith) (omega arith))) (binds 7))
      (adds false true true 9 40960 8192 8192 (omega arith) (omega arith))

map-IsWellFormed_example : IsWellFormed (invalidate two_regions 7 8192 12288)
map-IsWellFormed_example =
    map-IsWellFormed 16384 (omega arith) (next two_regions-Reach (unmaps 7 8192 12288))

invalidate-Clear_example : Clear 7 8192 12288 (invalidate two_regions 7 8192 12288).vmas
invalidate-Clear_example = invalidate-Clear two_regions 7 8192 12288 (omega arith) refl refl

located : locate two_regions 45000 ≡ some 12232
unfolding locate add_uffd after_register register_vma bind_initial new_address_map
located = refl

same_memfd : two_regions.memfd_len < 2 ^ 64
unfolding add_uffd after_register register_vma bind_initial new_address_map
same_memfd = omega arith

locate-registration_example :
    (registration two_regions 12232 100 ≡ none)
    ⊎ (address (registration two_regions 12232 100) ≡ some 45000)
locate-registration_example =
    locate-registration two_regions 45000 12232 100 same_memfd (omega arith)
      (map-IsWellFormed 16384 (omega arith) two_regions-Reach) located

bound_memfd : bound_map.memfd_len < 2 ^ 64
unfolding register_vma bind_initial new_address_map
bound_memfd = omega arith

accepted : (register_vma bound_map process_ch 40960 8192 8192).0 ≡ none
unfolding register_vma bind_initial new_address_map
accepted = refl

register_vma-locate_example :
    (locate (register_vma bound_map process_ch 40960 8192 8192).1 (40960 + 4040)
      ≡ some (8192 + 4040))
    × ((locate (register_vma bound_map process_ch 40960 8192 8192).1 5000 ≡ locate bound_map 5000)
        ⊎ (locate bound_map 5000 ≡ none))
register_vma-locate_example =
    register_vma-locate bound_map 40960 8192 8192 4040 5000 bound_memfd (omega arith) (omega arith)
      (omega arith) accepted

-- Of the five pages of the table, the first is Absent; the hole covers the first two.
abbrev first_pages : List Extent
first_pages = record { offset = 0; size = 8192 } ∷ []

capture_memory_layout-Divides_example :
    Divides table 20480 5000
      (in_extents 5000 first_pages && is_absent table 5000)
      (in_extents 5000 first_pages && not (is_absent table 5000))
      (capture_memory_layout false table 20480 (some first_pages))
capture_memory_layout-Divides_example =
    capture_memory_layout-Divides false table 20480 5000 first_pages (omega arith)

abbrev absent_pages : PageStateMap
absent_pages = record { pages = 0 ∷ 0 ∷ 0 ∷ 1 ∷ [] }

abbrev whole_window : Window
whole_window = record { offset = 0; end = 16384; is_data = true }

first_region : ch_region_bounds two_regions 0 ≡ some (0, 8192)
unfolding ch_region_bounds add_uffd after_register register_vma bind_initial new_address_map
first_region = refl

chunk_population_bounds_lem_example :
    let (start, end, more) =
      chunk_population_bounds two_regions absent_pages 16384 whole_window 0 0 in
    (more ≡ false)
    ⊎ ((start ≤ 0)
        × (4096 ≤ end)
        × (start % page_size ≡ 0)
        × (end % page_size ≡ 0)
        × (0 ≤ start)
        × (0 ≤ start)
        × (end ≤ 16384)
        × (end ≤ 16384)
        × (end ≤ 8192)
        × ((1 < start / page_size) ⊎ (end / page_size ≤ 1) ⊎ (get absent_pages 1 ≡ state_absent)))
chunk_population_bounds_lem_example =
    chunk_population_bounds_lem two_regions absent_pages 16384 whole_window 0 0 8192 1 (omega arith)
      first_region

chunk_population_bounds_region :
    chunk_population_bounds two_regions absent_pages 16384 whole_window 0 0 ≡ (0, 8192, true)
unfolding chunk_population_bounds ch_region_bounds add_uffd after_register register_vma bind_initial
    new_address_map run_bounds aligned_page_start aligned_page_end
chunk_population_bounds_region = refl
