-- ===== src/Uffd/Fault/Bounds.antt =====
-- What the bounds of pkg/uffd/fault.go promise to the tail of a fault.
use sandboxer.Prelude.{
  ℕ, ◌+◌, ◌*◌, ◌/◌, ◌%◌, ◌≤◌, ◌<◌, ◌≡◌, refl, some, List, [], ◌∷◌, ◌∙◌, false, ltb, ◌==◌, ◌||◌, min,
  max, length, arith, ◌⊎◌, inl, inr, Bool-cases,
}
use sandboxer.Uffd.State.{PageStateMap, state_absent, get, run_bounds}
use sandboxer.Uffd.State.Pages.{get_lem}
use sandboxer.Uffd.State.Runs.{run_bounds_maximal}
use sandboxer.Uffd.AddressMap.{AddressMap, Vma, page_size, bounds_in, ch_region_bounds}
use sandboxer.Uffd.Fault.{
  Window, aligned_page_start, aligned_page_end, is_last_page, chunk_population_bounds,
}

-- Bounds that are not empty surround an Absent page.
run_bounds_around :
    (m : PageStateMap) (anchor least most : ℕ)
    → let (start, end) = run_bounds m anchor least most state_absent in
      (start ≡ end)
      ⊎ ((get m anchor ≡ state_absent)
          × (least ≤ anchor)
          × (anchor < min most (length m.pages))
          × (start ≤ anchor)
          × (anchor < end))
unfolding run_bounds
run_bounds_around m anchor least most = ground (arith, get_lem m anchor)

bounds_in-le : (off low high : ℕ) (vs : List Vma) → bounds_in off vs ≡ some (low, high) → low ≤ off
unfolding bounds_in
bounds_in-le off low high [] h = cc
bounds_in-le off low high (v ∷ vs) h = ground (arith, h, bounds_in-le off low high vs)

page_inside :
    (m : PageStateMap) (anchor least most i : ℕ)
    → least ≤ anchor
    → anchor < min most (length m.pages)
    → get m anchor ≡ state_absent
    → let (start, end) = run_bounds m anchor least most state_absent in
      (i < start * page_size / page_size)
      ⊎ (end * page_size / page_size ≤ i)
      ⊎ (get m i ≡ state_absent)
page_inside m anchor least most i low high held =
    let b = run_bounds m anchor least most state_absent in
    elim (run_bounds_maximal m anchor least most state_absent i low high held).0 [
      | inl before ↦ inl (omega arith)
      | inr (inl after) ↦ inr (inl (omega arith))
      | inr (inr absent) ↦ inr (inr absent)
    ]

aligned_page_start-le :
    (x idx n : ℕ)
    → x ≤ idx * page_size
    → is_last_page (idx * page_size) ≡ false
    → aligned_page_start x / page_size ≤ n
    → x ≤ n * page_size
unfolding aligned_page_start
aligned_page_start-le x idx n h last small = ground arith

aligned_page_end-le : (x n : ℕ) → n ≤ aligned_page_end x / page_size → n * page_size ≤ x
unfolding aligned_page_end
aligned_page_end-le x n h = omega (arith, h)

ch_region_bounds_lem : (a : AddressMap) (off : ℕ) → bounds_in off a.vmas ≡ ch_region_bounds a off
unfolding ch_region_bounds
ch_region_bounds_lem a off = refl

-- When a chunk that holds the page of a fault populates more than that page, it starts and ends at
-- page boundaries around it, stays within the window, the memory and the region that the page is of,
-- and every page between the two is still Absent.
pub chunk_population_bounds_lem :
    (a : AddressMap) (m : PageStateMap) (size : ℕ) (w : Window) (idx low high i : ℕ)
    → w.offset ≤ idx * page_size
    → ch_region_bounds a (idx * page_size) ≡ some (low, high)
    → let (start, end, more) = chunk_population_bounds a m size w (idx * page_size) idx in
      (more ≡ false)
      ⊎ ((start ≤ idx * page_size)
          × (idx * page_size + page_size ≤ end)
          × (start % page_size ≡ 0)
          × (end % page_size ≡ 0)
          × (w.offset ≤ start)
          × (low ≤ start)
          × (end ≤ w.end)
          × (end ≤ size)
          × (end ≤ high)
          × ((i < start / page_size) ⊎ (end / page_size ≤ i) ⊎ (get m i ≡ state_absent)))
unfolding chunk_population_bounds aligned_page_start aligned_page_end
chunk_population_bounds_lem a m size w idx low high i starts found =
    let start = max (aligned_page_start w.offset) (aligned_page_start low) in
    let end = min (min (aligned_page_end w.end) (aligned_page_end size)) (aligned_page_end high) in
    let b = run_bounds m idx (start / page_size) (end / page_size) state_absent in
    elim (Bool-cases (
      ltb (idx * page_size) start
      || is_last_page (idx * page_size)
      || ltb end (idx * page_size + page_size))) [
        | inl out ↦ rw (chunk_population_bounds, found, out) (inl refl)
        | inr fit ↦ elim (Bool-cases (b.0 == b.1)) [
          | inl none_left ↦ rw (chunk_population_bounds, found, fit, none_left) (inl refl)
          | inr some_left ↦
              let around = run_bounds_around m idx (start / page_size) (end / page_size) in
              let held : (get m idx ≡ state_absent)
                  × (start / page_size ≤ idx)
                  × (idx < min (end / page_size) (length m.pages))
                  × (b.0 ≤ idx)
                  × (idx < b.1) =
                ground (arith, some_left, around) in
              let inner =
                run_bounds_maximal m idx (start / page_size) (end / page_size) state_absent idx
                  held.1 held.2 held.0 in
              let low_fits : low ≤ idx * page_size =
                bounds_in-le (idx * page_size) low high a.vmas
                  (ch_region_bounds_lem a (idx * page_size) ∙ found) in
              let not_last : is_last_page (idx * page_size) ≡ false = ground (arith, fit) in
              rw (chunk_population_bounds, found, fit, some_left)
                (inr (
                  omega (arith, held.3),
                  omega (arith, held.4),
                  omega arith,
                  omega arith,
                  aligned_page_start-le w.offset idx b.0 starts not_last (omega (arith, inner.1)),
                  aligned_page_start-le low idx b.0 low_fits not_last (omega (arith, inner.1)),
                  aligned_page_end-le w.end b.1 (omega (arith, inner.4)),
                  aligned_page_end-le size b.1 (omega (arith, inner.4)),
                  aligned_page_end-le high b.1 (omega (arith, inner.4)),
                  page_inside m idx (start / page_size) (end / page_size) i held.1 held.2 held.0,
                ))
        ]
      ]
