-- ===== src/Uffd/State/Runs.antt =====
-- The scans of pkg/uffd/state.go: RunLength and RunBounds.
use sandboxer.Prelude.{
  ℕ, zero, suc, ◌+◌, ◌-◌, ◌≤◌, ◌<◌, ◌≡◌, ◌≢◌, refl, List, ltb, if◌then◌else◌, length, get_or, min,
  arith, ◌⊎◌, inl, inr, lt_or_le,
}
use sandboxer.Uffd.State.{
  PageStateMap, state_absent, get, count_up, count_down, run_length, run_bounds,
}
use sandboxer.Uffd.State.Pages.{get_lem}

count_up-le : (n a want : ℕ) (xs : List ℕ) → count_up n a want xs ≤ n
unfolding count_up
count_up-le zero a want xs = omega arith
count_up-le (suc n) a want xs = ground (arith, count_up-le n (suc a) want xs)

count_up_inside :
    (n a want i : ℕ) (xs : List ℕ)
    → a ≤ i
    → i < a + count_up n a want xs
    → get_or xs i state_absent ≡ want
unfolding count_up
count_up_inside zero a want i xs low high = absurd (omega arith)
count_up_inside (suc n) a want i xs low high = elim (lt_or_le a i) [
  | inl above ↦ ground (arith, count_up_inside n (suc a) want i xs)
  | inr below ↦ ground arith
]

count_up_stops :
    (n a want : ℕ) (xs : List ℕ)
    → (count_up n a want xs ≡ n) ⊎ (get_or xs (a + count_up n a want xs) state_absent ≢ want)
unfolding count_up
count_up_stops zero a want xs = inl refl
count_up_stops (suc n) a want xs = ground (arith, count_up_stops n (suc a) want xs)

count_down-le : (n a want : ℕ) (xs : List ℕ) → count_down n a want xs ≤ n
unfolding count_down
count_down-le zero a want xs = omega arith
count_down-le (suc n) a want xs = ground (arith, count_down-le n (a - 1) want xs)

count_down_inside :
    (n a want i : ℕ) (xs : List ℕ)
    → n ≤ a
    → i < a
    → a ≤ i + count_down n a want xs
    → get_or xs i state_absent ≡ want
unfolding count_down
count_down_inside zero a want i xs fits high low = absurd (omega arith)
count_down_inside (suc n) a want i xs fits high low = elim (lt_or_le i (a - 1)) [
  | inl below ↦ ground (arith, count_down_inside n (a - 1) want i xs)
  | inr last ↦ ground arith
]

count_down_stops :
    (n a want : ℕ) (xs : List ℕ)
    → n ≤ a
    → (count_down n a want xs ≡ n)
      ⊎ (get_or xs (a - count_down n a want xs - 1) state_absent ≢ want)
unfolding count_down
count_down_stops zero a want xs fits = inl refl
count_down_stops (suc n) a want xs fits = ground (arith, count_down_stops n (a - 1) want xs)

-- RunLength counts the longest run of `want` pages from `start`, up to `most` and to the end of
-- the table: each page of the run holds `want`, and the run ends at the limit, at the end of the
-- table, or at a page that holds another state.
pub run_length_maximal :
    (m : PageStateMap) (start most want i : ℕ)
    → start < length m.pages
    → start ≤ i
    → i < start + run_length m start most want
    → let n = run_length m start most want in
      (get m i ≡ want)
      × (n ≤ most)
      × (start + n ≤ length m.pages)
      × ((n ≡ most) ⊎ (start + n ≡ length m.pages) ⊎ (get m (start + n) ≢ want))
unfolding run_length
run_length_maximal m start most want i inside low high =
    let n = if ltb most (length m.pages - start) then most else length m.pages - start in
    ground (
      arith,
      get_lem m i,
      get_lem m (start + run_length m start most want),
      count_up-le n start want m.pages,
      count_up_inside n start want i m.pages,
      count_up_stops n start want m.pages,
    )

-- RunBounds at a page that holds `want`, inside the bounds and the table, returns the whole run
-- around it: the range contains the page and lies within the bounds, each of its pages holds
-- `want`, and on either side it ends at a bound or at a page that holds another state.
pub run_bounds_maximal :
    (m : PageStateMap) (anchor least most want i : ℕ)
    → least ≤ anchor
    → anchor < min most (length m.pages)
    → get m anchor ≡ want
    → let (start, end) = run_bounds m anchor least most want in
      ((i < start) ⊎ (end ≤ i) ⊎ (get m i ≡ want))
      × (least ≤ start)
      × (start ≤ anchor)
      × (anchor < end)
      × (end ≤ min most (length m.pages))
      × ((start ≡ least) ⊎ (get m (start - 1) ≢ want))
      × ((end ≡ min most (length m.pages)) ⊎ (get m end ≢ want))
unfolding run_bounds
run_bounds_maximal m anchor least most want i low_bound high_bound held =
    let down = anchor - least in
    let up = min most (length m.pages) - (anchor + 1) in
    let (start, end) = run_bounds m anchor least most want in
    ground (
      arith,
      get_lem m i,
      get_lem m anchor,
      get_lem m (start - 1),
      get_lem m end,
      count_up-le up (anchor + 1) want m.pages,
      count_up_inside up (anchor + 1) want i m.pages,
      count_up_stops up (anchor + 1) want m.pages,
      count_down-le down anchor want m.pages,
      count_down_inside down anchor want i m.pages,
      count_down_stops down anchor want m.pages,
    )

pub run_length-le : (m : PageStateMap) (start most want : ℕ) → run_length m start most want ≤ most
unfolding run_length
run_length-le m start most want =
    let n = if ltb most (length m.pages - start) then most else length m.pages - start in
    ground (arith, count_up-le n start want m.pages)

pub run_length_inside :
    (m : PageStateMap) (start most want i : ℕ)
    → start ≤ i
    → i < start + run_length m start most want
    → get m i ≡ want
unfolding run_length
run_length_inside m start most want i low high =
    let n = if ltb most (length m.pages - start) then most else length m.pages - start in
    ground (arith, get_lem m i, count_up_inside n start want i m.pages)

pub run_bounds_ordered :
    (m : PageStateMap) (anchor least most want : ℕ)
    → (run_bounds m anchor least most want).0 ≤ (run_bounds m anchor least most want).1
unfolding run_bounds
run_bounds_ordered m anchor least most want = ground arith
