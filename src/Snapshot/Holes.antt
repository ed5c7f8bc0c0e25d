-- ===== src/Snapshot/Holes.antt =====
-- holeRun and holeIntersection of pkg/snapshot/merge.go, with sort.Search of the standard library.
-- Positions are int64; the sizes and offsets of holes are uint64 within the image's size.
pub mod Both
pub mod Runs
use sandboxer.Prelude.{
  ℕ, zero, suc, ◌+◌, ◌-◌, ◌/◌, ◌%◌, ◌^◌, Option, none, some, List, [], ◌∷◌, Bool, true, false, ltb,
  leb, ◌==◌, if◌then◌else◌, ◌||◌, ◌&&◌, not, length, get_elem?, min,
}
use sandboxer.Prelude.Int.{ℤ, pos, negsuc}
use sandboxer.Sparse.{Extent, append_run}

-- sort.Search: the least index from `i` on, below `j`, at which `f` holds, if `f` stays true.
pub search_loop : ℕ → (ℕ → Bool) → ℕ → ℕ → ℕ
search_loop zero f i j = i
search_loop (suc n) f i j =
    let h = (i + j) / 2 in
    let rest = search_loop n f (if f h then i else h + 1) (if f h then h else j) in
    if ltb i j then rest else i

unfoldable pub sort_search : ℕ → (ℕ → Bool) → ℕ
unfolding search_loop
sort_search n f = search_loop n f 0 n

-- The test of holeRun: the hole ends after the position.
abbrev pub ends_after : ℕ → Option Extent → Bool
ends_after x none = false
ends_after x (some h) = ltb x h.offset || ltb (x - h.offset) h.size

abbrev pub run_at : ℕ → ℕ → Option Extent → Bool × ℕ
run_at x size none = (false, size)
run_at x size (some h) =
    if ltb x h.offset then (false, h.offset) else (true, (h.offset + h.size) % 2 ^ 64)

-- holeRun: whether the position lies in a hole, and where the run ends.
unfoldable pub hole_run_at : ℕ → List Extent → ℕ → Bool × ℕ
hole_run_at x holes size =
    if leb size x
    then (false, size)
    else run_at x size
        (get_elem? holes (sort_search (length holes) (λ i. ends_after x (get_elem? holes i))))

unfoldable pub hole_run : ℤ → List Extent → ℕ → Bool × ℕ
unfolding hole_run_at
hole_run (negsuc n) holes size = (false, 0)
hole_run (pos x) holes size = hole_run_at x holes size

-- The loop of holeIntersection, with what it has put out.
pub intersect_loop : ℕ → ℕ → List Extent → List Extent → ℕ → List Extent → List Extent
intersect_loop zero x a b size out = out
intersect_loop (suc n) x a b size out =
    let (a_hole, a_end) = hole_run_at x a size in
    let (b_hole, b_end) = hole_run_at x b size in
    let end = min a_end b_end in
    let rest =
      intersect_loop n end a b size (if a_hole && b_hole then append_run x end out else out) in
    if ltb x size then rest else out

-- A turn moves the position up by one at least.
unfoldable pub hole_intersection : List Extent → List Extent → ℕ → List Extent
unfolding intersect_loop
hole_intersection a b size = intersect_loop size 0 a b size []
