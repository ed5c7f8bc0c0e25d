-- ===== src/Snapshot/Tests.antt =====
-- The theorems about pkg/snapshot at concrete inputs, and runs of its functions.
use sandboxer.Prelude.{
  ℕ, zero, suc, ◌+◌, ◌≤◌, ◌<◌, ◌≡◌, ◌≢◌, refl, ◌∙◌, ap, none, some, List, [], ◌∷◌, true, ◌&&◌, ◌==◌,
  if◌then◌else◌, length, get_or, take, drop, arith, ◌⊎◌, min, length-take,
}
use sandboxer.Sparse.{Extent, in_extents, AreSorted, append_run}
use sandboxer.Snapshot.Holes.{hole_run_at, hole_intersection, sort_search}
use sandboxer.Snapshot.Holes.Runs.{scan, hole_run_at-scan}
use sandboxer.Snapshot.Holes.Both.{hole_intersection_lem}
use sandboxer.Snapshot.Merge.{Layer, Merged, eof, stuck, read_merged, read_from}
use sandboxer.Snapshot.Merge.Layers.{IsLayer}
use sandboxer.Snapshot.Merge.Overlay.{overlay, read_merged-overlay}

abbrev extent : ℕ → ℕ → Extent
extent o s = record { offset = o; size = s }

abbrev delta_holes : List Extent
delta_holes = extent 0 2 ∷ extent 3 3 ∷ []

abbrev base_holes : List Extent
base_holes = extent 1 4 ∷ []

hole_run_at-scan_example : hole_run_at 2 delta_holes 8 ≡ scan 2 delta_holes 8
hole_run_at-scan_example = hole_run_at-scan 2 8 delta_holes (omega arith) (omega arith)

hole_run_at_delta : hole_run_at 4 delta_holes 8 ≡ (true, 6)
unfolding hole_run_at sort_search
hole_run_at_delta = refl

hole_intersection_both : hole_intersection delta_holes base_holes 8 ≡ extent 1 1 ∷ extent 3 2 ∷ []
unfolding hole_intersection hole_run_at sort_search append_run
hole_intersection_both = refl

hole_intersection_lem_example :
    AreSorted 0 8 (hole_intersection delta_holes base_holes 8)
    × (in_extents 4 (hole_intersection delta_holes base_holes 8)
        ≡ (in_extents 4 delta_holes && in_extents 4 base_holes))
hole_intersection_lem_example =
    hole_intersection_lem 4 8 delta_holes base_holes (omega arith) (omega arith) (omega arith)

-- A layer in memory: its bytes, and where it stands. It delivers two bytes at a time.
abbrev Memory : Type 0
Memory = List ℕ × ℕ

abbrev chunk : ℕ → Memory → List ℕ
chunk n w = take (min 2 n) (drop w.1 w.0)

abbrev memory : Layer Memory
memory = record {
  seek = λ x w. (none, (w.0, x));
  read = λ n w. record {
    bytes = chunk n w;
    error = if length (chunk n w) == 0 then some eof else none;
    layer = (w.0, w.1 + length (chunk n w));
  };
}

get_or-take :
    (n k : ℕ) (xs : List ℕ) → k < length (take n xs) → get_or (take n xs) k 0 ≡ get_or xs k 0
get_or-take zero k xs h = absurd (omega arith)
get_or-take (suc n) k [] h = absurd (omega arith)
get_or-take (suc n) zero (x ∷ xs) h = refl
get_or-take (suc n) (suc k) (x ∷ xs) h = get_or-take n k xs (omega arith)

get_or-drop : (n k : ℕ) (xs : List ℕ) → get_or (drop n xs) k 0 ≡ get_or xs (n + k) 0
get_or-drop zero k xs = ap (λ j. get_or xs j 0) (omega arith)
get_or-drop (suc n) k [] = ground arith
get_or-drop (suc n) k (x ∷ xs) =
    get_or-drop n k xs ∙ ap (λ j. get_or (x ∷ xs) j 0) {x = suc (n + k)} (omega arith)

memory-IsLayer : IsLayer memory (λ w y. get_or w.0 y 0) (λ w. w.1)
memory-IsLayer = record {
  seek_content = λ x w. refl;
  seek_at = λ x w h. refl;
  read_content = λ n w. refl;
  read_at = λ n w. refl;
  read_fits = λ n w. omega (arith, length-take (min 2 n) (drop w.1 w.0));
  read_bytes = λ n k w h. get_or-take (min 2 n) k (drop w.1 w.0) h ∙ get_or-drop w.1 k w.0;
  progress = λ n w h e. ground arith;
}

-- Only bytes 2, 6 and 7 are the delta's; bytes 0 and 5 are the base's.
abbrev merge : Merged Memory
merge = record {
  top = (0 ∷ 0 ∷ 12 ∷ 0 ∷ 0 ∷ 0 ∷ 16 ∷ 17 ∷ [], 0);
  base = (20 ∷ 0 ∷ 0 ∷ 0 ∷ 0 ∷ 25 ∷ 26 ∷ 27 ∷ [], 0);
  top_holes = delta_holes;
  base_holes = base_holes;
  size = 8;
  position = 5;
}

read_merged-base : (read_merged memory 4 merge).1 ≡ 25 ∷ []
unfolding read_merged read_from hole_run_at sort_search
read_merged-base = refl

read_merged-overlay_example :
    let r = read_merged memory 4 merge in
    ((length r.1 ≤ 0)
      ⊎ (get_or r.1 0 0
          ≡ overlay memory (λ w y. get_or w.0 y 0) (λ w. w.1) memory-IsLayer merge (5 + 0)))
    × (length r.1 ≤ 4)
    × (r.2.position ≡ 5 + length r.1)
    × (overlay memory (λ w y. get_or w.0 y 0) (λ w. w.1) memory-IsLayer r.2
        ≡ overlay memory (λ w y. get_or w.0 y 0) (λ w. w.1) memory-IsLayer merge)
    × (r.0 ≢ stuck)
read_merged-overlay_example =
    read_merged-overlay memory (λ w y. get_or w.0 y 0) (λ w. w.1) memory-IsLayer 0 4 merge
      (record { top_sorted = omega arith; base_sorted = omega arith; in_int64 = omega arith })
