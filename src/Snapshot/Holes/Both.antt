-- ===== src/Snapshot/Holes/Both.antt =====
-- holeIntersection of pkg/snapshot/merge.go.
use sandboxer.Prelude.{
  ℕ, zero, suc, ◌+◌, ◌^◌, ◌≤◌, ◌<◌, ◌≡◌, List, [], ◌∷◌, Bool, ltb, if◌then◌else◌, ◌&&◌, min, arith,
  ◌⊎◌, inl, inr, Bool-cases,
}
use sandboxer.Sparse.{
  Extent, append_run, in_extents, AreSorted, in_extents-append_run, append_run-AreSorted,
  in_extents_above,
}
use sandboxer.Snapshot.Holes.{hole_run_at, intersect_loop, hole_intersection}
use sandboxer.Snapshot.Holes.Runs.{hole_run_at_lem}

-- What has been put out when the loop stands at `x`.
abbrev PutOut : ℕ → ℕ → List Extent → List Extent → List Extent → Type 0
PutOut y x a b out =
    AreSorted 0 x out × (in_extents y out ≡ (ltb y x && in_extents y a && in_extents y b))

AreSorted-weaken :
    (low x end : ℕ) (es : List Extent) → x ≤ end → AreSorted low x es → AreSorted low end es
AreSorted-weaken low x end [] h s = omega arith
AreSorted-weaken low x end (e ∷ es) h (a, s) =
    (a, AreSorted-weaken (e.offset + e.size) x end es h s)

-- One turn of the loop, with the two runs as they are.
turn-PutOut :
    (y x size a_end b_end : ℕ) (a_hole b_hole : Bool) (a b out : List Extent)
    → size < 2 ^ 63
    → x < size
    → PutOut y x a b out
    → x < a_end
    → x < b_end
    → (y < x) ⊎ (a_end ≤ y) ⊎ (in_extents y a ≡ a_hole)
    → (y < x) ⊎ (b_end ≤ y) ⊎ (in_extents y b ≡ b_hole)
    → let end = min a_end b_end in
      PutOut y end a b (if a_hole && b_hole then append_run x end out else out)
turn-PutOut y x size a_end b_end a_hole b_hole a b out fits small (s, i) ax bx ra rb =
    let end = min a_end b_end in
    ground (
      arith,
      i,
      append_run-AreSorted 0 x end out (omega arith) (omega arith) s,
      AreSorted-weaken 0 x end out (omega arith) s,
      in_extents-append_run y x end out (omega arith) (omega arith) s,
      in_extents_above y 0 x out s,
    )

loop-PutOut :
    (n y x size : ℕ) (a b out : List Extent)
    → AreSorted 0 size a
    → AreSorted 0 size b
    → size < 2 ^ 63
    → x ≤ size
    → size ≤ x + n
    → PutOut y x a b out
    → PutOut y size a b (intersect_loop n x a b size out)
unfolding intersect_loop
loop-PutOut zero y x size a b out sa sb fits le enough p =
    let e : x ≡ size = omega arith in rw (← e) p
loop-PutOut (suc n) y x size a b out sa sb fits le enough p = elim (Bool-cases (ltb x size)) [
  | inr done ↦ let e : x ≡ size = ground arith in rw (done, ← e) p
  | inl more ↦
      let small : x < size = ground arith in
      let ra = hole_run_at_lem x y size a sa fits small in
      let rb = hole_run_at_lem x y size b sb fits small in
      rw more (
        loop-PutOut n y (min (hole_run_at x a size).1 (hole_run_at x b size).1) size a b
          (if (hole_run_at x a size).0 && (hole_run_at x b size).0
            then append_run x (min (hole_run_at x a size).1 (hole_run_at x b size).1) out
            else out)
          sa sb fits (omega (arith, ra.1)) (omega (arith, ra.0, rb.0))
          (turn-PutOut y x size (hole_run_at x a size).1 (hole_run_at x b size).1
            (hole_run_at x a size).0 (hole_run_at x b size).0 a b out fits small p ra.0 rb.0 ra.2
            rb.2))
]

-- holeIntersection ends, and puts out sorted and disjoint extents inside the image that hold exactly
-- the bytes which are holes in both layers.
pub hole_intersection_lem :
    (y size : ℕ) (a b : List Extent)
    → AreSorted 0 size a
    → AreSorted 0 size b
    → size < 2 ^ 63
    → AreSorted 0 size (hole_intersection a b size)
      × (in_extents y (hole_intersection a b size) ≡ (in_extents y a && in_extents y b))
unfolding hole_intersection
hole_intersection_lem y size a b sa sb fits =
    let p =
      loop-PutOut size y 0 size a b [] sa sb fits (omega arith) (omega arith)
        (omega arith, ground arith) in
    ground (arith, p, in_extents_above y 0 size a sa)
