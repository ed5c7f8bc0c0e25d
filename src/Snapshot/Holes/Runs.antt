-- ===== src/Snapshot/Holes/Runs.antt =====
-- holeRun against the list of holes read from its beginning.
use sandboxer.Prelude.{
  ℕ, zero, suc, ◌+◌, ◌/◌, ◌^◌, ◌≤◌, ◌<◌, ◌≡◌, refl, some, List, [], ◌∷◌, Bool, true, false, ltb,
  leb, if◌then◌else◌, length, get_elem?, arith, ◌⊎◌, inl, inr, Bool-cases,
}
use sandboxer.Sparse.{Extent, in_extents, AreSorted, in_extents_below, AreSorted-bounds}
use sandboxer.Snapshot.Holes.{search_loop, sort_search, ends_after, run_at, hole_run_at}

-- A test that stays true once it is.
abbrev Rises : ℕ → (ℕ → Bool) → Type 0
Rises n f = (i j : ℕ) → i ≤ j → j < n → f i ≡ true → f j ≡ true

-- What sort.Search finds: everything below is false, and the index is true or the end.
abbrev pub Found : ℕ → (ℕ → Bool) → ℕ → Type 0
Found n f r = (r ≤ n) × ((k : ℕ) → k < r → f k ≡ false) × ((r ≡ n) ⊎ (f r ≡ true))

search_loop-Found :
    (fuel n : ℕ) (f : ℕ → Bool) (i j : ℕ)
    → Rises n f
    → i ≤ j
    → j ≤ n
    → j ≤ i + fuel
    → ((k : ℕ) → k < i → f k ≡ false)
    → (j ≡ n) ⊎ (f j ≡ true)
    → Found n f (search_loop fuel f i j)
unfolding search_loop
search_loop-Found zero n f i j up ij jn enough below above =
    let e : i ≡ j = omega arith in (omega arith, below, rw e above)
search_loop-Found (suc fuel) n f i j up ij jn enough below above = elim (Bool-cases (ltb i j)) [
  | inr done ↦ let e : i ≡ j = ground arith in rw done (omega (arith, jn), below, rw e above)
  | inl more ↦
      let less : i < j = ground arith in
      let h = (i + j) / 2 in
      elim (Bool-cases (f h)) [
        | inl yes_h ↦
            rw (more, yes_h)
              (search_loop-Found fuel n f i h up (omega arith) (omega arith) (omega arith) below
                (inr yes_h))
        | inr no_h ↦
            rw (more, no_h)
              (search_loop-Found fuel n f (h + 1) j up (omega arith) jn (omega arith)
                (λ k low. below_of h (omega arith) no_h k (omega arith)) above)
      ]
]
  where
    below_of : (h : ℕ) → h < n → f h ≡ false → (k : ℕ) → k ≤ h → f k ≡ false
    below_of h small off k low = elim (Bool-cases (f k)) [
      | inl on ↦ cc (up k h low small on)
      | inr off_k ↦ off_k
    ]

sort_search-Found : (n : ℕ) (f : ℕ → Bool) → Rises n f → Found n f (sort_search n f)
unfolding sort_search
sort_search-Found n f up =
    search_loop-Found n n f 0 n up (omega arith) (omega arith) (omega arith)
      (λ k low. absurd (omega arith)) (inl refl)

-- holeRun with a scan of the list in place of the binary search.
pub scan : ℕ → List Extent → ℕ → Bool × ℕ
scan x [] size = (false, size)
scan x (h ∷ hs) size = if ends_after x (some h) then run_at x size (some h) else scan x hs size

scan-Found :
    (x size : ℕ) (hs : List Extent) (r : ℕ)
    → Found (length hs) (λ i. ends_after x (get_elem? hs i)) r
    → run_at x size (get_elem? hs r) ≡ scan x hs size
unfolding scan
scan-Found x size [] r (le, below, at) = refl
scan-Found x size (h ∷ hs) zero (le, below, at) = elim at [
  | inl e ↦ absurd (omega (arith, e))
  | inr on ↦ rw on refl
]
scan-Found x size (h ∷ hs) (suc r) (le, below, at) = rw (below 0 (omega arith)) (
    scan-Found x size hs r (
      omega arith,
      λ k low. below (suc k) (omega arith),
      elim at [ inl e ↦ inl (omega (arith, e)) | inr on ↦ inr on ],
    ))

ends_after_later :
    (x low high j : ℕ) (hs : List Extent)
    → AreSorted low high hs
    → x < low
    → j < length hs
    → ends_after x (get_elem? hs j) ≡ true
ends_after_later x low high j [] s h j_small = absurd (omega arith)
ends_after_later x low high zero (e ∷ hs) (a, s) h j_small = ground arith
ends_after_later x low high (suc j) (e ∷ hs) (a, s) h j_small =
    ends_after_later x (e.offset + e.size) high j hs s (omega arith) (omega arith)

ends_after_rises :
    (x low high i j : ℕ) (hs : List Extent)
    → AreSorted low high hs
    → i ≤ j
    → j < length hs
    → ends_after x (get_elem? hs i) ≡ true
    → ends_after x (get_elem? hs j) ≡ true
ends_after_rises x low high i j [] s le small on = absurd (omega arith)
ends_after_rises x low high zero zero (e ∷ hs) s le small on = on
ends_after_rises x low high (suc i) zero (e ∷ hs) s le small on = absurd (omega arith)
ends_after_rises x low high zero (suc j) (e ∷ hs) (a, s) le small on =
    ends_after_later x (e.offset + e.size) high j hs s (ground arith) (omega arith)
ends_after_rises x low high (suc i) (suc j) (e ∷ hs) (a, s) le small on =
    ends_after_rises x (e.offset + e.size) high i j hs s (omega arith) (omega arith) on

-- On sorted and disjoint holes, the binary search of holeRun answers what a scan of the holes from
-- the first one answers.
pub hole_run_at-scan :
    (x size : ℕ) (hs : List Extent)
    → AreSorted 0 size hs
    → x < size
    → hole_run_at x hs size ≡ scan x hs size
unfolding hole_run_at
hole_run_at-scan x size hs s small =
    let test : ℕ → Bool = λ i. ends_after x (get_elem? hs i) in
    let found =
      sort_search-Found (length hs) test
        (λ i j le j_small on. ends_after_rises x 0 size i j hs s le j_small on) in
    let inside : leb size x ≡ false = ground arith in
    rw inside (scan-Found x size hs (sort_search (length hs) test) found)

scan-end :
    (x low size : ℕ) (hs : List Extent)
    → AreSorted low size hs
    → size < 2 ^ 63
    → x < size
    → (x < (scan x hs size).1) × ((scan x hs size).1 ≤ size)
unfolding scan
scan-end x low size [] s fits small = (small, omega arith)
scan-end x low size (h ∷ hs) (a, s) fits small = ground (
  arith,
  scan-end x (h.offset + h.size) size hs s,
  AreSorted-bounds (h.offset + h.size) size hs s,
)

scan-run :
    (x y low size : ℕ) (hs : List Extent)
    → AreSorted low size hs
    → size < 2 ^ 63
    → x < size
    → x ≤ y
    → y < (scan x hs size).1
    → in_extents y hs ≡ (scan x hs size).0
unfolding scan
scan-run x y low size [] s fits small from to = refl
scan-run x y low size (h ∷ hs) (a, s) fits small from to = ground (
  arith,
  scan-run x y (h.offset + h.size) size hs s,
  AreSorted-bounds (h.offset + h.size) size hs s,
  in_extents_below y (h.offset + h.size) size hs s,
)

-- holeRun returns a nonempty run inside the image in which every byte is a hole, or none is, as its
-- answer says.
pub hole_run_at_lem :
    (x y size : ℕ) (hs : List Extent)
    → AreSorted 0 size hs
    → size < 2 ^ 63
    → x < size
    → (x < (hole_run_at x hs size).1)
      × ((hole_run_at x hs size).1 ≤ size)
      × ((y < x) ⊎ ((hole_run_at x hs size).1 ≤ y) ⊎ (in_extents y hs ≡ (hole_run_at x hs size).0))
hole_run_at_lem x y size hs s fits small =
    rw (hole_run_at-scan x size hs s small)
      (ground (arith, scan-end x 0 size hs s, scan-run x y 0 size hs s))
