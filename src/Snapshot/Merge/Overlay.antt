-- ===== src/Snapshot/Merge/Overlay.antt =====
-- The merged stream of pkg/snapshot/merge.go as one image: the delta where it has data, the base
-- where only the base has, and zeroes where neither has.
use sandboxer.Prelude.{
  length-replicate, get_or-replicate, ℕ, ◌+◌, ◌-◌, ◌^◌, ◌≤◌, ◌<◌, ◌≡◌, ◌≢◌, refl, ap, List, leb,
  ◌==◌, if◌then◌else◌, not, length, get_or, min, arith, ◌⊎◌, inl, inr, Bool-cases, lt_or_le,
}
use sandboxer.Sparse.{Extent, in_extents, AreSorted}
use sandboxer.Snapshot.Holes.Runs.{hole_run_at_lem}
use sandboxer.Snapshot.Merge.{
  Layer, Merged, End, stuck, LayerKind, from_top, from_base, from_hole, owner_at, read_from,
  read_run, read_merged,
}
use sandboxer.Snapshot.Merge.Layers.{IsLayer, Shows, read_from-Filled}

-- The image that a merge stands for.
abbrev pub overlay_of : List Extent → List Extent → (ℕ → ℕ) → (ℕ → ℕ) → ℕ → ℕ
overlay_of top_holes base_holes top base y =
    if not (in_extents y top_holes)
    then top y
    else if not (in_extents y base_holes)
    then base y
    else 0

module _ {W : Type 0} (dev : Layer W) (content : W → ℕ → ℕ) (at : W → ℕ)
    (ok : IsLayer dev content at) where
  abbrev pub overlay : Merged W → ℕ → ℕ
  overlay m = overlay_of m.top_holes m.base_holes (content m.top) (content m.base)

  pub record IsMerge (m : Merged W) : Type 0 where
    pub top_sorted : AreSorted 0 m.size m.top_holes
    pub base_sorted : AreSorted 0 m.size m.base_holes
    pub in_int64 : m.size < 2 ^ 63

  owner_at-overlay :
      (y : ℕ) (m : Merged W)
      → IsMerge m
      → m.position < m.size
      → (m.position < (owner_at m.position m).1)
        × ((owner_at m.position m).1 ≤ m.size)
        × ((y < m.position)
            ⊎ ((owner_at m.position m).1 ≤ y)
            ⊎ (overlay m y ≡ elim (owner_at m.position m).0 [
              | from_top ↦ content m.top y
              | from_base ↦ content m.base y
              | from_hole ↦ 0
            ]))
  unfolding owner_at
  owner_at-overlay y m w small = ground (
    arith,
    hole_run_at_lem m.position y m.size m.top_holes w.top_sorted w.in_int64 small,
    hole_run_at_lem m.position y m.size m.base_holes w.base_sorted w.in_int64 small,
  )

  abbrev Result : ℕ → ℕ → Merged W → End × List ℕ × Merged W → Type 0
  Result k room m r =
      ((length r.1 ≤ k) ⊎ (get_or r.1 k 0 ≡ overlay m (m.position + k)))
      × (length r.1 ≤ room)
      × (r.2.position ≡ m.position + length r.1)
      × (overlay r.2 ≡ overlay m)
      × (r.0 ≢ stuck)

  shown :
      (k : ℕ) (image : ℕ → ℕ) (x : ℕ) (bytes : List ℕ)
      → Shows image x bytes
      → (length bytes ≤ k) ⊎ ((k < length bytes) × (get_or bytes k 0 ≡ image (x + k)))
  shown k image x bytes s = elim (lt_or_le k (length bytes)) [
    | inl h ↦ inr (h, s k h)
    | inr h ↦ inl h
  ]

  read_run-Result :
      (k room want end : ℕ) (m : Merged W) (owner : LayerKind)
      → want ≤ room
      → want ≤ end - m.position
      → (end ≤ m.position + k)
        ⊎ (overlay m (m.position + k) ≡ elim owner [
          | from_top ↦ content m.top (m.position + k)
          | from_base ↦ content m.base (m.position + k)
          | from_hole ↦ 0
        ])
      → Result k room m (read_run dev owner want m)
  unfolding read_run
  read_run-Result k room want end m from_top a b run =
      let (r, alive) = read_from-Filled dev content at ok want m.position m.top in
      let s =
        shown k (content m.top) m.position (read_from dev want m.position m.top).1.got r.shows in
      (
        ground (arith, s, r.fits, run),
        omega (arith, r.fits),
        r.place,
        ap (λ f. overlay_of m.top_holes m.base_holes f (content m.base)) r.same,
        alive,
      )
  read_run-Result k room want end m from_base a b run =
      let (r, alive) = read_from-Filled dev content at ok want m.position m.base in
      let s =
        shown k (content m.base) m.position (read_from dev want m.position m.base).1.got r.shows in
      (
        ground (arith, s, r.fits, run),
        omega (arith, r.fits),
        r.place,
        ap (λ f. overlay_of m.top_holes m.base_holes (content m.top) f) r.same,
        alive,
      )
  read_run-Result k room want end m from_hole a b run = (
    ground (arith, run, get_or-replicate {A = ℕ} want k 0, length-replicate {A = ℕ} want 0),
    omega (arith, length-replicate {A = ℕ} want 0),
    omega (arith, length-replicate {A = ℕ} want 0),
    refl,
    λ e. cc,
  )

  -- A Read of the merged stream returns bytes of one image: the delta's where the delta has data,
  -- the base's where only the base has, zeroes where both have holes. It returns no more than there
  -- is room for, moves the position by just as many, leaves the image as it is, also where a
  -- layer fails part of the way, and comes to an end.
  pub read_merged-overlay :
      (k room : ℕ) (m : Merged W)
      → IsMerge m
      → let r = read_merged dev room m in
        ((length r.1 ≤ k) ⊎ (get_or r.1 k 0 ≡ overlay m (m.position + k)))
        × (length r.1 ≤ room)
        × (r.2.position ≡ m.position + length r.1)
        × (overlay r.2 ≡ overlay m)
        × (r.0 ≢ stuck)
  unfolding read_merged
  read_merged-overlay k room m w = elim (Bool-cases (leb m.size m.position)) [
    | inl out ↦ rw out (inl (omega arith), omega arith, omega arith, refl, λ e. cc)
    | inr inside ↦
        let end = (owner_at m.position m).1 in
        let want = min room (end - m.position) in
        let small : m.position < m.size = ground arith in
        let run = owner_at-overlay (m.position + k) m w small in
        elim (Bool-cases (want == 0)) [
          | inl nothing ↦
              rw (inside, nothing) (inl (omega arith), omega arith, omega arith, refl, λ e. cc)
          | inr some_bytes ↦
              rw (inside, some_bytes)
                (read_run-Result k room want end m (owner_at m.position m).0 (omega arith)
                  (omega arith) (ground (arith, run.2)))
        ]
  ]
