-- ===== src/Uffd/Capture/Layout.antt =====
-- How the captured layout divides the holes of the memfd (pkg/uffd/capture_layout.go).
use sandboxer.Prelude.{
  ℕ, zero, suc, ◌+◌, ◌-◌, ◌*◌, ◌/◌, ◌^◌, ◌≤◌, ◌<◌, ◌≡◌, ◌≢◌, some, List, [], ◌∷◌, Bool, true, false,
  ltb, leb, ◌==◌, ◌||◌, ◌&&◌, not, length, get_or, min, arith, ◌⊎◌, inl, inr, Bool-cases,
}
use sandboxer.Sparse.{
  Extent, append_run, in_extents, AreSorted, in_extents-append_run, append_run-AreSorted,
  AreSorted-raise,
}
use sandboxer.Uffd.State.{PageStateMap, state_absent, state_loaded, state_released}
use sandboxer.Uffd.AddressMap.{page_size}
use sandboxer.Uffd.Capture.{
  Captured, layout, capture_failed, out_of_turns, page_loop, hole_loop, capture_memory_layout,
}

-- Byte `x` is of a page that is still Absent.
abbrev pub is_absent : PageStateMap → ℕ → Bool
is_absent m x = get_or m.pages (x / page_size) state_absent == state_absent

-- A result in which, of the bytes for which `b` holds, those of Absent pages are holes and the others
-- are zeroes, over those that are so already; both lists are sorted.
pub data Divides (m : PageStateMap) (size x : ℕ) (h z : Bool) : Captured → Type 0 where
  divides :
      {hs zs : List Extent}
      → in_extents x hs ≡ h
      → in_extents x zs ≡ z
      → AreSorted 0 size hs
      → AreSorted 0 size zs
      → Divides m size x h z (layout hs zs)
  refuses : {e : _} → e ≢ out_of_turns → Divides m size x h z (capture_failed e)

-- What is added to the holes and to the zeroes between two positions.
abbrev added : PageStateMap → ℕ → ℕ → ℕ → Bool
added m x low high = leb low x && ltb x high && is_absent m x

abbrev cleared : PageStateMap → ℕ → ℕ → ℕ → Bool
cleared m x low high = leb low x && ltb x high && not (is_absent m x)

-- The bytes up to `next` are of one page, whose state decides.
page_added :
    (m : PageStateMap) (x off next end page : ℕ)
    → next ≤ end
    → off ≤ next
    → ((leb off x && ltb x next) ≡ false) ⊎ (x / page_size ≡ page)
    → (get_or m.pages page state_absent == state_absent) ≡ true
    → (added m x off end ≡ ((leb off x && ltb x next) || added m x next end))
      × (cleared m x off end ≡ cleared m x next end)
page_added m x off next end page a b (inl out) s = ground (arith, out)
page_added m x off next end page a b (inr same) s = rw (same, s) (ground arith)

page_cleared :
    (m : PageStateMap) (x off next end page : ℕ)
    → next ≤ end
    → off ≤ next
    → ((leb off x && ltb x next) ≡ false) ⊎ (x / page_size ≡ page)
    → (get_or m.pages page state_absent == state_absent) ≡ false
    → (cleared m x off end ≡ ((leb off x && ltb x next) || cleared m x next end))
      × (added m x off end ≡ added m x next end)
page_cleared m x off next end page a b (inl out) s = ground (arith, out)
page_cleared m x off next end page a b (inr same) s = rw (same, s) (ground arith)

module _ (m : PageStateMap) (size x : ℕ) (small : size < 2 ^ 63) (h z : Bool) where
  -- What follows a hole divides the rest, if the hole has been divided.
  abbrev Goes : ℕ → ℕ → List Extent → List Extent → (List Extent → List Extent → Captured) → Type 0
  Goes off end hs zs after =
      (hs' zs' : List Extent)
      → AreSorted 0 end hs'
      → AreSorted 0 end zs'
      → in_extents x hs' ≡ (in_extents x hs || added m x off end)
      → in_extents x zs' ≡ (in_extents x zs || cleared m x off end)
      → Divides m size x h z (after hs' zs')

  page_loop-Divides :
      (n off end : ℕ) (hs zs : List Extent) (after : List Extent → List Extent → Captured)
      → end ≤ off + n
      → off ≤ end
      → end ≤ size
      → AreSorted 0 off hs
      → AreSorted 0 off zs
      → Goes off end hs zs after
      → Divides m size x h z (page_loop n m off end hs zs after)
  unfolding page_loop
  page_loop-Divides zero off end hs zs after enough below fits sh sz go =
      let same : off ≡ end = omega (arith, enough, below) in
      elim (Bool-cases (ltb off end)) [
        | inl a ↦ absurd (ground (arith, a, same))
        | inr a ↦
            rw a
              (go hs zs (rw⁻¹ same sh) (rw⁻¹ same sz) (ground (arith, same)) (ground (arith, same)))
      ]
  page_loop-Divides (suc n) off end hs zs after enough below fits sh sz go =
      let page = off / page_size in
      let next = min end ((page + 1) * page_size) in
      let state = get_or m.pages page state_absent in
      elim (Bool-cases (leb end off)) [
        | inl a ↦
            let same : off ≡ end = ground (arith, a, below) in
            rw a
              (go hs zs (rw⁻¹ same sh) (rw⁻¹ same sz) (ground (arith, same)) (ground (arith, same)))
        | inr a ↦ elim (Bool-cases (leb (length m.pages) page)) [
          | inl b ↦ rw (a, b) (refuses (λ e. cc))
          | inr b ↦
              let less : off < next = ground (arith, a) in
              let in_page : (leb off x && ltb x next) ≡ false ⊎ (x / page_size ≡ page) =
                ground arith in
              let up : next ≤ end = omega arith in
              elim (Bool-cases (state == state_absent)) [
                | inl c ↦
                    let split =
                      page_added m x off next end page up (omega (arith, less)) in_page c in
                    rw (a, b, c)
                      (page_loop-Divides n next end (append_run off next hs) zs after
                        (omega (arith, enough, less)) up fits
                        (append_run-AreSorted 0 off next hs (omega (arith, less))
                          (omega (arith, fits, below, small)) sh)
                        (AreSorted-raise 0 off next zs sz (omega (arith, less)))
                        (λ hs' zs' s t p r.
                          go hs' zs' s t
                            (ground (
                              arith,
                              p,
                              split,
                              in_extents-append_run x off next hs (omega (arith, less))
                                  (omega (arith, fits, below, small)) sh,
                            ))
                            (ground (arith, r, split))))
                | inr c ↦ elim (Bool-cases (state == state_released || state == state_loaded)) [
                  | inr d ↦ rw (a, b, c, d) (refuses (λ e. cc))
                  | inl d ↦
                      let split =
                        page_cleared m x off next end page up (omega (arith, less)) in_page c in
                      rw (a, b, c, d)
                        (page_loop-Divides n next end hs (append_run off next zs) after
                          (omega (arith, enough, less)) up fits
                          (AreSorted-raise 0 off next hs sh (omega (arith, less)))
                          (append_run-AreSorted 0 off next zs (omega (arith, less))
                            (omega (arith, fits, below, small)) sz)
                          (λ hs' zs' s t p r. go hs' zs' s t (ground (arith, p, split)) (
                            ground (
                              arith,
                              r,
                              split,
                              in_extents-append_run x off next zs (omega (arith, less))
                                  (omega (arith, fits, below, small)) sz,
                            ))))
                ]
              ]
        ]
      ]

recount :
    (m : PageStateMap) (size x : ℕ) {h h' z z' : Bool} (c : Captured)
    → h ≡ h'
    → z ≡ z'
    → Divides m size x h z c
    → Divides m size x h' z' c
recount m size x c e f d = rw⁻¹ (e, f) d

module _ (m : PageStateMap) (size x : ℕ) (small : size < 2 ^ 63) where
  hole_loop-Divides :
      (previous : ℕ) (rs hs zs : List Extent)
      → previous ≤ size
      → AreSorted 0 previous hs
      → AreSorted 0 previous zs
      → Divides m size x
          (in_extents x hs || (in_extents x rs && is_absent m x))
          (in_extents x zs || (in_extents x rs && not (is_absent m x)))
          (hole_loop m size previous rs hs zs)
  unfolding hole_loop
  hole_loop-Divides previous [] hs zs fits sh sz =
      divides (ground arith) (ground arith) (AreSorted-raise 0 previous size hs sh fits)
        (AreSorted-raise 0 previous size zs sz fits)
  hole_loop-Divides previous (r ∷ rs) hs zs fits sh sz =
      let end = r.offset + r.size in
      elim (Bool-cases (
        r.size == 0
        || ltb r.offset previous
        || ltb size r.offset
        || ltb (size - r.offset) r.size)) [
          | inl a ↦ rw a (refuses (λ e. cc))
          | inr a ↦
              let starts : previous ≤ r.offset = ground (arith, a) in
              let inside : end ≤ size = ground (arith, a) in
              rw a (
                page_loop-Divides m size x small
                  (in_extents x hs || (in_extents x (r ∷ rs) && is_absent m x))
                  (in_extents x zs || (in_extents x (r ∷ rs) && not (is_absent m x))) r.size
                  r.offset end hs zs (λ hs' zs'. hole_loop m size end rs hs' zs') (omega arith)
                  (omega arith) inside (AreSorted-raise 0 previous r.offset hs sh starts)
                  (AreSorted-raise 0 previous r.offset zs sz starts)
                  (λ hs' zs' s t p q.
                    recount m size x (hole_loop m size end rs hs' zs') (ground (arith, p))
                      (ground (arith, q)) (hole_loop-Divides end rs hs' zs' inside s t)))
        ]

-- A capture comes to an end. If it succeeds, both of its lists are sorted, within the memory and
-- apart: a byte of a hole of the memfd is in a hole of the snapshot if its page is Absent, and in
-- its zeroes otherwise; a byte outside the holes is in neither.
pub capture_memory_layout-Divides :
    (is_closing : Bool) (m : PageStateMap) (size x : ℕ) (physical : List Extent)
    → size < 2 ^ 63
    → Divides m size x
        (in_extents x physical && is_absent m x)
        (in_extents x physical && not (is_absent m x))
        (capture_memory_layout is_closing m size (some physical))
unfolding capture_memory_layout
capture_memory_layout-Divides true m size x physical small = refuses (λ e. cc)
capture_memory_layout-Divides false m size x physical small =
    hole_loop-Divides m size x small 0 physical [] [] (omega arith) (omega arith) (omega arith)
