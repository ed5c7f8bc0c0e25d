-- ===== src/Vhost/Memory/Translate.antt =====
-- What a translated address promises (pkg/vhost/memtable.go).
use sandboxer.Prelude.{
  ℕ, ◌+◌, ◌-◌, ◌≤◌, ◌≡◌, refl, Option, none, some, List, [], ◌∷◌, Bool, true, false, ltb, leb, ◌==◌,
  ◌||◌, ◌&&◌, All, arith, ◌⊎◌, inl, inr, Bool-cases,
}
use sandboxer.Vhost.{terminal, unmapped, Run, fail, World}
use sandboxer.Vhost.Laws.{Yields, yields, fails, IsTerminal, weaken}
use sandboxer.Vhost.Memory.{
  Segment, MemRegion, MemTable, slice, base_of, find_region, is_uncovered, max_uint64, open_region,
  translate,
}

-- What an operation on memory makes of the world.
pub data Changes {W : Type 0} (g : World W) (w : W) : W → Type 0 where
  by_context : Changes g w (g.context_error w).1
  by_stop : Changes g w (g.stopped w).1
  by_ensure : (at len : ℕ) → Changes g w (g.ensure_loaded at len w).1
  by_mark : (at len : ℕ) → Changes g w (g.mark_dirty at len w).1
  by_load : (at len : ℕ) → Changes g w (g.load at len w).1

-- `Loaded` and `Marked` say which ranges EnsureLoaded and MarkDirty have accepted. They are about the
-- past, so that no later call takes them back; they do not say that the pages are still there.
pub record IsPopulating {W : Type 0} (g : World W) (Loaded Marked : ℕ → ℕ → W → Type 0)
    : Type 0 where
  pub loads :
      (at len : ℕ) (w : W)
      → (g.ensure_loaded at len w).0 ≡ false
      → Loaded at len (g.ensure_loaded at len w).1
  pub marks :
      (at len : ℕ) (w : W)
      → (g.mark_dirty at len w).0 ≡ false
      → Marked at len (g.mark_dirty at len w).1
  pub stays_loaded : (at len : ℕ) {w w' : W} → Changes g w w' → Loaded at len w → Loaded at len w'
  pub stays_marked : (at len : ℕ) {w w' : W} → Changes g w w' → Marked at len w → Marked at len w'

-- The region's slice is the part of the slab that its offset and size say.
pub record IsBound (slab : ℕ) (r : MemRegion) : Type 0 where
  pub starts : r.mapped.at ≡ r.mmap_offset
  pub covers : r.mapped.len ≡ r.memory_size
  pub inside : r.mapped.at + r.mapped.len ≤ slab

-- A region of the table maps [addr, addr + length) to the slice.
pub maps_to : Bool → ℕ → ℕ → Segment → List MemRegion → Bool
maps_to uva addr length s [] = false
maps_to uva addr length s (r ∷ rs) =
    (leb (base_of uva r) addr
      && leb (addr + length) (base_of uva r + r.memory_size)
      && s.at == r.mapped.at + (addr - base_of uva r)
      && s.len == length
      && leb (addr - base_of uva r + length) r.mapped.len)
    || maps_to uva addr length s rs

module _ {W : Type 0} (g : World W) {Loaded Marked : ℕ → ℕ → W → Type 0}
    (pop : IsPopulating g Loaded Marked) where
  -- The range is loaded, and marked where it is to be written and marks are kept.
  abbrev pub Reaches : MemTable → Bool → ℕ → ℕ → W → Type 0
  Reaches m writable at len w =
      Loaded at len w × ((writable && m.tracks_dirty ≡ false) ⊎ Marked at len w)

  open_region-Yields :
      (m : MemTable) (writable : Bool) (r : MemRegion) (off length : ℕ) (w : W)
      → Yields
          (λ s w'.
            (s ≡ slice r.mapped off length)
            × (is_uncovered r off length ≡ false)
            × Reaches m writable (r.mmap_offset + off) length w')
          IsTerminal
          (open_region g m writable r off length w)
  unfolding open_region
  open_region-Yields m writable r off length w =
      let at = r.mmap_offset + off in
      let w1 = (g.ensure_loaded at length w).1 in
      let w2 = (g.context_error w1).1 in
      elim (Bool-cases (is_uncovered r off length)) [
        | inl a ↦ rw a (fails tt)
        | inr a ↦ elim (Bool-cases (g.ensure_loaded at length w).0) [
          | inl b ↦ rw (a, b) (fails tt)
          | inr b ↦ elim (Bool-cases (g.context_error w1).0) [
            | inl c ↦ rw (a, b, c) (fails tt)
            | inr c ↦ elim (Bool-cases (writable && m.tracks_dirty)) [
              | inr d ↦
                  rw (a, b, c, d)
                    (yields (
                      refl,
                      refl,
                      (pop.stays_loaded at length by_context (pop.loads at length w b), inl refl),
                    ))
              | inl d ↦ elim (Bool-cases (g.mark_dirty at length w2).0) [
                | inl e ↦ rw (a, b, c, d, e) (fails tt)
                | inr e ↦
                    rw (a, b, c, d, e)
                      (yields (
                        refl,
                        refl,
                        (
                          pop.stays_loaded at length (by_mark at length)
                              (pop.stays_loaded at length by_context (pop.loads at length w b)),
                          inr (pop.marks at length w2 e),
                        ),
                      ))
              ]
            ]
          ]
        ]
      ]

pub maps_to-length :
    (uva : Bool) (addr length : ℕ) (s : Segment) (rs : List MemRegion)
    → maps_to uva addr length s rs ≡ true
    → s.len ≡ length
unfolding maps_to
maps_to-length uva addr length s [] h = cc
maps_to-length uva addr length s (r ∷ rs) h = ground (arith, maps_to-length uva addr length s rs)

-- The test by which translate passes over a region.
abbrev is_elsewhere : Bool → ℕ → ℕ → MemRegion → Bool
is_elsewhere uva addr length r =
    ltb addr (base_of uva r)
    || ltb r.memory_size (addr - base_of uva r)
    || ltb (r.memory_size - (addr - base_of uva r)) length

find_region_cases :
    (uva : Bool) (addr length : ℕ) (r' : MemRegion) (rs : List MemRegion) (r : MemRegion)
    → find_region uva addr length (r' ∷ rs) ≡ some r
    → (find_region uva addr length rs ≡ some r)
      ⊎ ((r' ≡ r) × (is_elsewhere uva addr length r' ≡ false))
unfolding find_region
find_region_cases uva addr length r' rs r found =
    elim (Bool-cases (is_elsewhere uva addr length r')) [
      | inl skip ↦ inl (ground (arith, skip))
      | inr hit ↦ inr (ground (arith, hit), hit)
    ]

nothing_found :
    (uva : Bool) (addr length : ℕ) (r : MemRegion) → ¬ (find_region uva addr length [] ≡ some r)
unfolding find_region
nothing_found uva addr length r h = cc

find_region-maps_to :
    (uva : Bool) (addr length : ℕ) (rs : List MemRegion) (r : MemRegion)
    → find_region uva addr length rs ≡ some r
    → is_uncovered r (addr - base_of uva r) length ≡ false
    → maps_to uva addr length (slice r.mapped (addr - base_of uva r) length) rs ≡ true
unfolding maps_to
find_region-maps_to uva addr length [] r found covered =
    absurd (nothing_found uva addr length r found)
find_region-maps_to uva addr length (r' ∷ rs) r found covered =
    elim (find_region_cases uva addr length r' rs r found) [
      | inl later ↦ ground (arith, find_region-maps_to uva addr length rs r later covered)
      | inr (e, hit) ↦
          let covered' : is_uncovered r' (addr - base_of uva r') length ≡ false = rw e covered in
          rw⁻¹ e (ground (arith, hit, covered'))
    ]

find_region-All :
    (uva : Bool) (addr length slab : ℕ) (rs : List MemRegion) (r : MemRegion)
    → All (IsBound slab) rs
    → find_region uva addr length rs ≡ some r
    → IsBound slab r
find_region-All uva addr length slab [] r bound found =
    absurd (nothing_found uva addr length r found)
find_region-All uva addr length slab (r' ∷ rs) r (b, bs) found =
    elim (find_region_cases uva addr length r' rs r found) [
      | inl later ↦ find_region-All uva addr length slab rs r bs later
      | inr (e, hit) ↦ rw⁻¹ e b
    ]

module _ {W : Type 0} (g : World W) {Loaded Marked : ℕ → ℕ → W → Type 0}
    (pop : IsPopulating g Loaded Marked) (slab : ℕ) where
  -- What translate promises of the slice that it returns.
  pub record IsReached (m : MemTable) (uva writable : Bool) (addr len : ℕ) (s : Segment) (w : W)
      : Type 0 where
    pub at_region : maps_to uva addr len s m.regions ≡ true
    pub in_slab : s.at + s.len ≤ slab
    pub loaded : Loaded s.at s.len w
    pub marked : (writable && m.tracks_dirty ≡ false) ⊎ Marked s.at s.len w

  -- An address translates to a slice of the slab that its region maps it to, which is loaded, and
  -- marked dirty if it is to be written; any failure ends the queue.
  pub translate_lem :
      (m : MemTable) (uva writable : Bool) (addr len : ℕ) (w : W)
      → All (IsBound slab) m.regions
      → Yields
          (IsReached m uva writable addr len)
          IsTerminal
          (translate g m uva writable addr len w)
  unfolding translate
  translate_lem m uva writable addr len w bound = elim (Bool-cases (g.context_error w).0) [
    | inl a ↦ rw a (fails tt)
    | inr a ↦ elim (Bool-cases m.is_bound) [
      | inr b ↦ rw (a, b) (fails tt)
      | inl b ↦ elim (Bool-cases (ltb (max_uint64 - addr) len)) [
        | inl c ↦ rw (a, b, c) (fails tt)
        | inr c ↦ simp (a, b, c) (go (find_region uva addr len m.regions) refl)
      ]
    ]
  ]
    where
      go :
          (o : Option MemRegion)
          → find_region uva addr len m.regions ≡ o
          → Yields (IsReached m uva writable addr len) IsTerminal (
              (elim o as (λ x. Run W Segment) [
                | none ↦ fail (terminal unmapped)
                | some r ↦ open_region g m writable r (addr - base_of uva r) len
              ])
                (g.context_error w).1)
      go none e = fails tt
      go (some r) e =
          let off = addr - base_of uva r in
          let is_bound = find_region-All uva addr len slab m.regions r bound e in
          weaken (open_region g m writable r off len (g.context_error w).1)
            (open_region-Yields g pop m writable r off len (g.context_error w).1)
            (λ s w' h. record {
              at_region = rw h.0 (find_region-maps_to uva addr len m.regions r e h.1);
              in_slab = rw h.0 (ground (arith, h.1, is_bound.inside));
              loaded = rw (h.0, is_bound.starts) h.2.0;
              marked = rw (h.0, is_bound.starts) h.2.1;
            })
            (λ f w' h. h)

module _ {W : Type 0} (g : World W) (K : W → Type 0)
    (stays : (w w' : W) → Changes g w w' → K w → K w') where
  open_region-stays :
      (m : MemTable) (writable : Bool) (r : MemRegion) (off length : ℕ) (w : W)
      → K w
      → K (open_region g m writable r off length w).1
  unfolding open_region
  open_region-stays m writable r off length w k =
      let at = r.mmap_offset + off in
      let w1 = (g.ensure_loaded at length w).1 in
      let w2 = (g.context_error w1).1 in
      let k1 = stays _ _ (by_ensure at length) k in
      let k2 : K w2 = stays _ _ by_context k1 in
      elim (Bool-cases (is_uncovered r off length)) [
        | inl a ↦ rw a k
        | inr a ↦ elim (Bool-cases (g.ensure_loaded at length w).0) [
          | inl b ↦ rw (a, b) k1
          | inr b ↦ elim (Bool-cases (g.context_error w1).0) [
            | inl c ↦ rw (a, b, c) k2
            | inr c ↦ elim (Bool-cases (writable && m.tracks_dirty)) [
              | inr d ↦ rw (a, b, c, d) k2
              | inl d ↦ elim (Bool-cases (g.mark_dirty at length w2).0) [
                | inl e ↦ rw (a, b, c, d, e) (stays _ _ (by_mark at length) k2)
                | inr e ↦ rw (a, b, c, d, e) (stays _ _ (by_mark at length) k2)
              ]
            ]
          ]
        ]
      ]

  pub translate-stays :
      (m : MemTable) (uva writable : Bool) (addr len : ℕ) (w : W)
      → K w
      → K (translate g m uva writable addr len w).1
  unfolding translate
  translate-stays m uva writable addr len w k =
      let k1 : K (g.context_error w).1 = stays _ _ by_context k in
      elim (Bool-cases (g.context_error w).0) [
        | inl a ↦ rw a k1
        | inr a ↦ elim (Bool-cases m.is_bound) [
          | inr b ↦ rw (a, b) k1
          | inl b ↦ elim (Bool-cases (ltb (max_uint64 - addr) len)) [
            | inl c ↦ rw (a, b, c) k1
            | inr c ↦ simp (a, b, c) (go (find_region uva addr len m.regions) k1)
          ]
        ]
      ]
    where
      go :
          (o : Option MemRegion)
          → K (g.context_error w).1
          → K
              ((elim o as (λ x. Run W Segment) [
                | none ↦ fail (terminal unmapped)
                | some r ↦ open_region g m writable r (addr - base_of uva r) len
              ])
                (g.context_error w).1).1
      go none k1 = k1
      go (some r) k1 =
          open_region-stays m writable r (addr - base_of uva r) len (g.context_error w).1 k1
