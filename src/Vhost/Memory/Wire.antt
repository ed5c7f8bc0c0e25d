-- ===== src/Vhost/Memory/Wire.antt =====
-- SET_MEM_TABLE of pkg/vhost/memtable.go: its payload, and the binding of its regions to the slab.
use sandboxer.Prelude.{
  ℕ, ◌*◌, ◌^◌, ◌<◌, ◌≡◌, refl, Option, none, some, List, [], ◌∷◌, ◌++◌, ◌==◌, All, length,
  length-append, arith, inl, inr, Bool-cases,
}
use sandboxer.Prelude.LittleEndian.{le, of_le-le}
use sandboxer.Vhost.Memory.{
  MemRegion, no_segment, parse_region, parse_regions, parse_set_mem_table, regions_of, bind_loop,
  bind_regions, exceeds,
}
use sandboxer.Vhost.Memory.Translate.{IsBound}

-- The master's side: one vhostMemoryRegion.
abbrev pub wire_region : MemRegion → List ℕ
wire_region r =
    le 8 r.guest_phys_addr ++ le 8 r.memory_size ++ le 8 r.userspace_addr ++ le 8 r.mmap_offset

pub wires : List MemRegion → List ℕ
wires [] = []
wires (r ∷ rs) = wire_region r ++ wires rs

abbrev pub Fits : MemRegion → Type 0
Fits r =
    (r.guest_phys_addr < 2 ^ 64)
    × (r.memory_size < 2 ^ 64)
    × (r.userspace_addr < 2 ^ 64)
    × (r.mmap_offset < 2 ^ 64)
    × (r.mapped ≡ no_segment)

parse_regions-wires :
    (rs : List MemRegion) (rest : List ℕ)
    → All Fits rs
    → parse_regions (length rs) (wires rs ++ rest) ≡ rs
unfolding parse_regions wires parse_region
parse_regions-wires [] rest h = refl
parse_regions-wires (r ∷ rs) rest ((gpa, size, uva, off, unbound), hs) =
    rw
      (
        of_le-le 8 r.guest_phys_addr (omega (arith, gpa)),
        of_le-le 8 r.memory_size (omega (arith, size)),
        of_le-le 8 r.userspace_addr (omega (arith, uva)),
        of_le-le 8 r.mmap_offset (omega (arith, off)),
        parse_regions-wires rs rest hs,
      )
      (rw⁻¹ unbound refl)

length-wires : (rs : List MemRegion) → length (wires rs) ≡ length rs * 32
unfolding wires
length-wires [] = refl
length-wires (r ∷ rs) = omega (arith, length-wires rs)

-- A SET_MEM_TABLE payload that lists regions, with one descriptor for each, is read back as these
-- regions, not yet bound to memory; what follows them is ignored.
pub parse_set_mem_table-wires :
    (rs : List MemRegion) (padding : ℕ) (rest : List ℕ)
    → All Fits rs
    → length rs < 2 ^ 32
    → parse_set_mem_table (le 4 (length rs) ++ le 4 padding ++ wires rs ++ rest) (length rs)
      ≡ regions_of rs
unfolding parse_set_mem_table
parse_set_mem_table-wires rs padding rest fits few = ground (
  arith,
  of_le-le 4 (length rs) (omega (arith, few)),
  parse_regions-wires rs rest fits,
  length-append (wires rs) rest,
  length-wires rs,
)

bind_loop-IsBound :
    (expected slab : ℕ) (rs : List MemRegion) (inodes : List (Option ℕ))
    → (bind_loop expected slab rs inodes).0 ≡ none
    → All (IsBound slab) (bind_loop expected slab rs inodes).1
unfolding bind_loop
bind_loop-IsBound expected slab [] inodes h = tt
bind_loop-IsBound expected slab (r ∷ rs) [] h = cc
bind_loop-IsBound expected slab (r ∷ rs) (none ∷ is) h = cc
bind_loop-IsBound expected slab (r ∷ rs) (some i ∷ is) h = elim (Bool-cases (i == expected)) [
  | inr other ↦ absurd (ground (arith, other))
  | inl same ↦ elim (Bool-cases (exceeds slab r)) [
    | inl out ↦ absurd (ground (arith, same, out))
    | inr fits ↦
        let bound : IsBound slab (record r {
          mapped = record { at = r.mmap_offset; len = r.memory_size; cap = r.memory_size };
        }) =
          record { starts = refl; covers = refl; inside = ground (arith, fits) } in
        rw (same, fits) (bound, bind_loop-IsBound expected slab rs is (ground (arith, same, fits)))
  ]
]

-- Once BindRegions has succeeded, every region has its own slice of the slab, which is as long as
-- the region and lies within the slab.
pub bind_regions-IsBound :
    (rs : List MemRegion) (inodes : List (Option ℕ)) (expected slab : ℕ)
    → (bind_regions rs inodes expected slab).0 ≡ none
    → All (IsBound slab) (bind_regions rs inodes expected slab).1
unfolding bind_regions
bind_regions-IsBound rs inodes expected slab h = elim (Bool-cases (length inodes == length rs)) [
  | inr a ↦ absurd (ground (arith, a))
  | inl a ↦ elim (Bool-cases (slab == 0)) [
    | inl b ↦ absurd (ground (arith, a, b))
    | inr b ↦ rw (a, b) (bind_loop-IsBound expected slab rs inodes (ground (arith, a, b)))
  ]
]
