-- ===== src/Vhost/Memory.antt =====
-- pkg/vhost/memtable.go: the regions of guest memory that the backend can reach. A slice of the
-- memfd slab is its position there, its length and its capacity. The `fds` of a message are looked
-- at by their number, and by the inode that fstat gives for each.
pub mod Translate
pub mod Wire
use sandboxer.Prelude.{
  ℕ, zero, suc, ◌+◌, ◌-◌, ◌*◌, ◌^◌, Option, none, some, List, [], ◌∷◌, ◌++◌, Bool, true, false, ltb,
  leb, ◌==◌, if◌then◌else◌, ◌||◌, ◌&&◌, not, length, drop,
}
use sandboxer.Prelude.LittleEndian.{le, le_at}
use sandboxer.Vhost.{
  Cause, terminal, canceled, unbound, overflow, invalid_coverage, not_loaded, not_marked, unmapped,
  Fault, Run, pure, fail, ◌>>=◌, ◌>>◌, guard, ask, World,
}

pub record Segment : Type 0 where
  pub at : ℕ
  pub len : ℕ
  pub cap : ℕ

-- `mapped` is mmapBytes.
pub record MemRegion : Type 0 where
  pub guest_phys_addr : ℕ
  pub memory_size : ℕ
  pub userspace_addr : ℕ
  pub mmap_offset : ℕ
  pub mapped : Segment

abbrev pub no_segment : Segment
no_segment = record { at = 0; len = 0; cap = 0 }

-- Whether EnsureLoaded and MarkDirty are bound, beside the regions.
pub record MemTable : Type 0 where
  pub regions : List MemRegion
  pub is_bound : Bool
  pub tracks_dirty : Bool

unfoldable pub set_regions : MemTable → List MemRegion → MemTable
set_regions m regs = record m { regions = regs }

abbrev pub max_uint64 : ℕ
max_uint64 = 2 ^ 64 - 1

-- The slice of `len` bytes at `off`.
abbrev pub slice : Segment → ℕ → ℕ → Segment
slice s off len = record { at = s.at + off; len = len; cap = s.cap - off }

abbrev pub base_of : Bool → MemRegion → ℕ
base_of uva r = if uva then r.userspace_addr else r.guest_phys_addr

-- The region whose whole range holds [addr, addr + length), first of all.
pub find_region : Bool → ℕ → ℕ → List MemRegion → Option MemRegion
find_region uva addr length [] = none
find_region uva addr length (r ∷ rs) =
    let rest = find_region uva addr length rs in
    let off = addr - base_of uva r in
    if ltb addr (base_of uva r)
    then rest
    else if ltb r.memory_size off || ltb (r.memory_size - off) length
    then rest
    else some r

abbrev pub is_uncovered : MemRegion → ℕ → ℕ → Bool
is_uncovered r off length =
    ltb r.mapped.len off
    || ltb (r.mapped.len - off) length
    || ltb (max_uint64 - r.mmap_offset) off
    || ltb (max_uint64 - (r.mmap_offset + off)) length

module _ {W : Type 0} (g : World W) where
  -- What translate does with the region that it has found.
  unfoldable pub open_region : MemTable → Bool → MemRegion → ℕ → ℕ → Run W Segment
  open_region m writable r off length = do
    guard (not (is_uncovered r off length)) (terminal invalid_coverage)
    guard (not (← ask (g.ensure_loaded (r.mmap_offset + off) length))) (terminal not_loaded)
    guard (not (← ask g.context_error)) (terminal canceled)
    guard
        (not
          (← (
            if writable && m.tracks_dirty
            then ask (g.mark_dirty (r.mmap_offset + off) length)
            else pure false)))
        (terminal not_marked)
    pure (slice r.mapped off length)

  unfoldable pub translate : MemTable → Bool → Bool → ℕ → ℕ → Run W Segment
  unfolding find_region
  translate m uva writable addr length = do
    guard (not (← ask g.context_error)) (terminal canceled)
    guard m.is_bound (terminal unbound)
    guard (not (ltb (max_uint64 - addr) length)) (terminal overflow)
    elim (find_region uva addr length m.regions) [
      | none ↦ fail (terminal unmapped)
      | some r ↦ open_region m writable r (addr - base_of uva r) length
    ]

  unfoldable pub translate_gpa : MemTable → ℕ → ℕ → Run W Segment
  translate_gpa m gpa length = translate m false false gpa length

  unfoldable pub translate_uva : MemTable → ℕ → ℕ → Run W Segment
  translate_uva m uva length = translate m true false uva length

  unfoldable pub writable_gpa : MemTable → ℕ → ℕ → Run W Segment
  writable_gpa m gpa length = translate m false true gpa length

  unfoldable pub writable_uva : MemTable → ℕ → ℕ → Run W Segment
  writable_uva m uva length = translate m true true uva length

pub data TableError : Type 0 where
  too_short count_mismatch truncated : TableError

pub data Parsed : Type 0 where
  regions_of : List MemRegion → Parsed
  refused : TableError → Parsed

-- One vhostMemoryRegion.
unfoldable pub parse_region : List ℕ → MemRegion
parse_region raw = record {
  guest_phys_addr = le_at 0 8 raw;
  memory_size = le_at 8 8 raw;
  userspace_addr = le_at 16 8 raw;
  mmap_offset = le_at 24 8 raw;
  mapped = no_segment;
}

unfoldable pub parse_regions : ℕ → List ℕ → List MemRegion
unfolding parse_region
parse_regions zero raw = []
parse_regions (suc n) raw = parse_region raw ∷ parse_regions n (drop 32 raw)

-- ParseSetMemTable, with the number of descriptors.
unfoldable pub parse_set_mem_table : List ℕ → ℕ → Parsed
parse_set_mem_table payload fds =
    let n = le_at 0 4 payload in
    if ltb (length payload) 8
    then refused too_short
    else if not (n == fds)
    then refused count_mismatch
    else if ltb (length payload) (8 + n * 32)
    then refused truncated
    else regions_of (parse_regions n (drop 8 payload))

pub data BindError : Type 0 where
  bind_count empty_slab no_stat wrong_inode exceeds_slab : BindError

abbrev pub exceeds : ℕ → MemRegion → Bool
exceeds slab r =
    ltb slab r.mmap_offset
    || ltb (slab - r.mmap_offset) r.memory_size
    || ltb (max_uint64 - r.guest_phys_addr) r.memory_size
    || ltb (max_uint64 - r.userspace_addr) r.memory_size

-- The loop over the regions; those before a failure stay bound.
pub bind_loop : ℕ → ℕ → List MemRegion → List (Option ℕ) → Option BindError × List MemRegion
bind_loop inode slab [] inodes = (none, [])
bind_loop inode slab (r ∷ rs) [] = (some bind_count, r ∷ rs)
bind_loop inode slab (r ∷ rs) (none ∷ is) = (some no_stat, r ∷ rs)
bind_loop inode slab (r ∷ rs) (some i ∷ is) =
    let rest = bind_loop inode slab rs is in
    let bound = record r {
      mapped = record { at = r.mmap_offset; len = r.memory_size; cap = r.memory_size };
    } in
    if not (i == inode)
    then (some wrong_inode, r ∷ rs)
    else if exceeds slab r
    then (some exceeds_slab, r ∷ rs)
    else (rest.0, bound ∷ rest.1)

-- BindRegions, with what fstat gives for each descriptor.
unfoldable pub bind_regions :
    List MemRegion → List (Option ℕ) → ℕ → ℕ → Option BindError × List MemRegion
unfolding bind_loop
bind_regions regs inodes expected slab =
    if not (length inodes == length regs)
    then (some bind_count, regs)
    else if slab == 0
    then (some empty_slab, regs)
    else bind_loop expected slab regs inodes
