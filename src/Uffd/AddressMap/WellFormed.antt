-- ===== src/Uffd/AddressMap/WellFormed.antt =====
-- Well-formed address maps (pkg/uffd/addrmap.go), and what RegisterVMA checks.
use sandboxer.Prelude.{
  ℕ, ◌+◌, ◌-◌, ◌^◌, ◌%◌, ◌≤◌, ◌<◌, ◌≡◌, ◌≢◌, none, List, [], ◌∷◌, ◌++◌, false, arith, ◌⊎◌,
}
use sandboxer.Uffd.AddressMap.{Vma, AddressMap, add_wrap, conflict, register_vma}

-- A nonempty interval of whole pages, inside the address space and the memfd.
pub record IsRegion (len : ℕ) (v : Vma) : Type 0 where
  pub nonempty : v.start < v.end
  pub in_space : v.end < 2 ^ 64
  pub in_memfd : v.memfd_offset + (v.end - v.start) ≤ len
  pub pages : (v.start % 4096 ≡ 0) × (v.end % 4096 ≡ 0) × (v.memfd_offset % 4096 ≡ 0)

-- Two intervals of one process share neither an address nor a byte of the memfd.
abbrev pub Apart : Vma → Vma → Type 0
Apart v u =
    (v.process ≢ u.process)
    ⊎ (((v.end ≤ u.start) ⊎ (u.end ≤ v.start))
        × ((v.memfd_offset + (v.end - v.start) ≤ u.memfd_offset)
            ⊎ (u.memfd_offset + (u.end - u.start) ≤ v.memfd_offset)))

abbrev pub ApartFrom : Vma → List Vma → Type 0
ApartFrom v [] = Unit
ApartFrom v (u ∷ us) = Apart v u × ApartFrom v us

abbrev pub AreRegions : ℕ → List Vma → Type 0
AreRegions len [] = Unit
AreRegions len (v ∷ vs) = IsRegion len v × ApartFrom v vs × AreRegions len vs

abbrev pub IsWellFormed : AddressMap → Type 0
IsWellFormed m = AreRegions m.memfd_len m.vmas

-- What RegisterVMA appends.
abbrev pub staged : ℕ → ℕ → ℕ → ℕ → Vma
staged p va size off = record {
  process = p;
  start = va;
  end = add_wrap va size;
  memfd_offset = off;
  uffd_fd = 0;
  invalid = false;
}

conflict_head :
    (p va size off len : ℕ) (v : Vma) (vs : List Vma)
    → va + size < 2 ^ 64
    → off + size ≤ len
    → len < 2 ^ 64
    → IsRegion len v
    → conflict p va size off (v ∷ vs) ≡ none
    → Apart v (staged p va size off) × (conflict p va size off vs ≡ none)
unfolding conflict
conflict_head p va size off len v vs a b c r h = ground arith

ApartFrom-append :
    (v w : Vma) (vs : List Vma) → ApartFrom v vs → Apart v w → ApartFrom v (vs ++ (w ∷ []))
ApartFrom-append v w [] a b = (b, tt)
ApartFrom-append v w (u ∷ us) (a, rest) b = (a, ApartFrom-append v w us rest b)

pub staged-AreRegions :
    (p va size off len : ℕ) (vs : List Vma)
    → va + size < 2 ^ 64
    → off + size ≤ len
    → len < 2 ^ 64
    → IsRegion len (staged p va size off)
    → AreRegions len vs
    → conflict p va size off vs ≡ none
    → AreRegions len (vs ++ (staged p va size off ∷ []))
staged-AreRegions p va size off len [] a b c r w h = (r, tt, tt)
staged-AreRegions p va size off len (v ∷ vs) a b c r (q, apart, w) h =
    let (d, rest) = conflict_head p va size off len v vs a b c q h in
    (
      q,
      ApartFrom-append v (staged p va size off) vs apart d,
      staged-AreRegions p va size off len vs a b c r w rest,
    )

-- What RegisterVMA has checked when it appends.
pub register_checks :
    (m : AddressMap) (p va size off : ℕ)
    → m.memfd_len < 2 ^ 64
    → size < 2 ^ 64
    → off < 2 ^ 64
    → (register_vma m p va size off).0 ≡ none
    → (va + size < 2 ^ 64)
      × (off + size ≤ m.memfd_len)
      × IsRegion m.memfd_len (staged p va size off)
      × (conflict p va size off m.vmas ≡ none)
      × ((register_vma m p va size off).1
          ≡ record m { vmas = m.vmas ++ (staged p va size off ∷ []) })
unfolding register_vma
register_checks m p va size off a b c h = ground arith
