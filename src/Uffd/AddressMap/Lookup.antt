-- ===== src/Uffd/AddressMap/Lookup.antt =====
-- The lookups of pkg/uffd/addrmap.go, by address and by memfd offset.
use sandboxer.Prelude.{
  ℕ, ◌+◌, ◌-◌, ◌^◌, ◌≤◌, ◌<◌, ◌≡◌, ◌≢◌, Option, none, some, List, [], ◌∷◌, ◌++◌, ◌==◌, arith, ◌⊎◌,
  inl, inr, refl, min, sym, ◌∙◌, ap, Bool-cases,
}
use sandboxer.Uffd.AddressMap.{
  Vma, AddressMap, process_ch, add_wrap, sub_wrap, locate_in, locate, registration_in, registration,
  register_vma, conflict,
}
use sandboxer.Uffd.AddressMap.WellFormed.{
  IsRegion, Apart, ApartFrom, AreRegions, IsWellFormed, staged, register_checks,
}

in_region_offset :
    (len va : ℕ) (u : Vma)
    → len < 2 ^ 64
    → IsRegion len u
    → u.start ≤ va
    → va < u.end
    → add_wrap u.memfd_offset (sub_wrap va u.start) ≡ u.memfd_offset + (va - u.start)
in_region_offset len va u small r low high = let a = r.in_memfd in let b = r.in_space in omega arith

region_size : (len : ℕ) (u : Vma) → IsRegion len u → sub_wrap u.end u.start ≡ u.end - u.start
region_size len u r = let a = r.nonempty in let b = r.in_space in omega arith

-- What locate_in finds at the head of the list.
located_head :
    (va off : ℕ) (u : Vma) (us : List Vma)
    → locate_in va (u ∷ us) ≡ some off
    → ((u.process ≡ process_ch)
        × (u.start ≤ va)
        × (va < u.end)
        × (off ≡ add_wrap u.memfd_offset (sub_wrap va u.start)))
      ⊎ (locate_in va us ≡ some off)
unfolding locate_in
located_head va off u us h = ground arith

nothing_located : (va off : ℕ) → locate_in va [] ≢ some off
unfolding locate_in
nothing_located va off = ground arith

-- The offset that locate_in finds lies in no interval that the located one is apart from.
located_apart :
    (len va off : ℕ) (v : Vma) (vs : List Vma)
    → len < 2 ^ 64
    → v.process ≡ process_ch
    → AreRegions len vs
    → ApartFrom v vs
    → locate_in va vs ≡ some off
    → (off < v.memfd_offset) ⊎ (v.memfd_offset + (v.end - v.start) ≤ off)
located_apart len va off v [] small p w a h = absurd (nothing_located va off h)
located_apart len va off v (u ∷ us) small p (r, b, w) (d, a) h = elim (located_head va off u us h) [
  | inl (ch, low, high, e) ↦ apart_head d ch low high e
  | inr rest ↦ located_apart len va off v us small p w a rest
]
  where
    apart_head :
        Apart v u
        → u.process ≡ process_ch
        → u.start ≤ va
        → va < u.end
        → off ≡ add_wrap u.memfd_offset (sub_wrap va u.start)
        → (off < v.memfd_offset) ⊎ (v.memfd_offset + (v.end - v.start) ≤ off)
    apart_head (inl n) ch low high e = absurd (n (p ∙ sym ch))
    apart_head (inr (_, m)) ch low high e =
        let x = in_region_offset len va u small r low high in omega arith

-- The address of a registration.
abbrev pub address : Option (ℕ × ℕ × ℕ) → Option ℕ
address none = none
address (some (va, fd, covered)) = some va

registration_head :
    (len off n : ℕ) (v : Vma) (vs : List Vma)
    → len < 2 ^ 64
    → IsRegion len v
    → v.process ≡ process_ch
    → v.memfd_offset ≤ off
    → off < v.memfd_offset + (v.end - v.start)
    → (registration_in off n (v ∷ vs) ≡ none)
      ⊎ (registration_in off n (v ∷ vs)
          ≡ some (
            v.start + (off - v.memfd_offset),
            v.uffd_fd,
            min n (v.end - v.start - (off - v.memfd_offset)),
          ))
unfolding registration_in
registration_head len off n v vs small r ch low high =
    let a = r.in_memfd in let b = r.in_space in let c = region_size len v r in ground arith

registration_skips :
    (len off n : ℕ) (v : Vma) (vs : List Vma)
    → len < 2 ^ 64
    → off < 2 ^ 64
    → IsRegion len v
    → (v.process ≢ process_ch) ⊎ (off < v.memfd_offset) ⊎ (v.memfd_offset + (v.end - v.start) ≤ off)
    → registration_in off n (v ∷ vs) ≡ registration_in off n vs
unfolding registration_in
registration_skips len off n v vs small fits r out =
    let a = r.in_memfd in let b = r.in_space in let c = region_size len v r in ground arith

located-registration :
    (len va off n : ℕ) (vs : List Vma)
    → len < 2 ^ 64
    → off < 2 ^ 64
    → AreRegions len vs
    → locate_in va vs ≡ some off
    → (registration_in off n vs ≡ none) ⊎ (address (registration_in off n vs) ≡ some va)
located-registration len va off n [] small fits w h = absurd (nothing_located va off h)
located-registration len va off n (v ∷ vs) small fits (r, a, w) h =
    elim (located_head va off v vs h) [
      | inl (ch, low, high, e) ↦ at_head ch low high e
      | inr rest ↦ beyond rest (located-registration len va off n vs small fits w rest)
    ]
  where
    at_head :
        v.process ≡ process_ch
        → v.start ≤ va
        → va < v.end
        → off ≡ add_wrap v.memfd_offset (sub_wrap va v.start)
        → (registration_in off n (v ∷ vs) ≡ none)
          ⊎ (address (registration_in off n (v ∷ vs)) ≡ some va)
    at_head ch low high e =
        let x = in_region_offset len va v small r low high in
        let y = registration_head len off n v vs small r ch (omega arith) (omega arith) in
        ground arith

    beyond :
        locate_in va vs ≡ some off
        → (registration_in off n vs ≡ none) ⊎ (address (registration_in off n vs) ≡ some va)
        → (registration_in off n (v ∷ vs) ≡ none)
          ⊎ (address (registration_in off n (v ∷ vs)) ≡ some va)
    beyond rest found = elim (Bool-cases (v.process == process_ch)) [
      | inl ch ↦
          let out = located_apart len va off v vs small (ground arith) w a rest in
          rw (registration_skips len off n v vs small fits r (inr out)) found
      | inr other ↦ rw (registration_skips len off n v vs small fits r (inl (ground arith))) found
    ]

-- The offset that Locate finds for an address of a well-formed map is registered at that very
-- address, or at a tombstone, which is an error.
pub locate-registration :
    (m : AddressMap) (va off n : ℕ)
    → m.memfd_len < 2 ^ 64
    → off < 2 ^ 64
    → IsWellFormed m
    → locate m va ≡ some off
    → (registration m off n ≡ none) ⊎ (address (registration m off n) ≡ some va)
unfolding locate registration
locate-registration m va off n small fits w h =
    located-registration m.memfd_len va off n m.vmas small fits w h

locate_append :
    (x : ℕ) (vs : List Vma) (w : Vma) (o : Option ℕ)
    → locate_in x vs ≡ o
    → (locate_in x (vs ++ (w ∷ [])) ≡ o) ⊎ (o ≡ none)
unfolding locate_in
locate_append x [] w o h = ground arith
locate_append x (v ∷ vs) w o h = ground (arith, locate_append x vs w (locate_in x vs) refl)

locate_new :
    (x va size off : ℕ) (vs : List Vma)
    → va + size < 2 ^ 64
    → va ≤ x
    → x < va + size
    → conflict process_ch va size off vs ≡ none
    → locate_in x (vs ++ (staged process_ch va size off ∷ [])) ≡ some (add_wrap off (sub_wrap x va))
unfolding locate_in conflict
locate_new x va size off [] space low high h = ground arith
locate_new x va size off (v ∷ vs) space low high h =
    ground (arith, locate_new x va size off vs space low high)

-- After RegisterVMA accepts a CloudHypervisor interval, Locate finds each of its addresses at the
-- offset that the interval gives it, and finds every address it found before where it was.
pub register_vma-locate :
    (m : AddressMap) (va size off i x : ℕ)
    → m.memfd_len < 2 ^ 64
    → size < 2 ^ 64
    → off < 2 ^ 64
    → i < size
    → (register_vma m process_ch va size off).0 ≡ none
    → (locate (register_vma m process_ch va size off).1 (va + i) ≡ some (off + i))
      × ((locate (register_vma m process_ch va size off).1 x ≡ locate m x) ⊎ (locate m x ≡ none))
unfolding locate
register_vma-locate m va size off i x small s f inside accepted =
    let (space, within, region, clear, e) =
      register_checks m process_ch va size off small s f accepted in
    rw e (
      locate_new (va + i) va size off m.vmas space (omega arith) (omega arith) clear
          ∙ ap some (omega arith),
      locate_append x m.vmas (staged process_ch va size off) (locate_in x m.vmas) refl,
    )
