-- ===== src/Uffd/AddressMap/Reached.antt =====
-- The address maps that the methods of pkg/uffd/addrmap.go can produce.
use sandboxer.Prelude.{
  ℕ, zero, suc, ◌*◌, ◌^◌, ◌%◌, ◌<◌, ◌≡◌, Bool, Option, none, some, List, [], ◌∷◌, ◌++◌, leb, ◌==◌,
  ◌||◌, not, arith, inl, inr, refl, length, Bool-cases, append-nil, append_assoc, ◌∙◌,
}
use sandboxer.Uffd.AddressMap.{
  Vma, AddressMap, MapError, page_size, untouched, pieces, tombstone, invalidate_loop, invalidate,
  register_vma, remove_in, remove_staged, adopt, bind_initial, new_address_map, assign_in,
  after_register, add_uffd, process_ch,
}
use sandboxer.Uffd.AddressMap.WellFormed.{
  ApartFrom, AreRegions, IsWellFormed, staged-AreRegions, register_checks,
}
use sandboxer.Uffd.AddressMap.Kept.{
  replace-AreRegions, tombstone-Inside, pieces-AllInside, pieces-ApartFrom, pieces-AreRegions,
}

AreRegions-after : (len : ℕ) (xs ys : List Vma) → AreRegions len (xs ++ ys) → AreRegions len ys
AreRegions-after len [] ys r = r
AreRegions-after len (x ∷ xs) ys (_, _, r) = AreRegions-after len xs ys r

loop-AreRegions :
    (n fd start end len : ℕ) (done todo : List Vma)
    → len < 2 ^ 64
    → start < end
    → (start % 4096 ≡ 0) × (end % 4096 ≡ 0)
    → AreRegions len (done ++ todo)
    → AreRegions len (invalidate_loop n fd start end done todo)
unfolding invalidate_loop
loop-AreRegions zero fd start end len done todo small h p w = w
loop-AreRegions (suc n) fd start end len done [] small h p w = rw (append-nil done) at w
loop-AreRegions (suc n) fd start end len done (v ∷ todo) small h p w =
    elim (Bool-cases (untouched fd start end v)) [
      | inl skip ↦ rw skip (
          loop-AreRegions n fd start end len (done ++ (v ∷ [])) todo small h p
            (rw (append_assoc done (v ∷ []) todo) w))
      | inr cut ↦
          let r = (AreRegions-after len done (v ∷ todo) w).0 in
          let t = tombstone start end v in
          let ps = pieces start end v in
          rw cut (
            loop-AreRegions n fd start end len (done ++ (t ∷ [])) (todo ++ ps) small h p (
              rw (append_assoc done (t ∷ []) (todo ++ ps)) (
                replace-AreRegions len v t done todo ps
                  (tombstone-Inside fd start end len v small h p r cut)
                  (pieces-AllInside fd start end len v small h p r cut)
                  (pieces-ApartFrom fd start end len v small h r cut)
                  (pieces-AreRegions fd start end len v small h p r cut) w)))
    ]

invalidate-IsWellFormed :
    (m : AddressMap) (fd start end : ℕ)
    → m.memfd_len < 2 ^ 64
    → IsWellFormed m
    → IsWellFormed (invalidate m fd start end)
unfolding invalidate
invalidate-IsWellFormed m fd start end small w =
    elim (Bool-cases
      (leb end start || not (start % page_size == 0) || not (end % page_size == 0))) [
        | inl bad ↦ rw bad w
        | inr good ↦ rw good (
            loop-AreRegions (3 * length m.vmas) fd start end m.memfd_len [] m.vmas small
              (ground arith) (ground arith) w)
      ]

register-IsWellFormed :
    (m : AddressMap) (p va size off : ℕ) (o : Option MapError)
    → m.memfd_len < 2 ^ 64
    → size < 2 ^ 64
    → off < 2 ^ 64
    → IsWellFormed m
    → (register_vma m p va size off).0 ≡ o
    → IsWellFormed (register_vma m p va size off).1
unfolding register_vma
register-IsWellFormed m p va size off (some e) small s f w h = ground (arith, w)
register-IsWellFormed m p va size off none small s f w h =
    let (a, b, c, d, e) = register_checks m p va size off small s f h in
    rw e (staged-AreRegions p va size off m.memfd_len m.vmas a b small c w d)

adopt-ApartFrom : (fd : ℕ) (x : Vma) (vs : List Vma) → ApartFrom x vs → ApartFrom x (adopt fd vs)
unfolding adopt
adopt-ApartFrom fd x [] a = tt
adopt-ApartFrom fd x (v ∷ vs) (h, a) = ground (arith, h, a, adopt-ApartFrom fd x vs a)

adopt-AreRegions : (fd len : ℕ) (vs : List Vma) → AreRegions len vs → AreRegions len (adopt fd vs)
unfolding adopt
adopt-AreRegions fd len [] w = tt
adopt-AreRegions fd len (v ∷ vs) (r, a, w) =
    ground (arith, r, a, w, adopt-ApartFrom fd v vs a, adopt-AreRegions fd len vs w)

bind-IsWellFormed : (m : AddressMap) (fd : ℕ) → IsWellFormed m → IsWellFormed (bind_initial m fd).1
unfolding bind_initial
bind-IsWellFormed m fd w = ground (arith, w, adopt-AreRegions fd m.memfd_len m.vmas w)

assign-ApartFrom :
    (fd va off : ℕ) (x : Vma) (vs : List Vma)
    → ApartFrom x vs
    → ApartFrom x (assign_in fd va off vs)
unfolding assign_in
assign-ApartFrom fd va off x [] a = tt
assign-ApartFrom fd va off x (v ∷ vs) (h, a) =
    ground (arith, h, a, assign-ApartFrom fd va off x vs a)

assign-AreRegions :
    (fd va off len : ℕ) (vs : List Vma)
    → AreRegions len vs
    → AreRegions len (assign_in fd va off vs)
unfolding assign_in
assign-AreRegions fd va off len [] w = tt
assign-AreRegions fd va off len (v ∷ vs) (r, a, w) =
    ground (arith, r, a, w, assign-ApartFrom fd va off v vs a, assign-AreRegions fd va off len vs w)

remove-ApartFrom :
    (va size off : ℕ) (x : Vma) (vs : List Vma)
    → ApartFrom x vs
    → ApartFrom x (remove_in va size off vs)
unfolding remove_in
remove-ApartFrom va size off x [] a = tt
remove-ApartFrom va size off x (v ∷ vs) (h, a) =
    ground (arith, h, a, remove-ApartFrom va size off x vs a)

remove-AreRegions :
    (va size off len : ℕ) (vs : List Vma)
    → AreRegions len vs
    → AreRegions len (remove_in va size off vs)
unfolding remove_in
remove-AreRegions va size off len [] w = tt
remove-AreRegions va size off len (v ∷ vs) (r, a, w) =
    ground
      (arith, r, a, w, remove-ApartFrom va size off v vs a, remove-AreRegions va size off len vs w)

after_register-IsWellFormed :
    (polled seeded : Bool) (fd va size off : ℕ) (r : Option MapError × AddressMap)
    → IsWellFormed r.1
    → IsWellFormed (after_register polled seeded fd va size off r).1
unfolding after_register remove_staged
after_register-IsWellFormed polled seeded fd va size off (some e, m) w = w
after_register-IsWellFormed polled seeded fd va size off (none, m) w =
    let owned = assign-AreRegions fd va off m.memfd_len m.vmas w in
    ground (
      arith,
      owned,
      remove-AreRegions va size off m.memfd_len m.vmas w,
      remove-AreRegions va size off m.memfd_len (assign_in fd va off m.vmas) owned,
    )

add-IsWellFormed :
    (m : AddressMap) (is_closed polled seeded : Bool) (fd va size off : ℕ)
    → m.memfd_len < 2 ^ 64
    → size < 2 ^ 64
    → off < 2 ^ 64
    → IsWellFormed m
    → IsWellFormed (add_uffd m is_closed polled seeded fd va size off).1
unfolding add_uffd
add-IsWellFormed m is_closed polled seeded fd va size off small s f w =
    let r = register_vma m process_ch va size off in
    ground (
      arith,
      w,
      after_register-IsWellFormed polled seeded fd va size off r
          (register-IsWellFormed m process_ch va size off r.0 small s f w refl),
    )

-- The calls that change a map. A call that fails leaves it as it is. AddUffd locks the map for each of
-- its parts, so that these are also steps of their own.
pub data Step (m : AddressMap) : AddressMap → Type 0 where
  registers :
      (p va size off : ℕ) → size < 2 ^ 64 → off < 2 ^ 64 → Step m (register_vma m p va size off).1
  binds : (fd : ℕ) → Step m (bind_initial m fd).1
  adds :
      (is_closed polled seeded : Bool) (fd va size off : ℕ)
      → size < 2 ^ 64
      → off < 2 ^ 64
      → Step m (add_uffd m is_closed polled seeded fd va size off).1
  assigns : (fd va off : ℕ) → Step m (record m { vmas = assign_in fd va off m.vmas })
  removes : (va size off : ℕ) → Step m (remove_staged m va size off)
  unmaps : (fd start end : ℕ) → Step m (invalidate m fd start end)

pub data Reach (s : AddressMap) : AddressMap → Type 0 where
  here : Reach s s
  next : {t u : AddressMap} → Reach s t → Step t u → Reach s u

register-memfd_len :
    (m : AddressMap) (p va size off : ℕ) → (register_vma m p va size off).1.memfd_len ≡ m.memfd_len
unfolding register_vma
register-memfd_len m p va size off = ground arith

bind-memfd_len : (m : AddressMap) (fd : ℕ) → (bind_initial m fd).1.memfd_len ≡ m.memfd_len
unfolding bind_initial
bind-memfd_len m fd = ground arith

after_register-memfd_len :
    (polled seeded : Bool) (fd va size off : ℕ) (r : Option MapError × AddressMap)
    → (after_register polled seeded fd va size off r).1.memfd_len ≡ r.1.memfd_len
unfolding after_register remove_staged
after_register-memfd_len polled seeded fd va size off (some e, m) = refl
after_register-memfd_len polled seeded fd va size off (none, m) = ground arith

add-memfd_len :
    (m : AddressMap) (is_closed polled seeded : Bool) (fd va size off : ℕ)
    → (add_uffd m is_closed polled seeded fd va size off).1.memfd_len ≡ m.memfd_len
unfolding add_uffd
add-memfd_len m is_closed polled seeded fd va size off = ground (
  arith,
  after_register-memfd_len polled seeded fd va size off (register_vma m process_ch va size off),
  register-memfd_len m process_ch va size off,
)

invalidate-memfd_len :
    (m : AddressMap) (fd start end : ℕ) → (invalidate m fd start end).memfd_len ≡ m.memfd_len
unfolding invalidate
invalidate-memfd_len m fd start end = ground arith

Step-memfd_len : {m m' : AddressMap} → Step m m' → m'.memfd_len ≡ m.memfd_len
unfolding remove_staged
Step-memfd_len {m = m} (registers p va size off s f) = register-memfd_len m p va size off
Step-memfd_len {m = m} (binds fd) = bind-memfd_len m fd
Step-memfd_len {m = m} (adds c p s fd va size off _ _) = add-memfd_len m c p s fd va size off
Step-memfd_len (assigns fd va off) = refl
Step-memfd_len (removes va size off) = refl
Step-memfd_len {m = m} (unmaps fd start end) = invalidate-memfd_len m fd start end

Reach-memfd_len : (n : ℕ) {m : AddressMap} → Reach (new_address_map n) m → m.memfd_len ≡ n
unfolding new_address_map
Reach-memfd_len n here = refl
Reach-memfd_len n (next r s) = Step-memfd_len s ∙ Reach-memfd_len n r

Step-IsWellFormed :
    {m m' : AddressMap} → m.memfd_len < 2 ^ 64 → IsWellFormed m → Step m m' → IsWellFormed m'
unfolding remove_staged
Step-IsWellFormed {m = m} small w (registers p va size off s f) =
    register-IsWellFormed m p va size off (register_vma m p va size off).0 small s f w refl
Step-IsWellFormed {m = m} small w (binds fd) = bind-IsWellFormed m fd w
Step-IsWellFormed {m = m} small w (adds c p sd fd va size off s f) =
    add-IsWellFormed m c p sd fd va size off small s f w
Step-IsWellFormed {m = m} small w (assigns fd va off) =
    assign-AreRegions fd va off m.memfd_len m.vmas w
Step-IsWellFormed {m = m} small w (removes va size off) =
    remove-AreRegions va size off m.memfd_len m.vmas w
Step-IsWellFormed {m = m} small w (unmaps fd start end) =
    invalidate-IsWellFormed m fd start end small w

-- Whatever is registered, adopted by bindInitial or AddUffd, rolled back and unmapped, in any order: every interval of the
-- map consists of whole pages, is not empty and lies inside the address space and the memfd, and
-- two intervals of one process share neither an address nor a byte of the memfd.
pub map-IsWellFormed :
    (n : ℕ) {m : AddressMap} → n < 2 ^ 64 → Reach (new_address_map n) m → IsWellFormed m
unfolding new_address_map
map-IsWellFormed n small here = tt
map-IsWellFormed n small (next r s) =
    Step-IsWellFormed (rw (Reach-memfd_len n r) small) (map-IsWellFormed n small r) s
