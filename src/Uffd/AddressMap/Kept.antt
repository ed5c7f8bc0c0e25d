-- ===== src/Uffd/AddressMap/Kept.antt =====
-- Parts of an interval, and lists of intervals in which one gives way to its parts
-- (invalidate of pkg/uffd/addrmap.go).
use sandboxer.Prelude.{ℕ, ◌+◌, ◌-◌, ◌^◌, ◌%◌, ◌≤◌, ◌<◌, ◌≡◌, List, [], ◌∷◌, ◌++◌, false, arith}
use sandboxer.Uffd.AddressMap.{Vma, untouched, pieces, tombstone}
use sandboxer.Uffd.AddressMap.WellFormed.{IsRegion, Apart, ApartFrom, AreRegions}

-- A nonempty part of an interval, at the same place of the memfd.
pub record Inside (w v : Vma) : Type 0 where
  same : w.process ≡ v.process
  low : v.start ≤ w.start
  nonempty : w.start < w.end
  high : w.end ≤ v.end
  place : w.memfd_offset ≡ v.memfd_offset + (w.start - v.start)
  pages : (w.start % 4096 ≡ 0) × (w.end % 4096 ≡ 0)

Inside-IsRegion : (len : ℕ) (w v : Vma) → Inside w v → IsRegion len v → IsRegion len w
Inside-IsRegion len w v i r = ground arith

Inside-Apart : (w v x : Vma) → v.start < v.end → Inside w v → Apart x v → Apart x w
Inside-Apart w v x n i a = ground arith

Apart-sym : (x y : Vma) → Apart x y → Apart y x
Apart-sym x y a = ground arith

abbrev pub AllInside : List Vma → Vma → Type 0
AllInside [] v = Unit
AllInside (w ∷ ws) v = Inside w v × AllInside ws v

ApartFrom-append :
    (x : Vma) (us ws : List Vma) → ApartFrom x us → ApartFrom x ws → ApartFrom x (us ++ ws)
ApartFrom-append x [] ws p q = q
ApartFrom-append x (u ∷ us) ws (h, p) q = (h, ApartFrom-append x us ws p q)

ApartFrom-Inside :
    (w v : Vma) (us : List Vma) → v.start < v.end → Inside w v → ApartFrom v us → ApartFrom w us
ApartFrom-Inside w v [] n i a = tt
ApartFrom-Inside w v (u ∷ us) n i (h, a) =
    (Apart-sym u w (Inside-Apart w v u n i (Apart-sym v u h)), ApartFrom-Inside w v us n i a)

Apart-AllInside :
    (x v : Vma) (ws : List Vma) → v.start < v.end → Apart x v → AllInside ws v → ApartFrom x ws
Apart-AllInside x v [] n a i = tt
Apart-AllInside x v (w ∷ ws) n a (h, i) = (Inside-Apart w v x n h a, Apart-AllInside x v ws n a i)

AreRegions-append :
    (len : ℕ) (v : Vma) (ys ws : List Vma)
    → v.start < v.end
    → ApartFrom v ys
    → AllInside ws v
    → AreRegions len ys
    → AreRegions len ws
    → AreRegions len (ys ++ ws)
AreRegions-append len v [] ws n a i r q = q
AreRegions-append len v (y ∷ ys) ws n (h, a) i (r, b, rs) q = (
  r,
  ApartFrom-append y ys ws b (Apart-AllInside y v ws n (Apart-sym v y h) i),
  AreRegions-append len v ys ws n a i rs q,
)

replace-ApartFrom :
    (x v t : Vma) (xs ys ws : List Vma)
    → v.start < v.end
    → Inside t v
    → AllInside ws v
    → ApartFrom x (xs ++ (v ∷ ys))
    → ApartFrom x (xs ++ (t ∷ (ys ++ ws)))
replace-ApartFrom x v t [] ys ws n i is (h, a) =
    (Inside-Apart t v x n i h, ApartFrom-append x ys ws a (Apart-AllInside x v ws n h is))
replace-ApartFrom x v t (u ∷ xs) ys ws n i is (h, a) =
    (h, replace-ApartFrom x v t xs ys ws n i is a)

-- An interval gives way to parts of it, one in its place and the others at the end.
pub replace-AreRegions :
    (len : ℕ) (v t : Vma) (xs ys ws : List Vma)
    → Inside t v
    → AllInside ws v
    → ApartFrom t ws
    → AreRegions len ws
    → AreRegions len (xs ++ (v ∷ ys))
    → AreRegions len (xs ++ (t ∷ (ys ++ ws)))
replace-AreRegions len v t [] ys ws i is d q (r, a, rs) = (
  Inside-IsRegion len t v i r,
  ApartFrom-append t ys ws (ApartFrom-Inside t v ys r.nonempty i a) d,
  AreRegions-append len v ys ws r.nonempty a is rs q,
)
replace-AreRegions len v t (x ∷ xs) ys ws i is d q (r, a, rs) = (
  r,
  replace-ApartFrom x v t xs ys ws (nonempty_of xs rs) i is a,
  replace-AreRegions len v t xs ys ws i is d q rs,
)
  where
    nonempty_of : (zs : List Vma) → AreRegions len (zs ++ (v ∷ ys)) → v.start < v.end
    nonempty_of [] (s, _, _) = s.nonempty
    nonempty_of (z ∷ zs) (_, _, s) = nonempty_of zs s

pub tombstone-Inside :
    (fd start end len : ℕ) (v : Vma)
    → len < 2 ^ 64
    → start < end
    → (start % 4096 ≡ 0) × (end % 4096 ≡ 0)
    → IsRegion len v
    → untouched fd start end v ≡ false
    → Inside (tombstone start end v) v
unfolding tombstone
tombstone-Inside fd start end len v small h p r u = ground arith

pub pieces-AllInside :
    (fd start end len : ℕ) (v : Vma)
    → len < 2 ^ 64
    → start < end
    → (start % 4096 ≡ 0) × (end % 4096 ≡ 0)
    → IsRegion len v
    → untouched fd start end v ≡ false
    → AllInside (pieces start end v) v
unfolding pieces
pieces-AllInside fd start end len v small h p r u = ground arith

pub pieces-ApartFrom :
    (fd start end len : ℕ) (v : Vma)
    → len < 2 ^ 64
    → start < end
    → IsRegion len v
    → untouched fd start end v ≡ false
    → ApartFrom (tombstone start end v) (pieces start end v)
unfolding pieces tombstone
pieces-ApartFrom fd start end len v small h r u = ground arith

pub pieces-AreRegions :
    (fd start end len : ℕ) (v : Vma)
    → len < 2 ^ 64
    → start < end
    → (start % 4096 ≡ 0) × (end % 4096 ≡ 0)
    → IsRegion len v
    → untouched fd start end v ≡ false
    → AreRegions len (pieces start end v)
unfolding pieces
pieces-AreRegions fd start end len v small h p r u = ground arith
