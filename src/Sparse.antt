-- ===== src/Sparse.antt =====
-- Lists of extents as pkg/snapshot and pkg/uffd build them. An extent is sparse.Extent of the
-- accelerator, by the two fields that the code reads and writes.
use sandboxer.Prelude.{
  ℕ, ◌+◌, ◌-◌, ◌%◌, ◌^◌, ◌≤◌, ◌<◌, ◌≡◌, refl, List, [], ◌∷◌, Bool, false, ltb, leb, ◌==◌,
  if◌then◌else◌, ◌||◌, ◌&&◌, arith,
}

pub record Extent : Type 0 where
  pub offset : ℕ
  pub size : ℕ

-- Append [start, end), or extend the last extent where it ends at `start`.
unfoldable pub append_run : ℕ → ℕ → List Extent → List Extent
append_run start end [] = record { offset = start; size = end - start } ∷ []
append_run start end (x ∷ []) =
    if (x.offset + x.size) % 2 ^ 64 == start
    then record x { size = x.size + (end - start) } ∷ []
    else x ∷ record { offset = start; size = end - start } ∷ []
append_run start end (x ∷ y ∷ xs) = x ∷ append_run start end (y ∷ xs)

-- Whether a byte lies in one of the extents.
abbrev pub covers : ℕ → Extent → Bool
covers x e = leb e.offset x && ltb x (e.offset + e.size)

abbrev pub in_extents : ℕ → List Extent → Bool
in_extents x [] = false
in_extents x (e ∷ es) = covers x e || in_extents x es

-- Sorted and disjoint extents in [low, high).
abbrev pub AreSorted : ℕ → ℕ → List Extent → Type 0
AreSorted low high [] = low ≤ high
AreSorted low high (e ∷ es) = (low ≤ e.offset) × AreSorted (e.offset + e.size) high es

pub AreSorted-bounds : (low high : ℕ) (es : List Extent) → AreSorted low high es → low ≤ high
AreSorted-bounds low high [] s = s
AreSorted-bounds low high (e ∷ es) (a, s) =
    omega (arith, AreSorted-bounds (e.offset + e.size) high es s)

pub AreSorted-raise :
    (low high high' : ℕ) (es : List Extent)
    → AreSorted low high es
    → high ≤ high'
    → AreSorted low high' es
AreSorted-raise low high high' [] s h = omega (arith, s, h)
AreSorted-raise low high high' (e ∷ es) (a, s) h =
    (a, AreSorted-raise (e.offset + e.size) high high' es s h)

pub in_extents_below :
    (x low high : ℕ) (es : List Extent) → AreSorted low high es → x < low → in_extents x es ≡ false
in_extents_below x low high [] s h = refl
in_extents_below x low high (e ∷ es) (a, s) h =
    ground (arith, in_extents_below x (e.offset + e.size) high es s)

pub in_extents_above :
    (x low high : ℕ) (es : List Extent) → AreSorted low high es → high ≤ x → in_extents x es ≡ false
in_extents_above x low high [] s h = refl
in_extents_above x low high (e ∷ es) (a, s) h = ground (
  arith,
  in_extents_above x (e.offset + e.size) high es s,
  AreSorted-bounds (e.offset + e.size) high es s,
)

pub in_extents-append_run :
    (x start end : ℕ) (es : List Extent)
    → start ≤ end
    → start < 2 ^ 64
    → AreSorted 0 start es
    → in_extents x (append_run start end es) ≡ (in_extents x es || (leb start x && ltb x end))
unfolding append_run
in_extents-append_run x start end es h small s = go 0 es s
  where
    go :
        (low : ℕ) (es : List Extent)
        → AreSorted low start es
        → in_extents x (append_run start end es) ≡ (in_extents x es || (leb start x && ltb x end))
    go low [] s = ground arith
    go low (e ∷ []) s = ground arith
    go low (e ∷ f ∷ es) (a, s) = ground (arith, go (e.offset + e.size) (f ∷ es) s)

pub append_run-AreSorted :
    (low start end : ℕ) (es : List Extent)
    → start ≤ end
    → start < 2 ^ 64
    → AreSorted low start es
    → AreSorted low end (append_run start end es)
unfolding append_run
append_run-AreSorted low start end [] h small s = ground arith
append_run-AreSorted low start end (e ∷ []) h small s = ground arith
append_run-AreSorted low start end (e ∷ f ∷ es) h small (a, s) =
    (a, append_run-AreSorted (e.offset + e.size) start end (f ∷ es) h small s)
