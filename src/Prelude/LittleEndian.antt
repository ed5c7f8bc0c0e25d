-- ===== src/Prelude/LittleEndian.antt =====
-- The fixed-width integers of encoding/binary's LittleEndian, for any number of bytes.
use Prim.Native.Nat.{ℕ, zero, suc, ◌+◌, ◌*◌, ◌/◌, ◌%◌, ◌<◌}
use mathlib.Core.Path.{◌≡◌, refl, ap}
use mathlib.Core.List.{List, [], ◌∷◌}
use native.Mathlib.Omega.{arith}
use sandboxer.Prelude.Lists.{length, take, drop}

-- PutUint of `n` bytes.
abbrev pub le : ℕ → ℕ → List ℕ
le zero v = []
le (suc n) v = (v % 256) ∷ le n (v / 256)

abbrev pub of_le : List ℕ → ℕ
of_le [] = 0
of_le (x ∷ xs) = x + 256 * of_le xs

-- The integer of `n` bytes at an index.
abbrev pub le_at : ℕ → ℕ → List ℕ → ℕ
le_at i n xs = of_le (take n (drop i xs))

pub length-le : (n v : ℕ) → length (le n v) ≡ n
length-le zero v = refl
length-le (suc n) v = ap suc (length-le n (v / 256))

abbrev pub limit : ℕ → ℕ
limit zero = 1
limit (suc n) = 256 * limit n

pub of_le-le : (n v : ℕ) → v < limit n → of_le (le n v) ≡ v
of_le-le zero v h = omega arith
of_le-le (suc n) v h = omega (arith, of_le-le n (v / 256) (omega (arith, h)))
