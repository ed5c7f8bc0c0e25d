-- ===== src/Prelude/Bytes.antt =====
-- Bytes and the fixed-width integers of encoding/binary. A byte is a number below 256; a value
-- of w bits is a number below 2 ^ w, and every place where the source truncates has its `%`.
use Prim.Native.Nat.{ℕ, ◌+◌, ◌*◌, ◌/◌, ◌%◌, ◌^◌, ◌<◌}
use mathlib.Core.Path.{◌≡◌}
use mathlib.Core.List.{List, [], ◌∷◌}
use native.Mathlib.Omega.{arith}

abbrev pub IsByte : ℕ → Type 0
IsByte b = b < 256

-- BigEndian.PutUint16 and BigEndian.Uint16.
abbrev pub be16 : ℕ → List ℕ
be16 v = (v / 256 % 256) ∷ (v % 256) ∷ []

abbrev pub of_be16 : ℕ → ℕ → ℕ
of_be16 a b = a * 256 + b

-- BigEndian.PutUint32 and BigEndian.Uint32.
abbrev pub be32 : ℕ → List ℕ
be32 v = (v / 16777216 % 256) ∷ (v / 65536 % 256) ∷ (v / 256 % 256) ∷ (v % 256) ∷ []

abbrev pub of_be32 : ℕ → ℕ → ℕ → ℕ → ℕ
of_be32 a b c d = a * 16777216 + b * 65536 + c * 256 + d

pub of_be16-be16 : (v : ℕ) → v < 2 ^ 16 → of_be16 (v / 256 % 256) (v % 256) ≡ v
of_be16-be16 v h = omega arith

pub of_be32-be32 :
    (v : ℕ)
    → v < 2 ^ 32
    → of_be32 (v / 16777216 % 256) (v / 65536 % 256) (v / 256 % 256) (v % 256) ≡ v
of_be32-be32 v h = omega arith
