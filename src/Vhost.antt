-- ===== src/Vhost.antt =====
-- pkg/vhost: the block backend of the guest. What a queue's worker meets outside of itself (guest
-- memory that the guest changes meanwhile, the population callback, the disk, the end of its
-- context) is a record of operations on a world; its functions are runs in that world.
pub mod Blk
pub mod Memory
pub mod Chain
pub mod Request
pub mod Queue
pub mod Laws
mod Tests
use sandboxer.Prelude.{ℕ, ◌≡◌, Option, none, some, List, Bool, true, false, if◌then◌else◌}

-- The errors, of which those marked by readretry.Terminal end the queue.
pub data Cause : Type 0 where
  canceled unbound overflow invalid_coverage not_loaded not_marked unmapped : Cause
  invalid_chain invalid_table missing_segment short_header misaligned short_ring : Cause
  source_failed no_turns : Cause

pub data Fault : Type 0 where
  terminal plain : Cause → Fault

pub data Result {ℓ} (A : Type ℓ) : Type ℓ where
  ok : A → Result A
  failed : Fault → Result A

abbrev pub Run : Type 0 → Type 0 → Type 0
Run W A = W → Result A × W

abbrev pub pure : {W A : Type 0} → A → Run W A
pure a w = (ok a, w)

abbrev pub fail : {W A : Type 0} → Fault → Run W A
fail e w = (failed e, w)

infixl 5 ◌>>=◌ ◌>>◌
abbrev pub ◌>>=◌ : {W A B : Type 0} → Run W A → (A → Run W B) → Run W B
◌>>=◌ {W} {A} {B} m f w = elim (m w).0 as (λ r. Result B × W) [
  | ok a ↦ f a (m w).1
  | failed e ↦ (failed e, (m w).1)
]

abbrev pub ◌>>◌ : {W B : Type 0} → Run W (Unit {0}) → Run W B → Run W B
m >> k = m >>= λ _. k

abbrev pub guard : {W : Type 0} → Bool → Fault → Run W (Unit {0})
guard b e w = if b then (ok tt, w) else (failed e, w)

-- An operation of the world as a run.
abbrev pub ask : {W A : Type 0} → (W → A × W) → Run W A
ask f w = (ok (f w).0, (f w).1)

-- How a backend fails: with a terminal error, with ErrReadOnly, with what completeReadCompatible
-- accepts, or otherwise.
pub data BackendError : Type 0 where
  ended read_only compatible broken : BackendError

-- A count is a Go int, kept as its 64-bit pattern. `bytes` is the buffer after the call.
pub record IoReply (W : Type 0) : Type 0 where
  pub count : ℕ
  pub bytes : List ℕ
  pub error : Option BackendError
  pub world : W

pub record World (W : Type 0) : Type 0 where
  -- Whether the context has ended, and whether the queue has been stopped.
  pub context_error : W → Bool × W
  pub stopped : W → Bool × W
  -- The callbacks of the memory table: whether they fail.
  pub ensure_loaded : ℕ → ℕ → W → Bool × W
  pub mark_dirty : ℕ → ℕ → W → Bool × W
  -- The memfd slab.
  pub load : ℕ → ℕ → W → List ℕ × W
  pub store : ℕ → List ℕ → W → W
  -- The disk; its size is an int64, kept as its 64-bit pattern.
  pub size : ℕ
  pub is_read_only : Bool
  pub supports_discard : Bool
  pub read_at : ℕ → ℕ → W → IoReply W
  pub write_at : List ℕ → ℕ → W → IoReply W
  pub flush : W → Bool × W
  pub discard : ℕ → ℕ → W → Bool × W
