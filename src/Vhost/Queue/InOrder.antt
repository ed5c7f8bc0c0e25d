-- ===== src/Vhost/Queue/InOrder.antt =====
-- In which order processQueue of pkg/vhost/worker.go completes what the guest has made available.
use sandboxer.Prelude.{
  ℕ, zero, suc, ◌+◌, ◌-◌, ◌%◌, ◌^◌, ◌≤◌, ◌≡◌, ◌≢◌, none, List, [], ◌∷◌, ◌++◌, false, get_or, ◌⊎◌,
}
use sandboxer.Vhost.{World}
use sandboxer.Vhost.Chain.{Virtq}
use sandboxer.Vhost.Request.{process_chain}
use sandboxer.Vhost.Queue.Posted.{Posted}
use sandboxer.Vhost.Queue.{Progress, written}

-- The heads that the ring has from index `base` on, the index wrapping at 16 bits.
pub entries : Virtq → List ℕ → ℕ → ℕ → List ℕ
entries q ring base zero = []
entries q ring base (suc k) =
    get_or ring (base % (q.num % 2 ^ 16)) 0 ∷ entries q ring ((base + 1) % 2 ^ 16) k

pub heads : List (ℕ × ℕ) → List ℕ
heads [] = []
heads (c ∷ cs) = c.0 ∷ heads cs

-- How many entries are between two indices.
abbrev pub pending : ℕ → ℕ → ℕ
pending base head = (head + 2 ^ 16 - base) % 2 ^ 16

-- A run of turns from index `base` and world `w` to world `v`. Each serves the next entry of the avail
-- ring and posts that entry, with the length that was written, to the used ring.
pub data Served {W : Type 0} (g : World W) (q : Virtq) (ring : List ℕ)
    : ℕ → List (ℕ × ℕ) → W → W → Type 0 where
  none_left : {base : ℕ} {w : W} → Served g q ring base [] w w
  serves :
      {base : ℕ} {cs : List (ℕ × ℕ)} {w w' v : W} (desc len : ℕ)
      → desc ≡ get_or ring (base % (q.num % 2 ^ 16)) 0
      → (g.stopped w).0 ≡ false
      → len ≡ written g (process_chain g q desc (g.stopped w).1).0 % 2 ^ 32
      → (g.stopped (process_chain g q desc (g.stopped w).1).1).0 ≡ false
      → Posted g q desc len (g.stopped (process_chain g q desc (g.stopped w).1).1).1 w'
      → Served g q ring ((base + 1) % 2 ^ 16) cs w' v
      → Served g q ring base ((desc, len) ∷ cs) w v

-- The new completions are those of the next entries of the ring, each once and in the ring's order,
-- and each is posted to the used ring; they go up to the index that is reached, which is the guest's
-- index unless there is an error.
pub record IsInOrder {W : Type 0} (g : World W) (q : Virtq) (head : ℕ) (ring : List ℕ) (base : ℕ)
    (done : List (ℕ × ℕ)) (w : W) (r : Progress g) : Type 0 where
  pub turns : ℕ
  pub posted : List (ℕ × ℕ)
  pub last : W
  pub extends : r.done ≡ done ++ posted
  pub served : Served g q ring base posted w last
  pub completed : heads posted ≡ entries q ring base turns
  pub reached : r.base_idx ≡ (base + turns) % 2 ^ 16
  pub no_more : turns ≤ pending base head
  pub all_or_error : (r.failure ≢ none) ⊎ ((turns ≡ pending base head) × (r.world ≡ last))
  pub ends : r.stuck ≡ false
