-- ===== src/Vhost/Queue.antt =====
-- The rings of pkg/vhost/worker.go and vring_order.go: processQueue. A load or store with a memory
-- order is one load or store of four bytes. The slab is mapped at a page boundary, so a host address
-- is as aligned as its position in the slab.
pub mod InOrder
pub mod Posted
use sandboxer.Prelude.{
  ℕ, zero, suc, ◌+◌, ◌-◌, ◌*◌, ◌/◌, ◌%◌, ◌^◌, Option, none, some, List, [], ◌∷◌, ◌++◌, Bool, true,
  false, ltb, leb, ◌==◌, if◌then◌else◌, ◌||◌, not, get_or, drop,
}
use sandboxer.Prelude.LittleEndian.{le, le_at}
use sandboxer.Vhost.{
  Fault, terminal, plain, canceled, overflow, misaligned, short_ring, Result, ok, failed, Run, pure,
  fail, ◌>>=◌, ◌>>◌, guard, ask, World,
}
use sandboxer.Vhost.Memory.{Segment, max_uint64, translate_uva, writable_uva}
use sandboxer.Vhost.Chain.{Virtq}
use sandboxer.Vhost.Request.{process_chain}

-- validateVringHeader.
abbrev pub is_bad_header : Segment → ℕ → ℕ → Bool
is_bad_header s addr alignment =
    ltb s.len 4 || not (addr % alignment == 0) || not (s.at % alignment == 0)

-- The index of the avail ring, and its entries.
abbrev pub AvailSnapshot : Type 0
AvailSnapshot = ℕ × List ℕ

-- The entries from index `i` of a ring's bytes.
pub entries_of : ℕ → List ℕ → List ℕ
entries_of zero b = []
entries_of (suc n) b = le_at 0 2 b ∷ entries_of n (drop 2 b)

module _ {W : Type 0} (g : World W) where
  -- loadAvailIdxAcquire.
  unfoldable pub load_avail_idx : Segment → ℕ → Run W ℕ
  load_avail_idx s addr = do
    guard (not (is_bad_header s addr 2)) (plain misaligned)
    if s.at % 4 == 0 then (do b ← ask (g.load s.at 4); pure (le_at 2 2 b)) else (do
      guard (leb 6 s.len) (plain short_ring)
      b ← ask (g.load (s.at + 2) 4)
      pure (le_at 0 2 b))

  unfoldable pub read_avail_ring : Virtq → Run W AvailSnapshot
  unfolding entries_of
  read_avail_ring q = do
    s ← translate_uva g q.table q.avail_addr (4 + q.num * 2)
    idx ← load_avail_idx s q.avail_addr
    b ← ask (g.load (s.at + 4) (q.num * 2))
    pure (idx, entries_of q.num b)

  -- publishUsed, with publishNextRelease.
  unfoldable pub publish_used : Virtq → ℕ → ℕ → Run W (Unit {0})
  publish_used q desc len = do
    s ← writable_uva g q.table q.used_addr 4
    guard (not (is_bad_header s q.used_addr 4)) (plain misaligned)
    word ← ask (g.load s.at 4)
    let idx = le_at 2 2 word
    let off = 4 + idx % (q.num % 2 ^ 16) * 8
    guard (not (ltb (max_uint64 - q.used_addr) off)) (terminal overflow)
    e ← writable_uva g q.table (q.used_addr + off) 8
    ask (λ w. (tt, g.store e.at (le 4 desc ++ le 4 len) w))
    ask (λ w. (tt, g.store s.at (le 2 (le_at 0 2 word) ++ le 2 ((idx + 1) % 2 ^ 16)) w))

  -- How far processQueue has come: its error and q.baseIdx. `done` is no state of the source: it lists
  -- the calls of publishUsed that have returned, for the theorems to speak of.
  -- `stuck` is no outcome of the source: the turns ran out.
  pub record Progress : Type 0 where
    pub stuck : Bool
    pub failure : Option Fault
    pub base_idx : ℕ
    pub done : List (ℕ × ℕ)
    pub world : W

  abbrev pub written : Result ℕ → ℕ
  written (ok n) = n
  written (failed e) = 0

  abbrev pub ends_queue : Result ℕ → Option Fault
  ends_queue (failed (terminal c)) = some (terminal c)
  ends_queue _ = none

  -- One turn after the test of the indices: the completion, unless the queue ends.
  unfoldable pub complete : Virtq → ℕ → Run W ℕ
  complete q desc w =
      let r = process_chain g q desc w in
      let len = written r.0 % 2 ^ 32 in
      elim (ends_queue r.0) [
        | some e ↦ (failed e, r.1)
        | none ↦
            (do
              guard (not (← ask g.stopped)) (terminal canceled)
              publish_used q desc len
              pure len)
              r.1
      ]

  -- The loop of processQueue, on fuel.
  unfoldable pub queue_loop : ℕ → Virtq → ℕ → List ℕ → ℕ → List (ℕ × ℕ) → W → Progress
  queue_loop zero q head ring base done w = record {
    stuck = true;
    failure = none;
    base_idx = base;
    done = done;
    world = w;
  }
  queue_loop (suc n) q head ring base done w =
      let desc = get_or ring (base % (q.num % 2 ^ 16)) 0 in
      let (stopped, w1) = g.stopped w in
      let (r, w2) = complete q desc w1 in
      let halt : Fault → W → Progress = λ e w'. record {
        stuck = false;
        failure = some e;
        base_idx = base;
        done = done;
        world = w';
      } in
      if base == head
      then record { stuck = false; failure = none; base_idx = base; done = done; world = w }
      else if stopped
      then halt (terminal canceled) w1
      else elim r [
        | failed e ↦ halt e w2
        | ok len ↦ queue_loop n q head ring ((base + 1) % 2 ^ 16) (done ++ ((desc, len) ∷ [])) w2
      ]

  -- processQueue up to the notification. Indices have 16 bits.
  unfoldable pub process_queue : Virtq → ℕ → W → Progress
  process_queue q base w =
      let (r, w') = read_avail_ring q w in
      elim r [
        | failed e ↦ record {
          stuck = false;
          failure = some e;
          base_idx = base;
          done = [];
          world = w';
        }
        | ok (head, ring) ↦ queue_loop (2 ^ 16) q head ring base [] w'
      ]
