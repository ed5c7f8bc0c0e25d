-- ===== src/Vhost/Chain.antt =====
-- The descriptor chains of pkg/vhost/worker.go. A descriptor is one load of 16 bytes; in the code its
-- fields are read one after the other from the same slice.
pub mod Noted
pub mod Walk
use sandboxer.Prelude.{
  ℕ, zero, suc, ◌+◌, ◌-◌, ◌*◌, ◌/◌, ◌%◌, ◌^◌, List, [], ◌∷◌, ◌++◌, Bool, true, false, ltb, leb,
  ◌==◌, if◌then◌else◌, ◌||◌, ◌&&◌, not, length,
}
use sandboxer.Prelude.LittleEndian.{le_at}
use sandboxer.Vhost.{
  Cause, terminal, plain, overflow, invalid_chain, invalid_table, no_turns, Run, pure, fail, ◌>>=◌,
  ◌>>◌, guard, ask, World,
}
use sandboxer.Vhost.Memory.{Segment, MemTable, max_uint64, translate, translate_uva, translate_gpa}

-- What the worker reads of a virtq and of its server.
pub record Virtq : Type 0 where
  pub num : ℕ
  pub desc_addr : ℕ
  pub avail_addr : ℕ
  pub used_addr : ℕ
  pub table : MemTable
  pub allows_discard : Bool

pub record VringDesc : Type 0 where
  pub addr : ℕ
  pub len : ℕ
  pub flags : ℕ
  pub next : ℕ

abbrev pub has_next : VringDesc → Bool
has_next d = d.flags % 2 == 1

abbrev pub is_writable : VringDesc → Bool
is_writable d = d.flags / 2 % 2 == 1

abbrev pub is_indirect : VringDesc → Bool
is_indirect d = d.flags / 4 % 2 == 1

pub record Chain : Type 0 where
  pub read_segs : List Segment
  pub write_segs : List Segment

abbrev pub empty_chain : Chain
empty_chain = record { read_segs = []; write_segs = [] }

unfoldable pub desc_of : List ℕ → VringDesc
desc_of b = record {
  addr = le_at 0 8 b;
  len = le_at 8 4 b;
  flags = le_at 12 2 b;
  next = le_at 14 2 b;
}

abbrev pub with_segment : Chain → VringDesc → Segment → Chain
with_segment c d s =
    if is_writable d
    then record c { write_segs = c.write_segs ++ (s ∷ []) }
    else record c { read_segs = c.read_segs ++ (s ∷ []) }

module _ {W : Type 0} (g : World W) where
  -- readDesc.
  unfoldable pub read_desc : Virtq → ℕ → Run W VringDesc
  unfolding desc_of
  read_desc q idx = do
    guard (not (ltb (max_uint64 - q.desc_addr) (idx * 16))) (terminal overflow)
    s ← translate_uva g q.table (q.desc_addr + idx * 16) 16
    pure (desc_of (← ask (g.load s.at 16)))

  -- appendSeg.
  unfoldable pub append_seg : Virtq → Chain → VringDesc → Run W Chain
  append_seg q c d = if d.len == 0 then pure c else (do
    s ← translate g q.table false (is_writable d) d.addr d.len
    pure (with_segment c d s))

  -- The loop over the `n` descriptors of an indirect table that starts at `at`.
  unfoldable pub table_loop : ℕ → Virtq → ℕ → Chain → Run W Chain
  unfolding desc_of
  table_loop zero q at c = pure c
  table_loop (suc n) q at c = do
    b ← ask (g.load at 16)
    c' ← append_seg q c (desc_of b)
    table_loop n q (at + 16) c'

  -- One turn of walkChain after readDesc: the count and the chain.
  unfoldable pub add_desc : Virtq → VringDesc → ℕ → Chain → Run W (ℕ × Chain)
  add_desc q d count c =
      let n = d.len / 16 in
      if is_indirect d
      then (do
        guard (not (n == 0 || not (d.len % 16 == 0) || ltb (q.num - count) n)) (plain invalid_table)
        s ← translate_gpa g q.table d.addr (n * 16)
        c' ← table_loop n q s.at c
        pure (count + n, c'))
      else (do c' ← append_seg q c d; pure (count + 1, c'))

  -- The loop of walkChain, on fuel.
  unfoldable pub walk_loop : ℕ → Virtq → ℕ → ℕ → Chain → Run W Chain
  walk_loop zero q idx count c = fail (plain no_turns)
  walk_loop (suc n) q idx count c = do
    guard (not (leb q.num count || leb q.num idx)) (plain invalid_chain)
    d ← read_desc q idx
    r ← add_desc q d count c
    if has_next d then walk_loop n q d.next r.0 r.1 else pure r.1

  -- Each turn counts one descriptor at least, and the ring has `num` of them.
  unfoldable pub walk_chain : Virtq → ℕ → Run W Chain
  walk_chain q head = walk_loop (suc q.num) q head 0 empty_chain
