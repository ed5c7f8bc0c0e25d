-- ===== src/Vhost/Chain/Walk.antt =====
-- What walkChain of pkg/vhost/worker.go hands to a request.
use sandboxer.Prelude.{
  ℕ, zero, suc, ◌+◌, ◌-◌, ◌*◌, ◌/◌, ◌%◌, ◌≤◌, ◌<◌, ◌≡◌, ◌≢◌, List, [], ◌∷◌, ◌++◌, Bool, true, false,
  ltb, leb, ◌==◌, if◌then◌else◌, ◌||◌, ◌&&◌, not, length, length-append, All, arith, ◌⊎◌, inl, inr,
  Bool-cases,
}
use sandboxer.Vhost.{
  terminal, plain, no_turns, Fault, Run, Result, ok, failed, pure, ◌>>=◌, ask, World,
}
use sandboxer.Vhost.Laws.{Yields, yields, fails, IsTerminal, >>=-Yields, weaken}
use sandboxer.Vhost.Memory.{Segment, max_uint64, translate, translate_uva, translate_gpa}
use sandboxer.Vhost.Memory.Translate.{
  Changes, by_load, IsPopulating, IsBound, IsReached, translate_lem, translate-stays,
  maps_to-length,
}
use sandboxer.Vhost.Chain.{
  Virtq, VringDesc, has_next, is_writable, is_indirect, Chain, empty_chain, desc_of, with_segment,
  read_desc, append_seg, table_loop, add_desc, walk_loop, walk_chain,
}

abbrev pub segments : Chain → ℕ
segments c = length c.read_segs + length c.write_segs

abbrev pub NotStuck : {W : Type 0} → Fault → W → Type 0
NotStuck e w = e ≢ plain no_turns

with_world :
    {W A : Type 0} {P : A → W → Type 0} {Q : Fault → W → Type 0} {K : W → Type 0} (r : Result A × W)
    → Yields P Q r
    → K r.1
    → Yields (λ a w. P a w × K w) Q r
with_world (ok a, w) (yields h) k = yields (h, k)
with_world (failed e, w) (fails h) k = fails h

module _ {W : Type 0} (g : World W) {Loaded Marked : ℕ → ℕ → W → Type 0}
    (pop : IsPopulating g Loaded Marked) (slab : ℕ) (q : Virtq) where
  -- A slice that a request can use: in the slab, not empty, loaded once, and marked if it is for writing.
  pub record IsUsable (writable : Bool) (w : W) (s : Segment) : Type 0 where
    pub inside : s.at + s.len ≤ slab
    pub not_empty : 0 < s.len
    pub loaded : Loaded s.at s.len w
    pub marked : (writable && q.table.tracks_dirty ≡ false) ⊎ Marked s.at s.len w

  pub record IsReady (c : Chain) (w : W) : Type 0 where
    pub readable : All (IsUsable false w) c.read_segs
    pub writable : All (IsUsable true w) c.write_segs

  IsUsable-stays :
      (writable : Bool) (s : Segment) (w w' : W)
      → Changes g w w'
      → IsUsable writable w s
      → IsUsable writable w' s
  IsUsable-stays writable s w w' ch u = record {
    inside = u.inside;
    not_empty = u.not_empty;
    loaded = pop.stays_loaded s.at s.len ch u.loaded;
    marked = elim u.marked [ inl h ↦ inl h | inr h ↦ inr (pop.stays_marked s.at s.len ch h) ];
  }

  All-stays :
      (b : Bool) (ss : List Segment) (w w' : W)
      → Changes g w w'
      → All (IsUsable b w) ss
      → All (IsUsable b w') ss
  All-stays b [] w w' ch h = tt
  All-stays b (s ∷ ss) w w' ch h = (IsUsable-stays b s w w' ch h.0, All-stays b ss w w' ch h.1)

  IsReady-stays : (c : Chain) (w w' : W) → Changes g w w' → IsReady c w → IsReady c w'
  IsReady-stays c w w' ch h = record {
    readable = All-stays false c.read_segs w w' ch h.readable;
    writable = All-stays true c.write_segs w w' ch h.writable;
  }

  All-snoc :
      (b : Bool) (w : W) (ss : List Segment) (s : Segment)
      → All (IsUsable b w) ss
      → IsUsable b w s
      → All (IsUsable b w) (ss ++ (s ∷ []))
  All-snoc b w [] s h u = (u, tt)
  All-snoc b w (t ∷ ss) s h u = (h.0, All-snoc b w ss s h.1 u)

  module _ (bound : All (IsBound slab) q.table.regions) where
    not_stuck : (e : Fault) (w : W) → IsTerminal e w → NotStuck e w
    not_stuck (terminal c) w h = cc
    not_stuck (plain c) w h = absurd h

    -- A translation keeps the slices that the chain has.
    reach :
        (uva writable : Bool) (addr len : ℕ) (c : Chain) (w : W)
        → IsReady c w
        → Yields
            (λ s w'. IsReached g pop slab q.table uva writable addr len s w' × IsReady c w')
            NotStuck
            (translate g q.table uva writable addr len w)
    reach uva writable addr len c w h =
        weaken (translate g q.table uva writable addr len w)
          (with_world {K = IsReady c} (translate g q.table uva writable addr len w)
            (translate_lem g pop slab q.table uva writable addr len w bound)
            (translate-stays g (IsReady c) (IsReady-stays c) q.table uva writable addr len w h))
          (λ s w' r. r) not_stuck

    -- A chain that is ready, and has at most `n` slices.
    abbrev Holds : ℕ → Chain → W → Type 0
    Holds n c w = IsReady c w × (segments c ≤ n)

    with_segment-Holds :
        (c : Chain) (d : VringDesc) (s : Segment) (w : W) (n : ℕ)
        → Holds n c w
        → IsUsable (is_writable d) w s
        → Holds (n + 1) (with_segment c d s) w
    with_segment-Holds c d s w n h u = elim (Bool-cases (is_writable d)) [
      | inl a ↦ rw a (
        record {
          readable = h.0.readable;
          writable = All-snoc true w c.write_segs s h.0.writable (rw⁻¹ a u);
        },
        omega (arith, h.1, length-append c.write_segs (s ∷ [])),
      )
      | inr a ↦ rw a (
        record {
          readable = All-snoc false w c.read_segs s h.0.readable (rw⁻¹ a u);
          writable = h.0.writable;
        },
        omega (arith, h.1, length-append c.read_segs (s ∷ [])),
      )
    ]

    append_seg-Holds :
        (c : Chain) (d : VringDesc) (w : W) (n : ℕ)
        → Holds n c w
        → Yields (Holds (n + 1)) NotStuck (append_seg g q c d w)
    unfolding append_seg
    append_seg-Holds c d w n h = elim (Bool-cases (d.len == 0)) [
      | inl z ↦ rw z (yields (h.0, omega (arith, h.1)))
      | inr z ↦ simp z (
          >>=-Yields (translate g q.table false (is_writable d) d.addr d.len)
            (λ s. pure (with_segment c d s)) w (reach false (is_writable d) d.addr d.len c w h.0)
            (λ s w' r. yields (
              with_segment-Holds c d s w' n (r.1, h.1)
                (record {
                  inside = r.0.in_slab;
                  not_empty =
                      ground (
                        arith,
                        z,
                        maps_to-length false d.addr d.len s q.table.regions r.0.at_region,
                      );
                  loaded = r.0.loaded;
                  marked = r.0.marked;
                }))))
    ]

    read_desc-Holds :
        (c : Chain) (idx : ℕ) (w : W) (n : ℕ)
        → Holds n c w
        → Yields (λ d w'. Holds n c w') NotStuck (read_desc g q idx w)
    unfolding read_desc translate_uva
    read_desc-Holds c idx w n h = elim (Bool-cases (ltb (max_uint64 - q.desc_addr) (idx * 16))) [
      | inl a ↦ rw a (fails (ground arith))
      | inr a ↦ rw a (
          >>=-Yields (translate_uva g q.table (q.desc_addr + idx * 16) 16)
            (λ s. ask (g.load s.at 16) >>= λ b. pure (desc_of b)) w
            (reach true false (q.desc_addr + idx * 16) 16 c w h.0)
            (λ s w' r.
              yields (IsReady-stays c w' (g.load s.at 16 w').1 (by_load s.at 16) r.1, h.1)))
    ]

    table_loop-Holds :
        (k at : ℕ) (c : Chain) (w : W) (n : ℕ)
        → Holds n c w
        → Yields (Holds (n + k)) NotStuck (table_loop g k q at c w)
    unfolding table_loop
    table_loop-Holds zero at c w n h = yields (h.0, omega (arith, h.1))
    table_loop-Holds (suc k) at c w n h =
        let b = (g.load at 16 w).0 in
        let w1 = (g.load at 16 w).1 in
        >>=-Yields (append_seg g q c (desc_of b)) (λ c'. table_loop g k q (at + 16) c') w1
          (append_seg-Holds c (desc_of b) w1 n (IsReady-stays c w w1 (by_load at 16) h.0, h.1))
          (λ c' w' h'.
            weaken (table_loop g k q (at + 16) c' w')
              (table_loop-Holds k (at + 16) c' w' (n + 1) h')
              (λ c'' w'' h''. (h''.0, omega (arith, h''.1))) (λ e w'' s. s))

    add_desc-Holds :
        (d : VringDesc) (count : ℕ) (c : Chain) (w : W)
        → Holds count c w
        → count < q.num
        → Yields
            (λ r w'. Holds r.0 r.1 w' × (count < r.0) × (r.0 ≤ q.num))
            NotStuck
            (add_desc g q d count c w)
    unfolding add_desc translate_gpa
    add_desc-Holds d count c w h room =
        let n = d.len / 16 in
        elim (Bool-cases (is_indirect d)) [
          | inr a ↦ rw a (
              >>=-Yields (append_seg g q c d) (λ c'. pure (count + 1, c')) w
                (append_seg-Holds c d w count h)
                (λ c' w' h'. yields (h', omega arith, omega (arith, room))))
          | inl a ↦ elim (Bool-cases (n == 0 || not (d.len % 16 == 0) || ltb (q.num - count) n)) [
            | inl b ↦ rw (a, b) (fails (ground arith))
            | inr b ↦
                rw (a, b)
                  (>>=-Yields (translate_gpa g q.table d.addr (n * 16))
                    (λ s. table_loop g n q s.at c >>= λ c'. pure (count + n, c')) w
                    (reach false false d.addr (n * 16) c w h.0)
                    (λ s w' r.
                      >>=-Yields (table_loop g n q s.at c) (λ c'. pure (count + n, c')) w'
                        (table_loop-Holds n s.at c w' count (r.1, h.1))
                        (λ c' w'' h'. yields (h', ground (arith, b), ground (arith, b, room)))))
          ]
        ]

    walk_loop-Holds :
        (n idx count : ℕ) (c : Chain) (w : W)
        → q.num < count + n
        → count ≤ q.num
        → Holds count c w
        → Yields (Holds q.num) NotStuck (walk_loop g n q idx count c w)
    unfolding walk_loop
    walk_loop-Holds zero idx count c w enough below h = absurd (omega (arith, enough, below))
    walk_loop-Holds (suc n) idx count c w enough below h =
        let next : ℕ × Chain → VringDesc → Run W Chain =
          λ r d. if has_next d then walk_loop g n q d.next r.0 r.1 else pure r.1 in
        elim (Bool-cases (leb q.num count || leb q.num idx)) [
          | inl a ↦ rw a (fails (ground arith))
          | inr a ↦ rw a (
              >>=-Yields (read_desc g q idx) (λ d. add_desc g q d count c >>= λ r. next r d) w
                (read_desc-Holds c idx w count h)
                (λ d w' h'.
                  >>=-Yields (add_desc g q d count c) (λ r. next r d) w'
                    (add_desc-Holds d count c w' h' (ground (arith, a)))
                    (λ r w'' h''. elim (Bool-cases (has_next d)) [
                      | inl b ↦ rw b (
                          walk_loop-Holds n d.next r.0 r.1 w'' (omega (arith, enough, h''.1)) h''.2
                            h''.0)
                      | inr b ↦ rw b (yields (h''.0.0, omega (arith, h''.0.1, h''.2)))
                    ])))
        ]

    -- The walk ends within its turns, whatever the guest writes into the ring. A chain that it
    -- accepts has at most `num` slices, none of them empty; each lies in the slab, and its range has
    -- been accepted by EnsureLoaded, and by MarkDirty if the slice is for writing and marks are kept.
    pub walk_chain_lem :
        (head : ℕ) (w : W)
        → Yields (λ c w'. IsReady c w' × (segments c ≤ q.num)) NotStuck (walk_chain g q head w)
    unfolding walk_chain
    walk_chain_lem head w =
        walk_loop-Holds (suc q.num) head 0 empty_chain w (omega arith) (omega arith)
          (record { readable = tt; writable = tt }, omega arith)
