-- ===== src/Vhost/Queue/Posted.antt =====
-- What one turn of processQueue (pkg/vhost/worker.go) leaves in the used ring.
use sandboxer.Prelude.{
  ℕ, ◌+◌, ◌*◌, ◌-◌, ◌%◌, ◌^◌, ◌≡◌, refl, sym, ap, List, ◌++◌, Bool, true, false, arith, inl, inr,
  Bool-cases, Option-cases, not, ltb,
}
use sandboxer.Prelude.LittleEndian.{le, le_at}
use sandboxer.Vhost.{
  Fault, terminal, Result, ok, failed, Run, pure, ◌>>=◌, ◌>>◌, guard, ask, World, plain, misaligned,
  overflow,
}
use sandboxer.Vhost.Memory.{Segment, max_uint64, writable_uva}
use sandboxer.Vhost.Chain.{Virtq}
use sandboxer.Vhost.Request.{process_chain}
use sandboxer.Vhost.Queue.{is_bad_header, written, ends_queue, publish_used, complete}

-- What publishUsed has done to the used ring, from world `w` to `w'`: the element at the ring's index,
-- modulo the ring's size, is stored first, then the index is stored one higher, beside its flags.
pub record Posted {W : Type 0} (g : World W) (q : Virtq) (desc len : ℕ) (w w' : W) : Type 0 where
  pub ring : Segment
  pub slot : Segment
  pub index : ℕ
  pub ring_at : (writable_uva g q.table q.used_addr 4 w).0 ≡ ok ring
  pub read : W
  pub word : List ℕ
  pub word_is : g.load ring.at 4 (writable_uva g q.table q.used_addr 4 w).1 ≡ (word, read)
  pub index_is : index ≡ le_at 2 2 word
  pub slot_at :
      (writable_uva g q.table (q.used_addr + (4 + index % (q.num % 2 ^ 16) * 8)) 8 read).0 ≡ ok slot
  pub stores :
      w'
      ≡ g.store ring.at (le 2 (le_at 0 2 word) ++ le 2 ((index + 1) % 2 ^ 16)) (
          g.store slot.at
            (le 4 desc ++ le 4 len)
            (writable_uva g q.table (q.used_addr + (4 + index % (q.num % 2 ^ 16) * 8)) 8 read).1)

-- A chain of runs that succeeds does so at its first run.
bind_ok :
    {W A B : Type 0} (r : Result A × W) (f : A → Run W B) (b : B) (w' : W)
    → (elim r.0 as (λ x. Result B × W) [ ok a ↦ f a r.1 | failed e ↦ (failed e, r.1) ]) ≡ (ok b, w')
    → (a : A) × (r.0 ≡ ok a) × (f a r.1 ≡ (ok b, w'))
bind_ok (ok a, w) f b w' h = (a, refl, h)
bind_ok (failed e, w) f b w' h = absurd (let q = ap (λ o. o.0) h in cc)

guard-ok :
    {W B : Type 0} (t : Bool) (e : Fault) (k : Run W B) (w : W) (b : B) (w' : W)
    → (guard t e >> k) w ≡ (ok b, w')
    → k w ≡ (ok b, w')
guard-ok true e k w b w' h = h
guard-ok false e k w b w' h = absurd (let q = ap (λ o. o.0) h in cc)

module _ {W : Type 0} (g : World W) (q : Virtq) where
  publish_used-Posted :
      (desc len : ℕ) (u : Unit {0}) (w w' : W)
      → publish_used g q desc len w ≡ (ok u, w')
      → Posted g q desc len w w'
  unfolding publish_used
  publish_used-Posted desc len u w w' h =
      let found = writable_uva g q.table q.used_addr 4 w in
      let off : List ℕ → ℕ = λ word. 4 + le_at 2 2 word % (q.num % 2 ^ 16) * 8 in
      let store_both : Segment → List ℕ → Segment → Run W (Unit {0}) = λ s word e. (do
        ask (λ v. (tt, g.store e.at (le 4 desc ++ le 4 len) v))
        ask (λ v. (
          tt,
          g.store s.at (le 2 (le_at 0 2 word) ++ le 2 ((le_at 2 2 word + 1) % 2 ^ 16)) v,
        ))) in
      let to_slot : Segment → List ℕ → Run W (Unit {0}) =
        λ s word. (do e ← writable_uva g q.table (q.used_addr + off word) 8; store_both s word e) in
      let on_word : Segment → Run W (Unit {0}) = λ s. (do
        word ← ask (g.load s.at 4)
        guard (not (ltb (max_uint64 - q.used_addr) (off word))) (terminal overflow)
        to_slot s word) in
      let on_ring : Segment → Run W (Unit {0}) =
        λ s. (do guard (not (is_bad_header s q.used_addr 4)) (plain misaligned); on_word s) in
      let (ring, ring_at, h1) = bind_ok found on_ring u w' h in
      let h2 =
        guard-ok (not (is_bad_header ring q.used_addr 4)) (plain misaligned) (on_word ring) found.1
          u w' h1 in
      let word = g.load ring.at 4 found.1 in
      let h3 =
        guard-ok (not (ltb (max_uint64 - q.used_addr) (off word.0))) (terminal overflow)
          (to_slot ring word.0) word.1 u w' h2 in
      let (slot, slot_at, h4) =
        bind_ok (writable_uva g q.table (q.used_addr + off word.0) 8 word.1)
          (store_both ring word.0) u w' h3 in
      record {
        ring = ring;
        slot = slot;
        index = le_at 2 2 word.0;
        ring_at = ring_at;
        read = word.1;
        word = word.0;
        word_is = refl;
        index_is = refl;
        slot_at = slot_at;
        stores = sym (ap (λ o. o.1) h4);
      }

  pub complete-Posted :
      (desc len : ℕ) (w w' : W)
      → complete g q desc w ≡ (ok len, w')
      → let r = process_chain g q desc w in
        (len ≡ written g r.0 % 2 ^ 32)
        × ((g.stopped r.1).0 ≡ false)
        × Posted g q desc len (g.stopped r.1).1 w'
  unfolding complete
  complete-Posted desc len w w' h =
      let r = process_chain g q desc w in
      let out = written g r.0 % 2 ^ 32 in
      elim (Option-cases (ends_queue g r.0)) [
        | inr (e, over) ↦
            let h' = rw (complete, over) at h in absurd (let x = ap (λ o. o.0) h' in cc)
        | inl goes ↦
            let h' = rw (complete, goes) at h in
            elim (Bool-cases (g.stopped r.1).0) [
              | inl a ↦ let h'' = rw a at h' in absurd (let x = ap (λ o. o.0) h'' in cc)
              | inr a ↦
                  let h'' = rw a at h' in
                  let (u, e, last) =
                    bind_ok (publish_used g q desc out (g.stopped r.1).1) (λ _. pure out) len w'
                      h'' in
                  let same : out ≡ len = ground (arith, ap (λ o. o.0) last) in
                  (
                    sym same,
                    a,
                    rw (← same) (
                        publish_used-Posted desc out u (g.stopped r.1).1 w'
                          (ground (arith, e, last))),
                  )
            ]
      ]
