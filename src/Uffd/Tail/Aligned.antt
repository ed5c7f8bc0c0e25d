-- ===== src/Uffd/Tail/Aligned.antt =====
-- Where a tail of pkg/uffd/fault.go puts the bytes of its buffer.
use sandboxer.Prelude.{
  ℕ, zero, suc, ◌+◌, ◌-◌, ◌*◌, ◌/◌, ◌≤◌, ◌<◌, ◌≡◌, refl, sym, ◌∙◌, ap, some, List, [], ◌∷◌, ltb,
  ◌==◌, if◌then◌else◌, length, get_or, take, drop, replicate, length-take, arith, ◌⊎◌, inl, inr,
  lt_or_le, Bool-cases, Option-cases,
}
use sandboxer.Uffd.State.{PageStateMap, run_length}
use sandboxer.Uffd.State.Runs.{run_bounds_ordered}
use sandboxer.Uffd.AddressMap.{page_size, sub_wrap}
use sandboxer.Uffd.Install.{Ops, Handler}
use sandboxer.Uffd.Install.Calls.{Call, recording, Logged, execute_tail_io-Logged}
use sandboxer.Uffd.Tail.{
  TailTask, buffered_tail_data, prefix_task, run_buffered, process_buffered_suffix,
  process_buffered_prefix,
}

get_or-take :
    (n k : ℕ) (xs : List ℕ) → k < length (take n xs) → get_or (take n xs) k 0 ≡ get_or xs k 0
get_or-take zero k xs h = absurd (omega arith)
get_or-take (suc n) k [] h = absurd (omega arith)
get_or-take (suc n) zero (x ∷ xs) h = refl
get_or-take (suc n) (suc k) (x ∷ xs) h = get_or-take n k xs (omega arith)

get_or-drop : (n k : ℕ) (xs : List ℕ) → get_or (drop n xs) k 0 ≡ get_or xs (n + k) 0
get_or-drop zero k xs = ap (λ j. get_or xs j 0) (omega arith)
get_or-drop (suc n) k [] = ground arith
get_or-drop (suc n) k (x ∷ xs) =
    get_or-drop n k xs ∙ ap (λ j. get_or (x ∷ xs) j 0) {x = suc (n + k)} (omega arith)

-- Byte `k` of a COPY to `dst` is the byte of the buffer that belongs to its address, or the COPY is
-- of zeroes. Address t.dst_va belongs to t.start, and the buffer begins at t.buffer_start.
pub data Belongs (t : TailTask) (buf : List ℕ) (k fd dst : ℕ) (bytes : List ℕ) : Type 0 where
  of_buffer :
      (length bytes ≤ k)
        ⊎ (get_or bytes k 0 ≡ get_or buf (dst + t.start - t.dst_va + k - t.buffer_start) 0)
      → Belongs t buf k fd dst bytes
  of_zeroes : (n : ℕ) → bytes ≡ replicate n 0 → Belongs t buf k fd dst bytes

tail_bytes :
    (buf bytes : List ℕ) (buffer_start start end n k : ℕ)
    → buffered_tail_data buf buffer_start start end ≡ some bytes
    → (length (take n bytes) ≤ k)
      ⊎ ((buffer_start ≤ start)
          × (get_or (take n bytes) k 0 ≡ get_or buf (start + k - buffer_start) 0))
unfolding buffered_tail_data
tail_bytes buf bytes buffer_start start end n k h =
    let rest = drop (start - buffer_start) buf in
    let e : take (end - start) rest ≡ bytes = ground (arith, h) in
    let low : buffer_start ≤ start = ground (arith, h) in
    elim (lt_or_le k (length (take n bytes))) [
      | inr out ↦ inl out
      | inl at ↦
          let at_bytes : k < length (take (end - start) rest) =
            rw e (omega (arith, at, length-take n bytes)) in
          inr (
            low,
            get_or-take n k bytes at
                ∙ ap (λ b. get_or b k 0) (sym e)
                ∙ get_or-take (end - start) k rest at_bytes
                ∙ get_or-drop (start - buffer_start) k buf
                ∙ ap (λ j. get_or buf j 0) {x = start - buffer_start + k} (omega (arith, low)),
          )
    ]

module _ {W : Type 0} (ops : Ops W) (t : TailTask) (buf : List ℕ) (k : ℕ) where
  run_buffered-Belongs :
      (h : Handler) (p : TailTask) (len : ℕ) (s : W × List Call)
      → p.dst_va + t.start ≡ p.start + t.dst_va
      → p.buffer_start ≡ t.buffer_start
      → Logged ops (Belongs t buf k) s
      → Logged ops (Belongs t buf k) (run_buffered (recording ops) h p buf len s).2
  unfolding run_buffered
  run_buffered-Belongs h p len s same base l =
      elim (Option-cases (buffered_tail_data buf p.buffer_start p.start (p.start + len))) [
        | inl none_left ↦ rw (run_buffered, none_left) l
        | inr (bytes, e) ↦
            rw (run_buffered, e)
              (execute_tail_io-Logged ops (Belongs t buf k) (λ fd dst n. of_zeroes n refl) h p.fd
                p.dst_va p.page_idx p.expected (some bytes) len s
                (λ b same_bytes owned.
                  elim (tail_bytes buf b p.buffer_start p.start (p.start + len)
                    (run_length h.pages p.page_idx (len / page_size) p.expected * page_size) k
                    (e ∙ same_bytes)) [
                      | inl out ↦ of_buffer (inl out)
                      | inr (low, byte) ↦ of_buffer (
                          inr (
                            byte
                            ∙ ap (λ j. get_or buf j 0) {x = p.start + k - p.buffer_start}
                                (omega (arith, same, base))))
                    ])
                l)
      ]

  -- Each byte that a suffix hands to COPY is the byte of the buffer that belongs to its address, or
  -- it belongs to a COPY of zeroes.
  pub process_buffered_suffix-Belongs :
      (seen : PageStateMap) (h : Handler) (s : W × List Call)
      → Logged ops (Belongs t buf k) s
      → Logged ops (Belongs t buf k) (process_buffered_suffix (recording ops) seen h t buf s).2
  unfolding process_buffered_suffix
  process_buffered_suffix-Belongs seen h s l =
      let length = t.end - t.start in
      let pages = run_length seen t.page_idx (length / page_size) t.expected in
      let len = if ltb pages (length / page_size) then pages * page_size else length in
      let done = run_buffered-Belongs h t len s (omega arith) refl l in
      elim (Bool-cases (length == 0)) [
        | inl a ↦ rw a l
        | inr a ↦ elim (Bool-cases (pages == 0)) [ inl b ↦ rw (a, b) l | inr b ↦ rw (a, b) done ]
      ]

  prefix_task-same :
      (seen : PageStateMap) (fault : ℕ) (p : TailTask)
      → fault + page_size ≡ t.start
      → prefix_task seen t fault ≡ some p
      → (p.dst_va + t.start ≡ p.start + t.dst_va) × (p.buffer_start ≡ t.buffer_start)
  unfolding prefix_task
  prefix_task-same seen fault p at e =
      let page = fault / page_size in
      let low = t.prefix_start / page_size in
      ground (arith, at, e, run_bounds_ordered seen (sub_wrap page 1) low page t.expected)

  -- Where a tail begins one page after the fault's page, each byte that its prefix hands to COPY is the
  -- byte of the buffer that belongs to its address, by the same distance between addresses and offsets
  -- as the tail's own, or it belongs to a COPY of zeroes.
  pub process_buffered_prefix-Belongs :
      (seen : PageStateMap) (h : Handler) (fault : ℕ) (s : W × List Call)
      → fault + page_size ≡ t.start
      → Logged ops (Belongs t buf k) s
      → Logged ops
          (Belongs t buf k)
          (process_buffered_prefix (recording ops) seen h t buf fault s).2
  unfolding process_buffered_prefix
  process_buffered_prefix-Belongs seen h fault s at l =
      elim (Bool-cases (fault == t.prefix_start)) [
        | inl a ↦ rw a l
        | inr a ↦ elim (Option-cases (prefix_task seen t fault)) [
          | inl b ↦ rw (process_buffered_prefix, a, b) l
          | inr (p, b) ↦
              let same = prefix_task-same seen fault p at b in
              rw (process_buffered_prefix, a, b)
                (run_buffered-Belongs h p (p.end - p.start) s same.0 same.1 l)
        ]
      ]
