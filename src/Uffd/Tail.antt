-- ===== src/Uffd/Tail.antt =====
-- The tails of pkg/uffd/fault.go, which populate the neighbours of a fault's page. A tail looks at
-- the page states without installMu, as `seen`, and installs later, by the handler of that moment.
pub mod Aligned
use sandboxer.Prelude.{
  ℕ, ◌+◌, ◌-◌, ◌*◌, ◌/◌, ◌%◌, ◌^◌, Option, none, some, List, Bool, true, false, ltb, leb, ◌==◌,
  if◌then◌else◌, ◌||◌, ◌&&◌, not, length, take, drop, min,
}
use sandboxer.Uffd.State.{PageStateMap, run_length, run_bounds}
use sandboxer.Uffd.AddressMap.{page_size, sub_wrap}
use sandboxer.Uffd.Install.{Ops, Handler, Tail, none_done, execute_tail_io}

pub record TailTask : Type 0 where
  pub fd : ℕ
  pub dst_va : ℕ
  pub page_idx : ℕ
  pub start : ℕ
  pub end : ℕ
  pub buffer_start : ℕ
  pub prefix_start : ℕ
  pub expected : ℕ

abbrev pub neighbor_tail_bytes : ℕ
neighbor_tail_bytes = 64 * 1024 - page_size

-- The length that processTail plans for deferred data and for zeroes; none where there is nothing.
unfoldable pub plan_tail : PageStateMap → TailTask → Option ℕ
plan_tail seen t =
    let pages =
      run_length seen t.page_idx
        (min ((t.end - t.start) / page_size) (neighbor_tail_bytes / page_size)) t.expected in
    if pages == 0 then none else some (pages * page_size)

-- After the source has been read: what is still as expected of the length that was planned.
unfoldable pub replan_tail : PageStateMap → TailTask → ℕ → Option ℕ
replan_tail seen t length =
    let pages = run_length seen t.page_idx (length / page_size) t.expected in
    if pages == 0 then none else some (min length (pages * page_size))

unfoldable pub buffered_tail_data : List ℕ → ℕ → ℕ → ℕ → Option (List ℕ)
buffered_tail_data buf buffer_start start end =
    if ltb start buffer_start || ltb end start || ltb (length buf) (end - buffer_start)
    then none
    else some (take (end - start) (drop (start - buffer_start) buf))

-- The tests of processBufferedTail, and the offset of the fault.
unfoldable pub buffered_fault_offset : ℕ → TailTask → Option ℕ
buffered_fault_offset most t =
    let fault = t.start - page_size in
    if ltb t.start page_size || ltb t.end t.start
    then none
    else if ltb t.prefix_start t.buffer_start || ltb fault t.prefix_start
    then none
    else if ltb most (fault - t.prefix_start)
        || ltb (most - (fault - t.prefix_start)) (t.end - t.start)
    then none
    else some fault

-- The part before the fault as a task of its own; none where processBufferedPrefix stops.
unfoldable pub prefix_task : PageStateMap → TailTask → ℕ → Option TailTask
prefix_task seen t fault =
    let page = fault / page_size in
    let b = run_bounds seen (sub_wrap page 1) (t.prefix_start / page_size) page t.expected in
    let start = b.0 * page_size in
    if b.0 == b.1 || not (b.1 == page)
    then none
    else if ltb t.dst_va page_size || ltb (t.dst_va - page_size) (fault - start)
    then none
    else some (record t {
      dst_va = t.dst_va - page_size - (fault - start);
      page_idx = b.0;
      start = start;
      end = fault;
    })

module _ {W : Type 0} (ops : Ops W) where
  -- executeTailIO on `length` bytes from the buffer: whether it was full.
  unfoldable pub run_buffered : Handler → TailTask → List ℕ → ℕ → W → Bool × PageStateMap × W
  run_buffered h t buf length w =
      elim (buffered_tail_data buf t.buffer_start t.start (t.start + length)) [
        | none ↦ (false, h.pages, w)
        | some bytes ↦
            let r =
              execute_tail_io ops h t.fd t.dst_va t.page_idx t.expected (some bytes) length w in
            (r.1, r.2, r.3)
      ]

  -- processBufferedSuffix: whether the prefix may follow.
  unfoldable pub process_buffered_suffix :
      PageStateMap → Handler → TailTask → List ℕ → W → Bool × PageStateMap × W
  process_buffered_suffix seen h t buf w =
      let length = t.end - t.start in
      let pages = run_length seen t.page_idx (length / page_size) t.expected in
      let changed = ltb pages (length / page_size) in
      let r = run_buffered h t buf (if changed then pages * page_size else length) w in
      if length == 0
      then (true, h.pages, w)
      else if pages == 0
      then (false, h.pages, w)
      else (r.0 && not changed, r.1, r.2)

  unfoldable pub process_buffered_prefix :
      PageStateMap → Handler → TailTask → List ℕ → ℕ → W → Bool × PageStateMap × W
  process_buffered_prefix seen h t buf fault w =
      if fault == t.prefix_start then (true, h.pages, w) else elim (prefix_task seen t fault) [
        | none ↦ (false, h.pages, w)
        | some p ↦ run_buffered h p buf (p.end - p.start) w
      ]
