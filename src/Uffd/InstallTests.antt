-- ===== src/Uffd/InstallTests.antt =====
-- The theorems about the installations and releases of pkg/uffd at concrete inputs, and runs.
use sandboxer.Prelude.{
  ℕ, ◌+◌, ◌≡◌, ◌≢◌, none, List, [], ◌∷◌, false, arith, length, replicate, if◌then◌else◌,
}
use sandboxer.Uffd.State.{state_absent, state_released, get}
use sandboxer.Uffd.AddressMap.{
  AddressMap, new_address_map, process_ch, page_size, register_vma, bind_initial,
}
use sandboxer.Uffd.Install.{Ops, Handler, urgent_copy}
use sandboxer.Uffd.Tail.{TailTask, process_buffered_prefix}
use sandboxer.Uffd.Tail.Aligned.{Belongs, process_buffered_prefix-Belongs}
use sandboxer.Uffd.Install.Calls.{Logged, recording}
use sandboxer.Uffd.Release.{dispatch_release, handle_remove_locked, out_of_turns}
use sandboxer.Uffd.Release.Swept.{in_ranges, handle_remove_states}
use sandboxer.Uffd.Release.History.{Outcome, by_urgent, by_release}

-- A kernel that does all that it is asked, and counts the pages that it copied.
abbrev kernel : Ops ℕ
kernel = record {
  copy = λ fd dst bytes w. record { completed = length bytes; error = none; world = w + 1 };
  zeropage = λ fd dst len w. record { completed = len; error = none; world = w };
  wake = λ fd start len w. w;
  mark = λ off len w. (false, w);
}

-- CloudHypervisor maps three pages; the first is Loaded, the others are Absent.
abbrev first_map : AddressMap
first_map = (bind_initial (register_vma (new_address_map 12288) process_ch 4096 12288 0).1 7).1

abbrev started : Handler
started = record {
  addresses = first_map;
  pages = record { pages = 1 ∷ 0 ∷ 0 ∷ [] };
  canceled = false;
  tracks_dirty = false;
}

abbrev source_page : List ℕ
source_page = replicate page_size 9

handle_remove_states_example :
    let r = handle_remove_locked kernel started 7 4096 12288 0 in
    (get r.pages 1 ≡ (if in_ranges 1 r.ranges then state_released else get started.pages 1))
    × (length r.pages.pages ≡ 3)
    × (r.ending ≢ out_of_turns)
handle_remove_states_example = handle_remove_states kernel started 7 4096 12288 0 1 (omega arith)

-- The guest gives page 0 back, then a worker copies to it.
abbrev given_back : Outcome kernel
given_back = by_release kernel started (dispatch_release kernel false started 7 4096 8192 0)

abbrev stale_copy : Outcome kernel
stale_copy = by_urgent kernel given_back.1 (
    urgent_copy (recording kernel) given_back.1 7 4096 0 state_absent source_page
      (given_back.2, []))

-- Page 1 has faulted; the tail of its chunk covers pages 0 and 2.
abbrev tail_task : TailTask
tail_task = record {
  fd = 7;
  dst_va = 12288;
  page_idx = 2;
  start = 8192;
  end = 12288;
  buffer_start = 0;
  prefix_start = 0;
  expected = state_absent;
}

abbrev tail_handler : Handler
tail_handler = record started { pages = record { pages = 0 ∷ 1 ∷ 0 ∷ [] } }

abbrev chunk_bytes : List ℕ
chunk_bytes = replicate 12288 9

process_buffered_prefix-Belongs_example :
    Logged kernel
      (Belongs tail_task chunk_bytes 5)
      (process_buffered_prefix
        (recording kernel)
        tail_handler.pages
        tail_handler
        tail_task
        chunk_bytes
        4096
        (0, [])).2
process_buffered_prefix-Belongs_example =
    process_buffered_prefix-Belongs kernel tail_task chunk_bytes 5 tail_handler.pages tail_handler
      4096 (0, []) (omega arith) tt
