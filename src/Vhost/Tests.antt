-- ===== src/Vhost/Tests.antt =====
-- The theorems about pkg/vhost at concrete inputs, and runs of its functions.
use sandboxer.Prelude.{
  ℕ, ◌+◌, ◌≤◌, ◌≡◌, refl, none, some, List, [], ◌∷◌, ◌++◌, true, false, length, take, drop,
  replicate, length-replicate, All, arith,
}
use sandboxer.Prelude.LittleEndian.{le}
use sandboxer.Vhost.{World, ok}
use sandboxer.Vhost.Laws.{Yields}
use sandboxer.Vhost.Memory.{
  MemRegion, no_segment, translate, translate_uva, open_region, regions_of, parse_set_mem_table,
  bind_regions,
}
use sandboxer.Vhost.Memory.Translate.{IsBound}
use sandboxer.Vhost.Memory.Wire.{wires, parse_set_mem_table-wires, bind_regions-IsBound}
use sandboxer.Vhost.Chain.{Virtq, Chain, walk_chain, walk_loop, read_desc, add_desc, append_seg}
use sandboxer.Vhost.Chain.Walk.{segments, NotStuck, IsReady}
use sandboxer.Vhost.Chain.Noted.{noting, noting-IsPopulating, walk_chain-IsReady}
use sandboxer.Vhost.Request.{serve_chain, read_payload}
use sandboxer.Vhost.Request.Windows.{lengths}
use sandboxer.Vhost.Request.Safe.{FillsBuffer}
use sandboxer.Vhost.Request.Served.{Performs, serve_chain-Performs}
use sandboxer.Vhost.Request.Counted.{Counts, read_payload-Counts}

-- One region: guest address 4096, at 64 of a slab of 192 bytes.
abbrev region : MemRegion
region = record {
  guest_phys_addr = 4096;
  memory_size = 128;
  userspace_addr = 8192;
  mmap_offset = 64;
  mapped = no_segment;
}

parse_set_mem_table-wires_example :
    parse_set_mem_table (le 4 1 ++ le 4 5 ++ wires (region ∷ []) ++ (1 ∷ 2 ∷ [])) 1
    ≡ regions_of (region ∷ [])
parse_set_mem_table-wires_example =
    parse_set_mem_table-wires (region ∷ []) 5 (1 ∷ 2 ∷ [])
      ((omega arith, omega arith, omega arith, omega arith, refl), tt) (omega arith)

bind_succeeds : (bind_regions (region ∷ []) (some 3 ∷ []) 3 192).0 ≡ none
unfolding bind_regions
bind_succeeds = refl

bind_regions-IsBound_example : All (IsBound 192) (bind_regions (region ∷ []) (some 3 ∷ []) 3 192).1
bind_regions-IsBound_example = bind_regions-IsBound (region ∷ []) (some 3 ∷ []) 3 192 bind_succeeds

-- The slab.
abbrev State : Type 0
State = List ℕ

abbrev host : World State
host = record {
  context_error = λ w. (false, w);
  stopped = λ w. (false, w);
  ensure_loaded = λ at len w. (false, w);
  mark_dirty = λ at len w. (false, w);
  load = λ at len w. (take len (drop at w), w);
  store = λ at bytes w. take at w ++ bytes ++ drop (at + length bytes) w;
  size = 1024;
  is_read_only = false;
  supports_discard = true;
  read_at = λ off len w. record { count = len; bytes = replicate len 170; error = none; world = w };
  write_at = λ bytes off w. record { count = length bytes; bytes = bytes; error = none; world = w };
  flush = λ w. (false, w);
  discard = λ off len w. (false, w);
}

host-FillsBuffer : FillsBuffer host
host-FillsBuffer = record { fills = λ off len w. length-replicate {A = ℕ} len 170 }

-- A ring of four descriptors at the start of the region; 0 is the header, 1 the data.
abbrev ring : List ℕ
ring =
    le 8 4160
    ++ le 4 16
    ++ le 2 1
    ++ le 2 1
    ++ le 8 4176
    ++ le 4 17
    ++ le 2 2
    ++ le 2 0
    ++ replicate 32 0

abbrev slab_bytes : List ℕ
slab_bytes = replicate 64 0 ++ ring ++ replicate 64 0

abbrev started : State
started = slab_bytes

abbrev bound_region : MemRegion
bound_region = record region { mapped = record { at = 64; len = 128; cap = 128 } }

abbrev queue : Virtq
queue = record {
  num = 4;
  desc_addr = 8192;
  avail_addr = 0;
  used_addr = 0;
  table = record { regions = bound_region ∷ []; is_bound = true; tracks_dirty = true };
  allows_discard = true;
}

walk_chain-IsReady_example :
    Yields
      (λ c w. IsReady (noting host) (noting-IsPopulating host) 192 queue c w × (segments c ≤ 4))
      NotStuck
      (walk_chain (noting host) queue 0 (started, ([], [])))
walk_chain-IsReady_example =
    walk_chain-IsReady host 192 queue
      (record { starts = refl; covers = refl; inside = omega arith }, tt) 0 started

abbrev walked : Chain
walked = record {
  read_segs = record { at = 128; len = 16; cap = 64 } ∷ [];
  write_segs = record { at = 144; len = 17; cap = 48 } ∷ [];
}

walk_chain-walked : (walk_chain host queue 0 started).0 ≡ ok walked
unfolding walk_chain walk_loop read_desc add_desc append_seg translate translate_uva open_region
walk_chain-walked = refl

serve_chain-Performs_example :
    Performs host walked.write_segs started (serve_chain host queue walked started).1
serve_chain-Performs_example =
    serve_chain-Performs host queue walked started host-FillsBuffer (omega arith, tt)

read_payload-Counts_example :
    Yields
      (Counts (lengths walked.write_segs))
      NotStuck
      (read_payload host 1 walked.write_segs started)
read_payload-Counts_example = read_payload-Counts host 1 walked.write_segs started
