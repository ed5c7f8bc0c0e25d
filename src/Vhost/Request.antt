-- ===== src/Vhost/Request.antt =====
-- One block request of pkg/vhost: read.go, discard.go and processChain of worker.go. Statistics and
-- log lines are left out; `size` is what the backend of the request says.
pub mod Windows
pub mod Safe
pub mod Served
pub mod Counted
use sandboxer.Prelude.{
  ℕ, zero, suc, ◌+◌, ◌-◌, ◌*◌, ◌/◌, ◌%◌, ◌^◌, Option, none, some, List, [], ◌∷◌, ◌++◌, Bool, true,
  false, ltb, leb, ◌==◌, if◌then◌else◌, ◌||◌, ◌&&◌, not, length, take, drop, min,
}
use sandboxer.Prelude.LittleEndian.{le_at}
use sandboxer.Vhost.{
  Cause, terminal, plain, canceled, missing_segment, short_header, source_failed, no_turns, Run,
  pure, fail, ◌>>=◌, ◌>>◌, guard, ask, World, IoReply, BackendError, ended, read_only, compatible,
  broken,
}
use sandboxer.Vhost.Blk.{
  sector_size, blk_type_in, blk_type_out, blk_type_flush, blk_type_discard, blk_status_ok,
  blk_status_io_err, blk_status_unsupp, BlkReqHeader, parse_blk_req_header,
}
use sandboxer.Vhost.Memory.{Segment, slice}
use sandboxer.Vhost.Chain.{Virtq, Chain, walk_chain}

abbrev pub max_read_window : ℕ
max_read_window = 2 ^ 20

abbrev pub min_direct_span : ℕ
min_direct_span = 256 * 1024

abbrev pub max_discard_sectors : ℕ
max_discard_sectors = 8192

abbrev pub max_int64 : ℕ
max_int64 = 2 ^ 63 - 1

-- The bytes of the complete sectors of a disk whose size is not negative.
abbrev pub disk_bytes : ℕ → ℕ
disk_bytes size = size / sector_size * sector_size

abbrev pub is_negative : ℕ → Bool
is_negative n = leb (2 ^ 63) n

-- The sum of the lengths, none above what used.len can hold.
pub total_length : ℕ → List Segment → Option ℕ
total_length total [] = some total
total_length total (s ∷ ss) =
    let rest = total_length (total + s.len) ss in
    if ltb (min (2 ^ 32 - 2) (2 ^ 63 - 2) - total) s.len then none else rest

-- The loop of contiguousWindow: whether the slices follow each other from `at + pos` on.
pub follows : ℕ → ℕ → ℕ → List Segment → Bool
follows at pos length [] = false
follows at pos length (s ∷ ss) =
    let rest = follows at (pos + s.len) length ss in
    if not (at + pos == s.at) then false else if leb (length - pos) s.len then true else rest

unfoldable pub contiguous_window : List Segment → ℕ → Option Segment
unfolding follows
contiguous_window [] length = none
contiguous_window (s ∷ ss) length =
    let buf : Segment = record { at = s.at; len = length; cap = length } in
    if leb length s.len
    then some buf
    else if ltb s.cap length
    then none
    else if follows s.at s.len length ss
    then some buf
    else none

-- The window that one read fills: where it goes, if it needs no gathering, and its length.
unfoldable pub choose_window : List Segment → ℕ → Option Segment × ℕ
unfolding contiguous_window
choose_window [] length = (none, length)
choose_window (s ∷ ss) length = elim (contiguous_window (s ∷ ss) length) [
  | some buf ↦ (some buf, length)
  | none ↦
      if leb min_direct_span s.len && leb min_direct_span (length - s.len)
      then (some (record { at = s.at; len = s.len; cap = s.len }), s.len)
      else (none, length)
]

-- Past `n` bytes, where a window can end in the middle of a slice.
pub advance : ℕ → List Segment → List Segment
advance n [] = []
advance n (s ∷ ss) =
    let rest = advance (n - s.len) ss in
    if n == 0 then s ∷ ss else if ltb n s.len then slice s n (s.len - n) ∷ ss else rest

abbrev pub is_ended : Option BackendError → Bool
is_ended (some ended) = true
is_ended _ = false

abbrev pub is_one_byte : List Segment → Bool
is_one_byte (s ∷ []) = s.len == 1
is_one_byte _ = false

-- The readable slices without the header.
abbrev pub past_header : List Segment → List Segment
past_header [] = []
past_header (s ∷ ss) = slice s 16 (s.len - 16) ∷ ss

-- The writable slices without the status byte.
abbrev pub without_status : List Segment → List Segment
without_status [] = []
without_status (s ∷ []) = if s.len - 1 == 0 then [] else record s { len = s.len - 1 } ∷ []
without_status (s ∷ t ∷ ss) = s ∷ without_status (t ∷ ss)

abbrev pub status_at : List Segment → ℕ
status_at [] = 0
status_at (s ∷ []) = s.at + s.len - 1
status_at (s ∷ t ∷ ss) = status_at (t ∷ ss)

abbrev pub rest_of : List Segment → List Segment
rest_of [] = []
rest_of (s ∷ ss) = ss

abbrev pub lacks_ends : Chain → Bool
lacks_ends c = length c.read_segs == 0 || length c.write_segs == 0

abbrev pub first_of : List Segment → Segment
first_of [] = record { at = 0; len = 0; cap = 0 }
first_of (s ∷ ss) = s

-- Whether readWindow returns an error with a count of `n` bytes.
abbrev pub is_window_error : ℕ → ℕ → Option BackendError → Bool
is_window_error n length none = not (n == length)
is_window_error n length (some compatible) = not (n == length)
is_window_error n length (some e) = true

module _ {W : Type 0} (g : World W) where
  abbrev pub unless_stopped : Run W (Unit {0})
  unless_stopped = ask g.stopped >>= λ b. guard (not b) (terminal canceled)

  unfoldable pub scatter : List Segment → List ℕ → Run W (Unit {0})
  scatter [] bytes = pure tt
  scatter (s ∷ ss) bytes = if length bytes == 0 then pure tt else (do
    unless_stopped
    ask (λ w. (tt, g.store s.at (take s.len bytes) w))
    scatter ss (drop s.len bytes))

  -- readWindow after the backend's answer: the count, and whether an error is left.
  unfoldable pub settle_window :
      Option Segment → List Segment → ℕ → ℕ → List ℕ → Option BackendError → Run W (ℕ × Bool)
  unfolding scatter
  settle_window buf segs length n bytes error =
      if leb (2 ^ 63) n || ltb length n then pure (0, true) else (do
        elim buf [ some b ↦ pure tt | none ↦ scatter segs (take n bytes) ]
        pure (n, is_window_error n length error))

  -- The backend fills its buffer, which is guest memory unless it is gathered.
  abbrev pub fill : Option Segment → IoReply W → W
  fill none r = r.world
  fill (some b) r = g.store b.at r.bytes r.world

  -- readWindow.
  unfoldable pub read_window : ℕ → List Segment → ℕ → Run W (ℕ × Bool)
  read_window offset segs length w =
      let (buf, len) = choose_window segs length in
      let r = g.read_at offset len w in
      (do
        guard (not (is_ended r.error)) (terminal source_failed)
        unless_stopped
        settle_window buf segs len r.count r.bytes r.error)
        (fill buf r)

  -- The loop of readPayload: each turn that goes on has read one byte at least.
  unfoldable pub read_loop : ℕ → ℕ → List Segment → ℕ → ℕ → Run W (ℕ × Bool)
  unfolding advance
  read_loop zero offset segs done total =
      if ltb done total then fail (plain no_turns) else pure (done, false)
  read_loop (suc n) offset segs done total =
      if not (ltb done total) then pure (done, false) else (do
        unless_stopped
        r ← read_window (offset + done) segs (min (total - done) max_read_window)
        if r.1
            then pure (done + r.0, true)
            else read_loop n offset (advance r.0 segs) (done + r.0) total)

  -- readPayload: the bytes read, and whether it fails.
  unfoldable pub read_payload : ℕ → List Segment → Run W (ℕ × Bool)
  unfolding total_length
  read_payload sector segs = elim (total_length 0 segs) [
    | none ↦ pure (0, true)
    | some total ↦
        if ltb (max_int64 / sector_size) sector
          || is_negative g.size
          || ltb (disk_bytes g.size) (total + sector * sector_size)
        then pure (0, true)
        else read_loop total (sector * sector_size) segs 0 total
  ]

  -- The BlkTypeOut loop of processChain over the slices after the header: the status. The offset is
  -- an int64, kept as its 64-bit pattern.
  unfoldable pub write_payload : ℕ → List Segment → Run W ℕ
  write_payload offset [] = pure blk_status_ok
  write_payload offset (s ∷ ss) = do
    bytes ← ask (g.load s.at s.len)
    r ← ask (λ w. let r = g.write_at bytes offset w in (r, r.world))
    guard (not (is_ended r.error)) (terminal source_failed)
    unless_stopped
    elim r.error [
      | none ↦ write_payload ((offset + r.count) % 2 ^ 64) ss
      | some read_only ↦ pure blk_status_unsupp
      | some e ↦ pure blk_status_io_err
    ]

  -- The 16 bytes of a discard range, gathered from the slices; none when there are more.
  unfoldable pub gather_range : List ℕ → List Segment → Run W (Option (List ℕ))
  gather_range done [] = pure (some done)
  gather_range done (s ∷ ss) =
      if ltb (16 - length done) s.len
      then pure none
      else (do b ← ask (g.load s.at s.len); gather_range (done ++ b) ss)

  -- discardChain once the range is known.
  unfoldable pub discard_range : List ℕ → Run W ℕ
  discard_range range =
      let sector = le_at 0 8 range in
      let count = le_at 8 4 range in
      let flags = le_at 12 4 range in
      let capacity = g.size / sector_size in
      if not (flags == 0)
      then pure blk_status_unsupp
      else if ltb max_discard_sectors count || is_negative g.size
      then pure blk_status_io_err
      else if ltb capacity sector || ltb (capacity - sector) count
      then pure blk_status_io_err
      else (do
        bad ← ask (g.discard (sector * sector_size) (count * sector_size))
        pure (if bad then blk_status_io_err else blk_status_ok))

  unfoldable pub discard_chain : Chain → Run W ℕ
  unfolding gather_range discard_range
  discard_chain c = do
    found ← gather_range [] (past_header c.read_segs)
    elim found [
      | none ↦ pure blk_status_io_err
      | some range ↦
          if not (length range == 16) || not (is_one_byte c.write_segs)
          then pure blk_status_io_err
          else discard_range range
    ]

  -- The switch of processChain: the status, and the bytes of a read.
  unfoldable pub perform : Virtq → BlkReqHeader → Chain → Run W (ℕ × ℕ)
  perform q hdr c =
      if hdr.type == blk_type_in
      then (do
        r ← read_payload hdr.sector (without_status c.write_segs)
        pure (if r.1 then blk_status_io_err else blk_status_ok, r.0))
      else if hdr.type == blk_type_out
      then (do
        status ← write_payload (hdr.sector * sector_size % 2 ^ 64) (rest_of c.read_segs)
        pure (status, 0))
      else if hdr.type == blk_type_flush
      then (do bad ← ask g.flush; pure (if bad then blk_status_io_err else blk_status_ok, 0))
      else if hdr.type == blk_type_discard
          && q.allows_discard
          && not g.is_read_only
          && g.supports_discard
      then (do status ← discard_chain c; pure (status, 0))
      else pure (blk_status_unsupp, 0)

  -- processChain after walkChain.
  unfoldable pub serve_chain : Virtq → Chain → Run W ℕ
  serve_chain q c = do
    guard (not (lacks_ends c)) (plain missing_segment)
    guard (leb 16 (first_of c.read_segs).len) (plain short_header)
    b ← ask (g.load (first_of c.read_segs).at 16)
    elim (parse_blk_req_header b) [
      | none ↦ fail (plain short_header)
      | some hdr ↦ (do
        done ← perform q hdr c
        unless_stopped
        ask (λ w. (tt, g.store (status_at c.write_segs) (done.0 ∷ []) w))
        pure (if hdr.type == blk_type_in then done.1 + 1 else 1))
    ]

  -- processChain: what the used ring entry will say.
  unfoldable pub process_chain : Virtq → ℕ → Run W ℕ
  process_chain q head = do unless_stopped; c ← walk_chain g q head; serve_chain q c
