-- ===== src/Snapshot/Merge.antt =====
-- mergedReadSeeker of pkg/snapshot/merge.go: a delta over its base as one stream. The layers are
-- io.ReadSeekers, which are a record of operations here. Positions are int64.
pub mod Layers
pub mod Overlay
use sandboxer.Prelude.{
  ℕ, zero, suc, ◌+◌, ◌-◌, ◌%◌, ◌^◌, ◌≤◌, ◌<◌, ◌≡◌, Option, none, some, List, [], ◌∷◌, ◌++◌, Bool,
  true, false, ltb, leb, ◌==◌, if◌then◌else◌, ◌||◌, ◌&&◌, not, length, min, replicate,
}
use sandboxer.Sparse.{Extent}
use sandboxer.Snapshot.Holes.{hole_run_at}

-- The errors of a layer's Read that readFrom tells apart. A terminal or permanent error is neither
-- io.EOF nor io.ErrUnexpectedEOF, and is returned as any other.
pub data ReadError : Type 0 where
  eof unexpected_eof : ReadError
  failure : ℕ → ReadError

-- What one Read returns: the bytes that it has put into the buffer, and its error.
pub record Reply (W : Type 0) : Type 0 where
  pub bytes : List ℕ
  pub error : Option ReadError
  pub layer : W

-- io.ReadSeeker; Seek from the start returns none when it succeeds.
pub record Layer (W : Type 0) : Type 0 where
  pub seek : ℕ → W → Option ℕ × W
  pub read : ℕ → W → Reply W

pub data LayerKind : Type 0 where
  from_top from_base from_hole : LayerKind

pub record Merged (W : Type 0) : Type 0 where
  pub top : W
  pub base : W
  pub top_holes : List Extent
  pub base_holes : List Extent
  pub size : ℕ
  pub position : ℕ

-- How a Read of the merged stream ends. `stuck` is no outcome of the source: the fuel ran out.
pub data End : Type 0 where
  returned : End
  failed : ReadError → End
  stuck : End

unfoldable pub owner_at : {W : Type 0} → ℕ → Merged W → LayerKind × ℕ
owner_at x m =
    let (top_hole, top_end) = hole_run_at x m.top_holes m.size in
    let (base_hole, base_end) = hole_run_at x m.base_holes m.size in
    if not top_hole
    then (from_top, top_end)
    else if not base_hole
    then (from_base, min top_end base_end)
    else (from_hole, min top_end base_end)

-- The layer, the stream's position and the bytes read so far.
pub record Cursor (W : Type 0) : Type 0 where
  pub layer : W
  pub position : ℕ
  pub got : List ℕ

module _ {W : Type 0} (dev : Layer W) where
  abbrev pub advance : Cursor W → Reply W → Cursor W
  advance c r = record {
    layer = r.layer;
    position = c.position + length r.bytes;
    got = c.got ++ r.bytes;
  }

  -- After one Read of the layer: what to do next.
  pub after_layer_read : Cursor W → Option ReadError → (Cursor W → End × Cursor W) → End × Cursor W
  after_layer_read c none again = again c
  after_layer_read c (some unexpected_eof) again = (returned, c)
  after_layer_read c (some eof) again = (if ltb 0 (length c.got) then returned else failed eof, c)
  after_layer_read c (some (failure e)) again = (failed (failure e), c)

  -- The loop of readFrom, with `want` bytes in the whole buffer.
  pub fill_loop : ℕ → ℕ → Cursor W → End × Cursor W
  unfolding after_layer_read
  fill_loop zero want c = (if ltb (length c.got) want then stuck else returned, c)
  fill_loop (suc n) want c =
      let r = dev.read (want - length c.got) c.layer in
      let rest = after_layer_read (advance c r) r.error (λ c'. fill_loop n want c') in
      if ltb (length c.got) want then rest else (returned, c)

  pub after_seek : ℕ → ℕ → Option ℕ × W → End × Cursor W
  unfolding fill_loop
  after_seek want x (some e, w) = (failed (failure e), record { layer = w; position = x; got = [] })
  after_seek want x (none, w) = fill_loop want want (record { layer = w; position = x; got = [] })

  -- readFrom: a turn that does not end the loop takes a byte at least.
  unfoldable pub read_from : ℕ → ℕ → W → End × Cursor W
  unfolding after_seek
  read_from want x w = after_seek want x (dev.seek x w)

  -- The part of Read after the run at the position is known; `want` is positive.
  pub read_run : LayerKind → ℕ → Merged W → End × List ℕ × Merged W
  unfolding read_from
  read_run from_top want m =
      let (end, c) = read_from want m.position m.top in
      (end, c.got, record m { top = c.layer; position = c.position })
  read_run from_base want m =
      let (end, c) = read_from want m.position m.base in
      (end, c.got, record m { base = c.layer; position = c.position })
  read_run from_hole want m =
      (returned, replicate want 0, record m { position = m.position + want })

  -- Read into a buffer of `room` bytes.
  unfoldable pub read_merged : ℕ → Merged W → End × List ℕ × Merged W
  unfolding read_run owner_at
  read_merged room m =
      let (owner, end) = owner_at m.position m in
      let want = min room (end - m.position) in
      if leb m.size m.position
      then (failed eof, [], m)
      else if want == 0
      then (failed eof, [], m)
      else read_run owner want m

-- Seek. `off` and the sum are 64-bit patterns; the whence is 0, 1 or 2 for io.SeekStart,
-- io.SeekCurrent and io.SeekEnd. none is an error, which leaves the stream as it is.
unfoldable pub seek_merged : {W : Type 0} → ℕ → ℕ → Merged W → Option (Merged W)
seek_merged off whence m =
    let start = if whence == 0 then 0 else if whence == 1 then m.position else m.size in
    let target = (start + off) % 2 ^ 64 in
    if ltb 2 whence
    then none
    else if leb (2 ^ 63) target
    then none
    else some (record m { position = target })
