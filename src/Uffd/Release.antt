-- ===== src/Uffd/Release.antt =====
-- The release events of pkg/uffd/handler.go: REMOVE and UNMAP. The reclaim of the backend's mapping
-- (the queue of removeReq, or madviseBackend where it is full) and the marks of the released set are
-- the list of ranges that the sweep leaves.
pub mod Swept
pub mod History
use sandboxer.Prelude.{
  ℕ, zero, suc, ◌+◌, ◌-◌, ◌%◌, ◌/◌, ◌^◌, List, [], ◌∷◌, Bool, true, false, ltb, leb, ◌==◌,
  if◌then◌else◌, ◌||◌, ◌&&◌, not, min, max,
}
use sandboxer.Uffd.State.{PageStateMap, state_released, set_range}
use sandboxer.Uffd.AddressMap.{
  AddressMap, Vma, page_size, process_ch, add_wrap, sub_wrap, untouched, invalidate,
}
use sandboxer.Uffd.Install.{Ops, Handler}

-- startOff, length and next of one turn.
pub record Piece : Type 0 where
  pub start_off : ℕ
  pub length : ℕ
  pub next : ℕ

abbrev pub no_piece : Piece
no_piece = record { start_off = 0; length = 0; next = 0 }

-- The scan of the intervals for the part that comes first in [cursor, end).
pub next_piece : ℕ → ℕ → ℕ → Piece → List Vma → Piece
next_piece fd cursor end p [] = p
next_piece fd cursor end p (v ∷ vs) =
    let lo = max cursor v.start in
    let hi = min end v.end in
    let first = p.next == 0 || ltb lo (sub_wrap p.next p.length) in
    let q : Piece = record {
      start_off = add_wrap v.memfd_offset (sub_wrap lo v.start);
      length = sub_wrap hi lo;
      next = hi;
    } in
    next_piece fd cursor end (if not (untouched fd cursor end v) && first then q else p) vs

-- How a sweep ended.
pub data Ending : Type 0 where
  swept gap bad_range out_of_turns : Ending

-- Whether captureError is set.
abbrev pub spoils : Ending → Bool
spoils swept = false
spoils _ = true

-- The page states, the ranges of the memfd that were released, the last one first, and the ending.
pub record Sweep (W : Type 0) : Type 0 where
  pub ending : Ending
  pub pages : PageStateMap
  pub ranges : List (ℕ × ℕ)
  pub world : W

module _ {W : Type 0} (ops : Ops W) where
  -- The loop of handleRemoveLocked.
  unfoldable pub sweep_loop : ℕ → Handler → ℕ → ℕ → ℕ → PageStateMap → List (ℕ × ℕ) → W → Sweep W
  unfolding next_piece
  sweep_loop zero h fd cursor end m done w = record {
    ending = out_of_turns;
    pages = m;
    ranges = done;
    world = w;
  }
  sweep_loop (suc n) h fd cursor end m done w =
      let p = next_piece fd cursor end no_piece h.addresses.vmas in
      let rest =
        sweep_loop n h fd p.next end
          (set_range m (p.start_off / page_size) (add_wrap p.start_off p.length / page_size)
            state_released)
          ((p.start_off, p.length) ∷ done)
          (if h.tracks_dirty then (ops.mark p.start_off p.length w).1 else w) in
      if not (ltb cursor end)
      then record { ending = swept; pages = m; ranges = done; world = w }
      else if p.next == 0 || not (sub_wrap p.next p.length == cursor)
      then record { ending = gap; pages = m; ranges = done; world = w }
      else rest

  -- Each turn takes one byte of the range at least.
  unfoldable pub handle_remove_locked : Handler → ℕ → ℕ → ℕ → W → Sweep W
  handle_remove_locked h fd start end w =
      if leb end start || not (start % page_size == 0) || not (end % page_size == 0)
      then record { ending = bad_range; pages = h.pages; ranges = []; world = w }
      else sweep_loop (suc (end - start)) h fd start end h.pages [] w

  -- dispatchRelease: also the address map, and whether a capture is invalid from now on.
  unfoldable pub dispatch_release : Bool → Handler → ℕ → ℕ → ℕ → W → Bool × Handler × W
  dispatch_release is_unmap h fd start end w =
      let s = handle_remove_locked h fd start end w in
      let aligned = ltb start end && start % page_size == 0 && end % page_size == 0 in
      if is_unmap
      then (
        true,
        record h { addresses = invalidate h.addresses fd start end; pages = s.pages },
        (if aligned then ops.wake fd start (end - start) s.world else s.world),
      )
      else (spoils s.ending, record h { pages = s.pages }, s.world)
