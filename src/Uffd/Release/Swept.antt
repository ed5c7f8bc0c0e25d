-- ===== src/Uffd/Release/Swept.antt =====
-- What a release leaves of the page states.
use sandboxer.Prelude.{
  ℕ, zero, suc, ◌+◌, ◌-◌, ◌/◌, ◌≤◌, ◌<◌, ◌≡◌, ◌≢◌, refl, List, [], ◌∷◌, Bool, false, ltb, leb, ◌==◌,
  if◌then◌else◌, ◌||◌, ◌&&◌, not, min, max, length, arith, ◌⊎◌, inl, inr, if-cases,
}
use sandboxer.Uffd.State.{PageStateMap, state_released, get, set_range}
use sandboxer.Uffd.State.Pages.{get-set_range}
use sandboxer.Uffd.AddressMap.{Vma, page_size, add_wrap, sub_wrap, untouched}
use sandboxer.Uffd.Install.{Ops, Handler}
use sandboxer.Uffd.Release.{
  Piece, no_piece, next_piece, out_of_turns, sweep_loop, handle_remove_locked,
}

-- Page `j` lies in one of the ranges.
pub in_ranges : ℕ → List (ℕ × ℕ) → Bool
in_ranges j [] = false
in_ranges j ((off, len) ∷ rs) =
    (leb (off / page_size) j && ltb j (add_wrap off len / page_size)) || in_ranges j rs

next_piece_moves :
    (fd cursor end : ℕ) (p : Piece) (vs : List Vma)
    → (p.next ≡ 0) ⊎ ((cursor < p.next) × (p.next ≤ end))
    → cursor < end
    → ((next_piece fd cursor end p vs).next ≡ 0)
      ⊎ ((cursor < (next_piece fd cursor end p vs).next)
          × ((next_piece fd cursor end p vs).next ≤ end))
unfolding next_piece
next_piece_moves fd cursor end p [] h less = h
next_piece_moves fd cursor end p (v ∷ vs) h less =
    let lo = max cursor v.start in
    let hi = min end v.end in
    let q : Piece = record {
      start_off = add_wrap v.memfd_offset (sub_wrap lo v.start);
      length = sub_wrap hi lo;
      next = hi;
    } in
    let Good : Piece → Type 0 = λ r.
      ((next_piece fd cursor end r vs).next ≡ 0)
      ⊎ ((cursor < (next_piece fd cursor end r vs).next)
          × ((next_piece fd cursor end r vs).next ≤ end)) in
    if-cases Good
      (not (untouched fd cursor end v) && (p.next == 0 || ltb lo (sub_wrap p.next p.length)))
      (λ t. next_piece_moves fd cursor end q vs (inr (ground (arith, t))) less)
      (λ f. next_piece_moves fd cursor end p vs h less)

module _ {W : Type 0} (ops : Ops W) where
  sweep_loop_ends :
      (n : ℕ) (h : Handler) (fd cursor end : ℕ) (m : PageStateMap) (done : List (ℕ × ℕ)) (w : W)
      → end < cursor + n
      → cursor ≤ end
      → (sweep_loop ops n h fd cursor end m done w).ending ≢ out_of_turns
  unfolding sweep_loop
  sweep_loop_ends zero h fd cursor end m done w enough below = absurd (omega arith)
  sweep_loop_ends (suc n) h fd cursor end m done w enough below =
      let p = next_piece fd cursor end no_piece h.addresses.vmas in
      let rest =
        sweep_loop_ends n h fd p.next end
          (set_range m (p.start_off / page_size) (add_wrap p.start_off p.length / page_size)
            state_released)
          ((p.start_off, p.length) ∷ done)
          (if h.tracks_dirty then (ops.mark p.start_off p.length w).1 else w) in
      ground (arith, rest, next_piece_moves fd cursor end no_piece h.addresses.vmas (inl refl))

  sweep_loop_states :
      (n : ℕ) (h : Handler) (fd cursor end : ℕ) (m : PageStateMap) (done : List (ℕ × ℕ)) (w : W)
      (before : PageStateMap) (j : ℕ)
      → j < length m.pages
      → get m j ≡ (if in_ranges j done then state_released else get before j)
      → let r = sweep_loop ops n h fd cursor end m done w in
        (get r.pages j ≡ (if in_ranges j r.ranges then state_released else get before j))
        × (length r.pages.pages ≡ length m.pages)
  unfolding sweep_loop in_ranges
  sweep_loop_states zero h fd cursor end m done w before j inside kept = (kept, refl)
  sweep_loop_states (suc n) h fd cursor end m done w before j inside kept =
      let p = next_piece fd cursor end no_piece h.addresses.vmas in
      let first = p.start_off / page_size in
      let last = add_wrap p.start_off p.length / page_size in
      ground (
        arith,
        get-set_range m first last state_released j,
        sweep_loop_states n h fd p.next end (set_range m first last state_released)
            ((p.start_off, p.length) ∷ done)
            (if h.tracks_dirty then (ops.mark p.start_off p.length w).1 else w) before j,
      )

  -- A release ends: every page of the table is Released if it lies in one of the ranges that were
  -- handed on for reclaim, and keeps its state if it does not.
  pub handle_remove_states :
      (h : Handler) (fd start end : ℕ) (w : W) (j : ℕ)
      → j < length h.pages.pages
      → let r = handle_remove_locked ops h fd start end w in
        (get r.pages j ≡ (if in_ranges j r.ranges then state_released else get h.pages j))
        × (length r.pages.pages ≡ length h.pages.pages)
        × (r.ending ≢ out_of_turns)
  unfolding handle_remove_locked in_ranges
  handle_remove_states h fd start end w j inside = ground (
    arith,
    sweep_loop_ends (suc (end - start)) h fd start end h.pages [] w,
    sweep_loop_states (suc (end - start)) h fd start end h.pages [] w h.pages j inside refl,
  )
