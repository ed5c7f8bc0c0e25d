-- ===== src/Mux/Frame/Progress.antt =====
-- How much of its input a successful ReadFrame takes.
use sandboxer.Prelude.{
  ℕ, ◌+◌, ◌≤◌, ◌≡◌, refl, ap, List, ltb, length, get_or, arith, inl, inr, Bool-cases, [],
}
use sandboxer.Prelude.Bytes.{of_be16}
use sandboxer.Mux.Wire.{Source, got, lost, read_full, ReadResult}
use sandboxer.Mux.Wire.Laws.{read_full_consumes}
use sandboxer.Mux.Frame.{Frame, FrameResult, frame, after_header, read_payload, read_frame}

abbrev payload_len : List ℕ → ℕ
payload_len hdr = of_be16 (get_or hdr 2 0) (get_or hdr 3 0)

-- How much of the input a result leaves.
abbrev rest_length : FrameResult → ℕ
rest_length (frame f t) = length t.bytes
rest_length _ = 0

read_payload_consumes :
    (n : ℕ) (g f : Frame) (s t : Source)
    → read_payload g (read_full n s) ≡ frame f t
    → length t.bytes ≤ length s.bytes
unfolding read_payload
read_payload_consumes n g f s t e = go (read_full n s) refl
  where
    go : (r : ReadResult (List ℕ)) → read_full n s ≡ r → length t.bytes ≤ length s.bytes
    go (got p u) q =
        let e' = rw (q, read_payload) at e in
        omega (arith, (read_full_consumes n s u p q).0, ap (λ (r : FrameResult). rest_length r) e')
    go (lost x) q = let e' = rw (q, read_payload) at e in absurd (ground arith)

after_header_consumes :
    (hdr : List ℕ) (s t : Source) (f : Frame)
    → after_header (got hdr s) ≡ frame f t
    → length t.bytes ≤ length s.bytes
unfolding after_header
after_header_consumes hdr s t f e = elim (Bool-cases (ltb 0 (payload_len hdr))) [
  | inl h ↦
      read_payload_consumes (payload_len hdr)
        (record { stream = get_or hdr 0 0; type = get_or hdr 1 0; payload = [] }) f s t (rw h at e)
  | inr h ↦ let e' = rw h at e in ground arith
]

-- A frame takes its four header bytes at least.
pub read_frame_consumes :
    (s t : Source) (f : Frame) → read_frame s ≡ frame f t → length t.bytes + 4 ≤ length s.bytes
unfolding read_frame after_header
read_frame_consumes s t f e = go (read_full 4 s) refl
  where
    go : (r : ReadResult (List ℕ)) → read_full 4 s ≡ r → length t.bytes + 4 ≤ length s.bytes
    go (got p u) q =
        omega (arith, (read_full_consumes 4 s u p q).0, after_header_consumes p u t f (rw q at e))
    go (lost x) q = let e' = rw q at e in absurd (ground arith)
