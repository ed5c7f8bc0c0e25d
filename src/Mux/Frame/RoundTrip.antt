-- ===== src/Mux/Frame/RoundTrip.antt =====
-- WriteFrame and ReadFrame on the same bytes, whole or cut; and the small payloads.
use sandboxer.Prelude.{
  ℕ, zero, suc, ◌%◌, ◌/◌, ◌^◌, ◌<◌, ◌≤◌, ◌≡◌, refl, ap, ◌∙◌, some, List, [], ◌∷◌, ◌++◌, ltb, true,
  false, length, take, arith, All, length-append, take-append_le, drop-append_le, append_assoc,
  lt→ltb, ◌⊎◌, inl, inr, length-take, Bool-cases,
}
use sandboxer.Prelude.Bytes.{IsByte, of_be16, of_be16-be16, of_be32-be32}
use sandboxer.Mux.Wire.{IoError, eof, unexpected_eof, Source, at_eof, got, lost, read_full}
use sandboxer.Mux.Frame.{
  Frame, IsFrame, header, frame, bad_header, bad_payload, after_header, read_frame, encode_winsize,
  decode_winsize, encode_uint32, decode_uint32, max_frame_payload,
}

-- The bytes of a whole frame, as the package's comment lays them out.
unfoldable pub wire : Frame → List ℕ
wire f = header f ++ f.payload

-- A frame that fits the length field.
pub record Fits (f : Frame) : Type 0 where
  pub legal : IsFrame f
  pub short : length f.payload ≤ max_frame_payload

read_full-append :
    (n : ℕ) (xs ys : List ℕ) (s : Source)
    → n ≡ length xs
    → s.bytes ≡ xs ++ ys
    → read_full n s ≡ got xs (record s { bytes = ys })
unfolding read_full
read_full-append n xs ys s h e =
    ground
      (arith, ap length e, length-append xs ys, take-append_le n xs ys h, drop-append_le n xs ys h)

-- The length field of a frame that fits it holds its length.
length_field :
    (f : Frame)
    → Fits f
    → of_be16 (length f.payload % 2 ^ 16 / 256 % 256) (length f.payload % 2 ^ 16 % 256)
      ≡ length f.payload
length_field f h = omega arith

pub nil_of_length : (p : List ℕ) → ltb 0 (length p) ≡ false → p ≡ []
nil_of_length [] t = refl
nil_of_length (x ∷ xs) t = absurd (ground arith)

after_header-header :
    (f : Frame) (rest : List ℕ) (s : Source)
    → Fits f
    → s.bytes ≡ f.payload ++ rest
    → after_header (got (header f) s) ≡ frame f (record s { bytes = rest })
unfolding after_header header
after_header-header f rest s h e = elim (Bool-cases (ltb 0 (length f.payload))) [
  | inl t ↦
      rw (length_field f h, t, read_full-append (length f.payload) f.payload rest s refl e) refl
  | inr t ↦ rw (length_field f h, t) (ground (arith, e, nil_of_length f.payload t))
]

-- ReadFrame takes exactly one frame off the front of what WriteFrame produces, whatever follows.
pub read_frame-wire :
    (f : Frame) (rest : List ℕ) (s : Source)
    → Fits f
    → s.bytes ≡ wire f ++ rest
    → read_frame s ≡ frame f (record s { bytes = rest })
unfolding read_frame wire
read_frame-wire f rest s h e =
    rw
      (read_full-append 4 (header f) (f.payload ++ rest) s (unfold header in refl)
        (e ∙ append_assoc (header f) f.payload rest))
      (after_header-header f rest _ h refl)

-- The payload of a frame that ends after `j` of its bytes.
abbrev cut : ℕ → IoError
cut zero = eof
cut (suc j) = unexpected_eof

read_full-cut :
    (j : ℕ) (p : List ℕ)
    → j < length p
    → read_full (length p) (record { bytes = take j p; ending = at_eof }) ≡ lost (cut j)
unfolding read_full
read_full-cut j [] h = absurd (omega arith)
read_full-cut zero (x ∷ xs) h = ground arith
read_full-cut (suc j) (x ∷ xs) h = ground (arith, length-take j xs)

read_frame-cut :
    (f : Frame) (j : ℕ)
    → Fits f
    → j < length f.payload
    → read_frame (record { bytes = header f ++ take j f.payload; ending = at_eof })
      ≡ bad_payload (cut j)
unfolding read_frame after_header
read_frame-cut f j h lt =
    let filled : ltb 0 (length f.payload) ≡ true = lt→ltb 0 (length f.payload) (omega arith) in
    rw
      (read_full-append 4 (header f) (take j f.payload)
        (record { bytes = header f ++ take j f.payload; ending = at_eof }) (unfold header in refl)
        refl)
      (unfold header in rw (length_field f h, filled, read_full-cut j f.payload lt) refl)

-- A frame cut off anywhere by the end of the stream is never taken for a frame: the reader
-- reports io.EOF exactly when nothing of the frame arrived.
pub read_frame_truncated :
    (f : Frame) (k : ℕ)
    → Fits f
    → k < length (wire f)
    → let r = read_frame (record { bytes = take k (wire f); ending = at_eof }) in
      ((k ≡ 0) × (r ≡ bad_header eof))
      ⊎ ((0 < k) × (k < 4) × (r ≡ bad_header unexpected_eof))
      ⊎ ((k ≡ 4) × (r ≡ bad_payload eof))
      ⊎ ((4 < k) × (r ≡ bad_payload unexpected_eof))
unfolding read_frame read_full wire header
read_frame_truncated f zero h lt = inl (refl, refl)
read_frame_truncated f (suc zero) h lt = inr (inl (omega arith, omega arith, refl))
read_frame_truncated f (suc (suc zero)) h lt = inr (inl (omega arith, omega arith, refl))
read_frame_truncated f (suc (suc (suc zero))) h lt = inr (inl (omega arith, omega arith, refl))
read_frame_truncated f (suc (suc (suc (suc zero)))) h lt =
    inr (inr (inl (refl, read_frame-cut f 0 h (omega arith))))
read_frame_truncated f (suc (suc (suc (suc (suc j))))) h lt =
    inr (inr (inr (omega arith, read_frame-cut f (suc j) h (omega arith))))

pub decode_winsize-encode_winsize :
    (cols rows : ℕ)
    → cols < 2 ^ 16
    → rows < 2 ^ 16
    → decode_winsize (encode_winsize cols rows) ≡ some (cols, rows)
unfolding decode_winsize encode_winsize
decode_winsize-encode_winsize cols rows h k =
    ground (arith, of_be16-be16 cols h, of_be16-be16 rows k)

pub decode_uint32-encode_uint32 : (v : ℕ) → v < 2 ^ 32 → decode_uint32 (encode_uint32 v) ≡ some v
unfolding decode_uint32 encode_uint32
decode_uint32-encode_uint32 v h = ground (arith, of_be32-be32 v h)

decode_winsize-some :
    (p : List ℕ) (cols rows : ℕ)
    → All IsByte p
    → decode_winsize p ≡ some (cols, rows)
    → encode_winsize cols rows ≡ p
unfolding decode_winsize encode_winsize
decode_winsize-some (a ∷ b ∷ c ∷ d ∷ []) cols rows (ha, (hb, (hc, (hd, _)))) e = ground arith
decode_winsize-some _ cols rows h e = absurd (ground arith)
