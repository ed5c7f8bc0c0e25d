-- ===== src/Mux/Frame/Write.antt =====
-- WriteFrame over a connection that keeps the contract of io.Writer.
use sandboxer.Prelude.{
  ℕ, ◌+◌, ◌<◌, ◌≤◌, ◌≡◌, refl, sym, ap, ◌∙◌, List, [], ◌++◌, ltb, length, take, drop, arith,
  length-append, drop-append_le, append_assoc, append-nil, ◌⊎◌, inl, inr, Bool-cases,
  take-append_add, take-append_of_le,
}
use sandboxer.Mux.Wire.{frame_too_large, Conn, WriteEnd, done, stuck, failed, Source}
use sandboxer.Mux.Wire.Laws.{IsWriter, Sent, Sent-done, write_all-Sent}
use sandboxer.Mux.Frame.{
  Frame, IsFrame, header, write_payload, write_frame, frame, read_frame, max_frame_payload,
}
use sandboxer.Mux.Frame.RoundTrip.{wire, nil_of_length, read_frame-wire}

module _ {W : Type 0} (dev : Conn W) (written : W → List ℕ) (c : IsWriter dev written) where
  -- A complete write of `h`, then a write of `p`.
  then-Sent :
      (w v : W) (h p : List ℕ) (out : WriteEnd × W)
      → Sent written w h (done, v)
      → Sent written v p out
      → Sent written w (h ++ p) out
  then-Sent w v h p out s (j, hj, e', o') = (
    length h + j,
    omega (arith, length-append h p),
    rw (e', Sent-done written w h (done, v) s refl, take-append_add j h p)
        (append_assoc (written w) h (take j p)),
    ground (arith, o', length-append h p),
  )

  write_payload-Sent :
      (o : WriteEnd × W) (w : W) (h p : List ℕ)
      → Sent written w h o
      → Sent written w (h ++ p) (write_payload dev o p)
  unfolding write_payload
  write_payload-Sent (done, v) w h p s = elim (Bool-cases (ltb 0 (length p))) [
    | inl t ↦ rw t (then-Sent w v h p _ s (write_all-Sent dev written c v p))
    | inr t ↦
        rw (t, nil_of_length p t)
          (then-Sent w v h [] (done, v) s
            (0, omega arith, sym (append-nil (written v)), inl (refl, refl)))
  ]
  write_payload-Sent (stuck, v) w h p (k, hk, on, o) = absurd (ground (arith, o))
  write_payload-Sent (failed e, v) w h p (k, hk, on, o) = (
    k,
    omega (arith, length-append h p),
    on ∙ rw (take-append_of_le k h p hk) refl,
    ground (arith, o),
  )

  -- WriteFrame over a connection that keeps the contract of io.Writer: a payload over the cap is
  -- refused and nothing goes out; otherwise the call ends, a prefix of the frame's bytes goes
  -- out, all of them if it succeeds, and its error is not the refusal.
  pub write_frame_prefix :
      (w : W) (f : Frame)
      → ((max_frame_payload < length f.payload)
          × (write_frame dev w f ≡ (failed frame_too_large, w)))
        ⊎ ((length f.payload ≤ max_frame_payload) × Sent written w (wire f) (write_frame dev w f))
  unfolding write_frame wire
  write_frame_prefix w f = elim (Bool-cases (ltb max_frame_payload (length f.payload))) [
    | inl t ↦ inl (ground arith, ground arith)
    | inr t ↦ inr (
      ground arith,
      rw t
          (write_payload-Sent _ w (header f) f.payload (write_all-Sent dev written c w (header f))),
    )
  ]

  -- After a successful WriteFrame the peer, which has read what was sent before, reads exactly
  -- this frame and has nothing left.
  pub write_frame-read_frame :
      (w : W) (f : Frame) (s : Source)
      → IsFrame f
      → (write_frame dev w f).0 ≡ done
      → s.bytes ≡ drop (length (written w)) (written (write_frame dev w f).1)
      → read_frame s ≡ frame f (record s { bytes = [] })
  write_frame-read_frame w f s v d e = elim (write_frame_prefix w f) [
    | inl (big, q) ↦
        absurd (let x : (write_frame dev w f).0 ≡ failed frame_too_large = ap (λ o. o.0) q in cc)
    | inr (small, (k, hk, on, o)) ↦
        read_frame-wire f [] s (record { legal = v; short = small })
          (e
            ∙ rw (Sent-done written w (wire f) (write_frame dev w f) (k, hk, on, o) d) (
                drop-append_le (length (written w)) (written w) (wire f) refl
                ∙ sym (append-nil (wire f))))
  ]
