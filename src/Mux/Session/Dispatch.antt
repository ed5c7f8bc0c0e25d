-- ===== src/Mux/Session/Dispatch.antt =====
-- dispatch of pkg/mux/session.go: which frames a session accepts, and what one frame may change.
use sandboxer.Prelude.{
  ℕ, ◌+◌, ◌<◌, ◌≤◌, ◌≡◌, refl, ap, ◌∙◌, Option, none, some, List, [], ◌∷◌, true, false, length,
  arith, ◌⊎◌, inl, inr, ◌≢◌, Option-cases,
}
use sandboxer.Mux.Wire.{Conn}
use sandboxer.Mux.Frame.{
  Frame, frame_data, frame_eof, frame_reset, frame_window_update, frame_set_winsize,
  frame_mux_close, frame_mux_close_ack, frame_exit_status, is_data_stream, decode_uint32,
  decode_winsize, stream_control,
}
use sandboxer.Mux.Stream.{Stream, MuxError, protocol, deliver}
use sandboxer.Mux.Session.{Session, find_stream, put_stream}
use sandboxer.Mux.Session.Loop.{
  dispatch_data, dispatch_update, dispatch_winsize, dispatch_exit, dispatch,
}

-- The stream table.
id-find_stream :
    (id : ℕ) (sts : List Stream) (st : Stream) → find_stream id sts ≡ some st → st.id ≡ id
unfolding find_stream
id-find_stream id [] st h = absurd (ground arith)
id-find_stream id (x ∷ sts) st h = ground (arith, id-find_stream id sts st)

put_stream-find_stream :
    (id : ℕ) (sts : List Stream) (st : Stream)
    → find_stream id sts ≡ some st
    → put_stream st sts ≡ sts
unfolding find_stream put_stream
put_stream-find_stream id [] st h = refl
put_stream-find_stream id (x ∷ sts) st h =
    ground (arith, id-find_stream id sts st, put_stream-find_stream id sts st)

pub find_stream-put_stream_ne :
    (id : ℕ) (sts : List Stream) (st : Stream)
    → st.id ≢ id
    → find_stream id (put_stream st sts) ≡ find_stream id sts
unfolding find_stream put_stream
find_stream-put_stream_ne id [] st h = refl
find_stream-put_stream_ne id (x ∷ sts) st h = ground (arith, find_stream-put_stream_ne id sts st h)

pub find_stream-put_stream_self :
    (sts : List Stream) (st old : Stream)
    → find_stream st.id sts ≡ some old
    → find_stream st.id (put_stream st sts) ≡ some st
unfolding find_stream put_stream
find_stream-put_stream_self [] st old h = absurd (ground arith)
find_stream-put_stream_self (x ∷ sts) st old h =
    ground (arith, find_stream-put_stream_self sts st old)

-- The frames that a session may take, MUX_CLOSE aside: the table of frame.go has the stream that each
-- type belongs on and the length of its payload. Unlike the table, EOF, RESET and MUX_CLOSE_ACK may
-- have any payload here.
pub data Accepts {W : Type 0} (s : Session W) (f : Frame) : Type 0 where
  data_fits :
      (st : Stream)
      → f.type ≡ frame_data
      → is_data_stream f.stream ≡ true
      → find_stream f.stream s.streams ≡ some st
      → st.r_eof ≡ false
      → st.r_reset ≡ false
      → length st.buf + length f.payload ≤ st.window
      → Accepts s f
  half_close :
      (st : Stream)
      → (f.type ≡ frame_eof) ⊎ (f.type ≡ frame_reset)
      → is_data_stream f.stream ≡ true
      → find_stream f.stream s.streams ≡ some st
      → Accepts s f
  credit :
      (st : Stream)
      → f.type ≡ frame_window_update
      → is_data_stream f.stream ≡ true
      → find_stream f.stream s.streams ≡ some st
      → length f.payload ≡ 4
      → Accepts s f
  sized_control :
      (f.type ≡ frame_set_winsize) ⊎ (f.type ≡ frame_exit_status)
      → f.stream ≡ stream_control
      → length f.payload ≡ 4
      → Accepts s f
  ack : f.type ≡ frame_mux_close_ack → f.stream ≡ stream_control → Accepts s f

deliver-none :
    (p : List ℕ) (st : Stream)
    → (deliver p st).0 ≡ none
    → (st.r_eof ≡ false) × (st.r_reset ≡ false) × (length st.buf + length p ≤ st.window)
unfolding deliver
deliver-none p st h = ground arith

decode_uint32-none : (p : List ℕ) → decode_uint32 p ≢ none → length p ≡ 4
unfolding decode_uint32
decode_uint32-none p h = ground arith

decode_winsize-none : (p : List ℕ) → decode_winsize p ≢ none → length p ≡ 4
unfolding decode_winsize
decode_winsize-none p h = ground arith

module _ {W : Type 0} where
  dispatch_data-Accepts :
      (f : Frame) (s : Session W)
      → (f.type ≡ frame_data) ⊎ (f.type ≡ frame_eof) ⊎ (f.type ≡ frame_reset)
      → (dispatch_data f s).0 ≡ none
      → Accepts s f
  unfolding dispatch_data
  dispatch_data-Accepts f s t h = elim (Option-cases (find_stream f.stream s.streams)) [
    | inl no_stream ↦ let h' = rw (no_stream, dispatch_data) at h in absurd (ground arith)
    | inr (st, e) ↦
        let h' = rw (e, dispatch_data) at h in
        let known : is_data_stream f.stream ≡ true = ground arith in
        elim t [
          | inl d ↦
              let q : (deliver f.payload st).0 ≡ none = ground arith in
              let (a, b, fits) = deliver-none f.payload st q in data_fits st d known e a b fits
          | inr (inl x) ↦ half_close st (inl x) known e
          | inr (inr x) ↦ half_close st (inr x) known e
        ]
  ]

  dispatch_update-Accepts :
      (f : Frame) (s : Session W)
      → f.type ≡ frame_window_update
      → (dispatch_update f s).0 ≡ none
      → Accepts s f
  unfolding dispatch_update
  dispatch_update-Accepts f s t h = elim (Option-cases (find_stream f.stream s.streams)) [
    | inl no_stream ↦ let h' = rw (no_stream, dispatch_update) at h in absurd (ground arith)
    | inr (st, e) ↦
        let h' = rw (e, dispatch_update) at h in
        let four : decode_uint32 f.payload ≢ none = ground arith in
        credit st t (ground arith) e (decode_uint32-none f.payload four)
  ]

  -- The update and data branches once the stream is known.
  dispatch_data_found :
      (f : Frame) (s : Session W) (st : Stream)
      → is_data_stream f.stream ≡ true
      → find_stream f.stream s.streams ≡ some st
      → ((f.type ≡ frame_data) × ((deliver f.payload st).0 ≡ none))
        ⊎ (f.type ≡ frame_eof)
        ⊎ (f.type ≡ frame_reset)
      → (dispatch_data f s).0 ≡ none
  unfolding dispatch_data
  dispatch_data_found f s st known e t = rw (known, e, dispatch_data) (ground arith)

  dispatch_update_found :
      (f : Frame) (s : Session W) (st : Stream)
      → is_data_stream f.stream ≡ true
      → find_stream f.stream s.streams ≡ some st
      → length f.payload ≡ 4
      → (dispatch_update f s).0 ≡ none
  unfolding dispatch_update decode_uint32
  dispatch_update_found f s st known e four = rw (known, e, dispatch_update) (ground arith)

  -- What does not go through leaves the session as it was.
  dispatch_data_refused :
      (f : Frame) (s : Session W)
      → (dispatch_data f s).0 ≢ none
      → dispatch_data f s ≡ (some protocol, s)
  unfolding dispatch_data deliver
  dispatch_data_refused f s h = elim (Option-cases (find_stream f.stream s.streams)) [
    | inl no_stream ↦ rw (no_stream, dispatch_data) (ground arith)
    | inr (st, e) ↦
        let h' = rw (e, dispatch_data) at h in
        let same = put_stream-find_stream f.stream s.streams st e in
        rw (e, dispatch_data) (ground arith)
  ]

  dispatch_update_refused :
      (f : Frame) (s : Session W)
      → (dispatch_update f s).0 ≢ none
      → dispatch_update f s ≡ (some protocol, s)
  unfolding dispatch_update
  dispatch_update_refused f s h = ground arith

  winsize_taken :
      (f : Frame) (s : Session W)
      → (dispatch_winsize f s).0 ≡ none
      → decode_winsize f.payload ≢ none
  unfolding dispatch_winsize
  winsize_taken f s h = ground arith

  winsize_refused :
      (f : Frame) (s : Session W)
      → (dispatch_winsize f s).0 ≢ none
      → dispatch_winsize f s ≡ (some protocol, s)
  unfolding dispatch_winsize
  winsize_refused f s h = ground arith

  exit_taken :
      (f : Frame) (s : Session W) → (dispatch_exit f s).0 ≡ none → decode_uint32 f.payload ≢ none
  unfolding dispatch_exit
  exit_taken f s h = ground arith

  exit_refused :
      (f : Frame) (s : Session W)
      → (dispatch_exit f s).0 ≢ none
      → dispatch_exit f s ≡ (some protocol, s)
  unfolding dispatch_exit
  exit_refused f s h = ground arith

module _ {W : Type 0} (dev : Conn W) where
  -- The routing of a frame by its type.
  routes :
      (f : Frame) (s : Session W)
      → f.type ≢ frame_mux_close
      → (((f.type ≡ frame_data) ⊎ (f.type ≡ frame_eof) ⊎ (f.type ≡ frame_reset))
          × (dispatch dev f s ≡ dispatch_data f s))
        ⊎ ((f.type ≡ frame_window_update) × (dispatch dev f s ≡ dispatch_update f s))
        ⊎ ((f.type ≡ frame_set_winsize)
            × (f.stream ≡ stream_control)
            × (dispatch dev f s ≡ dispatch_winsize f s))
        ⊎ ((f.type ≡ frame_exit_status)
            × (f.stream ≡ stream_control)
            × (dispatch dev f s ≡ dispatch_exit f s))
        ⊎ ((f.type ≡ frame_mux_close_ack)
            × (f.stream ≡ stream_control)
            × (dispatch dev f s ≡ (none, record s { close_acked = true })))
        ⊎ ((dispatch dev f s ≡ (some protocol, s))
            × (frame_window_update ≤ f.type)
            × (f.type ≢ frame_window_update)
            × ((f.stream ≢ stream_control) ⊎ (frame_exit_status < f.type)))
  unfolding dispatch
  routes f s ne = ground arith

  -- What an accepted frame looks like from the outside.
  Accepts-type :
      {f : Frame} {s : Session W}
      → Accepts s f
      → (f.type < frame_window_update)
        ⊎ (f.type ≡ frame_window_update)
        ⊎ ((f.stream ≡ stream_control) × (f.type ≤ frame_exit_status))
  Accepts-type (data_fits st t _ _ _ _ _) = omega arith
  Accepts-type (half_close st (inl t) _ _) = omega arith
  Accepts-type (half_close st (inr t) _ _) = omega arith
  Accepts-type (credit st t _ _ _) = omega arith
  Accepts-type (sized_control (inl t) c _) = omega arith
  Accepts-type (sized_control (inr t) c _) = omega arith
  Accepts-type (ack t c) = omega arith

  accepted : (f : Frame) (s : Session W) → Accepts s f → (dispatch dev f s).0 ≡ none
  unfolding dispatch
  accepted f s (data_fits st t known e a b fits) = ground (
    arith,
    dispatch_data_found f s st known e,
    let ok : (deliver f.payload st).0 ≡ none = unfold deliver in ground arith in ok,
  )
  accepted f s (half_close st (inl t) known e) = ground (arith, dispatch_data_found f s st known e)
  accepted f s (half_close st (inr t) known e) = ground (arith, dispatch_data_found f s st known e)
  accepted f s (credit st t known e four) =
      ground (arith, dispatch_update_found f s st known e four)
  accepted f s (sized_control (inl t) c four) =
      unfold dispatch_winsize decode_winsize in ground arith
  accepted f s (sized_control (inr t) c four) = unfold dispatch_exit decode_uint32 in ground arith
  accepted f s (ack t c) = ground arith

  refused :
      (f : Frame) (s : Session W)
      → dispatch dev f s ≡ (some protocol, s)
      → ((dispatch dev f s).0 ≡ none × Accepts s f)
        ⊎ ((dispatch dev f s ≡ (some protocol, s)) × ¬ Accepts s f)
  refused f s e = inr (e, λ a. let q = accepted f s a in let r = ap (λ o. o.0) e in cc)

  taken :
      (f : Frame) (s : Session W) (o : Option MuxError × Session W)
      → dispatch dev f s ≡ o
      → (o.0 ≡ none → Accepts s f)
      → (o.0 ≢ none → o ≡ (some protocol, s))
      → ((dispatch dev f s).0 ≡ none × Accepts s f)
        ⊎ ((dispatch dev f s ≡ (some protocol, s)) × ¬ Accepts s f)
  taken f s (none, t) e yes_case no_case = inl (ap (λ o. o.0) e, yes_case refl)
  taken f s (some x, t) e yes_case no_case = refused f s (e ∙ no_case (λ q. cc))

  -- A session takes a frame other than MUX_CLOSE exactly when its type belongs on its stream, that
  -- stream is there, and the payload fits: DATA in the receive window of a stream without EOF or
  -- RESET, four bytes for WINDOW_UPDATE, SET_WINSIZE and EXIT_STATUS. EOF, RESET and MUX_CLOSE_ACK
  -- are taken whatever payload they carry. A frame that is not taken is a protocol violation and
  -- changes nothing.
  pub dispatch_accepts :
      (f : Frame) (s : Session W)
      → f.type ≢ frame_mux_close
      → ((dispatch dev f s).0 ≡ none × Accepts s f)
        ⊎ ((dispatch dev f s ≡ (some protocol, s)) × ¬ Accepts s f)
  dispatch_accepts f s ne = elim (routes f s ne) [
    | inl (t, e) ↦ taken f s _ e (dispatch_data-Accepts f s t) (dispatch_data_refused f s)
    | inr (inl (t, e)) ↦ taken f s _ e (dispatch_update-Accepts f s t) (dispatch_update_refused f s)
    | inr (inr (inl (t, c, e))) ↦
        taken f s _ e
          (λ h. sized_control (inl t) c (decode_winsize-none f.payload (winsize_taken f s h)))
          (winsize_refused f s)
    | inr (inr (inr (inl (t, c, e)))) ↦
        taken f s _ e
          (λ h. sized_control (inr t) c (decode_uint32-none f.payload (exit_taken f s h)))
          (exit_refused f s)
    | inr (inr (inr (inr (inl (t, c, e))))) ↦ taken f s _ e (λ h. ack t c) (λ h. absurd (h refl))
    | inr (inr (inr (inr (inr (e, lo, ne', far))))) ↦ refused f s e
  ]
