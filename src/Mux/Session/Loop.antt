-- ===== src/Mux/Session/Loop.antt =====
-- The read loop of pkg/mux/session.go, dispatch, and the calls that write to a session's streams.
pub mod Ends
pub mod Handshake
pub mod Steps
use sandboxer.Prelude.{
  ℕ, zero, suc, Option, none, some, [], ◌∷◌, map, ◌==◌, if◌then◌else◌, ◌||◌, ◌&&◌, not, Bool, true,
  false, length,
}
use sandboxer.Mux.Wire.{eof, Conn, Source}
use sandboxer.Mux.Frame.{
  Frame, FrameResult, frame, bad_header, bad_payload, read_frame, stream_control, frame_data,
  frame_eof, frame_reset, frame_window_update, frame_set_winsize, frame_mux_close,
  frame_mux_close_ack, frame_exit_status, is_data_stream, decode_uint32, decode_winsize,
}
use sandboxer.Mux.Stream.{
  Stream, MuxError, protocol, end_of_file, in_header, in_payload, deliver, deliver_eof,
  deliver_reset, add_credit, shutdown,
}
use sandboxer.Mux.Session.{Session, find_stream, put_stream, set_err, close, send, control}

module _ {W : Type 0} where
  -- A stream of the session after an operation on it.
  abbrev pub with_stream : Session W → Stream → Session W
  with_stream s st = record s { streams = put_stream st s.streams }

  delivered : Session W → Option MuxError × Stream → Option MuxError × Session W
  delivered s (e, st) = (e, with_stream s st)

  -- DATA, EOF and RESET for a stream of the negotiated set.
  unfoldable pub dispatch_data : Frame → Session W → Option MuxError × Session W
  unfolding delivered
  dispatch_data f s =
      if not (is_data_stream f.stream)
      then (some protocol, s)
      else elim (find_stream f.stream s.streams) [
        | none ↦ (some protocol, s)
        | some st ↦
            if f.type == frame_data
            then delivered s (deliver f.payload st)
            else if f.type == frame_eof
            then (none, with_stream s (deliver_eof st))
            else (none, with_stream s (deliver_reset st))
      ]

  unfoldable pub dispatch_update : Frame → Session W → Option MuxError × Session W
  dispatch_update f s =
      if not (is_data_stream f.stream)
      then (some protocol, s)
      else elim (find_stream f.stream s.streams) [
        | none ↦ (some protocol, s)
        | some st ↦ elim (decode_uint32 f.payload) [
          | none ↦ (some protocol, s)
          | some delta ↦ (none, with_stream s (add_credit delta st))
        ]
      ]

  unfoldable pub dispatch_winsize : Frame → Session W → Option MuxError × Session W
  dispatch_winsize f s = elim (decode_winsize f.payload) [
    | none ↦ (some protocol, s)
    | some size ↦ (none, if s.on_set_winsize then record s { winsizes = size ∷ s.winsizes } else s)
  ]

  -- The first exit status stays.
  unfoldable pub dispatch_exit : Frame → Session W → Option MuxError × Session W
  dispatch_exit f s = elim (decode_uint32 f.payload) [
    | none ↦ (some protocol, s)
    | some code ↦ (none, if s.exit_recv then s else record s { exit_code = code; exit_recv = true })
  ]

  -- What the deferred functions of readLoop do when it returns.
  unfoldable pub finish : Session W → Session W
  finish s = record s {
    retired = true;
    streams = map shutdown s.streams;
    close_acked = true;
    finished = true;
  }

module _ {W : Type 0} (dev : Conn W) where
  acknowledged : Option MuxError × Session W → Option MuxError × Session W
  acknowledged (some e, s) = (some e, s)
  acknowledged (none, s) = (none, close dev s)

  -- MUX_CLOSE: acknowledge, then close the connection.
  unfoldable pub dispatch_close : Session W → Option MuxError × Session W
  unfolding acknowledged control
  dispatch_close s = acknowledged (
      send dev (control frame_mux_close_ack [])
        (record s { peer_closed = true; resp_closed = true }))

  unfoldable pub dispatch : Frame → Session W → Option MuxError × Session W
  dispatch f s =
      let on_control = f.stream == stream_control in
      if f.type == frame_data || f.type == frame_eof || f.type == frame_reset
      then dispatch_data f s
      else if f.type == frame_window_update
      then dispatch_update f s
      else if f.type == frame_set_winsize
      then (if on_control then dispatch_winsize f s else (some protocol, s))
      else if f.type == frame_mux_close
      then (if on_control then dispatch_close s else (some protocol, s))
      else if f.type == frame_mux_close_ack
      then (if on_control then (none, record s { close_acked = true }) else (some protocol, s))
      else if f.type == frame_exit_status
      then (if on_control then dispatch_exit f s else (some protocol, s))
      else (some protocol, s)

  -- A read error other than io.EOF is kept, unless we closed the connection as responder.
  unfoldable pub read_lost : MuxError → Bool → Session W → Session W
  read_lost e is_eof s =
      let s' = close dev s in if not is_eof && not s.resp_closed then set_err e s' else s'

  dispatched : Frame → Option MuxError × Session W → Session W × Bool
  dispatched f (some e, s) = (close dev (set_err e s), true)
  dispatched f (none, s) =
      (s, f.type == frame_mux_close || f.type == frame_mux_close_ack && s.close_initiated)

  -- One turn of the loop, and whether the loop returns after it.
  unfoldable pub read_turn : FrameResult → Session W → Session W × Bool
  unfolding dispatched
  read_turn (frame f _) s = dispatched f (dispatch f s)
  read_turn (bad_header eof) s = (read_lost end_of_file true s, true)
  read_turn (bad_header e) s = (read_lost (in_header e) false s, true)
  read_turn (bad_payload e) s = (read_lost (in_payload e) false s, true)

  after_turn : FrameResult → Session W × Bool → (Source → Session W → Session W) → Session W
  after_turn r (s, true) again = finish s
  after_turn (frame f src) (s, false) again = again src s
  after_turn _ (s, false) again = finish s

  -- The loop alone, over what the connection delivers. A frame takes four bytes at least.
  read_loop_fuel : ℕ → Source → Session W → Session W
  unfolding after_turn
  read_loop_fuel zero src s = s
  read_loop_fuel (suc fuel) src s =
      after_turn (read_frame src) (read_turn (read_frame src) s)
        (λ src' s'. read_loop_fuel fuel src' s')

  unfoldable pub read_loop : Source → Session W → Session W
  unfolding read_loop_fuel
  read_loop src s = read_loop_fuel (suc (length src.bytes)) src s
