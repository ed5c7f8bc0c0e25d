-- ===== src/Mux/Session.antt =====
-- pkg/mux/session.go: the frames of one connection, dispatched and written. Each function is one
-- stretch that the source runs under a lock or on the read loop alone. A channel that is only
-- ever closed is a flag; the connection is an interface (Mux.Wire.Conn).
pub mod Loop
pub mod Data
pub mod Barrier
pub mod Trace
pub mod Dispatch
use sandboxer.Prelude.{
  ℕ, zero, suc, ◌+◌, ◌-◌, ◌%◌, ◌^◌, ◌<◌, Option, none, some, List, [], ◌∷◌, ◌++◌, map, ltb, leb,
  ◌==◌, if◌then◌else◌, ◌||◌, ◌&&◌, not, Bool, true, false, length, take, drop, min,
}
use sandboxer.Mux.Wire.{IoError, frame_too_large, eof, Conn, WriteEnd, done, stuck, failed, Source}
use sandboxer.Mux.Frame.{
  Frame, FrameResult, frame, bad_header, bad_payload, write_frame, read_frame, data_chunk,
  default_window, stream_control, stream_stdin, stream_stdout, stream_stderr, stream_pty,
  frame_data, frame_eof, frame_reset, frame_window_update, frame_set_winsize, frame_mux_close,
  frame_mux_close_ack, frame_exit_status, is_data_stream, decode_uint32, decode_winsize,
  encode_uint32, encode_winsize,
}
use sandboxer.Mux.Stream.{
  Stream, MuxError, closed, protocol, in_header, in_payload, in_write, new_stream, deliver,
  deliver_eof, deliver_reset, add_credit, shutdown, acquire_up_to, Acquire, acquire_blocked,
  acquire_failed, acquired, write_refused,
}

-- `winsizes` are the calls of OnSetWinsize, newest first; `on_set_winsize` tells whether it is set.
-- `exit_code` is the int32's bit pattern. `finished` is the closed doneCh.
pub record Session (W : Type 0) : Type 0 where
  pub conn : W
  pub window : ℕ
  pub sealed : Bool
  pub retired : Bool
  pub streams : List Stream
  pub close_initiated : Bool
  pub close_acked : Bool
  pub peer_closed : Bool
  pub resp_closed : Bool
  pub on_set_winsize : Bool
  pub winsizes : List (ℕ × ℕ)
  pub exit_code : ℕ
  pub exit_recv : Bool
  pub err : Option MuxError
  pub finished : Bool

-- The map of streams, by id.
unfoldable pub find_stream : ℕ → List Stream → Option Stream
find_stream id [] = none
find_stream id (st ∷ sts) = if st.id == id then some st else find_stream id sts

unfoldable pub put_stream : Stream → List Stream → List Stream
put_stream new [] = []
put_stream new (st ∷ sts) = if st.id == new.id then new ∷ sts else st ∷ put_stream new sts

-- `window` is opt.Window of a 64-bit int pattern, 0 and negative values standing for the default.
unfoldable pub new_session : {W : Type 0} → W → List ℕ → ℕ → Bool → Session W
new_session conn ids window hook =
    let w = if ltb 0 window && ltb window (2 ^ 63) then window else default_window in
    record {
      conn = conn;
      window = w;
      sealed = false;
      retired = false;
      streams = map (λ id. new_stream id w) ids;
      close_initiated = false;
      close_acked = false;
      peer_closed = false;
      resp_closed = false;
      on_set_winsize = hook;
      winsizes = [];
      exit_code = 0;
      exit_recv = false;
      err = none;
      finished = false;
    }

-- PipeStreams and PTYStreams: the ids of a negotiated set.
unfoldable pub pipe_streams : Bool → Bool → Bool → List ℕ
pipe_streams stdin stdout stderr =
    (if stdin then stream_stdin ∷ [] else [])
    ++ (if stdout then stream_stdout ∷ [] else [])
    ++ (if stderr then stream_stderr ∷ [] else [])

abbrev pub pty_streams : List ℕ
pty_streams = stream_pty ∷ []

-- setErr: the first error stays.
unfoldable pub set_err : {W : Type 0} → MuxError → Session W → Session W
set_err e s = elim s.err [ some old ↦ s | none ↦ record s { err = some e } ]

unfoldable pub control : ℕ → List ℕ → Frame
control t p = record { stream = stream_control; type = t; payload = p }

-- ExitStatus: the int32 sign-extended to a 64-bit int pattern, and whether it came.
unfoldable pub exit_status : {W : Type 0} → Session W → ℕ × Bool
exit_status s =
    (if ltb s.exit_code (2 ^ 31) then s.exit_code else s.exit_code + (2 ^ 64 - 2 ^ 32), s.exit_recv)

-- InitMuxClose up to its wait: `await_ack` is the wait of a second caller for the ACK alone.
pub data CloseStep : Type 0 where
  await_ack await_ack_or_done : CloseStep
  close_failed : MuxError → CloseStep

-- The two tests of writeFrame, and the mark of a closing frame.
abbrev pub is_shut : {W : Type 0} → Frame → Session W → Bool
is_shut f s = s.retired || (s.sealed && not (f.type == frame_mux_close_ack))

abbrev pub is_late : {W : Type 0} → Frame → Session W → Bool
is_late f s = f.type == frame_data && s.close_initiated

abbrev pub marked : {W : Type 0} → Frame → Session W → Session W
marked f s =
    if f.type == frame_mux_close || f.type == frame_mux_close_ack
    then record s { sealed = true }
    else s

module _ {W : Type 0} (dev : Conn W) where
  -- Close: it waits for the writer lock only after this, so that it may fall into a write.
  unfoldable pub close : Session W → Session W
  close s = record s { retired = true; conn = dev.close s.conn }

  -- A failed write that is no refusal of the frame retires the session.
  retire_on : IoError → Session W → Option MuxError × Session W
  unfolding set_err close
  retire_on frame_too_large s = (some (in_write frame_too_large), s)
  retire_on e s = (some (in_write e), close (set_err (in_write e) s))

  -- `stuck` is no outcome of the source: the fuel of write_all is one turn for each byte.
  pub finish_write : Session W → WriteEnd × W → Option MuxError × Session W
  unfolding retire_on
  finish_write s (done, w) = (none, record s { conn = w })
  finish_write s (stuck, w) = (some closed, record s { conn = w })
  finish_write s (failed e, w) = retire_on e (record s { conn = w })

  -- writeFrame, under wmu.
  unfoldable pub send : Frame → Session W → Option MuxError × Session W
  unfolding finish_write
  send f s =
      if is_shut f s
      then (some closed, s)
      else if is_late f s
      then (some closed, s)
      else finish_write (marked f s) (write_frame dev s.conn f)

  unfoldable pub set_winsize : ℕ → ℕ → Session W → Option MuxError × Session W
  unfolding control
  set_winsize cols rows = send (control frame_set_winsize (encode_winsize cols rows))

  -- SendExitStatus: `uint32(int32(code))` of a 64-bit int pattern.
  unfoldable pub send_exit_status : ℕ → Session W → Option MuxError × Session W
  unfolding control
  send_exit_status code = send (control frame_exit_status (encode_uint32 (code % 2 ^ 32)))

  after_close : Option MuxError × Session W → CloseStep × Session W
  after_close (some e, s) = (close_failed e, s)
  after_close (none, s) = (await_ack_or_done, s)

  unfoldable pub init_mux_close : Session W → CloseStep × Session W
  unfolding control after_close
  init_mux_close s =
      if s.close_initiated
      then (await_ack, s)
      else after_close (send (control frame_mux_close []) (record s { close_initiated = true }))
