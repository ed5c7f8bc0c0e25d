-- ===== src/Mux/Session/Data/Reset.antt =====
-- What Stream.Reset of pkg/mux does to data that the peer has already sent.
use sandboxer.Prelude.{◌≡◌, refl, none, some, [], true, false, arith, ◌≢◌}
use sandboxer.Mux.Wire.{Conn, Source, IoError, frame_too_large, WriteEnd, done, stuck, failed}
use sandboxer.Mux.Frame.{Frame, frame, frame_data, frame_reset, write_frame}
use sandboxer.Mux.Stream.{Stream, protocol, reset, deliver}
use sandboxer.Mux.Session.{
  Session, find_stream, put_stream, set_err, close, retire_on, finish_write, send,
}
use sandboxer.Mux.Session.Dispatch.{find_stream-put_stream_self}
use sandboxer.Mux.Session.Loop.{with_stream, dispatch_data, dispatch, read_turn}
use sandboxer.Mux.Session.Data.{reset_stream}

module _ {W : Type 0} (dev : Conn W) where
  retire_on-streams : (e : IoError) (s : Session W) → (retire_on dev e s).1.streams ≡ s.streams
  unfolding retire_on close set_err
  retire_on-streams frame_too_large s = refl
  retire_on-streams e s = ground arith

  finish_write-streams :
      (s : Session W) (out : WriteEnd × W) → (finish_write dev s out).1.streams ≡ s.streams
  unfolding finish_write
  finish_write-streams s (done, w) = refl
  finish_write-streams s (stuck, w) = refl
  finish_write-streams s (failed e, w) = retire_on-streams e (record s { conn = w })

  send-streams : (f : Frame) (s : Session W) → (send dev f s).1.streams ≡ s.streams
  unfolding send
  send-streams f s = ground (
    arith,
    finish_write-streams s (write_frame dev s.conn f),
    finish_write-streams (record s { sealed = true }) (write_frame dev s.conn f),
  )

  reset_stream-streams :
      (st : Stream) (s : Session W)
      → st.w_reset ≡ false
      → (reset_stream dev st s).1.streams
        ≡ put_stream (record st { w_reset = true; r_reset = true }) s.streams
  unfolding reset_stream reset
  reset_stream-streams st s h = ground (
    arith,
    send-streams (record { stream = st.id; type = frame_reset; payload = [] })
        (with_stream s (record st { w_reset = true; r_reset = true })),
  )

  dispatch_data_reset :
      (f : Frame) (s : Session W) (st : Stream)
      → f.type ≡ frame_data
      → find_stream f.stream s.streams ≡ some st
      → st.r_reset ≡ true
      → (dispatch dev f s).0 ≡ some protocol
  unfolding dispatch dispatch_data deliver
  dispatch_data_reset f s st t e r = ground arith

  torn_down :
      (f : Frame) (src : Source) (s : Session W)
      → (dispatch dev f s).0 ≡ some protocol
      → ((read_turn dev (frame f src) s).1 ≡ true)
        × ((read_turn dev (frame f src) s).0.retired ≡ true)
        × ((read_turn dev (frame f src) s).0.err ≢ none)
  unfolding read_turn close set_err
  torn_down f src s h = ground arith

  -- After a local Reset of a stream, a DATA frame that the peer had already sent on it is a
  -- protocol violation: the read loop stops with an error and retires the whole session.
  pub reset_then_data :
      (st : Stream) (s : Session W) (f : Frame) (src : Source)
      → st.w_reset ≡ false
      → find_stream st.id s.streams ≡ some st
      → f.type ≡ frame_data
      → f.stream ≡ st.id
      → ((read_turn dev (frame f src) (reset_stream dev st s).1).1 ≡ true)
        × ((read_turn dev (frame f src) (reset_stream dev st s).1).0.retired ≡ true)
        × ((read_turn dev (frame f src) (reset_stream dev st s).1).0.err ≢ none)
  reset_then_data st s f src w e t i = torn_down f src (reset_stream dev st s).1 (
      dispatch_data_reset f (reset_stream dev st s).1 (record st { w_reset = true; r_reset = true })
        t
        (rw (i, reset_stream-streams st s w)
          (find_stream-put_stream_self s.streams (record st { w_reset = true; r_reset = true }) st
            e))
        refl)
