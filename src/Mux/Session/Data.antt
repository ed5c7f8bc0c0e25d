-- ===== src/Mux/Session/Data.antt =====
-- Stream.Read, Stream.Write, CloseWrite and Reset of pkg/mux/stream.go together with the frames
-- that they write through the session (writeData of session.go).
pub mod Reset
use sandboxer.Prelude.{
  ℕ, zero, suc, ◌+◌, Option, none, some, List, [], ◌∷◌, if◌then◌else◌, ◌||◌, length, take, drop,
  min,
}
use sandboxer.Mux.Wire.{Conn}
use sandboxer.Mux.Frame.{Frame, data_chunk, frame_data}
use sandboxer.Mux.Stream.{
  Stream, MuxError, closed, read_blocked, read_failed, read_bytes, read, acquire_up_to,
  acquire_blocked, acquire_failed, acquired, write_refused, close_write, reset,
}
use sandboxer.Mux.Session.{Session, find_stream, send}
use sandboxer.Mux.Session.Loop.{with_stream}

-- What a call on a stream comes back with. `waiting` is no return: it is blocked on st.cond, and
-- a Write has `left` bytes to go.
pub data CallEnd : Type 0 where
  returned : ℕ → Option MuxError → CallEnd
  waiting : ℕ → CallEnd

module _ {W : Type 0} (dev : Conn W) where
  -- Read: an update that cannot be written gives its error with the bytes, unless the session
  -- was closed in order (ErrClosed with no recorded error).
  after_update : Option MuxError × Session W → Option MuxError × Session W
  after_update (none, s) = (none, s)
  after_update (some closed, s) = elim s.err [ none ↦ (none, s) | some e ↦ (some closed, s) ]
  after_update (some e, s) = (some e, s)

  -- none: the call waits for data.
  unfoldable pub read_stream :
      ℕ → Stream → Session W → Option (List ℕ × Option MuxError × Session W)
  unfolding after_update
  read_stream room st s = elim (read room st) [
    | read_blocked ↦ none
    | read_failed e ↦ some ([], some e, s)
    | read_bytes bytes none st' ↦ some (bytes, none, with_stream s st')
    | read_bytes bytes (some f) st' ↦
        let (e, s') = after_update (send dev f (with_stream s st')) in some (bytes, e, s')
  ]

  data_frame : ℕ → List ℕ → Frame
  data_frame id p = record { stream = id; type = frame_data; payload = p }

  after_data :
      Option MuxError × Session W → ℕ → (Session W → CallEnd × Session W) → CallEnd × Session W
  after_data (some e, s) total again = (returned total (some e), s)
  after_data (none, s) total again = again s

  -- The stream's state is looked up again on every turn: the session is what holds it.
  turn :
      Option Stream
      → List ℕ
      → ℕ
      → Session W
      → (List ℕ → ℕ → Session W → CallEnd × Session W)
      → CallEnd × Session W
  unfolding after_data data_frame
  turn none b total s again = (returned total (some closed), s)
  turn (some st) b total s again =
      elim (acquire_up_to (min (length b) data_chunk) s.close_initiated st) [
        | acquire_blocked ↦ (waiting (length b), s)
        | acquire_failed e ↦ (returned total (some e), s)
        | acquired n st' ↦
            after_data (send dev (data_frame st.id (take n b)) (with_stream s st')) total
              (again (drop n b) (total + n))
      ]

  -- writeData with no other goroutine in between. A turn sends a byte at least.
  write_data_fuel : ℕ → ℕ → List ℕ → ℕ → Session W → CallEnd × Session W
  unfolding turn
  write_data_fuel fuel id [] total s = (returned total none, s)
  write_data_fuel zero id (x ∷ b) total s = (waiting (length (x ∷ b)), s)
  write_data_fuel (suc fuel) id (x ∷ b) total s =
      turn (find_stream id s.streams) (x ∷ b) total s
        (λ b' total' s'. write_data_fuel fuel id b' total' s')

  unfoldable pub write_data : ℕ → List ℕ → Session W → CallEnd × Session W
  unfolding write_data_fuel
  write_data id b s = write_data_fuel (length b) id b 0 s

  -- Stream.Write.
  unfoldable pub write_stream : Stream → List ℕ → Session W → CallEnd × Session W
  write_stream st b s =
      if write_refused st || s.close_initiated
      then (returned 0 (some closed), s)
      else write_data st.id b s

  send_if : Option Frame → Session W → Option MuxError × Session W
  send_if none s = (none, s)
  send_if (some f) s = send dev f s

  unfoldable pub close_write_stream : Stream → Session W → Option MuxError × Session W
  unfolding send_if
  close_write_stream st s = let (f, st') = close_write st in send_if f (with_stream s st')

  unfoldable pub reset_stream : Stream → Session W → Option MuxError × Session W
  unfolding send_if
  reset_stream st s = let (f, st') = reset st in send_if f (with_stream s st')
