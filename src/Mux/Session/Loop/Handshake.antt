-- ===== src/Mux/Session/Loop/Handshake.antt =====
-- The control frames of pkg/mux/session.go from one end to the other: the exit status of an exec
-- session, and the graceful close of InitMuxClose.
use sandboxer.Prelude.{
  ℕ, ◌-◌, ◌%◌, ◌^◌, ◌<◌, ◌≤◌, ◌≡◌, refl, ap, ◌∙◌, none, List, [], ◌∷◌, Bool, true, false, arith,
  ◌⊎◌,
}
use sandboxer.Mux.Wire.{Conn, IoError, frame_too_large, WriteEnd, done, stuck, failed}
use sandboxer.Mux.Frame.{Frame, frame_exit_status, frame_mux_close_ack, encode_uint32, write_frame}
use sandboxer.Mux.Frame.RoundTrip.{decode_uint32-encode_uint32}
use sandboxer.Mux.Session.{
  Session, set_err, close, send, finish_write, retire_on, exit_status, control,
}
use sandboxer.Mux.Session.Loop.{
  dispatch_data, dispatch_update, dispatch_winsize, dispatch_exit, dispatch_close, dispatch,
}

-- A 64-bit int that an int32 holds: the exit codes, 128 and a signal number included.
abbrev pub IsInt32 : ℕ → Type 0
IsInt32 code = (code < 2 ^ 31) ⊎ ((2 ^ 64 - 2 ^ 31 ≤ code) × (code < 2 ^ 64))

module _ {W : Type 0} (dev : Conn W) where
  -- The fields of the exit relay, which every other branch leaves alone.
  abbrev SameExit : Session W → Session W → Type 0
  SameExit s t = (t.exit_code ≡ s.exit_code) × (t.exit_recv ≡ s.exit_recv)

  retire_on-SameExit : (e : IoError) (s : Session W) → SameExit s (retire_on dev e s).1
  unfolding retire_on close set_err
  retire_on-SameExit frame_too_large s = (refl, refl)
  retire_on-SameExit e s = ground arith

  finish_write-SameExit :
      (s : Session W) (out : WriteEnd × W) → SameExit s (finish_write dev s out).1
  unfolding finish_write
  finish_write-SameExit s (done, w) = (refl, refl)
  finish_write-SameExit s (stuck, w) = (refl, refl)
  finish_write-SameExit s (failed e, w) = retire_on-SameExit e (record s { conn = w })

  send-SameExit : (f : Frame) (s : Session W) → SameExit s (send dev f s).1
  unfolding send
  send-SameExit f s = ground (
    arith,
    finish_write-SameExit s (write_frame dev s.conn f),
    finish_write-SameExit (record s { sealed = true }) (write_frame dev s.conn f),
  )

  dispatch_close-SameExit : (s : Session W) → SameExit s (dispatch_close dev s).1
  unfolding dispatch_close close
  dispatch_close-SameExit s = ground (
    arith,
    send-SameExit (control frame_mux_close_ack [])
        (record s { peer_closed = true; resp_closed = true }),
  )

  dispatch_data-SameExit : (f : Frame) (s : Session W) → SameExit s (dispatch_data f s).1
  unfolding dispatch_data
  dispatch_data-SameExit f s = ground arith

  dispatch_update-SameExit : (f : Frame) (s : Session W) → SameExit s (dispatch_update f s).1
  unfolding dispatch_update
  dispatch_update-SameExit f s = ground arith

  -- Once an exit status has come, no frame of any kind changes it.
  dispatch-SameExit :
      (f : Frame) (s : Session W) → s.exit_recv ≡ true → SameExit s (dispatch dev f s).1
  unfolding dispatch dispatch_winsize dispatch_exit
  dispatch-SameExit f s h =
      ground
        (arith, dispatch_close-SameExit s, dispatch_data-SameExit f s, dispatch_update-SameExit f s)

  -- A run of the read loop's dispatch over frames, as long as they are taken.
  unfoldable pub dispatch_all : List Frame → Session W → Session W
  dispatch_all [] s = s
  dispatch_all (f ∷ fs) s = dispatch_all fs (dispatch dev f s).1

  dispatch_all-SameExit :
      (fs : List Frame) (s : Session W) → s.exit_recv ≡ true → SameExit s (dispatch_all fs s)
  unfolding dispatch_all
  dispatch_all-SameExit [] s h = (refl, refl)
  dispatch_all-SameExit (f ∷ fs) s h =
      let one = dispatch-SameExit f s h in
      let rest = dispatch_all-SameExit fs (dispatch dev f s).1 (one.1 ∙ h) in
      (rest.0 ∙ one.0, rest.1 ∙ one.1)

  exit_frame :
      (code : ℕ) (s : Session W)
      → s.exit_recv ≡ false
      → dispatch dev (control frame_exit_status (encode_uint32 (code % 2 ^ 32))) s
        ≡ (none, record s { exit_code = code % 2 ^ 32; exit_recv = true })
  unfolding dispatch dispatch_exit control
  exit_frame code s r =
      rw (decode_uint32-encode_uint32 (code % 2 ^ 32) (omega arith), dispatch_exit) (ground arith)

  -- The exit code that the peer sent with SendExitStatus, any int that an int32 holds, is the one
  -- that ExitStatus returns, whatever frames come after it, a second exit status included.
  pub exit_status_first :
      (code : ℕ) (fs : List Frame) (s : Session W)
      → IsInt32 code
      → s.exit_recv ≡ false
      → exit_status
          (dispatch_all (control frame_exit_status (encode_uint32 (code % 2 ^ 32)) ∷ fs) s)
        ≡ (code, true)
  unfolding dispatch_all exit_status
  exit_status_first code fs s r h =
      let first = exit_frame code s h in
      let keep =
        dispatch_all-SameExit fs (record s { exit_code = code % 2 ^ 32; exit_recv = true }) refl in
      ap (λ o. exit_status (dispatch_all fs o.1)) first ∙ ground (arith, keep)

-- What the graceful close leaves behind, on the responder's and on the initiator's side.
pub record ClosedByPeer {W : Type 0} (dev : Conn W) (b : Session W) (turn : Session W × Bool)
    : Type 0 where
  pub stops : turn.1 ≡ true
  pub seen : turn.0.peer_closed ≡ true
  pub closed : turn.0.conn ≡ dev.close (write_frame dev b.conn (control frame_mux_close_ack [])).1
  pub silent : (turn.0.retired ≡ true) × (turn.0.sealed ≡ true)
  pub no_error : turn.0.err ≡ b.err

pub record ClosedByAck {W : Type 0} (a : Session W) (turn : Session W × Bool) : Type 0 where
  pub stops : turn.1 ≡ true
  pub acked : turn.0.close_acked ≡ true
  pub no_error : turn.0.err ≡ a.err
