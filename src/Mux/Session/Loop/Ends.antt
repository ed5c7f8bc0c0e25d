-- ===== src/Mux/Session/Loop/Ends.antt =====
-- How readLoop of pkg/mux/session.go ends, and its turns as steps of Mux.Session.Trace.
use sandboxer.Prelude.{
  ℕ, zero, suc, ◌<◌, ◌≡◌, refl, List, [], ◌∷◌, map, Bool, true, false, length, arith, All,
}
use sandboxer.Mux.Wire.{Conn, Source}
use sandboxer.Mux.Frame.{Frame, FrameResult, frame, bad_header, bad_payload, read_frame}
use sandboxer.Mux.Frame.Progress.{read_frame_consumes}
use sandboxer.Mux.Stream.{Stream, shutdown}
use sandboxer.Mux.Session.{Session}
use sandboxer.Mux.Session.Loop.{finish, read_turn, after_turn, read_loop_fuel, read_loop}

shutdown-dead : (sts : List Stream) → All (λ (st : Stream). st.dead ≡ true) (map shutdown sts)
unfolding shutdown
shutdown-dead [] = tt
shutdown-dead (st ∷ sts) = (refl, shutdown-dead sts)

module _ {W : Type 0} where
  -- The state in which readLoop leaves a session: every stream is dead, so that no Read or Write
  -- waits on; the waits of InitMuxClose and of Done are over; nothing more is written.
  pub record Ended (s : Session W) : Type 0 where
    pub over : s.finished ≡ true
    pub silent : s.retired ≡ true
    pub acked : s.close_acked ≡ true
    pub dead : All (λ (st : Stream). st.dead ≡ true) s.streams

  finish-Ended : (s : Session W) → Ended (finish s)
  unfolding finish
  finish-Ended s = record {
    over = refl;
    silent = refl;
    acked = refl;
    dead = shutdown-dead s.streams;
  }

module _ {W : Type 0} (dev : Conn W) where
  -- A turn on a frame goes on with what follows it, any other turn ends the loop.
  after_turn-Ended :
      (r : FrameResult) (o : Session W × Bool) (again : Source → Session W → Session W)
      → ((f : Frame) (t : Source) → r ≡ frame f t → Ended (again t o.0))
      → Ended (after_turn dev r o again)
  unfolding after_turn
  after_turn-Ended r (s, true) again h = finish-Ended s
  after_turn-Ended (frame f t) (s, false) again h = h f t refl
  after_turn-Ended (bad_header e) (s, false) again h = finish-Ended s
  after_turn-Ended (bad_payload e) (s, false) again h = finish-Ended s

  read_loop_fuel-Ended :
      (fuel : ℕ) (src : Source) (s : Session W)
      → length src.bytes < fuel
      → Ended (read_loop_fuel dev fuel src s)
  unfolding read_loop_fuel
  read_loop_fuel-Ended zero src s h = absurd (omega arith)
  read_loop_fuel-Ended (suc fuel) src s h =
      after_turn-Ended (read_frame src) (read_turn dev (read_frame src) s) _
        (λ f t e. read_loop_fuel-Ended fuel t _ (omega (arith, read_frame_consumes src t f e)))

  -- On whatever bytes the connection delivers and however they end, the read loop ends, the fuel
  -- of one turn for each byte and one more being enough, and it releases everybody who waits.
  pub read_loop-Ended : (src : Source) (s : Session W) → Ended (read_loop dev src s)
  unfolding read_loop
  read_loop-Ended src s = read_loop_fuel-Ended (suc (length src.bytes)) src s (omega arith)
